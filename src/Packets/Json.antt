-- ===== src/Packets/Json.antt =====
-- The JSON values of Zeek's records and the conversions that the adapters of
-- backend/app/engines/packet_intelligence/adapters make: `float`, `int`, `str`, `datetime.fromtimestamp`.
-- Of Python, a parameter: how a text is read as a number, how a number that is not whole and a
-- container are written, and up to which number of seconds the platform has times.
use net_sleuth_ai.Shared.{
  ℕ, ◌+◌, ◌-◌, ◌*◌, ◌/◌, String, Bool, true, false, not, ◌&&◌, ◌||◌, Option, none, some, ltb, eqb,
  ◌==◌, if◌then◌else◌, Result, ok, err, decimal, concat, [], ◌∷◌,
}
use net_sleuth_ai.Correlation.Domain.{
  Timestamp, Float, finite, infinite, not_a_number, Integer, whole,
}

mutual
  pub data Json : Type 0 where
    null : Json
    boolean : (b : Bool) → Json
    integer : (n : Integer) → Json
    real : (x : Float) → Json
    text : (s : String) → Json
    array : (items : Values) → Json
    object : (fields : Fields) → Json

  pub data Values : Type 0 where
    no_value : Values
    value : (v : Json) (rest : Values) → Values

  pub data Fields : Type 0 where
    no_field : Fields
    field : (name : String) (v : Json) (rest : Fields) → Fields

-- `data.get(key)`
unfoldable pub get : String → Fields → Json
get key no_field = null
get key (field name v rest) = if name == key then v else get key rest

-- `key in data`
unfoldable pub has : String → Fields → Bool
has key no_field = false
has key (field name v rest) = name == key || has key rest

-- `bool(v)`
abbrev pub is_truthy : Json → Bool
is_truthy null = false
is_truthy (boolean b) = b
is_truthy (integer (whole negative n)) = not (eqb n 0)
is_truthy (real (finite negative n)) = not (eqb n 0)
is_truthy (real x) = true
is_truthy (text s) = not (s == "")
is_truthy (array no_value) = false
is_truthy (array (value v rest)) = true
is_truthy (object no_field) = false
is_truthy (object (field name v rest)) = true

-- `v == "-"`
abbrev pub is_dash : Json → Bool
is_dash (text s) = s == "-"
is_dash v = false

-- `v is None or v == "-"`
abbrev pub is_absent : Json → Bool
is_absent null = true
is_absent v = is_dash v

-- `a or b`
abbrev pub either : Json → Json → Json
either a b = if is_truthy a then a else b

pub record Python : Type 0 where
  pub read_float : String → Option Float
  pub read_int : String → Option Integer
  pub shown : Json → String
  pub last_second : ℕ

-- An exception of a conversion. A `ValidationError` is pydantic's.
pub data Raised : Type 0 where
  value_error type_error overflow_error validation_error : Raised

abbrev pub or_raise {ℓ} : {A : Type ℓ} → Raised → Option A → Result Raised A
or_raise raised none = err raised
or_raise raised (some a) = ok a

abbrev million : ℕ
million = 1000000

unfoldable pub float_of : Python → Json → Result Raised Float
float_of py (boolean true) = ok (finite false million)
float_of py (boolean false) = ok (finite false 0)
float_of py (integer (whole negative n)) = ok (finite negative (n * million))
float_of py (real x) = ok x
float_of py (text s) = or_raise value_error (py.read_float s)
float_of py v = err type_error

-- Towards zero.
abbrev truncate : Bool → ℕ → Integer
truncate negative n = whole (negative && not (ltb n million)) (n / million)

unfoldable pub int_of : Python → Json → Result Raised Integer
int_of py (boolean true) = ok (whole false 1)
int_of py (boolean false) = ok (whole false 0)
int_of py (integer n) = ok n
int_of py (real (finite negative n)) = ok (truncate negative n)
int_of py (real (infinite negative)) = err overflow_error
int_of py (real not_a_number) = err value_error
int_of py (text s) = or_raise value_error (py.read_int s)
int_of py v = err type_error

unfoldable pub str_of : Python → Json → String
str_of py null = "None"
str_of py (boolean true) = "True"
str_of py (boolean false) = "False"
str_of py (integer (whole negative n)) = concat ((if negative then "-" else "") ∷ decimal n ∷ [])
str_of py (text s) = s
str_of py v = py.shown v

-- The moments count microseconds since the first of January of the year 1.
abbrev pub epoch : ℕ
epoch = 62135596800000000

abbrev pub end_of_time : ℕ
end_of_time = 315537897600000000

unfoldable pub from_timestamp : Python → Float → Result Raised Timestamp
from_timestamp py not_a_number = err value_error
from_timestamp py (infinite negative) = err overflow_error
from_timestamp py (finite negative n) =
    if ltb (py.last_second * million) n
    then err overflow_error
    else if negative && ltb epoch n
    then err value_error
    else if negative
    then ok (record { moment = epoch - n; tz_aware = true })
    else if ltb (epoch + n) end_of_time
    then ok (record { moment = epoch + n; tz_aware = true })
    else err value_error
