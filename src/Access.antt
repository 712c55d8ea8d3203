-- ===== src/Access.antt =====
-- Authentication and access to cases (backend/app/auth/dependencies.py, jwt.py and router.py, and
-- backend/app/persistence/repositories/identity_repository.py). The hash of passwords, the tokens'
-- encoding and the parser of UUIDs are other libraries' and come as a record. Addresses of the
-- client are left out, and that a write of the audit log fails.
pub mod Guard
pub mod Session
mod Examples
use net_sleuth_ai.Shared.{
  ℕ, ◌+◌, ◌<◌, String, Bool, true, false, not, ◌&&◌, ◌||◌, Option, none, some, List, [], ◌∷◌, ◌++◌,
  map, ◌≡◌, ◌==◌, if◌then◌else◌, any, elem, prefix, Result, ok, err,
}

pub record UserModel : Type 0 where
  pub user_id : String
  pub username : String
  pub email : String
  pub hashed_password : Option String
  pub role : String
  pub is_active : Bool
  pub last_login_at : Option ℕ

-- `access_level` and `expires_at` are columns that nothing reads.
pub record CaseAccessModel : Type 0 where
  pub user_id : String
  pub case_id : String
  pub access_level : String
  pub expires_at : Option ℕ

pub record AuditEvent : Type 0 where
  pub action : String
  pub target_entity_id : String
  pub result : String
  pub actor_id : Option String

pub record Database : Type 0 where
  pub users : List UserModel
  pub case_access : List CaseAccessModel
  pub audit : List AuditEvent

pub data HttpError : Type 0 where
  unauthorized inactive_user forbidden : HttpError

-- passlib, jose and uuid. A token can be read until it expires.
pub record Libraries : Type 0 where
  pub checkpw : String → String → Bool
  pub encode : ℕ → String → String
  pub decode : ℕ → String → Option String
  pub parse_uuid : String → Option String
  pub decode_encode :
      (now expires : ℕ) (subject : String)
      → now < expires
      → decode now (encode expires subject) ≡ some subject

pub first_where {ℓ} : {A : Type ℓ} → (A → Bool) → List A → Option A
first_where p [] = none
first_where p (x ∷ xs) = let rest = first_where p xs in if p x then some x else rest

-- The names under which a user is looked up: `admin` and `admin_user` stand for each other.
pub candidates : String → List String
candidates username =
    if username == "admin"
    then username ∷ "admin_user" ∷ []
    else if username == "admin_user"
    then username ∷ "admin" ∷ []
    else username ∷ []

abbrev pub is_named : String → UserModel → Bool
is_named username u = elem u.username (candidates username) || u.email == username

-- `scalars().first()`, in the order of the table.
pub get_by_username : String → List UserModel → Option UserModel
unfolding candidates first_where
get_by_username username = first_where (is_named username)

abbrev pub has_id : String → UserModel → Bool
has_id id u = u.user_id == id

pub get_by_id : String → List UserModel → Option UserModel
unfolding first_where
get_by_id id = first_where (has_id id)

abbrev pub is_access : String → String → CaseAccessModel → Bool
is_access user_id case_id a = a.user_id == user_id && a.case_id == case_id

abbrev pub has_access : String → String → List CaseAccessModel → Bool
has_access user_id case_id = any (is_access user_id case_id)

abbrev pub logged : AuditEvent → Database → Database
logged e db = record db { audit = db.audit ++ e ∷ [] }

pub active_user : Option UserModel → Result HttpError UserModel
active_user none = err unauthorized
active_user (some u) = if u.is_active then ok u else err unauthorized

pub user_of_id : Database → Option String → Result HttpError UserModel
unfolding get_by_id active_user
user_of_id db none = err unauthorized
user_of_id db (some id) = active_user (get_by_id id db.users)

-- `RequireRole(allowed_roles)`
pub require_role : List String → UserModel → Database → Result HttpError UserModel × Database
require_role allowed_roles u db = if elem u.role allowed_roles then (ok u, db) else (
  err forbidden,
  logged
      (record {
        action = "access_denied";
        target_entity_id = "rbac";
        result = "denied";
        actor_id = some u.user_id;
      })
      db,
)

abbrev pub denial : String → UserModel → AuditEvent
denial case_id u = record {
  action = "case_access_denied";
  target_entity_id = case_id;
  result = "denied";
  actor_id = some u.user_id;
}

-- `verify_case_access_direct`; `request` is whether the caller passes the request, without which a
-- refusal is not logged.
pub verify_case_access : Bool → String → UserModel → Database → Result HttpError String × Database
verify_case_access request case_id u db =
    if u.role == "administrator" || has_access u.user_id case_id db.case_access
    then (ok case_id, db)
    else (err forbidden, if request then logged (denial case_id u) db else db)

-- The check of access for the user that a token gave, if it gave one.
pub routed :
    Bool → String → Database → Result HttpError UserModel → Result HttpError String × Database
unfolding verify_case_access
routed request case_id db (err e) = (err e, db)
routed request case_id db (ok u) = verify_case_access request case_id u db

-- `row.last_login_at = now`, on the row of that user.
pub touch : ℕ → String → List UserModel → List UserModel
touch now id [] = []
touch now id (u ∷ us) =
    let rest = touch now id us in
    if u.user_id == id then record u { last_login_at = some now } ∷ us else u ∷ rest

abbrev pub login_event : String → String → Option String → AuditEvent
login_event action result actor = record {
  action = action;
  target_entity_id = "auth";
  result = result;
  actor_id = actor;
}

module _ (lib : Libraries) where
  -- Of ASCII passwords, whose bytes are their characters.
  pub verify_password : String → Option String → Bool
  verify_password plain none = false
  verify_password plain (some hashed) =
      not (hashed == "" || plain == "") && lib.checkpw (prefix 72 plain) hashed

  pub user_of_subject : Database → Option String → Result HttpError UserModel
  unfolding user_of_id
  user_of_subject db none = err unauthorized
  user_of_subject db (some subject) = user_of_id db (lib.parse_uuid subject)

  pub get_current_user : ℕ → String → Database → Result HttpError UserModel
  unfolding user_of_subject
  get_current_user now token db = user_of_subject db (lib.decode now token)

  -- The guard of a route of a case: the user of the token, then the check. The routes that depend on
  -- `verify_case_access` pass the request, those that call `verify_case_access_direct` with three
  -- arguments do not.
  pub case_route : Bool → ℕ → String → String → Database → Result HttpError String × Database
  unfolding get_current_user routed
  case_route request now token case_id db =
      routed request case_id db (get_current_user now token db)

  abbrev pub refused : Database → Database
  refused = logged (login_event "login_attempt" "failure" none)

  pub checked : ℕ → ℕ → String → Database → Option UserModel → Result HttpError String × Database
  unfolding verify_password touch
  checked ttl now password db none = (err unauthorized, refused db)
  checked ttl now password db (some u) =
      if not (verify_password password u.hashed_password)
      then (err unauthorized, refused db)
      else if not u.is_active
      then (err inactive_user, logged (login_event "login_attempt" "denied" (some u.user_id)) db)
      else (
        ok (lib.encode (now + ttl) u.user_id),
        logged (login_event "login" "success" (some u.user_id))
            (record db { users = touch now u.user_id db.users }),
      )

  -- `login`; `ttl` is the setting of how long a token lasts.
  pub login : ℕ → ℕ → String → String → Database → Result HttpError String × Database
  unfolding get_by_username checked
  login ttl now username password db =
      checked ttl now password db (get_by_username username db.users)
