-- ===== src/Access/Examples.antt =====
-- A login and two calls for a case.
use net_sleuth_ai.Shared.{
  String, true, none, some, [], ◌∷◌, ◌≡◌, refl, ◌==◌, prefix, arith, ok, err, false,
}
use net_sleuth_ai.Access.{
  UserModel, Database, forbidden, Libraries, get_by_username, verify_password, get_current_user,
  case_route, login,
}
use net_sleuth_ai.Access.Guard.{
  Authenticates, IsPermitted, IsAccounted, case_route-opens_iff, case_route-IsAccounted,
}
use net_sleuth_ai.Access.Session.{get_current_user-login}

-- Stand-ins for the libraries: a token is its subject, and a hash the password.
abbrev plain : Libraries
plain = record {
  checkpw = λ password hashed. password == hashed;
  encode = λ expires subject. subject;
  decode = λ now token. some token;
  parse_uuid = some;
  decode_encode = λ now expires subject alive. refl;
}

abbrev ana : UserModel
ana = record {
  user_id = "u1";
  username = "ana";
  email = "ana@example.org";
  hashed_password = some "secret";
  role = "analyst";
  is_active = true;
  last_login_at = none;
}

abbrev start : Database
start = record {
  users = ana ∷ [];
  case_access =
      record { user_id = "u1"; case_id = "c1"; access_level = "read"; expires_at = some 5 } ∷ [];
  audit = [];
}

abbrev logged_in : Database
logged_in = record start {
  users = record ana { last_login_at = some 10 } ∷ [];
  audit =
      record {
        action = "login";
        target_entity_id = "auth";
        result = "success";
        actor_id = some "u1";
      }
      ∷ [];
}

login_run : login plain 30 10 "ana" "secret" start ≡ (ok "u1", logged_in)
unfolding login prefix
login_run = refl

-- Without the request, a refusal leaves no trace.
unlogged_run : case_route plain false 12 "u1" "c2" logged_in ≡ (err forbidden, logged_in)
unfolding case_route
unlogged_run = refl

-- The access that expired at 5 still opens the case at 12.
expired_run : (case_route plain true 12 "u1" "c1" logged_in).0 ≡ ok "c1"
unfolding case_route
expired_run = refl

abbrev canonical : (id : String) → plain.parse_uuid id ≡ some id
canonical id = refl

get_current_user-login_example :
    (u : UserModel) × (get_by_username "ana" start.users ≡ some u)
    × (verify_password plain "secret" u.hashed_password ≡ true)
    × (u.is_active ≡ true)
    × (get_current_user plain 20 "u1" logged_in ≡ ok (record u { last_login_at = some 10 }))
get_current_user-login_example =
    get_current_user-login plain 30 10 "secret" start "ana" "u1" 20 logged_in (omega arith)
      (refl, tt) (λ id held. canonical id) login_run

case_route-opens_iff_example :
    (u : UserModel) × Authenticates plain true 12 "u1" "c1" logged_in u
    × IsPermitted logged_in "c1" u
case_route-opens_iff_example =
    (case_route-opens_iff plain true 12 "u1" "c1" logged_in).0 expired_run

case_route-IsAccounted_example :
    IsAccounted plain true 12 "u1" "c2" logged_in (case_route plain true 12 "u1" "c2" logged_in)
case_route-IsAccounted_example = case_route-IsAccounted plain true 12 "u1" "c2" logged_in
