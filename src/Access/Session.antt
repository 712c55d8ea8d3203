-- ===== src/Access/Session.antt =====
-- That a token from the login leads back to the user who logged in (backend/app/auth/router.py and
-- dependencies.py).
use net_sleuth_ai.Shared.{
  ℕ, ◌+◌, ◌<◌, String, Bool, true, false, Option, none, some, List, [], ◌∷◌, map, ◌≡◌, refl, sym,
  ap, subst, some-injective, arith, inl, inr, Bool-cases, ◌==◌, eq_iff, eq_refl, elem, Distinct, ok,
  ok-injective,
}
use net_sleuth_ai.Access.{
  UserModel, Database, Libraries, first_where, is_named, get_by_id, get_by_username, touch,
  verify_password, get_current_user, checked, login,
}
use net_sleuth_ai.Access.Guard.{get_current_user-of_Authenticates}

abbrev pub ids : List UserModel → List String
ids = map (λ u. u.user_id)

found-elem :
    (p : UserModel → Bool) (us : List UserModel) {u : UserModel}
    → first_where p us ≡ some u
    → elem u.user_id (ids us) ≡ true
unfolding first_where
found-elem p [] e = cc
found-elem p (v ∷ us) {u = u} e = elim (Bool-cases (p v)) [
  | inl hit ↦
      let same : v ≡ u = some-injective (rw hit at e) in
      subst (λ w. elem w.user_id (ids (v ∷ us)) ≡ true) same (rw (eq_refl v.user_id) refl)
  | inr miss ↦ ground (arith, found-elem p us (rw miss at e))
]

-- The user that a search finds is the one with its identifier.
found-by_id :
    (p : UserModel → Bool) (us : List UserModel) {u : UserModel}
    → Distinct (ids us)
    → first_where p us ≡ some u
    → get_by_id u.user_id us ≡ some u
unfolding first_where get_by_id
found-by_id p [] d e = cc
found-by_id p (v ∷ us) {u = u} d e = elim (Bool-cases (p v)) [
  | inl hit ↦
      let same : v ≡ u = some-injective (rw hit at e) in
      subst (λ w. get_by_id w.user_id (v ∷ us) ≡ some w) same (rw (eq_refl v.user_id) refl)
  | inr miss ↦
      let rest = rw miss at e in
      let other : (v.user_id == u.user_id) ≡ false = elim (Bool-cases (v.user_id == u.user_id)) [
        | inl same ↦ cc (d.0, found-elem p us rest, (eq_iff v.user_id u.user_id).0 same)
        | inr other ↦ other
      ] in
      rw other (found-by_id p us d.1 rest)
]

touch-by_id :
    (now : ℕ) (id : String) (us : List UserModel) {u : UserModel}
    → get_by_id id us ≡ some u
    → get_by_id id (touch now id us) ≡ some (record u { last_login_at = some now })
unfolding first_where get_by_id touch
touch-by_id now id [] e = cc
touch-by_id now id (v ∷ us) {u = u} e = elim (Bool-cases (v.user_id == id)) [
  | inl hit ↦
      let same : v ≡ u = some-injective (rw hit at e) in
      rw (hit, hit) (ap (λ (w : UserModel). some (record w { last_login_at = some now })) same)
  | inr miss ↦ rw (miss, miss) (touch-by_id now id us (rw miss at e))
]

module _ (lib : Libraries) (ttl now : ℕ) (password : String) (db : Database) where
  -- What a login that gave a token says of the user that was looked up.
  abbrev pub LoggedIn : Option UserModel → String → Database → Type 0
  LoggedIn o token db' =
      (u : UserModel) × (o ≡ some u)
      × (verify_password lib password u.hashed_password ≡ true)
      × (u.is_active ≡ true)
      × (token ≡ lib.encode (now + ttl) u.user_id)
      × (db'.users ≡ touch now u.user_id db.users)

  checked-LoggedIn :
      (o : Option UserModel) {token : String} {db' : Database}
      → checked lib ttl now password db o ≡ (ok token, db')
      → LoggedIn o token db'
  unfolding checked
  checked-LoggedIn none e = absurd (cc (ap (λ r. r.0) e))
  checked-LoggedIn (some u) e = elim (Bool-cases (verify_password lib password u.hashed_password)) [
    | inr wrong ↦ absurd (cc (ap (λ r. r.0) (rw wrong at e)))
    | inl right ↦ elim (Bool-cases u.is_active) [
      | inr idle ↦ absurd (cc (ap (λ r. r.0) (rw (right, idle) at e)))
      | inl active ↦
          let both = rw (right, active) at e in
          (
            u,
            refl,
            right,
            active,
            sym (ok-injective (ap (λ r. r.0) both)),
            sym (ap (λ r. r.1.users) both),
          )
    ]
  ]

  -- If the identifiers of the users are distinct and printed as the parser reads them, then a token
  -- from a login is, until it expires, one of the user whom the name and the password fit: the routes
  -- get that user, who is active, with the time of the login.
  pub get_current_user-login :
      (username token : String) (later : ℕ) (db' : Database)
      → later < now + ttl
      → Distinct (ids db.users)
      → ((id : String) → elem id (ids db.users) ≡ true → lib.parse_uuid id ≡ some id)
      → login lib ttl now username password db ≡ (ok token, db')
      → (u : UserModel) × (get_by_username username db.users ≡ some u)
        × (verify_password lib password u.hashed_password ≡ true)
        × (u.is_active ≡ true)
        × (get_current_user lib later token db' ≡ ok (record u { last_login_at = some now }))
  unfolding login get_by_username
  get_current_user-login username token later db' alive distinct canonical e =
      let (u, found, right, active, made, rows) =
        checked-LoggedIn (get_by_username username db.users) e in
      let own = found-by_id (is_named username) db.users distinct found in
      let known = found-elem (is_named username) db.users found in
      (
        u,
        found,
        right,
        active,
        get_current_user-of_Authenticates lib true later token "" db'
            (record u { last_login_at = some now })
            (record {
              subject = u.user_id;
              decoded =
                  subst (λ t. lib.decode later t ≡ some u.user_id) (sym made)
                    (lib.decode_encode later (now + ttl) u.user_id alive);
              id = u.user_id;
              parsed = canonical u.user_id known;
              found =
                  subst
                    (λ us. get_by_id u.user_id us ≡ some (record u { last_login_at = some now }))
                    (sym rows) (touch-by_id now u.user_id db.users own);
              active = active;
            }),
      )
