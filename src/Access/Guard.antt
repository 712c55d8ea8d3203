-- ===== src/Access/Guard.antt =====
-- Who may open a case, and what a refusal leaves behind (backend/app/auth/dependencies.py).
use net_sleuth_ai.Shared.{
  ℕ, String, Bool, true, false, ◌||◌, Option, none, some, List, [], ◌∷◌, ◌++◌, eq_iff, ◌≡◌, refl,
  sym, ◌∙◌, ap, ◌↔◌, ◌⊎◌, inl, inr, arith, Bool-cases, Option-cases, if◌then◌else◌, ◌==◌, Result,
  ok, err, ok-injective, err-injective,
}
use net_sleuth_ai.Access.{
  UserModel, CaseAccessModel, Database, HttpError, unauthorized, forbidden, Libraries, get_by_id,
  is_access, has_access, logged, active_user, user_of_id, user_of_subject, get_current_user, denial,
  verify_case_access, routed, case_route,
}

-- A row of the table is of this user and this case, whatever its level and its expiry.
abbrev pub IsGranted : String → String → List CaseAccessModel → Type 0
IsGranted user_id case_id [] = ⊥
IsGranted user_id case_id (a ∷ rows) =
    ((a.user_id ≡ user_id) × (a.case_id ≡ case_id)) ⊎ IsGranted user_id case_id rows

abbrev pub IsPermitted : Database → String → UserModel → Type 0
IsPermitted db case_id u = (u.role ≡ "administrator") ⊎ IsGranted u.user_id case_id db.case_access

has_access-IsGranted :
    (user_id case_id : String) (rows : List CaseAccessModel)
    → has_access user_id case_id rows ≡ true ↔ IsGranted user_id case_id rows
has_access-IsGranted user_id case_id [] = (λ e. cc e, absurd)
has_access-IsGranted user_id case_id (a ∷ rows) =
    let rest = has_access-IsGranted user_id case_id rows in (there rest.0, back rest.1)
  where
    there :
        (has_access user_id case_id rows ≡ true → IsGranted user_id case_id rows)
        → has_access user_id case_id (a ∷ rows) ≡ true
        → IsGranted user_id case_id (a ∷ rows)
    there rest h = elim (Bool-cases (is_access user_id case_id a)) [
      | inl e ↦ inl (ground (arith, e, eq_iff a.user_id user_id, eq_iff a.case_id case_id))
      | inr e ↦ inr (rest (ground (arith, h, e)))
    ]

    back :
        (IsGranted user_id case_id rows → has_access user_id case_id rows ≡ true)
        → IsGranted user_id case_id (a ∷ rows)
        → has_access user_id case_id (a ∷ rows) ≡ true
    back rest (inl (u, c)) =
        rw ((eq_iff a.user_id user_id).1 u, (eq_iff a.case_id case_id).1 c) refl
    back rest (inr g) = ground (arith, rest g)

is_permitted : Database → String → UserModel → Bool
is_permitted db case_id u = u.role == "administrator" || has_access u.user_id case_id db.case_access

is_permitted-IsPermitted :
    (db : Database) (case_id : String) (u : UserModel)
    → is_permitted db case_id u ≡ true ↔ IsPermitted db case_id u
unfolding is_permitted
is_permitted-IsPermitted db case_id u = (there, back)
  where
    granted :
        has_access u.user_id case_id db.case_access ≡ true
        ↔ IsGranted u.user_id case_id db.case_access
    granted = has_access-IsGranted u.user_id case_id db.case_access

    there : is_permitted db case_id u ≡ true → IsPermitted db case_id u
    there h = elim (Bool-cases (u.role == "administrator")) [
      | inl e ↦ inl ((eq_iff u.role "administrator").0 e)
      | inr e ↦ inr (granted.0 (ground (arith, h, e)))
    ]

    back : IsPermitted db case_id u → is_permitted db case_id u ≡ true
    back (inl e) = rw ((eq_iff u.role "administrator").1 e) refl
    back (inr g) = ground (arith, granted.1 g)

module _ (lib : Libraries) (request : Bool) (now : ℕ) (token case_id : String) (db : Database) where
  -- The token is one of an active user of the table.
  pub record Authenticates (u : UserModel) : Type 0 where
    pub subject : String
    pub decoded : lib.decode now token ≡ some subject
    pub id : String
    pub parsed : lib.parse_uuid subject ≡ some id
    pub found : get_by_id id db.users ≡ some u
    pub active : u.is_active ≡ true

  pub get_current_user-of_Authenticates :
      (u : UserModel) → Authenticates u → get_current_user lib now token db ≡ ok u
  unfolding get_current_user user_of_subject user_of_id active_user
  get_current_user-of_Authenticates u a = rw (a.decoded, a.parsed, a.found, a.active) refl

  guarded :
      (b : Bool) {u v : UserModel}
      → ◌≡◌ {A = Result HttpError UserModel} (if b then ok u else err unauthorized) (ok v)
      → (u ≡ v) × (b ≡ true)
  guarded true e = (ok-injective e, refl)
  guarded false e = cc

  active_user-inv :
      (o : Option UserModel) {u : UserModel}
      → active_user o ≡ ok u
      → (o ≡ some u) × (u.is_active ≡ true)
  unfolding active_user
  active_user-inv none e = cc
  active_user-inv (some v) e =
      let (same, active) = guarded v.is_active e in
      (ap some same, ap (λ w. w.is_active) (sym same) ∙ active)

  get_current_user-Authenticates :
      {u : UserModel} → get_current_user lib now token db ≡ ok u → Authenticates u
  unfolding get_current_user user_of_subject user_of_id
  get_current_user-Authenticates e = elim (Option-cases (lib.decode now token)) [
    | inl n ↦ cc (rw n at e)
    | inr (subject, decoded) ↦ elim (Option-cases (lib.parse_uuid subject)) [
      | inl n ↦ cc (rw (decoded, n) at e)
      | inr (id, parsed) ↦
          let (found, active) =
            active_user-inv (get_by_id id db.users) (rw (decoded, parsed) at e) in
          record {
            subject = subject;
            decoded = decoded;
            id = id;
            parsed = parsed;
            found = found;
            active = active;
          }
    ]
  ]

  -- Whether the request is passed or not, a case is opened if and only if the token can be read, its
  -- subject is the identifier of an active user of the table, and that user is an administrator or
  -- has a row of access to this case, whatever the row's level and expiry: the guard is the same
  -- before a case is read and before it is changed.
  pub case_route-opens_iff :
      ((case_route lib request now token case_id db).0 ≡ ok case_id)
      ↔ ((u : UserModel) × Authenticates u × IsPermitted db case_id u)
  unfolding case_route routed verify_case_access is_permitted
  case_route-opens_iff = (
    opened,
    λ (u, a, p).
        rw (get_current_user-of_Authenticates u a, (is_permitted-IsPermitted db case_id u).1 p)
          refl,
  )
    where
      permitted :
          (r : Result HttpError UserModel)
          → (routed request case_id db r).0 ≡ ok case_id
          → (u : UserModel) × (r ≡ ok u) × IsPermitted db case_id u
      permitted (err x) e = cc
      permitted (ok u) e = (u, refl, (is_permitted-IsPermitted db case_id u).0 (ground (arith, e)))

      opened :
          (case_route lib request now token case_id db).0 ≡ ok case_id
          → (u : UserModel) × Authenticates u × IsPermitted db case_id u
      opened e =
          let (u, current, p) = permitted (get_current_user lib now token db) e in
          (u, get_current_user-Authenticates current, p)

  -- The database after a refusal: with the request, one more event.
  abbrev pub AfterRefusal : Bool → UserModel → Database → Type 0
  AfterRefusal false u db' = db' ≡ db
  AfterRefusal true u db' = db' ≡ record db {
    audit =
        db.audit
        ++ record {
          action = "case_access_denied";
          target_entity_id = case_id;
          result = "denied";
          actor_id = some u.user_id;
        }
          ∷ [];
  }

  -- What a call may leave behind.
  abbrev pub IsAccounted : Result HttpError String × Database → Type 0
  IsAccounted (r, db') =
      ((r ≡ ok case_id) × (db' ≡ db))
      ⊎ (((r ≡ err unauthorized) × (db' ≡ db))
          ⊎ ((r ≡ err forbidden)
              × ((u : UserModel) × Authenticates u
                  × ¬ IsPermitted db case_id u
                  × AfterRefusal request u db')))

  refuses_only : {x : HttpError} → get_current_user lib now token db ≡ err x → x ≡ unauthorized
  unfolding get_current_user user_of_subject user_of_id active_user
  refuses_only e = elim (Option-cases (lib.decode now token)) [
    | inl n ↦ sym (err-injective (rw n at e))
    | inr (subject, decoded) ↦ elim (Option-cases (lib.parse_uuid subject)) [
      | inl n ↦ sym (err-injective (rw (decoded, n) at e))
      | inr (id, parsed) ↦ elim (Option-cases (get_by_id id db.users)) [
        | inl n ↦ sym (err-injective (rw (decoded, parsed, n) at e))
        | inr (u, found) ↦ elim (Bool-cases u.is_active) [
          | inl active ↦ cc (rw (decoded, parsed, found, active) at e)
          | inr idle ↦ sym (err-injective (rw (decoded, parsed, found, idle) at e))
        ]
      ]
    ]
  ]

  routed-IsAccounted :
      (r : Result HttpError UserModel)
      → get_current_user lib now token db ≡ r
      → IsAccounted (routed request case_id db r)
  unfolding routed verify_case_access is_permitted
  routed-IsAccounted (err x) e = inr (inl (ap err (refuses_only e), refl))
  routed-IsAccounted (ok u) e = elim (Bool-cases (is_permitted db case_id u)) [
    | inl allowed ↦ rw allowed (inl (refl, refl))
    | inr barred ↦ rw barred (
        inr (
          inr (
            refl,
            (
              u,
              get_current_user-Authenticates e,
              λ p. cc (barred, (is_permitted-IsPermitted db case_id u).1 p),
              left request,
            ),
          )))
  ]
    where
      left : (b : Bool) → AfterRefusal b u (if b then logged (denial case_id u) db else db)
      left true = refl
      left false = refl

  -- A call for a case opens it and changes nothing, or answers 401 and changes nothing, or answers
  -- 403 to an active user who is no administrator and has no row of access to the case. A 403
  -- appends one event to the audit log, which names that user and the case, if the request is
  -- passed, and changes nothing if it is not.
  pub case_route-IsAccounted : IsAccounted (case_route lib request now token case_id db)
  unfolding case_route
  case_route-IsAccounted = routed-IsAccounted (get_current_user lib now token db) refl
