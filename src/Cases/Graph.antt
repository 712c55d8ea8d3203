-- ===== src/Cases/Graph.antt =====
-- The graph of a case's statuses that follows from the tables of `CaseService.update_case`
-- (backend/app/services/case_service.py) and the database's check of the status.
use net_sleuth_ai.Shared.{
  String, true, false, Option, ◌==◌, lookup, ◌≡◌, refl, arith, eq_iff, Bool-cases, if_ind, ◌⊎◌, inl,
  inr, some, lower, strip,
}
use net_sleuth_ai.Cases.Service.{
  get_or, new_status, current_status, is_allowed, is_status, violates,
}

-- The statuses that the database's check allows a case.
pub data CaseStatus : Type 0 where
  opened investigating review closed : CaseStatus

abbrev pub text : CaseStatus → String
text opened = "open"
text investigating = "investigating"
text review = "review"
text closed = "closed"

pub data Transition : CaseStatus → CaseStatus → Type 0 where
  stay : (s : CaseStatus) → Transition s s
  close_new : Transition opened closed
  close_investigated : Transition investigating closed
  close_reviewed : Transition review closed
  reopen : Transition closed opened

-- A transition to the status of the text.
abbrev pub MovesTo : CaseStatus → String → Type 0
MovesTo s new = (t : CaseStatus) × (new ≡ text t) × Transition s t

-- An alias is never the new status.
abbrev IsNoAlias : String → Type 0
IsNoAlias new = ((new == "investigating") ≡ false) × ((new == "review") ≡ false)

pub new_status-IsNoAlias : (raw : String) → IsNoAlias (new_status raw)
unfolding new_status lookup
new_status-IsNoAlias raw =
    let t = lower (strip raw) in
    let Q = λ (o : Option String). IsNoAlias (get_or t o) in
    if_ind Q ("active" == t) (λ h. (refl, refl))
      (λ a.
        if_ind Q ("investigating" == t) (λ h. (refl, refl))
          (λ i.
            if_ind Q ("under_review" == t) (λ h. (refl, refl))
              (λ u.
                if_ind Q ("review" == t) (λ h. (refl, refl))
                  (λ r.
                    if_ind Q ("open" == t) (λ h. (refl, refl))
                      (λ o.
                        if_ind Q ("closed" == t) (λ h. (refl, refl))
                          (λ c.
                            if_ind Q ("archived" == t) (λ h. (refl, refl))
                              (λ d. ground (
                                arith,
                                i,
                                r,
                                eq_iff t "investigating",
                                eq_iff "investigating" t,
                                eq_iff t "review",
                                eq_iff "review" t,
                              ))))))))

test {ℓ} : {P : Type ℓ} (new text : String) → (new ≡ text → P) → ((new == text) ≡ false → P) → P
test new text hit miss = elim (Bool-cases (new == text)) [
  | inl h ↦ hit ((eq_iff new text).0 h)
  | inr h ↦ miss h
]

-- Of the statuses that the check allows, only two are what the service stores.
stored :
    (new : String)
    → IsNoAlias new
    → violates is_status (some new) ≡ false
    → (new ≡ "open") ⊎ (new ≡ "closed")
stored new n h = test new "open" inl (λ a. test new "closed" inr (λ b. absurd (
    ground (
      arith,
      n,
      h,
      a,
      b,
      eq_iff "open" new,
      eq_iff new "open",
      eq_iff "closed" new,
      eq_iff new "closed",
      eq_iff "investigating" new,
      eq_iff new "investigating",
      eq_iff "review" new,
      eq_iff new "review",
    ))))

pub is_allowed-MovesTo :
    (s : CaseStatus) (new : String)
    → IsNoAlias new
    → violates is_status (some new) ≡ false
    → is_allowed (text s) new ≡ true
    → MovesTo s new
unfolding is_allowed lookup
is_allowed-MovesTo opened new n c h = elim (stored new n c) [
  | inl e ↦ (opened, e, stay opened)
  | inr e ↦ (closed, e, close_new)
]
is_allowed-MovesTo investigating new n c h = elim (stored new n c) [
  | inl e ↦ cc (rw e at h)
  | inr e ↦ (closed, e, close_investigated)
]
is_allowed-MovesTo review new n c h = elim (stored new n c) [
  | inl e ↦ cc (rw e at h)
  | inr e ↦ (closed, e, close_reviewed)
]
is_allowed-MovesTo closed new n c h = elim (stored new n c) [
  | inl e ↦ (opened, e, reopen)
  | inr e ↦ (closed, e, stay closed)
]

pub current_status-text : (s : CaseStatus) → current_status (text s) ≡ text s
unfolding current_status lower strip
current_status-text opened = refl
current_status-text investigating = refl
current_status-text review = refl
current_status-text closed = refl
