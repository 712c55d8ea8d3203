-- ===== src/Cases/Transitions.antt =====
-- The life of a case under `CaseService.update_case` (backend/app/services/case_service.py).
use net_sleuth_ai.Shared.{
  ℕ, String, true, false, not, ◌*◌, ◌-◌, min, max, ◌||◌, Option, none, some, ◌==◌, if◌then◌else◌,
  is_empty, Dict, ok, err, ◌≡◌, sym, ap, subst, ◌+◌, ◌∙◌, arith, eq_iff, is_some, Result, ◌≤◌,
}
use net_sleuth_ai.Cases.Service.{
  InvestigationCase, UpdateCaseRequest, CaseError, Updated, get_or, new_status, current_status,
  is_allowed, is_status, violates, write, update_status, update_case, list_window, null_refused,
}
use net_sleuth_ai.Cases.Graph.{
  CaseStatus, text, stay, MovesTo, new_status-IsNoAlias, is_allowed-MovesTo, current_status-text,
}

write-keeps :
    (case : InvestigationCase) (columns : Dict (Option String)) (status : Option String)
    (closed_at : Option ℕ) (r : Updated)
    → write case columns status closed_at ≡ ok r
    → (r.case.status ≡ get_or case.status status)
      × (r.case.closed_at ≡ (elim closed_at [ none ↦ case.closed_at | some t ↦ some t ]))
      × (violates is_status status ≡ false)
unfolding write
write-keeps case columns status closed_at r e = ground (arith, e)

-- What an update with a new status does.
update_status-accepts :
    (now : ℕ) (case : InvestigationCase) (columns : Dict (Option String)) (role raw : String)
    (r : Updated)
    → update_status now case columns role raw ≡ ok r
    → ((role == "analyst") ≡ false)
      × (is_allowed (current_status case.status) (new_status raw) ≡ true)
      × (r.case.status ≡ new_status raw)
      × (r.case.closed_at ≡ (if new_status raw == "closed" then some now else case.closed_at))
      × (violates is_status (some (new_status raw)) ≡ false)
unfolding update_status
update_status-accepts now case columns role raw r e =
    let w =
      write-keeps case columns (some (new_status raw))
        (if new_status raw == "closed" then some now else none) r in
    ground (arith, e, w)

-- A closed case has the time of its closing.
abbrev pub HasClosingTime : InvestigationCase → Type 0
HasClosingTime case = (not (case.status == "closed") || is_some case.closed_at) ≡ true

module _ (now : ℕ) (case : InvestigationCase) (request : UpdateCaseRequest) (role : String)
    (r : Updated) (e : update_case now (some case) request role ≡ ok r) where
  -- How the request changed the case: it left the status, or set one.
  abbrev Changed : Option (Option String) → Type 0
  Changed none = (r.case.status ≡ case.status) × (r.case.closed_at ≡ case.closed_at)
  Changed (some none) = ⊥
  Changed (some (some raw)) =
      ((role == "analyst") ≡ false)
      × (is_allowed (current_status case.status) (new_status raw) ≡ true)
      × (r.case.status ≡ new_status raw)
      × (r.case.closed_at ≡ (if new_status raw == "closed" then some now else case.closed_at))
      × (violates is_status (some (new_status raw)) ≡ false)

  changed : Changed request.status
  unfolding update_case
  changed = by_status request.status e
    where
      by_status :
          (o : Option (Option String))
          → (elim o as (λ x. Result CaseError Updated) [
            | none ↦
                if is_empty request.columns
                then ok (record { case = case; audited_fields = none })
                else write case request.columns none none
            | some none ↦ err null_refused
            | some (some raw) ↦ update_status now case request.columns role raw
          ])
            ≡ ok r
          → Changed o
      by_status none h = ground (arith, h, write-keeps case request.columns none none r)
      by_status (some none) h = ground (arith, h)
      by_status (some (some raw)) h = update_status-accepts now case request.columns role raw r h

  -- If an update is accepted, by the service and by the database's checks, then a case that was open,
  -- investigating, under review or closed keeps its status, or is closed by it, or was closed and is
  -- open: no update brings a case to investigating or to review.
  pub update_case-MovesTo : (s : CaseStatus) → case.status ≡ text s → MovesTo s r.case.status
  update_case-MovesTo s before = by_change request.status changed
    where
      by_change : (o : Option (Option String)) → Changed o → MovesTo s r.case.status
      by_change none c = (s, c.0 ∙ before, stay s)
      by_change (some none) c = absurd c
      by_change (some (some raw)) (n, a, t, z, k) =
          let current = ap current_status before ∙ current_status-text s in
          let (next, to, step) =
            is_allowed-MovesTo s (new_status raw) (new_status-IsNoAlias raw) k
              (subst (λ x. is_allowed x (new_status raw) ≡ true) current a) in
          (next, t ∙ to, step)

  -- An update by an analyst that is accepted changes neither the status nor the closing time.
  pub update_case-of_analyst :
      (role == "analyst") ≡ true
      → (r.case.status ≡ case.status) × (r.case.closed_at ≡ case.closed_at)
  update_case-of_analyst analyst = by_change request.status changed
    where
      by_change :
          (o : Option (Option String))
          → Changed o
          → (r.case.status ≡ case.status) × (r.case.closed_at ≡ case.closed_at)
      by_change none c = c
      by_change (some none) c = absurd c
      by_change (some (some raw)) (n, a, t, z, k) = ground (arith, analyst, n)

  -- A case that has a closing time whenever its status is "closed" still does after an update that
  -- is accepted.
  pub update_case-HasClosingTime : HasClosingTime case → HasClosingTime r.case
  update_case-HasClosingTime before = by_change request.status changed
    where
      by_change : (o : Option (Option String)) → Changed o → HasClosingTime r.case
      by_change none (t, z) = rw (t, z) before
      by_change (some none) c = absurd c
      by_change (some (some raw)) (n, a, t, z, k) =
          ground (arith, before, t, z, eq_iff r.case.status "closed", eq_iff case.status "closed")

one_more : (p limit : ℕ) → (p + 1) * limit ≡ p * limit + limit
one_more p limit = omega arith

window-eq :
    (page page_size : ℕ) (sort_by : String) (w : ℕ × ℕ)
    → list_window page page_size sort_by ≡ ok w
    → ((max 1 page - 1) * min (max 1 page_size) 100 ≡ w.0) × (min (max 1 page_size) 100 ≡ w.1)
unfolding list_window
window-eq page page_size sort_by w e = ground (arith, e)

-- For a page from 1 on, the limit of a list is from 1 to 100, and the window of the next page has
-- the same limit and begins where that of the page ends.
pub list_window-IsNext :
    (page page_size : ℕ) (sort_by : String) (w next : ℕ × ℕ)
    → 1 ≤ page
    → list_window page page_size sort_by ≡ ok w
    → list_window (page + 1) page_size sort_by ≡ ok next
    → (1 ≤ w.1) × (w.1 ≤ 100) × (next.0 ≡ w.0 + w.1) × (next.1 ≡ w.1)
list_window-IsNext page page_size sort_by w next h e f =
    let (a, b) = window-eq page page_size sort_by w e in
    let (c, d) = window-eq (page + 1) page_size sort_by next f in
    let limit = min (max 1 page_size) 100 in
    let skipped : max 1 (page + 1) - 1 ≡ max 1 page - 1 + 1 = omega (arith, h) in
    let next_skip = sym c ∙ ap (λ x. x * limit) skipped ∙ one_more (max 1 page - 1) limit in
    (omega (arith, b), omega (arith, b), omega (arith, next_skip, a, b), omega (arith, b, d))
