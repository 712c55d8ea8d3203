-- ===== src/Cases/Service.antt =====
-- `CaseService.create_case`, `list_cases` and `update_case` (backend/app/services/case_service.py)
-- on one case. The columns that no rule reads are texts in one dictionary; the database refuses a
-- null in a column that has to have a value, and a status or a priority that is not in the list of
-- its check (backend/alembic/versions/8ffde38e6da6_initial_schema_creation.py).
use net_sleuth_ai.Shared.{
  ℕ, ◌*◌, ◌-◌, min, max, String, Bool, false, not, ◌&&◌, ◌||◌, Option, none, some, List, [], ◌∷◌,
  ◌++◌, map, ◌==◌, if◌then◌else◌, any, elem, is_empty, Dict, lookup, insert, Result, ok, err, lower,
  strip, is_some,
}

pub record InvestigationCase : Type 0 where
  pub status : String
  pub closed_at : Option ℕ
  pub created_by : String
  pub columns : Dict (Option String)

-- The fields that the request sets. An unset status is `none`, a null one `some none`.
pub record UpdateCaseRequest : Type 0 where
  pub columns : Dict (Option String)
  pub status : Option (Option String)

pub data CaseError : Type 0 where
  not_found forbidden invalid_transition invalid_sort_field null_refused check_refused : CaseError

-- The case after the call and the fields of the audit event, if one is logged.
pub record Updated : Type 0 where
  pub case : InvestigationCase
  pub audited_fields : Option (List String)

pub status_alias_map : Dict String
status_alias_map =
    ("active", "active")
    ∷ ("investigating", "active")
    ∷ ("under_review", "under_review")
    ∷ ("review", "under_review")
    ∷ ("open", "open")
    ∷ ("closed", "closed")
    ∷ ("archived", "archived")
    ∷ []

pub allowed_transitions : Dict (List String)
allowed_transitions =
    ("open", "active" ∷ "investigating" ∷ "closed" ∷ [])
    ∷ ("active", "under_review" ∷ "review" ∷ "closed" ∷ [])
    ∷ ("investigating", "under_review" ∷ "review" ∷ "closed" ∷ [])
    ∷ ("under_review", "closed" ∷ "active" ∷ "investigating" ∷ [])
    ∷ ("review", "closed" ∷ "active" ∷ "investigating" ∷ [])
    ∷ ("closed", "open" ∷ "archived" ∷ [])
    ∷ ("archived", "open" ∷ "closed" ∷ [])
    ∷ []

-- `d.get(k, default)`
abbrev pub get_or {ℓ} : {A : Type ℓ} → A → Option A → A
get_or d none = d
get_or d (some a) = a

unfoldable pub new_status : String → String
unfolding status_alias_map
new_status raw = let text = lower (strip raw) in get_or text (lookup text status_alias_map)

unfoldable pub current_status : String → String
current_status status = if status == "" then "open" else lower (strip status)

unfoldable pub is_allowed : String → String → Bool
unfolding allowed_transitions
is_allowed current new = new == current || elem new (get_or [] (lookup current allowed_transitions))

-- The columns that have to have a value.
abbrev is_required : String → Bool
is_required name = name == "title" || name == "trigger_type"

abbrev nulls_required : Dict (Option String) → Bool
nulls_required columns = any (λ c. is_required c.0 && not (is_some c.1)) columns

-- `ck_cases__status`
abbrev pub is_status : String → Bool
is_status s = elem s ("open" ∷ "investigating" ∷ "review" ∷ "closed" ∷ [])

-- `ck_cases__priority`
abbrev is_priority : String → Bool
is_priority s = elem s ("low" ∷ "medium" ∷ "high" ∷ "critical" ∷ [])

-- A check passes on a null.
abbrev pub violates : (String → Bool) → Option String → Bool
violates allowed none = false
violates allowed (some s) = not (allowed s)

abbrev violates_priority : Dict (Option String) → Bool
violates_priority columns = any (λ c. c.0 == "priority" && violates is_priority c.1) columns

set_columns : Dict (Option String) → Dict (Option String) → Dict (Option String)
set_columns [] columns = columns
set_columns ((k, v) ∷ changes) columns = set_columns changes (insert k v columns)

names {ℓ} : {A : Type ℓ} → Dict A → List String
names = map (λ c. c.0)

-- `repo.update` and the audit event; `status` and `closed_at` are what the dictionary has for them.
unfoldable pub write :
    InvestigationCase → Dict (Option String) → Option String → Option ℕ → Result CaseError Updated
unfolding set_columns names
write case columns status closed_at =
    if nulls_required columns
    then err null_refused
    else if violates is_status status || violates_priority columns
    then err check_refused
    else ok (record {
      case = record case {
        status = get_or case.status status;
        closed_at = (elim closed_at [ none ↦ case.closed_at | some t ↦ some t ]);
        columns = set_columns columns case.columns;
      };
      audited_fields = some (
          names columns
          ++ (if is_some status then "status" ∷ [] else [])
          ++ (if is_some closed_at then "closed_at" ∷ [] else []));
    })

-- The branch for a status that is not null.
unfoldable pub update_status :
    ℕ → InvestigationCase → Dict (Option String) → String → String → Result CaseError Updated
update_status now case columns role raw =
    let new = new_status raw in
    if role == "analyst"
    then err forbidden
    else if is_allowed (current_status case.status) new
    then write case columns (some new) (if new == "closed" then some now else none)
    else err invalid_transition

update_found : ℕ → InvestigationCase → UpdateCaseRequest → String → Result CaseError Updated
unfolding write update_status
update_found now case request role = elim request.status [
  | none ↦
      if is_empty request.columns
      then ok (record { case = case; audited_fields = none })
      else write case request.columns none none
  | some none ↦ err null_refused
  | some (some raw) ↦ update_status now case request.columns role raw
]

unfoldable pub update_case :
    ℕ → Option InvestigationCase → UpdateCaseRequest → String → Result CaseError Updated
unfolding update_found
update_case now none request role = err not_found
update_case now (some case) request role = update_found now case request role

-- `request_data.priority.lower() if request_data.priority else None`, and the other columns as given.
with_lower_priority : String × Option String → String × Option String
with_lower_priority (name, none) = (name, none)
with_lower_priority (name, some text) = (
  name,
  if name == "priority" then (if text == "" then none else some (lower text)) else some text,
)

unfoldable pub create_case :
    String → String → Dict (Option String) → Result CaseError InvestigationCase
unfolding with_lower_priority
create_case role user columns =
    if role == "analyst"
    then err forbidden
    else if nulls_required columns
    then err null_refused
    else if violates_priority (map with_lower_priority columns)
    then err check_refused
    else ok (record {
      status = "open";
      closed_at = none;
      created_by = user;
      columns = map with_lower_priority columns;
    })

-- The window that `list_cases` asks for: how many to skip, and the limit.
unfoldable pub list_window : ℕ → ℕ → String → Result CaseError (ℕ × ℕ)
list_window page page_size sort_by =
    let limit = min (max 1 page_size) 100 in
    if elem sort_by ("created_at" ∷ "updated_at" ∷ "priority" ∷ "status" ∷ [])
    then ok ((max 1 page - 1) * limit, limit)
    else err invalid_sort_field
