-- ===== src/Cases/Examples.antt =====
-- Updates of a case, and the service's promises at them.
use net_sleuth_ai.Shared.{ℕ, ◌≡◌, refl, ok, err, some, none, [], ◌∷◌, lookup, lower, strip, insert}
use net_sleuth_ai.Cases.Service.{
  InvestigationCase, UpdateCaseRequest, Updated, invalid_transition, check_refused, new_status,
  current_status, is_allowed, write, update_status, update_case, create_case, list_window,
}
use net_sleuth_ai.Cases.Graph.{opened, MovesTo}
use net_sleuth_ai.Cases.Transitions.{update_case-MovesTo}

abbrev breach : InvestigationCase
breach = record {
  status = "open";
  closed_at = none;
  created_by = "u1";
  columns = ("title", some "Breach") ∷ [];
}

abbrev closing : UpdateCaseRequest
closing = record { columns = []; status = some (some " Closed ") }

abbrev renaming : UpdateCaseRequest
renaming = record { columns = ("title", some "Old breach") ∷ []; status = none }

abbrev closed_breach : Updated
closed_breach = record {
  case = record breach { status = "closed"; closed_at = some 7 };
  audited_fields = some ("status" ∷ "closed_at" ∷ []);
}

abbrev renamed_breach : Updated
renamed_breach = record {
  case = record breach { columns = ("title", some "Old breach") ∷ [] };
  audited_fields = some ("title" ∷ []);
}

update_closes : update_case 7 (some breach) closing "investigator" ≡ ok closed_breach
unfolding update_case update_status write is_allowed new_status current_status lookup lower strip
update_closes = refl

update_renames : update_case 7 (some breach) renaming "analyst" ≡ ok renamed_breach
unfolding update_case write insert
update_renames = refl

-- A case that is reopened keeps its old closing time.
update_reopens :
    update_case 9
      (some closed_breach.case)
      (record { columns = []; status = some (some "open") })
      "investigator"
    ≡ ok (record {
      case = record closed_breach.case { status = "open" };
      audited_fields = some ("status" ∷ []);
    })
unfolding update_case update_status write is_allowed new_status current_status lookup lower strip
update_reopens = refl

update_to_archive :
    update_case 9
      (some breach)
      (record { columns = []; status = some (some "archived") })
      "investigator"
    ≡ err invalid_transition
unfolding update_case update_status is_allowed new_status current_status lookup lower strip
update_to_archive = refl

create_lowers :
    create_case "investigator" "u1" (("title", some "A") ∷ ("priority", some "HIGH") ∷ [])
    ≡ ok (record {
      status = "open";
      closed_at = none;
      created_by = "u1";
      columns = ("title", some "A") ∷ ("priority", some "high") ∷ [];
    })
unfolding create_case lower
create_lowers = refl

create_refused :
    create_case "investigator" "u1" (("title", some "A") ∷ ("priority", some "urgent") ∷ [])
    ≡ err check_refused
unfolding create_case lower
create_refused = refl

-- The service allows that an open case is investigated, and stores a status that the database
-- refuses.
update_to_investigating :
    update_case 9
      (some breach)
      (record { columns = []; status = some (some "investigating") })
      "investigator"
    ≡ err check_refused
unfolding update_case update_status write is_allowed new_status current_status lookup lower strip
update_to_investigating = refl

update_case-MovesTo_example : MovesTo opened "closed"
update_case-MovesTo_example =
    update_case-MovesTo 7 breach closing "investigator" closed_breach update_closes opened refl

abbrev second : ℕ × ℕ
second = (100, 100)

abbrev third : ℕ × ℕ
third = (200, 100)

window_run : list_window 2 200 "status" ≡ ok second
unfolding list_window
window_run = refl

next_window_run : list_window 3 200 "status" ≡ ok third
unfolding list_window
next_window_run = refl
