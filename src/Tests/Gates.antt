-- ===== src/Tests/Gates.antt =====
-- A gate service with two tickets.
use entra_api.Base.{ℕ, ◌≡◌, ◌≤◌, refl, true, false, none, some, List, [], ◌∷◌}
use entra_api.Base.Go.{Env}
use entra_api.Base.Samples.{sample_uuids}
use entra_api.Gate.Tickets.{LocalTicket, GateService}
use entra_api.Gate.Spent.{spent_at}
use entra_api.Gate.{GateCall, sync, scan, scan_ticket, run_calls}
use entra_api.Gate.Admission.{scan_uses_fresh_ticket, used_stays_used}
use entra_api.Gate.Entry.{scans_of, scanned_at_most_once}

abbrev open_env : Env
open_env = record { now = 0; script = [] }

abbrev gate : GateService
gate = record {
  env = open_env;
  tickets = record { id = 1; event_id = some 1; ticket_code = "A"; status = "ACTIVE" } ∷ [];
  producer = true;
  published = [];
}

abbrev two_scans : List GateCall
two_scans = scan none "A" "uu" ∷ sync 1 1 "A" "ACTIVE" ∷ scan none "A" "uu" ∷ []

-- The second scan is refused.
scans_twice : scans_of sample_uuids 1 (run_calls sample_uuids two_scans gate).published ≡ 1
unfolding run_calls entra_api.Gate.Tickets.external entra_api.Gate.Tickets.create_local_ticket
    entra_api.Gate.Tickets.get_local_ticket_by_code entra_api.Gate.Tickets.find_by_code
    entra_api.Gate.Tickets.update_local_ticket_status entra_api.Gate.Tickets.find_by_id
    entra_api.Gate.Tickets.is_taken entra_api.Gate.Tickets.set_status
scans_twice = refl

scanned_at_most_once_example :
    scans_of sample_uuids 1 (run_calls sample_uuids two_scans gate).published ≤ 1
scanned_at_most_once_example = scanned_at_most_once sample_uuids two_scans gate 1 refl

scan_uses_fresh_ticket_example :
    (id : ℕ) × (spent_at id gate.tickets ≡ false)
    × (spent_at id (scan_ticket sample_uuids none "A" "uu" gate).1.tickets ≡ true)
unfolding scan_ticket entra_api.Gate.Tickets.external
    entra_api.Gate.Tickets.get_local_ticket_by_code entra_api.Gate.Tickets.find_by_code
    entra_api.Gate.Tickets.update_local_ticket_status entra_api.Gate.Tickets.find_by_id
scan_uses_fresh_ticket_example = scan_uses_fresh_ticket sample_uuids none "A" "uu" gate refl

abbrev used_gate : GateService
used_gate = record gate {
  tickets = record { id = 1; event_id = some 1; ticket_code = "A"; status = "CHECKED_IN" } ∷ [];
}

used_stays_used_example : spent_at 1 (run_calls sample_uuids two_scans used_gate).tickets ≡ true
unfolding entra_api.Gate.Tickets.find_by_id
used_stays_used_example = used_stays_used sample_uuids two_scans used_gate 1 refl
