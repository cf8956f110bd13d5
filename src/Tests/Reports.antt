-- ===== src/Tests/Reports.antt =====
-- A ticket that two gates see.
use entra_api.Base.{◌≡◌, refl, true, [], ◌∷◌}
use entra_api.Base.Go.{err}
use entra_api.Base.Samples.{sample_uuids}
use entra_api.Platform.{Ticket, Platform}
use entra_api.Gate.{err_used}
use entra_api.Gate.Tickets.{GateService}
use entra_api.Scans.{handle_scanned}
use entra_api.Scans.Reported.{scan_at, refused_at_other_gates}
use entra_api.Tests.Shop.{shop}

abbrev seat : Ticket
seat = record {
  id = 5;
  order_id = 3;
  user_id = 1;
  event_id = 1;
  ticket_type_id = 2;
  ticket_code = "T-5";
  status = "ACTIVE";
}

abbrev sold_out : Platform
sold_out = record shop { tickets = record seat { id = 4; ticket_code = "T-4" } ∷ seat ∷ [] }

abbrev north_gate : GateService
north_gate = record {
  env = record { now = 7; script = [] };
  tickets = [];
  producer = true;
  published = [];
}

refused_at_other_gates_example :
    scan_at sample_uuids (handle_scanned "T-5" sold_out).1 north_gate "T-5" "uu" ≡ err err_used
unfolding entra_api.Scans.find_ticket_by_code entra_api.Gate.Tickets.is_taken
refused_at_other_gates_example =
    refused_at_other_gates sample_uuids "T-5" seat sold_out north_gate refl refl refl refl refl refl
