-- ===== src/Scans.antt =====
-- The scans that the gates report, in the ticket service: the consumer of
-- ticket-service/internal/consumer/event_consumer.go, and the answer that a gate gets about a ticket
-- (`GetTicketByCodeInternal` of ticket-service/internal/handler/ticket_handler.go).
pub mod Reported
use entra_api.Base.{ℕ, String, Option, none, some, List, [], ◌∷◌, ◌==◌, str_eq, if◌then◌else◌}
use entra_api.Base.Go.{
  Go, Error, fail, or_fail, no_rows, Result, ok, err, pure, gets, attempt, ignore, or_none, modify,
  ◌>>=◌, ◌>>◌,
}
use entra_api.Base.External.{Uuids}
use entra_api.Platform.{Ticket, Platform, external}
use entra_api.Gate.{RemoteTicket}

unfoldable pub find_ticket_by_code : String → List Ticket → Option Ticket
find_ticket_by_code code [] = none
find_ticket_by_code code (t ∷ ts) =
    if str_eq t.ticket_code code then some t else find_ticket_by_code code ts

unfoldable pub find_ticket_by_id : ℕ → List Ticket → Option Ticket
find_ticket_by_id id [] = none
find_ticket_by_id id (t ∷ ts) = if t.id == id then some t else find_ticket_by_id id ts

-- `GetTicket`
unfoldable pub get_ticket : ℕ → Go Platform Ticket
get_ticket id = do
  external
  tickets ← gets (λ s. s.tickets)
  or_none (find_ticket_by_id id tickets) no_rows

-- `Queries.GetTicketByCode`
unfoldable pub get_ticket_row_by_code : String → Go Platform Ticket
get_ticket_row_by_code code = do
  external
  tickets ← gets (λ s. s.tickets)
  or_none (find_ticket_by_code code tickets) no_rows

unfoldable pub put_ticket_status : ℕ → String → List Ticket → List Ticket
put_ticket_status id status [] = []
put_ticket_status id status (t ∷ ts) =
    (if t.id == id then record t { status = status } else t) ∷ put_ticket_status id status ts

-- `UpdateTicketStatus`, for a row that was read before.
unfoldable pub update_ticket_status : ℕ → String → Go Platform (Unit {0})
update_ticket_status id status = do
  external
  modify λ s. record s { tickets = put_ticket_status id status s.tickets }

-- `EventConsumer.HandleMessage` for a message on `ticket.scanned` with the code of a ticket.
unfoldable pub handle_scanned : String → Go Platform (Unit {0})
handle_scanned code = do
  r ← attempt (get_ticket_row_by_code code)
  elim r [ ok t ↦ ignore (update_ticket_status t.id "USED") | err _ ↦ pure tt ]

module _ (uuids : Uuids) where
  -- The ticket of the id that the code may be, or else the first error.
  abbrev pub or_by_id : Error → Option ℕ → Go Platform Ticket
  or_by_id e none = fail e
  or_by_id e (some id) = or_fail (get_ticket id) e

  -- `TicketService.GetTicketByCode`
  unfoldable pub get_ticket_by_code : String → Go Platform Ticket
  get_ticket_by_code code = do
    r ← attempt (get_ticket_row_by_code code)
    elim r [ ok t ↦ pure t | err e ↦ or_by_id e (uuids.parse code) ]

  -- The fields of the row that the gate decodes.
  abbrev pub remote_of : Ticket → RemoteTicket
  remote_of t = record {
    id = uuids.to_string t.id;
    event_id = uuids.to_string t.event_id;
    ticket_code = t.ticket_code;
    status = t.status;
  }

  -- `GetTicketByCodeInternal`: an error is an answer of another status than 200, which is none.
  unfoldable pub get_ticket_by_code_internal : String → Go Platform (Option RemoteTicket)
  get_ticket_by_code_internal code = do
    r ← attempt (get_ticket_by_code code)
    elim r [ ok t ↦ pure (some (remote_of t)) | err _ ↦ pure none ]
