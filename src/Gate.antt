-- ===== src/Gate.antt =====
-- The gate service: gate-service/internal/service/gate_service.go with its table `local_tickets`
-- (gate-service/internal/repository/db/gate.sql.go) and the consumer of ticket events
-- (gate-service/internal/consumer/ticket_consumer.go).
pub mod Tickets
pub mod Spent
pub mod Entry
pub mod Admission
use entra_api.Base.{
  ℕ, String, Bool, true, not, ◌&&◌, Option, none, some, List, ◌++◌, [], ◌∷◌, ◌==◌, str_eq,
  if◌then◌else◌,
}
use entra_api.Base.Go.{
  Go, Error, message, Result, ok, err, pure, fail, gets, attempt, ignore, or_fail, ◌>>=◌, ◌>>◌,
  fail_if, when, modify,
}
use entra_api.Base.External.{Uuids}
use Tickets.{
  LocalTicket, GateService, external, is_spent, create_local_ticket, get_local_ticket_by_code,
  get_local_ticket_by_id, update_local_ticket_status,
}

-- What the ticket service answers about a ticket, as the JSON is decoded.
pub record RemoteTicket : Type 0 where
  pub id : String
  pub event_id : String
  pub ticket_code : String
  pub status : String

-- `pgUUIDFromUUID`: the nil UUID becomes null.
abbrev pub pg_uuid_from_uuid : ℕ → Option ℕ
pg_uuid_from_uuid u = if u == 0 then none else some u

-- `uuidFromPgUUID`
abbrev pub uuid_from_pg_uuid : Option ℕ → ℕ
uuid_from_pg_uuid none = 0
uuid_from_pg_uuid (some u) = u

-- `GateService.SyncTicket`
unfoldable pub sync_ticket : ℕ → ℕ → String → String → Go GateService (Unit {0})
sync_ticket id event_id code status = do
  r ← attempt (create_local_ticket (pg_uuid_from_uuid id) (pg_uuid_from_uuid event_id) code status)
  elim r [
    | ok _ ↦ pure tt
    | err _ ↦ ignore (update_local_ticket_status (pg_uuid_from_uuid id) status)
  ]

-- The errors of `ScanTicket`.
abbrev pub err_other_event : Error
err_other_event = message "ticket belongs to another event"

abbrev pub err_not_found : Error
err_not_found = message "ticket not found"

abbrev pub err_used : Error
err_used = message "ticket already used or invalid"

-- The default that Go code puts in place of an empty text.
abbrev pub or_default : String → String → String
or_default s d = if str_eq s "" then d else s

module _ (uuids : Uuids) where
  -- `u, _ := uuid.Parse(s)`
  abbrev pub parse_or_nil : String → ℕ
  parse_or_nil s = elim (uuids.parse s) [ none ↦ 0 | some u ↦ u ]

  -- The part of `ScanTicket` that reads the answer of the ticket service; `none` stands for every
  -- way of getting none (no connection, another status than 200, a body that does not decode).
  unfoldable pub check_remote : Option RemoteTicket → String → String → Go GateService (Unit {0})
  check_remote none code event_id = pure tt
  check_remote (some t) code event_id = when (not (str_eq t.id "")) do
    fail_if
        (not (str_eq event_id "")
          && (not (str_eq t.event_id "") && not (str_eq t.event_id event_id)))
        err_other_event
    elim (uuids.parse t.id) [
      | none ↦ pure tt
      | some id ↦ ignore (
          sync_ticket id (parse_or_nil t.event_id) (or_default t.ticket_code code)
            (or_default t.status "ACTIVE"))
    ]

  -- The local lookup, by the code and then by the code read as an id.
  unfoldable pub find_ticket : String → Go GateService LocalTicket
  find_ticket code = do
    r ← attempt (get_local_ticket_by_code code)
    elim r [
      | ok t ↦ pure t
      | err e ↦ elim (uuids.parse code) [
        | none ↦ fail e
        | some u ↦ get_local_ticket_by_id (pg_uuid_from_uuid u)
      ]
    ]

  -- Whether the row is of another event than the gate's, as far as both ids can be read.
  abbrev pub is_of_other_event : String → LocalTicket → Bool
  is_of_other_event event_id t = not (str_eq event_id "") && elim t.event_id [
    | none ↦ Bool.false
    | some e ↦ elim (uuids.parse event_id) [ none ↦ Bool.false | some g ↦ not (e == g) ]
  ]

  -- The message on `ticket.scanned`, if there is a producer.
  unfoldable pub publish_scanned : LocalTicket → Go GateService (Unit {0})
  publish_scanned t = do
    producer ← gets (λ s. s.producer)
    when producer (
        ignore do
          external
          modify λ s. record s {
            published =
                s.published
                ++ record { ticket_id = uuids.to_string t.id; ticket_code = t.ticket_code } ∷ [];
          })

  -- The end of `ScanTicket`: the guarded update, and the message.
  unfoldable pub admit : LocalTicket → Go GateService (Unit {0})
  unfolding publish_scanned
  admit t = do
    updated ← or_fail (update_local_ticket_status (some t.id) "CHECKED_IN") err_used
    publish_scanned updated

  -- `GateService.ScanTicket`, with the answer that the ticket service gives.
  unfoldable pub scan_ticket : Option RemoteTicket → String → String → Go GateService (Unit {0})
  unfolding check_remote find_ticket admit
  scan_ticket answer code event_id = do
    reached ← attempt external
    elim reached [ err _ ↦ pure tt | ok _ ↦ check_remote answer code event_id ]
    t ← or_fail (find_ticket code) err_not_found
    fail_if (is_of_other_event event_id t) err_other_event
    fail_if (is_spent t.status) err_used
    admit t

-- What reaches the service: a ticket event from Kafka (`TicketConsumer.HandleMessage`, after the
-- payload is decoded), or a scan at a gate.
pub data GateCall : Type 0 where
  sync : ℕ → ℕ → String → String → GateCall
  scan : Option RemoteTicket → String → String → GateCall

module _ (uuids : Uuids) where
  unfoldable pub handle : GateCall → Go GateService (Unit {0})
  unfolding sync_ticket scan_ticket
  handle (sync id event_id code status) = sync_ticket id event_id code status
  handle (scan answer code event_id) = scan_ticket uuids answer code event_id

  -- The state after a history of calls.
  unfoldable pub run_calls : List GateCall → GateService → GateService
  unfolding handle
  run_calls [] s = s
  run_calls (c ∷ cs) s = run_calls cs (handle c s).1
