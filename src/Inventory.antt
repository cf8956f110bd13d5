-- ===== src/Inventory.antt =====
-- The inventory of the event service: the queries on `ticket_types`
-- (event-service/internal/repository/db/ticket_types.sql.go) and the internal handlers that reserve
-- and release tickets (event-service/internal/handler/internal_ticket_handler.go), with the client
-- that the ticket service calls them by (ticket-service/internal/client/event_client.go).
pub mod Runs
pub mod Bounds
pub mod Effects
use entra_api.Base.{
  ℕ, String, Bool, true, false, not, ◌&&◌, ◌||◌, Option, none, some, List, [], ◌∷◌, ◌==◌, ltb,
  str_eq, if◌then◌else◌,
}
use entra_api.Base.Int.{ℤ, pos, ◌+ℤ◌, ◌-ℤ◌, leb_ℤ, ltb_ℤ, fits_int32}
use entra_api.Base.Go.{
  Go, Error, no_rows, unavailable, message, Result, ok, err, pure, fail, gets, attempt, or_none,
  fail_if, ◌>>=◌, ◌>>◌,
}
use entra_api.Base.External.{Uuids}
use entra_api.Platform.{Event, TicketType, Platform, external}

unfoldable pub find_ticket_type : ℕ → List TicketType → Option TicketType
find_ticket_type id [] = none
find_ticket_type id (t ∷ ts) = if t.id == id then some t else find_ticket_type id ts

unfoldable pub find_event : ℕ → List Event → Option Event
find_event id [] = none
find_event id (e ∷ es) = if e.id == id then some e else find_event id es

unfoldable pub set_sold : ℕ → ℤ → List TicketType → List TicketType
set_sold id n [] = []
set_sold id n (t ∷ ts) = if t.id == id then record t { sold = n } ∷ ts else t ∷ set_sold id n ts

unfoldable pub get_ticket_type_by_id : ℕ → Go Platform TicketType
get_ticket_type_by_id id = do
  external
  types ← gets (λ s. s.ticket_types)
  or_none (find_ticket_type id types) no_rows

unfoldable pub get_event_by_id : ℕ → Go Platform Event
get_event_by_id id = do
  external
  events ← gets (λ s. s.events)
  or_none (find_event id events) no_rows

-- `SET sold = next WHERE id = id AND qualifies`, returning the row. A value that is no `int4` is an
-- error of the database.
unfoldable pub update_found :
    (TicketType → Bool) → (TicketType → ℤ) → ℕ → Option TicketType → Go Platform TicketType
update_found qualifies next id none s = (err no_rows, s)
update_found qualifies next id (some t) s =
    if not (qualifies t)
    then (err no_rows, s)
    else if not (fits_int32 (next t))
    then (err unavailable, s)
    else (
      ok (record t { sold = next t }),
      record s { ticket_types = set_sold id (next t) s.ticket_types },
    )

unfoldable pub write_sold : (TicketType → Bool) → (TicketType → ℤ) → ℕ → Go Platform TicketType
unfolding update_found
write_sold qualifies next id s =
    update_found qualifies next id (find_ticket_type id s.ticket_types) s

unfoldable pub update_sold : (TicketType → Bool) → (TicketType → ℤ) → ℕ → Go Platform TicketType
update_sold qualifies next id = do external; write_sold qualifies next id

-- `WHERE (quantity - sold) >= $2`
unfoldable pub increment_ticket_sold : ℕ → ℤ → Go Platform TicketType
increment_ticket_sold id n = update_sold (λ t. leb_ℤ n (t.quantity -ℤ t.sold)) (λ t. t.sold +ℤ n) id

-- `WHERE sold >= $2`
unfoldable pub decrement_ticket_sold : ℕ → ℤ → Go Platform TicketType
decrement_ticket_sold id n = update_sold (λ t. leb_ℤ n t.sold) (λ t. t.sold -ℤ n) id

-- `now.Before(t)` and `now.After(t)` for a time that may be missing.
abbrev pub is_before : ℕ → Option ℕ → Bool
is_before now none = false
is_before now (some t) = ltb now t

abbrev pub is_after : ℕ → Option ℕ → Bool
is_after now none = false
is_after now (some t) = ltb t now

-- The status of an HTTP response.
abbrev pub http_ok : ℕ
http_ok = 200

-- Whether an event, if it was found, forbids the sale.
abbrev pub event_closed : ℕ → Result Event → Bool
event_closed now (err _) = false
event_closed now (ok e) = not (str_eq e.status "published") || is_after now e.end_date

-- The checks of `ReserveTickets` before the update, as an error that carries no more than the
-- response does: the status code.
abbrev pub status_of_lookup : Result TicketType → ℕ
status_of_lookup (ok _) = 200
status_of_lookup (err no_rows) = 404
status_of_lookup (err _) = 500

abbrev pub status_of_update : Result TicketType → ℕ
status_of_update (ok _) = 200
status_of_update (err no_rows) = 409
status_of_update (err _) = 500

-- The part of `ReserveTickets` after the ticket type is found.
unfoldable pub reserve_found : ℕ → ℤ → TicketType → Go Platform ℕ
reserve_found id quantity t = do
  now ← gets (λ s. s.env.now)
  if not t.is_active || (is_before now t.sale_start || is_after now t.sale_end)
      then pure 409
      else do
        event ← attempt (get_event_by_id t.event_id)
        if event_closed now event
            then pure 409
            else do r ← attempt (increment_ticket_sold id quantity); pure (status_of_update r)

module _ (uuids : Uuids) where
  -- `InternalTicketHandler.ReserveTickets`, as the status code of its response. The binding wants a
  -- quantity of at least 1.
  unfoldable pub reserve_tickets_handler : String → ℤ → Go Platform ℕ
  reserve_tickets_handler param quantity = elim (uuids.parse param) [
    | none ↦ pure 422
    | some id ↦ if ltb_ℤ quantity (pos 1) then pure 422 else do
      r ← attempt (get_ticket_type_by_id id)
      elim r [ ok t ↦ reserve_found id quantity t | err e ↦ pure (status_of_lookup (err e)) ]
  ]

  -- `InternalTicketHandler.ReleaseTickets`
  unfoldable pub release_tickets_handler : String → ℤ → Go Platform ℕ
  release_tickets_handler param quantity = elim (uuids.parse param) [
    | none ↦ pure 422
    | some id ↦
        if ltb_ℤ quantity (pos 1)
        then pure 422
        else do r ← attempt (decrement_ticket_sold id quantity); pure (status_of_update r)
  ]
