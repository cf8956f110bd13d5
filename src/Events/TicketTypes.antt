-- ===== src/Events/TicketTypes.antt =====
-- Ticket types as organizers manage them: `CreateTicketType`, `UpdateTicketType` and
-- `DeleteTicketType` of event-service/internal/service/event_service.go.
use entra_api.Base.{
  ℕ, String, Bool, true, false, not, ◌&&◌, ◌||◌, Option, none, some, List, [], ◌∷◌, ◌==◌, ltb,
  str_eq, if◌then◌else◌,
}
use entra_api.Base.Int.{ℤ, pos, ◌-ℤ◌, ltb_ℤ, wrap_int32}
use entra_api.Base.Go.{Go, Error, message, pure, or_none, or_fail, ◌>>=◌, ◌>>◌}
use entra_api.Base.External.{Uuids, Floats}
use entra_api.Base.Formats.{Formats}
use entra_api.Platform.{TicketType, Platform}
use entra_api.Events.Tables.{
  TypeColumns, create_ticket_type_row, update_ticket_type_row, delete_ticket_type_row,
}
use entra_api.Events.{
  err_event_not_found, err_unauthorized, pg_uuid_from_string, own_event, sync_stock,
}

-- A price as the JSON holds it.
pub data Price : Type 0 where
  number : ℕ → Price
  text : String → Price
  other : Price

-- `CreateTicketTypeRequest` and `UpdateTicketTypeRequest`.
pub record TicketTypeRequest : Type 0 where
  pub name : String
  pub description : String
  pub price : Price
  pub quantity : ℤ
  pub max_per_order : ℤ
  pub sale_start : String
  pub sale_end : String

abbrev pub err_sale_start : Error
err_sale_start = message "invalid sale_start format"

abbrev pub err_sale_end : Error
err_sale_end = message "invalid sale_end format"

-- `pgTextFromString`
abbrev pub pg_text : String → Option String
pg_text s = if str_eq s "" then none else some s

-- `pgInt4FromInt32`
abbrev pub pg_int4 : ℤ → Option ℤ
pg_int4 (pos n) = if n == 0 then none else some (pos n)
pg_int4 (entra_api.Base.Int.negsuc n) = some (entra_api.Base.Int.negsuc n)

module _ (floats : Floats) (formats : Formats) where
  -- `parsePrice`
  abbrev pub parse_price : Price → ℕ
  parse_price (number x) = x
  parse_price (text s) = formats.parse_float s
  parse_price other = floats.of_nat 0

  abbrev pub columns_of : TicketTypeRequest → ℕ → ℕ → TypeColumns
  columns_of req start end_date = record {
    name = req.name;
    description = pg_text req.description;
    price = floats.to_numeric (parse_price req.price);
    quantity = req.quantity;
    max_per_order = pg_int4 req.max_per_order;
    sale_start = start;
    sale_end = end_date;
  }

module _ (uuids : Uuids) where
  unfoldable pub remove_type : ℕ → Go Platform (Unit {0})
  remove_type id = or_fail (delete_ticket_type_row id) (message "failed to delete ticket type")

  -- `DeleteTicketType`
  unfoldable pub delete_ticket_type : String → String → String → Go Platform (Unit {0})
  delete_ticket_type organizer event ticket = do
    org ← or_none (pg_uuid_from_string uuids organizer) err_unauthorized
    ev ← or_none (pg_uuid_from_string uuids event) err_unauthorized
    id ← or_none (pg_uuid_from_string uuids ticket) err_unauthorized
    own_event uuids org ev
    remove_type id

module _ (uuids : Uuids) (floats : Floats) (formats : Formats) where
  -- `CreateTicketType` once the event is known to be the organizer's.
  unfoldable pub add_type : ℕ → TicketTypeRequest → Go Platform TicketType
  add_type ev req = do
    start ← or_none (formats.parse_time req.sale_start) err_sale_start
    end_date ← or_none (formats.parse_time req.sale_end) err_sale_end
    t ←
        or_fail (create_ticket_type_row ev (columns_of floats formats req start end_date))
          (message "failed to create ticket type")
    sync_stock uuids t
    pure t

  -- `CreateTicketType`
  unfoldable pub create_ticket_type : String → String → TicketTypeRequest → Go Platform TicketType
  create_ticket_type organizer event req = do
    org ← or_none (pg_uuid_from_string uuids organizer) err_unauthorized
    ev ← or_none (pg_uuid_from_string uuids event) err_event_not_found
    own_event uuids org ev
    add_type ev req

  -- `UpdateTicketType` once the event is known to be the organizer's.
  unfoldable pub change_type : ℕ → TicketTypeRequest → Go Platform TicketType
  change_type id req = do
    start ← or_none (formats.parse_time req.sale_start) err_sale_start
    end_date ← or_none (formats.parse_time req.sale_end) err_sale_end
    t ←
        or_fail (update_ticket_type_row id (columns_of floats formats req start end_date))
          (message "failed to update ticket type")
    sync_stock uuids t
    pure t

  -- `UpdateTicketType`
  unfoldable pub update_ticket_type :
      String → String → String → TicketTypeRequest → Go Platform TicketType
  update_ticket_type organizer event ticket req = do
    org ← or_none (pg_uuid_from_string uuids organizer) err_unauthorized
    ev ← or_none (pg_uuid_from_string uuids event) err_unauthorized
    id ← or_none (pg_uuid_from_string uuids ticket) err_unauthorized
    own_event uuids org ev
    change_type id req
