-- ===== src/Events.antt =====
-- Events and ticket types as their organizers manage them:
-- event-service/internal/service/event_service.go.
pub mod Tables
pub mod TicketTypes
pub mod Ownership
pub mod Rows
pub mod Strangers
pub mod Quantities
use Prim.Native.String.{◌++◌ as append}
use entra_api.Base.{
  ℕ, String, Bool, true, false, not, ◌&&◌, ◌||◌, Option, none, some, List, [], ◌∷◌, ◌==◌, ltb,
  str_eq, if◌then◌else◌,
}
use entra_api.Base.Int.{ℤ, pos, ◌-ℤ◌, ltb_ℤ, wrap_int32}
use entra_api.Base.Go.{
  Go, Error, message, no_rows, unavailable, Result, ok, err, pure, fail, gets, attempt, ignore,
  or_none, or_fail, fail_if, when, for_each, ◌>>=◌, ◌>>◌,
}
use entra_api.Base.External.{Uuids, Floats}
use entra_api.Base.Formats.{Formats}
use entra_api.Platform.{Event, TicketType, Platform, external}
use entra_api.Inventory.{get_event_by_id}
use Tables.{
  get_event_by_slug, create_event_row, update_event_row, delete_event_row, TypeColumns,
  create_ticket_type_row, update_ticket_type_row, delete_ticket_type_row,
  list_ticket_types_by_event, drop_cached, cache_event, get_cached, put_stock,
}

-- The fields of `CreateEventRequest` and of `UpdateEventRequest` that the model keeps.
pub record EventRequest : Type 0 where
  pub title : String
  pub start_date : String
  pub end_date : String
  pub status : String

abbrev pub err_event_not_found : Error
err_event_not_found = message "event not found"

abbrev pub err_unauthorized : Error
err_unauthorized = message "unauthorized"

abbrev pub err_get_event : Error
err_get_event = message "failed to get event"

-- `pgUUIDFromString`
abbrev pub pg_uuid_from_string : Uuids → String → Option ℕ
pg_uuid_from_string uuids s = if str_eq s "" then none else uuids.parse s

-- An error of a query, where a missing row means an unknown event.
abbrev pub or_unknown : {A : Type 0} → Result A → Error → Go Platform A
or_unknown (ok a) failed = pure a
or_unknown (err no_rows) failed = fail err_event_not_found
or_unknown (err unavailable) failed = fail failed
or_unknown (err (message m)) failed = fail failed

-- The tickets that are left, in `int32`, or none.
abbrev pub left_of : TicketType → ℤ
left_of t = let n = wrap_int32 (t.quantity -ℤ t.sold) in if ltb_ℤ n (pos 0) then pos 0 else n

abbrev pub sale_over : Option ℕ → ℕ → Bool
sale_over none now = false
sale_over (some t) now = ltb t now

abbrev pub left_at : ℕ → TicketType → ℤ
left_at now t = if sale_over t.sale_end now then pos 0 else left_of t

-- `strings.ReplaceAll(s, " ", "-")`
unfoldable pub dashes : String → String
dashes String.[] = String.[]
dashes (String.◌∷◌ c s) =
    let rest = dashes s in
    if str_eq (String.◌∷◌ c String.[]) " " then String.◌∷◌ "-" rest else String.◌∷◌ c rest

module _ (formats : Formats) where
  -- `generateSlug`; its random part is made of the number that the next row would have.
  unfoldable pub generate_slug : String → Go Platform String
  generate_slug title =
      gets λ s. append (dashes (formats.to_lower title)) (append "-" (formats.short_id s.next_id))

  abbrev pub or_draft : String → String
  or_draft status = if str_eq status "" then "draft" else status

-- `invalidateEventCache`, without the cached pages of lists.
unfoldable pub invalidate_event_cache : String → Go Platform (Unit {0})
invalidate_event_cache event = do
  redis ← gets (λ s. s.redis_on)
  when (redis && not (str_eq event "")) (ignore (drop_cached event))

module _ (uuids : Uuids) where
  -- The stock of a ticket type goes to Redis.
  unfoldable pub store_left : TicketType → ℤ → Go Platform (Unit {0})
  store_left t n = ignore (put_stock (uuids.to_string t.id) n)

  -- After a ticket type has been written.
  unfoldable pub sync_stock : TicketType → Go Platform (Unit {0})
  sync_stock t = do
    redis ← gets (λ s. s.redis_on)
    now ← gets (λ s. s.env.now)
    when redis (store_left t (left_at now t))

  -- `PrewarmTicketStock`
  unfoldable pub prewarm_ticket_stock : String → Go Platform (Unit {0})
  prewarm_ticket_stock event = do
    redis ← gets (λ s. s.redis_on)
    when redis do
      elim (pg_uuid_from_string uuids event) [
        | none ↦ pure tt
        | some id ↦ do
          r ← attempt (list_ticket_types_by_event id)
          elim r [ ok ts ↦ for_each ts (λ t. store_left t (left_of t)) | err _ ↦ pure tt ]
      ]

  -- The event must be the organizer's.
  unfoldable pub own_event : ℕ → ℕ → Go Platform (Unit {0})
  own_event organizer event = do
    e ← or_fail (get_event_by_id event) err_get_event
    fail_if (not (e.organizer_id == organizer)) err_unauthorized

  -- `DeleteEvent`
  unfoldable pub delete_event : String → String → Go Platform (Unit {0})
  delete_event event organizer = do
    id ← or_none (pg_uuid_from_string uuids event) err_event_not_found
    org ← or_none (pg_uuid_from_string uuids organizer) err_unauthorized
    delete_event_row id org
    invalidate_event_cache event

  -- The row behind `GetEvent`.
  unfoldable pub fetch_event : String → Go Platform Event
  fetch_event key = elim (pg_uuid_from_string uuids key) [
    | some id ↦ get_event_by_id id
    | none ↦ get_event_by_slug key
  ]

  unfoldable pub fetch_and_cache : Bool → String → Go Platform Event
  fetch_and_cache redis key = do
    r ← attempt (fetch_event key)
    e ← or_unknown r err_get_event
    when redis (ignore (cache_event key e))
    pure e

  -- `GetEvent`
  unfoldable pub get_event : String → Go Platform Event
  get_event key = do
    redis ← gets (λ s. s.redis_on)
    if not redis then fetch_and_cache redis key else do
      r ← attempt (get_cached key)
      elim r [
        | err _ ↦ fetch_and_cache redis key
        | ok hit ↦ elim hit [ some e ↦ pure e | none ↦ fetch_and_cache redis key ]
      ]

abbrev pub err_start_date : Error
err_start_date = message "invalid start_date format"

abbrev pub err_end_date : Error
err_end_date = message "invalid end_date format"

module _ (uuids : Uuids) (formats : Formats) where
  -- `CreateEvent`
  unfoldable pub create_event : String → EventRequest → Go Platform Event
  create_event organizer req = do
    org ← or_none (pg_uuid_from_string uuids organizer) err_unauthorized
    start ← or_none (formats.parse_time req.start_date) err_start_date
    end_date ← or_none (formats.parse_time req.end_date) err_end_date
    slug ← generate_slug formats req.title
    e ←
        or_fail (create_event_row org req.title slug start end_date (or_draft formats req.status))
          (message "failed to create event")
    invalidate_event_cache ""
    pure e

  -- `UpdateEvent`
  unfoldable pub update_event : String → String → EventRequest → Go Platform Event
  update_event event organizer req = do
    id ← or_none (pg_uuid_from_string uuids event) err_event_not_found
    org ← or_none (pg_uuid_from_string uuids organizer) err_unauthorized
    start ← or_none (formats.parse_time req.start_date) err_start_date
    end_date ← or_none (formats.parse_time req.end_date) err_end_date
    slug ← generate_slug formats req.title
    r ←
        attempt
          (update_event_row id org req.title slug start end_date (or_draft formats req.status))
    e ← or_unknown r (message "failed to update event")
    invalidate_event_cache event
    when (str_eq (formats.to_lower (or_draft formats req.status)) "published")
        (prewarm_ticket_stock uuids event)
    pure e
