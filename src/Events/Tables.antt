-- ===== src/Events/Tables.antt =====
-- The queries of the event service on `events` and `ticket_types` that organizers use
-- (event-service/internal/repository/db/events.sql.go and ticket_types.sql.go), and the keys that the
-- event service keeps in Redis.
use entra_api.Base.{
  ℕ, suc, String, Bool, true, false, not, ◌&&◌, ◌||◌, Option, none, some, List, [], ◌∷◌, ◌++◌, ◌==◌,
  str_eq, if◌then◌else◌,
}
use entra_api.Base.Int.{ℤ, pos}
use entra_api.Base.Go.{Go, Error, message, no_rows, ok, gets, or_none, fail_if, modify, ◌>>=◌, ◌>>◌}
use entra_api.Platform.{Event, TicketType, Platform, external, put, set_redis}
use entra_api.Inventory.{find_ticket_type}

abbrev pub err_duplicate : Error
err_duplicate = message "duplicate key value violates unique constraint"

-- Whether the slug is another event's.
unfoldable pub slug_taken : String → List Event → Bool
slug_taken slug [] = false
slug_taken slug (e ∷ es) = str_eq e.slug slug || slug_taken slug es

unfoldable pub slug_taken_by_other : ℕ → String → List Event → Bool
slug_taken_by_other id slug [] = false
slug_taken_by_other id slug (e ∷ es) =
    (not (e.id == id) && str_eq e.slug slug) || slug_taken_by_other id slug es

unfoldable pub find_event_by_slug : String → List Event → Option Event
find_event_by_slug slug [] = none
find_event_by_slug slug (e ∷ es) = if str_eq e.slug slug then some e else find_event_by_slug slug es

-- `GetEventBySlug`
unfoldable pub get_event_by_slug : String → Go Platform Event
get_event_by_slug slug = do
  external
  es ← gets (λ s. s.events)
  or_none (find_event_by_slug slug es) no_rows

-- `CreateEvent`: the new row gets the next id.
unfoldable pub insert_event : ℕ → String → String → ℕ → ℕ → String → Go Platform Event
insert_event organizer title slug start end_date status s =
    let e : Event = record {
      id = s.next_id;
      organizer_id = organizer;
      title = title;
      slug = slug;
      start_date = start;
      status = status;
      end_date = some end_date;
    } in
    (ok e, record s { events = s.events ++ e ∷ []; next_id = suc s.next_id })

unfoldable pub create_event_row : ℕ → String → String → ℕ → ℕ → String → Go Platform Event
create_event_row organizer title slug start end_date status = do
  external
  es ← gets (λ s. s.events)
  fail_if (slug_taken slug es) err_duplicate
  insert_event organizer title slug start end_date status

abbrev pub is_owned : ℕ → ℕ → Event → Bool
is_owned id organizer e = e.id == id && e.organizer_id == organizer

-- `WHERE id = $1 AND organizer_id = $14`
unfoldable pub find_owned : ℕ → ℕ → List Event → Option Event
find_owned id organizer [] = none
find_owned id organizer (e ∷ es) =
    if is_owned id organizer e then some e else find_owned id organizer es

abbrev pub edited : String → String → ℕ → ℕ → String → Event → Event
edited title slug start end_date status e = record e {
  title = title;
  slug = slug;
  start_date = start;
  status = status;
  end_date = some end_date;
}

unfoldable pub edit_owned : ℕ → ℕ → (Event → Event) → List Event → List Event
edit_owned id organizer f [] = []
edit_owned id organizer f (e ∷ es) =
    if is_owned id organizer e then f e ∷ es else e ∷ edit_owned id organizer f es

-- `UpdateEvent`
unfoldable pub update_event_row : ℕ → ℕ → String → String → ℕ → ℕ → String → Go Platform Event
update_event_row id organizer title slug start end_date status = do
  external
  es ← gets (λ s. s.events)
  e ← or_none (find_owned id organizer es) no_rows
  fail_if (slug_taken_by_other id slug es) err_duplicate
  modify λ s. record s {
    events = edit_owned id organizer (edited title slug start end_date status) s.events;
  }
  gets λ _. edited title slug start end_date status e

unfoldable pub drop_owned : ℕ → ℕ → List Event → List Event
drop_owned id organizer [] = []
drop_owned id organizer (e ∷ es) =
    if is_owned id organizer e then drop_owned id organizer es else e ∷ drop_owned id organizer es

-- The ticket types of an event go with it.
unfoldable pub drop_types_of : ℕ → List TicketType → List TicketType
drop_types_of event [] = []
drop_types_of event (t ∷ ts) =
    if t.event_id == event then drop_types_of event ts else t ∷ drop_types_of event ts

unfoldable pub cascade : Option Event → ℕ → List TicketType → List TicketType
cascade none id ts = ts
cascade (some e) id ts = drop_types_of id ts

-- `DeleteEvent`
unfoldable pub delete_event_row : ℕ → ℕ → Go Platform (Unit {0})
delete_event_row id organizer = do
  external
  modify λ s. record s {
    events = drop_owned id organizer s.events;
    ticket_types = cascade (find_owned id organizer s.events) id s.ticket_types;
  }

-- The columns that an organizer gives of a ticket type.
pub record TypeColumns : Type 0 where
  pub name : String
  pub description : Option String
  pub price : ℤ
  pub quantity : ℤ
  pub max_per_order : Option ℤ
  pub sale_start : ℕ
  pub sale_end : ℕ

-- `CreateTicketType`: the new row gets the next id, and the columns' defaults.
unfoldable pub insert_ticket_type : ℕ → TypeColumns → Go Platform TicketType
insert_ticket_type event c s =
    let t : TicketType = record {
      id = s.next_id;
      event_id = event;
      name = c.name;
      description = c.description;
      price = c.price;
      max_per_order = c.max_per_order;
      quantity = c.quantity;
      sold = pos 0;
      is_active = true;
      sale_start = some c.sale_start;
      sale_end = some c.sale_end;
    } in
    (ok t, record s { ticket_types = s.ticket_types ++ t ∷ []; next_id = suc s.next_id })

unfoldable pub create_ticket_type_row : ℕ → TypeColumns → Go Platform TicketType
create_ticket_type_row event c = do external; insert_ticket_type event c

-- `SET name = $2, … WHERE id = $1`
abbrev pub with_columns : TypeColumns → TicketType → TicketType
with_columns c t = record t {
  name = c.name;
  description = c.description;
  price = c.price;
  quantity = c.quantity;
  max_per_order = c.max_per_order;
  sale_start = some c.sale_start;
  sale_end = some c.sale_end;
}

unfoldable pub edit_type : ℕ → TypeColumns → List TicketType → List TicketType
edit_type id c [] = []
edit_type id c (t ∷ ts) = if t.id == id then with_columns c t ∷ ts else t ∷ edit_type id c ts

-- `UpdateTicketType`
unfoldable pub update_ticket_type_row : ℕ → TypeColumns → Go Platform TicketType
update_ticket_type_row id c = do
  external
  ts ← gets (λ s. s.ticket_types)
  t ← or_none (find_ticket_type id ts) no_rows
  modify λ s. record s { ticket_types = edit_type id c s.ticket_types }
  gets λ _. with_columns c t

unfoldable pub drop_type : ℕ → List TicketType → List TicketType
drop_type id [] = []
drop_type id (t ∷ ts) = if t.id == id then drop_type id ts else t ∷ drop_type id ts

-- `DeleteTicketType`
unfoldable pub delete_ticket_type_row : ℕ → Go Platform (Unit {0})
delete_ticket_type_row id = do
  external
  modify λ s. record s { ticket_types = drop_type id s.ticket_types }

-- `WHERE event_id = $1 AND is_active = TRUE`; the order by price is left out.
unfoldable pub types_of : ℕ → List TicketType → List TicketType
types_of event [] = []
types_of event (t ∷ ts) =
    if t.event_id == event && t.is_active then t ∷ types_of event ts else types_of event ts

-- `ListTicketTypesByEvent`
unfoldable pub list_ticket_types_by_event : ℕ → Go Platform (List TicketType)
list_ticket_types_by_event event = do external; gets λ s. types_of event s.ticket_types

-- `DEL event:<key>`
unfoldable pub drop_cached : String → Go Platform (Unit {0})
drop_cached key = do
  external
  modify (set_redis λ r. record r { event_cache = put key none r.event_cache })

-- `SET event:<key>`
unfoldable pub cache_event : String → Event → Go Platform (Unit {0})
cache_event key e = do
  external
  modify (set_redis λ r. record r { event_cache = put key (some e) r.event_cache })

-- `GET event:<key>`
unfoldable pub get_cached : String → Go Platform (Option Event)
get_cached key = do external; gets λ s. s.redis.event_cache key

-- `SET ticket_stock:<id>`
unfoldable pub put_stock : String → ℤ → Go Platform (Unit {0})
put_stock key v = do external; modify (set_redis λ r. record r { stock = put key (some v) r.stock })
