-- ===== src/Tables.antt =====
-- The queries of the ticket service on `orders`, `order_items` and `tickets`
-- (ticket-service/internal/repository/db/orders.sql.go and tickets.sql.go), the statement that moves
-- an order's deadline, and the keys of the event queues in Redis.
use entra_api.Base.{
  ℕ, suc, String, ◌&&◌, Option, none, some, List, [], ◌∷◌, ◌++◌, ◌==◌, ltb, str_eq, if◌then◌else◌,
}
use entra_api.Base.Int.{ℤ}
use entra_api.Base.Go.{Go, no_rows, ok, gets, or_none, modify, ◌>>=◌, ◌>>◌}
use entra_api.Platform.{Order, OrderItem, Ticket, Message, Platform, external, put_event, set_redis}

unfoldable pub find_order : ℕ → List Order → Option Order
find_order id [] = none
find_order id (o ∷ os) = if o.id == id then some o else find_order id os

unfoldable pub set_status : ℕ → String → List Order → List Order
set_status id status [] = []
set_status id status (o ∷ os) =
    if o.id == id then record o { status = status } ∷ os else o ∷ set_status id status os

unfoldable pub set_expires : ℕ → ℕ → List Order → List Order
set_expires id t [] = []
set_expires id t (o ∷ os) =
    if o.id == id then record o { expires_at = t } ∷ os else o ∷ set_expires id t os

unfoldable pub items_of : ℕ → List OrderItem → List OrderItem
items_of id [] = []
items_of id (i ∷ is) = if i.order_id == id then i ∷ items_of id is else items_of id is

-- `status = 'PENDING' AND expires_at > NOW()`
unfoldable pub find_active_pending : ℕ → ℕ → ℕ → List Order → Option Order
find_active_pending now user event [] = none
find_active_pending now user event (o ∷ os) =
    if o.user_id == user
      && (o.event_id == event && (str_eq o.status "PENDING" && ltb now o.expires_at))
    then some o
    else find_active_pending now user event os

-- `GetOrder`
unfoldable pub get_order : ℕ → Go Platform Order
get_order id = do external; orders ← gets (λ s. s.orders); or_none (find_order id orders) no_rows

-- `GetActivePendingOrderByUserAndEvent`
unfoldable pub get_active_pending_order : ℕ → ℕ → Go Platform Order
get_active_pending_order user event = do
  external
  found ← gets (λ s. find_active_pending s.env.now user event s.orders)
  or_none found no_rows

-- `CreateOrder`: the new row gets the next id.
unfoldable pub insert_order : ℕ → ℕ → ℤ → String → ℕ → Go Platform Order
insert_order user event total status expires s =
    let o : Order = record {
      id = s.next_id;
      user_id = user;
      event_id = event;
      total_amount = total;
      status = status;
      expires_at = expires;
    } in
    (ok o, record s { orders = s.orders ++ o ∷ []; next_id = suc s.next_id })

unfoldable pub create_order_row : ℕ → ℕ → ℤ → String → ℕ → Go Platform Order
create_order_row user event total status expires = do
  external
  insert_order user event total status expires

-- `CreateOrderItem`
unfoldable pub create_order_item : OrderItem → Go Platform (Unit {0})
create_order_item i = do external; modify λ s. record s { items = s.items ++ i ∷ [] }

-- `UpdateOrderStatus`: an unknown id is `pgx.ErrNoRows`.
unfoldable pub write_status : ℕ → String → Go Platform (Unit {0})
write_status id status = do
  orders ← gets (λ s. s.orders)
  or_none (find_order id orders) no_rows
  modify λ s. record s { orders = set_status id status s.orders }

unfoldable pub update_order_status : ℕ → String → Go Platform (Unit {0})
update_order_status id status = do external; write_status id status

-- `ListOrderItems`
unfoldable pub list_order_items : ℕ → Go Platform (List OrderItem)
list_order_items id = do external; gets (λ s. items_of id s.items)

-- `UPDATE orders SET expires_at = $2, updated_at = NOW() WHERE id = $1`
unfoldable pub move_deadline : ℕ → ℕ → Go Platform (Unit {0})
move_deadline id t = do external; modify λ s. record s { orders = set_expires id t s.orders }

-- `CreateTicket`: the new row gets the next id and the column's default status.
unfoldable pub insert_ticket : Order → ℕ → String → Go Platform Ticket
insert_ticket o ticket_type code s =
    let t : Ticket = record {
      id = s.next_id;
      order_id = o.id;
      user_id = o.user_id;
      event_id = o.event_id;
      ticket_type_id = ticket_type;
      ticket_code = code;
      status = "ACTIVE";
    } in
    (ok t, record s { tickets = s.tickets ++ t ∷ []; next_id = suc s.next_id })

unfoldable pub create_ticket : Order → ℕ → String → Go Platform Ticket
create_ticket o ticket_type code = do external; insert_ticket o ticket_type code

-- `producer.Publish`
unfoldable pub publish : Message → Go Platform (Unit {0})
publish m = do external; modify λ s. record s { log = s.log ++ m ∷ [] }

-- A text that Redis returns, empty where the key is missing or the call fails.
abbrev pub or_empty : Option String → String
or_empty none = ""
or_empty (some v) = v

-- `GET …:active`
unfoldable pub get_active : ℕ → Go Platform (Option String)
get_active event = do external; gets (λ s. s.redis.active event)

-- `GET …:expires_at`
unfoldable pub get_expires : ℕ → Go Platform (Option ℕ)
get_expires event = do external; gets (λ s. s.redis.expires_at event)

-- `SET …:active`
unfoldable pub set_active : ℕ → Option String → Go Platform (Unit {0})
set_active event v = do
  external
  modify (set_redis λ r. record r { active = put_event event v r.active })

-- `SET …:expires_at`
unfoldable pub set_expires_at : ℕ → Option ℕ → Go Platform (Unit {0})
set_expires_at event v = do
  external
  modify (set_redis λ r. record r { expires_at = put_event event v r.expires_at })

-- `DEL …:active …:expires_at`
unfoldable pub clear_slot : ℕ → Go Platform (Unit {0})
clear_slot event = do
  external
  modify (
      set_redis λ r. record r {
        active = put_event event none r.active;
        expires_at = put_event event none r.expires_at;
      })

unfoldable pub set_waiting : ℕ → List String → Go Platform (Unit {0})
set_waiting event xs = modify (set_redis λ r. record r { waiting = put_event event xs r.waiting })

-- `RPUSH …:waiting`
unfoldable pub push_waiting : ℕ → String → Go Platform (Unit {0})
push_waiting event v = do
  external
  xs ← gets (λ s. s.redis.waiting event)
  set_waiting event (xs ++ v ∷ [])

-- `LRANGE …:waiting 0 -1`
unfoldable pub list_waiting : ℕ → Go Platform (List String)
list_waiting event = do external; gets (λ s. s.redis.waiting event)

unfoldable pub without : String → List String → List String
without v [] = []
without v (x ∷ xs) = if str_eq x v then without v xs else x ∷ without v xs

-- `LREM …:waiting 0 v`: every entry that equals the value.
unfoldable pub remove_waiting : ℕ → String → Go Platform (Unit {0})
remove_waiting event v = do
  external
  xs ← gets (λ s. s.redis.waiting event)
  set_waiting event (without v xs)
