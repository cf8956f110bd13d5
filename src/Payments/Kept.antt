-- ===== src/Payments/Kept.antt =====
-- A pending order, and the steps of `CancelOrder` and of the queue.
use entra_api.Base.{
  ℕ, String, ◌≡◌, ◌≢◌, ◌≤◌, ◌∙◌, length, refl, ◌==◌, none, some, List, [], ◌∷◌, ◌++◌, arith, inl,
  inr, Bool-cases, str_eq,
}
use entra_api.Base.Int.{ℤ}
use entra_api.Base.Go.{Env, no_rows, modify, ◌>>◌}
use entra_api.Base.Keeps.{
  Keeps, Keeps-bind, Keeps-gets, Keeps-if, Keeps-ignore, Keeps-or_none, Keeps-pure, Keeps-attempt,
  Keeps-for_each, Keeps-modify,
}
use entra_api.Base.External.{Uuids}
use entra_api.Platform.{
  Order, OrderItem, TicketType, Message, Redis, Platform, external, set_redis, put_event,
}
use entra_api.Inventory.Runs.{inventory-frame, reserve-Keeps, release-Keeps}
use entra_api.Stock.{apply_reserve, apply_release}
use entra_api.Stock.Runs.{StockRules, release_ticket_stock-Keeps}
use entra_api.Tables.{
  find_order, set_status, set_expires, get_order, move_deadline, set_active, set_expires_at,
  clear_slot, set_waiting, update_order_status, write_status, list_order_items, publish, get_active,
  remove_waiting, without, list_waiting, items_of,
}
use entra_api.Queue.{advance_queue}
use entra_api.Queue.Runs.{QueueRules, advance_queue-Keeps}
use entra_api.Cancel.{read_active, text_of, release_items, leave_queue}
use entra_api.WaitingRoom.{length_of, count_waiting}

-- The table of orders has a pending row with the id.
pub record PendingRow (id : ℕ) (os : List Order) : Type 0 where
  row : Order
  found : find_order id os ≡ some row
  pending : row.status ≡ "PENDING"

abbrev pub StillPending : ℕ → Platform → Type 0
StillPending id s = PendingRow id s.orders

pub pending_row :
    (id : ℕ) (s : Platform) (o : Order)
    → find_order id s.orders ≡ some o
    → o.status ≡ "PENDING"
    → StillPending id s
pending_row id s o found pending = record { row = o; found = found; pending = pending }

find_order-set_status :
    (id j : ℕ) (status : String) (os : List Order)
    → j ≢ id
    → find_order id (set_status j status os) ≡ find_order id os
unfolding find_order set_status
find_order-set_status id j status [] h = refl
find_order-set_status id j status (o ∷ os) h =
    ground (arith, find_order-set_status id j status os h, h)

-- The row that was found is found with its status.
Found : ℕ → String → List Order → Type 0
Found id status os = (o : Order) × (find_order id os ≡ some o) × (o.status ≡ status)

set_expires-Found :
    (id j t : ℕ) (o : Order) (os : List Order)
    → find_order id os ≡ some o
    → Found id o.status (set_expires j t os)
unfolding Found find_order set_expires
set_expires-Found id j t r [] h = absurd (ground (arith, h))
set_expires-Found id j t r (o ∷ os) h = elim (Bool-cases (o.id == id)) [
  | inl own ↦ elim (Bool-cases (o.id == j)) [
    | inl hit ↦ (record o { expires_at = t }, ground (arith, own, hit), ground (arith, own, h))
    | inr miss ↦ (r, ground (arith, own, miss, h), refl)
  ]
  | inr other ↦ elim (Bool-cases (o.id == j)) [
    | inl hit ↦ (r, ground (arith, other, hit, h), refl)
    | inr miss ↦
        let (r', found, same) = set_expires-Found id j t r os (ground (arith, other, h)) in
        (r', ground (arith, other, miss, found), same)
  ]
]

set_expires-PendingRow :
    (id j t : ℕ) (os : List Order) → PendingRow id os → PendingRow id (set_expires j t os)
unfolding Found
set_expires-PendingRow id j t os h =
    let (o, f, st) = set_expires-Found id j t h.row os h.found in
    record { row = o; found = f; pending = st ∙ h.pending }

set_status-PendingRow :
    (id j : ℕ) (status : String) (os : List Order)
    → j ≢ id
    → PendingRow id os
    → PendingRow id (set_status j status os)
set_status-PendingRow id j status os other h = record {
  row = h.row;
  found = find_order-set_status id j status os other ∙ h.found;
  pending = h.pending;
}

AnyQuantity : ℤ → Type 0
AnyQuantity q = Unit {0}

StillPending-frame :
    (id : ℕ) (s : Platform) (e : Env) (types : List TicketType)
    → length e.script ≤ length s.env.script
    → StillPending id s
    → StillPending id (record s { env = e; ticket_types = types })
StillPending-frame id s e types _ h = h

module _ (uuids : Uuids) (id : ℕ) where
  stock_rules : StockRules uuids AnyQuantity (StillPending id)
  unfolding external apply_reserve apply_release
  stock_rules = record {
    calls = record { run = λ s h. h };
    takes = λ key qty _. record { run = λ s h. h };
    gives = λ key qty _. record { run = λ s h. h };
    stores = λ key v _. Keeps-modify (λ s h. h);
    reserves = reserve-Keeps (inventory-frame (StillPending id) (StillPending-frame id)) uuids;
    releases = release-Keeps (inventory-frame (StillPending id) (StillPending-frame id)) uuids;
  }

  pub get_order-StillPending : (j : ℕ) → Keeps (StillPending id) (get_order j)
  unfolding get_order
  get_order-StillPending j =
      Keeps-bind stock_rules.calls
        λ _. Keeps-bind (Keeps-gets (λ s. s.orders)) λ os. Keeps-or_none (find_order j os) no_rows

  redis_step : (f : Redis → Redis) → Keeps (StillPending id) (external >> modify (set_redis f))
  redis_step f =
      Keeps-bind {f = λ _. modify (set_redis f)} stock_rules.calls λ _. record { run = λ s h. h }

  queue_rules : QueueRules (StillPending id)
  unfolding move_deadline set_active set_expires_at clear_slot set_waiting
  queue_rules = record {
    calls = stock_rules.calls;
    get_order_keeps = get_order-StillPending;
    move_deadline_keeps = λ j t.
        Keeps-bind {f = λ _. modify λ s. record s { orders = set_expires j t s.orders }}
          stock_rules.calls λ _. record { run = λ s h. set_expires-PendingRow id j t s.orders h };
    set_active_keeps =
        λ event v. redis_step (λ r. record r { active = put_event event v r.active });
    set_expires_at_keeps =
        λ event v. redis_step (λ r. record r { expires_at = put_event event v r.expires_at });
    clear_slot_keeps = λ event. redis_step (λ r. record r {
      active = put_event event none r.active;
      expires_at = put_event event none r.expires_at;
    });
    set_waiting_keeps = λ event xs. record { run = λ s h. h };
  }

  pub update_status-StillPending :
      (j : ℕ) (status : String) → j ≢ id → Keeps (StillPending id) (update_order_status j status)
  unfolding update_order_status write_status
  update_status-StillPending j status other = Keeps-bind stock_rules.calls λ _.
      Keeps-bind (Keeps-gets (λ s. s.orders)) λ os.
        Keeps-bind {f = λ _. modify λ s. record s { orders = set_status j status s.orders }}
          (Keeps-or_none (find_order j os) no_rows)
          λ _. record { run = λ s h. set_status-PendingRow id j status s.orders other h }

  pub list_items-StillPending : (j : ℕ) → Keeps (StillPending id) (list_order_items j)
  unfolding list_order_items
  list_items-StillPending j = Keeps-bind stock_rules.calls λ _. Keeps-gets (λ s. items_of j s.items)

  pub publish-StillPending : (m : Message) → Keeps (StillPending id) (publish m)
  unfolding publish
  publish-StillPending m =
      Keeps-bind {f = λ _. modify λ s. record s { log = s.log ++ m ∷ [] }} stock_rules.calls
        λ _. record { run = λ s h. h }

  read_active-StillPending : (event : ℕ) → Keeps (StillPending id) (read_active event)
  unfolding read_active get_active
  read_active-StillPending event =
      Keeps-bind
        (Keeps-attempt (Keeps-bind stock_rules.calls λ _. Keeps-gets (λ s. s.redis.active event)))
        λ r. Keeps-pure (text_of r)

  remove_waiting-StillPending :
      (event : ℕ) (x : String) → Keeps (StillPending id) (remove_waiting event x)
  unfolding remove_waiting
  remove_waiting-StillPending event x = Keeps-bind stock_rules.calls λ _.
      Keeps-bind (Keeps-gets (λ s. s.redis.waiting event))
        λ xs. queue_rules.set_waiting_keeps event (without x xs)

  pub advance-StillPending : (event : ℕ) → Keeps (StillPending id) (advance_queue uuids event)
  advance-StillPending = advance_queue-Keeps uuids queue_rules

  pub leave_queue-StillPending :
      (event : ℕ) (x : String) → Keeps (StillPending id) (leave_queue uuids event x)
  unfolding leave_queue
  leave_queue-StillPending event x = Keeps-bind (Keeps-gets (λ s. s.redis_on)) λ redis.
      Keeps-if redis
        (Keeps-bind (read_active-StillPending event) λ active.
          Keeps-if (str_eq active x) (Keeps-ignore (advance-StillPending event))
            (Keeps-ignore (remove_waiting-StillPending event x)))
        (Keeps-pure tt)

  pub release_items-StillPending :
      (items : List OrderItem) → Keeps (StillPending id) (release_items uuids items)
  unfolding release_items AnyQuantity
  release_items-StillPending items =
      Keeps-for_each items
        λ i. release_ticket_stock-Keeps stock_rules (uuids.to_string i.ticket_type_id) i.quantity tt

  pub count_waiting-StillPending : (event : ℕ) → Keeps (StillPending id) (count_waiting event)
  unfolding count_waiting list_waiting
  count_waiting-StillPending event =
      Keeps-bind
        (Keeps-attempt (Keeps-bind stock_rules.calls λ _. Keeps-gets (λ s. s.redis.waiting event)))
        λ r. Keeps-pure (length_of r)
