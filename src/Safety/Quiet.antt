-- ===== src/Safety/Quiet.antt =====
-- The rules for a property that most steps of the ticket service cannot touch.
use entra_api.Base.{ℕ, ◌≤◌, length, String, ◌≡◌, Option, List, [], ◌∷◌, All, arith}
use entra_api.Base.Int.{ℤ}
use entra_api.Base.Go.{Go, Result, ok, err, gets, ◌>>=◌}
use entra_api.Base.Keeps.{Keeps, Yields, call_shorter}
use entra_api.Base.External.{Uuids}
use entra_api.Platform.{Order, OrderItem, Message, Platform, external}
use entra_api.Stock.Runs.{StockRules}
use entra_api.Checkout.{get_key, set_key, set_key_if_free}
use entra_api.Safety.Rules.{PlatformRules, IsFine}
use entra_api.Tables.{
  items_of, create_order_item, get_order, get_active_pending_order, insert_order, create_order_row,
  write_status, update_order_status, list_order_items, move_deadline, insert_ticket, create_ticket,
  publish, get_active, get_expires, set_active, set_expires_at, clear_slot, set_waiting,
  push_waiting, list_waiting, remove_waiting,
}

-- The property is kept by each step on the stock, wants items of fine quantities, and does not
-- depend on anything but the ticket types, the stock and the items, and on the script being short.
pub record QuietRules (uuids : Uuids) (Q : ℤ → Type 0) (P : Platform → Type 0) : Type 0 where
  pub stock : StockRules uuids Q P
  pub quiet :
      (s s' : Platform)
      → s'.ticket_types ≡ s.ticket_types
      → s'.redis.stock ≡ s.redis.stock
      → s'.items ≡ s.items
      → length s'.env.script ≤ length s.env.script
      → P s
      → P s'
  pub positive : (s : Platform) → P s → All (IsFine Q) s.items
  pub adds : (i : OrderItem) → Q i.quantity → Keeps P (create_order_item i)

items_of-positive :
    (Q : ℤ → Type 0) (id : ℕ) (is : List OrderItem)
    → All (IsFine Q) is
    → All (IsFine Q) (items_of id is)
unfolding items_of
items_of-positive Q id [] h = tt
items_of-positive Q id (i ∷ is) h = ground (arith, items_of-positive Q id is h.1)

module _ {uuids : Uuids} {Q : ℤ → Type 0} {P : Platform → Type 0}
    (rules : QuietRules uuids Q P) where
  open rules use {stock, quiet, positive}

  calls-Keeps : Keeps P external
  calls-Keeps = stock.calls

  -- A run that leaves what the property depends on.
  quiet-run :
      {A : Type 0} (m : Go Platform A)
      → ((s : Platform)
          → ((m s).1.ticket_types ≡ s.ticket_types)
            × ((m s).1.redis.stock ≡ s.redis.stock)
            × ((m s).1.items ≡ s.items)
            × (length (m s).1.env.script ≤ length s.env.script))
      → Keeps P m
  quiet-run m same = record {
    run = λ s h. quiet s (m s).1 (same s).0 (same s).1 (same s).2 (same s).3 h;
  }

  get_order-Keeps : (id : ℕ) → Keeps P (get_order id)
  unfolding get_order external
  get_order-Keeps id = quiet-run (get_order id) (λ s. ground (arith, call_shorter s.env))

  get_active_pending_order-Keeps : (user event : ℕ) → Keeps P (get_active_pending_order user event)
  unfolding get_active_pending_order external
  get_active_pending_order-Keeps user event =
      quiet-run (get_active_pending_order user event) (λ s. ground (arith, call_shorter s.env))

  create_order_row-Keeps :
      (user event : ℕ) (total : ℤ) (status : String) (expires : ℕ)
      → Keeps P (create_order_row user event total status expires)
  unfolding create_order_row insert_order external
  create_order_row-Keeps user event total status expires =
      quiet-run (create_order_row user event total status expires)
        (λ s. ground (arith, call_shorter s.env))

  update_order_status-Keeps : (id : ℕ) (status : String) → Keeps P (update_order_status id status)
  unfolding update_order_status write_status external
  update_order_status-Keeps id status =
      quiet-run (update_order_status id status) (λ s. ground (arith, call_shorter s.env))

  list_order_items-Keeps : (id : ℕ) → Keeps P (list_order_items id)
  unfolding list_order_items external
  list_order_items-Keeps id =
      quiet-run (list_order_items id) (λ s. ground (arith, call_shorter s.env))

  move_deadline-Keeps : (id t : ℕ) → Keeps P (move_deadline id t)
  unfolding move_deadline external
  move_deadline-Keeps id t =
      quiet-run (move_deadline id t) (λ s. ground (arith, call_shorter s.env))

  create_ticket-Keeps : (o : Order) (n : ℕ) (code : String) → Keeps P (create_ticket o n code)
  unfolding create_ticket insert_ticket external
  create_ticket-Keeps o n code =
      quiet-run (create_ticket o n code) (λ s. ground (arith, call_shorter s.env))

  publish-Keeps : (m : Message) → Keeps P (publish m)
  unfolding publish external
  publish-Keeps m = quiet-run (publish m) (λ s. ground (arith, call_shorter s.env))

  get_active-Keeps : (event : ℕ) → Keeps P (get_active event)
  unfolding get_active external
  get_active-Keeps event = quiet-run (get_active event) (λ s. ground (arith, call_shorter s.env))

  get_expires-Keeps : (event : ℕ) → Keeps P (get_expires event)
  unfolding get_expires external
  get_expires-Keeps event = quiet-run (get_expires event) (λ s. ground (arith, call_shorter s.env))

  set_active-Keeps : (event : ℕ) (v : Option String) → Keeps P (set_active event v)
  unfolding set_active external
  set_active-Keeps event v =
      quiet-run (set_active event v) (λ s. ground (arith, call_shorter s.env))

  set_expires_at-Keeps : (event : ℕ) (v : Option ℕ) → Keeps P (set_expires_at event v)
  unfolding set_expires_at external
  set_expires_at-Keeps event v =
      quiet-run (set_expires_at event v) (λ s. ground (arith, call_shorter s.env))

  clear_slot-Keeps : (event : ℕ) → Keeps P (clear_slot event)
  unfolding clear_slot external
  clear_slot-Keeps event = quiet-run (clear_slot event) (λ s. ground (arith, call_shorter s.env))

  set_waiting-Keeps : (event : ℕ) (xs : List String) → Keeps P (set_waiting event xs)
  unfolding set_waiting
  set_waiting-Keeps event xs =
      quiet-run (set_waiting event xs) (λ s. ground (arith, call_shorter s.env))

  push_waiting-Keeps : (event : ℕ) (v : String) → Keeps P (push_waiting event v)
  unfolding push_waiting set_waiting external
  push_waiting-Keeps event v =
      quiet-run (push_waiting event v) (λ s. ground (arith, call_shorter s.env))

  list_waiting-Keeps : (event : ℕ) → Keeps P (list_waiting event)
  unfolding list_waiting external
  list_waiting-Keeps event =
      quiet-run (list_waiting event) (λ s. ground (arith, call_shorter s.env))

  remove_waiting-Keeps : (event : ℕ) (v : String) → Keeps P (remove_waiting event v)
  unfolding remove_waiting set_waiting external
  remove_waiting-Keeps event v =
      quiet-run (remove_waiting event v) (λ s. ground (arith, call_shorter s.env))

  -- The items that are listed are positive.
  list_order_items-Yields :
      (id : ℕ) (s : Platform) → P s → Yields P (All (IsFine Q)) (list_order_items id s)
  unfolding list_order_items
  list_order_items-Yields id s h = listed id (external s) (calls-Keeps.run s h)
    where
      listed :
          (id : ℕ) (r : Result (Unit {0}) × Platform)
          → P r.1
          → Yields P (All (IsFine Q)) ((◌>>=◌ (λ _. r) (λ _. gets (λ t. items_of id t.items))) r.1)
      listed id (ok _, t) h = (items_of-positive Q id t.items (positive t h), h)
      listed id (err _, t) h = h

  get_key-Keeps : (k : String) → Keeps P (get_key k)
  unfolding get_key external
  get_key-Keeps k = quiet-run (get_key k) (λ s. ground (arith, call_shorter s.env))

  set_key-Keeps : (k : String) (v : Option String) → Keeps P (set_key k v)
  unfolding set_key external
  set_key-Keeps k v = quiet-run (set_key k v) (λ s. ground (arith, call_shorter s.env))

  set_key_if_free-Keeps : (k : String) → Keeps P (set_key_if_free k)
  unfolding set_key_if_free external
  set_key_if_free-Keeps k = quiet-run (set_key_if_free k) (λ s. ground (arith, call_shorter s.env))

  pub platform_rules : PlatformRules uuids Q P
  platform_rules = record {
    stock = stock;
    queue = record {
      calls = calls-Keeps;
      get_order_keeps = get_order-Keeps;
      move_deadline_keeps = move_deadline-Keeps;
      set_active_keeps = set_active-Keeps;
      set_expires_at_keeps = set_expires_at-Keeps;
      clear_slot_keeps = clear_slot-Keeps;
      set_waiting_keeps = set_waiting-Keeps;
    };
    get_active_pending_order_keeps = get_active_pending_order-Keeps;
    create_order_row_keeps = create_order_row-Keeps;
    update_order_status_keeps = update_order_status-Keeps;
    list_order_items_keeps = list_order_items-Keeps;
    create_ticket_keeps = create_ticket-Keeps;
    publish_keeps = publish-Keeps;
    get_active_keeps = get_active-Keeps;
    get_expires_keeps = get_expires-Keeps;
    push_waiting_keeps = push_waiting-Keeps;
    list_waiting_keeps = list_waiting-Keeps;
    remove_waiting_keeps = remove_waiting-Keeps;
    get_key_keeps = get_key-Keeps;
    set_key_keeps = set_key-Keeps;
    set_key_if_free_keeps = set_key_if_free-Keeps;
    create_order_item_keeps = rules.adds;
    list_order_items_yields = list_order_items-Yields;
  }
