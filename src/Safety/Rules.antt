-- ===== src/Safety/Rules.antt =====
-- What a property of the platform has to be kept by, step by step, to be kept by the ticket service.
use entra_api.Base.{ℕ, String, Option, All}
use entra_api.Base.Int.{ℤ}
use entra_api.Base.Keeps.{Keeps, Yields}
use entra_api.Base.External.{Uuids}
use entra_api.Platform.{Order, OrderItem, Message, Platform}
use entra_api.Stock.Runs.{StockRules}
use entra_api.Queue.Runs.{QueueRules}
use entra_api.Tables.{
  create_order_item, get_active_pending_order, create_order_row, update_order_status,
  list_order_items, create_ticket, publish, get_active, get_expires, push_waiting, list_waiting,
  remove_waiting,
}
use entra_api.Checkout.{get_key, set_key, set_key_if_free}

-- The quantity of an item meets the condition.
abbrev pub IsFine : (ℤ → Type 0) → OrderItem → Type 0
IsFine Q i = Q i.quantity

pub record PlatformRules (uuids : Uuids) (Q : ℤ → Type 0) (P : Platform → Type 0) : Type 0 where
  pub stock : StockRules uuids Q P
  pub queue : QueueRules P
  pub get_active_pending_order_keeps :
      (user event : ℕ) → Keeps P (get_active_pending_order user event)
  pub create_order_row_keeps :
      (user event : ℕ) (total : ℤ) (status : String) (expires : ℕ)
      → Keeps P (create_order_row user event total status expires)
  pub update_order_status_keeps :
      (id : ℕ) (status : String) → Keeps P (update_order_status id status)
  pub list_order_items_keeps : (id : ℕ) → Keeps P (list_order_items id)
  pub create_ticket_keeps : (o : Order) (n : ℕ) (code : String) → Keeps P (create_ticket o n code)
  pub publish_keeps : (m : Message) → Keeps P (publish m)
  pub get_active_keeps : (event : ℕ) → Keeps P (get_active event)
  pub get_expires_keeps : (event : ℕ) → Keeps P (get_expires event)
  pub push_waiting_keeps : (event : ℕ) (v : String) → Keeps P (push_waiting event v)
  pub list_waiting_keeps : (event : ℕ) → Keeps P (list_waiting event)
  pub remove_waiting_keeps : (event : ℕ) (v : String) → Keeps P (remove_waiting event v)
  pub get_key_keeps : (k : String) → Keeps P (get_key k)
  pub set_key_keeps : (k : String) (v : Option String) → Keeps P (set_key k v)
  pub set_key_if_free_keeps : (k : String) → Keeps P (set_key_if_free k)
  pub create_order_item_keeps : (i : OrderItem) → Q i.quantity → Keeps P (create_order_item i)
  pub list_order_items_yields :
      (id : ℕ) (s : Platform) → P s → Yields P (All (IsFine Q)) (list_order_items id s)
