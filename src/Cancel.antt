-- ===== src/Cancel.antt =====
-- `TicketService.CancelOrder` of ticket-service/internal/service/ticket_service.go, which gives the
-- tickets of an order back and takes it out of its queue, and the worker that cancels expired orders
-- (ticket-service/internal/worker/expiry_worker.go).
use entra_api.Base.{ℕ, String, Bool, ◌&&◌, Option, List, [], ◌∷◌, ltb, str_eq, if◌then◌else◌}
use entra_api.Base.Go.{
  Go, Error, message, Result, ok, err, pure, gets, attempt, ignore, or_none, when, for_each, ◌>>=◌,
  ◌>>◌,
}
use entra_api.Base.External.{Uuids}
use entra_api.Platform.{Order, OrderItem, Platform, external, order_cancelled}
use entra_api.Stock.{release_ticket_stock}
use entra_api.Tables.{
  get_order, update_order_status, list_order_items, publish, get_active, remove_waiting, or_empty,
}
use entra_api.Queue.{advance_queue}

abbrev pub err_invalid_uuid : Error
err_invalid_uuid = message "invalid UUID"

-- `id, _ := s.redisClient.Get(ctx, activeKey).Result()`
abbrev pub text_of : Result (Option String) → String
text_of (ok v) = or_empty v
text_of (err _) = ""

unfoldable pub read_active : ℕ → Go Platform String
read_active event = do r ← attempt (get_active event); pure (text_of r)

module _ (uuids : Uuids) where
  -- The tickets of each item go back into the stock.
  unfoldable pub release_items : List OrderItem → Go Platform (Unit {0})
  release_items items =
      for_each items λ i. release_ticket_stock uuids (uuids.to_string i.ticket_type_id) i.quantity

  -- The order leaves the queue of its event, and the queue moves on if the order held the slot.
  unfoldable pub leave_queue : ℕ → String → Go Platform (Unit {0})
  leave_queue event order_id = do
    redis ← gets (λ s. s.redis_on)
    when redis do
      active ← read_active event
      if str_eq active order_id
          then ignore (advance_queue uuids event)
          else ignore (remove_waiting event order_id)

  -- `TicketService.CancelOrder`
  unfoldable pub cancel_order : String → Go Platform (Unit {0})
  cancel_order order_id = do
    id ← or_none (uuids.parse order_id) err_invalid_uuid
    order ← get_order id
    update_order_status id "CANCELLED"
    items ← list_order_items id
    release_items items
    ignore (publish (order_cancelled order_id))
    leave_queue order.event_id order_id

  -- `GetExpiredPendingOrders`
  abbrev pub is_expired : ℕ → Order → Bool
  is_expired now o = str_eq o.status "PENDING" && ltb o.expires_at now

  unfoldable pub expired_of : ℕ → List Order → List Order
  expired_of now [] = []
  expired_of now (o ∷ os) = if is_expired now o then o ∷ expired_of now os else expired_of now os

  unfoldable pub get_expired_pending_orders : Go Platform (List Order)
  get_expired_pending_orders = do external; gets (λ s. expired_of s.env.now s.orders)

  -- One tick of `ExpiryWorker.processExpiredOrders`.
  unfoldable pub process_expired_orders : Go Platform (Unit {0})
  process_expired_orders = do
    r ← attempt get_expired_pending_orders
    elim r [
      | err _ ↦ pure tt
      | ok orders ↦ for_each orders (λ o. ignore (cancel_order (uuids.to_string o.id)))
    ]
