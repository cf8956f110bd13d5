-- ===== src/Standing.antt =====
-- Where an order stands in its queue, and how its buyer leaves it: `GetOrderQueueStatus` and
-- `CancelOrderInQueue` of ticket-service/internal/service/queue_service.go.
pub mod Access
pub mod Waits
pub mod Positions
use entra_api.Base.{
  ℕ, suc, ◌+◌, ◌-◌, ◌*◌, ◌/◌, ◌==◌, String, Bool, true, false, not, ◌&&◌, ◌||◌, Option, none, some,
  List, [], ◌∷◌, ltb, leb, str_eq, if◌then◌else◌,
}
use entra_api.Base.Go.{
  Go, Error, message, Result, ok, err, pure, gets, attempt, ignore, or_none, or_fail, fail_if, when,
  ◌>>=◌, ◌>>◌,
}
use entra_api.Base.External.{Uuids}
use entra_api.Platform.{Order, OrderItem, Platform, second}
use entra_api.Stock.{client_get_ticket_type}
use entra_api.Tables.{
  get_order, list_order_items, push_waiting, list_waiting, move_deadline, remove_waiting,
}
use entra_api.Queue.{unix, advance_queue}
use entra_api.Cancel.{read_active, cancel_order}
use entra_api.WaitingRoom.{
  QueueStatus, active_status, waiting_status, closed_status, read_expires, count_waiting, activate,
  check_and_advance, waiting_buffer,
}

abbrev pub err_invalid_order : Error
err_invalid_order = message "invalid order id"

abbrev pub err_order_not_found : Error
err_order_not_found = message "order not found"

abbrev pub err_access_denied : Error
err_access_denied = message "access denied"

abbrev pub err_already_paid : Error
err_already_paid = message "tidak dapat membatalkan pesanan yang sudah dibayar"

abbrev pub err_cancel_failed : Error
err_cancel_failed = message "gagal membatalkan pesanan"

-- The index of a text in the list, as `for i, item := range waitingList` finds it.
unfoldable pub index_of : String → List String → Option ℕ
index_of v [] = none
index_of v (x ∷ xs) =
    if str_eq x v then some 0 else elim (index_of v xs) [ none ↦ none | some i ↦ some (suc i) ]

abbrev pub list_of : Result (List String) → List String
list_of (ok xs) = xs
list_of (err _) = []

abbrev pub is_paid : String → Bool
is_paid status = str_eq status "PAID" || str_eq status "SUKSES"

module _ (uuids : Uuids) where
  -- The order is cancelled, and reported as expired.
  unfoldable pub expire : ℕ → String → Bool → Go Platform QueueStatus
  expire event order_id advance = do
    ignore (cancel_order uuids order_id)
    when advance (ignore (advance_queue uuids event))
    pure (closed_status "EXPIRED")

  -- The order holds the slot.
  unfoldable pub report_active : Order → String → Go Platform QueueStatus
  report_active o order_id = do
    expires ← read_expires o.event_id
    now ← gets (λ s. s.env.now)
    if leb expires (unix now)
        then expire o.event_id order_id true
        else pure (active_status (expires - unix now) (expires * second))

  -- The order holds no slot and stands in no list.
  unfoldable pub report_missed : Order → String → String → Go Platform QueueStatus
  report_missed o order_id active =
      if str_eq active "" then activate uuids o.event_id o.id order_id else do
        ignore (push_waiting o.event_id order_id)
        now ← gets (λ s. s.env.now)
        ignore (move_deadline o.id (now + waiting_buffer))
        n ← count_waiting o.event_id
        pure (waiting_status (n + 1))

  -- The part of `GetOrderQueueStatus` that reads the queue.
  unfoldable pub report_queue : Order → String → Go Platform QueueStatus
  report_queue o order_id = do
    check_and_advance uuids o.event_id
    active ← read_active o.event_id
    if str_eq active order_id then report_active o order_id else do
      waiting ← attempt (list_waiting o.event_id)
      elim (index_of order_id (list_of waiting)) [
        | some i ↦ pure (waiting_status (i + 2))
        | none ↦ report_missed o order_id active
      ]

  -- Without Redis, an order that is not expired is active.
  unfoldable pub report_alone : Order → String → Go Platform QueueStatus
  report_alone o order_id = do
    now ← gets (λ s. s.env.now)
    if (o.expires_at - now) / second == 0
        then expire o.event_id order_id false
        else pure (active_status ((o.expires_at - now) / second) o.expires_at)

  unfoldable pub report_open : Order → String → Go Platform QueueStatus
  report_open o order_id = do
    now ← gets (λ s. s.env.now)
    redis ← gets (λ s. s.redis_on)
    if ltb o.expires_at now
        then expire o.event_id order_id redis
        else if not redis
        then report_alone o order_id
        else report_queue o order_id

  -- The checks that both operations begin with.
  unfoldable pub own_order : String → String → Go Platform Order
  own_order order_id user_id = do
    id ← or_none (uuids.parse order_id) err_invalid_order
    o ← or_fail (get_order id) err_order_not_found
    fail_if (not (str_eq user_id "") && not (str_eq (uuids.to_string o.user_id) user_id))
        err_access_denied
    pure o

  -- The reads for the quantity and the name of the ticket type, which the status only displays.
  unfoldable pub read_type : Bool → Result (List OrderItem) → Go Platform (Unit {0})
  read_type client (ok (i ∷ is)) =
      when client (ignore (client_get_ticket_type uuids (uuids.to_string i.ticket_type_id)))
  read_type client (ok []) = pure tt
  read_type client (err _) = pure tt

  unfoldable pub read_summary : ℕ → Go Platform (Unit {0})
  read_summary id = do
    items ← attempt (list_order_items id)
    client ← gets (λ s. s.client_on)
    read_type client items

  -- `GetOrderQueueStatus` for the buyer's order.
  unfoldable pub report_order : String → Order → Go Platform QueueStatus
  report_order order_id o = do
    read_summary o.id
    if is_paid o.status
        then pure (closed_status "COMPLETED")
        else if str_eq o.status "CANCELLED"
        then pure (closed_status "CANCELLED")
        else report_open o order_id

  -- `TicketService.GetOrderQueueStatus`
  unfoldable pub get_order_queue_status : String → String → Go Platform QueueStatus
  get_order_queue_status order_id user_id = own_order order_id user_id >>= report_order order_id

  -- `CancelOrderInQueue` for the buyer's order.
  unfoldable pub withdraw_order : String → Order → Go Platform (Unit {0})
  withdraw_order order_id o = do
    fail_if (is_paid o.status) err_already_paid
    or_fail (cancel_order uuids order_id) err_cancel_failed
    redis ← gets (λ s. s.redis_on)
    when redis do
      active ← read_active o.event_id
      if str_eq active order_id
          then ignore (advance_queue uuids o.event_id)
          else ignore (remove_waiting o.event_id order_id)

  -- `TicketService.CancelOrderInQueue`
  unfoldable pub cancel_order_in_queue : String → String → Go Platform (Unit {0})
  cancel_order_in_queue order_id user_id = own_order order_id user_id >>= withdraw_order order_id
