-- ===== src/Safety/Queues.antt =====
-- The queues, cancellation and the waiting room keep every property that has the rules.
use entra_api.Base.{ℕ, zero, suc, ◌+◌, String, not, ◌&&◌, List, ltb, leb, str_eq, All}
use entra_api.Base.Go.{Result, ok, err, pure, ignore, for_each}
use entra_api.Base.Keeps.{
  Keeps, Keeps-pure, Keeps-fail, Keeps-gets, Keeps-or_none, Keeps-attempt, Keeps-ignore, Keeps-bind,
  Keeps-if, Keeps-for_each, Keeps-bind-Yields, Keeps-for_fine,
}
use entra_api.Base.Int.{ℤ}
use entra_api.Base.External.{Uuids}
use entra_api.Platform.{Order, OrderItem, Platform, order_cancelled}
use entra_api.Stock.Runs.{release_ticket_stock-Keeps}
use entra_api.Tables.{list_order_items}
use entra_api.Queue.{queue_active_duration, unix}
use entra_api.Queue.Runs.{take_slot-Keeps, advance_queue-Keeps}
use entra_api.Cancel.{
  err_invalid_uuid, text_of, read_active, release_items, leave_queue, cancel_order, expired_of,
  get_expired_pending_orders, process_expired_orders,
}
use entra_api.WaitingRoom.{
  expiry_of, read_expires, length_of, count_waiting, waiting_buffer, waiting_status, active_status,
  join_waiting, activate, activate_alone, enqueue_order, check_and_advance, err_out_of_fuel,
}
use entra_api.Safety.Rules.{PlatformRules, IsFine}

module _ {uuids : Uuids} {Q : ℤ → Type 0} {P : Platform → Type 0}
    (rules : PlatformRules uuids Q P) where
  pub read_active-Keeps : (event : ℕ) → Keeps P (read_active event)
  unfolding read_active
  read_active-Keeps event =
      Keeps-bind (Keeps-attempt (rules.get_active_keeps event)) λ r. Keeps-pure (text_of r)

  release_items-Keeps :
      (items : List OrderItem) → All (IsFine Q) items → Keeps P (release_items uuids items)
  unfolding release_items
  release_items-Keeps items h = Keeps-for_fine (IsFine Q) items h λ i positive.
      release_ticket_stock-Keeps rules.stock (uuids.to_string i.ticket_type_id) i.quantity positive

  leave_queue-Keeps : (event : ℕ) (x : String) → Keeps P (leave_queue uuids event x)
  unfolding leave_queue
  leave_queue-Keeps event x = Keeps-bind (Keeps-gets (λ s. s.redis_on)) λ redis.
      Keeps-if redis
        (Keeps-bind (read_active-Keeps event) λ active.
          Keeps-if (str_eq active x) (Keeps-ignore (advance_queue-Keeps uuids rules.queue event))
            (Keeps-ignore (rules.remove_waiting_keeps event x)))
        (Keeps-pure tt)

  pub cancel_order-Keeps : (x : String) → Keeps P (cancel_order uuids x)
  unfolding cancel_order
  cancel_order-Keeps x = Keeps-bind (Keeps-or_none (uuids.parse x) err_invalid_uuid) λ id.
      Keeps-bind (rules.queue.get_order_keeps id) λ order.
        Keeps-bind (rules.update_order_status_keeps id "CANCELLED") λ _.
          Keeps-bind-Yields (list_order_items id) (All (IsFine Q))
            (rules.list_order_items_yields id)
            λ items positive. Keeps-bind (release_items-Keeps items positive) λ _.
              Keeps-bind (Keeps-ignore (rules.publish_keeps (order_cancelled x)))
                λ _. leave_queue-Keeps order.event_id x

  get_expired-Keeps : Keeps P (get_expired_pending_orders uuids)
  unfolding get_expired_pending_orders
  get_expired-Keeps =
      Keeps-bind rules.queue.calls λ _. Keeps-gets (λ s. expired_of uuids s.env.now s.orders)

  pub process_expired_orders-Keeps : Keeps P (process_expired_orders uuids)
  unfolding process_expired_orders
  process_expired_orders-Keeps = Keeps-bind (Keeps-attempt get_expired-Keeps) listed
    where
      listed :
          (r : Result (List Order))
          → Keeps P (elim r [
            | err _ ↦ pure tt
            | ok orders ↦ for_each orders (λ o. ignore (cancel_order uuids (uuids.to_string o.id)))
          ])
      listed (err _) = Keeps-pure tt
      listed (ok orders) =
          Keeps-for_each orders λ o. Keeps-ignore (cancel_order-Keeps (uuids.to_string o.id))

  pub read_expires-Keeps : (event : ℕ) → Keeps P (read_expires event)
  unfolding read_expires
  read_expires-Keeps event =
      Keeps-bind (Keeps-attempt (rules.get_expires_keeps event)) λ r. Keeps-pure (expiry_of r)

  pub count_waiting-Keeps : (event : ℕ) → Keeps P (count_waiting event)
  unfolding count_waiting
  count_waiting-Keeps event =
      Keeps-bind (Keeps-attempt (rules.list_waiting_keeps event)) λ r. Keeps-pure (length_of r)

  join_waiting-Keeps : (event id : ℕ) (x : String) → Keeps P (join_waiting uuids event id x)
  unfolding join_waiting
  join_waiting-Keeps event id x = Keeps-bind (Keeps-ignore (rules.push_waiting_keeps event x)) λ _.
      Keeps-bind (count_waiting-Keeps event) λ n. Keeps-bind (Keeps-gets (λ s. s.env.now)) λ now.
        Keeps-bind (Keeps-ignore (rules.queue.move_deadline_keeps id (now + waiting_buffer)))
          λ _. Keeps-pure (waiting_status (n + 1))

  pub activate-Keeps : (event id : ℕ) (x : String) → Keeps P (activate uuids event id x)
  unfolding activate
  activate-Keeps event id x =
      Keeps-bind (take_slot-Keeps uuids rules.queue event id x)
        λ expires. Keeps-pure (active_status 180 expires)

  activate_alone-Keeps : (id : ℕ) → Keeps P (activate_alone uuids id)
  unfolding activate_alone
  activate_alone-Keeps id = Keeps-bind (Keeps-gets (λ s. s.env.now)) λ now.
      Keeps-bind (Keeps-ignore (rules.queue.move_deadline_keeps id (now + queue_active_duration)))
        λ _. Keeps-pure (active_status 180 (now + queue_active_duration))

  pub enqueue_order-Keeps : (fuel id event : ℕ) → Keeps P (enqueue_order uuids fuel id event)
  unfolding enqueue_order
  enqueue_order-Keeps zero id event = Keeps-fail err_out_of_fuel
  enqueue_order-Keeps (suc fuel) id event = Keeps-bind (Keeps-gets (λ s. s.redis_on)) λ redis.
      Keeps-if (not redis) (activate_alone-Keeps id) (
        Keeps-bind (read_active-Keeps event) λ active.
          Keeps-if (str_eq active "") (activate-Keeps event id (uuids.to_string id)) (
            Keeps-bind (read_expires-Keeps event) λ expires.
              Keeps-bind (Keeps-gets (λ s. s.env.now)) λ now.
                Keeps-if (ltb 0 expires && ltb expires (unix now))
                  (Keeps-bind (Keeps-ignore (cancel_order-Keeps active)) λ _.
                    Keeps-bind (Keeps-ignore (advance_queue-Keeps uuids rules.queue event))
                      λ _. enqueue_order-Keeps fuel id event)
                  (join_waiting-Keeps event id (uuids.to_string id))))

  pub check_and_advance-Keeps : (event : ℕ) → Keeps P (check_and_advance uuids event)
  unfolding check_and_advance
  check_and_advance-Keeps event = Keeps-bind (Keeps-gets (λ s. s.redis_on)) λ redis.
      Keeps-if redis
        (Keeps-bind (read_active-Keeps event) λ active.
          Keeps-if (str_eq active "")
            (Keeps-bind (count_waiting-Keeps event) λ n.
              Keeps-if (ltb 0 n) (Keeps-ignore (advance_queue-Keeps uuids rules.queue event))
                (Keeps-pure tt))
            (Keeps-bind (read_expires-Keeps event) λ expires.
              Keeps-bind (Keeps-gets (λ s. s.env.now)) λ now.
                Keeps-if (ltb 0 expires && leb expires (unix now))
                  (Keeps-bind (Keeps-ignore (cancel_order-Keeps active))
                    λ _. Keeps-ignore (advance_queue-Keeps uuids rules.queue event))
                  (Keeps-pure tt)))
        (Keeps-pure tt)
