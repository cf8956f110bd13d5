-- ===== src/Safety/Orders.antt =====
-- Checkout, payments and the status of an order keep every property that has the rules.
use entra_api.Base.{
  ℕ, ◌+◌, ◌-◌, ◌*◌, ◌/◌, String, Bool, true, false, not, ◌&&◌, ◌||◌, Option, none, some, List, [],
  ◌∷◌, ◌==◌, ltb, leb, str_eq,
}
use entra_api.Base.Int.{ℤ}
use entra_api.Base.Go.{message, Result, ok, err, pure}
use entra_api.Base.Keeps.{
  Keeps, Keeps-pure, Keeps-gets, Keeps-or_none, Keeps-fail_if, Keeps-attempt, Keeps-ignore,
  Keeps-or_fail, Keeps-bind, Keeps-if,
}
use entra_api.Base.External.{Uuids}
use entra_api.Platform.{Order, OrderItem, Platform, second}
use entra_api.Stock.Runs.{client_get_ticket_type-Keeps}
use entra_api.Queue.{unix}
use entra_api.Queue.Runs.{advance_queue-Keeps}
use entra_api.Cancel.{err_invalid_uuid}
use entra_api.WaitingRoom.{active_status, waiting_status, closed_status, waiting_buffer}
use entra_api.Standing.{
  err_invalid_order, err_order_not_found, err_access_denied, err_already_paid, err_cancel_failed,
  index_of, list_of, is_paid, expire, report_active, report_missed, report_queue, report_alone,
  report_open, read_type, read_summary, own_order, report_order, get_order_queue_status,
  withdraw_order, cancel_order_in_queue,
}
use entra_api.Payments.{
  settle, handle_payment_success, handle_payment_failed, act_on_status, check_turn, wait_turn,
  check_pending, check_payer, payable_order, err_not_owner, err_not_pending, err_not_your_turn,
}
use entra_api.Notifications.{
  Notification, Transaction, order_part, final_status, act_on_answer, handle_midtrans_notification,
  handle_payment_event,
}
use entra_api.Payments.Runs.{SettleRules, deliver-Keeps}
use entra_api.Safety.Rules.{PlatformRules}
use entra_api.Safety.Queues.{
  read_active-Keeps, cancel_order-Keeps, read_expires-Keeps, count_waiting-Keeps, activate-Keeps,
  check_and_advance-Keeps,
}

module _ {uuids : Uuids} {Q : ℤ → Type 0} {P : Platform → Type 0}
    (rules : PlatformRules uuids Q P) where
  expire-Keeps : (event : ℕ) (x : String) (advance : Bool) → Keeps P (expire uuids event x advance)
  unfolding expire
  expire-Keeps event x advance = Keeps-bind (Keeps-ignore (cancel_order-Keeps rules x)) λ _.
      Keeps-bind
        (Keeps-if advance (Keeps-ignore (advance_queue-Keeps uuids rules.queue event))
          (Keeps-pure tt))
        λ _. Keeps-pure (closed_status "EXPIRED")

  report_active-Keeps : (o : Order) (x : String) → Keeps P (report_active uuids o x)
  unfolding report_active
  report_active-Keeps o x = Keeps-bind (read_expires-Keeps rules o.event_id) λ expires.
      Keeps-bind (Keeps-gets (λ s. s.env.now)) λ now.
        Keeps-if (leb expires (unix now)) (expire-Keeps o.event_id x true)
          (Keeps-pure (active_status (expires - unix now) (expires * second)))

  report_missed-Keeps : (o : Order) (x active : String) → Keeps P (report_missed uuids o x active)
  unfolding report_missed
  report_missed-Keeps o x active =
      Keeps-if (str_eq active "") (activate-Keeps rules o.event_id o.id x) (
        Keeps-bind (Keeps-ignore (rules.push_waiting_keeps o.event_id x)) λ _.
          Keeps-bind (Keeps-gets (λ s. s.env.now)) λ now.
            Keeps-bind (Keeps-ignore (rules.queue.move_deadline_keeps o.id (now + waiting_buffer)))
              λ _.
                Keeps-bind (count_waiting-Keeps rules o.event_id)
                  λ n. Keeps-pure (waiting_status (n + 1)))

  report_queue-Keeps : (o : Order) (x : String) → Keeps P (report_queue uuids o x)
  unfolding report_queue
  report_queue-Keeps o x = Keeps-bind (check_and_advance-Keeps rules o.event_id) λ _.
      Keeps-bind (read_active-Keeps rules o.event_id) λ active.
        Keeps-if (str_eq active x) (report_active-Keeps o x) (
          Keeps-bind (Keeps-attempt (rules.list_waiting_keeps o.event_id))
            λ w. placed active (index_of x (list_of w)))
    where
      placed :
          (active : String) (i : Option ℕ)
          → Keeps P (elim i [
            | some i ↦ pure (waiting_status (i + 2))
            | none ↦ report_missed uuids o x active
          ])
      placed active (some i) = Keeps-pure (waiting_status (i + 2))
      placed active none = report_missed-Keeps o x active

  report_alone-Keeps : (o : Order) (x : String) → Keeps P (report_alone uuids o x)
  unfolding report_alone
  report_alone-Keeps o x = Keeps-bind (Keeps-gets (λ s. s.env.now)) λ now.
      Keeps-if ((o.expires_at - now) / second == 0) (expire-Keeps o.event_id x false)
        (Keeps-pure (active_status ((o.expires_at - now) / second) o.expires_at))

  report_open-Keeps : (o : Order) (x : String) → Keeps P (report_open uuids o x)
  unfolding report_open
  report_open-Keeps o x = Keeps-bind (Keeps-gets (λ s. s.env.now)) λ now.
      Keeps-bind (Keeps-gets (λ s. s.redis_on)) λ redis.
        Keeps-if (ltb o.expires_at now) (expire-Keeps o.event_id x redis)
          (Keeps-if (not redis) (report_alone-Keeps o x) (report_queue-Keeps o x))

  own_order-Keeps : (x user : String) → Keeps P (own_order uuids x user)
  unfolding own_order
  own_order-Keeps x user = Keeps-bind (Keeps-or_none (uuids.parse x) err_invalid_order) λ id.
      Keeps-bind (Keeps-or_fail err_order_not_found (rules.queue.get_order_keeps id)) λ o.
        Keeps-bind
          (Keeps-fail_if (not (str_eq user "") && not (str_eq (uuids.to_string o.user_id) user))
            err_access_denied)
          λ _. Keeps-pure o

  read_type-Keeps :
      (client : Bool) (r : Result (List OrderItem)) → Keeps P (read_type uuids client r)
  unfolding read_type
  read_type-Keeps client (ok (i ∷ is)) =
      Keeps-if client
        (Keeps-ignore (client_get_ticket_type-Keeps rules.stock (uuids.to_string i.ticket_type_id)))
        (Keeps-pure tt)
  read_type-Keeps client (ok []) = Keeps-pure tt
  read_type-Keeps client (err _) = Keeps-pure tt

  read_summary-Keeps : (id : ℕ) → Keeps P (read_summary uuids id)
  unfolding read_summary
  read_summary-Keeps id =
      Keeps-bind (Keeps-attempt (rules.list_order_items_keeps id))
        λ items. Keeps-bind (Keeps-gets (λ s. s.client_on)) λ client. read_type-Keeps client items

  pub get_order_queue_status-Keeps :
      (x user : String) → Keeps P (get_order_queue_status uuids x user)
  unfolding get_order_queue_status report_order
  get_order_queue_status-Keeps x user = Keeps-bind (own_order-Keeps x user) λ o.
      Keeps-bind (read_summary-Keeps o.id) λ _.
        Keeps-if (is_paid o.status) (Keeps-pure (closed_status "COMPLETED")) (
          Keeps-if (str_eq o.status "CANCELLED") (Keeps-pure (closed_status "CANCELLED"))
            (report_open-Keeps o x))

  pub cancel_order_in_queue-Keeps : (x user : String) → Keeps P (cancel_order_in_queue uuids x user)
  unfolding cancel_order_in_queue withdraw_order
  cancel_order_in_queue-Keeps x user = Keeps-bind (own_order-Keeps x user) λ o.
      Keeps-bind (Keeps-fail_if (is_paid o.status) err_already_paid) λ _.
        Keeps-bind (Keeps-or_fail err_cancel_failed (cancel_order-Keeps rules x)) λ _.
          Keeps-bind (Keeps-gets (λ s. s.redis_on)) λ redis.
            Keeps-if redis
              (Keeps-bind (read_active-Keeps rules o.event_id) λ active.
                Keeps-if (str_eq active x)
                  (Keeps-ignore (advance_queue-Keeps uuids rules.queue o.event_id))
                  (Keeps-ignore (rules.remove_waiting_keeps o.event_id x)))
              (Keeps-pure tt)

  settle_rules : SettleRules P
  settle_rules = record {
    queue = rules.queue;
    create_ticket_keeps = rules.create_ticket_keeps;
    publish_keeps = rules.publish_keeps;
    list_order_items_keeps = rules.list_order_items_keeps;
  }

  settle-Keeps : (id : ℕ) (o : Order) → Keeps P (settle uuids id o)
  unfolding settle
  settle-Keeps id o =
      Keeps-bind (rules.update_order_status_keeps id "PAID")
        λ _. deliver-Keeps uuids settle_rules id o

  pub handle_payment_success-Keeps : (x : String) → Keeps P (handle_payment_success uuids x)
  unfolding handle_payment_success
  handle_payment_success-Keeps x = Keeps-bind (Keeps-or_none (uuids.parse x) err_invalid_uuid) λ id.
      Keeps-bind (rules.queue.get_order_keeps id)
        λ o. Keeps-if (str_eq o.status "PAID") (Keeps-pure tt) (settle-Keeps id o)

  pub act_on_status-Keeps : (status fraud x : String) → Keeps P (act_on_status uuids status fraud x)
  unfolding act_on_status handle_payment_failed
  act_on_status-Keeps status fraud x =
      Keeps-if (str_eq status "capture")
        (Keeps-if (str_eq fraud "challenge") (Keeps-pure tt) (handle_payment_success-Keeps x))
        (Keeps-if (str_eq status "settlement" || str_eq status "success")
          (handle_payment_success-Keeps x)
          (Keeps-if (str_eq status "cancel" || (str_eq status "deny" || str_eq status "expire"))
            (cancel_order-Keeps rules x) (Keeps-pure tt)))

  pub handle_midtrans_notification-Keeps :
      (n : Notification) (answer : Option Transaction)
      → Keeps P (handle_midtrans_notification uuids n answer)
  unfolding handle_midtrans_notification act_on_answer
  handle_midtrans_notification-Keeps n answer =
      Keeps-bind (Keeps-or_none n.order_id (message "invalid order_id in payload")) λ raw.
        Keeps-bind
          (Keeps-or_none (uuids.parse (order_part raw))
            (message "invalid order_id in notification"))
          λ id.
            Keeps-bind (Keeps-attempt rules.queue.calls) λ _. answered answer (uuids.to_string id)
    where
      answered :
          (answer : Option Transaction) (x : String) → Keeps P (act_on_answer uuids n answer x)
      answered (some t) x =
          act_on_status-Keeps (final_status n t.transaction_status) t.fraud_status x
      answered none x = act_on_status-Keeps (final_status n n.transaction_status) n.fraud_status x

  pub handle_payment_event-Keeps :
      (topic kind : String) (o : Option String) → Keeps P (handle_payment_event uuids topic kind o)
  unfolding handle_payment_event handle_payment_failed
  handle_payment_event-Keeps topic kind none = Keeps-pure tt
  handle_payment_event-Keeps topic kind (some x) =
      Keeps-if (str_eq topic "payment.success")
        (Keeps-if (str_eq kind "TICKET") (handle_payment_success-Keeps x) (Keeps-pure tt))
        (Keeps-if (str_eq topic "payment.failed" && str_eq kind "TICKET")
          (cancel_order-Keeps rules x) (Keeps-pure tt))

  pub payable_order-Keeps : (x user : String) → Keeps P (payable_order uuids x user)
  unfolding payable_order check_payer check_pending wait_turn check_turn
  payable_order-Keeps x user = Keeps-bind (Keeps-or_none (uuids.parse x) err_invalid_uuid) λ id.
      Keeps-bind (rules.queue.get_order_keeps id) λ o.
        Keeps-bind
          (Keeps-fail_if (not (str_eq user "") && not (str_eq (uuids.to_string o.user_id) user))
            err_not_owner)
          λ _. Keeps-bind (Keeps-fail_if (not (str_eq o.status "PENDING")) err_not_pending) λ _.
            Keeps-bind (Keeps-gets (λ s. s.redis_on)) λ redis.
              Keeps-bind
                (Keeps-if redis
                  (Keeps-bind (check_and_advance-Keeps rules o.event_id) λ _.
                    Keeps-bind (read_active-Keeps rules o.event_id) λ active.
                      Keeps-fail_if
                        (not (str_eq active "") && not (str_eq active (uuids.to_string o.id)))
                        err_not_your_turn)
                  (Keeps-pure tt))
                λ _. Keeps-pure o
