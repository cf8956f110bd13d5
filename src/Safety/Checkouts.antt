-- ===== src/Safety/Checkouts.antt =====
-- `CreateOrder` keeps every property that has the rules, for a quantity of at least 1.
use entra_api.Base.{ℕ, ◌+◌, ◌*◌, String, Bool, not, ◌&&◌, Option, none, some, str_eq}
use entra_api.Base.Int.{ℤ}
use entra_api.Base.Go.{Error, message, Result, ok, err, pure, fail, attempt, ignore, ◌>>=◌, ◌>>◌}
use entra_api.Base.Keeps.{
  Keeps, Keeps-pure, Keeps-fail, Keeps-gets, Keeps-or_none, Keeps-fail_if, Keeps-attempt,
  Keeps-ignore, Keeps-bind, Keeps-if,
}
use entra_api.Base.External.{Uuids, Floats}
use entra_api.Platform.{Order, Platform, second}
use entra_api.Stock.{InternalTicketType}
use entra_api.Stock.Runs.{
  reserve_ticket_stock-Keeps, release_ticket_stock-Keeps, client_get_ticket_type-Keeps,
}
use entra_api.Tables.{get_order, update_order_status}
use entra_api.Checkout
use entra_api.Checkout.{CreateOrderRequest}
use entra_api.Safety.Rules.{PlatformRules}
use entra_api.Safety.Queues.{enqueue_order-Keeps}

module _ {uuids : Uuids} {Q : ℤ → Type 0} {P : Platform → Type 0} (rules : PlatformRules uuids Q P)
    (floats : Floats) where
  refuse_second_order-Keeps :
      (user event : ℕ) → Keeps P (Checkout.refuse_second_order uuids floats user event)
  unfolding Checkout.refuse_second_order
  refuse_second_order-Keeps user event =
      Keeps-bind (Keeps-attempt (rules.get_active_pending_order_keeps user event))
        λ r. Keeps-fail_if (Checkout.has_order r) Checkout.err_active_pending

  found-Keeps :
      (o : Option ℕ)
      → Keeps {A = Option Order} P (elim o [
        | none ↦ pure none
        | some id ↦ do
          r ← attempt (get_order id)
          elim r [ ok o ↦ pure (some o) | err _ ↦ pure none ]
      ])
  found-Keeps none = Keeps-pure none
  found-Keeps (some id) = Keeps-bind (Keeps-attempt (rules.queue.get_order_keeps id)) fetched
    where
      fetched :
          (r : Result Order)
          → Keeps {A = Option Order} P (elim r [ ok o ↦ pure (some o) | err _ ↦ pure none ])
      fetched (ok o) = Keeps-pure (some o)
      fetched (err _) = Keeps-pure none

  claim_key-Keeps : (k : String) → Keeps P (Checkout.claim_key uuids floats k)
  unfolding Checkout.claim_key
  claim_key-Keeps k = Keeps-bind (Keeps-attempt (rules.set_key_if_free_keeps k)) λ r.
      Keeps-bind (Keeps-fail_if (Checkout.was_taken r) Checkout.err_processing) λ _. Keeps-pure none

  look_up_key-Keeps :
      (k : String) (r : Result (Option String)) → Keeps P (Checkout.look_up_key uuids floats k r)
  unfolding Checkout.look_up_key Checkout.find_cached
  look_up_key-Keeps k (ok (some v)) =
      Keeps-bind (Keeps-fail_if (str_eq v "PROCESSING") Checkout.err_processing)
        λ _. Keeps-bind (found-Keeps (uuids.parse v)) cached
    where
      cached : (o : Option Order) → Keeps P (Checkout.claim_unless_cached uuids floats k o)
      cached (some o) = unfold Checkout.claim_unless_cached in Keeps-pure (some o)
      cached none = unfold Checkout.claim_unless_cached in claim_key-Keeps k
  look_up_key-Keeps k (ok none) = claim_key-Keeps k
  look_up_key-Keeps k (err _) = claim_key-Keeps k

  check_idempotency-Keeps :
      (keyed : Bool) (k : String) → Keeps P (Checkout.check_idempotency uuids floats keyed k)
  unfolding Checkout.check_idempotency
  check_idempotency-Keeps keyed k =
      Keeps-if (not keyed) (Keeps-pure none)
        (Keeps-bind (Keeps-attempt (rules.get_key_keeps k)) λ r. look_up_key-Keeps k r)

  fail_dropping-Keeps :
      (keyed : Bool) (k : String) (o : Option Error)
      → Keeps P (Checkout.fail_dropping uuids floats keyed k o)
  unfolding Checkout.fail_dropping Checkout.drop_key
  fail_dropping-Keeps keyed k none = Keeps-pure tt
  fail_dropping-Keeps keyed k (some e) =
      Keeps-bind (Keeps-if keyed (Keeps-ignore (rules.set_key_keeps k none)) (Keeps-pure tt))
        λ _. Keeps-fail e

  check_sale-Keeps :
      (keyed : Bool) (req : CreateOrderRequest)
      → Keeps P (Checkout.check_sale uuids floats keyed req)
  unfolding Checkout.check_sale
  check_sale-Keeps keyed req = Keeps-bind (Keeps-gets (λ s. s.client_on)) λ client.
      Keeps-if client
        (Keeps-bind (Keeps-attempt (client_get_ticket_type-Keeps rules.stock req.ticket_type_id))
          λ r. Keeps-bind (Keeps-gets (λ s. s.env.now)) λ now. checked now r)
        (Keeps-pure tt)
    where
      checked :
          (now : ℕ) (r : Result InternalTicketType)
          → Keeps P (elim r [
            | ok t ↦
                Checkout.fail_dropping uuids floats keyed req.idempotency_key
                  (Checkout.order_error now t)
            | err _ ↦ pure tt
          ])
      checked now (ok t) =
          fail_dropping-Keeps keyed req.idempotency_key (Checkout.order_error now t)
      checked now (err _) = Keeps-pure tt

  reserve_for_order-Keeps :
      (keyed : Bool) (req : CreateOrderRequest)
      → Q req.quantity
      → Keeps P (Checkout.reserve_for_order uuids floats keyed req)
  unfolding Checkout.reserve_for_order
  reserve_for_order-Keeps keyed req h =
      Keeps-bind
        (Keeps-attempt (reserve_ticket_stock-Keeps rules.stock req.ticket_type_id req.quantity h))
        reserved
    where
      reserved :
          (r : Result (Unit {0}))
          → Keeps P (elim r [
            | ok _ ↦ pure tt
            | err e ↦
                Checkout.fail_dropping uuids floats keyed req.idempotency_key
                  (some (Checkout.reserve_error e))
          ])
      reserved (ok _) = Keeps-pure tt
      reserved (err e) =
          fail_dropping-Keeps keyed req.idempotency_key (some (Checkout.reserve_error e))

  undo_reservation-Keeps :
      (keyed : Bool) (req : CreateOrderRequest) (e : Error)
      → Q req.quantity
      → Keeps P (Checkout.undo_reservation uuids floats keyed req e)
  unfolding Checkout.undo_reservation
  undo_reservation-Keeps keyed req e h =
      Keeps-bind (release_ticket_stock-Keeps rules.stock req.ticket_type_id req.quantity h)
        λ _. fail_dropping-Keeps keyed req.idempotency_key (some e)

  insert_pending-Keeps :
      (keyed : Bool) (req : CreateOrderRequest) (user event : ℕ)
      → Q req.quantity
      → Keeps P (Checkout.insert_pending uuids floats keyed req user event)
  unfolding Checkout.insert_pending
  insert_pending-Keeps keyed req user event h = Keeps-bind (Keeps-gets (λ s. s.env.now)) λ now.
      Keeps-bind
        (Keeps-attempt (
          rules.create_order_row_keeps user event
            (floats.to_numeric (Checkout.subtotal uuids floats req)) "PENDING"
            (now + 900 * second)))
        inserted
    where
      inserted :
          (r : Result Order)
          → Keeps {A = Order} P (elim r [
            | ok o ↦ pure o
            | err e ↦ Checkout.undo_reservation uuids floats keyed req e >> fail e
          ])
      inserted (ok o) = Keeps-pure o
      inserted (err e) = Keeps-bind (undo_reservation-Keeps keyed req e h) λ _. Keeps-fail e

  insert_item-Keeps :
      (keyed : Bool) (req : CreateOrderRequest) (ticket_type : ℕ) (o : Order)
      → Q req.quantity
      → Keeps P (Checkout.insert_item uuids floats keyed req ticket_type o)
  unfolding Checkout.insert_item
  insert_item-Keeps keyed req ticket_type o h =
      Keeps-bind (Keeps-attempt (rules.create_order_item_keeps _ h)) inserted
    where
      inserted :
          (r : Result (Unit {0}))
          → Keeps {A = Unit {0}} P (elim r [
            | ok _ ↦ pure tt
            | err _ ↦
                ignore (update_order_status o.id "CANCELLED")
                >> Checkout.undo_reservation uuids floats keyed req Checkout.err_items
          ])
      inserted (ok _) = Keeps-pure tt
      inserted (err _) =
          Keeps-bind (Keeps-ignore (rules.update_order_status_keeps o.id "CANCELLED"))
            λ _. undo_reservation-Keeps keyed req Checkout.err_items h

  finish_order-Keeps :
      (keyed : Bool) (req : CreateOrderRequest) (user_id : String) (event : ℕ) (o : Order)
      → Keeps P (Checkout.finish_order uuids floats keyed req user_id event o)
  unfolding Checkout.finish_order
  finish_order-Keeps keyed req user_id event o =
      Keeps-bind (Keeps-if keyed (Keeps-ignore (rules.set_key_keeps _ _)) (Keeps-pure tt)) λ _.
        Keeps-bind (Keeps-ignore (rules.publish_keeps _)) λ _.
          Keeps-bind (Keeps-gets Checkout.enqueue_fuel) λ fuel.
            Keeps-bind (Keeps-ignore (enqueue_order-Keeps rules fuel o.id event)) λ _. Keeps-pure o

  place_order-Keeps :
      (keyed : Bool) (req : CreateOrderRequest) (user_id : String) (user event ticket_type : ℕ)
      → Q req.quantity
      → Keeps P (Checkout.place_order uuids floats keyed req user_id user event ticket_type)
  unfolding Checkout.place_order
  place_order-Keeps keyed req user_id user event ticket_type h =
      Keeps-bind (check_sale-Keeps keyed req) λ _.
        Keeps-bind (reserve_for_order-Keeps keyed req h) λ _.
          Keeps-bind (insert_pending-Keeps keyed req user event h) λ o.
            Keeps-bind (insert_item-Keeps keyed req ticket_type o h)
              λ _. finish_order-Keeps keyed req user_id event o

  place_unless_cached-Keeps :
      (keyed : Bool) (req : CreateOrderRequest) (user_id : String) (user event ticket_type : ℕ)
      (o : Option Order)
      → Q req.quantity
      → Keeps P
          (Checkout.place_unless_cached uuids floats keyed req user_id user event ticket_type o)
  unfolding Checkout.place_unless_cached
  place_unless_cached-Keeps keyed req user_id user event ticket_type (some o) h = Keeps-pure o
  place_unless_cached-Keeps keyed req user_id user event ticket_type none h =
      place_order-Keeps keyed req user_id user event ticket_type h

  pub create_order-Keeps :
      (user_id : String) (req : CreateOrderRequest)
      → Q req.quantity
      → Keeps P (Checkout.create_order uuids floats user_id req)
  unfolding Checkout.create_order Checkout.order_once
  create_order-Keeps user_id req h =
      Keeps-bind (Keeps-or_none (uuids.parse user_id) (message "invalid user id")) λ user.
        Keeps-bind (Keeps-or_none (uuids.parse req.event_id) (message "invalid event id")) λ event.
          Keeps-bind
            (Keeps-or_none (uuids.parse req.ticket_type_id) (message "invalid ticket type id"))
            λ ticket_type. Keeps-bind (refuse_second_order-Keeps user event) λ _.
              Keeps-bind (Keeps-gets (λ s. s.redis_on)) λ redis.
                let keyed = not (str_eq req.idempotency_key "") && redis in
                Keeps-bind (check_idempotency-Keeps keyed req.idempotency_key) λ cached.
                  place_unless_cached-Keeps keyed req user_id user event ticket_type cached h
