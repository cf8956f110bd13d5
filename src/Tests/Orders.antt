-- ===== src/Tests/Orders.antt =====
-- Single orders of the shop: reservations, payments and refusals.
use entra_api.Base.{ℕ, String, ◌≡◌, ◌≢◌, refl, none, some, List, [], ◌∷◌, ◌+◌, arith, length, inr}
use entra_api.Base.Int.{pos, ◌+ℤ◌, ◌-ℤ◌}
use entra_api.Base.Go.{ok, err}
use entra_api.Base.Samples.{sample_uuids, sample_floats, differs}
use entra_api.Platform.{Platform, external}
use entra_api.Inventory.{reserve_tickets_handler, release_tickets_handler}
use entra_api.Inventory.Effects.{Effect, handlers_all_or_nothing, reserve_release_roundtrip}
use entra_api.Tables.{items_of, find_order}
use entra_api.WaitingRoom.{waiting_status, enqueue_order, check_and_advance}
use entra_api.Notifications.{order_part}
use entra_api.Notifications.Ids.{midtrans_order_id, midtrans_order_id_roundtrip}
use entra_api.Standing.Positions.{positions_agree}
use entra_api.Standing.{index_of, get_order_queue_status, cancel_order_in_queue}
use entra_api.Standing.Access.{Denied, others-Denied}
use entra_api.Checkout.{CreateOrderRequest, err_active_pending, create_order}
use entra_api.Checkout.Refusals.{second_order_refused}
use entra_api.Payments.{handle_payment_success, payable_order}
use entra_api.Payments.Count.{total, payment_issues_all}
use entra_api.Payments.Turn.{MayPay, payable_order-MayPay}
use entra_api.Tests.Shop.{pending, shop, shaky, late_shop}

-- Order 3 holds the slot, and has timed out; nobody waits.
abbrev lonely_shop : Platform
lonely_shop = record late_shop { redis = record late_shop.redis { waiting = λ event. [] } }

-- Order 3 holds the slot and is in time; another one waits.
abbrev busy_shop : Platform
busy_shop = record shop {
  redis = record shop.redis {
    active = λ event. some "uuuu";
    expires_at = λ event. some 400;
    waiting = λ event. "uuuuuu" ∷ [];
  };
}

abbrev two_more : CreateOrderRequest
two_more = record {
  event_id = "uu";
  ticket_type_id = "uuu";
  quantity = pos 2;
  price = 25;
  idempotency_key = "k";
}

handlers_all_or_nothing_example :
    Effect
      (λ m. m +ℤ pos 4)
      2
      shaky.ticket_types
      (reserve_tickets_handler sample_uuids "uuu" (pos 4) shaky)
    × Effect
        (λ m. m -ℤ pos 4)
        2
        shaky.ticket_types
        (release_tickets_handler sample_uuids "uuu" (pos 4) shaky)
handlers_all_or_nothing_example = handlers_all_or_nothing sample_uuids "uuu" 2 (pos 4) shaky refl

reserve_release_roundtrip_example :
    (release_tickets_handler sample_uuids "uuu"
      (pos 4)
      (reserve_tickets_handler sample_uuids "uuu" (pos 4) shop).1).1.ticket_types
    ≡ shop.ticket_types
unfolding reserve_tickets_handler entra_api.Inventory.get_ticket_type_by_id external
    entra_api.Inventory.find_ticket_type entra_api.Inventory.reserve_found
    entra_api.Inventory.get_event_by_id entra_api.Inventory.find_event
    entra_api.Inventory.increment_ticket_sold entra_api.Inventory.update_sold
    entra_api.Inventory.write_sold ◌-ℤ◌ ◌+ℤ◌ release_tickets_handler
    entra_api.Inventory.decrement_ticket_sold entra_api.Inventory.set_sold
reserve_release_roundtrip_example =
    reserve_release_roundtrip sample_uuids "uuu" 2 (pos 4) shop refl refl refl

others-Denied_example :
    Denied (external shop).1 (get_order_queue_status sample_uuids "uuuu" "uuu" shop)
    × Denied (external shop).1 (cancel_order_in_queue sample_uuids "uuuu" "uuu" shop)
unfolding entra_api.Tables.find_order
others-Denied_example =
    others-Denied sample_uuids "uuuu" "uuu" 3 (pending 3 1) shop refl refl (differs "uuu" "" refl)
      (differs "uu" "uuu" refl)

payable_order-MayPay_example :
    MayPay sample_uuids "uuuu" "uu" shop (payable_order sample_uuids "uuuu" "uu" shop)
payable_order-MayPay_example = payable_order-MayPay sample_uuids "uuuu" "uu" shop refl refl

payment_issues_all_example :
    ((handle_payment_success sample_uuids "uuuu" shop).0 ≡ ok tt)
    × (length (handle_payment_success sample_uuids "uuuu" shop).1.tickets
        ≡ length shop.tickets + total (items_of 3 shop.items))
unfolding entra_api.Tables.find_order
payment_issues_all_example =
    payment_issues_all sample_uuids "uuuu" 3 (pending 3 1) shop refl refl refl
      (differs "PENDING" "PAID" refl)

second_order_refused_example :
    create_order sample_uuids sample_floats "uu" two_more shop ≡ (err err_active_pending, shop)
unfolding entra_api.Tables.find_active_pending
second_order_refused_example =
    second_order_refused sample_uuids sample_floats "uu" two_more 1 1 2 (pending 3 1) shop refl refl
      refl refl refl (λ e. ground arith)

midtrans_order_id_roundtrip_example :
    sample_uuids.parse (order_part (midtrans_order_id sample_uuids 3 "1700000000")) ≡ some 3
unfolding entra_api.Notifications.Ids.is_plain entra_api.Notifications.Ids.without_dashes
midtrans_order_id_roundtrip_example =
    midtrans_order_id_roundtrip sample_uuids 3 "1700000000" refl refl

positions_agree_example :
    ((enqueue_order sample_uuids 3 4 1 busy_shop).0 ≡ ok (waiting_status 3))
    × ((get_order_queue_status sample_uuids "uuuuu" "uuu"
          (enqueue_order sample_uuids 3 4 1 busy_shop).1).0
        ≡ (enqueue_order sample_uuids 3 4 1 busy_shop).0)
unfolding find_order index_of
positions_agree_example =
    positions_agree sample_uuids 2 4 (pending 4 2) busy_shop refl refl refl refl
      (differs "uuuu" "" refl) (differs "uuuu" "uuuuu" refl) (omega arith) refl

-- The user's own order has timed out: the call cancels it, and accepts it all the same.
cancelled_accepted :
    ((payable_order sample_uuids "uuuu" "uu" lonely_shop).0 ≡ ok (pending 3 1))
    × (find_order 3 (payable_order sample_uuids "uuuu" "uu" lonely_shop).1.orders
        ≡ some (record (pending 3 1) { status = "CANCELLED" }))
unfolding payable_order entra_api.Tables.get_order external find_order
    entra_api.Payments.check_payer entra_api.Payments.check_pending entra_api.Payments.wait_turn
    entra_api.Payments.check_turn check_and_advance entra_api.Cancel.read_active
    entra_api.Tables.get_active entra_api.WaitingRoom.read_expires entra_api.Tables.get_expires
    entra_api.Queue.advance_queue entra_api.Cancel.cancel_order entra_api.Tables.update_order_status
    entra_api.Tables.write_status entra_api.Base.Go.for_each ◌+ℤ◌ ◌-ℤ◌ entra_api.Cancel.leave_queue
    entra_api.Cancel.release_items entra_api.Inventory.decrement_ticket_sold
    entra_api.Inventory.find_ticket_type release_tickets_handler entra_api.Inventory.set_sold
    entra_api.Inventory.update_found entra_api.Inventory.update_sold entra_api.Inventory.write_sold
    entra_api.Queue.advance_loop entra_api.Queue.take_slot entra_api.Stock.apply_release
    entra_api.Stock.client_release entra_api.Stock.release_stock_lua
    entra_api.Stock.release_ticket_stock entra_api.Stock.run_release entra_api.Tables.clear_slot
    items_of entra_api.Tables.list_order_items entra_api.Tables.list_waiting
    entra_api.Tables.move_deadline entra_api.Tables.publish entra_api.Tables.remove_waiting
    entra_api.Tables.set_active entra_api.Tables.set_expires entra_api.Tables.set_expires_at
    entra_api.Tables.set_status entra_api.Tables.set_waiting entra_api.Tables.without
    entra_api.WaitingRoom.count_waiting
cancelled_accepted = (refl, refl)

-- The timed-out order is cancelled and the queue moves on twice: order 4 is not even waiting any more.
double_advance :
    ((check_and_advance sample_uuids 1 late_shop).1.redis.active 1 ≡ some "uuuuuu")
    × ((check_and_advance sample_uuids 1 late_shop).1.redis.waiting 1 ≡ [])
unfolding check_and_advance entra_api.Cancel.read_active entra_api.Tables.get_active external
    entra_api.WaitingRoom.read_expires entra_api.Tables.get_expires entra_api.Queue.advance_queue
    entra_api.Cancel.cancel_order entra_api.Tables.get_order entra_api.Tables.find_order
    entra_api.Tables.update_order_status entra_api.Tables.write_status
    entra_api.Tables.list_order_items entra_api.Cancel.release_items entra_api.Base.Go.for_each
    items_of entra_api.Cancel.leave_queue entra_api.Queue.advance_loop entra_api.Queue.take_slot
    entra_api.Tables.clear_slot entra_api.Tables.list_waiting entra_api.Tables.move_deadline
    entra_api.Tables.publish entra_api.Tables.remove_waiting entra_api.Tables.set_active
    entra_api.Tables.set_expires entra_api.Tables.set_expires_at entra_api.Tables.set_status
    entra_api.Tables.set_waiting entra_api.Tables.without entra_api.WaitingRoom.count_waiting
    entra_api.Stock.release_ticket_stock entra_api.Stock.release_stock_lua
    entra_api.Stock.apply_release entra_api.Stock.client_release release_tickets_handler
    entra_api.Inventory.decrement_ticket_sold entra_api.Inventory.update_sold
    entra_api.Inventory.write_sold entra_api.Inventory.find_ticket_type
double_advance = (refl, refl)
