-- ===== src/Tests/Sales.antt =====
-- The shop's sales, and its queue.
use entra_api.Base.{
  ℕ, String, ◌≡◌, ◌≤◌, refl, true, false, none, some, List, [], ◌∷◌, arith, length,
}
use entra_api.Base.Int.{ℤ, pos, ◌≤ℤ◌, ◌+ℤ◌}
use entra_api.Base.Go.{Env, Outcome, ok}
use entra_api.Base.Keeps.{Keeps}
use entra_api.Base.Total.{Finishes}
use entra_api.Base.Samples.{sample_uuids, sample_floats}
use entra_api.Platform.{external}
use entra_api.Tests.Shop.{shop, shaky}
use entra_api.Inventory.Bounds
use entra_api.Inventory.Bounds.{SoldWithin, InventoryCall, reserves, releases, serve_all-SoldWithin}
use entra_api.Stock.{reserve_ticket_stock, release_ticket_stock}
use entra_api.Stock.Nonneg.{NotOversold, stock_never_oversold, run_buyers, buyers_share_stock}
use entra_api.Queue.{advance_queue}
use entra_api.Queue.Turns.{next_turn, advance_queue-next_turn}
use entra_api.WaitingRoom.{enqueue_order}
use entra_api.WaitingRoom.Fuel.{enqueue_order-terminates}
use entra_api.Checkout.{CreateOrderRequest}
use entra_api.Payments.{handle_payment_success}
use entra_api.Payments.Once.{settles_once}
use entra_api.Notifications.{Notification}
use entra_api.Safety.History.{
  Sound, Request, place, ask_position, leave, pay, notify, payment, tick, serve_all,
  history_never_oversells,
}

shop-SoldWithin : SoldWithin shop
shop-SoldWithin = record { rows = ((omega arith, omega arith), tt) }

abbrev few_calls : List InventoryCall
few_calls = reserves "uuu" (pos 8) ∷ reserves "uuu" (pos 8) ∷ releases "uuu" (pos 3) ∷ []

serve_all-SoldWithin_example : SoldWithin (Bounds.serve_all sample_uuids few_calls shop)
serve_all-SoldWithin_example = serve_all-SoldWithin sample_uuids few_calls shop shop-SoldWithin

stock_never_oversold_example :
    Keeps NotOversold (reserve_ticket_stock sample_uuids "uuu" (pos 3))
    × Keeps NotOversold (release_ticket_stock sample_uuids "uuu" (pos 3))
stock_never_oversold_example = stock_never_oversold sample_uuids "uuu" (pos 3) (omega arith)

buyers_share_stock_example :
    (v : ℤ) × ((run_buyers "uuu" (pos 7 ∷ pos 7 ∷ pos 3 ∷ []) shop).1.redis.stock "uuu" ≡ some v)
    × (v +ℤ (run_buyers "uuu" (pos 7 ∷ pos 7 ∷ pos 3 ∷ []) shop).0 ≡ pos 10)
    × (pos 0 ≤ℤ v)
buyers_share_stock_example =
    buyers_share_stock "uuu" (pos 7 ∷ pos 7 ∷ pos 3 ∷ []) (pos 10) shop refl (omega arith)

abbrev two_tickets : CreateOrderRequest
two_tickets = record {
  event_id = "uu";
  ticket_type_id = "uuu";
  quantity = pos 2;
  price = 25;
  idempotency_key = "k";
}

abbrev paid_report : Notification
paid_report = record {
  order_id = some "ORD_uuuu_7";
  transaction_status = "settlement";
  fraud_status = "accept";
  status_code = "200";
}

abbrev one_day : List Request
one_day =
    place "uuuuuuuuuu" two_tickets (omega arith)
    ∷ ask_position "uuuu" "uu"
    ∷ pay "uuuu" "uu"
    ∷ notify paid_report none
    ∷ payment "payment.failed" "TICKET" (some "uuuuu")
    ∷ leave "uuuuu" "uuu"
    ∷ tick
    ∷ []

shop-Sound : Sound shop
shop-Sound = record {
  safe = record { rows = shop-SoldWithin; stock = λ key v e. ground (arith, e) };
  items = (omega arith, tt);
}

history_never_oversells_example : Sound (serve_all sample_uuids sample_floats one_day shop)
history_never_oversells_example =
    history_never_oversells sample_uuids sample_floats one_day shop shop-Sound

advance_queue-next_turn_example :
    ((advance_queue sample_uuids 1 shop).1.redis.active 1
      ≡ (next_turn sample_uuids shop.orders (shop.redis.waiting 1)).0)
    × ((advance_queue sample_uuids 1 shop).1.redis.waiting 1
        ≡ (next_turn sample_uuids shop.orders (shop.redis.waiting 1)).1)
    × ((advance_queue sample_uuids 1 shop).0
        ≡ ok (next_turn sample_uuids shop.orders (shop.redis.waiting 1)).0)
advance_queue-next_turn_example = advance_queue-next_turn sample_uuids 1 shop refl refl

enqueue_order-terminates_example : Finishes (λ _. Unit {0}) (enqueue_order sample_uuids 3 5 1 shaky)
enqueue_order-terminates_example = enqueue_order-terminates sample_uuids 3 5 1 shaky (omega arith)

settles_once_example :
    (handle_payment_success sample_uuids "uuuu"
      (handle_payment_success sample_uuids "uuuu" shop).1).1
    ≡ (external (handle_payment_success sample_uuids "uuuu" shop).1).1
unfolding handle_payment_success entra_api.Tables.get_order external entra_api.Tables.find_order
    entra_api.Payments.settle entra_api.Tables.update_order_status entra_api.Tables.write_status
    entra_api.Payments.deliver entra_api.Tables.list_order_items entra_api.Base.Go.for_each
    entra_api.Tables.items_of
settles_once_example = settles_once sample_uuids "uuuu" 3 shop refl refl
