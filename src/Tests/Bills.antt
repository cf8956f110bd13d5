-- ===== src/Tests/Bills.antt =====
-- A payment service that is told of orders.
use entra_api.Base.{ℕ, refl, none, List, [], ◌∷◌, ◌++◌, arith}
use entra_api.Base.Int.{pos}
use entra_api.Base.Samples.{sample_uuids, sample_floats}
use entra_api.Intents.{
  Payment, Intents, find_payment, PaymentMessage, order_created, order_cancelled, topup_created,
  handle_messages,
}
use entra_api.Intents.Rows.{Extends}
use entra_api.Intents.Orders.{payments_only_expire}
use entra_api.Intents.Expiry.{IsExpired, created-cancelled}

abbrev bill : ℕ → ℕ → Payment
bill id order = record {
  id = id;
  reference_id = order;
  reference_type = "TICKET";
  user_id = 2;
  amount = pos 5000;
  status = "PENDING";
  payment_url = none;
}

abbrev desk : Intents
desk = record {
  env = record { now = 0; script = [] };
  payments = bill 1 3 ∷ bill 4 5 ∷ [];
  next_id = 6;
}

abbrev news : List PaymentMessage
news =
    order_cancelled "uuuu"
    ∷ (order_created "uuuuuuu" "uuu" 70
        ∷ (topup_created "uuuu" "uuu" 10 ∷ (order_cancelled "uuuuuuu" ∷ [])))

payments_only_expire_example :
    Extends desk.payments (handle_messages sample_uuids sample_floats news desk).payments
payments_only_expire_example =
    payments_only_expire sample_uuids sample_floats news desk
      (omega arith, ((omega arith, tt), (omega arith, (tt, tt))))

created-cancelled_example :
    IsExpired sample_uuids sample_floats
      (handle_messages sample_uuids sample_floats
        (order_created "uuuuuuuu" "uuu" 80 ∷ (news ++ order_cancelled "uuuuuuuu" ∷ []))
        desk).payments
      7
      2
      80
unfolding find_payment
created-cancelled_example =
    created-cancelled sample_uuids sample_floats "uuuuuuuu" "uuu" 80 7 2 news desk refl
      (omega arith, ((omega arith, tt), (omega arith, (tt, tt)))) refl refl refl refl
