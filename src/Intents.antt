-- ===== src/Intents.antt =====
-- The payment service: payment-service/internal/service/payment_service.go, its queries
-- (internal/repository/db/payments.sql.go) and its consumer (internal/consumer/event_consumer.go).
pub mod Rows
pub mod Orders
pub mod Expiry
use Prim.Native.String
use entra_api.Base.{
  ℕ, suc, String, Bool, true, false, not, ◌&&◌, Option, none, some, List, [], ◌∷◌, ◌++◌, ◌==◌,
  str_eq, if◌then◌else◌,
}
use entra_api.Base.Int.{ℤ}
use entra_api.Base.Go.{
  Go, Env, Error, message, no_rows, unavailable, Result, ok, err, pure, gets, call, ignore, or_none,
  fail_if, modify, ◌>>=◌, ◌>>◌,
}
use entra_api.Base.External.{Uuids, Floats}
use entra_api.Withdrawals.Tables.{fits_decimal}

pub record Payment : Type 0 where
  pub id : ℕ
  pub reference_id : ℕ
  pub reference_type : String
  pub user_id : ℕ
  pub amount : ℤ
  pub status : String
  pub payment_url : Option String

-- `PaymentService`, as its table.
pub record Intents : Type 0 where
  pub env : Env
  pub payments : List Payment
  pub next_id : ℕ

-- One query.
unfoldable pub ask : Go Intents (Unit {0})
ask s =
    let (fails, env) = call s.env in
    (if fails then err unavailable else ok tt, record s { env = env })

-- `CreatePayment`: the new row gets the next id.
unfoldable pub insert_payment : ℕ → String → ℕ → ℤ → String → Option String → Go Intents (Unit {0})
insert_payment reference kind user amount status url s =
    let p : Payment = record {
      id = s.next_id;
      reference_id = reference;
      reference_type = kind;
      user_id = user;
      amount = amount;
      status = status;
      payment_url = url;
    } in
    (ok tt, record s { payments = s.payments ++ p ∷ []; next_id = suc s.next_id })

unfoldable pub create_payment : ℕ → String → ℕ → ℤ → String → Option String → Go Intents (Unit {0})
create_payment reference kind user amount status url = do
  ask
  fail_if (not (fits_decimal amount)) (message "numeric field overflow")
  insert_payment reference kind user amount status url

-- The first row of a reference, where there are several.
unfoldable pub find_payment : ℕ → String → List Payment → Option Payment
find_payment reference kind [] = none
find_payment reference kind (p ∷ ps) =
    if p.reference_id == reference && str_eq p.reference_type kind
    then some p
    else find_payment reference kind ps

-- `GetPaymentByReferenceID`
unfoldable pub get_payment_by_reference_id : ℕ → String → Go Intents Payment
get_payment_by_reference_id reference kind = do
  ask
  payments ← gets (λ s. s.payments)
  or_none (find_payment reference kind payments) no_rows

unfoldable pub put_status : ℕ → String → List Payment → List Payment
put_status id status [] = []
put_status id status (p ∷ ps) =
    (if p.id == id then record p { status = status } else p) ∷ put_status id status ps

-- `UpdatePaymentStatus`, for a row that was read before: the table never loses a row.
unfoldable pub update_payment_status : ℕ → String → Go Intents (Unit {0})
update_payment_status id status = do
  ask
  modify λ s. record s { payments = put_status id status s.payments }

module _ (uuids : Uuids) (floats : Floats) where
  -- `CreatePaymentIntent`
  unfoldable pub create_payment_intent : String → String → String → ℕ → Go Intents (Unit {0})
  create_payment_intent reference_id reference_type user_id amount = do
    rid ← or_none (uuids.parse reference_id) (message "invalid UUID")
    uid ← or_none (uuids.parse user_id) (message "invalid UUID")
    create_payment rid reference_type uid (floats.to_numeric amount) "PENDING"
        (some (String.◌++◌ "https://sandbox.entra.local/pay/" reference_id))

  -- `HandleReferenceCancelled`
  unfoldable pub handle_reference_cancelled : String → String → Go Intents (Unit {0})
  handle_reference_cancelled reference_id reference_type = do
    rid ← or_none (uuids.parse reference_id) (message "invalid UUID")
    payment ← get_payment_by_reference_id rid reference_type
    if str_eq payment.status "PENDING" then update_payment_status payment.id "EXPIRED" else pure tt

-- A message of a topic whose payload is an object; a field that is missing or of another type is
-- empty, or 0. Every other message is skipped.
pub data PaymentMessage : Type 0 where
  order_created : String → String → ℕ → PaymentMessage
  order_cancelled : String → PaymentMessage
  topup_created : String → String → ℕ → PaymentMessage
  skipped : PaymentMessage

module _ (uuids : Uuids) (floats : Floats) where
  -- `EventConsumer.HandleMessage`, which ignores the errors.
  unfoldable pub handle_message : PaymentMessage → Go Intents (Unit {0})
  handle_message (order_created order_id user_id amount) =
      ignore (create_payment_intent uuids floats order_id "TICKET" user_id amount)
  handle_message (order_cancelled order_id) =
      ignore (handle_reference_cancelled uuids floats order_id "TICKET")
  handle_message (topup_created reference_id user_id amount) =
      ignore (create_payment_intent uuids floats reference_id "TOPUP" user_id amount)
  handle_message skipped = pure tt

  -- A history of messages.
  unfoldable pub handle_messages : List PaymentMessage → Intents → Intents
  handle_messages [] s = s
  handle_messages (m ∷ ms) s = handle_messages ms (handle_message m s).1
