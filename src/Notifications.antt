-- ===== src/Notifications.antt =====
-- Reports of payments: `HandleMidtransNotification` of
-- ticket-service/internal/service/ticket_service.go and the consumer of payment events
-- (ticket-service/internal/consumer/payment_consumer.go).
pub mod Ids
use Prim.Native.Char.{code}
use entra_api.Base.{ℕ, String, Bool, ◌&&◌, ◌||◌, Option, none, some, ◌==◌, str_eq, if◌then◌else◌}
use entra_api.Base.Go.{Go, message, pure, or_none, attempt, ◌>>=◌, ◌>>◌}
use entra_api.Base.External.{Uuids}
use entra_api.Platform.{Platform, external}
use entra_api.Payments.{act_on_status, handle_payment_success, handle_payment_failed}

-- The fields of the payload that are read; a text that is missing is empty.
pub record Notification : Type 0 where
  pub order_id : Option String
  pub transaction_status : String
  pub fraud_status : String
  pub status_code : String

-- What Midtrans answers about a transaction.
pub record Transaction : Type 0 where
  pub transaction_status : String
  pub fraud_status : String

abbrev pub is_underscore : ℕ → Bool
is_underscore c = c == 95

-- `strings.Split(s, "_")[0]`
unfoldable pub first_part : String → String
first_part String.[] = String.[]
first_part (String.◌∷◌ c s) =
    if is_underscore (code c) then String.[] else String.◌∷◌ c (first_part s)

-- The text behind the first underscore, if there is one.
unfoldable pub rest_parts : String → Option String
rest_parts String.[] = none
rest_parts (String.◌∷◌ c s) = if is_underscore (code c) then some s else rest_parts s

-- `parts[1]` where the first part is `ORD` and there is a second one, and `parts[0]` otherwise.
unfoldable pub order_part : String → String
order_part raw = elim (rest_parts raw) [
  | none ↦ first_part raw
  | some rest ↦ if str_eq (first_part raw) "ORD" then first_part rest else first_part raw
]

-- The status of Midtrans, where it answers, or else the one of the payload; an empty status stands
-- for a settlement if the code says so.
abbrev pub final_status : Notification → String → String
final_status n status =
    if str_eq status "" && (str_eq n.status_code "200" || str_eq n.status_code "201")
    then "settlement"
    else status

module _ (uuids : Uuids) where
  unfoldable pub act_on_answer : Notification → Option Transaction → String → Go Platform (Unit {0})
  act_on_answer n (some t) order_id =
      act_on_status uuids (final_status n t.transaction_status) t.fraud_status order_id
  act_on_answer n none order_id =
      act_on_status uuids (final_status n n.transaction_status) n.fraud_status order_id

  -- `TicketService.HandleMidtransNotification`, with the answer of `CheckTransaction`.
  unfoldable pub handle_midtrans_notification :
      Notification → Option Transaction → Go Platform (Unit {0})
  handle_midtrans_notification n answer = do
    raw ← or_none n.order_id (message "invalid order_id in payload")
    id ← or_none (uuids.parse (order_part raw)) (message "invalid order_id in notification")
    attempt external
    act_on_answer n answer (uuids.to_string id)

  -- `PaymentConsumer.HandleMessage`, for a payload that is decoded.
  unfoldable pub handle_payment_event : String → String → Option String → Go Platform (Unit {0})
  handle_payment_event topic reference_type none = pure tt
  handle_payment_event topic reference_type (some order_id) =
      if str_eq topic "payment.success"
      then if str_eq reference_type "TICKET" then handle_payment_success uuids order_id else pure tt
      else if str_eq topic "payment.failed" && str_eq reference_type "TICKET"
      then handle_payment_failed uuids order_id
      else pure tt
