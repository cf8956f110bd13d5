-- ===== src/Payments.antt =====
-- What a payment does to an order: `HandlePaymentSuccess`, `HandlePaymentFailed`,
-- `CreatePaymentToken` and `HandleMidtransNotification` of
-- ticket-service/internal/service/ticket_service.go, and the consumer of payment events
-- (ticket-service/internal/consumer/payment_consumer.go).
pub mod Runs
pub mod Once
pub mod Count
pub mod Kept
pub mod Live
pub mod Turn
use entra_api.Base.{
  ℕ, zero, suc, String, Bool, true, false, not, ◌&&◌, ◌||◌, Option, none, some, List, [], ◌∷◌,
  str_eq, if◌then◌else◌,
}
use entra_api.Base.Int.{ℤ, pos_part}
use entra_api.Base.Go.{
  Go, Error, message, Result, ok, err, pure, fail, gets, attempt, ignore, or_none, fail_if, when,
  for_each, ◌>>=◌, ◌>>◌,
}
use entra_api.Base.External.{Uuids}
use entra_api.Platform.{Order, OrderItem, Ticket, Platform, external, ticket_created}
use entra_api.Tables.{get_order, update_order_status, list_order_items, create_ticket, publish}
use entra_api.Queue.{advance_queue}
use entra_api.Cancel.{err_invalid_uuid, read_active, cancel_order}
use entra_api.WaitingRoom.{check_and_advance}

abbrev pub err_not_owner : Error
err_not_owner = message "access denied: order does not belong to authenticated user"

abbrev pub err_not_pending : Error
err_not_pending = message "order is not pending"

abbrev pub err_not_your_turn : Error
err_not_your_turn =
    message "Belum giliran Anda untuk melakukan pembayaran tiket ini. Harap tunggu di antrian."

module _ (uuids : Uuids) where
  -- `uuid.New()` draws the ticket's code; here it is made of the number of the next row.
  abbrev pub ticket_message : Order → Ticket → Go Platform (Unit {0})
  ticket_message o t = ignore (
      publish
        (ticket_created (uuids.to_string t.id) (uuids.to_string o.event_id) t.ticket_code t.status))

  -- One round of the inner loop; a ticket that cannot be created is skipped.
  unfoldable pub issue_ticket : Order → ℕ → Go Platform (Unit {0})
  issue_ticket o ticket_type = do
    code ← gets (λ s. uuids.to_string s.next_id)
    r ← attempt (create_ticket o ticket_type code)
    elim r [ ok t ↦ ticket_message o t | err _ ↦ pure tt ]

  -- `for i := int32(0); i < item.Quantity; i++`
  unfoldable pub issue_tickets : ℕ → Order → ℕ → Go Platform (Unit {0})
  issue_tickets zero o ticket_type = pure tt
  issue_tickets (suc n) o ticket_type = do issue_ticket o ticket_type; issue_tickets n o ticket_type

  unfoldable pub issue_item : Order → OrderItem → Go Platform (Unit {0})
  issue_item o i = issue_tickets (pos_part i.quantity) o i.ticket_type_id

  -- The tickets of each item, and the next turn in the queue.
  unfoldable pub deliver : ℕ → Order → Go Platform (Unit {0})
  deliver id o = do
    items ← list_order_items id
    for_each items (issue_item o)
    ignore (advance_queue uuids o.event_id)

  -- The part of `HandlePaymentSuccess` for an order that is not paid yet.
  unfoldable pub settle : ℕ → Order → Go Platform (Unit {0})
  settle id o = do update_order_status id "PAID"; deliver id o

  -- `TicketService.HandlePaymentSuccess`
  unfoldable pub handle_payment_success : String → Go Platform (Unit {0})
  handle_payment_success order_id = do
    id ← or_none (uuids.parse order_id) err_invalid_uuid
    o ← get_order id
    if str_eq o.status "PAID" then pure tt else settle id o

  -- `TicketService.HandlePaymentFailed`
  unfoldable pub handle_payment_failed : String → Go Platform (Unit {0})
  handle_payment_failed order_id = cancel_order uuids order_id

  -- The statuses of Midtrans that a notification acts on.
  unfoldable pub act_on_status : String → String → String → Go Platform (Unit {0})
  act_on_status status fraud order_id =
      if str_eq status "capture"
      then if str_eq fraud "challenge" then pure tt else handle_payment_success order_id
      else if str_eq status "settlement" || str_eq status "success"
      then handle_payment_success order_id
      else if str_eq status "cancel" || (str_eq status "deny" || str_eq status "expire")
      then handle_payment_failed order_id
      else pure tt

  -- The queue's part of `CreatePaymentToken`.
  unfoldable pub check_turn : Order → Go Platform (Unit {0})
  check_turn o = do
    check_and_advance uuids o.event_id
    active ← read_active o.event_id
    fail_if (not (str_eq active "") && not (str_eq active (uuids.to_string o.id))) err_not_your_turn

  unfoldable pub wait_turn : Order → Go Platform Order
  wait_turn o = do redis ← gets (λ s. s.redis_on); when redis (check_turn o); pure o

  unfoldable pub check_pending : Order → Go Platform Order
  check_pending o = do fail_if (not (str_eq o.status "PENDING")) err_not_pending; wait_turn o

  unfoldable pub check_payer : String → Order → Go Platform Order
  check_payer user_id o = do
    fail_if (not (str_eq user_id "") && not (str_eq (uuids.to_string o.user_id) user_id))
        err_not_owner
    check_pending o

  -- `CreatePaymentToken` up to the call of Midtrans: the order that a token may be asked for.
  unfoldable pub payable_order : String → String → Go Platform Order
  payable_order order_id user_id = do
    id ← or_none (uuids.parse order_id) err_invalid_uuid
    o ← get_order id
    check_payer user_id o
