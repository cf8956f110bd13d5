-- ===== src/Payments/Runs.antt =====
-- What the delivery of a paid order keeps, from what its single steps keep.
use entra_api.Base.{ℕ, zero, suc, String}
use entra_api.Base.Int.{pos_part}
use entra_api.Base.Go.{Result, ok, err, pure}
use entra_api.Base.Keeps.{
  Keeps, Keeps-pure, Keeps-gets, Keeps-attempt, Keeps-ignore, Keeps-bind, Keeps-for_each,
}
use entra_api.Base.External.{Uuids}
use entra_api.Platform.{Order, Ticket, Message, Platform, ticket_created}
use entra_api.Tables.{create_ticket, publish, list_order_items}
use entra_api.Queue.Runs.{QueueRules, advance_queue-Keeps}
use entra_api.Payments.{ticket_message, issue_ticket, issue_tickets, issue_item, deliver}

-- A property that each single step keeps.
pub record SettleRules (P : Platform → Type 0) : Type 0 where
  pub queue : QueueRules P
  pub create_ticket_keeps : (o : Order) (n : ℕ) (code : String) → Keeps P (create_ticket o n code)
  pub publish_keeps : (m : Message) → Keeps P (publish m)
  pub list_order_items_keeps : (id : ℕ) → Keeps P (list_order_items id)

module _ (uuids : Uuids) {P : Platform → Type 0} (rules : SettleRules P) where
  open rules use {queue, create_ticket_keeps, publish_keeps, list_order_items_keeps}

  issue_ticket-Keeps : (o : Order) (n : ℕ) → Keeps P (issue_ticket uuids o n)
  unfolding issue_ticket
  issue_ticket-Keeps o n =
      Keeps-bind (Keeps-gets (λ s. uuids.to_string s.next_id))
        λ code. Keeps-bind (Keeps-attempt (create_ticket_keeps o n code)) issued
    where
      issued :
          (r : Result Ticket)
          → Keeps P (elim r [ ok t ↦ ticket_message uuids o t | err _ ↦ pure tt ])
      issued (ok t) = Keeps-ignore (
          publish_keeps (
            ticket_created (uuids.to_string t.id) (uuids.to_string o.event_id) t.ticket_code
              t.status))
      issued (err _) = Keeps-pure tt

  issue_tickets-Keeps : (k : ℕ) (o : Order) (n : ℕ) → Keeps P (issue_tickets uuids k o n)
  unfolding issue_tickets
  issue_tickets-Keeps zero o n = Keeps-pure tt
  issue_tickets-Keeps (suc k) o n =
      Keeps-bind (issue_ticket-Keeps o n) λ _. issue_tickets-Keeps k o n

  pub deliver-Keeps : (id : ℕ) (o : Order) → Keeps P (deliver uuids id o)
  unfolding deliver issue_item
  deliver-Keeps id o = Keeps-bind (list_order_items_keeps id) λ items.
      Keeps-bind
        (Keeps-for_each items λ i. issue_tickets-Keeps (pos_part i.quantity) o i.ticket_type_id)
        λ _. Keeps-ignore (advance_queue-Keeps uuids queue o.event_id)
