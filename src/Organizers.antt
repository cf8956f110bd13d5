-- ===== src/Organizers.antt =====
-- An order as its organizer sees it: `GetOrganizerOrder` of
-- ticket-service/internal/service/order_service.go.
pub mod Owned
use entra_api.Base.{ℕ, String, Bool, false, not, ◌||◌, List, [], ◌∷◌, ◌==◌, str_eq, if◌then◌else◌}
use entra_api.Base.Go.{Go, message, gets, or_none, or_fail, fail_if, pure, ◌>>=◌, ◌>>◌}
use entra_api.Base.External.{Uuids}
use entra_api.Platform.{Order, OrderItem, Ticket, Platform}
use entra_api.Tables.{get_order, list_order_items}
use entra_api.Withdrawals.Tables.{Payouts, call_out}
use entra_api.Withdrawals.{fetch_organizer_event_ids}

-- A query on the tables of the orders.
abbrev pub on_shop : {A : Type 0} → Go Platform A → Go Payouts A
on_shop m s = let (r, shop) = m s.shop in (r, record s { shop = shop })

unfoldable pub tickets_of_order : ℕ → List Ticket → List Ticket
tickets_of_order order [] = []
tickets_of_order order (t ∷ ts) =
    if t.order_id == order then t ∷ tickets_of_order order ts else tickets_of_order order ts

-- `ListTicketsByOrder`, in the order of creation.
unfoldable pub list_tickets_by_order : ℕ → Go Payouts (List Ticket)
list_tickets_by_order order = do call_out; gets (λ s. tickets_of_order order s.shop.tickets)

-- The loop that sets `isOwner`.
unfoldable pub is_listed : String → List String → Bool
is_listed id [] = false
is_listed id (x ∷ xs) = str_eq id x || is_listed id xs

module _ (uuids : Uuids) where
  -- `GetOrganizerOrder`
  unfoldable pub get_organizer_order :
      String → String → Go Payouts (Order × List OrderItem × List Ticket)
  get_organizer_order order_id organizer_id = do
    id ← or_none (uuids.parse order_id) (message "invalid order id")
    order ← or_fail (on_shop (get_order id)) (message "failed to get order")
    ids ←
        or_fail (fetch_organizer_event_ids uuids organizer_id)
          (message "failed to fetch organizer events")
    fail_if (not (is_listed (uuids.to_string order.event_id) ids))
        (message "unauthorized to access this order")
    items ← or_fail (on_shop (list_order_items id)) (message "failed to list order items")
    tickets ← or_fail (list_tickets_by_order id) (message "failed to list tickets")
    pure (order, items, tickets)
