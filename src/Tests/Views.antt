-- ===== src/Tests/Views.antt =====
-- An organizer who looks at an order.
use entra_api.Base.{◌≡◌, refl, true, some, [], ◌∷◌}
use entra_api.Base.Int.{pos}
use entra_api.Base.Samples.{sample_uuids}
use entra_api.Platform.{Order, OrderItem}
use entra_api.Tables.{find_order, items_of}
use entra_api.Organizers.{get_organizer_order, tickets_of_order}
use entra_api.Organizers.Owned.{organizes, organizer_order_owned}
use entra_api.Tests.Shop.{pending, rich}

abbrev paid : Order
paid = record (pending 3 1) { status = "PAID"; total_amount = pos 9000000 }

abbrev pair : OrderItem
pair = record {
  order_id = 3;
  ticket_type_id = 2;
  quantity = pos 2;
  price = pos 5000;
  subtotal = pos 5000;
}

organizer_order_owned_example :
    (find_order 3 rich.shop.orders ≡ some paid)
    × (organizes 0 1 rich.shop.events ≡ true)
    × (pair ∷ [] ≡ items_of 3 rich.shop.items)
    × ([] ≡ tickets_of_order 3 rich.shop.tickets)
unfolding get_organizer_order entra_api.Tables.get_order entra_api.Platform.external find_order
    entra_api.Withdrawals.fetch_organizer_event_ids entra_api.Withdrawals.Tables.call_out
    entra_api.Organizers.is_listed entra_api.Withdrawals.id_texts entra_api.Withdrawals.events_of
    entra_api.Tables.list_order_items entra_api.Organizers.list_tickets_by_order items_of
    tickets_of_order
organizer_order_owned_example =
    organizer_order_owned sample_uuids "uuuu" "u" 3 0 paid (pair ∷ []) [] rich refl refl refl
