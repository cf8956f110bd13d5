-- ===== src/Organizers/Owned.antt =====
-- Organizers see the orders of their own events only.
use entra_api.Base.{
  ℕ, String, ◌≡◌, refl, Bool, true, false, ◌&&◌, ◌||◌, some, List, [], ◌∷◌, ◌==◌, arith, str_eq,
  Bool-cases, inl, inr, ap, sym, ◌∙◌, eq_iff,
}
use entra_api.Base.Go.{ok}
use entra_api.Base.External.{Uuids}
use entra_api.Platform.{Event, Order, OrderItem, Ticket, external}
use entra_api.Tables.{find_order, get_order, items_of, list_order_items}
use entra_api.Withdrawals.Tables.{Payouts, call_out}
use entra_api.Withdrawals.{events_of, id_texts, fetch_organizer_event_ids}
use entra_api.Organizers.{tickets_of_order, list_tickets_by_order, is_listed, get_organizer_order}

-- The event is one of the organizer's.
unfoldable pub organizes : ℕ → ℕ → List Event → Bool
organizes organizer event [] = false
organizes organizer event (e ∷ es) =
    (e.organizer_id == organizer && e.id == event) || organizes organizer event es

module _ (uuids : Uuids) where
  -- Two ids with the same text are the same.
  to_string-injective : (a b : ℕ) → uuids.to_string a ≡ uuids.to_string b → a ≡ b
  to_string-injective a b e =
      let read : some a ≡ some b =
        sym (uuids.parse-to_string a) ∙ ap uuids.parse e ∙ uuids.parse-to_string b in
      ground (arith, read)

  same_text : (a b : ℕ) → str_eq (uuids.to_string a) (uuids.to_string b) ≡ (b == a)
  same_text a b = elim (Bool-cases (b == a)) [
    | inl equal ↦
        let same : b ≡ a = ground (arith, equal) in
        ground
          (arith, equal, ap uuids.to_string same, eq_iff (uuids.to_string a) (uuids.to_string b))
    | inr unequal ↦ elim (Bool-cases (str_eq (uuids.to_string a) (uuids.to_string b))) [
      | inl same ↦
          let e : uuids.to_string a ≡ uuids.to_string b =
            ground (arith, same, eq_iff (uuids.to_string a) (uuids.to_string b)) in
          absurd (ground (arith, unequal, to_string-injective a b e))
      | inr other ↦ ground (arith, other, unequal)
    ]
  ]

  is_listed-events_of :
      (organizer event : ℕ) (es : List Event)
      → is_listed (uuids.to_string event) (id_texts uuids (events_of organizer es))
        ≡ organizes organizer event es
  unfolding is_listed id_texts events_of organizes
  is_listed-events_of organizer event [] = refl
  is_listed-events_of organizer event (e ∷ es) =
      ground (arith, same_text event e.id, is_listed-events_of organizer event es)

  -- Whichever calls fail, an order that GetOrganizerOrder returns is the one of the id, it is an order
  -- for an event of the organizer, and it comes with its own items and tickets.
  pub organizer_order_owned :
      (order_id organizer_id : String) (id organizer : ℕ) (o : Order) (items : List OrderItem)
      (tickets : List Ticket) (s : Payouts)
      → uuids.parse order_id ≡ some id
      → uuids.parse organizer_id ≡ some organizer
      → (get_organizer_order uuids order_id organizer_id s).0 ≡ ok (o, items, tickets)
      → (find_order id s.shop.orders ≡ some o)
        × (organizes organizer o.event_id s.shop.events ≡ true)
        × (items ≡ items_of id s.shop.items)
        × (tickets ≡ tickets_of_order id s.shop.tickets)
  unfolding get_organizer_order get_order list_order_items list_tickets_by_order call_out external
      fetch_organizer_event_ids
  organizer_order_owned order_id organizer_id id organizer o items tickets s reads whose h =
      ground (arith, reads, whose, h, is_listed-events_of organizer o.event_id s.shop.events)
