-- ===== src/Events/Quantities.antt =====
-- A new quantity of a ticket type, and the bound on what is sold of it.
use entra_api.Base.{
  ℕ, String, ◌≡◌, ◌↔◌, sym, subst, some, List, [], ◌∷◌, arith, ◌==◌, All, Bool-cases, inl, inr,
}
use entra_api.Base.Int.{◌≤ℤ◌}
use entra_api.Base.External.{Uuids, Floats}
use entra_api.Base.Formats.{Formats}
use entra_api.Platform.{Event, TicketType, Platform}
use entra_api.Inventory.{find_event, find_ticket_type}
use entra_api.Inventory.Bounds.{IsWithin, SoldWithin}
use entra_api.Events.Tables.{TypeColumns, edit_type}
use entra_api.Events.{pg_uuid_from_string}
use entra_api.Events.TicketTypes.{TicketTypeRequest, columns_of, update_ticket_type}
use entra_api.Events.Strangers.{own_event_tables}

edit-within :
    (id : ℕ) (c : TypeColumns) (t : TicketType) (ts : List TicketType)
    → All IsWithin ts
    → find_ticket_type id ts ≡ some t
    → t.sold ≤ℤ c.quantity
    → All IsWithin (edit_type id c ts)
unfolding find_ticket_type edit_type
edit-within id c t [] h e le = tt
edit-within id c t (u ∷ ts) h e le = ground (arith, edit-within id c t ts h.1)

within-edit :
    (id : ℕ) (c : TypeColumns) (t : TicketType) (ts : List TicketType)
    → find_ticket_type id ts ≡ some t
    → All IsWithin (edit_type id c ts)
    → t.sold ≤ℤ c.quantity
unfolding find_ticket_type edit_type
within-edit id c t [] e h = absurd (ground (arith, e))
within-edit id c t (u ∷ ts) e h = elim (Bool-cases (u.id == id)) [
  | inl hit ↦ ground (arith, hit)
  | inr miss ↦ within-edit id c t ts (ground (arith, miss)) (ground (arith, miss))
]

-- Where no call fails and every ticket type has 0 <= sold <= quantity: after UpdateTicketType by the
-- organizer of the named event this still holds exactly if the new quantity is at least what has
-- been sold of that ticket type, which UpdateTicketType does not check.
pub quantity_decides :
    (uuids : Uuids) (floats : Floats) (formats : Formats) (organizer event ticket : String)
    (org ev id : ℕ) (req : TicketTypeRequest) (e : Event) (s : Platform) (t : TicketType)
    (start end_date : ℕ)
    → pg_uuid_from_string uuids organizer ≡ some org
    → pg_uuid_from_string uuids event ≡ some ev
    → pg_uuid_from_string uuids ticket ≡ some id
    → s.env.script ≡ []
    → find_event ev s.events ≡ some e
    → e.organizer_id ≡ org
    → find_ticket_type id s.ticket_types ≡ some t
    → formats.parse_time req.sale_start ≡ some start
    → formats.parse_time req.sale_end ≡ some end_date
    → SoldWithin s
    → SoldWithin (update_ticket_type uuids floats formats organizer event ticket req s).1
      ↔ (t.sold ≤ℤ req.quantity)
quantity_decides uuids floats formats organizer event ticket org ev id req e s t start end_date
      given given' given'' quiet found own there e1 e2 within =
    let c = columns_of floats formats req start end_date in
    let now =
      (own_event_tables uuids floats formats organizer event ticket org ev id req e s given given'
        given'' t start end_date quiet found own there e1 e2).0 in
    (
      λ w. within-edit id c t s.ticket_types there (subst (All IsWithin) now w.rows),
      λ le. record {
        rows =
            subst (All IsWithin) (sym now) (edit-within id c t s.ticket_types within.rows there le);
      },
    )
