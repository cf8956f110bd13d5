-- ===== src/Events/Strangers.antt =====
-- Who may change a ticket type: the organizer of the event that the request names, also where the
-- ticket type is another event's.
use entra_api.Base.{
  ◌==◌, ℕ, String, ◌≡◌, ◌≢◌, refl, ◌⊎◌, inl, inr, true, false, some, [], arith, sym, subst,
  Bool-cases,
}
use entra_api.Base.Go.{Go, Result, ok, err, call, ◌>>=◌}
use entra_api.Base.External.{Uuids, Floats}
use entra_api.Base.Formats.{Formats}
use entra_api.Platform.{Event, TicketType, Platform, external}
use entra_api.Platform.Calm.{with_script, calm}
use entra_api.Inventory.{find_event, find_ticket_type, get_event_by_id}
use entra_api.Events.Tables.{
  edit_type, update_ticket_type_row, delete_ticket_type_row, drop_type, put_stock,
}
use entra_api.Events.{
  err_unauthorized, err_get_event, pg_uuid_from_string, own_event, store_left, sync_stock,
}
use entra_api.Events.Rows.{Replaced, Removed, edit_type-Replaced, drop_type-Removed}
use entra_api.Events.TicketTypes.{
  TicketTypeRequest, columns_of, add_type, change_type, remove_type, delete_ticket_type,
  create_ticket_type, update_ticket_type,
}

-- The call is refused, and ends in the state.
abbrev pub Refused : {A : Type 0} → Platform → Result A × Platform → Type 0
Refused t (ok _, s) = ⊥
Refused t (err e, s) = ((e ≡ err_unauthorized) ⊎ (e ≡ err_get_event)) × (s ≡ t)

module _ (uuids : Uuids) (org ev : ℕ) (e : Event) (s : Platform)
    (found : find_event ev s.events ≡ some e) (other : e.organizer_id ≢ org) where
  fails_first :
      (call s.env).0 ≡ true → own_event uuids org ev s ≡ (err err_get_event, (external s).1)
  unfolding own_event get_event_by_id external
  fails_first h = ground (arith, h, found)

  is_other :
      (call s.env).0 ≡ false → own_event uuids org ev s ≡ (err err_unauthorized, (external s).1)
  unfolding own_event get_event_by_id external
  is_other h = ground (arith, h, found, other)

  check-Refused : Refused (external s).1 (own_event uuids org ev s)
  check-Refused = elim (Bool-cases (call s.env).0) [
    | inl h ↦ subst (Refused (external s).1) (sym (fails_first h)) (inr refl, refl)
    | inr h ↦ subst (Refused (external s).1) (sym (is_other h)) (inl refl, refl)
  ]

bind-Refused :
    {A B : Type 0} (t : Platform) (r : Result A × Platform) (f : A → Go Platform B)
    → Refused t r
    → Refused t ((◌>>=◌ (λ _. r) f) r.1)
bind-Refused t (ok _, s) f h = absurd h
bind-Refused t (err e, s) f h = h

module _ (uuids : Uuids) (floats : Floats) (formats : Formats) (organizer event ticket : String)
    (org ev id : ℕ) (req : TicketTypeRequest) (e : Event) (s : Platform)
    (given : pg_uuid_from_string uuids organizer ≡ some org)
    (given' : pg_uuid_from_string uuids event ≡ some ev)
    (given'' : pg_uuid_from_string uuids ticket ≡ some id) where
  -- Whichever external calls fail: on an event that is another organizer's, CreateTicketType,
  -- UpdateTicketType and DeleteTicketType all fail (as unauthorized, or where the event cannot be
  -- read), and nothing has happened but the read of the event.
  pub strangers-Refused :
      find_event ev s.events ≡ some e
      → e.organizer_id ≢ org
      → Refused (external s).1 (create_ticket_type uuids floats formats organizer event req s)
        × Refused
            (external s).1
            (update_ticket_type uuids floats formats organizer event ticket req s)
        × Refused (external s).1 (delete_ticket_type uuids organizer event ticket s)
  unfolding create_ticket_type update_ticket_type delete_ticket_type
  strangers-Refused found other =
      let denied = check-Refused uuids org ev e s found other in
      (
        rw (given, given')
            (bind-Refused (external s).1 (own_event uuids org ev s)
              (λ _. add_type uuids floats formats ev req) denied),
        rw (given, given', given'')
            (bind-Refused (external s).1 (own_event uuids org ev s)
              (λ _. change_type uuids floats formats id req) denied),
        rw (given, given', given'')
            (bind-Refused (external s).1 (own_event uuids org ev s) (λ _. remove_type uuids id)
              denied),
      )

  opened :
      (t : TicketType) (start end_date : ℕ)
      → find_event ev s.events ≡ some e
      → e.organizer_id ≡ org
      → find_ticket_type id s.ticket_types ≡ some t
      → formats.parse_time req.sale_start ≡ some start
      → formats.parse_time req.sale_end ≡ some end_date
      → (update_ticket_type uuids floats formats organizer event ticket req
          (with_script [] s)).1.ticket_types
        ≡ edit_type id (columns_of floats formats req start end_date) s.ticket_types
  unfolding update_ticket_type change_type own_event get_event_by_id external update_ticket_type_row
      sync_stock store_left put_stock
  opened t start end_date found own there e1 e2 =
      ground (arith, given, given', given'', found, own, there, e1, e2)

  closed :
      find_event ev s.events ≡ some e
      → e.organizer_id ≡ org
      → (delete_ticket_type uuids organizer event ticket (with_script [] s)).1.ticket_types
        ≡ drop_type id s.ticket_types
  unfolding delete_ticket_type remove_type own_event get_event_by_id external delete_ticket_type_row
  closed found own = ground (arith, given, given', given'', found, own)

  -- The tables after both calls on an own event.
  pub own_event_tables :
      (t : TicketType) (start end_date : ℕ)
      → s.env.script ≡ []
      → find_event ev s.events ≡ some e
      → e.organizer_id ≡ org
      → find_ticket_type id s.ticket_types ≡ some t
      → formats.parse_time req.sale_start ≡ some start
      → formats.parse_time req.sale_end ≡ some end_date
      → ((update_ticket_type uuids floats formats organizer event ticket req s).1.ticket_types
          ≡ edit_type id (columns_of floats formats req start end_date) s.ticket_types)
        × ((delete_ticket_type uuids organizer event ticket s).1.ticket_types
            ≡ drop_type id s.ticket_types)
  own_event_tables t start end_date quiet found own there e1 e2 =
      calm
        (λ s.
          find_event ev s.events ≡ some e
          → find_ticket_type id s.ticket_types ≡ some t
          → ((update_ticket_type uuids floats formats organizer event ticket req s).1.ticket_types
              ≡ edit_type id (columns_of floats formats req start end_date) s.ticket_types)
            × ((delete_ticket_type uuids organizer event ticket s).1.ticket_types
                ≡ drop_type id s.ticket_types))
        s quiet (λ found there. (opened t start end_date found own there e1 e2, closed found own))
        found there

  -- Where no call fails: an organizer who names an event of their own changes any ticket type, of
  -- whichever event it is: the row of the id gets the name, description, price, quantity, limit and
  -- times of the request and keeps its id, event and sales. DeleteTicketType removes the row just so.
  -- Both leave the row of every other id as it was.
  pub own_event_opens_all :
      (t : TicketType) (start end_date other : ℕ)
      → s.env.script ≡ []
      → find_event ev s.events ≡ some e
      → e.organizer_id ≡ org
      → find_ticket_type id s.ticket_types ≡ some t
      → formats.parse_time req.sale_start ≡ some start
      → formats.parse_time req.sale_end ≡ some end_date
      → (other == id) ≡ false
      → Replaced floats formats req start end_date t id other s.ticket_types
          (update_ticket_type uuids floats formats organizer event ticket req s).1.ticket_types
        × Removed id other s.ticket_types
            (delete_ticket_type uuids organizer event ticket s).1.ticket_types
  own_event_opens_all t start end_date other quiet found own there e1 e2 apart =
      let tables = own_event_tables t start end_date quiet found own there e1 e2 in
      (
        subst (Replaced floats formats req start end_date t id other s.ticket_types)
            (sym (tables.0))
            (edit_type-Replaced floats formats req start end_date t id other s.ticket_types there
              apart),
        subst (Removed id other s.ticket_types) (sym (tables.1))
            (drop_type-Removed id other s.ticket_types apart),
      )
