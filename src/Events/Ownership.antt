-- ===== src/Events/Ownership.antt =====
-- Only the organizer of an event changes it.
use entra_api.Base.{ℕ, String, ◌≡◌, refl, ◌∙◌, Option, none, some, List, [], ◌∷◌, arith, str_eq}
use entra_api.Base.Int.{ℤ}
use entra_api.Base.Go.{
  Go, Error, message, no_rows, unavailable, Result, ok, err, pure, attempt, for_each, or_none,
  ◌>>=◌, ◌>>◌,
}
use entra_api.Base.Keeps.{
  Keeps, Keeps-pure, Keeps-fail, Keeps-gets, Keeps-or_none, Keeps-attempt, Keeps-bind, Keeps-if,
  Keeps-for_each, Keeps-bind-Yields, Yields,
}
use entra_api.Base.External.{Uuids}
use entra_api.Base.Formats.{Formats}
use entra_api.Platform.{Event, TicketType, Platform, external}
use entra_api.Events.Tables.{
  find_owned, update_event_row, drop_owned, cascade, delete_event_row, list_ticket_types_by_event,
  drop_cached, put_stock,
}
use entra_api.Events.{
  EventRequest, err_event_not_found, err_unauthorized, pg_uuid_from_string, or_unknown, or_draft,
  generate_slug, invalidate_event_cache, store_left, left_of, prewarm_ticket_stock, err_start_date,
  err_end_date, delete_event, update_event,
}

-- The events and the ticket types are as they were.
record Tables (es : List Event) (ts : List TicketType) (s : Platform) : Type 0 where
  events : s.events ≡ es
  ticket_types : s.ticket_types ≡ ts

drop_owned-none :
    (id organizer : ℕ) (es : List Event)
    → find_owned id organizer es ≡ none
    → drop_owned id organizer es ≡ es
unfolding find_owned drop_owned
drop_owned-none id organizer [] h = refl
drop_owned-none id organizer (e ∷ es) h = ground (arith, drop_owned-none id organizer es)

module _ {es : List Event} {ts : List TicketType} where
  -- A run that leaves both tables.
  quiet :
      {A : Type 0} (m : Go Platform A)
      → ((s : Platform)
          → s.events ≡ es
          → ((m s).1.events ≡ s.events) × ((m s).1.ticket_types ≡ s.ticket_types))
      → Keeps (Tables es ts) m
  quiet m same = record {
    run = λ s h. record {
      events = (same s h.events).0 ∙ h.events;
      ticket_types = (same s h.events).1 ∙ h.ticket_types;
    };
  }

  update-Keeps :
      (id organizer : ℕ) (title slug : String) (start end_date : ℕ) (status : String)
      → find_owned id organizer es ≡ none
      → Keeps (Tables es ts) (update_event_row id organizer title slug start end_date status)
  unfolding update_event_row external
  update-Keeps id organizer title slug start end_date status foreign =
      quiet (update_event_row id organizer title slug start end_date status)
        (λ s h. ground (arith, foreign, h))

  delete-Keeps :
      (id organizer : ℕ)
      → find_owned id organizer es ≡ none
      → Keeps (Tables es ts) (delete_event_row id organizer)
  unfolding delete_event_row external cascade
  delete-Keeps id organizer foreign =
      quiet (delete_event_row id organizer)
        (λ s h. ground (arith, foreign, h, drop_owned-none id organizer es foreign))

  invalidate-Keeps : (event : String) → Keeps (Tables es ts) (invalidate_event_cache event)
  unfolding invalidate_event_cache drop_cached external
  invalidate-Keeps event = quiet (invalidate_event_cache event) (λ s h. ground arith)

  store-Keeps :
      (uuids : Uuids) (t : TicketType) (n : ℤ) → Keeps (Tables es ts) (store_left uuids t n)
  unfolding store_left put_stock external
  store-Keeps uuids t n = quiet (store_left uuids t n) (λ s h. ground arith)

  list-Keeps : (event : ℕ) → Keeps (Tables es ts) (list_ticket_types_by_event event)
  unfolding list_ticket_types_by_event external
  list-Keeps event = quiet (list_ticket_types_by_event event) (λ s h. ground arith)

  prewarm-Keeps :
      (uuids : Uuids) (event : String) → Keeps (Tables es ts) (prewarm_ticket_stock uuids event)
  unfolding prewarm_ticket_stock
  prewarm-Keeps uuids event =
      Keeps-bind (Keeps-gets (λ s. s.redis_on))
        λ redis. Keeps-if redis (listed (pg_uuid_from_string uuids event)) (Keeps-pure tt)
    where
      stored :
          (r : Result (List TicketType))
          → Keeps (Tables es ts) (elim r [
            | ok types ↦ for_each types (λ t. store_left uuids t (left_of t))
            | err _ ↦ pure tt
          ])
      stored (ok types) = Keeps-for_each types λ t. store-Keeps uuids t (left_of t)
      stored (err _) = Keeps-pure tt

      listed :
          (o : Option ℕ)
          → Keeps (Tables es ts) (elim o [
            | none ↦ pure tt
            | some id ↦ do
              r ← attempt (list_ticket_types_by_event id)
              elim r [
                | ok types ↦ for_each types (λ t. store_left uuids t (left_of t))
                | err _ ↦ pure tt
              ]
          ])
      listed none = Keeps-pure tt
      listed (some id) = Keeps-bind (Keeps-attempt (list-Keeps id)) stored

  unknown-Keeps :
      {A : Type 0} (r : Result A) (failed : Error) → Keeps (Tables es ts) (or_unknown r failed)
  unknown-Keeps (ok a) failed = Keeps-pure a
  unknown-Keeps (err no_rows) failed = Keeps-fail err_event_not_found
  unknown-Keeps (err unavailable) failed = Keeps-fail failed
  unknown-Keeps (err (message m)) failed = Keeps-fail failed

  slug-Keeps :
      (formats : Formats) (title : String) → Keeps (Tables es ts) (generate_slug formats title)
  unfolding generate_slug
  slug-Keeps formats title = quiet (generate_slug formats title) (λ s h. (refl, refl))

or_none-Yields :
    {A : Type 0} (P : Platform → Type 0) (o : Option A) (e : Error) (s : Platform)
    → P s
    → Yields P (λ a. o ≡ some a) (or_none o e s)
or_none-Yields P none e s h = h
or_none-Yields P (some a) e s h = (refl, h)

-- The organizer, by the texts of a request, has no event of the id.
abbrev Foreign : Uuids → String → String → List Event → Type 0
Foreign uuids event organizer es =
    (id org : ℕ)
    → pg_uuid_from_string uuids event ≡ some id
    → pg_uuid_from_string uuids organizer ≡ some org
    → find_owned id org es ≡ none

module _ (uuids : Uuids) (event organizer : String) (es : List Event) (ts : List TicketType)
    (foreign : Foreign uuids event organizer es) where
  -- A run that starts by reading the two ids.
  with_ids :
      {A : Type 0} (f : ℕ → ℕ → Go Platform A)
      → ((id org : ℕ) → find_owned id org es ≡ none → Keeps (Tables es ts) (f id org))
      → Keeps (Tables es ts) (
          or_none (pg_uuid_from_string uuids event) err_event_not_found >>= λ id.
          or_none (pg_uuid_from_string uuids organizer) err_unauthorized >>= f id)
  with_ids f k =
      Keeps-bind-Yields {P = Tables es ts}
        (or_none (pg_uuid_from_string uuids event) err_event_not_found)
        (λ id. pg_uuid_from_string uuids event ≡ some id)
        (or_none-Yields (Tables es ts) (pg_uuid_from_string uuids event) err_event_not_found)
        λ id e.
          Keeps-bind-Yields {P = Tables es ts}
            (or_none (pg_uuid_from_string uuids organizer) err_unauthorized)
            (λ org. pg_uuid_from_string uuids organizer ≡ some org)
            (or_none-Yields (Tables es ts) (pg_uuid_from_string uuids organizer) err_unauthorized)
            λ org f'. k id org (foreign id org e f')

  delete_event-Keeps : Keeps (Tables es ts) (delete_event uuids event organizer)
  unfolding delete_event
  delete_event-Keeps =
      with_ids (λ id org. delete_event_row id org >> invalidate_event_cache event)
        (λ id org none. Keeps-bind (delete-Keeps id org none) λ _. invalidate-Keeps event)

  update_event-Keeps :
      (formats : Formats) (req : EventRequest)
      → Keeps (Tables es ts) (update_event uuids formats event organizer req)
  unfolding update_event
  update_event-Keeps formats req = with_ids _ λ id org none.
      Keeps-bind (Keeps-or_none (formats.parse_time req.start_date) err_start_date) λ start.
        Keeps-bind (Keeps-or_none (formats.parse_time req.end_date) err_end_date) λ end_date.
          Keeps-bind (slug-Keeps formats req.title) λ slug.
            Keeps-bind
              (Keeps-attempt (
                update-Keeps id org req.title slug start end_date (or_draft formats req.status)
                  none))
              λ r. Keeps-bind (unknown-Keeps r (message "failed to update event")) λ e.
                Keeps-bind (invalidate-Keeps event) λ _.
                  Keeps-bind
                    (Keeps-if (str_eq (formats.to_lower (or_draft formats req.status)) "published")
                      (prewarm-Keeps uuids event) (Keeps-pure tt))
                    λ _. Keeps-pure e

-- Whichever external calls fail: UpdateEvent and DeleteEvent, asked for by an organizer who has no
-- event of that id, leave every event and every ticket type as it was.
pub only_owners_change_events :
    (uuids : Uuids) (formats : Formats) (event organizer : String) (id org : ℕ) (req : EventRequest)
    (s : Platform)
    → pg_uuid_from_string uuids event ≡ some id
    → pg_uuid_from_string uuids organizer ≡ some org
    → find_owned id org s.events ≡ none
    → ((update_event uuids formats event organizer req s).1.events ≡ s.events)
      × ((update_event uuids formats event organizer req s).1.ticket_types ≡ s.ticket_types)
      × ((delete_event uuids event organizer s).1.events ≡ s.events)
      × ((delete_event uuids event organizer s).1.ticket_types ≡ s.ticket_types)
only_owners_change_events uuids formats event organizer id org req s e f none_owned =
    let foreign : Foreign uuids event organizer s.events =
      λ id' org' e' f'. ground (arith, e, f, e', f', none_owned) in
    let start : Tables s.events s.ticket_types s = record { events = refl; ticket_types = refl } in
    let updated =
      (update_event-Keeps uuids event organizer s.events s.ticket_types foreign formats req).run s
        start in
    let deleted =
      (delete_event-Keeps uuids event organizer s.events s.ticket_types foreign).run s start in
    (updated.events, updated.ticket_types, deleted.events, deleted.ticket_types)
