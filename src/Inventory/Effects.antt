-- ===== src/Inventory/Effects.antt =====
-- What a reservation and a release do to the table of ticket types, by the code of their response.
use entra_api.Base.{
  ℕ, String, ◌≡◌, refl, ◌⊎◌, Bool, true, false, not, ◌||◌, Option, none, some, List, [], ◌∷◌, arith,
  ◌==◌, if◌then◌else◌, Bool-cases, inl, inr, ap, sym, subst, ◌∙◌,
}
use entra_api.Base.Int.{ℤ, pos, ◌+ℤ◌, ◌-ℤ◌, leb_ℤ, ltb_ℤ, int_laws, fits_int32}
use entra_api.Base.Go.{
  Go, Error, no_rows, unavailable, message, Result, ok, err, pure, attempt, ◌>>=◌,
}
use entra_api.Base.Keeps.{
  Keeps, Ensures, Ensures-bind, Keeps-gets, Keeps-or_none, Keeps-attempt, Keeps-bind,
}
use entra_api.Base.External.{Uuids}
use entra_api.Platform.{TicketType, Platform, external}
use entra_api.Inventory.{
  find_ticket_type, find_event, set_sold, status_of_lookup, get_ticket_type_by_id, get_event_by_id,
  update_found, write_sold, update_sold, increment_ticket_sold, decrement_ticket_sold,
  reserve_found, event_closed, is_before, is_after, status_of_update, reserve_tickets_handler,
  release_tickets_handler,
}

-- The table of ticket types is as before.
record Same (before : List TicketType) (s : Platform) : Type 0 where
  types : s.ticket_types ≡ before

-- The response is 200 and the row has the new count, or it is another one and no row has changed.
abbrev pub Effect : (ℤ → ℤ) → ℕ → List TicketType → Result ℕ × Platform → Type 0
Effect next id before (ok code, s) =
    ((code ≡ 200)
      × ((t : TicketType) × (find_ticket_type id before ≡ some t)
          × (s.ticket_types ≡ set_sold id (next t.sold) before)))
    ⊎ (((code == 200) ≡ false) × (s.ticket_types ≡ before))
Effect next id before (err e, s) = s.ticket_types ≡ before

module _ (before : List TicketType) where
  external-Same : Keeps (Same before) external
  unfolding external
  external-Same = record { run = λ s h. record { types = h.types } }

  get_ticket_type-Same : (id : ℕ) → Keeps (Same before) (get_ticket_type_by_id id)
  unfolding get_ticket_type_by_id
  get_ticket_type-Same id = Keeps-bind external-Same λ _.
      Keeps-bind (Keeps-gets (λ s. s.ticket_types))
        λ types. Keeps-or_none (find_ticket_type id types) no_rows

  get_event-Same : (id : ℕ) → Keeps (Same before) (get_event_by_id id)
  unfolding get_event_by_id
  get_event-Same id = Keeps-bind external-Same λ _.
      Keeps-bind (Keeps-gets (λ s. s.events)) λ events. Keeps-or_none (find_event id events) no_rows

  module _ (next : ℤ → ℤ) (id : ℕ) where
    Ensures-refused :
        (code : ℕ)
        → (code == 200) ≡ false
        → Ensures (Same before) (Effect next id before) (pure code)
    Ensures-refused code e = record { run = λ s h. inr (e, h.types) }

    Ensures-failed :
        (e : Error)
        → Ensures (Same before) (Effect next id before) (pure (status_of_lookup (err e)))
    Ensures-failed no_rows = Ensures-refused 404 refl
    Ensures-failed unavailable = Ensures-refused 500 refl
    Ensures-failed (message m) = Ensures-refused 500 refl

    written :
        (qualifies : TicketType → Bool) (o : Option TicketType) (s : Platform)
        → find_ticket_type id before ≡ o
        → Same before s
        → Effect next id before (
            (do
              r ← attempt (λ s. update_found qualifies (λ t. next t.sold) id o s)
              pure (status_of_update r))
              s)
    unfolding update_found
    written qualifies none s e h = inr (refl, h.types)
    written qualifies (some t) s e h = elim (Bool-cases (qualifies t)) [
      | inr failed ↦ rw failed (inr (refl, h.types))
      | inl passed ↦ elim (Bool-cases (fits_int32 (next t.sold))) [
        | inr big ↦ rw (passed, big) (inr (refl, h.types))
        | inl fits ↦ rw (passed, fits) (inl (refl, (t, e, ap (set_sold id (next t.sold)) h.types)))
      ]
    ]

    called :
        (qualifies : TicketType → Bool) (r : Result (Unit {0}) × Platform)
        → Same before r.1
        → Effect next id before (
            (do
              u ← attempt (◌>>=◌ (λ _. r) (λ _. write_sold qualifies (λ t. next t.sold) id))
              pure (status_of_update u))
              r.1)
    unfolding write_sold
    called qualifies (ok _, s) h = written qualifies _ s (ap (find_ticket_type id) (sym h.types)) h
    called qualifies (err no_rows, s) h = inr (refl, h.types)
    called qualifies (err unavailable, s) h = inr (refl, h.types)
    called qualifies (err (message m), s) h = inr (refl, h.types)

    Ensures-updated :
        (qualifies : TicketType → Bool)
        → Ensures (Same before) (Effect next id before) (do
          u ← attempt (update_sold qualifies (λ t. next t.sold) id)
          pure (status_of_update u))
    unfolding update_sold
    Ensures-updated qualifies = record {
      run = λ s h. called qualifies (external s) (external-Same.run s h);
    }

Ensures-if :
    {A : Type 0} {P : Platform → Type 0} {Q : Result A × Platform → Type 0} (c : Bool)
    {m n : Go Platform A}
    → Ensures P Q m
    → Ensures P Q n
    → Ensures P Q (if c then m else n)
Ensures-if true k l = k
Ensures-if false k l = l

module _ (before : List TicketType) (id : ℕ) (n : ℤ) where
  reserve_found-Effect :
      (t : TicketType)
      → Ensures (Same before) (Effect (λ m. m +ℤ n) id before) (reserve_found id n t)
  unfolding reserve_found increment_ticket_sold
  reserve_found-Effect t =
      Ensures-bind (Keeps-gets (λ s. s.env.now)) (λ e s h. h.types)
        λ now.
          Ensures-if (not t.is_active || (is_before now t.sale_start || is_after now t.sale_end))
            (Ensures-refused before _ id 409 refl)
            (Ensures-bind (Keeps-attempt (get_event-Same before t.event_id)) (λ e s h. h.types)
              λ event.
                Ensures-if (event_closed now event) (Ensures-refused before _ id 409 refl)
                  (Ensures-updated before (λ m. m +ℤ n) id (λ t. leb_ℤ n (t.quantity -ℤ t.sold))))

  found-Effect :
      (r : Result TicketType)
      → Ensures
          (Same before)
          (Effect (λ m. m +ℤ n) id before)
          (elim r [ ok t ↦ reserve_found id n t | err e ↦ pure (status_of_lookup (err e)) ])
  found-Effect (ok t) = reserve_found-Effect t
  found-Effect (err e) = Ensures-failed before _ id e

  parsed-Effect : Ensures (Same before) (Effect (λ m. m +ℤ n) id before) (
      if ltb_ℤ n (pos 1) then pure 422 else do
        r ← attempt (get_ticket_type_by_id id)
        elim r [ ok t ↦ reserve_found id n t | err e ↦ pure (status_of_lookup (err e)) ])
  parsed-Effect = Ensures-if (ltb_ℤ n (pos 1)) (Ensures-refused before _ id 422 refl) (
      Ensures-bind (Keeps-attempt (get_ticket_type-Same before id)) (λ e s h. h.types) found-Effect)

  released-Effect : Ensures (Same before) (Effect (λ m. m -ℤ n) id before) (
      if ltb_ℤ n (pos 1)
      then pure 422
      else do r ← attempt (decrement_ticket_sold id n); pure (status_of_update r))
  unfolding decrement_ticket_sold
  released-Effect =
      Ensures-if (ltb_ℤ n (pos 1)) (Ensures-refused before _ id 422 refl)
        (Ensures-updated before (λ m. m -ℤ n) id (λ t. leb_ℤ n t.sold))

-- The handlers after the parameter is parsed.
abbrev reserve_parsed : ℤ → Option ℕ → Go Platform ℕ
reserve_parsed n none = pure 422
reserve_parsed n (some id) = if ltb_ℤ n (pos 1) then pure 422 else do
  r ← attempt (get_ticket_type_by_id id)
  elim r [ ok t ↦ reserve_found id n t | err e ↦ pure (status_of_lookup (err e)) ]

abbrev release_parsed : ℤ → Option ℕ → Go Platform ℕ
release_parsed n none = pure 422
release_parsed n (some id) =
    if ltb_ℤ n (pos 1)
    then pure 422
    else do r ← attempt (decrement_ticket_sold id n); pure (status_of_update r)

-- For a well-formed id and every pattern of failures, `ReserveTickets` answers 200 exactly where
-- it has added the quantity to the count of the ticket type, and with any other answer it has
-- changed no row; `ReleaseTickets` likewise, where it has subtracted the quantity.
pub handlers_all_or_nothing :
    (uuids : Uuids) (param : String) (id : ℕ) (n : ℤ) (s : Platform)
    → uuids.parse param ≡ some id
    → Effect (λ m. m +ℤ n) id s.ticket_types (reserve_tickets_handler uuids param n s)
      × Effect (λ m. m -ℤ n) id s.ticket_types (release_tickets_handler uuids param n s)
unfolding reserve_tickets_handler release_tickets_handler
handlers_all_or_nothing uuids param id n s e = (
  subst (λ o. Effect (λ m. m +ℤ n) id s.ticket_types (reserve_parsed n o s)) (sym e)
      ((parsed-Effect s.ticket_types id n).run s (record { types = refl })),
  subst (λ o. Effect (λ m. m -ℤ n) id s.ticket_types (release_parsed n o s)) (sym e)
      ((released-Effect s.ticket_types id n).run s (record { types = refl })),
)

set_sold-twice :
    (id : ℕ) (m n : ℤ) (ts : List TicketType) → set_sold id m (set_sold id n ts) ≡ set_sold id m ts
unfolding set_sold
set_sold-twice id m n [] = refl
set_sold-twice id m n (t ∷ ts) = ground (arith, set_sold-twice id m n ts)

set_sold-same :
    (id : ℕ) (t : TicketType) (ts : List TicketType)
    → find_ticket_type id ts ≡ some t
    → set_sold id t.sold ts ≡ ts
unfolding set_sold find_ticket_type
set_sold-same id t [] h = refl
set_sold-same id t (u ∷ us) h = ground (arith, set_sold-same id t us)

find-set_sold :
    (id : ℕ) (n : ℤ) (t : TicketType) (ts : List TicketType)
    → find_ticket_type id ts ≡ some t
    → find_ticket_type id (set_sold id n ts) ≡ some (record t { sold = n })
unfolding set_sold find_ticket_type
find-set_sold id n t [] h = ground arith
find-set_sold id n t (u ∷ us) h = ground (arith, find-set_sold id n t us)

abbrev sold_or : ℤ → Option TicketType → ℤ
sold_or m none = m
sold_or m (some t) = t.sold

+ℤ_-ℤ : (m n : ℤ) → m +ℤ n -ℤ n ≡ m
+ℤ_-ℤ m n = omega int_laws

-- A count that goes up and down again.
effects_cancel :
    (id : ℕ) (n : ℤ) (before : List TicketType) (r r' : Result ℕ × Platform)
    → Effect (λ m. m +ℤ n) id before r
    → Effect (λ m. m -ℤ n) id r.1.ticket_types r'
    → r.0 ≡ ok 200
    → r'.0 ≡ ok 200
    → r'.1.ticket_types ≡ before
effects_cancel id n before (ok a, s) (ok b, s') (inl (c, (t, h, e))) (inl (d, (u, k, f))) ea eb =
    let was = sym k ∙ ap (find_ticket_type id) e ∙ find-set_sold id (t.sold +ℤ n) t before h in
    let sold : u.sold ≡ t.sold +ℤ n = ap (sold_or t.sold) was in
    f
    ∙ ap (λ m. set_sold id (m -ℤ n) s.ticket_types) sold
    ∙ ap (set_sold id (t.sold +ℤ n -ℤ n)) e
    ∙ set_sold-twice id (t.sold +ℤ n -ℤ n) (t.sold +ℤ n) before
    ∙ ap (λ m. set_sold id m before) (+ℤ_-ℤ t.sold n)
    ∙ set_sold-same id t before h
effects_cancel id n before (ok a, s) (ok b, s') (inr (c, e)) k ea eb =
    absurd (ground (arith, c, ea))
effects_cancel id n before (ok a, s) (ok b, s') (inl h) (inr (c, e)) ea eb =
    absurd (ground (arith, c, eb))
effects_cancel id n before (err _, s) r' h k ea eb = absurd (ground arith)
effects_cancel id n before (ok a, s) (err _, s') h k ea eb = absurd (ground arith)

-- For a well-formed id, a reservation that is answered with 200 and a release of the same quantity
-- right after it that is answered with 200 leave every row as it was, whatever calls fail in
-- either.
pub reserve_release_roundtrip :
    (uuids : Uuids) (param : String) (id : ℕ) (n : ℤ) (s : Platform)
    → uuids.parse param ≡ some id
    → (reserve_tickets_handler uuids param n s).0 ≡ ok 200
    → (release_tickets_handler uuids param n (reserve_tickets_handler uuids param n s).1).0 ≡ ok 200
    → (release_tickets_handler uuids param n
        (reserve_tickets_handler uuids param n s).1).1.ticket_types
      ≡ s.ticket_types
reserve_release_roundtrip uuids param id n s e =
    effects_cancel id n s.ticket_types _ _ (handlers_all_or_nothing uuids param id n s e).0
      (handlers_all_or_nothing uuids param id n (reserve_tickets_handler uuids param n s).1 e).1
