-- ===== src/Inventory/Runs.antt =====
-- What the internal handlers keep, from what their queries keep.
use entra_api.Base.{
  ℕ, ◌≤◌, length, String, ◌≡◌, ◌⊎◌, Bool, true, false, Option, none, some, List, arith,
  if◌then◌else◌, Bool-cases, inl, inr, not, ◌||◌,
}
use entra_api.Base.Int.{ℤ, pos, ◌≤ℤ◌, ltb_ℤ, fits_int32}
use entra_api.Base.Go.{no_rows, Result, Env, ok, err, pure, attempt, ◌>>=◌}
use entra_api.Base.Keeps.{
  call_shorter, le_same, Keeps, Keeps-pure, Keeps-gets, Keeps-or_none, Keeps-attempt, Keeps-bind,
  Keeps-if,
}
use entra_api.Base.External.{Uuids}
use entra_api.Platform.{TicketType, Platform, external}
use entra_api.Inventory.{
  find_ticket_type, find_event, status_of_lookup, get_ticket_type_by_id, get_event_by_id,
  update_found, write_sold, update_sold, increment_ticket_sold, decrement_ticket_sold,
  reserve_found, event_closed, is_before, is_after, status_of_update, reserve_tickets_handler,
  release_tickets_handler,
}

-- A property that each query keeps, for quantities of at least 1.
pub record InventoryRules (P : Platform → Type 0) : Type 0 where
  pub calls : Keeps P external
  pub increments : (id : ℕ) (n : ℤ) → pos 1 ≤ℤ n → Keeps P (increment_ticket_sold id n)
  pub decrements : (id : ℕ) (n : ℤ) → pos 1 ≤ℤ n → Keeps P (decrement_ticket_sold id n)

at_least_one : (n : ℤ) → ltb_ℤ n (pos 1) ≡ false → pos 1 ≤ℤ n
at_least_one n h = ground arith

module _ {P : Platform → Type 0} (rules : InventoryRules P) where
  open rules use {calls, increments, decrements}

  get_ticket_type-Keeps : (id : ℕ) → Keeps P (get_ticket_type_by_id id)
  unfolding get_ticket_type_by_id
  get_ticket_type-Keeps id = Keeps-bind calls λ _.
      Keeps-bind (Keeps-gets (λ s. s.ticket_types))
        λ types. Keeps-or_none (find_ticket_type id types) no_rows

  get_event-Keeps : (id : ℕ) → Keeps P (get_event_by_id id)
  unfolding get_event_by_id
  get_event-Keeps id = Keeps-bind calls λ _.
      Keeps-bind (Keeps-gets (λ s. s.events)) λ events. Keeps-or_none (find_event id events) no_rows

  reserve_found-Keeps :
      (id : ℕ) (n : ℤ) (t : TicketType) → pos 1 ≤ℤ n → Keeps P (reserve_found id n t)
  unfolding reserve_found
  reserve_found-Keeps id n t h = Keeps-bind (Keeps-gets (λ s. s.env.now)) λ now.
      Keeps-if (not t.is_active || (is_before now t.sale_start || is_after now t.sale_end))
        (Keeps-pure 409)
        (Keeps-bind (Keeps-attempt (get_event-Keeps t.event_id)) λ event.
          Keeps-if (event_closed now event) (Keeps-pure 409)
            (Keeps-bind (Keeps-attempt (increments id n h)) λ r. Keeps-pure (status_of_update r)))

  pub reserve-Keeps :
      (uuids : Uuids) (param : String) (n : ℤ) → Keeps P (reserve_tickets_handler uuids param n)
  unfolding reserve_tickets_handler
  reserve-Keeps uuids param n = parsed (uuids.parse param) (Bool-cases (ltb_ℤ n (pos 1)))
    where
      found :
          (id : ℕ) (r : Result TicketType)
          → pos 1 ≤ℤ n
          → Keeps P
              (elim r [ ok t ↦ reserve_found id n t | err e ↦ pure (status_of_lookup (err e)) ])
      found id (ok t) h = reserve_found-Keeps id n t h
      found id (err e) h = Keeps-pure (status_of_lookup (err e))

      parsed :
          (o : Option ℕ)
          → (ltb_ℤ n (pos 1) ≡ true) ⊎ (ltb_ℤ n (pos 1) ≡ false)
          → Keeps {A = ℕ} P (elim o [
            | none ↦ pure 422
            | some id ↦ if ltb_ℤ n (pos 1) then pure 422 else do
              r ← attempt (get_ticket_type_by_id id)
              elim r [ ok t ↦ reserve_found id n t | err e ↦ pure (status_of_lookup (err e)) ]
          ])
      parsed none c = Keeps-pure 422
      parsed (some id) (inl small) = rw small (Keeps-pure 422)
      parsed (some id) (inr enough) = rw enough (
          Keeps-bind (Keeps-attempt (get_ticket_type-Keeps id))
            λ r. found id r (at_least_one n enough))

  pub release-Keeps :
      (uuids : Uuids) (param : String) (n : ℤ) → Keeps P (release_tickets_handler uuids param n)
  unfolding release_tickets_handler
  release-Keeps uuids param n = parsed (uuids.parse param) (Bool-cases (ltb_ℤ n (pos 1)))
    where
      parsed :
          (o : Option ℕ)
          → (ltb_ℤ n (pos 1) ≡ true) ⊎ (ltb_ℤ n (pos 1) ≡ false)
          → Keeps {A = ℕ} P (elim o [
            | none ↦ pure 422
            | some id ↦
                if ltb_ℤ n (pos 1)
                then pure 422
                else do r ← attempt (decrement_ticket_sold id n); pure (status_of_update r)
          ])
      parsed none c = Keeps-pure 422
      parsed (some id) (inl small) = rw small (Keeps-pure 422)
      parsed (some id) (inr enough) = rw enough (
          Keeps-bind (Keeps-attempt (decrements id n (at_least_one n enough)))
            λ r. Keeps-pure (status_of_update r))

-- A property is kept that survives any change of the clock and of the table of ticket types, and a
-- script that gets no longer.
module _ (P : Platform → Type 0)
    (closed : (s : Platform) (e : Env) (types : List TicketType)
      → length e.script ≤ length s.env.script
      → P s
      → P (record s { env = e; ticket_types = types })) where
  external-frame : Keeps P external
  unfolding external
  external-frame = record { run = λ s v. closed s _ s.ticket_types (call_shorter s.env) v }

  update_found-frame :
      (qualifies : TicketType → Bool) (next : TicketType → ℤ) (id : ℕ) (o : Option TicketType)
      (s : Platform)
      → P s
      → P (update_found qualifies next id o s).1
  unfolding update_found
  update_found-frame qualifies next id none s v = v
  update_found-frame qualifies next id (some t) s v = elim (Bool-cases (qualifies t)) [
    | inr refused ↦ rw refused v
    | inl passed ↦ elim (Bool-cases (fits_int32 (next t))) [
      | inr big ↦ rw (passed, big) v
      | inl fits ↦ rw (passed, fits) (closed s s.env _ (le_same _) v)
    ]
  ]

  write_sold-frame :
      (qualifies : TicketType → Bool) (next : TicketType → ℤ) (id : ℕ)
      → Keeps P (write_sold qualifies next id)
  unfolding write_sold
  write_sold-frame qualifies next id = record {
    run = λ s v. update_found-frame qualifies next id _ s v;
  }

  increment-frame : (id : ℕ) (n : ℤ) → pos 1 ≤ℤ n → Keeps P (increment_ticket_sold id n)
  unfolding increment_ticket_sold update_sold
  increment-frame id n h = Keeps-bind external-frame λ _. write_sold-frame _ _ id

  decrement-frame : (id : ℕ) (n : ℤ) → pos 1 ≤ℤ n → Keeps P (decrement_ticket_sold id n)
  unfolding decrement_ticket_sold update_sold
  decrement-frame id n h = Keeps-bind external-frame λ _. write_sold-frame _ _ id

  pub inventory-frame : InventoryRules P
  inventory-frame = record {
    calls = external-frame;
    increments = increment-frame;
    decrements = decrement-frame;
  }
