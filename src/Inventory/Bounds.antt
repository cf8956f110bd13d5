-- ===== src/Inventory/Bounds.antt =====
-- No ticket type is ever sold beyond its quantity, nor below zero.
use entra_api.Base.{
  ℕ, String, ◌≡◌, refl, Bool, true, Option, none, some, List, [], ◌∷◌, arith, All, Bool-cases, inl,
  inr,
}
use entra_api.Base.Int.{ℤ, pos, ◌≤ℤ◌, +ℤ_parts, -ℤ_parts, fits_int32}
use entra_api.Base.Go.{Go}
use entra_api.Base.Keeps.{Keeps, Keeps-bind}
use entra_api.Base.External.{Uuids}
use entra_api.Platform.{TicketType, Platform, external}
use entra_api.Inventory.Runs.{InventoryRules, reserve-Keeps, release-Keeps}
use entra_api.Inventory.{
  find_ticket_type, set_sold, update_found, write_sold, update_sold, increment_ticket_sold,
  decrement_ticket_sold, reserve_tickets_handler, release_tickets_handler,
}

abbrev pub IsWithin : TicketType → Type 0
IsWithin t = (pos 0 ≤ℤ t.sold) × (t.sold ≤ℤ t.quantity)

-- Every row of the table has `0 ≤ sold ≤ quantity`.
pub record SoldWithin (s : Platform) : Type 0 where
  pub rows : All IsWithin s.ticket_types

find_within :
    (id : ℕ) (t : TicketType) (ts : List TicketType)
    → All IsWithin ts
    → find_ticket_type id ts ≡ some t
    → IsWithin t
unfolding find_ticket_type
find_within id t [] h e = cc
find_within id t (u ∷ ts) h e = ground (arith, find_within id t ts h.1)

-- The bound that a new value of `sold` has to meet in the row that it is written to.
set_sold-within :
    (id : ℕ) (n : ℤ) (t : TicketType) (ts : List TicketType)
    → All IsWithin ts
    → find_ticket_type id ts ≡ some t
    → pos 0 ≤ℤ n
    → n ≤ℤ t.quantity
    → All IsWithin (set_sold id n ts)
unfolding find_ticket_type set_sold
set_sold-within id n t [] h e low high = cc
set_sold-within id n t (u ∷ ts) h e low high = ground (arith, set_sold-within id n t ts h.1)

external-SoldWithin : Keeps SoldWithin external
unfolding external
external-SoldWithin = record { run = λ s v. record { rows = v.rows } }

-- A guarded update whose guard implies the bounds of the new value.
module _ (qualifies : TicketType → Bool) (next : TicketType → ℤ)
    (keep : (t : TicketType)
      → IsWithin t
      → qualifies t ≡ true
      → (pos 0 ≤ℤ next t) × (next t ≤ℤ t.quantity)) where
  update_found-SoldWithin :
      (id : ℕ) (o : Option TicketType) (s : Platform)
      → find_ticket_type id s.ticket_types ≡ o
      → SoldWithin s
      → SoldWithin (update_found qualifies next id o s).1
  unfolding update_found
  update_found-SoldWithin id none s e v = v
  update_found-SoldWithin id (some t) s e v = elim (Bool-cases (qualifies t)) [
    | inr refused ↦ rw refused v
    | inl passed ↦ elim (Bool-cases (fits_int32 (next t))) [
      | inr big ↦ rw (passed, big) v
      | inl fits ↦
          rw (passed, fits)
            (record {
              rows =
                  let k = keep t (find_within id t s.ticket_types v.rows e) passed in
                  set_sold-within id (next t) t s.ticket_types v.rows e k.0 k.1;
            })
    ]
  ]

  write_sold-SoldWithin : (id : ℕ) → Keeps SoldWithin (write_sold qualifies next id)
  unfolding write_sold
  write_sold-SoldWithin id = record { run = λ s v. update_found-SoldWithin id _ s refl v }

  update_sold-SoldWithin : (id : ℕ) → Keeps SoldWithin (update_sold qualifies next id)
  unfolding update_sold
  update_sold-SoldWithin id = Keeps-bind external-SoldWithin λ _. write_sold-SoldWithin id

increment-SoldWithin : (id : ℕ) (n : ℤ) → pos 1 ≤ℤ n → Keeps SoldWithin (increment_ticket_sold id n)
unfolding increment_ticket_sold
increment-SoldWithin id n h =
    update_sold-SoldWithin _ _
      (λ t w g. ground (arith, +ℤ_parts t.sold n, -ℤ_parts t.quantity t.sold)) id

decrement-SoldWithin : (id : ℕ) (n : ℤ) → pos 1 ≤ℤ n → Keeps SoldWithin (decrement_ticket_sold id n)
unfolding decrement_ticket_sold
decrement-SoldWithin id n h =
    update_sold-SoldWithin _ _ (λ t w g. ground (arith, -ℤ_parts t.sold n)) id

Within-rules : InventoryRules SoldWithin
Within-rules = record {
  calls = external-SoldWithin;
  increments = increment-SoldWithin;
  decrements = decrement-SoldWithin;
}

-- The internal handlers keep `0 ≤ sold ≤ quantity` in every row, for every request, whichever
-- queries fail.
pub reserve-SoldWithin :
    (uuids : Uuids) (param : String) (n : ℤ)
    → Keeps SoldWithin (reserve_tickets_handler uuids param n)
reserve-SoldWithin = reserve-Keeps Within-rules

pub release-SoldWithin :
    (uuids : Uuids) (param : String) (n : ℤ)
    → Keeps SoldWithin (release_tickets_handler uuids param n)
release-SoldWithin = release-Keeps Within-rules

-- The calls that the ticket service makes: the first asks for a reservation, the second gives back.
pub data InventoryCall : Type 0 where
  reserves releases : String → ℤ → InventoryCall

module _ (uuids : Uuids) where
  unfoldable pub serve : InventoryCall → Go Platform ℕ
  serve (reserves param n) = reserve_tickets_handler uuids param n
  serve (releases param n) = release_tickets_handler uuids param n

  unfoldable pub serve_all : List InventoryCall → Platform → Platform
  unfolding serve
  serve_all [] s = s
  serve_all (c ∷ cs) s = serve_all cs (serve c s).1

  -- In every history of reservations and releases, of any quantities and with any failures of the
  -- database, each ticket type that starts with `0 ≤ sold ≤ quantity` ends so: nothing is oversold,
  -- and no release makes the count negative.
  pub serve_all-SoldWithin :
      (cs : List InventoryCall) (s : Platform) → SoldWithin s → SoldWithin (serve_all cs s)
  unfolding serve_all serve
  serve_all-SoldWithin [] s v = v
  serve_all-SoldWithin (reserves param n ∷ cs) s v =
      serve_all-SoldWithin cs _ ((reserve-SoldWithin uuids param n).run s v)
  serve_all-SoldWithin (releases param n ∷ cs) s v =
      serve_all-SoldWithin cs _ ((release-SoldWithin uuids param n).run s v)
