-- ===== src/Queue/Turns.antt =====
-- Whose turn it is after `AdvanceQueue`, where no call fails.
use entra_api.Base.{
  ℕ, String, ◌≡◌, refl, true, Option, none, some, List, [], ◌∷◌, arith, str_eq, if◌then◌else◌,
  Bool-cases, Option-cases, inl, inr,
}
use entra_api.Base.Go.{Result, ok}
use entra_api.Base.External.{Uuids}
use entra_api.Platform.{Order, Platform, external, put_event}
use entra_api.Platform.Calm.{calm_redis}
use entra_api.Tables.{
  find_order, get_order, move_deadline, set_active, set_expires_at, clear_slot, set_waiting,
}
use entra_api.Queue.{take_slot, advance_loop, advance_queue}

-- The state at a time with no failures to come, and with waiting lists.
abbrev pub still : (ℕ → List String) → ℕ → Platform → Platform
still waiting now s = record s {
  env = record { now = now; script = [] };
  redis = record s.redis { waiting = waiting };
}

module _ (uuids : Uuids) where
  -- The first entry whose order is pending, and the entries behind it. An empty entry ends the search.
  pub next_turn : List Order → List String → Option String × List String
  next_turn orders [] = (none, [])
  next_turn orders (x ∷ xs) =
      let later = next_turn orders xs in
      if str_eq x "" then (none, xs) else elim (uuids.parse x) [
        | none ↦ later
        | some id ↦ elim (find_order id orders) [
          | none ↦ later
          | some o ↦ if str_eq o.status "PENDING" then (some x, xs) else later
        ]
      ]

  abbrev Turned : ℕ → Option String × List String → Result (Option String) × Platform → Type 0
  Turned event next (r, s) =
      (s.redis.active event ≡ next.0) × (s.redis.waiting event ≡ next.1) × (r ≡ ok next.0)

  put_event_self :
      (event : ℕ) (xs : List String) (w : ℕ → List String) → put_event event xs w event ≡ xs
  put_event_self event xs w = ground arith

  loop_turn :
      (event : ℕ) (xs : List String) (w : ℕ → List String) (now : ℕ) (s : Platform)
      → w event ≡ xs
      → Turned event (next_turn s.orders xs) (advance_loop uuids event xs (still w now s))
  unfolding advance_loop next_turn external take_slot get_order clear_slot set_active set_expires_at
      move_deadline set_waiting
  loop_turn event [] w now s h = (ground arith, ground arith, refl)
  loop_turn event (x ∷ xs) w now s h =
      let later = loop_turn event xs (put_event event xs w) now s (put_event_self event xs w) in
      elim (Bool-cases (str_eq x "")) [
        | inl blank ↦ rw blank (ground arith, ground arith, refl)
        | inr text ↦ rw text elim (Option-cases (uuids.parse x)) [
          | inl bad ↦ rw bad later
          | inr (id, good) ↦ rw good elim (Option-cases (find_order id s.orders)) [
            | inl gone ↦ rw gone later
            | inr (o, found) ↦ rw found elim (Bool-cases (str_eq o.status "PENDING")) [
              | inl pending ↦ rw pending (ground arith, ground arith, refl)
              | inr done ↦ rw done later
            ]
          ]
        ]
      ]

-- With Redis, and where no call fails, `AdvanceQueue` gives the slot to the first entry of the
-- waiting list whose order is pending, and leaves the entries behind it, in their order; where
-- there is none, or an empty entry stands before it, it frees the slot. It returns the order that
-- it promoted.
pub advance_queue-next_turn :
    (uuids : Uuids) (event : ℕ) (s : Platform)
    → s.env.script ≡ []
    → s.redis_on ≡ true
    → ((advance_queue uuids event s).1.redis.active event
        ≡ (next_turn uuids s.orders (s.redis.waiting event)).0)
      × ((advance_queue uuids event s).1.redis.waiting event
          ≡ (next_turn uuids s.orders (s.redis.waiting event)).1)
      × ((advance_queue uuids event s).0 ≡ ok (next_turn uuids s.orders (s.redis.waiting event)).0)
unfolding advance_queue
advance_queue-next_turn uuids event s quiet on =
    calm_redis
      (λ t.
        Turned uuids event (next_turn uuids t.orders (t.redis.waiting event))
          (advance_queue uuids event t))
      s true quiet on
      (loop_turn uuids event (s.redis.waiting event) s.redis.waiting s.env.now
        (record s { redis_on = true }) refl)
