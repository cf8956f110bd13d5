-- ===== src/Queue/Fresh.antt =====
-- After `AdvanceQueue` the slot is free, or its time begins: where no call fails, the order that holds
-- it has not timed out.
use entra_api.Base.{
  ℕ, ◌+◌, String, ◌≡◌, refl, ◌⊎◌, true, false, none, some, List, [], ◌∷◌, arith, str_eq, Bool-cases,
  Option-cases, inl, inr,
}
use entra_api.Base.External.{Uuids}
use entra_api.Platform.{Platform, external, put_event}
use entra_api.Platform.Calm.{calm_redis}
use entra_api.Tables.{
  find_order, get_order, move_deadline, set_active, set_expires_at, clear_slot, set_waiting,
}
use entra_api.Queue.{take_slot, advance_loop, advance_queue, queue_active_duration, unix}
use entra_api.Queue.Turns.{still}

-- The slot is free, or it was taken at this moment.
pub record Fresh (event : ℕ) (s : Platform) : Type 0 where
  pub quiet : s.env.script ≡ []
  pub slot :
      (s.redis.active event ≡ none)
      ⊎ (s.redis.expires_at event ≡ some (unix (s.env.now + queue_active_duration)))

put_event_self : {A : Type 0} (event : ℕ) (v : A) (f : ℕ → A) → put_event event v f event ≡ v
put_event_self event v f = ground arith

module _ (uuids : Uuids) where
  loop-Fresh :
      (event : ℕ) (xs : List String) (w : ℕ → List String) (now : ℕ) (s : Platform)
      → Fresh event (advance_loop uuids event xs (still w now s)).1
  unfolding advance_loop external take_slot get_order clear_slot set_active set_expires_at
      move_deadline set_waiting
  loop-Fresh event [] w now s = record {
    quiet = refl;
    slot = inl (put_event_self event none s.redis.active);
  }
  loop-Fresh event (x ∷ xs) w now s =
      let later = loop-Fresh event xs (put_event event xs w) now s in
      elim (Bool-cases (str_eq x "")) [
        | inl blank ↦
            rw blank
              (record { quiet = refl; slot = inl (put_event_self event none s.redis.active) })
        | inr text ↦ rw text elim (Option-cases (uuids.parse x)) [
          | inl bad ↦ rw bad later
          | inr (id, good) ↦ rw good elim (Option-cases (find_order id s.orders)) [
            | inl gone ↦ rw gone later
            | inr (o, found) ↦ rw found elim (Bool-cases (str_eq o.status "PENDING")) [
              | inl pending ↦ rw pending (record {
                quiet = refl;
                slot = inr (
                    put_event_self event (some (unix (now + queue_active_duration)))
                      s.redis.expires_at);
              })
              | inr done ↦ rw done later
            ]
          ]
        ]
      ]

  -- With Redis or without it.
  pub advance_queue-Fresh :
      (event : ℕ) (s : Platform)
      → s.env.script ≡ []
      → ((advance_queue uuids event s).1.redis_on ≡ false)
        ⊎ Fresh event (advance_queue uuids event s).1
  unfolding advance_queue
  advance_queue-Fresh event s quiet = elim (Bool-cases s.redis_on) [
    | inr off ↦
        inl (
          calm_redis (λ t. (advance_queue uuids event t).1.redis_on ≡ false) s false quiet off refl)
    | inl on ↦ inr (
        calm_redis (λ t. Fresh event (advance_queue uuids event t).1) s true quiet on
          (loop-Fresh event (s.redis.waiting event) s.redis.waiting s.env.now
            (record s { redis_on = true })))
  ]
