-- ===== src/Payments/Live.antt =====
-- The order that `CreatePaymentToken` has read, and `CheckAndAdvanceExpiredActive`.
use entra_api.Base.{
  ℕ, String, ◌≡◌, ◌≢◌, refl, ◌⊎◌, Bool, true, false, ◌&&◌, ◌==◌, Option, none, some, [], ltb, leb,
  arith, inl, inr, Bool-cases, Option-cases, if◌then◌else◌, str_eq,
}
use entra_api.Base.Go.{Go, ignore, ok, ◌>>=◌, ◌>>◌}
use entra_api.Base.Keeps.{Keeps, Keeps-bind, Keeps-if, Keeps-ignore, Keeps-pure}
use entra_api.Base.External.{Uuids}
use entra_api.Platform.{Platform, external, order_cancelled}
use entra_api.Platform.Calm.{calm_redis, with_script}
use entra_api.Tables.{
  get_order, update_order_status, list_order_items, publish, get_active, get_expires, or_empty,
}
use entra_api.Queue.{unix}
use entra_api.Cancel.{read_active, release_items, leave_queue, cancel_order}
use entra_api.WaitingRoom.{expiry_of, read_expires, check_and_advance}
use entra_api.Payments.Kept.{
  StillPending, get_order-StillPending, update_status-StillPending, list_items-StillPending,
  release_items-StillPending, publish-StillPending, leave_queue-StillPending, advance-StillPending,
  count_waiting-StillPending,
}

abbrev active_in : ℕ → Platform → String
active_in event s = or_empty (s.redis.active event)

abbrev late_in : ℕ → Platform → Bool
late_in event s =
    ltb 0 (expiry_of (ok (s.redis.expires_at event)))
    && leb (expiry_of (ok (s.redis.expires_at event))) (unix s.env.now)

-- The order holds the slot of the event, and its time there is over.
abbrev pub HeldTimedOut : Uuids → ℕ → ℕ → Platform → Type 0
HeldTimedOut uuids event id s =
    (uuids.parse (or_empty (s.redis.active event)) ≡ some id)
    × (ltb 0 (expiry_of (ok (s.redis.expires_at event)))
          && leb (expiry_of (ok (s.redis.expires_at event))) (unix s.env.now)
        ≡ true)

-- `CancelOrder` once the id is parsed.
abbrev cancel_row : Uuids → String → ℕ → Go Platform (Unit {0})
cancel_row uuids x j = do
  order ← get_order j
  update_order_status j "CANCELLED"
  items ← list_order_items j
  release_items uuids items
  ignore (publish (order_cancelled x))
  leave_queue uuids order.event_id x

module _ (uuids : Uuids) (id : ℕ) where
  cancel_row-StillPending :
      (x : String) (j : ℕ) → j ≢ id → Keeps (StillPending id) (cancel_row uuids x j)
  cancel_row-StillPending x j other = Keeps-bind (get_order-StillPending uuids id j) λ order.
      Keeps-bind (update_status-StillPending uuids id j "CANCELLED" other) λ _.
        Keeps-bind (list_items-StillPending uuids id j) λ items.
          Keeps-bind (release_items-StillPending uuids id items) λ _.
            Keeps-bind (Keeps-ignore (publish-StillPending uuids id (order_cancelled x)))
              λ _. leave_queue-StillPending uuids id order.event_id x

  -- Another order is cancelled.
  cancel_other-StillPending :
      (x : String)
      → ((j : ℕ) → uuids.parse x ≡ some j → j ≢ id)
      → Keeps (StillPending id) (cancel_order uuids x)
  unfolding cancel_order
  cancel_other-StillPending x other = elim (Option-cases (uuids.parse x)) [
    | inl bad ↦ rw bad record { run = λ s h. h }
    | inr (j, good) ↦ rw good record { run = (cancel_row-StillPending x j (other j good)).run }
  ]

  run_if :
      (c : Bool) (m n : Go Platform (Unit {0})) (s : Platform)
      → (c ≡ true → StillPending id (m s).1)
      → (c ≡ false → StillPending id (n s).1)
      → StillPending id ((if c then m else n) s).1
  run_if true m n s h k = h refl
  run_if false m n s h k = k refl

  -- Where no call fails, an order that is not the one to cancel stays pending.
  advanced :
      (event : ℕ) (s : Platform)
      → (late_in event s ≡ true → (j : ℕ) → uuids.parse (active_in event s) ≡ some j → j ≢ id)
      → StillPending id s
      → StillPending id
          (check_and_advance uuids event (record (with_script [] s) { redis_on = true })).1
  unfolding check_and_advance read_active read_expires get_active get_expires external
  advanced event s other h =
      run_if (str_eq (active_in event s) "") _ _ _
        (λ blank.
          (Keeps-bind (count_waiting-StillPending uuids id event) λ n.
              Keeps-if (ltb 0 n) (Keeps-ignore (advance-StillPending uuids id event))
                (Keeps-pure tt)).run
            _ h)
        (λ text.
          run_if (late_in event s) _ _ _
            (λ late.
              (Keeps-bind
                  (Keeps-ignore (cancel_other-StillPending (active_in event s) (other late)))
                  λ _. Keeps-ignore (advance-StillPending uuids id event)).run
                _ h)
            (λ timely. h))

  is_other : (o : Option ℕ) → (o ≡ some id) ⊎ ((j : ℕ) → o ≡ some j → j ≢ id)
  is_other none = inr λ j e. absurd (ground (arith, e))
  is_other (some i) = elim (Bool-cases (i == id)) [
    | inl same ↦ inl (ground (arith, same))
    | inr differs ↦ inr λ j e same. ground (arith, differs, e, same)
  ]

-- Where no call fails, the order still is pending afterwards, unless it held the slot and had
-- timed out.
pub check_and_advance-StillPending :
    (uuids : Uuids) (event id : ℕ) (s : Platform)
    → s.env.script ≡ []
    → s.redis_on ≡ true
    → StillPending id s
    → HeldTimedOut uuids event id s ⊎ StillPending id (check_and_advance uuids event s).1
check_and_advance-StillPending uuids event id s quiet on h =
    calm_redis
      (λ t.
        StillPending id t
        → HeldTimedOut uuids event id t ⊎ StillPending id (check_and_advance uuids event t).1)
      s true quiet on
      (λ h. elim (is_other uuids id (uuids.parse (active_in event s))) [
        | inl own ↦ elim (Bool-cases (late_in event s)) [
          | inl late ↦ inl (own, late)
          | inr timely ↦
              inr (advanced uuids id event s (λ late. absurd (ground (arith, late, timely))) h)
        ]
        | inr other ↦ inr (advanced uuids id event s (λ _. other) h)
      ])
      h
