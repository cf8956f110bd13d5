-- ===== src/Payments/Turn.antt =====
-- Whose order may be paid: what a successful `CreatePaymentToken` has checked.
use entra_api.Base.{
  ℕ, String, ◌≡◌, refl, ◌⊎◌, Bool, true, false, not, ◌&&◌, [], arith, str_eq, eq_iff, inl, inr, sym,
  subst, Bool-cases, Option, none, some,
}
use entra_api.Base.Go.{
  Go, Error, no_rows, or_none, Result, ok, err, pure, fail_if, when, ◌>>=◌, ◌>>◌,
}
use entra_api.Base.Keeps.{bind_post}
use entra_api.Base.External.{Uuids}
use entra_api.Platform.{Order, Platform, external}
use entra_api.Platform.Calm.{calm, calm_redis, with_script}
use entra_api.Tables.{find_order, get_order, get_active, or_empty}
use entra_api.Cancel.{err_invalid_uuid, read_active}
use entra_api.WaitingRoom.{check_and_advance}
use entra_api.Payments.Kept.{StillPending, pending_row}
use entra_api.Payments.Live.{HeldTimedOut, check_and_advance-StillPending}
use entra_api.WaitingRoom.Fuel.{Within, Within-rules, Within-empty}
use entra_api.Payments.{
  check_turn, wait_turn, check_pending, check_payer, payable_order, err_not_owner, err_not_pending,
  err_not_your_turn,
}
use entra_api.Safety.Queues.{check_and_advance-Keeps}

-- The table had the order pending when the call began, it is the user's, no other order holds the
-- slot of its event now, and it still is pending, unless it held the slot itself and had timed out.
abbrev pub MayPay : Uuids → String → String → Platform → Result Order × Platform → Type 0
MayPay uuids x user before (ok o, s) =
    (id : ℕ) × (uuids.parse x ≡ some id)
    × (find_order id before.orders ≡ some o)
    × (o.status ≡ "PENDING")
    × ((user ≡ "") ⊎ (uuids.to_string o.user_id ≡ user))
    × ((or_empty (s.redis.active o.event_id) ≡ "")
        ⊎ (or_empty (s.redis.active o.event_id) ≡ uuids.to_string o.id))
    × (HeldTimedOut uuids o.event_id id before ⊎ StillPending id s)
MayPay uuids x user before (err _, s) = Unit {0}

-- The slot of the event is free, or the order's.
abbrev HasTurn : Uuids → Order → Platform → Type 0
HasTurn uuids o s =
    (or_empty (s.redis.active o.event_id) ≡ "")
    ⊎ (or_empty (s.redis.active o.event_id) ≡ uuids.to_string o.id)

-- Where the run succeeds, the state has the property.
abbrev WhereOk : (Platform → Type 0) → Result (Unit {0}) × Platform → Type 0
WhereOk P (ok _, s) = P s
WhereOk P (err _, s) = Unit {0}

either : (a b : String) → not (str_eq a "") && not (str_eq a b) ≡ false → (a ≡ "") ⊎ (a ≡ b)
either a b h = elim (Bool-cases (str_eq a "")) [
  | inl blank ↦ inl (ground (arith, eq_iff a "", blank))
  | inr text ↦ inr (ground (arith, eq_iff a b, text, h))
]

owner_of :
    (user owner : String)
    → not (str_eq user "") && not (str_eq owner user) ≡ false
    → (user ≡ "") ⊎ (owner ≡ user)
owner_of user owner h = elim (Bool-cases (str_eq user "")) [
  | inl blank ↦ inl (ground (arith, eq_iff user "", blank))
  | inr text ↦ inr (ground (arith, eq_iff owner user, text, h))
]

checked :
    {A : Type 0} (Q : Result A × Platform → Type 0) (c : Bool) (e : Error) (m : Go Platform A)
    (s : Platform)
    → Q (err e, s)
    → (c ≡ false → Q (m s))
    → Q ((fail_if c e >> m) s)
checked Q true e m s h k = h
checked Q false e m s h k = k refl

module _ (uuids : Uuids) where
  abbrev fail_unless_turn : Order → Go Platform (Unit {0})
  fail_unless_turn o = do
    active ← read_active o.event_id
    fail_if (not (str_eq active "") && not (str_eq active (uuids.to_string o.id))) err_not_your_turn

  -- Where no call fails, the comparison with the slot leaves the orders alone.
  has_turn :
      (R : Platform → Type 0) (o : Order) (s : Platform)
      → s.env.script ≡ []
      → R s
      → WhereOk (λ s. HasTurn uuids o s × R s) (fail_unless_turn o s)
  unfolding read_active get_active external
  has_turn R o s quiet h =
      calm (λ s. R s → WhereOk (λ s. HasTurn uuids o s × R s) (fail_unless_turn o s)) s quiet
        (tested _ refl) h
    where
      tested :
          (b : Bool)
          → not (str_eq (or_empty (s.redis.active o.event_id)) "")
              && not (str_eq (or_empty (s.redis.active o.event_id)) (uuids.to_string o.id))
            ≡ b
          → R (with_script [] s)
          → WhereOk
              (λ s. HasTurn uuids o s × R s)
              (fail_if {S = Platform} b err_not_your_turn (with_script [] s))
      tested true e h = tt
      tested false e h = (either (or_empty (s.redis.active o.event_id)) (uuids.to_string o.id) e, h)

  check_turn-HasTurn :
      (R : Platform → Type 0) (o : Order) (s : Platform)
      → s.env.script ≡ []
      → R (check_and_advance uuids o.event_id s).1
      → WhereOk (λ s. HasTurn uuids o s × R s) (check_turn uuids o s)
  unfolding check_turn
  check_turn-HasTurn R o s quiet h =
      bind_post (λ s. Within 0 s × R s) (WhereOk λ s. HasTurn uuids o s × R s)
        (check_and_advance uuids o.event_id s) (λ _. fail_unless_turn o)
        (
          (check_and_advance-Keeps (Within-rules uuids 0) o.event_id).run s
              (record { bound = rw quiet (omega arith) }),
          h,
        )
        (λ e s h. tt) λ _ s h. has_turn R o s (Within-empty uuids s h.0) h.1

  with_turn :
      (Q : Result Order × Platform → Type 0) {R : Platform → Type 0} (o : Order)
      (r : Result (Unit {0}) × Platform)
      → ((e : Error) (s : Platform) → Q (err e, s))
      → ((s : Platform) → R s → Q (ok o, s))
      → WhereOk R r
      → Q ((◌>>=◌ (λ _. r) (λ _. pure o)) r.1)
  with_turn Q o (ok _, s) l k h = k s h
  with_turn Q o (err e, s) l k h = l e s

  check_payer-MayPay :
      (x user : String) (id : ℕ) (o : Order) (s : Platform)
      → uuids.parse x ≡ some id
      → find_order id s.orders ≡ some o
      → s.env.script ≡ []
      → s.redis_on ≡ true
      → MayPay uuids x user s (check_payer uuids user o s)
  unfolding check_payer check_pending wait_turn
  check_payer-MayPay x user id o s parsed found quiet on =
      checked (MayPay uuids x user s)
        (not (str_eq user "") && not (str_eq (uuids.to_string o.user_id) user)) err_not_owner
        (check_pending uuids o) s tt
        λ mine.
          checked (MayPay uuids x user s) (not (str_eq o.status "PENDING")) err_not_pending
            (wait_turn uuids o) s tt
            λ c.
              let pending : o.status ≡ "PENDING" = ground (arith, eq_iff o.status "PENDING", c) in
              subst (λ b. MayPay uuids x user s ((when b (check_turn uuids o) >> pure o) s))
                (sym on)
                (with_turn (MayPay uuids x user s) o (check_turn uuids o s) (λ e s. tt)
                  (λ s' h. (
                    id,
                    parsed,
                    found,
                    pending,
                    owner_of user (uuids.to_string o.user_id) mine,
                    h.0,
                    h.1,
                  ))
                  (check_turn-HasTurn
                    (λ s'. HeldTimedOut uuids o.event_id id s ⊎ StillPending id s') o s quiet
                    (check_and_advance-StillPending uuids o.event_id id s quiet on
                      (pending_row id s o found pending))))

  fetched :
      (x user : String) (id : ℕ) (s : Platform) (f : Option Order)
      → uuids.parse x ≡ some id
      → s.env.script ≡ []
      → s.redis_on ≡ true
      → find_order id s.orders ≡ f
      → MayPay uuids x user s ((or_none f no_rows >>= check_payer uuids user) s)
  fetched x user id s none parsed quiet on e = tt
  fetched x user id s (some o) parsed quiet on e =
      check_payer-MayPay x user id o s parsed e quiet on

  -- In a state with no failures to come, written out.
  parsed_first :
      (x user : String) (s : Platform) (p : Option ℕ)
      → uuids.parse x ≡ p
      → MayPay uuids x user
          (record (with_script [] s) { redis_on = true })
          ((do id ← or_none p err_invalid_uuid; o ← get_order id; check_payer uuids user o)
            (record (with_script [] s) { redis_on = true }))
  unfolding get_order external
  parsed_first x user s none e = tt
  parsed_first x user s (some id) e = fetched x user id _ _ e refl refl refl

-- With Redis, and where no call fails: an order for which `CreatePaymentToken` goes on to Midtrans is
-- the one with the id, as the table had it when the call began, where it was pending; it is the user's
-- if a user is given; when the call goes on, no other order holds the slot of its event, and the
-- table still has it pending, unless it held the slot itself and its time there was over.
pub payable_order-MayPay :
    (uuids : Uuids) (x user : String) (s : Platform)
    → s.env.script ≡ []
    → s.redis_on ≡ true
    → MayPay uuids x user s (payable_order uuids x user s)
unfolding payable_order
payable_order-MayPay uuids x user s quiet on =
    calm_redis (λ t. MayPay uuids x user t (payable_order uuids x user t)) s true quiet on
      (parsed_first uuids x user s _ refl)
