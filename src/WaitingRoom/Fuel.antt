-- ===== src/WaitingRoom/Fuel.antt =====
-- `EnqueueOrder` calls itself again only while calls to Redis still fail: the fuel that the model
-- gives it is enough.
use entra_api.Base.{
  ℕ, zero, suc, ◌+◌, ◌≤◌, length, String, ◌≡◌, refl, ◌⊎◌, true, false, not, ◌&&◌, Option, none,
  some, List, [], ◌∷◌, All, arith, ltb, str_eq, if◌then◌else◌, inl, inr,
}
use entra_api.Base.Int.{ℤ}
use entra_api.Base.Go.{Go, Env, Outcome, after_call, call, ok, gets, ignore, ◌>>=◌, ◌>>◌}
use entra_api.Base.Keeps.{Keeps-modify, call_shorter}
use entra_api.Base.Total.{
  Finishes, Total, Total-bind, Total-gets, Total-ignore, Total-if, if_no, if_yes, if_either,
}
use entra_api.Base.External.{Uuids}
use entra_api.Platform.{TicketType, OrderItem, Platform, external}
use entra_api.Platform.Calm.{calm, with_script}
use entra_api.Inventory.Runs.{inventory-frame, reserve-Keeps, release-Keeps}
use entra_api.Stock.{apply_reserve, apply_release}
use entra_api.Stock.Runs.{StockRules}
use entra_api.Tables.{create_order_item, get_active, get_expires}
use entra_api.Queue.{take_slot, advance_queue, queue_active_duration, unix}
use entra_api.Queue.Runs.{advance_queue-Keeps}
use entra_api.Queue.Fresh.{Fresh, advance_queue-Fresh}
use entra_api.Cancel.{text_of, read_active, cancel_order}
use entra_api.WaitingRoom.{
  QueueStatus, count_waiting, expiry_of, read_expires, join_waiting, activate, activate_alone,
  enqueue_order,
}
use entra_api.Safety.Rules.{PlatformRules}
use entra_api.Safety.Quiet.{platform_rules}
use entra_api.Safety.Queues.{cancel_order-Keeps}

-- The script has at most so many outcomes left.
pub record Within (n : ℕ) (s : Platform) : Type 0 where
  pub bound : length s.env.script ≤ n

Within-frame :
    (n : ℕ) (s : Platform) (e : Env) (types : List TicketType)
    → length e.script ≤ length s.env.script
    → Within n s
    → Within n (record s { env = e; ticket_types = types })
Within-frame n s e types short h = record { bound = ground (arith, h.bound) }

-- Every quantity is fine.
abbrev AnyQuantity : ℤ → Type 0
AnyQuantity q = Unit {0}

All-fine : (is : List OrderItem) → All (λ i. AnyQuantity i.quantity) is
All-fine [] = tt
All-fine (i ∷ is) = (tt, All-fine is)

module _ (uuids : Uuids) (n : ℕ) where
  Within-stock : StockRules uuids AnyQuantity (Within n)
  unfolding external apply_reserve apply_release
  Within-stock = record {
    calls = record { run = λ s h. record { bound = ground (arith, h.bound, call_shorter s.env) } };
    takes = λ key qty _. record { run = λ s h. record { bound = h.bound } };
    gives = λ key qty _. record { run = λ s h. record { bound = h.bound } };
    stores = λ key v _. Keeps-modify (λ s h. record { bound = h.bound });
    reserves = reserve-Keeps (inventory-frame (Within n) (Within-frame n)) uuids;
    releases = release-Keeps (inventory-frame (Within n) (Within-frame n)) uuids;
  }

  pub Within-rules : PlatformRules uuids AnyQuantity (Within n)
  unfolding create_order_item external
  Within-rules = platform_rules (record {
    stock = Within-stock;
    quiet = λ s s' _ _ _ short h. record { bound = ground (arith, h.bound) };
    positive = λ s h. All-fine s.items;
    adds = λ i _. record {
      run = λ s h. record { bound = ground (arith, h.bound, call_shorter s.env) };
    };
  })

-- No condition.
abbrev Anywhere : Platform → Type 0
Anywhere s = Unit {0}

unix_later : (t : ℕ) → unix t ≤ unix (t + queue_active_duration)
unix_later t = omega arith

no_text : (o : Option String) → o ≡ none → str_eq (text_of (ok o)) "" ≡ true
no_text none e = refl
no_text (some v) e = absurd (ground arith)

in_time :
    (now : ℕ) (o : Option ℕ)
    → o ≡ some (unix (now + queue_active_duration))
    → ltb 0 (expiry_of (ok o)) && ltb (expiry_of (ok o)) (unix now) ≡ false
in_time now none e = refl
in_time now (some t) e = ground (arith, unix_later now)

call_fewer : (m : ℕ) (e : Env) → length e.script ≤ suc m → length (call e).1.script ≤ m
call_fewer m e h = fewer e.script h
  where
    fewer : (os : List Outcome) → length os ≤ suc m → length (after_call e.now os).1.script ≤ m
    fewer [] h = ground arith
    fewer (o ∷ os) h = ground (arith, h)

read_active-Total : (m event : ℕ) → Total (Within (suc m)) (Within m) (read_active event)
unfolding read_active get_active external
read_active-Total m event = record {
  run = λ s h. record { bound = ground (arith, call_fewer m s.env h.bound) };
}

read_expires-Total : (m event : ℕ) → Total (Within m) (Within m) (read_expires event)
unfolding read_expires get_expires external
read_expires-Total m event = record {
  run = λ s h. record { bound = ground (arith, call_shorter s.env, h.bound) };
}

module _ (uuids : Uuids) where
  activate_alone-Total :
      {P : Platform → Type 0} (id : ℕ) → Total P Anywhere (activate_alone uuids id)
  unfolding activate_alone
  activate_alone-Total id = record { run = λ s h. tt }

  activate-Total :
      {P : Platform → Type 0} (event id : ℕ) (x : String)
      → Total P Anywhere (activate uuids event id x)
  unfolding activate take_slot
  activate-Total event id x = record { run = λ s h. tt }

  join_waiting-Total :
      {P : Platform → Type 0} (event id : ℕ) (x : String)
      → Total P Anywhere (join_waiting uuids event id x)
  unfolding join_waiting count_waiting
  join_waiting-Total event id x = record { run = λ s h. tt }

  -- The rounds of `EnqueueOrder` from where another order holds the slot.
  abbrev retry : ℕ → ℕ → ℕ → String → Go Platform QueueStatus
  retry fuel id event active =
      ignore (cancel_order uuids active)
      >> (ignore (advance_queue uuids event) >> enqueue_order uuids fuel id event)

  abbrev wait_or_retry : ℕ → ℕ → ℕ → String → Go Platform QueueStatus
  wait_or_retry fuel id event active = do
    expires ← read_expires event
    now ← gets (λ s. s.env.now)
    if ltb 0 expires && ltb expires (unix now)
        then retry fuel id event active
        else join_waiting uuids event id (uuids.to_string id)

  settled :
      (fuel id event : ℕ) (t : Platform)
      → (t.redis.active event ≡ none)
        ⊎ (t.redis.expires_at event ≡ some (unix (t.env.now + queue_active_duration)))
      → Finishes Anywhere (enqueue_order uuids (suc fuel) id event (with_script [] t))
  unfolding enqueue_order read_active read_expires get_active get_expires external activate_alone
      activate take_slot join_waiting count_waiting
  settled fuel id event t (inl free) =
      if_either Anywhere (not t.redis_on) _ _ _ tt
        (if_yes Anywhere _ _ _ _ (no_text (t.redis.active event) free) tt)
  settled fuel id event t (inr taken) = if_either Anywhere (not t.redis_on) _ _ _ tt (
      if_either Anywhere (str_eq (text_of (ok (t.redis.active event))) "")
        (activate uuids event id (uuids.to_string id))
        (wait_or_retry fuel id event (text_of (ok (t.redis.active event)))) (with_script [] t) tt
        (if_no Anywhere
          (ltb 0 (expiry_of (ok (t.redis.expires_at event)))
            && ltb (expiry_of (ok (t.redis.expires_at event))) (unix t.env.now))
          (retry fuel id event (text_of (ok (t.redis.active event))))
          (join_waiting uuids event id (uuids.to_string id)) (with_script [] t)
          (in_time t.env.now (t.redis.expires_at event) taken) tt))

  -- Where the slot has just been taken, no further call is made.
  enqueue-Fresh :
      (fuel id event : ℕ) (t : Platform)
      → (t.redis_on ≡ false) ⊎ Fresh event t
      → Finishes Anywhere (enqueue_order uuids (suc fuel) id event t)
  unfolding enqueue_order read_active read_expires get_active get_expires external activate_alone
      activate take_slot join_waiting count_waiting
  enqueue-Fresh fuel id event t (inl off) =
      if_yes Anywhere (not t.redis_on) _ _ t (rw off refl)
        ((activate_alone-Total {P = Anywhere} id).run t tt)
  enqueue-Fresh fuel id event t (inr fresh) =
      calm
        (λ t.
          (t.redis.active event ≡ none)
            ⊎ (t.redis.expires_at event ≡ some (unix (t.env.now + queue_active_duration)))
          → Finishes Anywhere (enqueue_order uuids (suc fuel) id event t))
        t fresh.quiet (settled fuel id event t) fresh.slot

  -- One round: where the queue has moved on, `again` is what is left.
  round-Total :
      (fuel m id event : ℕ)
      → ((t : Platform)
          → Within m t
          → Finishes Anywhere (enqueue_order uuids fuel id event (advance_queue uuids event t).1))
      → Total (Within (suc m)) Anywhere (enqueue_order uuids (suc fuel) id event)
  unfolding enqueue_order
  round-Total fuel m id event again = Total-bind (Total-gets (λ s. s.redis_on)) λ redis.
      Total-if (not redis) (activate_alone-Total id) (
        Total-bind {Q = Within m} (read_active-Total m event) λ active.
          Total-if (str_eq active "") (activate-Total event id (uuids.to_string id)) (
            Total-bind (read_expires-Total m event) λ expires.
              Total-bind (Total-gets (λ s. s.env.now)) λ now.
                Total-if (ltb 0 expires && ltb expires (unix now))
                  (Total-bind (Total-ignore (cancel_order-Keeps (Within-rules uuids m) active))
                    λ _. record { run = again })
                  (join_waiting-Total event id (uuids.to_string id))))

  pub Within-empty : (t : Platform) → Within 0 t → t.env.script ≡ []
  Within-empty t h = empty t.env.script h.bound
    where
      empty : (os : List Outcome) → length os ≤ 0 → os ≡ []
      empty [] h = refl
      empty (o ∷ os) h = absurd (ground (arith, h))

  enqueue-Total :
      (m fuel id event : ℕ)
      → m + 2 ≤ fuel
      → Total (Within (suc m)) Anywhere (enqueue_order uuids fuel id event)
  enqueue-Total m zero id event h = absurd (ground (arith, h))
  enqueue-Total zero (suc zero) id event h = absurd (ground (arith, h))
  enqueue-Total zero (suc (suc fuel)) id event h =
      round-Total (suc fuel) 0 id event
        λ t v. enqueue-Fresh fuel id event _ (advance_queue-Fresh uuids event t (Within-empty t v))
  enqueue-Total (suc m) (suc fuel) id event h = round-Total fuel (suc m) id event λ t v.
      (enqueue-Total m fuel id event (ground (arith, h))).run _
        ((advance_queue-Keeps uuids (Within-rules uuids (suc m)).queue event).run t v)

-- With more fuel than the script has outcomes to come, by two, `EnqueueOrder` comes to its end and
-- returns without an error, whichever of its calls fail.
pub enqueue_order-terminates :
    (uuids : Uuids) (fuel id event : ℕ) (s : Platform)
    → length s.env.script + 2 ≤ fuel
    → Finishes (λ _. Unit {0}) (enqueue_order uuids fuel id event s)
enqueue_order-terminates uuids fuel id event s h =
    (enqueue-Total uuids (length s.env.script) fuel id event h).run s
      (record { bound = omega arith })
