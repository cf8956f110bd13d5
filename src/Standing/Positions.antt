-- ===== src/Standing/Positions.antt =====
-- The position that an order gets when it joins the waiting list, and the one that is reported later.
use entra_api.Base.{
  ℕ, suc, ◌+◌, ◌<◌, String, ◌≡◌, ◌≢◌, refl, true, sym, subst, none, some, List, [], ◌∷◌, ◌++◌,
  arith, eq_iff, eq_refl, length, length-append, ap, ◌∙◌, ltb, str_eq, ◌&&◌, ◌==◌, Bool-cases, inl,
  inr,
}
use entra_api.Base.Go.{ok, Result}
use entra_api.Base.External.{Uuids}
use entra_api.Platform.{Order, Platform, external, put_event}
use entra_api.Platform.Calm.{calm_redis}
use entra_api.Tables.{
  find_order, set_expires, get_active, get_expires, push_waiting, list_waiting, set_waiting,
  move_deadline, or_empty,
}
use entra_api.Queue.{unix}
use entra_api.Cancel.{read_active}
use entra_api.WaitingRoom.{
  QueueStatus, expiry_of, read_expires, waiting_buffer, waiting_status, join_waiting, count_waiting,
  enqueue_order,
}
use entra_api.Standing.{index_of, get_order_queue_status}
use entra_api.Standing.Waits.{still, if_false, get_order_queue_status-waiting}

index_of-append :
    (v : String) (xs : List String)
    → index_of v xs ≡ none
    → index_of v (xs ++ v ∷ []) ≡ some (length xs)
unfolding index_of
index_of-append v [] h = ground (arith, eq_refl v)
index_of-append v (x ∷ xs) h = ground (arith, index_of-append v xs)

put_event_self :
    (event : ℕ) (xs : List String) (w : ℕ → List String) → put_event event xs w event ≡ xs
put_event_self event xs w = ground arith

joined_index :
    (v : String) (xs : List String) (event : ℕ) (w : ℕ → List String)
    → index_of v xs ≡ none
    → index_of v (put_event event (xs ++ v ∷ []) w event) ≡ some (length xs)
joined_index v xs event w h =
    ap (index_of v) (put_event_self event (xs ++ v ∷ []) w) ∙ index_of-append v xs h

joined_length :
    (v : String) (xs : List String) (event : ℕ) (w : ℕ → List String)
    → length (put_event event (xs ++ v ∷ []) w event) + 1 ≡ length xs + 2
joined_length v xs event w =
    ap (λ l. length l + 1) (put_event_self event (xs ++ v ∷ []) w)
    ∙ plus_two (length xs) (length-append xs (v ∷ []))
  where
    plus_two : {m : ℕ} (n : ℕ) → m ≡ n + 1 → m + 1 ≡ n + 2
    plus_two n h = omega (arith, h)

find_order-set_expires :
    (id t : ℕ) (o : Order) (os : List Order)
    → find_order id os ≡ some o
    → find_order id (set_expires id t os) ≡ some (record o { expires_at = t })
unfolding find_order set_expires
find_order-set_expires id t r [] h = absurd (ground (arith, h))
find_order-set_expires id t r (o ∷ os) h = elim (Bool-cases (o.id == id)) [
  | inl own ↦ ground (arith, own, h)
  | inr other ↦ ground (arith, other, h, find_order-set_expires id t r os)
]

-- The state after an order has joined the waiting list.
abbrev joined : ℕ → ℕ → String → Platform → Platform
joined event id v s = record s {
  orders = set_expires id (s.env.now + waiting_buffer) s.orders;
  redis = record s.redis {
    waiting = put_event event (s.redis.waiting event ++ v ∷ []) s.redis.waiting;
  };
}

module _ (uuids : Uuids) (fuel id : ℕ) (o : Order) (s : Platform)
    (taken : or_empty (s.redis.active o.event_id) ≢ "")
    (timely : unix s.env.now < expiry_of (ok (s.redis.expires_at o.event_id))) where
  enqueue_order-joined : enqueue_order uuids (suc fuel) id o.event_id (still s) ≡ (
    ok (waiting_status (length (s.redis.waiting o.event_id) + 2)),
    still (joined o.event_id id (uuids.to_string id) s),
  )
  unfolding enqueue_order read_active read_expires get_active get_expires external join_waiting
      push_waiting count_waiting list_waiting set_waiting move_deadline
  enqueue_order-joined =
      if_false (str_eq (or_empty (s.redis.active o.event_id)) "") _ _ (still s)
        (ground (arith, taken, eq_iff (or_empty (s.redis.active o.event_id)) ""))
      ∙ if_false
          (ltb 0 (expiry_of (ok (s.redis.expires_at o.event_id)))
            && ltb (expiry_of (ok (s.redis.expires_at o.event_id))) (unix s.env.now))
          _ _ (still s) (ground (arith, timely))
      ∙ ap (λ n. (ok (waiting_status n), still (joined o.event_id id (uuids.to_string id) s)))
          (joined_length (uuids.to_string id) (s.redis.waiting o.event_id) o.event_id
            s.redis.waiting)

-- With Redis, and where no call fails: a pending order that is not waiting yet, for an event whose slot
-- another order holds that has not timed out, is told by `EnqueueOrder` that it waits, one place behind
-- the order in the slot and those already in the list; and `GetOrderQueueStatus`, asked by its buyer right
-- after, answers the very same.
pub positions_agree :
    (uuids : Uuids) (fuel id : ℕ) (o : Order) (s : Platform)
    → s.env.script ≡ []
    → s.redis_on ≡ true
    → find_order id s.orders ≡ some o
    → o.status ≡ "PENDING"
    → or_empty (s.redis.active o.event_id) ≢ ""
    → or_empty (s.redis.active o.event_id) ≢ uuids.to_string id
    → unix s.env.now < expiry_of (ok (s.redis.expires_at o.event_id))
    → index_of (uuids.to_string id) (s.redis.waiting o.event_id) ≡ none
    → ((enqueue_order uuids (suc fuel) id o.event_id s).0
        ≡ ok (waiting_status (length (s.redis.waiting o.event_id) + 2)))
      × ((get_order_queue_status uuids
            (uuids.to_string id)
            (uuids.to_string o.user_id)
            (enqueue_order uuids (suc fuel) id o.event_id s).1).0
          ≡ (enqueue_order uuids (suc fuel) id o.event_id s).0)
positions_agree uuids fuel id o s quiet on found pending taken other timely absent =
    calm_redis (λ t. Agreed t (enqueue_order uuids (suc fuel) id o.event_id t)) s true quiet on
      (subst (Agreed s) (sym (enqueue_order-joined uuids fuel id o s taken timely))
        (refl, reported))
  where
    Agreed : Platform → Result QueueStatus × Platform → Type 0
    Agreed t r =
        (r.0 ≡ ok (waiting_status (length (t.redis.waiting o.event_id) + 2)))
        × ((get_order_queue_status uuids (uuids.to_string id) (uuids.to_string o.user_id) r.1).0
            ≡ r.0)

    reported :
        (get_order_queue_status uuids
          (uuids.to_string id)
          (uuids.to_string o.user_id)
          (still (joined o.event_id id (uuids.to_string id) s))).0
        ≡ ok (waiting_status (length (s.redis.waiting o.event_id) + 2))
    reported =
        ap (λ r. r.0)
          (get_order_queue_status-waiting (joined o.event_id id (uuids.to_string id) s) uuids id
            (length (s.redis.waiting o.event_id))
            (record o { expires_at = s.env.now + waiting_buffer })
            (find_order-set_expires id (s.env.now + waiting_buffer) o s.orders found) pending
            (omega arith) taken other timely
            (joined_index (uuids.to_string id) (s.redis.waiting o.event_id) o.event_id
              s.redis.waiting absent))
