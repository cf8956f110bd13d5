-- ===== src/Standing/Waits.antt =====
-- The reads of `GetOrderQueueStatus` for a buyer who waits.
use entra_api.Base.{
  ℕ, ◌+◌, ◌≤◌, ◌<◌, String, ◌≡◌, ◌≢◌, refl, ◌∙◌, ap, Bool, true, false, not, ◌&&◌, Option, none,
  some, List, [], ◌∷◌, ltb, leb, str_eq, eq_iff, eq_refl, arith, if◌then◌else◌,
}
use entra_api.Base.Go.{
  Go, no_rows, Result, ok, err, pure, attempt, or_none, or_fail, fail_if, ◌>>=◌, ◌>>◌,
}
use entra_api.Base.Keeps.{Keeps, Keeps-bind, Keeps-gets, Keeps-or_none, Keeps-pure, Keeps-attempt}
use entra_api.Base.External.{Uuids}
use entra_api.Platform.{Order, OrderItem, Platform, external}
use entra_api.Platform.Calm.{with_script}
use entra_api.Inventory.{get_ticket_type_by_id, get_event_by_id, find_ticket_type, find_event}
use entra_api.Stock.{client_get_ticket_type, describe, err_status}
use entra_api.Tables.{
  find_order, get_order, list_order_items, items_of, list_waiting, get_active, get_expires,
  or_empty,
}
use entra_api.Queue.{unix}
use entra_api.Cancel.{read_active}
use entra_api.WaitingRoom.{
  QueueStatus, expiry_of, waiting_status, closed_status, check_and_advance, read_expires,
}
use entra_api.Standing.{
  err_invalid_order, err_order_not_found, err_access_denied, index_of, list_of, report_active,
  read_type, read_summary, own_order, is_paid, report_missed, report_queue, report_open,
  report_order, get_order_queue_status,
}

-- The state with a Redis client and with no failures to come.
abbrev pub still : Platform → Platform
still s = record (with_script [] s) { redis_on = true }

pub if_false :
    {S A : Type 0} (c : Bool) (m n : Go S A) (s : S) → c ≡ false → (if c then m else n) s ≡ n s
if_false true m n s h = absurd (ground (arith, h))
if_false false m n s h = refl

-- The run gives back a value and the state that it began in.
abbrev Reads : {A : Type 0} → Go Platform A → A → Platform → Type 0
Reads m a s = m s ≡ (ok a, s)

Reads-bind :
    {A B : Type 0} (m : Go Platform A) (f : A → Go Platform B) (a : A) (s : Platform)
    → Reads m a s
    → (m >>= f) s ≡ f a s
Reads-bind m f a s h = ap (λ r. (◌>>=◌ (λ _. r) f) r.1) h

-- The parts of `GetOrderQueueStatus` behind its calls.
abbrev guard_owner : Uuids → String → Order → Go Platform Order
guard_owner uuids user o = do
  fail_if (not (str_eq user "") && not (str_eq (uuids.to_string o.user_id) user)) err_access_denied
  pure o

abbrev look_up : Uuids → Order → String → Go Platform QueueStatus
look_up uuids o v = do
  active ← read_active o.event_id
  if str_eq active v then report_active uuids o v else do
    waiting ← attempt (list_waiting o.event_id)
    elim (index_of v (list_of waiting)) [
      | some i ↦ pure (waiting_status (i + 2))
      | none ↦ report_missed uuids o v active
    ]

abbrev report_unread : Uuids → String → Order → Go Platform QueueStatus
report_unread uuids v o =
    if is_paid o.status
    then pure (closed_status "COMPLETED")
    else if str_eq o.status "CANCELLED"
    then pure (closed_status "CANCELLED")
    else report_open uuids o v

own_name : (u : String) → not (str_eq u "") && not (str_eq u u) ≡ false
own_name u = ground (arith, eq_refl u)

module _ (s : Platform) where
  same-external : Keeps (λ t. t ≡ still s) external
  unfolding external
  same-external = record { run = λ t h. ap (λ t. (external t).1) h }

  same-get_ticket_type : (id : ℕ) → Keeps (λ t. t ≡ still s) (get_ticket_type_by_id id)
  unfolding get_ticket_type_by_id
  same-get_ticket_type id = Keeps-bind same-external λ _.
      Keeps-bind (Keeps-gets (λ s. s.ticket_types))
        λ types. Keeps-or_none (find_ticket_type id types) no_rows

  same-get_event : (id : ℕ) → Keeps (λ t. t ≡ still s) (get_event_by_id id)
  unfolding get_event_by_id
  same-get_event id = Keeps-bind same-external λ _.
      Keeps-bind (Keeps-gets (λ s. s.events)) λ events. Keeps-or_none (find_event id events) no_rows

  same-client_get_ticket_type :
      (uuids : Uuids) (x : String) → Keeps (λ t. t ≡ still s) (client_get_ticket_type uuids x)
  unfolding client_get_ticket_type
  same-client_get_ticket_type uuids x = Keeps-bind same-external λ _.
      Keeps-bind (Keeps-or_none (uuids.parse x) err_status) λ u.
        Keeps-bind (same-get_ticket_type u)
          λ t. Keeps-bind (Keeps-attempt (same-get_event t.event_id)) λ e. Keeps-pure (describe t e)

  read_type-Reads :
      (uuids : Uuids) (client : Bool) (items : Result (List OrderItem))
      → Reads (read_type uuids client items) tt (still s)
  unfolding read_type
  read_type-Reads uuids true (ok (i ∷ is)) =
      ap (λ t. (ok tt, t))
        ((same-client_get_ticket_type uuids (uuids.to_string i.ticket_type_id)).run (still s) refl)
  read_type-Reads uuids false (ok (i ∷ is)) = refl
  read_type-Reads uuids client (ok []) = refl
  read_type-Reads uuids client (err e) = refl

  read_summary-Reads : (uuids : Uuids) (id : ℕ) → Reads (read_summary uuids id) tt (still s)
  unfolding read_summary list_order_items external
  read_summary-Reads uuids id = read_type-Reads uuids s.client_on (ok (items_of id s.items))

  own_order-Reads :
      (uuids : Uuids) (id : ℕ) (o : Order)
      → find_order id s.orders ≡ some o
      → Reads (own_order uuids (uuids.to_string id) (uuids.to_string o.user_id)) o (still s)
  unfolding own_order get_order external
  own_order-Reads uuids id o found =
      Reads-bind (or_none (uuids.parse (uuids.to_string id)) err_invalid_order)
        (λ id.
          or_fail (get_order id) err_order_not_found
          >>= guard_owner uuids (uuids.to_string o.user_id))
        id (still s) (ap (λ p. or_none p err_invalid_order (still s)) (uuids.parse-to_string id))
      ∙ Reads-bind (or_fail (get_order id) err_order_not_found)
          (guard_owner uuids (uuids.to_string o.user_id)) o (still s)
          (ap (λ f. or_fail (λ _. or_none f no_rows (still s)) err_order_not_found (still s)) found)
      ∙ Reads-bind
          (fail_if
            (not (str_eq (uuids.to_string o.user_id) "")
              && not (str_eq (uuids.to_string o.user_id) (uuids.to_string o.user_id)))
            err_access_denied)
          (λ _. pure o) tt (still s)
          (ap (λ c. fail_if {S = Platform} c err_access_denied (still s))
            (own_name (uuids.to_string o.user_id)))

  module _ (uuids : Uuids) (o : Order) (v : String)
      (taken : or_empty (s.redis.active o.event_id) ≢ "")
      (other : or_empty (s.redis.active o.event_id) ≢ v)
      (timely : unix s.env.now < expiry_of (ok (s.redis.expires_at o.event_id))) where
    check_and_advance-Reads : Reads (check_and_advance uuids o.event_id) tt (still s)
    unfolding check_and_advance read_active read_expires get_active get_expires external
    check_and_advance-Reads =
        if_false (str_eq (or_empty (s.redis.active o.event_id)) "") _ _ (still s)
          (ground (arith, taken, eq_iff (or_empty (s.redis.active o.event_id)) ""))
        ∙ if_false
            (ltb 0 (expiry_of (ok (s.redis.expires_at o.event_id)))
              && leb (expiry_of (ok (s.redis.expires_at o.event_id))) (unix s.env.now))
            _ _ (still s) (ground (arith, timely))

    by_index :
        (i : ℕ) (w : Option ℕ)
        → w ≡ some i
        → (elim w as (λ _. Go Platform QueueStatus) [
          | some i ↦ pure (waiting_status (i + 2))
          | none ↦ report_missed uuids o v (or_empty (s.redis.active o.event_id))
        ])
            (still s)
          ≡ (ok (waiting_status (i + 2)), still s)
    by_index i none e = absurd (ground (arith, e))
    by_index i (some j) e = ap (λ k. (ok (waiting_status (k + 2)), still s)) (ground (arith, e))

    report_queue-waiting :
        (i : ℕ)
        → index_of v (s.redis.waiting o.event_id) ≡ some i
        → report_queue uuids o v (still s) ≡ (ok (waiting_status (i + 2)), still s)
    unfolding report_queue read_active get_active list_waiting external
    report_queue-waiting i waits =
        Reads-bind (check_and_advance uuids o.event_id) (λ _. look_up uuids o v) tt (still s)
          check_and_advance-Reads
        ∙ if_false (str_eq (or_empty (s.redis.active o.event_id)) v) _ _ (still s)
            (ground (arith, other, eq_iff (or_empty (s.redis.active o.event_id)) v))
        ∙ by_index i (index_of v (s.redis.waiting o.event_id)) waits

    report_order-waiting :
        (i : ℕ)
        → index_of v (s.redis.waiting o.event_id) ≡ some i
        → o.status ≡ "PENDING"
        → s.env.now ≤ o.expires_at
        → report_order uuids v o (still s) ≡ (ok (waiting_status (i + 2)), still s)
    unfolding report_order report_open
    report_order-waiting i waits pending open_still =
        Reads-bind (read_summary uuids o.id) (λ _. report_unread uuids v o) tt (still s)
          (read_summary-Reads uuids o.id)
        ∙ if_false (is_paid o.status) _ _ (still s) (ap is_paid pending)
        ∙ if_false (str_eq o.status "CANCELLED") _ _ (still s)
            (ap (λ status. str_eq status "CANCELLED") pending)
        ∙ if_false (ltb o.expires_at s.env.now) _ _ (still s) (ground (arith, open_still))
        ∙ report_queue-waiting i waits

  -- A buyer whose order waits behind another one is told the order's index in the list, plus two.
  pub get_order_queue_status-waiting :
      (uuids : Uuids) (id i : ℕ) (o : Order)
      → find_order id s.orders ≡ some o
      → o.status ≡ "PENDING"
      → s.env.now ≤ o.expires_at
      → or_empty (s.redis.active o.event_id) ≢ ""
      → or_empty (s.redis.active o.event_id) ≢ uuids.to_string id
      → unix s.env.now < expiry_of (ok (s.redis.expires_at o.event_id))
      → index_of (uuids.to_string id) (s.redis.waiting o.event_id) ≡ some i
      → get_order_queue_status uuids (uuids.to_string id) (uuids.to_string o.user_id) (still s)
        ≡ (ok (waiting_status (i + 2)), still s)
  unfolding get_order_queue_status
  get_order_queue_status-waiting uuids id i o found pending open_still taken other timely waits =
      Reads-bind (own_order uuids (uuids.to_string id) (uuids.to_string o.user_id))
        (report_order uuids (uuids.to_string id)) o (still s) (own_order-Reads uuids id o found)
      ∙ report_order-waiting uuids o (uuids.to_string id) taken other timely i waits pending
          open_still
