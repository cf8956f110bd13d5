-- ===== src/Payments/Once.antt =====
-- A payment is settled once: what follows the change of the status leaves the order paid.
use entra_api.Base.{
  ℕ, String, ◌≡◌, refl, Bool, true, false, Option, none, some, List, [], ◌∷◌, arith, str_eq,
  eq_refl, eq_iff, if◌then◌else◌,
}
use entra_api.Base.Go.{Go, Result, ok, err, no_rows, pure, gets, or_none, modify, ◌>>=◌}
use entra_api.Base.Keeps.{Keeps}
use entra_api.Base.External.{Uuids}
use entra_api.Platform.{Order, Message, Platform, external}
use entra_api.Tables.{
  find_order, set_status, set_expires, get_order, insert_ticket, create_ticket, publish,
  write_status, update_order_status, list_order_items, move_deadline, set_active, set_expires_at,
  clear_slot, set_waiting,
}
use entra_api.Queue.Runs.{QueueRules}
use entra_api.Payments.Runs.{SettleRules, deliver-Keeps}
use entra_api.Payments.{deliver, settle, handle_payment_success}

-- The status of an order.
unfoldable pub status_of : ℕ → List Order → Option String
status_of id os = elim (find_order id os) [ none ↦ none | some o ↦ some o.status ]

status_of-set_expires :
    (id j t : ℕ) (os : List Order) → status_of id (set_expires j t os) ≡ status_of id os
unfolding status_of set_expires find_order
status_of-set_expires id j t [] = refl
status_of-set_expires id j t (o ∷ os) = ground (arith, status_of-set_expires id j t os)

status_of-set_status :
    (id : ℕ) (status : String) (os : List Order) (o : Order)
    → find_order id os ≡ some o
    → status_of id (set_status id status os) ≡ some status
unfolding status_of set_status find_order
status_of-set_status id status [] o h = ground arith
status_of-set_status id status (x ∷ xs) o h = ground (arith, status_of-set_status id status xs o)

-- The order is paid.
record IsPaid (id : ℕ) (s : Platform) : Type 0 where
  paid : status_of id s.orders ≡ some "PAID"

module _ (id : ℕ) where
  same_orders :
      {A : Type 0} (m : Go Platform A)
      → ((s : Platform) → status_of id (m s).1.orders ≡ status_of id s.orders)
      → Keeps (IsPaid id) m
  same_orders m same = record { run = λ s h. record { paid = rw (same s) h.paid } }

  external-IsPaid : Keeps (IsPaid id) external
  unfolding external
  external-IsPaid = same_orders external (λ s. refl)

  status_rules : QueueRules (IsPaid id)
  unfolding external get_order move_deadline set_active set_expires_at clear_slot set_waiting
  status_rules = record {
    calls = external-IsPaid;
    get_order_keeps = λ j. same_orders (get_order j) (λ s. ground arith);
    move_deadline_keeps = λ j t.
        same_orders (move_deadline j t)
          (λ s. ground (arith, status_of-set_expires id j t s.orders));
    set_active_keeps = λ event v. same_orders (set_active event v) (λ s. ground arith);
    set_expires_at_keeps = λ event v. same_orders (set_expires_at event v) (λ s. ground arith);
    clear_slot_keeps = λ event. same_orders (clear_slot event) (λ s. ground arith);
    set_waiting_keeps = λ event xs. same_orders (set_waiting event xs) (λ s. ground arith);
  }

  create_ticket-IsPaid :
      (o : Order) (n : ℕ) (code : String) → Keeps (IsPaid id) (create_ticket o n code)
  unfolding create_ticket insert_ticket external
  create_ticket-IsPaid o n code = same_orders (create_ticket o n code) (λ s. ground arith)

  publish-IsPaid : (m : Message) → Keeps (IsPaid id) (publish m)
  unfolding publish external
  publish-IsPaid m = same_orders (publish m) (λ s. ground arith)

  list_order_items-IsPaid : (j : ℕ) → Keeps (IsPaid id) (list_order_items j)
  unfolding list_order_items external
  list_order_items-IsPaid j = same_orders (list_order_items j) (λ s. ground arith)

  delivery_rules : SettleRules (IsPaid id)
  delivery_rules = record {
    queue = status_rules;
    create_ticket_keeps = create_ticket-IsPaid;
    publish_keeps = publish-IsPaid;
    list_order_items_keeps = list_order_items-IsPaid;
  }

-- A run that succeeds ends with the order paid.
abbrev PaidIfOk : ℕ → Result (Unit {0}) × Platform → Type 0
PaidIfOk id (ok _, s) = status_of id s.orders ≡ some "PAID"
PaidIfOk id (err _, s) = Unit {0}

run_paid : (id : ℕ) (r : Result (Unit {0}) × Platform) → IsPaid id r.1 → PaidIfOk id r
run_paid id (ok _, s) h = h.paid
run_paid id (err _, s) h = tt

bind_paid :
    (id : ℕ) (r : Result (Unit {0}) × Platform) (m : Go Platform (Unit {0}))
    → PaidIfOk id r
    → Keeps (IsPaid id) m
    → PaidIfOk id ((◌>>=◌ (λ _. r) (λ _. m)) r.1)
bind_paid id (ok _, s) m h k = run_paid id (m s) (k.run s (record { paid = h }))
bind_paid id (err _, s) m h k = tt

write_status-PaidIfOk : (id : ℕ) (s : Platform) → PaidIfOk id (write_status id "PAID" s)
unfolding write_status
write_status-PaidIfOk id s = found (find_order id s.orders) refl
  where
    found :
        (o : Option Order)
        → find_order id s.orders ≡ o
        → PaidIfOk id (
            (◌>>=◌
                (or_none o no_rows)
                (λ _. modify λ s. record s { orders = set_status id "PAID" s.orders }))
              s)
    found none e = tt
    found (some o) e = status_of-set_status id "PAID" s.orders o e

update-PaidIfOk : (id : ℕ) (s : Platform) → PaidIfOk id (update_order_status id "PAID" s)
unfolding update_order_status
update-PaidIfOk id s = called (external s)
  where
    called :
        (r : Result (Unit {0}) × Platform)
        → PaidIfOk id ((◌>>=◌ (λ _. r) (λ _. write_status id "PAID")) r.1)
    called (ok _, t) = write_status-PaidIfOk id t
    called (err _, t) = tt

module _ (uuids : Uuids) where
  settle-PaidIfOk : (id : ℕ) (o : Order) (s : Platform) → PaidIfOk id (settle uuids id o s)
  unfolding settle
  settle-PaidIfOk id o s =
      bind_paid id (update_order_status id "PAID" s) (deliver uuids id o) (update-PaidIfOk id s)
        (deliver-Keeps uuids (delivery_rules id) id o)

  -- The rest of `HandlePaymentSuccess`, for the order that was read.
  abbrev settle_unpaid : ℕ → Order → Go Platform (Unit {0})
  settle_unpaid id o = if str_eq o.status "PAID" then pure tt else settle uuids id o

  settle_unpaid-paid :
      (id : ℕ) (os : List Order) (o : Option Order) (t : Platform)
      → find_order id os ≡ o
      → status_of id os ≡ some "PAID"
      → ((◌>>=◌ (or_none o no_rows) (settle_unpaid id)) t).1 ≡ t
  unfolding status_of
  settle_unpaid-paid id os none t e h = ground arith
  settle_unpaid-paid id os (some o) t e h =
      let test : str_eq o.status "PAID" ≡ true =
        ground (arith, eq_iff o.status "PAID", eq_refl "PAID") in
      rw test refl

  paid_again :
      (x : String) (id : ℕ) (s : Platform)
      → uuids.parse x ≡ some id
      → IsPaid id s
      → (handle_payment_success uuids x s).1 ≡ (external s).1
  unfolding handle_payment_success get_order
  paid_again x id s e h = rw e (read (external s) ((external-IsPaid id).run s h))
    where
      read :
          (r : Result (Unit {0}) × Platform)
          → IsPaid id r.1
          → ((◌>>=◌
                (◌>>=◌
                  (λ _. r)
                  (λ _. do os ← gets (λ s. s.orders); or_none (find_order id os) no_rows))
                (settle_unpaid id))
              r.1).1
            ≡ r.1
      read (err _, t) h = refl
      read (ok _, t) h = settle_unpaid-paid id t.orders (find_order id t.orders) t refl h.paid

  settle_unpaid-PaidIfOk :
      (id : ℕ) (o : Option Order) (t : Platform)
      → find_order id t.orders ≡ o
      → PaidIfOk id ((◌>>=◌ (or_none o no_rows) (settle_unpaid id)) t)
  unfolding status_of
  settle_unpaid-PaidIfOk id none t e = tt
  settle_unpaid-PaidIfOk id (some o) t e = split (str_eq o.status "PAID") refl
    where
      split :
          (b : Bool)
          → str_eq o.status "PAID" ≡ b
          → PaidIfOk id ((if b then pure tt else settle uuids id o) t)
      split true h = ground (arith, eq_iff o.status "PAID")
      split false h = settle-PaidIfOk id o t

  handle-PaidIfOk :
      (x : String) (id : ℕ) (s : Platform)
      → uuids.parse x ≡ some id
      → PaidIfOk id (handle_payment_success uuids x s)
  unfolding handle_payment_success get_order
  handle-PaidIfOk x id s e = rw e (read (external s))
    where
      read :
          (r : Result (Unit {0}) × Platform)
          → PaidIfOk id (
              (◌>>=◌
                  (◌>>=◌
                    (λ _. r)
                    (λ _. do os ← gets (λ s. s.orders); or_none (find_order id os) no_rows))
                  (settle_unpaid id))
                r.1)
      read (err _, t) = tt
      read (ok _, t) = settle_unpaid-PaidIfOk id (find_order id t.orders) t refl

ok-IsPaid :
    (id : ℕ) (r : Result (Unit {0}) × Platform) → PaidIfOk id r → r.0 ≡ ok tt → IsPaid id r.1
ok-IsPaid id (ok _, s) h e = record { paid = h }
ok-IsPaid id (err _, s) h e = ground arith

-- For the id of an order: once `HandlePaymentSuccess` has returned without an error, a second
-- report of the same payment right after it does nothing but read the order: no second ticket is
-- issued, no message is sent, and the queue does not move again.
pub settles_once :
    (uuids : Uuids) (x : String) (id : ℕ) (s : Platform)
    → uuids.parse x ≡ some id
    → (handle_payment_success uuids x s).0 ≡ ok tt
    → (handle_payment_success uuids x (handle_payment_success uuids x s).1).1
      ≡ (external (handle_payment_success uuids x s).1).1
settles_once uuids x id s e done =
    paid_again uuids x id _ e
      (ok-IsPaid id (handle_payment_success uuids x s) (handle-PaidIfOk uuids x id s e) done)
