-- ===== src/Payments/Count.antt =====
-- How many tickets a paid order gets, where no call fails.
use entra_api.Base.{
  ℕ, zero, suc, ◌+◌, length, length-append, String, ◌≡◌, refl, Bool, true, false, some, List, [],
  ◌∷◌, ◌++◌, arith, str_eq, if◌then◌else◌, sym, subst, ◌≢◌, eq_iff,
}
use entra_api.Base.Int.{pos_part}
use entra_api.Base.Go.{
  Go, no_rows, Result, ok, err, pure, or_none, ignore, for_each, modify, ◌>>=◌, ◌>>◌,
}
use entra_api.Base.Keeps.{Keeps}
use entra_api.Base.Total.{Finishes, Total, Total-bind, Total-ignore}
use entra_api.Base.External.{Uuids}
use entra_api.Platform.{Order, OrderItem, Ticket, Platform, external}
use entra_api.Platform.Calm.{calm, with_script}
use entra_api.Tables.{
  find_order, set_status, items_of, get_order, write_status, update_order_status, list_order_items,
  insert_ticket, create_ticket, publish, move_deadline, set_active, set_expires_at, clear_slot,
  set_waiting,
}
use entra_api.Queue.{advance_queue}
use entra_api.Queue.Runs.{QueueRules, advance_queue-Keeps}
use entra_api.Cancel.{err_invalid_uuid}
use entra_api.Payments.{
  issue_ticket, issue_tickets, issue_item, deliver, settle, handle_payment_success,
}

-- The tickets that the items are for.
abbrev pub total : List OrderItem → ℕ
total [] = 0
total (i ∷ is) = pos_part i.quantity + total is

-- No failures to come, and so many tickets.
record Counted (n : ℕ) (s : Platform) : Type 0 where
  quiet : s.env.script ≡ []
  count : length s.tickets ≡ n

one_more : (ts : List Ticket) (t : Ticket) → length (ts ++ t ∷ []) ≡ suc (length ts)
one_more ts t = ground (arith, length-append ts (t ∷ []))

same_tickets :
    {A : Type 0} (n : ℕ) (m : Go Platform A)
    → ((s : Platform)
        → ((m (with_script [] s)).1.env.script ≡ [])
          × ((m (with_script [] s)).1.tickets ≡ s.tickets))
    → Keeps (Counted n) m
same_tickets n m same = record {
  run = λ s h.
      calm (λ t. length t.tickets ≡ n → Counted n (m t).1) s h.quiet
        (λ e. record { quiet = (same s).0; count = rw ((same s).1) e }) h.count;
}

module _ (uuids : Uuids) where
  Counted-rules : (n : ℕ) → QueueRules (Counted n)
  unfolding external get_order move_deadline set_active set_expires_at clear_slot set_waiting
  Counted-rules n = record {
    calls = same_tickets n external (λ s. (refl, refl));
    get_order_keeps = λ j. same_tickets n (get_order j) (λ s. ground arith);
    move_deadline_keeps = λ j t. same_tickets n (move_deadline j t) (λ s. (refl, refl));
    set_active_keeps = λ event v. same_tickets n (set_active event v) (λ s. (refl, refl));
    set_expires_at_keeps = λ event v. same_tickets n (set_expires_at event v) (λ s. (refl, refl));
    clear_slot_keeps = λ event. same_tickets n (clear_slot event) (λ s. (refl, refl));
    set_waiting_keeps = λ event xs. same_tickets n (set_waiting event xs) (λ s. (refl, refl));
  }

  issue_ticket-Counted :
      (n : ℕ) (o : Order) (k : ℕ) → Total (Counted n) (Counted (suc n)) (issue_ticket uuids o k)
  unfolding issue_ticket create_ticket insert_ticket publish external
  issue_ticket-Counted n o k = record {
    run = λ s h.
        calm (λ t. length t.tickets ≡ n → Finishes (Counted (suc n)) (issue_ticket uuids o k t)) s
          h.quiet (λ e. record { quiet = refl; count = rw (one_more s.tickets _) (rw e refl) })
          h.count;
  }

  issue_tickets-Counted :
      (m n : ℕ) (o : Order) (k : ℕ)
      → Total (Counted n) (Counted (n + m)) (issue_tickets uuids m o k)
  unfolding issue_tickets
  issue_tickets-Counted zero n o k = record {
    run = λ s h. record { quiet = h.quiet; count = ground (arith, h.count) };
  }
  issue_tickets-Counted (suc m) n o k = Total-bind (issue_ticket-Counted n o k) λ _. record {
    run = λ s h.
        subst (λ j. Finishes (Counted j) (issue_tickets uuids m o k s)) (omega arith)
          ((issue_tickets-Counted m (suc n) o k).run s h);
  }

  issue_item-Counted :
      (n : ℕ) (o : Order) (i : OrderItem)
      → Total (Counted n) (Counted (n + pos_part i.quantity)) (issue_item uuids o i)
  unfolding issue_item
  issue_item-Counted n o i = issue_tickets-Counted (pos_part i.quantity) n o i.ticket_type_id

  finished : (P : Platform → Type 0) (r : Result (Unit {0}) × Platform) → Finishes P r → P r.1
  finished P (ok _, s) h = h
  finished P (err _, s) h = absurd h

  items-Counted :
      (is : List OrderItem) (n : ℕ) (o : Order)
      → Total (Counted n) (Counted (n + total is)) (for_each is (issue_item uuids o))
  unfolding for_each
  items-Counted [] n o = record {
    run = λ s h. record { quiet = h.quiet; count = ground (arith, h.count) };
  }
  items-Counted (i ∷ is) n o = record {
    run = λ s h.
        subst
          (λ j. Finishes (Counted j) (for_each is (issue_item uuids o) (issue_item uuids o i s).1))
          (omega arith)
          ((items-Counted is (n + pos_part i.quantity) o).run _ (
            finished (Counted (n + pos_part i.quantity)) (issue_item uuids o i s)
              ((issue_item-Counted n o i).run s h)));
  }

  deliver-Counted :
      (n id : ℕ) (o : Order) (s : Platform)
      → Counted n s
      → Finishes (Counted (n + total (items_of id s.items))) (deliver uuids id o s)
  unfolding deliver list_order_items external
  deliver-Counted n id o s h =
      calm
        (λ t.
          length t.tickets ≡ n
          → Finishes (Counted (n + total (items_of id t.items))) (deliver uuids id o t))
        s h.quiet
        (λ e.
          (given (items_of id s.items)).run (with_script [] s) (record { quiet = refl; count = e }))
        h.count
    where
      given :
          (is : List OrderItem)
          → Total
              (Counted n)
              (Counted (n + total is))
              (for_each is (issue_item uuids o) >> ignore (advance_queue uuids o.event_id))
      given is =
          Total-bind (items-Counted is n o)
            λ _. Total-ignore (advance_queue-Keeps uuids (Counted-rules (n + total is)) o.event_id)

  settle-Counted :
      (n id : ℕ) (o x : Order) (s : Platform)
      → find_order id s.orders ≡ some x
      → Counted n s
      → Finishes (Counted (n + total (items_of id s.items))) (settle uuids id o s)
  unfolding settle update_order_status write_status external
  settle-Counted n id o x s found h =
      calm
        (λ t.
          find_order id t.orders ≡ some x
          → length t.tickets ≡ n
          → Finishes (Counted (n + total (items_of id t.items))) (settle uuids id o t))
        s h.quiet
        (λ found e.
          subst
            (λ y. Finishes (Counted (n + total (items_of id s.items))) (
              ((◌>>◌ (or_none y no_rows)
                    (modify (λ s. record s { orders = set_status id "PAID" s.orders })))
                  >> deliver uuids id o)
                (with_script [] s)))
            (sym found)
            (deliver-Counted n id o
              (record (with_script [] s) { orders = set_status id "PAID" s.orders })
              (record { quiet = refl; count = e })))
        found h.count

  -- The order that was read is settled, unless it is paid.
  settle_read :
      (n id : ℕ) (o : Order) (s : Platform)
      → find_order id s.orders ≡ some o
      → o.status ≢ "PAID"
      → Counted n s
      → Finishes
          (Counted (n + total (items_of id s.items)))
          ((if str_eq o.status "PAID" then pure tt else settle uuids id o) s)
  settle_read n id o s found unpaid h = tested _ refl
    where
      tested :
          (b : Bool)
          → str_eq o.status "PAID" ≡ b
          → Finishes
              (Counted (n + total (items_of id s.items)))
              ((if b then pure tt else settle uuids id o) s)
      tested true e = absurd (unpaid (ground (arith, eq_iff o.status "PAID", e)))
      tested false e = settle-Counted n id o o s found h

  handle-Counted :
      (x : String) (id : ℕ) (o : Order) (s : Platform)
      → s.env.script ≡ []
      → uuids.parse x ≡ some id
      → find_order id s.orders ≡ some o
      → o.status ≢ "PAID"
      → Finishes
          (Counted (length s.tickets + total (items_of id s.items)))
          (handle_payment_success uuids x s)
  unfolding handle_payment_success get_order external
  handle-Counted x id o s quiet e found unpaid =
      calm
        (λ t.
          find_order id t.orders ≡ some o
          → Finishes (Counted (length t.tickets + total (items_of id t.items)))
              (handle_payment_success uuids x t))
        s quiet
        (λ found.
          subst
            (λ p. Finishes (Counted (length s.tickets + total (items_of id s.items))) (
              (◌>>=◌ (or_none p err_invalid_uuid) (λ id.
                  ◌>>=◌ (get_order id)
                    (λ o. if str_eq o.status "PAID" then pure tt else settle uuids id o)))
                (with_script [] s)))
            (sym e)
            (subst
              (λ y. Finishes (Counted (length s.tickets + total (items_of id s.items))) (
                (◌>>=◌ (or_none y no_rows)
                    (λ o. if str_eq o.status "PAID" then pure tt else settle uuids id o))
                  (with_script [] s)))
              (sym found)
              (settle_read (length s.tickets) id o (with_script [] s) found unpaid
                (record { quiet = refl; count = refl }))))
        found

counted :
    (n : ℕ) (r : Result (Unit {0}) × Platform)
    → Finishes (Counted n) r
    → (r.0 ≡ ok tt) × (length r.1.tickets ≡ n)
counted n (ok _, s) h = (refl, h.count)
counted n (err _, s) h = absurd h

-- Where no call fails, `HandlePaymentSuccess` on an order that exists and is not paid yet
-- succeeds, and creates exactly as many tickets as the quantities of the order's items add up to.
pub payment_issues_all :
    (uuids : Uuids) (x : String) (id : ℕ) (o : Order) (s : Platform)
    → s.env.script ≡ []
    → uuids.parse x ≡ some id
    → find_order id s.orders ≡ some o
    → o.status ≢ "PAID"
    → ((handle_payment_success uuids x s).0 ≡ ok tt)
      × (length (handle_payment_success uuids x s).1.tickets
          ≡ length s.tickets + total (items_of id s.items))
payment_issues_all uuids x id o s quiet e found unpaid =
    counted _ _ (handle-Counted uuids x id o s quiet e found unpaid)
