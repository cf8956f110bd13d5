-- ===== src/Intents/Orders.antt =====
-- What the payment service knows of an order, from the messages about it.
use Prim.Native.String
use entra_api.Base.{
  ℕ, String, ◌≡◌, refl, ◌⊎◌, inl, inr, Option, none, some, List, [], ◌∷◌, arith, str_eq, Bool-cases,
  Option-cases, subst, sym, eq_iff, not,
}
use entra_api.Base.Go.{message}
use entra_api.Base.Int.{ℤ}
use entra_api.Base.Keeps.{Keeps, Keeps-or_none, Keeps-fail_if, Keeps-bind}
use entra_api.Base.External.{Uuids, Floats}
use entra_api.Withdrawals.Tables.{fits_decimal}
use entra_api.Intents.{
  Payment, Intents, ask, insert_payment, create_payment, find_payment, get_payment_by_reference_id,
  update_payment_status, create_payment_intent, handle_reference_cancelled, PaymentMessage,
  put_status, order_created, order_cancelled, topup_created, skipped, handle_message,
  handle_messages,
}
use entra_api.Intents.Rows.{
  Extends, Increasing, Extends-refl, Extends-append, Extends-trans, put_status-Extends,
  put_status-Increasing, append-Increasing,
}

-- What one step has made of the table: the ids still increase, and the rows are later ones.
pub record Step (s s' : Intents) : Type 0 where
  pub ids : Increasing s'.payments s'.next_id
  pub rows : Extends s.payments s'.payments

ask-Keeps : (s : Intents) → Keeps (Step s) ask
unfolding ask
ask-Keeps s = record { run = λ t h. record { ids = h.ids; rows = h.rows } }

insert-Keeps :
    (reference : ℕ) (kind : String) (user : ℕ) (amount : ℤ) (status : String) (url : Option String)
    (s : Intents)
    → Keeps (Step s) (insert_payment reference kind user amount status url)
unfolding insert_payment
insert-Keeps reference kind user amount status url s = record {
  run = λ t h. record {
    ids = append-Increasing t.payments _ t.next_id h.ids refl;
    rows = Extends-trans s.payments t.payments _ h.rows (Extends-append t.payments _);
  };
}

Step-refl : (s : Intents) → Increasing s.payments s.next_id → Step s s
Step-refl s h = record { ids = h; rows = Extends-refl s.payments }

Step-trans : (s t u : Intents) → Step s t → Step t u → Step s u
Step-trans s t u h k = record {
  ids = k.ids;
  rows = Extends-trans s.payments t.payments u.payments h.rows k.rows;
}

-- A run that leaves the table as it is.
Step-same :
    (s t : Intents)
    → Increasing s.payments s.next_id
    → t.payments ≡ s.payments
    → t.next_id ≡ s.next_id
    → Step s t
Step-same s t h e n = record {
  ids = subst (λ ps. Increasing ps t.next_id) (sym e) (subst (Increasing s.payments) (sym n) h);
  rows = subst (Extends s.payments) (sym e) (Extends-refl s.payments);
}

expires :
    (reference : ℕ) (kind : String) (p : Payment) (s t : Intents)
    → Increasing s.payments s.next_id
    → find_payment reference kind s.payments ≡ some p
    → p.status ≡ "PENDING"
    → t.payments ≡ put_status p.id "EXPIRED" s.payments
    → t.next_id ≡ s.next_id
    → Step s t
expires reference kind p s t h found pending e n = record {
  ids =
      subst (λ ps. Increasing ps t.next_id) (sym e)
        (subst (Increasing (put_status p.id "EXPIRED" s.payments)) (sym n)
          (put_status-Increasing p.id "EXPIRED" s.payments s.next_id h));
  rows =
      subst (Extends s.payments) (sym e)
        (put_status-Extends reference kind p s.payments s.next_id h found pending);
}

module _ (uuids : Uuids) (floats : Floats) where
  create-Keeps :
      (reference kind user : String) (amount : ℕ) (s : Intents)
      → Keeps (Step s) (create_payment_intent uuids floats reference kind user amount)
  unfolding create_payment_intent create_payment
  create-Keeps reference kind user amount s =
      Keeps-bind (Keeps-or_none (uuids.parse reference) (message "invalid UUID")) λ rid.
        Keeps-bind (Keeps-or_none (uuids.parse user) (message "invalid UUID")) λ uid.
          Keeps-bind (ask-Keeps s) λ _.
            Keeps-bind
              (Keeps-fail_if (not (fits_decimal (floats.to_numeric amount)))
                (message "numeric field overflow"))
              λ _.
                insert-Keeps rid kind uid (floats.to_numeric amount) "PENDING"
                  (some (String.◌++◌ "https://sandbox.entra.local/pay/" reference)) s

  -- Only a pending row of the reference is changed.
  cancel_leaves :
      (reference kind : String) (rid : ℕ) (p : Payment) (s : Intents)
      → uuids.parse reference ≡ some rid
      → find_payment rid kind s.payments ≡ some p
      → ((handle_reference_cancelled uuids floats reference kind s).1.payments ≡ s.payments)
        ⊎ ((p.status ≡ "PENDING")
            × ((handle_reference_cancelled uuids floats reference kind s).1.payments
                ≡ put_status p.id "EXPIRED" s.payments))
  unfolding handle_reference_cancelled get_payment_by_reference_id update_payment_status ask
  cancel_leaves reference kind rid p s read found = elim (Bool-cases (str_eq p.status "PENDING")) [
    | inl pending ↦ ground (arith, read, found, pending, eq_iff p.status "PENDING")
    | inr settled ↦ inl (ground (arith, read, found, settled))
  ]

  cancel_numbers :
      (reference kind : String) (s : Intents)
      → (handle_reference_cancelled uuids floats reference kind s).1.next_id ≡ s.next_id
  unfolding handle_reference_cancelled get_payment_by_reference_id update_payment_status ask
  cancel_numbers reference kind s = ground arith

  -- Without the reference the table stays.
  cancel_nothing :
      (reference kind : String) (s : Intents)
      → ((rid : ℕ) → uuids.parse reference ≡ some rid → find_payment rid kind s.payments ≡ none)
      → (handle_reference_cancelled uuids floats reference kind s).1.payments ≡ s.payments
  unfolding handle_reference_cancelled get_payment_by_reference_id ask
  cancel_nothing reference kind s h = elim (Option-cases (uuids.parse reference)) [
    | inl unread ↦ ground (arith, unread)
    | inr (rid, read) ↦ ground (arith, read, h rid read)
  ]

  cancelled :
      (reference kind : String) (s : Intents)
      → Increasing s.payments s.next_id
      → Step s (handle_reference_cancelled uuids floats reference kind s).1
  cancelled reference kind s h =
      let t = (handle_reference_cancelled uuids floats reference kind s).1 in
      let stays : t.payments ≡ s.payments → Step s t =
        λ e. Step-same s t h e (cancel_numbers reference kind s) in
      elim (Option-cases (uuids.parse reference)) [
        | inl unread ↦
            stays
              (cancel_nothing reference kind s λ rid read. absurd (ground (arith, unread, read)))
        | inr (rid, read) ↦ elim (Option-cases (find_payment rid kind s.payments)) [
          | inl missing ↦ stays (
              cancel_nothing reference kind s λ other reads.
                subst (λ x. find_payment x kind s.payments ≡ none) (ground (arith, read, reads))
                  missing)
          | inr (p, found) ↦ elim (cancel_leaves reference kind rid p s read found) [
            | inl same ↦ stays same
            | inr (pending, flipped) ↦
                expires rid kind p s _ h found pending flipped (cancel_numbers reference kind s)
          ]
        ]
      ]

  pub handled :
      (m : PaymentMessage) (s : Intents)
      → Increasing s.payments s.next_id
      → Step s (handle_message uuids floats m s).1
  unfolding handle_message
  handled (order_created order_id user_id amount) s h =
      (create-Keeps order_id "TICKET" user_id amount s).run s (Step-refl s h)
  handled (order_cancelled order_id) s h = cancelled order_id "TICKET" s h
  handled (topup_created reference_id user_id amount) s h =
      (create-Keeps reference_id "TOPUP" user_id amount s).run s (Step-refl s h)
  handled skipped s h = Step-refl s h

  all_handled :
      (ms : List PaymentMessage) (s : Intents)
      → Increasing s.payments s.next_id
      → Step s (handle_messages uuids floats ms s)
  unfolding handle_messages
  all_handled [] s h = Step-refl s h
  all_handled (m ∷ ms) s h =
      let first = handled m s h in
      Step-trans s _ _ first (all_handled ms (handle_message uuids floats m s).1 first.ids)

  -- In any history of messages to the payment service, whichever queries fail, no row is lost or
  -- moved, and a row changes at most once, from pending to expired: its reference, user, amount and
  -- link stay, and an expired payment stays expired.
  pub payments_only_expire :
      (ms : List PaymentMessage) (s : Intents)
      → Increasing s.payments s.next_id
      → Extends s.payments (handle_messages uuids floats ms s).payments
  payments_only_expire ms s h = (all_handled ms s h).rows
