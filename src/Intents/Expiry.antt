-- ===== src/Intents/Expiry.antt =====
-- A cancelled order's payment, where no query fails.
use Prim.Native.String
use entra_api.Base.{
  ℕ, String, ◌≡◌, refl, inl, inr, true, ◌&&◌, none, some, List, [], ◌∷◌, ◌++◌, ◌==◌, arith, str_eq,
  if◌then◌else◌, Bool-cases, subst, sym, ap, ◌∙◌, eq_iff,
}
use entra_api.Base.Go.{Outcome}
use entra_api.Base.External.{Uuids, Floats}
use entra_api.Withdrawals.Tables.{fits_decimal}
use entra_api.Intents.{
  Payment, Intents, ask, insert_payment, create_payment, find_payment, get_payment_by_reference_id,
  update_payment_status, create_payment_intent, handle_reference_cancelled, put_status,
  PaymentMessage, order_created, order_cancelled, topup_created, skipped, handle_message,
  handle_messages,
}
use entra_api.Intents.Rows.{Later, Increasing, find-Extends}
use entra_api.Intents.Orders.{handled, payments_only_expire}

abbrev with_script : List Outcome → Intents → Intents
with_script script s = record s { env = record { now = s.env.now; script = script } }

calm : (T : Intents → Type 0) (s : Intents) → s.env.script ≡ [] → T (with_script [] s) → T s
calm T s quiet h = subst T (sym (ap (λ x. with_script x s) quiet)) h

find-append :
    (reference : ℕ) (kind : String) (p : Payment) (ps : List Payment)
    → find_payment reference kind ps ≡ none
    → (p.reference_id == reference && str_eq p.reference_type kind) ≡ true
    → find_payment reference kind (ps ++ p ∷ []) ≡ some p
unfolding find_payment
find-append reference kind p [] h e = ground (arith, e)
find-append reference kind p (q ∷ qs) h e = ground (arith, h, find-append reference kind p qs)

find-put :
    (reference : ℕ) (kind status : String) (p : Payment) (ps : List Payment)
    → find_payment reference kind ps ≡ some p
    → find_payment reference kind (put_status p.id status ps) ≡ some (record p { status = status })
unfolding find_payment put_status
find-put reference kind status p [] h = absurd (ground (arith, h))
find-put reference kind status p (q ∷ qs) h =
    elim (Bool-cases (q.reference_id == reference && str_eq q.reference_type kind)) [
      | inl hit ↦
          let same : q ≡ p = ground (arith, hit, h) in
          ground (
            arith,
            hit,
            ap (λ x. x.id) same,
            ap (λ (x : Payment). record x { status = status }) same,
          )
      | inr miss ↦
          let rest = find-put reference kind status p qs (ground (arith, miss, h)) in
          elim (Bool-cases (q.id == p.id)) [
            | inl same ↦ ground (arith, same, miss, rest)
            | inr other ↦ ground (arith, other, miss, rest)
          ]
    ]

module _ (uuids : Uuids) (floats : Floats) where
  quiet_message :
      (m : PaymentMessage) (s : Intents)
      → s.env.script ≡ []
      → (handle_message uuids floats m s).1.env.script ≡ []
  unfolding handle_message create_payment_intent create_payment insert_payment ask
      handle_reference_cancelled get_payment_by_reference_id update_payment_status
  quiet_message (order_created order_id user_id amount) s quiet =
      calm
        (λ s.
          (handle_message uuids floats (order_created order_id user_id amount) s).1.env.script ≡ [])
        s quiet (ground arith)
  quiet_message (order_cancelled order_id) s quiet =
      calm (λ s. (handle_message uuids floats (order_cancelled order_id) s).1.env.script ≡ []) s
        quiet (ground arith)
  quiet_message (topup_created reference_id user_id amount) s quiet =
      calm
        (λ s.
          (handle_message uuids floats (topup_created reference_id user_id amount) s).1.env.script
          ≡ [])
        s quiet (ground arith)
  quiet_message skipped s quiet = quiet

  quiet_messages :
      (ms : List PaymentMessage) (s : Intents)
      → s.env.script ≡ []
      → (handle_messages uuids floats ms s).env.script ≡ []
  unfolding handle_messages
  quiet_messages [] s quiet = quiet
  quiet_messages (m ∷ ms) s quiet = quiet_messages ms _ (quiet_message m s quiet)

  messages-append :
      (ms : List PaymentMessage) (m : PaymentMessage) (s : Intents)
      → handle_messages uuids floats (ms ++ m ∷ []) s
        ≡ (handle_message uuids floats m (handle_messages uuids floats ms s)).1
  unfolding handle_messages
  messages-append [] m s = refl
  messages-append (x ∷ xs) m s = messages-append xs m (handle_message uuids floats x s).1

  -- The row that a message of a new order makes.
  abbrev pub intent : Intents → ℕ → ℕ → String → ℕ → Payment
  intent s id user order_id amount = record {
    id = s.next_id;
    reference_id = id;
    reference_type = "TICKET";
    user_id = user;
    amount = floats.to_numeric amount;
    status = "PENDING";
    payment_url = some (String.◌++◌ "https://sandbox.entra.local/pay/" order_id);
  }

  created_row :
      (order_id user_id : String) (amount id user : ℕ) (s : Intents)
      → uuids.parse order_id ≡ some id
      → uuids.parse user_id ≡ some user
      → fits_decimal (floats.to_numeric amount) ≡ true
      → s.env.script ≡ []
      → (handle_message uuids floats (order_created order_id user_id amount) s).1.payments
        ≡ s.payments ++ intent s id user order_id amount ∷ []
  unfolding handle_message create_payment_intent create_payment insert_payment ask
  created_row order_id user_id amount id user s reads reads_user fits quiet =
      calm
        (λ s.
          (handle_message uuids floats (order_created order_id user_id amount) s).1.payments
          ≡ s.payments ++ intent s id user order_id amount ∷ [])
        s quiet (ground (arith, reads, reads_user, fits))

  expired_row :
      (order_id : String) (id : ℕ) (p : Payment) (s : Intents)
      → uuids.parse order_id ≡ some id
      → find_payment id "TICKET" s.payments ≡ some p
      → s.env.script ≡ []
      → find_payment id "TICKET"
          (handle_message uuids floats (order_cancelled order_id) s).1.payments
        ≡ some (if str_eq p.status "PENDING" then record p { status = "EXPIRED" } else p)
  unfolding handle_message handle_reference_cancelled get_payment_by_reference_id
      update_payment_status ask
  expired_row order_id id p s reads found quiet =
      calm
        (λ s.
          find_payment id "TICKET" s.payments ≡ some p
          → find_payment id "TICKET"
              (handle_message uuids floats (order_cancelled order_id) s).1.payments
            ≡ some (if str_eq p.status "PENDING" then record p { status = "EXPIRED" } else p))
        s quiet
        (λ found. ground (arith, reads, found, find-put id "TICKET" "EXPIRED" p s.payments found))
        found

  -- The order's payment is expired: it has the buyer and the amount of the message.
  abbrev pub IsExpired : List Payment → ℕ → ℕ → ℕ → Type 0
  IsExpired ps id user amount =
      (q : Payment) × (find_payment id "TICKET" ps ≡ some q)
      × (q.status ≡ "EXPIRED")
      × (q.user_id ≡ user)
      × (q.amount ≡ floats.to_numeric amount)

  ends-IsExpired :
      (id user amount : ℕ) (p q : Payment) (ps : List Payment)
      → p.status ≡ "PENDING"
      → p.user_id ≡ user
      → p.amount ≡ floats.to_numeric amount
      → Later p q
      → find_payment id "TICKET" ps
        ≡ some (if str_eq q.status "PENDING" then record q { status = "EXPIRED" } else q)
      → IsExpired ps id user amount
  ends-IsExpired id user amount p q ps pending buyer paid later found = elim later [
    | inl same ↦ (
      record q { status = "EXPIRED" },
      ground (
        arith,
        found,
        eq_iff q.status "PENDING",
        subst (λ x. x.status ≡ "PENDING") (sym same) pending,
      ),
      refl,
      ap (λ x. x.user_id) same ∙ buyer,
      ap (λ x. x.amount) same ∙ paid,
    )
    | inr (_, expired) ↦ (
      q,
      ground (arith, found, ap (λ x. x.status) expired),
      ap (λ x. x.status) expired,
      ap (λ x. x.user_id) expired ∙ buyer,
      ap (λ x. x.amount) expired ∙ paid,
    )
  ]

  -- Where no query fails, an order that the payment service has not heard of, and of which it is told
  -- that it was created and later, whatever messages come between, that it was cancelled, ends with
  -- an expired payment of the buyer and the amount that the first message named.
  pub created-cancelled :
      (order_id user_id : String) (amount id user : ℕ) (ms : List PaymentMessage) (s : Intents)
      → s.env.script ≡ []
      → Increasing s.payments s.next_id
      → find_payment id "TICKET" s.payments ≡ none
      → uuids.parse order_id ≡ some id
      → uuids.parse user_id ≡ some user
      → fits_decimal (floats.to_numeric amount) ≡ true
      → IsExpired
          (handle_messages uuids floats
            (order_created order_id user_id amount ∷ (ms ++ order_cancelled order_id ∷ []))
            s).payments
          id
          user
          amount
  unfolding handle_messages
  created-cancelled order_id user_id amount id user ms s quiet ids new reads reads_user fits =
      let first = order_created order_id user_id amount in
      let row = intent s id user order_id amount in
      let t = (handle_message uuids floats first s).1 in
      let last = handle_messages uuids floats ms t in
      let made : find_payment id "TICKET" t.payments ≡ some row =
        subst (λ ps. find_payment id "TICKET" ps ≡ some row)
          (sym (created_row order_id user_id amount id user s reads reads_user fits quiet))
          (find-append id "TICKET" row s.payments new (ground arith)) in
      let (q, found, later) =
        find-Extends id "TICKET" row t.payments last.payments
          (payments_only_expire uuids floats ms t (handled uuids floats first s ids).ids) made in
      subst (λ (x : Intents). IsExpired x.payments id user amount)
        (sym (messages-append ms (order_cancelled order_id) t))
        (ends-IsExpired id user amount row q
          ((handle_message uuids floats (order_cancelled order_id) last).1.payments) refl refl refl
          later
          (expired_row order_id id q last reads found
            (quiet_messages ms t (quiet_message first s quiet))))
