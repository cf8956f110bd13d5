-- ===== src/Intents/Rows.antt =====
-- How the rows of the payment service change.
use entra_api.Base.{
  ℕ, suc, ◌<◌, String, ◌≡◌, refl, ◌⊎◌, inl, inr, ◌&&◌, some, List, [], ◌∷◌, ◌++◌, ◌==◌, All,
  All-append, arith, str_eq, Bool-cases, subst, sym, ap, ◌∙◌,
}
use entra_api.Intents.{Payment, find_payment, put_status}

-- The row is as it was, or it was pending and has expired.
abbrev pub Later : Payment → Payment → Type 0
Later p q = (q ≡ p) ⊎ ((p.status ≡ "PENDING") × (q ≡ record p { status = "EXPIRED" }))

-- Each old row stands at its place, as a later one, and new rows stand behind them.
abbrev pub Extends : List Payment → List Payment → Type 0
Extends [] qs = Unit
Extends (p ∷ ps) [] = ⊥
Extends (p ∷ ps) (q ∷ qs) = Later p q × Extends ps qs

-- The ids increase, and the next one is greater.
abbrev pub Increasing : List Payment → ℕ → Type 0
Increasing [] n = Unit
Increasing (p ∷ ps) n = (p.id < n) × (All (λ q. p.id < q.id) ps × Increasing ps n)

pub Extends-refl : (ps : List Payment) → Extends ps ps
Extends-refl [] = tt
Extends-refl (p ∷ ps) = (inl refl, Extends-refl ps)

pub Extends-append : (ps qs : List Payment) → Extends ps (ps ++ qs)
Extends-append [] qs = tt
Extends-append (p ∷ ps) qs = (inl refl, Extends-append ps qs)

Later-trans : (p q r : Payment) → Later p q → Later q r → Later p r
Later-trans p q r h k = elim h [
  | inl same ↦ subst (λ x. Later x r) same k
  | inr (pending, expired) ↦ elim k [
    | inl same ↦ inr (pending, same ∙ expired)
    | inr (_, again) ↦
        inr (pending, again ∙ ap (λ (x : Payment). record x { status = "EXPIRED" }) expired)
  ]
]

pub Extends-trans : (ps qs rs : List Payment) → Extends ps qs → Extends qs rs → Extends ps rs
Extends-trans [] qs rs h k = tt
Extends-trans (p ∷ ps) [] rs h k = absurd h
Extends-trans (p ∷ ps) (q ∷ qs) [] h k = absurd k
Extends-trans (p ∷ ps) (q ∷ qs) (r ∷ rs) h k =
    (Later-trans p q r (h.0) (k.0), Extends-trans ps qs rs (h.1) (k.1))

-- A status for an id below all of the rows' changes none.
untouched :
    (id : ℕ) (status : String) (ps : List Payment)
    → All (λ q. id < q.id) ps
    → put_status id status ps ≡ ps
unfolding put_status
untouched id status [] h = refl
untouched id status (p ∷ ps) h = ground (arith, h, untouched id status ps (h.1))

find_payment-All :
    (P : Payment → Type 0) (reference : ℕ) (kind : String) (p : Payment) (ps : List Payment)
    → All P ps
    → find_payment reference kind ps ≡ some p
    → P p
unfolding find_payment
find_payment-All P reference kind p [] h e = absurd (ground (arith, e))
find_payment-All P reference kind p (q ∷ qs) h e =
    elim (Bool-cases (q.reference_id == reference && str_eq q.reference_type kind)) [
      | inl hit ↦ subst P (ground (arith, hit, e)) (h.0)
      | inr miss ↦ find_payment-All P reference kind p qs (h.1) (ground (arith, miss, e))
    ]

-- The statement that expires a pending row of a reference changes that row only.
pub put_status-Extends :
    (reference : ℕ) (kind : String) (p : Payment) (ps : List Payment) (n : ℕ)
    → Increasing ps n
    → find_payment reference kind ps ≡ some p
    → p.status ≡ "PENDING"
    → Extends ps (put_status p.id "EXPIRED" ps)
unfolding find_payment put_status
put_status-Extends reference kind p [] n h e pending = tt
put_status-Extends reference kind p (q ∷ qs) n h e pending =
    elim (Bool-cases (q.reference_id == reference && str_eq q.reference_type kind)) [
      | inl hit ↦
          let same : q ≡ p = ground (arith, hit, e) in
          (
            inr (
              subst (λ x. x.status ≡ "PENDING") (sym same) pending,
              ground (arith, ap (λ x. x.id) same),
            ),
            subst (Extends qs)
                (sym (
                  untouched p.id "EXPIRED" qs
                    (subst (λ x. All (λ r. x.id < r.id) qs) same (h.1.0))))
                (Extends-refl qs),
          )
      | inr miss ↦
          let e' : find_payment reference kind qs ≡ some p = ground (arith, miss, e) in
          (
            inl (
                ground (arith, find_payment-All (λ r. q.id < r.id) reference kind p qs (h.1.0) e')),
            put_status-Extends reference kind p qs n (h.1.1) e' pending,
          )
    ]

put_status-All :
    (m id : ℕ) (status : String) (ps : List Payment)
    → All (λ q. m < q.id) ps
    → All (λ q. m < q.id) (put_status id status ps)
unfolding put_status
put_status-All m id status [] h = tt
put_status-All m id status (p ∷ ps) h = elim (Bool-cases (p.id == id)) [
  | inl hit ↦ rw hit (h.0, put_status-All m id status ps (h.1))
  | inr miss ↦ rw miss (h.0, put_status-All m id status ps (h.1))
]

pub put_status-Increasing :
    (id : ℕ) (status : String) (ps : List Payment) (n : ℕ)
    → Increasing ps n
    → Increasing (put_status id status ps) n
unfolding put_status
put_status-Increasing id status [] n h = tt
put_status-Increasing id status (p ∷ ps) n h =
    let rest : All (λ q. p.id < q.id) (put_status id status ps)
        × Increasing (put_status id status ps) n =
      (put_status-All p.id id status ps (h.1.0), put_status-Increasing id status ps n (h.1.1)) in
    elim (Bool-cases (p.id == id)) [ inl hit ↦ rw hit (h.0, rest) | inr miss ↦ rw miss (h.0, rest) ]

pub append-Increasing :
    (ps : List Payment) (p : Payment) (n : ℕ)
    → Increasing ps n
    → p.id ≡ n
    → Increasing (ps ++ p ∷ []) (suc n)
append-Increasing [] p n h e = (omega (arith, e), (tt, tt))
append-Increasing (q ∷ qs) p n h e = (
  omega (arith, h.0),
  (
    All-append (λ r. q.id < r.id) qs (p ∷ []) (h.1.0) (omega (arith, h.0, e), tt),
    append-Increasing qs p n (h.1.1) e,
  ),
)

-- A later row has the same reference.
Later-test :
    (reference : ℕ) (kind : String) (p q : Payment)
    → Later p q
    → (q.reference_id == reference && str_eq q.reference_type kind)
      ≡ (p.reference_id == reference && str_eq p.reference_type kind)
Later-test reference kind p q h = elim h [
  | inl e ↦ ap (λ (x : Payment). x.reference_id == reference && str_eq x.reference_type kind) e
  | inr (_, e) ↦ ap (λ (x : Payment). x.reference_id == reference && str_eq x.reference_type kind) e
]

-- The first row of a reference stays the first one, as a later one.
pub find-Extends :
    (reference : ℕ) (kind : String) (p : Payment) (ps qs : List Payment)
    → Extends ps qs
    → find_payment reference kind ps ≡ some p
    → (q : Payment) × (find_payment reference kind qs ≡ some q) × Later p q
unfolding find_payment
find-Extends reference kind p [] qs h e = absurd (ground (arith, e))
find-Extends reference kind p (x ∷ xs) [] h e = absurd h
find-Extends reference kind p (x ∷ xs) (y ∷ ys) h e =
    elim (Bool-cases (x.reference_id == reference && str_eq x.reference_type kind)) [
      | inl hit ↦
          let same : x ≡ p = ground (arith, hit, e) in
          (
            y,
            ground (arith, hit, Later-test reference kind x y (h.0)),
            subst (λ z. Later z y) same (h.0),
          )
      | inr miss ↦
          let (q, found, later) =
            find-Extends reference kind p xs ys (h.1) (ground (arith, miss, e)) in
          (q, ground (arith, miss, found, Later-test reference kind x y (h.0)), later)
    ]
