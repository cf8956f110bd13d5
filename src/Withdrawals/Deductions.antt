-- ===== src/Withdrawals/Deductions.antt =====
-- What withdrawals take off a balance: a granted request its amount, and a change of status the
-- difference that the statuses make.
use entra_api.Base.{
  ℕ, String, ◌≡◌, Bool, false, ◌&&◌, Option, some, List, [], ◌∷◌, ◌++◌, arith, sym, ap, subst, ◌∙◌,
  ◌==◌, if◌then◌else◌, Bool-cases, inl, inr,
}
use mathlib.Core.Path.{◌≡⟨◌⟩◌, ◌∎}
use entra_api.Base.Int.{ℤ, pos, ◌+ℤ◌, +ℤ-assoc, zero-+ℤ, int_laws}
use entra_api.Base.Go.{ok}
use entra_api.Base.External.{Uuids, Floats}
use entra_api.Withdrawals.Tables.{
  Withdrawal, Payouts, call_out, update_withdrawal_status, is_deducted, sum_of, find_withdrawal,
  change_status,
}
use entra_api.Withdrawals.{
  CreateWithdrawalRequest, optional_text, request_withdrawal, admin_update_withdrawal_status,
}
use entra_api.Withdrawals.Reference.{requested, payout, balance_of, request-payout}

-- Sums that differ in the order of their terms.
swap : (a b c : ℤ) → (c +ℤ b) +ℤ a ≡ (a +ℤ b) +ℤ c
swap a b c = omega int_laws

carry : (a b c d e : ℤ) → b +ℤ c ≡ d +ℤ e → (a +ℤ b) +ℤ c ≡ (a +ℤ d) +ℤ e
carry a b c d e h = sym (+ℤ-assoc a b c) ∙ (ap (λ x. a +ℤ x) h ∙ +ℤ-assoc a d e)

-- What one row adds to the sum.
abbrev pub share : ℕ → (String → Bool) → Withdrawal → ℤ
share id p w = if w.organizer_id == id && p w.status then w.amount else pos 0

sum_of-cons :
    (id : ℕ) (p : String → Bool) (w : Withdrawal) (ws : List Withdrawal)
    → sum_of id p (w ∷ ws) ≡ share id p w +ℤ sum_of id p ws
unfolding sum_of
sum_of-cons id p w ws = ground (arith, zero-+ℤ (sum_of id p ws))

sum_of-append :
    (id : ℕ) (p : String → Bool) (ws : List Withdrawal) (w : Withdrawal)
    → sum_of id p (ws ++ w ∷ []) ≡ sum_of id p ws +ℤ share id p w
sum_of-append id p [] w = sum_of-cons id p w [] ∙ nil
  where
    nil : share id p w +ℤ sum_of id p [] ≡ sum_of id p [] +ℤ share id p w
    nil = omega int_laws
sum_of-append id p (v ∷ ws) w =
    sum_of id p (v ∷ (ws ++ w ∷ []))
    ≡⟨ sum_of-cons id p v (ws ++ w ∷ []) ⟩ share id p v +ℤ sum_of id p (ws ++ w ∷ [])
    ≡⟨ ap (λ x. share id p v +ℤ x) (sum_of-append id p ws w) ⟩
      share id p v +ℤ (sum_of id p ws +ℤ share id p w)
    ≡⟨ +ℤ-assoc (share id p v) (sum_of id p ws) (share id p w) ⟩
      (share id p v +ℤ sum_of id p ws) +ℤ share id p w
    ≡⟨ ap (λ x. x +ℤ share id p w) (sym (sum_of-cons id p v ws)) ⟩
      sum_of id p (v ∷ ws) +ℤ share id p w ∎

-- A change of status moves the sum by the difference of the two shares of the row.
sum_of-change :
    (id wid : ℕ) (p : String → Bool) (status : String) (reason : Option String) (w : Withdrawal)
    (ws : List Withdrawal)
    → find_withdrawal wid ws ≡ some w
    → sum_of id p (change_status wid status reason ws) +ℤ share id p w
      ≡ sum_of id p ws +ℤ share id p (record w { status = status; rejection_reason = reason })
unfolding find_withdrawal change_status
sum_of-change id wid p status reason w [] e = absurd (ground (arith, e))
sum_of-change id wid p status reason w (v ∷ ws) e = elim (Bool-cases (v.id == wid)) [
  | inl hit ↦
      let same : v ≡ w = ground (arith, hit, e) in
      let v' : Withdrawal = record v { status = status; rejection_reason = reason } in
      rw hit (
        subst
          (λ x.
            sum_of id p (record v { status = status; rejection_reason = reason } ∷ ws)
              +ℤ share id p x
            ≡ sum_of id p (v ∷ ws)
              +ℤ share id p (record x { status = status; rejection_reason = reason }))
          same
          (ground (
            arith,
            sum_of-cons id p v ws,
            sum_of-cons id p v' ws,
            swap (share id p v) (sum_of id p ws) (share id p v'),
          )))
  | inr miss ↦
      let later : find_withdrawal wid ws ≡ some w = ground (arith, miss, e) in
      rw miss (
        ground (
          arith,
          sum_of-cons id p v ws,
          sum_of-cons id p v (change_status wid status reason ws),
          carry (share id p v) (sum_of id p (change_status wid status reason ws)) (share id p w)
              (sum_of id p ws)
              (share id p (record w { status = status; rejection_reason = reason }))
              (sum_of-change id wid p status reason w ws later),
        ))
]

-- What a grant says of the balance and of the sums.
pub record Granted (floats : Floats) (id : ℕ) (req : CreateWithdrawalRequest) (s s' : Payouts)
    (w : Withdrawal) : Type 0 where
  pub enough : floats.lt (balance_of floats id s) req.amount ≡ false
  pub amount : w.amount ≡ floats.to_numeric req.amount
  pub deducts :
      (org : ℕ)
      → sum_of org is_deducted s'.withdrawals
        ≡ sum_of org is_deducted s.withdrawals
          +ℤ (if id == org then floats.to_numeric req.amount else pos 0)

payout-Granted :
    (floats : Floats) (id : ℕ) (req : CreateWithdrawalRequest) (w : Withdrawal) (s : Payouts)
    → (payout floats id req s).0 ≡ ok w
    → Granted floats id req s (payout floats id req s).1 w
unfolding payout
payout-Granted floats id req w s h = record {
  enough = ground (arith, h);
  amount = ground (arith, h);
  deducts = λ org.
      ground (arith, h, sum_of-append org is_deducted s.withdrawals (requested floats id req s));
}

module _ (uuids : Uuids) (floats : Floats) where
  -- Where no call fails, a withdrawal that RequestWithdrawal grants was not above the organizer's
  -- balance, its row holds the amount in hundredths, and what is deducted from the balance of the
  -- organizer grows by that amount, while nothing changes for any other organizer.
  pub grant_deducts :
      (organizer : String) (id : ℕ) (req : CreateWithdrawalRequest) (w : Withdrawal) (s : Payouts)
      → s.shop.env.script ≡ []
      → uuids.parse organizer ≡ some id
      → floats.lt req.amount (floats.of_nat 10000) ≡ false
      → (request_withdrawal uuids floats organizer req s).0 ≡ ok w
      → Granted floats id req s (request_withdrawal uuids floats organizer req s).1 w
  grant_deducts organizer id req w s quiet e enough h =
      let run = request-payout uuids floats organizer id req s quiet e enough in
      subst (λ r. Granted floats id req s r.1 w) (sym run)
        (payout-Granted floats id req w s (sym (ap (λ r. r.0) run) ∙ h))

module _ (uuids : Uuids) where
  -- Whichever call fails: where AdminUpdateWithdrawalStatus succeeds on an existing row, what is
  -- deducted from any organizer's balance changes by what the row counts under its new status in
  -- place of its old one. No balance is looked at, so a rejected withdrawal, whose amount may have
  -- been withdrawn again, counts in full once it is approved.
  pub status_moves_deductions :
      (withdrawal status reason : String) (wid id : ℕ) (w w' : Withdrawal) (s : Payouts)
      → uuids.parse withdrawal ≡ some wid
      → find_withdrawal wid s.withdrawals ≡ some w
      → (admin_update_withdrawal_status uuids withdrawal status reason s).0 ≡ ok w'
      → (w'.status ≡ status)
        × (sum_of id is_deducted
                (admin_update_withdrawal_status uuids withdrawal status reason s).1.withdrawals
              +ℤ share id is_deducted w
            ≡ sum_of id is_deducted s.withdrawals +ℤ share id is_deducted w')
  unfolding admin_update_withdrawal_status update_withdrawal_status call_out
  status_moves_deductions withdrawal status reason wid id w w' s e found h = ground (
    arith,
    e,
    found,
    h,
    sum_of-change id wid is_deducted status (optional_text reason) w s.withdrawals found,
  )
