-- ===== src/Withdrawals/Atomic.antt =====
-- A request for a withdrawal records a row or leaves the table as it is.
use entra_api.Base.{
  ℕ, String, ◌≡◌, refl, sym, subst, Bool, true, false, ◌∙◌, Option, some, List, [], ◌∷◌, ◌++◌,
  arith, if◌then◌else◌,
}
use entra_api.Base.Go.{
  Go, Error, Result, ok, err, pure, gets, or_fail, or_none, message, fail_if, ◌>>=◌, ◌>>◌,
}
use entra_api.Base.Keeps.{
  Keeps, Ensures, Ensures-bind, Keeps-gets, Keeps-bind, Keeps-or_fail, Keeps-or_none, Keeps-fail_if,
  Keeps-pure,
}
use entra_api.Base.Int.{ℤ}
use entra_api.Base.External.{Uuids, Floats}
use entra_api.Withdrawals.Tables.{
  Withdrawal, Payouts, call_out, get_organizer_stats, get_withdrawn_summary, insert_withdrawal,
  create_withdrawal, Tx, directly, within, commit,
}
use entra_api.Withdrawals.{
  CreateWithdrawalRequest, err_organizer_id, err_stats, err_summary, err_insufficient_balance,
  err_invalid_amount, rest_of_transaction, fetch_organizer_event_ids, get_dashboard_stats,
  get_organizer_balance, balance_response, available_balance, net_revenue, numeric_to_float64,
  platform_fee_percent, create_pending, request_in_transaction, request_alone, request_withdrawal,
}

record Rows (ws : List Withdrawal) (s : Payouts) : Type 0 where
  rows : s.withdrawals ≡ ws

-- One row more where there is a result, and the same rows where there is an error.
abbrev pub AllOrNothing : ℕ → List Withdrawal → Result Withdrawal × Payouts → Type 0
AllOrNothing id ws (ok w, s) =
    (s.withdrawals ≡ ws ++ w ∷ []) × (w.organizer_id ≡ id) × (w.status ≡ "PENDING")
AllOrNothing id ws (err e, s) = s.withdrawals ≡ ws

-- A run that leaves the table.
quiet :
    {A : Type 0} {ws : List Withdrawal} (m : Go Payouts A)
    → ((s : Payouts) → (m s).1.withdrawals ≡ s.withdrawals)
    → Keeps (Rows ws) m
quiet m same = record { run = λ s h. record { rows = same s ∙ h.rows } }

call-Keeps : {ws : List Withdrawal} → Keeps (Rows ws) call_out
unfolding call_out
call-Keeps = quiet call_out (λ s. ground arith)

stats-Keeps :
    {ws : List Withdrawal} (uuids : Uuids) (organizer : String)
    → Keeps (Rows ws) (get_dashboard_stats uuids organizer)
unfolding get_dashboard_stats fetch_organizer_event_ids call_out get_organizer_stats
stats-Keeps uuids organizer = quiet (get_dashboard_stats uuids organizer) (λ s. ground arith)

summary-Keeps : {ws : List Withdrawal} (id : ℕ) → Keeps (Rows ws) (get_withdrawn_summary id)
unfolding get_withdrawn_summary call_out
summary-Keeps id = quiet (get_withdrawn_summary id) (λ s. ground arith)

-- An open transaction that has written nothing yet.
record Open (ws : List Withdrawal) (t : Tx) : Type 0 where
  outer : t.outside.withdrawals ≡ ws
  inner : t.rows ≡ ws

-- The same of what is committed at the end of a transaction.
abbrev Settled : ℕ → List Withdrawal → Result Withdrawal × Tx → Type 0
Settled id ws (r, t) = AllOrNothing id ws (r, t.outside)

directly-Keeps :
    {A : Type 0} {ws : List Withdrawal} (m : Go Payouts A)
    → Keeps (Rows ws) m
    → Keeps (Open ws) (directly m)
directly-Keeps m k = record {
  run =
      λ t h. record { outer = (k.run t.outside (record { rows = h.outer })).rows; inner = h.inner };
}

within-Keeps :
    {A : Type 0} {ws : List Withdrawal} (m : Go Payouts A)
    → Keeps (Rows ws) m
    → Keeps (Open ws) (within m)
within-Keeps m k = record {
  run = λ t h. record {
    outer = h.outer;
    inner = (k.run (record t.outside { withdrawals = t.rows }) (record { rows = h.inner })).rows;
  };
}

module _ (uuids : Uuids) (floats : Floats) (id : ℕ) (req : CreateWithdrawalRequest) where
  -- The last two calls of the transaction.
  abbrev record_and_commit : Go Tx Withdrawal
  record_and_commit = do
    w ← within (create_pending uuids floats id req)
    or_fail commit (message "failed to commit transaction")
    pure w

  committed : (ws : List Withdrawal) → Ensures (Open ws) (Settled id ws) record_and_commit
  unfolding create_pending create_withdrawal insert_withdrawal call_out commit
  committed ws = record { run = ends }
    where
      ends : (t : Tx) → Open ws t → Settled id ws (record_and_commit t)
      ends t h = ground (arith, h.outer, h.inner)

  -- A step of the transaction that fails before anything is written.
  step :
      {A : Type 0} (ws : List Withdrawal) (m : Go Tx A) (f : A → Go Tx Withdrawal)
      → Keeps (Open ws) m
      → ((a : A) → Ensures (Open ws) (Settled id ws) (f a))
      → Ensures (Open ws) (Settled id ws) (m >>= f)
  step ws m f k l = Ensures-bind {P = Open ws} {Q = Settled id ws} k (λ e t h. h.outer) l

  recorded : (s : Payouts) → AllOrNothing id s.withdrawals (create_pending uuids floats id req s)
  unfolding create_pending create_withdrawal insert_withdrawal call_out
  recorded s = ground arith

  -- A run that fails before it has written anything.
  first :
      {A : Type 0} (ws : List Withdrawal) (m : Go Payouts A) (f : A → Go Payouts Withdrawal)
      → Keeps (Rows ws) m
      → ((a : A) → Ensures (Rows ws) (AllOrNothing id ws) (f a))
      → Ensures (Rows ws) (AllOrNothing id ws) (m >>= f)
  first ws m f k l = Ensures-bind {P = Rows ws} {Q = AllOrNothing id ws} k (λ e s h. h.rows) l

  -- A run that is all or nothing from the table that it finds.
  whole :
      (ws : List Withdrawal) (m : Go Payouts Withdrawal)
      → ((s : Payouts) → AllOrNothing id s.withdrawals (m s))
      → Ensures (Rows ws) (AllOrNothing id ws) m
  whole ws m k = record { run = λ s h. subst (λ ws. AllOrNothing id ws (m s)) h.rows (k s) }

  guarded :
      (ws : List Withdrawal) (c : Bool) (e : Error) (m : Go Payouts Withdrawal)
      → Ensures (Rows ws) (AllOrNothing id ws) m
      → Ensures (Rows ws) (AllOrNothing id ws) (fail_if c e >> m)
  guarded ws c e m k = first ws (fail_if c e) (λ _. m) (Keeps-fail_if c e) (λ _. k)

  -- Whether the request is above the balance.
  abbrev too_much : Option ℤ → ℕ → ℤ → Bool
  too_much gross fee withdrawn =
      floats.lt
        (available_balance floats
          (net_revenue floats (numeric_to_float64 floats gross) (platform_fee_percent floats fee))
          withdrawn)
        req.amount

  in_transaction :
      (organizer : String) (ws : List Withdrawal)
      → Ensures (Open ws) (Settled id ws) (rest_of_transaction uuids floats organizer id req)
  unfolding rest_of_transaction
  in_transaction organizer ws =
      step ws (directly (or_fail (get_dashboard_stats uuids organizer) err_stats)) _
        (directly-Keeps _ (Keeps-or_fail err_stats (stats-Keeps uuids organizer)))
        λ stats. step ws (gets (λ t. t.outside.fee)) _ (Keeps-gets (λ t. t.outside.fee)) λ fee.
          step ws (within (or_fail (get_withdrawn_summary id) err_summary)) _
            (within-Keeps _ (Keeps-or_fail err_summary (summary-Keeps id)))
            λ summary.
              step ws
                (fail_if (too_much stats.total_revenue fee summary.total_deducted)
                  err_insufficient_balance)
                _ (Keeps-fail_if _ err_insufficient_balance) λ _. committed ws

  transaction-AllOrNothing :
      (organizer : String) (ws : List Withdrawal)
      → Ensures
          (Rows ws)
          (AllOrNothing id ws)
          (request_in_transaction uuids floats organizer id req)
  unfolding request_in_transaction
  transaction-AllOrNothing organizer ws =
      first ws (or_fail call_out (message "failed to begin transaction")) _
        (Keeps-or_fail (message "failed to begin transaction") call-Keeps)
        λ _. record {
          run = λ s h.
              (in_transaction organizer ws).run (record { outside = s; rows = s.withdrawals })
                (record { outer = h.rows; inner = h.rows });
        }

  balance-Keeps :
      (organizer : String) (ws : List Withdrawal)
      → Keeps (Rows ws) (get_organizer_balance uuids floats organizer)
  unfolding get_organizer_balance
  balance-Keeps organizer ws =
      Keeps-bind (Keeps-or_none (uuids.parse organizer) err_organizer_id) λ id.
        Keeps-bind (Keeps-or_fail err_stats (stats-Keeps uuids organizer)) λ stats.
          Keeps-bind (Keeps-gets (λ s. s.fee)) λ fee.
            Keeps-bind (Keeps-or_fail err_summary (summary-Keeps id)) λ summary. Keeps-pure (
              balance_response uuids floats (numeric_to_float64 floats stats.total_revenue)
                (platform_fee_percent floats fee) summary)

  alone-AllOrNothing :
      (organizer : String) (ws : List Withdrawal)
      → Ensures (Rows ws) (AllOrNothing id ws) (request_alone uuids floats organizer id req)
  unfolding request_alone
  alone-AllOrNothing organizer ws =
      first ws (get_organizer_balance uuids floats organizer) _ (balance-Keeps organizer ws)
        λ balance.
          guarded ws (floats.lt balance.available_balance req.amount) err_insufficient_balance _
            (whole ws (create_pending uuids floats id req) recorded)

either :
    {P : Payouts → Type 0} {Q : Result Withdrawal × Payouts → Type 0} (b : Bool)
    (m n : Go Payouts Withdrawal)
    → Ensures P Q m
    → Ensures P Q n
    → Ensures P Q (if b then m else n)
either true m n k l = k
either false m n k l = l

-- Whichever external calls fail, the commit included: where RequestWithdrawal returns a withdrawal,
-- the table has that row more, which is the organizer's and PENDING; where it returns an error, the
-- table is as it was.
pub request-AllOrNothing :
    (uuids : Uuids) (floats : Floats) (organizer : String) (id : ℕ) (req : CreateWithdrawalRequest)
    (s : Payouts)
    → uuids.parse organizer ≡ some id
    → AllOrNothing id s.withdrawals (request_withdrawal uuids floats organizer req s)
unfolding request_withdrawal
request-AllOrNothing uuids floats organizer id req s e =
    subst
      (λ p. AllOrNothing id s.withdrawals (
        (◌>>=◌ (or_none p err_organizer_id) (λ id.
            ◌>>=◌ (fail_if (floats.lt req.amount (floats.of_nat 10000)) err_invalid_amount) (λ _.
              ◌>>=◌ (gets (λ s. s.pooled)) (λ pooled.
                if pooled
                then request_in_transaction uuids floats organizer id req
                else request_alone uuids floats organizer id req))))
          s))
      (sym e)
      ((first uuids floats id req s.withdrawals
          (fail_if (floats.lt req.amount (floats.of_nat 10000)) err_invalid_amount) _
          (Keeps-fail_if _ err_invalid_amount)
          (λ _.
            first uuids floats id req s.withdrawals (gets (λ s. s.pooled)) _
              (Keeps-gets (λ s. s.pooled))
              (λ pooled.
                either pooled _ _
                  (transaction-AllOrNothing uuids floats id req organizer s.withdrawals)
                  (alone-AllOrNothing uuids floats id req organizer s.withdrawals)))).run
        s (record { rows = refl }))
