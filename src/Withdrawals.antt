-- ===== src/Withdrawals.antt =====
-- Withdrawals of organizers: ticket-service/internal/service/withdrawal_service.go, with the revenue
-- that order_service.go computes (`FetchOrganizerEventIDs`, `GetDashboardStats`) and the fee of
-- ticket_service.go.
pub mod Tables
pub mod Reference
pub mod Deductions
pub mod Atomic
use entra_api.Base.{
  ℕ, String, Bool, true, false, not, Option, none, some, List, [], ◌∷◌, ◌==◌, str_eq, if◌then◌else◌,
}
use entra_api.Base.Int.{ℤ, pos}
use entra_api.Base.Go.{
  Go, Error, message, Result, ok, err, pure, fail, gets, attempt, or_none, or_fail, fail_if, modify,
  ◌>>=◌, ◌>>◌,
}
use entra_api.Base.External.{Uuids, Floats}
use entra_api.Platform.{Event}
use Tables.{
  Withdrawal, Payouts, call_out, GetOrganizerStatsRow, get_organizer_stats,
  GetWithdrawnSummaryByOrganizerRow, get_withdrawn_summary, create_withdrawal, get_withdrawal,
  update_withdrawal_status, Tx, directly, within, commit, then_rollback,
}

pub record CreateWithdrawalRequest : Type 0 where
  pub amount : ℕ
  pub bank_name : String
  pub account_number : String
  pub account_name : String
  pub notes : String

pub record OrganizerBalanceResponse : Type 0 where
  pub gross_revenue : ℕ
  pub platform_fee_percent : ℕ
  pub platform_fee_amount : ℕ
  pub net_revenue : ℕ
  pub total_withdrawn : ℕ
  pub available_balance : ℕ
  pub pending_amount : ℕ
  pub paid_amount : ℕ
  pub total_requests : ℕ

abbrev pub err_insufficient_balance : Error
err_insufficient_balance = message "insufficient available balance for withdrawal"

abbrev pub err_withdrawal_not_found : Error
err_withdrawal_not_found = message "withdrawal request not found"

abbrev pub err_unauthorized_access : Error
err_unauthorized_access = message "unauthorized access to withdrawal request"

abbrev pub err_invalid_amount : Error
err_invalid_amount = message "withdrawal amount must be at least 10,000"

abbrev pub err_organizer_id : Error
err_organizer_id = message "invalid organizer id"

abbrev pub err_withdrawal_id : Error
err_withdrawal_id = message "invalid withdrawal id"

abbrev pub err_stats : Error
err_stats = message "failed to fetch organizer stats"

abbrev pub err_summary : Error
err_summary = message "failed to fetch withdrawal summary"

abbrev pub err_create : Error
err_create = message "failed to create withdrawal"

-- A text that is stored as null where it is empty.
abbrev pub optional_text : String → Option String
optional_text s = if str_eq s "" then none else some s

-- `ListEventIDsByOrganizer`
unfoldable pub events_of : ℕ → List Event → List ℕ
events_of organizer [] = []
events_of organizer (e ∷ es) =
    if e.organizer_id == organizer then e.id ∷ events_of organizer es else events_of organizer es

module _ (uuids : Uuids) where
  unfoldable pub id_texts : List ℕ → List String
  id_texts [] = []
  id_texts (id ∷ ids) = uuids.to_string id ∷ id_texts ids

  -- `FetchOrganizerEventIDs`, with the handler of the event service that answers.
  unfoldable pub fetch_organizer_event_ids : String → Go Payouts (List String)
  fetch_organizer_event_ids organizer = do
    call_out
    id ← or_none (uuids.parse organizer) (message "failed to fetch events: status 500")
    gets λ s. id_texts (events_of id s.shop.events)

  -- The ids that parse.
  unfoldable pub parse_ids : List String → List ℕ
  parse_ids [] = []
  parse_ids (x ∷ xs) = elim (uuids.parse x) [ none ↦ parse_ids xs | some id ↦ id ∷ parse_ids xs ]

  abbrev pub is_empty : List String → Bool
  is_empty [] = true
  is_empty (x ∷ xs) = false

  -- `GetDashboardStats`
  unfoldable pub get_dashboard_stats : String → Go Payouts GetOrganizerStatsRow
  get_dashboard_stats organizer = do
    ids ← fetch_organizer_event_ids organizer
    if is_empty ids
        then pure (record { total_orders = 0; total_revenue = none; tickets_sold = pos 0 })
        else get_organizer_stats (parse_ids ids)

module _ (floats : Floats) where
  -- `numericToFloat64`
  abbrev pub numeric_to_float64 : Option ℤ → ℕ
  numeric_to_float64 none = floats.of_nat 0
  numeric_to_float64 (some n) = floats.of_numeric n

  -- `GetPlatformFeePercent`
  abbrev pub platform_fee_percent : ℕ → ℕ
  platform_fee_percent fee = if floats.le fee (floats.of_nat 0) then floats.of_nat 5 else fee

  -- `if x < 0 { x = 0 }`
  abbrev pub at_least_zero : ℕ → ℕ
  at_least_zero x = if floats.lt x (floats.of_nat 0) then floats.of_nat 0 else x

  abbrev pub fee_amount : ℕ → ℕ → ℕ
  fee_amount gross percent = floats.mul gross (floats.div percent (floats.of_nat 100))

  abbrev pub net_revenue : ℕ → ℕ → ℕ
  net_revenue gross percent = at_least_zero (floats.sub gross (fee_amount gross percent))

  abbrev pub available_balance : ℕ → ℤ → ℕ
  available_balance net withdrawn =
      at_least_zero (floats.sub net (numeric_to_float64 (some withdrawn)))

module _ (uuids : Uuids) (floats : Floats) where
  abbrev pub balance_response : ℕ → ℕ → GetWithdrawnSummaryByOrganizerRow → OrganizerBalanceResponse
  balance_response gross percent row =
      let net = net_revenue floats gross percent in
      record {
        gross_revenue = gross;
        platform_fee_percent = percent;
        platform_fee_amount = fee_amount floats gross percent;
        net_revenue = net;
        total_withdrawn = numeric_to_float64 floats (some row.total_deducted);
        available_balance = available_balance floats net row.total_deducted;
        pending_amount = numeric_to_float64 floats (some row.pending_amount);
        paid_amount = numeric_to_float64 floats (some row.paid_amount);
        total_requests = row.total_requests;
      }

  -- `GetOrganizerBalance`
  unfoldable pub get_organizer_balance : String → Go Payouts OrganizerBalanceResponse
  get_organizer_balance organizer = do
    id ← or_none (uuids.parse organizer) err_organizer_id
    stats ← or_fail (get_dashboard_stats uuids organizer) err_stats
    fee ← gets (λ s. s.fee)
    summary ← or_fail (get_withdrawn_summary id) err_summary
    pure (
        balance_response (numeric_to_float64 floats stats.total_revenue)
          (platform_fee_percent floats fee) summary)

  unfoldable pub create_pending : ℕ → CreateWithdrawalRequest → Go Payouts Withdrawal
  create_pending id req =
      or_fail
        (create_withdrawal id (floats.to_numeric req.amount) req.bank_name req.account_number
          req.account_name (optional_text req.notes) "PENDING")
        err_create

  -- `RequestWithdrawal` in its transaction.
  unfoldable pub rest_of_transaction : String → ℕ → CreateWithdrawalRequest → Go Tx Withdrawal
  rest_of_transaction organizer id req = do
    stats ← directly (or_fail (get_dashboard_stats uuids organizer) err_stats)
    fee ← gets (λ t. t.outside.fee)
    summary ← within (or_fail (get_withdrawn_summary id) err_summary)
    let net =
        net_revenue floats (numeric_to_float64 floats stats.total_revenue)
          (platform_fee_percent floats fee)
    fail_if (floats.lt (available_balance floats net summary.total_deducted) req.amount)
        err_insufficient_balance
    w ← within (create_pending id req)
    or_fail commit (message "failed to commit transaction")
    pure w

  -- `RequestWithdrawal` with a transaction.
  unfoldable pub request_in_transaction :
      String → ℕ → CreateWithdrawalRequest → Go Payouts Withdrawal
  request_in_transaction organizer id req = do
    or_fail call_out (message "failed to begin transaction")
    then_rollback (rest_of_transaction organizer id req)

  -- `RequestWithdrawal` without a pool.
  unfoldable pub request_alone : String → ℕ → CreateWithdrawalRequest → Go Payouts Withdrawal
  request_alone organizer id req = do
    balance ← get_organizer_balance organizer
    fail_if (floats.lt balance.available_balance req.amount) err_insufficient_balance
    create_pending id req

  -- `RequestWithdrawal`
  unfoldable pub request_withdrawal : String → CreateWithdrawalRequest → Go Payouts Withdrawal
  request_withdrawal organizer req = do
    id ← or_none (uuids.parse organizer) err_organizer_id
    fail_if (floats.lt req.amount (floats.of_nat 10000)) err_invalid_amount
    pooled ← gets (λ s. s.pooled)
    if pooled then request_in_transaction organizer id req else request_alone organizer id req

module _ (uuids : Uuids) where
  -- `GetOrganizerWithdrawalDetail`
  unfoldable pub get_organizer_withdrawal_detail : String → String → Go Payouts Withdrawal
  get_organizer_withdrawal_detail withdrawal organizer = do
    id ← or_none (uuids.parse withdrawal) err_withdrawal_id
    org ← or_none (uuids.parse organizer) err_organizer_id
    w ← or_fail (get_withdrawal id) err_withdrawal_not_found
    fail_if (not (w.organizer_id == org)) err_unauthorized_access
    pure w

  -- `AdminUpdateWithdrawalStatus`
  unfoldable pub admin_update_withdrawal_status : String → String → String → Go Payouts Withdrawal
  admin_update_withdrawal_status withdrawal status reason = do
    id ← or_none (uuids.parse withdrawal) err_withdrawal_id
    or_fail (update_withdrawal_status id status (optional_text reason))
        (message "failed to update withdrawal")
