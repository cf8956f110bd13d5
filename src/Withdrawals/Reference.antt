-- ===== src/Withdrawals/Reference.antt =====
-- What a request for a withdrawal comes to where no call fails, with and without a transaction.
use entra_api.Base.{
  ℕ, suc, String, ◌≡◌, refl, sym, ap, subst, false, none, some, List, [], ◌∷◌, ◌++◌, arith,
  if◌then◌else◌,
}
use entra_api.Base.Go.{Outcome, Result, ok, err}
use entra_api.Base.External.{Uuids, Floats}
use entra_api.Withdrawals.Tables.{
  Withdrawal, Payouts, call_out, is_deducted, settled_of, revenue, sum_of, get_organizer_stats,
  get_withdrawn_summary, fits_decimal, insert_withdrawal, create_withdrawal, commit,
}
use entra_api.Withdrawals.{
  CreateWithdrawalRequest, err_insufficient_balance, err_create, optional_text, events_of, id_texts,
  fetch_organizer_event_ids, parse_ids, get_dashboard_stats, platform_fee_percent, net_revenue,
  available_balance, get_organizer_balance, create_pending, request_in_transaction,
  rest_of_transaction, request_alone, request_withdrawal,
}

abbrev pub with_script : List Outcome → Payouts → Payouts
with_script script s = record s {
  shop = record s.shop { env = record { now = s.shop.env.now; script = script } };
}

pub calm :
    (T : Payouts → Type 0) (s : Payouts) → s.shop.env.script ≡ [] → T (with_script [] s) → T s
calm T s quiet h = subst T (sym (ap (λ x. with_script x s) quiet)) h

-- What an organizer has sold: nothing without events.
abbrev pub gross_revenue : Floats → List ℕ → Payouts → ℕ
gross_revenue floats [] s = floats.of_nat 0
gross_revenue floats (e ∷ es) s = floats.of_numeric (revenue (settled_of (e ∷ es) s.shop.orders))

-- What is left to an organizer, from the orders and the withdrawals.
unfoldable pub balance_of : Floats → ℕ → Payouts → ℕ
balance_of floats id s =
    available_balance floats
      (net_revenue floats (gross_revenue floats (events_of id s.shop.events) s)
        (platform_fee_percent floats s.fee))
      (sum_of id is_deducted s.withdrawals)

abbrev pub requested : Floats → ℕ → CreateWithdrawalRequest → Payouts → Withdrawal
requested floats id req s = record {
  id = s.shop.next_id;
  organizer_id = id;
  amount = floats.to_numeric req.amount;
  bank_name = req.bank_name;
  account_number = req.account_number;
  account_name = req.account_name;
  status = "PENDING";
  rejection_reason = none;
  notes = optional_text req.notes;
  created_at = s.shop.env.now;
}

abbrev pub with_withdrawal : Withdrawal → Payouts → Payouts
with_withdrawal w s = record s {
  withdrawals = s.withdrawals ++ w ∷ [];
  shop = record s.shop { next_id = suc s.shop.next_id };
}

-- The reference: the amount is compared with the balance, and recorded.
unfoldable pub payout : Floats → ℕ → CreateWithdrawalRequest → Payouts → Result Withdrawal × Payouts
payout floats id req s =
    if floats.lt (balance_of floats id s) req.amount
    then (err err_insufficient_balance, s)
    else if fits_decimal (floats.to_numeric req.amount)
    then (ok (requested floats id req s), with_withdrawal (requested floats id req s) s)
    else (err err_create, s)

parse-id_texts : (uuids : Uuids) (ids : List ℕ) → parse_ids uuids (id_texts uuids ids) ≡ ids
unfolding parse_ids id_texts
parse-id_texts uuids [] = refl
parse-id_texts uuids (id ∷ ids) = ground (arith, uuids.parse-to_string id, parse-id_texts uuids ids)

module _ (uuids : Uuids) (floats : Floats) where
  alone-payout :
      (organizer : String) (id : ℕ) (req : CreateWithdrawalRequest) (s : Payouts)
      → uuids.parse organizer ≡ some id
      → request_alone uuids floats organizer id req (with_script [] s)
        ≡ payout floats id req (with_script [] s)
  unfolding request_alone get_organizer_balance get_dashboard_stats fetch_organizer_event_ids
      call_out get_organizer_stats get_withdrawn_summary create_pending create_withdrawal
      insert_withdrawal payout balance_of id_texts parse_ids
  alone-payout organizer id req s e =
      ground (arith, e, parse-id_texts uuids (events_of id s.shop.events))

  transaction-payout :
      (organizer : String) (id : ℕ) (req : CreateWithdrawalRequest) (s : Payouts)
      → uuids.parse organizer ≡ some id
      → request_in_transaction uuids floats organizer id req (with_script [] s)
        ≡ payout floats id req (with_script [] s)
  unfolding request_in_transaction rest_of_transaction get_dashboard_stats fetch_organizer_event_ids
      call_out get_organizer_stats get_withdrawn_summary create_pending create_withdrawal
      insert_withdrawal commit payout balance_of id_texts parse_ids
  transaction-payout organizer id req s e =
      ground (arith, e, parse-id_texts uuids (events_of id s.shop.events))

  quiet-payout :
      (organizer : String) (id : ℕ) (req : CreateWithdrawalRequest) (s : Payouts)
      → uuids.parse organizer ≡ some id
      → floats.lt req.amount (floats.of_nat 10000) ≡ false
      → request_withdrawal uuids floats organizer req (with_script [] s)
        ≡ payout floats id req (with_script [] s)
  unfolding request_withdrawal
  quiet-payout organizer id req s e enough =
      ground (
        arith,
        e,
        enough,
        alone-payout organizer id req s e,
        transaction-payout organizer id req s e,
      )

  -- Where no call fails, RequestWithdrawal with its transaction and without one both do what the
  -- reference says: an amount of at least 10,000 that is not above the organizer's balance (revenue
  -- of the settled orders of the organizer's events, less the fee, less what is withdrawn or asked
  -- for) becomes one PENDING row, and any greater amount is refused without an effect.
  pub request-payout :
      (organizer : String) (id : ℕ) (req : CreateWithdrawalRequest) (s : Payouts)
      → s.shop.env.script ≡ []
      → uuids.parse organizer ≡ some id
      → floats.lt req.amount (floats.of_nat 10000) ≡ false
      → request_withdrawal uuids floats organizer req s ≡ payout floats id req s
  request-payout organizer id req s quiet e enough =
      calm (λ s. request_withdrawal uuids floats organizer req s ≡ payout floats id req s) s quiet
        (quiet-payout organizer id req s e enough)
