-- ===== src/Withdrawals/Tables.antt =====
-- The table `withdrawals` (ticket-service/internal/repository/db/withdrawals.sql.go), the revenue
-- queries of orders.sql.go, and the state that withdrawals work on.
use entra_api.Base.{
  ℕ, suc, ◌+◌, ◌^◌, String, Bool, false, not, ◌&&◌, ◌||◌, Option, none, some, List, [], ◌∷◌, ◌++◌,
  ◌==◌, ltb, str_eq, length, if◌then◌else◌,
}
use entra_api.Base.Int.{ℤ, pos, pos_part, neg_part, ◌+ℤ◌}
use entra_api.Base.Go.{
  Go, message, no_rows, unavailable, ok, err, call, gets, or_none, fail_if, modify, ◌>>=◌, ◌>>◌,
}
use entra_api.Platform.{Order, OrderItem, Platform}
use entra_api.Tables.{items_of}

-- `amount` is a DECIMAL(15, 2), in hundredths.
pub record Withdrawal : Type 0 where
  pub id : ℕ
  pub organizer_id : ℕ
  pub amount : ℤ
  pub bank_name : String
  pub account_number : String
  pub account_name : String
  pub status : String
  pub rejection_reason : Option String
  pub notes : Option String
  pub created_at : ℕ

-- The ticket service with this table. `pooled` says whether it has a connection pool for
-- transactions, and `fee` is the configured percentage, a `float64`.
pub record Payouts : Type 0 where
  pub shop : Platform
  pub withdrawals : List Withdrawal
  pub pooled : Bool
  pub fee : ℕ

-- A call to the database or to the event service.
unfoldable pub call_out : Go Payouts (Unit {0})
call_out s =
    let (fails, env) = call s.shop.env in
    (if fails then err unavailable else ok tt, record s { shop = record s.shop { env = env } })

-- A transaction on the table: the service outside of it, whose `withdrawals` are the rows that are
-- committed, and the rows as the transaction sees them.
pub record Tx : Type 0 where
  pub outside : Payouts
  pub rows : List Withdrawal

-- `s.queries` while the transaction is open: it works on what is committed.
abbrev pub directly : {A : Type 0} → Go Payouts A → Go Tx A
directly m t = let (r, s) = m t.outside in (r, record t { outside = s })

-- `qtx`: the query works on the rows of the transaction, and what is committed stays.
abbrev pub within : {A : Type 0} → Go Payouts A → Go Tx A
within m t =
    let (r, s) = m (record t.outside { withdrawals = t.rows }) in
    (r, record { outside = record s { withdrawals = t.outside.withdrawals }; rows = s.withdrawals })

-- `tx.Commit`: the rows of the transaction become the committed ones, unless the call fails.
unfoldable pub commit : Go Tx (Unit {0})
commit = do
  directly call_out
  modify λ t. record t { outside = record t.outside { withdrawals = t.rows } }

-- `defer tx.Rollback(ctx)`: the transaction begins with the committed rows, and whatever its rows are
-- when the function returns, only those that were committed remain.
abbrev pub then_rollback : {A : Type 0} → Go Tx A → Go Payouts A
then_rollback m s = let (r, t) = m (record { outside = s; rows = s.withdrawals }) in (r, t.outside)

-- `status IN ('PAID', 'SUKSES')`
abbrev pub is_settled : String → Bool
is_settled status = str_eq status "PAID" || str_eq status "SUKSES"

unfoldable pub is_one_of : ℕ → List ℕ → Bool
is_one_of x [] = false
is_one_of x (y ∷ ys) = x == y || is_one_of x ys

-- The orders that `WHERE event_id = ANY($1) AND status IN ('PAID', 'SUKSES')` selects.
unfoldable pub settled_of : List ℕ → List Order → List Order
settled_of events [] = []
settled_of events (o ∷ os) =
    if is_one_of o.event_id events && is_settled o.status
    then o ∷ settled_of events os
    else settled_of events os

unfoldable pub revenue : List Order → ℤ
revenue [] = pos 0
revenue (o ∷ os) = o.total_amount +ℤ revenue os

unfoldable pub quantities : List OrderItem → ℤ
quantities [] = pos 0
quantities (i ∷ is) = i.quantity +ℤ quantities is

unfoldable pub tickets_of : List OrderItem → List Order → ℤ
tickets_of items [] = pos 0
tickets_of items (o ∷ os) = quantities (items_of o.id items) +ℤ tickets_of items os

-- A `pgtype.Numeric` that is not valid is `none`.
pub record GetOrganizerStatsRow : Type 0 where
  pub total_orders : ℕ
  pub total_revenue : Option ℤ
  pub tickets_sold : ℤ

-- `GetOrganizerStats`
unfoldable pub get_organizer_stats : List ℕ → Go Payouts GetOrganizerStatsRow
get_organizer_stats events = do
  call_out
  gets λ s. record {
    total_orders = length (settled_of events s.shop.orders);
    total_revenue = some (revenue (settled_of events s.shop.orders));
    tickets_sold = tickets_of s.shop.items (settled_of events s.shop.orders);
  }

-- `status IN ('PENDING', 'APPROVED', 'PAID')`
abbrev pub is_deducted : String → Bool
is_deducted status = str_eq status "PENDING" || (str_eq status "APPROVED" || str_eq status "PAID")

abbrev pub is_status : String → String → Bool
is_status wanted status = str_eq status wanted

-- The sum of the amounts of an organizer's withdrawals with such a status.
unfoldable pub sum_of : ℕ → (String → Bool) → List Withdrawal → ℤ
sum_of organizer p [] = pos 0
sum_of organizer p (w ∷ ws) =
    if w.organizer_id == organizer && p w.status
    then w.amount +ℤ sum_of organizer p ws
    else sum_of organizer p ws

-- `WHERE organizer_id = $1`
unfoldable pub rows_of : ℕ → List Withdrawal → List Withdrawal
rows_of organizer [] = []
rows_of organizer (w ∷ ws) =
    if w.organizer_id == organizer then w ∷ rows_of organizer ws else rows_of organizer ws

pub record GetWithdrawnSummaryByOrganizerRow : Type 0 where
  pub total_deducted : ℤ
  pub pending_amount : ℤ
  pub paid_amount : ℤ
  pub total_requests : ℕ

-- `GetWithdrawnSummaryByOrganizer`
unfoldable pub get_withdrawn_summary : ℕ → Go Payouts GetWithdrawnSummaryByOrganizerRow
get_withdrawn_summary organizer = do
  call_out
  gets λ s. record {
    total_deducted = sum_of organizer is_deducted s.withdrawals;
    pending_amount = sum_of organizer (is_status "PENDING") s.withdrawals;
    paid_amount = sum_of organizer (is_status "PAID") s.withdrawals;
    total_requests = length (rows_of organizer s.withdrawals);
  }

-- Whether the column DECIMAL(15, 2) holds the amount.
abbrev pub fits_decimal : ℤ → Bool
fits_decimal n = ltb (pos_part n + neg_part n) (10 ^ 15)

-- `CreateWithdrawal`: the new row gets the next id.
unfoldable pub insert_withdrawal :
    ℕ → ℤ → String → String → String → Option String → String → Go Payouts Withdrawal
insert_withdrawal organizer amount bank number name notes status s =
    let w : Withdrawal = record {
      id = s.shop.next_id;
      organizer_id = organizer;
      amount = amount;
      bank_name = bank;
      account_number = number;
      account_name = name;
      status = status;
      rejection_reason = none;
      notes = notes;
      created_at = s.shop.env.now;
    } in
    (
      ok w,
      record s {
        withdrawals = s.withdrawals ++ w ∷ [];
        shop = record s.shop { next_id = suc s.shop.next_id };
      },
    )

unfoldable pub create_withdrawal :
    ℕ → ℤ → String → String → String → Option String → String → Go Payouts Withdrawal
create_withdrawal organizer amount bank number name notes status = do
  call_out
  fail_if (not (fits_decimal amount)) (message "numeric field overflow")
  insert_withdrawal organizer amount bank number name notes status

unfoldable pub find_withdrawal : ℕ → List Withdrawal → Option Withdrawal
find_withdrawal id [] = none
find_withdrawal id (w ∷ ws) = if w.id == id then some w else find_withdrawal id ws

-- `GetWithdrawal`
unfoldable pub get_withdrawal : ℕ → Go Payouts Withdrawal
get_withdrawal id = do
  call_out
  ws ← gets (λ s. s.withdrawals)
  or_none (find_withdrawal id ws) no_rows

unfoldable pub change_status : ℕ → String → Option String → List Withdrawal → List Withdrawal
change_status id status reason [] = []
change_status id status reason (w ∷ ws) =
    if w.id == id
    then record w { status = status; rejection_reason = reason } ∷ ws
    else w ∷ change_status id status reason ws

-- `UpdateWithdrawalStatus`
unfoldable pub update_withdrawal_status : ℕ → String → Option String → Go Payouts Withdrawal
update_withdrawal_status id status reason = do
  call_out
  ws ← gets (λ s. s.withdrawals)
  w ← or_none (find_withdrawal id ws) no_rows
  modify λ s. record s { withdrawals = change_status id status reason s.withdrawals }
  gets λ _. record w { status = status; rejection_reason = reason }
