-- ===== src/Stock/Nonneg.antt =====
-- Neither the stock in Redis nor the inventory in the database is ever oversold.
use entra_api.Base.{
  ◌≤◌, length, String, ◌≡◌, ap, eq_refl, some, List, [], ◌∷◌, arith, Bool-cases, Option-cases, inl,
  inr,
}
use entra_api.Base.Int.{
  ℤ, pos, ◌+ℤ◌, ◌-ℤ◌, ◌≤ℤ◌, leb_ℤ, pos_part, neg_part, +ℤ_parts, -ℤ_parts, int_laws,
}
use entra_api.Base.Go.{Go, Env, call, Result, ok, err, modify}
use entra_api.Base.Keeps.{Keeps}
use entra_api.Base.External.{Uuids}
use entra_api.Platform.{TicketType, Platform, external}
use entra_api.Inventory.Runs.{inventory-frame, reserve-Keeps, release-Keeps}
use entra_api.Inventory.Bounds.{SoldWithin, reserve-SoldWithin, release-SoldWithin}
use entra_api.Stock.{
  ScriptReply, granted, short, missing, run_reserve, run_release, set_stock, apply_reserve,
  reserve_stock_lua, apply_release, reserve_ticket_stock, release_ticket_stock,
}
use entra_api.Stock.Runs.{StockRules, reserve_ticket_stock-Keeps, release_ticket_stock-Keeps}

-- No row of the inventory is oversold, and no key of the stock is negative.
pub record NotOversold (s : Platform) : Type 0 where
  pub rows : SoldWithin s
  pub stock : (key : String) (v : ℤ) → s.redis.stock key ≡ some v → pos 0 ≤ℤ v

-- The stock alone, as a property of the state.
record StockNonneg (s : Platform) : Type 0 where
  keys : (key : String) (v : ℤ) → s.redis.stock key ≡ some v → pos 0 ≤ℤ v

StockNonneg-frame :
    (s : Platform) (e : Env) (types : List TicketType)
    → length e.script ≤ length s.env.script
    → StockNonneg s
    → StockNonneg (record s { env = e; ticket_types = types })
StockNonneg-frame s e types _ h = record { keys = h.keys }

calls-NotOversold : Keeps NotOversold external
unfolding external
calls-NotOversold = record {
  run = λ s v. record { rows = record { rows = v.rows.rows }; stock = v.stock };
}

takes-NotOversold :
    (key : String) (qty : ℤ) → pos 1 ≤ℤ qty → Keeps NotOversold (apply_reserve key qty)
unfolding apply_reserve run_reserve
takes-NotOversold key qty h = record {
  run = λ s v. record {
    rows = record { rows = v.rows.rows };
    stock = λ j n e. elim (Option-cases (s.redis.stock key)) [
      | inl gone ↦ ground (arith, v.stock j n)
      | inr (m, have) ↦ ground (arith, v.stock j n, v.stock key m, -ℤ_parts m qty)
    ];
  };
}

gives-NotOversold :
    (key : String) (qty : ℤ) → pos 1 ≤ℤ qty → Keeps NotOversold (apply_release key qty)
unfolding apply_release run_release
gives-NotOversold key qty h = record {
  run = λ s v. record {
    rows = record { rows = v.rows.rows };
    stock = λ j n e. elim (Option-cases (s.redis.stock key)) [
      | inl gone ↦ ground (arith, v.stock j n)
      | inr (m, have) ↦ ground (arith, v.stock j n, v.stock key m, +ℤ_parts m qty)
    ];
  };
}

stores-NotOversold :
    (key : String) (v : ℤ) → pos 0 ≤ℤ v → Keeps NotOversold (modify (set_stock key (some v)))
stores-NotOversold key v h = record {
  run = λ s w. record {
    rows = record { rows = w.rows.rows };
    stock = λ j n e. ground (arith, w.stock j n);
  };
}

both :
    {A : Type 0} {m : Go Platform A}
    → Keeps SoldWithin m
    → Keeps StockNonneg m
    → Keeps NotOversold m
both k l = record {
  run = λ s v. record { rows = k.run s v.rows; stock = (l.run s (record { keys = v.stock })).keys };
}

-- The condition on the quantities.
abbrev pub AtLeastOne : ℤ → Type 0
AtLeastOne qty = pos 1 ≤ℤ qty

pub oversell_rules : (uuids : Uuids) → StockRules uuids AtLeastOne NotOversold
oversell_rules uuids = record {
  calls = calls-NotOversold;
  takes = takes-NotOversold;
  gives = gives-NotOversold;
  stores = stores-NotOversold;
  reserves = λ id qty.
      both (reserve-SoldWithin uuids id qty)
        (reserve-Keeps (inventory-frame StockNonneg StockNonneg-frame) uuids id qty);
  releases = λ id qty.
      both (release-SoldWithin uuids id qty)
        (release-Keeps (inventory-frame StockNonneg StockNonneg-frame) uuids id qty);
}

-- `ReserveTicketStock` and `ReleaseTicketStock`, for quantities of at least 1 and whichever calls to
-- Redis, to the event service and to its database fail, keep `0 ≤ sold ≤ quantity` in every row and
-- every stock in Redis at 0 or more.
pub stock_never_oversold :
    (uuids : Uuids) (id : String) (qty : ℤ)
    → pos 1 ≤ℤ qty
    → Keeps NotOversold (reserve_ticket_stock uuids id qty)
      × Keeps NotOversold (release_ticket_stock uuids id qty)
stock_never_oversold uuids id qty h = (
  reserve_ticket_stock-Keeps (oversell_rules uuids) id qty h,
  release_ticket_stock-Keeps (oversell_rules uuids) id qty h,
)

-- Buyers run the script one after the other; what the script granted is added up.
abbrev granted_amount : ℤ → Result ScriptReply → ℤ
granted_amount qty (ok granted) = qty
granted_amount qty (ok short) = pos 0
granted_amount qty (ok missing) = pos 0
granted_amount qty (err _) = pos 0

unfoldable pub run_buyers : String → List ℤ → Platform → ℤ × Platform
run_buyers key [] s = (pos 0, s)
run_buyers key (qty ∷ rest) s =
    let (r, s') = reserve_stock_lua key qty s in
    let (total, s'') = run_buyers key rest s' in (granted_amount qty r +ℤ total, s'')

+ℤ_zero : (n : ℤ) → n +ℤ pos 0 ≡ n
+ℤ_zero n = omega int_laws

-ℤ_+ℤ : (n m : ℤ) → n -ℤ m +ℤ m ≡ n
-ℤ_+ℤ n m = omega int_laws

regroup_grants : (v g total m n : ℤ) → m +ℤ g ≡ n → v +ℤ total ≡ m → v +ℤ (g +ℤ total) ≡ n
regroup_grants v g total m n e f =
    omega (int_laws, ap pos_part e, ap neg_part e, ap pos_part f, ap neg_part f)

-- One run of the script moves stock to the buyer, and loses or makes up none.
one_buyer :
    (key : String) (qty n : ℤ) (s : Platform)
    → s.redis.stock key ≡ some n
    → pos 0 ≤ℤ n
    → (v : ℤ) × ((reserve_stock_lua key qty s).1.redis.stock key ≡ some v)
      × (v +ℤ granted_amount qty (reserve_stock_lua key qty s).0 ≡ n)
      × (pos 0 ≤ℤ v)
unfolding reserve_stock_lua apply_reserve run_reserve external
one_buyer key qty n s e h = elim (Bool-cases (call s.env).0) [
  | inl down ↦ (n, ground arith, ground (arith, +ℤ_zero n), h)
  | inr up ↦ elim (Bool-cases (leb_ℤ qty n)) [
    | inl enough ↦ (
      n -ℤ qty,
      ground (arith, eq_refl key),
      ground (arith, -ℤ_+ℤ n qty),
      ground (arith, -ℤ_parts n qty),
    )
    | inr few ↦ (n, ground (arith, eq_refl key), ground (arith, +ℤ_zero n), h)
  ]
]

-- For a stock in Redis of 0 or more, and every sequence of buyers of its ticket type, whatever
-- each of them asks for and whichever runs fail, what they were granted and what is left add up to
-- the stock before, and what is left is not negative: together they never get more than there was.
pub buyers_share_stock :
    (key : String) (buyers : List ℤ) (n : ℤ) (s : Platform)
    → s.redis.stock key ≡ some n
    → pos 0 ≤ℤ n
    → (v : ℤ) × ((run_buyers key buyers s).1.redis.stock key ≡ some v)
      × (v +ℤ (run_buyers key buyers s).0 ≡ n)
      × (pos 0 ≤ℤ v)
unfolding run_buyers
buyers_share_stock key [] n s e h = (n, e, +ℤ_zero n, h)
buyers_share_stock key (qty ∷ rest) n s e h =
    let (m, em, split, hm) = one_buyer key qty n s e h in
    let (v, ev, split', hv) = buyers_share_stock key rest m _ em hm in
    (v, ev, regroup_grants v _ _ m n split split', hv)
