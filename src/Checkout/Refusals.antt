-- ===== src/Checkout/Refusals.antt =====
-- Requests for an order that are refused before anything is reserved.
use entra_api.Base.{
  ℕ, String, ◌≡◌, refl, Bool, true, false, not, Option, some, [], ◌==◌, arith, sym, subst, ◌≢◌,
}
use entra_api.Base.Go.{Go, message, no_rows, Result, err, or_none, attempt, fail_if, ◌>>=◌, ◌>>◌}
use entra_api.Base.External.{Uuids, Floats}
use entra_api.Platform.{Order, Platform, external}
use entra_api.Platform.Calm.{calm, with_script}
use entra_api.Tables.{find_active_pending, get_active_pending_order}
use entra_api.Checkout.{
  CreateOrderRequest, err_active_pending, has_order, refuse_second_order, order_once, create_order,
}

-- The request is refused as a second one, and nothing has changed.
abbrev Refused : Platform → Result Order × Platform → Type 0
Refused t r = r ≡ (err err_active_pending, t)

module _ (uuids : Uuids) (floats : Floats) where
  refused :
      (t : Platform) (user event : ℕ) (o : Order) (f : Unit {0} → Go Platform Order)
      → find_active_pending t.env.now user event t.orders ≡ some o
      → o.id ≢ 0
      → Refused
          (with_script [] t)
          ((◌>>=◌ (refuse_second_order uuids floats user event) f) (with_script [] t))
  unfolding refuse_second_order get_active_pending_order external
  refused t user event o f found real =
      subst
        (λ x. Refused (with_script [] t) (
          (◌>>=◌
              (◌>>=◌ (attempt (or_none x no_rows)) (λ r. fail_if (has_order r) err_active_pending))
              f)
            (with_script [] t)))
        (sym found) (tested (o.id == 0) (ground (arith, real)))
    where
      tested :
          (b : Bool)
          → b ≡ false
          → Refused
              (with_script [] t)
              ((◌>>=◌ (fail_if {S = Platform} (not b) err_active_pending) f) (with_script [] t))
      tested true e = absurd (ground arith)
      tested false e = refl

  parsed :
      (p q r : Option ℕ) (user event ticket_type : ℕ) (req : CreateOrderRequest) (user_id : String)
      (t : Platform)
      → p ≡ some user
      → q ≡ some event
      → r ≡ some ticket_type
      → Refused t (
          (refuse_second_order uuids floats user event
              >> order_once uuids floats req user_id user event ticket_type)
            t)
      → Refused t (
          (do
            user ← or_none p (message "invalid user id")
            event ← or_none q (message "invalid event id")
            ticket_type ← or_none r (message "invalid ticket type id")
            refuse_second_order uuids floats user event
            order_once uuids floats req user_id user event ticket_type)
            t)
  parsed p q r user event ticket_type req user_id t ep eq er h = rw (ep, eq, er) h

-- Where no call fails, `CreateOrder` with well-formed ids, for a user who has a pending order of
-- the event that has not expired, is refused as such, and changes nothing: no ticket is reserved,
-- no order is made.
pub second_order_refused :
    (uuids : Uuids) (floats : Floats) (user_id : String) (req : CreateOrderRequest)
    (user event ticket_type : ℕ) (o : Order) (s : Platform)
    → s.env.script ≡ []
    → uuids.parse user_id ≡ some user
    → uuids.parse req.event_id ≡ some event
    → uuids.parse req.ticket_type_id ≡ some ticket_type
    → find_active_pending s.env.now user event s.orders ≡ some o
    → o.id ≢ 0
    → create_order uuids floats user_id req s ≡ (err err_active_pending, s)
unfolding create_order
second_order_refused uuids floats user_id req user event ticket_type o s quiet eu ee et found real =
    calm
      (λ t.
        find_active_pending t.env.now user event t.orders ≡ some o
        → create_order uuids floats user_id req t ≡ (err err_active_pending, t))
      s quiet
      (λ found.
        parsed uuids floats _ _ _ user event ticket_type req user_id (with_script [] s) eu ee et (
          refused uuids floats s user event o
            (λ _. order_once uuids floats req user_id user event ticket_type) found real))
      found
