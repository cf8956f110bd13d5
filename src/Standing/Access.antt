-- ===== src/Standing/Access.antt =====
-- Only the buyer of an order may ask for its place in the queue, or take it out of the queue.
use entra_api.Base.{
  ℕ, String, ◌≡◌, refl, ◌⊎◌, Bool, true, false, not, ◌&&◌, some, arith, str_eq, inl, inr, sym,
  subst, ◌≢◌, eq_iff,
}
use entra_api.Base.Go.{
  Go, no_rows, Result, ok, err, pure, gets, or_none, or_fail, fail_if, ◌>>=◌, ◌>>◌,
}
use entra_api.Base.External.{Uuids}
use entra_api.Platform.{Order, Platform, external}
use entra_api.Tables.{find_order, get_order}
use entra_api.Standing.{
  err_order_not_found, err_access_denied, err_invalid_order, own_order, report_order,
  withdraw_order, get_order_queue_status, cancel_order_in_queue,
}

-- The call is refused, and ends in the state.
abbrev pub Denied : {A : Type 0} → Platform → Result A × Platform → Type 0
Denied t (ok _, s) = ⊥
Denied t (err e, s) = ((e ≡ err_access_denied) ⊎ (e ≡ err_order_not_found)) × (s ≡ t)

bind-Denied :
    {A B : Type 0} (t : Platform) (r : Result A × Platform) (f : A → Go Platform B)
    → Denied t r
    → Denied t ((◌>>=◌ (λ _. r) f) r.1)
bind-Denied t (ok _, s) f h = absurd h
bind-Denied t (err e, s) f h = h

-- What `own_order` does with the answer of the database.
abbrev check_owner : Uuids → String → Order → Go Platform Order
check_owner uuids user o =
    fail_if (not (str_eq user "") && not (str_eq (uuids.to_string o.user_id) user))
      err_access_denied
    >> pure o

foreign :
    (uuids : Uuids) (user : String) (o : Order)
    → user ≢ ""
    → uuids.to_string o.user_id ≢ user
    → not (str_eq user "") && not (str_eq (uuids.to_string o.user_id) user) ≡ true
foreign uuids user o h k = ground (arith, eq_iff user "", eq_iff (uuids.to_string o.user_id) user)

module _ (uuids : Uuids) (user : String) (o : Order) where
  owner-Denied :
      (t : Platform)
      → not (str_eq user "") && not (str_eq (uuids.to_string o.user_id) user) ≡ true
      → Denied t (check_owner uuids user o t)
  owner-Denied t h = tested _ h
    where
      tested :
          (b : Bool)
          → b ≡ true
          → Denied t ((fail_if {S = Platform} b err_access_denied >> pure o) t)
      tested true h = (inl refl, refl)
      tested false h = absurd (ground arith)

  read-Denied :
      (id : ℕ) (r : Result (Unit {0}) × Platform)
      → find_order id r.1.orders ≡ some o
      → not (str_eq user "") && not (str_eq (uuids.to_string o.user_id) user) ≡ true
      → Denied r.1 (
          (◌>>=◌
              (or_fail
                (◌>>=◌
                  (λ _. r)
                  (λ _. ◌>>=◌ (gets (λ s. s.orders)) (λ os. or_none (find_order id os) no_rows)))
                err_order_not_found)
              (check_owner uuids user))
            r.1)
  read-Denied id (err _, t) found h = (inr refl, refl)
  read-Denied id (ok _, t) found h =
      subst
        (λ x.
          Denied t
            ((◌>>=◌ (or_fail (or_none x no_rows) err_order_not_found) (check_owner uuids user)) t))
        (sym found) (owner-Denied t h)

  own_order-Denied :
      (x : String) (id : ℕ) (s : Platform)
      → uuids.parse x ≡ some id
      → find_order id s.orders ≡ some o
      → user ≢ ""
      → uuids.to_string o.user_id ≢ user
      → Denied (external s).1 (own_order uuids x user s)
  unfolding own_order get_order external
  own_order-Denied x id s e found h k =
      subst
        (λ p. Denied (external s).1 (
          (◌>>=◌ (or_none p err_invalid_order)
              (λ id. ◌>>=◌ (or_fail (get_order id) err_order_not_found) (check_owner uuids user)))
            s))
        (sym e) (read-Denied id (external s) found (foreign uuids user o h k))

-- For anybody who gives a user id that is not the buyer's, `GetOrderQueueStatus` and
-- `CancelOrderInQueue` on an order that exists fail (as access denied, or not found where the read
-- fails), and nothing has happened but the read of the order.
pub others-Denied :
    (uuids : Uuids) (x user : String) (id : ℕ) (o : Order) (s : Platform)
    → uuids.parse x ≡ some id
    → find_order id s.orders ≡ some o
    → user ≢ ""
    → uuids.to_string o.user_id ≢ user
    → Denied (external s).1 (get_order_queue_status uuids x user s)
      × Denied (external s).1 (cancel_order_in_queue uuids x user s)
unfolding get_order_queue_status cancel_order_in_queue
others-Denied uuids x user id o s e found h k =
    let denied = own_order-Denied uuids user o x id s e found h k in
    (
      bind-Denied _ (own_order uuids x user s) (report_order uuids x) denied,
      bind-Denied _ (own_order uuids x user s) (withdraw_order uuids x) denied,
    )
