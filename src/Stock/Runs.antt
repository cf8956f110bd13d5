-- ===== src/Stock/Runs.antt =====
-- What `ReserveTicketStock` and `ReleaseTicketStock` keep, from what their single steps keep.
use entra_api.Base.{ℕ, String, not, Option, none, some, ◌==◌, arith}
use entra_api.Base.Int.{ℤ, pos, ◌≤ℤ◌, ltb_ℤ}
use entra_api.Base.Go.{Error, no_rows, Result, ok, err, fail, modify}
use entra_api.Base.Keeps.{
  Keeps, Keeps-pure, Keeps-fail, Keeps-gets, Keeps-or_none, Keeps-fail_if, Keeps-attempt,
  Keeps-ignore, Keeps-bind, Keeps-if,
}
use entra_api.Base.External.{Uuids}
use entra_api.Platform.{Platform, external}
use entra_api.Inventory.{
  get_ticket_type_by_id, get_event_by_id, reserve_tickets_handler, release_tickets_handler, http_ok,
  find_ticket_type, find_event,
}
use entra_api.Stock.{
  ScriptReply, granted, short, missing, set_stock, apply_reserve, reserve_stock_lua, apply_release,
  release_stock_lua, store_stock, InternalTicketType, available, sale_error, fail_with, err_status,
  err_no_client, err_sold_out, describe, client_reserve, client_release, client_get_ticket_type,
  load_stock, tell_reserved, retry_reserve, reserve_after_load, reserve_cold, reserve_by_reply,
  reserve_ticket_stock, release_ticket_stock,
}

-- A property that each single step keeps, for quantities that meet a condition.
pub record StockRules (uuids : Uuids) (Q : ℤ → Type 0) (P : Platform → Type 0) : Type 0 where
  pub calls : Keeps P external
  pub takes : (key : String) (qty : ℤ) → Q qty → Keeps P (apply_reserve key qty)
  pub gives : (key : String) (qty : ℤ) → Q qty → Keeps P (apply_release key qty)
  pub stores : (key : String) (v : ℤ) → pos 0 ≤ℤ v → Keeps P (modify (set_stock key (some v)))
  pub reserves : (id : String) (qty : ℤ) → Keeps P (reserve_tickets_handler uuids id qty)
  pub releases : (id : String) (qty : ℤ) → Keeps P (release_tickets_handler uuids id qty)

available_nonneg : (t : InternalTicketType) → pos 0 ≤ℤ available t
unfolding available
available_nonneg t = ground arith

module _ {uuids : Uuids} {Q : ℤ → Type 0} {P : Platform → Type 0}
    (rules : StockRules uuids Q P) where
  open rules use {calls, takes, gives, stores, reserves, releases}

  pub reserve_stock_lua-Keeps :
      (key : String) (qty : ℤ) → Q qty → Keeps P (reserve_stock_lua key qty)
  unfolding reserve_stock_lua
  reserve_stock_lua-Keeps key qty h = Keeps-bind calls λ _. takes key qty h

  release_stock_lua-Keeps : (key : String) (qty : ℤ) → Q qty → Keeps P (release_stock_lua key qty)
  unfolding release_stock_lua
  release_stock_lua-Keeps key qty h = Keeps-bind calls λ _. gives key qty h

  store_stock-Keeps : (key : String) (v : ℤ) → pos 0 ≤ℤ v → Keeps P (store_stock key v)
  unfolding store_stock
  store_stock-Keeps key v h = Keeps-bind calls λ _. stores key v h

  client_reserve-Keeps : (id : String) (qty : ℤ) → Keeps P (client_reserve uuids id qty)
  unfolding client_reserve
  client_reserve-Keeps id qty =
      Keeps-bind calls
        λ _. Keeps-bind (reserves id qty) λ code. Keeps-fail_if (not (code == http_ok)) err_status

  client_release-Keeps : (id : String) (qty : ℤ) → Keeps P (client_release uuids id qty)
  unfolding client_release
  client_release-Keeps id qty =
      Keeps-bind calls
        λ _. Keeps-bind (releases id qty) λ code. Keeps-fail_if (not (code == http_ok)) err_status

  get_ticket_type-Keeps : (id : ℕ) → Keeps P (get_ticket_type_by_id id)
  unfolding get_ticket_type_by_id
  get_ticket_type-Keeps id = Keeps-bind calls λ _.
      Keeps-bind (Keeps-gets (λ s. s.ticket_types))
        λ types. Keeps-or_none (find_ticket_type id types) no_rows

  get_event-Keeps : (id : ℕ) → Keeps P (get_event_by_id id)
  unfolding get_event_by_id
  get_event-Keeps id = Keeps-bind calls λ _.
      Keeps-bind (Keeps-gets (λ s. s.events)) λ events. Keeps-or_none (find_event id events) no_rows

  pub client_get_ticket_type-Keeps : (id : String) → Keeps P (client_get_ticket_type uuids id)
  unfolding client_get_ticket_type
  client_get_ticket_type-Keeps id = Keeps-bind calls λ _.
      Keeps-bind (Keeps-or_none (uuids.parse id) err_status) λ u.
        Keeps-bind (get_ticket_type-Keeps u) λ t.
          Keeps-bind (Keeps-attempt (get_event-Keeps t.event_id)) λ e. Keeps-pure (describe t e)

  fail_with-Keeps : (o : Option Error) → Keeps P (fail_with o)
  fail_with-Keeps none = Keeps-pure tt
  fail_with-Keeps (some e) = Keeps-fail e

  load_stock-Keeps : (id : String) → Keeps P (load_stock uuids id)
  unfolding load_stock
  load_stock-Keeps id = Keeps-bind (Keeps-gets (λ s. s.client_on)) λ client.
      Keeps-bind (Keeps-fail_if (not client) err_no_client) λ _.
        Keeps-bind (client_get_ticket_type-Keeps id) λ t.
          Keeps-bind (Keeps-gets (λ s. s.env.now)) λ now.
            Keeps-bind (fail_with-Keeps (sale_error now t)) λ _.
              Keeps-bind (Keeps-ignore (store_stock-Keeps id (available t) (available_nonneg t)))
                λ _. Keeps-pure (available t)

  tell_reserved-Keeps : (id : String) (qty : ℤ) → Keeps P (tell_reserved uuids id qty)
  unfolding tell_reserved
  tell_reserved-Keeps id qty =
      Keeps-bind (Keeps-gets (λ s. s.client_on))
        λ client. Keeps-if client (Keeps-ignore (client_reserve-Keeps id qty)) (Keeps-pure tt)

  retry_reserve-Keeps : (id : String) (qty : ℤ) → Q qty → Keeps P (retry_reserve uuids id qty)
  unfolding retry_reserve
  retry_reserve-Keeps id qty h =
      Keeps-bind (Keeps-attempt (reserve_stock_lua-Keeps id qty h)) replied
    where
      replied :
          (r : Result ScriptReply)
          → Keeps P (elim r [
            | ok reply ↦ elim reply [ granted ↦ tell_reserved uuids id qty | _ ↦ fail err_sold_out ]
            | err _ ↦ fail err_sold_out
          ])
      replied (ok granted) = tell_reserved-Keeps id qty
      replied (ok short) = Keeps-fail err_sold_out
      replied (ok missing) = Keeps-fail err_sold_out
      replied (err _) = Keeps-fail err_sold_out

  reserve_after_load-Keeps :
      (id : String) (qty : ℤ) (r : Result ℤ) → Q qty → Keeps P (reserve_after_load uuids id qty r)
  unfolding reserve_after_load
  reserve_after_load-Keeps id qty (ok avail) h =
      Keeps-if (ltb_ℤ avail qty) (Keeps-fail err_sold_out) (retry_reserve-Keeps id qty h)
  reserve_after_load-Keeps id qty (err e) h =
      Keeps-bind (Keeps-gets (λ s. s.client_on))
        λ client. Keeps-if client (client_reserve-Keeps id qty) (Keeps-fail e)

  reserve_cold-Keeps : (id : String) (qty : ℤ) → Q qty → Keeps P (reserve_cold uuids id qty)
  unfolding reserve_cold
  reserve_cold-Keeps id qty h =
      Keeps-bind (Keeps-attempt (load_stock-Keeps id)) λ r. reserve_after_load-Keeps id qty r h

  reserve_by_reply-Keeps :
      (id : String) (qty : ℤ) (r : Result ScriptReply)
      → Q qty
      → Keeps P (reserve_by_reply uuids id qty r)
  unfolding reserve_by_reply
  reserve_by_reply-Keeps id qty (ok granted) h = tell_reserved-Keeps id qty
  reserve_by_reply-Keeps id qty (ok short) h = Keeps-fail err_sold_out
  reserve_by_reply-Keeps id qty (ok missing) h = reserve_cold-Keeps id qty h
  reserve_by_reply-Keeps id qty (err _) h = reserve_cold-Keeps id qty h

  pub reserve_ticket_stock-Keeps :
      (id : String) (qty : ℤ) → Q qty → Keeps P (reserve_ticket_stock uuids id qty)
  unfolding reserve_ticket_stock
  reserve_ticket_stock-Keeps id qty h = Keeps-bind (Keeps-gets (λ s. s.redis_on)) λ redis.
      Keeps-bind (Keeps-gets (λ s. s.client_on)) λ client.
        Keeps-if (not redis) (Keeps-if client (client_reserve-Keeps id qty) (Keeps-pure tt)) (
          Keeps-bind (Keeps-attempt (reserve_stock_lua-Keeps id qty h))
            λ r. reserve_by_reply-Keeps id qty r h)

  pub release_ticket_stock-Keeps :
      (id : String) (qty : ℤ) → Q qty → Keeps P (release_ticket_stock uuids id qty)
  unfolding release_ticket_stock
  release_ticket_stock-Keeps id qty h = Keeps-bind (Keeps-gets (λ s. s.redis_on)) λ redis.
      Keeps-bind (Keeps-if redis (Keeps-ignore (release_stock_lua-Keeps id qty h)) (Keeps-pure tt))
        λ _.
          Keeps-bind (Keeps-gets (λ s. s.client_on))
            λ client. Keeps-if client (Keeps-ignore (client_release-Keeps id qty)) (Keeps-pure tt)
