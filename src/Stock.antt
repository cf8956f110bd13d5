-- ===== src/Stock.antt =====
-- The stock of the ticket service in Redis: the two Lua scripts and `ReserveTicketStock` and
-- `ReleaseTicketStock` of ticket-service/internal/service/ticket_service.go, with the client of the
-- event service (ticket-service/internal/client/event_client.go).
pub mod Runs
pub mod Nonneg
use entra_api.Base.{ℕ, String, Bool, true, not, Option, none, some, ◌==◌, str_eq, if◌then◌else◌}
use entra_api.Base.Int.{ℤ, pos, ◌+ℤ◌, ◌-ℤ◌, leb_ℤ, ltb_ℤ, wrap_int32}
use entra_api.Base.Go.{
  Go, Error, message, Result, ok, err, pure, fail, gets, attempt, ignore, or_none, fail_if, when,
  modify, ◌>>=◌, ◌>>◌,
}
use entra_api.Base.External.{Uuids}
use entra_api.Platform.{Event, TicketType, Redis, Platform, external, put, set_redis}
use entra_api.Inventory.{
  get_ticket_type_by_id, get_event_by_id, reserve_tickets_handler, release_tickets_handler,
  is_before, is_after, http_ok,
}

-- The errors of the stock.
abbrev pub err_sold_out : Error
err_sold_out = message "Tiket telah habis terjual."

abbrev pub err_sale_ended : Error
err_sale_ended = message "Periode penjualan tiket untuk kategori ini telah berakhir."

abbrev pub err_sale_not_started : Error
err_sale_not_started = message "Penjualan tiket untuk kategori ini belum dimulai."

abbrev pub err_event_ended : Error
err_event_ended = message "Event ini telah berakhir."

abbrev pub err_ticket_inactive : Error
err_ticket_inactive = message "Kategori tiket sedang tidak aktif."

abbrev pub err_no_client : Error
err_no_client = message "event client not configured"

abbrev pub err_status : Error
err_status = message "event-service returned status"

-- What `reserveStockLua` returns: 1, 0 and -1.
pub data ScriptReply : Type 0 where
  granted short missing : ScriptReply

-- The body of `reserveStockLua` on the value of its key.
unfoldable pub run_reserve : Option ℤ → ℤ → ScriptReply × Option ℤ
run_reserve none qty = (missing, none)
run_reserve (some stock) qty =
    if leb_ℤ qty stock then (granted, some (stock -ℤ qty)) else (short, some stock)

-- The body of `releaseStockLua` on the value of its key.
unfoldable pub run_release : Option ℤ → ℤ → Option ℤ
run_release none qty = none
run_release (some stock) qty = some (stock +ℤ qty)

abbrev pub set_stock : String → Option ℤ → Platform → Platform
set_stock key v = set_redis λ r. record r { stock = put key v r.stock }

-- The scripts run atomically in Redis.
unfoldable pub apply_reserve : String → ℤ → Go Platform ScriptReply
unfolding run_reserve
apply_reserve key qty s =
    let (reply, v) = run_reserve (s.redis.stock key) qty in (ok reply, set_stock key v s)

unfoldable pub reserve_stock_lua : String → ℤ → Go Platform ScriptReply
reserve_stock_lua key qty = do external; apply_reserve key qty

unfoldable pub apply_release : String → ℤ → Go Platform (Unit {0})
unfolding run_release
apply_release key qty = modify λ s. set_stock key (run_release (s.redis.stock key) qty) s

unfoldable pub release_stock_lua : String → ℤ → Go Platform (Unit {0})
release_stock_lua key qty = do external; apply_release key qty

-- `redisClient.Set(ctx, redisKey, avail, 0)`
unfoldable pub store_stock : String → ℤ → Go Platform (Unit {0})
store_stock key v = do external; modify (set_stock key (some v))

-- `InternalTicketType`, as far as the ticket service reads it.
pub record InternalTicketType : Type 0 where
  pub quantity : ℤ
  pub sold : ℤ
  pub is_active : Bool
  pub sale_start : Option ℕ
  pub sale_end : Option ℕ
  pub event_status : String
  pub event_end_date : Option ℕ

-- The JSON of `InternalTicketHandler.GetTicketType`: an event that was not found has an empty
-- status and no end.
abbrev status_of : Result Event → String
status_of (ok e) = e.status
status_of (err _) = ""

abbrev end_of : Result Event → Option ℕ
end_of (ok e) = e.end_date
end_of (err _) = none

abbrev pub describe : TicketType → Result Event → InternalTicketType
describe t e = record {
  quantity = t.quantity;
  sold = t.sold;
  is_active = t.is_active;
  sale_start = t.sale_start;
  sale_end = t.sale_end;
  event_status = status_of e;
  event_end_date = end_of e;
}

-- The checks of the loader before it counts the tickets.
unfoldable pub sale_error : ℕ → InternalTicketType → Option Error
sale_error now t =
    if is_after now t.sale_end
    then some err_sale_ended
    else if is_before now t.sale_start
    then some err_sale_not_started
    else if is_after now t.event_end_date
    then some err_event_ended
    else if t.is_active
    then none
    else some err_ticket_inactive

-- `avail := tt.Quantity - tt.Sold`, at least 0.
unfoldable pub available : InternalTicketType → ℤ
available t =
    let avail = wrap_int32 (t.quantity -ℤ t.sold) in if ltb_ℤ avail (pos 0) then pos 0 else avail

abbrev pub fail_with : Option Error → Go Platform (Unit {0})
fail_with none = pure tt
fail_with (some e) = fail e

module _ (uuids : Uuids) where
  -- `EventClient.ReserveTickets` and `EventClient.ReleaseTickets`
  unfoldable pub client_reserve : String → ℤ → Go Platform (Unit {0})
  client_reserve id qty = do
    external
    code ← reserve_tickets_handler uuids id qty
    fail_if (not (code == http_ok)) err_status

  unfoldable pub client_release : String → ℤ → Go Platform (Unit {0})
  client_release id qty = do
    external
    code ← release_tickets_handler uuids id qty
    fail_if (not (code == http_ok)) err_status

  -- `EventClient.GetTicketType` with the handler behind it.
  unfoldable pub client_get_ticket_type : String → Go Platform InternalTicketType
  client_get_ticket_type id = do
    external
    u ← or_none (uuids.parse id) err_status
    t ← get_ticket_type_by_id u
    e ← attempt (get_event_by_id t.event_id)
    pure (describe t e)

  -- The function that `singleflight` runs to load the stock of a key.
  unfoldable pub load_stock : String → Go Platform ℤ
  load_stock id = do
    client ← gets (λ s. s.client_on)
    fail_if (not client) err_no_client
    t ← client_get_ticket_type id
    now ← gets (λ s. s.env.now)
    fail_with (sale_error now t)
    ignore (store_stock id (available t))
    pure (available t)

  -- `if s.eventClient != nil { _ = s.eventClient.ReserveTickets(…) }`
  unfoldable pub tell_reserved : String → ℤ → Go Platform (Unit {0})
  tell_reserved id qty = do
    client ← gets (λ s. s.client_on)
    when client (ignore (client_reserve id qty))

  -- After the stock was loaded: the second run of the script.
  unfoldable pub retry_reserve : String → ℤ → Go Platform (Unit {0})
  retry_reserve id qty = do
    r ← attempt (reserve_stock_lua id qty)
    elim r [
      | ok reply ↦ elim reply [ granted ↦ tell_reserved id qty | _ ↦ fail err_sold_out ]
      | err _ ↦ fail err_sold_out
    ]

  -- Without an answer from Redis, or without the key: load the stock, or ask the event service.
  unfoldable pub reserve_after_load : String → ℤ → Result ℤ → Go Platform (Unit {0})
  reserve_after_load id qty (ok avail) =
      if ltb_ℤ avail qty then fail err_sold_out else retry_reserve id qty
  reserve_after_load id qty (err e) = do
    client ← gets (λ s. s.client_on)
    if client then client_reserve id qty else fail e

  unfoldable pub reserve_cold : String → ℤ → Go Platform (Unit {0})
  reserve_cold id qty = do r ← attempt (load_stock id); reserve_after_load id qty r

  unfoldable pub reserve_by_reply : String → ℤ → Result ScriptReply → Go Platform (Unit {0})
  reserve_by_reply id qty (ok granted) = tell_reserved id qty
  reserve_by_reply id qty (ok short) = fail err_sold_out
  reserve_by_reply id qty (ok missing) = reserve_cold id qty
  reserve_by_reply id qty (err _) = reserve_cold id qty

  -- `TicketService.ReserveTicketStock`
  unfoldable pub reserve_ticket_stock : String → ℤ → Go Platform (Unit {0})
  reserve_ticket_stock id qty = do
    redis ← gets (λ s. s.redis_on)
    client ← gets (λ s. s.client_on)
    if not redis
        then when client (client_reserve id qty)
        else do r ← attempt (reserve_stock_lua id qty); reserve_by_reply id qty r

  -- `TicketService.ReleaseTicketStock`
  unfoldable pub release_ticket_stock : String → ℤ → Go Platform (Unit {0})
  release_ticket_stock id qty = do
    redis ← gets (λ s. s.redis_on)
    when redis (ignore (release_stock_lua id qty))
    client ← gets (λ s. s.client_on)
    when client (ignore (client_release id qty))
