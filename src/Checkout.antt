-- ===== src/Checkout.antt =====
-- `TicketService.CreateOrder` of ticket-service/internal/service/ticket_service.go, step by step.
pub mod Refusals
use entra_api.Base.{
  ℕ, length, ◌+◌, ◌*◌, String, Bool, true, false, not, ◌&&◌, ◌||◌, Option, none, some, ◌==◌, str_eq,
  if◌then◌else◌,
}
use entra_api.Base.Int.{ℤ}
use entra_api.Base.Go.{
  Go, Error, message, no_rows, unavailable, Result, ok, err, pure, fail, gets, attempt, ignore,
  or_none, fail_if, when, modify, ◌>>=◌, ◌>>◌,
}
use entra_api.Base.External.{Uuids, Floats}
use entra_api.Platform.{Order, Platform, external, order_created, put, set_redis, second}
use entra_api.Inventory.{is_before, is_after}
use entra_api.Stock.{
  InternalTicketType, err_sale_ended, err_sale_not_started, err_event_ended, err_ticket_inactive,
  client_get_ticket_type, reserve_ticket_stock, release_ticket_stock,
}
use entra_api.Tables.{
  get_order, get_active_pending_order, create_order_row, create_order_item, update_order_status,
  publish,
}
use entra_api.WaitingRoom.{enqueue_order}

-- The price is a `float64`.
pub record CreateOrderRequest : Type 0 where
  pub event_id : String
  pub ticket_type_id : String
  pub quantity : ℤ
  pub price : ℕ
  pub idempotency_key : String

abbrev pub err_active_pending : Error
err_active_pending = message "Anda masih memiliki pesanan yang belum diselesaikan untuk event ini."

abbrev pub err_processing : Error
err_processing = message "Pesanan Anda sedang diproses, silakan tunggu."

abbrev pub err_not_published : Error
err_not_published = message "event is not published or active"

abbrev pub err_reserve : Error
err_reserve = message "failed to reserve tickets, might be sold out"

abbrev pub err_items : Error
err_items = message "failed to initialize order items"

-- `GET order:idempotency:<key>`
unfoldable pub get_key : String → Go Platform (Option String)
get_key key = do external; gets (λ s. s.redis.idempotency key)

abbrev store_key : String → Option String → Platform → Platform
store_key key v = set_redis λ r. record r { idempotency = put key v r.idempotency }

-- `SET` and `DEL`
unfoldable pub set_key : String → Option String → Go Platform (Unit {0})
set_key key v = do external; modify (store_key key v)

-- `SETNX key PROCESSING`: whether the key was free.
claim_free : String → Option String → Go Platform Bool
claim_free key none s = (ok true, store_key key (some "PROCESSING") s)
claim_free key (some _) s = (ok false, s)

unfoldable pub set_key_if_free : String → Go Platform Bool
unfolding claim_free
set_key_if_free key = do external; held ← gets (λ s. s.redis.idempotency key); claim_free key held

abbrev pub has_order : Result Order → Bool
has_order (ok o) = not (o.id == 0)
has_order (err _) = false

abbrev pub was_taken : Result Bool → Bool
was_taken (ok free) = not free
was_taken (err _) = false

-- The checks of step 2.5, in their order.
unfoldable pub order_error : ℕ → InternalTicketType → Option Error
order_error now t =
    if not t.is_active
    then some err_ticket_inactive
    else if is_before now t.sale_start
    then some err_sale_not_started
    else if is_after now t.sale_end
    then some err_sale_ended
    else if is_after now t.event_end_date
    then some err_event_ended
    else if not (str_eq t.event_status "") && not (str_eq t.event_status "published")
    then some err_not_published
    else none

-- The errors of the reservation that reach the buyer as they are.
abbrev is_shown : String → Bool
is_shown m =
    str_eq m "Tiket telah habis terjual."
    || (str_eq m "Periode penjualan tiket untuk kategori ini telah berakhir."
        || (str_eq m "Penjualan tiket untuk kategori ini belum dimulai."
            || (str_eq m "Event ini telah berakhir."
                || str_eq m "Kategori tiket sedang tidak aktif.")))

unfoldable pub reserve_error : Error → Error
reserve_error (message m) = if is_shown m then message m else err_reserve
reserve_error no_rows = err_reserve
reserve_error unavailable = err_reserve

-- The fuel for `EnqueueOrder`, by the calls that may still fail.
abbrev pub enqueue_fuel : Platform → ℕ
enqueue_fuel s = length s.env.script + 2

module _ (uuids : Uuids) (floats : Floats) where
  -- Step 1.
  unfoldable pub refuse_second_order : ℕ → ℕ → Go Platform (Unit {0})
  refuse_second_order user event = do
    r ← attempt (get_active_pending_order user event)
    fail_if (has_order r) err_active_pending

  -- The order that a finished request with the same key has made.
  unfoldable pub find_cached : String → Go Platform (Option Order)
  find_cached v = elim (uuids.parse v) [
    | none ↦ pure none
    | some id ↦ do r ← attempt (get_order id); elim r [ ok o ↦ pure (some o) | err _ ↦ pure none ]
  ]

  unfoldable pub claim_key : String → Go Platform (Option Order)
  claim_key key = do
    r ← attempt (set_key_if_free key)
    fail_if (was_taken r) err_processing
    pure none

  unfoldable pub claim_unless_cached : String → Option Order → Go Platform (Option Order)
  claim_unless_cached key (some o) = pure (some o)
  claim_unless_cached key none = claim_key key

  unfoldable pub look_up_key : String → Result (Option String) → Go Platform (Option Order)
  look_up_key key (ok (some v)) = do
    fail_if (str_eq v "PROCESSING") err_processing
    o ← find_cached v
    claim_unless_cached key o
  look_up_key key (ok none) = claim_key key
  look_up_key key (err _) = claim_key key

  -- Step 2: the order of an earlier request with this key, or the key is claimed.
  unfoldable pub check_idempotency : Bool → String → Go Platform (Option Order)
  check_idempotency keyed key =
      if not keyed then pure none else do r ← attempt (get_key key); look_up_key key r

  -- `if redisIdempotencyKey != "" && s.redisClient != nil { s.redisClient.Del(…) }`
  unfoldable pub drop_key : Bool → String → Go Platform (Unit {0})
  drop_key keyed key = when keyed (ignore (set_key key none))

  unfoldable pub fail_dropping : Bool → String → Option Error → Go Platform (Unit {0})
  fail_dropping keyed key none = pure tt
  fail_dropping keyed key (some e) = do drop_key keyed key; fail e

  -- Step 2.5.
  unfoldable pub check_sale : Bool → CreateOrderRequest → Go Platform (Unit {0})
  check_sale keyed req = do
    client ← gets (λ s. s.client_on)
    when client do
      r ← attempt (client_get_ticket_type uuids req.ticket_type_id)
      now ← gets (λ s. s.env.now)
      elim r [
        | ok t ↦ fail_dropping keyed req.idempotency_key (order_error now t)
        | err _ ↦ pure tt
      ]

  -- Step 3.
  unfoldable pub reserve_for_order : Bool → CreateOrderRequest → Go Platform (Unit {0})
  reserve_for_order keyed req = do
    r ← attempt (reserve_ticket_stock uuids req.ticket_type_id req.quantity)
    elim r [
      | ok _ ↦ pure tt
      | err e ↦ fail_dropping keyed req.idempotency_key (some (reserve_error e))
    ]

  -- The reservation is given back, and the key is dropped.
  unfoldable pub undo_reservation : Bool → CreateOrderRequest → Error → Go Platform (Unit {0})
  undo_reservation keyed req e = do
    release_ticket_stock uuids req.ticket_type_id req.quantity
    fail_dropping keyed req.idempotency_key (some e)

  abbrev pub subtotal : CreateOrderRequest → ℕ
  subtotal req = floats.mul (floats.of_int32 req.quantity) req.price

  -- Step 4: the order has fifteen minutes at first.
  unfoldable pub insert_pending : Bool → CreateOrderRequest → ℕ → ℕ → Go Platform Order
  insert_pending keyed req user event = do
    now ← gets (λ s. s.env.now)
    r ← attempt (
        create_order_row user event (floats.to_numeric (subtotal req)) "PENDING"
          (now + 900 * second))
    elim r [ ok o ↦ pure o | err e ↦ undo_reservation keyed req e >> fail e ]

  -- Step 5: the price of the item is the subtotal, too.
  unfoldable pub insert_item : Bool → CreateOrderRequest → ℕ → Order → Go Platform (Unit {0})
  insert_item keyed req ticket_type o = do
    r ← attempt (
        create_order_item (record {
          order_id = o.id;
          ticket_type_id = ticket_type;
          quantity = req.quantity;
          price = floats.to_numeric (subtotal req);
          subtotal = floats.to_numeric (subtotal req);
        }))
    elim r [
      | ok _ ↦ pure tt
      | err _ ↦
          ignore (update_order_status o.id "CANCELLED") >> undo_reservation keyed req err_items
    ]

  -- Steps 6 to 8.
  unfoldable pub finish_order : Bool → CreateOrderRequest → String → ℕ → Order → Go Platform Order
  finish_order keyed req user_id event o = do
    when keyed (ignore (set_key req.idempotency_key (some (uuids.to_string o.id))))
    ignore (publish (order_created (uuids.to_string o.id) user_id (subtotal req)))
    fuel ← gets enqueue_fuel
    ignore (enqueue_order uuids fuel o.id event)
    pure o

  -- Steps 3 to 8, for a request that is new.
  unfoldable pub place_order : Bool → CreateOrderRequest → String → ℕ → ℕ → ℕ → Go Platform Order
  place_order keyed req user_id user event ticket_type = do
    check_sale keyed req
    reserve_for_order keyed req
    o ← insert_pending keyed req user event
    insert_item keyed req ticket_type o
    finish_order keyed req user_id event o

  unfoldable pub place_unless_cached :
      Bool → CreateOrderRequest → String → ℕ → ℕ → ℕ → Option Order → Go Platform Order
  place_unless_cached keyed req user_id user event ticket_type (some o) = pure o
  place_unless_cached keyed req user_id user event ticket_type none =
      place_order keyed req user_id user event ticket_type

  -- Step 2 and what follows.
  unfoldable pub order_once : CreateOrderRequest → String → ℕ → ℕ → ℕ → Go Platform Order
  order_once req user_id user event ticket_type = do
    redis ← gets (λ s. s.redis_on)
    let keyed = not (str_eq req.idempotency_key "") && redis
    cached ← check_idempotency keyed req.idempotency_key
    place_unless_cached keyed req user_id user event ticket_type cached

  -- `TicketService.CreateOrder`
  unfoldable pub create_order : String → CreateOrderRequest → Go Platform Order
  create_order user_id req = do
    user ← or_none (uuids.parse user_id) (message "invalid user id")
    event ← or_none (uuids.parse req.event_id) (message "invalid event id")
    ticket_type ← or_none (uuids.parse req.ticket_type_id) (message "invalid ticket type id")
    refuse_second_order user event
    order_once req user_id user event ticket_type
