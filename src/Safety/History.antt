-- ===== src/Safety/History.antt =====
-- Histories of the ticket service: requests of buyers and of the payment gateway, and ticks of the
-- expiry worker, one after the other, each with calls that may fail.
use entra_api.Base.{◌≤◌, length, String, ◌≡◌, Option, List, [], ◌∷◌, ◌++◌, All, All-append}
use entra_api.Base.Int.{ℤ, pos, ◌≤ℤ◌}
use entra_api.Base.Go.{Go, Env}
use entra_api.Base.Keeps.{Keeps, Keeps-bind, Keeps-modify}
use entra_api.Base.External.{Uuids, Floats}
use entra_api.Platform.{TicketType, OrderItem, Platform, external}
use entra_api.Inventory.Runs.{inventory-frame, reserve-Keeps, release-Keeps}
use entra_api.Stock.{apply_reserve, apply_release}
use entra_api.Stock.Runs.{StockRules}
use entra_api.Stock.Nonneg.{NotOversold, AtLeastOne, oversell_rules}
use entra_api.Tables.{create_order_item}
use entra_api.Cancel.{process_expired_orders}
use entra_api.Standing.{get_order_queue_status, cancel_order_in_queue}
use entra_api.Checkout.{CreateOrderRequest, create_order}
use entra_api.Payments.{payable_order}
use entra_api.Notifications.{
  Notification, Transaction, handle_midtrans_notification, handle_payment_event,
}
use entra_api.Safety.Rules.{PlatformRules, IsFine}
use entra_api.Safety.Quiet.{QuietRules, platform_rules}
use entra_api.Safety.Queues.{process_expired_orders-Keeps}
use entra_api.Safety.Orders.{
  get_order_queue_status-Keeps, cancel_order_in_queue-Keeps, handle_midtrans_notification-Keeps,
  handle_payment_event-Keeps, payable_order-Keeps,
}
use entra_api.Safety.Checkouts.{create_order-Keeps}

-- Nothing is oversold, and every order item is for at least one ticket.
pub record Sound (s : Platform) : Type 0 where
  pub safe : NotOversold s
  pub items : All (IsFine AtLeastOne) s.items

record ItemsPositive (s : Platform) : Type 0 where
  items : All (IsFine AtLeastOne) s.items

ItemsPositive-frame :
    (s : Platform) (e : Env) (types : List TicketType)
    → length e.script ≤ length s.env.script
    → ItemsPositive s
    → ItemsPositive (record s { env = e; ticket_types = types })
ItemsPositive-frame s e types _ h = record { items = h.items }

both :
    {A : Type 0} {m : Go Platform A} → Keeps NotOversold m → Keeps ItemsPositive m → Keeps Sound m
both k l = record {
  run =
      λ s v. record { safe = k.run s v.safe; items = (l.run s (record { items = v.items })).items };
}

calls-items : Keeps ItemsPositive external
unfolding external
calls-items = record { run = λ s v. record { items = v.items } }

takes-items : (key : String) (qty : ℤ) → Keeps ItemsPositive (apply_reserve key qty)
unfolding apply_reserve
takes-items key qty = record { run = λ s v. record { items = v.items } }

gives-items : (key : String) (qty : ℤ) → Keeps ItemsPositive (apply_release key qty)
unfolding apply_release
gives-items key qty = record { run = λ s v. record { items = v.items } }

Sound-stock : (uuids : Uuids) → StockRules uuids AtLeastOne Sound
Sound-stock uuids =
    let safe = oversell_rules uuids in
    record {
      calls = both safe.calls calls-items;
      takes = λ key qty h. both (safe.takes key qty h) (takes-items key qty);
      gives = λ key qty h. both (safe.gives key qty h) (gives-items key qty);
      stores =
          λ key v h. both (safe.stores key v h) (Keeps-modify (λ s w. record { items = w.items }));
      reserves = λ id qty.
          both (safe.reserves id qty)
            (reserve-Keeps (inventory-frame ItemsPositive ItemsPositive-frame) uuids id qty);
      releases = λ id qty.
          both (safe.releases id qty)
            (release-Keeps (inventory-frame ItemsPositive ItemsPositive-frame) uuids id qty);
    }

NotOversold-quiet :
    (s s' : Platform)
    → s'.ticket_types ≡ s.ticket_types
    → s'.redis.stock ≡ s.redis.stock
    → NotOversold s
    → NotOversold s'
NotOversold-quiet s s' types stock h = record {
  rows = record { rows = rw types h.rows.rows };
  stock = rw stock h.stock;
}

calls-safe : Keeps NotOversold external
unfolding external
calls-safe = record {
  run = λ s v. record { rows = record { rows = v.rows.rows }; stock = v.stock };
}

Sound-adds : (i : OrderItem) → AtLeastOne i.quantity → Keeps Sound (create_order_item i)
unfolding create_order_item
Sound-adds i h = Keeps-bind (both calls-safe calls-items) λ _.
    Keeps-modify {f = λ s. record s { items = s.items ++ i ∷ [] }} λ s v. record {
      safe = record { rows = record { rows = v.safe.rows.rows }; stock = v.safe.stock };
      items = All-append (IsFine AtLeastOne) s.items (i ∷ []) v.items (h, tt);
    }

Sound-quiet : (uuids : Uuids) → QuietRules uuids AtLeastOne Sound
Sound-quiet uuids = record {
  stock = Sound-stock uuids;
  quiet = λ s s' types stock items _ v. record {
    safe = NotOversold-quiet s s' types stock v.safe;
    items = rw items v.items;
  };
  positive = λ s v. v.items;
  adds = Sound-adds;
}

Sound-rules : (uuids : Uuids) → PlatformRules uuids AtLeastOne Sound
Sound-rules uuids = platform_rules (Sound-quiet uuids)

-- A request that reaches `TicketService`, or a tick of the expiry worker. The handler of a new order
-- lets only quantities of at least 1 pass (`binding:"required,min=1"`).
pub data Request : Type 0 where
  place : String → (req : CreateOrderRequest) → pos 1 ≤ℤ req.quantity → Request
  ask_position leave : String → String → Request
  pay : String → String → Request
  notify : Notification → Option Transaction → Request
  payment : String → String → Option String → Request
  tick : Request

module _ (uuids : Uuids) (floats : Floats) where
  unfoldable pub serve : Request → Platform → Platform
  serve (place user req _) s = (create_order uuids floats user req s).1
  serve (ask_position order user) s = (get_order_queue_status uuids order user s).1
  serve (leave order user) s = (cancel_order_in_queue uuids order user s).1
  serve (pay order user) s = (payable_order uuids order user s).1
  serve (notify n answer) s = (handle_midtrans_notification uuids n answer s).1
  serve (payment topic kind order) s = (handle_payment_event uuids topic kind order s).1
  serve tick s = (process_expired_orders uuids s).1

  unfoldable pub serve_all : List Request → Platform → Platform
  serve_all [] s = s
  serve_all (r ∷ rs) s = serve_all rs (serve r s)

  serve-Sound : (r : Request) (s : Platform) → Sound s → Sound (serve r s)
  unfolding serve
  serve-Sound (place user req h) s v =
      (create_order-Keeps (Sound-rules uuids) floats user req h).run s v
  serve-Sound (ask_position order user) s v =
      (get_order_queue_status-Keeps (Sound-rules uuids) order user).run s v
  serve-Sound (leave order user) s v =
      (cancel_order_in_queue-Keeps (Sound-rules uuids) order user).run s v
  serve-Sound (pay order user) s v = (payable_order-Keeps (Sound-rules uuids) order user).run s v
  serve-Sound (notify n answer) s v =
      (handle_midtrans_notification-Keeps (Sound-rules uuids) n answer).run s v
  serve-Sound (payment topic kind order) s v =
      (handle_payment_event-Keeps (Sound-rules uuids) topic kind order).run s v
  serve-Sound tick s v = (process_expired_orders-Keeps (Sound-rules uuids)).run s v

-- After any history of new orders, position requests, cancellations, payment tokens, payment
-- notifications, payment events and ticks of the expiry worker, whichever of their calls to the
-- databases, Redis, Kafka and the event service fail, every ticket type has `0 ≤ sold ≤ quantity`,
-- every stock in Redis is 0 or more, and every order item is for at least one ticket, if all this
-- held at the start.
pub history_never_oversells :
    (uuids : Uuids) (floats : Floats) (rs : List Request) (s : Platform)
    → Sound s
    → Sound (serve_all uuids floats rs s)
unfolding serve_all
history_never_oversells uuids floats [] s v = v
history_never_oversells uuids floats (r ∷ rs) s v =
    history_never_oversells uuids floats rs _ (serve-Sound uuids floats r s v)
