-- ===== src/Platform.antt =====
-- What the event service and the ticket service keep between calls: the tables of their databases
-- (event-service/internal/repository/db/models.go, ticket-service/internal/repository/db/models.go),
-- the keys of the Redis server that both use, and the messages on Kafka.
pub mod Calm
use entra_api.Base.{ℕ, String, Bool, Option, none, some, List, ◌==◌, str_eq, if◌then◌else◌}
use entra_api.Base.Int.{ℤ}
use entra_api.Base.Go.{Go, unavailable, ok, err, Env, call}

-- The columns of `events` without the ones that only describe the event (description, banner, venue,
-- category, online address, greatest number of visitors).
pub record Event : Type 0 where
  pub id : ℕ
  pub organizer_id : ℕ
  pub title : String
  pub slug : String
  pub start_date : ℕ
  pub status : String
  pub end_date : Option ℕ

-- The columns of `ticket_types`; the price is a DECIMAL(15, 2), in hundredths.
pub record TicketType : Type 0 where
  pub id : ℕ
  pub event_id : ℕ
  pub name : String
  pub description : Option String
  pub price : ℤ
  pub max_per_order : Option ℤ
  pub quantity : ℤ
  pub sold : ℤ
  pub is_active : Bool
  pub sale_start : Option ℕ
  pub sale_end : Option ℕ

-- `total_amount` is a DECIMAL(15, 2), in hundredths.
pub record Order : Type 0 where
  pub id : ℕ
  pub user_id : ℕ
  pub event_id : ℕ
  pub total_amount : ℤ
  pub status : String
  pub expires_at : ℕ

pub record OrderItem : Type 0 where
  pub order_id : ℕ
  pub ticket_type_id : ℕ
  pub quantity : ℤ
  pub price : ℤ
  pub subtotal : ℤ

pub record Ticket : Type 0 where
  pub id : ℕ
  pub order_id : ℕ
  pub user_id : ℕ
  pub event_id : ℕ
  pub ticket_type_id : ℕ
  pub ticket_code : String
  pub status : String

-- The messages that the ticket service publishes. The amount is a `float64`, as its bit pattern.
pub data Message : Type 0 where
  order_created : String → String → ℕ → Message
  order_cancelled : String → Message
  ticket_created : String → String → String → String → Message

-- The keys `ticket_stock:<id>`, `order:idempotency:<key>`, and, for each event,
-- `queue:event:<id>:active`, `…:expires_at` (Unix seconds) and `…:waiting`, and the events that the
-- event service keeps under `event:<id or slug>`. A missing key is `none`.
pub record Redis : Type 0 where
  pub stock : String → Option ℤ
  pub idempotency : String → Option String
  pub active : ℕ → Option String
  pub expires_at : ℕ → Option ℕ
  pub waiting : ℕ → List String
  pub event_cache : String → Option Event

-- `redis_on` says whether the services have a Redis client, and `client_on` whether the ticket
-- service has a client of the event service. New rows are numbered by `next_id`.
pub record Platform : Type 0 where
  pub env : Env
  pub events : List Event
  pub ticket_types : List TicketType
  pub orders : List Order
  pub items : List OrderItem
  pub tickets : List Ticket
  pub redis : Redis
  pub redis_on : Bool
  pub client_on : Bool
  pub log : List Message
  pub next_id : ℕ

-- One call to a database, to Redis, to Kafka or to the other service.
unfoldable pub external : Go Platform (Unit {0})
external s =
    let (fails, env) = call s.env in
    (if fails then err unavailable else ok tt, record s { env = env })

-- A key of Redis gets a value, or is deleted.
abbrev pub put : {A : Type 0} → String → Option A → (String → Option A) → String → Option A
put k v f j = if str_eq j k then v else f j

abbrev pub put_event : {A : Type 0} → ℕ → A → (ℕ → A) → ℕ → A
put_event k v f j = if j == k then v else f j

-- The keys change.
abbrev pub set_redis : (Redis → Redis) → Platform → Platform
set_redis f s = record s { redis = f s.redis }

-- `time.Now().Unix()`
abbrev pub second : ℕ
second = 1000000000
