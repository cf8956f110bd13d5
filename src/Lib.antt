-- ===== src/Lib.antt =====
-- A model of the ticketing back end: an auth service with the accounts, an event service that owns the
-- inventory, a ticket service that sells it and pays the organizers, a gate service that lets people
-- in, and a payment service that follows the orders. Each is a set of Go functions over a database, a
-- Redis server, Kafka and the other services, behind guards that read tokens and secrets.
--
-- How a run is modelled (Base/Go). A Go function that returns a value and an error is a function from
-- the state of its service to a result and the next state. Every call that leaves the process (a
-- query, a command of Redis, an HTTP request, a message) is one `external` step: it takes the time and
-- has the outcome that the next entry of a script says, and succeeds at once where the script has
-- ended. So a theorem about every state holds for every pattern of failures. A call that fails has no
-- effect. `Base/Keeps` has the rules by which a property is carried through a run, `Base/Total` the
-- ones for runs that end without an error. Signed 32-bit columns and amounts are integers over the
-- native numbers (`Base/Int`); the database refuses a count that is no `int4`. UUIDs are 128-bit
-- numbers with the parser and the printer of google/uuid as a parameter, and `float64` amounts are bit
-- patterns with their arithmetic as a parameter (`Base/External`); `Base/Samples` instantiates both.
--
-- The parts, and the files that model them:
--   - Gate: gate-service/internal/service/gate_service.go. `scan_ticket` is ScanTicket with the answer
--     of the ticket service as an argument, `sync_ticket` is SyncTicket, `handle` is one request or
--     message of ticket_consumer.go; Gate/Tickets is gate.sql.go. Gate/Spent, Gate/Entry and
--     Gate/Admission have the proofs.
--   - Platform: the state that the event service and the ticket service share, as their tables, the
--     keys of Redis, and the messages sent. Platform/Calm is for states without failures to come.
--   - Inventory: event-service/internal/handler/internal_ticket_handler.go and
--     event-service/internal/repository/db/ticket_types.sql.go, each handler as the status code of its
--     response. Proofs: Inventory/Runs, Inventory/Bounds, Inventory/Effects.
--   - Stock: the Lua scripts, ReserveTicketStock and ReleaseTicketStock of
--     ticket-service/internal/service/ticket_service.go, and the client that calls the handlers of
--     Inventory (ticket-service/internal/client/event_client.go). Proofs: Stock/Runs, Stock/Nonneg.
--   - Tables: the queries of ticket-service/internal/repository/db that the orders use, and the
--     commands on the queue's keys.
--   - Queue, WaitingRoom, Standing: ticket-service/internal/service/queue_service.go. Queue is
--     AdvanceQueue; WaitingRoom is EnqueueOrder and CheckAndAdvanceExpiredActive; Standing is
--     GetOrderQueueStatus and CancelOrderInQueue. Proofs: Queue/Runs, Queue/Turns, Queue/Fresh,
--     WaitingRoom/Fuel, Standing/Access, Standing/Waits,
--     Standing/Positions.
--   - Cancel: CancelOrder, and ticket-service/internal/worker/expiry_worker.go.
--   - Checkout: CreateOrder, one function per numbered step of the source. Proofs:
--     Checkout/Refusals.
--   - Payments, Notifications: HandlePaymentSuccess, HandlePaymentFailed, CreatePaymentToken up to the
--     call of Midtrans, HandleMidtransNotification with Midtrans's answer as an argument, and
--     ticket-service/internal/consumer/payment_consumer.go. Proofs: Payments/Runs, Payments/Once,
--     Payments/Count, Payments/Kept, Payments/Live, Payments/Turn, Notifications/Ids.
--   - Accounts, Auth: auth-service/internal/service/auth_service.go and
--     auth-service/internal/repository/db. Accounts is the state (users, refresh tokens, password
--     resets, the pairs that Redis remembers, the clock) with the queries on users, Accounts/Tokens
--     has the queries on tokens; bcrypt, JWT and the random source are the parameter of
--     Accounts/Crypto, and each random draw has a number of its own. Auth is Register, Login,
--     RefreshToken and Logout; Auth/Profile and Auth/Passwords are the rest. Proofs: Auth/Rules,
--     Auth/Users, Auth/Requests, Auth/Roles, Auth/Distinct, Auth/Spent (histories of requests),
--     Auth/Sessions, Auth/Rotation, Auth/Recovery, Auth/Regained.
--   - Withdrawals: ticket-service/internal/service/withdrawal_service.go, with the revenue that
--     order_service.go computes; Withdrawals/Tables is withdrawals.sql.go and the statistics query of
--     orders.sql.go. A transaction works on rows of its own; the commit makes them the table's, and the
--     deferred rollback drops what is not committed (its own call, whose error the code ignores, cannot
--     fail in the model).
--     Proofs: Withdrawals/Reference, Withdrawals/Deductions, Withdrawals/Atomic.
--   - Events: event-service/internal/service/event_service.go; Events/Tables is events.sql.go and
--     Events/TicketTypes the rest of ticket_types.sql.go. Proofs: Events/Ownership, Events/Rows,
--     Events/Strangers, Events/Quantities. Base/Formats has the parsers of dates and prices as a parameter.
--   - Middleware: shared/middleware/auth.go, with golang-jwt's parser as a parameter;
--     Middleware/Routes has the guards of the routes of the event, ticket and auth services
--     (internal/handler/routes.go of each). Proofs: Middleware/Doors, Middleware/Holders.
--   - Intents: payment-service/internal/service/payment_service.go with its queries and its consumer.
--     Proofs: Intents/Rows, Intents/Orders, Intents/Expiry.
--   - Organizers: GetOrganizerOrder of ticket-service/internal/service/order_service.go. Proof:
--     Organizers/Owned.
--   - Scans: ticket-service/internal/consumer/event_consumer.go and the ticket that a gate looks up
--     (GetTicketByCodeInternal of ticket-service/internal/handler/ticket_handler.go). Proof:
--     Scans/Reported, with the gate's scan.
--   - Safety: the rules that carry a property through every operation of the ticket service, and the
--     histories of requests.
--   - Tests: small concrete states, and runs on them.
--
-- Bounds and fuel. Loops over lists are structural. AdvanceQueue's loop runs over the waiting list as
-- it stands when the call begins, since one call runs at a time. EnqueueOrder calls itself, so it takes
-- fuel: `enqueue_fuel`, the number of calls that may still fail and two more, which
-- `WaitingRoom.Fuel.enqueue_order-terminates` shows to be enough.
--
-- What is not modelled. Requests run one after the other: the code's own concurrency (singleflight, two
-- requests between two commands of Redis) is not covered, and the lifetimes of keys in Redis (24 hours,
-- 5 minutes) are not either. A failed call never takes effect, while a real one may have. The random
-- code of a ticket, and the random part of an event's slug, are made of the next row number. The lengths
-- of text columns are not modelled. GetOrderQueueStatus makes its reads for the display but the texts
-- and amounts in its answer are left out; an event has its organizer, title, slug, status and dates,
-- and the columns that only describe it are left out. The lists, the search and their cached pages, the
-- venues, the batch lookup of users, the organizers' lists of orders and attendees, the platform
-- statistics, the gate's statistics, the storage service, the other HTTP handlers, configuration and
-- logging are not modelled.
pub mod Base
pub mod Gate
pub mod Platform
pub mod Inventory
pub mod Middleware
pub mod Intents
pub mod Stock
pub mod Tables
pub mod Queue
pub mod Cancel
pub mod WaitingRoom
pub mod Standing
pub mod Accounts
pub mod Auth
pub mod Withdrawals
pub mod Organizers
pub mod Scans
pub mod Events
pub mod Checkout
pub mod Payments
pub mod Notifications
pub mod Safety
pub mod Tests
