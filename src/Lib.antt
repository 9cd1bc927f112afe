-- ===== src/Lib.antt =====
-- The SwiftBite orders service: what its services do to the databases, the presence sets and the
-- messages, from the TypeScript under src/app and src/lib.
--
-- The program takes orders of customers at branches of restaurants, takes payments through the
-- provider Kashier, assigns deliveries to agents, and settles the money of a delivered order. Every
-- region has its own database. The order service creates and changes orders; the delivery service
-- assigns, reassigns and settles deliveries through the assignment service; the payment service opens
-- payment sessions and books refunds, whose outcome the webhook service learns from Kashier; the
-- finance service pays restaurants out of the balances that settlements have filled. The services
-- share the repositories, and tell other systems through the rows of an outbox and through WebSocket
-- messages.
--
-- The files:
--   Common: tests on numbers, lists as table rows, signed integers.
--   Domain: the enumerations and entities of src/app/*/enums.ts and src/app/*/entity, the errors, the
--     events and messages, and the answers of the core service.
--   Store: the state. Db is one region's database, a table being its rows and its next id; World holds
--     the databases and presence sets of every region and the messages sent. Tx is the body of a
--     database transaction, which leaves nothing behind when it throws; Action is a service method,
--     which keeps what it wrote before it threw. Env holds the answers from outside.
--   Order: order-status.service.ts (Status), order.repo.ts and order-item.repo.ts (Repo), the access
--     checks (Access), updateStatus and applySystemStatusChange (Update), placeOrder (Place), the
--     listings (Listing) and getOrder (Lookup, with getById of payment.service.ts) of
--     src/app/order/service/order.service.ts.
--   Delivery: the repositories (Repo), assignment.service.ts (Assign), delivery.service.ts (Service)
--     and the transaction of its settleDelivery (Settlement).
--   Payment: the repositories (Repo), kashier-webhook.service.ts (Webhook), init and refund of
--     payment.service.ts (Service), and Kashier's signature of src/pkg/payments/kashier (Signature).
--   Finance: recordPayout of src/app/finance/service/finance.service.ts (Payout), and the balances over
--     sequences of settlements and payouts (Ledger).
--   Agent: src/app/agent, that is presence.service.ts (Presence), agent.service.ts and
--     earning.service.ts (Tasks), and the repositories (Repo).
--   Events: src/lib/events/outbox.repo.ts (Outbox), drain-outbox.ts (Drain), and the consumer of
--     src/lib/core-events (Consumer).
--   Presence: src/lib/presence/presence-store.ts.
--   Pagination: src/lib/http/pagination: cursors (Cursor), pages (Page), the query string and filters
--     (Query), a client that follows the cursors (Walk).
--   Idempotency: src/lib/idempotency: the records (Keys) and the middleware (Middleware).
--   Jobs: src/lib/jobs/archival-lock.ts (Lock) and archival.worker.ts (Archival, with Run).
--   Auth: src/lib/auth/rbac.ts and src/lib/sharding/region-resolver.ts (Guards), and
--     src/lib/websocket/ws-auth.ts (Channels).
--   Core: src/pkg/utils/retry.ts (Retry), src/lib/core-client (Client, and Products with the caches of
--     branches and products, whose entries are Shelf), placeOrder's basket on cached products (Basket),
--     and src/lib/auth/permission-cache.ts (Permissions).
--   Http: src/lib/cache/withCache.ts (Cache), the response shapes of src/app/order/dto (Responses), and
--     the route of a branch's listing with its controller (Orders).
--   Tests: the theorems at concrete inputs.
-- A function keeps its name in snake case: placeOrder is place_order, and a part of a function that
-- has a name of its own in the model is named for what it does, with the function beside it.
--
-- What stands outside. The core service, Kashier, the clock, the configuration, the distances of Redis
-- and PostGIS, and the rounding of the agent's share are fields of Env; the theorems hold for all
-- their answers, which do not change while a request runs. Texts are only compared and stored, so
-- numbers stand for them, but for cursors, column names and the body of a webhook, which the code takes
-- apart and which are lists of character codes; uuidv4 draws numbers that were not drawn before. Amounts are whole numbers
-- of minor units without a bound: JavaScript's numbers are exact up to 2 ^ 53. The unique keys of the
-- migrations that the code relies on are tests of the statements. A transaction runs as one step, as
-- its row locks and unique keys make concurrent ones do on the rows that the theorems are about.
--
-- How a column of a page is compared in SQL, written as a text and read back is a parameter of the
-- listings, as is what a filter says of a row, and the handler behind the idempotency middleware.
--
-- Three loops run on fuel. The walk along the reassignments of a delivery, countReassignmentChain, is
-- given one step more than the delivery's id, which is enough where deliveries take over from earlier
-- ones, as ids fall along the walk then. The passes of the archival job are given one step more than
-- the table has rows, and each batch leaves fewer rows to fetch; a table that is not through when its
-- budget is spent is left for the next run. A client that walks through the pages of a listing is given
-- one page more than there are rows.
--
-- A statement outside of a transaction goes through, but for the one that updateStatus awaits after its
-- commit, cancelActiveDeliveryForOrder: whether it does is a field of Env.
--
-- The archival job is modelled with nothing else that writes, and the requests behind the idempotency
-- middleware one after the other. The rows that the archival job moves are seen by the columns that it
-- reads, so its tables are a type of their own.
--
-- The services take the core service's answers from Env, and Core says how those come about: by up to
-- four attempts, by a cache, or out of an hour-old copy. The network is what each attempt would meet,
-- by its number; encodeURIComponent, the HMAC and the decoding of a hexadecimal text are parameters of
-- the signature. An answer of a route is cached at once, and withCache is without its userScoped, which
-- no route asks for.
--
-- Not modelled: the controllers but for the listing of a branch's orders, the validation of bodies, the
-- sockets, the timers around the drain and the archival, the requests to Kashier, and the adapter of
-- RabbitMQ.
pub mod Common
pub mod Domain
pub mod Store
pub mod Order
pub mod Delivery
pub mod Payment
pub mod Finance
pub mod Events
pub mod Presence
pub mod Pagination
pub mod Agent
pub mod Auth
pub mod Core
pub mod Http
pub mod Idempotency
pub mod Jobs
pub mod Tests
