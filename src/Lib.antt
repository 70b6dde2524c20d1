-- ===== src/Lib.antt =====
-- ProjectVPN sells VPN access: a bot takes orders, payment providers report payments through webhooks,
-- a worker turns paid orders into subscription periods and provisioning tasks, and agents on the nodes
-- create and remove clients. This library models the domain core of src/shop_bot and the agent's
-- request protection, with one module for each part:
--
-- Common           text, integers, times, JSON payloads and keyed tables
-- Errors           domain/errors.py, core/exceptions.py: exceptions as values of `Result`
-- Payment          domain/entities/payment.py: Status, Order, Attempt and Event; Money is
--                  domain/value_objects/money.py, Settlement is domain/services/payment_settlement.py
-- Subscription     domain/entities/subscription.py; Policy is domain/services/subscription_policy.py
-- Vpn              domain/entities/vpn.py
-- User             domain/entities/user.py
-- Task             the leased tasks: Provision and Revoke of domain/entities/panel_task.py, Node of
--                  domain/entities/node.py, and Lease with what they share
-- Node             Node of domain/entities/node.py; Selection is domain/services/node_selection.py
-- Agent            Journal is infrastructure/nodes/idempotency.py, Nonces and Auth are
--                  infrastructure/nodes/auth.py
-- UseCase          ProcessPayment, with Paid, Unsuccessful, Refund and Reply, is
--                  application/use_cases/process_payment.py, and Activate is
--                  application/use_cases/activate_subscription.py; Rows holds the tables and queries
--                  of infrastructure/persistence/repositories that they use. Entitlement describes
--                  runs by three kinds of step, Redelivery compares a run with one that follows.
--                  CreatePayment is application/use_cases/create_payment.py (Invoice for what
--                  follows the claim), IngestWebhook is application/use_cases/ingest_webhook.py,
--                  Catalog is domain/entities/tariff.py
-- Dispatch         the panel workers: Provision, Compensate and Run are
--                  application/use_cases/dispatch_panel_provision_task.py, Revoke is
--                  application/use_cases/dispatch_panel_revoke_task.py, over the tables of Rows. Steps
--                  interleaves their transactions, Trace relates each to the calls of the entities,
--                  and Outcomes follows whole runs; Schedule is what a scheduler calls
-- Tests            runs on concrete data
--
-- An entity is a record with the fields of the dataclass, and a method is a function that returns the
-- entity as the method leaves it; a method that may raise returns a `Result`. Names are those of the
-- source. `__post_init__` is `post_init` and takes integers where the entity then holds natural numbers.
-- The methods that change an entity are composed by lists of calls; a call that raises leaves the
-- entity as it was. Each transaction of the journal is one operation on its table, so that sequences of
-- operations stand for all interleavings of callers. A use case is a function from a store of rows to
-- its answer and the store after its commit; one that raises writes nothing. A worker's run is a chain
-- of transactions; what other transactions do between them, the readings of the clock, the tokens it
-- draws and the answers of the panel are its arguments; the creation of a payment is a run like that,
-- with the gateway in place of the panel. Notes added to exceptions are left out.
--
-- Times are whole microseconds since the start of the year 1. The last moment of Python's `datetime` is
-- kept where days are added for a period or a tariff, which raises OverflowError beyond it; leases and
-- retries, which add seconds, have no upper bound here. Of the tables' unique indexes these are modelled:
-- one active configuration for a subscription, one attempt for a reference of a provider, one open claim
-- for an order, and the keys of orders, transactions, the inbox and the events, where the index on the
-- event's key alone, which the tables declare and a migration drops, may be there or not. A row that
-- breaks another index is not refused.
--
-- UUIDs and lease tokens are numbers that are only compared, and text is a list of code points, of which
-- `lower` and `upper` change the ASCII letters. Every loop is a recursion on a list, so no fuel is
-- needed. Parameters stand for `secrets.randbelow`, `hashlib`, `hmac`
-- and `datetime.fromisoformat`.
--
-- Not modelled are input and output: the bot, the HTTP API, the database session and the repositories'
-- other queries, the adapters of payment providers, panels, queues and caches, configuration and
-- logging; the registration of users; and the use cases for dispatching node tasks, for provisioning,
-- synchronisation and administration.
pub mod Common
pub mod Errors
pub mod Payment
pub mod Subscription
pub mod Vpn
pub mod User
pub mod Task
pub mod Node
pub mod Agent
pub mod UseCase
pub mod Dispatch
pub mod Tests
