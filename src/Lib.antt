-- ===== src/Lib.antt =====
-- TradingCat's execution chain: from an approved plan to orders at a broker and back.
--
-- A plan of orders is frozen with a hash (execution/models.py). A ticket, the confirmation, binds a
-- human approval to the plan's id and hash (shared/db.py). The order manager consumes the ticket once,
-- in one transaction that makes all orders of the plan (execution/order_manager.py), passes the
-- pre-trade gate (execution/pretrade_risk.py) and hands each order to the paper broker
-- (execution/paper_broker.py) or the live broker (execution/broker_live.py), which takes up a canary, a
-- limited permit for real orders (shared/db.py). What the broker reports comes back as events
-- (execution/broker.py), which change the status of an order (execution/state.py) and record fills;
-- reconciliation (execution/broker.py) compares the store with the broker and fails closed. Around the
-- chain stands the core store (shared/db.py): hold-outs that research may look at once, quotas of API
-- calls, signals with the notifications that are stored with them (production/notification.py), and the
-- state of the account (shared/account.py), which the pre-trade gate reads. Callers come through the
-- service (execution/service.py): it copies a plan from the core store under its hash, takes approvals
-- by signed proof only (execution/approval_wechat.py), and hands an approved plan to the order manager.
--
-- Files:
--   Base: lists, integers, tables of rows and methods. A method takes the store and returns a result and
--     the store, so what was written before a raise stays, unless `immediate_transaction` rolls it back.
--     Base/Action/Relates and Base/Action/Outcome are the rules for properties of methods.
--   Text: JSON of a text, SQL's LIKE.
--   Models: execution/models.py.
--   Store: shared/db.py, one child for each table: Plans, Confirmations, Intents, Fills, Canaries,
--     AuditLog. Store/CanaryLimits is about the limits of the canaries.
--   State: execution/state.py, `set_intent_status`.
--   Evolution: the order in which a store may change, and that each method of the store respects it.
--   Events: execution/broker.py, `BrokerEventHandler`; Events/Fills and Events/Repeat on its fills.
--   Risk: execution/pretrade_risk.py, `evaluate`; Risk/Orders and Risk/Limits are its checks,
--     Risk/Sound and Risk/Bounds say what a PASS means.
--   Brokers: execution/paper_broker.py in Paper; execution/broker_live.py in Live (submission) and
--     Snapshots (polling); execution/broker.py, `normalize_broker_status`, in Status;
--     execution/order_router.py in Router.
--   Orders: execution/order_manager.py: Tickets, Consume, Submit.
--   Reconcile: execution/broker.py, `Reconciliation`.
--   Core: the core store of shared/db.py, one child for each part: Holdouts, Quotas, Signals (with the
--     worker of production/notification.py), Accounts, Audits, Lifecycle, Policies, and Securities, which
--     has shared/security.py. Core/Sync is shared/account.py, with its calls in the children Account,
--     Loading and Holdings, and Core/Symbols its form of symbols. The other children are proofs.
--   Identity: execution/approval_wechat.py, the signed proofs and the approval by message.
--   Service: execution/service.py; Service/Execution are the calls that reach a broker.
--   Traces: any sequence of these operations, and of the writes by which tc.py cancels or refuses a ticket,
--     while the ticket is still PENDING, or APPROVED. The children Evolve are its lemmas.
--   Scenarios: runs on concrete values.
--
-- Conventions. A table is the list of its rows in the order of insertion; UNIQUE constraints are checks
-- of an insertion. A float is an integer count of 10⁻⁹, a quantity times a price one of 10⁻¹⁸, so the
-- code's tolerance 1e-9 is exact, and rounding of floats is not modelled. A time stamp is a number of
-- seconds, and the clock is read once in an operation, as its argument `now`. Status texts are data
-- types with a constructor `other` for any other text. Loops are structural recursion over rows, so no
-- fuel is needed. sha256, the fingerprint of a fill, the broker's client and its answers are
-- parameters, and so are the adapter that sends a notification and the service of securities. A fresh
-- uuid is the next number. A JSON payload keeps only what some code reads back.
--
-- Not modelled: the command line, the daemon's sockets, the SDK's client and its push callback, the
-- webhook of a notification, the tables of universes, scores and fundamentals, the search of securities,
-- research and back tests (numpy), market data.
pub mod Base
pub mod Text
pub mod Models
pub mod Store
pub mod State
pub mod Evolution
pub mod Events
pub mod Risk
pub mod Core
pub mod Identity
pub mod Service
pub mod Brokers
pub mod Orders
pub mod Reconcile
pub mod Traces
pub mod Scenarios
