-- ===== src/Service/Execution.antt =====
-- execution/service.py: the calls that go out to a broker, or ask what became of a plan.
use trading_cat.Base.{
  ℕ, String, Bool, true, false, not, ◌||◌, Option, none, some, List, str_eq, any, length,
  if◌then◌else◌,
}
use trading_cat.Base.Int.{ℤ}
use trading_cat.Base.Tables.{select, count}
use trading_cat.Base.Action.{◌>>=◌, ◌>>◌, pure, raise, raise_if, gets, catch, when}
use trading_cat.Models.{
  ExecutionPlan, Confirmation, ConfirmationStatus, Mode, MarketState, PlanOrder, Digest,
}
use trading_cat.Store.{Canary, unknown_outcome}
use trading_cat.Store.Confirmations.{is_approved, is_consumed}
use trading_cat.Store.Intents.{list_intents}
use trading_cat.Orders.Consume.{Entry}
use trading_cat.Orders.Submit.{Broker, paper_broker, live_broker, Submission, submit, is_unknown}
use trading_cat.Risk.{SyncStatus}
use trading_cat.Risk.Orders.{Markets}
use trading_cat.Risk.Limits.{RiskLimits}
use trading_cat.Brokers.Live.{is_proven}
use trading_cat.Reconcile.{Query, Report, reconcile_plan}
use trading_cat.Core.{Core}
use trading_cat.Core.Accounts.{set_account_sync_status, no_failure}
use trading_cat.Core.Sync.Loading.{load}
use trading_cat.Service.{
  ServiceError, ServiceMethod, on_core, on_execution, need_snapshot, need_confirmation, in_store,
  in_core, plan_id_mismatch, plan_hash_mismatch, empty_id, not_proven, already_consumed,
  not_approved, paper_needs_paper_broker, live_not_enabled, kill_switch_engaged, not_ready,
  wrong_mode, live_needs_broker, queries_not_enabled,
}

-- The fields of the service that these calls use.
pub record Config : Type 0 where
  pub broker : Option Broker
  pub risk_limits : Option RiskLimits
  pub daily_loss : Option ℤ
  pub query : Query

-- shared/db.py, `get_market_state`
abbrev is_quote_of : String → MarketState → Bool
is_quote_of symbol m = str_eq m.symbol symbol

unfoldable pub get_market_state : String → Core → Option MarketState
get_market_state symbol s = select (is_quote_of symbol) s.market_states

abbrev is_of_symbol : String → PlanOrder → Bool
is_of_symbol symbol o = str_eq o.symbol symbol

-- `_load_risk_inputs`: the quotes of the symbols of the plan.
unfoldable pub quotes_of : ExecutionPlan → Core → Markets
quotes_of plan s symbol =
    if any (is_of_symbol symbol) plan.orders then get_market_state symbol s else none

-- The broker for the mode of the plan.
unfoldable pub live_broker_of : Option Broker → ServiceMethod Broker
live_broker_of (some (live_broker b)) = do
  raise_if (not b.enable_live) live_not_enabled
  raise_if b.kill_switch kill_switch_engaged
  ready ← gets (λ s. s.1.is_p0_a_passed)
  raise_if (not ready) not_ready
  pure (live_broker b)
live_broker_of _ = raise live_not_enabled

unfoldable pub paper_broker_of : Option Broker → ServiceMethod Broker
paper_broker_of (some (live_broker b)) = raise paper_needs_paper_broker
paper_broker_of _ = pure paper_broker

unfoldable pub broker_of : Mode → Option Broker → ServiceMethod Broker
broker_of Mode.paper configured = paper_broker_of configured
broker_of Mode.live configured = live_broker_of configured
broker_of _ configured = raise wrong_mode

-- What the call returns.
pub data Outcome : Type 0 where
  submitted : List Entry → Outcome
  outcome_unknown : Outcome

-- `except UnknownOutcomeError`
abbrev pub is_unknown_outcome : ServiceError → Bool
is_unknown_outcome (in_store unknown_outcome) = true
is_unknown_outcome _ = false

unfoldable pub if_unknown : ServiceError → ServiceMethod Outcome
if_unknown e = if is_unknown_outcome e then pure outcome_unknown else raise e

abbrev pub submission_of : Config → ExecutionPlan → Confirmation → Broker → Core → ℕ → Submission
submission_of config plan row broker core now = record {
  plan = plan;
  confirmation = row;
  market_states = quotes_of plan core;
  account_state = some (load plan.account_id core);
  broker = some broker;
  risk_limits = config.risk_limits;
  daily_loss = config.daily_loss;
  now = now;
}

unfoldable pub submit_plan : Digest → Submission → ServiceMethod Outcome
submit_plan sha256 q = do es ← on_execution in_store (submit sha256 q); pure (submitted es)

unfoldable pub check_approved : Confirmation → ServiceMethod Unit
check_approved row =
    if is_approved row.status
    then pure tt
    else raise (if is_consumed row.status then already_consumed else not_approved)

unfoldable pub execute_known :
    Digest → Config → ExecutionPlan → Confirmation → ℕ → ServiceMethod Outcome
execute_known sha256 config plan row now = do
  check_approved row
  core ← gets (λ s. s.0)
  broker ← broker_of plan.execution_mode config.broker
  catch (submit_plan sha256 (submission_of config plan row broker core now)) if_unknown

-- The ticket is of the plan and was approved by a proof.
unfoldable pub check_binding : ExecutionPlan → Confirmation → ServiceMethod Unit
check_binding plan row = do
  raise_if (not (str_eq row.plan_id plan.plan_id)) plan_id_mismatch
  raise_if (not (str_eq row.plan_hash plan.plan_hash)) plan_hash_mismatch
  raise_if (not (is_proven row.approval_channel)) not_proven

unfoldable pub execute : Digest → Config → String → String → ℕ → ServiceMethod Outcome
execute sha256 config plan_id cid now = do
  raise_if (str_eq plan_id "" || str_eq cid "") empty_id
  plan ← need_snapshot sha256 plan_id
  row ← need_confirmation cid
  check_binding plan row
  intents ← gets (λ s. list_intents plan.plan_id s.1)
  if any is_unknown intents then pure outcome_unknown else execute_known sha256 config plan row now

-- What `execute_status` reports, without the sorted texts of the orders' statuses.
pub record Status : Type 0 where
  pub mode : Mode
  pub confirmation_status : ConfirmationStatus
  pub intent_count : ℕ
  pub unknown_outcome : Bool

unfoldable pub execute_status : Digest → String → String → ServiceMethod Status
execute_status sha256 plan_id cid = do
  plan ← need_snapshot sha256 plan_id
  row ← need_confirmation cid
  raise_if (not (str_eq row.plan_id plan_id) || not (str_eq row.plan_hash plan.plan_hash))
      plan_hash_mismatch
  intents ← gets (λ s. list_intents plan_id s.1)
  pure (record {
    mode = plan.execution_mode;
    confirmation_status = row.status;
    intent_count = length intents;
    unknown_outcome = any is_unknown intents;
  })

pub record Readiness : Type 0 where
  pub is_ready : Bool
  pub active_canaries : ℕ

abbrev is_active_canary : Canary → Bool
is_active_canary c = c.is_active

unfoldable pub readiness : ServiceMethod Readiness
readiness = gets (λ s. record {
  is_ready = s.1.is_p0_a_passed;
  active_canaries = count is_active_canary s.1.canaries;
})

-- The broker that a LIVE reconciliation may ask.
unfoldable pub check_queries : Mode → Option Broker → ServiceMethod Unit
check_queries Mode.live (some (live_broker b)) =
    raise_if (not b.enable_order_queries) queries_not_enabled
check_queries Mode.live _ = raise live_needs_broker
check_queries _ configured = pure tt

abbrev query_of : Option Broker → Query → Option Query
query_of none query = none
query_of (some _) query = some query

-- The account's row in the core store is written once the execution store is.
unfoldable pub reconcile : Digest → Config → String → ℕ → ServiceMethod Report
reconcile sha256 config plan_id now = do
  plan ← need_snapshot sha256 plan_id
  check_queries plan.execution_mode config.broker
  report ← on_execution in_store (reconcile_plan (query_of config.broker config.query) plan_id)
  when report.sets_mismatch
      (on_core in_core (set_account_sync_status plan.account_id SyncStatus.mismatch no_failure now))
  pure report
