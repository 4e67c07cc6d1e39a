-- ===== src/Orders/Submit.antt =====
-- execution/order_manager.py: `OrderManager.submit`.
use trading_cat.Base.{
  ℕ, String, Bool, true, false, not, ◌&&◌, ◌||◌, Option, none, some, List, [], ◌∷◌, if◌then◌else◌,
  any,
}
use trading_cat.Base.Int.{ℤ}
use trading_cat.Base.Tables.{count}
use trading_cat.Base.Action.{◌>>=◌, ◌>>◌, pure, raise, raise_if, gets, when, catch}
use trading_cat.Models.{ExecutionPlan, Confirmation, Decision, Digest, is_execution_mode}
use trading_cat.Store.{
  Store, Method, Error, Intent, IntentStatus, Entity, pretrade, bad_execution_mode, unknown_outcome,
  live_needs_proof, live_needs_broker, live_not_enabled, paper_needs_paper_broker,
  pretrade_rejected,
}
use trading_cat.Store.AuditLog.{audit}
use trading_cat.Store.Intents.{list_intents, get_intent_by_request_id}
use trading_cat.Store.Canaries.{close_live_canaries, close_expired_live_canaries}
use trading_cat.State.{set_intent_status}
use trading_cat.Risk.{AccountState, SyncStatus, Inputs, is_synced, evaluate, reasons, mentions}
use trading_cat.Risk.Orders.{Markets, Reason}
use trading_cat.Risk.Limits.{RiskLimits}
use trading_cat.Brokers.{BrokerAck}
use trading_cat.Brokers.Paper
use trading_cat.Brokers.Paper.{is_paper}
use trading_cat.Brokers.Live
use trading_cat.Brokers.Live.{LiveBroker, is_live, is_proven}
use trading_cat.Orders.Consume.{Entry, consume, recover, notify}

-- The broker of the manager, if it was given one.
pub data Broker : Type 0 where
  paper_broker : Broker
  live_broker : LiveBroker → Broker

abbrev broker_is_enabled : Broker → Bool
broker_is_enabled paper_broker = false
broker_is_enabled (live_broker b) = b.enable_live

abbrev is_enabled : Option Broker → Bool
is_enabled none = false
is_enabled (some b) = broker_is_enabled b

abbrev is_missing : Option Broker → Bool
is_missing none = true
is_missing _ = false

abbrev is_not_paper : Option Broker → Bool
is_not_paper (some (live_broker _)) = true
is_not_paper _ = false

-- PAPER without a broker takes the paper broker.
abbrev or_paper : Option Broker → Broker
or_paper none = paper_broker
or_paper (some b) = b

-- The arguments of one `submit` and the fields of its manager.
pub record Submission : Type 0 where
  pub plan : ExecutionPlan
  pub confirmation : Confirmation
  pub market_states : Markets
  pub account_state : Option AccountState
  pub broker : Option Broker
  pub risk_limits : Option RiskLimits
  pub daily_loss : Option ℤ
  pub now : ℕ

-- "account_state_" and the status in lower case.
abbrev sync_reason : Option AccountState → String
sync_reason none = "account_state_unknown"
sync_reason (some a) = elim a.sync_status [
  | SyncStatus.synced ↦ "account_state_synced"
  | SyncStatus.stale ↦ "account_state_stale"
  | SyncStatus.reconciling ↦ "account_state_reconciling"
  | SyncStatus.mismatch ↦ "account_state_mismatch"
  | SyncStatus.unknown ↦ "account_state_unknown"
  | SyncStatus.other _ ↦ "account_state_other"
]

abbrev pub is_out_of_sync : Option AccountState → Bool
is_out_of_sync none = true
is_out_of_sync (some a) = not (is_synced a.sync_status)

unfoldable pub close_all : String → Submission → Method Unit
close_all reason q = close_live_canaries reason (some q.plan.account_id) >>= λ _. pure tt

unfoldable pub close_expired : Submission → Method Unit
close_expired q = close_expired_live_canaries (some q.plan.account_id) q.now >>= λ _. pure tt

unfoldable pub tidy_canaries : Submission → Method Unit
tidy_canaries q = do
  close_expired q
  when (is_out_of_sync q.account_state) (close_all (sync_reason q.account_state) q)

abbrev pub is_unknown : Intent → Bool
is_unknown i = elim i.status [ IntentStatus.unknown ↦ true | _ ↦ false ]

abbrev is_in_flight : Intent → Bool
is_in_flight i = elim i.status [
  | IntentStatus.pending ↦ true
  | IntentStatus.submitting ↦ true
  | IntentStatus.submitted ↦ true
  | _ ↦ false
]

unfoldable pub refuse_unknown : Submission → Method Unit
refuse_unknown q = do
  existing ← gets (list_intents q.plan.plan_id)
  if any is_unknown existing
      then (do
        when (is_live q.plan.execution_mode) (close_all "order_intent_unknown" q)
        raise unknown_outcome)
      else pure tt

unfoldable pub check_broker : Submission → Method Unit
check_broker q = do
  raise_if (is_live q.plan.execution_mode && not (is_proven q.confirmation.approval_channel))
      live_needs_proof
  raise_if (is_live q.plan.execution_mode && is_missing q.broker) live_needs_broker
  raise_if (is_live q.plan.execution_mode && not (is_enabled q.broker)) live_not_enabled
  raise_if (is_paper q.plan.execution_mode && is_not_paper q.broker) paper_needs_paper_broker

abbrev pub goes_out : Submission → Bool
goes_out q = is_paper q.plan.execution_mode || is_live q.plan.execution_mode

-- What the gate is asked, at all orders of the store.
unfoldable pub inputs_of : Submission → List Intent → Inputs
inputs_of q all_intents = record {
  plan = q.plan;
  confirmation = q.confirmation;
  account_state = q.account_state;
  market_states = q.market_states;
  pending_intents = count is_in_flight all_intents;
  unknown_intents = count is_unknown all_intents;
  risk_limits = q.risk_limits;
  daily_loss = q.daily_loss;
  now = q.now;
}

unfoldable pub risk_inputs : Submission → Store → Inputs
risk_inputs q s = inputs_of q s.intents

unfoldable pub reject_submission : Submission → List Reason → Method Unit
reject_submission q found = do
  when (is_live q.plan.execution_mode) (do
    when (is_out_of_sync q.account_state) (close_all (sync_reason q.account_state) q)
    when (mentions "UNKNOWN" found) (close_all "order_intent_unknown" q)
    when (mentions "MISMATCH" found) (close_all "pretrade_unknown_or_mismatch" q))
  notify q.plan
  raise pretrade_rejected

unfoldable pub act_on : Submission → Inputs → Decision → Method Unit
act_on q i Decision.pass = pure tt
act_on q i Decision.reject = reject_submission q (reasons i)

unfoldable pub decide_submission : Submission → Inputs → Method Unit
decide_submission q i = do audit pretrade (Entity.plan q.plan.plan_id); act_on q i (evaluate i)

unfoldable pub gate : Submission → Method Unit
gate q = do i ← gets (risk_inputs q); decide_submission q i

-- Fail closed: whatever the broker raised, nobody knows what became of the order.
unfoldable pub fail_closed : {A : Type 0} → Submission → Intent → Error → Method A
fail_closed q row e = do
  set_intent_status row.intent_id IntentStatus.unknown none
  close_all "broker_submit_unknown_or_credential_error" q
  raise unknown_outcome

unfoldable pub submit_order : Broker → Submission → Intent → Method BrokerAck
submit_order paper_broker q row = Paper.submit_order row (some q.confirmation) (some q.plan)
submit_order (live_broker b) q row = Live.submit b row (some q.confirmation) (some q.plan) q.now

abbrev is_pending : IntentStatus → Bool
is_pending IntentStatus.pending = true
is_pending _ = false

unfoldable pub submit_row : Submission → Option Intent → Method Unit
submit_row q none = pure tt
submit_row q (some row) =
    if is_pending row.status
    then (do
      set_intent_status row.intent_id IntentStatus.submitting none
      ack ← catch (submit_order (or_paper q.broker) q row) (fail_closed q row)
      set_intent_status row.intent_id IntentStatus.submitted (some ack.broker_order_id)
      pure tt)
    else pure tt

unfoldable pub submit_each : Submission → List Entry → Method Unit
submit_each q [] = pure tt
submit_each q (e ∷ es) = do
  stored ← gets (get_intent_by_request_id e.content.client_request_id)
  submit_row q stored
  submit_each q es

unfoldable pub send : Submission → List Entry → Method Unit
send q es = do recover q.plan.plan_id; submit_each q es; notify q.plan

unfoldable pub submit : Digest → Submission → Method (List Entry)
submit sha256 q = do
  raise_if (not (is_execution_mode q.plan.execution_mode)) bad_execution_mode
  when (is_live q.plan.execution_mode) (tidy_canaries q)
  refuse_unknown q
  check_broker q
  when (goes_out q) (gate q)
  es ← consume sha256 q.plan q.confirmation q.now
  when (goes_out q) (send q es)
  pure es
