-- ===== src/Core.antt =====
-- shared/db.py: the core store, which research, accounts, signals and quotes live in, as one record of
-- lists of rows in the order of their insertion, and what a call on it may raise. Columns that no code
-- reads back are left out; a JSON text is kept as a text.
pub mod Audits
pub mod Holdouts
pub mod Quotas
pub mod Signals
pub mod Symbols
pub mod Accounts
pub mod Sync
pub mod Lifecycle
pub mod Policies
pub mod Securities
use trading_cat.Base.{ℕ, String, Bool, Option, List, []}
use trading_cat.Base.Action.{Action}
use trading_cat.Base.Int.{ℤ}
use trading_cat.Models.{MarketState}
use trading_cat.Risk.{SyncStatus}
use trading_cat.Store.{PlanRow}

-- research_holdout
pub data HoldoutStatus : Type 0 where
  sealed opened consumed contaminated : HoldoutStatus

pub record Holdout : Type 0 where
  pub holdout_id : String
  pub symbol : String
  pub data_version : String
  pub holdout_start : String
  pub holdout_end : String
  pub status : HoldoutStatus
  pub candidate_version_hash : String
  pub opened_at : Option ℕ
  pub exposure_count : ℕ
  pub result_json : Option String

-- research_manifest
pub record Manifest : Type 0 where
  pub manifest_id : String
  pub symbol : String
  pub data_version : String
  pub search_space_hash : String
  pub candidate_version_hash : String
  pub holdout_id : String
  pub payload_json : String

-- api_quota_usage; the key is the scope and the start of the window.
pub record Quota : Type 0 where
  pub scope : String
  pub window_start : ℕ
  pub used : ℤ
  pub quota_limit : ℤ

-- signal_event
pub record SignalEvent : Type 0 where
  pub event_id : String
  pub account_id : String
  pub symbol : String
  pub strategy_version_id : ℕ
  pub bar_ts : String
  pub signal_type : String
  pub payload_json : String

-- notification_outbox
pub data OutboxStatus : Type 0 where
  pending sending sent failed_retryable dead_letter : OutboxStatus
  other : String → OutboxStatus

pub record Outbox : Type 0 where
  pub outbox_id : String
  pub event_id : String
  pub channel : String
  pub payload_json : String
  pub status : OutboxStatus
  pub attempts : ℕ
  pub next_retry_at : Option ℕ
  pub created_at : ℕ

-- monitor_alert_dedupe
pub record Alert : Type 0 where
  pub symbol : String
  pub condition : String
  pub alert_date : String

-- trading_account
pub record Failure : Type 0 where
  pub error_type : Option String
  pub error_message : Option String
  pub retryable : Bool

pub record AccountRow : Type 0 where
  pub account_id : String
  pub sync_status : SyncStatus
  pub cash : Option ℤ
  pub buying_power : Option ℤ
  pub nav : Option ℤ
  pub updated_at : ℕ
  pub source : String
  pub source_version : String
  pub last_success_at : Option ℕ
  pub last_attempt_at : Option ℕ
  pub snapshot_version : Option String
  pub failure : Failure

-- account_position_snapshot; `metadata_error` is the reason why the security is unknown.
pub record PositionRow : Type 0 where
  pub account_id : String
  pub symbol : String
  pub quantity : ℤ
  pub cost_price : Option ℤ
  pub last_price : Option ℤ
  pub is_hydrated : Bool
  pub metadata_error : Option String
  pub sync_id : ℕ

-- account_order_snapshot; the key is the broker's, or made up of the symbol, the side and the position in
-- the list; the two kinds are taken for different texts.
pub data OrderKey : Type 0 where
  given_key : String → OrderKey
  made_key : String → String → ℕ → OrderKey

pub record OrderRow : Type 0 where
  pub account_id : String
  pub order_key : OrderKey

-- sync_runs; a row is named by its number in the order of insertion, where the code draws a fresh uuid.
pub data RunStatus : Type 0 where
  running synced partial failed skipped : RunStatus

pub record SyncRun : Type 0 where
  pub sync_id : ℕ
  pub idempotency_key : String
  pub domain : String
  pub account_id : Option String
  pub status : RunStatus
  pub failure : Failure

-- lifecycle
pub data Stage : Type 0 where
  candidate backtesting research_only shadow verified live degraded suspended removed : Stage
  other : String → Stage

pub record LifecycleRow : Type 0 where
  pub symbol : String
  pub status : Stage
  pub fail_count : ℕ
  pub last_evidence_hash : Option String
  pub score : Option ℤ
  pub params_json : Option String

-- investor_policy; `is_active` is status='ACTIVE', the only other status being 'SUPERSEDED'.
pub record Policy : Type 0 where
  pub policy_version_id : ℕ
  pub account_id : String
  pub config_json : String
  pub config_hash : String
  pub is_active : Bool

-- security_master; the aliases of a security are left out, which only the search reads.
pub record SecurityRow : Type 0 where
  pub symbol : String
  pub name : String
  pub exchange : String
  pub currency : String
  pub sector : String
  pub asset_type : String
  pub beta : ℤ
  pub leverage : ℤ
  pub lot_size : Option ℤ
  pub metadata_source : String
  pub metadata_version : String

-- security_metadata_failures
pub record SecurityFailure : Type 0 where
  pub symbol : String
  pub error_type : String
  pub error_message : String
  pub retryable : Bool

-- portfolio, the positions that are kept by hand.
pub record Holding : Type 0 where
  pub symbol : String
  pub quantity : ℤ

-- audit_log
pub data CoreEvent : Type 0 where
  holdout_sealed holdout_opened holdout_consumed holdout_contaminated signal_event : CoreEvent
  account_sync position_sync security_metadata_failed : CoreEvent

pub record CoreAudit : Type 0 where
  pub event : CoreEvent
  pub entity_id : String

pub record Core : Type 0 where
  pub holdouts : List Holdout
  pub manifests : List Manifest
  pub quotas : List Quota
  pub signal_events : List SignalEvent
  pub outbox : List Outbox
  pub alerts : List Alert
  pub accounts : List AccountRow
  pub positions : List PositionRow
  pub orders : List OrderRow
  pub sync_runs : List SyncRun
  pub next_sync_id : ℕ
  pub portfolio : List Holding
  pub plans : List PlanRow
  pub market_states : List MarketState
  pub lifecycle : List LifecycleRow
  pub securities : List SecurityRow
  pub security_failures : List SecurityFailure
  pub policies : List Policy
  pub next_policy_id : ℕ
  pub audit_log : List CoreAudit

abbrev pub empty_core : Core
empty_core = record {
  holdouts = [];
  manifests = [];
  quotas = [];
  signal_events = [];
  outbox = [];
  alerts = [];
  accounts = [];
  positions = [];
  orders = [];
  sync_runs = [];
  next_sync_id = 1;
  portfolio = [];
  plans = [];
  market_states = [];
  lifecycle = [];
  securities = [];
  security_failures = [];
  policies = [];
  next_policy_id = 1;
  audit_log = [];
}

pub data CoreError : Type 0 where
  integrity_error : CoreError
  zero_window : CoreError
  holdout_not_sealed holdout_not_opened manifest_immutable : CoreError
  bad_sync_status bad_run_status bad_stage : CoreError
  signal_lost signal_changed bad_outbox_status : CoreError
  -- an exception of the broker's client or of the code around it: its class, its text, and whether it
  -- says that a retry may help
  broker_error : String → String → Bool → CoreError

abbrev pub CoreMethod : Type 0 → Type 0
CoreMethod = Action CoreError Core
