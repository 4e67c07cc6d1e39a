-- ===== src/Store.antt =====
-- shared/db.py: the tables of the execution store, as one record of lists of rows, and what a call on
-- it may raise. Rows stand in the order of their insertion. Columns that no code reads back
-- (`created_at` of an intent, `updated_at`, the raw JSON of a broker order) are left out.
pub mod AuditLog
pub mod Plans
pub mod Confirmations
pub mod Intents
pub mod Fills
pub mod Canaries
pub mod CanaryLimits
use trading_cat.Base.{ℕ, String, Bool, true, false, not, ◌&&◌, Option, none, some, List, [], str_eq}
use trading_cat.Base.Int.{ℤ}
use trading_cat.Base.Action.{Action}
use trading_cat.Models.{Mode, Side, OrderType, PlanOrder, Confirmation}

pub data PlanStatus : Type 0 where
  pending confirmed consumed expired rejected cancelled : PlanStatus
  other : String → PlanStatus

pub data IntentStatus : Type 0 where
  pending submitting submitted filled rejected cancelled unknown : IntentStatus
  other : String → IntentStatus

-- trading_execution_plan
pub record PlanRow : Type 0 where
  pub plan_id : String
  pub account_id : String
  pub execution_mode : Mode
  pub expires_at : ℕ
  pub plan_hash : String
  pub orders : List PlanOrder
  pub status : PlanStatus

-- trading_order_intent
pub record Intent : Type 0 where
  pub intent_id : ℕ
  pub client_request_id : String
  pub plan_id : String
  pub plan_order_id : String
  pub symbol : String
  pub side : Side
  pub quantity : ℤ
  pub order_type : OrderType
  pub reference_price : Option ℤ
  pub max_slippage_bps : Option ℤ
  pub strategy_version_id : Option ℕ
  pub confirmation_id : Option String
  pub status : IntentStatus
  pub broker_order_id : Option String

-- trading_broker_order
pub record BrokerOrder : Type 0 where
  pub broker_order_id : String
  pub intent_id : ℕ

-- trading_fill; `none` is the stand-in id "fill_<intent_id>" that the code makes up.
pub record Fill : Type 0 where
  pub broker_order_id : Option String
  pub intent_id : ℕ
  pub symbol : String
  pub side : Side
  pub quantity : ℤ
  pub price : ℤ

-- live_canary; `is_active` is status='ACTIVE', the only other status being 'CLOSED'.
pub record Canary : Type 0 where
  pub canary_id : String
  pub account_id : String
  pub symbols : List String
  pub side : Side
  pub max_notional : ℤ
  pub max_orders : ℕ
  pub expires_at : ℕ
  pub is_active : Bool
  pub used_notional : ℤ
  pub used_orders : ℕ
  pub close_reason : Option String

-- live_canary_usage
pub record CanaryUsage : Type 0 where
  pub canary_id : String
  pub client_request_id : String
  pub plan_id : String
  pub symbol : String
  pub side : Side
  pub notional : ℤ

-- audit_log: the event, the entity (type and id) that it is about, and of the payload what some code
-- reads back: the key of a FILL_DEDUPE marker.
pub data AuditEvent : Type 0 where
  plan_created confirmation_created confirmation_approved confirmation_rejected : AuditEvent
  order_intent pretrade broker_order fill_recorded fill_ignored fill_duplicate_ignored : AuditEvent
  fill_capped fill_dedupe reconcile broker_paper_submit broker_dry_run : AuditEvent
  broker_live_submit broker_event broker_poll broker_query_failed : AuditEvent
  live_canary_opened live_canary_closed live_canary_authorized notification : AuditEvent

pub data Entity : Type 0 where
  execution_plan plan confirmation account live_canary broker_order : String → Entity
  intent : ℕ → Entity
  request : String → Entity

pub record Audit : Type 0 where
  pub event : AuditEvent
  pub entity : Entity
  pub dedupe_key : Option String

pub record Store : Type 0 where
  pub plans : List PlanRow
  pub confirmations : List Confirmation
  pub intents : List Intent
  pub next_intent_id : ℕ
  pub broker_orders : List BrokerOrder
  pub fills : List Fill
  pub canaries : List Canary
  pub canary_usage : List CanaryUsage
  pub is_p0_a_passed : Bool
  pub audit_log : List Audit

abbrev pub empty : Store
empty = record {
  plans = [];
  confirmations = [];
  intents = [];
  next_intent_id = 1;
  broker_orders = [];
  fills = [];
  canaries = [];
  canary_usage = [];
  is_p0_a_passed = false;
  audit_log = [];
}

-- One constructor for each `raise`.
pub data Error : Type 0 where
  -- shared/db.py
  bad_execution_mode bad_plan_status plan_bound_elsewhere : Error
  bad_confirmation_status confirmation_bound_elsewhere confirmation_not_movable : Error
  confirmation_missing confirmation_not_pending plan_id_mismatch plan_hash_mismatch : Error
  nonce_used confirmation_not_consumed bad_side integrity_error bad_intent_status : Error
  canary_not_ready canary_unscoped canary_bad_limits canary_no_notional canary_none_left : Error
  -- execution/state.py, execution/broker.py
  intent_missing unknown_event : Error
  -- execution/order_manager.py
  live_needs_proof plan_tampered intents_mismatch confirmation_not_approved : Error
  confirmation_used confirmation_expired plan_expired core_plan_mismatch : Error
  unknown_outcome live_needs_broker live_not_enabled paper_needs_paper_broker : Error
  pretrade_rejected : Error
  -- execution/paper_broker.py, execution/broker_live.py
  submit_needs_confirmation broker_wrong_mode not_consumed_yet kill_switch_engaged : Error
  unknown_request request_mismatch request_not_submittable broker_failed : Error

abbrev pub Method : Type 0 → Type 0
Method = Action Error Store

-- Python's truth of an optional text.
abbrev pub is_given : Option String → Bool
is_given none = false
is_given (some t) = not (str_eq t "")
