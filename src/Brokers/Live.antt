-- ===== src/Brokers/Live.antt =====
-- execution/broker_live.py: the broker for real orders. The client of the broker's SDK is a parameter,
-- without a push callback: orders are followed by polling.
pub mod Boundary
use Prim.Native.String.{◌++◌}
use trading_cat.Base.{
  ℕ, ◌/◌, ◌%◌, String, Bool, true, false, not, ◌&&◌, ◌||◌, Option, none, some, str_eq, leb,
  if◌then◌else◌,
}
use trading_cat.Base.Int.{ℤ, pos, negsuc, ◌-ℤ◌, ltb_ℤ, abs}
use trading_cat.Base.Action.{◌>>=◌, ◌>>◌, pure, raise, raise_if, or_raise, gets}
use trading_cat.Models.{
  ExecutionPlan, Confirmation, ConfirmationStatus, Mode, Side, is_text, approval_proof_channel,
}
use trading_cat.Store.{
  Method, Intent, IntentStatus, Entity, broker_live_submit, broker_dry_run,
  submit_needs_confirmation, broker_wrong_mode, confirmation_not_approved, plan_hash_mismatch,
  confirmation_missing, live_needs_proof, kill_switch_engaged, not_consumed_yet, unknown_request,
  request_mismatch, request_not_submittable, broker_failed,
}
use trading_cat.Store.AuditLog.{audit}
use trading_cat.Store.Plans.{same_side}
use trading_cat.Store.Intents.{get_intent_by_request_id}
use trading_cat.Store.Confirmations.{get_confirmation, is_approved, is_consumed}
use trading_cat.Store.Canaries.{authorize_live_canary}
use trading_cat.Brokers.{BrokerAck}
use trading_cat.Brokers.Paper.{is_row_consumed}

-- The call of `client.order`, always a limit order, and what comes back of it: an exception, nothing,
-- or an answer.
pub record OrderCall : Type 0 where
  pub is_buy : Bool
  pub symbol : String
  pub quantity : ℕ
  pub price : ℤ
  pub remark : String

pub data Reply : Type 0 where
  failed nothing : Reply
  answer : Bool → String → Reply

pub record LiveBroker : Type 0 where
  pub enable_live : Bool
  pub enable_order_queries : Bool
  pub kill_switch : Bool
  pub order : OrderCall → Reply

abbrev pub is_live : Mode → Bool
is_live Mode.live = true
is_live _ = false

abbrev pub is_proven : Option String → Bool
is_proven channel = is_text channel approval_proof_channel

abbrev of_confirmation : Option String → String → Bool
of_confirmation = is_text

-- The row in the store is the order that is to be submitted.
abbrev pub is_same_order : Intent → Intent → Confirmation → ExecutionPlan → Bool
is_same_order stored intent confirmation plan =
    str_eq stored.plan_id plan.plan_id
    && (str_eq stored.plan_order_id intent.plan_order_id
        && (of_confirmation stored.confirmation_id confirmation.confirmation_id
            && (str_eq stored.symbol intent.symbol
                && (same_side stored.side intent.side
                    && not (ltb_ℤ (pos 1) (abs (stored.quantity -ℤ intent.quantity)))))))

abbrev pub is_submittable : IntentStatus → Bool
is_submittable IntentStatus.pending = true
is_submittable IntentStatus.submitting = true
is_submittable _ = false

-- The gate of a real submission, which takes up one order of a canary.
unfoldable pub authorize :
    LiveBroker → Intent → Confirmation → ExecutionPlan → Confirmation → ℕ → Method String
authorize broker intent confirmation plan row now = do
  raise_if broker.kill_switch kill_switch_engaged
  raise_if (not (is_consumed row.status)) not_consumed_yet
  found ← gets (get_intent_by_request_id intent.client_request_id)
  stored ← or_raise found unknown_request
  raise_if (not (is_same_order stored intent confirmation plan)) request_mismatch
  raise_if (not (is_submittable stored.status)) request_not_submittable
  authorize_live_canary
      (record {
        account_id = plan.account_id;
        plan_id = plan.plan_id;
        client_request_id = intent.client_request_id;
        symbol = intent.symbol;
        side = intent.side;
        quantity = intent.quantity;
        reference_price = intent.reference_price;
      })
      now

unfoldable pub dry_run_submit : Intent → ExecutionPlan → Method BrokerAck
dry_run_submit intent plan = do
  audit broker_dry_run (Entity.request intent.client_request_id)
  pure (record {
    broker_order_id = "dry_" ++ plan.plan_id ++ "_" ++ intent.plan_order_id;
    is_live = false;
  })

-- `int(quantity)`, if it is positive and the quantity is whole up to the tolerance.
unfoldable pub whole : ℤ → Option ℕ
whole (pos n) =
    if leb 1 (n / 1000000000) && leb (n % 1000000000) 1 then some (n / 1000000000) else none
whole (negsuc n) = none

abbrev is_buy_side : Side → Bool
is_buy_side Side.buy = true
is_buy_side _ = false

unfoldable pub order_call : Intent → ℕ → ℤ → OrderCall
order_call intent quantity price = record {
  is_buy = is_buy_side intent.side;
  symbol = intent.symbol;
  quantity = quantity;
  price = price;
  remark = "tc:" ++ intent.client_request_id;
}

abbrev order_id : Reply → Option String
order_id failed = none
order_id nothing = none
order_id (answer success key) = if success && not (str_eq key "") then some key else none

unfoldable pub submit_live : LiveBroker → Intent → Confirmation → Method BrokerAck
submit_live broker intent confirmation = do
  raise_if (not (is_approved confirmation.status)) confirmation_not_approved
  row ← gets (get_confirmation confirmation.confirmation_id)
  raise_if (not (is_row_consumed row)) not_consumed_yet
  quantity ← or_raise (whole intent.quantity) broker_failed
  price ← or_raise intent.reference_price broker_failed
  key ← or_raise (order_id (broker.order (order_call intent quantity price))) broker_failed
  audit broker_live_submit (Entity.request intent.client_request_id)
  pure (record { broker_order_id = key; is_live = true })

-- The branch on `enable_live`.
unfoldable pub send_or_dry_run :
    LiveBroker → Intent → Confirmation → ExecutionPlan → Confirmation → ℕ → Method BrokerAck
send_or_dry_run broker intent confirmation plan row now =
    if broker.enable_live
    then (do
      authorize broker intent confirmation plan row now
      submit_live broker intent confirmation)
    else dry_run_submit intent plan

unfoldable pub submit_checked :
    LiveBroker → Intent → Confirmation → ExecutionPlan → ℕ → Method BrokerAck
submit_checked broker intent confirmation plan now = do
  raise_if (not (is_approved confirmation.status)) confirmation_not_approved
  raise_if (not (str_eq confirmation.plan_hash plan.plan_hash)) plan_hash_mismatch
  found ← gets (get_confirmation confirmation.confirmation_id)
  row ← or_raise found confirmation_missing
  raise_if (not (is_live plan.execution_mode)) broker_wrong_mode
  raise_if (not (is_proven confirmation.approval_channel && is_proven row.approval_channel))
      live_needs_proof
  send_or_dry_run broker intent confirmation plan row now

-- `LiveBroker.submit`; a caller may leave the ticket or the plan out.
unfoldable pub submit :
    LiveBroker → Intent → Option Confirmation → Option ExecutionPlan → ℕ → Method BrokerAck
submit broker intent (some confirmation) (some plan) now =
    submit_checked broker intent confirmation plan now
submit broker intent _ _ now = raise submit_needs_confirmation
