-- ===== src/Orders/Consume.antt =====
-- execution/order_manager.py: `OrderManager.consume` and `recover`.
use Prim.Native.String.{◌++◌}
use trading_cat.Base.{
  ℕ, String, Bool, true, false, not, ◌&&◌, ◌||◌, Option, none, some, List, [], ◌∷◌, map, str_eq,
  if◌then◌else◌,
}
use trading_cat.Base.Action.{
  ◌>>=◌, ◌>>◌, pure, raise_if, or_raise, gets, immediate_transaction, when,
}
use trading_cat.Models.{
  ExecutionPlan, PlanOrder, Confirmation, Digest, compute_plan_hash, plan_is_expired,
  confirmation_is_expired, sort_orders,
}
use trading_cat.Store.{
  Method, PlanRow, Intent, IntentStatus, Entity, order_intent, notification, is_given,
  live_needs_proof, plan_tampered, intents_mismatch, confirmation_not_approved, confirmation_used,
  plan_id_mismatch, plan_hash_mismatch, confirmation_expired, plan_expired,
}
use trading_cat.Store.AuditLog.{audit}
use trading_cat.Store.Plans.{get_plan}
use trading_cat.Store.Intents.{NewIntent, insert_intent, list_intents}
use trading_cat.Store.Confirmations.{
  get_confirmation, approved_confirmation, is_approved, is_consumed, mark_plan_consumed,
}
use trading_cat.Store.Canaries.{close_live_canaries}
use trading_cat.State.{set_intent_status}
use trading_cat.Brokers.Live.{is_live, is_proven}

-- A row of the result: what the code writes into its dictionaries.
pub record Entry : Type 0 where
  pub content : NewIntent
  pub status : IntentStatus

unfoldable pub client_request_id : String → String → String
client_request_id plan_id plan_order_id = "cr_" ++ plan_id ++ "_" ++ plan_order_id

unfoldable pub new_intent : ExecutionPlan → String → PlanOrder → NewIntent
new_intent plan cid o = record {
  client_request_id = client_request_id plan.plan_id o.plan_order_id;
  plan_id = plan.plan_id;
  plan_order_id = o.plan_order_id;
  symbol = o.symbol;
  side = o.side;
  quantity = o.quantity;
  order_type = o.order_type;
  reference_price = o.reference_price;
  max_slippage_bps = some o.max_slippage_bps;
  strategy_version_id = o.strategy_version_id;
  confirmation_id = some cid;
}

abbrev pub entry_of : Intent → Entry
entry_of i = record {
  content = record {
    client_request_id = i.client_request_id;
    plan_id = i.plan_id;
    plan_order_id = i.plan_order_id;
    symbol = i.symbol;
    side = i.side;
    quantity = i.quantity;
    order_type = i.order_type;
    reference_price = i.reference_price;
    max_slippage_bps = i.max_slippage_bps;
    strategy_version_id = i.strategy_version_id;
    confirmation_id = i.confirmation_id;
  };
  status = i.status;
}

abbrev pub created_entry : NewIntent → Entry
created_entry n = record { content = n; status = IntentStatus.pending }

-- The ticket that is presented with orders that exist already.
abbrev pub is_spent_on : ExecutionPlan → Option Confirmation → Bool
is_spent_on plan none = false
is_spent_on plan (some row) =
    is_consumed row.status
    && (str_eq row.plan_id plan.plan_id && str_eq row.plan_hash plan.plan_hash)

abbrev pub row_channel : Option Confirmation → Option String
row_channel none = none
row_channel (some row) = row.approval_channel

unfoldable pub return_existing : ExecutionPlan → Confirmation → List Intent → Method (List Entry)
return_existing plan confirmation existing = do
  row ← gets (get_confirmation confirmation.confirmation_id)
  raise_if (not (is_spent_on plan row)) intents_mismatch
  raise_if (is_live plan.execution_mode && not (is_proven (row_channel row))) live_needs_proof
  pure (map entry_of existing)

unfoldable pub insert_all : List NewIntent → Method Unit
insert_all [] = pure tt
insert_all (n ∷ ns) = do insert_intent n; insert_all ns

-- The transaction ends early with the orders that another call made, or makes them all.
pub data Outcome : Type 0 where
  already : List Entry → Outcome
  created : List Entry → Outcome

unfoldable pub planned : ExecutionPlan → String → List NewIntent
planned plan cid = map (new_intent plan cid) (sort_orders plan.orders)

unfoldable pub create_all : ExecutionPlan → String → List Intent → Method Outcome
create_all plan cid (i ∷ is) = pure (already (map entry_of (i ∷ is)))
create_all plan cid [] = do
  insert_all (planned plan cid)
  mark_plan_consumed cid plan.plan_id
  audit order_intent (Entity.plan plan.plan_id)
  pure (created (map created_entry (planned plan cid)))

unfoldable pub consume_body : ExecutionPlan → Confirmation → ℕ → Method Outcome
consume_body plan confirmation now = do
  found ← gets (approved_confirmation confirmation.confirmation_id)
  row ← or_raise found confirmation_used
  raise_if (not (str_eq row.plan_id plan.plan_id) || not (str_eq confirmation.plan_id plan.plan_id))
      plan_id_mismatch
  raise_if (not (str_eq row.plan_hash plan.plan_hash)) plan_hash_mismatch
  raise_if (is_live plan.execution_mode && not (is_proven row.approval_channel)) live_needs_proof
  raise_if (confirmation_is_expired row now) confirmation_expired
  raise_if (plan_is_expired plan now) plan_expired
  existing ← gets (list_intents plan.plan_id)
  create_all plan confirmation.confirmation_id existing

-- `safe_notify` with the adapter that writes to the audit log. That a notification fails changes
-- nothing.
unfoldable pub notify : ExecutionPlan → Method Unit
notify plan = audit notification (Entity.plan plan.plan_id)

unfoldable pub finish : ExecutionPlan → Outcome → Method (List Entry)
finish plan (already es) = pure es
finish plan (created es) = do notify plan; pure es

unfoldable pub consume_new : ExecutionPlan → Confirmation → ℕ → Method (List Entry)
consume_new plan confirmation now = do
  raise_if (not (is_approved confirmation.status)) confirmation_not_approved
  outcome ← immediate_transaction (consume_body plan confirmation now)
  finish plan outcome

unfoldable pub consume_or_return :
    ExecutionPlan → Confirmation → ℕ → List Intent → Method (List Entry)
consume_or_return plan confirmation now [] = consume_new plan confirmation now
consume_or_return plan confirmation now (i ∷ is) = return_existing plan confirmation (i ∷ is)

unfoldable pub consume : Digest → ExecutionPlan → Confirmation → ℕ → Method (List Entry)
consume sha256 plan confirmation now = do
  raise_if (is_live plan.execution_mode && not (is_proven confirmation.approval_channel))
      live_needs_proof
  raise_if (not (str_eq (compute_plan_hash sha256 plan) plan.plan_hash)) plan_tampered
  existing ← gets (list_intents plan.plan_id)
  consume_or_return plan confirmation now existing

-- `recover`: an order that was left SUBMITTING without a broker's id has an unknown outcome.
abbrev is_submitting : IntentStatus → Bool
is_submitting IntentStatus.submitting = true
is_submitting _ = false

abbrev pub is_lost : Intent → Bool
is_lost i = is_submitting i.status && not (is_given i.broker_order_id)

unfoldable pub close_if_live : Option PlanRow → Method Unit
close_if_live none = pure tt
close_if_live (some plan) =
    when (is_live plan.execution_mode)
      (close_live_canaries "order_intent_unknown" (some plan.account_id) >>= λ _. pure tt)

unfoldable pub recover_row : String → Intent → Method Unit
recover_row plan_id row =
    if is_lost row
    then (do
      set_intent_status row.intent_id IntentStatus.unknown none
      plan ← gets (get_plan plan_id)
      close_if_live plan)
    else pure tt

unfoldable pub recover_rows : String → List Intent → Method Unit
recover_rows plan_id [] = pure tt
recover_rows plan_id (row ∷ rows) = do recover_row plan_id row; recover_rows plan_id rows

unfoldable pub recover : String → Method (List Intent)
recover plan_id = do
  existing ← gets (list_intents plan_id)
  recover_rows plan_id existing
  gets (list_intents plan_id)
