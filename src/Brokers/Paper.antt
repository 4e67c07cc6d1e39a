-- ===== src/Brokers/Paper.antt =====
-- execution/paper_broker.py: the local paper broker, which only writes an audit row.
use Prim.Native.String.{◌++◌}
use trading_cat.Base.{String, Bool, true, false, not, Option, none, some}
use trading_cat.Base.Action.{◌>>=◌, ◌>>◌, pure, raise, raise_if, gets}
use trading_cat.Models.{ExecutionPlan, Confirmation, Mode}
use trading_cat.Store.{
  Method, Intent, Entity, broker_paper_submit, submit_needs_confirmation, broker_wrong_mode,
  confirmation_not_approved, not_consumed_yet,
}
use trading_cat.Store.AuditLog.{audit}
use trading_cat.Store.Confirmations.{get_confirmation, is_approved, is_consumed}
use trading_cat.Brokers.{BrokerAck}

abbrev pub is_paper : Mode → Bool
is_paper Mode.paper = true
is_paper _ = false

-- `row is not None and row["status"] == "CONSUMED"`
abbrev pub is_row_consumed : Option Confirmation → Bool
is_row_consumed none = false
is_row_consumed (some row) = is_consumed row.status

unfoldable pub paper_id : ExecutionPlan → Intent → String
paper_id plan intent = "paper_" ++ plan.plan_id ++ "_" ++ intent.plan_order_id

unfoldable pub submit_paper : Intent → Confirmation → ExecutionPlan → Method BrokerAck
submit_paper intent confirmation plan = do
  raise_if (not (is_paper plan.execution_mode)) broker_wrong_mode
  raise_if (not (is_approved confirmation.status)) confirmation_not_approved
  row ← gets (get_confirmation confirmation.confirmation_id)
  raise_if (not (is_row_consumed row)) not_consumed_yet
  audit broker_paper_submit (Entity.request intent.client_request_id)
  pure (record { broker_order_id = paper_id plan intent; is_live = false })

-- `PaperBroker.submit_order`; a caller may leave the ticket or the plan out.
unfoldable pub submit_order : Intent → Option Confirmation → Option ExecutionPlan → Method BrokerAck
submit_order intent (some confirmation) (some plan) = submit_paper intent confirmation plan
submit_order intent _ _ = raise submit_needs_confirmation
