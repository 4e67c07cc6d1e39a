-- ===== src/Brokers.antt =====
-- execution/paper_broker.py, execution/broker_live.py and execution/order_router.py: where an order goes.
pub mod Paper
pub mod Live
pub mod Status
pub mod Snapshots
pub mod Router
use trading_cat.Base.{String, Bool}

-- What a broker answers: its id of the order.
pub record BrokerAck : Type 0 where
  pub broker_order_id : String
  pub is_live : Bool
