-- ===== src/Scenarios/Live.antt =====
-- A real order, and a broker that is shut.
use trading_cat.Base.{◌≡◌, refl, true, some}
use trading_cat.Brokers.{BrokerAck}
use trading_cat.Brokers.Live.{submit, LiveBroker, Reply, OrderCall}
use trading_cat.Brokers.Live.Boundary.{submit-IsReal, submit-shut, IsReal}
use trading_cat.Scenarios.Opened.{opened}
use trading_cat.Scenarios.Values.{
  live_plan, live_ticket, live_consumed, live_broker, live_intent, client,
}

abbrev ack : BrokerAck
ack = record { broker_order_id = "b-7"; is_live = true }

submit-IsReal_example : IsReal live_broker live_ticket live_plan live_consumed
unfolding opened
submit-IsReal_example =
    submit-IsReal live_broker live_intent live_ticket live_plan 130 live_consumed
      (submit live_broker live_intent (some live_ticket) (some live_plan) 130 live_consumed).1 ack
      refl refl

abbrev shut_broker : LiveBroker
shut_broker = record live_broker { kill_switch = true }

abbrev no_client : OrderCall → Reply
no_client call = Reply.failed

submit-shut_example :
    submit
      (record shut_broker { order = client })
      live_intent
      (some live_ticket)
      (some live_plan)
      130
      live_consumed
    ≡ submit
        (record shut_broker { order = no_client })
        live_intent
        (some live_ticket)
        (some live_plan)
        130
        live_consumed
submit-shut_example =
    submit-shut shut_broker client no_client live_intent (some live_ticket) (some live_plan) 130
      live_consumed refl
