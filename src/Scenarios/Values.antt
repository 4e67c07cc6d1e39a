-- ===== src/Scenarios/Values.antt =====
-- A plan to buy and to sell, and the stores that its life goes through.
use trading_cat.Base.{ℕ, true, false, none, some, [], ◌∷◌, ◌*◌}
use trading_cat.Base.Int.{ℤ, pos}
use trading_cat.Models.{
  Mode, Side, OrderType, PlanOrder, ExecutionPlan, Confirmation, ConfirmationStatus, Digest,
}
use trading_cat.Store.{Store, Intent, IntentStatus, empty}
use trading_cat.Store.Canaries.{create_live_canary, mark_system_readiness}
use trading_cat.Brokers.Live.{LiveBroker, OrderCall, Reply}
use trading_cat.Events.{Event, EventType, Fingerprint, on_filled}
use trading_cat.Risk.{Inputs, SyncStatus}
use trading_cat.Risk.Orders.{Markets}
use trading_cat.Orders.Tickets.{create, approve}
use trading_cat.Orders.Consume.{consume}

-- 10 shares, and prices in dollars, in billionths.
abbrev pub shares : ℕ → ℤ
shares n = pos (n * 1000000000)

abbrev pub sha256 : Digest
sha256 content = "digest"

abbrev buy_order : PlanOrder
buy_order = record {
  plan_order_id = "2";
  symbol = "NVDA.US";
  side = Side.buy;
  quantity = shares 10;
  order_type = OrderType.limit;
  reference_price = some (shares 200);
  reference_quote_at = some 90;
  max_slippage_bps = shares 50;
  strategy_version_id = some 1;
  investor_policy_version_id = none;
}

abbrev sell_order : PlanOrder
sell_order = record buy_order {
  plan_order_id = "1";
  symbol = "AAPL.US";
  side = Side.sell;
  quantity = shares 4;
}

abbrev pub plan : ExecutionPlan
plan = record {
  plan_id = "p1";
  account_id = "main";
  execution_mode = Mode.paper;
  expires_at = 1000;
  orders = buy_order ∷ sell_order ∷ [];
  plan_hash = "digest";
}

abbrev pub ticketed : Store
ticketed = (create plan (some 900) "c1" 100 empty).1

abbrev pub approved : Store
approved = (approve "cli" "c1" "owner" "n1" 110 ticketed).1

abbrev pub ticket : Confirmation
ticket = record {
  confirmation_id = "c1";
  plan_id = "p1";
  plan_hash = "digest";
  status = ConfirmationStatus.approved;
  approved_by = some "owner";
  approval_channel = some "cli";
  approval_nonce = some "n1";
  approved_at = some 110;
  expires_at = some 900;
  created_at = some 100;
  idempotency_key = none;
}

abbrev pub consumed : Store
consumed = (consume sha256 plan ticket 120 approved).1

-- The broker reports 6 of the 10 shares of the second order that was made.
abbrev pub fill_event : Event
fill_event = record {
  type = EventType.filled;
  intent_id = 2;
  broker_order_id = some "b-7";
  symbol = "NVDA.US";
  side = Side.buy;
  quantity = shares 6;
  price = shares 201;
  filled_at = some 130;
  event_id = some "F-1";
  execution_id = none;
  trade_id = none;
  fill_id = none;
}

abbrev pub print : Fingerprint
print content = "print"

abbrev pub filled_once : Store
filled_once = (on_filled print fill_event consumed).1

-- A market in which the plan passes the gate.
abbrev pub markets : Markets
markets symbol =
    some (record { symbol = symbol; quote_at = 100; price = shares 200; max_age_seconds = 300 })

abbrev pub inputs : Inputs
inputs = record {
  plan = plan;
  confirmation = ticket;
  account_state = some (record {
    sync_status = SyncStatus.synced;
    cash = some (shares 5000);
    buying_power = some (shares 2000);
    nav = some (shares 9000);
    positions = record { symbol = "AAPL.US"; quantity = shares 4; last_price = shares 199 } ∷ [];
  });
  market_states = markets;
  pending_intents = 3;
  unknown_intents = 0;
  risk_limits = none;
  daily_loss = none;
  now = 120;
}

-- The same plan for real: a LIVE plan with a proven approval and an open canary.
abbrev pub live_plan : ExecutionPlan
live_plan = record plan { execution_mode = Mode.live }

abbrev pub live_ticket : Confirmation
live_ticket = record ticket { approval_channel = some "approval-proof" }

abbrev opened_store : Store
opened_store =
    (create_live_canary "k1" "main" ("NVDA.US" ∷ []) Side.buy (pos 3000000000000000000000) 5 900 100
      (mark_system_readiness true empty).1).1

abbrev live_approved : Store
live_approved =
    (approve "approval-proof" "c1" "owner" "n1" 110
      (create live_plan (some 900) "c1" 100 opened_store).1).1

abbrev pub live_consumed : Store
live_consumed = (consume sha256 live_plan live_ticket 120 live_approved).1

abbrev pub client : OrderCall → Reply
client call = Reply.answer true "b-7"

abbrev pub live_broker : LiveBroker
live_broker = record {
  enable_live = true;
  enable_order_queries = false;
  kill_switch = false;
  order = client;
}

abbrev pub live_intent : Intent
live_intent = record {
  intent_id = 2;
  client_request_id = "cr_p1_2";
  plan_id = "p1";
  plan_order_id = "2";
  symbol = "NVDA.US";
  side = Side.buy;
  quantity = shares 10;
  order_type = OrderType.limit;
  reference_price = some (shares 200);
  max_slippage_bps = some (shares 50);
  strategy_version_id = some 1;
  confirmation_id = some "c1";
  status = IntentStatus.pending;
  broker_order_id = none;
}
