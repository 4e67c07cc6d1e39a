-- ===== src/Scenarios/Gate.antt =====
-- The gate on a plan that passes, without limits and with limits of all kinds.
use trading_cat.Base.{refl, none, some, ◌∷◌, []}
use trading_cat.Base.Int.{pos}
use trading_cat.Risk.{Inputs, AccountState, SyncStatus}
use trading_cat.Risk.Limits.{RiskLimits}
use trading_cat.Risk.Sound.{evaluate-IsSafe, IsSafe}
use trading_cat.Scenarios.Opened.{opened}
use trading_cat.Scenarios.Values.{inputs, shares}

evaluate-IsSafe_example : IsSafe inputs
unfolding opened
evaluate-IsSafe_example = evaluate-IsSafe inputs refl

-- 3000 dollars for an order, 30% of the net asset value for a position, 50% for the portfolio, and a
-- loss of 100 dollars a day.
abbrev limits : RiskLimits
limits = record {
  max_order_notional = some (shares 3000);
  max_order_notional_fraction = none;
  max_position_notional = none;
  max_position_notional_fraction = some (pos 300000000);
  max_portfolio_notional = none;
  max_portfolio_notional_fraction = some (pos 500000000);
  max_daily_loss = some (shares 100);
  max_daily_loss_fraction = none;
}

abbrev account : AccountState
account = record {
  sync_status = SyncStatus.synced;
  cash = some (shares 5000);
  buying_power = some (shares 2000);
  nav = some (shares 9000);
  positions = record { symbol = "AAPL.US"; quantity = shares 4; last_price = shares 199 } ∷ [];
}

abbrev limited : Inputs
limited = record inputs { risk_limits = some limits; daily_loss = some (shares 40) }
