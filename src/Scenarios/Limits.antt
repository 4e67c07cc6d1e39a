-- ===== src/Scenarios/Limits.antt =====
-- An order is taken from an open canary.
use trading_cat.Base.{some, true, refl, arith, [], ◌∷◌}
use trading_cat.Models.{Side}
use trading_cat.Store.Canaries.{
  CanaryRequest, authorize_live_canary, create_live_canary, close_live_canaries,
  mark_system_readiness,
}
use trading_cat.Store.CanaryLimits.{AreWithin}
use trading_cat.Store.CanaryLimits.Choice.{authorize_live_canary-AreWithin}
use trading_cat.Store.CanaryLimits.Opening.{CanaryHistory, CanaryStep, CanaryHistory-AreWithin}
use trading_cat.Base.Int.{pos}
use trading_cat.Store.{empty}
use trading_cat.Scenarios.Opened.{opened}
use trading_cat.Scenarios.Values.{shares, live_consumed}

abbrev request : CanaryRequest
request = record {
  client_request_id = "cr_p1_2";
  plan_id = "p1";
  account_id = "main";
  symbol = "NVDA.US";
  side = Side.buy;
  quantity = shares 10;
  reference_price = some (shares 200);
}

live_consumed-AreWithin : AreWithin live_consumed
unfolding opened
live_consumed-AreWithin = record {
  within = (record { orders = omega arith; notional = omega arith }, tt);
  counted = (record { orders = refl; notional = refl }, tt);
  known = tt;
  keyed = (
    (
      (
        record {
          orders = λ same. refl;
          max_orders = λ same. refl;
          notional = λ same. refl;
          max_notional = λ same. refl;
        },
        tt,
      ),
      refl,
    ),
    tt,
  );
}

authorize_live_canary-AreWithin_example :
    AreWithin (authorize_live_canary request 130 live_consumed).1
authorize_live_canary-AreWithin_example =
    authorize_live_canary-AreWithin request 130 live_consumed live_consumed-AreWithin

-- The gate is passed, a canary is opened, an order is taken from it, and it is closed.
history :
    CanaryHistory
      (close_live_canaries "done"
        (some "main")
        (authorize_live_canary request 130
          (create_live_canary "k1" "main"
            ("NVDA.US" ∷ [])
            Side.buy
            (pos 3000000000000000000000)
            5
            900
            100
            (mark_system_readiness true empty).1).1).1).1
history =
    CanaryHistory.next
      (CanaryHistory.next
        (CanaryHistory.next (CanaryHistory.next CanaryHistory.start (CanaryStep.marks true)) (
          CanaryStep.opens "k1" "main" ("NVDA.US" ∷ []) Side.buy (pos 3000000000000000000000) 5 900
            100))
        (CanaryStep.authorizes request 130))
      (CanaryStep.closes "done" (some "main"))

CanaryHistory-AreWithin_example :
    AreWithin
      (close_live_canaries "done"
        (some "main")
        (authorize_live_canary request 130
          (create_live_canary "k1" "main"
            ("NVDA.US" ∷ [])
            Side.buy
            (pos 3000000000000000000000)
            5
            900
            100
            (mark_system_readiness true empty).1).1).1).1
CanaryHistory-AreWithin_example = CanaryHistory-AreWithin _ history
