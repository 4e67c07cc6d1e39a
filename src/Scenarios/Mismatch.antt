-- ===== src/Scenarios/Mismatch.antt =====
-- A reconciliation that finds a mismatch.
use trading_cat.Base.{refl, true, some, [], ◌∷◌, All}
use trading_cat.Store.{Store, IntentStatus}
use trading_cat.State.{set_intent_status}
use trading_cat.Reconcile.{Query, Report, Mismatch, reconcile_plan}
use trading_cat.Reconcile.Closed.{reconcile_plan-shuts, IsShut}
use trading_cat.Scenarios.Opened.{opened}
use trading_cat.Scenarios.Values.{live_consumed}

-- The broker has cancelled an order that the store takes for submitted.
abbrev submitted : Store
submitted = (set_intent_status 2 IntentStatus.submitted (some "b-7") live_consumed).1

abbrev says_cancelled : Query
says_cancelled key = some (some "OrderStatus.Canceled")

abbrev report : Report
report = record { mismatches = Mismatch.differs "cr_p1_2" ∷ []; sets_mismatch = true }

reconcile_plan-shuts_example :
    All (IsShut "main") (reconcile_plan (some says_cancelled) "p1" submitted).1.canaries
unfolding opened
reconcile_plan-shuts_example =
    reconcile_plan-shuts (some says_cancelled) "p1" submitted
      (reconcile_plan (some says_cancelled) "p1" submitted).1 report refl refl
