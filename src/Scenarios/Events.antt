-- ===== src/Scenarios/Events.antt =====
-- A fill, once and again.
use trading_cat.Base.{◌≡◌, ◌≢◌, refl, Option, none, some, [], arith}
use trading_cat.Base.Int.{pos, ◌≤ℤ◌}
use trading_cat.Store.{Store, Intent}
use trading_cat.Store.Intents.{get_intent}
use trading_cat.Store.Fills.{filled_quantity, sum_fills}
use trading_cat.Evolution.{Evolves-IsPreorder}
use trading_cat.Events.{on_filled, handle}
use trading_cat.Events.Fills.{handle-IsFillBounded, IsFillBounded, allowance}
use trading_cat.Events.Repeat.Fills.{on_filled_once}
use trading_cat.Scenarios.Opened.{opened}
use trading_cat.Scenarios.Values.{print, fill_event, consumed, filled_once, shares}

six_shares : filled_quantity 2 filled_once ≡ shares 6
unfolding opened
six_shares = refl

-- The rest of the order is capped at its quantity.
capped :
    filled_quantity 2 (on_filled print (record fill_event { event_id = some "F-2" }) filled_once).1
    ≡ shares 10
unfolding opened
capped = refl

added : (on_filled print fill_event consumed).1.fills ≢ consumed.fills
unfolding opened
added h = cc

on_filled_once_example : (on_filled print fill_event filled_once).1.fills ≡ filled_once.fills
unfolding opened
on_filled_once_example =
    on_filled_once print fill_event fill_event consumed filled_once (refl, (refl, (refl, tt))) refl
      refl added (Evolves-IsPreorder.self filled_once)

no_fills-IsFillBounded : (s : Store) → s.fills ≡ [] → IsFillBounded s
unfolding filled_quantity sum_fills get_intent
no_fills-IsFillBounded s h key = rw h (nonneg (get_intent key s))
  where
    nonneg : (o : Option Intent) → pos 0 ≤ℤ allowance o
    nonneg none = omega arith
    nonneg (some i) = ground arith

handle-IsFillBounded_example : IsFillBounded (handle print fill_event consumed).1
unfolding opened
handle-IsFillBounded_example =
    handle-IsFillBounded print fill_event consumed (no_fills-IsFillBounded consumed refl)
