-- ===== src/Scenarios/Orders.antt =====
-- The life of a ticket.
use trading_cat.Base.{◌≡◌, refl, some, map, length}
use trading_cat.Models.{Confirmation, ConfirmationStatus}
use trading_cat.Store.{Store, Error, Intent}
use trading_cat.Store.Intents.{get_intent}
use trading_cat.Store.Confirmations.{get_confirmation}
use trading_cat.Orders.Consume.{consume, planned, created_entry}
use trading_cat.Orders.Atomic.{consume_err, consume_existing}
use trading_cat.Orders.Complete.{consume_complete, IsConsumption}
use trading_cat.Evolution.{Evolves, IsLaterIntent}
use trading_cat.Traces.{Reaches, Step, Reaches-Evolves, Reaches-consumed, Reaches-get_intent}
use trading_cat.Events.{handle}
use trading_cat.Scenarios.Opened.{opened}
use trading_cat.Scenarios.Values.{
  sha256, plan, ticket, approved, consumed, print, fill_event, live_intent,
}

ticket_stored : get_confirmation "c1" approved ≡ some ticket
unfolding opened
ticket_stored = refl

two_orders : length consumed.intents ≡ 2
unfolding opened
two_orders = refl

consume_complete_example :
    IsConsumption sha256 plan ticket 120 approved (map created_entry (planned plan "c1")) consumed
unfolding opened
consume_complete_example =
    consume_complete sha256 plan ticket 120 approved consumed
      (map created_entry (planned plan "c1")) refl refl

-- At the end of its life a plan can not be consumed.
consume_err_example : (consume sha256 plan ticket 1000 approved).1 ≡ approved
unfolding opened
consume_err_example =
    consume_err sha256 plan ticket 1000 approved (consume sha256 plan ticket 1000 approved).1
      Error.confirmation_expired refl

consume_existing_example : (consume sha256 plan ticket 120 consumed).1 ≡ consumed
unfolding opened
consume_existing_example = consume_existing sha256 plan ticket 120 consumed _ _ refl

-- The consumed ticket and the bought order, after a fill and a second presentation of the ticket.
abbrev filled : Store
filled = (handle print fill_event consumed).1

abbrev later : Store
later = (consume sha256 plan ticket 130 filled).1

later_reached : Reaches consumed later
later_reached =
    Reaches.after (Reaches.after Reaches.here (Step.handles print fill_event))
      (Step.consumes sha256 plan ticket 130)

Reaches-Evolves_example : Evolves consumed later
Reaches-Evolves_example = Reaches-Evolves consumed later later_reached

abbrev spent_ticket : Confirmation
spent_ticket = record ticket { status = ConfirmationStatus.consumed }

Reaches-consumed_example :
    (d : Confirmation) × ((get_confirmation "c1" later ≡ some d)
      × ((d.status ≡ ConfirmationStatus.consumed)
          × ((d.plan_id ≡ "p1") × (d.plan_hash ≡ "digest"))))
unfolding opened
Reaches-consumed_example = Reaches-consumed "c1" consumed later spent_ticket later_reached refl refl

Reaches-get_intent_example :
    (j : Intent) × ((get_intent 2 later ≡ some j) × IsLaterIntent live_intent j)
unfolding opened
Reaches-get_intent_example = Reaches-get_intent 2 consumed later live_intent later_reached refl
