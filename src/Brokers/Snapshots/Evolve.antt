-- ===== src/Brokers/Snapshots/Evolve.antt =====
-- execution/broker_live.py: a snapshot and a poll evolve the store.
use trading_cat.Base.{String, Option, none, some, List, [], ◌∷◌}
use trading_cat.Base.Action.Relates.{Relates, Relates-bind, relates_rules}
use trading_cat.Store.{Intent, IntentStatus}
use trading_cat.State.Monotone.{set_intent_status-Evolves}
use trading_cat.Evolution.{Evolves, Evolves-IsPreorder}
use trading_cat.Evolution.Methods.{audit-Evolves}
use trading_cat.Events.{Event, Fingerprint}
use trading_cat.Events.Evolve.{handle-Evolves}
use trading_cat.Brokers.Status.{Normal}
use trading_cat.Brokers.Live.{LiveBroker}
use trading_cat.Brokers.Snapshots.{
  Snapshot, Answer, order, no_order, query_failed, Tally, dispatch_event, apply_status, apply_fill,
  apply_at, apply_found, apply_order_snapshot, found_order, order_state, poll_answer, poll_id,
  poll_row, poll_rows, poll_active_orders,
}

ruleset rules =
    (Evolves-IsPreorder, relates_rules, set_intent_status-Evolves, audit-Evolves, handle-Evolves)

dispatch_event-Evolves :
    (sha256 : Fingerprint) (e : Event) → Relates Evolves (dispatch_event sha256 e)
unfolding dispatch_event
dispatch_event-Evolves sha256 e = search rules

apply_status-Evolves :
    (sha256 : Fingerprint) (n : Snapshot) (i : Intent) (t : Normal)
    → Relates Evolves (apply_status sha256 n i t)
unfolding apply_status
apply_status-Evolves sha256 n i (Normal.known IntentStatus.filled) = search rules
apply_status-Evolves sha256 n i (Normal.known IntentStatus.rejected) =
    search (rules, dispatch_event-Evolves)
apply_status-Evolves sha256 n i (Normal.known IntentStatus.cancelled) =
    search (rules, dispatch_event-Evolves)
apply_status-Evolves sha256 n i (Normal.known IntentStatus.submitted) =
    search (rules, dispatch_event-Evolves)
apply_status-Evolves sha256 n i (Normal.known _) = search rules
apply_status-Evolves sha256 n i (Normal.strange _) = search rules

apply_found-Evolves :
    (sha256 : Fingerprint) (n : Snapshot) (o : Option Intent)
    → Relates Evolves (apply_found sha256 n o)
unfolding apply_found apply_at apply_fill
apply_found-Evolves sha256 n none = search rules
apply_found-Evolves sha256 n (some i) =
    search (rules, dispatch_event-Evolves, apply_status-Evolves) depth 40

pub apply_order_snapshot-Evolves :
    (sha256 : Fingerprint) (n : Snapshot) (known : Option Intent)
    → Relates Evolves (apply_order_snapshot sha256 n known)
unfolding apply_order_snapshot
apply_order_snapshot-Evolves sha256 n known = search (rules, apply_found-Evolves)

found_order-Evolves : (key : String) (a : Answer) → Relates Evolves (found_order key a)
unfolding found_order
found_order-Evolves key (order n) = search rules
found_order-Evolves key no_order = search rules
found_order-Evolves key query_failed = search rules

order_state-Evolves :
    (b : LiveBroker) (query : String → Answer) (key : String)
    → Relates Evolves (order_state b query key)
unfolding order_state
order_state-Evolves b query key = search (rules, found_order-Evolves)

poll_answer-Evolves :
    (sha256 : Fingerprint) (i : Intent) (key : String) (o : Option Snapshot) (n : Tally)
    → Relates Evolves (poll_answer sha256 i key o n)
unfolding poll_answer
poll_answer-Evolves sha256 i key none n = search rules
poll_answer-Evolves sha256 i key (some found) n = search (rules, apply_order_snapshot-Evolves)

poll_id-Evolves :
    (sha256 : Fingerprint) (b : LiveBroker) (query : String → Answer) (i : Intent)
    (o : Option String) (n : Tally)
    → Relates Evolves (poll_id sha256 b query i o n)
unfolding poll_id
poll_id-Evolves sha256 b query i none n = search rules
poll_id-Evolves sha256 b query i (some key) n =
    search (rules, order_state-Evolves, poll_answer-Evolves)

poll_row-Evolves :
    (sha256 : Fingerprint) (b : LiveBroker) (query : String → Answer) (i : Intent) (n : Tally)
    → Relates Evolves (poll_row sha256 b query i n)
unfolding poll_row
poll_row-Evolves sha256 b query i n = search (rules, poll_id-Evolves)

poll_rows-Evolves :
    (sha256 : Fingerprint) (b : LiveBroker) (query : String → Answer) (is : List Intent) (n : Tally)
    → Relates Evolves (poll_rows sha256 b query is n)
unfolding poll_rows
poll_rows-Evolves sha256 b query [] n = search rules
poll_rows-Evolves sha256 b query (i ∷ is) n =
    Relates-bind Evolves-IsPreorder _ _ (poll_row-Evolves sha256 b query i n)
      λ m. poll_rows-Evolves sha256 b query is m

pub poll_active_orders-Evolves :
    (sha256 : Fingerprint) (b : LiveBroker) (query : String → Answer) (plan_id : String)
    → Relates Evolves (poll_active_orders sha256 b query plan_id)
unfolding poll_active_orders
poll_active_orders-Evolves sha256 b query plan_id = search (rules, poll_rows-Evolves) depth 20
