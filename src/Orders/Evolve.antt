-- ===== src/Orders/Evolve.antt =====
-- execution/order_manager.py: every operation evolves the store, whether it returns or raises.
use trading_cat.Base.{ℕ, String, Option, none, some, List, [], ◌∷◌}
use trading_cat.Base.Action.Relates.{Relates, Relates-bind, Relates-gets, relates_rules}
use trading_cat.Models.{ExecutionPlan, Confirmation, Decision, Digest}
use trading_cat.Store.{Error, PlanRow, Intent}
use trading_cat.Store.Intents.{NewIntent}
use trading_cat.Evolution.{Evolves, Evolves-IsPreorder}
use trading_cat.Evolution.Methods.{
  audit-Evolves, insert_plan-Evolves, insert_intent-Evolves, insert_confirmation-Evolves,
  mark_plan_consumed-Evolves,
}
use trading_cat.Evolution.Canaries.{
  close_live_canaries-Evolves, close_expired_live_canaries-Evolves, authorize_live_canary-Evolves,
}
use trading_cat.State.Monotone.{set_intent_status-Evolves}
use trading_cat.Brokers.Paper
use trading_cat.Brokers.Live
use trading_cat.Brokers.Live.{LiveBroker}
use trading_cat.Risk.{Inputs}
use trading_cat.Risk.Orders.{Reason}
use trading_cat.Orders.Tickets.{create, create_core, keep_core, create_own, keep_own}
use trading_cat.Orders.Consume.{
  Entry, Outcome, consume, consume_or_return, consume_new, consume_body, create_all, insert_all,
  return_existing, finish, notify, recover, recover_rows, recover_row, close_if_live,
}
use trading_cat.Orders.Submit.{
  Broker, Submission, submit, send, submit_each, submit_row, submit_order, fail_closed, gate,
  act_on, decide_submission, reject_submission, check_broker, refuse_unknown, tidy_canaries,
  close_expired, close_all,
}

ruleset rules = (
  Evolves-IsPreorder, relates_rules, set_intent_status-Evolves, audit-Evolves, insert_plan-Evolves,
  insert_intent-Evolves, insert_confirmation-Evolves, mark_plan_consumed-Evolves,
  close_live_canaries-Evolves, close_expired_live_canaries-Evolves, authorize_live_canary-Evolves,
)

keep_core-Evolves : (p : ExecutionPlan) (o : Option PlanRow) → Relates Evolves (keep_core p o)
unfolding keep_core
keep_core-Evolves p none = search rules
keep_core-Evolves p (some stored) = search rules

keep_own-Evolves : (p : ExecutionPlan) (o : Option PlanRow) → Relates Evolves (keep_own p o)
unfolding keep_own
keep_own-Evolves p none = search rules
keep_own-Evolves p (some stored) = search rules

pub create-Evolves :
    (p : ExecutionPlan) (expires_at : Option ℕ) (cid : String) (now : ℕ)
    → Relates Evolves (create p expires_at cid now)
unfolding create create_core create_own
create-Evolves p expires_at cid now = search (rules, keep_core-Evolves, keep_own-Evolves) depth 30

insert_all-Evolves : (ns : List NewIntent) → Relates Evolves (insert_all ns)
unfolding insert_all
insert_all-Evolves [] = search rules
insert_all-Evolves (n ∷ ns) =
    Relates-bind Evolves-IsPreorder _ _ (insert_intent-Evolves n) (λ _. insert_all-Evolves ns)

create_all-Evolves :
    (plan : ExecutionPlan) (cid : String) (is : List Intent)
    → Relates Evolves (create_all plan cid is)
unfolding create_all
create_all-Evolves plan cid [] = search (rules, insert_all-Evolves) depth 20
create_all-Evolves plan cid (i ∷ is) = search rules

consume_body-Evolves :
    (plan : ExecutionPlan) (c : Confirmation) (now : ℕ) → Relates Evolves (consume_body plan c now)
unfolding consume_body
consume_body-Evolves plan c now = search (rules, create_all-Evolves) depth 40

notify-Evolves : (plan : ExecutionPlan) → Relates Evolves (notify plan)
unfolding notify
notify-Evolves plan = search rules

finish-Evolves : (plan : ExecutionPlan) (o : Outcome) → Relates Evolves (finish plan o)
unfolding finish
finish-Evolves plan (Outcome.already es) = search rules
finish-Evolves plan (Outcome.created es) = search (rules, notify-Evolves)

consume_or_return-Evolves :
    (plan : ExecutionPlan) (c : Confirmation) (now : ℕ) (is : List Intent)
    → Relates Evolves (consume_or_return plan c now is)
unfolding consume_or_return consume_new return_existing
consume_or_return-Evolves plan c now [] =
    search (rules, consume_body-Evolves, finish-Evolves) depth 30
consume_or_return-Evolves plan c now (i ∷ is) = search rules depth 30

pub consume-Evolves :
    (sha256 : Digest) (plan : ExecutionPlan) (c : Confirmation) (now : ℕ)
    → Relates Evolves (consume sha256 plan c now)
unfolding consume
consume-Evolves sha256 plan c now = search (rules, consume_or_return-Evolves) depth 30

close_if_live-Evolves : (o : Option PlanRow) → Relates Evolves (close_if_live o)
unfolding close_if_live
close_if_live-Evolves none = search rules
close_if_live-Evolves (some p) = search rules

recover_row-Evolves : (plan_id : String) (i : Intent) → Relates Evolves (recover_row plan_id i)
unfolding recover_row
recover_row-Evolves plan_id i = search (rules, close_if_live-Evolves) depth 20

recover_rows-Evolves :
    (plan_id : String) (is : List Intent) → Relates Evolves (recover_rows plan_id is)
unfolding recover_rows
recover_rows-Evolves plan_id [] = search rules
recover_rows-Evolves plan_id (i ∷ is) =
    Relates-bind Evolves-IsPreorder _ _ (recover_row-Evolves plan_id i)
      (λ _. recover_rows-Evolves plan_id is)

pub recover-Evolves : (plan_id : String) → Relates Evolves (recover plan_id)
unfolding recover
recover-Evolves plan_id = search (rules, recover_rows-Evolves) depth 20

close_all-Evolves : (reason : String) (q : Submission) → Relates Evolves (close_all reason q)
unfolding close_all
close_all-Evolves reason q = search rules

tidy_canaries-Evolves : (q : Submission) → Relates Evolves (tidy_canaries q)
unfolding tidy_canaries close_expired
tidy_canaries-Evolves q = search (rules, close_all-Evolves) depth 20

refuse_unknown-Evolves : (q : Submission) → Relates Evolves (refuse_unknown q)
unfolding refuse_unknown
refuse_unknown-Evolves q = search (rules, close_all-Evolves) depth 20

check_broker-Evolves : (q : Submission) → Relates Evolves (check_broker q)
unfolding check_broker
check_broker-Evolves q = search rules depth 20

reject_submission-Evolves :
    (q : Submission) (rs : List Reason) → Relates Evolves (reject_submission q rs)
unfolding reject_submission
reject_submission-Evolves q rs = search (rules, close_all-Evolves, notify-Evolves) depth 30

act_on-Evolves : (q : Submission) (i : Inputs) (d : Decision) → Relates Evolves (act_on q i d)
unfolding act_on
act_on-Evolves q i Decision.pass = search rules
act_on-Evolves q i Decision.reject = search (rules, reject_submission-Evolves)

gate-Evolves : (q : Submission) → Relates Evolves (gate q)
unfolding gate decide_submission
gate-Evolves q = search (rules, act_on-Evolves) depth 20

submit_order_paper-Evolves :
    (row : Intent) (c : Confirmation) (p : ExecutionPlan)
    → Relates Evolves (Paper.submit_order row (some c) (some p))
unfolding Paper.submit_order Paper.submit_paper
submit_order_paper-Evolves row c p = search rules depth 20

authorize-Evolves :
    (b : LiveBroker) (row : Intent) (c : Confirmation) (p : ExecutionPlan) (r : Confirmation)
    (now : ℕ)
    → Relates Evolves (Live.authorize b row c p r now)
unfolding Live.authorize
authorize-Evolves b row c p r now = search rules depth 30

submit_live-Evolves :
    (b : LiveBroker) (row : Intent) (c : Confirmation) → Relates Evolves (Live.submit_live b row c)
unfolding Live.submit_live
submit_live-Evolves b row c = search rules depth 30

dry_run_submit-Evolves :
    (row : Intent) (p : ExecutionPlan) → Relates Evolves (Live.dry_run_submit row p)
unfolding Live.dry_run_submit
dry_run_submit-Evolves row p = search rules

live-Evolves :
    (b : LiveBroker) (row : Intent) (c : Confirmation) (p : ExecutionPlan) (now : ℕ)
    → Relates Evolves (Live.submit b row (some c) (some p) now)
unfolding Live.submit Live.submit_checked Live.send_or_dry_run
live-Evolves b row c p now =
    search (rules, authorize-Evolves, submit_live-Evolves, dry_run_submit-Evolves) depth 40

submit_order-Evolves :
    (b : Broker) (q : Submission) (row : Intent) → Relates Evolves (submit_order b q row)
unfolding submit_order
submit_order-Evolves Broker.paper_broker q row =
    submit_order_paper-Evolves row q.confirmation q.plan
submit_order-Evolves (Broker.live_broker b) q row = live-Evolves b row q.confirmation q.plan q.now

fail_closed-Evolves :
    {A : Type 0} (q : Submission) (row : Intent) (e : Error)
    → Relates Evolves (fail_closed {A = A} q row e)
unfolding fail_closed
fail_closed-Evolves q row e = search (rules, close_all-Evolves) depth 20

submit_row-Evolves : (q : Submission) (o : Option Intent) → Relates Evolves (submit_row q o)
unfolding submit_row
submit_row-Evolves q none = search rules
submit_row-Evolves q (some row) = search (rules, submit_order-Evolves, fail_closed-Evolves) depth 30

submit_each-Evolves : (q : Submission) (es : List Entry) → Relates Evolves (submit_each q es)
unfolding submit_each
submit_each-Evolves q [] = search rules
submit_each-Evolves q (e ∷ es) =
    Relates-bind Evolves-IsPreorder _ _ (Relates-gets Evolves-IsPreorder _) λ stored.
      Relates-bind Evolves-IsPreorder _ _ (submit_row-Evolves q stored)
        (λ _. submit_each-Evolves q es)

send-Evolves : (q : Submission) (es : List Entry) → Relates Evolves (send q es)
unfolding send
send-Evolves q es = search (rules, recover-Evolves, submit_each-Evolves, notify-Evolves) depth 20

pub submit-Evolves : (sha256 : Digest) (q : Submission) → Relates Evolves (submit sha256 q)
unfolding submit
submit-Evolves sha256 q =
    search
      (
        rules, tidy_canaries-Evolves, refuse_unknown-Evolves, check_broker-Evolves, gate-Evolves,
        consume-Evolves, send-Evolves,
      )
      depth 40
