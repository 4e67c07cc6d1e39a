-- ===== src/Reconcile/Evolve.antt =====
-- execution/broker.py, `Reconciliation`: every call evolves the store.
use trading_cat.Base.{String, Option, none, some, List, [], ◌∷◌}
use trading_cat.Base.Action.Relates.{Relates, Relates-bind, relates_rules}
use trading_cat.Store.{Intent, IntentStatus}
use trading_cat.State.Monotone.{set_intent_status-Evolves}
use trading_cat.Evolution.{Evolves, Evolves-IsPreorder}
use trading_cat.Evolution.Methods.{audit-Evolves}
use trading_cat.Evolution.Canaries.{close_live_canaries-Evolves}
use trading_cat.Brokers.Status.{Normal}
use trading_cat.Reconcile.{
  Mismatch, Query, fail_order, compare_status, compare_answer, compare_key, reconcile_row,
  reconcile_rows, close_on_mismatch, reconcile_real, paper_row, paper_rows, reconcile_paper,
  reconcile_plan, reconcile_each, reconcile_all,
}

ruleset rules = (
  Evolves-IsPreorder, relates_rules, set_intent_status-Evolves, audit-Evolves,
  close_live_canaries-Evolves,
)

fail_order-Evolves :
    (i : Intent) (key : Option String) (m : Mismatch) → Relates Evolves (fail_order i key m)
unfolding fail_order
fail_order-Evolves i key m = search rules

compare_status-Evolves :
    (i : Intent) (key : String) (n : Normal) → Relates Evolves (compare_status i key n)
unfolding compare_status
compare_status-Evolves i key (Normal.known IntentStatus.unknown) =
    search (rules, fail_order-Evolves)
compare_status-Evolves i key (Normal.strange t) = search (rules, fail_order-Evolves)
compare_status-Evolves i key (Normal.known _) = search rules

compare_answer-Evolves :
    (i : Intent) (key : String) (o : Option (Option String))
    → Relates Evolves (compare_answer i key o)
unfolding compare_answer
compare_answer-Evolves i key none = search (rules, fail_order-Evolves)
compare_answer-Evolves i key (some status) = search (rules, compare_status-Evolves)

compare_key-Evolves :
    (query : Query) (i : Intent) (o : Option String) → Relates Evolves (compare_key query i o)
unfolding compare_key
compare_key-Evolves query i none = search (rules, fail_order-Evolves)
compare_key-Evolves query i (some key) = search (rules, compare_answer-Evolves)

reconcile_row-Evolves :
    (query : Option Query) (i : Intent) → Relates Evolves (reconcile_row query i)
unfolding reconcile_row
reconcile_row-Evolves none i = search rules
reconcile_row-Evolves (some query) i = search (rules, compare_key-Evolves)

reconcile_rows-Evolves :
    (query : Option Query) (is : List Intent) → Relates Evolves (reconcile_rows query is)
unfolding reconcile_rows
reconcile_rows-Evolves query [] = search rules
reconcile_rows-Evolves query (i ∷ is) =
    Relates-bind Evolves-IsPreorder _ _ (reconcile_row-Evolves query i) λ here.
      Relates-bind Evolves-IsPreorder _ _ (reconcile_rows-Evolves query is) (λ rest. search rules)

paper_row-Evolves : (i : Intent) → Relates Evolves (paper_row i)
unfolding paper_row
paper_row-Evolves i = search (rules, fail_order-Evolves)

paper_rows-Evolves : (is : List Intent) → Relates Evolves (paper_rows is)
unfolding paper_rows
paper_rows-Evolves [] = search rules
paper_rows-Evolves (i ∷ is) =
    Relates-bind Evolves-IsPreorder _ _ (paper_row-Evolves i)
      λ here. Relates-bind Evolves-IsPreorder _ _ (paper_rows-Evolves is) (λ rest. search rules)

close_on_mismatch-Evolves :
    (ms : List Mismatch) (account : String) → Relates Evolves (close_on_mismatch ms account)
unfolding close_on_mismatch
close_on_mismatch-Evolves ms account = search rules depth 20

pub reconcile_plan-Evolves :
    (query : Option Query) (plan_id : String) → Relates Evolves (reconcile_plan query plan_id)
unfolding reconcile_plan reconcile_real reconcile_paper
reconcile_plan-Evolves query plan_id =
    search (rules, reconcile_rows-Evolves, paper_rows-Evolves, close_on_mismatch-Evolves) depth 40

reconcile_each-Evolves :
    (query : Option Query) (ids : List String) → Relates Evolves (reconcile_each query ids)
unfolding reconcile_each
reconcile_each-Evolves query [] = search rules
reconcile_each-Evolves query (p ∷ ps) =
    Relates-bind Evolves-IsPreorder _ _ (reconcile_plan-Evolves query p) λ r.
      Relates-bind Evolves-IsPreorder _ _ (reconcile_each-Evolves query ps) (λ rest. search rules)

pub reconcile_all-Evolves : (query : Option Query) → Relates Evolves (reconcile_all query)
unfolding reconcile_all
reconcile_all-Evolves query = search (rules, reconcile_each-Evolves) depth 20
