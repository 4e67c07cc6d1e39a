-- ===== src/Evolution/Canaries.antt =====
-- shared/db.py: the canary methods leave plans, tickets and orders as they are.
use trading_cat.Base.{ℕ, String, Bool, Option, none, some, List, [], ◌∷◌, ◌++◌}
use trading_cat.Models.{Side}
use trading_cat.Base.Int.{ℤ}
use trading_cat.Base.Action.Relates.{Relates, Relates-bind, Relates-if, relates_rules}
use trading_cat.Store.{Store, Method, Canary}
use trading_cat.Store.Canaries.{
  CanaryRequest, only, mem_text, refusal, close_rows, close_live_canaries_locked,
  close_live_canaries, close_expired_live_canaries, step_candidate, choose_canary, close_if_spent,
  create_live_canary, mark_system_readiness, reserve, reserve_row, authorize_new, authorize_body,
  authorize_live_canary,
}
use trading_cat.Evolution.{Evolves, Evolves-IsPreorder}
use trading_cat.Evolution.Rows.{canaries_updated, usage_added}
use trading_cat.Evolution.Methods.{audit-Evolves}

ruleset rules = (Evolves-IsPreorder, relates_rules, canaries_updated, usage_added, audit-Evolves)

close_rows-Evolves :
    (reason : String) (account : Option String) (p : Canary → Bool) (rs : List Canary)
    → Relates Evolves (close_rows reason account p rs)
unfolding close_rows
close_rows-Evolves reason account p [] = search rules
close_rows-Evolves reason account p (r ∷ rs) = search rules depth 20

close_live_canaries_locked-Evolves :
    (reason : String) (account : Option String) (ids : Option (List String)) (cutoff : Option ℕ)
    → Relates Evolves (close_live_canaries_locked reason account ids cutoff)
unfolding close_live_canaries_locked
close_live_canaries_locked-Evolves reason account ids cutoff =
    search (rules, close_rows-Evolves) depth 20

pub close_live_canaries-Evolves :
    (reason : String) (account : Option String)
    → Relates Evolves (close_live_canaries reason account)
unfolding close_live_canaries
close_live_canaries-Evolves reason account = search (rules, close_live_canaries_locked-Evolves)

pub close_expired_live_canaries-Evolves :
    (account : Option String) (now : ℕ) → Relates Evolves (close_expired_live_canaries account now)
unfolding close_expired_live_canaries
close_expired_live_canaries-Evolves account now = search (rules, close_live_canaries_locked-Evolves)

step_candidate-Evolves :
    (c : Canary) (symbol : String) (notional : ℤ) (o : Option String)
    (rest : Method (Option Canary))
    → Relates Evolves rest
    → Relates Evolves (step_candidate c symbol notional o rest)
unfolding step_candidate
step_candidate-Evolves c symbol notional none rest h = search rules
step_candidate-Evolves c symbol notional (some reason) rest h =
    Relates-bind Evolves-IsPreorder _ _
      (close_live_canaries_locked-Evolves reason none (only c) none) (λ _. h)

choose_canary-Evolves :
    (cs : List Canary) (symbol : String) (notional : ℤ)
    → Relates Evolves (choose_canary cs symbol notional)
unfolding choose_canary
choose_canary-Evolves [] symbol notional = search rules
choose_canary-Evolves (c ∷ cs) symbol notional =
    Relates-if Evolves-IsPreorder (mem_text symbol c.symbols) _ _
      (step_candidate-Evolves c symbol notional (refusal c notional) _
        (choose_canary-Evolves cs symbol notional))
      (choose_canary-Evolves cs symbol notional)

close_if_spent-Evolves : (o : Option Canary) → Relates Evolves (close_if_spent o)
unfolding close_if_spent
close_if_spent-Evolves none = search rules
close_if_spent-Evolves (some c) = search (rules, close_live_canaries_locked-Evolves)

reserve-Evolves :
    (o : Option Canary) (q : CanaryRequest) (notional : ℤ) → Relates Evolves (reserve o q notional)
unfolding reserve reserve_row
reserve-Evolves none q notional = search rules
reserve-Evolves (some c) q notional = search (rules, close_if_spent-Evolves) depth 30

authorize_body-Evolves :
    (q : CanaryRequest) (notional : ℤ) (now : ℕ) (o : Option Canary)
    → Relates Evolves (authorize_body q notional now o)
unfolding authorize_body authorize_new
authorize_body-Evolves q notional now (some c) = search rules
authorize_body-Evolves q notional now none =
    search (rules, close_live_canaries_locked-Evolves, choose_canary-Evolves, reserve-Evolves) depth
      30

pub authorize_live_canary-Evolves :
    (q : CanaryRequest) (now : ℕ) → Relates Evolves (authorize_live_canary q now)
unfolding authorize_live_canary
authorize_live_canary-Evolves q now = search (rules, authorize_body-Evolves) depth 30

canary_opened : (c : Canary) (s : Store) → Evolves s (record s { canaries = s.canaries ++ c ∷ [] })
canary_opened c s =
    let still = Evolves-IsPreorder.self s in
    record {
      intents = still.intents;
      confirmations = still.confirmations;
      plans = still.plans;
      fills = still.fills;
      audit_log = still.audit_log;
    }

pub create_live_canary-Evolves :
    (cid account : String) (symbols : List String) (side : Side) (max_notional : ℤ)
    (max_orders expires_at now : ℕ)
    → Relates Evolves
        (create_live_canary cid account symbols side max_notional max_orders expires_at now)
unfolding create_live_canary
create_live_canary-Evolves cid account symbols side max_notional max_orders expires_at now =
    search (rules, canary_opened) depth 30

readiness_marked : (passed : Bool) (s : Store) → Evolves s (record s { is_p0_a_passed = passed })
readiness_marked passed s =
    let still = Evolves-IsPreorder.self s in
    record {
      intents = still.intents;
      confirmations = still.confirmations;
      plans = still.plans;
      fills = still.fills;
      audit_log = still.audit_log;
    }

pub mark_system_readiness-Evolves : (passed : Bool) → Relates Evolves (mark_system_readiness passed)
unfolding mark_system_readiness
mark_system_readiness-Evolves passed = search (rules, readiness_marked)
