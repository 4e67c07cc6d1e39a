-- ===== src/Service/Rests.antt =====
-- execution/service.py: what the calls before a submission leave as it is.
use trading_cat.Base.{String, ◌≡◌, refl, ◌∙◌, Option, none, some}
use trading_cat.Base.Action.{Result, ok, err, catch, handled}
use trading_cat.Base.Action.Relates.{Relates, IsPreorder, relates_rules}
use trading_cat.Models.{ExecutionPlan, Confirmation, Mode, Digest}
use trading_cat.Store.{Store, Error, Method, PlanRow}
use trading_cat.Orders.Submit.{Broker, paper_broker, live_broker}
use trading_cat.Orders.Gated.{Kept, Kept-IsPreorder}
use trading_cat.Service.{
  Both, ServiceError, ServiceMethod, on_execution, checked, snapshot_of, get_snapshot,
  need_snapshot, need_confirmation,
}
use trading_cat.Service.Execution.{
  Outcome, live_broker_of, paper_broker_of, broker_of, if_unknown, check_approved, check_binding,
}

-- The core store is the same, and in the other plans, tickets, orders, the broker's orders and fills are.
pub record Rests (s t : Both) : Type 0 where
  pub core : t.0 ≡ s.0
  pub kept : Kept s.1 t.1

pub Rests-IsPreorder : IsPreorder Rests
Rests-IsPreorder = record {
  self = λ s. record { core = refl; kept = Kept-IsPreorder.self s.1 };
  chain = λ s t u h k. record {
    core = k.core ∙ h.core;
    kept = Kept-IsPreorder.chain s.1 t.1 u.1 h.kept k.kept;
  };
}

ruleset rules = (Rests-IsPreorder, relates_rules)

checked-Rests :
    (sha256 : Digest) (row : PlanRow) (e : ServiceError) → Relates Rests (checked sha256 row e)
unfolding checked
checked-Rests sha256 row e = search rules depth 20

snapshot_of-Rests : (sha256 : Digest) (o : Option PlanRow) → Relates Rests (snapshot_of sha256 o)
unfolding snapshot_of
snapshot_of-Rests sha256 none = search rules
snapshot_of-Rests sha256 (some row) = search (rules, checked-Rests)

pub need_snapshot-Rests :
    (sha256 : Digest) (plan_id : String) → Relates Rests (need_snapshot sha256 plan_id)
unfolding need_snapshot get_snapshot
need_snapshot-Rests sha256 plan_id = search (rules, snapshot_of-Rests) depth 20

pub need_confirmation-Rests : (cid : String) → Relates Rests (need_confirmation cid)
unfolding need_confirmation
need_confirmation-Rests cid = search rules

pub check_binding-Rests :
    (plan : ExecutionPlan) (row : Confirmation) → Relates Rests (check_binding plan row)
unfolding check_binding
check_binding-Rests plan row = search rules depth 20

pub check_approved-Rests : (row : Confirmation) → Relates Rests (check_approved row)
unfolding check_approved
check_approved-Rests row = search rules

live_broker_of-Rests : (o : Option Broker) → Relates Rests (live_broker_of o)
unfolding live_broker_of
live_broker_of-Rests none = search rules
live_broker_of-Rests (some paper_broker) = search rules
live_broker_of-Rests (some (live_broker b)) = search rules depth 20

paper_broker_of-Rests : (o : Option Broker) → Relates Rests (paper_broker_of o)
unfolding paper_broker_of
paper_broker_of-Rests none = search rules
paper_broker_of-Rests (some paper_broker) = search rules
paper_broker_of-Rests (some (live_broker b)) = search rules

pub broker_of-Rests : (m : Mode) (o : Option Broker) → Relates Rests (broker_of m o)
unfolding broker_of
broker_of-Rests Mode.paper o = paper_broker_of-Rests o
broker_of-Rests Mode.live o = live_broker_of-Rests o
broker_of-Rests Mode.dry_run o = search rules
broker_of-Rests (Mode.other t) o = search rules

if_unknown-Rests : (e : ServiceError) → Relates Rests (if_unknown e)
unfolding if_unknown
if_unknown-Rests e = search rules

run-Rests :
    {A : Type 0} (f : Error → ServiceError) (u : Both) (r : Result Error A × Store)
    → Kept u.1 r.1
    → Rests u (on_execution f (λ _. r) u).1
unfolding on_execution
run-Rests f u (ok a, t) k = record { core = refl; kept = k }
run-Rests f u (err e, t) k = record { core = refl; kept = k }

pub on_execution-Rests :
    {A : Type 0} (f : Error → ServiceError) (m : Method A) (u : Both)
    → Kept u.1 (m u.1).1
    → Rests u (on_execution f m u).1
unfolding on_execution
on_execution-Rests f m u h = run-Rests f u (m u.1) h

pub caught-Rests :
    (m : ServiceMethod Outcome) (u v : Both)
    → Rests u v
    → Rests v (m v).1
    → Rests u (catch m if_unknown v).1
unfolding catch
caught-Rests m u v h k = done (m v) (Rests-IsPreorder.chain u v (m v).1 h k)
  where
    done : (r : Result ServiceError Outcome × Both) → Rests u r.1 → Rests u (handled if_unknown r).1
    done (ok a, t) l = l
    done (err e, t) l = Rests-IsPreorder.chain u t (if_unknown e t).1 l ((if_unknown-Rests e).at t)
