-- ===== src/Traces.antt =====
-- Any sequence of the steps below on one execution store, by any caller. They are the calls of
-- execution/order_manager.py, of the event handler and the reconciliation of execution/broker.py, of the
-- snapshots and the poll of execution/broker_live.py, and of the methods of shared/db.py on plans, tickets
-- and canaries. tc.py writes the status of a ticket blindly, after it has made it (CANCELLED) or approved it
-- (REJECTED): these writes are steps while the ticket is still PENDING, or APPROVED.
use trading_cat.Base.{ℕ, String, ◌≡◌, ap, Bool, Option, some, List, All, arith, eqb, str_eq}
use trading_cat.Base.Int.{ℤ}
use trading_cat.Base.Tables.{Grows-select}
use trading_cat.Models.{ExecutionPlan, Confirmation, ConfirmationStatus, Side, Digest}
use trading_cat.Store.{Store, Intent, PlanRow, PlanStatus}
use trading_cat.Store.Plans.{insert_plan, set_plan_status}
use trading_cat.Evolution.CommandLine.{IsAt, cancelled-Evolves, refused-Evolves}
use trading_cat.Reconcile.{Query, reconcile_plan, reconcile_all}
use trading_cat.Reconcile.Evolve.{reconcile_plan-Evolves, reconcile_all-Evolves}
use trading_cat.Brokers.Live.{LiveBroker}
use trading_cat.Brokers.Snapshots.{Snapshot, Answer, apply_order_snapshot, poll_active_orders}
use trading_cat.Brokers.Snapshots.Evolve.{apply_order_snapshot-Evolves, poll_active_orders-Evolves}
use trading_cat.Store.Confirmations.{
  approve_confirmation, reject_confirmation, insert_confirmation, get_confirmation,
  has_confirmation_id, set_confirmation_status, is_pending, is_approved,
}
use trading_cat.Store.Intents.{get_intent, has_intent_id}
use trading_cat.Store.Canaries.{
  CanaryRequest, close_live_canaries, close_expired_live_canaries, create_live_canary,
  mark_system_readiness, authorize_live_canary,
}
use trading_cat.Evolution.{Evolves, Evolves-IsPreorder, IsLaterIntent, IsLaterTicket, MovesTo}
use trading_cat.Evolution.Methods.{
  insert_plan-Evolves, set_plan_status-Evolves, approve_confirmation-Evolves,
  reject_confirmation-Evolves, insert_confirmation-Evolves,
}
use trading_cat.Evolution.Canaries.{
  close_expired_live_canaries-Evolves, create_live_canary-Evolves, mark_system_readiness-Evolves,
  close_live_canaries-Evolves, authorize_live_canary-Evolves,
}
use trading_cat.Events.{Event, Fingerprint, handle}
use trading_cat.Events.Evolve.{handle-Evolves}
use trading_cat.Orders.Tickets.{create}
use trading_cat.Orders.Consume.{consume, recover}
use trading_cat.Orders.Submit.{Submission, submit}
use trading_cat.Orders.Evolve.{create-Evolves, consume-Evolves, recover-Evolves, submit-Evolves}

-- One operation, whether it returns or raises.
pub data Step (s : Store) : Store → Type 0 where
  creates :
      (p : ExecutionPlan) (expires_at : Option ℕ) (cid : String) (now : ℕ)
      → Step s (create p expires_at cid now s).1
  inserts : (c : Confirmation) (now : ℕ) → Step s (insert_confirmation c now s).1
  approves :
      (cid who channel nonce : String) (plan_id plan_hash : Option String) (now : ℕ)
      → Step s (approve_confirmation cid who channel nonce plan_id plan_hash now s).1
  rejects :
      (cid who channel nonce : String) → Step s (reject_confirmation cid who channel nonce s).1
  consumes :
      (sha256 : Digest) (p : ExecutionPlan) (c : Confirmation) (now : ℕ)
      → Step s (consume sha256 p c now s).1
  recovers : (plan_id : String) → Step s (recover plan_id s).1
  submits : (sha256 : Digest) (q : Submission) → Step s (submit sha256 q s).1
  handles : (sha256 : Fingerprint) (e : Event) → Step s (handle sha256 e s).1
  closes :
      (reason : String) (account : Option String) → Step s (close_live_canaries reason account s).1
  authorizes : (q : CanaryRequest) (now : ℕ) → Step s (authorize_live_canary q now s).1
  opens :
      (cid account : String) (symbols : List String) (side : Side) (max_notional : ℤ)
      (max_orders expires_at now : ℕ)
      → Step s
          (create_live_canary cid account symbols side max_notional max_orders expires_at now s).1
  expires :
      (account : Option String) (now : ℕ) → Step s (close_expired_live_canaries account now s).1
  marks : (passed : Bool) → Step s (mark_system_readiness passed s).1
  copies : (p : PlanRow) → Step s (insert_plan p s).1
  sets_plan : (plan_id : String) (status : PlanStatus) → Step s (set_plan_status plan_id status s).1
  reconciles : (query : Option Query) (plan_id : String) → Step s (reconcile_plan query plan_id s).1
  reconciles_all : (query : Option Query) → Step s (reconcile_all query s).1
  applies :
      (sha256 : Fingerprint) (n : Snapshot) (known : Option Intent)
      → Step s (apply_order_snapshot sha256 n known s).1
  polls :
      (sha256 : Fingerprint) (b : LiveBroker) (query : String → Answer) (plan_id : String)
      → Step s (poll_active_orders sha256 b query plan_id s).1
  cancels :
      (cid : String)
      → All (IsAt cid is_pending) s.confirmations
      → Step s (set_confirmation_status cid ConfirmationStatus.cancelled s).1
  refuses :
      (cid : String)
      → All (IsAt cid is_approved) s.confirmations
      → Step s (set_confirmation_status cid ConfirmationStatus.rejected s).1

pub data Reaches (s : Store) : Store → Type 0 where
  here : Reaches s s
  after : {t u : Store} → Reaches s t → Step t u → Reaches s u

Step-Evolves : (s t : Store) → Step s t → Evolves s t
Step-Evolves s t (Step.creates p expires_at cid now) = (create-Evolves p expires_at cid now).at s
Step-Evolves s t (Step.inserts c now) = (insert_confirmation-Evolves c now).at s
Step-Evolves s t (Step.approves cid who channel nonce plan_id plan_hash now) =
    (approve_confirmation-Evolves cid who channel nonce plan_id plan_hash now).at s
Step-Evolves s t (Step.rejects cid who channel nonce) =
    (reject_confirmation-Evolves cid who channel nonce).at s
Step-Evolves s t (Step.consumes sha256 p c now) = (consume-Evolves sha256 p c now).at s
Step-Evolves s t (Step.recovers plan_id) = (recover-Evolves plan_id).at s
Step-Evolves s t (Step.submits sha256 q) = (submit-Evolves sha256 q).at s
Step-Evolves s t (Step.handles sha256 e) = (handle-Evolves sha256 e).at s
Step-Evolves s t (Step.closes reason account) = (close_live_canaries-Evolves reason account).at s
Step-Evolves s t (Step.authorizes q now) = (authorize_live_canary-Evolves q now).at s
Step-Evolves s t (Step.opens cid account symbols side max_notional max_orders expires_at now) =
    (create_live_canary-Evolves cid account symbols side max_notional max_orders expires_at now).at
      s
Step-Evolves s t (Step.expires account now) = (close_expired_live_canaries-Evolves account now).at s
Step-Evolves s t (Step.marks passed) = (mark_system_readiness-Evolves passed).at s
Step-Evolves s t (Step.copies p) = (insert_plan-Evolves p).at s
Step-Evolves s t (Step.sets_plan plan_id status) = (set_plan_status-Evolves plan_id status).at s
Step-Evolves s t (Step.reconciles query plan_id) = (reconcile_plan-Evolves query plan_id).at s
Step-Evolves s t (Step.reconciles_all query) = (reconcile_all-Evolves query).at s
Step-Evolves s t (Step.applies sha256 n known) = (apply_order_snapshot-Evolves sha256 n known).at s
Step-Evolves s t (Step.polls sha256 b query plan_id) =
    (poll_active_orders-Evolves sha256 b query plan_id).at s
Step-Evolves s t (Step.cancels cid h) = cancelled-Evolves cid s h
Step-Evolves s t (Step.refuses cid h) = refused-Evolves cid s h

-- Along any steps of Traces, in whatever order, and whether they return or raise: no plan, ticket, order, fill or row
-- of the audit log is lost, plans and orders keep their content, a final status of an order stays, tickets
-- move only from PENDING or from APPROVED to CONSUMED or REJECTED, and keep their approval once decided, and
-- fills and the audit log are only appended to. (The command line's writes of a ticket's status are steps
-- while the ticket is still PENDING, or APPROVED.)
pub Reaches-Evolves : (s t : Store) → Reaches s t → Evolves s t
Reaches-Evolves s t Reaches.here = Evolves-IsPreorder.self s
Reaches-Evolves s t (Reaches.after {t = u} r h) =
    Evolves-IsPreorder.chain s u t (Reaches-Evolves s u r) (Step-Evolves u t h)

-- Along any steps of Traces (calls of the order manager, events, snapshots, polls, reconciliations, and the
-- methods on plans, tickets and canaries) an order never changes what was approved of it, and once it is FILLED,
-- REJECTED or CANCELLED it stays so.
pub Reaches-get_intent :
    (key : ℕ) (s t : Store) (i : Intent)
    → Reaches s t
    → get_intent key s ≡ some i
    → (j : Intent) × ((get_intent key t ≡ some j) × IsLaterIntent i j)
unfolding get_intent
Reaches-get_intent key s t i r e =
    Grows-select (has_intent_id key) IsLaterIntent (λ x y h. ap (λ n. eqb n key) h.same_id)
      s.intents t.intents i ((Reaches-Evolves s t r).intents) e

later_consumed :
    (c d : ConfirmationStatus)
    → MovesTo c d
    → c ≡ ConfirmationStatus.consumed
    → d ≡ ConfirmationStatus.consumed
later_consumed ConfirmationStatus.pending d h e = cc
later_consumed ConfirmationStatus.approved d h e = cc
later_consumed _ d h e = ground (arith, h, e)

later_ticket :
    (cid : String) (s t : Store) (c : Confirmation)
    → Reaches s t
    → get_confirmation cid s ≡ some c
    → (d : Confirmation) × ((get_confirmation cid t ≡ some d) × IsLaterTicket c d)
unfolding get_confirmation
later_ticket cid s t c r e =
    Grows-select (has_confirmation_id cid) IsLaterTicket (λ x y h. ap (λ n. str_eq n cid) h.same_id)
      s.confirmations t.confirmations c ((Reaches-Evolves s t r).confirmations) e

-- Along any steps of Traces a ticket that was consumed stays consumed, bound to the same plan and hash. (The command
-- line's writes of a ticket's status are steps while the ticket is still PENDING, or APPROVED; the code does
-- not check that.)
pub Reaches-consumed :
    (cid : String) (s t : Store) (c : Confirmation)
    → Reaches s t
    → get_confirmation cid s ≡ some c
    → c.status ≡ ConfirmationStatus.consumed
    → (d : Confirmation) × ((get_confirmation cid t ≡ some d)
        × ((d.status ≡ ConfirmationStatus.consumed)
            × ((d.plan_id ≡ c.plan_id) × (d.plan_hash ≡ c.plan_hash))))
Reaches-consumed cid s t c r e used =
    let later = later_ticket cid s t c r e in
    (
      later.0,
      (
        later.1.0,
        (
          later_consumed c.status later.0.status later.1.1.moves used,
          (later.1.1.same_plan, later.1.1.same_hash),
        ),
      ),
    )
