-- ===== src/Evolution/Methods.antt =====
-- Each method of the execution store (shared/db.py) evolves the store, whether it returns or raises.
use trading_cat.Base.{ℕ, String, ◌≡◌, true, Option, none, some, arith}
use trading_cat.Base.Tables.{update}
use trading_cat.Base.Action.Relates.{relates_rules, Relates, Relates-modify}
use trading_cat.Models.{Confirmation}
use trading_cat.Store.{Store, PlanRow, PlanStatus, Fill, AuditEvent, Entity}
use trading_cat.Store.AuditLog.{audit, audit_dedupe}
use trading_cat.Store.Plans.{insert_plan, keep_plan, create_plan, has_plan_id, set_plan_status}
use trading_cat.Store.Intents.{NewIntent, insert_intent}
use trading_cat.Store.Fills.{upsert_broker_order, insert_fill}
use trading_cat.Store.Confirmations.{
  approve_body, approve_confirmation, reject_body, reject_confirmation, mark_plan_consumed,
  put_confirmation, insert_confirmation, is_pending, verdict_row, at_status,
}
use trading_cat.Evolution.{Evolves, Evolves-IsPreorder, IsLaterTicket}
use trading_cat.Evolution.Rows.{
  audited, intent_added, plan_added, plans_updated, ticket_added, tickets_updated, broker_order_put,
  fill_added, approve_row-IsLaterTicket, reject_row-IsLaterTicket, consume_row-IsLaterTicket,
}

ruleset rules = (Evolves-IsPreorder, relates_rules)

pub audit-Evolves : (event : AuditEvent) (entity : Entity) → Relates Evolves (audit event entity)
unfolding audit
audit-Evolves event entity = Relates-modify _ (λ s. audited s _)

pub audit_dedupe-Evolves :
    (entity : Entity) (key : String) → Relates Evolves (audit_dedupe entity key)
unfolding audit_dedupe
audit_dedupe-Evolves entity key = Relates-modify _ (λ s. audited s _)

create_plan-Evolves : (p : PlanRow) → Relates Evolves (create_plan p)
unfolding create_plan
create_plan-Evolves p = search (rules, audit-Evolves, plan_added)

keep_plan-Evolves : (p : PlanRow) (o : Option PlanRow) → Relates Evolves (keep_plan p o)
unfolding keep_plan
keep_plan-Evolves p none = create_plan-Evolves p
keep_plan-Evolves p (some q) = search rules

pub insert_plan-Evolves : (p : PlanRow) → Relates Evolves (insert_plan p)
unfolding insert_plan
insert_plan-Evolves p = search (rules, keep_plan-Evolves)

put_plan_status-Evolves :
    (plan_id : String) (status : PlanStatus) (s : Store)
    → Evolves s (record s {
      plans = update (has_plan_id plan_id) (λ r. record r { status = status }) s.plans;
    })
put_plan_status-Evolves plan_id status s =
    plans_updated s (has_plan_id plan_id) (λ r. record r { status = status }) (λ r. ground arith)

pub set_plan_status-Evolves :
    (plan_id : String) (status : PlanStatus) → Relates Evolves (set_plan_status plan_id status)
unfolding set_plan_status
set_plan_status-Evolves plan_id status = search (rules, put_plan_status-Evolves)

pub insert_intent-Evolves : (n : NewIntent) → Relates Evolves (insert_intent n)
unfolding insert_intent
insert_intent-Evolves n = search (rules, intent_added)

pub upsert_broker_order-Evolves :
    (key : ℕ) (b : String) → Relates Evolves (upsert_broker_order key b)
unfolding upsert_broker_order
upsert_broker_order-Evolves key b = search (rules, broker_order_put)

pub insert_fill-Evolves : (f : Fill) → Relates Evolves (insert_fill f)
unfolding insert_fill
insert_fill-Evolves f = search (rules, fill_added)

approve_body-Evolves :
    (cid who channel nonce : String) (plan_id plan_hash : Option String) (now : ℕ)
    → Relates Evolves (approve_body cid who channel nonce plan_id plan_hash now)
unfolding approve_body
approve_body-Evolves cid who channel nonce plan_id plan_hash now =
    search (rules, tickets_updated, approve_row-IsLaterTicket, audit-Evolves) depth 40

pub approve_confirmation-Evolves :
    (cid who channel nonce : String) (plan_id plan_hash : Option String) (now : ℕ)
    → Relates Evolves (approve_confirmation cid who channel nonce plan_id plan_hash now)
unfolding approve_confirmation
approve_confirmation-Evolves cid who channel nonce plan_id plan_hash now =
    search (rules, approve_body-Evolves)

reject_body-Evolves :
    (cid who channel nonce : String) → Relates Evolves (reject_body cid who channel nonce)
unfolding reject_body
reject_body-Evolves cid who channel nonce =
    search (rules, tickets_updated, reject_row-IsLaterTicket, audit-Evolves) depth 40

pub reject_confirmation-Evolves :
    (cid who channel nonce : String) → Relates Evolves (reject_confirmation cid who channel nonce)
unfolding reject_confirmation
reject_confirmation-Evolves cid who channel nonce = search (rules, reject_body-Evolves)

pub mark_plan_consumed-Evolves :
    (cid plan_id : String) → Relates Evolves (mark_plan_consumed cid plan_id)
unfolding mark_plan_consumed
mark_plan_consumed-Evolves cid plan_id =
    search (rules, tickets_updated, consume_row-IsLaterTicket, put_plan_status-Evolves) depth 40

verdict_row-IsLaterTicket :
    (new c : Confirmation)
    → at_status new.confirmation_id is_pending c ≡ true
    → IsLaterTicket c (verdict_row new c)
verdict_row-IsLaterTicket new c h = ground arith

put_confirmation-Evolves :
    (o : Option Confirmation) (new : Confirmation) → Relates Evolves (put_confirmation o new)
unfolding put_confirmation
put_confirmation-Evolves none new = search (rules, ticket_added) depth 40
put_confirmation-Evolves (some old) new =
    search (rules, tickets_updated, verdict_row-IsLaterTicket) depth 40

pub insert_confirmation-Evolves :
    (new : Confirmation) (now : ℕ) → Relates Evolves (insert_confirmation new now)
unfolding insert_confirmation
insert_confirmation-Evolves new now =
    search (rules, put_confirmation-Evolves, audit-Evolves) depth 40
