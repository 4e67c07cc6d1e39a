-- ===== src/Evolution.antt =====
-- How the execution store (shared/db.py) may change: rows are never dropped, an order keeps all that
-- was approved and a final status, a ticket moves only forward, a plan keeps its content, fills and
-- the audit log are only appended to.
pub mod Rows
pub mod Methods
pub mod Canaries
pub mod CommandLine
use trading_cat.Base.{
  ℕ, String, ◌≡◌, refl, sym, ◌∙◌, ◌⊎◌, inl, inr, Bool, true, false, Option, none, some, List, arith,
}
use trading_cat.Base.Tables.{Grows, Grows-refl, Grows-trans}
use trading_cat.Base.Action.Relates.{IsPreorder}
use trading_cat.Models.{Confirmation, ConfirmationStatus}
use trading_cat.Store.{Store, PlanRow, Intent, Fill, Audit}
use trading_cat.Store.Confirmations.{is_pending}
use trading_cat.State.{is_terminal}

-- An order is what the plan said, and a final status stays.
pub record IsLaterIntent (i j : Intent) : Type 0 where
  pub same_id : j.intent_id ≡ i.intent_id
  pub same_request : j.client_request_id ≡ i.client_request_id
  pub same_plan : j.plan_id ≡ i.plan_id
  pub same_order : j.plan_order_id ≡ i.plan_order_id
  pub same_symbol : j.symbol ≡ i.symbol
  pub same_side : j.side ≡ i.side
  pub same_quantity : j.quantity ≡ i.quantity
  pub same_type : j.order_type ≡ i.order_type
  pub same_price : j.reference_price ≡ i.reference_price
  pub same_slippage : j.max_slippage_bps ≡ i.max_slippage_bps
  pub same_confirmation : j.confirmation_id ≡ i.confirmation_id
  pub final_stays : is_terminal i.status ≡ true → j.status ≡ i.status

pub IsLaterIntent-self : (i : Intent) → IsLaterIntent i i
IsLaterIntent-self i = ground arith

pub IsLaterIntent-trans :
    (i j k : Intent) → IsLaterIntent i j → IsLaterIntent j k → IsLaterIntent i k
IsLaterIntent-trans i j k h g = ground arith

-- The moves of a ticket: PENDING to anything, APPROVED to CONSUMED or REJECTED, and the others stay.
abbrev pub MovesTo : ConfirmationStatus → ConfirmationStatus → Type 0
MovesTo ConfirmationStatus.pending d = Unit
MovesTo ConfirmationStatus.approved d =
    (d ≡ ConfirmationStatus.approved)
    ⊎ ((d ≡ ConfirmationStatus.consumed) ⊎ (d ≡ ConfirmationStatus.rejected))
MovesTo c d = d ≡ c

pub MovesTo-self : (c : ConfirmationStatus) → MovesTo c c
MovesTo-self ConfirmationStatus.pending = tt
MovesTo-self ConfirmationStatus.approved = inl refl
MovesTo-self _ = refl

pub MovesTo-trans : (c d e : ConfirmationStatus) → MovesTo c d → MovesTo d e → MovesTo c e
MovesTo-trans ConfirmationStatus.pending d e h k = tt
MovesTo-trans ConfirmationStatus.approved d e h k = ground arith
MovesTo-trans _ d e h k = ground arith

-- A ticket stays bound to its plan, and once it is decided its approval stays.
pub record IsLaterTicket (c d : Confirmation) : Type 0 where
  pub same_id : d.confirmation_id ≡ c.confirmation_id
  pub same_plan : d.plan_id ≡ c.plan_id
  pub same_hash : d.plan_hash ≡ c.plan_hash
  pub same_expiry : d.expires_at ≡ c.expires_at
  pub same_key : d.idempotency_key ≡ c.idempotency_key
  pub moves : MovesTo c.status d.status
  pub same_nonce : is_pending c.status ≡ false → d.approval_nonce ≡ c.approval_nonce
  pub same_channel : is_pending c.status ≡ false → d.approval_channel ≡ c.approval_channel
  pub same_owner : is_pending c.status ≡ false → d.approved_by ≡ c.approved_by

pub IsLaterTicket-self : (c : Confirmation) → IsLaterTicket c c
IsLaterTicket-self c = record {
  same_id = refl;
  same_plan = refl;
  same_hash = refl;
  same_expiry = refl;
  same_key = refl;
  moves = MovesTo-self c.status;
  same_nonce = λ _. refl;
  same_channel = λ _. refl;
  same_owner = λ _. refl;
}

decided_stays :
    (c d : ConfirmationStatus) → MovesTo c d → is_pending c ≡ false → is_pending d ≡ false
decided_stays ConfirmationStatus.pending d h p = cc
decided_stays ConfirmationStatus.approved d h p = ground arith
decided_stays _ d h p = ground arith

pub IsLaterTicket-trans :
    (c d e : Confirmation) → IsLaterTicket c d → IsLaterTicket d e → IsLaterTicket c e
IsLaterTicket-trans c d e h k = record {
  same_id = k.same_id ∙ h.same_id;
  same_plan = k.same_plan ∙ h.same_plan;
  same_hash = k.same_hash ∙ h.same_hash;
  same_expiry = k.same_expiry ∙ h.same_expiry;
  same_key = k.same_key ∙ h.same_key;
  moves = MovesTo-trans c.status d.status e.status h.moves k.moves;
  same_nonce = λ p. k.same_nonce (decided_stays c.status d.status h.moves p) ∙ h.same_nonce p;
  same_channel = λ p. k.same_channel (decided_stays c.status d.status h.moves p) ∙ h.same_channel p;
  same_owner = λ p. k.same_owner (decided_stays c.status d.status h.moves p) ∙ h.same_owner p;
}

-- A plan keeps all but its status.
pub record IsLaterPlan (p q : PlanRow) : Type 0 where
  pub same_id : q.plan_id ≡ p.plan_id
  pub same_account : q.account_id ≡ p.account_id
  pub same_mode : q.execution_mode ≡ p.execution_mode
  pub same_expiry : q.expires_at ≡ p.expires_at
  pub same_hash : q.plan_hash ≡ p.plan_hash
  pub same_orders : q.orders ≡ p.orders

pub IsLaterPlan-self : (p : PlanRow) → IsLaterPlan p p
IsLaterPlan-self p = ground arith

pub IsLaterPlan-trans : (p q r : PlanRow) → IsLaterPlan p q → IsLaterPlan q r → IsLaterPlan p r
IsLaterPlan-trans p q r h k = ground arith

abbrev pub Same {ℓ} : {A : Type ℓ} → A → A → Type ℓ
Same a b = b ≡ a

Same-self : {A : Type 0} (a : A) → Same a a
Same-self a = refl

Same-trans : {A : Type 0} (a b c : A) → Same a b → Same b c → Same a c
Same-trans a b c h k = k ∙ h

pub record Evolves (s t : Store) : Type 0 where
  pub intents : Grows IsLaterIntent s.intents t.intents
  pub confirmations : Grows IsLaterTicket s.confirmations t.confirmations
  pub plans : Grows IsLaterPlan s.plans t.plans
  pub fills : Grows Same s.fills t.fills
  pub audit_log : Grows Same s.audit_log t.audit_log

pub Evolves-IsPreorder : IsPreorder Evolves
Evolves-IsPreorder = record {
  self = λ s. record {
    intents = Grows-refl IsLaterIntent IsLaterIntent-self s.intents;
    confirmations = Grows-refl IsLaterTicket IsLaterTicket-self s.confirmations;
    plans = Grows-refl IsLaterPlan IsLaterPlan-self s.plans;
    fills = Grows-refl Same Same-self s.fills;
    audit_log = Grows-refl Same Same-self s.audit_log;
  };
  chain = λ s t u h k. record {
    intents =
        Grows-trans IsLaterIntent IsLaterIntent-trans s.intents t.intents u.intents h.intents
          k.intents;
    confirmations =
        Grows-trans IsLaterTicket IsLaterTicket-trans s.confirmations t.confirmations
          u.confirmations h.confirmations k.confirmations;
    plans = Grows-trans IsLaterPlan IsLaterPlan-trans s.plans t.plans u.plans h.plans k.plans;
    fills = Grows-trans Same Same-trans s.fills t.fills u.fills h.fills k.fills;
    audit_log =
        Grows-trans Same Same-trans s.audit_log t.audit_log u.audit_log h.audit_log k.audit_log;
  };
}
