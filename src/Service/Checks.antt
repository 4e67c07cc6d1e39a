-- ===== src/Service/Checks.antt =====
-- execution/service.py: what the reads of the service have found once they return; none of them writes.
use trading_cat.Base.{same_text, some_inj, String, ◌≡◌, refl, sym, ap, ◌∙◌, Option, none, some}
use trading_cat.Base.Action.{Result, ok, err, Action, pure, or_raise}
use trading_cat.Base.Action.Outcome.{OnOk, bind-OnOk, gets-OnOk, or_raise-OnOk, raise_if-OnOk}
use trading_cat.Models.{ExecutionPlan, Confirmation, Digest}
use trading_cat.Store.{Store, PlanRow}
use trading_cat.Store.Plans.{get_plan}
use trading_cat.Store.Confirmations.{get_confirmation}
use trading_cat.Service.{
  Both, ServiceError, on_execution, rebuild, checked, snapshot_of, get_snapshot, need_snapshot,
  need_confirmation, confirmation_not_found, plan_not_found,
}

module _ {E A : Type 0} (f : E → ServiceError) where
  -- A method of the execution store that returns.
  pub on_execution-OnOk :
      (Q : A → Store → Type 0) (P : A → Both → Type 0) (m : Action E Store A) (s : Both)
      → OnOk Q (m s.1)
      → ((a : A) (t : Store) → Q a t → P a (s.0, t))
      → OnOk P (on_execution f m s)
  unfolding on_execution
  on_execution-OnOk Q P m s h k = done (m s.1) h
    where
      done : (r : Result E A × Store) → OnOk Q r → OnOk P (on_execution f (λ _. r) s)
      done (ok a, t) q = k a t q
      done (err e, t) q = tt

-- A row of the execution store and the plan that its content makes, under its own hash.
pub record IsSnapshot (sha256 : Digest) (plan_id : String) (s : Store) (plan : ExecutionPlan)
    : Type 0 where
  pub row : PlanRow
  pub found : get_plan plan_id s ≡ some row
  pub rebuilt : rebuild sha256 row ≡ some plan
  pub same_hash : plan.plan_hash ≡ row.plan_hash

module _ (sha256 : Digest) (s : Both) where
  pub checked-OnOk :
      (row : PlanRow) (e : ServiceError)
      → OnOk
          (λ plan u.
            (u ≡ s) × ((rebuild sha256 row ≡ some plan) × (plan.plan_hash ≡ row.plan_hash)))
          (checked sha256 row e s)
  unfolding checked pure
  checked-OnOk row e = or_raise-OnOk _ (rebuild sha256 row) _ _ s λ plan made.
      raise_if-OnOk _ _ e _ s λ same. (refl, (made, same_text plan.plan_hash row.plan_hash same))

  snapshot_of-OnOk :
      (plan_id : String) (o : Option PlanRow)
      → get_plan plan_id s.1 ≡ o
      → OnOk
          (λ found u.
            (u ≡ s)
            × ((plan : ExecutionPlan) → found ≡ some plan → IsSnapshot sha256 plan_id s.1 plan))
          (snapshot_of sha256 o s)
  unfolding snapshot_of pure
  snapshot_of-OnOk plan_id none e = (refl, λ plan h. elim (none_some plan h) [ ])
    where
      none_some : (plan : ExecutionPlan) → none ≡ some plan → ⊥
      none_some plan h = cc
  snapshot_of-OnOk plan_id (some row) e = bind-OnOk _ _ _ _ s (checked-OnOk row _) λ plan u h. (
    h.0,
    λ other k. record {
      row = row;
      found = e;
      rebuilt = h.1.0 ∙ k;
      same_hash = ap ExecutionPlan.plan_hash (sym (some_inj plan other k)) ∙ h.1.1;
    },
  )

  pub need_snapshot-OnOk :
      (plan_id : String)
      → OnOk
          (λ plan u. (u ≡ s) × IsSnapshot sha256 plan_id s.1 plan)
          (need_snapshot sha256 plan_id s)
  unfolding need_snapshot get_snapshot or_raise
  need_snapshot-OnOk plan_id =
      bind-OnOk _
        (λ found u.
          (u ≡ s)
          × ((plan : ExecutionPlan) → found ≡ some plan → IsSnapshot sha256 plan_id s.1 plan))
        _ _ s (gets-OnOk _ _ _ s (snapshot_of-OnOk plan_id (get_plan plan_id s.1) refl))
        (λ found u h. there found u h)
    where
      there :
          (found : Option ExecutionPlan) (u : Both)
          → (u ≡ s)
            × ((plan : ExecutionPlan) → found ≡ some plan → IsSnapshot sha256 plan_id s.1 plan)
          → OnOk
              (λ plan v. (v ≡ s) × IsSnapshot sha256 plan_id s.1 plan)
              (or_raise found plan_not_found u)
      there none u h = tt
      there (some plan) u h = (h.0, h.1 plan refl)

  pub need_confirmation-OnOk :
      (cid : String)
      → OnOk (λ row u. (u ≡ s) × (get_confirmation cid s.1 ≡ some row)) (need_confirmation cid s)
  unfolding need_confirmation or_raise
  need_confirmation-OnOk cid = gets-OnOk _ _ _ s (there (get_confirmation cid s.1) refl)
    where
      there :
          (o : Option Confirmation)
          → get_confirmation cid s.1 ≡ o
          → OnOk
              (λ row u. (u ≡ s) × (get_confirmation cid s.1 ≡ some row))
              (or_raise o confirmation_not_found s)
      there none e = tt
      there (some row) e = (refl, e)
