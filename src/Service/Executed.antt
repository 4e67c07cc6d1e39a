-- ===== src/Service/Executed.antt =====
-- execution/service.py: what `execute` has checked once it has submitted a plan.
use mathlib.Core.Path.{subst}
use trading_cat.Base.{ℕ, String, ◌≡◌, ap, ◌∙◌, true, false, some, List, any}
use trading_cat.Base.Action.{Result, ok, err, pure}
use trading_cat.Base.Action.Outcome.{OnOk, bind-OnOk, gets-OnOk, raise_if-OnOk, if-OnOk}
use trading_cat.Models.{ExecutionPlan, Confirmation, Digest}
use trading_cat.Store.Confirmations.{get_confirmation}
use trading_cat.Store.Intents.{list_intents}
use trading_cat.Orders.Consume.{Entry}
use trading_cat.Orders.Submit.{Broker, is_unknown, risk_inputs}
use trading_cat.Risk.Sound.{IsSafe}
use trading_cat.Brokers.Live.{is_proven}
use trading_cat.Service.{Both, ServiceError}
use trading_cat.Service.Checks.{IsSnapshot, need_snapshot-OnOk, need_confirmation-OnOk}
use trading_cat.Service.Execution.{
  Config, Outcome, submitted, outcome_unknown, submission_of, execute,
}
use trading_cat.Service.Submitted.{check_binding-OnOk, Ran, execute_known-OnOk}

-- What stands behind a plan that is submitted.
pub record IsGated (sha256 : Digest) (config : Config) (plan_id cid : String) (now : ℕ) (s t : Both)
    : Type 0 where
  pub plan : ExecutionPlan
  pub snapshot : IsSnapshot sha256 plan_id s.1 plan
  pub row : Confirmation
  pub found : get_confirmation cid s.1 ≡ some row
  pub same_plan : row.plan_id ≡ plan.plan_id
  pub same_hash : row.plan_hash ≡ plan.plan_hash
  pub proven : is_proven row.approval_channel ≡ true
  pub none_unknown : any is_unknown (list_intents plan.plan_id s.1) ≡ false
  pub broker : Broker
  pub safe : IsSafe (risk_inputs (submission_of config plan row broker s.0 now) s.1)
  pub same_core : t.0 ≡ s.0

module _ (sha256 : Digest) where
  module _ (config : Config) (plan_id cid : String) (now : ℕ) (s : Both) where
    -- The result, if the plan was submitted.
    abbrev Done : Outcome → Both → Type 0
    Done (submitted es) t = IsGated sha256 config plan_id cid now s t
    Done outcome_unknown t = Unit

    module _ (plan : ExecutionPlan) (row : Confirmation) (shot : IsSnapshot sha256 plan_id s.1 plan)
        (found : get_confirmation cid s.1 ≡ some row)
        (tied : (row.plan_id ≡ plan.plan_id)
          × ((row.plan_hash ≡ plan.plan_hash) × (is_proven row.approval_channel ≡ true))) where
      ended :
          (u : Both)
          → u ≡ s
          → any is_unknown (list_intents plan.plan_id u.1) ≡ false
          → (r : Result ServiceError Outcome × Both) → OnOk (Ran sha256 config plan row now u) r
          → OnOk Done r
      ended u e known (ok (submitted es), t) h = record {
        plan = plan;
        snapshot = shot;
        row = row;
        found = found;
        same_plan = tied.0;
        same_hash = tied.1.0;
        proven = tied.1.1;
        none_unknown = subst (λ x. any is_unknown (list_intents plan.plan_id x.1) ≡ false) e known;
        broker = h.0;
        safe =
            subst (λ x. IsSafe (risk_inputs (submission_of config plan row h.0 x.0 now) x.1)) e
              h.1.0;
        same_core = h.1.1 ∙ ap (λ x. x.0) e;
      }
      ended u e known (ok outcome_unknown, t) h = tt
      ended u e known (err x, t) h = tt

    execute-OnOk : OnOk Done (execute sha256 config plan_id cid now s)
    unfolding execute pure
    execute-OnOk = raise_if-OnOk _ _ _ _ s λ _.
        bind-OnOk _ _ _ _ s (need_snapshot-OnOk sha256 s plan_id) λ plan u₁ h₁.
          bind-OnOk _ _ _ _ u₁ (need_confirmation-OnOk sha256 u₁ cid) λ row u₂ h₂.
            bind-OnOk _ _ _ _ u₂ (check_binding-OnOk sha256 plan row u₂) λ _ u₃ h₃.
              gets-OnOk _ _ _ u₃ (
                if-OnOk _ (any is_unknown (list_intents plan.plan_id u₃.1)) _ _ u₃ (λ _. tt)
                  λ known.
                    ended plan row h₁.1 (subst (λ u. get_confirmation cid u.1 ≡ some row) h₁.0 h₂.1)
                      h₃.1 u₃ (h₃.0 ∙ (h₂.0 ∙ h₁.0)) known _
                      (execute_known-OnOk sha256 config plan row now u₃))

-- If `execute` submits a plan, then the execution store holds its snapshot under the hash that its content
-- gives, the ticket is of this plan and this hash and was approved by a verified proof, no order of the
-- plan is UNKNOWN, and the pre-trade gate passed it at the account that the core store holds, which was
-- SYNCED; the core store is left alone.
pub execute-IsGated :
    (sha256 : Digest) (config : Config) (plan_id cid : String) (now : ℕ) (s t : Both)
    (es : List Entry)
    → execute sha256 config plan_id cid now s ≡ (ok (submitted es), t)
    → IsGated sha256 config plan_id cid now s t
execute-IsGated sha256 config plan_id cid now s t es h =
    subst (OnOk (Done sha256 config plan_id cid now s)) h
      (execute-OnOk sha256 config plan_id cid now s)
