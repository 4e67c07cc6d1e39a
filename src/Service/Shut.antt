-- ===== src/Service/Shut.antt =====
-- execution/service.py and shared/account.py: an account that is a mismatch stays out of trading.
use mathlib.Core.Path.{subst}
use trading_cat.Base.{
  some_inj, absurd_of, ℕ, String, ◌≡◌, ◌≢◌, refl, sym, ap, ◌∙◌, Bool, true, false, ◌||◌, any, none,
  some, List, inl, inr, if◌then◌else◌,
}
use trading_cat.Base.Action.{Result, ok, err, pure}
use trading_cat.Base.Action.Outcome.{always-OnOk, bind-keeps, gets-keeps, raise_if-keeps}
use trading_cat.Models.{ExecutionPlan, Confirmation, Decision, Digest, new_plan, is_execution_mode}
use trading_cat.Store.{Store, PlanRow}
use trading_cat.Store.Plans.{get_plan}
use trading_cat.Store.Intents.{list_intents}
use trading_cat.Brokers.Live.{is_live}
use trading_cat.Brokers.Paper.{is_paper}
use trading_cat.Orders.Consume.{Entry}
use trading_cat.Orders.Submit.{Broker, submit, is_unknown, risk_inputs, inputs_of}
use trading_cat.Orders.Gated.{Kept, submit_rejected, decision-cases}
use trading_cat.Risk.{SyncStatus, evaluate}
use trading_cat.Risk.Sound.{evaluate-IsSafe}
use trading_cat.Core.{Core}
use trading_cat.Core.Accounts.{get_account, is_mismatch, list_account_positions}
use trading_cat.Core.Sync.Loading.{load, load_row}
use trading_cat.Core.Sync.{Client, Securities}
use trading_cat.Core.Sync.Account.{sync_account}
use trading_cat.Core.Sync.Rows.{InMismatch}
use trading_cat.Core.Sync.Closed.{sync_account-InMismatch}
use trading_cat.Service.{Both, ServiceError, in_store, rebuild, need_snapshot, need_confirmation}
use trading_cat.Service.Checks.{IsSnapshot, need_snapshot-OnOk}
use trading_cat.Service.Execution.{
  Config, Outcome, submitted, outcome_unknown, broker_of, submission_of, submit_plan, execute_known,
  check_binding, execute,
}
use trading_cat.Service.Submitted.{broker_of-OnOk}
use trading_cat.Service.Executed.{execute-IsGated}
use trading_cat.Service.Rests.{
  Rests, Rests-IsPreorder, need_snapshot-Rests, need_confirmation-Rests, check_binding-Rests,
  check_approved-Rests, broker_of-Rests, on_execution-Rests, caught-Rests,
}

-- The account of the plan that a row makes.
rebuild_account :
    (sha256 : Digest) (row : PlanRow) (plan : ExecutionPlan)
    → rebuild sha256 row ≡ some plan
    → plan.account_id ≡ row.account_id
unfolding rebuild new_plan
rebuild_account sha256 row plan h = made (is_execution_mode row.execution_mode) _ h
  where
    made :
        (b : Bool) (x : ExecutionPlan)
        → (if b then some x else none) ≡ some plan
        → plan.account_id ≡ x.account_id
    made true x k = ap ExecutionPlan.account_id (sym (some_inj x plan k))
    made false x k = cc

load_mismatch :
    (account : String) (s : Core)
    → InMismatch account s
    → (load account s).sync_status ≢ SyncStatus.synced
unfolding load
load_mismatch account s m h = absurd_of (sym (ap is_mismatch (sym status ∙ h)) ∙ m.1.1)
  where
    status :
        (load_row (get_account account s) (list_account_positions account s)).sync_status
        ≡ m.0.sync_status
    status = rw m.1.0 refl

-- Nothing is returned as submitted.
no_submission :
    (sha256 : Digest) (config : Config) (plan_id cid : String) (now sync_now : ℕ) (s t : Both)
    (es : List Entry) (client : Client) (securities : Securities) (key : String) (row : PlanRow)
    → get_plan plan_id s.1 ≡ some row
    → InMismatch row.account_id s.0
    → execute sha256 config plan_id cid now
        ((sync_account client securities row.account_id key sync_now s.0).1, s.1)
      ≢ (ok (submitted es), t)
unfolding risk_inputs inputs_of
no_submission sha256 config plan_id cid now sync_now s t es client securities key row found m h =
    let g =
      execute-IsGated sha256 config plan_id cid now
        ((sync_account client securities row.account_id key sync_now s.0).1, s.1) t es h in
    let same : g.plan.account_id ≡ row.account_id =
      rebuild_account sha256 g.snapshot.row g.plan g.snapshot.rebuilt
      ∙ ap (λ r. r.account_id) (some_inj g.snapshot.row row (sym g.snapshot.found ∙ found)) in
    let loaded : load g.plan.account_id
          (sync_account client securities row.account_id key sync_now s.0).1
        ≡ g.safe.account =
      some_inj _ _ g.safe.account_given in
    load_mismatch row.account_id (sync_account client securities row.account_id key sync_now s.0).1
      (sync_account-InMismatch client securities row.account_id key sync_now s.0 m)
      (ap
          (λ a.
            (load a (sync_account client securities row.account_id key sync_now s.0).1).sync_status)
          (sym same)
        ∙ (ap (λ a. a.sync_status) loaded ∙ g.safe.synced))

module _ (sha256 : Digest) (config : Config) (plan : ExecutionPlan) (row : Confirmation)
    (now : ℕ) where
  -- The gate rejects the submission of a plan whose account is a mismatch.
  rejected :
      (broker : Broker) (core : Core) (s : Store)
      → InMismatch plan.account_id core
      → evaluate (risk_inputs (submission_of config plan row broker core now) s) ≡ Decision.reject
  unfolding risk_inputs inputs_of
  rejected broker core s m =
      elim (decision-cases
        (evaluate (risk_inputs (submission_of config plan row broker core now) s))) [
          | inl passed ↦
              let g =
                evaluate-IsSafe (risk_inputs (submission_of config plan row broker core now) s)
                  passed in
              elim (load_mismatch plan.account_id core m
                (ap (λ a. a.sync_status) (some_inj _ _ g.account_given) ∙ g.synced)) [ ]
          | inr no_pass ↦ no_pass
        ]

  submit_plan-Rests :
      (broker : Broker) (core : Core) (u : Both)
      → InMismatch plan.account_id core
      → is_paper plan.execution_mode || is_live plan.execution_mode ≡ true
      → Rests u (submit_plan sha256 (submission_of config plan row broker core now) u).1
  unfolding submit_plan pure
  submit_plan-Rests broker core u m out =
      let q = submission_of config plan row broker core now in
      let stop = submit_rejected sha256 q u.1 out (rejected broker core u.1 m) in
      bind-keeps (Rests u) (λ _ _. Unit) _ _ u
        (on_execution-Rests in_store (submit sha256 q) u
          (subst (λ r. Kept u.1 r.1) (sym stop.raised) stop.kept))
        (always-OnOk _ (λ _ _. tt) _)
        (λ es t k _. Rests-IsPreorder.chain u t t k (Rests-IsPreorder.self t))

  execute_known-Rests :
      (u : Both)
      → InMismatch plan.account_id u.0
      → Rests u (execute_known sha256 config plan row now u).1
  unfolding execute_known
  execute_known-Rests u m =
      bind-keeps (Rests u) (λ _ _. Unit) _ _ u ((check_approved-Rests row).at u)
        (always-OnOk _ (λ _ _. tt) _)
        λ _ v k _. gets-keeps (Rests u) _ _ v (
          bind-keeps (Rests u) _ (broker_of plan.execution_mode config.broker) _ v
            (Rests-IsPreorder.chain u v _ k
              ((broker_of-Rests plan.execution_mode config.broker).at v))
            (broker_of-OnOk sha256 plan.execution_mode config.broker v)
            λ broker w l h.
              caught-Rests (submit_plan sha256 (submission_of config plan row broker v.0 now)) u w l
                (submit_plan-Rests broker v.0 w (subst (InMismatch plan.account_id) (sym k.core) m)
                  h.1))

-- A run that submitted nothing.
abbrev pub NotSubmitted : Result ServiceError Outcome × Both → Type 0
NotSubmitted (ok (submitted es), t) = ⊥
NotSubmitted (ok outcome_unknown, t) = Unit
NotSubmitted (err e, t) = Unit

pub record IsRefused (s : Store) (r : Result ServiceError Outcome × Both) : Type 0 where
  pub not_submitted : NotSubmitted r
  pub kept : Kept s r.1.1

module _ (sha256 : Digest) (config : Config) (plan_id cid : String) (now : ℕ) (s : Both)
    (row : PlanRow) (found : get_plan plan_id s.1 ≡ some row)
    (shut : InMismatch row.account_id s.0) where
  of_plan :
      (plan : ExecutionPlan) (u : Both)
      → IsSnapshot sha256 plan_id s.1 plan
      → Rests s u
      → InMismatch plan.account_id u.0
  of_plan plan u shot k =
      let same : row.account_id ≡ plan.account_id = sym (
        rebuild_account sha256 shot.row plan shot.rebuilt
        ∙ ap (λ r. r.account_id) (some_inj shot.row row (sym shot.found ∙ found))) in
      subst (InMismatch plan.account_id) (sym k.core) (subst (λ a. InMismatch a s.0) same shut)

  execute-Rests : Rests s (execute sha256 config plan_id cid now s).1
  unfolding execute pure
  execute-Rests = raise_if-keeps (Rests s) _ _ _ s (Rests-IsPreorder.self s) λ _.
      bind-keeps (Rests s) _ (need_snapshot sha256 plan_id) _ s
        ((need_snapshot-Rests sha256 plan_id).at s) (need_snapshot-OnOk sha256 s plan_id)
        λ plan u₁ k₁ h₁.
          bind-keeps (Rests s) (λ _ _. Unit) (need_confirmation cid) _ u₁
            (Rests-IsPreorder.chain s u₁ _ k₁ ((need_confirmation-Rests cid).at u₁))
            (always-OnOk _ (λ _ _. tt) _)
            λ ticket u₂ k₂ _.
              bind-keeps (Rests s) (λ _ _. Unit) (check_binding plan ticket) _ u₂
                (Rests-IsPreorder.chain s u₂ _ k₂ ((check_binding-Rests plan ticket).at u₂))
                (always-OnOk _ (λ _ _. tt) _)
                λ _ u₃ k₃ _.
                  gets-keeps (Rests s) _ _ u₃
                    (ended plan ticket u₃ k₃ h₁.1 (any is_unknown (list_intents plan.plan_id u₃.1)))
    where
      ended :
          (plan : ExecutionPlan) (ticket : Confirmation) (u : Both)
          → Rests s u
          → IsSnapshot sha256 plan_id s.1 plan
          → (b : Bool)
          → Rests s
              ((if b then pure outcome_unknown else execute_known sha256 config plan ticket now)
                u).1
      ended plan ticket u k shot true = k
      ended plan ticket u k shot false =
          Rests-IsPreorder.chain s u _ k
            (execute_known-Rests sha256 config plan ticket now u (of_plan plan u shot k))

-- A plan in the execution store whose account is a mismatch in the core store stays out of trading: after
-- any `sync_account`, whatever the broker answers, `execute` of the plan does not return SUBMITTED, and
-- whether it returns or raises, every plan, ticket, order, fill and row of the broker's orders is as it was.
pub execute_mismatch :
    (sha256 : Digest) (config : Config) (plan_id cid : String) (now sync_now : ℕ) (s : Both)
    (client : Client) (securities : Securities) (key : String) (row : PlanRow)
    → get_plan plan_id s.1 ≡ some row
    → InMismatch row.account_id s.0
    → IsRefused s.1 (
        execute sha256 config plan_id cid now
          ((sync_account client securities row.account_id key sync_now s.0).1, s.1))
execute_mismatch sha256 config plan_id cid now sync_now s client securities key row found m =
    let synced : Both = ((sync_account client securities row.account_id key sync_now s.0).1, s.1) in
    record {
      not_submitted = refused (execute sha256 config plan_id cid now synced) refl;
      kept =
          (execute-Rests sha256 config plan_id cid now synced row found
            (sync_account-InMismatch client securities row.account_id key sync_now s.0 m)).kept;
    }
  where
    refused :
        (r : Result ServiceError Outcome × Both)
        → execute sha256 config plan_id cid now
            ((sync_account client securities row.account_id key sync_now s.0).1, s.1)
          ≡ r
        → NotSubmitted r
    refused (ok (submitted es), t) e =
        no_submission sha256 config plan_id cid now sync_now s t es client securities key row found
          m e
    refused (ok outcome_unknown, t) e = tt
    refused (err x, t) e = tt
