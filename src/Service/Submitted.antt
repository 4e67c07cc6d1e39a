-- ===== src/Service/Submitted.antt =====
-- execution/service.py: what holds once a known plan has been handed to its broker.
use mathlib.Core.Path.{subst}
use trading_cat.Base.{
  same_text, ℕ, ◌≡◌, refl, sym, ◌∙◌, Bool, true, false, not, ◌||◌, Option, none, some, List,
}
use trading_cat.Base.Action.{Result, ok, err, Action, pure, raise, raise_if, catch, handled}
use trading_cat.Base.Action.Outcome.{OnOk, bind-OnOk, gets-OnOk, raise_if-OnOk, if-OnOk}
use trading_cat.Models.{ExecutionPlan, Confirmation, Mode, Digest}
use trading_cat.Store.{Store, Error}
use trading_cat.Store.Confirmations.{is_approved}
use trading_cat.Orders.Consume.{Entry}
use trading_cat.Orders.Submit.{
  Broker, paper_broker, live_broker, Submission, submit, goes_out, risk_inputs,
}
use trading_cat.Orders.Gated.{submit-IsSafe}
use trading_cat.Risk.Sound.{IsSafe}
use trading_cat.Brokers.Live.{is_live, is_proven}
use trading_cat.Brokers.Paper.{is_paper}
use trading_cat.Service.{Both, ServiceError, in_store}
use trading_cat.Service.Checks.{on_execution-OnOk}
use trading_cat.Service.Execution.{
  Config, live_broker_of, paper_broker_of, broker_of, Outcome, submitted, outcome_unknown,
  is_unknown_outcome, if_unknown, submission_of, submit_plan, check_approved, execute_known,
  check_binding,
}

catch-OnOk :
    {E S A : Type 0} (P : A → S → Type 0) (m : Action E S A) (h : E → Action E S A) (s : S)
    → OnOk P (m s)
    → ((e : E) (t : S) → OnOk P (h e t))
    → OnOk P (catch m h s)
unfolding catch
catch-OnOk P m h s k next = done (m s) k
  where
    done : (r : Result _ _ × _) → OnOk P r → OnOk P (handled h r)
    done (ok a, t) p = p
    done (err e, t) p = next e t

module _ (sha256 : Digest) where
  live_broker_of-OnOk : (o : Option Broker) (s : Both) → OnOk (λ _ u. u ≡ s) (live_broker_of o s)
  unfolding live_broker_of raise pure
  live_broker_of-OnOk none s = tt
  live_broker_of-OnOk (some paper_broker) s = tt
  live_broker_of-OnOk (some (live_broker b)) s =
      raise_if-OnOk _ _ _ _ s
        λ _. raise_if-OnOk _ _ _ _ s λ _. gets-OnOk _ _ _ s (raise_if-OnOk _ _ _ _ s λ _. refl)

  paper_broker_of-OnOk : (o : Option Broker) (s : Both) → OnOk (λ _ u. u ≡ s) (paper_broker_of o s)
  unfolding paper_broker_of raise pure
  paper_broker_of-OnOk none s = refl
  paper_broker_of-OnOk (some paper_broker) s = refl
  paper_broker_of-OnOk (some (live_broker b)) s = tt

  with_mode :
      {A : Type 0} (b : Bool)
      → b ≡ true
      → (s : Both) (r : Result ServiceError A × Both) → OnOk (λ _ u. u ≡ s) r
      → OnOk (λ _ u. (u ≡ s) × (b ≡ true)) r
  with_mode b e s (ok a, u) h = (h, e)
  with_mode b e s (err x, u) h = tt

  pub broker_of-OnOk :
      (m : Mode) (o : Option Broker) (s : Both)
      → OnOk (λ _ u. (u ≡ s) × (is_paper m || is_live m ≡ true)) (broker_of m o s)
  unfolding broker_of raise
  broker_of-OnOk Mode.paper o s =
      with_mode (is_paper Mode.paper) refl s _ (paper_broker_of-OnOk o s)
  broker_of-OnOk Mode.live o s = with_mode (is_live Mode.live) refl s _ (live_broker_of-OnOk o s)
  broker_of-OnOk Mode.dry_run o s = tt
  broker_of-OnOk (Mode.other x) o s = tt

  pub check_binding-OnOk :
      (plan : ExecutionPlan) (row : Confirmation) (s : Both)
      → OnOk
          (λ _ u.
            (u ≡ s)
            × ((row.plan_id ≡ plan.plan_id)
                × ((row.plan_hash ≡ plan.plan_hash) × (is_proven row.approval_channel ≡ true))))
          (check_binding plan row s)
  unfolding check_binding raise_if
  check_binding-OnOk plan row s = raise_if-OnOk _ _ _ _ s λ a. raise_if-OnOk _ _ _ _ s λ b.
      last (is_proven row.approval_channel) refl (same_text row.plan_id plan.plan_id a)
        (same_text row.plan_hash plan.plan_hash b)
    where
      last :
          (p : Bool)
          → is_proven row.approval_channel ≡ p
          → row.plan_id ≡ plan.plan_id
          → row.plan_hash ≡ plan.plan_hash
          → OnOk
              (λ _ u.
                (u ≡ s)
                × ((row.plan_id ≡ plan.plan_id)
                    × ((row.plan_hash ≡ plan.plan_hash) × (is_proven row.approval_channel ≡ true))))
              (raise_if (not p) ServiceError.not_proven s)
      last true e a b = (refl, (a, (b, e)))
      last false e a b = tt

  check_approved-OnOk : (row : Confirmation) (s : Both) → OnOk (λ _ u. u ≡ s) (check_approved row s)
  unfolding check_approved raise pure
  check_approved-OnOk row s = if-OnOk _ (is_approved row.status) _ _ s (λ _. refl) (λ _. tt)

  module _ (q : Submission) (out : goes_out q ≡ true) (s : Store) where
    submitted-IsSafe :
        (r : Result Error (List Entry) × Store)
        → submit sha256 q s ≡ r
        → OnOk (λ _ _. IsSafe (risk_inputs q s)) r
    submitted-IsSafe (ok es, t) e = submit-IsSafe sha256 q s t es out e
    submitted-IsSafe (err x, t) e = tt

  -- A submission, if it was one.
  abbrev pub Ran : Config → ExecutionPlan → Confirmation → ℕ → Both → Outcome → Both → Type 0
  Ran config plan row now s (submitted es) t =
      (broker : Broker) × (IsSafe (risk_inputs (submission_of config plan row broker s.0 now) s.1)
        × (t.0 ≡ s.0))
  Ran config plan row now s outcome_unknown t = Unit

  if_unknown-OnOk :
      (config : Config) (plan : ExecutionPlan) (row : Confirmation) (now : ℕ) (s : Both)
      (e : ServiceError) (t : Both)
      → OnOk (Ran config plan row now s) (if_unknown e t)
  unfolding if_unknown pure raise
  if_unknown-OnOk config plan row now s e t =
      if-OnOk (Ran config plan row now s) (is_unknown_outcome e) (pure outcome_unknown) (raise e) t
        (λ _. tt) (λ _. tt)

  submit_plan-OnOk :
      (config : Config) (plan : ExecutionPlan) (row : Confirmation) (now : ℕ) (s : Both)
      (broker : Broker) (q : Submission)
      → q ≡ submission_of config plan row broker s.0 now
      → goes_out q ≡ true
      → OnOk (Ran config plan row now s) (submit_plan sha256 q s)
  unfolding submit_plan pure
  submit_plan-OnOk config plan row now s broker q e out =
      bind-OnOk _
        (λ _ u.
          IsSafe (risk_inputs (submission_of config plan row broker s.0 now) s.1) × (u.0 ≡ s.0))
        _ _ s
        (on_execution-OnOk in_store _ _ _ s (submitted-IsSafe q out s.1 (submit sha256 q s.1) refl)
          (λ es t h. (subst (λ x. IsSafe (risk_inputs x s.1)) e h, refl)))
        (λ es u h. (broker, h))

  pub execute_known-OnOk :
      (config : Config) (plan : ExecutionPlan) (row : Confirmation) (now : ℕ) (s : Both)
      → OnOk (Ran config plan row now s) (execute_known sha256 config plan row now s)
  unfolding execute_known
  execute_known-OnOk config plan row now s =
      bind-OnOk _ (λ _ u. u ≡ s) _ _ s (check_approved-OnOk row s)
        λ _ u₁ e₁. gets-OnOk _ _ _ u₁ (
          bind-OnOk _ _ _ _ u₁ (broker_of-OnOk plan.execution_mode config.broker u₁) λ broker u₂ h₂.
            subst
              (λ u. OnOk (Ran config plan row now s) (
                catch (submit_plan sha256 (submission_of config plan row broker u₁.0 now))
                  if_unknown u))
              (sym (h₂.0 ∙ e₁))
              (subst
                (λ u. OnOk (Ran config plan row now s) (
                  catch (submit_plan sha256 (submission_of config plan row broker u.0 now))
                    if_unknown s))
                (sym e₁) (ran broker h₂.1)))
    where
      handled_unknown :
          (e : ServiceError) (t : Both) → OnOk (Ran config plan row now s) (if_unknown e t)
      handled_unknown e t = if_unknown-OnOk config plan row now s e t

      ran :
          (broker : Broker)
          → is_paper plan.execution_mode || is_live plan.execution_mode ≡ true
          → OnOk (Ran config plan row now s) (
              catch
                (submit_plan sha256 (submission_of config plan row broker s.0 now))
                if_unknown
                s)
      ran broker out =
          catch-OnOk _ _ _ s
            (submit_plan-OnOk config plan row now s broker
              (submission_of config plan row broker s.0 now) refl out)
            handled_unknown
