-- ===== src/Orders/Gated.antt =====
-- execution/order_manager.py: nothing is consumed or sent that the pre-trade gate has not passed.
use mathlib.Core.Path.{subst}
use trading_cat.Base.{
  ℕ, String, ◌≡◌, refl, ap, ◌∙◌, Bool, true, Option, List, [], ◌∷◌, ◌⊎◌, inl, inr,
}
use trading_cat.Base.Action.{Result, ok, err, continue_with, ◌>>=◌, raise, when}
use trading_cat.Base.Action.Relates.{Relates, Relates-modify, IsPreorder, relates_rules}
use trading_cat.Base.Action.Outcome.{OnOk, always-OnOk, bind-OnOk, gets-OnOk}
use trading_cat.Models.{Decision, Digest}
use trading_cat.Store.{Store, Error, Method, Canary, AuditEvent, Entity}
use trading_cat.Store.AuditLog.{audit, write_audit}
use trading_cat.Store.Canaries.{
  update_canaries, close_rows, close_live_canaries_locked, close_live_canaries,
  close_expired_live_canaries,
}
use trading_cat.Risk.{Inputs, evaluate, reasons}
use trading_cat.Risk.Orders.{Reason}
use trading_cat.Risk.Sound.{IsSafe, evaluate-IsSafe}
use trading_cat.Orders.Consume.{Entry, notify}
use trading_cat.Orders.Submit.{
  Submission, submit, gate, decide_submission, act_on, reject_submission, check_broker,
  refuse_unknown, tidy_canaries, close_expired, close_all, risk_inputs, inputs_of, goes_out,
}

-- Plans, tickets, orders, the broker's orders and fills stay as they are.
pub record Kept (s t : Store) : Type 0 where
  pub plans : t.plans ≡ s.plans
  pub broker_orders : t.broker_orders ≡ s.broker_orders
  pub intents : t.intents ≡ s.intents
  pub confirmations : t.confirmations ≡ s.confirmations
  pub fills : t.fills ≡ s.fills

pub Kept-IsPreorder : IsPreorder Kept
Kept-IsPreorder = record {
  self = λ s. record {
    plans = refl;
    broker_orders = refl;
    intents = refl;
    confirmations = refl;
    fills = refl;
  };
  chain = λ s t u h k. record {
    plans = k.plans ∙ h.plans;
    broker_orders = k.broker_orders ∙ h.broker_orders;
    intents = k.intents ∙ h.intents;
    confirmations = k.confirmations ∙ h.confirmations;
    fills = k.fills ∙ h.fills;
  };
}

canaries-Kept :
    (p : Canary → Bool) (f : Canary → Canary) (s : Store) → Kept s (update_canaries p f s)
unfolding update_canaries
canaries-Kept p f s = record {
  plans = refl;
  broker_orders = refl;
  intents = refl;
  confirmations = refl;
  fills = refl;
}

audit-Kept : (event : AuditEvent) (entity : Entity) → Relates Kept (audit event entity)
unfolding audit write_audit
audit-Kept event entity = Relates-modify _ (λ s. record {
  plans = refl;
  broker_orders = refl;
  intents = refl;
  confirmations = refl;
  fills = refl;
})

ruleset rules = (Kept-IsPreorder, relates_rules, canaries-Kept, audit-Kept)

close_rows-Kept :
    (reason : String) (account : Option String) (p : Canary → Bool) (rs : List Canary)
    → Relates Kept (close_rows reason account p rs)
unfolding close_rows
close_rows-Kept reason account p [] = search rules
close_rows-Kept reason account p (r ∷ rs) = search rules depth 20

close_live_canaries-Kept :
    (reason : String) (account : Option String) → Relates Kept (close_live_canaries reason account)
unfolding close_live_canaries close_live_canaries_locked
close_live_canaries-Kept reason account = search (rules, close_rows-Kept) depth 20

close_expired_live_canaries-Kept :
    (account : Option String) (now : ℕ) → Relates Kept (close_expired_live_canaries account now)
unfolding close_expired_live_canaries close_live_canaries_locked
close_expired_live_canaries-Kept account now = search (rules, close_rows-Kept) depth 20

close_all-Kept : (reason : String) (q : Submission) → Relates Kept (close_all reason q)
unfolding close_all
close_all-Kept reason q = search (rules, close_live_canaries-Kept)

tidy_canaries-Kept : (q : Submission) → Relates Kept (tidy_canaries q)
unfolding tidy_canaries close_expired
tidy_canaries-Kept q = search (rules, close_all-Kept, close_expired_live_canaries-Kept) depth 20

refuse_unknown-Kept : (q : Submission) → Relates Kept (refuse_unknown q)
unfolding refuse_unknown
refuse_unknown-Kept q = search (rules, close_all-Kept) depth 20

check_broker-Kept : (q : Submission) → Relates Kept (check_broker q)
unfolding check_broker
check_broker-Kept q = search rules depth 20

reject_submission-Kept : (q : Submission) (rs : List Reason) → Relates Kept (reject_submission q rs)
unfolding reject_submission notify
reject_submission-Kept q rs = search (rules, close_all-Kept) depth 30

act_on-Kept : (q : Submission) (i : Inputs) (d : Decision) → Relates Kept (act_on q i d)
unfolding act_on
act_on-Kept q i Decision.pass = search rules
act_on-Kept q i Decision.reject = search (rules, reject_submission-Kept)

gate-Kept : (q : Submission) → Relates Kept (gate q)
unfolding gate decide_submission
gate-Kept q = search (rules, act_on-Kept) depth 20

when-gate-Kept : (q : Submission) → Relates Kept (when (goes_out q) (gate q))
when-gate-Kept q = search (rules, gate-Kept)

-- A method that never returns.
abbrev Raises : {A : Type 0} → Result Error A × Store → Type 0
Raises r = OnOk (λ _ _. ⊥) r

module _ {A B : Type 0} (s : Store) where
  continued-Kept :
      (f : A → Method B) (r : Result Error A × Store)
      → Kept s r.1
      → ((a : A) (w : Store) → Kept s w → Kept s (f a w).1 × Raises (f a w))
      → Kept s (continue_with f r).1 × Raises (continue_with f r)
  continued-Kept f (ok a, w) h k = k a w h
  continued-Kept f (err e, w) h k = (h, tt)

  -- What keeps comes first; the rest keeps too and raises.
  pass_on :
      (m : Method A) (f : A → Method B) (u : Store)
      → Relates Kept m
      → Kept s u
      → ((a : A) (w : Store) → Kept s w → Kept s (f a w).1 × Raises (f a w))
      → Kept s ((m >>= f) u).1 × Raises ((m >>= f) u)
  unfolding ◌>>=◌
  pass_on m f u hm hu k = continued-Kept f (m u) (Kept-IsPreorder.chain s u (m u).1 hu (hm.at u)) k

  stopped :
      (f : A → Method B) (r : Result Error A × Store)
      → Kept s r.1
      → Raises r
      → Kept s (continue_with f r).1 × Raises (continue_with f r)
  stopped f (ok a, w) h k = elim k [ ]
  stopped f (err e, w) h k = (h, tt)

  stop_at :
      (m : Method A) (f : A → Method B) (u : Store)
      → Relates Kept m
      → Kept s u
      → Raises (m u)
      → Kept s ((m >>= f) u).1 × Raises ((m >>= f) u)
  unfolding ◌>>=◌
  stop_at m f u hm hu k = stopped f (m u) (Kept-IsPreorder.chain s u (m u).1 hu (hm.at u)) k

module _ (q : Submission) where
  reject_submission-Raises : (rs : List Reason) (u : Store) → Raises (reject_submission q rs u)
  unfolding reject_submission raise
  reject_submission-Raises rs u =
      bind-OnOk _ (λ _ _. Unit) _ _ u (always-OnOk _ (λ _ _. tt) _)
        λ _ v _. bind-OnOk _ (λ _ _. Unit) _ _ v (always-OnOk _ (λ _ _. tt) _) λ _ w _. tt

  act_on-Raises :
      (i : Inputs) (d : Decision) (u : Store) → d ≡ Decision.reject → Raises (act_on q i d u)
  unfolding act_on
  act_on-Raises i Decision.pass u h = cc
  act_on-Raises i Decision.reject u h = reject_submission-Raises (reasons i) u

  gate-Raises : (u : Store) → evaluate (risk_inputs q u) ≡ Decision.reject → Raises (gate q u)
  unfolding gate decide_submission
  gate-Raises u h = gets-OnOk _ _ _ u (
      bind-OnOk _ (λ _ _. Unit) _ _ u (always-OnOk _ (λ _ _. tt) _)
        λ _ v _. act_on-Raises (risk_inputs q u) (evaluate (risk_inputs q u)) v h)

  same_inputs : (s u : Store) → Kept s u → risk_inputs q u ≡ risk_inputs q s
  unfolding risk_inputs
  same_inputs s u h = ap (inputs_of q) h.intents

  module _ (sha256 : Digest) (s : Store) (out : goes_out q ≡ true)
      (rejected : evaluate (risk_inputs q s) ≡ Decision.reject) where
    gated-Raises : (u : Store) → Kept s u → Raises (when (goes_out q) (gate q) u)
    unfolding when
    gated-Raises u h = rw out (gate-Raises u (ap evaluate (same_inputs s u h) ∙ rejected))

    submit-stops : Kept s (submit sha256 q s).1 × Raises (submit sha256 q s)
    unfolding submit
    submit-stops = pass_on s _ _ s (search rules) (Kept-IsPreorder.self s) λ _ t ht.
        pass_on s _ _ t (search (rules, tidy_canaries-Kept)) ht λ _ u hu.
          pass_on s _ _ u (refuse_unknown-Kept q) hu λ _ v hv.
            pass_on s _ _ v (check_broker-Kept q) hv
              λ _ w hw. stop_at s _ _ w (when-gate-Kept q) hw (gated-Raises w hw)

-- A run that raised, and what it left.
pub record IsStopped (s : Store) (r : Result Error (List Entry) × Store) : Type 0 where
  pub error : Error
  pub after : Store
  pub raised : r ≡ (err error, after)
  pub kept : Kept s after

raised-IsStopped :
    (s : Store) (r : Result Error (List Entry) × Store) → Kept s r.1 → Raises r → IsStopped s r
raised-IsStopped s (ok es, t) h k = elim k [ ]
raised-IsStopped s (err e, t) h k = record { error = e; after = t; raised = refl; kept = h }

-- A PAPER or LIVE submission that the gate rejects at the store raises, and leaves every plan, ticket,
-- order, fill and row of the broker's orders as it was.
pub submit_rejected :
    (sha256 : Digest) (q : Submission) (s : Store)
    → goes_out q ≡ true
    → evaluate (risk_inputs q s) ≡ Decision.reject
    → IsStopped s (submit sha256 q s)
submit_rejected sha256 q s out rejected =
    let h = submit-stops q sha256 s out rejected in raised-IsStopped s (submit sha256 q s) h.0 h.1

pub decision-cases : (d : Decision) → (d ≡ Decision.pass) ⊎ (d ≡ Decision.reject)
decision-cases Decision.pass = inl refl
decision-cases Decision.reject = inr refl

never_ok :
    (es : List Entry) (t : Store) (r : Result Error (List Entry) × Store)
    → r ≡ (ok es, t)
    → Raises r
    → ⊥
never_ok es t r h k = subst Raises h k

-- A PAPER or LIVE submission that returns was safe at the store that it started from: all that the
-- gate's soundness lists, with the counts of pending and unknown orders of that store.
pub submit-IsSafe :
    (sha256 : Digest) (q : Submission) (s t : Store) (es : List Entry)
    → goes_out q ≡ true
    → submit sha256 q s ≡ (ok es, t)
    → IsSafe (risk_inputs q s)
submit-IsSafe sha256 q s t es out h = elim (decision-cases (evaluate (risk_inputs q s))) [
  | inl passed ↦ evaluate-IsSafe (risk_inputs q s) passed
  | inr rejected ↦ elim (never_ok es t _ h (submit-stops q sha256 s out rejected).1) [ ]
]
