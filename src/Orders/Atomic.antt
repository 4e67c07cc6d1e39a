-- ===== src/Orders/Atomic.antt =====
-- execution/order_manager.py: `consume` does all of its work or nothing.
use mathlib.Core.Path.{subst}
use trading_cat.Base.{ℕ, ◌≡◌, refl, ◌∙◌, not, ◌&&◌, List, [], ◌∷◌, str_eq, Bool-cases, inl, inr}
use trading_cat.Base.Action.{Result, err, ◌>>=◌, pure}
use trading_cat.Base.Action.Outcome.{
  OnErr, IsTotal, immediate_transaction-OnErr, gets-OnErr, raise_if-OnErr, bind_total-OnErr,
}
use trading_cat.Base.Action.Relates.{Relates, IsPreorder, relates_rules}
use trading_cat.Evolution.{Same}
use trading_cat.Brokers.Live.{is_live, is_proven}
use trading_cat.Models.{ExecutionPlan, Confirmation, Digest, compute_plan_hash}
use trading_cat.Store.{Store, Error, Intent}
use trading_cat.Store.AuditLog.{audit}
use trading_cat.Store.Intents.{list_intents}
use trading_cat.Orders.Consume.{
  Entry, Outcome, consume, consume_or_return, consume_new, consume_body, return_existing, finish,
  notify,
}

finish-IsTotal : (plan : ExecutionPlan) (o : Outcome) (s : Store) → IsTotal (finish plan o s)
unfolding finish notify audit ◌>>=◌
finish-IsTotal plan (Outcome.already es) s = tt
finish-IsTotal plan (Outcome.created es) s = tt

returned-OnErr : (es : List Entry) (s : Store) → OnErr {E = Error} s (pure es s)
unfolding ◌>>=◌
returned-OnErr es s = tt

module _ (plan : ExecutionPlan) (c : Confirmation) (now : ℕ) (s : Store) where
  consume_new-OnErr : OnErr s (consume_new plan c now s)
  unfolding consume_new
  consume_new-OnErr = raise_if-OnErr _ _ _ s (
      bind_total-OnErr _ _ s (immediate_transaction-OnErr (consume_body plan c now) s)
        (finish-IsTotal plan))

  consume_or_return-OnErr : (is : List Intent) → OnErr s (consume_or_return plan c now is s)
  unfolding consume_or_return return_existing
  consume_or_return-OnErr [] = consume_new-OnErr
  consume_or_return-OnErr (i ∷ is) =
      gets-OnErr _ _ s (raise_if-OnErr _ _ _ s (raise_if-OnErr _ _ _ s (returned-OnErr _ s)))

  consume-OnErr : (sha256 : Digest) → OnErr s (consume sha256 plan c now s)
  unfolding consume
  consume-OnErr sha256 = raise_if-OnErr _ _ _ s (
      raise_if-OnErr _ _ _ s
        (gets-OnErr _ _ s (consume_or_return-OnErr (list_intents plan.plan_id s))))

Same-IsPreorder : IsPreorder {S = Store} Same
Same-IsPreorder = record { self = λ s. refl; chain = λ s t u h k. k ∙ h }

return_existing-keeps :
    (plan : ExecutionPlan) (c : Confirmation) (is : List Intent)
    → Relates Same (return_existing plan c is)
unfolding return_existing
return_existing-keeps plan c is = search (Same-IsPreorder, relates_rules) depth 20

raised :
    {A : Type 0} (s t : Store) (e : Error) (r : Result Error A × Store)
    → r ≡ (err e, t)
    → OnErr s r
    → t ≡ s
raised s t e r h k = subst (OnErr s) h k

-- A consumption that raises has written nothing: no order, no change of the ticket, no audit row.
pub consume_err :
    (sha256 : Digest) (plan : ExecutionPlan) (c : Confirmation) (now : ℕ) (s t : Store) (e : Error)
    → consume sha256 plan c now s ≡ (err e, t)
    → t ≡ s
consume_err sha256 plan c now s t e h = raised s t e _ h (consume-OnErr plan c now s sha256)

-- With orders of the plan in the store, whatever the answer, nothing is written: no order is ever
-- created twice.
pub consume_existing :
    (sha256 : Digest) (plan : ExecutionPlan) (c : Confirmation) (now : ℕ) (s : Store) (i : Intent)
    (is : List Intent)
    → list_intents plan.plan_id s ≡ i ∷ is
    → (consume sha256 plan c now s).1 ≡ s
unfolding consume consume_or_return ◌>>=◌
consume_existing sha256 plan c now s i is h =
    elim (Bool-cases (is_live plan.execution_mode && not (is_proven c.approval_channel))) [
      | inl unproven ↦ rw unproven refl
      | inr proven ↦
          elim (Bool-cases (not (str_eq (compute_plan_hash sha256 plan) plan.plan_hash))) [
            | inl tampered ↦ rw (proven, tampered) refl
            | inr intact ↦ rw (proven, intact, h) ((return_existing-keeps plan c (i ∷ is)).at s)
          ]
    ]
