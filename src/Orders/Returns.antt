-- ===== src/Orders/Returns.antt =====
-- execution/order_manager.py: when `consume` returns.
use mathlib.Core.Path.{subst}
use trading_cat.Base.{
  ℕ, suc, String, ◌≡◌, refl, sym, ap, ◌∙◌, Bool, true, false, not, ◌&&◌, ◌||◌, some, List, [], ◌∷◌,
  ◌++◌, map, arith, any, str_eq, eqb, eq_iff,
}
use trading_cat.Base.Tables.{count}
use trading_cat.Base.Action.{Result, ok, err, ◌>>=◌, ◌>>◌, pure, modify}
use trading_cat.Base.Action.Outcome.{
  IsTotal, always-OnOk, bind-IsTotal, gets-IsTotal, or_raise-IsTotal, raise_if-IsTotal,
  modify-IsTotal, immediate_transaction-IsTotal,
}
use trading_cat.Models.{
  ExecutionPlan, Confirmation, Digest, compute_plan_hash, confirmation_is_expired, plan_is_expired,
}
use trading_cat.Store.{Store, Error, Intent, Entity, order_intent}
use trading_cat.Store.AuditLog.{audit}
use trading_cat.Store.Intents.{
  NewIntent, list_intents, insert_intent, add_intent, intent_row, conflicts, is_legal_side,
}
use trading_cat.Store.Confirmations.{
  approved_confirmation, is_approved, at_status, mark_plan_consumed, matching,
}
use trading_cat.Brokers.Live.{is_live, is_proven}
use trading_cat.Orders.Consume.{
  Entry, Outcome, planned, created_entry, consume, consume_or_return, consume_new, consume_body,
  create_all, insert_all, finish, notify,
}
use trading_cat.Orders.Complete.{
  insert_intent-OnOk, insert_all-OnOk, mark_plan_consumed-OnOk, HasCreated, IsSpent,
}

-- Orders of legal side that clash with no row and not with each other.
abbrev pub AreNew : List NewIntent → List Intent → ℕ → Type 0
AreNew [] rows next = Unit
AreNew (n ∷ ns) rows next =
    (is_legal_side n.side ≡ true)
    × ((any (conflicts n) rows ≡ false) × AreNew ns (rows ++ intent_row n next ∷ []) (suc next))

false_of_true : (b : Bool) → b ≡ true → not b ≡ false
false_of_true b h = ground arith

insert_intent-IsTotal :
    (n : NewIntent) (s : Store)
    → is_legal_side n.side ≡ true
    → any (conflicts n) s.intents ≡ false
    → IsTotal (insert_intent n s)
unfolding insert_intent modify
insert_intent-IsTotal n s legal new =
    raise_if-IsTotal _ _ _ s (false_of_true _ legal)
      (gets-IsTotal _ _ s (raise_if-IsTotal _ _ _ s new tt))

added-AreNew :
    (n : NewIntent) (ns : List NewIntent) (s t : Store)
    → t ≡ add_intent n s
    → AreNew ns (s.intents ++ intent_row n s.next_intent_id ∷ []) (suc s.next_intent_id)
    → AreNew ns t.intents t.next_intent_id
unfolding add_intent
added-AreNew n ns s t e h = subst (λ u. AreNew ns u.intents u.next_intent_id) (sym e) h

insert_all-IsTotal :
    (ns : List NewIntent) (s : Store)
    → AreNew ns s.intents s.next_intent_id
    → IsTotal (insert_all ns s)
unfolding insert_all pure
insert_all-IsTotal [] s h = tt
insert_all-IsTotal (n ∷ ns) s h =
    bind-IsTotal (λ _ t. t ≡ add_intent n s) _ _ s (insert_intent-IsTotal n s h.0 h.1.0)
      (insert_intent-OnOk n s) λ _ t e. insert_all-IsTotal ns t (added-AreNew n ns s t e h.1.1)

mark_plan_consumed-IsTotal :
    (cid plan_id : String) (s : Store)
    → matching cid is_approved s ≡ 1
    → IsTotal (mark_plan_consumed cid plan_id s)
unfolding mark_plan_consumed modify
mark_plan_consumed-IsTotal cid plan_id s one =
    gets-IsTotal _ _ s
      (modify-IsTotal _ _ s (raise_if-IsTotal _ _ _ _ (false_of_true _ (ap (λ k. eqb k 1) one)) tt))

module _ (plan : ExecutionPlan) (cid : String) (s : Store)
    (one : matching cid is_approved s ≡ 1) where
  still_one : (t : Store) → t.confirmations ≡ s.confirmations → matching cid is_approved t ≡ 1
  unfolding matching
  still_one t e = ap (count (at_status cid is_approved)) e ∙ one

  last_steps :
      (t : Store)
      → IsTotal {E = Error} (
          (do
            audit order_intent (Entity.plan plan.plan_id)
            pure (Outcome.created (map created_entry (planned plan cid))))
            t)
  unfolding audit ◌>>=◌
  last_steps t = tt

  create_all-IsTotal :
      AreNew (planned plan cid) s.intents s.next_intent_id → IsTotal (create_all plan cid [] s)
  unfolding create_all
  create_all-IsTotal new =
      bind-IsTotal (λ _ t. HasCreated (planned plan cid) s t) _ _ s
        (insert_all-IsTotal (planned plan cid) s new) (insert_all-OnOk (planned plan cid) s)
        λ _ t h.
          bind-IsTotal (λ _ u. IsSpent cid t u) _ _ t
            (mark_plan_consumed-IsTotal cid plan.plan_id t (still_one t h.confirmations))
            (mark_plan_consumed-OnOk cid plan.plan_id t) λ _ u k. last_steps u

-- A ticket that is ready to be consumed for a plan without orders yet.
pub record IsReady (sha256 : Digest) (plan : ExecutionPlan) (c : Confirmation) (now : ℕ) (s : Store)
    : Type 0 where
  pub untampered : compute_plan_hash sha256 plan ≡ plan.plan_hash
  pub none_yet : list_intents plan.plan_id s ≡ []
  pub proven : is_live plan.execution_mode && not (is_proven c.approval_channel) ≡ false
  pub approved : is_approved c.status ≡ true
  pub same_plan : c.plan_id ≡ plan.plan_id
  pub row : Confirmation
  pub found : approved_confirmation c.confirmation_id s ≡ some row
  pub row_plan : row.plan_id ≡ plan.plan_id
  pub row_hash : row.plan_hash ≡ plan.plan_hash
  pub row_proven : is_live plan.execution_mode && not (is_proven row.approval_channel) ≡ false
  pub ticket_lives : confirmation_is_expired row now ≡ false
  pub plan_lives : plan_is_expired plan now ≡ false
  pub one_ticket : matching c.confirmation_id is_approved s ≡ 1
  pub orders_new : AreNew (planned plan c.confirmation_id) s.intents s.next_intent_id

same_false : (a b : String) → a ≡ b → not (str_eq a b) ≡ false
same_false a b h = false_of_true (str_eq a b) ((eq_iff a b).1 h)

both_false : (a b : Bool) → a ≡ false → b ≡ false → a || b ≡ false
both_false a b h k = ground arith

finish-IsTotal : (plan : ExecutionPlan) (o : Outcome) (s : Store) → IsTotal (finish plan o s)
unfolding finish notify audit ◌>>=◌
finish-IsTotal plan (Outcome.already es) s = tt
finish-IsTotal plan (Outcome.created es) s = tt

module _ (sha256 : Digest) (plan : ExecutionPlan) (c : Confirmation) (now : ℕ) (s : Store)
    (r : IsReady sha256 plan c now s) where
  consume_body-IsTotal : IsTotal (consume_body plan c now s)
  unfolding consume_body
  consume_body-IsTotal = gets-IsTotal _ _ s (
      or_raise-IsTotal _ _ _ s r.row r.found (
        raise_if-IsTotal _ _ _ s
          (both_false _ _ (same_false _ _ r.row_plan) (same_false _ _ r.same_plan))
          (raise_if-IsTotal _ _ _ s (same_false _ _ r.row_hash) (
            raise_if-IsTotal _ _ _ s r.row_proven (
              raise_if-IsTotal _ _ _ s r.ticket_lives (
                raise_if-IsTotal _ _ _ s r.plan_lives (
                  gets-IsTotal _ _ s (
                    subst (λ is. IsTotal (create_all plan c.confirmation_id is s)) (sym r.none_yet)
                      (create_all-IsTotal plan c.confirmation_id s r.one_ticket
                        r.orders_new)))))))))

  consume_new-IsTotal : IsTotal (consume_or_return plan c now [] s)
  unfolding consume_or_return consume_new
  consume_new-IsTotal = raise_if-IsTotal _ _ _ s (false_of_true _ r.approved) (
      bind-IsTotal (λ _ _. Unit) _ _ s (immediate_transaction-IsTotal _ s consume_body-IsTotal)
        (always-OnOk _ (λ _ _. tt) _) (λ o t _. finish-IsTotal plan o t))

  consume-IsTotal : IsTotal (consume sha256 plan c now s)
  unfolding consume
  consume-IsTotal = raise_if-IsTotal _ _ _ s r.proven (
      raise_if-IsTotal _ _ _ s (same_false _ _ r.untampered) (
        gets-IsTotal _ _ s (
          subst (λ is. IsTotal (consume_or_return plan c now is s)) (sym r.none_yet)
            consume_new-IsTotal)))

value_of :
    (r : Result Error (List Entry) × Store)
    → IsTotal r
    → (es : List Entry) × ((t : Store) × (r ≡ (ok es, t)))
value_of (ok es, t) h = (es, (t, refl))
value_of (err e, t) h = elim h [ ]

-- A plan without orders yet that is what was hashed, with a ticket that is approved for it (by a
-- verified proof if the plan is LIVE), the only one of its id, and not lapsed, and with orders of legal
-- sides whose ids clash neither with the stored orders nor with each other: `consume` returns.
pub consume_returns :
    (sha256 : Digest) (plan : ExecutionPlan) (c : Confirmation) (now : ℕ) (s : Store)
    → IsReady sha256 plan c now s
    → (es : List Entry) × ((t : Store) × (consume sha256 plan c now s ≡ (ok es, t)))
consume_returns sha256 plan c now s r =
    value_of (consume sha256 plan c now s) (consume-IsTotal sha256 plan c now s r)
