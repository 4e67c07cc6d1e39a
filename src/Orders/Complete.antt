-- ===== src/Orders/Complete.antt =====
-- execution/order_manager.py: what a successful `consume` has done.
use mathlib.Core.Path.{subst}
use trading_cat.Base.{
  ℕ, suc, String, ◌≡◌, refl, sym, ap, ◌∙◌, Bool, true, false, not, ◌&&◌, ◌||◌, none, some, List, [],
  ◌∷◌, ◌++◌, map, arith, str_eq, Bool-cases, inl, inr, eq_iff,
}
use trading_cat.Base.Tables.{select, update}
use trading_cat.Base.Action.{Result, ok, err, ◌>>=◌, ◌>>◌, pure, modify}
use trading_cat.Base.Action.Outcome.{
  OnOk, bind-OnOk, gets-OnOk, or_raise-OnOk, raise_if-OnOk, modify-OnOk, immediate_transaction-OnOk,
}
use trading_cat.Models.{
  ExecutionPlan, Confirmation, Digest, compute_plan_hash, confirmation_is_expired, plan_is_expired,
}
use trading_cat.Store.{Store, Error, Intent, Entity, order_intent}
use trading_cat.Store.AuditLog.{audit, write_audit}
use trading_cat.Store.Intents.{NewIntent, list_intents, insert_intent, add_intent, intent_row}
use trading_cat.Store.Confirmations.{
  approved_confirmation, is_approved, at_status, consume_row, mark_plan_consumed,
  update_confirmation,
}
use trading_cat.Brokers.Live.{is_live, is_proven}
use trading_cat.Orders.Consume.{
  Entry, Outcome, planned, created_entry, consume, consume_or_return, consume_new, consume_body,
  create_all, insert_all, finish, notify,
}

-- The rows of new orders, numbered on from the next id.
abbrev pub numbered : List NewIntent → ℕ → List Intent
numbered [] next = []
numbered (n ∷ ns) next = intent_row n next ∷ numbered ns (suc next)

append_step :
    (xs : List Intent) (x : Intent) (ys : List Intent) → (xs ++ x ∷ []) ++ ys ≡ xs ++ x ∷ ys
append_step [] x ys = refl
append_step (z ∷ xs) x ys = ap (λ r. z ∷ r) (append_step xs x ys)

-- The orders are the old ones and the new rows, and the tickets are as they were.
pub record HasCreated (ns : List NewIntent) (s t : Store) : Type 0 where
  pub intents : t.intents ≡ s.intents ++ numbered ns s.next_intent_id
  pub confirmations : t.confirmations ≡ s.confirmations

module _ (n : NewIntent) (s : Store) where
  pub insert_intent-OnOk : OnOk (λ _ t. t ≡ add_intent n s) (insert_intent n s)
  unfolding insert_intent modify
  insert_intent-OnOk =
      raise_if-OnOk _ _ _ _ s λ _. gets-OnOk _ _ _ s (raise_if-OnOk _ _ _ _ s λ _. refl)

weaken :
    {A : Type 0} (P Q : Store → Type 0)
    → ((t : Store) → P t → Q t)
    → (r : Result Error A × Store) → OnOk (λ _ t. P t) r
    → OnOk (λ _ t. Q t) r
weaken P Q f (ok a, t) h = f t h
weaken P Q f (err e, t) h = tt

weaken_to :
    {A : Type 0} (P Q : A → Store → Type 0)
    → ((a : A) (t : Store) → P a t → Q a t)
    → (r : Result Error A × Store) → OnOk P r
    → OnOk Q r
weaken_to P Q f (ok a, t) h = f a t h
weaken_to P Q f (err e, t) h = tt

append_nil : (xs : List Intent) → xs ≡ xs ++ []
append_nil [] = refl
append_nil (x ∷ xs) = ap (λ r. x ∷ r) (append_nil xs)

none_created : (s : Store) → HasCreated [] s s
none_created s = record { intents = append_nil s.intents; confirmations = refl }

one_more :
    (n : NewIntent) (ns : List NewIntent) (s t u : Store)
    → t ≡ add_intent n s
    → HasCreated ns t u
    → HasCreated (n ∷ ns) s u
unfolding add_intent
one_more n ns s t u e h = record {
  intents =
      h.intents
      ∙ ap (λ r. r.intents ++ numbered ns r.next_intent_id) e
      ∙ append_step s.intents (intent_row n s.next_intent_id) (numbered ns (suc s.next_intent_id));
  confirmations = h.confirmations ∙ ap (λ r. r.confirmations) e;
}

pub insert_all-OnOk :
    (ns : List NewIntent) (s : Store) → OnOk (λ _ t. HasCreated ns s t) (insert_all ns s)
unfolding insert_all pure
insert_all-OnOk [] s = none_created s
insert_all-OnOk (n ∷ ns) s =
    bind-OnOk _ (λ _ t. t ≡ add_intent n s) _ _ s (insert_intent-OnOk n s)
      λ _ t e.
        weaken (HasCreated ns t) (HasCreated (n ∷ ns) s) (λ u. one_more n ns s t u e)
          (insert_all ns t) (insert_all-OnOk ns t)

-- No ticket of the id is left approved by the update.
none_left :
    (cid : String) (cs : List Confirmation)
    → select (at_status cid is_approved) (update (at_status cid is_approved) consume_row cs) ≡ none
none_left cid [] = refl
none_left cid (c ∷ cs) = elim (Bool-cases (at_status cid is_approved c)) [
  | inl hit ↦ ground (arith, hit, none_left cid cs)
  | inr miss ↦ ground (arith, miss, none_left cid cs)
]

-- The orders stay, and the ticket is spent.
pub record IsSpent (cid : String) (s t : Store) : Type 0 where
  pub same_intents : t.intents ≡ s.intents
  pub spent : approved_confirmation cid t ≡ none

update-spends :
    (cid : String) (s t : Store)
    → t.intents ≡ s.intents
    → t.confirmations ≡ update (at_status cid is_approved) consume_row s.confirmations
    → IsSpent cid s t
unfolding approved_confirmation
update-spends cid s t e h = record {
  same_intents = e;
  spent = ap (select (at_status cid is_approved)) h ∙ none_left cid s.confirmations;
}

pub mark_plan_consumed-OnOk :
    (cid plan_id : String) (s : Store)
    → OnOk (λ _ t. IsSpent cid s t) (mark_plan_consumed cid plan_id s)
unfolding mark_plan_consumed modify update_confirmation
mark_plan_consumed-OnOk cid plan_id s =
    gets-OnOk _ _ _ s
      (modify-OnOk _ _ _ s (raise_if-OnOk _ _ _ _ _ λ _. update-spends cid s _ refl refl))

module _ (plan : ExecutionPlan) (cid : String) (s : Store) where
  -- The orders of the plan are there, in the order of their ids, and the ticket is spent.
  pub record IsCreated (o : Outcome) (t : Store) : Type 0 where
    pub outcome : o ≡ Outcome.created (map created_entry (planned plan cid))
    pub intents : t.intents ≡ s.intents ++ numbered (planned plan cid) s.next_intent_id
    pub spent : approved_confirmation cid t ≡ none

  created_end :
      (t u : Store)
      → HasCreated (planned plan cid) s t
      → IsSpent cid t u
      → OnOk {E = Error} IsCreated (
          (do
            audit order_intent (Entity.plan plan.plan_id)
            pure (Outcome.created (map created_entry (planned plan cid))))
            u)
  unfolding audit write_audit approved_confirmation ◌>>=◌
  created_end t u h k = record {
    outcome = refl;
    intents = k.same_intents ∙ h.intents;
    spent = k.spent;
  }

  create_all-OnOk : OnOk IsCreated (create_all plan cid [] s)
  unfolding create_all
  create_all-OnOk =
      bind-OnOk _ (λ _ t. HasCreated (planned plan cid) s t) _ _ s
        (insert_all-OnOk (planned plan cid) s)
        λ _ t h.
          bind-OnOk _ (λ _ u. IsSpent cid t u) _ _ t (mark_plan_consumed-OnOk cid plan.plan_id t)
            λ _ u k. created_end t u h k

-- What the transaction checks of the ticket in the store.
pub record IsGoodFor (plan : ExecutionPlan) (now : ℕ) (ticket : Confirmation) : Type 0 where
  pub same_plan : ticket.plan_id ≡ plan.plan_id
  pub same_hash : ticket.plan_hash ≡ plan.plan_hash
  pub proven : is_live plan.execution_mode ≡ true → is_proven ticket.approval_channel ≡ true
  pub ticket_lives : confirmation_is_expired ticket now ≡ false
  pub plan_lives : plan_is_expired plan now ≡ false

first_true : (b z : Bool) → not b || z ≡ false → b ≡ true
first_true b z h = ground arith

is_true : (b : Bool) → not b ≡ false → b ≡ true
is_true b h = ground arith

same_of_not : (a b : String) (z : Bool) → not (str_eq a b) || z ≡ false → a ≡ b
same_of_not a b z h = (eq_iff a b).0 (first_true (str_eq a b) z h)

implied : (a b : Bool) → a && not b ≡ false → a ≡ true → b ≡ true
implied a b h k = ground arith

module _ (plan : ExecutionPlan) (c : Confirmation) (now : ℕ) (s : Store) where
  -- A consumption from a store without orders of the plan.
  pub record IsBody (o : Outcome) (t : Store) : Type 0 where
    pub ticket : Confirmation
    pub found : approved_confirmation c.confirmation_id s ≡ some ticket
    pub good : IsGoodFor plan now ticket
    pub done : IsCreated plan c.confirmation_id s o t

  module _ (none_yet : list_intents plan.plan_id s ≡ []) where
    create_all-empty :
        OnOk
          (IsCreated plan c.confirmation_id s)
          (create_all plan c.confirmation_id (list_intents plan.plan_id s) s)
    create_all-empty =
        subst
          (λ is. OnOk (IsCreated plan c.confirmation_id s) (create_all plan c.confirmation_id is s))
          (sym none_yet) (create_all-OnOk plan c.confirmation_id s)

    consume_body-OnOk : OnOk IsBody (consume_body plan c now s)
    unfolding consume_body
    consume_body-OnOk = gets-OnOk _ _ _ s (
        or_raise-OnOk _ _ _ _ s λ ticket found. raise_if-OnOk _ _ _ _ s λ plan_ok.
          raise_if-OnOk _ _ _ _ s λ hash_ok. raise_if-OnOk _ _ _ _ s λ proof_ok.
            raise_if-OnOk _ _ _ _ s λ ticket_ok. raise_if-OnOk _ _ _ _ s λ plan_lives.
              gets-OnOk _ _ _ s (
                weaken_to (IsCreated plan c.confirmation_id s) IsBody
                  (λ o t h. record {
                    ticket = ticket;
                    found = found;
                    good = record {
                      same_plan = same_of_not ticket.plan_id plan.plan_id _ plan_ok;
                      same_hash = (eq_iff ticket.plan_hash plan.plan_hash).0 (is_true _ hash_ok);
                      proven = implied _ _ proof_ok;
                      ticket_lives = ticket_ok;
                      plan_lives = plan_lives;
                    };
                    done = h;
                  })
                  _ create_all-empty))

-- What a successful `consume` has checked and done, from a store without orders of the plan: the plan
-- is what was hashed, the ticket was approved for it and is spent, and all its orders are there.
pub record IsConsumption (sha256 : Digest) (plan : ExecutionPlan) (c : Confirmation) (now : ℕ)
    (s : Store) (es : List Entry) (t : Store) : Type 0 where
  pub untampered : compute_plan_hash sha256 plan ≡ plan.plan_hash
  pub ticket : Confirmation
  pub found : approved_confirmation c.confirmation_id s ≡ some ticket
  pub good : IsGoodFor plan now ticket
  pub entries : es ≡ map created_entry (planned plan c.confirmation_id)
  pub intents : t.intents ≡ s.intents ++ numbered (planned plan c.confirmation_id) s.next_intent_id
  pub spent : approved_confirmation c.confirmation_id t ≡ none

module _ (sha256 : Digest) (plan : ExecutionPlan) (c : Confirmation) (now : ℕ) (s : Store)
    (none_yet : list_intents plan.plan_id s ≡ []) where
  finished-OnOk :
      compute_plan_hash sha256 plan ≡ plan.plan_hash
      → (o : Outcome) (t : Store) → IsBody plan c now s o t
      → OnOk
          (IsConsumption sha256 plan c now s)
          (finish plan (Outcome.created (map created_entry (planned plan c.confirmation_id))) t)
  unfolding finish notify audit write_audit approved_confirmation ◌>>=◌
  finished-OnOk untampered o t b = record {
    untampered = untampered;
    ticket = b.ticket;
    found = b.found;
    good = b.good;
    entries = refl;
    intents = b.done.intents;
    spent = b.done.spent;
  }

  finish-OnOk :
      compute_plan_hash sha256 plan ≡ plan.plan_hash
      → (o : Outcome) (t : Store) → IsBody plan c now s o t
      → OnOk (IsConsumption sha256 plan c now s) (finish plan o t)
  finish-OnOk untampered o t b =
      subst (λ x. OnOk (IsConsumption sha256 plan c now s) (finish plan x t)) (sym b.done.outcome)
        (finished-OnOk untampered o t b)

  consume_or_return-OnOk :
      compute_plan_hash sha256 plan ≡ plan.plan_hash
      → OnOk (IsConsumption sha256 plan c now s) (consume_or_return plan c now [] s)
  unfolding consume_or_return consume_new
  consume_or_return-OnOk untampered = raise_if-OnOk _ _ _ _ s λ approved.
      bind-OnOk _ (IsBody plan c now s) _ _ s
        (immediate_transaction-OnOk _ _ s (consume_body-OnOk plan c now s none_yet))
        (finish-OnOk untampered)

  consume-OnOk : OnOk (IsConsumption sha256 plan c now s) (consume sha256 plan c now s)
  unfolding consume
  consume-OnOk = raise_if-OnOk _ _ _ _ s λ proven. raise_if-OnOk _ _ _ _ s λ intact.
      gets-OnOk _ _ _ s (
        subst (λ is. OnOk (IsConsumption sha256 plan c now s) (consume_or_return plan c now is s))
          (sym none_yet)
          (consume_or_return-OnOk
            ((eq_iff (compute_plan_hash sha256 plan) plan.plan_hash).0 (is_true _ intact))))

-- A plan without orders yet: if `consume` returns, then the plan is what was hashed, the ticket in the
-- store was approved for its id and hash, by a verified proof if the plan is LIVE, and neither has
-- lapsed; the result and the new rows are all orders of the plan in the order of their ids, behind the
-- orders of other plans, which stay as they are; and the ticket can not be consumed again.
pub consume_complete :
    (sha256 : Digest) (plan : ExecutionPlan) (c : Confirmation) (now : ℕ) (s t : Store)
    (es : List Entry)
    → list_intents plan.plan_id s ≡ []
    → consume sha256 plan c now s ≡ (ok es, t)
    → IsConsumption sha256 plan c now s es t
consume_complete sha256 plan c now s t es none_yet h =
    subst (OnOk (IsConsumption sha256 plan c now s)) h (consume-OnOk sha256 plan c now s none_yet)
