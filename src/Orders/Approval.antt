-- ===== src/Orders/Approval.antt =====
-- shared/db.py and execution/order_manager.py: what an approval has checked and written.
use mathlib.Core.Path.{subst}
use trading_cat.Base.{
  ℕ, String, ◌≡◌, refl, sym, ap, ◌∙◌, Bool, true, false, not, Option, none, some, List, [], ◌∷◌,
  arith, Bool-cases, inl, inr, if◌then◌else◌, str_eq,
}
use trading_cat.Base.Tables.{select, update}
use trading_cat.Base.Action.{ok, ◌>>=◌, or_raise}
use trading_cat.Base.Action.Outcome.{
  OnOk, bind-OnOk, gets-OnOk, or_raise-OnOk, raise_if-OnOk, modify-OnOk, immediate_transaction-OnOk,
}
use trading_cat.Models.{Confirmation, ConfirmationStatus, approval_proof_channel}
use trading_cat.Store.{Store, Entity, confirmation_approved, confirmation_missing}
use trading_cat.Store.AuditLog.{audit, write_audit}
use trading_cat.Store.Confirmations.{
  get_confirmation, approval_nonce_exists, approve_row, approve_body, approve_confirmation, differs,
  is_pending, has_confirmation_id, at_status, update_confirmation,
}
use trading_cat.Brokers.Live.{is_proven}
use trading_cat.Orders.Tickets.{approve, new_adapter}

module _ (cid : String) (guard : ConfirmationStatus → Bool) (f : Confirmation → Confirmation)
    (keeps : (c : Confirmation) → (f c).confirmation_id ≡ c.confirmation_id) where
  same_key : (c : Confirmation) → has_confirmation_id cid (f c) ≡ has_confirmation_id cid c
  same_key c = ap (λ k. str_eq k cid) (keeps c)

  head_row :
      (c row : Confirmation) (cs : List Confirmation)
      → has_confirmation_id cid c ≡ true
      → select (has_confirmation_id cid) (c ∷ cs) ≡ some row
      → c ≡ row
  head_row c row cs hit e = ground (arith, hit, e)

  met :
      (c : Confirmation) (cs : List Confirmation)
      → has_confirmation_id cid c ≡ true
      → guard c.status ≡ true
      → select (has_confirmation_id cid) (update (at_status cid guard) f (c ∷ cs)) ≡ some (f c)
  met c cs hit g = rw (hit, g, same_key c, hit) refl

  passed :
      (c : Confirmation) (cs : List Confirmation)
      → has_confirmation_id cid c ≡ false
      → select (has_confirmation_id cid) (update (at_status cid guard) f (c ∷ cs))
        ≡ select (has_confirmation_id cid) (update (at_status cid guard) f cs)
  passed c cs miss = rw (miss, miss) refl

  tail_row :
      (c row : Confirmation) (cs : List Confirmation)
      → has_confirmation_id cid c ≡ false
      → select (has_confirmation_id cid) (c ∷ cs) ≡ some row
      → select (has_confirmation_id cid) cs ≡ some row
  tail_row c row cs miss e = ground (arith, miss, e)

  -- The row that an update by key and status meets first.
  select-update :
      (cs : List Confirmation) (row : Confirmation)
      → select (has_confirmation_id cid) cs ≡ some row
      → guard row.status ≡ true
      → select (has_confirmation_id cid) (update (at_status cid guard) f cs) ≡ some (f row)
  select-update [] row e g = cc
  select-update (c ∷ cs) row e g = elim (Bool-cases (has_confirmation_id cid c)) [
    | inl hit ↦
        let same = head_row c row cs hit e in
        met c cs hit (ap (λ r. guard r.status) same ∙ g) ∙ ap (λ r. some (f r)) same
    | inr miss ↦ passed c cs miss ∙ select-update cs row (tail_row c row cs miss e) g
  ]

-- What an approval rests on and what it leaves.
pub record IsApproval (cid who channel nonce : String) (plan_id plan_hash : Option String) (now : ℕ)
    (s : Store) (c : Confirmation) (t : Store) : Type 0 where
  pub row : Confirmation
  pub found : get_confirmation cid s ≡ some row
  pub was_pending : is_pending row.status ≡ true
  pub expected_plan : differs plan_id row.plan_id ≡ false
  pub expected_hash : differs plan_hash row.plan_hash ≡ false
  pub fresh_nonce : approval_nonce_exists nonce s ≡ false
  pub approved : c ≡ approve_row who channel nonce now row
  pub stored : get_confirmation cid t ≡ some c
  pub same_intents : t.intents ≡ s.intents

module _ (cid who channel nonce : String) (plan_id plan_hash : Option String) (now : ℕ)
    (s : Store) where
  -- The store after the transaction.
  pub record IsMarked (t : Store) : Type 0 where
    pub row : Confirmation
    pub found : get_confirmation cid s ≡ some row
    pub was_pending : is_pending row.status ≡ true
    pub expected_plan : differs plan_id row.plan_id ≡ false
    pub expected_hash : differs plan_hash row.plan_hash ≡ false
    pub fresh_nonce : approval_nonce_exists nonce s ≡ false
    pub stored : get_confirmation cid t ≡ some (approve_row who channel nonce now row)
    pub same_intents : t.intents ≡ s.intents

  is_true : (b : Bool) → not b ≡ false → b ≡ true
  is_true b h = ground arith

  updated :
      (row : Confirmation)
      → get_confirmation cid s ≡ some row
      → is_pending row.status ≡ true
      → get_confirmation cid
          (update_confirmation cid is_pending (approve_row who channel nonce now) s)
        ≡ some (approve_row who channel nonce now row)
  unfolding get_confirmation update_confirmation
  updated row found pending =
      select-update cid is_pending (approve_row who channel nonce now) (λ c. refl) s.confirmations
        row found pending

  update_confirmation-intents :
      (update_confirmation cid is_pending (approve_row who channel nonce now) s).intents ≡ s.intents
  unfolding update_confirmation
  update_confirmation-intents = refl

  audited :
      (t : Store)
      → IsMarked t
      → OnOk (λ _ u. IsMarked u) (audit confirmation_approved (Entity.confirmation cid) t)
  unfolding audit write_audit get_confirmation ◌>>=◌
  audited t h = record {
    row = h.row;
    found = h.found;
    was_pending = h.was_pending;
    expected_plan = h.expected_plan;
    expected_hash = h.expected_hash;
    fresh_nonce = h.fresh_nonce;
    stored = h.stored;
    same_intents = h.same_intents;
  }

  approve_body-OnOk :
      OnOk (λ _ t. IsMarked t) (approve_body cid who channel nonce plan_id plan_hash now s)
  unfolding approve_body
  approve_body-OnOk = gets-OnOk _ _ _ s (
      or_raise-OnOk _ _ _ _ s λ row found. raise_if-OnOk _ _ _ _ s λ pending.
        raise_if-OnOk _ _ _ _ s λ plan_ok. raise_if-OnOk _ _ _ _ s λ hash_ok. gets-OnOk _ _ _ s (
          raise_if-OnOk _ _ _ _ s λ fresh. gets-OnOk _ _ _ s (
            modify-OnOk _ _ _ s (
              raise_if-OnOk _ _ _ _ _ λ _. audited _ (record {
                row = row;
                found = found;
                was_pending = is_true _ pending;
                expected_plan = plan_ok;
                expected_hash = hash_ok;
                fresh_nonce = fresh;
                stored = updated row found (is_true _ pending);
                same_intents = update_confirmation-intents;
              })))))

  returned :
      (t : Store) (c : Confirmation)
      → IsMarked t
      → get_confirmation cid t ≡ some c
      → IsApproval cid who channel nonce plan_id plan_hash now s c t
  returned t c m e = record {
    row = m.row;
    found = m.found;
    was_pending = m.was_pending;
    expected_plan = m.expected_plan;
    expected_hash = m.expected_hash;
    fresh_nonce = m.fresh_nonce;
    approved = same_some c (approve_row who channel nonce now m.row) (sym e ∙ m.stored);
    stored = e;
    same_intents = m.same_intents;
  }
    where
      same_some : (a b : Confirmation) → some a ≡ some b → a ≡ b
      same_some a b h = cc

  found_again :
      (t : Store)
      → IsMarked t
      → (o : Option Confirmation) → get_confirmation cid t ≡ o
      → OnOk
          (IsApproval cid who channel nonce plan_id plan_hash now s)
          (or_raise o confirmation_missing t)
  unfolding or_raise
  found_again t m none e = tt
  found_again t m (some c) e = returned t c m e

  pub approve_confirmation-OnOk :
      OnOk
        (IsApproval cid who channel nonce plan_id plan_hash now s)
        (approve_confirmation cid who channel nonce plan_id plan_hash now s)
  unfolding approve_confirmation
  approve_confirmation-OnOk =
      bind-OnOk _ (λ _ t. IsMarked t) _ _ s (immediate_transaction-OnOk _ _ s approve_body-OnOk)
        λ _ t m. gets-OnOk _ _ _ t (found_again t m (get_confirmation cid t) refl)

-- If an approval returns, then the ticket was PENDING, the plan and the hash that the caller expects
-- are the ticket's, no ticket had the nonce, and the ticket that is returned and stored is the old one
-- with the approval written in; no order changes.
pub approve_confirmation_complete :
    (cid who channel nonce : String) (plan_id plan_hash : Option String) (now : ℕ) (s t : Store)
    (c : Confirmation)
    → approve_confirmation cid who channel nonce plan_id plan_hash now s ≡ (ok c, t)
    → IsApproval cid who channel nonce plan_id plan_hash now s c t
approve_confirmation_complete cid who channel nonce plan_id plan_hash now s t c h =
    subst (OnOk (IsApproval cid who channel nonce plan_id plan_hash now s)) h
      (approve_confirmation-OnOk cid who channel nonce plan_id plan_hash now s)

not_refused :
    (b : Bool) (x y : String) → (if b then none else some x) ≡ some y → (b ≡ false) × (x ≡ y)
not_refused true x y h = cc
not_refused false x y h = (refl, cc)

not_proof : (channel out : String) → new_adapter channel ≡ some out → is_proven (some out) ≡ false
unfolding new_adapter
not_proof channel out h =
    let r = not_refused (str_eq channel approval_proof_channel) channel out h in
    subst (λ k. str_eq k approval_proof_channel ≡ false) r.1 r.0

-- An approval through an adapter, on whatever channel, never counts as a verified proof, which a LIVE
-- plan needs.
pub approve_unproven :
    (channel out cid who nonce : String) (now : ℕ) (s t : Store) (c : Confirmation)
    → new_adapter channel ≡ some out
    → approve out cid who nonce now s ≡ (ok c, t)
    → is_proven c.approval_channel ≡ false
unfolding approve
approve_unproven channel out cid who nonce now s t c a h =
    ap (λ x. is_proven x.approval_channel)
      (approve_confirmation_complete cid who out nonce none none now s t c h).approved
    ∙ not_proof channel out a
