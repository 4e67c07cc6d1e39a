-- ===== src/Identity/Bound.antt =====
-- execution/approval_wechat.py: what a proof that is taken says, and what an approval by message stands on.
use mathlib.Core.Path.{subst}
use trading_cat.Base.{
  ℕ, String, ◌≡◌, refl, sym, ◌∙◌, Bool, true, false, not, Option, none, some, arith, str_eq,
  same_text, eq_iff,
}
use trading_cat.Base.Action.{Result, ok, err, pure, raise_if}
use trading_cat.Base.Action.Outcome.{OnOk, bind-OnOk, gets-OnOk, or_raise-OnOk, raise_if-OnOk}
use trading_cat.Models.{ExecutionPlan, Confirmation}
use trading_cat.Store.{Store, Error, Method}
use trading_cat.Store.Confirmations.{get_confirmation, approve_confirmation}
use trading_cat.Orders.Approval.{IsApproval, approve_confirmation-OnOk}
use trading_cat.Identity.{
  IdentityProof, Claim, HmacIdentityVerifier, ApprovalError, Request, claims_differ, is_stale,
  given_owner, payload, verify, verify_identity, find_pending, within, as_replay, approve,
  owner_differs,
}

-- The verifier takes the proof for the claim, on behalf of the owner.
pub record IsProven (v : HmacIdentityVerifier) (p : IdentityProof) (c : Claim) (now : ℕ)
    (owner : String) : Type 0 where
  pub same_claims : claims_differ p c ≡ false
  pub timely : is_stale v.max_age_seconds now p.timestamp ≡ false
  pub mapped : v.owner_map p.subject ≡ some owner
  pub signed : v.hmac (payload p c) ≡ p.signature

given_lem : (o : Option String) (owner : String) → given_owner o ≡ some owner → o ≡ some owner
given_lem none owner h = cc
given_lem (some t) owner h = ground (arith, h)

pub verify-IsProven :
    (v : HmacIdentityVerifier) (p : IdentityProof) (c : Claim) (now : ℕ) (s : Store)
    → OnOk (λ owner t. (t ≡ s) × IsProven v p c now owner) (verify v p c now s)
unfolding verify pure
verify-IsProven v p c now s = raise_if-OnOk _ _ _ _ s λ same. raise_if-OnOk _ _ _ _ s λ fresh.
    or_raise-OnOk _ (given_owner (v.owner_map p.subject)) _ _ s λ owner mapped.
      raise_if-OnOk _ _ _ _ s λ signed. (
        refl,
        record {
          same_claims = same;
          timely = fresh;
          mapped = given_lem (v.owner_map p.subject) owner mapped;
          signed = same_text (v.hmac (payload p c)) p.signature signed;
        },
      )

module _ {A : Type 0} (f : Error → ApprovalError) where
  within-OnOk :
      (P : A → Store → Type 0) (m : Method A) (s : Store) → OnOk P (m s) → OnOk P (within f m s)
  unfolding within
  within-OnOk P m s h = done (m s) h
    where
      done : (r : Result Error A × Store) → OnOk P r → OnOk P (within f (λ _. r) s)
      done (ok a, t) k = k
      done (err e, t) k = tt

-- The proof is there, for this nonce, and its owner is who approves.
pub record IsIdentity (v : HmacIdentityVerifier) (proof : Option IdentityProof) (c : Claim)
    (who nonce : String) (now : ℕ) : Type 0 where
  pub given : IdentityProof
  pub is_given : proof ≡ some given
  pub same_nonce : given.nonce ≡ nonce
  pub proven : IsProven v given c now who

verify_identity-IsIdentity :
    (v : HmacIdentityVerifier) (proof : Option IdentityProof) (c : Claim) (who nonce : String)
    (now : ℕ) (s : Store)
    → OnOk
        (λ _ t. (t ≡ s) × IsIdentity v proof c who nonce now)
        (verify_identity v proof c who nonce now s)
unfolding verify_identity raise_if
verify_identity-IsIdentity v proof c who nonce now s = or_raise-OnOk _ proof _ _ s λ p given.
    raise_if-OnOk _ _ _ _ s λ same.
      bind-OnOk _ _ _ _ s (verify-IsProven v p c now s)
        λ owner t h. last p given (same_text p.nonce nonce same) owner t h (str_eq owner who) refl
  where
    last :
        (p : IdentityProof)
        → proof ≡ some p
        → p.nonce ≡ nonce
        → (owner : String) (t : Store) → (t ≡ s) × IsProven v p c now owner
        → (b : Bool) → str_eq owner who ≡ b
        → OnOk
            (λ _ u. (u ≡ s) × IsIdentity v proof c who nonce now)
            (raise_if (not b) owner_differs t)
    last p given same owner t h true e = (
      h.0,
      record {
        given = p;
        is_given = given;
        same_nonce = same;
        proven = subst (IsProven v p c now) ((eq_iff owner who).0 e) h.1;
      },
    )
    last p given same owner t h false e = tt

-- What an approval by message that returns stands on.
pub record IsSignedApproval (v : HmacIdentityVerifier) (channel : String) (q : Request)
    (plan : ExecutionPlan) (expected : String) (now : ℕ) (s : Store) (c : Confirmation) (t : Store)
    : Type 0 where
  pub shown : plan.plan_hash ≡ expected
  pub identity :
      IsIdentity v q.proof
        (record {
          action = "approve";
          confirmation_id = q.confirmation_id;
          plan_id = plan.plan_id;
          plan_hash = expected;
        })
        q.approved_by
        q.nonce
        now
  pub approval :
      IsApproval q.confirmation_id q.approved_by channel q.nonce
        (some plan.plan_id)
        (some expected)
        now
        s
        c
        t

find_pending-OnOk : (cid : String) (s : Store) → OnOk (λ _ t. t ≡ s) (find_pending cid s)
unfolding find_pending pure
find_pending-OnOk cid s =
    gets-OnOk _ _ _ s
      (or_raise-OnOk _ (get_confirmation cid s) _ _ s λ row _. raise_if-OnOk _ _ _ _ s λ _. refl)

module _ (v : HmacIdentityVerifier) (channel : String) (q : Request) (plan : ExecutionPlan)
    (expected : String) (now : ℕ) (s : Store) where
  approve-OnOk :
      OnOk
        (IsSignedApproval v channel q plan expected now s)
        (approve v channel q plan expected now s)
  unfolding approve
  approve-OnOk = bind-OnOk _ _ _ _ s (find_pending-OnOk q.confirmation_id s) λ _ t e.
      raise_if-OnOk _ _ _ _ t λ shown.
        bind-OnOk _ _ _ _ t (verify_identity-IsIdentity v q.proof _ q.approved_by q.nonce now t)
          λ _ u h. within-OnOk as_replay _ _ u (
            subst
              (λ x. OnOk (IsSignedApproval v channel q plan expected now s) (
                approve_confirmation q.confirmation_id q.approved_by channel q.nonce
                  (some plan.plan_id) (some expected) now x))
              (sym (h.0 ∙ e))
              (each _
                (λ c w a. record {
                  shown = same_text plan.plan_hash expected shown;
                  identity = h.1;
                  approval = a;
                })
                (approve_confirmation-OnOk q.confirmation_id q.approved_by channel q.nonce
                  (some plan.plan_id) (some expected) now s)))
    where
      each :
          (r : Result Error Confirmation × Store)
          → ((c : Confirmation) (w : Store)
              → IsApproval q.confirmation_id q.approved_by channel q.nonce
                  (some plan.plan_id)
                  (some expected)
                  now
                  s
                  c
                  w
              → IsSignedApproval v channel q plan expected now s c w)
          → OnOk
              (IsApproval q.confirmation_id q.approved_by channel q.nonce
                (some plan.plan_id)
                (some expected)
                now
                s)
              r
          → OnOk (IsSignedApproval v channel q plan expected now s) r
      each (ok c, w) f h = f c w h
      each (err e, w) f h = tt

-- An approval by message that returns was made on the plan that the user was shown, by a proof that the
-- verifier takes for just this approval and this nonce, whose subject stands for the one who approves; and
-- the ticket was PENDING, of this plan and this hash, under a nonce that no ticket had.
pub approve-IsSignedApproval :
    (v : HmacIdentityVerifier) (channel : String) (q : Request) (plan : ExecutionPlan)
    (expected : String) (now : ℕ) (s t : Store) (c : Confirmation)
    → approve v channel q plan expected now s ≡ (ok c, t)
    → IsSignedApproval v channel q plan expected now s c t
approve-IsSignedApproval v channel q plan expected now s t c h =
    subst (OnOk (IsSignedApproval v channel q plan expected now s)) h
      (approve-OnOk v channel q plan expected now s)
