-- ===== src/Service/Approved.antt =====
-- execution/service.py: what `approve` has checked once it returns.
use mathlib.Core.Path.{subst}
use trading_cat.Base.{
  unnegated, same_text, ℕ, String, ◌≡◌, refl, ap, ◌∙◌, Bool, true, false, Option, some,
}
use trading_cat.Base.Action.{ok, raise_if}
use trading_cat.Base.Action.Outcome.{OnOk, bind-OnOk, or_raise-OnOk, raise_if-OnOk}
use trading_cat.Models.{
  ExecutionPlan, Confirmation, Digest, plan_is_expired, confirmation_is_expired,
  approval_proof_channel,
}
use trading_cat.Store.{Store}
use trading_cat.Store.Confirmations.{get_confirmation, is_pending}
use trading_cat.Orders.Approval.{IsApproval, approve_confirmation-OnOk}
use trading_cat.Identity.{IdentityProof, HmacIdentityVerifier}
use trading_cat.Identity.Bound.{IsProven, verify-IsProven}
use trading_cat.Service.{Both, ServiceError, check_ticket, claim_of, approve, as_replay, identity}
use trading_cat.Service.Checks.{
  on_execution-OnOk, IsSnapshot, need_snapshot-OnOk, need_confirmation-OnOk,
}

-- The ticket is PENDING, and it and the plan of its snapshot still live.
pub record IsOpenTicket (sha256 : Digest) (row : Confirmation) (now : ℕ) (s : Store) : Type 0 where
  pub pending : is_pending row.status ≡ true
  pub plan : ExecutionPlan
  pub snapshot : IsSnapshot sha256 row.plan_id s plan
  pub same_hash : plan.plan_hash ≡ row.plan_hash
  pub plan_lives : plan_is_expired plan now ≡ false
  pub ticket_lives : confirmation_is_expired row now ≡ false

check_ticket-IsOpenTicket :
    (sha256 : Digest) (row : Confirmation) (now : ℕ) (s : Both)
    → OnOk (λ _ u. (u ≡ s) × IsOpenTicket sha256 row now s.1) (check_ticket sha256 row now s)
unfolding check_ticket raise_if
check_ticket-IsOpenTicket sha256 row now s = raise_if-OnOk _ _ _ _ s λ pending.
    bind-OnOk _ _ _ _ s (need_snapshot-OnOk sha256 s row.plan_id) λ plan u h.
      raise_if-OnOk _ _ _ _ u λ same. raise_if-OnOk _ _ _ _ u λ lives.
        last plan u h.0 h.1 (unnegated (is_pending row.status) pending)
          (same_text plan.plan_hash row.plan_hash same) lives (confirmation_is_expired row now) refl
  where
    last :
        (plan : ExecutionPlan) (u : Both)
        → u ≡ s
        → IsSnapshot sha256 row.plan_id s.1 plan
        → is_pending row.status ≡ true
        → plan.plan_hash ≡ row.plan_hash
        → plan_is_expired plan now ≡ false
        → (b : Bool) → confirmation_is_expired row now ≡ b
        → OnOk
            (λ _ v. (v ≡ s) × IsOpenTicket sha256 row now s.1)
            (raise_if b ServiceError.confirmation_expired u)
    last plan u e shot pending same lives true k = tt
    last plan u e shot pending same lives false k = (
      e,
      record {
        pending = pending;
        plan = plan;
        snapshot = shot;
        same_hash = same;
        plan_lives = lives;
        ticket_lives = k;
      },
    )

-- What an approval that returns stands on.
pub record IsProvenApproval (sha256 : Digest) (configured : Option HmacIdentityVerifier)
    (cid : String) (proof : IdentityProof) (now : ℕ) (s : Both) (c : Confirmation) (t : Both)
    : Type 0 where
  pub verifier : HmacIdentityVerifier
  pub is_configured : configured ≡ some verifier
  pub row : Confirmation
  pub found : get_confirmation cid s.1 ≡ some row
  pub ticket : IsOpenTicket sha256 row now s.1
  pub owner : String
  pub proven : IsProven verifier proof (claim_of "approve" cid row) now owner
  pub approval :
      IsApproval cid owner approval_proof_channel proof.nonce
        (some row.plan_id)
        (some row.plan_hash)
        now
        s.1
        c
        t.1
  pub same_core : t.0 ≡ s.0

module _ (sha256 : Digest) (configured : Option HmacIdentityVerifier) (cid : String)
    (proof : IdentityProof) (now : ℕ) (s : Both) where
  abbrev Done : Confirmation → Both → Type 0
  Done = IsProvenApproval sha256 configured cid proof now s

  approve-OnOk : OnOk Done (approve sha256 configured cid proof now s)
  unfolding approve
  approve-OnOk = or_raise-OnOk _ configured _ _ s λ v given.
      bind-OnOk _ _ _ _ s (need_confirmation-OnOk sha256 s cid) λ row u₁ h₁.
        bind-OnOk _ _ _ _ u₁ (check_ticket-IsOpenTicket sha256 row now u₁) λ _ u₂ h₂.
          raise_if-OnOk _ _ _ _ u₂ λ same.
            bind-OnOk _
              (λ owner u. (u ≡ u₂) × IsProven v proof (claim_of "approve" cid row) now owner) _ _ u₂
              (on_execution-OnOk identity _ _ _ u₂
                (verify-IsProven v proof (claim_of "approve" cid row) now u₂.1)
                (λ owner t h. (ap (λ x. (u₂.0, x)) h.0, h.1)))
              λ owner u₃ h₃.
                on_execution-OnOk as_replay _ _ _ u₃
                  (approve_confirmation-OnOk cid owner approval_proof_channel proof.nonce
                    (some row.plan_id) (some row.plan_hash) now u₃.1)
                  λ c t a. done v given row h₁.1 owner c t u₁ u₂ u₃ h₁.0 h₂.0 h₃.0 h₂.1 h₃.1 a
    where
      done :
          (v : HmacIdentityVerifier)
          → configured ≡ some v
          → (row : Confirmation) → get_confirmation cid s.1 ≡ some row
          → (owner : String) (c : Confirmation) (t : Store) (u₁ u₂ u₃ : Both) → u₁ ≡ s
          → u₂ ≡ u₁
          → u₃ ≡ u₂
          → IsOpenTicket sha256 row now u₁.1
          → IsProven v proof (claim_of "approve" cid row) now owner
          → IsApproval cid owner approval_proof_channel proof.nonce
              (some row.plan_id)
              (some row.plan_hash)
              now
              u₃.1
              c
              t
          → Done c (u₃.0, t)
      done v given row found owner c t u₁ u₂ u₃ e₁ e₂ e₃ open_ticket proven a = record {
        verifier = v;
        is_configured = given;
        row = row;
        found = found;
        ticket = subst (λ u. IsOpenTicket sha256 row now u.1) e₁ open_ticket;
        owner = owner;
        proven = proven;
        approval =
            subst
              (λ u.
                IsApproval cid owner approval_proof_channel proof.nonce (some row.plan_id)
                  (some row.plan_hash) now u.1 c t)
              (e₃ ∙ (e₂ ∙ e₁)) a;
        same_core = ap (λ u. u.0) (e₃ ∙ (e₂ ∙ e₁));
      }

-- If the service approves a ticket, then it has a verifier, the ticket was PENDING and neither it nor its
-- plan had lapsed, the stored plan has the hash that its content gives and the ticket names, the proof is
-- recent, signed for just this approval and its subject stands for the owner that is written into the
-- ticket, on the channel of proofs and under a nonce that no ticket had; the core store is left alone.
pub approve-IsProvenApproval :
    (sha256 : Digest) (configured : Option HmacIdentityVerifier) (cid : String)
    (proof : IdentityProof) (now : ℕ) (s t : Both) (c : Confirmation)
    → approve sha256 configured cid proof now s ≡ (ok c, t)
    → IsProvenApproval sha256 configured cid proof now s c t
approve-IsProvenApproval sha256 configured cid proof now s t c h =
    subst (OnOk (IsProvenApproval sha256 configured cid proof now s)) h
      (approve-OnOk sha256 configured cid proof now s)
