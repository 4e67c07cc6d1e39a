-- ===== src/Evolution/CommandLine.antt =====
-- tc.py on the execution store: the blind writes of a ticket's status that the command line makes.
use mathlib.Core.Path.{subst}
use trading_cat.Base.{
  String, ◌≡◌, refl, Bool, true, List, [], ◌∷◌, All, arith, Bool-cases, inl, inr,
}
use trading_cat.Base.Action.{◌>>=◌}
use trading_cat.Base.Tables.{update}
use trading_cat.Models.{Confirmation, ConfirmationStatus}
use trading_cat.Store.{Store}
use trading_cat.Store.Confirmations.{
  set_confirmation_status, update_confirmation, has_confirmation_id, at_status, is_pending,
  is_approved,
}
use trading_cat.Evolution.{Evolves, IsLaterTicket}
use trading_cat.Evolution.Rows.{tickets_updated}

-- Of a status that the test accepts, if it is the ticket of the id.
abbrev pub IsAt : String → (ConfirmationStatus → Bool) → Confirmation → Type 0
IsAt cid guard c = has_confirmation_id cid c ≡ true → guard c.status ≡ true

guarded :
    (cid : String) (guard : ConfirmationStatus → Bool) (f : Confirmation → Confirmation)
    (cs : List Confirmation)
    → All (IsAt cid guard) cs
    → update (at_status cid guard) f cs ≡ update (has_confirmation_id cid) f cs
guarded cid guard f [] h = refl
guarded cid guard f (c ∷ cs) h = elim (Bool-cases (has_confirmation_id cid c)) [
  | inl hit ↦ rw (hit, h.0 hit, guarded cid guard f cs h.1) refl
  | inr miss ↦ rw (miss, guarded cid guard f cs h.1) refl
]

abbrev with_status : ConfirmationStatus → Confirmation → Confirmation
with_status status c = record c { status = status }

cancelled-IsLaterTicket :
    (cid : String) (c : Confirmation)
    → at_status cid is_pending c ≡ true
    → IsLaterTicket c (with_status ConfirmationStatus.cancelled c)
cancelled-IsLaterTicket cid c h = ground arith

refused-IsLaterTicket :
    (cid : String) (c : Confirmation)
    → at_status cid is_approved c ≡ true
    → IsLaterTicket c (with_status ConfirmationStatus.rejected c)
refused-IsLaterTicket cid c h = ground arith

-- CANCELLED, written on a ticket that is PENDING.
pub cancelled-Evolves :
    (cid : String) (s : Store)
    → All (IsAt cid is_pending) s.confirmations
    → Evolves s (set_confirmation_status cid ConfirmationStatus.cancelled s).1
unfolding set_confirmation_status update_confirmation ◌>>=◌
cancelled-Evolves cid s h =
    subst (λ cs. Evolves s (record s { confirmations = cs }))
      (guarded cid is_pending (with_status ConfirmationStatus.cancelled) s.confirmations h)
      (tickets_updated s cid is_pending (with_status ConfirmationStatus.cancelled)
        (cancelled-IsLaterTicket cid))

-- REJECTED, written on a ticket that is APPROVED.
pub refused-Evolves :
    (cid : String) (s : Store)
    → All (IsAt cid is_approved) s.confirmations
    → Evolves s (set_confirmation_status cid ConfirmationStatus.rejected s).1
unfolding set_confirmation_status update_confirmation ◌>>=◌
refused-Evolves cid s h =
    subst (λ cs. Evolves s (record s { confirmations = cs }))
      (guarded cid is_approved (with_status ConfirmationStatus.rejected) s.confirmations h)
      (tickets_updated s cid is_approved (with_status ConfirmationStatus.rejected)
        (refused-IsLaterTicket cid))
