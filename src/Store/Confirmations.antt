-- ===== src/Store/Confirmations.antt =====
-- shared/db.py: the table of confirmations and the moves of a ticket.
use trading_cat.Base.{
  ℕ, String, Bool, true, false, not, ◌&&◌, ◌||◌, Option, none, some, [], ◌∷◌, ◌++◌, str_eq, eqb,
  any,
}
use trading_cat.Base.Action.{◌>>=◌, ◌>>◌, raise_if, or_raise, modify, gets, immediate_transaction}
use trading_cat.Base.Tables.{select, update, count}
use trading_cat.Models.{Confirmation, ConfirmationStatus, is_text}
use trading_cat.Store.{
  Store, Method, PlanStatus, Entity, confirmation_created, confirmation_approved,
  confirmation_rejected, bad_confirmation_status, confirmation_bound_elsewhere,
  confirmation_not_movable, confirmation_missing, confirmation_not_pending, plan_id_mismatch,
  plan_hash_mismatch, nonce_used, confirmation_not_consumed, integrity_error,
}
use trading_cat.Store.AuditLog.{audit}
use trading_cat.Store.Plans.{has_plan_id}

-- `status in CONFIRMATION_STATUSES`
abbrev pub is_confirmation_status : ConfirmationStatus → Bool
is_confirmation_status (ConfirmationStatus.other _) = false
is_confirmation_status _ = true

abbrev pub is_pending : ConfirmationStatus → Bool
is_pending ConfirmationStatus.pending = true
is_pending _ = false

abbrev pub is_approved : ConfirmationStatus → Bool
is_approved ConfirmationStatus.approved = true
is_approved _ = false

abbrev pub is_consumed : ConfirmationStatus → Bool
is_consumed ConfirmationStatus.consumed = true
is_consumed _ = false

abbrev pub has_confirmation_id : String → Confirmation → Bool
has_confirmation_id cid c = str_eq c.confirmation_id cid

unfoldable pub get_confirmation : String → Store → Option Confirmation
get_confirmation cid s = select (has_confirmation_id cid) s.confirmations

abbrev pub has_key : String → Confirmation → Bool
has_key key c = is_text c.idempotency_key key

unfoldable pub get_confirmation_by_idempotency_key : String → Store → Option Confirmation
get_confirmation_by_idempotency_key key s = select (has_key key) s.confirmations

abbrev pub has_nonce : String → Confirmation → Bool
has_nonce nonce c = is_text c.approval_nonce nonce

unfoldable pub approval_nonce_exists : String → Store → Bool
approval_nonce_exists nonce s = any (has_nonce nonce) s.confirmations

-- An UPDATE of the ticket `cid` if it is at the status that `guard` asks for.
abbrev pub at_status : String → (ConfirmationStatus → Bool) → Confirmation → Bool
at_status cid guard c = has_confirmation_id cid c && guard c.status

unfoldable pub update_confirmation :
    String → (ConfirmationStatus → Bool) → (Confirmation → Confirmation) → Store → Store
update_confirmation cid guard f s = record s {
  confirmations = update (at_status cid guard) f s.confirmations;
}

unfoldable pub matching : String → (ConfirmationStatus → Bool) → Store → ℕ
matching cid guard s = count (at_status cid guard) s.confirmations

-- The columns that an approval sets, and those that a rejection sets.
abbrev pub approve_row : String → String → String → ℕ → Confirmation → Confirmation
approve_row who channel nonce now c = record c {
  status = ConfirmationStatus.approved;
  approved_by = some who;
  approval_channel = some channel;
  approval_nonce = some nonce;
  approved_at = some now;
}

abbrev pub reject_row : String → String → String → Confirmation → Confirmation
reject_row who channel nonce c = record c {
  status = ConfirmationStatus.rejected;
  approved_by = some who;
  approval_channel = some channel;
  approval_nonce = some nonce;
}

abbrev pub consume_row : Confirmation → Confirmation
consume_row c = record c { status = ConfirmationStatus.consumed }

-- `expected is not None and actual != expected`
abbrev pub differs : Option String → String → Bool
differs none t = false
differs (some e) t = not (str_eq t e)

-- The body of the transaction of `approve_confirmation`.
unfoldable pub approve_body :
    String → String → String → String → Option String → Option String → ℕ → Method Unit
approve_body cid who channel nonce plan_id plan_hash now = do
  found ← gets (get_confirmation cid)
  row ← or_raise found confirmation_missing
  raise_if (not (is_pending row.status)) confirmation_not_pending
  raise_if (differs plan_id row.plan_id) plan_id_mismatch
  raise_if (differs plan_hash row.plan_hash) plan_hash_mismatch
  used ← gets (approval_nonce_exists nonce)
  raise_if used nonce_used
  changed ← gets (matching cid is_pending)
  modify (update_confirmation cid is_pending (approve_row who channel nonce now))
  raise_if (not (eqb changed 1)) confirmation_not_consumed
  audit confirmation_approved (Entity.confirmation cid)

unfoldable pub approve_confirmation :
    String → String → String → String → Option String → Option String → ℕ → Method Confirmation
approve_confirmation cid who channel nonce plan_id plan_hash now = do
  immediate_transaction (approve_body cid who channel nonce plan_id plan_hash now)
  found ← gets (get_confirmation cid)
  or_raise found confirmation_missing

unfoldable pub reject_body : String → String → String → String → Method Unit
reject_body cid who channel nonce = do
  found ← gets (get_confirmation cid)
  row ← or_raise found confirmation_missing
  raise_if (not (is_pending row.status)) confirmation_not_pending
  used ← gets (approval_nonce_exists nonce)
  raise_if used nonce_used
  changed ← gets (matching cid is_pending)
  modify (update_confirmation cid is_pending (reject_row who channel nonce))
  raise_if (not (eqb changed 1)) confirmation_not_consumed
  audit confirmation_rejected (Entity.confirmation cid)

unfoldable pub reject_confirmation : String → String → String → String → Method Confirmation
reject_confirmation cid who channel nonce = do
  immediate_transaction (reject_body cid who channel nonce)
  found ← gets (get_confirmation cid)
  or_raise found confirmation_missing

unfoldable pub approved_confirmation : String → Store → Option Confirmation
approved_confirmation cid s = select (at_status cid is_approved) s.confirmations

-- Both tables, inside the caller's transaction.
unfoldable pub mark_plan_consumed : String → String → Method Unit
mark_plan_consumed cid plan_id = do
  changed ← gets (matching cid is_approved)
  modify (update_confirmation cid is_approved consume_row)
  raise_if (not (eqb changed 1)) confirmation_not_consumed
  modify (λ s. record s {
    plans = update (has_plan_id plan_id) (λ r. record r { status = PlanStatus.consumed }) s.plans;
  })

-- UNIQUE (approval_nonce), UNIQUE (idempotency_key), against every row but the one under the same id.
abbrev takes_text : Option String → Option String → Bool
takes_text none t = false
takes_text (some a) t = is_text t a

abbrev clashes : Confirmation → Confirmation → Bool
clashes new c =
    not (has_confirmation_id new.confirmation_id c)
    && (takes_text new.approval_nonce c.approval_nonce
        || takes_text new.idempotency_key c.idempotency_key)

abbrev same_expiry : Option ℕ → Option ℕ → Bool
same_expiry none none = true
same_expiry (some t) (some u) = eqb t u
same_expiry _ _ = false

-- `status in ("APPROVED", "REJECTED")`
abbrev pub is_verdict : ConfirmationStatus → Bool
is_verdict ConfirmationStatus.approved = true
is_verdict ConfirmationStatus.rejected = true
is_verdict _ = false

abbrev stamp : ConfirmationStatus → ℕ → Option ℕ
stamp ConfirmationStatus.approved now = some now
stamp _ now = none

-- The columns of the UPDATE, taken from the new values.
abbrev pub verdict_row : Confirmation → Confirmation → Confirmation
verdict_row new c = record c {
  status = new.status;
  approved_by = new.approved_by;
  approval_channel = new.approval_channel;
  approval_nonce = new.approval_nonce;
  approved_at = new.approved_at;
}

unfoldable pub add_confirmation : Confirmation → Store → Store
add_confirmation c s = record s { confirmations = s.confirmations ++ c ∷ [] }

unfoldable pub put_confirmation : Option Confirmation → Confirmation → Method Unit
put_confirmation none new = do
  rows ← gets (λ s. s.confirmations)
  raise_if (any (clashes new) rows) integrity_error
  modify (add_confirmation new)
put_confirmation (some old) new = do
  raise_if
      (not (str_eq old.plan_id new.plan_id)
        || (not (str_eq old.plan_hash new.plan_hash)
            || not (same_expiry old.expires_at new.expires_at)))
      confirmation_bound_elsewhere
  raise_if (not (is_pending old.status) || not (is_verdict new.status)) confirmation_not_movable
  rows ← gets (λ s. s.confirmations)
  raise_if (any (λ c. clashes (record new { idempotency_key = none }) c) rows) integrity_error
  modify (update_confirmation new.confirmation_id is_pending (verdict_row new))

-- The values of the call, with `approved_at` and `created_at` filled in.
abbrev pub stamped : Confirmation → ℕ → Confirmation
stamped new now = record new { approved_at = stamp new.status now; created_at = some now }

unfoldable pub insert_confirmation : Confirmation → ℕ → Method Unit
insert_confirmation new now = do
  raise_if (not (is_confirmation_status new.status)) bad_confirmation_status
  existing ← gets (get_confirmation new.confirmation_id)
  put_confirmation existing (stamped new now)
  audit confirmation_created (Entity.confirmation new.confirmation_id)

-- The arguments of the two callers: status PENDING and no approval columns.
abbrev pub new_ticket : String → String → String → ℕ → Option String → Confirmation
new_ticket cid plan_id plan_hash expires_at key = record {
  confirmation_id = cid;
  plan_id = plan_id;
  plan_hash = plan_hash;
  status = ConfirmationStatus.pending;
  approved_by = none;
  approval_channel = none;
  approval_nonce = none;
  approved_at = none;
  expires_at = some expires_at;
  created_at = none;
  idempotency_key = key;
}

-- A blind write, used by the command line after a refusal.
unfoldable pub set_confirmation_status : String → ConfirmationStatus → Method Unit
set_confirmation_status cid status = do
  raise_if (not (is_confirmation_status status)) bad_confirmation_status
  modify (λ s. record s {
    confirmations =
        update (has_confirmation_id cid) (λ c. record c { status = status }) s.confirmations;
  })
