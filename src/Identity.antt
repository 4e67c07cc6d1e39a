-- ===== src/Identity.antt =====
-- execution/approval_wechat.py: the proof of who approves, and the approval by message. The keyed hash
-- (HMAC-SHA256 under the verifier's secret, in hexadecimal) is a parameter.
pub mod Payload
pub mod Bound
use Prim.Native.String.{String, char_at}
use trading_cat.Base.{
  ℕ, zero, suc, ◌+◌, ◌-◌, ◌/◌, ◌%◌, Bool, true, false, not, ◌||◌, Option, none, some, str_eq, leb,
  eqb, if◌then◌else◌,
}
use trading_cat.Base.Action.{
  Result, ok, err, Action, ◌>>=◌, ◌>>◌, pure, raise, raise_if, or_raise, gets,
}
use trading_cat.Models.{ExecutionPlan, Confirmation}
use trading_cat.Store.{
  Store, Error, Method, is_given, confirmation_missing, confirmation_not_pending, nonce_used,
}
use trading_cat.Store.Confirmations.{
  get_confirmation, is_pending, approve_confirmation, reject_confirmation, approval_nonce_exists,
  differs,
}

pub record IdentityProof : Type 0 where
  pub subject : String
  pub timestamp : ℕ
  pub nonce : String
  pub signature : String
  pub action : Option String
  pub confirmation_id : Option String
  pub plan_id : Option String
  pub plan_hash : Option String

-- What the proof has to be about.
pub record Claim : Type 0 where
  pub action : String
  pub confirmation_id : String
  pub plan_id : String
  pub plan_hash : String

-- What an approval may raise, over what the store raises.
pub data ApprovalError : Type 0 where
  in_store : Error → ApprovalError
  claim_mismatch proof_stale owner_unbound bad_signature : ApprovalError
  proof_missing nonce_differs owner_differs : ApprovalError
  plan_hash_mismatch nonce_replay : ApprovalError

-- `str` of a number: its decimal digits, of which there are no more than the number and one.
unfoldable pub digits : ℕ → ℕ → String → String
digits zero n rest = rest
digits (suc fuel) n rest =
    let more = digits fuel (n / 10) (String.◌∷◌ (char_at "0123456789" (n % 10)) rest) in
    if leb n 9 then String.◌∷◌ (char_at "0123456789" (n % 10)) rest else more

unfoldable pub decimal : ℕ → String
unfolding digits
decimal n = digits (suc n) n ""

-- "|".join(...): a field, the separator, and what follows.
unfoldable pub before : String → String → String
before String.[] rest = String.◌∷◌ "|" rest
before (String.◌∷◌ c s) rest = String.◌∷◌ c (before s rest)

unfoldable pub payload : IdentityProof → Claim → String
unfolding before decimal
payload p c = before p.subject (
    before c.action (
      before c.confirmation_id
        (before c.plan_id (before c.plan_hash (before p.nonce (decimal p.timestamp))))))

-- The verifier: its hash, whom a subject stands for, and how old a proof may be.
pub record HmacIdentityVerifier : Type 0 where
  pub hmac : String → String
  pub owner_map : String → Option String
  pub max_age_seconds : ℕ

-- A field of the proof that is given and is not what it has to be.
abbrev pub claims_differ : IdentityProof → Claim → Bool
claims_differ p c =
    differs p.action c.action
    || (differs p.confirmation_id c.confirmation_id
        || (differs p.plan_id c.plan_id || differs p.plan_hash c.plan_hash))

-- `abs(now - timestamp) > max_age_seconds`
abbrev pub is_stale : ℕ → ℕ → ℕ → Bool
is_stale max_age now at = not (leb ((now - at) + (at - now)) max_age)

abbrev pub given_owner : Option String → Option String
given_owner o = if is_given o then o else none

unfoldable pub verify :
    HmacIdentityVerifier → IdentityProof → Claim → ℕ → Action ApprovalError Store String
verify v p c now = do
  raise_if (claims_differ p c) claim_mismatch
  raise_if (is_stale v.max_age_seconds now p.timestamp) proof_stale
  owner ← or_raise (given_owner (v.owner_map p.subject)) owner_unbound
  raise_if (not (str_eq (v.hmac (payload p c)) p.signature)) bad_signature
  pure owner

-- A method of the store, among what may raise more.
abbrev pub wrapped :
    {A : Type 0} → (Error → ApprovalError) → Result Error A × Store → Result ApprovalError A × Store
wrapped f (ok a, s) = (ok a, s)
wrapped f (err e, s) = (err (f e), s)

unfoldable pub within :
    {A : Type 0} → (Error → ApprovalError) → Method A → Action ApprovalError Store A
within f m s = wrapped f (m s)

-- `if "approval_nonce 已使用" in str(exc): raise ReplayError`
abbrev pub as_replay : Error → ApprovalError
as_replay nonce_used = nonce_replay
as_replay e = in_store e

-- `WechatApprovalAdapter`, on its channel; a proof that is not given is refused.
unfoldable pub verify_identity :
    HmacIdentityVerifier
    → Option IdentityProof
    → Claim
    → String
    → String
    → ℕ
    → Action ApprovalError Store Unit
verify_identity v proof c approved_by nonce now = do
  p ← or_raise proof proof_missing
  raise_if (not (str_eq p.nonce nonce)) nonce_differs
  owner ← verify v p c now
  raise_if (not (str_eq owner approved_by)) owner_differs

unfoldable pub find_pending : String → Action ApprovalError Store Confirmation
find_pending cid = do
  found ← gets (get_confirmation cid)
  row ← or_raise found (in_store confirmation_missing)
  raise_if (not (is_pending row.status)) (in_store confirmation_not_pending)
  pure row

-- The arguments of the two calls. `nonce` is the caller's or a fresh one.
pub record Request : Type 0 where
  pub confirmation_id : String
  pub approved_by : String
  pub nonce : String
  pub proof : Option IdentityProof

unfoldable pub approve :
    HmacIdentityVerifier
    → String
    → Request
    → ExecutionPlan
    → String
    → ℕ
    → Action ApprovalError Store Confirmation
approve v channel q plan expected now = do
  _ ← find_pending q.confirmation_id
  raise_if (not (str_eq plan.plan_hash expected)) plan_hash_mismatch
  verify_identity v q.proof
      (record {
        action = "approve";
        confirmation_id = q.confirmation_id;
        plan_id = plan.plan_id;
        plan_hash = expected;
      })
      q.approved_by q.nonce now
  within as_replay (
      approve_confirmation q.confirmation_id q.approved_by channel q.nonce (some plan.plan_id)
        (some expected) now)

unfoldable pub reject :
    HmacIdentityVerifier → String → Request → ℕ → Action ApprovalError Store Confirmation
reject v channel q now = do
  row ← find_pending q.confirmation_id
  verify_identity v q.proof
      (record {
        action = "reject";
        confirmation_id = q.confirmation_id;
        plan_id = row.plan_id;
        plan_hash = row.plan_hash;
      })
      q.approved_by q.nonce now
  within as_replay (reject_confirmation q.confirmation_id q.approved_by channel q.nonce)

-- `_assert_nonce_unused`
unfoldable pub assert_nonce_unused : String → Action ApprovalError Store Unit
assert_nonce_unused nonce = do used ← gets (approval_nonce_exists nonce); raise_if used nonce_replay
