-- ===== src/Service.antt =====
-- execution/service.py: the service between callers and the order manager, on the core store, which it
-- only reads, and the execution store.
pub mod Execution
pub mod Checks
pub mod Approved
pub mod Submitted
pub mod Executed
pub mod Rests
pub mod Shut
pub mod Snapshots
use trading_cat.Base.{
  ℕ, String, Bool, true, false, not, ◌&&◌, ◌||◌, Option, none, some, List, [], ◌∷◌, str_eq, leb,
  any, length, map, if◌then◌else◌,
}
use trading_cat.Base.Int.{ℤ}
use trading_cat.Base.Tables.{select}
use trading_cat.Base.Action.{
  Result, ok, err, Action, ◌>>=◌, ◌>>◌, pure, raise, raise_if, or_raise, gets, catch, when,
}
use trading_cat.Models.{
  ExecutionPlan, Confirmation, ConfirmationStatus, Mode, MarketState, PlanOrder, Digest, new_plan,
  plan_is_expired, confirmation_is_expired, approval_proof_channel,
}
use trading_cat.Store.{
  Store, Error, Method, PlanRow, PlanStatus, Intent, IntentStatus, integrity_error,
  confirmation_missing, nonce_used, is_given, unknown_outcome,
}
use trading_cat.Store.Plans.{get_plan, has_plan_id, insert_plan}
use trading_cat.Store.Confirmations.{
  get_confirmation, get_confirmation_by_idempotency_key, insert_confirmation, new_ticket,
  approve_confirmation, reject_confirmation, is_pending, is_approved, is_consumed, differs,
}
use trading_cat.Store.Intents.{list_intents}
use trading_cat.Orders.Tickets.{plan_row}
use trading_cat.Orders.Consume.{Entry}
use trading_cat.Orders.Submit.{Broker, paper_broker, live_broker, Submission, submit, is_unknown}
use trading_cat.Risk.{AccountState, SyncStatus}
use trading_cat.Risk.Orders.{Markets}
use trading_cat.Risk.Limits.{RiskLimits}
use trading_cat.Brokers.Live.{LiveBroker, is_live, is_proven}
use trading_cat.Brokers.Paper.{is_paper}
use trading_cat.Reconcile.{Query, Report, Mismatch, reconcile_plan}
use trading_cat.Core.{Core, CoreError, CoreMethod}
use trading_cat.Core.Accounts.{set_account_sync_status, no_failure}
use trading_cat.Core.Sync.Loading.{load}
use trading_cat.Identity.{
  IdentityProof, Claim, HmacIdentityVerifier, ApprovalError, claims_differ, verify,
}

abbrev pub Both : Type 0
Both = Core × Store

pub data ServiceError : Type 0 where
  in_store : Error → ServiceError
  in_core : CoreError → ServiceError
  identity : ApprovalError → ServiceError
  core_plan_missing bad_mode core_hash_mismatch snapshot_hash_mismatch : ServiceError
  key_bound_elsewhere verifier_unavailable : ServiceError
  confirmation_not_found confirmation_expired confirmation_not_pending : ServiceError
  plan_not_found plan_expired plan_hash_mismatch plan_id_mismatch : ServiceError
  claim_mismatch nonce_replay : ServiceError
  empty_id not_proven already_consumed not_approved : ServiceError
  paper_needs_paper_broker live_not_enabled kill_switch_engaged not_ready wrong_mode : ServiceError
  live_needs_broker queries_not_enabled : ServiceError

abbrev pub ServiceMethod : Type 0 → Type 0
ServiceMethod = Action ServiceError Both

-- What is done on one of the stores.
module _ {E A : Type 0} (f : E → ServiceError) where
  abbrev beside : Core → Result E A × Store → Result ServiceError A × Both
  beside core (ok a, s) = (ok a, (core, s))
  beside core (err e, s) = (err (f e), (core, s))

  unfoldable pub on_execution : Action E Store A → ServiceMethod A
  on_execution m s = beside s.0 (m s.1)

  abbrev above : Store → Result E A × Core → Result ServiceError A × Both
  above store (ok a, s) = (ok a, (s, store))
  above store (err e, s) = (err (f e), (s, store))

  unfoldable pub on_core : Action E Core A → ServiceMethod A
  on_core m s = above s.1 (m s.0)

unfoldable pub get_core_plan : String → Core → Option PlanRow
get_core_plan plan_id s = select (has_plan_id plan_id) s.plans

-- The plan of a row, its hash computed anew.
unfoldable pub rebuild : Digest → PlanRow → Option ExecutionPlan
rebuild sha256 row =
    new_plan sha256 row.plan_id row.account_id row.execution_mode row.expires_at row.orders

unfoldable pub checked : Digest → PlanRow → ServiceError → ServiceMethod ExecutionPlan
checked sha256 row e = do
  plan ← or_raise (rebuild sha256 row) bad_mode
  raise_if (not (str_eq plan.plan_hash row.plan_hash)) e
  pure plan

unfoldable pub read_and_snapshot_plan : Digest → String → ServiceMethod ExecutionPlan
read_and_snapshot_plan sha256 plan_id = do
  found ← gets (λ s. get_core_plan plan_id s.0)
  row ← or_raise found core_plan_missing
  plan ← checked sha256 row core_hash_mismatch
  on_execution in_store (insert_plan (plan_row plan))
  pure plan

-- `get_snapshot`: `none` if there is no row.
unfoldable pub snapshot_of : Digest → Option PlanRow → ServiceMethod (Option ExecutionPlan)
snapshot_of sha256 none = pure none
snapshot_of sha256 (some row) = do
  plan ← checked sha256 row snapshot_hash_mismatch
  pure (some plan)

unfoldable pub get_snapshot : Digest → String → ServiceMethod (Option ExecutionPlan)
get_snapshot sha256 plan_id = do found ← gets (λ s. get_plan plan_id s.1); snapshot_of sha256 found

-- The snapshot, or the error of one that is missing.
unfoldable pub need_snapshot : Digest → String → ServiceMethod ExecutionPlan
need_snapshot sha256 plan_id = do
  snapshot ← get_snapshot sha256 plan_id
  or_raise snapshot plan_not_found

unfoldable pub need_confirmation : String → ServiceMethod Confirmation
need_confirmation cid = do
  found ← gets (λ s. get_confirmation cid s.1)
  or_raise found confirmation_not_found

-- The ticket under an idempotency key that is not empty.
abbrev under_key : Option String → Store → Option Confirmation
under_key none s = none
under_key (some key) s =
    if is_given (some key) then get_confirmation_by_idempotency_key key s else none

unfoldable pub bound : ExecutionPlan → Confirmation → ServiceMethod Confirmation
bound plan old = do
  raise_if (not (str_eq old.plan_id plan.plan_id) || not (str_eq old.plan_hash plan.plan_hash))
      key_bound_elsewhere
  pure old

-- `expires_at or plan.expires_at`, and no later than the plan.
abbrev expiry_of : Option ℕ → ExecutionPlan → ℕ
expiry_of none plan = plan.expires_at
expiry_of (some t) plan = if leb t plan.expires_at then t else plan.expires_at

-- A retry may have won the insertion under the key.
unfoldable pub after_clash :
    ExecutionPlan → Option String → ServiceError → ServiceMethod Confirmation
after_clash plan key (in_store integrity_error) = do
  existing ← gets (λ s. under_key key s.1)
  old ← or_raise existing (in_store integrity_error)
  bound plan old
after_clash plan key e = raise e

unfoldable pub insert_ticket :
    ExecutionPlan → Option String → Option ℕ → String → ℕ → ServiceMethod Confirmation
insert_ticket plan key expires_at cid now = do
  on_execution in_store (
      insert_confirmation
        (new_ticket cid plan.plan_id plan.plan_hash (expiry_of expires_at plan) key) now)
  row ← gets (λ s. get_confirmation cid s.1)
  or_raise row (in_store confirmation_missing)

unfoldable pub request_or_return :
    Option Confirmation
    → ExecutionPlan
    → Option String
    → Option ℕ
    → String
    → ℕ
    → ServiceMethod Confirmation
request_or_return (some old) plan key expires_at cid now = bound plan old
request_or_return none plan key expires_at cid now =
    catch (insert_ticket plan key expires_at cid now) (after_clash plan key)

-- `cid` is the caller's id or a fresh one.
unfoldable pub request_confirmation :
    Digest
    → String
    → Option String
    → Option String
    → Option ℕ
    → String
    → ℕ
    → ServiceMethod Confirmation
request_confirmation sha256 plan_id plan_hash key expires_at cid now = do
  plan ← read_and_snapshot_plan sha256 plan_id
  raise_if (differs plan_hash plan.plan_hash) plan_hash_mismatch
  existing ← gets (λ s. under_key key s.1)
  request_or_return existing plan key expires_at cid now

abbrev pub as_replay : Error → ServiceError
as_replay nonce_used = nonce_replay
as_replay e = in_store e

abbrev pub claim_of : String → String → Confirmation → Claim
claim_of action cid row = record {
  action = action;
  confirmation_id = cid;
  plan_id = row.plan_id;
  plan_hash = row.plan_hash;
}

-- The ticket may be approved, and its plan.
unfoldable pub check_ticket : Digest → Confirmation → ℕ → ServiceMethod Unit
check_ticket sha256 row now = do
  raise_if (not (is_pending row.status)) confirmation_not_pending
  plan ← need_snapshot sha256 row.plan_id
  raise_if (not (str_eq plan.plan_hash row.plan_hash)) plan_hash_mismatch
  raise_if (plan_is_expired plan now) plan_expired
  raise_if (confirmation_is_expired row now) confirmation_expired

unfoldable pub approve :
    Digest → Option HmacIdentityVerifier → String → IdentityProof → ℕ → ServiceMethod Confirmation
approve sha256 configured cid proof now = do
  verifier ← or_raise configured verifier_unavailable
  row ← need_confirmation cid
  check_ticket sha256 row now
  raise_if (claims_differ proof (claim_of "approve" cid row)) claim_mismatch
  owner ← on_execution identity (verify verifier proof (claim_of "approve" cid row) now)
  on_execution as_replay (
      approve_confirmation cid owner approval_proof_channel proof.nonce (some row.plan_id)
        (some row.plan_hash) now)

unfoldable pub reject :
    Option HmacIdentityVerifier → String → IdentityProof → ℕ → ServiceMethod Confirmation
reject configured cid proof now = do
  verifier ← or_raise configured verifier_unavailable
  row ← need_confirmation cid
  owner ← on_execution identity (verify verifier proof (claim_of "reject" cid row) now)
  on_execution in_store (reject_confirmation cid owner approval_proof_channel proof.nonce)
