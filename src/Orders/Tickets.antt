-- ===== src/Orders/Tickets.antt =====
-- execution/order_manager.py: `ApprovalAdapter` and `ConfirmationService`.
use trading_cat.Base.{ℕ, String, not, ◌||◌, Option, none, some, str_eq, eqb, if◌then◌else◌}
use trading_cat.Base.Action.{Action, Result, ◌>>=◌, ◌>>◌, raise_if, or_raise, gets}
use trading_cat.Models.{ExecutionPlan, Confirmation, approval_proof_channel}
use trading_cat.Store.{
  Store, Method, Error, PlanRow, PlanStatus, core_plan_mismatch, plan_bound_elsewhere,
  confirmation_missing,
}
use trading_cat.Store.Plans.{get_plan, insert_plan, same_mode}
use trading_cat.Store.Confirmations.{
  approve_confirmation, insert_confirmation, new_ticket, get_confirmation,
}

-- The constructor of the adapter refuses the channel that only a verified proof may write.
unfoldable pub new_adapter : String → Option String
new_adapter channel = if str_eq channel approval_proof_channel then none else some channel

-- `approve`, on an adapter's channel. The nonce is the caller's, or a fresh one.
unfoldable pub approve : String → String → String → String → ℕ → Method Confirmation
approve channel cid approved_by nonce now =
    approve_confirmation cid approved_by channel nonce none none now

abbrev pub plan_row : ExecutionPlan → PlanRow
plan_row p = record {
  plan_id = p.plan_id;
  account_id = p.account_id;
  execution_mode = p.execution_mode;
  expires_at = p.expires_at;
  plan_hash = p.plan_hash;
  orders = p.orders;
  status = PlanStatus.pending;
}

-- The row under the plan's id in the core store, if there is one, is the plan.
unfoldable pub keep_core : ExecutionPlan → Option PlanRow → Method Unit
keep_core p none = insert_plan (plan_row p)
keep_core p (some stored) =
    raise_if
      (not (str_eq stored.plan_hash p.plan_hash)
        || (not (str_eq stored.account_id p.account_id)
            || (not (same_mode stored.execution_mode p.execution_mode)
                || not (eqb stored.expires_at p.expires_at))))
      core_plan_mismatch

unfoldable pub create_core : ExecutionPlan → Method Unit
create_core p = do stored ← gets (get_plan p.plan_id); keep_core p stored

unfoldable pub keep_own : ExecutionPlan → Option PlanRow → Method Unit
keep_own p none = insert_plan (plan_row p)
keep_own p (some stored) = raise_if (not (str_eq stored.plan_hash p.plan_hash)) plan_bound_elsewhere

-- 2099-12-31T23:59:59Z
abbrev pub far_future : ℕ
far_future = 4102444799

abbrev or_far_future : Option ℕ → ℕ
or_far_future none = far_future
or_far_future (some t) = t

unfoldable pub create_own : ExecutionPlan → Option ℕ → String → ℕ → Method Confirmation
create_own p expires_at cid now = do
  stored ← gets (get_plan p.plan_id)
  keep_own p stored
  insert_confirmation (new_ticket cid p.plan_id p.plan_hash (or_far_future expires_at) none) now
  row ← gets (get_confirmation cid)
  or_raise row confirmation_missing

-- `ConfirmationService(conn).create`: the one store is both the core store and the executor's.
unfoldable pub create : ExecutionPlan → Option ℕ → String → ℕ → Method Confirmation
create p expires_at cid now = do create_core p; create_own p expires_at cid now

-- `ConfirmationService(core_conn, execution_conn).create`, on two stores.
abbrev pub Stores : Type 0
Stores = Store × Store

abbrev on_core : {A : Type 0} → Result Error A × Store → Store → Result Error A × Stores
on_core (r, core) execution = (r, (core, execution))

abbrev on_execution : {A : Type 0} → Store → Result Error A × Store → Result Error A × Stores
on_execution core (r, execution) = (r, (core, execution))

unfoldable pub in_core : {A : Type 0} → Method A → Action Error Stores A
in_core m s = on_core (m s.0) s.1

unfoldable pub in_execution : {A : Type 0} → Method A → Action Error Stores A
in_execution m s = on_execution s.0 (m s.1)

unfoldable pub create_split :
    ExecutionPlan → Option ℕ → String → ℕ → Action Error Stores Confirmation
create_split p expires_at cid now = do
  in_core (create_core p)
  in_execution (create_own p expires_at cid now)
