-- ===== src/Reconcile.antt =====
-- execution/broker.py: `Reconciliation`, the store against the broker. The core store keeps the state of
-- the account (shared/db.py, `set_account_sync_status`), of which a mismatch is what is written here.
pub mod Closed
pub mod Evolve
use Prim.Native.String.{String}
use text.Mathlib.Text.{starts_with}
use trading_cat.Base.{
  ℕ, ◌+◌, Bool, true, false, not, ◌&&◌, ◌||◌, Option, none, some, List, [], ◌∷◌, ◌++◌, eqb,
  if◌then◌else◌, length,
}
use trading_cat.Base.Action.{◌>>=◌, ◌>>◌, pure, gets, when}
use trading_cat.Models.{Mode}
use trading_cat.Store.{Store, Method, PlanRow, Intent, IntentStatus, Entity, reconcile, is_given}
use trading_cat.Store.AuditLog.{audit}
use trading_cat.Store.Plans.{get_plan}
use trading_cat.Store.Intents.{list_intents, is_open, same_status, plan_ids_for_reconciliation}
use trading_cat.Store.Canaries.{close_live_canaries}
use trading_cat.State.{set_intent_status}
use trading_cat.Events.{given}
use trading_cat.Brokers.Paper.{is_paper}
use trading_cat.Brokers.Status.{Normal, normalize_broker_status}

-- What is wrong with an order, by its client_request_id.
pub data Mismatch : Type 0 where
  no_broker no_broker_order_id not_at_broker status_unknown status_strange differs :
      String → Mismatch
  paper_unknown paper_without_id : String → Mismatch

-- What the broker, if there is one, answers for an order: its status, or that it has no such order.
abbrev pub Query : Type 0
Query = String → Option (Option String)

abbrev is_pending : IntentStatus → Bool
is_pending IntentStatus.pending = true
is_pending _ = false

abbrev is_submitting : IntentStatus → Bool
is_submitting IntentStatus.submitting = true
is_submitting _ = false

abbrev is_submitted : IntentStatus → Bool
is_submitted IntentStatus.submitted = true
is_submitted _ = false

abbrev is_unknown : IntentStatus → Bool
is_unknown IntentStatus.unknown = true
is_unknown _ = false

-- Mark the order and report it.
unfoldable pub fail_order : Intent → Option String → Mismatch → Method (List Mismatch)
fail_order i key m = do set_intent_status i.intent_id IntentStatus.unknown key; pure (m ∷ [])

unfoldable pub compare_status : Intent → String → Normal → Method (List Mismatch)
compare_status i key (Normal.known IntentStatus.unknown) =
    fail_order i (some key) (status_unknown i.client_request_id)
compare_status i key (Normal.strange t) =
    fail_order i (some key) (status_strange i.client_request_id)
compare_status i key (Normal.known status) =
    if not (same_status status i.status) && not (is_submitting i.status && is_submitted status)
    then pure (differs i.client_request_id ∷ [])
    else pure []

unfoldable pub compare_answer : Intent → String → Option (Option String) → Method (List Mismatch)
compare_answer i key none = fail_order i none (not_at_broker i.client_request_id)
compare_answer i key (some status) = compare_status i key (normalize_broker_status status)

unfoldable pub compare_key : Query → Intent → Option String → Method (List Mismatch)
compare_key query i none =
    if is_pending i.status
    then pure []
    else fail_order i none (no_broker_order_id i.client_request_id)
compare_key query i (some key) = compare_answer i key (query key)

unfoldable pub reconcile_row : Option Query → Intent → Method (List Mismatch)
reconcile_row none i = if is_open i then pure (no_broker i.client_request_id ∷ []) else pure []
reconcile_row (some query) i = compare_key query i (given i.broker_order_id)

unfoldable pub reconcile_rows : Option Query → List Intent → Method (List Mismatch)
reconcile_rows query [] = pure []
reconcile_rows query (i ∷ is) = do
  here ← reconcile_row query i
  rest ← reconcile_rows query is
  pure (here ++ rest)

-- The result: the mismatches, and whether the core store's account was set to MISMATCH.
pub record Report : Type 0 where
  pub mismatches : List Mismatch
  pub sets_mismatch : Bool

abbrev pub any_found : List Mismatch → Bool
any_found [] = false
any_found (_ ∷ _) = true

abbrev pub account_of : Option PlanRow → String
account_of none = "default"
account_of (some p) = p.account_id

unfoldable pub close_on_mismatch : List Mismatch → String → Method Unit
close_on_mismatch ms account =
    when (any_found ms)
      (close_live_canaries "reconciliation_mismatch" (some account) >>= λ _. pure tt)

unfoldable pub reconcile_real : Option Query → String → List Intent → String → Method Report
reconcile_real query plan_id intents account = do
  ms ← reconcile_rows query intents
  close_on_mismatch ms account
  audit reconcile (Entity.plan plan_id)
  pure (record { mismatches = ms; sets_mismatch = any_found ms })

abbrev is_paper_id : Option String → Bool
is_paper_id none = false
is_paper_id (some key) = starts_with key "paper_"

unfoldable pub paper_row : Intent → Method (List Mismatch)
paper_row i =
    if is_unknown i.status
    then pure (paper_unknown i.client_request_id ∷ [])
    else if (is_submitting i.status || is_submitted i.status) && not (is_paper_id i.broker_order_id)
    then fail_order i none (paper_without_id i.client_request_id)
    else pure []

unfoldable pub paper_rows : List Intent → Method (List Mismatch)
paper_rows [] = pure []
paper_rows (i ∷ is) = do here ← paper_row i; rest ← paper_rows is; pure (here ++ rest)

unfoldable pub reconcile_paper : String → List Intent → String → Method Report
reconcile_paper plan_id intents account = do
  ms ← paper_rows intents
  close_on_mismatch ms account
  audit reconcile (Entity.plan plan_id)
  pure (record { mismatches = ms; sets_mismatch = false })

abbrev pub is_paper_plan : Option PlanRow → Bool
is_paper_plan none = false
is_paper_plan (some p) = is_paper p.execution_mode

unfoldable pub reconcile_plan : Option Query → String → Method Report
reconcile_plan query plan_id = do
  intents ← gets (list_intents plan_id)
  plan ← gets (get_plan plan_id)
  if is_paper_plan plan
      then reconcile_paper plan_id intents (account_of plan)
      else reconcile_real query plan_id intents (account_of plan)

unfoldable pub reconcile_each : Option Query → List String → Method (List Mismatch)
reconcile_each query [] = pure []
reconcile_each query (p ∷ ps) = do
  r ← reconcile_plan query p
  rest ← reconcile_each query ps
  pure (r.mismatches ++ rest)

-- The mismatches of all plans with open orders, and the number of plans.
unfoldable pub reconcile_all : Option Query → Method (ℕ × List Mismatch)
reconcile_all query = do
  plan_ids ← gets plan_ids_for_reconciliation
  ms ← reconcile_each query plan_ids
  pure (length plan_ids, ms)
