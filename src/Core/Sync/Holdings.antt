-- ===== src/Core/Sync/Holdings.antt =====
-- shared/account.py, `sync_positions`: the positions that are kept by hand against the broker's.
use trading_cat.Base.{
  ℕ, String, Bool, true, false, not, ◌&&◌, ◌||◌, Option, none, some, List, [], ◌∷◌, str_eq, any,
  map, if◌then◌else◌,
}
use trading_cat.Base.Int.{ℤ, pos, ◌-ℤ◌, ltb_ℤ, abs}
use trading_cat.Base.Action.{◌>>=◌, ◌>>◌, pure, raise_if, gets, when, catch}
use trading_cat.Store.Plans.{same_ℤ}
use trading_cat.Base.Tables.{select}
use trading_cat.Risk.{SyncStatus}
use trading_cat.Core.{
  CoreMethod, CoreError, AccountRow, SyncRun, RunStatus, Holding, position_sync,
  security_metadata_failed, broker_error,
}
use trading_cat.Core.Audits.{audit_core}
use trading_cat.Core.Accounts.{
  get_account, set_account_sync_status, begin_sync_run, finish_sync_run, replace_account_positions,
  no_failure, is_mismatch,
}
use trading_cat.Core.Sync.{
  BrokerPosition, Client, Securities, answer, or_zero, normalize_positions, hydrate, failing,
  is_nil, hydration_failure, degraded_status, degrade,
}
use trading_cat.Core.Sync.Loading.{freshness_seconds, is_recent}

-- The positions that are kept by hand, against the broker's.
abbrev of_symbol : String → Holding → Bool
of_symbol symbol h = str_eq h.symbol symbol

abbrev held_quantity : Option Holding → ℤ
held_quantity none = pos 0
held_quantity (some h) = h.quantity

-- More than 0.001 of a share apart, in billionths.
abbrev pub apart : ℤ → ℤ → Bool
apart a b = ltb_ℤ (pos 1000000) (abs (a -ℤ b))

abbrev pub broker_differs : List Holding → BrokerPosition → Bool
broker_differs hs p = apart (or_zero p.quantity) (held_quantity (select (of_symbol p.symbol) hs))

-- `float(0 or None)` raises.
abbrev amount_is_null : Option (Option ℤ) → Bool
amount_is_null (some none) = true
amount_is_null _ = false

abbrev pub has_no_amount : BrokerPosition → Bool
has_no_amount p = same_ℤ (or_zero p.quantity) (pos 0) && amount_is_null p.position_amount

abbrev type_error : CoreError
type_error = broker_error "TypeError" "float" false

abbrev pub holding_gone : List BrokerPosition → Holding → Bool
holding_gone ps h = not (any (λ p. str_eq p.symbol h.symbol) ps) && apart h.quantity (pos 0)

abbrev pub any_mismatch : List Holding → List BrokerPosition → Bool
any_mismatch hs ps = any (broker_differs hs) ps || any (holding_gone ps) hs

abbrev pub or_updated : Option ℕ → ℕ → ℕ
or_updated none updated = updated
or_updated (some at) updated = at

-- The four branches on the state of the account.
unfoldable pub settle_known : String → AccountRow → ℕ → CoreMethod Unit
settle_known account old now =
    when
      (is_mismatch old.sync_status
        && is_recent (or_updated old.last_success_at old.updated_at) freshness_seconds now)
      (set_account_sync_status account SyncStatus.synced no_failure now)

unfoldable pub settle_account :
    Securities → String → Bool → List String → Option AccountRow → ℕ → CoreMethod Unit
settle_account securities account true fs old now =
    set_account_sync_status account SyncStatus.mismatch no_failure now
settle_account securities account false (f ∷ fs) old now =
    set_account_sync_status account (degraded_status old) (hydration_failure securities (f ∷ fs))
      now
settle_account securities account false [] none now =
    set_account_sync_status account SyncStatus.unknown no_failure now
settle_account securities account false [] (some old) now = settle_known account old now

-- What the call returns: whether all agrees, and the status of the account afterwards.
pub record PositionReport : Type 0 where
  pub synced : Bool
  pub sync_status : SyncStatus

abbrev status_of : Option AccountRow → SyncStatus
status_of none = SyncStatus.unknown
status_of (some r) = r.sync_status

unfoldable pub positions_body :
    Client → Securities → String → SyncRun → ℕ → CoreMethod PositionReport
positions_body client securities account run now = do
  raw ← answer client.positions
  positions ← normalize_positions raw
  let fs = failing securities [] positions
  when (not (is_nil fs)) (audit_core security_metadata_failed account)
  local ← gets (λ s. s.portfolio)
  raise_if (any has_no_amount positions) type_error
  let wrong = any_mismatch local positions
  replace_account_positions account (map (hydrate securities) positions) run.sync_id
  old ← gets (get_account account)
  settle_account securities account wrong fs old now
  finish_sync_run run.sync_id
      (if not wrong && is_nil fs then RunStatus.synced else RunStatus.partial) no_failure
  audit_core position_sync account
  after ← gets (get_account account)
  pure (record { synced = not wrong && is_nil fs; sync_status = status_of after })

unfoldable pub positions_failed : CoreError → String → SyncRun → ℕ → CoreMethod PositionReport
positions_failed e account run now = do
  status ← degrade e account run now
  audit_core position_sync account
  pure (record { synced = false; sync_status = status })

unfoldable pub sync_positions :
    Client → Securities → String → String → ℕ → CoreMethod PositionReport
sync_positions client securities account key now = do
  run ← begin_sync_run key "positions" account
  catch (positions_body client securities account run now) (λ e. positions_failed e account run now)
