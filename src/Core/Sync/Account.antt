-- ===== src/Core/Sync/Account.antt =====
-- shared/account.py, `sync_account`.
use trading_cat.Base.{
  ℕ, String, Bool, false, not, ◌&&◌, Option, none, some, List, [], ◌∷◌, map, if◌then◌else◌,
}
use trading_cat.Base.Int.{ℤ}
use trading_cat.Base.Action.{◌>>=◌, ◌>>◌, pure, or_raise, gets, when, catch}
use trading_cat.Risk.{AccountState, SyncStatus, is_synced}
use trading_cat.Risk.Orders.{Position}
use trading_cat.Core.{
  CoreMethod, CoreError, AccountRow, SyncRun, RunStatus, broker_error, account_sync,
  security_metadata_failed,
}
use trading_cat.Core.Audits.{audit_core}
use trading_cat.Core.Accounts.{
  get_account, AccountValues, upsert_account, set_account_sync_status, begin_sync_run,
  finish_sync_run, replace_account_positions, list_account_positions, replace_account_orders,
  no_failure, is_mismatch,
}
use trading_cat.Core.Sync.{
  Assets, BrokerPosition, Client, Securities, answer, or_zero, normalize_positions, hydrate,
  failing, is_nil, hydration_failure, degraded_status, stored_position, degrade,
}

-- `first_present`
abbrev pub first_present : List (Option ℤ) → Option ℤ
first_present [] = none
first_present (none ∷ os) = first_present os
first_present (some a ∷ os) = some a

abbrev pub cash_of : Assets → Option ℤ
cash_of a = first_present (a.total_cash ∷ a.cash ∷ [])

abbrev pub buying_power_of : Assets → Option ℤ
buying_power_of a = first_present (a.buying_power ∷ a.net_buying_power ∷ a.max_finance_amount ∷ [])

abbrev pub nav_of : Assets → Option ℤ
nav_of a = first_present (a.net_assets ∷ a.nav ∷ a.equity ∷ [])

abbrev was_mismatch : Option AccountRow → Bool
was_mismatch none = false
was_mismatch (some old) = is_mismatch old.sync_status

-- A mismatch stays; otherwise SYNCED, unless a security is unknown.
abbrev pub persisted_status : Option AccountRow → List String → SyncStatus
persisted_status old fs =
    if was_mismatch old && is_nil fs
    then SyncStatus.mismatch
    else if is_nil fs
    then SyncStatus.synced
    else degraded_status old

abbrev pub to_position : BrokerPosition → Position
to_position p = record {
  symbol = p.symbol;
  quantity = or_zero p.quantity;
  last_price = or_zero p.last_price;
}

abbrev pub values_of : Client → Assets → SyncStatus → ℕ → AccountValues
values_of client a status now = record {
  sync_status = status;
  cash = cash_of a;
  buying_power = buying_power_of a;
  nav = nav_of a;
  source = "longbridge";
  source_version = client.source_version;
  snapshot_version = some client.source_version;
}

-- The end of a synchronization: the account's row and the run's.
unfoldable pub write_account :
    Client → Securities → String → Assets → List String → SyncStatus → SyncRun → ℕ → CoreMethod Unit
write_account client securities account a fs status run now =
    if is_nil fs
    then (do
      upsert_account account (values_of client a status now) now
      finish_sync_run run.sync_id (if is_synced status then RunStatus.synced else RunStatus.partial)
          no_failure)
    else (do
      set_account_sync_status account status (hydration_failure securities fs) now
      finish_sync_run run.sync_id RunStatus.partial no_failure)

abbrev pub state_of : Assets → SyncStatus → List BrokerPosition → AccountState
state_of a status ps = record {
  sync_status = status;
  cash = cash_of a;
  buying_power = buying_power_of a;
  nav = nav_of a;
  positions = map to_position ps;
}

abbrev no_assets : CoreError
no_assets = broker_error "RuntimeError" "assets" false

-- The body of the `try` of `sync_account`.
unfoldable pub sync_body : Client → Securities → String → SyncRun → ℕ → CoreMethod AccountState
sync_body client securities account run now = do
  found ← answer client.assets
  assets ← or_raise found no_assets
  raw ← answer client.positions
  positions ← normalize_positions raw
  let fs = failing securities [] positions
  when (not (is_nil fs)) (audit_core security_metadata_failed account)
  old ← gets (get_account account)
  orders ← answer client.orders
  replace_account_positions account (map (hydrate securities) positions) run.sync_id
  replace_account_orders account orders
  write_account client securities account assets fs (persisted_status old fs) run now
  audit_core account_sync account
  pure (state_of assets (persisted_status old fs) positions)

unfoldable pub sync_failed : CoreError → String → SyncRun → ℕ → CoreMethod AccountState
sync_failed e account run now = do
  status ← degrade e account run now
  audit_core account_sync account
  rows ← gets (list_account_positions account)
  pure (record {
    sync_status = status;
    cash = none;
    buying_power = none;
    nav = none;
    positions = map stored_position rows;
  })

-- `sync_account`, under the caller's idempotency key or the one that the code makes up.
unfoldable pub sync_account : Client → Securities → String → String → ℕ → CoreMethod AccountState
sync_account client securities account key now = do
  run ← begin_sync_run key "account" account
  catch (sync_body client securities account run now) (λ e. sync_failed e account run now)
