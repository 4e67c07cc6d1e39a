-- ===== src/Core/Sync/Loading.antt =====
-- shared/account.py: `load` and `ensure_synced`.
use trading_cat.Base.{
  ℕ, ◌-◌, String, Bool, false, not, ◌&&◌, Option, none, some, List, [], leb, map, if◌then◌else◌,
}
use trading_cat.Base.Action.{◌>>=◌, ◌>>◌, pure, gets}
use trading_cat.Risk.{AccountState, SyncStatus, is_synced}
use trading_cat.Core.{Core, CoreMethod, AccountRow, PositionRow}
use trading_cat.Core.Accounts.{
  get_account, set_account_sync_status, list_account_positions, no_failure,
}
use trading_cat.Core.Sync.{stored_position}

-- `load`
abbrev loaded : AccountRow → List PositionRow → AccountState
loaded r ps = record {
  sync_status = r.sync_status;
  cash = r.cash;
  buying_power = r.buying_power;
  nav = r.nav;
  positions = map stored_position ps;
}

abbrev pub unknown_account : AccountState
unknown_account = record {
  sync_status = SyncStatus.unknown;
  cash = none;
  buying_power = none;
  nav = none;
  positions = [];
}

abbrev pub load_row : Option AccountRow → List PositionRow → AccountState
load_row none ps = unknown_account
load_row (some r) ps = loaded r ps

unfoldable pub load : String → Core → AccountState
load account s = load_row (get_account account s) (list_account_positions account s)

abbrev pub freshness_seconds : ℕ
freshness_seconds = 1800

-- `0 <= age <= max_age_seconds`
abbrev pub is_recent : ℕ → ℕ → ℕ → Bool
is_recent at max_age now = leb at now && leb (now - at) max_age

abbrev is_row_recent : Option AccountRow → ℕ → ℕ → Bool
is_row_recent none max_age now = false
is_row_recent (some r) max_age now = is_recent r.updated_at max_age now

unfoldable pub ensure_synced : String → ℕ → ℕ → CoreMethod AccountState
ensure_synced account max_age now = do
  state ← gets (load account)
  row ← gets (get_account account)
  if is_synced state.sync_status && not (is_row_recent row max_age now)
      then (do
        set_account_sync_status account SyncStatus.stale no_failure now
        pure (record state { sync_status = SyncStatus.stale }))
      else pure state
