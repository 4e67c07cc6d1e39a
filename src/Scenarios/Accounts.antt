-- ===== src/Scenarios/Accounts.antt =====
-- An account that a position sync found to be a mismatch, and what a broker answers for it.
use trading_cat.Base.{◌≡◌, refl, some, none, [], ◌∷◌}
use trading_cat.Base.Int.{pos}
use trading_cat.Base.Action.{ok, ◌>>=◌, catch, when}
use trading_cat.Base.Action.Outcome.{IsTotal}
use trading_cat.Risk.{SyncStatus}
use trading_cat.Core.{Core, AccountRow, empty_core}
use trading_cat.Core.Audits.{audit_core, write_core}
use trading_cat.Core.Accounts.{
  get_account, put_account, put_found, begin_sync_run, find_run, start_run, finish_sync_run,
  replace_account_positions, put_positions, set_account_sync_status, no_failure, bare_account,
}
use trading_cat.Core.Sync.{
  Client, Assets, BrokerPosition, Securities, hydrated, answer, normalize_positions, failing,
}
use trading_cat.Core.Sync.Holdings.{positions_body, settle_account, settle_known, sync_positions}
use trading_cat.Core.Sync.Account.{sync_account}
use trading_cat.Core.Sync.Rows.{InMismatch}
use trading_cat.Core.Sync.Total.{sync_account-IsTotal}
use trading_cat.Core.Sync.Closed.{sync_account-InMismatch}
use trading_cat.Core.Sync.Positions.{Allows, sync_positions-Allows}

-- Everything that a run computes with, under one name.
unfoldable opened_sync : Unit {0}
unfolding get_account put_account put_found set_account_sync_status begin_sync_run find_run
    start_run finish_sync_run sync_positions positions_body normalize_positions failing
    replace_account_positions put_positions settle_account settle_known audit_core write_core answer
    catch when ◌>>=◌
opened_sync = tt

abbrev assets : Assets
assets = record {
  total_cash = none;
  cash = some (pos 500);
  buying_power = some (pos 900);
  net_buying_power = none;
  max_finance_amount = none;
  net_assets = some (pos 1000);
  nav = none;
  equity = none;
}

abbrev held : BrokerPosition
held = record {
  symbol = " nvda.us ";
  quantity = some (pos 7);
  position_amount = none;
  cost_price = none;
  last_price = some (pos 3);
}

abbrev pub client : Client
client = record {
  assets = ok (some assets);
  positions = ok (held ∷ []);
  orders = ok [];
  source_version = "longbridge.v1";
}

abbrev pub all_known : Securities
all_known symbol = hydrated

abbrev mismatch : Core
mismatch = (set_account_sync_status "main" SyncStatus.mismatch no_failure 50 empty_core).1

sync_account-IsTotal_example : IsTotal (sync_account client all_known "main" "k1" 60 mismatch)
sync_account-IsTotal_example = sync_account-IsTotal client all_known "main" "k1" 60 mismatch

sync_account-InMismatch_example :
    InMismatch "main" (sync_account client all_known "main" "k1" 60 mismatch).1
unfolding get_account put_account set_account_sync_status ◌>>=◌
sync_account-InMismatch_example =
    sync_account-InMismatch client all_known "main" "k1" 60 mismatch
      (bare_account "main" SyncStatus.mismatch no_failure 50, (refl, refl))

-- The broker holds nothing and neither does the portfolio: the mismatch is over, though no assets were
-- ever read.
abbrev bare : Client
bare = record client { positions = ok [] }

abbrev recovered : AccountRow
recovered = record (bare_account "main" SyncStatus.synced no_failure 50) {
  last_attempt_at = some 60;
}

sync_positions-Allows_example :
    (old : AccountRow) × ((get_account "main" mismatch ≡ some old) × Allows 60 old)
unfolding opened_sync
sync_positions-Allows_example =
    sync_positions-Allows bare all_known "main" "k1" 60 mismatch recovered refl refl
