-- ===== src/Core/Accounts.antt =====
-- shared/db.py: the snapshots of accounts and the runs of their synchronization.
use Prim.Native.String.{compare}
use text.Mathlib.Text.{is_le}
use trading_cat.Base.{
  ℕ, suc, String, Bool, true, false, not, ◌&&◌, ◌||◌, Option, none, some, List, [], ◌∷◌, ◌++◌,
  str_eq, eqb, any, if◌then◌else◌,
}
use trading_cat.Base.Int.{ℤ}
use trading_cat.Base.Action.{◌>>=◌, ◌>>◌, pure, raise_if, modify, gets, immediate_transaction}
use trading_cat.Base.Tables.{select, select_all, update_first}
use trading_cat.Risk.{SyncStatus, is_synced}
use trading_cat.Core.{
  Core, CoreMethod, AccountRow, PositionRow, OrderRow, OrderKey, SyncRun, RunStatus, Failure,
  bad_sync_status, integrity_error,
}
use trading_cat.Core.Symbols.{upper}

-- `sync_status in ACCOUNT_SYNC_STATUSES`
abbrev pub is_sync_status : SyncStatus → Bool
is_sync_status (SyncStatus.other _) = false
is_sync_status _ = true

abbrev pub is_mismatch : SyncStatus → Bool
is_mismatch SyncStatus.mismatch = true
is_mismatch _ = false

abbrev pub no_failure : Failure
no_failure = record { error_type = none; error_message = none; retryable = false }

abbrev pub has_account_id : String → AccountRow → Bool
has_account_id id r = str_eq r.account_id id

unfoldable pub get_account : String → Core → Option AccountRow
get_account id s = select (has_account_id id) s.accounts

-- INSERT … ON CONFLICT(account_id) DO UPDATE.
unfoldable pub put_found :
    Option AccountRow → String → AccountRow → (AccountRow → AccountRow) → Core → Core
put_found none id new f s = record s { accounts = s.accounts ++ new ∷ [] }
put_found (some _) id new f s = record s {
  accounts = update_first (has_account_id id) f s.accounts;
}

unfoldable pub put_account : String → AccountRow → (AccountRow → AccountRow) → Core → Core
unfolding put_found
put_account id new f s = put_found (get_account id s) id new f s

-- The values of an `upsert_account`.
pub record AccountValues : Type 0 where
  pub sync_status : SyncStatus
  pub cash : Option ℤ
  pub buying_power : Option ℤ
  pub nav : Option ℤ
  pub source : String
  pub source_version : String
  pub snapshot_version : Option String

abbrev success_at : SyncStatus → ℕ → Option ℕ
success_at status now = if is_synced status then some now else none

abbrev pub new_account : String → AccountValues → ℕ → AccountRow
new_account id v now = record {
  account_id = id;
  sync_status = v.sync_status;
  cash = v.cash;
  buying_power = v.buying_power;
  nav = v.nav;
  updated_at = now;
  source = v.source;
  source_version = v.source_version;
  last_success_at = success_at v.sync_status now;
  last_attempt_at = some now;
  snapshot_version = v.snapshot_version;
  failure = no_failure;
}

abbrev coalesce : Option String → Option String → Option String
coalesce none b = b
coalesce (some a) b = some a

abbrev pub refreshed : AccountValues → ℕ → AccountRow → AccountRow
refreshed v now r = record r {
  sync_status = v.sync_status;
  cash = v.cash;
  buying_power = v.buying_power;
  nav = v.nav;
  updated_at = now;
  source = v.source;
  source_version = v.source_version;
  last_success_at =
      if is_synced v.sync_status || is_mismatch v.sync_status
      then success_at v.sync_status now
      else r.last_success_at;
  last_attempt_at = some now;
  snapshot_version = coalesce v.snapshot_version r.snapshot_version;
}

unfoldable pub upsert_account : String → AccountValues → ℕ → CoreMethod Unit
upsert_account id v now = do
  raise_if (not (is_sync_status v.sync_status)) bad_sync_status
  modify (put_account id (new_account id v now) (refreshed v now))

-- A row that only carries a status.
abbrev pub bare_account : String → SyncStatus → Failure → ℕ → AccountRow
bare_account id status failure now = record {
  account_id = id;
  sync_status = status;
  cash = none;
  buying_power = none;
  nav = none;
  updated_at = now;
  source = "unknown";
  source_version = "unknown";
  last_success_at = none;
  last_attempt_at = some now;
  snapshot_version = none;
  failure = failure;
}

abbrev pub restated : SyncStatus → Failure → ℕ → AccountRow → AccountRow
restated status failure now r = record r {
  sync_status = status;
  last_attempt_at = some now;
  failure = failure;
}

unfoldable pub set_account_sync_status : String → SyncStatus → Failure → ℕ → CoreMethod Unit
set_account_sync_status id status failure now = do
  raise_if (not (is_sync_status status)) bad_sync_status
  modify (put_account id (bare_account id status failure now) (restated status failure now))

unfoldable pub set_account_updated_at : String → ℕ → CoreMethod Unit
set_account_updated_at id at = modify (λ s. record s {
  accounts = update_first (has_account_id id) (λ r. record r { updated_at = at }) s.accounts;
})

-- A run under the caller's key, or under a key that the code makes up of the domain, the account and the
-- time.
abbrev has_run_key : String → SyncRun → Bool
has_run_key key r = str_eq r.idempotency_key key

unfoldable pub find_run : String → Core → Option SyncRun
find_run key s = select (has_run_key key) s.sync_runs

abbrev pub new_run : ℕ → String → String → String → SyncRun
new_run id key domain account = record {
  sync_id = id;
  idempotency_key = key;
  domain = domain;
  account_id = some account;
  status = RunStatus.running;
  failure = no_failure;
}

unfoldable pub start_run : Option SyncRun → String → String → String → CoreMethod SyncRun
start_run (some r) key domain account = pure r
start_run none key domain account = do
  id ← gets (λ s. s.next_sync_id)
  modify (λ s. record s {
    sync_runs = s.sync_runs ++ new_run id key domain account ∷ [];
    next_sync_id = suc id;
  })
  pure (new_run id key domain account)

unfoldable pub begin_sync_run : String → String → String → CoreMethod SyncRun
begin_sync_run key domain account = do
  existing ← gets (find_run key)
  start_run existing key domain account

abbrev has_sync_id : ℕ → SyncRun → Bool
has_sync_id id r = eqb r.sync_id id

abbrev finished : RunStatus → Failure → SyncRun → SyncRun
finished status failure r = record r { status = status; failure = failure }

unfoldable pub finish_sync_run : ℕ → RunStatus → Failure → CoreMethod Unit
finish_sync_run id status failure = modify (λ s. record s {
  sync_runs = update_first (has_sync_id id) (finished status failure) s.sync_runs;
})

-- A position of the broker's with what is known of its security.
pub record Hydrated : Type 0 where
  pub symbol : String
  pub quantity : ℤ
  pub cost_price : Option ℤ
  pub last_price : Option ℤ
  pub is_hydrated : Bool
  pub metadata_error : Option String

abbrev pub of_position : String → String → PositionRow → Bool
of_position account symbol r = str_eq r.account_id account && str_eq r.symbol symbol

abbrev pub position_row : String → ℕ → Hydrated → PositionRow
position_row account sync_id h = record {
  account_id = account;
  symbol = upper h.symbol;
  quantity = h.quantity;
  cost_price = h.cost_price;
  last_price = h.last_price;
  is_hydrated = h.is_hydrated;
  metadata_error = h.metadata_error;
  sync_id = sync_id;
}

unfoldable pub put_position : PositionRow → List PositionRow → List PositionRow
put_position new [] = new ∷ []
put_position new (r ∷ rs) =
    if of_position new.account_id new.symbol r then new ∷ rs else r ∷ put_position new rs

unfoldable pub put_positions : String → ℕ → List Hydrated → List PositionRow → List PositionRow
unfolding put_position
put_positions account sync_id [] rs = rs
put_positions account sync_id (h ∷ hs) rs =
    put_positions account sync_id hs (put_position (position_row account sync_id h) rs)

-- The rows that the DELETE leaves: of other accounts, or of symbols that the broker still names.
abbrev pub is_kept : String → List Hydrated → PositionRow → Bool
is_kept account hs r =
    not (str_eq r.account_id account) || any (λ h. str_eq (upper h.symbol) r.symbol) hs

unfoldable pub replace_account_positions : String → List Hydrated → ℕ → CoreMethod Unit
unfolding put_positions upper
replace_account_positions account hs sync_id = immediate_transaction (
    modify (λ s. record s {
      positions = put_positions account sync_id hs (select_all (is_kept account hs) s.positions);
    }))

-- ORDER BY symbol
unfoldable pub insert_by_symbol : PositionRow → List PositionRow → List PositionRow
insert_by_symbol r [] = r ∷ []
insert_by_symbol r (x ∷ xs) =
    if is_le (compare r.symbol x.symbol) then r ∷ x ∷ xs else x ∷ insert_by_symbol r xs

unfoldable pub by_symbol : List PositionRow → List PositionRow
unfolding insert_by_symbol
by_symbol [] = []
by_symbol (r ∷ rs) = insert_by_symbol r (by_symbol rs)

unfoldable pub list_account_positions : String → Core → List PositionRow
list_account_positions account s =
    by_symbol (select_all (λ r. str_eq r.account_id account) s.positions)

-- An order as the broker lists it.
pub record ListedOrder : Type 0 where
  pub order_id : Option String
  pub id : Option String
  pub symbol : String
  pub side : String

abbrev or_made : Option String → ListedOrder → ℕ → OrderKey
or_made none o index = OrderKey.made_key o.symbol o.side index
or_made (some t) o index =
    if str_eq t "" then OrderKey.made_key o.symbol o.side index else OrderKey.given_key t

abbrev or_id : Option String → ListedOrder → ℕ → OrderKey
or_id none o index = or_made o.id o index
or_id (some t) o index = if str_eq t "" then or_made o.id o index else OrderKey.given_key t

abbrev pub order_key : ListedOrder → ℕ → OrderKey
order_key o index = or_id o.order_id o index

abbrev same_order_key : OrderKey → OrderKey → Bool
same_order_key (OrderKey.given_key a) (OrderKey.given_key b) = str_eq a b
same_order_key (OrderKey.made_key a b i) (OrderKey.made_key c d j) =
    str_eq a c && (str_eq b d && eqb i j)
same_order_key _ _ = false

abbrev of_order : String → OrderKey → OrderRow → Bool
of_order account key r = str_eq r.account_id account && same_order_key r.order_key key

unfoldable pub insert_orders : String → ℕ → List ListedOrder → CoreMethod Unit
insert_orders account index [] = pure tt
insert_orders account index (o ∷ os) = do
  rows ← gets (λ s. s.orders)
  raise_if (any (of_order account (order_key o index)) rows) integrity_error
  modify (λ s. record s {
    orders = s.orders ++ record { account_id = account; order_key = order_key o index } ∷ [];
  })
  insert_orders account (suc index) os

unfoldable pub replace_account_orders : String → List ListedOrder → CoreMethod Unit
replace_account_orders account os = immediate_transaction (do
  modify (λ s. record s { orders = select_all (λ r. not (str_eq r.account_id account)) s.orders })
  insert_orders account 0 os)
