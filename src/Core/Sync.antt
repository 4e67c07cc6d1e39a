-- ===== src/Core/Sync.antt =====
-- shared/account.py: the state of an account against the broker's. What the broker's client answers is a
-- parameter, and so is what the service of securities says of a symbol; that service, with the tables that it
-- writes, is Core/Securities.
pub mod Account
pub mod Loading
pub mod Holdings
pub mod Total
pub mod Rows
pub mod Closed
pub mod Positions
use trading_cat.Base.{
  ℕ, ◌-◌, length, String, Bool, true, false, not, ◌&&◌, ◌||◌, Option, none, some, List, [], ◌∷◌,
  ◌++◌, str_eq, any, leb, map, if◌then◌else◌, is_some,
}
use trading_cat.Base.Int.{ℤ, pos, ◌-ℤ◌, ltb_ℤ, abs}
use trading_cat.Base.Action.{
  Result, ok, err, ◌>>=◌, ◌>>◌, pure, raise, raise_if, or_raise, modify, gets, when, catch,
}
use trading_cat.Base.Tables.{select, select_all}
use trading_cat.Store.{is_given}
use trading_cat.Risk.{AccountState, SyncStatus, is_synced}
use trading_cat.Risk.Orders.{Position}
use trading_cat.Core.{
  Core, CoreMethod, CoreError, AccountRow, PositionRow, SyncRun, RunStatus, Failure, Holding,
  broker_error, account_sync, position_sync, security_metadata_failed,
}
use trading_cat.Core.Audits.{audit_core}
use trading_cat.Core.Symbols.{normalize_symbol}
use trading_cat.Core.Accounts.{
  get_account, AccountValues, upsert_account, set_account_sync_status, begin_sync_run,
  finish_sync_run, Hydrated, replace_account_positions, list_account_positions, ListedOrder,
  replace_account_orders, no_failure, is_mismatch,
}

-- What the broker answers: the values of `assets()` that the code asks for.
pub record Assets : Type 0 where
  pub total_cash : Option ℤ
  pub cash : Option ℤ
  pub buying_power : Option ℤ
  pub net_buying_power : Option ℤ
  pub max_finance_amount : Option ℤ
  pub net_assets : Option ℤ
  pub nav : Option ℤ
  pub equity : Option ℤ

pub record BrokerPosition : Type 0 where
  pub symbol : String
  pub quantity : Option ℤ
  -- `none` is a missing key, `some none` is None.
  pub position_amount : Option (Option ℤ)
  pub cost_price : Option ℤ
  pub last_price : Option ℤ

-- Each query raises or answers; `none` are assets that are empty.
pub record Client : Type 0 where
  pub assets : Result CoreError (Option Assets)
  pub positions : Result CoreError (List BrokerPosition)
  pub orders : Result CoreError (List ListedOrder)
  pub source_version : String

-- What is known of a security: all that is required, or the reason why not and whether a retry may help.
pub data Security : Type 0 where
  hydrated : Security
  refused : String → Bool → Security

abbrev pub Securities : Type 0
Securities = String → Security

unfoldable pub answer : {A : Type 0} → Result CoreError A → CoreMethod A
answer (ok a) = pure a
answer (err e) = raise e

-- `position.get("quantity", 0) or position.get("position_amount", 0) or 0`
abbrev nonzero : Option ℤ → Option ℤ
nonzero (some (pos ℕ.zero)) = none
nonzero o = o

abbrev pub or_zero : Option ℤ → ℤ
or_zero none = pos 0
or_zero (some a) = a

abbrev or_amount : Option ℤ → Option ℤ → ℤ
or_amount (some a) other = a
or_amount none other = or_zero other

abbrev flat : Option (Option ℤ) → Option ℤ
flat none = none
flat (some o) = o

abbrev empty_symbol : CoreError
empty_symbol = broker_error "ValueError" "UNKNOWN_METADATA: position symbol is empty" false

-- A position with its symbol and quantity in one form.
abbrev pub normalized : BrokerPosition → BrokerPosition
normalized p = record p {
  symbol = normalize_symbol p.symbol;
  quantity = some (or_amount (nonzero p.quantity) (flat p.position_amount));
}

unfoldable pub normalize_position : BrokerPosition → CoreMethod BrokerPosition
unfolding normalize_symbol
normalize_position p = do
  raise_if (str_eq (normalize_symbol p.symbol) "") empty_symbol
  pure (normalized p)

unfoldable pub normalize_positions : List BrokerPosition → CoreMethod (List BrokerPosition)
normalize_positions [] = pure []
normalize_positions (p ∷ ps) = do
  q ← normalize_position p
  qs ← normalize_positions ps
  pure (q ∷ qs)

abbrev is_known : Security → Bool
is_known hydrated = true
is_known (refused _ _) = false

abbrev reason_of : Security → Option String
reason_of hydrated = none
reason_of (refused t _) = some t

abbrev pub hydrate : Securities → BrokerPosition → Hydrated
hydrate securities p = record {
  symbol = p.symbol;
  quantity = or_zero p.quantity;
  cost_price = p.cost_price;
  last_price = p.last_price;
  is_hydrated = is_known (securities p.symbol);
  metadata_error = reason_of (securities p.symbol);
}

-- The symbols that `ensure_batch` fails on, each once, in order.
abbrev pub is_refused : Securities → BrokerPosition → Bool
is_refused securities p = not (is_known (securities p.symbol))

unfoldable pub failing : Securities → List String → List BrokerPosition → List String
failing securities seen [] = []
failing securities seen (p ∷ ps) =
    let rest = failing securities seen ps in
    let more = failing securities (p.symbol ∷ seen) ps in
    if any (λ t. str_eq t p.symbol) seen || not (is_refused securities p)
    then rest
    else p.symbol ∷ more

abbrev pub is_nil : {A : Type 0} → List A → Bool
is_nil [] = true
is_nil (_ ∷ _) = false

abbrev may_retry : Securities → String → Bool
may_retry securities symbol = elim (securities symbol) [
  | hydrated ↦ false
  | refused _ retryable ↦ retryable
]

-- The text is the JSON of the failures, of which the symbols are kept here.
abbrev pub hydration_failure : Securities → List String → Failure
hydration_failure securities fs = record {
  error_type = some "MetadataHydrationError";
  error_message = some "metadata";
  retryable = any (may_retry securities) fs;
}

abbrev pub degraded_status : Option AccountRow → SyncStatus
degraded_status none = SyncStatus.unknown
degraded_status (some old) =
    if is_mismatch old.sync_status then SyncStatus.mismatch else SyncStatus.stale

abbrev pub stored_position : PositionRow → Position
stored_position r = record {
  symbol = r.symbol;
  quantity = r.quantity;
  last_price = or_zero r.last_price;
}

abbrev pub failure_of : CoreError → Failure
failure_of (broker_error kind text retryable) = record {
  error_type = some kind;
  error_message = some text;
  retryable = retryable;
}
failure_of _ = record {
  error_type = some "IntegrityError";
  error_message = some "constraint";
  retryable = false;
}

-- The `except`: the account is degraded, the run has failed, and nothing is raised.
unfoldable pub degrade : CoreError → String → SyncRun → ℕ → CoreMethod SyncStatus
degrade e account run now = do
  old ← gets (get_account account)
  set_account_sync_status account (degraded_status old) (failure_of e) now
  finish_sync_run run.sync_id RunStatus.failed (failure_of e)
  pure (degraded_status old)
