-- ===== src/Core/Quotas.antt =====
-- shared/db.py: `reserve_api_quota`, a counter for each scope and window of time.
pub mod Used
pub mod Metered
use trading_cat.Base.{
  ℕ, ◌-◌, ◌%◌, String, Bool, true, false, ◌&&◌, Option, none, some, List, [], ◌∷◌, ◌++◌, str_eq,
  eqb, if◌then◌else◌,
}
use trading_cat.Base.Int.{ℤ, pos, ◌+ℤ◌, leb_ℤ}
use trading_cat.Base.Action.{
  Result, ok, err, ◌>>=◌, ◌>>◌, pure, raise_if, modify, gets, immediate_transaction,
}
use trading_cat.Base.Tables.{select, update_first}
use trading_cat.Core.{Core, CoreMethod, CoreError, Quota, zero_window}

-- The arguments of one call, and its time.
pub record Reservation : Type 0 where
  pub scope : String
  pub amount : ℤ
  pub quota_limit : ℤ
  pub window_seconds : ℕ
  pub at : ℕ

abbrev pub has_key : String → ℕ → Quota → Bool
has_key scope start q = str_eq q.scope scope && eqb q.window_start start

abbrev pub window_of : Reservation → ℕ
window_of q = q.at - q.at % q.window_seconds

unfoldable pub get_quota : String → ℕ → Core → Option Quota
get_quota scope start s = select (has_key scope start) s.quotas

abbrev pub used_in : Option Quota → ℤ
used_in none = pos 0
used_in (some r) = r.used

abbrev pub limit_in : Option Quota → ℤ → ℤ
limit_in none limit = limit
limit_in (some r) limit = r.quota_limit

-- INSERT … ON CONFLICT(scope, window_start) DO UPDATE.
unfoldable pub put_quota : Option Quota → Quota → Core → Core
put_quota none new s = record s { quotas = s.quotas ++ new ∷ [] }
put_quota (some old) new s = record s {
  quotas = update_first (has_key new.scope new.window_start) (λ _. new) s.quotas;
}

abbrev pub reserved : Reservation → Option Quota → Quota
reserved q row = record {
  scope = q.scope;
  window_start = window_of q;
  used = used_in row +ℤ q.amount;
  quota_limit = limit_in row q.quota_limit;
}

abbrev pub is_allowed : Reservation → Option Quota → Bool
is_allowed q row =
    leb_ℤ (pos 0) q.amount && leb_ℤ (used_in row +ℤ q.amount) (limit_in row q.quota_limit)

-- What the call returns.
pub record Grant : Type 0 where
  pub allowed : Bool
  pub scope : String
  pub used : ℤ
  pub limit : ℤ
  pub window_start : ℕ

abbrev pub grant_of : Reservation → Option Quota → Grant
grant_of q row = record {
  allowed = is_allowed q row;
  scope = q.scope;
  used = if is_allowed q row then used_in row +ℤ q.amount else used_in row;
  limit = limit_in row q.quota_limit;
  window_start = window_of q;
}

unfoldable pub reserve_row : Reservation → Option Quota → CoreMethod Grant
reserve_row q row =
    if is_allowed q row
    then (do modify (put_quota row (reserved q row)); pure (grant_of q row))
    else pure (grant_of q row)

unfoldable pub reserve_body : Reservation → CoreMethod Grant
reserve_body q = do row ← gets (get_quota q.scope (window_of q)); reserve_row q row

-- The remainder by an empty window raises before the transaction.
unfoldable pub reserve_api_quota : Reservation → CoreMethod Grant
reserve_api_quota q = do
  raise_if (eqb q.window_seconds 0) zero_window
  immediate_transaction (reserve_body q)
