-- ===== src/Core/Securities.antt =====
-- shared/security.py and shared/db.py: what is known of a security. The provider that is asked on a miss is
-- a parameter: for each attempt it raises, or answers with what it knows. Of an error's text only the reason
-- is kept, and the cut of a long text to 500 characters is left out.
pub mod Batch
pub mod Valid
use trading_cat.Base.{
  ℕ, suc, zero, String, Bool, true, false, not, ◌&&◌, ◌||◌, Option, none, some, List, [], ◌∷◌, ◌++◌,
  str_eq, any, leb, if◌then◌else◌,
}
use trading_cat.Base.Int.{ℤ, pos, negsuc, leb_ℤ}
use trading_cat.Base.Action.{
  Result, ok, err, ◌>>=◌, ◌>>◌, pure, raise, raise_if, or_raise, modify, gets, catch,
}
use trading_cat.Base.Tables.{select, update_first}
use trading_cat.Core.{Core, CoreMethod, CoreError, SecurityRow, SecurityFailure, broker_error}
use trading_cat.Core.Symbols.{upper, normalize_symbol}

abbrev has_symbol : String → SecurityRow → Bool
has_symbol symbol r = str_eq r.symbol symbol

unfoldable pub get_security : String → Core → Option SecurityRow
unfolding upper
get_security symbol s = select (has_symbol (upper symbol)) s.securities

-- INSERT … ON CONFLICT(symbol) DO UPDATE of all columns.
unfoldable pub put_security : Option SecurityRow → SecurityRow → Core → Core
put_security none row s = record s { securities = s.securities ++ row ∷ [] }
put_security (some _) row s = record s {
  securities = update_first (has_symbol row.symbol) (λ _. row) s.securities;
}

abbrev pub in_capitals : SecurityRow → SecurityRow
in_capitals r = record r {
  symbol = upper r.symbol;
  exchange = upper r.exchange;
  currency = upper r.currency;
  sector = upper r.sector;
  asset_type = upper r.asset_type;
}

unfoldable pub upsert_security : SecurityRow → CoreMethod Unit
unfolding upper
upsert_security r = do
  old ← gets (λ s. select (has_symbol (upper r.symbol)) s.securities)
  modify (put_security old (in_capitals r))

unfoldable pub record_security_failure : SecurityFailure → CoreMethod Unit
record_security_failure f = modify (λ s. record s {
  security_failures = s.security_failures ++ record f { symbol = upper f.symbol } ∷ [];
})

-- What a provider tells, or a row of the cache; the version is already chosen from the three fields of it.
abbrev unknown_metadata : String → CoreError
unknown_metadata text = broker_error "UnknownSecurityMetadataError" text false

-- `not value or value.upper() == "UNKNOWN"`
abbrev pub is_unknown_text : String → Bool
is_unknown_text t = str_eq t "" || str_eq (upper t) "UNKNOWN"

-- `lot_size not in (None, "", 0) and lot_size <= 0`
abbrev pub bad_lot : Option ℤ → Bool
bad_lot none = false
bad_lot (some n) = not (leb_ℤ (pos 0) n)

abbrev pub lacks : SecurityRow → Bool
lacks r =
    is_unknown_text r.symbol
    || (is_unknown_text r.name
        || (is_unknown_text r.exchange
            || (is_unknown_text r.currency || is_unknown_text r.asset_type)))

unfoldable pub check_row : String → SecurityRow → CoreMethod SecurityRow
check_row symbol r = do
  raise_if (not (str_eq r.symbol (normalize_symbol symbol))) (unknown_metadata "mismatch")
  raise_if (lacks r) (unknown_metadata "missing")
  raise_if (bad_lot r.lot_size) (unknown_metadata "lot_size")
  pure r

unfoldable pub check_metadata : String → SecurityRow → CoreMethod SecurityRow
check_metadata symbol r = check_row symbol (record r { symbol = upper r.symbol })

-- `_validate`
unfoldable pub validate : String → Option SecurityRow → CoreMethod SecurityRow
validate symbol none = raise (unknown_metadata symbol)
validate symbol (some r) = check_metadata symbol r

-- `cached`: a row that does not validate is none. Validation raises nothing else and writes nothing.
abbrev pub answered : Result CoreError SecurityRow × Core → Option SecurityRow
answered (ok r, s) = some r
answered (err e, s) = none

unfoldable pub cached_row : String → Option SecurityRow → Core → Option SecurityRow
cached_row symbol none s = none
cached_row symbol (some r) s = answered (check_metadata symbol r s)

unfoldable pub cached : String → Core → Option SecurityRow
cached symbol s = cached_row symbol (get_security symbol s) s

-- The answer of each attempt for a symbol; an exception says whether a retry may help.
abbrev pub Provider : Type 0
Provider = String → ℕ → Result CoreError (Option SecurityRow)

unfoldable pub answer_of : Result CoreError (Option SecurityRow) → CoreMethod (Option SecurityRow)
answer_of (ok o) = pure o
answer_of (err e) = raise e

abbrev pub is_retryable : CoreError → Bool
is_retryable (broker_error _ _ retryable) = retryable
is_retryable _ = false

abbrev pub max_provider_attempts : ℕ
max_provider_attempts = 2

-- The attempts that are left; the last one, or an error that does not say that a retry may help, raises.
unfoldable pub ask : Provider → String → ℕ → ℕ → CoreMethod SecurityRow
ask provider symbol attempt zero = do
  told ← answer_of (provider symbol attempt)
  validate symbol told
ask provider symbol attempt (suc left) =
    let again = ask provider symbol (suc attempt) left in
    catch (answer_of (provider symbol attempt) >>= validate symbol)
      (λ e. if is_retryable e then again else raise e)

abbrev pub from_provider : SecurityRow → SecurityRow
from_provider r = record r { metadata_source = "provider" }

unfoldable pub ask_and_store : Option Provider → String → CoreMethod SecurityRow
ask_and_store none symbol = raise (unknown_metadata symbol)
ask_and_store (some provider) symbol = do
  told ← ask provider symbol 1 1
  upsert_security (from_provider told)
  stored ← gets (cached symbol)
  or_raise stored (unknown_metadata "incomplete")

unfoldable pub ensure_found : Option SecurityRow → Option Provider → String → CoreMethod SecurityRow
ensure_found (some r) provider symbol = pure (record r { metadata_source = "security_master" })
ensure_found none provider symbol = ask_and_store provider symbol

unfoldable pub ensure_metadata : Option Provider → String → CoreMethod SecurityRow
ensure_metadata provider raw = do
  found ← gets (cached (normalize_symbol raw))
  ensure_found found provider (normalize_symbol raw)

-- One item of the answer of `ensure_batch`.
pub record Item : Type 0 where
  pub symbol : String
  pub known : Result CoreError SecurityRow

abbrev pub failure_of : String → CoreError → SecurityFailure
failure_of symbol (broker_error kind text retryable) = record {
  symbol = symbol;
  error_type = kind;
  error_message = text;
  retryable = retryable;
}
failure_of symbol _ = record {
  symbol = symbol;
  error_type = "IntegrityError";
  error_message = "constraint";
  retryable = false;
}

unfoldable pub item_of : Option Provider → String → CoreMethod Item
item_of provider symbol = do
  r ← ensure_metadata provider symbol
  pure (record { symbol = symbol; known = ok r })

unfoldable pub failed_item : String → CoreError → CoreMethod Item
failed_item symbol e = do
  record_security_failure (failure_of symbol e)
  pure (record { symbol = symbol; known = err e })

-- Each symbol once, in order.
unfoldable pub ensure_each : Option Provider → List String → List String → CoreMethod (List Item)
ensure_each provider seen [] = pure []
ensure_each provider seen (raw ∷ raws) =
    let symbol = normalize_symbol raw in
    let skipped = ensure_each provider seen raws in
    let rest = ensure_each provider (symbol ∷ seen) raws in
    if str_eq symbol "" || any (str_eq symbol) seen then skipped else (do
      item ← catch (item_of provider symbol) (failed_item symbol)
      items ← rest
      pure (item ∷ items))

unfoldable pub ensure_batch : Option Provider → List String → CoreMethod (List Item)
ensure_batch provider symbols = ensure_each provider [] symbols
