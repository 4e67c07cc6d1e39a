-- ===== src/Scenarios/Securities.antt =====
-- A security that the provider tells of at the second attempt.
use trading_cat.Base.{String, List, none, [], ◌∷◌, ◌≡◌, refl, true, some, leb, if◌then◌else◌}
use trading_cat.Base.Action.{ok, err, ◌>>=◌, catch}
use trading_cat.Base.Int.{ℤ}
use trading_cat.Core.{Core, SecurityRow, broker_error, empty_core}
use trading_cat.Core.Symbols.{upper, normalize_symbol}
use trading_cat.Core.Securities.{
  Provider, ask, answer_of, validate, check_metadata, check_row, upsert_security, put_security,
  cached, cached_row, get_security, ask_and_store, ensure_found, ensure_metadata, from_provider,
  ensure_batch,
}
use trading_cat.Core.Securities.Batch.{Returned, ensure_batch-Returned}
use trading_cat.Core.Securities.Valid.{
  IsHydrated, ensure_metadata-IsHydrated, ensure_metadata-again,
}

abbrev told : SecurityRow
told = record {
  symbol = "nvda.us";
  name = "NVIDIA";
  exchange = "NASD";
  currency = "USD";
  sector = "UNKNOWN";
  asset_type = "EQUITY";
  beta = ℤ.pos 1000000000;
  leverage = ℤ.pos 1000000000;
  lot_size = some (ℤ.pos 1);
  metadata_source = "unknown";
  metadata_version = "v1";
}

abbrev provider : Provider
provider symbol attempt =
    if leb attempt 1 then err (broker_error "Timeout" "" true) else ok (some told)

abbrev known : Core
known = (ensure_metadata (some provider) " nvda.us " empty_core).1

ensure_metadata-IsHydrated_example :
    IsHydrated " nvda.us " (from_provider (record told { symbol = "NVDA.US" })) known
unfolding normalize_symbol upper ask answer_of validate check_metadata check_row upsert_security
    put_security cached cached_row get_security ask_and_store ensure_found ensure_metadata ◌>>=◌
    catch
ensure_metadata-IsHydrated_example =
    ensure_metadata-IsHydrated (some provider) " nvda.us " empty_core known
      (from_provider (record told { symbol = "NVDA.US" })) refl

ensure_metadata-again_example :
    ensure_metadata none "NVDA.US" known
    ≡ (ok (record told { symbol = "NVDA.US"; metadata_source = "security_master" }), known)
unfolding normalize_symbol upper ask answer_of validate check_metadata check_row upsert_security
    ensure_metadata ◌>>=◌ ensure_found cached cached_row get_security ask_and_store catch
    put_security
ensure_metadata-again_example =
    ensure_metadata-again (some provider) none "NVDA.US" empty_core known
      (from_provider (record told { symbol = "NVDA.US" })) refl

-- The second is the first again, the third is empty, and of the last nothing is known, though the answer that
-- the provider has is for another symbol.
abbrev batch : List String
batch = "nvda.us" ∷ " NVDA.US" ∷ "" ∷ "bad.us" ∷ []

ensure_batch-Returned_example :
    Returned batch empty_core (ensure_batch (some provider) batch empty_core)
ensure_batch-Returned_example = ensure_batch-Returned (some provider) batch empty_core
