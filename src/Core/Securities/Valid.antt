-- ===== src/Core/Securities/Valid.antt =====
-- shared/security.py: what is returned of a security is complete and stored.
use mathlib.Core.Path.{subst, sym, ap, ◌∙◌}
use trading_cat.Base.{String, ◌≡◌, refl, false, Option, none, some, some_inj, same_text}
use trading_cat.Base.Action.{Result, ok, err, pure, raise, or_raise, gets, ◌>>=◌}
use trading_cat.Base.Action.Outcome.{OnOk, always-OnOk, bind-OnOk, gets-OnOk, raise_if-OnOk}
use trading_cat.Core.{Core, CoreError, SecurityRow}
use trading_cat.Core.Symbols.{normalize_symbol}
use trading_cat.Core.Securities.{
  lacks, bad_lot, check_row, check_metadata, answered, cached_row, cached, get_security, Provider,
  ask_and_store, ensure_found, ensure_metadata,
}

-- All that is required of a security is there, under the symbol that was asked for.
pub record IsComplete (symbol : String) (r : SecurityRow) : Type 0 where
  pub same_symbol : r.symbol ≡ normalize_symbol symbol
  pub full : lacks r ≡ false
  pub lot : bad_lot r.lot_size ≡ false

check_row-IsComplete :
    (symbol : String) (r : SecurityRow) (s : Core)
    → OnOk (λ x _. IsComplete symbol x) (check_row symbol r s)
unfolding check_row pure
check_row-IsComplete symbol r s = raise_if-OnOk _ _ _ _ s λ same. raise_if-OnOk _ _ _ _ s λ full.
    raise_if-OnOk _ _ _ _ s λ lot. record {
      same_symbol = same_text r.symbol (normalize_symbol symbol) same;
      full = full;
      lot = lot;
    }

answered-IsComplete :
    (symbol : String) (x : SecurityRow) (r : Result CoreError SecurityRow × Core)
    → OnOk (λ y _. IsComplete symbol y) r
    → answered r ≡ some x
    → IsComplete symbol x
answered-IsComplete symbol x (ok y, t) h e = subst (IsComplete symbol) (some_inj y x e) h
answered-IsComplete symbol x (err y, t) h e = cc

cached_row-IsComplete :
    (symbol : String) (o : Option SecurityRow) (s : Core) (x : SecurityRow)
    → cached_row symbol o s ≡ some x
    → IsComplete symbol x
unfolding cached_row check_metadata
cached_row-IsComplete symbol none s x e = cc
cached_row-IsComplete symbol (some r) s x e =
    answered-IsComplete symbol x _ (check_row-IsComplete symbol _ s) e

-- What is returned, and what the cache has afterwards.
record IsKnown (symbol : String) (r : SecurityRow) (t : Core) : Type 0 where
  pub row : SecurityRow
  pub stored : cached symbol t ≡ some row
  pub same : record r { metadata_source = row.metadata_source } ≡ row

or_raise-IsKnown :
    (symbol : String) (o : Option SecurityRow) (t : Core) (e : CoreError)
    → cached symbol t ≡ o
    → OnOk (IsKnown symbol) (or_raise o e t)
unfolding or_raise
or_raise-IsKnown symbol none t e h = tt
or_raise-IsKnown symbol (some r) t e h = record { row = r; stored = h; same = refl }

module _ (symbol : String) where
  ask_and_store-IsKnown :
      (o : Option Provider) (s : Core) → OnOk (IsKnown symbol) (ask_and_store o symbol s)
  unfolding ask_and_store raise
  ask_and_store-IsKnown none s = tt
  ask_and_store-IsKnown (some provider) s =
      bind-OnOk _ (λ _ _. Unit) _ _ s (always-OnOk _ (λ _ _. tt) _)
        λ told t _.
          bind-OnOk _ (λ _ _. Unit) _ _ t (always-OnOk _ (λ _ _. tt) _)
            λ _ u _. gets-OnOk _ _ _ u (or_raise-IsKnown symbol (cached symbol u) u _ refl)

  ensure_found-IsKnown :
      (found : Option SecurityRow) (o : Option Provider) (s : Core)
      → cached symbol s ≡ found
      → OnOk (IsKnown symbol) (ensure_found found o symbol s)
  unfolding ensure_found pure
  ensure_found-IsKnown none o s e = ask_and_store-IsKnown o s
  ensure_found-IsKnown (some r) o s e = record { row = r; stored = e; same = refl }

-- What a call that returns has made known: the cache holds the security, complete and under the symbol in
-- its normal form, and this is what is returned.
pub record IsHydrated (raw : String) (r : SecurityRow) (t : Core) : Type 0 where
  pub row : SecurityRow
  pub stored : cached (normalize_symbol raw) t ≡ some row
  pub same : record r { metadata_source = row.metadata_source } ≡ row
  pub complete : IsComplete (normalize_symbol raw) row

ensure_metadata-OnOk :
    (provider : Option Provider) (raw : String) (s : Core)
    → OnOk (IsHydrated raw) (ensure_metadata provider raw s)
unfolding ensure_metadata cached
ensure_metadata-OnOk provider raw s = gets-OnOk _ _ _ s (
    each _ (
      ensure_found-IsKnown (normalize_symbol raw) (cached (normalize_symbol raw) s) provider s
        refl))
  where
    each :
        (r : Result CoreError SecurityRow × Core)
        → OnOk (IsKnown (normalize_symbol raw)) r
        → OnOk (IsHydrated raw) r
    each (ok x, t) h = record {
      row = h.row;
      stored = h.stored;
      same = h.same;
      complete =
          cached_row-IsComplete (normalize_symbol raw) (get_security (normalize_symbol raw) t) t
            h.row h.stored;
    }
    each (err e, t) h = tt

-- If the metadata of a symbol are given out, whether from the cache or from the provider, then they are
-- complete, under the symbol in its normal form, and the store has them.
pub ensure_metadata-IsHydrated :
    (provider : Option Provider) (raw : String) (s t : Core) (r : SecurityRow)
    → ensure_metadata provider raw s ≡ (ok r, t)
    → IsHydrated raw r t
ensure_metadata-IsHydrated provider raw s t r h =
    subst (OnOk (IsHydrated raw)) h (ensure_metadata-OnOk provider raw s)

ensure_metadata-cached :
    (provider : Option Provider) (raw : String) (t : Core) (row : SecurityRow)
    → cached (normalize_symbol raw) t ≡ some row
    → ensure_metadata provider raw t ≡ (ok (record row { metadata_source = "security_master" }), t)
unfolding ensure_metadata ensure_found pure gets ◌>>=◌
ensure_metadata-cached provider raw t row h =
    ap (λ found. ensure_found found provider (normalize_symbol raw) t) h

-- Once the metadata of a symbol have been given out, any later call on that store gives the same from the
-- store, marked so, whatever provider it has, and changes nothing.
pub ensure_metadata-again :
    (provider later : Option Provider) (raw : String) (s t : Core) (r : SecurityRow)
    → ensure_metadata provider raw s ≡ (ok r, t)
    → ensure_metadata later raw t ≡ (ok (record r { metadata_source = "security_master" }), t)
ensure_metadata-again provider later raw s t r h =
    let known = ensure_metadata-IsHydrated provider raw s t r h in
    ensure_metadata-cached later raw t known.row known.stored
    ∙ ap (λ x. (ok (record x { metadata_source = "security_master" }), t)) (sym known.same)
