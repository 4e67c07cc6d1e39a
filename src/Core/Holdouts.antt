-- ===== src/Core/Holdouts.antt =====
-- shared/db.py: the sealed hold-outs of research, each of which may be looked at once, and the manifest
-- of a research plan.
pub mod Forward
pub mod Once
use trading_cat.Base.{
  ℕ, suc, String, Bool, true, false, not, ◌&&◌, ◌||◌, Option, none, some, List, [], ◌∷◌, ◌++◌,
  str_eq, any, if◌then◌else◌,
}
use trading_cat.Base.Action.{
  ◌>>=◌, ◌>>◌, pure, raise_if, or_raise, modify, gets, immediate_transaction,
}
use trading_cat.Base.Tables.{select, update_first}
use trading_cat.Store.{is_given}
use trading_cat.Core.{
  Core, CoreMethod, Holdout, HoldoutStatus, Manifest, holdout_sealed, holdout_opened,
  holdout_consumed, holdout_contaminated, integrity_error, holdout_not_sealed, holdout_not_opened,
  manifest_immutable,
}
use trading_cat.Core.Audits.{audit_core}

abbrev pub has_holdout_id : String → Holdout → Bool
has_holdout_id id h = str_eq h.holdout_id id

unfoldable pub get_research_holdout : String → Core → Option Holdout
get_research_holdout id s = select (has_holdout_id id) s.holdouts

unfoldable pub update_holdout : String → (Holdout → Holdout) → Core → Core
update_holdout id f s = record s { holdouts = update_first (has_holdout_id id) f s.holdouts }

abbrev pub is_candidate : Holdout → String → Bool
is_candidate h candidate = str_eq h.candidate_version_hash candidate

-- UNIQUE(symbol, data_version, holdout_start, holdout_end)
abbrev same_interval : Holdout → Holdout → Bool
same_interval a b =
    str_eq a.symbol b.symbol
    && (str_eq a.data_version b.data_version
        && (str_eq a.holdout_start b.holdout_start && str_eq a.holdout_end b.holdout_end))

-- The arguments of a `seal`.
pub record Sealing : Type 0 where
  pub holdout_id : String
  pub symbol : String
  pub data_version : String
  pub holdout_start : String
  pub holdout_end : String
  pub candidate_version_hash : String

abbrev pub new_holdout : Sealing → Holdout
new_holdout q = record {
  holdout_id = q.holdout_id;
  symbol = q.symbol;
  data_version = q.data_version;
  holdout_start = q.holdout_start;
  holdout_end = q.holdout_end;
  status = HoldoutStatus.sealed;
  candidate_version_hash = q.candidate_version_hash;
  opened_at = none;
  exposure_count = 0;
  result_json = none;
}

unfoldable pub add_holdout : Holdout → Core → Core
add_holdout h s = record s { holdouts = s.holdouts ++ h ∷ [] }

abbrev pub contaminate : Holdout → Holdout
contaminate h = record h { status = HoldoutStatus.contaminated }

unfoldable pub seal_row : Option Holdout → Sealing → CoreMethod Unit
seal_row none q = do
  rows ← gets (λ s. s.holdouts)
  raise_if (any (same_interval (new_holdout q)) rows) integrity_error
  modify (add_holdout (new_holdout q))
  audit_core holdout_sealed q.holdout_id
seal_row (some row) q =
    if not (is_candidate row q.candidate_version_hash)
    then (do
      modify (update_holdout q.holdout_id contaminate)
      audit_core holdout_contaminated q.holdout_id)
    else pure tt

unfoldable pub seal_body : Sealing → CoreMethod Unit
seal_body q = do row ← gets (get_research_holdout q.holdout_id); seal_row row q

unfoldable pub seal_research_holdout : Sealing → CoreMethod (Option Holdout)
seal_research_holdout q = do
  immediate_transaction (seal_body q)
  gets (get_research_holdout q.holdout_id)

pub data Opening : Type 0 where
  opened cached contaminated : Opening

-- The columns that a first opening sets, and those of any other.
abbrev pub open_row : ℕ → Holdout → Holdout
open_row now h = record h {
  status = HoldoutStatus.opened;
  opened_at = some now;
  exposure_count = suc h.exposure_count;
}

abbrev pub expose_row : Holdout → Holdout
expose_row h = record h {
  status = HoldoutStatus.contaminated;
  exposure_count = suc h.exposure_count;
}

abbrev pub is_sealed : HoldoutStatus → Bool
is_sealed HoldoutStatus.sealed = true
is_sealed _ = false

abbrev pub is_opened : HoldoutStatus → Bool
is_opened HoldoutStatus.opened = true
is_opened _ = false

abbrev pub is_consumed : HoldoutStatus → Bool
is_consumed HoldoutStatus.consumed = true
is_consumed _ = false

unfoldable pub open_found : Holdout → String → String → ℕ → CoreMethod Opening
open_found row id candidate now =
    if is_sealed row.status && is_candidate row candidate
    then (do
      modify (update_holdout id (open_row now))
      audit_core holdout_opened id
      pure Opening.opened)
    else if is_consumed row.status && is_candidate row candidate
    then pure Opening.cached
    else (do
      modify (update_holdout id expose_row)
      audit_core holdout_contaminated id
      pure Opening.contaminated)

unfoldable pub open_body : String → String → ℕ → CoreMethod Opening
open_body id candidate now = do
  found ← gets (get_research_holdout id)
  row ← or_raise found holdout_not_sealed
  open_found row id candidate now

-- The result is given out if there is one.
pub record Opened : Type 0 where
  pub outcome : Opening
  pub row : Holdout
  pub result : Option String

abbrev given_result : Option String → Option String
given_result o = if is_given o then o else none

unfoldable pub open_research_holdout : String → String → ℕ → CoreMethod Opened
open_research_holdout id candidate now = do
  outcome ← immediate_transaction (open_body id candidate now)
  found ← gets (get_research_holdout id)
  current ← or_raise found holdout_not_sealed
  pure (record { outcome = outcome; row = current; result = given_result current.result_json })

-- `row is None or status != OPENED or candidate differs`
abbrev pub not_open : Option Holdout → String → Bool
not_open none candidate = true
not_open (some row) candidate = not (is_opened row.status) || not (is_candidate row candidate)

abbrev pub consume_row : String → Holdout → Holdout
consume_row result h = record h { status = HoldoutStatus.consumed; result_json = some result }

unfoldable pub consume_body : String → String → String → CoreMethod Unit
consume_body id candidate result = do
  row ← gets (get_research_holdout id)
  raise_if (not_open row candidate) holdout_not_opened
  modify (update_holdout id (consume_row result))
  audit_core holdout_consumed id

-- The result is the JSON text of the caller's dictionary.
unfoldable pub consume_research_holdout : String → String → String → CoreMethod (Option Holdout)
consume_research_holdout id candidate result = do
  immediate_transaction (consume_body id candidate result)
  gets (get_research_holdout id)

abbrev has_manifest_id : String → Manifest → Bool
has_manifest_id id m = str_eq m.manifest_id id

unfoldable pub get_research_manifest : String → Core → Option Manifest
get_research_manifest id s = select (has_manifest_id id) s.manifests

unfoldable pub save_manifest : Option Manifest → Manifest → CoreMethod Unit
save_manifest none m = modify (λ s. record s { manifests = s.manifests ++ m ∷ [] })
save_manifest (some old) m =
    raise_if
      (not (str_eq old.payload_json m.payload_json)
        || (not (str_eq old.candidate_version_hash m.candidate_version_hash)
            || not (str_eq old.holdout_id m.holdout_id)))
      manifest_immutable

unfoldable pub save_research_manifest : Manifest → CoreMethod Unit
save_research_manifest m = do
  existing ← gets (get_research_manifest m.manifest_id)
  save_manifest existing m
