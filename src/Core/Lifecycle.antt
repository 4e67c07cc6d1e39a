-- ===== src/Core/Lifecycle.antt =====
-- shared/db.py: the life of a symbol in research, and how often it has failed.
pub mod Counted
use trading_cat.Base.{
  ℕ, suc, String, Bool, true, false, not, ◌&&◌, ◌||◌, Option, none, some, List, [], ◌∷◌, ◌++◌,
  str_eq, if◌then◌else◌,
}
use trading_cat.Base.Int.{ℤ}
use trading_cat.Base.Action.{◌>>=◌, ◌>>◌, raise_if, modify, gets}
use trading_cat.Base.Tables.{select, update_first}
use trading_cat.Core.{Core, CoreMethod, Stage, LifecycleRow, bad_stage}

-- `status in STATUSES`
abbrev pub is_stage : Stage → Bool
is_stage (Stage.other _) = false
is_stage _ = true

abbrev pub is_backtesting : Stage → Bool
is_backtesting Stage.backtesting = true
is_backtesting _ = false

-- `degraded` or `removed`
abbrev pub is_failure : Stage → Bool
is_failure Stage.degraded = true
is_failure Stage.removed = true
is_failure _ = false

abbrev pub same_hash : Option String → Option String → Bool
same_hash none none = true
same_hash (some a) (some b) = str_eq a b
same_hash _ _ = false

abbrev pub has_symbol : String → LifecycleRow → Bool
has_symbol symbol r = str_eq r.symbol symbol

unfoldable pub get_lifecycle : String → Core → Option LifecycleRow
get_lifecycle symbol s = select (has_symbol symbol) s.lifecycle

-- The arguments of one call.
pub record Change : Type 0 where
  pub symbol : String
  pub status : Stage
  pub evidence_hash : Option String
  pub fail_count : Option ℕ
  pub score : Option ℤ
  pub params_json : Option String

abbrev pub or_zero : Option ℕ → ℕ
or_zero none = 0
or_zero (some n) = n

abbrev pub first_row : Change → LifecycleRow
first_row q = record {
  symbol = q.symbol;
  status = q.status;
  fail_count = or_zero q.fail_count;
  last_evidence_hash = q.evidence_hash;
  score = q.score;
  params_json = q.params_json;
}

-- A failure on new evidence is one more; the caller's own count goes first.
abbrev pub counted : Option ℕ → Bool → ℕ → ℕ
counted (some n) failed count = n
counted none failed count = if failed then suc count else count

abbrev pub failures : Change → LifecycleRow → ℕ
failures q r =
    counted q.fail_count
      (is_failure q.status && not (same_hash r.last_evidence_hash q.evidence_hash)) r.fail_count

-- BACKTESTING is passing and keeps what is known.
abbrev pub changed : Change → LifecycleRow → LifecycleRow
changed q r = if is_backtesting q.status then record r { status = q.status } else record r {
  status = q.status;
  fail_count = failures q r;
  last_evidence_hash = q.evidence_hash;
  score = q.score;
  params_json = q.params_json;
}

unfoldable pub put_lifecycle : Option LifecycleRow → Change → Core → Core
put_lifecycle none q s = record s { lifecycle = s.lifecycle ++ first_row q ∷ [] }
put_lifecycle (some _) q s = record s {
  lifecycle = update_first (has_symbol q.symbol) (changed q) s.lifecycle;
}

unfoldable pub set_lifecycle : Change → CoreMethod Unit
set_lifecycle q = do
  raise_if (not (is_stage q.status)) bad_stage
  row ← gets (get_lifecycle q.symbol)
  modify (put_lifecycle row q)
