-- ===== src/Scenarios/Research.antt =====
-- A hold-out that is sealed and opened once, and a quota of ten.
use trading_cat.Base.{◌≤◌, List, ◌≡◌, ◌≢◌, refl, some, none, [], ◌∷◌}
use trading_cat.Base.Int.{pos}
use trading_cat.Base.Action.{◌>>=◌}
use trading_cat.Base.Tables.{count}
use trading_cat.Core.{Core, Holdout, Stage, empty_core}
use trading_cat.Core.Lifecycle.{Change, set_lifecycle}
use trading_cat.Core.Lifecycle.Counted.{set_lifecycle-again}
use trading_cat.Core.Policies.{Sha256, is_active_of}
use trading_cat.Core.Policies.Single.{PolicyCall, saves, reads, call_all, call_all-count}
use trading_cat.Core.Audits.{audit_core, write_core}
use trading_cat.Core.Holdouts.{
  Sealing, seal_research_holdout, seal_body, seal_row, add_holdout, new_holdout, open_row,
  expose_row, update_holdout, get_research_holdout, Opening, Opened, open_research_holdout,
  open_body, open_found,
}
use trading_cat.Core.Holdouts.Forward.{
  HoldoutReach, HoldoutStep, HoldoutReach-get_research_holdout, IsLaterHoldout,
}
use trading_cat.Core.Holdouts.Once.{open_once}
use trading_cat.Core.Quotas.{Reservation, get_quota}
use trading_cat.Core.Quotas.Used.{reserve_all}
use trading_cat.Core.Quotas.Metered.{IsAccounted, reserve_all-IsAccounted}

abbrev sealing : Sealing
sealing = record {
  holdout_id = "h1";
  symbol = "NVDA.US";
  data_version = "v1";
  holdout_start = "2024-01-01";
  holdout_end = "2024-06-30";
  candidate_version_hash = "c1";
}

abbrev sealed : Core
sealed = (seal_research_holdout sealing empty_core).1

abbrev opened : Core
opened = (open_research_holdout "h1" "c1" 100 sealed).1

abbrev first : Opened
first = record { outcome = Opening.opened; row = open_row 100 (new_holdout sealing); result = none }

abbrev second : Opened
second = record {
  outcome = Opening.contaminated;
  row = expose_row (open_row 100 (new_holdout sealing));
  result = none;
}

abbrev opening : HoldoutReach sealed opened
opening = HoldoutReach.after HoldoutReach.here (HoldoutStep.opens "h1" "c1" 100)

HoldoutReach-get_research_holdout_example :
    (b : Holdout) × ((get_research_holdout "h1" opened ≡ some b)
      × IsLaterHoldout (new_holdout sealing) b)
unfolding seal_research_holdout seal_body seal_row add_holdout get_research_holdout ◌>>=◌ audit_core
    write_core
HoldoutReach-get_research_holdout_example =
    HoldoutReach-get_research_holdout "h1" sealed opened (new_holdout sealing) opening refl

open_once_example : second.outcome ≢ Opening.opened
unfolding seal_research_holdout seal_body seal_row add_holdout get_research_holdout ◌>>=◌ audit_core
    write_core open_research_holdout open_body open_found update_holdout
open_once_example =
    open_once "h1" "c1" "c1" 100 200 sealed opened first second opened refl refl HoldoutReach.here
      refl

-- Four at 65, four at 70, and four more that the limit of ten refuses.
abbrev four : Reservation
four = record {
  scope = "quote";
  amount = pos 4;
  quota_limit = pos 10;
  window_seconds = 60;
  at = 65;
}

abbrev calls : List Reservation
calls = four ∷ record four { at = 70 } ∷ record four { at = 80 } ∷ []

reserve_all-IsAccounted_example :
    IsAccounted
      (get_quota "quote" 60 (reserve_all "quote" 60 calls empty_core).1)
      (reserve_all "quote" 60 calls empty_core).0
reserve_all-IsAccounted_example = reserve_all-IsAccounted "quote" 60 calls

-- A symbol that fails on one evidence, twice reported, and an account that changes its policy twice.
abbrev failure : Change
failure = record {
  symbol = "NVDA.US";
  status = Stage.degraded;
  evidence_hash = some "ev1";
  fail_count = none;
  score = none;
  params_json = none;
}

abbrev known : Core
known =
    (set_lifecycle (record failure { status = Stage.verified; evidence_hash = some "ev0" })
      empty_core).1

set_lifecycle-again_example :
    set_lifecycle failure (set_lifecycle failure known).1 ≡ set_lifecycle failure known
set_lifecycle-again_example = set_lifecycle-again failure known

abbrev text : Sha256
text config = config

abbrev policy_calls : List PolicyCall
policy_calls = saves "main" "a" ∷ saves "main" "b" ∷ reads "main" "a" ∷ saves "main" "c" ∷ []

call_all-count_example :
    count (is_active_of "main") (call_all text policy_calls empty_core).policies ≤ 1
call_all-count_example = call_all-count text policy_calls "main"
