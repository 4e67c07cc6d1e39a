-- ===== src/Scenarios/Service.antt =====
-- A plan through the service: its snapshot, its ticket, the proof that approves it, and its execution.
use trading_cat.Base.{map, String, ◌≡◌, refl, true, some, none, [], ◌∷◌}
use trading_cat.Base.Action.{ok, ◌>>=◌, catch, when}
use trading_cat.Models.{Confirmation, MarketState}
use trading_cat.Store.{empty}
use trading_cat.Store.Confirmations.{approve_row, new_ticket}
use trading_cat.Risk.{SyncStatus}
use trading_cat.Orders.Tickets.{plan_row}
use trading_cat.Orders.Consume.{planned, created_entry}
use trading_cat.Core.{Core, AccountRow, PositionRow, empty_core}
use trading_cat.Core.Accounts.{
  get_account, list_account_positions, by_symbol, insert_by_symbol, bare_account, no_failure,
}
use trading_cat.Core.Sync.Loading.{load}
use trading_cat.Core.Sync.Account.{sync_account}
use trading_cat.Identity
use trading_cat.Identity.{
  IdentityProof, Claim, HmacIdentityVerifier, Request, payload, before, decimal, digits, verify,
}
use trading_cat.Identity.Payload.{IsPlain, Agree, payload-Agree, is_plain}
use trading_cat.Identity.Bound.{IsSignedApproval, approve-IsSignedApproval}
use trading_cat.Service
use trading_cat.Service.{
  Both, on_execution, get_core_plan, rebuild, checked, read_and_snapshot_plan, get_snapshot,
  snapshot_of, need_snapshot, need_confirmation, request_confirmation, request_or_return,
  insert_ticket, check_ticket,
}
use trading_cat.Service.Approved.{IsProvenApproval, approve-IsProvenApproval}
use trading_cat.Service.Execution.{
  Config, execute, execute_known, check_approved, check_binding, broker_of, paper_broker_of,
  submit_plan, quotes_of, get_market_state,
}
use trading_cat.Service.Executed.{IsGated, execute-IsGated}
use trading_cat.Service.Shut.{IsRefused, execute_mismatch}
use trading_cat.Service.Snapshots.{get_snapshot-read_and_snapshot_plan}
use trading_cat.Scenarios.Opened.{opened}
use trading_cat.Scenarios.Values.{sha256, plan, shares, ticketed}
use trading_cat.Scenarios.Accounts.{client, all_known}

-- Everything that these runs compute with, under one name.
unfoldable opened_service : Unit {0}
unfolding opened get_account list_account_positions by_symbol insert_by_symbol load payload before
    decimal digits verify Identity.within Identity.verify_identity Identity.find_pending
    Identity.approve on_execution get_core_plan rebuild checked read_and_snapshot_plan get_snapshot
    snapshot_of need_snapshot need_confirmation request_confirmation request_or_return insert_ticket
    check_ticket Service.approve execute execute_known check_approved check_binding broker_of
    paper_broker_of submit_plan quotes_of get_market_state catch when ◌>>=◌
opened_service = tt

abbrev account : AccountRow
account = record (bare_account "main" SyncStatus.synced no_failure 50) {
  cash = some (shares 5000);
  buying_power = some (shares 2000);
  nav = some (shares 9000);
}

abbrev position : PositionRow
position = record {
  account_id = "main";
  symbol = "AAPL.US";
  quantity = shares 4;
  cost_price = none;
  last_price = some (shares 199);
  is_hydrated = true;
  metadata_error = none;
  sync_id = 1;
}

abbrev quote_of : String → MarketState
quote_of symbol = record {
  symbol = symbol;
  quote_at = 100;
  price = shares 200;
  max_age_seconds = 300;
}

abbrev core : Core
core = record empty_core {
  plans = plan_row plan ∷ [];
  accounts = account ∷ [];
  positions = position ∷ [];
  market_states = quote_of "NVDA.US" ∷ quote_of "AAPL.US" ∷ [];
}

abbrev copied : Both
copied = (read_and_snapshot_plan sha256 "p1" (core, empty)).1

get_snapshot-read_and_snapshot_plan_example :
    get_snapshot sha256 "p1" copied ≡ (ok (some plan), copied)
unfolding opened_service
get_snapshot-read_and_snapshot_plan_example =
    get_snapshot-read_and_snapshot_plan sha256 "p1" (core, empty) copied plan refl

abbrev requested : Both
requested = (request_confirmation sha256 "p1" none none (some 900) "c1" 100 (core, empty)).1

abbrev verifier : HmacIdentityVerifier
verifier = record {
  hmac = λ text. text;
  owner_map = λ subject. some "owner";
  max_age_seconds = 300;
}

abbrev signed : IdentityProof
signed = record {
  subject = "u1";
  timestamp = 105;
  nonce = "n1";
  signature = "u1|approve|c1|p1|digest|n1|105";
  action = some "approve";
  confirmation_id = none;
  plan_id = none;
  plan_hash = none;
}

abbrev asked : Confirmation
asked = record (new_ticket "c1" "p1" "digest" 900 none) { created_at = some 100 }

abbrev proven : Confirmation
proven = approve_row "owner" "approval-proof" "n1" 110 asked

abbrev approved : Both
approved = (Service.approve sha256 (some verifier) "c1" signed 110 requested).1

approve-IsProvenApproval_example :
    IsProvenApproval sha256 (some verifier) "c1" signed 110 requested proven approved
unfolding opened_service
approve-IsProvenApproval_example =
    approve-IsProvenApproval sha256 (some verifier) "c1" signed 110 requested approved proven refl

abbrev config : Config
config = record { broker = none; risk_limits = none; daily_loss = none; query = λ key. none }

abbrev executed : Both
executed = (execute sha256 config "p1" "c1" 120 approved).1

execute-IsGated_example : IsGated sha256 config "p1" "c1" 120 approved executed
unfolding opened_service
execute-IsGated_example =
    execute-IsGated sha256 config "p1" "c1" 120 approved executed
      (map created_entry (planned plan "c1")) refl

-- The same stores, once the account is a mismatch.
abbrev shut : Both
shut = (
  record core { accounts = record account { sync_status = SyncStatus.mismatch } ∷ [] },
  approved.1,
)

execute_mismatch_example : IsRefused shut.1 (
    execute sha256 config "p1" "c1" 120
      ((sync_account client all_known "main" "k1" 115 shut.0).1, shut.1))
unfolding opened_service
execute_mismatch_example =
    execute_mismatch sha256 config "p1" "c1" 120 115 shut client all_known "k1" (plan_row plan) refl
      (record account { sync_status = SyncStatus.mismatch }, (refl, refl))

abbrev claim : Claim
claim = record { action = "approve"; confirmation_id = "c1"; plan_id = "p1"; plan_hash = "digest" }

plain : IsPlain signed claim
unfolding is_plain
plain = record {
  subject = refl;
  action = refl;
  confirmation_id = refl;
  plan_id = refl;
  plan_hash = refl;
  nonce = refl;
}

payload-Agree_example : Agree signed signed claim claim
payload-Agree_example = payload-Agree signed signed claim claim plain plain refl

-- By message, on a ticket of the one store.
abbrev request : Request
request = record {
  confirmation_id = "c1";
  approved_by = "owner";
  nonce = "n1";
  proof = some signed;
}

abbrev by_message : Confirmation
by_message = approve_row "owner" "wechat" "n1" 110 asked

approve-IsSignedApproval_example :
    IsSignedApproval verifier "wechat" request plan "digest" 110 ticketed by_message
      (Identity.approve verifier "wechat" request plan "digest" 110 ticketed).1
unfolding opened_service
approve-IsSignedApproval_example =
    approve-IsSignedApproval verifier "wechat" request plan "digest" 110 ticketed
      (Identity.approve verifier "wechat" request plan "digest" 110 ticketed).1 by_message refl
