-- ===== src/Risk.antt =====
-- execution/pretrade_risk.py: the last gate before an order goes to a broker. The text of a reason is
-- its kind and the texts that the code writes into it; amounts of money count in 10⁻¹⁸.
pub mod Orders
pub mod Limits
pub mod Bounds
pub mod Sound
use trading_cat.Base.{
  ℕ, ◌≤◌, String, ◌≡◌, Bool, true, false, not, ◌&&◌, ◌||◌, Option, none, some, List, [], ◌∷◌, ◌++◌,
  str_eq, leb, if◌then◌else◌, any,
}
use trading_cat.Base.Int.{ℤ, pos, ◌*ℤ◌, ltb_ℤ, leb_ℤ}
use trading_cat.Text.{codes, contains}
use trading_cat.Models.{
  ExecutionPlan, PlanOrder, Confirmation, MarketState, Decision, plan_is_expired,
  confirmation_is_expired,
}
use trading_cat.Store.Confirmations.{is_approved}
use trading_cat.Risk.Orders.{
  Reason, ReasonKind, Markets, Position, check, plain, all_of, check_orders, check_slippages,
  check_buying_power, check_sells,
}
use trading_cat.Risk.Limits.{RiskLimits, Snapshot, check_limits}

-- shared/account.py: the state of the account, its fields that the gate reads.
pub data SyncStatus : Type 0 where
  synced stale reconciling mismatch unknown : SyncStatus
  other : String → SyncStatus

abbrev pub is_synced : SyncStatus → Bool
is_synced SyncStatus.synced = true
is_synced _ = false

abbrev pub sync_text : SyncStatus → String
sync_text SyncStatus.synced = "SYNCED"
sync_text SyncStatus.stale = "STALE"
sync_text SyncStatus.reconciling = "RECONCILING"
sync_text SyncStatus.mismatch = "MISMATCH"
sync_text SyncStatus.unknown = "UNKNOWN"
sync_text (SyncStatus.other t) = t

pub record AccountState : Type 0 where
  pub sync_status : SyncStatus
  pub cash : Option ℤ
  pub buying_power : Option ℤ
  pub nav : Option ℤ
  pub positions : List Position

abbrev pub snapshot : AccountState → Snapshot
snapshot a = record { cash = a.cash; nav = a.nav; positions = a.positions }

-- The arguments of one call.
pub record Inputs : Type 0 where
  pub plan : ExecutionPlan
  pub confirmation : Confirmation
  pub account_state : Option AccountState
  pub market_states : Markets
  pub pending_intents : ℕ
  pub unknown_intents : ℕ
  pub risk_limits : Option RiskLimits
  pub daily_loss : Option ℤ
  pub now : ℕ

-- Steps 1 to 3: the ticket and the plan.
unfoldable pub binding_checks : Inputs → List (List Reason)
binding_checks i =
    (check (not (is_approved i.confirmation.status)) (plain ReasonKind.not_approved))
    ∷ (check (not (str_eq i.confirmation.plan_hash i.plan.plan_hash))
        (plain ReasonKind.hash_mismatch))
    ∷ (check (not (str_eq i.confirmation.plan_id i.plan.plan_id)) (plain ReasonKind.plan_mismatch))
    ∷ (check (plan_is_expired i.plan i.now) (plain ReasonKind.plan_expired))
    ∷ (check (confirmation_is_expired i.confirmation i.now) (plain ReasonKind.ticket_expired))
    ∷ []

unfoldable pub check_binding : Inputs → List Reason
check_binding i = all_of (binding_checks i)

-- Step 4: the account.
unfoldable pub check_account : Option AccountState → List Reason
check_account none = plain ReasonKind.account_missing ∷ []
check_account (some a) =
    check (not (is_synced a.sync_status))
      (record { kind = ReasonKind.not_synced; about = sync_text a.sync_status ∷ [] })

abbrev max_pending_intents : ℕ
max_pending_intents = 10

-- Steps 8 and 9: open and unknown orders.
unfoldable pub open_checks : ℕ → ℕ → List (List Reason)
open_checks pending unknowns =
    (check (leb max_pending_intents pending) (plain ReasonKind.too_many_pending))
    ∷ (check (leb 1 unknowns) (plain ReasonKind.unknown_orders))
    ∷ []

unfoldable pub check_open : ℕ → ℕ → List Reason
check_open pending unknowns = all_of (open_checks pending unknowns)

-- Steps 7, 9b and 10 for an account that is given, in the order of the list of reasons.
unfoldable pub check_power : Inputs → Option AccountState → List Reason
check_power i none = []
check_power i (some a) = check_buying_power i.market_states a.buying_power i.plan.orders

unfoldable pub check_holdings : Inputs → Option AccountState → List Reason
check_holdings i none = []
check_holdings i (some a) = check_sells a.positions i.plan.orders

unfoldable pub check_configured : Inputs → Option RiskLimits → Option AccountState → List Reason
check_configured i (some l) (some a) =
    check_limits l (snapshot a) i.market_states i.plan.orders i.daily_loss
check_configured i _ _ = []

unfoldable pub checks : Inputs → List (List Reason)
checks i =
    (check_binding i)
    ∷ (check_account i.account_state)
    ∷ (check_orders i.market_states i.now i.plan.orders)
    ∷ (check_slippages i.market_states i.plan.orders)
    ∷ (check_power i i.account_state)
    ∷ (check_open i.pending_intents i.unknown_intents)
    ∷ (check_holdings i i.account_state)
    ∷ (check_configured i i.risk_limits i.account_state)
    ∷ []

unfoldable pub reasons : Inputs → List Reason
reasons i = all_of (checks i)

abbrev pub decide : List Reason → Decision
decide [] = Decision.pass
decide (_ ∷ _) = Decision.reject

unfoldable pub evaluate : Inputs → Decision
evaluate i = decide (reasons i)

-- `any(word in reason for reason in reasons)`: in a text that was written into the reason, or in the
-- code's own words.
abbrev own_word : ReasonKind → String → Bool
own_word ReasonKind.unknown_orders word = str_eq word "UNKNOWN"
own_word _ word = false

abbrev says : String → Reason → Bool
says word r = own_word r.kind word || any (λ t. contains (codes word) (codes t)) r.about

abbrev pub mentions : String → List Reason → Bool
mentions word = any (says word)
