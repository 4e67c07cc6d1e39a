-- ===== src/Risk/Orders.antt =====
-- execution/pretrade_risk.py: the checks of `evaluate` on each order of a plan.
use trading_cat.Base.{
  ℕ, String, Bool, true, false, not, ◌&&◌, Option, none, some, List, [], ◌∷◌, ◌++◌, str_eq,
  if◌then◌else◌, any,
}
use trading_cat.Base.Int.{ℤ, pos, ◌+ℤ◌, ◌-ℤ◌, ◌*ℤ◌, ltb_ℤ, leb_ℤ, abs}
use trading_cat.Models.{PlanOrder, Side, OrderType, MarketState, is_fresh}
use trading_cat.Store.Intents.{is_legal_side}

pub data ReasonKind : Type 0 where
  not_approved hash_mismatch plan_mismatch plan_expired ticket_expired : ReasonKind
  account_missing not_synced bad_side bad_quantity bad_type bad_slippage : ReasonKind
  no_quote stale_quote off_price power_unknown power_short : ReasonKind
  too_many_pending unknown_orders position_short : ReasonKind
  nav_missing notional_missing negative_order_limit order_over_limit : ReasonKind
  position_over_limit prices_missing portfolio_over_limit : ReasonKind
  negative_loss_limit loss_missing loss_over_limit : ReasonKind

-- A reason, and the texts of the plan and the account that it quotes.
pub record Reason : Type 0 where
  pub kind : ReasonKind
  pub about : List String

abbrev pub plain : ReasonKind → Reason
plain kind = record { kind = kind; about = [] }

abbrev pub about : ReasonKind → String → Reason
about kind symbol = record { kind = kind; about = symbol ∷ [] }

unfoldable pub check : Bool → Reason → List Reason
check true r = r ∷ []
check false r = []

-- The reasons of several checks, in order.
abbrev pub all_of : List (List Reason) → List Reason
all_of [] = []
all_of (rs ∷ rest) = rs ++ all_of rest

-- `market_states.get`
abbrev pub Markets : Type 0
Markets = String → Option MarketState

-- A row of `positions`; a price or a quantity that is absent is 0.
pub record Position : Type 0 where
  pub symbol : String
  pub quantity : ℤ
  pub last_price : ℤ

abbrev pub is_buy : Side → Bool
is_buy Side.buy = true
is_buy _ = false

abbrev pub is_sell : Side → Bool
is_sell Side.sell = true
is_sell _ = false

abbrev pub is_legal_type : OrderType → Bool
is_legal_type (OrderType.other _) = false
is_legal_type _ = true

abbrev side_text : Side → String
side_text Side.buy = "BUY"
side_text Side.sell = "SELL"
side_text (Side.other t) = t

abbrev type_text : OrderType → String
type_text OrderType.market = "MARKET"
type_text OrderType.limit = "LIMIT"
type_text (OrderType.other t) = t

-- Step 5: the fields of an order, and a fresh quote of its symbol.
unfoldable pub check_quote : String → Option MarketState → ℕ → List Reason
check_quote symbol none now = about ReasonKind.no_quote symbol ∷ []
check_quote symbol (some m) now = check (not (is_fresh m now)) (about ReasonKind.stale_quote symbol)

unfoldable pub order_checks : Markets → ℕ → PlanOrder → List (List Reason)
order_checks markets now o =
    (check (not (is_legal_side o.side))
      (record { kind = ReasonKind.bad_side; about = o.symbol ∷ side_text o.side ∷ [] }))
    ∷ (check (leb_ℤ o.quantity (pos 0)) (about ReasonKind.bad_quantity o.symbol))
    ∷ (check (not (is_legal_type o.order_type))
        (record { kind = ReasonKind.bad_type; about = o.symbol ∷ type_text o.order_type ∷ [] }))
    ∷ (check (ltb_ℤ o.max_slippage_bps (pos 0)) (about ReasonKind.bad_slippage o.symbol))
    ∷ (check_quote o.symbol (markets o.symbol) now)
    ∷ []

unfoldable pub check_order : Markets → ℕ → PlanOrder → List Reason
check_order markets now o = all_of (order_checks markets now o)

-- A check for each order, in the order of the plan.
abbrev pub for_each : {A : Type 0} → (A → List Reason) → List A → List Reason
for_each f [] = []
for_each f (o ∷ os) = f o ++ for_each f os

unfoldable pub check_orders : Markets → ℕ → List PlanOrder → List Reason
check_orders markets now = for_each (check_order markets now)

-- Step 6: `abs(price - reference) / price * 10_000 > max_slippage_bps`, at a positive price.
unfoldable pub is_off_price : MarketState → ℤ → ℤ → Bool
is_off_price m reference bps =
    ltb_ℤ (bps *ℤ m.price) (abs (m.price -ℤ reference) *ℤ pos 10000000000000)

unfoldable pub check_slippage_at : PlanOrder → Option MarketState → Option ℤ → List Reason
check_slippage_at o (some m) (some reference) =
    if leb_ℤ m.price (pos 0)
    then []
    else check (is_off_price m reference o.max_slippage_bps) (about ReasonKind.off_price o.symbol)
check_slippage_at o _ _ = []

unfoldable pub check_slippage : Markets → PlanOrder → List Reason
check_slippage markets o = check_slippage_at o (markets o.symbol) o.reference_price

unfoldable pub check_slippages : Markets → List PlanOrder → List Reason
check_slippages markets = for_each (check_slippage markets)

-- Step 7: what all the buy orders cost at the market.
abbrev cost_at : ℤ → Option MarketState → ℤ
cost_at quantity none = pos 0
cost_at quantity (some m) = if leb_ℤ m.price (pos 0) then pos 0 else quantity *ℤ m.price

unfoldable pub buy_cost : Markets → PlanOrder → ℤ
buy_cost markets o = if is_buy o.side then cost_at o.quantity (markets o.symbol) else pos 0

unfoldable pub total_cost : Markets → List PlanOrder → ℤ
total_cost markets [] = pos 0
total_cost markets (o ∷ os) = buy_cost markets o +ℤ total_cost markets os

-- An amount of money at the scale of a notional amount.
abbrev pub as_notional : ℤ → ℤ
as_notional a = a *ℤ pos 1000000000

unfoldable pub check_buying_power : Markets → Option ℤ → List PlanOrder → List Reason
check_buying_power markets none os =
    check (any (λ o. is_buy o.side) os) (plain ReasonKind.power_unknown)
check_buying_power markets (some power) os =
    check (ltb_ℤ (as_notional power) (total_cost markets os)) (plain ReasonKind.power_short)

-- Step 9b: each sell order against what is held of its symbol.
unfoldable pub held : String → List Position → ℤ
held symbol [] = pos 0
held symbol (p ∷ ps) =
    let rest = held symbol ps in if str_eq p.symbol symbol then p.quantity +ℤ rest else rest

unfoldable pub check_sell : List Position → PlanOrder → List Reason
check_sell positions o =
    check (is_sell o.side && ltb_ℤ (held o.symbol positions +ℤ pos 1) o.quantity)
      (about ReasonKind.position_short o.symbol)

unfoldable pub check_sells : List Position → List PlanOrder → List Reason
check_sells positions = for_each (check_sell positions)
