-- ===== src/Risk/Limits.antt =====
-- execution/pretrade_risk.py: step 10 of `evaluate`, the limits that the caller configured.
use trading_cat.Base.{
  ℕ, String, Bool, true, false, not, ◌&&◌, ◌||◌, Option, none, some, List, [], ◌∷◌, str_eq,
  if◌then◌else◌, any, is_some,
}
use trading_cat.Base.Int.{ℤ, pos, ◌+ℤ◌, ◌-ℤ◌, ◌*ℤ◌, ltb_ℤ, leb_ℤ, abs}
use trading_cat.Base.Tables.{select}
use trading_cat.Models.{PlanOrder, MarketState}
use trading_cat.Store.Canaries.{tolerance}
use trading_cat.Risk.Orders.{
  Reason, ReasonKind, Markets, Position, check, plain, all_of, about, is_buy, as_notional, for_each,
}

pub record RiskLimits : Type 0 where
  pub max_order_notional : Option ℤ
  pub max_order_notional_fraction : Option ℤ
  pub max_position_notional : Option ℤ
  pub max_position_notional_fraction : Option ℤ
  pub max_portfolio_notional : Option ℤ
  pub max_portfolio_notional_fraction : Option ℤ
  pub max_daily_loss : Option ℤ
  pub max_daily_loss_fraction : Option ℤ

-- What the limits read of the account.
pub record Snapshot : Type 0 where
  pub cash : Option ℤ
  pub nav : Option ℤ
  pub positions : List Position

-- An absolute limit comes first; a fraction needs the net asset value.
unfoldable pub limit_value : Option ℤ → Option ℤ → Option ℤ → Option ℤ
limit_value (some absolute) fraction nav = some (as_notional absolute)
limit_value none (some fraction) (some nav) = some (fraction *ℤ nav)
limit_value none _ _ = none

abbrev positive : Option ℤ → Option ℤ
positive none = none
positive (some a) = if leb_ℤ a (pos 0) then none else some a

abbrev or_cash : Option ℤ → Option ℤ → Option ℤ
or_cash (some nav) cash = some nav
or_cash none cash = positive cash

unfoldable pub effective_nav : Snapshot → Option ℤ
effective_nav a = or_cash (positive a.nav) a.cash

abbrev has_fraction_limit : RiskLimits → Bool
has_fraction_limit l =
    is_some l.max_order_notional_fraction
    || (is_some l.max_position_notional_fraction
        || (is_some l.max_portfolio_notional_fraction || is_some l.max_daily_loss_fraction))

abbrev pub market_price : Option MarketState → Option ℤ
market_price none = none
market_price (some m) = if leb_ℤ m.price (pos 0) then none else some m.price

abbrev pub is_priced : Markets → PlanOrder → Bool
is_priced markets o = is_some (market_price (markets o.symbol))

-- The limit of one order.
unfoldable pub check_notional : ℤ → PlanOrder → Option ℤ → List Reason
check_notional limit o none = []
check_notional limit o (some price) =
    check (ltb_ℤ (limit +ℤ tolerance) (o.quantity *ℤ price))
      (about ReasonKind.order_over_limit o.symbol)

unfoldable pub check_order_limit : Option ℤ → Markets → List PlanOrder → List Reason
check_order_limit none markets os = []
check_order_limit (some limit) markets os = all_of (
    (check (ltb_ℤ limit (pos 0)) (plain ReasonKind.negative_order_limit))
    ∷ (for_each (λ o. check_notional limit o (market_price (markets o.symbol))) os)
    ∷ [])

-- `current_qty`, a dictionary in the order of insertion.
pub record Holding : Type 0 where
  pub symbol : String
  pub quantity : ℤ

unfoldable pub add_quantity : String → ℤ → List Holding → List Holding
add_quantity symbol q [] = record { symbol = symbol; quantity = q } ∷ []
add_quantity symbol q (h ∷ hs) =
    if str_eq h.symbol symbol
    then record h { quantity = h.quantity +ℤ q } ∷ hs
    else h ∷ add_quantity symbol q hs

abbrev pub is_zero : ℤ → Bool
is_zero (pos ℕ.zero) = true
is_zero _ = false

abbrev counts : Position → Bool
counts p = not (str_eq p.symbol "") && not (is_zero p.quantity)

unfoldable pub add_positions : List Position → List Holding → List Holding
add_positions [] hs = hs
add_positions (p ∷ ps) hs =
    if counts p then add_positions ps (add_quantity p.symbol p.quantity hs) else add_positions ps hs

abbrev signed : PlanOrder → ℤ
signed o = if is_buy o.side then o.quantity else pos 0 -ℤ o.quantity

unfoldable pub add_orders : Markets → List PlanOrder → List Holding → List Holding
add_orders markets [] hs = hs
add_orders markets (o ∷ os) hs =
    if is_priced markets o
    then add_orders markets os (add_quantity o.symbol (signed o) hs)
    else add_orders markets os hs

unfoldable pub projected : Markets → List Position → List PlanOrder → List Holding
projected markets ps os = add_orders markets os (add_positions ps [])

-- The price of a holding: the market's, or the last price of the first position in the symbol.
abbrev last_price : Option Position → ℤ
last_price none = pos 0
last_price (some p) = p.last_price

abbrev or_last : Option ℤ → ℤ → ℤ
or_last (some price) last = price
or_last none last = last

unfoldable pub holding_price : Markets → List Position → String → ℤ
holding_price markets ps symbol =
    or_last (market_price (markets symbol)) (last_price (select (λ p. str_eq p.symbol symbol) ps))

abbrev pub is_unpriced : Markets → List Position → Holding → Bool
is_unpriced markets ps h =
    not (is_zero h.quantity) && leb_ℤ (holding_price markets ps h.symbol) (pos 0)

-- A position that counts and has no price of its own.
abbrev position_unpriced : Markets → Position → Bool
position_unpriced markets p =
    counts p && leb_ℤ (or_last (market_price (markets p.symbol)) p.last_price) (pos 0)

unfoldable pub exposure : Markets → List Position → Holding → ℤ
exposure markets ps h =
    if is_unpriced markets ps h then pos 0 else abs h.quantity *ℤ holding_price markets ps h.symbol

unfoldable pub gross : Markets → List Position → List Holding → ℤ
gross markets ps [] = pos 0
gross markets ps (h ∷ hs) = exposure markets ps h +ℤ gross markets ps hs

unfoldable pub exceeds : Option ℤ → ℤ → Bool
exceeds none amount = false
exceeds (some limit) amount = ltb_ℤ (limit +ℤ tolerance) amount

unfoldable pub check_position : Option ℤ → Markets → List Position → Holding → List Reason
check_position limit markets ps h =
    check (not (is_unpriced markets ps h) && exceeds limit (exposure markets ps h))
      (about ReasonKind.position_over_limit h.symbol)

unfoldable pub check_exposure :
    Option ℤ → Option ℤ → Markets → List Position → List Holding → List Reason
check_exposure none none markets ps hs = []
check_exposure position portfolio markets ps hs = all_of (
    (for_each (check_position position markets ps) hs)
    ∷ (check (any (position_unpriced markets) ps || any (is_unpriced markets ps) hs)
        (plain ReasonKind.prices_missing))
    ∷ (check (exceeds portfolio (gross markets ps hs)) (plain ReasonKind.portfolio_over_limit))
    ∷ [])

unfoldable pub check_loss : Option ℤ → Option ℤ → List Reason
check_loss none loss = []
check_loss (some limit) loss =
    if ltb_ℤ limit (pos 0) then plain ReasonKind.negative_loss_limit ∷ [] else elim loss [
      | none ↦ plain ReasonKind.loss_missing ∷ []
      | some l ↦
          check (ltb_ℤ (limit +ℤ tolerance) (as_notional l)) (plain ReasonKind.loss_over_limit)
    ]

unfoldable pub limit_checks :
    RiskLimits → Snapshot → Markets → List PlanOrder → Option ℤ → List (List Reason)
limit_checks l a markets os loss =
    (check (has_fraction_limit l && not (is_some (effective_nav a))) (plain ReasonKind.nav_missing))
    ∷ (check (any (λ o. not (is_priced markets o)) os) (plain ReasonKind.notional_missing))
    ∷ (check_order_limit
        (limit_value l.max_order_notional l.max_order_notional_fraction (effective_nav a)) markets
        os)
    ∷ (check_exposure
        (limit_value l.max_position_notional l.max_position_notional_fraction (effective_nav a))
        (limit_value l.max_portfolio_notional l.max_portfolio_notional_fraction (effective_nav a))
        markets a.positions (projected markets a.positions os))
    ∷ (check_loss (limit_value l.max_daily_loss l.max_daily_loss_fraction (effective_nav a)) loss)
    ∷ []

unfoldable pub check_limits :
    RiskLimits → Snapshot → Markets → List PlanOrder → Option ℤ → List Reason
check_limits l a markets os loss = all_of (limit_checks l a markets os loss)
