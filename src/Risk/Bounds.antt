-- ===== src/Risk/Bounds.antt =====
-- execution/pretrade_risk.py: what a PASS says of the limits that the caller configured.
use trading_cat.Base.{◌≡◌, Option, none, some, List, All}
use trading_cat.Base.Int.{ℤ, ◌+ℤ◌, ◌*ℤ◌, ◌≤ℤ◌, abs}
use trading_cat.Models.{PlanOrder}
use trading_cat.Store.Canaries.{tolerance}
use trading_cat.Risk.Orders.{Markets, Position, as_notional}
use trading_cat.Risk.Limits.{
  RiskLimits, Snapshot, limit_value, effective_nav, market_price, Holding, projected, holding_price,
  gross,
}

-- Up to the code's tolerance.
abbrev pub IsUnder : Option ℤ → ℤ → Type 0
IsUnder none amount = Unit
IsUnder (some limit) amount = amount ≤ℤ limit +ℤ tolerance

-- The order has a price, and its worth is under the limit.
abbrev pub IsOrderUnder : Option ℤ → Markets → PlanOrder → Type 0
IsOrderUnder limit markets o =
    (price : ℤ) × ((market_price (markets o.symbol) ≡ some price)
      × IsUnder limit (o.quantity *ℤ price))

-- The limits, each the absolute one or the fraction of the net asset value.
pub record IsLimited (l : RiskLimits) (a : Snapshot) (markets : Markets) (os : List PlanOrder)
    (loss : Option ℤ) : Type 0 where
  pub orders :
      All
        (IsOrderUnder
          (limit_value l.max_order_notional l.max_order_notional_fraction (effective_nav a))
          markets)
        os
  pub positions :
      All
        (λ h.
          IsUnder
            (limit_value l.max_position_notional l.max_position_notional_fraction (effective_nav a))
            (abs h.quantity *ℤ holding_price markets a.positions h.symbol))
        (projected markets a.positions os)
  pub portfolio :
      IsUnder
        (limit_value l.max_portfolio_notional l.max_portfolio_notional_fraction (effective_nav a))
        (gross markets a.positions (projected markets a.positions os))
  pub loss_under :
      (limit : ℤ)
      → limit_value l.max_daily_loss l.max_daily_loss_fraction (effective_nav a) ≡ some limit
      → (x : ℤ) × ((loss ≡ some x) × (as_notional x ≤ℤ limit +ℤ tolerance))

-- The holdings after the plan.
module _ (markets : Markets) (ps : List Position) where
  pub record AreUnder (position portfolio : Option ℤ) (hs : List Holding) : Type 0 where
    pub each : All (λ h. IsUnder position (abs h.quantity *ℤ holding_price markets ps h.symbol)) hs
    pub all : IsUnder portfolio (gross markets ps hs)

LossUnder : Option ℤ → Option ℤ → Type 0
LossUnder limit loss =
    (x : ℤ) → limit ≡ some x → (y : ℤ) × ((loss ≡ some y) × (as_notional y ≤ℤ x +ℤ tolerance))
