-- ===== src/Store/Plans/Same.antt =====
-- shared/db.py: the comparison of two plans, column by column, is an equality.
use trading_cat.Base.{
  absurd_of, and_left, and_right, ℕ, ◌≡◌, refl, ap, Bool, true, Option, none, some, List, [], ◌∷◌,
  str_eq, eqb, eq_iff, eqb_iff,
}
use trading_cat.Base.Int.{ℤ, pos, negsuc}
use trading_cat.Models.{PlanOrder, Mode, Side, OrderType}
use trading_cat.Store.{PlanRow}
use trading_cat.Store.Plans.{
  same_mode, same_side, same_type, same_ℤ, same_option, same_order, same_orders, same_content,
}

-- The tests of the columns are equalities.
same_mode_sound : (a b : Mode) → same_mode a b ≡ true → a ≡ b
same_mode_sound Mode.dry_run Mode.dry_run h = refl
same_mode_sound Mode.paper Mode.paper h = refl
same_mode_sound Mode.live Mode.live h = refl
same_mode_sound (Mode.other a) (Mode.other b) h = ap Mode.other ((eq_iff a b).0 h)
same_mode_sound _ _ h = absurd_of h

same_side_sound : (a b : Side) → same_side a b ≡ true → a ≡ b
same_side_sound Side.buy Side.buy h = refl
same_side_sound Side.sell Side.sell h = refl
same_side_sound (Side.other a) (Side.other b) h = ap Side.other ((eq_iff a b).0 h)
same_side_sound _ _ h = absurd_of h

same_type_sound : (a b : OrderType) → same_type a b ≡ true → a ≡ b
same_type_sound OrderType.market OrderType.market h = refl
same_type_sound OrderType.limit OrderType.limit h = refl
same_type_sound (OrderType.other a) (OrderType.other b) h = ap OrderType.other ((eq_iff a b).0 h)
same_type_sound _ _ h = absurd_of h

same_ℤ_sound : (a b : ℤ) → same_ℤ a b ≡ true → a ≡ b
same_ℤ_sound (pos a) (pos b) h = ap pos ((eqb_iff a b).0 h)
same_ℤ_sound (negsuc a) (negsuc b) h = ap negsuc ((eqb_iff a b).0 h)
same_ℤ_sound _ _ h = absurd_of h

same_option_sound :
    {A : Type 0} (eq : A → A → Bool)
    → ((a b : A) → eq a b ≡ true → a ≡ b)
    → (a b : Option A) → same_option eq a b ≡ true
    → a ≡ b
same_option_sound eq sound none none h = refl
same_option_sound eq sound (some a) (some b) h = ap some (sound a b h)
same_option_sound eq sound _ _ h = absurd_of h

eqb_sound : (a b : ℕ) → eqb a b ≡ true → a ≡ b
eqb_sound a b h = (eqb_iff a b).0 h

same_order_sound : (o p : PlanOrder) → same_order o p ≡ true → o ≡ p
same_order_sound o p h =
    let h₁ = and_right (str_eq o.plan_order_id p.plan_order_id) _ h in
    let h₂ = and_right (str_eq o.symbol p.symbol) _ h₁ in
    let h₃ = and_right (same_side o.side p.side) _ h₂ in
    let h₄ = and_right (same_ℤ o.quantity p.quantity) _ h₃ in
    let h₅ = and_right (same_type o.order_type p.order_type) _ h₄ in
    let h₆ = and_right (same_option same_ℤ o.reference_price p.reference_price) _ h₅ in
    let h₇ = and_right (same_option eqb o.reference_quote_at p.reference_quote_at) _ h₆ in
    let h₈ = and_right (same_ℤ o.max_slippage_bps p.max_slippage_bps) _ h₇ in
    joined ((eq_iff o.plan_order_id p.plan_order_id).0 (and_left _ _ h))
      ((eq_iff o.symbol p.symbol).0 (and_left _ _ h₁))
      (same_side_sound o.side p.side (and_left _ _ h₂))
      (same_ℤ_sound o.quantity p.quantity (and_left _ _ h₃))
      (same_type_sound o.order_type p.order_type (and_left _ _ h₄))
      (same_option_sound same_ℤ same_ℤ_sound o.reference_price p.reference_price (and_left _ _ h₅))
      (same_option_sound eqb eqb_sound o.reference_quote_at p.reference_quote_at (and_left _ _ h₆))
      (same_ℤ_sound o.max_slippage_bps p.max_slippage_bps (and_left _ _ h₇))
      (same_option_sound eqb eqb_sound o.strategy_version_id p.strategy_version_id
        (and_left _ _ h₈))
      (same_option_sound eqb eqb_sound o.investor_policy_version_id p.investor_policy_version_id
        (and_right _ _ h₈))
  where
    joined :
        o.plan_order_id ≡ p.plan_order_id
        → o.symbol ≡ p.symbol
        → o.side ≡ p.side
        → o.quantity ≡ p.quantity
        → o.order_type ≡ p.order_type
        → o.reference_price ≡ p.reference_price
        → o.reference_quote_at ≡ p.reference_quote_at
        → o.max_slippage_bps ≡ p.max_slippage_bps
        → o.strategy_version_id ≡ p.strategy_version_id
        → o.investor_policy_version_id ≡ p.investor_policy_version_id
        → o ≡ p
    joined a b c d e f g i j k = cc

same_orders_sound : (os ps : List PlanOrder) → same_orders os ps ≡ true → os ≡ ps
unfolding same_orders
same_orders_sound [] [] h = refl
same_orders_sound (o ∷ os) (p ∷ ps) h =
    join (same_order_sound o p (and_left _ _ h))
      (same_orders_sound os ps (and_right (same_order o p) _ h))
  where
    join : o ≡ p → os ≡ ps → o ∷ os ≡ p ∷ ps
    join a b = cc
same_orders_sound _ _ h = absurd_of h

-- Two rows hold the same plan.
pub record SameContent (a b : PlanRow) : Type 0 where
  pub plan_id : a.plan_id ≡ b.plan_id
  pub account : a.account_id ≡ b.account_id
  pub mode : a.execution_mode ≡ b.execution_mode
  pub expiry : a.expires_at ≡ b.expires_at
  pub hash : a.plan_hash ≡ b.plan_hash
  pub orders : a.orders ≡ b.orders

pub same_content_sound :
    (a b : PlanRow) → a.plan_id ≡ b.plan_id → same_content a b ≡ true → SameContent a b
unfolding same_content
same_content_sound a b e h =
    let h₁ = and_right (str_eq a.account_id b.account_id) _ h in
    let h₂ = and_right (same_mode a.execution_mode b.execution_mode) _ h₁ in
    let h₃ = and_right (eqb a.expires_at b.expires_at) _ h₂ in
    record {
      plan_id = e;
      account = (eq_iff a.account_id b.account_id).0 (and_left _ _ h);
      mode = same_mode_sound a.execution_mode b.execution_mode (and_left _ _ h₁);
      expiry = eqb_sound a.expires_at b.expires_at (and_left _ _ h₂);
      hash = (eq_iff a.plan_hash b.plan_hash).0 (and_left _ _ h₃);
      orders =
          same_orders_sound a.orders b.orders (and_right (str_eq a.plan_hash b.plan_hash) _ h₃);
    }
