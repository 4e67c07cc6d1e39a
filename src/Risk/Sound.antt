-- ===== src/Risk/Sound.antt =====
-- execution/pretrade_risk.py: what a PASS of `evaluate` says.
use trading_cat.Base.{
  ℕ, ◌<◌, String, ◌≡◌, refl, sym, ap, ◌∙◌, Bool, true, false, not, Option, none, some, List, [],
  ◌∷◌, ◌++◌, arith, leb, any, All, All-implies, eq_iff,
}
use trading_cat.Base.Int.{ℤ, pos, ◌+ℤ◌, ◌-ℤ◌, ◌*ℤ◌, ltb_ℤ, leb_ℤ, abs, ◌≤ℤ◌, ◌<ℤ◌, ltb_ℤ→≤ℤ}
use trading_cat.Models.{
  PlanOrder, Side, ConfirmationStatus, MarketState, Decision, plan_is_expired,
  confirmation_is_expired, is_fresh,
}
use trading_cat.Store.Confirmations.{is_approved}
use trading_cat.Store.Intents.{is_legal_side}
use trading_cat.Risk.Orders.{
  is_legal_type, Reason, ReasonKind, Markets, Position, check, about, all_of, for_each, is_buy,
  as_notional, held, order_checks, check_order, check_orders, check_quote, check_slippage,
  check_slippages, check_slippage_at, is_off_price, check_buying_power, total_cost, check_sell,
  check_sells,
}
use trading_cat.Risk.{
  Inputs, AccountState, SyncStatus, is_synced, evaluate, decide, reasons, checks, binding_checks,
  open_checks, check_binding, check_account, check_open, check_power, check_holdings,
  max_pending_intents,
}

module _ {A : Type 0} where
  pub append_nil : (xs ys : List A) → xs ++ ys ≡ [] → (xs ≡ []) × (ys ≡ [])
  append_nil [] ys h = (refl, h)
  append_nil (x ∷ xs) ys h = cc

pub check_nil : (b : Bool) (r : Reason) → check b r ≡ [] → b ≡ false
unfolding check
check_nil true r h = cc
check_nil false r h = refl

pub all_of-nil : (rs : List (List Reason)) → all_of rs ≡ [] → All (λ r. r ≡ []) rs
all_of-nil [] h = tt
all_of-nil (r ∷ rs) h =
    ((append_nil r (all_of rs) h).0, all_of-nil rs (append_nil r (all_of rs) h).1)

pub for_each-nil :
    {A : Type 0} (f : A → List Reason) (xs : List A) → for_each f xs ≡ [] → All (λ x. f x ≡ []) xs
for_each-nil f [] h = tt
for_each-nil f (x ∷ xs) h = (
  (append_nil (f x) (for_each f xs) h).0,
  for_each-nil f xs (append_nil (f x) (for_each f xs) h).1,
)

-- An order of a legal side and type, some quantity and a limit of slippage, with a fresh quote of its symbol.
pub record IsSound (markets : Markets) (now : ℕ) (o : PlanOrder) : Type 0 where
  pub legal_side : is_legal_side o.side ≡ true
  pub some_quantity : pos 0 <ℤ o.quantity
  pub legal_type : is_legal_type o.order_type ≡ true
  pub slippage_given : pos 0 ≤ℤ o.max_slippage_bps
  pub quote : MarketState
  pub quoted : markets o.symbol ≡ some quote
  pub fresh : is_fresh quote now ≡ true

true_of_not : (b : Bool) → not b ≡ false → b ≡ true
true_of_not b h = ground arith

check_quote_sound :
    (symbol : String) (q : Option MarketState) (now : ℕ)
    → check_quote symbol q now ≡ []
    → (m : MarketState) × ((q ≡ some m) × (is_fresh m now ≡ true))
unfolding check_quote
check_quote_sound symbol none now h = cc
check_quote_sound symbol (some m) now h =
    (m, (refl, true_of_not (is_fresh m now) (check_nil _ _ h)))

positive : (q : ℤ) → leb_ℤ q (pos 0) ≡ false → pos 0 <ℤ q
positive q h = ground arith

nonneg : (q : ℤ) → ltb_ℤ q (pos 0) ≡ false → pos 0 ≤ℤ q
nonneg q h = ground arith

check_order-IsSound :
    (markets : Markets) (now : ℕ) (o : PlanOrder)
    → check_order markets now o ≡ []
    → IsSound markets now o
unfolding check_order order_checks
check_order-IsSound markets now o h =
    let a = all_of-nil (order_checks markets now o) h in
    let q = check_quote_sound o.symbol (markets o.symbol) now a.1.1.1.1.0 in
    record {
      legal_side = true_of_not (is_legal_side o.side) (check_nil _ _ a.0);
      some_quantity = positive o.quantity (check_nil _ _ a.1.0);
      legal_type = true_of_not (is_legal_type o.order_type) (check_nil _ _ a.1.1.0);
      slippage_given = nonneg o.max_slippage_bps (check_nil _ _ a.1.1.1.0);
      quote = q.0;
      quoted = q.1.0;
      fresh = q.1.1;
    }

-- The market has not moved away from the price that was approved: |price - reference| / price, in
-- basis points, is at most the order's limit.
abbrev pub IsNear : Markets → PlanOrder → Type 0
IsNear markets o =
    (m : MarketState) (reference : ℤ)
    → markets o.symbol ≡ some m
    → o.reference_price ≡ some reference
    → pos 0 <ℤ m.price
    → abs (m.price -ℤ reference) *ℤ pos 10000000000000 ≤ℤ o.max_slippage_bps *ℤ m.price

positive_leb : (q : ℤ) → pos 0 <ℤ q → leb_ℤ q (pos 0) ≡ false
positive_leb q h = ground arith

module _ (markets : Markets) (o : PlanOrder) (m : MarketState) (reference : ℤ) where
  check_slippage-priced :
      markets o.symbol ≡ some m
      → o.reference_price ≡ some reference
      → leb_ℤ m.price (pos 0) ≡ false
      → check_slippage markets o
        ≡ check (is_off_price m reference o.max_slippage_bps) (about ReasonKind.off_price o.symbol)
  unfolding check_slippage check_slippage_at
  check_slippage-priced found priced some_price = rw (found, priced, some_price) refl

  is_off_price_sound :
      is_off_price m reference o.max_slippage_bps ≡ false
      → abs (m.price -ℤ reference) *ℤ pos 10000000000000 ≤ℤ o.max_slippage_bps *ℤ m.price
  unfolding is_off_price
  is_off_price_sound h =
      ltb_ℤ→≤ℤ (o.max_slippage_bps *ℤ m.price) (abs (m.price -ℤ reference) *ℤ pos 10000000000000) h

check_slippage-IsNear :
    (markets : Markets) (o : PlanOrder) → check_slippage markets o ≡ [] → IsNear markets o
check_slippage-IsNear markets o h m reference found priced some_price =
    is_off_price_sound markets o m reference (
      check_nil _ _ (
        sym (
          check_slippage-priced markets o m reference found priced
            (positive_leb m.price some_price))
        ∙ h))

-- A sell order is covered by what is held of its symbol, up to the tolerance.
abbrev pub IsCovered : List Position → PlanOrder → Type 0
IsCovered positions o = o.side ≡ Side.sell → o.quantity ≤ℤ held o.symbol positions +ℤ pos 1

check_sell-IsCovered :
    (positions : List Position) (o : PlanOrder)
    → check_sell positions o ≡ []
    → IsCovered positions o
unfolding check_sell
check_sell-IsCovered positions o h sells = ground (arith, sells, check_nil _ _ h)

-- All the buy orders together cost no more than the buying power.
abbrev pub IsAffordable : Markets → Option ℤ → List PlanOrder → Type 0
IsAffordable markets none os = any (λ o. is_buy o.side) os ≡ false
IsAffordable markets (some power) os = total_cost markets os ≤ℤ as_notional power

check_buying_power-IsAffordable :
    (markets : Markets) (power : Option ℤ) (os : List PlanOrder)
    → check_buying_power markets power os ≡ []
    → IsAffordable markets power os
unfolding check_buying_power
check_buying_power-IsAffordable markets none os h = check_nil _ _ h
check_buying_power-IsAffordable markets (some power) os h =
    ltb_ℤ→≤ℤ (as_notional power) (total_cost markets os) (check_nil _ _ h)

-- What a PASS says.
pub record IsSafe (i : Inputs) : Type 0 where
  pub approved : i.confirmation.status ≡ ConfirmationStatus.approved
  pub same_hash : i.confirmation.plan_hash ≡ i.plan.plan_hash
  pub same_plan : i.confirmation.plan_id ≡ i.plan.plan_id
  pub plan_lives : i.now < i.plan.expires_at
  pub ticket_lives : confirmation_is_expired i.confirmation i.now ≡ false
  pub account : AccountState
  pub account_given : i.account_state ≡ some account
  pub synced : account.sync_status ≡ SyncStatus.synced
  pub sound : All (IsSound i.market_states i.now) i.plan.orders
  pub near : All (IsNear i.market_states) i.plan.orders
  pub affordable : IsAffordable i.market_states account.buying_power i.plan.orders
  pub covered : All (IsCovered account.positions) i.plan.orders
  pub few_pending : i.pending_intents < max_pending_intents
  pub none_unknown : i.unknown_intents ≡ 0

check_account_sound :
    (o : Option AccountState)
    → check_account o ≡ []
    → (a : AccountState) × ((o ≡ some a) × (a.sync_status ≡ SyncStatus.synced))
unfolding check_account
check_account_sound none h = cc
check_account_sound (some a) h =
    (a, (refl, is_synced_sound a.sync_status (true_of_not _ (check_nil _ _ h))))
  where
    is_synced_sound : (t : SyncStatus) → is_synced t ≡ true → t ≡ SyncStatus.synced
    is_synced_sound t k = ground arith

is_approved_sound :
    (t : ConfirmationStatus) → is_approved t ≡ true → t ≡ ConfirmationStatus.approved
is_approved_sound t h = ground arith

pub decide_pass : (rs : List Reason) → decide rs ≡ Decision.pass → rs ≡ []
decide_pass [] h = refl
decide_pass (r ∷ rs) h = cc

lapsed_not : (t now : ℕ) → leb t now ≡ false → now < t
lapsed_not t now h = ground arith

few : (n : ℕ) → leb max_pending_intents n ≡ false → n < max_pending_intents
few n h = ground arith

none_left : (n : ℕ) → leb 1 n ≡ false → n ≡ 0
none_left n h = ground arith

module _ (i : Inputs) (a : AccountState) (given : i.account_state ≡ some a) where
  at_account-IsAffordable :
      check_power i i.account_state ≡ [] → IsAffordable i.market_states a.buying_power i.plan.orders
  unfolding check_power
  at_account-IsAffordable h =
      check_buying_power-IsAffordable i.market_states a.buying_power i.plan.orders
        (sym (ap (check_power i) given) ∙ h)

  at_account-IsCovered :
      check_holdings i i.account_state ≡ [] → All (IsCovered a.positions) i.plan.orders
  unfolding check_holdings check_sells
  at_account-IsCovered h =
      All-implies _ _ i.plan.orders (check_sell-IsCovered a.positions) (
        for_each-nil (check_sell a.positions) i.plan.orders (sym (ap (check_holdings i) given) ∙ h))

-- An order plan passes the gate only if all of this holds: the ticket is approved and bound to the plan by
-- id and hash, neither has lapsed, the account is in sync, each order has a legal side, a legal type, a
-- quantity above 0, a slippage limit of 0 or more and a fresh quote, each order with a reference price whose
-- quote is above 0 is within its slippage limit, the buys cost together no more than the buying power (and
-- there are none if it is unknown), each sell alone is covered by what is held of its symbol up to 1e-9,
-- fewer than ten orders are pending and none is of unknown outcome.
pub evaluate-IsSafe : (i : Inputs) → evaluate i ≡ Decision.pass → IsSafe i
unfolding evaluate plan_is_expired reasons checks check_binding binding_checks check_open
    open_checks check_orders check_slippages
evaluate-IsSafe i h =
    let a = all_of-nil (checks i) (decide_pass (reasons i) h) in
    let b = all_of-nil (binding_checks i) a.0 in
    let o = all_of-nil (open_checks i.pending_intents i.unknown_intents) a.1.1.1.1.1.0 in
    let c = check_account_sound i.account_state a.1.0 in
    record {
      approved = is_approved_sound i.confirmation.status (true_of_not _ (check_nil _ _ b.0));
      same_hash =
          (eq_iff i.confirmation.plan_hash i.plan.plan_hash).0
            (true_of_not _ (check_nil _ _ b.1.0));
      same_plan =
          (eq_iff i.confirmation.plan_id i.plan.plan_id).0 (true_of_not _ (check_nil _ _ b.1.1.0));
      plan_lives = lapsed_not i.plan.expires_at i.now (check_nil _ _ b.1.1.1.0);
      ticket_lives = check_nil _ _ b.1.1.1.1.0;
      account = c.0;
      account_given = c.1.0;
      synced = c.1.1;
      sound =
          All-implies _ _ i.plan.orders (check_order-IsSound i.market_states i.now)
            (for_each-nil (check_order i.market_states i.now) i.plan.orders a.1.1.0);
      near =
          All-implies _ _ i.plan.orders (check_slippage-IsNear i.market_states)
            (for_each-nil (check_slippage i.market_states) i.plan.orders a.1.1.1.0);
      affordable = at_account-IsAffordable i c.0 c.1.0 a.1.1.1.1.0;
      covered = at_account-IsCovered i c.0 c.1.0 a.1.1.1.1.1.1.0;
      few_pending = few i.pending_intents (check_nil _ _ o.0);
      none_unknown = none_left i.unknown_intents (check_nil _ _ o.1.0);
    }
