-- ===== src/Store/Plans.antt =====
-- shared/db.py and execution/persistence.py: the table of execution plans.
pub mod Same
use trading_cat.Base.{
  String, Bool, true, false, not, ◌&&◌, Option, none, some, List, [], ◌∷◌, ◌++◌, str_eq, eqb,
}
use trading_cat.Base.Int.{ℤ, pos, negsuc}
use trading_cat.Base.Action.{◌>>=◌, ◌>>◌, raise_if, modify, gets}
use trading_cat.Base.Tables.{select, update}
use trading_cat.Models.{Mode, Side, OrderType, PlanOrder, is_execution_mode}
use trading_cat.Store.{
  Store, Method, PlanRow, PlanStatus, Entity, plan_created, bad_execution_mode, bad_plan_status,
  plan_bound_elsewhere,
}
use trading_cat.Store.AuditLog.{audit}

abbrev pub same_mode : Mode → Mode → Bool
same_mode Mode.dry_run Mode.dry_run = true
same_mode Mode.paper Mode.paper = true
same_mode Mode.live Mode.live = true
same_mode (Mode.other a) (Mode.other b) = str_eq a b
same_mode _ _ = false

abbrev pub same_side : Side → Side → Bool
same_side Side.buy Side.buy = true
same_side Side.sell Side.sell = true
same_side (Side.other a) (Side.other b) = str_eq a b
same_side _ _ = false

abbrev pub same_type : OrderType → OrderType → Bool
same_type OrderType.market OrderType.market = true
same_type OrderType.limit OrderType.limit = true
same_type (OrderType.other a) (OrderType.other b) = str_eq a b
same_type _ _ = false

abbrev pub same_ℤ : ℤ → ℤ → Bool
same_ℤ (pos a) (pos b) = eqb a b
same_ℤ (negsuc a) (negsuc b) = eqb a b
same_ℤ _ _ = false

abbrev pub same_option : {A : Type 0} → (A → A → Bool) → Option A → Option A → Bool
same_option eq none none = true
same_option eq (some a) (some b) = eq a b
same_option eq _ _ = false

-- Equality of the dictionaries of two orders.
abbrev pub same_order : PlanOrder → PlanOrder → Bool
same_order o p =
    str_eq o.plan_order_id p.plan_order_id
    && (str_eq o.symbol p.symbol
        && (same_side o.side p.side
            && (same_ℤ o.quantity p.quantity
                && (same_type o.order_type p.order_type
                    && (same_option same_ℤ o.reference_price p.reference_price
                        && (same_option eqb o.reference_quote_at p.reference_quote_at
                            && (same_ℤ o.max_slippage_bps p.max_slippage_bps
                                && (same_option eqb o.strategy_version_id p.strategy_version_id
                                    && same_option eqb o.investor_policy_version_id
                                        p.investor_policy_version_id))))))))

unfoldable pub same_orders : List PlanOrder → List PlanOrder → Bool
same_orders [] [] = true
same_orders (o ∷ os) (p ∷ ps) = same_order o p && same_orders os ps
same_orders _ _ = false

-- `status in PLAN_STATUSES`
abbrev is_plan_status : PlanStatus → Bool
is_plan_status (PlanStatus.other _) = false
is_plan_status _ = true

abbrev pub has_plan_id : String → PlanRow → Bool
has_plan_id plan_id row = str_eq row.plan_id plan_id

unfoldable pub get_plan : String → Store → Option PlanRow
get_plan plan_id s = select (has_plan_id plan_id) s.plans

-- The row already there holds the same immutable content.
unfoldable pub same_content : PlanRow → PlanRow → Bool
unfolding same_orders
same_content a b =
    str_eq a.account_id b.account_id
    && (same_mode a.execution_mode b.execution_mode
        && (eqb a.expires_at b.expires_at
            && (str_eq a.plan_hash b.plan_hash && same_orders a.orders b.orders)))

unfoldable pub add_plan : PlanRow → Store → Store
add_plan row s = record s { plans = s.plans ++ row ∷ [] }

unfoldable pub create_plan : PlanRow → Method Unit
create_plan row = do modify (add_plan row); audit plan_created (Entity.execution_plan row.plan_id)

unfoldable pub keep_plan : PlanRow → Option PlanRow → Method Unit
keep_plan row none = create_plan row
keep_plan row (some existing) = raise_if (not (same_content existing row)) plan_bound_elsewhere

-- `insert_plan`; the variant of execution/persistence.py for PAPER differs in nothing that is modelled.
unfoldable pub insert_plan : PlanRow → Method Unit
insert_plan row = do
  raise_if (not (is_execution_mode row.execution_mode)) bad_execution_mode
  raise_if (not (is_plan_status row.status)) bad_plan_status
  existing ← gets (get_plan row.plan_id)
  keep_plan row existing

unfoldable pub set_plan_status : String → PlanStatus → Method Unit
set_plan_status plan_id status = do
  raise_if (not (is_plan_status status)) bad_plan_status
  modify (λ s. record s {
    plans = update (has_plan_id plan_id) (λ r. record r { status = status }) s.plans;
  })
