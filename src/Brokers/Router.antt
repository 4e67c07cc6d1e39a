-- ===== src/Brokers/Router.antt =====
-- execution/order_router.py: the routers, of which none hands an order to a broker.
use Prim.Native.String.{◌++◌}
use trading_cat.Base.{String, ◌≡◌, Bool, true, false, Option, none, some, if◌then◌else◌}
use trading_cat.Base.Action.{Result, ok, err}
use trading_cat.Models.{Mode}

-- `RouteResult`; the raw response repeats the id.
pub record RouteResult : Type 0 where
  pub broker_order_id : Option String
  pub status : String
  pub error : Option String

-- The `RuntimeError`s, by their text.
pub data RouteError : Type 0 where
  only_dry_run paper_needs_paper_broker live_not_enabled no_direct_live : RouteError

abbrev request_id : Option String → String
request_id none = "unknown"
request_id (some id) = id

abbrev is_dry_run : Mode → Bool
is_dry_run Mode.dry_run = true
is_dry_run _ = false

abbrev is_paper : Mode → Bool
is_paper Mode.paper = true
is_paper _ = false

-- `DryRunRouter.route`, for the `client_request_id` of an order.
unfoldable pub dry_run_route : Option String → Mode → Result RouteError RouteResult
dry_run_route id mode =
    if is_dry_run mode
    then ok (record {
      broker_order_id = some ("dry-" ++ request_id id);
      status = "submitted";
      error = none;
    })
    else err RouteError.only_dry_run

-- `LongbridgeRouter.route`
unfoldable pub longbridge_route : Bool → Option String → Mode → Result RouteError RouteResult
longbridge_route enable_live id mode =
    if is_dry_run mode
    then dry_run_route id mode
    else if is_paper mode
    then err RouteError.paper_needs_paper_broker
    else if enable_live
    then err RouteError.no_direct_live
    else err RouteError.live_not_enabled

-- The one answer there is: a dry run, under the id of its request.
pub record IsDryRun (id : Option String) (mode : Mode) (r : RouteResult) : Type 0 where
  pub dry_mode : mode ≡ Mode.dry_run
  pub marked : r.broker_order_id ≡ some ("dry-" ++ request_id id)
  pub no_error : r.error ≡ none
