-- ===== src/Scenarios/Routes.antt =====
-- A DRY_RUN order at a router with live orders enabled.
use trading_cat.Base.{none, some}
use trading_cat.Brokers.Router.{RouteResult}

abbrev routed : RouteResult
routed = record { broker_order_id = some "dry-r-1"; status = "submitted"; error = none }
