-- ===== src/Store/Fills.antt =====
-- shared/db.py: the tables of broker orders and fills.
use trading_cat.Base.{ℕ, String, not, List, [], ◌∷◌, ◌++◌, str_eq, eqb, if◌then◌else◌}
use trading_cat.Base.Int.{ℤ, pos, ◌+ℤ◌}
use trading_cat.Base.Action.{modify}
use trading_cat.Base.Tables.{select_all}
use trading_cat.Store.{Store, Method, BrokerOrder, Fill}

-- INSERT OR REPLACE on the key `broker_order_id`.
unfoldable pub put_broker_order : BrokerOrder → Store → Store
put_broker_order b s = record s {
  broker_orders =
      select_all (λ c. not (str_eq c.broker_order_id b.broker_order_id)) s.broker_orders ++ b ∷ [];
}

unfoldable pub upsert_broker_order : ℕ → String → Method Unit
upsert_broker_order intent_id broker_order_id =
    modify (put_broker_order (record { broker_order_id = broker_order_id; intent_id = intent_id }))

unfoldable pub add_fill : Fill → Store → Store
add_fill f s = record s { fills = s.fills ++ f ∷ [] }

unfoldable pub insert_fill : Fill → Method Unit
insert_fill f = modify (add_fill f)

-- SUM(quantity) over the fills of one intent.
unfoldable pub sum_fills : ℕ → List Fill → ℤ
sum_fills key [] = pos 0
sum_fills key (f ∷ fs) =
    if eqb f.intent_id key then f.quantity +ℤ sum_fills key fs else sum_fills key fs

unfoldable pub filled_quantity : ℕ → Store → ℤ
unfolding sum_fills
filled_quantity key s = sum_fills key s.fills
