-- ===== src/Store/Intents.antt =====
-- shared/db.py: the table of order intents.
use Prim.Native.String.{compare}
use text.Mathlib.Text.{is_le}
use trading_cat.Base.{
  ℕ, suc, String, Bool, true, false, not, ◌&&◌, ◌||◌, Option, none, some, List, [], ◌∷◌, ◌++◌,
  str_eq, eqb, if◌then◌else◌, any,
}
use trading_cat.Base.Int.{ℤ}
use trading_cat.Base.Action.{◌>>=◌, ◌>>◌, raise_if, modify, gets}
use trading_cat.Base.Tables.{select, select_all, update_first}
use trading_cat.Models.{Side, OrderType}
use trading_cat.Store.{
  Store, Method, Intent, IntentStatus, is_given, bad_side, integrity_error, bad_intent_status,
}

-- `status in INTENT_STATUSES`
abbrev pub is_intent_status : IntentStatus → Bool
is_intent_status (IntentStatus.other _) = false
is_intent_status _ = true

abbrev pub same_status : IntentStatus → IntentStatus → Bool
same_status IntentStatus.pending IntentStatus.pending = true
same_status IntentStatus.submitting IntentStatus.submitting = true
same_status IntentStatus.submitted IntentStatus.submitted = true
same_status IntentStatus.filled IntentStatus.filled = true
same_status IntentStatus.rejected IntentStatus.rejected = true
same_status IntentStatus.cancelled IntentStatus.cancelled = true
same_status IntentStatus.unknown IntentStatus.unknown = true
same_status (IntentStatus.other a) (IntentStatus.other b) = str_eq a b
same_status _ _ = false

abbrev pub is_legal_side : Side → Bool
is_legal_side (Side.other _) = false
is_legal_side _ = true

-- The values of one INSERT.
pub record NewIntent : Type 0 where
  pub client_request_id : String
  pub plan_id : String
  pub plan_order_id : String
  pub symbol : String
  pub side : Side
  pub quantity : ℤ
  pub order_type : OrderType
  pub reference_price : Option ℤ
  pub max_slippage_bps : Option ℤ
  pub strategy_version_id : Option ℕ
  pub confirmation_id : Option String

-- A row with the next AUTOINCREMENT id, at status PENDING, which all callers pass.
unfoldable pub intent_row : NewIntent → ℕ → Intent
intent_row n key = record {
  intent_id = key;
  client_request_id = n.client_request_id;
  plan_id = n.plan_id;
  plan_order_id = n.plan_order_id;
  symbol = n.symbol;
  side = n.side;
  quantity = n.quantity;
  order_type = n.order_type;
  reference_price = n.reference_price;
  max_slippage_bps = n.max_slippage_bps;
  strategy_version_id = n.strategy_version_id;
  confirmation_id = n.confirmation_id;
  status = IntentStatus.pending;
  broker_order_id = none;
}

-- UNIQUE (client_request_id), UNIQUE (plan_id, plan_order_id)
abbrev pub conflicts : NewIntent → Intent → Bool
conflicts n i =
    str_eq i.client_request_id n.client_request_id
    || (str_eq i.plan_id n.plan_id && str_eq i.plan_order_id n.plan_order_id)

unfoldable pub add_intent : NewIntent → Store → Store
unfolding intent_row
add_intent n s = record s {
  intents = s.intents ++ intent_row n s.next_intent_id ∷ [];
  next_intent_id = suc s.next_intent_id;
}

unfoldable pub insert_intent : NewIntent → Method Unit
insert_intent n = do
  raise_if (not (is_legal_side n.side)) bad_side
  rows ← gets (λ s. s.intents)
  raise_if (any (conflicts n) rows) integrity_error
  modify (add_intent n)

-- ORDER BY plan_order_id
unfoldable pub insert_by_order : Intent → List Intent → List Intent
insert_by_order i [] = i ∷ []
insert_by_order i (j ∷ js) =
    if is_le (compare i.plan_order_id j.plan_order_id) then i ∷ j ∷ js else j ∷ insert_by_order i js

unfoldable pub order_by_plan_order_id : List Intent → List Intent
unfolding insert_by_order
order_by_plan_order_id [] = []
order_by_plan_order_id (i ∷ is) = insert_by_order i (order_by_plan_order_id is)

abbrev pub of_plan : String → Intent → Bool
of_plan plan_id i = str_eq i.plan_id plan_id

-- `list_intents(conn, plan_id)`; an empty id selects every row, like `list_intents(conn)`.
unfoldable pub list_intents : String → Store → List Intent
unfolding order_by_plan_order_id
list_intents plan_id s =
    if str_eq plan_id ""
    then s.intents
    else order_by_plan_order_id (select_all (of_plan plan_id) s.intents)

abbrev pub has_request_id : String → Intent → Bool
has_request_id r i = str_eq i.client_request_id r

unfoldable pub get_intent_by_request_id : String → Store → Option Intent
get_intent_by_request_id r s = select (has_request_id r) s.intents

abbrev pub has_broker_order_id : String → Intent → Bool
has_broker_order_id b i = elim i.broker_order_id [ none ↦ false | some c ↦ str_eq c b ]

unfoldable pub get_intent_by_broker_order_id : String → Store → Option Intent
get_intent_by_broker_order_id b s = select (has_broker_order_id b) s.intents

abbrev pub has_intent_id : ℕ → Intent → Bool
has_intent_id key i = eqb i.intent_id key

unfoldable pub get_intent : ℕ → Store → Option Intent
get_intent key s = select (has_intent_id key) s.intents

abbrev pub put_status : IntentStatus → Option String → Intent → Intent
put_status status broker_order_id i =
    if is_given broker_order_id
    then record i { status = status; broker_order_id = broker_order_id }
    else record i { status = status }

unfoldable pub write_intent : ℕ → (Intent → Intent) → Store → Store
write_intent key f s = record s { intents = update_first (has_intent_id key) f s.intents }

-- `dbm.set_intent_status`: the blind write.
unfoldable pub set_intent_status : ℕ → IntentStatus → Option String → Method Unit
set_intent_status key status broker_order_id = do
  raise_if (not (is_intent_status status)) bad_intent_status
  modify (write_intent key (put_status status broker_order_id))

-- `plan_ids_for_reconciliation`: DISTINCT, in ascending order.
abbrev pub is_open : Intent → Bool
is_open i = elim i.status [
  | IntentStatus.submitting ↦ true
  | IntentStatus.submitted ↦ true
  | IntentStatus.unknown ↦ true
  | _ ↦ false
]

unfoldable pub insert_distinct : String → List String → List String
insert_distinct p [] = p ∷ []
insert_distinct p (q ∷ qs) =
    if str_eq p q
    then q ∷ qs
    else if is_le (compare p q)
    then p ∷ q ∷ qs
    else q ∷ insert_distinct p qs

unfoldable pub distinct_plans : List Intent → List String
unfolding insert_distinct
distinct_plans [] = []
distinct_plans (i ∷ is) = insert_distinct i.plan_id (distinct_plans is)

unfoldable pub plan_ids_for_reconciliation : Store → List String
unfolding distinct_plans
plan_ids_for_reconciliation s = distinct_plans (select_all is_open s.intents)
