-- ===== src/Brokers/Snapshots.antt =====
-- execution/broker_live.py: what the broker says of an order, turned into events. The broker has its
-- event handler, which it has whenever it may trade or query.
pub mod Evolve
use Prim.Native.Char.{code}
use Prim.Native.String.{String}
use trading_cat.Base.{
  ℕ, suc, Bool, true, false, not, ◌&&◌, Option, none, some, List, [], ◌∷◌, eqb, if◌then◌else◌,
}
use trading_cat.Base.Int.{ℤ, pos, ◌-ℤ◌, ltb_ℤ, leb_ℤ}
use trading_cat.Base.Action.{◌>>=◌, ◌>>◌, pure, raise_if, gets}
use trading_cat.Store.{
  Store, Method, Intent, IntentStatus, Entity, broker_event, broker_poll, broker_query_failed,
  broker_failed,
}
use trading_cat.Store.AuditLog.{audit}
use trading_cat.Store.Intents.{
  list_intents, get_intent_by_broker_order_id, get_intent_by_request_id, is_open,
}
use trading_cat.Store.Fills.{filled_quantity}
use trading_cat.State.{set_intent_status}
use trading_cat.Events.{Event, EventType, Fingerprint, handle, given, or_else}
use trading_cat.Brokers.Status.{Normal, normalize_broker_status}
use trading_cat.Brokers.Live.{LiveBroker}

-- The keys of a snapshot that are read.
pub record Snapshot : Type 0 where
  pub order_id : Option String
  pub broker_order_id : Option String
  pub remark : Option String
  pub status : Option String
  pub executed_quantity : Option ℤ
  pub executed_price : Option ℤ
  pub price : Option ℤ

-- `remark[3:]` of a remark that starts with "tc:".
abbrev after_tag : String → Option String
after_tag (String.◌∷◌ t (String.◌∷◌ c (String.◌∷◌ colon rest))) =
    if eqb (code t) b't' && (eqb (code c) b'c' && eqb (code colon) b':') then some rest else none
after_tag _ = none

abbrev tagged : Option String → Option String
tagged none = none
tagged (some remark) = after_tag remark

abbrev snapshot_id : Snapshot → Option String
snapshot_id n = given (or_else n.order_id n.broker_order_id)

abbrev by_id : Option String → Store → Option Intent
by_id none s = none
by_id (some b) s = get_intent_by_broker_order_id b s

abbrev by_tag : Option String → Store → Option Intent
by_tag none s = none
by_tag (some request) s = get_intent_by_request_id request s

abbrev or_intent : Option Intent → Option Intent → Option Intent
or_intent none other = other
or_intent (some i) other = some i

-- The order that a snapshot is about.
unfoldable pub find_intent : Option Intent → Snapshot → Store → Option Intent
find_intent known n s =
    or_intent known (or_intent (by_id (snapshot_id n) s) (by_tag (tagged n.remark) s))

-- `x or y` on numbers, where 0 is false.
abbrev or_number : Option ℤ → ℤ → ℤ
or_number none other = other
or_number (some (pos ℕ.zero)) other = other
or_number (some a) other = a

abbrev pub event_of : EventType → Snapshot → Intent → ℤ → ℤ → Event
event_of type n i quantity price = record {
  type = type;
  intent_id = i.intent_id;
  broker_order_id = or_else (snapshot_id n) i.broker_order_id;
  symbol = i.symbol;
  side = i.side;
  quantity = quantity;
  price = price;
  filled_at = none;
  event_id = none;
  execution_id = none;
  trade_id = none;
  fill_id = none;
}

-- `_dispatch`
unfoldable pub dispatch_event : Fingerprint → Event → Method Unit
dispatch_event sha256 e = do audit broker_event (Entity.intent e.intent_id); handle sha256 e

unfoldable pub apply_status : Fingerprint → Snapshot → Intent → Normal → Method Bool
apply_status sha256 n i (Normal.known IntentStatus.filled) = pure false
apply_status sha256 n i (Normal.known IntentStatus.rejected) =
    dispatch_event sha256 (event_of EventType.rejected n i (pos 0) (pos 0)) >>= λ _. pure true
apply_status sha256 n i (Normal.known IntentStatus.cancelled) =
    dispatch_event sha256 (event_of EventType.cancelled n i (pos 0) (pos 0)) >>= λ _. pure true
apply_status sha256 n i (Normal.known IntentStatus.submitted) =
    dispatch_event sha256 (event_of EventType.submitted n i (pos 0) (pos 0)) >>= λ _. pure true
apply_status sha256 n i _ =
    set_intent_status i.intent_id IntentStatus.unknown (or_else (snapshot_id n) i.broker_order_id)
    >>= λ _. pure true

-- A fill, full or partial, by what the broker reports beyond what is known.
unfoldable pub apply_fill : Fingerprint → Snapshot → Intent → ℤ → ℤ → Method Bool
apply_fill sha256 n i delta price = do
  raise_if (leb_ℤ price (pos 0)) broker_failed
  dispatch_event sha256 (event_of EventType.filled n i delta price)
  pure true

unfoldable pub apply_at : Fingerprint → Snapshot → Intent → ℤ → Method Bool
apply_at sha256 n i delta =
    if ltb_ℤ (pos 1) delta
    then apply_fill sha256 n i delta (or_number n.executed_price (or_number n.price (pos 0)))
    else apply_status sha256 n i (normalize_broker_status n.status)

unfoldable pub apply_found : Fingerprint → Snapshot → Option Intent → Method Bool
apply_found sha256 n none = pure false
apply_found sha256 n (some i) = do
  already ← gets (filled_quantity i.intent_id)
  apply_at sha256 n i (or_number n.executed_quantity (pos 0) -ℤ already)

unfoldable pub apply_order_snapshot : Fingerprint → Snapshot → Option Intent → Method Bool
apply_order_snapshot sha256 n known = do
  found ← gets (find_intent known n)
  apply_found sha256 n found

-- The answer to a query: an order, no order, or an exception.
pub data Answer : Type 0 where
  order : Snapshot → Answer
  no_order query_failed : Answer

unfoldable pub found_order : String → Answer → Method (Option Snapshot)
found_order key (order n) = pure (some n)
found_order key no_order = pure none
found_order key query_failed =
    audit broker_query_failed (Entity.broker_order key) >>= λ _. pure none

unfoldable pub order_state : LiveBroker → (String → Answer) → String → Method (Option Snapshot)
order_state b query key =
    if not b.enable_live && not b.enable_order_queries
    then pure (
        some (record {
          order_id = none;
          broker_order_id = some key;
          remark = none;
          status = some "SUBMITTED";
          executed_quantity = none;
          executed_price = none;
          price = none;
        }))
    else found_order key (query key)

-- `checked`, `updated`, and the number of `errors`.
pub record Tally : Type 0 where
  pub checked : ℕ
  pub updated : ℕ
  pub errors : ℕ

abbrev count_update : Bool → Tally → Tally
count_update true n = record n { updated = suc n.updated }
count_update false n = n

unfoldable pub poll_answer : Fingerprint → Intent → String → Option Snapshot → Tally → Method Tally
poll_answer sha256 i key none n = do
  set_intent_status i.intent_id IntentStatus.unknown (some key)
  pure (record n { errors = suc n.errors })
poll_answer sha256 i key (some found) n = do
  changed ← apply_order_snapshot sha256 found (some i)
  pure (count_update changed n)

unfoldable pub poll_id :
    Fingerprint → LiveBroker → (String → Answer) → Intent → Option String → Tally → Method Tally
poll_id sha256 b query i none n = pure (record n { errors = suc n.errors })
poll_id sha256 b query i (some key) n = do
  found ← order_state b query key
  poll_answer sha256 i key found n

unfoldable pub poll_row :
    Fingerprint → LiveBroker → (String → Answer) → Intent → Tally → Method Tally
poll_row sha256 b query i n =
    if is_open i
    then poll_id sha256 b query i (given i.broker_order_id) (record n { checked = suc n.checked })
    else pure n

unfoldable pub poll_rows :
    Fingerprint → LiveBroker → (String → Answer) → List Intent → Tally → Method Tally
poll_rows sha256 b query [] n = pure n
poll_rows sha256 b query (i ∷ is) n = do
  m ← poll_row sha256 b query i n
  poll_rows sha256 b query is m

-- `poll_active_orders`; an empty id stands for all plans.
unfoldable pub poll_active_orders :
    Fingerprint → LiveBroker → (String → Answer) → String → Method Tally
poll_active_orders sha256 b query plan_id = do
  rows ← gets (list_intents plan_id)
  n ← poll_rows sha256 b query rows (record { checked = 0; updated = 0; errors = 0 })
  audit broker_poll (Entity.plan plan_id)
  pure n
