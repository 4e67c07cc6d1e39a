-- ===== src/Events.antt =====
-- execution/broker.py: `BrokerEventHandler`, which drives the status of an order by what the broker
-- reports, and the normal form of a broker's status.
pub mod Evolve
pub mod Fills
pub mod Repeat
use trading_cat.Base.{
  ℕ, String, Bool, true, false, not, ◌&&◌, ◌||◌, Option, none, some, List, [], ◌∷◌, ◌++◌,
  if◌then◌else◌, any, str_eq, eqb,
}
use trading_cat.Base.Int.{ℤ, pos, ◌-ℤ◌, leb_ℤ, ltb_ℤ, min_ℤ, max_ℤ}
use trading_cat.Base.Action.{◌>>=◌, ◌>>◌, pure, raise, or_raise, gets, immediate_transaction}
use trading_cat.Text.{codes, dumps, dumps_raw, like}
use trading_cat.Models.{Side}
use trading_cat.Store.{
  Store, Method, Intent, IntentStatus, Audit, AuditEvent, Entity, broker_order, fill_recorded,
  fill_ignored, fill_duplicate_ignored, fill_capped, fill_dedupe, intent_missing, unknown_event,
  is_given,
}
use trading_cat.Store.AuditLog.{audit, audit_dedupe}
use trading_cat.Store.Intents.{get_intent}
use trading_cat.Store.Fills.{upsert_broker_order, insert_fill, filled_quantity}
use trading_cat.State.{set_intent_status}

pub data EventType : Type 0 where
  submitted rejected filled cancelled changed : EventType
  other : String → EventType

-- The keys of an event that a handler reads; `none` is an absent key.
pub record Event : Type 0 where
  pub type : EventType
  pub intent_id : ℕ
  pub broker_order_id : Option String
  pub symbol : String
  pub side : Side
  pub quantity : ℤ
  pub price : ℤ
  pub filled_at : Option ℕ
  pub event_id : Option String
  pub execution_id : Option String
  pub trade_id : Option String
  pub fill_id : Option String

-- What the fingerprint of a fill without an id covers. Its sha256 is a parameter.
pub record FillContent : Type 0 where
  pub intent_id : ℕ
  pub broker_order_id : Option String
  pub symbol : String
  pub side : Side
  pub quantity : ℤ
  pub price : ℤ
  pub filled_at : Option ℕ

abbrev pub Fingerprint : Type 0
Fingerprint = FillContent → String

-- `x or y` on optional texts, and `x or None` for an id that counts only if it is not empty.
abbrev pub or_else : Option String → Option String → Option String
or_else a b = if is_given a then a else b

abbrev pub given : Option String → Option String
given a = if is_given a then a else none

abbrev identity : Event → Option String
identity e = or_else e.event_id (or_else e.execution_id (or_else e.trade_id e.fill_id))

abbrev or_fingerprint : Option String → String → String
or_fingerprint none print = print
or_fingerprint (some key) print = key

unfoldable pub dedupe_key : Fingerprint → Event → String
dedupe_key sha256 e = or_fingerprint (identity e) (
    sha256 (record {
      intent_id = e.intent_id;
      broker_order_id = given e.broker_order_id;
      symbol = e.symbol;
      side = e.side;
      quantity = e.quantity;
      price = e.price;
      filled_at = e.filled_at;
    }))

-- `"dedupe_key": `, the JSON of the marker's payload, and the LIKE pattern that looks for it.
abbrev pub key_label : List ℕ
key_label = 34 ∷ (codes "dedupe_key" ++ 34 ∷ b':' ∷ b' ' ∷ [])

unfoldable pub marker_payload : List ℕ → List ℕ
marker_payload key = b'{' ∷ (key_label ++ (dumps_raw key ++ b'}' ∷ []))

unfoldable pub marker_pattern : List ℕ → List ℕ
marker_pattern key = b'%' ∷ ((key_label ++ dumps key) ++ b'%' ∷ [])

abbrev is_fill_dedupe : AuditEvent → Bool
is_fill_dedupe fill_dedupe = true
is_fill_dedupe _ = false

abbrev is_intent_entity : ℕ → Entity → Bool
is_intent_entity key (Entity.intent i) = eqb i key
is_intent_entity key _ = false

abbrev payload_matches : String → Option String → Bool
payload_matches key none = false
payload_matches key (some old) = like (marker_pattern (codes key)) (marker_payload (codes old))

abbrev pub is_marker : ℕ → String → Audit → Bool
is_marker intent_id key a =
    is_fill_dedupe a.event
    && (is_intent_entity intent_id a.entity && payload_matches key a.dedupe_key)

unfoldable pub is_duplicate : ℕ → String → Store → Bool
is_duplicate intent_id key s = any (is_marker intent_id key) s.audit_log

unfoldable pub upsert_if_given : ℕ → Option String → Method Unit
upsert_if_given intent_id none = pure tt
upsert_if_given intent_id (some b) =
    if str_eq b "" then pure tt else upsert_broker_order intent_id b

-- The four handlers that set a status and note the broker's order.
unfoldable pub report : IntentStatus → Event → Method Unit
report status e = do
  set_intent_status e.intent_id status e.broker_order_id
  upsert_if_given e.intent_id e.broker_order_id
  audit broker_order (Entity.intent e.intent_id)

-- The status after a fill: FILLED up to the tolerance.
unfoldable pub fill_status : ℤ → ℤ → IntentStatus
fill_status total filled_total =
    if leb_ℤ (total -ℤ pos 1) filled_total then IntentStatus.filled else IntentStatus.submitted

-- The rest of the transaction, once the fill is in the table.
unfoldable pub settle : String → Event → Method Unit
settle key e = do
  found ← gets (get_intent e.intent_id)
  row ← or_raise found intent_missing
  filled_total ← gets (filled_quantity e.intent_id)
  set_intent_status e.intent_id (fill_status row.quantity filled_total) e.broker_order_id
  audit_dedupe (Entity.intent e.intent_id) key
  audit fill_recorded (Entity.intent e.intent_id)

unfoldable pub note_cap : Bool → Event → Method Unit
note_cap true e = audit fill_capped (Entity.intent e.intent_id)
note_cap false e = pure tt

unfoldable pub record_fill : String → Event → ℤ → Method Unit
record_fill key e quantity = do
  note_cap (ltb_ℤ quantity (e.quantity -ℤ pos 1)) e
  upsert_if_given e.intent_id e.broker_order_id
  insert_fill (record {
    broker_order_id = given e.broker_order_id;
    intent_id = e.intent_id;
    symbol = e.symbol;
    side = e.side;
    quantity = quantity;
    price = e.price;
  })
  settle key e

unfoldable pub remaining : Intent → ℤ → ℤ
remaining row before = max_ℤ (pos 0) (row.quantity -ℤ before)

unfoldable pub fill_rest : String → Event → ℤ → Method Unit
fill_rest key e left =
    if leb_ℤ left (pos 1)
    then audit fill_duplicate_ignored (Entity.intent e.intent_id)
    else record_fill key e (min_ℤ e.quantity left)

unfoldable pub fill_new : String → Event → Intent → Method Unit
fill_new key e row = do
  before ← gets (filled_quantity e.intent_id)
  fill_rest key e (remaining row before)

unfoldable pub fill_once : Bool → String → Event → Intent → Method Unit
fill_once true key e row = audit fill_duplicate_ignored (Entity.intent e.intent_id)
fill_once false key e row = fill_new key e row

-- `status in ("REJECTED", "CANCELLED")`
abbrev pub is_dead : IntentStatus → Bool
is_dead IntentStatus.rejected = true
is_dead IntentStatus.cancelled = true
is_dead _ = false

unfoldable pub fill_row : Fingerprint → Event → Intent → Method Unit
fill_row sha256 e row =
    if is_dead row.status || leb_ℤ e.quantity (pos 0)
    then audit fill_ignored (Entity.intent e.intent_id)
    else (do
      duplicate ← gets (is_duplicate e.intent_id (dedupe_key sha256 e))
      fill_once duplicate (dedupe_key sha256 e) e row)

unfoldable pub fill_body : Fingerprint → Event → Method Unit
fill_body sha256 e = do
  found ← gets (get_intent e.intent_id)
  row ← or_raise found intent_missing
  fill_row sha256 e row

unfoldable pub on_filled : Fingerprint → Event → Method Unit
on_filled sha256 e = immediate_transaction (fill_body sha256 e)

unfoldable pub dispatch : EventType → Fingerprint → Event → Method Unit
dispatch EventType.submitted sha256 e = report IntentStatus.submitted e
dispatch EventType.rejected sha256 e = report IntentStatus.rejected e
dispatch EventType.filled sha256 e = on_filled sha256 e
dispatch EventType.cancelled sha256 e = report IntentStatus.cancelled e
dispatch EventType.changed sha256 e = report IntentStatus.submitted e
dispatch (EventType.other _) sha256 e = raise unknown_event

unfoldable pub handle : Fingerprint → Event → Method Unit
handle sha256 e = dispatch e.type sha256 e
