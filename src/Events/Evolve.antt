-- ===== src/Events/Evolve.antt =====
-- execution/broker.py: every event evolves the store.
use trading_cat.Base.{ℕ, String, Bool, true, false, Option, none, some}
use trading_cat.Base.Int.{ℤ}
use trading_cat.Base.Action.Relates.{Relates, relates_rules}
use trading_cat.Store.{Intent, IntentStatus}
use trading_cat.State.Monotone.{set_intent_status-Evolves}
use trading_cat.Evolution.{Evolves, Evolves-IsPreorder}
use trading_cat.Evolution.Methods.{
  audit-Evolves, audit_dedupe-Evolves, upsert_broker_order-Evolves, insert_fill-Evolves,
}
use trading_cat.Events.{
  Event, EventType, Fingerprint, upsert_if_given, report, settle, note_cap, record_fill, fill_rest,
  fill_new, fill_once, fill_row, fill_body, on_filled, dispatch, handle,
}

ruleset rules = (
  Evolves-IsPreorder, relates_rules, set_intent_status-Evolves, audit-Evolves, audit_dedupe-Evolves,
  upsert_broker_order-Evolves, insert_fill-Evolves,
)

upsert_if_given-Evolves : (key : ℕ) (b : Option String) → Relates Evolves (upsert_if_given key b)
unfolding upsert_if_given
upsert_if_given-Evolves key none = search rules
upsert_if_given-Evolves key (some b) = search rules

pub report-Evolves : (status : IntentStatus) (e : Event) → Relates Evolves (report status e)
unfolding report
report-Evolves status e = search (rules, upsert_if_given-Evolves) depth 20

settle-Evolves : (key : String) (e : Event) → Relates Evolves (settle key e)
unfolding settle
settle-Evolves key e = search rules depth 20

note_cap-Evolves : (b : Bool) (e : Event) → Relates Evolves (note_cap b e)
unfolding note_cap
note_cap-Evolves true e = search rules
note_cap-Evolves false e = search rules

pub record_fill-Evolves : (key : String) (e : Event) (q : ℤ) → Relates Evolves (record_fill key e q)
unfolding record_fill
record_fill-Evolves key e q =
    search (rules, note_cap-Evolves, upsert_if_given-Evolves, settle-Evolves) depth 20

fill_rest-Evolves : (key : String) (e : Event) (q : ℤ) → Relates Evolves (fill_rest key e q)
unfolding fill_rest
fill_rest-Evolves key e q = search (rules, record_fill-Evolves)

fill_once-Evolves :
    (b : Bool) (key : String) (e : Event) (row : Intent) → Relates Evolves (fill_once b key e row)
unfolding fill_once fill_new
fill_once-Evolves true key e row = search rules
fill_once-Evolves false key e row = search (rules, fill_rest-Evolves)

fill_row-Evolves :
    (sha256 : Fingerprint) (e : Event) (row : Intent) → Relates Evolves (fill_row sha256 e row)
unfolding fill_row
fill_row-Evolves sha256 e row = search (rules, fill_once-Evolves)

pub on_filled-Evolves : (sha256 : Fingerprint) (e : Event) → Relates Evolves (on_filled sha256 e)
unfolding on_filled fill_body
on_filled-Evolves sha256 e = search (rules, fill_row-Evolves) depth 12

dispatch-Evolves :
    (t : EventType) (sha256 : Fingerprint) (e : Event) → Relates Evolves (dispatch t sha256 e)
unfolding dispatch
dispatch-Evolves EventType.filled sha256 e = on_filled-Evolves sha256 e
dispatch-Evolves EventType.submitted sha256 e = report-Evolves IntentStatus.submitted e
dispatch-Evolves EventType.rejected sha256 e = report-Evolves IntentStatus.rejected e
dispatch-Evolves EventType.cancelled sha256 e = report-Evolves IntentStatus.cancelled e
dispatch-Evolves EventType.changed sha256 e = report-Evolves IntentStatus.submitted e
dispatch-Evolves (EventType.other t) sha256 e = search rules

pub handle-Evolves : (sha256 : Fingerprint) (e : Event) → Relates Evolves (handle sha256 e)
unfolding handle
handle-Evolves sha256 e = dispatch-Evolves e.type sha256 e
