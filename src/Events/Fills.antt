-- ===== src/Events/Fills.antt =====
-- execution/broker.py: no order is ever filled beyond its quantity.
use trading_cat.Base.{
  ℕ, String, ◌≡◌, refl, Bool, true, false, ◌||◌, Option, none, some, List, [], ◌∷◌, ◌++◌, arith,
  eqb, eqb_iff, Bool-cases, Option-cases, inl, inr, if◌then◌else◌,
}
use trading_cat.Base.Int.{ℤ, pos, leb_ℤ, ◌≤ℤ◌, ◌+ℤ◌, ◌-ℤ◌, max_ℤ, min_ℤ, int_laws}
use trading_cat.Base.Tables.{Grows, select}
use trading_cat.Base.Action.{◌>>=◌, modify, roll_back, Result, ok, err, raise}
use trading_cat.Store.{
  Store, Intent, IntentStatus, Fill, Entity, AuditEvent, fill_duplicate_ignored, fill_ignored,
  Error,
}
use trading_cat.Store.AuditLog.{audit, audit_dedupe, write_audit}
use trading_cat.Store.Intents
use trading_cat.Store.Intents.{get_intent, has_intent_id, write_intent}
use trading_cat.Store.Fills.{
  sum_fills, filled_quantity, upsert_broker_order, put_broker_order, insert_fill, add_fill,
}
use trading_cat.State.{set_intent_status, change, keep_terminal}
use trading_cat.Evolution.{Evolves, IsLaterIntent}
use mathlib.Core.Path.{subst}
use trading_cat.Events.Evolve.{record_fill-Evolves, report-Evolves}
use trading_cat.Events.{
  Event, EventType, Fingerprint, upsert_if_given, report, handle, given, settle, fill_status,
  note_cap, record_fill, fill_rest, remaining, fill_once, fill_new, fill_row, fill_body, on_filled,
  dispatch, dedupe_key, is_dead, is_duplicate,
}

-- What may be filled: nothing for an unknown order, and else its quantity.
abbrev pub allowance : Option Intent → ℤ
allowance none = pos 0
allowance (some i) = max_ℤ (pos 0) i.quantity

abbrev pub IsFillBounded : Store → Type 0
IsFillBounded s = (key : ℕ) → filled_quantity key s ≤ℤ allowance (get_intent key s)

-- A later table allows what the table allowed.
allowance-later :
    (key : ℕ) (is js : List Intent)
    → Grows IsLaterIntent is js
    → allowance (select (has_intent_id key) is) ≤ℤ allowance (select (has_intent_id key) js)
allowance-later key [] js h = ground (arith, nonneg (select (has_intent_id key) js))
  where
    nonneg : (o : Option Intent) → pos 0 ≤ℤ allowance o
    nonneg none = omega arith
    nonneg (some i) = ground arith
allowance-later key (i ∷ is) [] h = elim h [ ]
allowance-later key (i ∷ is) (j ∷ js) h =
    ground (arith, h.0.same_id, h.0.same_quantity, allowance-later key is js h.1)

-- A change that writes no fill keeps the bound.
pub no_new_fill-IsFillBounded :
    (s t : Store) → Evolves s t → t.fills ≡ s.fills → IsFillBounded s → IsFillBounded t
unfolding filled_quantity get_intent
no_new_fill-IsFillBounded s t v e h key =
    rw e (omega (arith, h key, allowance-later key s.intents t.intents v.intents))

pub fills-set_intent_status :
    (key : ℕ) (status : IntentStatus) (b : Option String) (s : Store)
    → (set_intent_status key status b s).1.fills ≡ s.fills
unfolding set_intent_status change keep_terminal Intents.set_intent_status write_intent ◌>>=◌
fills-set_intent_status key status b s = ground arith

fills-upsert_if_given :
    (key : ℕ) (b : Option String) (s : Store) → (upsert_if_given key b s).1.fills ≡ s.fills
unfolding upsert_if_given upsert_broker_order put_broker_order ◌>>=◌
fills-upsert_if_given key b s = ground arith

fills-report :
    (status : IntentStatus) (e : Event) (s : Store) → (report status e s).1.fills ≡ s.fills
unfolding report audit write_audit ◌>>=◌
fills-report status e s = ground (
  arith,
  fills-set_intent_status e.intent_id status e.broker_order_id s,
  fills-upsert_if_given e.intent_id e.broker_order_id
      (set_intent_status e.intent_id status e.broker_order_id s).1,
)

abbrev fill_of : Event → ℤ → Fill
fill_of e quantity = record {
  broker_order_id = given e.broker_order_id;
  intent_id = e.intent_id;
  symbol = e.symbol;
  side = e.side;
  quantity = quantity;
  price = e.price;
}

fills-settle : (key : String) (e : Event) (s : Store) → (settle key e s).1.fills ≡ s.fills
unfolding settle audit audit_dedupe write_audit ◌>>=◌
fills-settle key e s = elim (Option-cases (get_intent e.intent_id s)) [
  | inl gone ↦ rw gone
  | inr (row, found) ↦ rw found (
      ground (
        arith,
        fills-set_intent_status e.intent_id
            (fill_status row.quantity (filled_quantity e.intent_id s)) e.broker_order_id s,
      ))
]

fills-note_cap : (b : Bool) (e : Event) (s : Store) → (note_cap b e s).1.fills ≡ s.fills
unfolding note_cap audit write_audit ◌>>=◌
fills-note_cap true e s = refl
fills-note_cap false e s = refl

-- The one write of a fill.
pub fills-record_fill :
    (key : String) (e : Event) (q : ℤ) (s : Store)
    → (record_fill key e q s).1.fills ≡ s.fills ++ fill_of e q ∷ []
unfolding record_fill note_cap upsert_if_given upsert_broker_order put_broker_order insert_fill
    add_fill audit write_audit ◌>>=◌
fills-record_fill key e q s = grind (arith, fills-settle)

sum_fills-append :
    (key : ℕ) (fs : List Fill) (f : Fill)
    → sum_fills key (fs ++ f ∷ [])
      ≡ (if eqb f.intent_id key then sum_fills key fs +ℤ f.quantity else sum_fills key fs)
unfolding sum_fills
sum_fills-append key [] f = grind int_laws
sum_fills-append key (g ∷ fs) f = grind (int_laws, sum_fills-append key fs f)

-- A fill that still fits the order keeps the bound.
module _ (key : String) (e : Event) (q : ℤ) (s : Store)
    (fits : filled_quantity e.intent_id s +ℤ q ≤ℤ allowance (get_intent e.intent_id s))
    (h : IsFillBounded s) where
  fits_at : (k : ℕ) → e.intent_id ≡ k → filled_quantity k s +ℤ q ≤ℤ allowance (get_intent k s)
  fits_at k same = subst (λ j. filled_quantity j s +ℤ q ≤ℤ allowance (get_intent j s)) same fits

  allowed_later :
      (k : ℕ) → allowance (get_intent k s) ≤ℤ allowance (get_intent k (record_fill key e q s).1)
  unfolding get_intent
  allowed_later k =
      allowance-later k s.intents (record_fill key e q s).1.intents
        ((record_fill-Evolves key e q).at s).intents

  record_fill-IsFillBounded : IsFillBounded (record_fill key e q s).1
  unfolding filled_quantity
  record_fill-IsFillBounded k =
      rw (fills-record_fill key e q s, sum_fills-append k s.fills (fill_of e q))
        (elim (Bool-cases (eqb e.intent_id k)) [
          | inl hit ↦
              rw hit (omega (arith, fits_at k ((eqb_iff e.intent_id k).0 hit), allowed_later k))
          | inr miss ↦ rw miss (omega (arith, h k, allowed_later k))
        ])

-- What is left of an order still fits it.
min-fits :
    (want before total : ℤ)
    → ¬ (max_ℤ (pos 0) (total -ℤ before) ≤ℤ pos 1)
    → before +ℤ min_ℤ want (max_ℤ (pos 0) (total -ℤ before)) ≤ℤ max_ℤ (pos 0) total
min-fits want before total h = grind int_laws

module _ (s : Store) (h : IsFillBounded s) where
  only_audited :
      (event : AuditEvent) (e : Event) → IsFillBounded (audit event (Entity.intent e.intent_id) s).1
  unfolding audit write_audit modify filled_quantity get_intent
  only_audited event e = h

  module _ (key : String) (e : Event) (row : Intent)
      (found : get_intent e.intent_id s ≡ some row) where
    fill_rest-IsFillBounded :
        IsFillBounded (fill_rest key e (remaining row (filled_quantity e.intent_id s)) s).1
    unfolding fill_rest remaining
    fill_rest-IsFillBounded =
        elim (Bool-cases
          (leb_ℤ (max_ℤ (pos 0) (row.quantity -ℤ filled_quantity e.intent_id s)) (pos 1))) [
            | inl spent ↦ rw spent (only_audited fill_duplicate_ignored e)
            | inr left ↦ rw left (
                record_fill-IsFillBounded key e
                  (min_ℤ e.quantity (max_ℤ (pos 0) (row.quantity -ℤ filled_quantity e.intent_id s)))
                  s
                  (rw found (
                    min-fits e.quantity (filled_quantity e.intent_id s) row.quantity
                      (λ small. ground arith)))
                  h)
          ]

    fill_once-IsFillBounded : (duplicate : Bool) → IsFillBounded (fill_once duplicate key e row s).1
    unfolding fill_once fill_new ◌>>=◌
    fill_once-IsFillBounded true = only_audited fill_duplicate_ignored e
    fill_once-IsFillBounded false = fill_rest-IsFillBounded

    fill_row-IsFillBounded :
        (sha256 : Fingerprint)
        → dedupe_key sha256 e ≡ key
        → IsFillBounded (fill_row sha256 e row s).1
    unfolding fill_row ◌>>=◌
    fill_row-IsFillBounded sha256 same =
        elim (Bool-cases (is_dead row.status || leb_ℤ e.quantity (pos 0))) [
          | inl ignored ↦ rw ignored (only_audited fill_ignored e)
          | inr taken ↦ rw (taken, same) (fill_once-IsFillBounded (is_duplicate e.intent_id key s))
        ]

    fill_body-IsFillBounded_found :
        (sha256 : Fingerprint) → dedupe_key sha256 e ≡ key → IsFillBounded (on_filled sha256 e s).1
    unfolding on_filled fill_body ◌>>=◌
    fill_body-IsFillBounded_found sha256 same = rw found (
        roll_back-keeps (fill_row sha256 e row s).0 (fill_row sha256 e row s).1
          (fill_row-IsFillBounded sha256 same))
      where
        roll_back-keeps :
            (r : Result Error Unit) (t : Store)
            → IsFillBounded t
            → IsFillBounded (roll_back s (r, t)).1
        roll_back-keeps (ok a) t k = k
        roll_back-keeps (err x) t k = h

on_filled-IsFillBounded :
    (sha256 : Fingerprint) (e : Event) (s : Store)
    → IsFillBounded s
    → IsFillBounded (on_filled sha256 e s).1
unfolding on_filled fill_body ◌>>=◌
on_filled-IsFillBounded sha256 e s h = elim (Option-cases (get_intent e.intent_id s)) [
  | inl gone ↦ rw gone h
  | inr (row, found) ↦
      fill_body-IsFillBounded_found s h (dedupe_key sha256 e) e row found sha256 refl
]

report-IsFillBounded :
    (status : IntentStatus) (e : Event) (s : Store)
    → IsFillBounded s
    → IsFillBounded (report status e s).1
report-IsFillBounded status e s =
    no_new_fill-IsFillBounded s (report status e s).1 ((report-Evolves status e).at s)
      (fills-report status e s)

dispatch-IsFillBounded :
    (t : EventType) (sha256 : Fingerprint) (e : Event) (s : Store)
    → IsFillBounded s
    → IsFillBounded (dispatch t sha256 e s).1
unfolding dispatch raise
dispatch-IsFillBounded EventType.submitted sha256 e s h =
    report-IsFillBounded IntentStatus.submitted e s h
dispatch-IsFillBounded EventType.rejected sha256 e s h =
    report-IsFillBounded IntentStatus.rejected e s h
dispatch-IsFillBounded EventType.filled sha256 e s h = on_filled-IsFillBounded sha256 e s h
dispatch-IsFillBounded EventType.cancelled sha256 e s h =
    report-IsFillBounded IntentStatus.cancelled e s h
dispatch-IsFillBounded EventType.changed sha256 e s h =
    report-IsFillBounded IntentStatus.submitted e s h
dispatch-IsFillBounded (EventType.other t) sha256 e s h = h

-- Whatever the broker reports, twice, late or beyond the quantity, the fills that are kept of an
-- order never sum to more than its quantity, and an order that does not exist has none.
pub handle-IsFillBounded :
    (sha256 : Fingerprint) (e : Event) (s : Store)
    → IsFillBounded s
    → IsFillBounded (handle sha256 e s).1
unfolding handle
handle-IsFillBounded sha256 e s = dispatch-IsFillBounded e.type sha256 e s
