-- ===== src/Core/Signals.antt =====
-- shared/db.py and production/notification.py: signals, the notifications that are stored with them, and
-- the worker that sends these.
pub mod Stored
pub mod Stuck
use Prim.Native.String.{compare}
use text.Mathlib.Text.{is_le}
use trading_cat.Base.{
  ℕ, ◌+◌, ◌-◌, suc, zero, String, Bool, true, false, not, ◌&&◌, ◌||◌, Option, none, some, List, [],
  ◌∷◌, ◌++◌, str_eq, eqb, any, leb, if◌then◌else◌, is_some, length,
}
use trading_cat.Base.Action.{
  ◌>>=◌, ◌>>◌, pure, raise_if, or_raise, modify, gets, immediate_transaction,
}
use trading_cat.Base.Tables.{select, select_all, update_first}
use trading_cat.Core.{
  Core, CoreMethod, SignalEvent, Outbox, OutboxStatus, Alert, signal_lost, signal_changed,
  bad_outbox_status, signal_event,
}
use trading_cat.Core.Audits.{audit_core}

-- The business key of a signal.
pub record SignalKey : Type 0 where
  pub account_id : String
  pub symbol : String
  pub strategy_version_id : ℕ
  pub bar_ts : String
  pub signal_type : String

-- `_event_hash` of a key, and of an event with a channel: sha256 is a parameter.
pub record Hashes : Type 0 where
  pub event : SignalKey → String
  pub out : String → String → String

abbrev pub has_event_id : String → SignalEvent → Bool
has_event_id id e = str_eq e.event_id id

-- UNIQUE(account_id, symbol, strategy_version_id, bar_ts, signal_type)
abbrev same_key : SignalKey → SignalEvent → Bool
same_key k e =
    str_eq e.account_id k.account_id
    && (str_eq e.symbol k.symbol
        && (eqb e.strategy_version_id k.strategy_version_id
            && (str_eq e.bar_ts k.bar_ts && str_eq e.signal_type k.signal_type)))

abbrev pub event_of : String → SignalKey → String → SignalEvent
event_of id k payload = record {
  event_id = id;
  account_id = k.account_id;
  symbol = k.symbol;
  strategy_version_id = k.strategy_version_id;
  bar_ts = k.bar_ts;
  signal_type = k.signal_type;
  payload_json = payload;
}

-- INSERT OR IGNORE, which a row under the id or the key makes do nothing.
abbrev pub is_taken : String → SignalKey → Core → Bool
is_taken id k s = any (λ e. has_event_id id e || same_key k e) s.signal_events

unfoldable pub insert_event : SignalEvent → SignalKey → Core → Core
insert_event e k s =
    if is_taken e.event_id k s then s else record s { signal_events = s.signal_events ++ e ∷ [] }

unfoldable pub get_event : String → Core → Option SignalEvent
get_event id s = select (has_event_id id) s.signal_events

abbrev pub has_outbox_id : String → Outbox → Bool
has_outbox_id id o = str_eq o.outbox_id id

abbrev clashes : Outbox → Outbox → Bool
clashes new o =
    has_outbox_id new.outbox_id o
    || (str_eq o.event_id new.event_id && str_eq o.channel new.channel)

abbrev pub pending_row : String → String → String → String → ℕ → Outbox
pending_row out_id event_id channel payload now = record {
  outbox_id = out_id;
  event_id = event_id;
  channel = channel;
  payload_json = payload;
  status = OutboxStatus.pending;
  attempts = 0;
  next_retry_at = none;
  created_at = now;
}

unfoldable pub insert_outbox : Outbox → Core → Core
insert_outbox new s =
    if any (clashes new) s.outbox then s else record s { outbox = s.outbox ++ new ∷ [] }

abbrev pub or_configured : List String → List String
or_configured [] = "configured" ∷ []
or_configured cs = cs

unfoldable pub insert_channels : Hashes → String → String → ℕ → List String → CoreMethod Unit
insert_channels h id payload now [] = pure tt
insert_channels h id payload now (c ∷ cs) = do
  modify (insert_outbox (pending_row (h.out id c) id c payload now))
  insert_channels h id payload now cs

unfoldable pub record_body : Hashes → SignalKey → String → List String → ℕ → CoreMethod Bool
record_body h k payload channels now = do
  taken ← gets (is_taken (h.event k) k)
  modify (insert_event (event_of (h.event k) k payload) k)
  found ← gets (get_event (h.event k))
  existing ← or_raise found signal_lost
  raise_if (not (str_eq existing.payload_json payload)) signal_changed
  insert_channels h (h.event k) payload now channels
  audit_core signal_event (h.event k)
  pure (not taken)

-- What the call returns.
pub record Recorded : Type 0 where
  pub event : Option SignalEvent
  pub outbox : List Outbox
  pub created : Bool

-- `sorted(set(channels))`
unfoldable pub insert_text : String → List String → List String
insert_text t [] = t ∷ []
insert_text t (u ∷ us) =
    if str_eq t u then u ∷ us else if is_le (compare t u) then t ∷ u ∷ us else u ∷ insert_text t us

unfoldable pub sorted_set : List String → List String
unfolding insert_text
sorted_set [] = []
sorted_set (t ∷ ts) = insert_text t (sorted_set ts)

-- ORDER BY channel
unfoldable pub insert_by_channel : Outbox → List Outbox → List Outbox
insert_by_channel o [] = o ∷ []
insert_by_channel o (p ∷ ps) =
    if is_le (compare o.channel p.channel) then o ∷ p ∷ ps else p ∷ insert_by_channel o ps

unfoldable pub by_channel : List Outbox → List Outbox
unfolding insert_by_channel
by_channel [] = []
by_channel (o ∷ os) = insert_by_channel o (by_channel os)

abbrev of_event : String → Outbox → Bool
of_event id o = str_eq o.event_id id

unfoldable pub record_signal_with_outbox :
    Hashes → SignalKey → String → List String → ℕ → CoreMethod Recorded
record_signal_with_outbox h k payload channels now = do
  created ←
      immediate_transaction (record_body h k payload (sorted_set (or_configured channels)) now)
  event ← gets (get_event (h.event k))
  rows ← gets (λ s. select_all (of_event (h.event k)) s.outbox)
  pure (record { event = event; outbox = by_channel rows; created = created })

abbrev pub same_outbox_status : OutboxStatus → OutboxStatus → Bool
same_outbox_status OutboxStatus.pending OutboxStatus.pending = true
same_outbox_status OutboxStatus.sending OutboxStatus.sending = true
same_outbox_status OutboxStatus.sent OutboxStatus.sent = true
same_outbox_status OutboxStatus.failed_retryable OutboxStatus.failed_retryable = true
same_outbox_status OutboxStatus.dead_letter OutboxStatus.dead_letter = true
same_outbox_status (OutboxStatus.other a) (OutboxStatus.other b) = str_eq a b
same_outbox_status _ _ = false

-- ORDER BY created_at
unfoldable pub insert_by_time : Outbox → List Outbox → List Outbox
insert_by_time o [] = o ∷ []
insert_by_time o (p ∷ ps) =
    if leb o.created_at p.created_at then o ∷ p ∷ ps else p ∷ insert_by_time o ps

unfoldable pub by_time : List Outbox → List Outbox
unfolding insert_by_time
by_time [] = []
by_time (o ∷ os) = insert_by_time o (by_time os)

unfoldable pub take : {A : Type 0} → ℕ → List A → List A
take zero xs = []
take (suc n) [] = []
take (suc n) (x ∷ xs) = x ∷ take n xs

abbrev at_outbox_status : OutboxStatus → Outbox → Bool
at_outbox_status status o = same_outbox_status o.status status

unfoldable pub list_notification_outbox : Option OutboxStatus → ℕ → Core → List Outbox
list_notification_outbox none limit s = take limit (by_time s.outbox)
list_notification_outbox (some status) limit s =
    take limit (by_time (select_all (at_outbox_status status) s.outbox))

-- `status in ("SENDING", "SENT", "FAILED_RETRYABLE", "DEAD_LETTER")`
abbrev is_mark : OutboxStatus → Bool
is_mark OutboxStatus.pending = false
is_mark (OutboxStatus.other _) = false
is_mark _ = true

abbrev pub mark_row : OutboxStatus → Option ℕ → Outbox → Outbox
mark_row status retry o = record o {
  status = status;
  attempts = o.attempts + (if same_outbox_status status OutboxStatus.sending then 1 else 0);
  next_retry_at = retry;
}

unfoldable pub mark_notification_outbox : String → OutboxStatus → Option ℕ → CoreMethod Unit
mark_notification_outbox id status retry = do
  raise_if (not (is_mark status)) bad_outbox_status
  modify
      (λ s. record s { outbox = update_first (has_outbox_id id) (mark_row status retry) s.outbox })

-- What the worker counts.
pub record Summary : Type 0 where
  pub processed : ℕ
  pub sent : ℕ
  pub failed : ℕ

abbrev pub count_one : Bool → Summary → Summary
count_one ok m =
    if ok
    then record m { processed = suc m.processed; sent = suc m.sent }
    else record m { processed = suc m.processed; failed = suc m.failed }

-- The adapter, with the reading of the payload before it: whether the notification went out.
abbrev pub Send : Type 0
Send = Outbox → Bool

unfoldable pub dispatch_row : Send → Outbox → CoreMethod Bool
dispatch_row send row = do
  mark_notification_outbox row.outbox_id OutboxStatus.sending none
  mark_notification_outbox row.outbox_id
      (if send row then OutboxStatus.sent else OutboxStatus.failed_retryable) none
  pure (send row)

unfoldable pub dispatch_rows : Send → List Outbox → Summary → CoreMethod Summary
dispatch_rows send [] m = pure m
dispatch_rows send (o ∷ os) m = do
  sent ← dispatch_row send o
  dispatch_rows send os (count_one sent m)

unfoldable pub due : ℕ → Core → List Outbox
due limit s = take limit (
    list_notification_outbox (some OutboxStatus.pending) limit s
    ++ list_notification_outbox (some OutboxStatus.failed_retryable) limit s)

unfoldable pub dispatch_signal_outbox : Send → ℕ → CoreMethod Summary
dispatch_signal_outbox send limit = do
  rows ← gets (due limit)
  dispatch_rows send rows (record { processed = 0; sent = 0; failed = 0 })

abbrev same_alert : String → String → String → Alert → Bool
same_alert symbol condition date a =
    str_eq a.symbol symbol && (str_eq a.condition condition && str_eq a.alert_date date)

-- INSERT OR IGNORE: whether the alert is the first of its kind that day.
unfoldable pub claim_monitor_alert : String → String → String → CoreMethod Bool
claim_monitor_alert symbol condition date = do
  taken ← gets (λ s. any (same_alert symbol condition date) s.alerts)
  modify (λ s. if taken then s else record s {
    alerts = s.alerts ++ record { symbol = symbol; condition = condition; alert_date = date } ∷ [];
  })
  pure (not taken)
