-- ===== src/Scenarios/Signals.antt =====
-- A signal that is recorded, and one notification that a crash left at SENDING.
use trading_cat.Base.{◌≡◌, refl, true, false, some, none, [], ◌∷◌}
use trading_cat.Base.Action.{ok, ◌>>=◌}
use trading_cat.Core.{Core, OutboxStatus, Outbox, signal_event, empty_core}
use trading_cat.Core.Audits.{audit_core, write_core}
use trading_cat.Core.Signals.{
  SignalKey, Hashes, Recorded, event_of, pending_row, Send, record_signal_with_outbox, record_body,
  insert_event, get_event, insert_outbox, insert_channels, sorted_set, by_channel,
  dispatch_signal_outbox, mark_notification_outbox,
}
use trading_cat.Core.Signals.Stored.{record_signal_with_outbox-again}
use trading_cat.Core.Signals.Stuck.{get_outbox, dispatch_signal_outbox-rests}

abbrev key : SignalKey
key = record {
  account_id = "main";
  symbol = "NVDA.US";
  strategy_version_id = 1;
  bar_ts = "2024-01-02";
  signal_type = "BUY";
}

abbrev hashes : Hashes
hashes = record { event = λ k. "e1"; out = λ id channel. channel }

abbrev recorded : Core
recorded = (record_signal_with_outbox hashes key "{}" [] 5 empty_core).1

abbrev answer : Recorded
answer = record {
  event = some (event_of "e1" key "{}");
  outbox = pending_row "configured" "e1" "configured" "{}" 5 ∷ [];
  created = true;
}

record_signal_with_outbox-again_example :
    record_signal_with_outbox hashes key "{}" [] 9 recorded
    ≡ (ok (record answer { created = false }), (audit_core signal_event "e1" recorded).1)
unfolding record_signal_with_outbox record_body insert_event get_event insert_outbox insert_channels
    sorted_set by_channel ◌>>=◌ audit_core write_core
record_signal_with_outbox-again_example =
    record_signal_with_outbox-again hashes key "{}" [] 5 9 empty_core recorded answer refl

-- The process stops after the row is marked and before the adapter answers.
abbrev crashed : Core
crashed = (mark_notification_outbox "configured" OutboxStatus.sending none recorded).1

abbrev stuck : Outbox
stuck = record (pending_row "configured" "e1" "configured" "{}" 5) {
  status = OutboxStatus.sending;
  attempts = 1;
}

abbrev always : Send
always o = true

dispatch_signal_outbox-rests_example :
    get_outbox "configured" (dispatch_signal_outbox always 10 crashed).1 ≡ some stuck
unfolding record_signal_with_outbox record_body insert_event get_event insert_outbox insert_channels
    sorted_set ◌>>=◌ audit_core write_core mark_notification_outbox get_outbox
dispatch_signal_outbox-rests_example =
    dispatch_signal_outbox-rests always 10 "configured" stuck crashed (refl, tt) refl refl
