-- ===== src/State.antt =====
-- execution/state.py: the guarded change of an intent's status.
pub mod Monotone
use trading_cat.Base.{ℕ, String, Bool, true, false, not, ◌&&◌, Option, none, some, if◌then◌else◌}
use trading_cat.Base.Action.{◌>>=◌, ◌>>◌, pure, raise_if, or_raise, modify, gets}
use trading_cat.Store.{Method, Intent, IntentStatus, intent_missing, bad_intent_status, is_given}
use trading_cat.Store.Intents
use trading_cat.Store.Intents.{get_intent, is_intent_status, same_status, write_intent}

-- `status in TERMINAL_INTENT_STATUSES`
abbrev pub is_terminal : IntentStatus → Bool
is_terminal IntentStatus.filled = true
is_terminal IntentStatus.rejected = true
is_terminal IntentStatus.cancelled = true
is_terminal _ = false

-- Keep a terminal row, but note the broker's order id if the row has none yet.
unfoldable pub keep_terminal : ℕ → Option String → Intent → Method Bool
keep_terminal key broker_order_id row =
    if is_given broker_order_id && not (is_given row.broker_order_id)
    then (do
      modify (write_intent key (λ i. record i { broker_order_id = broker_order_id }))
      pure false)
    else pure false

unfoldable pub change : ℕ → IntentStatus → Option String → Intent → Method Bool
change key status broker_order_id row =
    if is_terminal row.status && not (same_status status row.status)
    then keep_terminal key broker_order_id row
    else if same_status row.status status && not (is_given broker_order_id)
    then pure false
    else (do Intents.set_intent_status key status broker_order_id; pure true)

-- True if the status was written, false if the request was ignored.
unfoldable pub set_intent_status : ℕ → IntentStatus → Option String → Method Bool
set_intent_status key status broker_order_id = do
  found ← gets (get_intent key)
  row ← or_raise found intent_missing
  raise_if (not (is_intent_status status)) bad_intent_status
  change key status broker_order_id row
