-- ===== src/Scenarios/Opened.antt =====
-- Everything that a run computes with, under one name.
use trading_cat.Base.Action.{◌>>=◌, catch, when}
use trading_cat.Base.Int.{◌+ℤ◌, ◌-ℤ◌, ◌*ℤ◌, abs}
use trading_cat.Text.{
  dumps, dumps_raw, like, contains, is_prefix, any_suffix, fold_case, escape_all, escape_ascii,
  escape_raw, escape_special, escape_wide, unicode_escape, hex_digit,
}
use trading_cat.Models.{
  compute_plan_hash, sort_orders, insert_order, new_plan, plan_is_expired, confirmation_is_expired,
  is_fresh,
}
use trading_cat.Store.AuditLog.{audit, audit_dedupe, write_audit}
use trading_cat.Store.Plans.{
  get_plan, same_content, same_orders, add_plan, create_plan, keep_plan, insert_plan,
}
use trading_cat.Store.Confirmations.{
  get_confirmation, approval_nonce_exists, update_confirmation, matching, approve_body,
  approve_confirmation, approved_confirmation, mark_plan_consumed, add_confirmation,
  put_confirmation, insert_confirmation,
}
use trading_cat.Store.Intents
use trading_cat.Store.Intents.{
  intent_row, add_intent, insert_intent, insert_by_order, order_by_plan_order_id, list_intents,
  get_intent_by_request_id, get_intent, write_intent,
}
use trading_cat.Store.Fills.{
  put_broker_order, upsert_broker_order, add_fill, insert_fill, sum_fills, filled_quantity,
}
use trading_cat.State.{set_intent_status, change, keep_terminal}
use trading_cat.Events.{
  dedupe_key, marker_payload, marker_pattern, is_duplicate, upsert_if_given, report, fill_status,
  settle, note_cap, record_fill, remaining, fill_rest, fill_new, fill_once, fill_row, fill_body,
  on_filled, dispatch, handle,
}
use trading_cat.Orders.Tickets.{approve, keep_core, create_core, keep_own, create_own, create}
use trading_cat.Orders.Consume.{
  client_request_id, new_intent, planned, return_existing, insert_all, create_all, consume_body,
  notify, finish, consume_new, consume_or_return, consume,
}
use trading_cat.Risk.{
  checks, reasons, evaluate, check_binding, binding_checks, check_account, check_open, open_checks,
  check_power, check_holdings, check_configured,
}
use trading_cat.Risk.Orders.{
  check, check_quote, order_checks, check_order, check_orders, is_off_price, check_slippage_at,
  check_slippage, check_slippages, buy_cost, total_cost, check_buying_power, held, check_sell,
  check_sells,
}
use trading_cat.Risk.Limits.{
  limit_value, effective_nav, check_notional, check_order_limit, add_quantity, add_positions,
  add_orders, projected, holding_price, exposure, gross, exceeds, check_position, check_exposure,
  check_loss, limit_checks, check_limits,
}
use trading_cat.Store.Canaries.{
  create_live_canary, update_canaries, close_rows, close_live_canaries_locked, close_live_canaries,
  step_candidate, choose_canary, add_usage, close_if_spent, reserve, reserve_row, canary_of_request,
  authorize_new, authorize_body, authorize_live_canary, mark_system_readiness,
}
use trading_cat.Brokers.Live
use trading_cat.Brokers.Status.{
  after_stop, upper, squeeze, same_codes, mem_codes, of_key, normalize_broker_status,
}
use trading_cat.Reconcile.{
  fail_order, compare_status, compare_answer, compare_key, reconcile_row, reconcile_rows,
  close_on_mismatch, reconcile_real, paper_row, paper_rows, reconcile_paper, reconcile_plan,
}
use trading_cat.Orders.Consume.{recover, recover_rows, recover_row, close_if_live}
use trading_cat.Brokers.Paper
use trading_cat.Orders.Tickets.{new_adapter}
use trading_cat.Orders.Submit
use trading_cat.Orders.Submit.{
  send, submit_each, submit_row, fail_closed, gate, decide_submission, act_on, reject_submission,
  risk_inputs, inputs_of, check_broker, refuse_unknown, tidy_canaries, close_expired, close_all,
}

unfoldable pub opened : Unit {0}
unfolding Paper.paper_id Paper.submit_paper Paper.submit_order new_adapter Submit.submit_order
    Submit.submit send submit_each submit_row fail_closed gate decide_submission act_on
    reject_submission risk_inputs inputs_of check_broker refuse_unknown tidy_canaries close_expired
    close_all create_live_canary update_canaries close_rows close_live_canaries_locked
    close_live_canaries step_candidate choose_canary add_usage close_if_spent reserve reserve_row
    canary_of_request authorize_new authorize_body authorize_live_canary mark_system_readiness
    Live.authorize Live.dry_run_submit Live.whole Live.order_call Live.submit_live
    Live.send_or_dry_run Live.submit_checked Live.submit after_stop upper squeeze same_codes
    mem_codes of_key normalize_broker_status fail_order compare_status compare_answer compare_key
    reconcile_row reconcile_rows close_on_mismatch reconcile_real paper_row paper_rows
    reconcile_paper reconcile_plan recover recover_rows recover_row close_if_live ◌>>=◌ catch when
    ◌+ℤ◌ ◌-ℤ◌ ◌*ℤ◌ abs dumps dumps_raw like contains is_prefix any_suffix fold_case escape_all
    escape_ascii escape_raw escape_special escape_wide unicode_escape hex_digit compute_plan_hash
    sort_orders insert_order new_plan plan_is_expired confirmation_is_expired is_fresh audit
    audit_dedupe write_audit get_plan same_content same_orders add_plan create_plan keep_plan
    insert_plan get_confirmation approval_nonce_exists update_confirmation matching approve_body
    approve_confirmation approved_confirmation mark_plan_consumed add_confirmation put_confirmation
    insert_confirmation Intents.set_intent_status intent_row add_intent insert_intent
    insert_by_order order_by_plan_order_id list_intents get_intent_by_request_id get_intent
    write_intent put_broker_order upsert_broker_order add_fill insert_fill sum_fills filled_quantity
    set_intent_status change keep_terminal dedupe_key marker_payload marker_pattern is_duplicate
    upsert_if_given report fill_status settle note_cap record_fill remaining fill_rest fill_new
    fill_once fill_row fill_body on_filled dispatch handle approve keep_core create_core keep_own
    create_own create client_request_id new_intent planned return_existing insert_all create_all
    consume_body notify finish consume_new consume_or_return consume checks reasons evaluate
    check_binding binding_checks check_account check_open open_checks check_power check_holdings
    check_configured check check_quote order_checks check_order check_orders is_off_price
    check_slippage_at check_slippage check_slippages buy_cost total_cost check_buying_power held
    check_sell check_sells limit_value effective_nav check_notional check_order_limit add_quantity
    add_positions add_orders projected holding_price exposure gross exceeds check_position
    check_exposure check_loss limit_checks check_limits
opened = tt
