-- ===== src/Scenarios/Submission.antt =====
-- Approvals and submissions.
use trading_cat.Base.{◌≡◌, refl, false, none, List, map}
use trading_cat.Base.Action.{ok}
use trading_cat.Store.{Store}
use trading_cat.Brokers.Live.{is_proven}
use trading_cat.Risk.Sound.{IsSafe}
use trading_cat.Orders.Consume.{consume, planned, created_entry, Entry}
use trading_cat.Orders.Submit.{Submission, submit, risk_inputs}
use trading_cat.Orders.Approval.{approve_confirmation_complete, approve_unproven, IsApproval}
use trading_cat.Orders.Returns.{consume_returns, IsReady}
use trading_cat.Orders.Gated.{submit_rejected, submit-IsSafe, IsStopped}
use trading_cat.Scenarios.Opened.{opened}
use trading_cat.Scenarios.Values.{sha256, plan, ticket, ticketed, approved, inputs}

approve_confirmation_complete_example :
    IsApproval "c1" "owner" "cli" "n1" none none 110 ticketed ticket approved
unfolding opened
approve_confirmation_complete_example =
    approve_confirmation_complete "c1" "owner" "cli" "n1" none none 110 ticketed approved ticket
      refl

approve_unproven_example : is_proven ticket.approval_channel ≡ false
unfolding opened
approve_unproven_example =
    approve_unproven "cli" "cli" "c1" "owner" "n1" 110 ticketed approved ticket refl refl

ready : IsReady sha256 plan ticket 120 approved
unfolding opened
ready = record {
  untampered = refl;
  none_yet = refl;
  proven = refl;
  approved = refl;
  same_plan = refl;
  row = ticket;
  found = refl;
  row_plan = refl;
  row_hash = refl;
  row_proven = refl;
  ticket_lives = refl;
  plan_lives = refl;
  one_ticket = refl;
  orders_new = (refl, (refl, (refl, (refl, tt))));
}

consume_returns_example :
    (es : List Entry) × ((t : Store) × (consume sha256 plan ticket 120 approved ≡ (ok es, t)))
consume_returns_example = consume_returns sha256 plan ticket 120 approved ready

abbrev submission : Submission
submission = record {
  plan = plan;
  confirmation = ticket;
  market_states = inputs.market_states;
  account_state = inputs.account_state;
  broker = none;
  risk_limits = none;
  daily_loss = none;
  now = 120;
}

submit-IsSafe_example : IsSafe (risk_inputs submission approved)
unfolding opened
submit-IsSafe_example =
    submit-IsSafe sha256 submission approved (submit sha256 submission approved).1
      (map created_entry (planned plan "c1")) refl refl

-- Without the state of the account.
abbrev blind : Submission
blind = record submission { account_state = none }

submit_rejected_example : IsStopped approved (submit sha256 blind approved)
unfolding opened
submit_rejected_example = submit_rejected sha256 blind approved refl refl
