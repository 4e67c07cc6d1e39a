-- ===== src/Evolution/Rows.antt =====
-- Each write of a table of the execution store (shared/db.py) is an evolution of the store.
use trading_cat.Base.{ℕ, String, ◌≡◌, refl, Bool, true, some, [], ◌∷◌, arith}
use trading_cat.Base.Tables.{Grows-append, Grows-update, Grows-update_first, update}
use trading_cat.Models.{Confirmation, ConfirmationStatus}
use trading_cat.Store.{Store, PlanRow, Intent, Fill, Audit, BrokerOrder, Canary, CanaryUsage}
use trading_cat.Store.AuditLog.{write_audit}
use trading_cat.Store.Plans.{add_plan}
use trading_cat.Store.Intents.{
  NewIntent, add_intent, intent_row, write_intent, has_intent_id, get_intent,
}
use trading_cat.Store.Fills.{put_broker_order, add_fill}
use trading_cat.Store.Canaries.{update_canaries, add_usage}
use trading_cat.Store.Confirmations.{
  add_confirmation, update_confirmation, at_status, is_pending, is_approved, approve_row,
  reject_row, consume_row,
}
use trading_cat.Evolution.{
  IsLaterIntent, IsLaterIntent-self, IsLaterTicket, IsLaterTicket-self, IsLaterPlan,
  IsLaterPlan-self, Same, Evolves, Evolves-IsPreorder,
}

-- The rest of the store stays when one table is written.
module _ (s : Store) where
  abbrev still : Evolves s s
  still = Evolves-IsPreorder.self s

  pub audited : (a : Audit) → Evolves s (write_audit a s)
  unfolding write_audit
  audited a = record {
    intents = still.intents;
    confirmations = still.confirmations;
    plans = still.plans;
    fills = still.fills;
    audit_log = Grows-append Same (λ x. refl) s.audit_log (a ∷ []);
  }

  pub intent_added : (n : NewIntent) → Evolves s (add_intent n s)
  unfolding add_intent
  intent_added n = record {
    intents =
        Grows-append IsLaterIntent IsLaterIntent-self s.intents
          (intent_row n s.next_intent_id ∷ []);
    confirmations = still.confirmations;
    plans = still.plans;
    fills = still.fills;
    audit_log = still.audit_log;
  }

  pub intent_written :
      (key : ℕ) (f : Intent → Intent)
      → ((i : Intent) → get_intent key s ≡ some i → IsLaterIntent i (f i))
      → Evolves s (write_intent key f s)
  unfolding write_intent get_intent
  intent_written key f h = record {
    intents = Grows-update_first IsLaterIntent IsLaterIntent-self (has_intent_id key) f s.intents h;
    confirmations = still.confirmations;
    plans = still.plans;
    fills = still.fills;
    audit_log = still.audit_log;
  }

  pub plan_added : (p : PlanRow) → Evolves s (add_plan p s)
  unfolding add_plan
  plan_added p = record {
    intents = still.intents;
    confirmations = still.confirmations;
    plans = Grows-append IsLaterPlan IsLaterPlan-self s.plans (p ∷ []);
    fills = still.fills;
    audit_log = still.audit_log;
  }

  pub plans_updated :
      (p : PlanRow → Bool) (f : PlanRow → PlanRow)
      → ((r : PlanRow) → IsLaterPlan r (f r))
      → Evolves s (record s { plans = update p f s.plans })
  plans_updated p f h = record {
    intents = still.intents;
    confirmations = still.confirmations;
    plans = Grows-update IsLaterPlan IsLaterPlan-self p f s.plans (λ r _. h r);
    fills = still.fills;
    audit_log = still.audit_log;
  }

  pub ticket_added : (c : Confirmation) → Evolves s (add_confirmation c s)
  unfolding add_confirmation
  ticket_added c = record {
    intents = still.intents;
    confirmations = Grows-append IsLaterTicket IsLaterTicket-self s.confirmations (c ∷ []);
    plans = still.plans;
    fills = still.fills;
    audit_log = still.audit_log;
  }

  pub tickets_updated :
      (cid : String) (guard : ConfirmationStatus → Bool) (f : Confirmation → Confirmation)
      → ((c : Confirmation) → at_status cid guard c ≡ true → IsLaterTicket c (f c))
      → Evolves s (update_confirmation cid guard f s)
  unfolding update_confirmation
  tickets_updated cid guard f h = record {
    intents = still.intents;
    confirmations =
        Grows-update IsLaterTicket IsLaterTicket-self (at_status cid guard) f s.confirmations h;
    plans = still.plans;
    fills = still.fills;
    audit_log = still.audit_log;
  }

  pub broker_order_put : (b : BrokerOrder) → Evolves s (put_broker_order b s)
  unfolding put_broker_order
  broker_order_put b = record {
    intents = still.intents;
    confirmations = still.confirmations;
    plans = still.plans;
    fills = still.fills;
    audit_log = still.audit_log;
  }

  pub fill_added : (f : Fill) → Evolves s (add_fill f s)
  unfolding add_fill
  fill_added f = record {
    intents = still.intents;
    confirmations = still.confirmations;
    plans = still.plans;
    fills = Grows-append Same (λ x. refl) s.fills (f ∷ []);
    audit_log = still.audit_log;
  }

  pub canaries_updated :
      (p : Canary → Bool) (f : Canary → Canary) → Evolves s (update_canaries p f s)
  unfolding update_canaries
  canaries_updated p f = record {
    intents = still.intents;
    confirmations = still.confirmations;
    plans = still.plans;
    fills = still.fills;
    audit_log = still.audit_log;
  }

  pub usage_added : (u : CanaryUsage) → Evolves s (add_usage u s)
  unfolding add_usage
  usage_added u = record {
    intents = still.intents;
    confirmations = still.confirmations;
    plans = still.plans;
    fills = still.fills;
    audit_log = still.audit_log;
  }

-- A pending ticket may be decided and an approved one consumed.
pub approve_row-IsLaterTicket :
    (cid who channel nonce : String) (now : ℕ) (c : Confirmation)
    → at_status cid is_pending c ≡ true
    → IsLaterTicket c (approve_row who channel nonce now c)
approve_row-IsLaterTicket cid who channel nonce now c h = ground arith

pub reject_row-IsLaterTicket :
    (cid who channel nonce : String) (c : Confirmation)
    → at_status cid is_pending c ≡ true
    → IsLaterTicket c (reject_row who channel nonce c)
reject_row-IsLaterTicket cid who channel nonce c h = ground arith

pub consume_row-IsLaterTicket :
    (cid : String) (c : Confirmation)
    → at_status cid is_approved c ≡ true
    → IsLaterTicket c (consume_row c)
consume_row-IsLaterTicket cid c h = ground arith
