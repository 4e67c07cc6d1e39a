-- ===== src/State/Monotone.antt =====
-- execution/state.py: a final status stays, and no change touches what the order says.
use mathlib.Core.Option.{some-injective}
use mathlib.Core.Path.{subst}
use trading_cat.Base.{
  eq_iff, sym, ◌∙◌, ℕ, String, ◌≡◌, true, false, not, ◌&&◌, Option, none, some, arith,
  if◌then◌else◌, Bool-cases, inl, inr, Option-cases, ◌⊎◌,
}
use trading_cat.Base.Action.{pure, ◌>>=◌, ◌>>◌}
use trading_cat.Base.Action.Relates.{Relates, bind_at, Relates-pure}
use trading_cat.Store.{Store, Intent, IntentStatus, is_given}
use trading_cat.Store.Intents
use trading_cat.Store.Intents.{is_intent_status, get_intent, write_intent, put_status, same_status}
use trading_cat.State.{is_terminal, keep_terminal, change, set_intent_status}
use trading_cat.Evolution.{IsLaterIntent, Evolves, Evolves-IsPreorder}
use trading_cat.Evolution.Rows.{intent_written}

pub same_status_sound : (a b : IntentStatus) → same_status a b ≡ true → a ≡ b
same_status_sound (IntentStatus.other a) (IntentStatus.other b) h = ground (arith, eq_iff a b)
same_status_sound a b h = ground arith

put_status-IsLaterIntent :
    (status : IntentStatus) (b : Option String) (row : Intent)
    → (is_terminal row.status ≡ true → same_status status row.status ≡ true)
    → IsLaterIntent row (put_status status b row)
put_status-IsLaterIntent status b row h = ground (arith, same_status_sound status row.status)

-- A write of the row that was read evolves the store.
module _ (key : ℕ) (status : IntentStatus) (broker_order_id : Option String) (s : Store)
    (row : Intent) (found : get_intent key s ≡ some row) where
  noted : Evolves s (write_intent key (λ i. record i { broker_order_id = broker_order_id }) s)
  noted =
      intent_written s key (λ i. record i { broker_order_id = broker_order_id })
        (λ i e. ground arith)

  put :
      (is_terminal row.status ≡ true → same_status status row.status ≡ true)
      → Evolves s (write_intent key (put_status status broker_order_id) s)
  put h = intent_written s key (put_status status broker_order_id) (λ i e.
      subst (λ j. IsLaterIntent j (put_status status broker_order_id j))
        (some-injective row i (sym found ∙ e))
        (put_status-IsLaterIntent status broker_order_id row h))

  kept : Evolves s (keep_terminal key broker_order_id row s).1
  unfolding keep_terminal ◌>>=◌
  kept = elim (Bool-cases (is_given broker_order_id && not (is_given row.broker_order_id))) [
    | inl e ↦ rw e noted
    | inr e ↦ rw e (Evolves-IsPreorder.self s)
  ]

  written :
      (is_terminal row.status ≡ true → same_status status row.status ≡ true)
      → Evolves s (Intents.set_intent_status key status broker_order_id s).1
  unfolding Intents.set_intent_status ◌>>=◌
  written h = elim (Bool-cases (not (is_intent_status status))) [
    | inl e ↦ rw e (Evolves-IsPreorder.self s)
    | inr e ↦ rw e (put h)
  ]

  passes :
      is_terminal row.status && not (same_status status row.status) ≡ false
      → is_terminal row.status ≡ true
      → same_status status row.status ≡ true
  passes e t = ground arith

  rewritten :
      (is_terminal row.status ≡ true → same_status status row.status ≡ true)
      → Evolves s
          ((if same_status row.status status && not (is_given broker_order_id)
              then pure false
              else (Intents.set_intent_status key status broker_order_id >> pure true))
            s).1
  unfolding pure
  rewritten h =
      elim (Bool-cases (same_status row.status status && not (is_given broker_order_id))) [
        | inl e ↦ rw e (Evolves-IsPreorder.self s)
        | inr e ↦ rw e (
            bind_at Evolves-IsPreorder s (Intents.set_intent_status key status broker_order_id)
              (λ _. pure true) (written h) (λ _. Relates-pure Evolves-IsPreorder true))
      ]

  changed : Evolves s (change key status broker_order_id row s).1
  unfolding change
  changed = elim (Bool-cases (is_terminal row.status && not (same_status status row.status))) [
    | inl e ↦ rw e kept
    | inr e ↦ rw e (rewritten (passes e))
  ]

-- Every change of a status evolves the store.
pub set_intent_status-Evolves :
    (key : ℕ) (status : IntentStatus) (b : Option String)
    → Relates Evolves (set_intent_status key status b)
unfolding set_intent_status ◌>>=◌
set_intent_status-Evolves key status b = record { at = λ s. go s (Option-cases (get_intent key s)) }
  where
    go :
        (s : Store)
        → (get_intent key s ≡ none) ⊎ ((r : Intent) × (get_intent key s ≡ some r))
        → Evolves s (set_intent_status key status b s).1
    go s (inl e) = rw e (Evolves-IsPreorder.self s)
    go s (inr (r, e)) = rw e (elim (Bool-cases (not (is_intent_status status))) [
      | inl bad ↦ rw bad (Evolves-IsPreorder.self s)
      | inr fine ↦ rw fine (changed key status b s r e)
    ])
