-- ===== src/Brokers/Live/Boundary.antt =====
-- execution/broker_live.py: when the client of the broker is reached, and what a real order rests on.
use mathlib.Core.Path.{subst}
use trading_cat.Base.{
  ℕ, String, ◌≡◌, refl, Bool, true, false, not, ◌&&◌, Option, none, some, arith, eq_iff, Bool-cases,
  inl, inr,
}
use trading_cat.Base.Action.{Result, ok, err, ◌>>=◌, continue_with}
use trading_cat.Base.Action.Outcome.{
  OnOk, always-OnOk, bind-OnOk, gets-OnOk, or_raise-OnOk, raise_if-OnOk, if-OnOk,
}
use trading_cat.Models.{ExecutionPlan, Confirmation}
use trading_cat.Store.{Store, Method, Error, Intent}
use trading_cat.Store.AuditLog.{audit, write_audit}
use trading_cat.Store.Confirmations.{get_confirmation, is_approved, is_consumed}
use trading_cat.Brokers.{BrokerAck}
use trading_cat.Brokers.Live.{
  LiveBroker, OrderCall, Reply, submit, submit_checked, send_or_dry_run, authorize, submit_live,
  dry_run_submit, is_live, is_proven,
}

continued-agrees :
    {A B : Type 0} (f g : A → Method B)
    → ((a : A) (t : Store) → f a t ≡ g a t)
    → (r : Result Error A × Store) → continue_with f r ≡ continue_with g r
continued-agrees f g h (ok a, t) = h a t
continued-agrees f g h (err e, t) = refl

-- Two methods that go on alike do alike.
bind-agrees :
    {A B : Type 0} (m : Method A) (f g : A → Method B)
    → ((a : A) (t : Store) → f a t ≡ g a t)
    → (s : Store) → (m >>= f) s ≡ (m >>= g) s
unfolding ◌>>=◌
bind-agrees m f g h s = continued-agrees f g h (m s)

module _ (b : LiveBroker) (client other : OrderCall → Reply)
    (shut : b.enable_live && not b.kill_switch ≡ false) (intent : Intent) (c : Confirmation)
    (p : ExecutionPlan) (now : ℕ) where
  abbrev with_client : (OrderCall → Reply) → LiveBroker
  with_client f = record b { order = f }

  shut-agrees :
      (row : Confirmation) (s : Store)
      → send_or_dry_run (with_client client) intent c p row now s
        ≡ send_or_dry_run (with_client other) intent c p row now s
  unfolding send_or_dry_run authorize ◌>>=◌
  shut-agrees row s = elim (Bool-cases b.enable_live) [
    | inl enabled ↦ elim (Bool-cases b.kill_switch) [
      | inl killed ↦ rw (enabled, killed) refl
      | inr running ↦ ground (arith, shut, enabled, running)
    ]
    | inr disabled ↦ rw disabled refl
  ]

  submit_checked-agrees :
      (s : Store)
      → submit_checked (with_client client) intent c p now s
        ≡ submit_checked (with_client other) intent c p now s
  unfolding submit_checked
  submit_checked-agrees = bind-agrees _ _ _ λ _. bind-agrees _ _ _ λ _. bind-agrees _ _ _ λ found.
      bind-agrees _ _ _ λ row. bind-agrees _ _ _ λ _. bind-agrees _ _ _ λ _. shut-agrees row

-- A broker that is not enabled, or whose kill switch is engaged, never reaches its client: what the
-- client would answer makes no difference to the outcome or to the store.
pub submit-shut :
    (b : LiveBroker) (client other : OrderCall → Reply) (intent : Intent) (c : Option Confirmation)
    (p : Option ExecutionPlan) (now : ℕ) (s : Store)
    → b.enable_live && not b.kill_switch ≡ false
    → submit (record b { order = client }) intent c p now s
      ≡ submit (record b { order = other }) intent c p now s
unfolding submit
submit-shut b client other intent (some c) (some p) now s shut =
    submit_checked-agrees b client other shut intent c p now s
submit-shut b client other intent (some c) none now s shut = refl
submit-shut b client other intent none p now s shut = refl

-- What stands behind an ack of a real order.
pub record IsReal (b : LiveBroker) (c : Confirmation) (p : ExecutionPlan) (s : Store) : Type 0 where
  pub enabled : b.enable_live ≡ true
  pub running : b.kill_switch ≡ false
  pub live : is_live p.execution_mode ≡ true
  pub approved : is_approved c.status ≡ true
  pub same_hash : c.plan_hash ≡ p.plan_hash
  pub row : Confirmation
  pub found : get_confirmation c.confirmation_id s ≡ some row
  pub consumed : is_consumed row.status ≡ true
  pub proven : is_proven row.approval_channel ≡ true

module _ (b : LiveBroker) (intent : Intent) (c : Confirmation) (p : ExecutionPlan) (now : ℕ)
    (s : Store) where
  -- An ack is a rehearsal, or a real order.
  abbrev IsBacked : BrokerAck → Store → Type 0
  IsBacked ack t = ack.is_live ≡ true → IsReal b c p s

  is_true : (x : Bool) → not x ≡ false → x ≡ true
  is_true x h = ground arith

  both : (x y : Bool) → not (x && y) ≡ false → y ≡ true
  both x y h = ground arith

  rehearsed : OnOk IsBacked (dry_run_submit intent p s)
  unfolding dry_run_submit audit write_audit ◌>>=◌
  rehearsed h = cc

  abbrev IsOpen : Confirmation → String → Store → Type 0
  IsOpen row _ _ = (b.kill_switch ≡ false) × (is_consumed row.status ≡ true)

  authorized : (row : Confirmation) → OnOk (IsOpen row) (authorize b intent c p row now s)
  unfolding authorize
  authorized row = raise_if-OnOk _ _ _ _ s λ running.
      raise_if-OnOk _ _ _ _ s λ used. always-OnOk (IsOpen row) (λ _ _. (running, is_true _ used)) _

  sent :
      (row : Confirmation)
      → is_live p.execution_mode ≡ true
      → is_approved c.status ≡ true
      → c.plan_hash ≡ p.plan_hash
      → get_confirmation c.confirmation_id s ≡ some row
      → is_proven row.approval_channel ≡ true
      → OnOk IsBacked (send_or_dry_run b intent c p row now s)
  unfolding send_or_dry_run
  sent row live approved same_hash found proven =
      if-OnOk IsBacked b.enable_live _ (dry_run_submit intent p) s
        (λ enabled. bind-OnOk IsBacked (IsOpen row) _ _ s (authorized row) λ _ t gate.
          always-OnOk IsBacked
            (λ _ _ _. record {
              enabled = enabled;
              running = gate.0;
              live = live;
              approved = approved;
              same_hash = same_hash;
              row = row;
              found = found;
              consumed = gate.1;
              proven = proven;
            })
            (submit_live b intent c t))
        (λ _. rehearsed)

  submit_checked-OnOk : OnOk IsBacked (submit_checked b intent c p now s)
  unfolding submit_checked
  submit_checked-OnOk = raise_if-OnOk _ _ _ _ s λ approved. raise_if-OnOk _ _ _ _ s λ same.
      gets-OnOk _ _ _ s (
        or_raise-OnOk _ _ _ _ s λ row found. raise_if-OnOk _ _ _ _ s λ live.
          raise_if-OnOk _ _ _ _ s λ proven.
            sent row (is_true _ live) (is_true _ approved)
              ((eq_iff c.plan_hash p.plan_hash).0 (is_true _ same)) found
              (both (is_proven c.approval_channel) (is_proven row.approval_channel) proven))

-- An ack of a real order is given only by an enabled broker with its kill switch off, for a LIVE plan,
-- on a ticket that the caller holds approved for the hash of the plan and that the store has consumed,
-- with the approval of a verified proof.
pub submit-IsReal :
    (b : LiveBroker) (intent : Intent) (c : Confirmation) (p : ExecutionPlan) (now : ℕ)
    (s t : Store) (ack : BrokerAck)
    → submit b intent (some c) (some p) now s ≡ (ok ack, t)
    → ack.is_live ≡ true
    → IsReal b c p s
unfolding submit
submit-IsReal b intent c p now s t ack h =
    subst (OnOk (IsBacked b intent c p now s)) h (submit_checked-OnOk b intent c p now s)
