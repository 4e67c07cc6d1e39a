-- ===== src/Store/Canaries.antt =====
-- shared/db.py: the live canaries, strictly limited permits for real orders. A notional amount is a
-- quantity times a price, so it counts in 10⁻¹⁸, and the tolerance 1e-9 is 10⁹ units.
use trading_cat.Base.{
  ℕ, suc, String, Bool, true, false, not, ◌&&◌, ◌||◌, Option, none, some, List, [], ◌∷◌, ◌++◌,
  str_eq, leb, ltb, if◌then◌else◌, any, length,
}
use trading_cat.Base.Int.{ℤ, pos, ◌+ℤ◌, ◌-ℤ◌, ◌*ℤ◌, leb_ℤ, ltb_ℤ}
use trading_cat.Base.Action.{
  ◌>>=◌, ◌>>◌, pure, raise_if, or_raise, modify, gets, immediate_transaction,
}
use trading_cat.Base.Tables.{select, select_all, update}
use trading_cat.Models.{Side}
use trading_cat.Store.{
  Store, Method, Canary, CanaryUsage, Entity, live_canary_opened, live_canary_closed,
  live_canary_authorized, canary_not_ready, canary_unscoped, canary_bad_limits, canary_no_notional,
  canary_none_left, integrity_error,
}
use trading_cat.Store.AuditLog.{audit}
use trading_cat.Store.Intents.{is_legal_side}
use trading_cat.Store.Plans.{same_side}

abbrev pub tolerance : ℤ
tolerance = pos 1000000000

abbrev pub has_canary_id : String → Canary → Bool
has_canary_id cid c = str_eq c.canary_id cid

abbrev pub mem_text : String → List String → Bool
mem_text t = any (λ u. str_eq u t)

-- The clauses of the WHERE of `_close_live_canaries_locked`: account, ids and cut-off date.
abbrev in_account : Option String → Canary → Bool
in_account none c = true
in_account (some a) c = str_eq c.account_id a

abbrev in_ids : Option (List String) → Canary → Bool
in_ids none c = true
in_ids (some ids) c = mem_text c.canary_id ids

abbrev lapsed_by : Option ℕ → Canary → Bool
lapsed_by none c = true
lapsed_by (some t) c = leb c.expires_at t

abbrev pub to_close : Option String → Option (List String) → Option ℕ → Canary → Bool
to_close account ids cutoff c =
    c.is_active && (in_account account c && (in_ids ids c && lapsed_by cutoff c))

abbrev pub close_canary : String → Canary → Canary
close_canary reason c = record c { is_active = false; close_reason = some reason }

unfoldable pub update_canaries : (Canary → Bool) → (Canary → Canary) → Store → Store
update_canaries p f s = record s { canaries = update p f s.canaries }

abbrev account_or_star : Option String → String
account_or_star none = "*"
account_or_star (some a) = a

unfoldable pub close_rows : String → Option String → (Canary → Bool) → List Canary → Method ℕ
close_rows reason account p [] = pure 0
close_rows reason account p (r ∷ rs) = do
  modify (update_canaries p (close_canary reason))
  audit live_canary_closed (Entity.account (account_or_star account))
  pure (length (r ∷ rs))

abbrev is_empty_ids : Option (List String) → Bool
is_empty_ids (some []) = true
is_empty_ids _ = false

-- Close the active canaries that the clauses select, in the caller's transaction; the number closed.
unfoldable pub close_live_canaries_locked :
    String → Option String → Option (List String) → Option ℕ → Method ℕ
close_live_canaries_locked reason account ids cutoff = if is_empty_ids ids then pure 0 else (do
  rows ← gets (λ s. select_all (to_close account ids cutoff) s.canaries)
  close_rows reason account (to_close account ids cutoff) rows)

unfoldable pub close_live_canaries : String → Option String → Method ℕ
close_live_canaries reason account =
    immediate_transaction (close_live_canaries_locked reason account none none)

unfoldable pub close_expired_live_canaries : Option String → ℕ → Method ℕ
close_expired_live_canaries account now =
    immediate_transaction (close_live_canaries_locked "canary_expired" account none (some now))

-- `mark_system_readiness` for the gate P0_A, the one that the store's readers ask for.
unfoldable pub mark_system_readiness : Bool → Method Unit
mark_system_readiness passed = modify (λ s. record s { is_p0_a_passed = passed })

-- The values of one `create_live_canary`.
abbrev pub opened : String → String → List String → Side → ℤ → ℕ → ℕ → Canary
opened cid account symbols side max_notional max_orders expires_at = record {
  canary_id = cid;
  account_id = account;
  symbols = symbols;
  side = side;
  max_notional = max_notional;
  max_orders = max_orders;
  expires_at = expires_at;
  is_active = true;
  used_notional = pos 0;
  used_orders = 0;
  close_reason = none;
}

abbrev is_nil : List String → Bool
is_nil [] = true
is_nil _ = false

unfoldable pub create_live_canary :
    String → String → List String → Side → ℤ → ℕ → ℕ → ℕ → Method Unit
create_live_canary cid account symbols side max_notional max_orders expires_at now = do
  ready ← gets (λ s. s.is_p0_a_passed)
  raise_if (not ready) canary_not_ready
  raise_if (str_eq account "" || (is_nil symbols || not (is_legal_side side))) canary_unscoped
  raise_if (leb_ℤ max_notional (pos 0) || (leb max_orders 0 || leb expires_at now))
      canary_bad_limits
  rows ← gets (λ s. s.canaries)
  raise_if (any (has_canary_id cid) rows) integrity_error
  modify (λ s. record s {
    canaries =
        s.canaries ++ opened cid account symbols side max_notional max_orders expires_at ∷ [];
  })
  audit live_canary_opened (Entity.live_canary cid)

-- The two limits of a canary, and the text that the code gives as the reason of closing.
abbrev pub orders_spent : Canary → Bool
orders_spent c = leb c.max_orders c.used_orders

abbrev pub notional_spent : Canary → Bool
notional_spent c = leb_ℤ (c.max_notional -ℤ tolerance) c.used_notional

abbrev spent_reason : Bool → Bool → String
spent_reason true true = "canary_limits_reached"
spent_reason true false = "canary_order_limit_reached"
spent_reason false _ = "canary_notional_limit_reached"

abbrev pub only : Canary → Option (List String)
only c = some (c.canary_id ∷ [])

-- The reason to pass over a canary and close it, if there is one.
abbrev pub refusal : Canary → ℤ → Option String
refusal c notional =
    if orders_spent c || notional_spent c
    then some (spent_reason (orders_spent c) (notional_spent c))
    else if ltb c.max_orders (suc c.used_orders)
    then some "canary_order_limit_reached"
    else if ltb_ℤ (c.max_notional +ℤ tolerance) (c.used_notional +ℤ notional)
    then some "canary_notional_limit_reached"
    else none

-- The loop over the active canaries of the account and side, oldest first.
unfoldable pub step_candidate :
    Canary → String → ℤ → Option String → Method (Option Canary) → Method (Option Canary)
step_candidate c symbol notional none rest = pure (some c)
step_candidate c symbol notional (some reason) rest = do
  close_live_canaries_locked reason none (only c) none
  rest

unfoldable pub choose_canary : List Canary → String → ℤ → Method (Option Canary)
choose_canary [] symbol notional = pure none
choose_canary (c ∷ cs) symbol notional =
    let rest = choose_canary cs symbol notional in
    if mem_text symbol c.symbols
    then step_candidate c symbol notional (refusal c notional) rest
    else rest

-- The request of `authorize_live_canary`.
pub record CanaryRequest : Type 0 where
  pub account_id : String
  pub plan_id : String
  pub client_request_id : String
  pub symbol : String
  pub side : Side
  pub quantity : ℤ
  pub reference_price : Option ℤ

abbrev candidate : CanaryRequest → ℕ → Canary → Bool
candidate q now c =
    str_eq c.account_id q.account_id
    && (same_side c.side q.side && (c.is_active && leb now c.expires_at))

abbrev pub spend : ℤ → Canary → Canary
spend notional c = record c {
  used_orders = suc c.used_orders;
  used_notional = c.used_notional +ℤ notional;
}

unfoldable pub add_usage : CanaryUsage → Store → Store
add_usage u s = record s { canary_usage = s.canary_usage ++ u ∷ [] }

-- After the reservation: a canary at a limit is closed at once.
unfoldable pub close_if_spent : Option Canary → Method Unit
close_if_spent none = pure tt
close_if_spent (some c) =
    if orders_spent c || notional_spent c
    then (close_live_canaries_locked (spent_reason (orders_spent c) (notional_spent c)) none
          (only c) none
        >>= λ _. pure tt)
    else pure tt

abbrev pub used_by : String → CanaryUsage → Bool
used_by request u = str_eq u.client_request_id request

-- The row of usage and the counters of its canary.
unfoldable pub reserve_row : Canary → CanaryRequest → ℤ → Method Unit
reserve_row c q notional = do
  modify (
      add_usage (record {
        canary_id = c.canary_id;
        client_request_id = q.client_request_id;
        plan_id = q.plan_id;
        symbol = q.symbol;
        side = q.side;
        notional = notional;
      }))
  modify (update_canaries (has_canary_id c.canary_id) (spend notional))
  updated ← gets (λ s. select (has_canary_id c.canary_id) s.canaries)
  close_if_spent updated
  audit live_canary_authorized (Entity.plan q.plan_id)

-- The INSERT fails on UNIQUE(client_request_id).
unfoldable pub reserve : Option Canary → CanaryRequest → ℤ → Method Unit
reserve none q notional = pure tt
reserve (some c) q notional = do
  taken ← gets (λ s. any (used_by q.client_request_id) s.canary_usage)
  raise_if taken integrity_error
  reserve_row c q notional

-- The JOIN of the usage of a request with its canary.
abbrev joined : Option CanaryUsage → Store → Option Canary
joined none s = none
joined (some u) s = select (has_canary_id u.canary_id) s.canaries

unfoldable pub canary_of_request : String → Store → Option Canary
canary_of_request request s = joined (select (used_by request) s.canary_usage) s

unfoldable pub authorize_new : CanaryRequest → ℤ → ℕ → Method (Option Canary)
authorize_new q notional now = do
  close_live_canaries_locked "canary_expired" (some q.account_id) none (some now)
  rows ← gets (λ s. select_all (candidate q now) s.canaries)
  selected ← choose_canary rows q.symbol notional
  reserve selected q notional
  pure selected

unfoldable pub authorize_body : CanaryRequest → ℤ → ℕ → Option Canary → Method (Option Canary)
authorize_body q notional now (some c) = pure (some c)
authorize_body q notional now none = authorize_new q notional now

-- `reference_price is None or reference_price <= 0 or quantity <= 0`, and else the amount.
abbrev pub notional_of : CanaryRequest → Option ℤ
notional_of q = elim q.reference_price [
  | none ↦ none
  | some price ↦
      if leb_ℤ price (pos 0) || leb_ℤ q.quantity (pos 0) then none else some (q.quantity *ℤ price)
]

-- The row of the canary that covers the request. That none is left is raised after the commit, so the
-- closings stay.
unfoldable pub authorize_live_canary : CanaryRequest → ℕ → Method String
authorize_live_canary q now = do
  notional ← or_raise (notional_of q) canary_no_notional
  selected ← immediate_transaction (do
    existing ← gets (canary_of_request q.client_request_id)
    authorize_body q notional now existing)
  c ← or_raise selected canary_none_left
  pure c.canary_id
