-- ===== src/Models.antt =====
-- execution/models.py: plans, confirmations and quotes, the data contracts of the execution chain.
--
-- A time stamp is a number of seconds: `parse_ts` maps the program's one format,
-- "YYYY-MM-DDTHH:MM:SSZ", to instants in the order in which SQL compares the texts.
-- A set of status texts is a data type with a constructor for each legal text and `other` for the rest.
use text.Mathlib.Text.{is_le}
use Prim.Native.String.{compare}
use trading_cat.Base.{
  ℕ, ◌-◌, String, Bool, true, false, ◌&&◌, Option, none, some, List, [], ◌∷◌, str_eq, leb,
  if◌then◌else◌,
}
use trading_cat.Base.Int.{ℤ}

pub data Mode : Type 0 where
  dry_run paper live : Mode
  other : String → Mode

pub data Side : Type 0 where
  buy sell : Side
  other : String → Side

pub data OrderType : Type 0 where
  market limit : OrderType
  other : String → OrderType

abbrev pub approval_proof_channel : String
approval_proof_channel = "approval-proof"

-- An optional text equals a text.
abbrev pub is_text : Option String → String → Bool
is_text none t = false
is_text (some s) t = str_eq s t

pub record PlanOrder : Type 0 where
  pub plan_order_id : String
  pub symbol : String
  pub side : Side
  pub quantity : ℤ
  pub order_type : OrderType
  pub reference_price : Option ℤ
  pub reference_quote_at : Option ℕ
  pub max_slippage_bps : ℤ
  pub strategy_version_id : Option ℕ
  pub investor_policy_version_id : Option ℕ

-- `sorted(orders, key=lambda x: x.plan_order_id)`, which is stable.
unfoldable pub insert_order : PlanOrder → List PlanOrder → List PlanOrder
insert_order o [] = o ∷ []
insert_order o (p ∷ ps) =
    if is_le (compare o.plan_order_id p.plan_order_id) then o ∷ p ∷ ps else p ∷ insert_order o ps

unfoldable pub sort_orders : List PlanOrder → List PlanOrder
unfolding insert_order
sort_orders [] = []
sort_orders (o ∷ os) = insert_order o (sort_orders os)

-- What the hash of a plan covers: the canonical JSON, as the values that it spells.
pub record PlanContent : Type 0 where
  pub account_id : String
  pub execution_mode : Mode
  pub orders : List PlanOrder
  pub expires_at : ℕ

pub record ExecutionPlan : Type 0 where
  pub plan_id : String
  pub account_id : String
  pub execution_mode : Mode
  pub expires_at : ℕ
  pub orders : List PlanOrder
  pub plan_hash : String

-- sha256 over the canonical JSON of the content is a parameter.
abbrev pub Digest : Type 0
Digest = PlanContent → String

-- `compute_plan_hash` at a plan's own fields.
unfoldable pub compute_plan_hash : Digest → ExecutionPlan → String
compute_plan_hash sha256 p = sha256 (record {
  account_id = p.account_id;
  execution_mode = p.execution_mode;
  orders = sort_orders p.orders;
  expires_at = p.expires_at;
})

-- The constructor of the frozen class, which fills in the hash. (Its assertion on the mode is
-- `is_execution_mode`.)
abbrev pub is_execution_mode : Mode → Bool
is_execution_mode (Mode.other _) = false
is_execution_mode _ = true

unfoldable pub new_plan :
    Digest → String → String → Mode → ℕ → List PlanOrder → Option ExecutionPlan
unfolding compute_plan_hash
new_plan sha256 plan_id account_id mode expires_at orders =
    let p : ExecutionPlan = record {
      plan_id = plan_id;
      account_id = account_id;
      execution_mode = mode;
      expires_at = expires_at;
      orders = orders;
      plan_hash = "";
    } in
    if is_execution_mode mode
    then some (record p { plan_hash = compute_plan_hash sha256 p })
    else none

-- A plan lapses at the very second of `expires_at`.
unfoldable pub plan_is_expired : ExecutionPlan → ℕ → Bool
plan_is_expired p now = leb p.expires_at now

pub data ConfirmationStatus : Type 0 where
  pending approved consumed expired rejected cancelled : ConfirmationStatus
  other : String → ConfirmationStatus

pub record Confirmation : Type 0 where
  pub confirmation_id : String
  pub plan_id : String
  pub plan_hash : String
  pub status : ConfirmationStatus
  pub approved_by : Option String
  pub approval_channel : Option String
  pub approval_nonce : Option String
  pub approved_at : Option ℕ
  pub expires_at : Option ℕ
  pub created_at : Option ℕ
  pub idempotency_key : Option String

unfoldable pub confirmation_is_expired : Confirmation → ℕ → Bool
confirmation_is_expired c now = elim c.expires_at [ none ↦ false | some t ↦ leb t now ]

pub record MarketState : Type 0 where
  pub symbol : String
  pub quote_at : ℕ
  pub price : ℤ
  pub max_age_seconds : ℕ

-- `0 <= age <= max_age_seconds`: a quote from the future is not fresh.
unfoldable pub is_fresh : MarketState → ℕ → Bool
is_fresh m now = leb m.quote_at now && leb (now - m.quote_at) m.max_age_seconds

pub data Decision : Type 0 where
  pass reject : Decision
