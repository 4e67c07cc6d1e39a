-- ===== src/Store/CanaryLimits.antt =====
-- shared/db.py: a canary is never used beyond its limits.
pub mod Usage
pub mod Spending
pub mod Choice
pub mod Opening
use trading_cat.Base.{
  ℕ, suc, ◌≤◌, String, ◌≡◌, refl, sym, ap, ◌∙◌, Bool, true, false, not, ◌&&◌, ◌||◌, Option, none,
  some, List, [], ◌∷◌, ◌++◌, arith, All, any, str_eq, eq_iff, Bool-cases, Option-cases, inl, inr,
  if◌then◌else◌, ltb, leb,
}
use trading_cat.Base.Int.{ℤ, pos, ◌+ℤ◌, ◌-ℤ◌, ◌≤ℤ◌, ltb_ℤ, leb_ℤ, int_laws, ltb_ℤ→≤ℤ}
use trading_cat.Base.Tables.{select, select_all, update}
use trading_cat.Base.Action.{
  Result, ok, err, Action, continue_with, roll_back, ◌>>=◌, ◌>>◌, pure, modify, gets, or_raise,
  immediate_transaction,
}
use trading_cat.Base.Action.Relates.{
  Relates, Relates-modify, Relates-bind, IsPreorder, relates_rules,
}
use trading_cat.Base.Action.Outcome.{OnOk}
use trading_cat.Store.{
  Store, Error, Method, Canary, CanaryUsage, AuditEvent, Entity, live_canary_authorized,
}
use trading_cat.Store.AuditLog.{audit, write_audit}
use trading_cat.Store.Canaries.{
  tolerance, has_canary_id, update_canaries, close_canary, close_rows, close_live_canaries_locked,
  close_live_canaries, close_expired_live_canaries, refusal, orders_spent, notional_spent, spend,
  step_candidate, choose_canary, CanaryRequest, add_usage, close_if_spent, reserve, authorize_new,
  authorize_body, authorize_live_canary, mem_text, only, notional_of, canary_of_request,
}

-- At most its orders, and at most its notional amount up to the tolerance 1e-9.
pub record IsWithin (c : Canary) : Type 0 where
  pub orders : c.used_orders ≤ c.max_orders
  pub notional : c.used_notional ≤ℤ c.max_notional +ℤ tolerance

-- Rows of one id count alike.
pub record Agree (c r : Canary) : Type 0 where
  pub orders : r.canary_id ≡ c.canary_id → r.used_orders ≡ c.used_orders
  pub max_orders : r.canary_id ≡ c.canary_id → r.max_orders ≡ c.max_orders
  pub notional : r.canary_id ≡ c.canary_id → r.used_notional ≡ c.used_notional
  pub max_notional : r.canary_id ≡ c.canary_id → r.max_notional ≡ c.max_notional

-- The table agrees with a row that was read, and has one of its id.
abbrev pub IsCurrent : List Canary → Canary → Type 0
IsCurrent cs c = All (Agree c) cs × (any (has_canary_id c.canary_id) cs ≡ true)

-- How many rows of `live_canary_usage` a canary has, and their amounts together.
abbrev pub uses : String → List CanaryUsage → ℕ
uses k [] = 0
uses k (u ∷ us) = let rest = uses k us in if str_eq u.canary_id k then suc rest else rest

abbrev pub worth : String → List CanaryUsage → ℤ
worth k [] = pos 0
worth k (u ∷ us) =
    let rest = worth k us in if str_eq u.canary_id k then rest +ℤ u.notional else rest

-- The counters of a canary are what its rows of usage come to.
pub record IsCounted (us : List CanaryUsage) (c : Canary) : Type 0 where
  pub orders : c.used_orders ≡ uses c.canary_id us
  pub notional : c.used_notional ≡ worth c.canary_id us

abbrev pub IsKnown : List Canary → CanaryUsage → Type 0
IsKnown cs u = any (has_canary_id u.canary_id) cs ≡ true

pub record AreWithin (s : Store) : Type 0 where
  pub within : All IsWithin s.canaries
  pub counted : All (IsCounted s.canary_usage) s.canaries
  pub known : All (IsKnown s.canaries) s.canary_usage
  pub keyed : All (IsCurrent s.canaries) s.canaries

pub All-update :
    {A : Type 0} (P Q : A → Type 0) (p : A → Bool) (f : A → A) (xs : List A)
    → ((x : A) → P x → Q (if p x then f x else x))
    → All P xs
    → All Q (update p f xs)
All-update P Q p f [] h a = tt
All-update P Q p f (x ∷ xs) h a = (h x a.0, All-update P Q p f xs h a.1)

-- A change of rows that keeps their ids keeps the ids of the table.
pub any-update :
    (k : String) (p : Canary → Bool) (f : Canary → Canary) (cs : List Canary)
    → ((c : Canary) → (f c).canary_id ≡ c.canary_id)
    → any (has_canary_id k) (update p f cs) ≡ any (has_canary_id k) cs
any-update k p f [] same = refl
any-update k p f (c ∷ cs) same = elim (Bool-cases (p c)) [
  | inl hit ↦ rw (hit, same c, any-update k p f cs same) refl
  | inr miss ↦ rw (miss, any-update k p f cs same) refl
]

pub All-known :
    (p : Canary → Bool) (f : Canary → Canary) (cs : List Canary) (us : List CanaryUsage)
    → ((c : Canary) → (f c).canary_id ≡ c.canary_id)
    → All (IsKnown cs) us
    → All (IsKnown (update p f cs)) us
All-known p f cs [] same h = tt
All-known p f cs (u ∷ us) same h =
    (any-update u.canary_id p f cs same ∙ h.0, All-known p f cs us same h.1)

module _ (p : Canary → Bool) (reason : String) where
  abbrev closing : Canary → Canary
  closing c = if p c then close_canary reason c else c

  closing-Agree : (c r : Canary) → Agree c r → Agree c (closing r)
  closing-Agree c r h = ground (arith, h)

  closing-both : (c r : Canary) → Agree c r → Agree (closing c) (closing r)
  closing-both c r h = ground (arith, h)

  closing-IsCounted :
      (us : List CanaryUsage) (c : Canary) → IsCounted us c → IsCounted us (closing c)
  closing-IsCounted us c h = elim (Bool-cases (p c)) [
    | inl hit ↦ rw hit (record { orders = h.orders; notional = h.notional })
    | inr miss ↦ rw miss h
  ]

  closing-id : (c : Canary) → (closing c).canary_id ≡ c.canary_id
  closing-id c = elim (Bool-cases (p c)) [ inl hit ↦ rw hit refl | inr miss ↦ rw miss refl ]

  closing-IsWithin : (c : Canary) → IsWithin c → IsWithin (closing c)
  closing-IsWithin c h = ground (arith, h)

-- What a closing does: rows that were current stay current, and the limits hold on.
pub record Closes (s t : Store) : Type 0 where
  pub current : (c : Canary) → IsCurrent s.canaries c → IsCurrent t.canaries c
  pub limits : AreWithin s → AreWithin t

pub Closes-IsPreorder : IsPreorder Closes
Closes-IsPreorder = record {
  self = λ s. record { current = λ c h. h; limits = λ h. h };
  chain = λ s t u h k. record {
    current = λ c x. k.current c (h.current c x);
    limits = λ x. k.limits (h.limits x);
  };
}

pub closed-Closes :
    (p : Canary → Bool) (reason : String) (s : Store)
    → Closes s (update_canaries p (close_canary reason) s)
unfolding update_canaries
closed-Closes p reason s = record {
  current = λ c h. (
    All-update (Agree c) (Agree c) p (close_canary reason) s.canaries (closing-Agree p reason c)
        h.0,
    any-update c.canary_id p (close_canary reason) s.canaries (λ _. refl) ∙ h.1,
  );
  limits = λ h. record {
    within =
        All-update IsWithin IsWithin p (close_canary reason) s.canaries (closing-IsWithin p reason)
          h.within;
    counted =
        All-update (IsCounted s.canary_usage) (IsCounted s.canary_usage) p (close_canary reason)
          s.canaries (closing-IsCounted p reason s.canary_usage) h.counted;
    known = All-known p (close_canary reason) s.canaries s.canary_usage (λ _. refl) h.known;
    keyed =
        All-update (IsCurrent s.canaries) (IsCurrent (update p (close_canary reason) s.canaries)) p
          (close_canary reason) s.canaries
          (λ c k. (
            All-update (Agree c) (Agree (closing p reason c)) p (close_canary reason) s.canaries
                (closing-both p reason c) k.0,
            ap (λ i. any (has_canary_id i) (update p (close_canary reason) s.canaries))
                  (closing-id p reason c)
                ∙ any-update c.canary_id p (close_canary reason) s.canaries (λ _. refl)
                ∙ k.1,
          ))
          h.keyed;
  };
}

pub audit-Closes : (event : AuditEvent) (entity : Entity) → Relates Closes (audit event entity)
unfolding audit write_audit
audit-Closes event entity = Relates-modify _ (λ s. record {
  current = λ c h. h;
  limits = λ h. record { within = h.within; counted = h.counted; known = h.known; keyed = h.keyed };
})

pub ruleset closing_rules = (Closes-IsPreorder, relates_rules, closed-Closes, audit-Closes)

close_rows-Closes :
    (reason : String) (account : Option String) (p : Canary → Bool) (rs : List Canary)
    → Relates Closes (close_rows reason account p rs)
unfolding close_rows
close_rows-Closes reason account p [] = search closing_rules
close_rows-Closes reason account p (r ∷ rs) = search closing_rules depth 20

pub close_live_canaries_locked-Closes :
    (reason : String) (account : Option String) (ids : Option (List String)) (cutoff : Option ℕ)
    → Relates Closes (close_live_canaries_locked reason account ids cutoff)
unfolding close_live_canaries_locked
close_live_canaries_locked-Closes reason account ids cutoff =
    search (closing_rules, close_rows-Closes) depth 20

pub close_if_spent-Closes : (o : Option Canary) → Relates Closes (close_if_spent o)
unfolding close_if_spent
close_if_spent-Closes none = search closing_rules
close_if_spent-Closes (some c) = search (closing_rules, close_live_canaries_locked-Closes)
