-- ===== src/Reconcile/Closed.antt =====
-- execution/broker.py and shared/db.py: a mismatch closes the canaries of the account.
use mathlib.Core.Path.{subst}
use trading_cat.Base.{
  String, ◌≡◌, refl, Bool, true, false, Option, none, some, List, [], ◌∷◌, arith, All, Bool-cases,
  inl, inr, str_eq,
}
use trading_cat.Base.Tables.{select_all, update}
use trading_cat.Base.Action.{Result, ok, err, ◌>>=◌, ◌>>◌, pure, when, roll_back}
use trading_cat.Base.Action.Outcome.{OnOk, always-OnOk, bind-OnOk, gets-OnOk, if-OnOk}
use trading_cat.Store.{Store, Error, Canary, Intent, Entity, reconcile}
use trading_cat.Store.AuditLog.{audit, write_audit}
use trading_cat.Store.Plans.{get_plan}
use trading_cat.Store.Canaries.{
  close_live_canaries, close_live_canaries_locked, close_rows, update_canaries, close_canary,
  to_close,
}
use trading_cat.Reconcile.{
  Query, Report, Mismatch, any_found, reconcile_plan, reconcile_real, reconcile_paper,
  close_on_mismatch, account_of, is_paper_plan,
}

-- No canary of the account is active.
abbrev pub IsShut : String → Canary → Type 0
IsShut account c = str_eq c.account_id account ≡ true → c.is_active ≡ false

abbrev due : String → Canary → Bool
due account = to_close (some account) none none

not_due-IsShut : (account : String) (c : Canary) → due account c ≡ false → IsShut account c
not_due-IsShut account c h k = ground (arith, h, k)

none_due-IsShut :
    (account : String) (cs : List Canary)
    → select_all (due account) cs ≡ []
    → All (IsShut account) cs
none_due-IsShut account [] h = tt
none_due-IsShut account (c ∷ cs) h = elim (Bool-cases (due account c)) [
  | inl hit ↦ elim (absurd hit) [ ]
  | inr miss ↦ (not_due-IsShut account c miss, none_due-IsShut account cs (rest miss))
]
  where
    absurd : due account c ≡ true → ⊥
    absurd hit = ground (arith, h, hit)

    rest : due account c ≡ false → select_all (due account) cs ≡ []
    rest miss = ground (arith, h, miss)

closed-IsShut :
    (reason account : String) (cs : List Canary)
    → All (IsShut account) (update (due account) (close_canary reason) cs)
closed-IsShut reason account [] = tt
closed-IsShut reason account (c ∷ cs) = elim (Bool-cases (due account c)) [
  | inl hit ↦ rw hit (λ k. refl, closed-IsShut reason account cs)
  | inr miss ↦ rw miss (not_due-IsShut account c miss, closed-IsShut reason account cs)
]

-- Closing the canaries of an account leaves none of them active.
pub close_live_canaries-IsShut :
    (reason account : String) (s : Store)
    → All (IsShut account) (close_live_canaries reason (some account) s).1.canaries
unfolding close_live_canaries close_live_canaries_locked close_rows update_canaries audit
    write_audit ◌>>=◌
close_live_canaries-IsShut reason account s = at_rows (select_all (due account) s.canaries) refl
  where
    at_rows :
        (rs : List Canary)
        → select_all (due account) s.canaries ≡ rs
        → All
            (IsShut account)
            (roll_back s (close_rows reason (some account) (due account) rs s)).1.canaries
    at_rows [] e = none_due-IsShut account s.canaries e
    at_rows (r ∷ rs) e = closed-IsShut reason account s.canaries

on_ok : {A : Type 0} (P : Store → Type 0) (r : Result Error A × Store) → P r.1 → OnOk (λ _ t. P t) r
on_ok P (ok a, t) h = h
on_ok P (err e, t) h = tt

module _ (account : String) where
  -- What a report that found something leaves behind.
  abbrev Shuts : Report → Store → Type 0
  Shuts r t = any_found r.mismatches ≡ true → All (IsShut account) t.canaries

  abbrev ShutsFor : List Mismatch → Unit {0} → Store → Type 0
  ShutsFor ms _ t = any_found ms ≡ true → All (IsShut account) t.canaries

  close_on_mismatch-OnOk :
      (ms : List Mismatch) (s : Store) → OnOk (ShutsFor ms) (close_on_mismatch ms account s)
  unfolding close_on_mismatch when pure
  close_on_mismatch-OnOk [] s = λ h. cc
  close_on_mismatch-OnOk (m ∷ ms) s =
      bind-OnOk (ShutsFor (m ∷ ms)) (λ _ t. All (IsShut account) t.canaries) _ _ s closed
        (λ _ t h _. h)
    where
      closed :
          OnOk
            (λ _ t. All (IsShut account) t.canaries)
            (close_live_canaries "reconciliation_mismatch" (some account) s)
      closed =
          on_ok (λ u. All (IsShut account) u.canaries)
            (close_live_canaries "reconciliation_mismatch" (some account) s)
            (close_live_canaries-IsShut "reconciliation_mismatch" account s)

  reported :
      (ms : List Mismatch) (plan_id : String) (sets : Bool) (t : Store)
      → ShutsFor ms tt t
      → OnOk {E = Error} Shuts (
          (do
            audit reconcile (Entity.plan plan_id)
            pure (record { mismatches = ms; sets_mismatch = sets }))
            t)
  unfolding audit write_audit ◌>>=◌
  reported ms plan_id sets t h = h

  reconcile_real-OnOk :
      (query : Option Query) (plan_id : String) (is : List Intent) (s : Store)
      → OnOk Shuts (reconcile_real query plan_id is account s)
  unfolding reconcile_real
  reconcile_real-OnOk query plan_id is s =
      bind-OnOk Shuts (λ _ _. Unit) _ _ s (always-OnOk _ (λ _ _. tt) _)
        λ ms t _.
          bind-OnOk Shuts (ShutsFor ms) _ _ t (close_on_mismatch-OnOk ms t)
            λ _ u h. reported ms plan_id (any_found ms) u h

  reconcile_paper-OnOk :
      (plan_id : String) (is : List Intent) (s : Store)
      → OnOk Shuts (reconcile_paper plan_id is account s)
  unfolding reconcile_paper
  reconcile_paper-OnOk plan_id is s =
      bind-OnOk Shuts (λ _ _. Unit) _ _ s (always-OnOk _ (λ _ _. tt) _)
        λ ms t _.
          bind-OnOk Shuts (ShutsFor ms) _ _ t (close_on_mismatch-OnOk ms t)
            λ _ u h. reported ms plan_id false u h

-- A reconciliation of a plan, by any broker's answers or without a broker, that returns and has found any
-- mismatch leaves no active canary in the account of the plan.
pub reconcile_plan-shuts :
    (query : Option Query) (plan_id : String) (s t : Store) (r : Report)
    → reconcile_plan query plan_id s ≡ (ok r, t)
    → any_found r.mismatches ≡ true
    → All (IsShut (account_of (get_plan plan_id s))) t.canaries
unfolding reconcile_plan
reconcile_plan-shuts query plan_id s t r h =
    subst (OnOk (Shuts (account_of (get_plan plan_id s)))) h (
      gets-OnOk _ _ _ s (
        gets-OnOk _ _ _ s (
          if-OnOk _ (is_paper_plan (get_plan plan_id s)) _ _ s
            (λ _. reconcile_paper-OnOk (account_of (get_plan plan_id s)) plan_id _ s)
            (λ _. reconcile_real-OnOk (account_of (get_plan plan_id s)) query plan_id _ s))))
