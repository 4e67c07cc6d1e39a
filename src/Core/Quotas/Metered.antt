-- ===== src/Core/Quotas/Metered.antt =====
-- shared/db.py: what is granted in a window stays within its limit.
use mathlib.Core.Path.{subst}
use trading_cat.Base.{
  ℕ, String, ◌≡◌, refl, sym, ap, ◌∙◌, Bool, true, false, ◌&&◌, Option, none, some, List, [], ◌∷◌,
  arith, All, All-snoc, eqb, if◌then◌else◌, Bool-cases, inl, inr,
}
use trading_cat.Base.Int.{ℤ, pos, ◌+ℤ◌, ◌≤ℤ◌, leb_ℤ, leb_ℤ→≤ℤ, int_laws}
use trading_cat.Base.Tables.{select, select-head, select-tail, update_first}
use trading_cat.Core.{Core, Quota, empty_core}
use trading_cat.Core.Quotas.{
  Reservation, has_key, window_of, get_quota, used_in, limit_in, put_quota, reserved, is_allowed,
  reserve_api_quota,
}
use trading_cat.Core.Quotas.Used.{
  reserve_all, used_of, reserve_api_quota_runs, reserve_api_quota_raises, used_all,
}

-- What has been used lies between nothing and the limit.
pub record IsMetered (q : Quota) : Type 0 where
  pub some_used : pos 0 ≤ℤ q.used
  pub within : q.used ≤ℤ q.quota_limit

-- The rows stay metered.
AreMetered : Core → Type 0
AreMetered s = All IsMetered s.quotas

All-update_first :
    {A : Type 0} (P : A → Type 0) (p : A → Bool) (f : A → A) (xs : List A)
    → ((a : A) → P (f a))
    → All P xs
    → All P (update_first p f xs)
All-update_first P p f [] h k = tt
All-update_first P p f (x ∷ xs) h k = elim (Bool-cases (p x)) [
  | inl hit ↦ rw hit (h x, k.1)
  | inr miss ↦ rw miss (k.0, All-update_first P p f xs h k.1)
]

All-select :
    {A : Type 0} (P : A → Type 0) (p : A → Bool) (xs : List A) (a : A)
    → All P xs
    → select p xs ≡ some a
    → P a
All-select P p [] a h e = cc
All-select P p (x ∷ xs) a h e = elim (Bool-cases (p x)) [
  | inl hit ↦ subst P (select-head p x a xs hit e) h.0
  | inr miss ↦ All-select P p xs a h.1 (select-tail p x a xs miss e)
]

put_quota-AreMetered :
    (o : Option Quota) (new : Quota) (s : Core)
    → IsMetered new
    → AreMetered s
    → AreMetered (put_quota o new s)
unfolding put_quota AreMetered
put_quota-AreMetered none new s n h = All-snoc IsMetered s.quotas new h n
put_quota-AreMetered (some old) new s n h =
    All-update_first IsMetered (has_key new.scope new.window_start) (λ _. new) s.quotas (λ _. n) h

used_nonneg :
    (o : Option Quota) (s : Core) (scope : String) (start : ℕ)
    → get_quota scope start s ≡ o
    → AreMetered s
    → pos 0 ≤ℤ used_in o
unfolding get_quota AreMetered
used_nonneg none s scope start e h = omega arith
used_nonneg (some r) s scope start e h =
    (All-select IsMetered (has_key scope start) s.quotas r h e).some_used

reserved-IsMetered :
    (q : Reservation) (o : Option Quota)
    → pos 0 ≤ℤ used_in o
    → is_allowed q o ≡ true
    → IsMetered (reserved q o)
reserved-IsMetered q o h k = record {
  some_used = sum_nonneg (used_in o) q.amount h (leb_ℤ→≤ℤ (pos 0) q.amount parts.0);
  within = leb_ℤ→≤ℤ (used_in o +ℤ q.amount) (limit_in o q.quota_limit) parts.1;
}
  where
    both : (a b : Bool) → (a && b) ≡ true → (a ≡ true) × (b ≡ true)
    both a b e = ground arith

    parts :
        (leb_ℤ (pos 0) q.amount ≡ true)
        × (leb_ℤ (used_in o +ℤ q.amount) (limit_in o q.quota_limit) ≡ true)
    parts = both _ _ k

    sum_nonneg : (a b : ℤ) → pos 0 ≤ℤ a → pos 0 ≤ℤ b → pos 0 ≤ℤ a +ℤ b
    sum_nonneg a b x y = omega int_laws

reserve-AreMetered :
    (q : Reservation) (s : Core) → AreMetered s → AreMetered (reserve_api_quota q s).1
reserve-AreMetered q s h = elim (Bool-cases (eqb q.window_seconds 0)) [
  | inl no_window ↦ rw (reserve_api_quota_raises q s no_window) h
  | inr some_window ↦
      rw (reserve_api_quota_runs q s some_window) (allowed_case (is_allowed q row) refl)
]
  where
    row : Option Quota
    row = get_quota q.scope (window_of q) s

    allowed_case :
        (b : Bool)
        → is_allowed q row ≡ b
        → AreMetered (if b then put_quota row (reserved q row) s else s)
    allowed_case true e =
        put_quota-AreMetered row (reserved q row) s
          (reserved-IsMetered q row (used_nonneg row s q.scope (window_of q) refl h) e) h
    allowed_case false e = h

all-AreMetered :
    (scope : String) (start : ℕ) (qs : List Reservation) (s : Core)
    → AreMetered s
    → AreMetered (reserve_all scope start qs s).1
all-AreMetered scope start [] s h = h
all-AreMetered scope start (q ∷ qs) s h =
    all-AreMetered scope start qs (reserve_api_quota q s).1 (reserve-AreMetered q s h)

-- What is granted in a window is what its row counts as used, and within the limit of the row.
abbrev pub IsAccounted : Option Quota → ℤ → Type 0
IsAccounted none granted = granted ≡ pos 0
IsAccounted (some r) granted = (granted ≡ r.used) × (granted ≤ℤ r.quota_limit)

-- From an empty store on, whatever calls of whatever scopes, amounts and limits come: what they grant in
-- a window together is what the row of the window counts as used, and never more than its limit.
pub reserve_all-IsAccounted :
    (scope : String) (start : ℕ) (qs : List Reservation)
    → IsAccounted
        (get_quota scope start (reserve_all scope start qs empty_core).1)
        (reserve_all scope start qs empty_core).0
unfolding get_quota AreMetered
reserve_all-IsAccounted scope start qs = accounted (get_quota scope start final) refl
  where
    final : Core
    final = (reserve_all scope start qs empty_core).1

    granted : ℤ
    granted = (reserve_all scope start qs empty_core).0

    none_plus : (b : ℤ) → pos 0 +ℤ b ≡ b
    none_plus b = omega int_laws

    same : granted ≡ used_of scope start final
    same = sym (used_all scope start qs empty_core ∙ none_plus granted)

    accounted : (o : Option Quota) → get_quota scope start final ≡ o → IsAccounted o granted
    accounted none e = same ∙ ap used_in e
    accounted (some r) e = (
      same ∙ ap used_in e,
      subst (λ x. x ≤ℤ r.quota_limit) (sym (same ∙ ap used_in e))
          (All-select IsMetered (has_key scope start) final.quotas r
            (all-AreMetered scope start qs empty_core tt) e).within,
    )
