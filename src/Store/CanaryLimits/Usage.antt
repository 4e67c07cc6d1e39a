-- ===== src/Store/CanaryLimits/Usage.antt =====
-- shared/db.py: what one more row of live_canary_usage does to the counts of a canary.
use trading_cat.Base.{
  suc, String, ◌≡◌, refl, ap, ◌∙◌, true, false, List, [], ◌∷◌, ◌++◌, str_eq, Bool-cases, inl, inr,
}
use trading_cat.Base.Int.{ℤ, int_laws, ◌+ℤ◌}
use trading_cat.Store.{CanaryUsage}
use trading_cat.Store.CanaryLimits.{uses, worth}

-- A row of usage more.
module _ (k : String) where
  pub uses-hit :
      (us : List CanaryUsage) (u : CanaryUsage)
      → str_eq u.canary_id k ≡ true
      → uses k (us ++ u ∷ []) ≡ suc (uses k us)
  uses-hit [] u h = rw h refl
  uses-hit (v ∷ us) u h = elim (Bool-cases (str_eq v.canary_id k)) [
    | inl hit ↦ rw hit (ap suc (uses-hit us u h))
    | inr miss ↦ rw miss (uses-hit us u h)
  ]

  pub uses-miss :
      (us : List CanaryUsage) (u : CanaryUsage)
      → str_eq u.canary_id k ≡ false
      → uses k (us ++ u ∷ []) ≡ uses k us
  uses-miss [] u h = rw h refl
  uses-miss (v ∷ us) u h = elim (Bool-cases (str_eq v.canary_id k)) [
    | inl hit ↦ rw hit (ap suc (uses-miss us u h))
    | inr miss ↦ rw miss (uses-miss us u h)
  ]

  pub worth-hit :
      (us : List CanaryUsage) (u : CanaryUsage)
      → str_eq u.canary_id k ≡ true
      → worth k (us ++ u ∷ []) ≡ worth k us +ℤ u.notional
  worth-hit [] u h = rw h refl
  worth-hit (v ∷ us) u h = elim (Bool-cases (str_eq v.canary_id k)) [
    | inl hit ↦
        rw hit (
          ap (λ x. x +ℤ v.notional) (worth-hit us u h) ∙ swapped (worth k us) u.notional v.notional)
    | inr miss ↦ rw miss (worth-hit us u h)
  ]
    where
      swapped : (a b c : ℤ) → (a +ℤ b) +ℤ c ≡ (a +ℤ c) +ℤ b
      swapped a b c = omega int_laws

  pub worth-miss :
      (us : List CanaryUsage) (u : CanaryUsage)
      → str_eq u.canary_id k ≡ false
      → worth k (us ++ u ∷ []) ≡ worth k us
  worth-miss [] u h = rw h refl
  worth-miss (v ∷ us) u h = elim (Bool-cases (str_eq v.canary_id k)) [
    | inl hit ↦ rw hit (ap (λ x. x +ℤ v.notional) (worth-miss us u h))
    | inr miss ↦ rw miss (worth-miss us u h)
  ]
