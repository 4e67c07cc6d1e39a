-- ===== src/Core/Lifecycle/Counted.antt =====
-- shared/db.py: `set_lifecycle` counts a failure once for its evidence.
use trading_cat.Base.{
  ℕ, suc, String, ◌≡◌, refl, ap, ◌∙◌, Bool, true, false, not, ◌&&◌, Option, none, some, List, [],
  ◌∷◌, ◌++◌, arith, eq_iff, if◌then◌else◌, Bool-cases, inl, inr,
}
use trading_cat.Base.Action.{ok, ◌>>=◌}
use trading_cat.Base.Tables.{
  select, select_sound, update_first, select-append_new, select-update_first,
}
use trading_cat.Core.{Core, LifecycleRow}
use trading_cat.Core.Lifecycle.{
  Change, is_stage, is_backtesting, is_failure, same_hash, has_symbol, get_lifecycle, first_row,
  or_zero, counted, failures, changed, put_lifecycle, set_lifecycle,
}

module _ {A : Type 0} (p : A → Bool) (f : A → A) where
  update_first-append_new :
      (rs : List A) (new : A)
      → p new ≡ true
      → f new ≡ new
      → select p rs ≡ none
      → update_first p f (rs ++ new ∷ []) ≡ rs ++ new ∷ []
  update_first-append_new [] new hit e none_yet = rw hit (ap (λ x. x ∷ []) e)
  update_first-append_new (r ∷ rs) new hit e none_yet = elim (Bool-cases (p r)) [
    | inl here ↦ elim (taken here none_yet) [ ]
    | inr miss ↦
        rw miss (ap (λ xs. r ∷ xs) (update_first-append_new rs new hit e (rest miss none_yet)))
  ]
    where
      taken : p r ≡ true → (if p r then some r else select p rs) ≡ none → ⊥
      taken hit k = ground (arith, hit, k)

      rest : p r ≡ false → (if p r then some r else select p rs) ≡ none → select p rs ≡ none
      rest hit k = ground (arith, hit, k)

  update_first-again :
      ((x : A) → p (f x) ≡ p x)
      → ((x : A) → f (f x) ≡ f x)
      → (rs : List A) → update_first p f (update_first p f rs) ≡ update_first p f rs
  update_first-again same idem [] = refl
  update_first-again same idem (r ∷ rs) = elim (Bool-cases (p r)) [
    | inl here ↦ rw (here, same r, here) (ap (λ x. x ∷ rs) (idem r))
    | inr miss ↦ rw (miss, miss) (ap (λ xs. r ∷ xs) (update_first-again same idem rs))
  ]

abbrev or_given : Option ℕ → ℕ → ℕ
or_given none n = n
or_given (some m) n = m

same_hash_refl : (h : Option String) → same_hash h h ≡ true
same_hash_refl none = refl
same_hash_refl (some a) = (eq_iff a a).1 refl

-- On the evidence that is known already the count stays.
counted_again :
    (o : Option ℕ) (failure : Bool) (e : Option String) (n : ℕ)
    → counted o (failure && not (same_hash e e)) n ≡ or_given o n
counted_again (some m) failure e n = refl
counted_again none failure e n = rw (same_hash_refl e) (stays failure)
  where
    stays : (b : Bool) → (if b && false then suc n else n) ≡ n
    stays true = refl
    stays false = refl

given_again :
    (o : Option ℕ) (failed : Bool) (n : ℕ) → or_given o (counted o failed n) ≡ counted o failed n
given_again none failed n = refl
given_again (some m) failed n = refl

module _ (q : Change) where
  changed_again : (r : LifecycleRow) → changed q (changed q r) ≡ changed q r
  changed_again r = elim (Bool-cases (is_backtesting q.status)) [
    | inl passing ↦ rw passing refl
    | inr lasting ↦ rw lasting (
        ap with_count (
          counted_again q.fail_count (is_failure q.status) q.evidence_hash (failures q r)
          ∙ given_again q.fail_count _ r.fail_count))
  ]
    where
      with_count : ℕ → LifecycleRow
      with_count n = record r {
        status = q.status;
        fail_count = n;
        last_evidence_hash = q.evidence_hash;
        score = q.score;
        params_json = q.params_json;
      }

  changed_first : changed q (first_row q) ≡ first_row q
  changed_first = elim (Bool-cases (is_backtesting q.status)) [
    | inl passing ↦ rw passing refl
    | inr lasting ↦ rw lasting (
        ap with_count (
          counted_again q.fail_count (is_failure q.status) q.evidence_hash (or_zero q.fail_count)
          ∙ given_zero q.fail_count))
  ]
    where
      with_count : ℕ → LifecycleRow
      with_count n = record (first_row q) { fail_count = n }

      given_zero : (o : Option ℕ) → or_given o (or_zero o) ≡ or_zero o
      given_zero none = refl
      given_zero (some m) = refl

  changed_symbol : (r : LifecycleRow) → has_symbol q.symbol (changed q r) ≡ has_symbol q.symbol r
  changed_symbol r = elim (Bool-cases (is_backtesting q.status)) [
    | inl passing ↦ rw passing refl
    | inr lasting ↦ rw lasting refl
  ]

  -- The row is there afterwards, and a second change leaves it.
  put_again :
      (o : Option LifecycleRow) (s : Core)
      → get_lifecycle q.symbol s ≡ o
      → put_lifecycle (get_lifecycle q.symbol (put_lifecycle o q s)) q (put_lifecycle o q s)
        ≡ put_lifecycle o q s
  unfolding put_lifecycle get_lifecycle
  put_again none s e =
      rw (select-append_new (has_symbol q.symbol) s.lifecycle (first_row q) own e) (
        ap (λ rows. record s { lifecycle = rows })
          (update_first-append_new (has_symbol q.symbol) (changed q) s.lifecycle (first_row q) own
            changed_first e))
    where
      own : has_symbol q.symbol (first_row q) ≡ true
      own = (eq_iff q.symbol q.symbol).1 refl
  put_again (some r) s e =
      rw (select-update_first (has_symbol q.symbol) (changed q) s.lifecycle r e hit) (
        ap (λ rows. record s { lifecycle = rows })
          (update_first-again (has_symbol q.symbol) (changed q) changed_symbol changed_again
            s.lifecycle))
    where
      hit : has_symbol q.symbol (changed q r) ≡ true
      hit = changed_symbol r ∙ select_sound (has_symbol q.symbol) s.lifecycle r e

-- A change of a symbol's life that comes a second time, on the same evidence, does and returns just what it
-- did: a rerun on evidence that is known counts no further failure.
pub set_lifecycle-again :
    (q : Change) (s : Core) → set_lifecycle q (set_lifecycle q s).1 ≡ set_lifecycle q s
unfolding set_lifecycle ◌>>=◌
set_lifecycle-again q s = elim (Bool-cases (is_stage q.status)) [
  | inl legal ↦ rw legal (ap (λ t. (ok tt, t)) (put_again q (get_lifecycle q.symbol s) s refl))
  | inr strange ↦ rw strange refl
]
