-- ===== src/Store/CanaryLimits/Choice.antt =====
-- shared/db.py: the choice of a canary and `authorize_live_canary` keep the limits.
use trading_cat.Base.{
  ℕ, String, ◌≡◌, refl, Bool, Option, none, some, List, [], ◌∷◌, All, Bool-cases, inl, inr,
}
use trading_cat.Base.Int.{ℤ}
use trading_cat.Base.Tables.{select_all}
use trading_cat.Base.Action.{Result, ok, err, continue_with, ◌>>=◌, pure}
use trading_cat.Base.Action.Relates.{Relates, relates_rules}
use trading_cat.Base.Action.Outcome.{
  OnOk, always-OnOk, bind-keeps, gets-keeps, or_raise-keeps, transaction-keeps,
}
use trading_cat.Store.{Store, Error, Method, Canary, canary_no_notional, canary_none_left}
use trading_cat.Store.Canaries.{
  close_live_canaries_locked, refusal, step_candidate, choose_canary, CanaryRequest, reserve,
  authorize_new, authorize_body, authorize_live_canary, mem_text, only, notional_of,
  canary_of_request,
}
use trading_cat.Store.CanaryLimits.{
  AreWithin, IsCurrent, Closes, Closes-IsPreorder, close_live_canaries_locked-Closes,
}
use trading_cat.Store.CanaryLimits.Spending.{reserve-AreWithin}

-- A choice is none, or a row that is current in the table and not refused.
abbrev IsChoice : ℤ → Option Canary → Store → Type 0
IsChoice notional none s = AreWithin s
IsChoice notional (some c) s = AreWithin s × (IsCurrent s.canaries c × (refusal c notional ≡ none))

module _ (symbol : String) (notional : ℤ) where
  -- What is known after the loop, whether it ended or raised.
  abbrev Chosen : Result Error (Option Canary) × Store → Type 0
  Chosen (ok o, s) = IsChoice notional o s
  Chosen (err e, s) = AreWithin s

  All-IsCurrent :
      (s t : Store) (rs : List Canary)
      → Closes s t
      → All (IsCurrent s.canaries) rs
      → All (IsCurrent t.canaries) rs
  All-IsCurrent s t [] v h = tt
  All-IsCurrent s t (r ∷ rs) v h = (v.current r h.0, All-IsCurrent s t rs v h.1)

  then_choose :
      {A : Type 0} (s : Store) (rs : List Canary) (rest : Method (Option Canary))
      (r : Result Error A × Store)
      → Closes s r.1
      → AreWithin s
      → All (IsCurrent s.canaries) rs
      → ((t : Store) → AreWithin t → All (IsCurrent t.canaries) rs → Chosen (rest t))
      → Chosen (continue_with (λ _. rest) r)
  then_choose s rs rest (ok a, t) v h k f = f t (v.limits h) (All-IsCurrent s t rs v k)
  then_choose s rs rest (err e, t) v h k f = v.limits h

  step-Chosen :
      (c : Canary) (rs : List Canary) (rest : Method (Option Canary)) (o : Option String)
      (s : Store)
      → refusal c notional ≡ o
      → AreWithin s
      → All (IsCurrent s.canaries) (c ∷ rs)
      → ((t : Store) → AreWithin t → All (IsCurrent t.canaries) rs → Chosen (rest t))
      → Chosen (step_candidate c symbol notional o rest s)
  unfolding step_candidate ◌>>=◌
  step-Chosen c rs rest none s e h k f = (h, (k.0, e))
  step-Chosen c rs rest (some reason) s e h k f =
      then_choose s rs rest (close_live_canaries_locked reason none (only c) none s)
        ((close_live_canaries_locked-Closes reason none (only c) none).at s) h k.1 f

  choose-Chosen :
      (rs : List Canary) (s : Store)
      → AreWithin s
      → All (IsCurrent s.canaries) rs
      → Chosen (choose_canary rs symbol notional s)
  unfolding choose_canary pure
  choose-Chosen [] s h k = h
  choose-Chosen (c ∷ cs) s h k = elim (Bool-cases (mem_text symbol c.symbols)) [
    | inl listed ↦ rw listed (
        step-Chosen c cs (choose_canary cs symbol notional) (refusal c notional) s refl h k
          (choose-Chosen cs))
    | inr unlisted ↦ rw unlisted (choose-Chosen cs s h k.1)
  ]

Chosen-AreWithin :
    (symbol : String) (notional : ℤ) (r : Result Error (Option Canary) × Store)
    → Chosen symbol notional r
    → AreWithin r.1
Chosen-AreWithin symbol notional (ok none, t) h = h
Chosen-AreWithin symbol notional (ok (some c), t) h = h.0
Chosen-AreWithin symbol notional (err e, t) h = h

Chosen-OnOk :
    (symbol : String) (notional : ℤ) (r : Result Error (Option Canary) × Store)
    → Chosen symbol notional r
    → OnOk (IsChoice notional) r
Chosen-OnOk symbol notional (ok o, t) h = h
Chosen-OnOk symbol notional (err e, t) h = tt

All-select_all :
    {A : Type 0} (P : A → Type 0) (p : A → Bool) (xs : List A) → All P xs → All P (select_all p xs)
All-select_all P p [] h = tt
All-select_all P p (x ∷ xs) h = elim (Bool-cases (p x)) [
  | inl hit ↦ rw hit (h.0, All-select_all P p xs h.1)
  | inr miss ↦ rw miss (All-select_all P p xs h.1)
]

reserve-none-Closes : (q : CanaryRequest) (notional : ℤ) → Relates Closes (reserve none q notional)
unfolding reserve
reserve-none-Closes q notional = search (Closes-IsPreorder, relates_rules)

module _ (q : CanaryRequest) (notional : ℤ) where
  reserved-AreWithin :
      (o : Option Canary) (t : Store) → IsChoice notional o t → AreWithin (reserve o q notional t).1
  reserved-AreWithin none t h = ((reserve-none-Closes q notional).at t).limits h
  reserved-AreWithin (some c) t h = reserve-AreWithin c notional h.1.1 q t h.0 h.1.0

  authorize_new-AreWithin :
      (now : ℕ) (s : Store) → AreWithin s → AreWithin (authorize_new q notional now s).1
  unfolding authorize_new pure
  authorize_new-AreWithin now s h =
      bind-keeps AreWithin (λ _ _. Unit) _ _ s
        (((close_live_canaries_locked-Closes "canary_expired" (some q.account_id) none
              (some now)).at
            s).limits
          h)
        (always-OnOk _ (λ _ _. tt) _)
        λ _ t k _. gets-keeps AreWithin _ _ t (
          bind-keeps AreWithin (IsChoice notional) _ _ t
            (Chosen-AreWithin q.symbol notional _ (
              choose-Chosen q.symbol notional _ t k
                (All-select_all (IsCurrent t.canaries) _ t.canaries k.keyed)))
            (Chosen-OnOk q.symbol notional _ (
              choose-Chosen q.symbol notional _ t k
                (All-select_all (IsCurrent t.canaries) _ t.canaries k.keyed)))
            λ o u _ choice.
              bind-keeps AreWithin (λ _ _. Unit) _ _ u (reserved-AreWithin o u choice)
                (always-OnOk _ (λ _ _. tt) _) (λ _ _ k _. k))

  authorize_body-AreWithin :
      (now : ℕ) (o : Option Canary) (s : Store)
      → AreWithin s
      → AreWithin (authorize_body q notional now o s).1
  unfolding authorize_body pure
  authorize_body-AreWithin now none s h = authorize_new-AreWithin now s h
  authorize_body-AreWithin now (some c) s h = h

-- If the canaries of a store are within their limits, with counters that are what their rows of
-- live_canary_usage come to, then whatever is asked of them, and whether it is granted or refused, they are
-- so afterwards too.
pub authorize_live_canary-AreWithin :
    (q : CanaryRequest) (now : ℕ) (s : Store)
    → AreWithin s
    → AreWithin (authorize_live_canary q now s).1
unfolding authorize_live_canary pure
authorize_live_canary-AreWithin q now s h =
    or_raise-keeps AreWithin (notional_of q) canary_no_notional _ s h λ notional.
      bind-keeps AreWithin (λ _ _. Unit) _ _ s
        (transaction-keeps AreWithin _ s h (
          gets-keeps AreWithin _ _ s (
            authorize_body-AreWithin q notional now (canary_of_request q.client_request_id s) s h)))
        (always-OnOk _ (λ _ _. tt) _)
        λ o t k _. or_raise-keeps AreWithin o canary_none_left _ t k (λ _. k)
