-- ===== src/Core/Holdouts/Once.antt =====
-- shared/db.py: a hold-out is opened once.
use trading_cat.Base.{
  ℕ, ◌≤◌, String, ◌≡◌, ◌≢◌, sym, ◌∙◌, false, some, arith, Bool-cases, ◌&&◌, inl, inr,
}
use trading_cat.Base.Tables.{select_sound, select-update_first}
use trading_cat.Base.Action.{Result, ok, err, ◌>>=◌, modify, pure}
use mathlib.Core.Path.{subst}
use trading_cat.Base.Action.Outcome.{
  OnOk, bind-OnOk, gets-OnOk, or_raise-OnOk, immediate_transaction-OnOk,
}
use trading_cat.Core.{
  Core, CoreError, Holdout, HoldoutStatus, CoreEvent, holdout_opened, holdout_not_sealed,
}
use trading_cat.Core.Audits.{audit_core, write_core}
use trading_cat.Core.Holdouts.{
  has_holdout_id, get_research_holdout, update_holdout, open_row, Opening, open_found, open_body,
  Opened, open_research_holdout, is_sealed, is_consumed, is_candidate,
}
use trading_cat.Core.Holdouts.Forward.{stage, HoldoutReach, HoldoutReach-get_research_holdout}

-- The hold-out stands past SEALED.
abbrev WasOpened : String → Core → Type 0
WasOpened id t = (b : Holdout) × ((get_research_holdout id t ≡ some b) × (1 ≤ stage b.status))

abbrev IsFirst : Opening → Type 0
IsFirst o = o ≡ Opening.opened

module _ (id candidate : String) (now : ℕ) where
  first_row :
      (row : Holdout) (s : Core) (event : CoreEvent)
      → get_research_holdout id s ≡ some row
      → WasOpened id (audit_core event id (update_holdout id (open_row now) s)).1
  unfolding get_research_holdout update_holdout audit_core write_core modify
  first_row row s event e = (
    open_row now row,
    (
      select-update_first (has_holdout_id id) (open_row now) s.holdouts row e
          (select_sound (has_holdout_id id) s.holdouts row e),
      omega arith,
    ),
  )

  open_found-WasOpened :
      (row : Holdout) (s : Core)
      → get_research_holdout id s ≡ some row
      → OnOk (λ o t. IsFirst o → WasOpened id t) (open_found row id candidate now s)
  unfolding open_found ◌>>=◌ audit_core
  open_found-WasOpened row s e =
      elim (Bool-cases (is_sealed row.status && is_candidate row candidate)) [
        | inl first ↦ rw first (λ _. first_row row s holdout_opened e)
        | inr other ↦ elim (Bool-cases (is_consumed row.status && is_candidate row candidate)) [
          | inl again ↦ rw (other, again) (λ k. absurd (differ k))
          | inr not_again ↦ rw (other, not_again) (λ k. absurd (differ' k))
        ]
      ]
    where
      differ : Opening.cached ≡ Opening.opened → ⊥
      differ k = cc

      differ' : Opening.contaminated ≡ Opening.opened → ⊥
      differ' k = cc

  open_body-WasOpened :
      (s : Core) → OnOk (λ o t. IsFirst o → WasOpened id t) (open_body id candidate now s)
  unfolding open_body
  open_body-WasOpened s = gets-OnOk _ (get_research_holdout id) _ s (
      or_raise-OnOk _ (get_research_holdout id s) holdout_not_sealed _ s
        (λ row e. open_found-WasOpened row s e))

  open-WasOpened :
      (s : Core)
      → OnOk (λ o t. IsFirst o.outcome → WasOpened id t) (open_research_holdout id candidate now s)
  unfolding open_research_holdout pure
  open-WasOpened s =
      bind-OnOk _ (λ o t. IsFirst o → WasOpened id t) _ _ s
        (immediate_transaction-OnOk _ _ s (open_body-WasOpened s))
        λ o t h.
          gets-OnOk _ (get_research_holdout id) _ t
            (or_raise-OnOk _ (get_research_holdout id t) holdout_not_sealed _ t (λ _ _. h))

  -- Past SEALED no opening is the first.
  open_found-again :
      (row : Holdout) (s : Core)
      → 1 ≤ stage row.status
      → OnOk (λ o t. IsFirst o → ⊥) (open_found row id candidate now s)
  unfolding open_found ◌>>=◌ audit_core
  open_found-again row s late =
      elim (Bool-cases (is_consumed row.status && is_candidate row candidate)) [
        | inl again ↦ rw (past row.status late, again) (λ k. absurd (differ k))
        | inr not_again ↦ rw (past row.status late, not_again) (λ k. absurd (differ' k))
      ]
    where
      past : (t : HoldoutStatus) → 1 ≤ stage t → is_sealed t ≡ false
      past t k = ground arith

      differ : Opening.cached ≡ Opening.opened → ⊥
      differ k = cc

      differ' : Opening.contaminated ≡ Opening.opened → ⊥
      differ' k = cc

  open_body-again :
      (s : Core) → WasOpened id s → OnOk (λ o t. IsFirst o → ⊥) (open_body id candidate now s)
  unfolding open_body
  open_body-again s w = gets-OnOk _ (get_research_holdout id) _ s (
      or_raise-OnOk _ (get_research_holdout id s) holdout_not_sealed _ s
        (λ row e. open_found-again row s (same row e)))
    where
      some_injective : {a b : Holdout} → some a ≡ some b → a ≡ b
      some_injective k = cc

      same : (row : Holdout) → get_research_holdout id s ≡ some row → 1 ≤ stage row.status
      same row e = subst (λ r. 1 ≤ stage r.status) (some_injective (sym w.1.0 ∙ e)) w.1.1

  open-again :
      (s : Core)
      → WasOpened id s
      → OnOk (λ o t. IsFirst o.outcome → ⊥) (open_research_holdout id candidate now s)
  unfolding open_research_holdout pure
  open-again s w =
      bind-OnOk _ (λ o t. IsFirst o → ⊥) _ _ s
        (immediate_transaction-OnOk _ _ s (open_body-again s w))
        λ o t h.
          gets-OnOk _ (get_research_holdout id) _ t
            (or_raise-OnOk _ (get_research_holdout id t) holdout_not_sealed _ t (λ _ _. h))

WasOpened-later : (id : String) (s t : Core) → HoldoutReach s t → WasOpened id s → WasOpened id t
WasOpened-later id s t r w =
    let later = HoldoutReach-get_research_holdout id s t w.0 r w.1.0 in
    (later.0, (later.1.0, omega (arith, later.1.1.forward, w.1.1)))

-- Once an opening has returned OPENED, no later opening of that hold-out does, for any candidate and
-- whatever calls came between.
pub open_once :
    (id candidate next_candidate : String) (now later : ℕ) (s t : Core) (o p : Opened) (u : Core)
    → open_research_holdout id candidate now s ≡ (ok o, u)
    → o.outcome ≡ Opening.opened
    → HoldoutReach u t
    → (open_research_holdout id next_candidate later t).0 ≡ ok p
    → p.outcome ≢ Opening.opened
open_once id candidate next_candidate now later s t o p u e first r f =
    let w : WasOpened id u =
      subst (OnOk (λ o t. IsFirst o.outcome → WasOpened id t)) e (open-WasOpened id candidate now s)
        first in
    no_first (open_research_holdout id next_candidate later t) f
      (open-again id next_candidate later t (WasOpened-later id u t r w))
  where
    ok_injective : {a b : Opened} → ◌≡◌ {A = Result CoreError Opened} (ok a) (ok b) → a ≡ b
    ok_injective k = cc

    no_first :
        (r : Result CoreError Opened × Core)
        → r.0 ≡ ok p
        → OnOk (λ o t. IsFirst o.outcome → ⊥) r
        → p.outcome ≢ Opening.opened
    no_first (ok q, v) g h = subst (λ x. x.outcome ≢ Opening.opened) (ok_injective g) h
    no_first (err x, v) g h = cc
