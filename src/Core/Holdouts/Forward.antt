-- ===== src/Core/Holdouts/Forward.antt =====
-- shared/db.py: a hold-out only moves forward, and its result never changes.
use trading_cat.Base.{
  ℕ, ◌≤◌, String, ◌≡◌, refl, ap, ◌∙◌, Bool, true, false, Option, none, some, arith, str_eq,
  Bool-cases, Option-cases, ◌&&◌, if◌then◌else◌, inl, inr,
}
use trading_cat.Base.Tables.{
  Grows, Grows-refl, Grows-trans, Grows-append, Grows-update_first, Grows-select,
}
use trading_cat.Base.Action.{◌>>=◌, ◌>>◌, modify, pure}
use trading_cat.Base.Action.Relates.{Relates, Relates-modify, IsPreorder, relates_rules, bind_at}
use trading_cat.Core.{
  Core, Holdout, HoldoutStatus, CoreEvent, holdout_contaminated, holdout_consumed,
}
use trading_cat.Core.Audits.{audit_core, write_core}
use trading_cat.Core.Holdouts.{
  has_holdout_id, get_research_holdout, update_holdout, add_holdout, contaminate, open_row,
  expose_row, consume_row, Sealing, seal_row, seal_body, seal_research_holdout, Opening, open_found,
  open_body, open_research_holdout, consume_body, consume_research_holdout, is_sealed, is_opened,
  is_consumed, is_candidate, not_open,
}

-- SEALED, OPENED, CONSUMED, CONTAMINATED, in the order in which a hold-out goes through them.
abbrev pub stage : HoldoutStatus → ℕ
stage HoldoutStatus.sealed = 0
stage HoldoutStatus.opened = 1
stage HoldoutStatus.consumed = 2
stage HoldoutStatus.contaminated = 3

pub record IsLaterHoldout (a b : Holdout) : Type 0 where
  pub same_id : b.holdout_id ≡ a.holdout_id
  pub same_candidate : b.candidate_version_hash ≡ a.candidate_version_hash
  pub forward : stage a.status ≤ stage b.status
  pub more_exposed : a.exposure_count ≤ b.exposure_count
  pub result_stays : 2 ≤ stage a.status → b.result_json ≡ a.result_json

IsLaterHoldout-self : (a : Holdout) → IsLaterHoldout a a
IsLaterHoldout-self a = ground arith

IsLaterHoldout-trans :
    (a b c : Holdout) → IsLaterHoldout a b → IsLaterHoldout b c → IsLaterHoldout a c
IsLaterHoldout-trans a b c h k = record {
  same_id = k.same_id ∙ h.same_id;
  same_candidate = k.same_candidate ∙ h.same_candidate;
  forward = omega (arith, h.forward, k.forward);
  more_exposed = omega (arith, h.more_exposed, k.more_exposed);
  result_stays = λ late. k.result_stays (omega (arith, h.forward)) ∙ h.result_stays late;
}

pub record Advances (s t : Core) : Type 0 where
  pub holdouts : Grows IsLaterHoldout s.holdouts t.holdouts

Advances-IsPreorder : IsPreorder Advances
Advances-IsPreorder = record {
  self = λ s. record { holdouts = Grows-refl IsLaterHoldout IsLaterHoldout-self s.holdouts };
  chain = λ s t u h k. record {
    holdouts =
        Grows-trans IsLaterHoldout IsLaterHoldout-trans s.holdouts t.holdouts u.holdouts h.holdouts
          k.holdouts;
  };
}

audit_core-Advances : (event : CoreEvent) (id : String) → Relates Advances (audit_core event id)
unfolding audit_core write_core
audit_core-Advances event id =
    Relates-modify _
      (λ s. record { holdouts = Grows-refl IsLaterHoldout IsLaterHoldout-self s.holdouts })

add_holdout-Advances : (h : Holdout) (s : Core) → Advances s (add_holdout h s)
unfolding add_holdout
add_holdout-Advances h s = record {
  holdouts = Grows-append IsLaterHoldout IsLaterHoldout-self s.holdouts _;
}

-- A change of the row that the id finds.
updated-Advances :
    (id : String) (f : Holdout → Holdout) (s : Core)
    → ((a : Holdout) → get_research_holdout id s ≡ some a → IsLaterHoldout a (f a))
    → Advances s (update_holdout id f s)
unfolding update_holdout get_research_holdout
updated-Advances id f s h = record {
  holdouts =
      Grows-update_first IsLaterHoldout IsLaterHoldout-self (has_holdout_id id) f s.holdouts h;
}

stage-le-last : (t : HoldoutStatus) → stage t ≤ 3
stage-le-last t = ground arith

contaminate-IsLaterHoldout : (a : Holdout) → IsLaterHoldout a (contaminate a)
contaminate-IsLaterHoldout a = record {
  same_id = refl;
  same_candidate = refl;
  forward = stage-le-last a.status;
  more_exposed = omega arith;
  result_stays = λ late. refl;
}

expose_row-IsLaterHoldout : (a : Holdout) → IsLaterHoldout a (expose_row a)
expose_row-IsLaterHoldout a = record {
  same_id = refl;
  same_candidate = refl;
  forward = stage-le-last a.status;
  more_exposed = omega arith;
  result_stays = λ late. refl;
}

sealed_stage : (t : HoldoutStatus) → is_sealed t ≡ true → stage t ≡ 0
sealed_stage t h = ground arith

opened_stage : (t : HoldoutStatus) → is_opened t ≡ true → stage t ≡ 1
opened_stage t h = ground arith

open_row-IsLaterHoldout :
    (now : ℕ) (a : Holdout) → is_sealed a.status ≡ true → IsLaterHoldout a (open_row now a)
open_row-IsLaterHoldout now a h = record {
  same_id = refl;
  same_candidate = refl;
  forward = omega (arith, sealed_stage a.status h);
  more_exposed = omega arith;
  result_stays = λ late. refl;
}

consume_row-IsLaterHoldout :
    (result : String) (a : Holdout)
    → is_opened a.status ≡ true
    → IsLaterHoldout a (consume_row result a)
consume_row-IsLaterHoldout result a h = record {
  same_id = refl;
  same_candidate = refl;
  forward = omega (arith, opened_stage a.status h);
  more_exposed = omega arith;
  result_stays = λ late. absurd (omega (arith, opened_stage a.status h));
}

ruleset rules = (Advances-IsPreorder, relates_rules, audit_core-Advances, add_holdout-Advances)

contaminated-Advances : (id : String) (s : Core) → Advances s (update_holdout id contaminate s)
contaminated-Advances id s = updated-Advances id contaminate s (λ a e. contaminate-IsLaterHoldout a)

exposed-Advances : (id : String) (s : Core) → Advances s (update_holdout id expose_row s)
exposed-Advances id s = updated-Advances id expose_row s (λ a e. expose_row-IsLaterHoldout a)

seal_row-Advances : (o : Option Holdout) (q : Sealing) → Relates Advances (seal_row o q)
unfolding seal_row
seal_row-Advances none q = search rules depth 20
seal_row-Advances (some row) q = search (rules, contaminated-Advances) depth 20

pub seal_research_holdout-Advances : (q : Sealing) → Relates Advances (seal_research_holdout q)
unfolding seal_research_holdout seal_body
seal_research_holdout-Advances q = search (rules, seal_row-Advances) depth 20

module _ (id candidate : String) (now : ℕ) where
  -- What is written once the row is found.
  opened_at :
      (row : Holdout) (s : Core)
      → get_research_holdout id s ≡ some row
      → is_sealed row.status ≡ true
      → Advances s (update_holdout id (open_row now) s)
  opened_at row s e h =
      updated-Advances id (open_row now) s (λ a f. open_row-IsLaterHoldout now a (same a f))
    where
      same : (a : Holdout) → get_research_holdout id s ≡ some a → is_sealed a.status ≡ true
      same a f = cc

  open_found-Advances :
      (row : Holdout) (s : Core)
      → get_research_holdout id s ≡ some row
      → Advances s (open_found row id candidate now s).1
  unfolding open_found modify
  open_found-Advances row s e =
      elim (Bool-cases (is_sealed row.status && is_candidate row candidate)) [
        | inl first ↦ rw first (
            bind_at Advances-IsPreorder s (modify (update_holdout id (open_row now))) _
              (opened_at row s e (both_true _ _ first)) (λ _. search rules))
        | inr other ↦ rw other (rest.at s)
      ]
    where
      both_true : (a b : Bool) → (a && b) ≡ true → a ≡ true
      both_true a b h = ground arith

      rest : Relates Advances (
          if is_consumed row.status && is_candidate row candidate then pure Opening.cached else (do
            modify (update_holdout id expose_row)
            audit_core holdout_contaminated id
            pure Opening.contaminated))
      rest = search (rules, exposed-Advances) depth 20

  open_body-Advances : Relates Advances (open_body id candidate now)
  unfolding open_body ◌>>=◌
  open_body-Advances = record {
    at = λ s. elim (Option-cases (get_research_holdout id s)) [
      | inl missing ↦ rw missing (Advances-IsPreorder.self s)
      | inr found ↦ rw found.1 (open_found-Advances found.0 s found.1)
    ];
  }

  pub open_research_holdout-Advances : Relates Advances (open_research_holdout id candidate now)
  unfolding open_research_holdout
  open_research_holdout-Advances = search (rules, open_body-Advances) depth 20

module _ (id candidate result : String) where
  consumed_at :
      (s : Core)
      → not_open (get_research_holdout id s) candidate ≡ false
      → Advances s (update_holdout id (consume_row result) s)
  consumed_at s h =
      updated-Advances id (consume_row result) s
        (λ a e. consume_row-IsLaterHoldout result a (open_of a (get_research_holdout id s) e h))
    where
      open_of :
          (a : Holdout) (o : Option Holdout)
          → o ≡ some a
          → not_open o candidate ≡ false
          → is_opened a.status ≡ true
      open_of a none e k = cc
      open_of a (some b) e k = ground arith

  consume_body-Advances : Relates Advances (consume_body id candidate result)
  unfolding consume_body ◌>>=◌ modify
  consume_body-Advances = record {
    at = λ s. elim (Bool-cases (not_open (get_research_holdout id s) candidate)) [
      | inl shut ↦ rw shut (Advances-IsPreorder.self s)
      | inr free ↦ rw free (
          Advances-IsPreorder.chain s _ _ (consumed_at s free)
            ((audit_core-Advances holdout_consumed id).at _))
    ];
  }

  pub consume_research_holdout-Advances :
      Relates Advances (consume_research_holdout id candidate result)
  unfolding consume_research_holdout
  consume_research_holdout-Advances = search (rules, consume_body-Advances) depth 20

-- One call on the hold-outs, whether it returns or raises.
pub data HoldoutStep (s : Core) : Core → Type 0 where
  seals : (q : Sealing) → HoldoutStep s (seal_research_holdout q s).1
  opens :
      (id candidate : String) (now : ℕ) → HoldoutStep s (open_research_holdout id candidate now s).1
  consumes :
      (id candidate result : String)
      → HoldoutStep s (consume_research_holdout id candidate result s).1

pub data HoldoutReach (s : Core) : Core → Type 0 where
  here : HoldoutReach s s
  after : {t u : Core} → HoldoutReach s t → HoldoutStep t u → HoldoutReach s u

HoldoutStep-Advances : (s t : Core) → HoldoutStep s t → Advances s t
HoldoutStep-Advances s t (HoldoutStep.seals q) = (seal_research_holdout-Advances q).at s
HoldoutStep-Advances s t (HoldoutStep.opens id candidate now) =
    (open_research_holdout-Advances id candidate now).at s
HoldoutStep-Advances s t (HoldoutStep.consumes id candidate result) =
    (consume_research_holdout-Advances id candidate result).at s

HoldoutReach-Advances : (s t : Core) → HoldoutReach s t → Advances s t
HoldoutReach-Advances s t HoldoutReach.here = Advances-IsPreorder.self s
HoldoutReach-Advances s t (HoldoutReach.after {t = u} r h) =
    Advances-IsPreorder.chain s u t (HoldoutReach-Advances s u r) (HoldoutStep-Advances u t h)

-- A hold-out that was sealed is never lost, whatever calls follow: it keeps its candidate, goes only
-- forward through SEALED, OPENED, CONSUMED and CONTAMINATED, is never less exposed, and once it is
-- CONSUMED its result never changes.
pub HoldoutReach-get_research_holdout :
    (id : String) (s t : Core) (a : Holdout)
    → HoldoutReach s t
    → get_research_holdout id s ≡ some a
    → (b : Holdout) × ((get_research_holdout id t ≡ some b) × IsLaterHoldout a b)
unfolding get_research_holdout
HoldoutReach-get_research_holdout id s t a r e =
    Grows-select (has_holdout_id id) IsLaterHoldout (λ x y h. ap (λ n. str_eq n id) h.same_id)
      s.holdouts t.holdouts a ((HoldoutReach-Advances s t r).holdouts) e
