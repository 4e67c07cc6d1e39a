-- ===== src/Store/CanaryLimits/Opening.antt =====
-- shared/db.py: `create_live_canary`, and any history of the methods on canaries.
use mathlib.Core.Path.{subst}
use trading_cat.Base.{
  Bool-cases, inl, inr, ap, absurd_of, str_eq, ℕ, String, ◌≡◌, ◌∙◌, sym, refl, Bool, true, false,
  ◌||◌, Option, none, some, List, [], ◌∷◌, ◌++◌, any, any-All, All, All-snoc, All-implies, arith,
  eq_iff,
}
use trading_cat.Base.Int.{ℤ, pos, ◌+ℤ◌, ◌≤ℤ◌, leb_ℤ, +ℤ_parts}
use trading_cat.Base.Action.Outcome.{raise_if-keeps, gets-keeps, modify-keeps, transaction-keeps}
use trading_cat.Base.Action.{immediate_transaction, modify}
use trading_cat.Models.{Side}
use trading_cat.Store.{Store, Canary, CanaryUsage, empty, Entity, live_canary_opened}
use trading_cat.Store.Canaries.{
  tolerance, has_canary_id, opened, create_live_canary, CanaryRequest, authorize_live_canary,
  close_live_canaries, close_expired_live_canaries, mark_system_readiness,
  close_live_canaries_locked,
}
use trading_cat.Store.CanaryLimits.{
  IsWithin, Agree, IsCurrent, IsCounted, IsKnown, uses, worth, AreWithin, audit-Closes,
  close_live_canaries_locked-Closes,
}
use trading_cat.Store.CanaryLimits.Choice.{authorize_live_canary-AreWithin}

self-Agree : (c : Canary) → Agree c c
self-Agree c = record {
  orders = λ same. refl;
  max_orders = λ same. refl;
  notional = λ same. refl;
  max_notional = λ same. refl;
}

apart : (c d : Canary) → (d.canary_id ≡ c.canary_id → ⊥) → Agree c d
apart c d no_way = record {
  orders = λ same. elim (no_way same) [ ];
  max_orders = λ same. elim (no_way same) [ ];
  notional = λ same. elim (no_way same) [ ];
  max_notional = λ same. elim (no_way same) [ ];
}

-- A new row whose id no row has.
module _ (c : Canary) (cs : List Canary) (fresh : any (has_canary_id c.canary_id) cs ≡ false) where
  differ : (d : Canary) → has_canary_id c.canary_id d ≡ false → d.canary_id ≡ c.canary_id → ⊥
  differ d miss same = true_false (sym ((eq_iff d.canary_id c.canary_id).1 same) ∙ miss)
    where
      true_false : true ≡ false → ⊥
      true_false x = cc

  any-snoc : (p : Canary → Bool) (ds : List Canary) → any p ds ≡ true → any p (ds ++ c ∷ []) ≡ true
  any-snoc p [] h = cc
  any-snoc p (d ∷ ds) h = elim (Bool-cases (p d)) [
    | inl hit ↦ rw hit refl
    | inr miss ↦ rw miss (any-snoc p ds (or_right (p d) (any p ds) miss h))
  ]
    where
      or_right : (a b : Bool) → a ≡ false → (a || b) ≡ true → b ≡ true
      or_right a b x y = ground (arith, x, y)

  any-last : (p : Canary → Bool) (ds : List Canary) → p c ≡ true → any p (ds ++ c ∷ []) ≡ true
  any-last p [] h = rw h refl
  any-last p (d ∷ ds) h = elim (Bool-cases (p d)) [
    | inl hit ↦ rw hit refl
    | inr miss ↦ rw miss (any-last p ds h)
  ]

  new-IsCurrent : IsCurrent (cs ++ c ∷ []) c
  new-IsCurrent = (
    All-snoc (Agree c) cs c
        (All-implies _ (Agree c) cs (λ d miss. apart c d (differ d miss)) (any-All _ cs fresh))
        (self-Agree c),
    any-last (has_canary_id c.canary_id) cs ((eq_iff c.canary_id c.canary_id).1 refl),
  )

  snoc-IsCurrent :
      (d : Canary)
      → IsCurrent cs d
      → has_canary_id c.canary_id d ≡ false
      → IsCurrent (cs ++ c ∷ []) d
  snoc-IsCurrent d h miss = (
    All-snoc (Agree d) cs c h.0 (apart d c (λ same. differ d miss (sym same))),
    any-snoc (has_canary_id d.canary_id) cs h.1,
  )

  olds-IsCurrent :
      (ds : List Canary)
      → All (IsCurrent cs) ds
      → All (λ d. has_canary_id c.canary_id d ≡ false) ds
      → All (IsCurrent (cs ++ c ∷ [])) ds
  olds-IsCurrent [] h k = tt
  olds-IsCurrent (d ∷ ds) h k = (snoc-IsCurrent d h.0 k.0, olds-IsCurrent ds h.1 k.1)

  olds-IsKnown : (us : List CanaryUsage) → All (IsKnown cs) us → All (IsKnown (cs ++ c ∷ [])) us
  olds-IsKnown [] h = tt
  olds-IsKnown (u ∷ us) h = (any-snoc (has_canary_id u.canary_id) cs h.0, olds-IsKnown us h.1)

  -- No row of usage is of the new id.
  foreign : (u : CanaryUsage) → IsKnown cs u → str_eq u.canary_id c.canary_id ≡ false
  foreign u h = elim (Bool-cases (str_eq u.canary_id c.canary_id)) [
    | inl hit ↦ absurd_of (
        sym (
          sym h
          ∙ (ap (λ i. any (has_canary_id i) cs) ((eq_iff u.canary_id c.canary_id).0 hit) ∙ fresh)))
    | inr miss ↦ miss
  ]

  unused :
      (us : List CanaryUsage)
      → All (IsKnown cs) us
      → (uses c.canary_id us ≡ 0) × (worth c.canary_id us ≡ pos 0)
  unused [] h = (refl, refl)
  unused (u ∷ us) h = rw (foreign u h.0) (unused us h.1)

  snoc-AreWithin :
      (s : Store)
      → AreWithin s
      → s.canaries ≡ cs
      → IsWithin c
      → c.used_orders ≡ 0
      → c.used_notional ≡ pos 0
      → AreWithin (record s { canaries = cs ++ c ∷ [] })
  snoc-AreWithin s h e k orders notional = record {
    within = All-snoc IsWithin cs c (subst (All IsWithin) e h.within) k;
    counted =
        All-snoc (IsCounted s.canary_usage) cs c
          (subst (All (IsCounted s.canary_usage)) e h.counted)
          (record {
            orders = orders ∙ sym (unused s.canary_usage known_before).0;
            notional = notional ∙ sym (unused s.canary_usage known_before).1;
          });
    known = olds-IsKnown s.canary_usage known_before;
    keyed =
        All-snoc (IsCurrent (cs ++ c ∷ [])) cs c
          (olds-IsCurrent cs (subst (λ x. All (IsCurrent x) x) e h.keyed) (any-All _ cs fresh))
          new-IsCurrent;
  }
    where
      known_before : All (IsKnown cs) s.canary_usage
      known_before = subst (λ x. All (IsKnown x) s.canary_usage) e h.known

opened-IsWithin :
    (cid account : String) (symbols : List String) (side : Side) (max_notional : ℤ)
    (max_orders expires_at : ℕ)
    → leb_ℤ max_notional (pos 0) ≡ false
    → IsWithin (opened cid account symbols side max_notional max_orders expires_at)
opened-IsWithin cid account symbols side max_notional max_orders expires_at h = record {
  orders = omega arith;
  notional = room;
}
  where
    positive : (q : ℤ) → leb_ℤ q (pos 0) ≡ false → pos 0 ≤ℤ q
    positive q k = ground arith

    room : pos 0 ≤ℤ max_notional +ℤ tolerance
    room = omega (arith, +ℤ_parts max_notional tolerance, positive max_notional h)

first_of : (a b : Bool) → (a || b) ≡ false → a ≡ false
first_of a b h = ground arith

create_live_canary-AreWithin :
    (cid account : String) (symbols : List String) (side : Side) (max_notional : ℤ)
    (max_orders expires_at now : ℕ) (s : Store)
    → AreWithin s
    → AreWithin
        (create_live_canary cid account symbols side max_notional max_orders expires_at now s).1
unfolding create_live_canary
create_live_canary-AreWithin cid account symbols side max_notional max_orders expires_at now s h =
    gets-keeps AreWithin _ _ s (
      raise_if-keeps AreWithin _ _ _ s h λ ready. raise_if-keeps AreWithin _ _ _ s h λ scoped.
        raise_if-keeps AreWithin _ _ _ s h λ bounded. gets-keeps AreWithin _ _ s (
          raise_if-keeps AreWithin _ _ _ s h λ fresh. modify-keeps AreWithin _ _ s (
            ((audit-Closes live_canary_opened (Entity.live_canary cid)).at _).limits (
              snoc-AreWithin (opened cid account symbols side max_notional max_orders expires_at)
                s.canaries fresh s h refl
                (opened-IsWithin cid account symbols side max_notional max_orders expires_at
                  (first_of _ _ bounded))
                refl refl))))

-- One call of a method on canaries, whether it returns or raises.
pub data CanaryStep (s : Store) : Store → Type 0 where
  marks : (passed : Bool) → CanaryStep s (mark_system_readiness passed s).1
  opens :
      (cid account : String) (symbols : List String) (side : Side) (max_notional : ℤ)
      (max_orders expires_at now : ℕ)
      → CanaryStep s
          (create_live_canary cid account symbols side max_notional max_orders expires_at now s).1
  authorizes : (q : CanaryRequest) (now : ℕ) → CanaryStep s (authorize_live_canary q now s).1
  closes :
      (reason : String) (account : Option String)
      → CanaryStep s (close_live_canaries reason account s).1
  expires :
      (account : Option String) (now : ℕ)
      → CanaryStep s (close_expired_live_canaries account now s).1

-- From a store without rows.
pub data CanaryHistory : Store → Type 0 where
  start : CanaryHistory empty
  next : {s t : Store} → CanaryHistory s → CanaryStep s t → CanaryHistory t

closed-AreWithin :
    (reason : String) (account : Option String) (cutoff : Option ℕ) (s : Store)
    → AreWithin s
    → AreWithin (immediate_transaction (close_live_canaries_locked reason account none cutoff) s).1
closed-AreWithin reason account cutoff s h =
    transaction-keeps AreWithin _ s h
      (((close_live_canaries_locked-Closes reason account none cutoff).at s).limits h)

marked-AreWithin :
    (passed : Bool) (s : Store) → AreWithin s → AreWithin (mark_system_readiness passed s).1
unfolding mark_system_readiness modify
marked-AreWithin passed s h = record {
  within = h.within;
  counted = h.counted;
  known = h.known;
  keyed = h.keyed;
}

CanaryStep-AreWithin : (s t : Store) → CanaryStep s t → AreWithin s → AreWithin t
unfolding close_live_canaries close_expired_live_canaries
CanaryStep-AreWithin s t (CanaryStep.marks passed) h = marked-AreWithin passed s h
CanaryStep-AreWithin s t
      (CanaryStep.opens cid account symbols side max_notional max_orders expires_at now) h =
    create_live_canary-AreWithin cid account symbols side max_notional max_orders expires_at now s h
CanaryStep-AreWithin s t (CanaryStep.authorizes q now) h = authorize_live_canary-AreWithin q now s h
CanaryStep-AreWithin s t (CanaryStep.closes reason account) h =
    closed-AreWithin reason account none s h
CanaryStep-AreWithin s t (CanaryStep.expires account now) h =
    closed-AreWithin "canary_expired" account (some now) s h

-- However canaries are opened, used and closed from an empty store on, and whatever fails on the way: each
-- row of live_canary_usage is of a canary that exists, the counters of a canary are the number of its rows
-- there and their notional amounts together, and neither is beyond the canary's limits (the notional amount,
-- up to the tolerance).
pub CanaryHistory-AreWithin : (s : Store) → CanaryHistory s → AreWithin s
CanaryHistory-AreWithin s CanaryHistory.start = record {
  within = tt;
  counted = tt;
  known = tt;
  keyed = tt;
}
CanaryHistory-AreWithin t (CanaryHistory.next {s = s} h k) =
    CanaryStep-AreWithin s t k (CanaryHistory-AreWithin s h)
