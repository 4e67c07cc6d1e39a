-- ===== src/Store/CanaryLimits/Spending.antt =====
-- shared/db.py: an order taken from a canary that is not refused keeps the limits.
use trading_cat.Base.{
  ℕ, suc, ◌≤◌, String, ◌≡◌, refl, sym, ap, ◌∙◌, Bool, true, false, ◌||◌, none, some, List, [], ◌∷◌,
  ◌++◌, absurd_of, any, All-snoc, arith, All, str_eq, eq_iff, Bool-cases, inl, inr, if◌then◌else◌,
  ltb,
}
use trading_cat.Base.Int.{ℤ, ◌+ℤ◌, ◌≤ℤ◌, ltb_ℤ→≤ℤ}
use trading_cat.Base.Tables.{select, update}
use trading_cat.Base.Action.{◌>>=◌, ◌>>◌, gets}
use trading_cat.Base.Action.Relates.{Relates}
use trading_cat.Base.Action.Outcome.{gets-keeps, raise_if-keeps}
use trading_cat.Store.{Store, Canary, CanaryUsage, Entity, live_canary_authorized}
use trading_cat.Store.AuditLog.{audit}
use trading_cat.Store.Canaries.{
  tolerance, has_canary_id, update_canaries, refusal, orders_spent, notional_spent, spend,
  CanaryRequest, add_usage, close_if_spent, reserve, reserve_row,
}
use trading_cat.Store.CanaryLimits.{
  IsWithin, Agree, IsCurrent, IsCounted, IsKnown, worth, AreWithin, All-update, All-known,
  any-update, Closes, closing_rules, close_if_spent-Closes,
}
use trading_cat.Store.CanaryLimits.Usage.{uses-hit, uses-miss, worth-hit, worth-miss}

last_test :
    (a b c : Bool) (x y z : String)
    → (if a then some x else if b then some y else if c then some z else none) ≡ none
    → (b ≡ false) × (c ≡ false)
last_test a b c x y z h = ground arith

-- A row that is not refused has room for one more order of the amount.
room :
    (c : Canary) (notional : ℤ)
    → refusal c notional ≡ none
    → (suc c.used_orders ≤ c.max_orders)
      × (c.used_notional +ℤ notional ≤ℤ c.max_notional +ℤ tolerance)
room c notional h =
    let t = last_test (orders_spent c || notional_spent c) _ _ _ _ _ h in
    (
      fits c.max_orders (suc c.used_orders) t.0,
      ltb_ℤ→≤ℤ (c.max_notional +ℤ tolerance) (c.used_notional +ℤ notional) t.1,
    )
  where
    fits : (m n : ℕ) → ltb m n ≡ false → n ≤ m
    fits m n k = ground arith

module _ (k : String) (notional : ℤ) where
  abbrev spent : Canary → Canary
  spent c = if has_canary_id k c then spend notional c else c

  spent-id : (c : Canary) → (spent c).canary_id ≡ c.canary_id
  spent-id c = elim (Bool-cases (has_canary_id k c)) [
    | inl hit ↦ rw hit refl
    | inr miss ↦ rw miss refl
  ]

  both_spent : (c r : Canary) → Agree c r → Agree (spend notional c) (spend notional r)
  both_spent c r h = record {
    orders = λ same. ap suc (h.orders same);
    max_orders = h.max_orders;
    notional = λ same. ap (λ x. x +ℤ notional) (h.notional same);
    max_notional = h.max_notional;
  }

  apart :
      (c d r q : Canary)
      → (r.canary_id ≡ c.canary_id → ⊥)
      → q.canary_id ≡ r.canary_id
      → d.canary_id ≡ c.canary_id
      → Agree d q
  apart c d r q no_way e f = record {
    orders = λ same. elim (no_way (sym e ∙ same ∙ f)) [ ];
    max_orders = λ same. elim (no_way (sym e ∙ same ∙ f)) [ ];
    notional = λ same. elim (no_way (sym e ∙ same ∙ f)) [ ];
    max_notional = λ same. elim (no_way (sym e ∙ same ∙ f)) [ ];
  }

  differ :
      (c r : Canary)
      → has_canary_id k c ≡ true
      → has_canary_id k r ≡ false
      → r.canary_id ≡ c.canary_id
      → ⊥
  differ c r hit miss same = true_false (sym hit ∙ sym (ap (λ x. str_eq x k) same) ∙ miss)
    where
      true_false : true ≡ false → ⊥
      true_false x = cc

  spent-both : (c r : Canary) → Agree c r → Agree (spent c) (spent r)
  spent-both c r h = elim (Bool-cases (has_canary_id k c)) [
    | inl c_hit ↦ elim (Bool-cases (has_canary_id k r)) [
      | inl r_hit ↦ rw (c_hit, r_hit) (both_spent c r h)
      | inr r_miss ↦
          rw (c_hit, r_miss) (apart c (spend notional c) r r (differ c r c_hit r_miss) refl refl)
    ]
    | inr c_miss ↦ elim (Bool-cases (has_canary_id k r)) [
      | inl r_hit ↦
          rw (c_miss, r_hit)
            (apart c c r (spend notional r) (λ same. differ r c r_hit c_miss (sym same)) refl refl)
      | inr r_miss ↦ rw (c_miss, r_miss) h
    ]
  ]

-- One order more on the rows of a canary that has room.
module _ (c : Canary) (notional : ℤ) (fits : refusal c notional ≡ none) where
  spent-IsWithin : (r : Canary) → IsWithin r × Agree c r → IsWithin (spent c.canary_id notional r)
  spent-IsWithin r h = elim (Bool-cases (has_canary_id c.canary_id r)) [
    | inl hit ↦
        let same = (eq_iff r.canary_id c.canary_id).0 hit in
        let space = room c notional fits in
        rw hit (record {
          orders = omega (arith, space.0, h.1.orders same, h.1.max_orders same);
          notional = rw (h.1.notional same, h.1.max_notional same) space.1;
        })
    | inr miss ↦ rw miss h.0
  ]

  zipped :
      (cs : List Canary) → All IsWithin cs → All (Agree c) cs → All (λ r. IsWithin r × Agree c r) cs
  zipped [] h k = tt
  zipped (r ∷ rs) h k = ((h.0, k.0), zipped rs h.1 k.1)

  -- The row of usage that goes with the order.
  module _ (u : CanaryUsage) (own : u.canary_id ≡ c.canary_id) (same : u.notional ≡ notional) where
    spent-IsCounted :
        (us : List CanaryUsage) (r : Canary)
        → IsCounted us r
        → IsCounted (us ++ u ∷ []) (spent c.canary_id notional r)
    spent-IsCounted us r h = elim (Bool-cases (has_canary_id c.canary_id r)) [
      | inl hit ↦
          let is : str_eq u.canary_id r.canary_id ≡ true =
            (eq_iff u.canary_id r.canary_id).1
              (own ∙ sym ((eq_iff r.canary_id c.canary_id).0 hit)) in
          rw hit (record {
            orders = ap suc h.orders ∙ sym (uses-hit r.canary_id us u is);
            notional =
                ap (λ x. x +ℤ notional) h.notional
                ∙ ap (λ x. worth r.canary_id us +ℤ x) (sym same)
                ∙ sym (worth-hit r.canary_id us u is);
          })
      | inr miss ↦
          let is_not : str_eq u.canary_id r.canary_id ≡ false = other r miss in
          rw miss (record {
            orders = h.orders ∙ sym (uses-miss r.canary_id us u is_not);
            notional = h.notional ∙ sym (worth-miss r.canary_id us u is_not);
          })
    ]
      where
        other :
            (r : Canary)
            → has_canary_id c.canary_id r ≡ false
            → str_eq u.canary_id r.canary_id ≡ false
        other r miss = elim (Bool-cases (str_eq u.canary_id r.canary_id)) [
          | inl hit ↦ absurd_of (
              sym miss
              ∙ (eq_iff r.canary_id c.canary_id).1
                  (sym ((eq_iff u.canary_id r.canary_id).0 hit) ∙ own))
          | inr apart_ids ↦ apart_ids
        ]

    spent-AreWithin :
        (s : Store)
        → AreWithin s
        → IsCurrent s.canaries c
        → AreWithin (update_canaries (has_canary_id c.canary_id) (spend notional) (add_usage u s))
    unfolding update_canaries add_usage
    spent-AreWithin s h k = record {
      within =
          All-update (λ r. IsWithin r × Agree c r) IsWithin (has_canary_id c.canary_id)
            (spend notional) s.canaries spent-IsWithin (zipped s.canaries h.within k.0);
      counted =
          All-update (IsCounted s.canary_usage) (IsCounted (s.canary_usage ++ u ∷ []))
            (has_canary_id c.canary_id) (spend notional) s.canaries (spent-IsCounted s.canary_usage)
            h.counted;
      known =
          All-known (has_canary_id c.canary_id) (spend notional) s.canaries
            (s.canary_usage ++ u ∷ []) (λ _. refl)
            (All-snoc (IsKnown s.canaries) s.canary_usage u h.known
              (ap (λ i. any (has_canary_id i) s.canaries) own ∙ k.1));
      keyed =
          All-update (IsCurrent s.canaries)
            (IsCurrent (update (has_canary_id c.canary_id) (spend notional) s.canaries))
            (has_canary_id c.canary_id) (spend notional) s.canaries
            (λ d j. (
              All-update (Agree d) (Agree (spent c.canary_id notional d))
                  (has_canary_id c.canary_id) (spend notional) s.canaries
                  (spent-both c.canary_id notional d) j.0,
              ap
                    (λ i.
                      any (has_canary_id i)
                        (update (has_canary_id c.canary_id) (spend notional) s.canaries))
                    (spent-id c.canary_id notional d)
                  ∙ any-update d.canary_id (has_canary_id c.canary_id) (spend notional) s.canaries
                      (λ _. refl)
                  ∙ j.1,
            ))
            h.keyed;
    }

  -- The end of a reservation only closes.
  reserve_end-Closes :
      (q : CanaryRequest)
      → Relates Closes (do
        updated ← gets (λ s. select (has_canary_id c.canary_id) s.canaries)
        close_if_spent updated
        audit live_canary_authorized (Entity.plan q.plan_id))
  reserve_end-Closes q = search (closing_rules, close_if_spent-Closes) depth 20

  reserve_row-AreWithin :
      (q : CanaryRequest) (s : Store)
      → AreWithin s
      → IsCurrent s.canaries c
      → AreWithin (reserve_row c q notional s).1
  unfolding reserve_row ◌>>=◌
  reserve_row-AreWithin q s h k =
      ((reserve_end-Closes q).at _).limits (spent-AreWithin _ refl refl s h k)

  pub reserve-AreWithin :
      (q : CanaryRequest) (s : Store)
      → AreWithin s
      → IsCurrent s.canaries c
      → AreWithin (reserve (some c) q notional s).1
  unfolding reserve
  reserve-AreWithin q s h k =
      gets-keeps AreWithin _ _ s
        (raise_if-keeps AreWithin _ _ _ s h (λ fresh. reserve_row-AreWithin q s h k))
