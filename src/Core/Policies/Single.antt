-- ===== src/Core/Policies/Single.antt =====
-- shared/db.py: an account has one policy in force.
use mathlib.Core.Path.{subst}
use trading_cat.Base.{
  ℕ, suc, ◌+◌, ◌≤◌, String, ◌≡◌, refl, ap, Bool, true, false, ◌&&◌, Option, none, some, List, [],
  ◌∷◌, ◌++◌, arith, str_eq, eq_iff, if◌then◌else◌, Bool-cases, inl, inr, and_left,
}
use trading_cat.Base.Action.{◌>>=◌, pure}
use trading_cat.Base.Tables.{update, count}
use trading_cat.Core.{Core, Policy, empty_core}
use trading_cat.Core.Policies.{
  Sha256, is_active_of, supersede, new_policy, replace_policy, save_if_new, save_investor_policy,
  active_or_default, get_active_investor_policy,
}

-- No account has two active policies.
abbrev pub AreSingle : List Policy → Type 0
AreSingle ps = (account : String) → count (is_active_of account) ps ≤ 1

module _ (account : String) where
  -- After the update the account has no active policy, and others have what they had.
  superseded_own :
      (ps : List Policy)
      → count (is_active_of account) (update (is_active_of account) supersede ps) ≡ 0
  superseded_own [] = refl
  superseded_own (p ∷ ps) = rw off (superseded_own ps)
    where
      off : is_active_of account (if is_active_of account p then supersede p else p) ≡ false
      off = elim (Bool-cases (is_active_of account p)) [
        | inl here ↦ rw here (never (str_eq p.account_id account))
        | inr miss ↦ rw (miss, miss) refl
      ]
        where
          never : (b : Bool) → b && false ≡ false
          never true = refl
          never false = refl

  superseded_other :
      (other : String)
      → str_eq account other ≡ false
      → (ps : List Policy)
      → count (is_active_of other) (update (is_active_of account) supersede ps)
        ≡ count (is_active_of other) ps
  superseded_other other apart [] = refl
  superseded_other other apart (p ∷ ps) =
      rw kept
        (ap (λ n. if is_active_of other p then suc n else n) (superseded_other other apart ps))
    where
      foreign : is_active_of account p ≡ true → str_eq p.account_id other ≡ false
      foreign here = rw ((eq_iff p.account_id account).0 (and_left _ _ here)) apart

      kept :
          is_active_of other (if is_active_of account p then supersede p else p)
          ≡ is_active_of other p
      kept = elim (Bool-cases (is_active_of account p)) [
        | inl here ↦ rw (here, foreign here) refl
        | inr miss ↦ rw miss refl
      ]

  count_snoc :
      (f : Policy → Bool) (ps : List Policy) (p : Policy)
      → count f (ps ++ p ∷ []) ≡ count f ps + (if f p then 1 else 0)
  count_snoc f [] p = omega arith
  count_snoc f (x ∷ xs) p = elim (Bool-cases (f x)) [
    | inl here ↦ rw here (omega (arith, count_snoc f xs p))
    | inr miss ↦ rw miss (count_snoc f xs p)
  ]

  at_most_one : (b : Bool) → (if b then 1 else 0) ≤ 1
  at_most_one true = omega arith
  at_most_one false = omega arith

  own_single :
      (other : String) (ps : List Policy) (new : Policy)
      → account ≡ other
      → count (is_active_of other) (update (is_active_of account) supersede ps ++ new ∷ []) ≤ 1
  own_single other ps new e = omega (
    arith,
    count_snoc (is_active_of other) (update (is_active_of account) supersede ps) new,
    subst (λ o. count (is_active_of o) (update (is_active_of account) supersede ps) ≡ 0) e
        (superseded_own ps),
    at_most_one (is_active_of other new),
  )

  other_single :
      (other : String) (ps : List Policy) (new : Policy)
      → str_eq account other ≡ false
      → is_active_of other new ≡ false
      → count (is_active_of other) ps ≤ 1
      → count (is_active_of other) (update (is_active_of account) supersede ps ++ new ∷ []) ≤ 1
  other_single other ps new apart foreign h = omega (
    arith,
    count_snoc (is_active_of other) (update (is_active_of account) supersede ps) new,
    superseded_other other apart ps,
    h,
    none_new,
  )
    where
      none_new : ◌≡◌ {A = ℕ} (if is_active_of other new then 1 else 0) 0
      none_new = rw foreign refl

  replace_policy-AreSingle :
      (config hash : String) (s : Core)
      → AreSingle s.policies
      → AreSingle (replace_policy account config hash s).policies
  unfolding replace_policy
  replace_policy-AreSingle config hash s h other = elim (Bool-cases (str_eq account other)) [
    | inl own ↦
        own_single other s.policies (new_policy s.next_policy_id account config hash)
          ((eq_iff account other).0 own)
    | inr apart ↦
        other_single other s.policies (new_policy s.next_policy_id account config hash) apart
          (foreign apart) (h other)
  ]
    where
      foreign :
          str_eq account other ≡ false
          → is_active_of other (new_policy s.next_policy_id account config hash) ≡ false
      foreign apart = rw apart refl

  save_if_new-AreSingle :
      (o : Option Policy) (config hash : String) (s : Core)
      → AreSingle s.policies
      → AreSingle (save_if_new o account config hash s).1.policies
  unfolding save_if_new ◌>>=◌
  save_if_new-AreSingle none config hash s h = replace_policy-AreSingle config hash s h
  save_if_new-AreSingle (some p) config hash s h = h

  save_investor_policy-AreSingle :
      (sha256 : Sha256) (config : String) (s : Core)
      → AreSingle s.policies
      → AreSingle (save_investor_policy sha256 account config s).1.policies
  unfolding save_investor_policy ◌>>=◌
  save_investor_policy-AreSingle sha256 config s h =
      save_if_new-AreSingle _ config (sha256 config) s h

  active_or_default-AreSingle :
      (sha256 : Sha256) (o : Option Policy) (default : String) (s : Core)
      → AreSingle s.policies
      → AreSingle (active_or_default sha256 o account default s).1.policies
  unfolding active_or_default pure
  active_or_default-AreSingle sha256 none default s h =
      save_investor_policy-AreSingle sha256 default s h
  active_or_default-AreSingle sha256 (some p) default s h = h

-- One call, for whatever account.
pub data PolicyCall : Type 0 where
  saves reads : String → String → PolicyCall

abbrev pub call : Sha256 → PolicyCall → Core → Core
call sha256 (saves account config) s = (save_investor_policy sha256 account config s).1
call sha256 (reads account default) s = (get_active_investor_policy sha256 account default s).1

abbrev pub call_all : Sha256 → List PolicyCall → Core → Core
call_all sha256 [] s = s
call_all sha256 (c ∷ cs) s = call_all sha256 cs (call sha256 c s)

call-AreSingle :
    (sha256 : Sha256) (c : PolicyCall) (s : Core)
    → AreSingle s.policies
    → AreSingle (call sha256 c s).policies
unfolding get_active_investor_policy ◌>>=◌
call-AreSingle sha256 (saves account config) s h =
    save_investor_policy-AreSingle account sha256 config s h
call-AreSingle sha256 (reads account default) s h =
    active_or_default-AreSingle account sha256 _ default s h

calls-AreSingle :
    (sha256 : Sha256) (cs : List PolicyCall) (s : Core)
    → AreSingle s.policies
    → AreSingle (call_all sha256 cs s).policies
calls-AreSingle sha256 [] s h = h
calls-AreSingle sha256 (c ∷ cs) s h =
    calls-AreSingle sha256 cs (call sha256 c s) (call-AreSingle sha256 c s h)

-- From an empty store on, whatever policies are saved and read for whatever accounts, an account has at
-- most one active policy.
pub call_all-count :
    (sha256 : Sha256) (cs : List PolicyCall) (account : String)
    → count (is_active_of account) (call_all sha256 cs empty_core).policies ≤ 1
call_all-count sha256 cs account =
    calls-AreSingle sha256 cs empty_core (λ other. omega arith) account
