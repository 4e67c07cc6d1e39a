-- ===== src/Core/Quotas/Used.antt =====
-- shared/db.py: what calls grant in a window is what its row counts as used.
use trading_cat.Base.{
  ℕ, String, ◌≡◌, refl, sym, ap, ◌∙◌, Bool, true, false, ◌&&◌, Option, none, some, List, [], ◌∷◌,
  arith, str_eq, eqb, eq_iff, if◌then◌else◌, Bool-cases, inl, inr,
}
use trading_cat.Base.Int.{ℤ, pos, ◌+ℤ◌, int_laws}
use trading_cat.Base.Action.{Result, ok, err, ◌>>=◌}
use trading_cat.Base.Tables.{
  select-append_new, select-append_other, select-update_first, select-update_first_other,
}
use trading_cat.Core.{Core, CoreError, Quota, zero_window}
use trading_cat.Core.Quotas.{
  Reservation, Grant, has_key, window_of, get_quota, used_in, put_quota, reserved, is_allowed,
  grant_of, reserve_row, reserve_body, reserve_api_quota,
}

-- What a call grants in a window: its amount if it returns and is allowed.
abbrev granted_by : String → ℕ → Reservation → Result CoreError Grant → ℤ
granted_by scope start q (err e) = pos 0
granted_by scope start q (ok g) =
    if g.allowed && (str_eq q.scope scope && eqb (window_of q) start) then q.amount else pos 0

-- The calls one after the other: what they grant in a window together, and the store at the end.
abbrev pub reserve_all : String → ℕ → List Reservation → Core → ℤ × Core
reserve_all scope start [] s = (pos 0, s)
reserve_all scope start (q ∷ qs) s = (
  granted_by scope start q (reserve_api_quota q s).0
      +ℤ (reserve_all scope start qs (reserve_api_quota q s).1).0,
  (reserve_all scope start qs (reserve_api_quota q s).1).1,
)

abbrev pub used_of : String → ℕ → Core → ℤ
used_of scope start s = used_in (get_quota scope start s)

own_key : (r : Quota) → has_key r.scope r.window_start r ≡ true
own_key r = ground (arith, eq_iff r.scope r.scope)

-- A write under the key: the row there is the new one.
put_quota-own :
    (o : Option Quota) (new : Quota) (s : Core)
    → get_quota new.scope new.window_start s ≡ o
    → get_quota new.scope new.window_start (put_quota o new s) ≡ some new
unfolding get_quota put_quota
put_quota-own none new s e =
    select-append_new (has_key new.scope new.window_start) s.quotas new (own_key new) e
put_quota-own (some old) new s e =
    select-update_first (has_key new.scope new.window_start) (λ _. new) s.quotas old e (own_key new)

-- What a call does, in one expression.
pub reserve_api_quota_runs :
    (q : Reservation) (s : Core)
    → eqb q.window_seconds 0 ≡ false
    → reserve_api_quota q s ≡ (
      ok (grant_of q (get_quota q.scope (window_of q) s)),
      if is_allowed q (get_quota q.scope (window_of q) s)
          then put_quota
              (get_quota q.scope (window_of q) s)
              (reserved q (get_quota q.scope (window_of q) s))
              s
          else s,
    )
unfolding reserve_api_quota reserve_body reserve_row ◌>>=◌
reserve_api_quota_runs q s some_window =
    elim (Bool-cases (is_allowed q (get_quota q.scope (window_of q) s))) [
      | inl room ↦ rw (some_window, room) refl
      | inr full ↦ rw (some_window, full) refl
    ]

pub reserve_api_quota_raises :
    (q : Reservation) (s : Core)
    → eqb q.window_seconds 0 ≡ true
    → reserve_api_quota q s ≡ (err zero_window, s)
unfolding reserve_api_quota ◌>>=◌
reserve_api_quota_raises q s no_window = rw no_window refl

plus_none : (a : ℤ) → a +ℤ pos 0 ≡ a
plus_none a = omega int_laws

module _ (scope : String) (start : ℕ) where
  abbrev asks : Reservation → Bool
  asks q = str_eq q.scope scope && eqb (window_of q) start

  asked : (q : Reservation) → asks q ≡ true → (scope ≡ q.scope) × (start ≡ window_of q)
  asked q h = ground (arith, eq_iff q.scope scope, h)

  -- A write under another key.
  put_quota-other :
      (o : Option Quota) (new : Quota) (s : Core)
      → has_key scope start new ≡ false
      → get_quota scope start (put_quota o new s) ≡ get_quota scope start s
  unfolding get_quota put_quota
  put_quota-other none new s h = select-append_other (has_key scope start) s.quotas new h
  put_quota-other (some old) new s h =
      select-update_first_other (has_key scope start) (has_key new.scope new.window_start)
        (λ _. new) s.quotas (λ a hit. (other a hit, h))
    where
      keys :
          (a : Quota)
          → has_key new.scope new.window_start a ≡ true
          → (a.scope ≡ new.scope) × (a.window_start ≡ new.window_start)
      keys a hit = ground (arith, eq_iff a.scope new.scope, hit)

      other :
          (a : Quota) → has_key new.scope new.window_start a ≡ true → has_key scope start a ≡ false
      other a hit = rw ((keys a hit).0, (keys a hit).1) h

  granted_step :
      (q : Reservation) (s : Core) (b : Bool)
      → is_allowed q (get_quota q.scope (window_of q) s) ≡ b
      → used_of scope start (
          if b
          then put_quota
              (get_quota q.scope (window_of q) s)
              (reserved q (get_quota q.scope (window_of q) s))
              s
          else s)
        ≡ used_of scope start s +ℤ (if b && asks q then q.amount else pos 0)
  granted_step q s false e = sym (plus_none (used_of scope start s))
  granted_step q s true e = elim (Bool-cases (asks q)) [
    | inl hit ↦
        let row = get_quota q.scope (window_of q) s in
        rw (hit, (asked q hit).0, (asked q hit).1)
          (ap used_in (put_quota-own row (reserved q row) s refl))
    | inr miss ↦
        rw
          (
            miss,
            put_quota-other (get_quota q.scope (window_of q) s)
                (reserved q (get_quota q.scope (window_of q) s)) s miss,
          )
          (sym (plus_none (used_of scope start s)))
  ]

  used_step :
      (q : Reservation) (s : Core)
      → used_of scope start (reserve_api_quota q s).1
        ≡ used_of scope start s +ℤ granted_by scope start q (reserve_api_quota q s).0
  used_step q s = elim (Bool-cases (eqb q.window_seconds 0)) [
    | inl no_window ↦
        rw (reserve_api_quota_raises q s no_window) (sym (plus_none (used_of scope start s)))
    | inr some_window ↦
        rw (reserve_api_quota_runs q s some_window)
          (granted_step q s (is_allowed q (get_quota q.scope (window_of q) s)) refl)
  ]

  pub used_all :
      (qs : List Reservation) (s : Core)
      → used_of scope start (reserve_all scope start qs s).1
        ≡ used_of scope start s +ℤ (reserve_all scope start qs s).0
  used_all [] s = sym (plus_none (used_of scope start s))
  used_all (q ∷ qs) s =
      used_all qs (reserve_api_quota q s).1
      ∙ (ap (λ x. x +ℤ (reserve_all scope start qs (reserve_api_quota q s).1).0) (used_step q s)
          ∙ plus_assoc (used_of scope start s) (granted_by scope start q (reserve_api_quota q s).0)
              (reserve_all scope start qs (reserve_api_quota q s).1).0)
    where
      plus_assoc : (a b c : ℤ) → (a +ℤ b) +ℤ c ≡ a +ℤ (b +ℤ c)
      plus_assoc a b c = omega int_laws
