-- ===== src/Base/Action/Relates.antt =====
-- What a method may do to the store, as a relation between the store before and the store after,
-- whether it returns or raises: one rule for each way to build a method. An invariant `P` is the
-- relation `P s → P t`.
use trading_cat.Base.{Bool, true, false, Option, none, some, if◌then◌else◌}
use trading_cat.Base.Action.{
  Result, ok, err, Action, pure, raise, gets, or_raise, raise_if, modify, immediate_transaction,
  roll_back, continue_with, ◌>>=◌, catch, handled, when,
}

pub record Relates {E S A : Type 0} (R : S → S → Type 0) (m : Action E S A) : Type 0 where
  pub at : (s : S) → R s (m s).1

pub record IsPreorder {S : Type 0} (R : S → S → Type 0) : Type 0 where
  pub self : (s : S) → R s s
  pub chain : (s t u : S) → R s t → R t u → R s u

module _ {E S : Type 0} {R : S → S → Type 0} (o : IsPreorder R) where
  module _ {A : Type 0} where
    pub Relates-pure : (a : A) → Relates R (pure {E = E} a)
    unfolding pure
    Relates-pure a = record { at = λ s. o.self s }

    pub Relates-raise : (e : E) → Relates R (raise {A = A} e)
    unfolding raise
    Relates-raise e = record { at = λ s. o.self s }

    pub Relates-gets : (f : S → A) → Relates R (gets {E = E} f)
    unfolding gets
    Relates-gets f = record { at = λ s. o.self s }

    pub Relates-or_raise : (a : Option A) (e : E) → Relates R (or_raise {S = S} a e)
    unfolding or_raise
    Relates-or_raise none e = record { at = λ s. o.self s }
    Relates-or_raise (some a) e = record { at = λ s. o.self s }

    rolled_back : (s : S) (r : Result E A) (t : S) → R s t → R s (roll_back s (r, t)).1
    rolled_back s (ok a) t h = h
    rolled_back s (err e) t h = o.self s

    pub Relates-immediate_transaction :
        (m : Action E S A) → Relates R m → Relates R (immediate_transaction m)
    unfolding immediate_transaction
    Relates-immediate_transaction m h = record { at = λ s. rolled_back s (m s).0 (m s).1 (h.at s) }

    pub Relates-if :
        (b : Bool) (m n : Action E S A) → Relates R m → Relates R n → Relates R (if b then m else n)
    Relates-if true m n hm hn = hm
    Relates-if false m n hm hn = hn

    caught :
        (s : S) (r : Result E A) (t : S) (h : E → Action E S A)
        → R s t
        → ((e : E) → Relates R (h e))
        → R s (handled h (r, t)).1
    caught s (ok a) t h k l = k
    caught s (err e) t h k l = o.chain s t (h e t).1 k ((l e).at t)

    pub Relates-catch :
        (m : Action E S A) (h : E → Action E S A)
        → Relates R m
        → ((e : E) → Relates R (h e))
        → Relates R (catch m h)
    unfolding catch
    Relates-catch m h hm hh = record { at = λ s. caught s (m s).0 (m s).1 h (hm.at s) hh }

  pub Relates-when : (b : Bool) (m : Action E S Unit) → Relates R m → Relates R (when b m)
  unfolding when
  Relates-when true m h = h
  Relates-when false m h = Relates-pure tt

  pub Relates-raise_if : (b : Bool) (e : E) → Relates R (raise_if {S = S} b e)
  unfolding raise_if
  Relates-raise_if true e = record { at = λ s. o.self s }
  Relates-raise_if false e = record { at = λ s. o.self s }

  module _ {A B : Type 0} where
    continued :
        (s : S) (r : Result E A) (t : S) (f : A → Action E S B)
        → R s t
        → ((a : A) → Relates R (f a))
        → R s (continue_with f (r, t)).1
    continued s (ok a) t f h k = o.chain s t (f a t).1 h ((k a).at t)
    continued s (err e) t f h k = h

    -- The rule at one store.
    pub bind_at :
        (s : S) (m : Action E S A) (f : A → Action E S B)
        → R s (m s).1
        → ((a : A) → Relates R (f a))
        → R s ((m >>= f) s).1
    unfolding ◌>>=◌
    bind_at s m f h hf = continued s (m s).0 (m s).1 f h hf

    pub Relates-bind :
        (m : Action E S A) (f : A → Action E S B)
        → Relates R m
        → ((a : A) → Relates R (f a))
        → Relates R (m >>= f)
    unfolding ◌>>=◌
    Relates-bind m f hm hf = record { at = λ s. continued s (m s).0 (m s).1 f (hm.at s) hf }

pub Relates-modify :
    {E S : Type 0} {R : S → S → Type 0} (f : S → S)
    → ((s : S) → R s (f s))
    → Relates R (modify {E = E} f)
unfolding modify
Relates-modify f h = record { at = h }

pub ruleset relates_rules = (
  Relates-pure, Relates-raise, Relates-gets, Relates-or_raise, Relates-if, Relates-raise_if,
  Relates-bind, Relates-catch, Relates-when, Relates-immediate_transaction, Relates-modify,
)
