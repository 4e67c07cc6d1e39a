-- ===== src/Base/Action/Outcome.antt =====
-- What is known once a method has returned, or has raised: rules that follow a `do` block statement by
-- statement.
use trading_cat.Base.{◌≡◌, refl, Bool, true, false, Option, none, some, if◌then◌else◌}
use trading_cat.Base.Action.{
  Result, ok, err, Action, gets, or_raise, raise_if, modify, immediate_transaction, roll_back,
  continue_with, ◌>>=◌,
}

module _ {E S : Type 0} where
  -- `P` of the value and the store after a return.
  abbrev pub OnOk : {A : Type 0} → (A → S → Type 0) → Result E A × S → Type 0
  OnOk P (ok a, t) = P a t
  OnOk P (err e, t) = Unit

  -- What holds anyway.
  pub always-OnOk :
      {A : Type 0} (P : A → S → Type 0)
      → ((a : A) (t : S) → P a t)
      → (r : Result E A × S) → OnOk P r
  always-OnOk P h (ok a, t) = h a t
  always-OnOk P h (err e, t) = tt

  -- A method that raises leaves the store as it was.
  abbrev pub OnErr : {A : Type 0} → S → Result E A × S → Type 0
  OnErr s (ok a, t) = Unit
  OnErr s (err e, t) = t ≡ s

  module _ {A B : Type 0} (P : B → S → Type 0) where
    continue_with-OnOk :
        (Q : A → S → Type 0) (f : A → Action E S B) (r : Result E A × S)
        → OnOk Q r
        → ((a : A) (t : S) → Q a t → OnOk P (f a t))
        → OnOk P (continue_with f r)
    continue_with-OnOk Q f (ok a, t) h k = k a t h
    continue_with-OnOk Q f (err e, t) h k = tt

    pub bind-OnOk :
        (Q : A → S → Type 0) (m : Action E S A) (f : A → Action E S B) (s : S)
        → OnOk Q (m s)
        → ((a : A) (t : S) → Q a t → OnOk P (f a t))
        → OnOk P ((m >>= f) s)
    unfolding ◌>>=◌
    bind-OnOk Q m f s h k = continue_with-OnOk Q f (m s) h k

    pub gets-OnOk :
        (g : S → A) (f : A → Action E S B) (s : S) → OnOk P (f (g s) s) → OnOk P ((gets g >>= f) s)
    unfolding ◌>>=◌
    gets-OnOk g f s h = h

    pub or_raise-OnOk :
        (o : Option A) (e : E) (f : A → Action E S B) (s : S)
        → ((a : A) → o ≡ some a → OnOk P (f a s))
        → OnOk P ((or_raise o e >>= f) s)
    unfolding ◌>>=◌
    or_raise-OnOk none e f s h = tt
    or_raise-OnOk (some a) e f s h = h a refl

  module _ {B : Type 0} (P : B → S → Type 0) where
    pub raise_if-OnOk :
        (b : Bool) (e : E) (f : Unit → Action E S B) (s : S)
        → (b ≡ false → OnOk P (f tt s))
        → OnOk P ((raise_if b e >>= f) s)
    unfolding ◌>>=◌
    raise_if-OnOk true e f s h = tt
    raise_if-OnOk false e f s h = h refl

    pub if-OnOk :
        (b : Bool) (m n : Action E S B) (s : S)
        → (b ≡ true → OnOk P (m s))
        → (b ≡ false → OnOk P (n s))
        → OnOk P ((if b then m else n) s)
    if-OnOk true m n s h k = h refl
    if-OnOk false m n s h k = k refl

    pub modify-OnOk :
        (g : S → S) (f : Unit → Action E S B) (s : S)
        → OnOk P (f tt (g s))
        → OnOk P ((modify {E = E} g >>= f) s)
    unfolding ◌>>=◌
    modify-OnOk g f s h = h

    roll_back-OnOk : (s : S) (r : Result E B × S) → OnOk P r → OnOk P (roll_back s r)
    roll_back-OnOk s (ok a, t) h = h
    roll_back-OnOk s (err e, t) h = tt

    pub immediate_transaction-OnOk :
        (m : Action E S B) (s : S) → OnOk P (m s) → OnOk P (immediate_transaction m s)
    unfolding immediate_transaction
    immediate_transaction-OnOk m s h = roll_back-OnOk s (m s) h

  module _ {A : Type 0} where
    roll_back-OnErr : (s : S) (r : Result E A × S) → OnErr s (roll_back s r)
    roll_back-OnErr s (ok a, t) = tt
    roll_back-OnErr s (err e, t) = refl

    pub immediate_transaction-OnErr :
        (m : Action E S A) (s : S) → OnErr s (immediate_transaction m s)
    unfolding immediate_transaction
    immediate_transaction-OnErr m s = roll_back-OnErr s (m s)

    pub raise_if-OnErr :
        (b : Bool) (e : E) (f : Unit → Action E S A) (s : S)
        → OnErr s (f tt s)
        → OnErr s ((raise_if b e >>= f) s)
    unfolding ◌>>=◌
    raise_if-OnErr true e f s h = refl
    raise_if-OnErr false e f s h = h

    -- A run that does not raise.
    abbrev pub IsTotal : Result E A × S → Type 0
    IsTotal (ok a, t) = Unit
    IsTotal (err e, t) = ⊥

    total-OnErr : (s : S) (r : Result E A × S) → IsTotal r → OnErr s r
    total-OnErr s (ok a, t) h = tt
    total-OnErr s (err e, t) h = elim h [ ]

  module _ {A B : Type 0} where
    pub gets-OnErr :
        (g : S → A) (f : A → Action E S B) (s : S)
        → OnErr s (f (g s) s)
        → OnErr s ((gets g >>= f) s)
    unfolding ◌>>=◌
    gets-OnErr g f s h = h

    pub or_raise-OnErr :
        (o : Option A) (e : E) (f : A → Action E S B) (s : S)
        → ((a : A) → OnErr s (f a s))
        → OnErr s ((or_raise o e >>= f) s)
    unfolding ◌>>=◌
    or_raise-OnErr none e f s h = refl
    or_raise-OnErr (some a) e f s h = h a

    then_total :
        (f : A → Action E S B) (s : S) (r : Result E A × S)
        → OnErr s r
        → ((a : A) (t : S) → IsTotal (f a t))
        → OnErr s (continue_with f r)
    then_total f s (ok a, t) h k = total-OnErr s (f a t) (k a t)
    then_total f s (err e, t) h k = h

    -- What never raises may follow.
    pub bind_total-OnErr :
        (m : Action E S A) (f : A → Action E S B) (s : S)
        → OnErr s (m s)
        → ((a : A) (t : S) → IsTotal (f a t))
        → OnErr s ((m >>= f) s)
    unfolding ◌>>=◌
    bind_total-OnErr m f s h k = then_total f s (m s) h k

  -- Runs that do not raise, statement by statement.
  module _ {A B : Type 0} where
    continued-IsTotal :
        (Q : A → S → Type 0) (f : A → Action E S B) (r : Result E A × S)
        → IsTotal r
        → OnOk Q r
        → ((a : A) (t : S) → Q a t → IsTotal (f a t))
        → IsTotal (continue_with f r)
    continued-IsTotal Q f (ok a, t) h q k = k a t q
    continued-IsTotal Q f (err e, t) h q k = h

    pub bind-IsTotal :
        (Q : A → S → Type 0) (m : Action E S A) (f : A → Action E S B) (s : S)
        → IsTotal (m s)
        → OnOk Q (m s)
        → ((a : A) (t : S) → Q a t → IsTotal (f a t))
        → IsTotal ((m >>= f) s)
    unfolding ◌>>=◌
    bind-IsTotal Q m f s h q k = continued-IsTotal Q f (m s) h q k

    pub gets-IsTotal :
        (g : S → A) (f : A → Action E S B) (s : S)
        → IsTotal (f (g s) s)
        → IsTotal ((gets g >>= f) s)
    unfolding ◌>>=◌
    gets-IsTotal g f s h = h

    pub or_raise-IsTotal :
        (o : Option A) (e : E) (f : A → Action E S B) (s : S) (a : A)
        → o ≡ some a
        → IsTotal (f a s)
        → IsTotal ((or_raise o e >>= f) s)
    unfolding ◌>>=◌
    or_raise-IsTotal o e f s a found h = rw found h

  module _ {B : Type 0} where
    pub raise_if-IsTotal :
        (b : Bool) (e : E) (f : Unit → Action E S B) (s : S)
        → b ≡ false
        → IsTotal (f tt s)
        → IsTotal ((raise_if b e >>= f) s)
    unfolding ◌>>=◌
    raise_if-IsTotal b e f s passed h = rw passed h

    pub modify-IsTotal :
        (g : S → S) (f : Unit → Action E S B) (s : S)
        → IsTotal (f tt (g s))
        → IsTotal ((modify {E = E} g >>= f) s)
    unfolding ◌>>=◌
    modify-IsTotal g f s h = h

    committed : (s : S) (r : Result E B × S) → IsTotal r → IsTotal (roll_back s r)
    committed s (ok a, t) h = h
    committed s (err e, t) h = h

    pub immediate_transaction-IsTotal :
        (m : Action E S B) (s : S) → IsTotal (m s) → IsTotal (immediate_transaction m s)
    unfolding immediate_transaction
    immediate_transaction-IsTotal m s h = committed s (m s) h

  -- What holds of the store after a method and after what follows, whether they return or raise.
  module _ {A B : Type 0} (K : S → Type 0) where
    continued-keeps :
        (Q : A → S → Type 0) (f : A → Action E S B) (r : Result E A × S)
        → K r.1
        → OnOk Q r
        → ((a : A) (t : S) → K t → Q a t → K (f a t).1)
        → K (continue_with f r).1
    continued-keeps Q f (ok a, t) h q k = k a t h q
    continued-keeps Q f (err e, t) h q k = h

    pub bind-keeps :
        (Q : A → S → Type 0) (m : Action E S A) (f : A → Action E S B) (s : S)
        → K (m s).1
        → OnOk Q (m s)
        → ((a : A) (t : S) → K t → Q a t → K (f a t).1)
        → K ((m >>= f) s).1
    unfolding ◌>>=◌
    bind-keeps Q m f s h q k = continued-keeps Q f (m s) h q k

    pub gets-keeps :
        (g : S → A) (f : A → Action E S B) (s : S) → K (f (g s) s).1 → K ((gets g >>= f) s).1
    unfolding ◌>>=◌
    gets-keeps g f s h = h

    pub or_raise-keeps :
        (o : Option A) (e : E) (f : A → Action E S B) (s : S)
        → K s
        → ((a : A) → K (f a s).1)
        → K ((or_raise o e >>= f) s).1
    unfolding ◌>>=◌
    or_raise-keeps none e f s h k = h
    or_raise-keeps (some a) e f s h k = k a

  module _ {A : Type 0} (K : S → Type 0) where
    rolled_keeps : (s : S) (r : Result E A × S) → K s → K r.1 → K (roll_back s r).1
    rolled_keeps s (ok a, t) h k = k
    rolled_keeps s (err e, t) h k = h

    pub transaction-keeps :
        (m : Action E S A) (s : S) → K s → K (m s).1 → K (immediate_transaction m s).1
    unfolding immediate_transaction
    transaction-keeps m s h k = rolled_keeps s (m s) h k

    pub raise_if-keeps :
        (b : Bool) (e : E) (f : Unit → Action E S A) (s : S)
        → K s
        → (b ≡ false → K (f tt s).1)
        → K ((raise_if b e >>= f) s).1
    unfolding ◌>>=◌
    raise_if-keeps true e f s h k = h
    raise_if-keeps false e f s h k = k refl

    pub modify-keeps :
        (g : S → S) (f : Unit → Action E S A) (s : S)
        → K (f tt (g s)).1
        → K ((modify {E = E} g >>= f) s).1
    unfolding ◌>>=◌
    modify-keeps g f s h = h
