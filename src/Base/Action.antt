-- ===== src/Base/Action.antt =====
-- Methods that change a store and may raise. What was written before a raise stays written, unless a
-- transaction rolls it back.
pub mod Relates
pub mod Outcome
use trading_cat.Base.{◌≡◌, refl, Bool, true, false, Option, none, some, if◌then◌else◌}

pub data Result {ℓ κ} (E : Type κ) (A : Type ℓ) : Type (ℓ ⊔ κ) where
  ok : A → Result E A
  err : E → Result E A

abbrev pub Action {ℓ} : Type ℓ → Type ℓ → Type ℓ → Type ℓ
Action E S A = S → Result E A × S

module _ {ℓ} {E S A : Type ℓ} where
  unfoldable pub pure : A → Action E S A
  pure a s = (ok a, s)

  unfoldable pub raise : E → Action E S A
  raise e s = (err e, s)

  -- A read of the store.
  unfoldable pub gets : (S → A) → Action E S A
  gets f s = (ok (f s), s)

  unfoldable pub or_raise : Option A → E → Action E S A
  or_raise none e s = (err e, s)
  or_raise (some a) e s = (ok a, s)

  abbrev pub roll_back : S → Result E A × S → Result E A × S
  roll_back before (ok a, after) = (ok a, after)
  roll_back before (err e, after) = (err e, before)

  -- `with immediate_transaction(conn)`: commit, or undo all writes and raise again.
  unfoldable pub immediate_transaction : Action E S A → Action E S A
  immediate_transaction m s = roll_back s (m s)

module _ {E S : Type 0} where
  unfoldable pub raise_if : Bool → E → Action E S Unit
  raise_if true e s = (err e, s)
  raise_if false e s = (ok tt, s)

  -- A write of the store.
  unfoldable pub modify : (S → S) → Action E S Unit
  modify f s = (ok tt, f s)

module _ {ℓ} {E S A B : Type ℓ} where
  abbrev pub continue_with : (A → Action E S B) → Result E A × S → Result E B × S
  continue_with f (ok a, s) = f a s
  continue_with f (err e, s) = (err e, s)

  infixl 5 ◌>>=◌ ◌>>◌
  -- Opening this opens all the ways to build a method.
  unfoldable pub ◌>>=◌ : Action E S A → (A → Action E S B) → Action E S B
  unfolding pure raise gets or_raise raise_if modify immediate_transaction
  ◌>>=◌ m f s = continue_with f (m s)

  abbrev pub ◌>>◌ : Action E S A → Action E S B → Action E S B
  m >> k = m >>= λ _. k

module _ {ℓ} {E S A : Type ℓ} where
  abbrev pub handled : (E → Action E S A) → Result E A × S → Result E A × S
  handled h (ok a, s) = (ok a, s)
  handled h (err e, s) = h e s

  -- `try: … except`: what was written before the raise stays.
  unfoldable pub catch : Action E S A → (E → Action E S A) → Action E S A
  catch m h s = handled h (m s)

module _ {E S : Type 0} where
  unfoldable pub when : Bool → Action E S Unit → Action E S Unit
  when true m = m
  when false m = pure tt
