-- ===== src/Base/Tables.antt =====
-- The SQL statements that the program uses, over a table as a list of rows in insertion order.
use mathlib.Core.Path.{subst}
use trading_cat.Base.{
  ◌∙◌, ℕ, suc, ◌≡◌, refl, ap, Bool, true, false, Option, none, some, List, [], ◌∷◌, ◌++◌, arith,
  if◌then◌else◌, Bool-cases, inl, inr, length,
}

module _ {ℓ} {A : Type ℓ} where
  -- SELECT … WHERE p, its first row (`fetchone`).
  abbrev pub select : (A → Bool) → List A → Option A
  select p [] = none
  select p (r ∷ rs) = if p r then some r else select p rs

  -- SELECT … WHERE p, all its rows (`fetchall`).
  abbrev pub select_all : (A → Bool) → List A → List A
  select_all p [] = []
  select_all p (r ∷ rs) = let rest = select_all p rs in if p r then r ∷ rest else rest

  -- UPDATE … SET f WHERE p.
  abbrev pub update : (A → Bool) → (A → A) → List A → List A
  update p f [] = []
  update p f (r ∷ rs) = (if p r then f r else r) ∷ update p f rs

  -- UPDATE … WHERE key = …, on a primary key: it meets one row at most, the one that `select` finds.
  abbrev pub update_first : (A → Bool) → (A → A) → List A → List A
  update_first p f [] = []
  update_first p f (r ∷ rs) = if p r then f r ∷ rs else r ∷ update_first p f rs

  -- The `rowcount` of an UPDATE.
  abbrev pub count : (A → Bool) → List A → ℕ
  count p [] = 0
  count p (r ∷ rs) = let rest = count p rs in if p r then suc rest else rest

  pub select_sound : (p : A → Bool) (rs : List A) (r : A) → select p rs ≡ some r → p r ≡ true
  select_sound p [] r h = cc
  select_sound p (x ∷ xs) r h = elim (Bool-cases (p x)) [
    | inl yes_x ↦ ground (arith, yes_x, select_sound p xs r)
    | inr no_x ↦ ground (arith, no_x, select_sound p xs r)
  ]

  pub length-update : (p : A → Bool) (f : A → A) (rs : List A) → length (update p f rs) ≡ length rs
  length-update p f [] = refl
  length-update p f (_ ∷ rs) = ap suc (length-update p f rs)

-- A table that grows: each old row has become a later one by `R`, and new rows stand behind.
abbrev pub Grows : {A : Type 0} → (A → A → Type 0) → List A → List A → Type 0
Grows R [] ys = Unit
Grows R (x ∷ xs) [] = ⊥
Grows R (x ∷ xs) (y ∷ ys) = R x y × Grows R xs ys

module _ {A : Type 0} (R : A → A → Type 0) (self : (a : A) → R a a) where
  pub Grows-refl : (xs : List A) → Grows R xs xs
  Grows-refl [] = tt
  Grows-refl (x ∷ xs) = (self x, Grows-refl xs)

  pub Grows-append : (xs ys : List A) → Grows R xs (xs ++ ys)
  Grows-append [] ys = tt
  Grows-append (x ∷ xs) ys = (self x, Grows-append xs ys)

  later_if : (b : Bool) (x y : A) → (b ≡ true → R x y) → R x (if b then y else x)
  later_if true x y h = h refl
  later_if false x y h = self x

  pub Grows-update :
      (p : A → Bool) (f : A → A) (xs : List A)
      → ((a : A) → p a ≡ true → R a (f a))
      → Grows R xs (update p f xs)
  Grows-update p f [] h = tt
  Grows-update p f (x ∷ xs) h = (later_if (p x) x (f x) (h x), Grows-update p f xs h)

  pub Grows-update_first :
      (p : A → Bool) (f : A → A) (xs : List A)
      → ((a : A) → select p xs ≡ some a → R a (f a))
      → Grows R xs (update_first p f xs)
  Grows-update_first p f [] h = tt
  Grows-update_first p f (x ∷ xs) h = elim (Bool-cases (p x)) [
    | inl hit ↦ rw hit (h x (rw hit), Grows-refl xs)
    | inr miss ↦ rw miss (self x, Grows-update_first p f xs (λ a e. h a (rw miss e)))
  ]

pub Grows-trans :
    {A : Type 0} (R : A → A → Type 0) (step : (a b c : A) → R a b → R b c → R a c)
    (xs ys zs : List A)
    → Grows R xs ys
    → Grows R ys zs
    → Grows R xs zs
Grows-trans R step [] ys zs h k = tt
Grows-trans R step (x ∷ xs) [] zs h k = elim h [ ]
Grows-trans R step (x ∷ xs) (y ∷ ys) [] h k = elim k [ ]
Grows-trans R step (x ∷ xs) (y ∷ ys) (z ∷ zs) h k =
    (step x y z h.0 k.0, Grows-trans R step xs ys zs h.1 k.1)

module _ {A : Type 0} (p : A → Bool) where
  pub select-head : (z x : A) (zs : List A) → p z ≡ true → select p (z ∷ zs) ≡ some x → z ≡ x
  select-head z x zs hit e = ground (arith, hit, e)

  pub select-tail :
      (z x : A) (zs : List A) → p z ≡ false → select p (z ∷ zs) ≡ some x → select p zs ≡ some x
  select-tail z x zs miss e = ground (arith, miss, e)

  -- A row that is found by a key which no change touches is found later, as a later row.
  pub Grows-select :
      (R : A → A → Type 0)
      → ((x y : A) → R x y → p y ≡ p x)
      → (xs ys : List A) (x : A) → Grows R xs ys
      → select p xs ≡ some x
      → (y : A) × ((select p ys ≡ some y) × R x y)
  Grows-select R keeps [] ys x h e = cc
  Grows-select R keeps (z ∷ zs) [] x h e = elim h [ ]
  Grows-select R keeps (z ∷ zs) (y ∷ ys) x h e = elim (Bool-cases (p z)) [
    | inl hit ↦
        (y, (rw (keeps z y h.0 ∙ hit) refl, subst (λ r. R r y) (select-head z x zs hit e) h.0))
    | inr miss ↦
        let later = Grows-select R keeps zs ys x h.1 (select-tail z x zs miss e) in
        (later.0, (rw (keeps z y h.0 ∙ miss) later.1.0, later.1.1))
  ]

-- What a read finds after a write.
module _ {A : Type 0} (p : A → Bool) where
  pub select-append_other :
      (rs : List A) (new : A) → p new ≡ false → select p (rs ++ new ∷ []) ≡ select p rs
  select-append_other [] new h = rw h refl
  select-append_other (r ∷ rs) new h = rw (select-append_other rs new h) refl

  pub select-append_new :
      (rs : List A) (new : A)
      → p new ≡ true
      → select p rs ≡ none
      → select p (rs ++ new ∷ []) ≡ some new
  select-append_new [] new h e = rw h refl
  select-append_new (r ∷ rs) new h e = elim (Bool-cases (p r)) [
    | inl hit ↦ absurd (taken hit e)
    | inr miss ↦ rw miss (select-append_new rs new h (rest miss e))
  ]
    where
      taken : p r ≡ true → (if p r then some r else select p rs) ≡ none → ⊥
      taken hit k = ground (arith, hit, k)

      rest : p r ≡ false → (if p r then some r else select p rs) ≡ none → select p rs ≡ none
      rest miss k = ground (arith, miss, k)

  pub select-update_first :
      (f : A → A) (xs : List A) (a : A)
      → select p xs ≡ some a
      → p (f a) ≡ true
      → select p (update_first p f xs) ≡ some (f a)
  select-update_first f [] a e h = cc
  select-update_first f (x ∷ xs) a e h = elim (Bool-cases (p x)) [
    | inl hit ↦ rw (hit, select-head p x a xs hit e, h) refl
    | inr miss ↦ rw (miss, miss) (select-update_first f xs a (select-tail p x a xs miss e) h)
  ]

  -- A write of the rows of another key.
  pub select-update_first_other :
      (q : A → Bool) (f : A → A) (xs : List A)
      → ((a : A) → q a ≡ true → (p a ≡ false) × (p (f a) ≡ false))
      → select p (update_first q f xs) ≡ select p xs
  select-update_first_other q f [] h = refl
  select-update_first_other q f (x ∷ xs) h = elim (Bool-cases (q x)) [
    | inl hit ↦ rw (hit, (h x hit).0, (h x hit).1) refl
    | inr miss ↦ rw (miss, select-update_first_other q f xs h) refl
  ]
