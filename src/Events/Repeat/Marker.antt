-- ===== src/Events/Repeat/Marker.antt =====
-- execution/broker.py: the LIKE pattern for a FILL_DEDUPE marker meets the marker of the same key.
use mathlib.Core.Path.{subst}
use trading_cat.Base.{
  ℕ, sym, String, ◌≡◌, refl, Bool, true, ◌&&◌, List, [], ◌∷◌, ◌++◌, arith, leb, eqb, All, any,
  Bool-cases, inl, inr, some, eqb_refl,
}
use trading_cat.Text.{
  codes, dumps, dumps_raw, like, any_suffix, fold_case, escape_all, escape_ascii, escape_raw,
  escape_special,
}
use trading_cat.Base.Tables.{Grows}
use trading_cat.Evolution.{Same}
use trading_cat.Store.{Audit, Entity, fill_dedupe}
use trading_cat.Events.{marker_payload, marker_pattern, is_marker, key_label}

-- What stands for itself in JSON, escaped or not: printable ASCII.
abbrev pub IsPrintable : ℕ → Type 0
IsPrintable c = leb 32 c && leb c 126 ≡ true

any_suffix-here : (p : List ℕ → Bool) (t : List ℕ) → p t ≡ true → any_suffix p t ≡ true
unfolding any_suffix
any_suffix-here p [] h = h
any_suffix-here p (c ∷ cs) h = ground arith

any_suffix-tail :
    (p : List ℕ → Bool) (c : ℕ) (t : List ℕ) → any_suffix p t ≡ true → any_suffix p (c ∷ t) ≡ true
unfolding any_suffix
any_suffix-tail p c t h = ground arith

-- A text, wildcards and all, meets itself.
like-prefix : (x p t : List ℕ) → like p t ≡ true → like (x ++ p) (x ++ t) ≡ true
unfolding like
like-prefix [] p t h = h
like-prefix (c ∷ cs) p t h = elim (Bool-cases (eqb c b'%')) [
  | inl wild ↦ rw wild (
      any_suffix-tail (like (cs ++ p)) c (cs ++ t)
        (any_suffix-here (like (cs ++ p)) (cs ++ t) (like-prefix cs p t h)))
  | inr plain ↦ ground (arith, plain, like-prefix cs p t h, eqb_refl (fold_case c))
]

escape-agrees : (c : ℕ) → IsPrintable c → escape_ascii c ≡ escape_raw c
unfolding escape_ascii escape_raw escape_special
escape-agrees c h = ground arith

escape_all-agrees :
    (t : List ℕ) → All IsPrintable t → escape_all escape_ascii t ≡ escape_all escape_raw t
unfolding escape_all
escape_all-agrees [] h = refl
escape_all-agrees (c ∷ cs) h = rw (escape-agrees c h.0, escape_all-agrees cs h.1) refl

dumps-agree : (t : List ℕ) → All IsPrintable t → dumps t ≡ dumps_raw t
unfolding dumps dumps_raw
dumps-agree t h = rw (escape_all-agrees t h) refl

like-all : (t : List ℕ) → like (b'%' ∷ []) t ≡ true
unfolding like any_suffix
like-all [] = refl
like-all (c ∷ cs) = ground (arith, like-all cs)

-- The pattern around the JSON of `x`, and a payload of the JSON `x`.
abbrev around : List ℕ → List ℕ
around x = (key_label ++ x) ++ b'%' ∷ []

abbrev payload_of : List ℕ → List ℕ
payload_of x = key_label ++ (x ++ b'}' ∷ [])

around-meets : (x : List ℕ) → like (b'%' ∷ around x) (b'{' ∷ payload_of x) ≡ true
unfolding like
around-meets x = any_suffix-tail (like (around x)) b'{' (payload_of x) (
    any_suffix-here (like (around x)) (payload_of x)
      (like-prefix (key_label ++ x) (b'%' ∷ []) (b'}' ∷ []) (like-all (b'}' ∷ []))))

pub marker_pattern-meets :
    (key : List ℕ) → All IsPrintable key → like (marker_pattern key) (marker_payload key) ≡ true
unfolding marker_pattern marker_payload
marker_pattern-meets key h =
    subst (λ x. like (b'%' ∷ around x) (b'{' ∷ payload_of (dumps_raw key)) ≡ true)
      (sym (dumps-agree key h)) (around-meets (dumps_raw key))

-- Once a marker of a key is in the log, it is found for xs long xs the log only grows.
pub any-Grows :
    (p : Audit → Bool) (xs ys : List Audit) → Grows Same xs ys → any p xs ≡ true → any p ys ≡ true
any-Grows p [] ys h k = cc
any-Grows p (a ∷ xs) [] h k = elim h [ ]
any-Grows p (a ∷ xs) (b ∷ ys) h k = ground (arith, h.0, any-Grows p xs ys h.1)

pub any-last :
    (p : Audit → Bool) (xs : List Audit) (a : Audit) → p a ≡ true → any p (xs ++ a ∷ []) ≡ true
any-last p [] a h = ground arith
any-last p (b ∷ ys) a h = ground (arith, any-last p ys a h)

pub is_marker_self :
    (key : ℕ) (text : String) (a : Audit)
    → a ≡ record { event = fill_dedupe; entity = Entity.intent key; dedupe_key = some text }
    → All IsPrintable (codes text)
    → is_marker key text a ≡ true
is_marker_self key text a e h = rw e (rw (eqb_refl key) (marker_pattern-meets (codes text) h))
