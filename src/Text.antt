-- ===== src/Text.antt =====
-- Text as code points, `json.dumps` of a text and the LIKE of SQL: what the search for a FILL_DEDUPE
-- marker in execution/broker.py rests on.
use Prim.Native.Char.{code}
use Prim.Native.String.{String}
use trading_cat.Base.{
  ℕ, ◌+◌, ◌-◌, ◌/◌, ◌%◌, Bool, true, false, ◌&&◌, ◌||◌, List, [], ◌∷◌, ◌++◌, leb, ltb, eqb,
  if◌then◌else◌,
}

abbrev pub codes : String → List ℕ
codes String.[] = []
codes (String.◌∷◌ c s) = code c ∷ codes s

-- A lower-case hexadecimal digit, and the escape of a 16-bit unit.
unfoldable pub hex_digit : ℕ → ℕ
hex_digit n = if ltb n 10 then b'0' + n else 87 + n

unfoldable pub unicode_escape : ℕ → List ℕ
unfolding hex_digit
unicode_escape u =
    b'\\'
    ∷ b'u'
    ∷ hex_digit (u / 4096)
    ∷ hex_digit (u / 256 % 16)
    ∷ hex_digit (u / 16 % 16)
    ∷ hex_digit (u % 16)
    ∷ []

-- A character beyond 16 bits is written as a surrogate pair.
unfoldable pub escape_wide : ℕ → List ℕ
unfolding unicode_escape
escape_wide c =
    if ltb c 65536
    then unicode_escape c
    else unicode_escape (55296 + (c - 65536) / 1024) ++ unicode_escape (56320 + (c - 65536) % 1024)

-- The short escapes, and the escape of a control character.
unfoldable pub escape_special : ℕ → List ℕ → List ℕ
escape_special c rest =
    if eqb c 34
    then 92 ∷ 34 ∷ []
    else if eqb c 92
    then 92 ∷ 92 ∷ []
    else if eqb c 10
    then 92 ∷ b'n' ∷ []
    else if eqb c 13
    then 92 ∷ b'r' ∷ []
    else if eqb c 9
    then 92 ∷ b't' ∷ []
    else if eqb c 8
    then 92 ∷ b'b' ∷ []
    else if eqb c 12
    then 92 ∷ b'f' ∷ []
    else rest

-- One character under `ensure_ascii=True`, json's default, and under `ensure_ascii=False`.
unfoldable pub escape_ascii : ℕ → List ℕ
unfolding escape_special escape_wide
escape_ascii c = escape_special c (if leb 32 c && leb c 126 then c ∷ [] else escape_wide c)

unfoldable pub escape_raw : ℕ → List ℕ
unfolding escape_special unicode_escape
escape_raw c = escape_special c (if ltb c 32 then unicode_escape c else c ∷ [])

unfoldable pub escape_all : (ℕ → List ℕ) → List ℕ → List ℕ
escape_all f [] = []
escape_all f (c ∷ cs) = f c ++ escape_all f cs

-- `json.dumps(text)` and `json.dumps(text, ensure_ascii=False)`.
unfoldable pub dumps : List ℕ → List ℕ
unfolding escape_all escape_ascii
dumps t = 34 ∷ (escape_all escape_ascii t ++ 34 ∷ [])

unfoldable pub dumps_raw : List ℕ → List ℕ
unfolding escape_all escape_raw
dumps_raw t = 34 ∷ (escape_all escape_raw t ++ 34 ∷ [])

-- LIKE folds the case of ASCII letters; `_` stands for one character and `%` for any number.
unfoldable pub fold_case : ℕ → ℕ
fold_case c = if leb b'A' c && leb c b'Z' then c + 32 else c

unfoldable pub any_suffix : (List ℕ → Bool) → List ℕ → Bool
any_suffix p [] = p []
any_suffix p (c ∷ cs) = p (c ∷ cs) || any_suffix p cs

abbrev one_more : (List ℕ → Bool) → (ℕ → Bool) → List ℕ → Bool
one_more p fits [] = false
one_more p fits (c ∷ cs) = fits c && p cs

unfoldable pub like : List ℕ → List ℕ → Bool
unfolding fold_case any_suffix
like [] [] = true
like [] (_ ∷ _) = false
like (p ∷ ps) t =
    if eqb p b'%'
    then any_suffix (like ps) t
    else one_more (like ps) (λ c. eqb p b'_' || eqb (fold_case p) (fold_case c)) t

-- `word in text`
unfoldable pub is_prefix : List ℕ → List ℕ → Bool
is_prefix [] t = true
is_prefix (_ ∷ _) [] = false
is_prefix (c ∷ cs) (d ∷ ds) = eqb c d && is_prefix cs ds

unfoldable pub contains : List ℕ → List ℕ → Bool
unfolding is_prefix any_suffix
contains word t = any_suffix (is_prefix word) t
