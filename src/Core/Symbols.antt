-- ===== src/Core/Symbols.antt =====
-- The symbol of a security as text: `strip` and `upper` of Python, on ASCII.
use Prim.Native.Char.{Char, code}
use Prim.Native.String.{String, char_at}
use trading_cat.Base.{◌-◌, Bool, ◌&&◌, ◌||◌, leb, str_eq, if◌then◌else◌}

unfoldable pub upper_char : Char → Char
upper_char c =
    if leb b'a' (code c) && leb (code c) b'z'
    then char_at "ABCDEFGHIJKLMNOPQRSTUVWXYZ" (code c - b'a')
    else c

unfoldable pub upper : String → String
unfolding upper_char
upper String.[] = String.[]
upper (String.◌∷◌ c s) = String.◌∷◌ (upper_char c) (upper s)

abbrev is_space : Char → Bool
is_space c = leb 9 (code c) && leb (code c) 13 || (leb 28 (code c) && leb (code c) 32)

unfoldable pub drop_spaces : String → String
drop_spaces String.[] = String.[]
drop_spaces (String.◌∷◌ c s) = if is_space c then drop_spaces s else String.◌∷◌ c s

abbrev prepend : Char → String → String
prepend c rest = if is_space c && str_eq rest "" then "" else String.◌∷◌ c rest

-- Without the spaces at its end.
unfoldable pub trim_end : String → String
trim_end String.[] = String.[]
trim_end (String.◌∷◌ c s) = prepend c (trim_end s)

unfoldable pub normalize_symbol : String → String
unfolding upper drop_spaces trim_end
normalize_symbol s = upper (trim_end (drop_spaces s))
