-- ===== src/Text.antt =====
-- What the program uses of Go's `strings` and `unicode`: texts are lists of code points. The lower
-- case of a code point beyond ASCII comes from a table of the language, and is the argument `fold`.
pub mod Laws
pub mod Split
use goat_client.Prelude.{
  ℕ, zero, suc, ◌+◌, ◌/◌, ◌%◌, Bool, true, false, List, [], ◌∷◌, ◌++◌, Str, map, ltb, leb, ◌==◌,
  ◌&&◌, ◌||◌, not, if◌then◌else◌,
}

-- `unicode.IsSpace`.
unfoldable pub is_space : ℕ → Bool
is_space c =
    (leb 9 c && leb c 13)
    || (c == 32)
    || (c == 0x85)
    || (c == 0xa0)
    || (c == 0x1680)
    || (leb 0x2000 c && leb c 0x200a)
    || (c == 0x2028)
    || (c == 0x2029)
    || (c == 0x202f)
    || (c == 0x205f)
    || (c == 0x3000)

unfoldable pub trim_left : (ℕ → Bool) → Str → Str
trim_left p [] = []
trim_left p (c ∷ s) = let rest = trim_left p s in if p c then rest else c ∷ s

abbrev pub keep_unless : Bool → ℕ → Str → Str
keep_unless true c [] = []
keep_unless true c (d ∷ s) = c ∷ d ∷ s
keep_unless false c s = c ∷ s

-- A character goes if the predicate holds of it and nothing behind it stays.
unfoldable pub trim_right : (ℕ → Bool) → Str → Str
trim_right p [] = []
trim_right p (c ∷ s) = keep_unless (p c) c (trim_right p s)

unfoldable pub trim : (ℕ → Bool) → Str → Str
unfolding trim_left trim_right
trim p s = trim_right p (trim_left p s)

unfoldable pub trim_space : Str → Str
unfolding trim is_space
trim_space s = trim is_space s

unfoldable pub lower : (ℕ → ℕ) → ℕ → ℕ
lower fold c = if ltb c 128 then (if leb b'A' c && leb c b'Z' then c + 32 else c) else fold c

unfoldable pub to_lower : (ℕ → ℕ) → Str → Str
unfolding lower
to_lower fold s = map (lower fold) s

-- Decimal digits, by a count of them that is enough.
unfoldable pub digits : ℕ → ℕ → Str
digits zero n = []
digits (suc k) n = if ltb n 10 then (n + 48) ∷ [] else digits k (n / 10) ++ ((n % 10 + 48) ∷ [])
