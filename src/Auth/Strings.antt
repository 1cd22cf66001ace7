-- ===== src/Auth/Strings.antt =====
-- What cowrie/src/cowrie/core/auth.py uses of Python's strings: `split`, `strip`, and `str` of bytes.
use honeybee_potstore.Base.{
  ℕ, ◌≡◌, refl, arith, ◌+◌, ◌/◌, ◌%◌, Bool, false, List, [], ◌∷◌, ◌++◌, ◌&&◌, ◌||◌, not, ◌==◌, ltb,
  leb, if◌then◌else◌,
}
use honeybee_potstore.Base.Text.{Text, Bytes}

abbrev pub onto_first : ℕ → List Text → List Text
onto_first c [] = (c ∷ []) ∷ []
onto_first c (w ∷ ws) = (c ∷ w) ∷ ws

-- `s.split(sep)`, of one character.
unfoldable pub split : ℕ → Text → List Text
split sep [] = [] ∷ []
split sep (c ∷ s) = let rest = split sep s in if c == sep then [] ∷ rest else onto_first c rest

-- The ASCII characters that `strip` takes away.
abbrev pub is_space : ℕ → Bool
is_space c = (leb 9 c && leb c 13) || (leb 28 c && leb c 32)

unfoldable pub strip_left : Text → Text
strip_left [] = []
strip_left (c ∷ s) = let rest = strip_left s in if is_space c then rest else c ∷ s

abbrev pub unless_space : ℕ → Text → Text
unless_space c [] = if is_space c then [] else c ∷ []
unless_space c (d ∷ s) = c ∷ d ∷ s

unfoldable pub strip_right : Text → Text
strip_right [] = []
strip_right (c ∷ s) = unless_space c (strip_right s)

unfoldable pub strip : Text → Text
unfolding strip_left strip_right
strip s = strip_left (strip_right s)

unfoldable pub has : ℕ → Bytes → Bool
has c [] = false
has c (d ∷ s) = (d == c) || has c s

abbrev pub hex_digit : ℕ → ℕ
hex_digit n = if ltb n 10 then 48 + n else 87 + n

-- One byte of `str(b"…")`, within the given quotes.
unfoldable pub repr_byte : ℕ → ℕ → Text
repr_byte quote c =
    if (c == quote) || (c == 92)
    then 92 ∷ c ∷ []
    else if c == 9
    then 92 ∷ 116 ∷ []
    else if c == 10
    then 92 ∷ 110 ∷ []
    else if c == 13
    then 92 ∷ 114 ∷ []
    else if leb 32 c && ltb c 127
    then c ∷ []
    else 92 ∷ 120 ∷ hex_digit (c / 16) ∷ hex_digit (c % 16) ∷ []

unfoldable pub repr_bytes : ℕ → Bytes → Text
unfolding repr_byte
repr_bytes quote [] = quote ∷ []
repr_bytes quote (c ∷ s) = repr_byte quote c ++ repr_bytes quote s

-- `str(data)` of bytes: with double quotes if the data has a single quote and no double one.
unfoldable pub str : Bytes → Text
unfolding has repr_bytes
str bs =
    let quote = if has 39 bs && not (has 34 bs) then 34 else 39 in 98 ∷ quote ∷ repr_bytes quote bs

-- A text up to the first separator is a part of its own.
pub split-append :
    (sep : ℕ) (s t : Text) → has sep s ≡ false → split sep (s ++ sep ∷ t) ≡ s ∷ split sep t
unfolding split has
split-append sep [] t h = ground arith
split-append sep (c ∷ s) t h = ground (arith, split-append sep s t)

pub split_none : (sep : ℕ) → split sep [] ≡ [] ∷ []
unfolding split
split_none sep = refl
