-- ===== src/Wire/Utf8.antt =====
-- `str.encode()` and `bytes.decode()`: UTF-8. A text is a list of scalar values, so that encoding
-- does not raise.
use honeybee_potstore.Base.{
  ℕ, ◌+◌, ◌*◌, ◌-◌, ◌/◌, ◌%◌, ◌<◌, ◌≡◌, refl, Bool, ◌&&◌, ◌||◌, not, [], ◌∷◌, ◌++◌, Option, none,
  some, Result, ok, err, unicode_error, All, ltb, leb, if◌then◌else◌, ◌==◌, lt→ltb, ◌>>=◌,
}
use honeybee_potstore.Base.Text.{Text, Bytes}

unfoldable pub encode_char : ℕ → Bytes
encode_char c =
    if ltb c 0x80
    then c ∷ []
    else if ltb c 0x800
    then (0xc0 + c / 64) ∷ (0x80 + c % 64) ∷ []
    else if ltb c 0x10000
    then (0xe0 + c / 4096) ∷ (0x80 + c / 64 % 64) ∷ (0x80 + c % 64) ∷ []
    else (0xf0 + c / 262144) ∷ (0x80 + c / 4096 % 64) ∷ (0x80 + c / 64 % 64) ∷ (0x80 + c % 64) ∷ []

unfoldable pub encode : Text → Bytes
unfolding encode_char
encode [] = []
encode (c ∷ s) = encode_char c ++ encode s

-- Between two characters `left` is 0; inside one, `left` more bytes are due, and the value must
-- come to `least` or more (no overlong form).
pub record Decoder : Type 0 where
  pub left : ℕ
  pub value : ℕ
  pub least : ℕ

abbrev pub start : Decoder
start = record { left = 0; value = 0; least = 0 }

unfoldable pub is_scalar : ℕ → Bool
is_scalar c = ltb c 0xd800 || (leb 0xe000 c && ltb c 0x110000)

-- One byte: an error, or the next state and the character that it ends, if any.
unfoldable pub first_byte : ℕ → Option (Decoder × Option ℕ)
first_byte b =
    if ltb b 0x80
    then some (start, some b)
    else if leb 0xc2 b && ltb b 0xe0
    then some (record { left = 1; value = b - 0xc0; least = 0x80 }, none)
    else if leb 0xe0 b && ltb b 0xf0
    then some (record { left = 2; value = b - 0xe0; least = 0x800 }, none)
    else if leb 0xf0 b && ltb b 0xf5
    then some (record { left = 3; value = b - 0xf0; least = 0x10000 }, none)
    else none

unfoldable pub later_byte : Decoder → ℕ → Option (Decoder × Option ℕ)
unfolding is_scalar
later_byte d b =
    let value = d.value * 64 + (b - 0x80) in
    if not (leb 0x80 b && ltb b 0xc0)
    then none
    else if not (d.left == 1)
    then some (record d { left = d.left - 1; value = value }, none)
    else if leb d.least value && is_scalar value
    then some (start, some value)
    else none

unfoldable pub next_byte : Decoder → ℕ → Option (Decoder × Option ℕ)
unfolding first_byte later_byte
next_byte d b = if d.left == 0 then first_byte b else later_byte d b

abbrev pub add_char : Option ℕ → Result Text → Result Text
add_char none r = r
add_char (some c) r = r >>= λ s. ok (c ∷ s)

unfoldable pub decode_from : Decoder → Bytes → Result Text
unfolding next_byte
decode_from d [] = if d.left == 0 then ok [] else err unicode_error
decode_from d (b ∷ bs) = elim (next_byte d b) [
  | none ↦ err unicode_error
  | some (d', c) ↦ add_char c (decode_from d' bs)
]

unfoldable pub decode : Bytes → Result Text
unfolding decode_from
decode bs = decode_from start bs

-- Texts of ASCII characters, such as addresses.
abbrev pub Ascii : Text → Type 0
Ascii s = All (λ c. c < 0x80) s

pub encode-Ascii : (s : Text) → Ascii s → encode s ≡ s
unfolding encode
encode-Ascii [] a = refl
encode-Ascii (c ∷ s) a = rw (lt→ltb c 0x80 a.0, encode-Ascii s a.1)

next_byte-Ascii : (c : ℕ) → c < 0x80 → next_byte start c ≡ some (start, some c)
unfolding next_byte
next_byte-Ascii c h = rw (lt→ltb c 0x80 h)

decode_from-Ascii : (s : Text) → Ascii s → decode_from start s ≡ ok s
unfolding decode_from
decode_from-Ascii [] a = refl
decode_from-Ascii (c ∷ s) a = rw (next_byte-Ascii c a.0, decode_from) (rw (decode_from-Ascii s a.1))

pub decode-Ascii : (s : Text) → Ascii s → decode s ≡ ok s
unfolding decode
decode-Ascii s a = decode_from-Ascii s a
