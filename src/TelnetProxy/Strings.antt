-- ===== src/TelnetProxy/Strings.antt =====
-- `process_backspaces` and `remove_all` of cowrie/src/cowrie/telnet_proxy/handler.py, and what they and
-- the handler use of Python's bytes.
use honeybee_potstore.Base.{
  ℕ, zero, suc, ◌-◌, Bool, true, false, ◌&&◌, ◌||◌, List, [], ◌∷◌, ◌++◌, Option, none, some, length,
  ◌==◌, if◌then◌else◌,
}
use honeybee_potstore.Base.Text.{Bytes}
use honeybee_potstore.Wire.Utf8.{encode_char}

unfoldable pub starts_with : Bytes → Bytes → Bool
starts_with [] bs = true
starts_with (o ∷ os) [] = false
starts_with (o ∷ os) (b ∷ bs) = (o == b) && starts_with os bs

-- `old in bs`
unfoldable pub has_part : Bytes → Bytes → Bool
has_part old [] = starts_with old []
has_part old (b ∷ bs) = starts_with old (b ∷ bs) || has_part old bs

-- `skip` bytes belong to a part that is replaced already.
unfoldable pub replace_from : (old new : Bytes) → (skip : ℕ) → Bytes → Bytes
replace_from old new skip [] = []
replace_from old new (suc skip) (b ∷ bs) = replace_from old new skip bs
replace_from old new zero (b ∷ bs) = elim (starts_with old (b ∷ bs)) [
  | true ↦ new ++ replace_from old new (length old - 1) bs
  | false ↦ b ∷ replace_from old new zero bs
]

-- `bs.replace(old, new)`, for an `old` that is not empty.
unfoldable pub replace : (old new : Bytes) → Bytes → Bytes
replace old new bs = replace_from old new 0 bs

-- `n[:-1]`
unfoldable pub but_last_byte : Bytes → Bytes
but_last_byte [] = []
but_last_byte (b ∷ []) = []
but_last_byte (b ∷ c ∷ bs) = b ∷ but_last_byte (c ∷ bs)

-- The loop, from the bytes that are kept so far.
unfoldable pub backspaces_from : Bytes → Bytes → Bytes
backspaces_from n [] = n
backspaces_from n (b ∷ bs) =
    backspaces_from (if b == 127 then but_last_byte n else n ++ encode_char b) bs

unfoldable pub process_backspaces : Bytes → Bytes
process_backspaces s = backspaces_from [] s

unfoldable pub remove_all : Bytes → List Bytes → Bytes
remove_all n [] = n
remove_all n (part ∷ parts) = remove_all (replace part [] n) parts

-- `data[data.index(b) + 1]`; `none` where there is no such byte.
unfoldable pub byte_after : ℕ → Bytes → Option ℕ
byte_after c [] = none
byte_after c (b ∷ []) = none
byte_after c (b ∷ d ∷ bs) = if b == c then some d else byte_after c (d ∷ bs)
