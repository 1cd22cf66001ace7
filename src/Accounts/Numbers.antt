-- ===== src/Accounts/Numbers.antt =====
-- `int(s)` of an ASCII text, as cowrie/src/cowrie/shell/pwd.py calls it.
use honeybee_potstore.Base.{
  ℕ, ◌+◌, ◌*◌, ◌-◌, Bool, true, false, [], ◌∷◌, ◌&&◌, Option, none, some, ◌==◌, leb, if◌then◌else◌,
}
use honeybee_potstore.Base.Int.{ℤ, pos, ◌-ℤ◌}
use honeybee_potstore.Base.Text.{Text}
use honeybee_potstore.Auth.Strings.{strip}

abbrev pub is_digit : ℕ → Bool
is_digit c = leb 48 c && leb c 57

-- The digits after at least one digit; an underscore may stand between two of them.
unfoldable pub digits : ℕ → Bool → Text → Option ℕ
digits n after_digit [] = if after_digit then some n else none
digits n after_digit (c ∷ s) =
    let more = digits (10 * n + (c - 48)) true s in
    let apart = digits n false s in
    if is_digit c then more else if (c == 95) && after_digit then apart else none

abbrev pub signed : Bool → Option ℕ → Option ℤ
signed minus none = none
signed minus (some n) = some (if minus then pos 0 -ℤ pos n else pos n)

unfoldable pub parse_signed : Text → Option ℤ
parse_signed [] = none
parse_signed (c ∷ s) =
    if c == 45
    then signed true (digits 0 false s)
    else if c == 43
    then signed false (digits 0 false s)
    else signed false (digits 0 false (c ∷ s))

unfoldable pub parse_int : Text → Option ℤ
parse_int s = parse_signed (strip s)

-- `except ValueError`: 1001.
abbrev pub or_1001 : Option ℤ → ℤ
or_1001 none = pos 1001
or_1001 (some n) = n
