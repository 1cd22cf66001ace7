-- ===== src/Network/Ipv4.antt =====
-- IPv4 addresses of Python's `ipaddress`, as cowrie/src/cowrie/core/network.py reads and prints them.
use honeybee_potstore.Base.{
  ℕ, ◌+◌, ◌*◌, ◌-◌, ◌/◌, ◌%◌, List, [], ◌∷◌, ◌++◌, ◌&&◌, not, Option, none, some, ◌==◌, ltb, leb,
  if◌then◌else◌, length,
}
use honeybee_potstore.Base.Text.{Text}
use honeybee_potstore.Accounts.Numbers.{is_digit}
use honeybee_potstore.Auth.Strings.{split}

-- The rest of a number whose digits so far are `n`; `none` at another character.
unfoldable pub digits_from : ℕ → Text → Option ℕ
digits_from n [] = some n
digits_from n (c ∷ s) =
    let rest = digits_from (10 * n + (c - 48)) s in if is_digit c then rest else none

abbrev pub at_most : ℕ → Option ℕ → Option ℕ
at_most top none = none
at_most top (some n) = if leb n top then some n else none

-- One of four: one to three digits, no leading zero, at most 255.
unfoldable pub parse_octet : Text → Option ℕ
parse_octet [] = none
parse_octet (c ∷ s) =
    if (c == 48) && not (length s == 0)
    then none
    else if ltb 2 (length s)
    then none
    else at_most 255 (digits_from 0 (c ∷ s))

abbrev pub join_octets : Option ℕ → Option ℕ → Option ℕ → Option ℕ → Option ℕ
join_octets (some a) (some b) (some c) (some d) = some (((a * 256 + b) * 256 + c) * 256 + d)
join_octets _ _ _ _ = none

abbrev pub four_octets : List Text → Option ℕ
four_octets (a ∷ b ∷ c ∷ d ∷ []) =
    join_octets (parse_octet a) (parse_octet b) (parse_octet c) (parse_octet d)
four_octets _ = none

unfoldable pub parse_ipv4 : Text → Option ℕ
parse_ipv4 s = four_octets (split 46 s)

-- Decimal digits of a number below 1000.
unfoldable pub show_octet : ℕ → Text
show_octet n =
    if ltb n 10
    then (48 + n) ∷ []
    else if ltb n 100
    then (48 + n / 10) ∷ (48 + n % 10) ∷ []
    else (48 + n / 100) ∷ (48 + n / 10 % 10) ∷ (48 + n % 10) ∷ []

unfoldable pub show_ipv4 : ℕ → Text
show_ipv4 n =
    show_octet (n / 16777216)
    ++ 46
      ∷ (show_octet (n / 65536 % 256)
          ++ 46 ∷ (show_octet (n / 256 % 256) ++ 46 ∷ show_octet (n % 256)))
