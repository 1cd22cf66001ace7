-- ===== src/Network/Ipv6.antt =====
-- IPv6 addresses of Python's `ipaddress`, as cowrie/src/cowrie/core/network.py reads and prints them.
use honeybee_potstore.Base.{
  ℕ, zero, suc, ◌+◌, ◌*◌, ◌-◌, ◌/◌, ◌%◌, ◌^◌, Bool, false, List, [], ◌∷◌, ◌++◌, map, ◌&&◌, ◌||◌,
  not, Option, none, some, ◌==◌, ltb, leb, if◌then◌else◌, length, take, drop,
}
use honeybee_potstore.Base.Text.{Text}
use honeybee_potstore.Accounts.Numbers.{is_digit}
use honeybee_potstore.Auth.Strings.{split, has, hex_digit}
use honeybee_potstore.Network.Ipv4.{parse_ipv4}

abbrev nibble : ℕ → Option ℕ
nibble c =
    if is_digit c
    then some (c - 48)
    else if leb 97 c && leb c 102
    then some (c - 87)
    else if leb 65 c && leb c 70
    then some (c - 55)
    else none

unfoldable hex_from : ℕ → Text → Option ℕ
hex_from n [] = some n
hex_from n (c ∷ s) = elim (nibble c) [ none ↦ none | some d ↦ hex_from (16 * n + d) s ]

-- One to four digits.
unfoldable parse_hextet : Text → Option ℕ
unfolding hex_from
parse_hextet s = if (length s == 0) || ltb 4 (length s) then none else hex_from 0 s

unfoldable parse_hextets : ℕ → List Text → Option ℕ
parse_hextets n [] = some n
parse_hextets n (s ∷ ss) = elim (parse_hextet s) [
  | none ↦ none
  | some h ↦ parse_hextets (65536 * n + h) ss
]

unfoldable hex : ℕ → Text
hex n =
    if ltb n 16
    then hex_digit n ∷ []
    else if ltb n 256
    then hex_digit (n / 16) ∷ hex_digit (n % 16) ∷ []
    else if ltb n 4096
    then hex_digit (n / 256) ∷ hex_digit (n / 16 % 16) ∷ hex_digit (n % 16) ∷ []
    else hex_digit (n / 4096)
      ∷ hex_digit (n / 256 % 16)
      ∷ hex_digit (n / 16 % 16)
      ∷ hex_digit (n % 16)
      ∷ []

abbrev as_hextets : Option ℕ → Option (List Text)
as_hextets none = none
as_hextets (some n) = some (hex (n / 65536) ∷ hex (n % 65536) ∷ [])

abbrev onto : Text → Option (List Text) → Option (List Text)
onto s none = none
onto s (some ss) = some (s ∷ ss)

-- A last part with a dot is an IPv4 address, and stands for two parts.
unfoldable expand_ipv4 : List Text → Option (List Text)
unfolding hex
expand_ipv4 [] = some []
expand_ipv4 (s ∷ []) = if has 46 s then as_hextets (parse_ipv4 s) else some (s ∷ [])
expand_ipv4 (s ∷ t ∷ ss) = onto s (expand_ipv4 (t ∷ ss))

-- The parts before the last one, and whether the last one is empty.
abbrev inner : List Text → List Text
inner [] = []
inner (s ∷ []) = []
inner (s ∷ t ∷ ss) = s ∷ inner (t ∷ ss)

abbrev last_empty : List Text → Bool
last_empty [] = false
last_empty (s ∷ []) = length s == 0
last_empty (s ∷ t ∷ ss) = last_empty (t ∷ ss)

-- The positions of the empty parts between the first and the last, from `i` on.
abbrev gaps : ℕ → List Text → List ℕ
gaps i [] = []
gaps i (s ∷ ss) = let rest = gaps (suc i) ss in if length s == 0 then i ∷ rest else rest

abbrev first_empty : List Text → Bool
first_empty [] = false
first_empty (s ∷ ss) = length s == 0

abbrev shift_on : ℕ → List Text → Option ℕ → Option ℕ
shift_on skipped low none = none
shift_on skipped low (some high) = parse_hextets (high * 65536 ^ skipped) low

-- `::` at position `i` stands for the hextets that are missing, at least one.
unfoldable with_gap : ℕ → List Text → Option ℕ
unfolding parse_hextets parse_hextet
with_gap i parts =
    let lo = length parts - i - 1 in
    let hi' = if first_empty parts then i - 1 else i in
    let lo' = if last_empty parts then lo - 1 else lo in
    if (first_empty parts && not (hi' == 0))
      || (last_empty parts && not (lo' == 0))
      || ltb 7 (hi' + lo')
    then none
    else shift_on (8 - (hi' + lo')) (drop (length parts - lo') parts)
        (parse_hextets 0 (take hi' parts))

unfoldable without_gap : List Text → Option ℕ
unfolding parse_hextets parse_hextet
without_gap parts =
    if not (length parts == 8) || first_empty parts || last_empty parts
    then none
    else parse_hextets 0 parts

unfoldable by_gaps : List Text → List ℕ → Option ℕ
unfolding with_gap without_gap
by_gaps parts [] = without_gap parts
by_gaps parts (i ∷ []) = with_gap i parts
by_gaps parts (i ∷ j ∷ is) = none

unfoldable from_parts : Option (List Text) → Option ℕ
from_parts none = none
from_parts (some parts) =
    if ltb 9 (length parts) then none else by_gaps parts (gaps 1 (inner (drop 1 parts)))

-- `_ip_int_from_string`.
unfoldable pub parse_ipv6 : Text → Option ℕ
unfolding expand_ipv4 from_parts by_gaps
parse_ipv6 s =
    let parts = split 58 s in if ltb (length parts) 3 then none else from_parts (expand_ipv4 parts)

-- The longest run of zeros, the first of those: its start and its length.
abbrev longest : ℕ → ℕ → ℕ × ℕ → List ℕ → ℕ × ℕ
longest i run best [] = best
longest i run best (h ∷ hs) =
    let zeros =
      longest (suc i) (suc run) (if ltb best.1 (suc run) then (i - run, suc run) else best) hs in
    let other = longest (suc i) 0 best hs in if h == 0 then zeros else other

abbrev hextets : ℕ → ℕ → List ℕ
hextets zero n = []
hextets (suc k) n = (n / 65536 ^ k % 65536) ∷ hextets k n

abbrev join_colons : List Text → Text
join_colons [] = []
join_colons (s ∷ []) = s
join_colons (s ∷ t ∷ ss) = s ++ 58 ∷ join_colons (t ∷ ss)

unfoldable pub show_ipv6 : ℕ → Text
unfolding hex
show_ipv6 n =
    let hs = hextets 8 n in
    let best = longest 0 0 (0, 0) hs in
    let low = drop (best.0 + best.1) hs in
    join_colons (
      if ltb 1 best.1
      then (if best.0 == 0 then [] ∷ [] else [])
        ++ map hex (take best.0 hs)
        ++ [] ∷ map hex low
        ++ (if length low == 0 then [] ∷ [] else [])
      else map hex hs)
