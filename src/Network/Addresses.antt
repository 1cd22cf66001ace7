-- ===== src/Network/Addresses.antt =====
-- What cowrie/src/cowrie/core/network.py uses of Python's `ipaddress`: addresses of either version, and networks.
use honeybee_potstore.Base.{
  ℕ, ◌-◌, ◌/◌, ◌^◌, Bool, false, List, [], ◌∷◌, ◌++◌, Option, none, some, ◌==◌, if◌then◌else◌,
  length,
}
use honeybee_potstore.Base.Text.{Text}
use honeybee_potstore.Auth.Strings.{split, has}
use honeybee_potstore.Network.Ipv4.{parse_ipv4, show_ipv4, digits_from, at_most}
use honeybee_potstore.Network.Ipv6.{parse_ipv6, show_ipv6}

pub data Address : Type 0 where
  ipv4 : ℕ → Address
  ipv6 : ℕ → (scope : Option Text) → Address

abbrev with_scope : Option ℕ → Option Text → Option Address
with_scope none scope = none
with_scope (some n) scope = some (ipv6 n scope)

-- A scope follows `%`, is not empty and has no other `%`.
abbrev scoped : List Text → Option Address
scoped (s ∷ []) = with_scope (parse_ipv6 s) none
scoped (s ∷ scope ∷ []) = if length scope == 0 then none else with_scope (parse_ipv6 s) (some scope)
scoped _ = none

unfoldable pub parse_v6 : Text → Option Address
parse_v6 s = if has 47 s then none else scoped (split 37 s)

abbrev pub or_ipv6 : Text → Option ℕ → Option Address
or_ipv6 s none = parse_v6 s
or_ipv6 s (some n) = some (ipv4 n)

-- `ipaddress.ip_address(s)`: `none` stands for ValueError.
unfoldable pub ip_address : Text → Option Address
ip_address s = or_ipv6 s (parse_ipv4 s)

-- `str(ip)`
unfoldable pub str_ip : Address → Text
str_ip (ipv4 n) = show_ipv4 n
str_ip (ipv6 n none) = show_ipv6 n
str_ip (ipv6 n (some scope)) = show_ipv6 n ++ 37 ∷ scope

-- An address of a network, and the length of its prefix.
pub record Network : Type 0 where
  pub base : Address
  pub prefix : ℕ

abbrev bits : Address → ℕ
bits (ipv4 n) = 32
bits (ipv6 n scope) = 128

abbrev prefixed : Address → Option ℕ → Option Network
prefixed a none = none
prefixed a (some p) = some (record { base = a; prefix = p })

abbrev network_of : Option Address → Option (Option ℕ) → Option Network
network_of none _ = none
network_of (some a) none = some (record { base = a; prefix = bits a })
network_of (some a) (some p) = prefixed a (at_most (bits a) p)

-- `ipaddress.ip_network(s, strict=False)`, of a network whose mask is written as a length.
unfoldable ip_network_parts : List Text → Option Network
ip_network_parts (s ∷ []) = network_of (ip_address s) none
ip_network_parts (s ∷ p ∷ []) =
    network_of (ip_address s) (some (if length p == 0 then none else digits_from 0 p))
ip_network_parts _ = none

unfoldable pub ip_network : Text → Option Network
unfolding ip_network_parts
ip_network s = ip_network_parts (split 47 s)

-- `ip in network`: the same version, and equal up to the prefix.
abbrev pub in_prefix : Address → Address → ℕ → Bool
in_prefix (ipv4 n) (ipv4 m) p = n / 2 ^ (32 - p) == m / 2 ^ (32 - p)
in_prefix (ipv6 n _) (ipv6 m _) p = n / 2 ^ (128 - p) == m / 2 ^ (128 - p)
in_prefix _ _ p = false

abbrev pub contains_ip : Network → Address → Bool
contains_ip n a = in_prefix a n.base n.prefix
