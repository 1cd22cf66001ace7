-- ===== src/Network/Ranges.antt =====
-- The blocked IPv4 networks of cowrie/src/cowrie/core/network.py, as ranges of numbers.
use honeybee_potstore.Base.{
  ℕ, ◌<◌, ◌≡◌, refl, ap, ◌∙◌, Bool, false, List, [], ◌∷◌, ◌&&◌, ◌||◌, not, Option, none, some,
  arith, ltb, leb,
}
use honeybee_potstore.Base.Text.{Text}
use honeybee_potstore.Base.Dict.{Eq}
use honeybee_potstore.Network.Ipv4.{parse_ipv4, parse_octet, digits_from, show_ipv4}
use honeybee_potstore.Network.Ipv6.{parse_ipv6}
use honeybee_potstore.Auth.Strings.{split, has}
use honeybee_potstore.Network.Octets.{parse_ipv4-show}
use honeybee_potstore.Network.Addresses.{
  Address, Network, ipv4, ipv6, ip_address, or_ipv6, ip_network, parse_v6, str_ip,
}
use honeybee_potstore.Network.Filter.{
  Answer, blocked_ips, is_blocked, communication_allowed, refused_by,
}

abbrev within : ℕ → ℕ → ℕ → Bool
within low past n = leb low n && ltb n past

-- 0/8, 10/8, 100.100.100.200, 127/8, 169.254/16, 172.16/12, 192.168/16, and all from 224 on.
abbrev pub in_ranges : ℕ → Bool
in_ranges n =
    within 0 16777216 n
    || within 167772160 184549376 n
    || within 1684301000 1684301001 n
    || within 2130706432 2147483648 n
    || within 2851995648 2852061184 n
    || within 2886729728 2887778304 n
    || within 3232235520 3232301056 n
    || within 3758096384 4294967296 n

abbrev net : ℕ → ℕ → Option Network
net base prefix = some (record { base = ipv4 base; prefix = prefix })

abbrev nets : List (Option Network)
nets =
    net 0 8
    ∷ net 167772160 8
    ∷ net 2886729728 12
    ∷ net 3232235520 16
    ∷ net 2851995648 16
    ∷ net 1684301000 32
    ∷ net 2130706432 8
    ∷ net 0 8
    ∷ net 3758096384 4
    ∷ net 4026531840 4
    ∷ net 4294967295 32
    ∷ some (record { base = ipv6 1 none; prefix = 128 })
    ∷ []

abbrev nets_of : List Text → List (Option Network)
nets_of [] = []
nets_of (s ∷ ss) = ip_network s ∷ nets_of ss

abbrev by_nets : Address → List (Option Network) → Bool
by_nets a [] = false
by_nets a (n ∷ ns) = refused_by n a (by_nets a ns)

is_blocked-nets : (a : Address) (ss : List Text) → is_blocked ss a ≡ by_nets a (nets_of ss)
unfolding is_blocked
is_blocked-nets a [] = refl
is_blocked-nets a (s ∷ ss) = ap (refused_by (ip_network s) a) (is_blocked-nets a ss)

networks : nets_of blocked_ips ≡ nets
unfolding ip_network split ip_address parse_ipv4 parse_octet parse_v6 digits_from has parse_ipv6
networks = refl

by_nets-ranges : (n : ℕ) → n < 4294967296 → by_nets (ipv4 n) nets ≡ in_ranges n
by_nets-ranges n h = ground arith

pub is_blocked-ranges : (n : ℕ) → n < 4294967296 → is_blocked blocked_ips (ipv4 n) ≡ in_ranges n
is_blocked-ranges n h =
    is_blocked-nets (ipv4 n) blocked_ips ∙ ap (by_nets (ipv4 n)) networks ∙ by_nets-ranges n h

ip_address-show : (n : ℕ) → n < 4294967296 → ip_address (show_ipv4 n) ≡ some (ipv4 n)
unfolding ip_address
ip_address-show n h = ap (or_ipv6 (show_ipv4 n)) (parse_ipv4-show n h)

-- An IPv4 address, written out, is allowed exactly if it is in none of the private, loopback,
-- link-local, metadata, multicast and reserved ranges; no name is looked up.
pub communication_allowed-ranges :
    {N : Type 0} ⦃e : Eq N⦄ (lookup_address : N → Answer N) (name_of : Text → N) (fuel n : ℕ)
    → n < 4294967296
    → communication_allowed lookup_address name_of fuel (show_ipv4 n) ≡ some (not (in_ranges n))
unfolding communication_allowed str_ip
communication_allowed-ranges lookup_address name_of fuel n h =
    rw (ip_address-show n h, ip_address-show n h, is_blocked-ranges n h) refl
