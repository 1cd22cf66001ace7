-- ===== src/Network/Tests.antt =====
-- Tests and witnesses for cowrie/src/cowrie/core/network.py.
use honeybee_potstore.Base.{
  ◌≡◌, refl, true, false, [], ◌∷◌, List, some, Bool, arith, if◌then◌else◌, Bool-cases, inl, inr,
}
use honeybee_potstore.Base.Text.{Text, codes, text_eq}
use honeybee_potstore.Base.Dict.{text_keys}
use honeybee_potstore.Auth.Strings.{split, has}
use honeybee_potstore.Network.Ipv4.{parse_ipv4, parse_octet, digits_from, show_ipv4, show_octet}
use honeybee_potstore.Network.Ipv6.{parse_ipv6, show_ipv6}
use honeybee_potstore.Network.Addresses.{Address, ip_address, str_ip, parse_v6, ip_network}
use honeybee_potstore.Network.Filter.{
  blocked_ips, communication_allowed, Answer, answers, nothing, record_cname, record_a,
  resolve_cname, read_records, visited_name, is_blocked,
}
use honeybee_potstore.Network.Ends.{Closed}
use honeybee_potstore.Network.Sound.{
  Tested, communication_allowed-Tested, communication_allowed-decides,
}
use honeybee_potstore.Network.Ranges.{communication_allowed-ranges}

-- Two names that are canonical names of each other; the second has an address too.
abbrev circle : Text → Answer Text
circle s =
    if text_eq s (codes "a.example")
    then answers (record_cname (codes "b.example") ∷ [])
    else if text_eq s (codes "b.example")
    then answers (record_cname (codes "a.example") ∷ record_a (some (codes "8.8.8.8")) ∷ [])
    else nothing

abbrev names : List Text
names = codes "a.example" ∷ codes "b.example" ∷ []

names-Closed : Closed circle names
unfolding visited_name text_eq
names-Closed a m = elim (Bool-cases (text_eq a (codes "a.example"))) [
  | inl q ↦ rw q (refl, tt)
  | inr q ↦ elim (Bool-cases (text_eq a (codes "b.example"))) [
    | inl r ↦ rw (q, r) (refl, (tt, tt))
    | inr r ↦ rw (q, r) tt
  ]
]

through_circle : communication_allowed circle (λ s. s) 3 (codes "a.example") ≡ some true
unfolding communication_allowed resolve_cname read_records visited_name text_eq ip_address
    parse_ipv4 parse_octet parse_v6 digits_from has split parse_ipv6 is_blocked ip_network
through_circle = refl

communication_allowed-decides_example :
    (b : Bool) × (communication_allowed circle (λ s. s) 3 (codes "b.example") ≡ some b)
unfolding visited_name text_eq
communication_allowed-decides_example =
    communication_allowed-decides circle (λ s. s) names (codes "b.example") names-Closed refl

communication_allowed-Tested_example :
    (ip : Text) × Tested circle (codes "a.example") (codes "a.example") ip
    × (a : Address) × (ip_address ip ≡ some a)
    × (is_blocked blocked_ips a ≡ false)
communication_allowed-Tested_example =
    communication_allowed-Tested circle (λ s. s) 3 (codes "a.example") through_circle

-- 10.1.2.3
communication_allowed-ranges_example :
    communication_allowed circle (λ s. s) 3 (show_ipv4 167838211) ≡ some false
communication_allowed-ranges_example =
    communication_allowed-ranges circle (λ s. s) 3 167838211 (omega arith)

-- An IPv4 address in an IPv6 one is in no blocked network.
mapped_loopback : communication_allowed circle (λ s. s) 3 (codes "::ffff:127.0.0.1") ≡ some true
unfolding communication_allowed str_ip ip_address parse_ipv4 parse_octet parse_v6 digits_from has
    split parse_ipv6 show_ipv6 is_blocked ip_network show_ipv4 show_octet
mapped_loopback = refl
