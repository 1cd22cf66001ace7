-- ===== src/Network/Filter.antt =====
-- resolve_cname and communication_allowed of cowrie/src/cowrie/core/network.py. The look-up of a name is a
-- parameter: what it answers for each name, since no name is looked up twice in one call.
use honeybee_potstore.Base.{
  ℕ, zero, suc, Bool, true, false, List, [], ◌∷◌, ◌||◌, not, Option, none, some, length, ◌==◌,
  if◌then◌else◌,
}
use honeybee_potstore.Base.Text.{Text, codes}
use honeybee_potstore.Base.Dict.{Eq}
use honeybee_potstore.Network.Addresses.{
  Address, Network, ip_address, str_ip, ip_network, contains_ip,
}

-- A resource record of an answer; `none` where `dottedQuad` raises.
pub data Rr (N : Type 0) : Type 0 where
  record_cname : (name : N) → Rr N
  record_a record_aaaa : (dotted_quad : Option Text) → Rr N
  other_record : Rr N

pub data Answer (N : Type 0) : Type 0 where
  raised nothing : Answer N
  answers : (headers : List (Rr N)) → Answer N

abbrev pub blocked_ips : List Text
blocked_ips =
    codes "0.0.0.0/8"
    ∷ codes "10.0.0.0/8"
    ∷ codes "172.16.0.0/12"
    ∷ codes "192.168.0.0/16"
    ∷ codes "169.254.0.0/16"
    ∷ codes "100.100.100.200"
    ∷ codes "127.0.0.0/8"
    ∷ codes "0.0.0.0/8"
    ∷ codes "224.0.0.0/4"
    ∷ codes "240.0.0.0/4"
    ∷ codes "255.255.255.255"
    ∷ codes "::1"
    ∷ []

-- The loop over the blocked networks, with its ValueError.
abbrev pub refused_by : Option Network → Address → Bool → Bool
refused_by none a rest = true
refused_by (some n) a rest = contains_ip n a || rest

unfoldable pub is_blocked : List Text → Address → Bool
is_blocked [] a = false
is_blocked (s ∷ ss) a = refused_by (ip_network s) a (is_blocked ss a)

abbrev pub passes : List Text → Option Address → Bool
passes blocked none = false
passes blocked (some a) = not (is_blocked blocked a)

-- What a call returns, with the set `visited`, which every call shares; `none` where the fuel is out.
abbrev pub Resolved : Type 0 → Type 0
Resolved N = Option (Option Text × List N)

module _ {N : Type 0} ⦃e : Eq N⦄ where
  unfoldable pub visited_name : N → List N → Bool
  visited_name a [] = false
  visited_name a (b ∷ vs) = e.beq b a || visited_name a vs

  -- `if resolved_ip: return resolved_ip`, else on with the loop.
  abbrev pub go_on : (List N → Resolved N) → Resolved N → Resolved N
  go_on rest none = none
  go_on rest (some (none, vs)) = rest vs
  go_on rest (some (some ip, vs)) = if length ip == 0 then rest vs else some (some ip, vs)

  -- The loop over the records; `resolve` is the call for a canonical name.
  unfoldable pub read_records : (N → List N → Resolved N) → List (Rr N) → List N → Resolved N
  read_records resolve [] vs = some (none, vs)
  read_records resolve (record_cname name ∷ rs) vs =
      go_on (read_records resolve rs) (resolve name vs)
  read_records resolve (record_a quad ∷ rs) vs = some (quad, vs)
  read_records resolve (record_aaaa quad ∷ rs) vs = some (quad, vs)
  read_records resolve (other_record ∷ rs) vs = read_records resolve rs vs

  abbrev pub read_answer : (N → List N → Resolved N) → Answer N → List N → Resolved N
  read_answer resolve raised vs = some (none, vs)
  read_answer resolve nothing vs = some (none, vs)
  read_answer resolve (answers rs) vs = read_records resolve rs vs

  module _ (lookup_address : N → Answer N) where
    unfoldable pub resolve_cname : ℕ → N → List N → Resolved N
    resolve_cname zero address vs = none
    resolve_cname (suc fuel) address vs = elim (visited_name address vs) [
      | true ↦ some (none, vs)
      | false ↦ read_answer (resolve_cname fuel) (lookup_address address) (address ∷ vs)
    ]

    abbrev pub on_resolved : Resolved N → Option Bool
    on_resolved none = none
    on_resolved (some (none, vs)) = some false
    on_resolved (some (some ip, vs)) = some (passes blocked_ips (ip_address ip))

    -- The name of an address that is no IP address.
    abbrev pub after_parse : ℕ → N → Option Address → Option Bool
    after_parse fuel name none = on_resolved (resolve_cname fuel name [])
    after_parse fuel name (some a) = some (passes blocked_ips (ip_address (str_ip a)))

    unfoldable pub communication_allowed : (name_of : Text → N) → ℕ → Text → Option Bool
    communication_allowed name_of fuel address =
        after_parse fuel (name_of address) (ip_address address)
