-- ===== src/Network/Sound.antt =====
-- What communication_allowed of cowrie/src/cowrie/core/network.py lets through, and that it returns.
use mathlib.Core.List.{Memᴰ}
use honeybee_potstore.Base.{
  ℕ, zero, suc, ◌≡◌, refl, Bool, true, false, List, [], ◌∷◌, Option, none, some, arith, length,
  ◌==◌, Bool-cases, ◌⊎◌, inl, inr,
}
use honeybee_potstore.Base.Text.{Text}
use honeybee_potstore.Base.Dict.{Eq}
use honeybee_potstore.Network.Addresses.{Address, ip_address, str_ip}
use honeybee_potstore.Network.Ends.{Closed, resolve_cname-returns}
use honeybee_potstore.Network.Filter.{
  Rr, record_cname, record_a, record_aaaa, other_record, Answer, raised, nothing, answers,
  visited_name, Resolved, go_on, read_records, read_answer, resolve_cname, on_resolved, after_parse,
  communication_allowed, passes, is_blocked, blocked_ips,
}

-- The addresses that the records of a name lead to, by way of canonical names.
pub data Leads {N : Type 0} (lookup_address : N → Answer N) : N → Text → Type 0 where
  by_record :
      {a : N} {rs : List (Rr N)} {ip : Text}
      → lookup_address a ≡ answers rs
      → Memᴰ (record_a (some ip)) rs ⊎ Memᴰ (record_aaaa (some ip)) rs
      → Leads lookup_address a ip
  by_cname :
      {a b : N} {rs : List (Rr N)} {ip : Text}
      → lookup_address a ≡ answers rs
      → Memᴰ (record_cname b) rs
      → Leads lookup_address b ip
      → Leads lookup_address a ip

module _ {N : Type 0} ⦃e : Eq N⦄ (lookup_address : N → Answer N) where
  -- An address that a call gives is one that its name leads to.
  abbrev Sound : N → Resolved N → Type 0
  Sound a r = (ip : Text) (vs : List N) → r ≡ some (some ip, vs) → Leads lookup_address a ip

  go_on-Sound :
      (a : N) (rest : List N → Resolved N) (r : Resolved N)
      → ((vs : List N) → Sound a (rest vs))
      → Sound a r
      → Sound a (go_on rest r)
  go_on-Sound a rest none h s ip vs q = cc
  go_on-Sound a rest (some (none, ws)) h s ip vs q = h ws ip vs q
  go_on-Sound a rest (some (some t, ws)) h s ip vs q = elim (Bool-cases (length t == 0)) [
    | inl z ↦ h ws ip vs (rw z at q)
    | inr z ↦ s ip vs (rw z at q)
  ]

  read_records-Sound :
      (resolve : N → List N → Resolved N) (a : N) (all rs : List (Rr N)) (vs : List N)
      → ((b : N) (ws : List N) → Sound b (resolve b ws))
      → lookup_address a ≡ answers all
      → ((r : Rr N) → Memᴰ r rs → Memᴰ r all)
      → Sound a (read_records resolve rs vs)
  unfolding read_records
  read_records-Sound resolve a all [] vs h q sub ip ws r = cc
  read_records-Sound resolve a all (record_a quad ∷ rs) vs h q sub ip ws r =
      let same : record_a (some ip) ≡ record_a quad = cc in
      by_record q (inl (sub _ (Memᴰ.head same)))
  read_records-Sound resolve a all (record_aaaa quad ∷ rs) vs h q sub ip ws r =
      let same : record_aaaa (some ip) ≡ record_aaaa quad = cc in
      by_record q (inr (sub _ (Memᴰ.head same)))
  read_records-Sound resolve a all (other_record ∷ rs) vs h q sub ip ws r =
      read_records-Sound resolve a all rs vs h q (λ r m. sub r (Memᴰ.tail m)) ip ws r
  read_records-Sound resolve a all (record_cname b ∷ rs) vs h q sub ip ws r =
      go_on-Sound a (read_records resolve rs) (resolve b vs)
        (λ ws. read_records-Sound resolve a all rs ws h q λ r m. sub r (Memᴰ.tail m))
        (λ ip ws r. by_cname q (sub _ (Memᴰ.head refl)) (h b vs ip ws r)) ip ws r

  read_answer-Sound :
      (resolve : N → List N → Resolved N) (a : N) (x : Answer N) (vs : List N)
      → ((b : N) (ws : List N) → Sound b (resolve b ws))
      → lookup_address a ≡ x
      → Sound a (read_answer resolve x vs)
  read_answer-Sound resolve a raised vs h q ip ws r = cc
  read_answer-Sound resolve a nothing vs h q ip ws r = cc
  read_answer-Sound resolve a (answers rs) vs h q ip ws r =
      read_records-Sound resolve a rs rs vs h q (λ r m. m) ip ws r

  resolve_cname-Sound :
      (fuel : ℕ) (a : N) (vs : List N) → Sound a (resolve_cname lookup_address fuel a vs)
  unfolding resolve_cname
  resolve_cname-Sound zero a vs ip ws r = cc
  resolve_cname-Sound (suc fuel) a vs ip ws r = elim (Bool-cases (visited_name a vs)) [
    | inl seen ↦ cc (rw (resolve_cname, seen) at r)
    | inr new ↦
        read_answer-Sound (resolve_cname lookup_address fuel) a (lookup_address a) (a ∷ vs)
          (resolve_cname-Sound fuel) refl ip ws (rw (resolve_cname, new) at r)
  ]

  -- The address that is tested: the one that was given, printed, or one that the name leads to.
  abbrev pub Tested : N → Text → Text → Type 0
  Tested name address ip =
      ((b : Address) × (ip_address address ≡ some b) × (ip ≡ str_ip b))
      ⊎ ((ip_address address ≡ none) × Leads lookup_address name ip)

  passes-lem :
      (x : Option Address)
      → passes blocked_ips x ≡ true
      → (a : Address) × (x ≡ some a) × (is_blocked blocked_ips a ≡ false)
  passes-lem none h = cc
  passes-lem (some a) h = (a, refl, ground arith)

  after_parse-Tested :
      (name : N) (address : Text) (fuel : ℕ) (x : Option Address)
      → ip_address address ≡ x
      → after_parse lookup_address fuel name x ≡ some true
      → (ip : Text) × Tested name address ip
        × (a : Address) × (ip_address ip ≡ some a)
        × (is_blocked blocked_ips a ≡ false)
  after_parse-Tested name address fuel (some b) q h =
      let (a, p, c) = passes-lem (ip_address (str_ip b)) cc in (str_ip b, inl (b, q, refl), a, p, c)
  after_parse-Tested name address fuel none q h =
      resolved (resolve_cname lookup_address fuel name []) refl h
    where
      resolved :
          (r : Resolved N)
          → resolve_cname lookup_address fuel name [] ≡ r
          → on_resolved lookup_address r ≡ some true
          → (ip : Text) × Tested name address ip
            × (a : Address) × (ip_address ip ≡ some a)
            × (is_blocked blocked_ips a ≡ false)
      resolved none p k = cc
      resolved (some (none, vs)) p k = cc
      resolved (some (some ip, vs)) p k =
          let (a, l, c) = passes-lem (ip_address ip) cc in
          (ip, inr (q, resolve_cname-Sound fuel name [] ip vs p), a, l, c)

-- Whatever is allowed, however far names had to be followed, is an address in no blocked network: the
-- one that was given, or one that the records of the given name lead to.
pub communication_allowed-Tested :
    {N : Type 0} ⦃e : Eq N⦄ (lookup_address : N → Answer N) (name_of : Text → N) (fuel : ℕ)
    (address : Text)
    → communication_allowed lookup_address name_of fuel address ≡ some true
    → (ip : Text) × Tested lookup_address (name_of address) address ip
      × (a : Address) × (ip_address ip ≡ some a)
      × (is_blocked blocked_ips a ≡ false)
unfolding communication_allowed
communication_allowed-Tested lookup_address name_of fuel address h =
    after_parse-Tested lookup_address (name_of address) address fuel (ip_address address) refl h

after_parse-some :
    {N : Type 0} ⦃e : Eq N⦄ (lookup_address : N → Answer N) (fuel : ℕ) (name : N)
    (x : Option Address) (ip : Option Text) (vs : List N)
    → resolve_cname lookup_address fuel name [] ≡ some (ip, vs)
    → (b : Bool) × (after_parse lookup_address fuel name x ≡ some b)
after_parse-some lookup_address fuel name (some a) ip vs q = (_, refl)
after_parse-some lookup_address fuel name none none vs q = (false, rw q refl)
after_parse-some lookup_address fuel name none (some ip) vs q =
    (passes blocked_ips (ip_address ip), rw q refl)

-- Where finitely many names are reached from the given one, the test ends, with one look-up more than there are
-- names, and says yes or no: canonical names that point at each other in a circle do not hold it up.
pub communication_allowed-decides :
    {N : Type 0} ⦃e : Eq N⦄ (lookup_address : N → Answer N) (name_of : Text → N) (zs : List N)
    (address : Text)
    → Closed lookup_address zs
    → visited_name (name_of address) zs ≡ true
    → (b : Bool) × (communication_allowed lookup_address name_of (suc (length zs)) address ≡ some b)
unfolding communication_allowed
communication_allowed-decides lookup_address name_of zs address closed m =
    let (ip, vs, q) = resolve_cname-returns lookup_address zs closed (name_of address) m in
    after_parse-some lookup_address (suc (length zs)) (name_of address) (ip_address address) ip vs q
