-- ===== src/Pool/Addresses.antt =====
-- The addresses of the guests (cowrie/src/backend_pool/pool_service.py, is_ip_free): which changes
-- of the list keep them distinct.
use honeybee_potstore.Base.{
  ℕ, zero, suc, ◌≡◌, refl, Bool, true, false, List, [], ◌∷◌, ◌++◌, map, arith, modify_at, keep,
}
use honeybee_potstore.Base.Text.{Text, text_eq, text_eq_comm}
use honeybee_potstore.Pool.Guest.{Guest}
use honeybee_potstore.Pool.Service.{ip_free_in}
use honeybee_potstore.Pool.Consumers.{with_guest}

-- No address is given to two guests.
abbrev pub Addresses : List Guest → Type 0
Addresses [] = Unit
Addresses (g ∷ gs) = (ip_free_in g.guest_ip gs ≡ true) × Addresses gs

-- A change that keeps a guest's address.
abbrev pub KeepsIp : (Guest → Guest) → Type 0
KeepsIp f = (g : Guest) → (f g).guest_ip ≡ g.guest_ip

ip_free-map :
    (f : Guest → Guest) (ip : Text) (gs : List Guest)
    → KeepsIp f
    → ip_free_in ip (map f gs) ≡ ip_free_in ip gs
unfolding ip_free_in
ip_free-map f ip [] k = refl
ip_free-map f ip (g ∷ gs) k = rw (k g, ip_free-map f ip gs k)

pub Addresses-map :
    (f : Guest → Guest) (gs : List Guest) → KeepsIp f → Addresses gs → Addresses (map f gs)
Addresses-map f [] k a = tt
Addresses-map f (g ∷ gs) k a =
    (rw (k g, ip_free-map f g.guest_ip gs k) a.0, Addresses-map f gs k a.1)

ip_free-modify_at :
    (f : Guest → Guest) (ip : Text) (i : ℕ) (gs : List Guest)
    → KeepsIp f
    → ip_free_in ip (modify_at i f gs) ≡ ip_free_in ip gs
unfolding ip_free_in
ip_free-modify_at f ip i [] k = refl
ip_free-modify_at f ip zero (g ∷ gs) k = rw (k g)
ip_free-modify_at f ip (suc i) (g ∷ gs) k = rw (ip_free-modify_at f ip i gs k)

pub Addresses-modify_at :
    (f : Guest → Guest) (i : ℕ) (gs : List Guest)
    → KeepsIp f
    → Addresses gs
    → Addresses (modify_at i f gs)
Addresses-modify_at f i [] k a = tt
Addresses-modify_at f zero (g ∷ gs) k a = (rw (k g) a.0, a.1)
Addresses-modify_at f (suc i) (g ∷ gs) k a =
    (rw (ip_free-modify_at f g.guest_ip i gs k) a.0, Addresses-modify_at f i gs k a.1)

ip_free-keep :
    (q : Guest → Bool) (ip : Text) (gs : List Guest)
    → ip_free_in ip gs ≡ true
    → ip_free_in ip (keep q gs) ≡ true
unfolding ip_free_in
ip_free-keep q ip [] h = refl
ip_free-keep q ip (g ∷ gs) h = ground (arith, ip_free-keep q ip gs)

pub Addresses-keep : (q : Guest → Bool) (gs : List Guest) → Addresses gs → Addresses (keep q gs)
Addresses-keep q [] a = tt
Addresses-keep q (g ∷ gs) a =
    ground (arith, Addresses-keep q gs a.1, ip_free-keep q g.guest_ip gs a.0)

ip_free-append :
    (ip : Text) (gs : List Guest) (h : Guest)
    → ip_free_in ip gs ≡ true
    → text_eq h.guest_ip ip ≡ false
    → ip_free_in ip (gs ++ h ∷ []) ≡ true
unfolding ip_free_in
ip_free-append ip [] h e d = rw d
ip_free-append ip (g ∷ gs) h e d = ground (arith, ip_free-append ip gs h)

pub Addresses-append :
    (gs : List Guest) (h : Guest)
    → ip_free_in h.guest_ip gs ≡ true
    → Addresses gs
    → Addresses (gs ++ h ∷ [])
unfolding ip_free_in
Addresses-append [] h e a = (refl, tt)
Addresses-append (g ∷ gs) h e a = ground (
  arith,
  Addresses-append gs h,
  ip_free-append g.guest_ip gs h a.0,
  text_eq_comm g.guest_ip h.guest_ip,
)

ip_free-with_guest :
    (f : Guest → Guest) (ip : Text) (id : ℕ) (gs : List Guest)
    → KeepsIp f
    → ip_free_in ip (with_guest id f gs) ≡ ip_free_in ip gs
unfolding ip_free_in with_guest
ip_free-with_guest f ip id [] k = refl
ip_free-with_guest f ip id (g ∷ gs) k = ground (arith, k g, ip_free-with_guest f ip id gs k)

pub Addresses-with_guest :
    (f : Guest → Guest) (id : ℕ) (gs : List Guest)
    → KeepsIp f
    → Addresses gs
    → Addresses (with_guest id f gs)
unfolding with_guest
Addresses-with_guest f id [] k a = tt
Addresses-with_guest f id (g ∷ gs) k a =
    ground (arith, k g, Addresses-with_guest f id gs k a.1, ip_free-with_guest f g.guest_ip id gs k)
