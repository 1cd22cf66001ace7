-- ===== src/Pool/Consumers.antt =====
-- The consumers of PoolService (cowrie/src/backend_pool/pool_service.py): requests for a guest, and
-- its release.
use honeybee_potstore.Base.{
  ℕ, suc, Bool, List, [], ◌∷◌, ◌++◌, ◌&&◌, Option, none, some, Result, ok, err, no_available_vms,
  if◌then◌else◌, ◌==◌, get_elem?, modify_at,
}
use honeybee_potstore.Base.Int.{ℤ, pos, ◌+ℤ◌, ◌-ℤ◌, ltb_ℤ, eqb_ℤ}
use honeybee_potstore.Base.Text.{Text, contains}
use honeybee_potstore.Pool.Guest.{Guest, available, using, used, unset, is_in}
use honeybee_potstore.Pool.Service.{PoolService, stop_pool}

-- The position of the first guest with a property: the guest object that a `for` loop returns.
unfoldable pub first_where : (Guest → Bool) → List Guest → Option ℕ
first_where p [] = none
first_where p (g ∷ gs) =
    let rest = first_where p gs in
    if p g then some 0 else elim rest [ none ↦ none | some i ↦ some (suc i) ]

abbrev pub serves : Text → Guest → Bool
serves src_ip g = is_in g.state (used ∷ using ∷ []) && contains src_ip g.client_ips

abbrev pub is_available : Guest → Bool
is_available g = is_in g.state (available ∷ [])

abbrev pub is_shared : Guest → Bool
is_shared g = is_in g.state (using ∷ used ∷ [])

unfoldable pub consumers_get_guest_ip : Text → PoolService → Option ℕ
unfolding first_where
consumers_get_guest_ip src_ip p = first_where (serves src_ip) p.guests

unfoldable pub consumers_get_available_guest : PoolService → Option ℕ
unfolding first_where
consumers_get_available_guest p = first_where is_available p.guests

unfoldable pub lesser : Guest → Option (ℕ × ℤ) → ℕ × ℤ
lesser g none = (0, g.connected)
lesser g (some (i, k)) = if ltb_ℤ k g.connected then (suc i, k) else (0, g.connected)

abbrev pub shifted : Option (ℕ × ℤ) → Option (ℕ × ℤ)
shifted none = none
shifted (some (i, k)) = some (suc i, k)

-- `min(usable_guests, key=lambda guest: guest.connected)`: the position of the first guest with the
-- fewest clients, and their number.
unfoldable pub fewest : List Guest → Option (ℕ × ℤ)
unfolding lesser
fewest [] = none
fewest (g ∷ gs) = let rest = fewest gs in if is_shared g then some (lesser g rest) else shifted rest

unfoldable pub consumers_get_any_guest : PoolService → Option ℕ
unfolding fewest
consumers_get_any_guest p = elim (fewest p.guests) [ none ↦ none | some (i, k) ↦ some i ]

-- The guest that a request takes: one that serves the address, an available one, or any in use if
-- guests are shared.
unfoldable pub choose : Text → PoolService → Option ℕ
unfolding consumers_get_guest_ip consumers_get_available_guest consumers_get_any_guest
choose src_ip p = elim (consumers_get_guest_ip src_ip p) [
  | some i ↦ some i
  | none ↦ elim (consumers_get_available_guest p) [
    | some i ↦ some i
    | none ↦ if p.share_guests then consumers_get_any_guest p else none
  ]
]

unfoldable pub claim : Text → Guest → Guest
claim src_ip g = record g {
  prev_state = g.state;
  state = using;
  connected = g.connected +ℤ pos 1;
  client_ips = g.client_ips ++ src_ip ∷ [];
}

unfoldable pub refuse : Result (Unit {0}) × PoolService → Result (ℕ × Text × Text) × PoolService
refuse (ok _, q) = (err no_available_vms, q)
refuse (err e, q) = (err e, q)

-- With no guest, a pool in which one was up before is stopped; an exception of `stop_pool` comes
-- through.
unfoldable pub no_guest : PoolService → Result (ℕ × Text × Text) × PoolService
unfolding stop_pool refuse
no_guest p = if p.any_vm_up then refuse (stop_pool p) else (err no_available_vms, p)

-- One step here; the code looks for the guest under the lock, and changes it after that.
unfoldable pub request_vm : Text → PoolService → Result (ℕ × Text × Text) × PoolService
unfolding choose no_guest claim
request_vm src_ip p = elim (choose src_ip p) [
  | none ↦ no_guest p
  | some i ↦ elim (get_elem? p.guests i) [
    | none ↦ no_guest p
    | some g ↦ (
      ok (g.id, g.guest_ip, g.snapshot),
      record p { guests = modify_at i (claim src_ip) p.guests },
    )
  ]
]

-- A loop that changes the first guest with an id and returns.
unfoldable pub with_guest : ℕ → (Guest → Guest) → List Guest → List Guest
with_guest id f [] = []
with_guest id f (g ∷ gs) = if g.id == id then f g ∷ gs else g ∷ with_guest id f gs

unfoldable pub freed : ℕ → Guest → Guest
freed now g =
    let connected = g.connected -ℤ pos 1 in
    record g {
      freed_timestamp = pos now;
      connected = connected;
      state = if eqb_ℤ connected (pos 0) then used else g.state;
    }

unfoldable pub free_vm : ℕ → ℕ → PoolService → PoolService
unfolding with_guest freed
free_vm now guest_id p = record p { guests = with_guest guest_id (freed now) p.guests }

unfoldable pub reused : Guest → Guest
reused g =
    let connected = g.connected -ℤ pos 1 in
    let last = eqb_ℤ connected (pos 0) in
    record g {
      connected = connected;
      state = if last then g.prev_state else g.state;
      prev_state = if last then unset else g.prev_state;
    }

unfoldable pub reuse_vm : ℕ → PoolService → PoolService
unfolding with_guest reused
reuse_vm guest_id p = record p { guests = with_guest guest_id reused p.guests }
