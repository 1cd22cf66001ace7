-- ===== src/Pool/Producer.antt =====
-- The producer of PoolService (cowrie/src/backend_pool/pool_service.py): one pass of the loop that
-- retires, destroys, creates and boots guests.
use mathlib.Core.List.{erase}
use native.Mathlib.Decide.{ℕ_discrete}
use honeybee_potstore.Base.{
  ℕ, zero, suc, ◌+◌, ◌-◌, Bool, false, List, [], ◌∷◌, ◌++◌, ◌||◌, not, Result, ok, err, map,
  if◌then◌else◌, ◌==◌, ltb,
}
use honeybee_potstore.Base.Int.{ℤ, pos, negsuc, ◌+ℤ◌, ltb_ℤ}
use honeybee_potstore.Base.Text.{Text}
use honeybee_potstore.Pool.Guest.{
  Guest, GuestState, created, available, using, used, unavailable, destroyed, unset, is_in,
}
use honeybee_potstore.Pool.Service.{
  PoolService, QemuCall, destroy_guest, create_guest, scheduled, get_guest_states,
  existing_pool_size, is_ip_free, has_connectivity,
}

-- What `create_guest` of the backend returns.
pub record Created : Type 0 where
  pub domain : ℕ
  pub snapshot : Text
  pub guest_ip : Text

-- What one pass meets outside the service: the clock at each guest, the network when health and
-- when boot is checked, the clock at each creation, and what the backend does at the n-th creation
-- (which is handed the test of a free address) and at each destruction.
pub record Pass : Type 0 where
  pub now : Guest → ℕ
  pub nmap_health : Text → ℤ → Bool
  pub nmap_boot : Text → ℤ → Bool
  pub time : ℕ → ℕ
  pub qemu_create : ℕ → (Text → Bool) → Result Created
  pub qemu_destroy : Guest → Result (Unit {0})

-- A loop over the guests in some states, which may change each of them.
unfoldable pub for_guests : List GuestState → (Guest → Guest) → PoolService → PoolService
for_guests states f p = record p {
  guests = map (λ g. if is_in g.state states then f g else g) p.guests;
}

unfoldable pub retire_if : Bool → Guest → Guest
retire_if b g = if b then record g { state = unavailable } else g

unfoldable pub timed_out : Pass → ℕ → Guest → Bool
timed_out pass timeout g = ltb_ℤ (g.freed_timestamp +ℤ pos timeout) (pos (pass.now g))

unfoldable pub producer_mark_timed_out : Pass → ℕ → PoolService → PoolService
unfolding for_guests retire_if timed_out
producer_mark_timed_out pass timeout =
    for_guests (used ∷ []) (λ g. retire_if (timed_out pass timeout g) g)

unfoldable pub producer_check_health : Pass → PoolService → PoolService
unfolding for_guests retire_if has_connectivity
producer_check_health pass p =
    for_guests (available ∷ using ∷ used ∷ [])
      (λ g. retire_if (not (has_connectivity pass.nmap_health g.guest_ip p)) g) p

-- An exception of the backend is logged, and leaves the guest as it is.
unfoldable pub destroy_one : Pass → Guest → Guest
destroy_one pass g = elim (pass.qemu_destroy g) [
  | ok _ ↦ record g { state = destroyed }
  | err _ ↦ g
]

unfoldable pub calls_for : List Guest → List QemuCall
calls_for [] = []
calls_for (g ∷ gs) = destroy_guest g.domain g.snapshot ∷ calls_for gs

unfoldable pub producer_destroy_timed_out : Pass → PoolService → PoolService
unfolding for_guests destroy_one calls_for get_guest_states
producer_destroy_timed_out pass p = record (for_guests (unavailable ∷ []) (destroy_one pass) p) {
  qemu_calls = p.qemu_calls ++ calls_for (get_guest_states (unavailable ∷ []) p);
}

pub ℤ-discrete : Discrete ℤ
ℤ-discrete = hlevel ℕ_discrete

pub GuestState-discrete : Discrete GuestState
GuestState-discrete = hlevel

-- `==` of two guests compares all fields.
pub Guest-discrete : Discrete Guest
Guest-discrete = hlevel ℕ_discrete

-- `self.guests.remove(guest)` for each guest of a list.
unfoldable pub remove_all : List Guest → List Guest → List Guest
remove_all [] gs = gs
remove_all (d ∷ ds) gs = remove_all ds (erase Guest-discrete gs d)

unfoldable pub producer_remove_destroyed : PoolService → PoolService
unfolding remove_all get_guest_states
producer_remove_destroyed p = record p {
  guests = remove_all (get_guest_states (destroyed ∷ []) p) p.guests;
}

unfoldable pub any_up : (Guest → Bool) → List Guest → Bool
any_up up [] = false
any_up up (g ∷ gs) = up g || any_up up gs

unfoldable pub boot_if : Bool → Guest → Guest
boot_if b g = if b then record g { state = available } else g

unfoldable pub producer_mark_available : Pass → PoolService → PoolService
unfolding for_guests has_connectivity get_guest_states any_up boot_if
producer_mark_available pass p =
    let up = λ (g : Guest). has_connectivity pass.nmap_boot g.guest_ip p in
    record (for_guests (created ∷ []) (λ g. boot_if (up g) g) p) {
      any_vm_up = p.any_vm_up || any_up up (get_guest_states (created ∷ []) p);
    }

unfoldable pub new_guest : ℕ → ℕ → Created → Guest
new_guest id time c = record {
  id = id;
  state = created;
  prev_state = unset;
  start_timestamp = time;
  guest_ip = c.guest_ip;
  connected = pos 0;
  client_ips = [];
  freed_timestamp = negsuc 0;
  domain = c.domain;
  snapshot = c.snapshot;
  name = [];
}

-- The counter is reset at 252.
unfoldable pub next_id : ℕ → ℕ
next_id n = if n + 1 == 252 then 0 else n + 1

unfoldable pub add_guest : ℕ → Created → PoolService → PoolService
unfolding new_guest next_id
add_guest time c p = record p {
  guests = p.guests ++ new_guest p.guest_id time c ∷ [];
  guest_id = next_id p.guest_id;
}

unfoldable pub called_create : PoolService → PoolService
called_create p = record p { qemu_calls = p.qemu_calls ++ create_guest ∷ [] }

-- `for _ in range(to_create)`, at the i-th round; an exception ends the loop and the pass.
unfoldable pub create_loop : Pass → ℕ → ℕ → PoolService → Result (Unit {0}) × PoolService
unfolding add_guest called_create is_ip_free
create_loop pass zero i p = (ok tt, p)
create_loop pass (suc k) i p = elim (pass.qemu_create i (λ ip. is_ip_free ip p)) [
  | err e ↦ (err e, called_create p)
  | ok c ↦ create_loop pass k (suc i) (add_guest (pass.time i) c (called_create p))
]

unfoldable pub producer_create_guests : Pass → PoolService → Result (Unit {0}) × PoolService
unfolding create_loop existing_pool_size
producer_create_guests pass p = create_loop pass (p.max_vm - existing_pool_size p) 0 p

-- The first half of a pass: what it retires and removes.
unfoldable pub producer_clean : Pass → PoolService → PoolService
unfolding producer_mark_timed_out producer_destroy_timed_out producer_check_health
    producer_remove_destroyed existing_pool_size
producer_clean pass p =
    let q =
      if ltb 1 (existing_pool_size p)
      then producer_destroy_timed_out pass (producer_mark_timed_out pass p.vm_unused_timeout p)
      else p in
    producer_remove_destroyed (producer_check_health pass q)

-- The end of a pass: created guests become available and the next pass is handed to the reactor,
-- unless a creation raised.
unfoldable pub end_pass : Pass → Result (Unit {0}) × PoolService → Result (Unit {0}) × PoolService
unfolding producer_mark_available
end_pass pass (err e, q) = (err e, q)
end_pass pass (ok _, q) =
    (ok tt, record (producer_mark_available pass q) { loop_next_call = scheduled })

unfoldable pub producer_loop : Pass → PoolService → Result (Unit {0}) × PoolService
unfolding producer_clean producer_create_guests end_pass
producer_loop pass p = end_pass pass (producer_create_guests pass (producer_clean pass p))
