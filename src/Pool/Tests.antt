-- ===== src/Pool/Tests.antt =====
-- Runs of the pool service (cowrie/src/backend_pool/pool_service.py) on small pools.
use honeybee_potstore.Base.{
  ℕ, ◌≡◌, refl, Bool, true, false, List, [], ◌∷◌, none, Result, ok, err, arith, libvirt_error,
  no_available_vms, already_cancelled, ◌⊎◌, All,
}
use honeybee_potstore.Base.Int.{int_laws, ℤ, pos}
use honeybee_potstore.Base.Text.{Text}
use honeybee_potstore.Nat.{NatService}
use honeybee_potstore.Pool.Guest.{Guest, GuestState, available, using, used, unavailable, unset}
use honeybee_potstore.Pool.Service.{PoolService, scheduled, cancelled, start_pool, has_connectivity}
use honeybee_potstore.Pool.Producer.{Created, Pass, producer_clean, producer_loop}
use honeybee_potstore.Pool.Consumers.{
  first_where, choose, consumers_get_guest_ip, consumers_get_available_guest,
  consumers_get_any_guest, fewest, request_vm, free_vm,
}
use honeybee_potstore.Pool.Soundness.{IsSound}
use honeybee_potstore.Pool.Requests.{Granted, Refused, request-Granted_or_Refused}
use honeybee_potstore.Pool.Invariant.{Inv, Honest}
use honeybee_potstore.Pool.Reachable.{here, next, passes, requests, frees, Reach-Inv}
use honeybee_potstore.Pool.Passes.{Ended, producer_loop-Ended}
use honeybee_potstore.Pool.Cleaning.{Healthy, clean-Healthy}
use honeybee_potstore.Pool.Refusals.{refused_twice}
use honeybee_potstore.Pool.Stays.{Listed, producer_loop-Listed}

abbrev ip_a : Text
ip_a = 65 ∷ []

abbrev ip_b : Text
ip_b = 66 ∷ []

abbrev no_nat : NatService
no_nat = record { bindings = []; listening = [] }

abbrev machine : ℕ → GuestState → GuestState → ℤ → List Text → Guest
machine id state prev connected client_ips = record {
  id = id;
  client_ips = client_ips;
  connected = connected;
  state = state;
  prev_state = prev;
  start_timestamp = 0;
  freed_timestamp = pos 0;
  domain = id;
  guest_ip = id ∷ [];
  name = [];
  snapshot = [];
}

abbrev pool_of : List Guest → PoolService
pool_of guests = record {
  qemu_calls = [];
  nat_service = no_nat;
  guests = guests;
  guest_id = 7;
  loop_next_call = scheduled;
  loops_started = 1;
  restart_in = none;
  max_vm = 2;
  vm_unused_timeout = 5;
  share_guests = true;
  ssh_port = pos 22;
  telnet_port = pos 23;
  local_pool = true;
  pool_only = false;
  use_nat = false;
  any_vm_up = true;
}

abbrev idle : Guest
idle = machine 1 available unset (pos 0) []

abbrev taken : Guest
taken = machine 2 using available (pos 1) (ip_a ∷ [])

abbrev spent : ℕ → Guest
spent id = machine id used unset (pos 0) []

abbrev at_address : ℕ → Created
at_address n = record { domain = n; snapshot = []; guest_ip = n ∷ [] }

abbrev if_free : Bool → Created → Result Created
if_free true c = ok c
if_free false c = err libvirt_error

-- A network in which all ports answer, and a backend that gives the n-th guest the address n.
abbrev calm : Pass
calm = record {
  now = λ g. 100;
  nmap_health = λ ip port. true;
  nmap_boot = λ ip port. true;
  time = λ n. n;
  qemu_create = λ n free. if_free (free (n ∷ [])) (at_address n);
  qemu_destroy = λ g. ok tt;
}

free_of : (b : Bool) (c d : Created) → if_free b c ≡ ok d → (b ≡ true) × (c ≡ d)
free_of b c d e = ground arith

calm-Honest : Honest calm
calm-Honest n free c e =
    let q = free_of (free (n ∷ [])) (at_address n) c e in ground (arith, q.0, q.1)

idle-IsSound : IsSound idle
idle-IsSound = record {
  named = refl;
  remembers = λ h. absurd (omega (int_laws, h));
  waits = λ _. omega int_laws;
}

taken-IsSound : IsSound taken
taken-IsSound = record { named = refl; remembers = λ _. refl; waits = λ h. ground arith }

Reach-Inv_example :
    Inv (free_vm 9 0 (request_vm ip_a (producer_loop calm (start_pool (pos 0) (pool_of []))).1).1)
Reach-Inv_example =
    Reach-Inv (pos 0) (pool_of [])
      (next (next (next here (passes calm _ calm-Honest)) (requests ip_a _)) (frees 9 0 _))

request_example :
    Granted ip_b (pool_of (taken ∷ idle ∷ [])) ⊎ Refused ip_b (pool_of (taken ∷ idle ∷ []))
request_example = request-Granted_or_Refused ip_b (pool_of (taken ∷ idle ∷ []))

filled_example : Ended calm (pool_of (idle ∷ [])) (producer_loop calm (pool_of (idle ∷ [])))
filled_example = producer_loop-Ended calm (pool_of (idle ∷ []))

cleaned_example :
    All
      (Healthy calm (pool_of (idle ∷ spent 3 ∷ [])))
      (producer_clean calm (pool_of (idle ∷ spent 3 ∷ []))).guests
cleaned_example = clean-Healthy calm (pool_of (idle ∷ spent 3 ∷ []))

producer_loop-Listed_example :
    Listed taken (producer_loop calm (pool_of (spent 3 ∷ taken ∷ []))).1.guests
unfolding has_connectivity
producer_loop-Listed_example =
    producer_loop-Listed calm taken (pool_of (spent 3 ∷ taken ∷ [])) refl refl refl (1, refl)

abbrev doomed : Guest
doomed = machine 5 unavailable available (pos 1) (ip_a ∷ [])

refused_twice_example :
    let (r, q) = request_vm ip_a (pool_of []) in
    (r ≡ err no_available_vms)
    × (q.loop_next_call ≡ cancelled)
    × (q.loops_started ≡ 1)
    × (q.guests ≡ [])
    × (request_vm ip_b q ≡ (err already_cancelled, q))
unfolding choose consumers_get_guest_ip consumers_get_available_guest consumers_get_any_guest
    first_where fewest
refused_twice_example = refused_twice ip_a ip_b (pool_of []) refl refl refl refl

abbrev old : Guest
old = machine 7 using available (pos 1) (ip_a ∷ [])
