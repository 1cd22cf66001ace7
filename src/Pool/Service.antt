-- ===== src/Pool/Service.antt =====
-- The object PoolService, its queries, and its start and stop
-- (cowrie/src/backend_pool/pool_service.py).
use honeybee_potstore.Base.{
  ℕ, ◌+◌, Bool, true, false, List, [], ◌∷◌, ◌++◌, ◌&&◌, ◌||◌, not, Option, some, Result, ok, err,
  already_cancelled, already_called, if◌then◌else◌, length, keep,
}
use honeybee_potstore.Base.Int.{ℤ, pos, ltb_ℤ}
use honeybee_potstore.Base.Text.{Text, text_eq}
use honeybee_potstore.Pool.Guest.{Guest, GuestState, state_eq, is_in, destroyed}
use honeybee_potstore.Nat.{NatService, free_all}

-- A call that was handed to the reactor by `callLater`.
pub data DelayedCall : Type 0 where
  no_call scheduled called cancelled : DelayedCall

-- The calls that the service makes of its backend, in order.
pub data QemuCall : Type 0 where
  destroy_all_cowrie start_backend stop_backend shutdown_backend : QemuCall
  create_guest : QemuCall
  destroy_guest : (domain : ℕ) (snapshot : Text) → QemuCall

pub record PoolService : Type 0 where
  pub qemu_calls : List QemuCall
  pub nat_service : NatService
  pub guests : List Guest
  pub guest_id : ℕ
  pub loop_next_call : DelayedCall
  pub loops_started : ℕ
  pub restart_in : Option ℤ
  pub max_vm : ℕ
  pub vm_unused_timeout : ℕ
  pub share_guests : Bool
  pub ssh_port : ℤ
  pub telnet_port : ℤ
  pub local_pool : Bool
  pub pool_only : Bool
  pub use_nat : Bool
  pub any_vm_up : Bool

unfoldable pub set_configs : ℕ → ℕ → Bool → PoolService → PoolService
set_configs max_vm timeout share p = record p {
  max_vm = max_vm;
  vm_unused_timeout = timeout;
  share_guests = share;
}

unfoldable pub get_guest_states : List GuestState → PoolService → List Guest
get_guest_states states p = keep (λ g. is_in g.state states) p.guests

unfoldable pub existing_pool_size : PoolService → ℕ
existing_pool_size p = length (keep (λ g. not (state_eq g.state destroyed)) p.guests)

unfoldable pub ip_free_in : Text → List Guest → Bool
ip_free_in ip [] = true
ip_free_in ip (g ∷ gs) = if text_eq g.guest_ip ip then false else ip_free_in ip gs

unfoldable pub is_ip_free : Text → PoolService → Bool
unfolding ip_free_in
is_ip_free ip p = ip_free_in ip p.guests

-- `nmap_port` asks the network: a parameter.
unfoldable pub has_connectivity : (Text → ℤ → Bool) → Text → PoolService → Bool
has_connectivity nmap_port ip p =
    let has_ssh = if ltb_ℤ (pos 0) p.ssh_port then nmap_port ip p.ssh_port else false in
    let has_telnet =
      if ltb_ℤ (pos 0) p.telnet_port && not has_ssh then nmap_port ip p.telnet_port else true in
    has_ssh || has_telnet

-- `recycle_period` is read from the configuration.
unfoldable pub start_pool : ℤ → PoolService → PoolService
start_pool recycle_period p = record p {
  qemu_calls = p.qemu_calls ++ destroy_all_cowrie ∷ start_backend ∷ [];
  guests = [];
  guest_id = 0;
  any_vm_up = false;
  loops_started = p.loops_started + 1;
  restart_in = if ltb_ℤ (pos 0) recycle_period then some recycle_period else p.restart_in;
}

-- `IDelayedCall.cancel`: a second cancel, or one after the call was made, raises.
unfoldable pub cancel : DelayedCall → Result DelayedCall
cancel no_call = ok no_call
cancel scheduled = ok cancelled
cancel called = err already_called
cancel cancelled = err already_cancelled

unfoldable pub destroy_calls : List Guest → List QemuCall
destroy_calls [] = []
destroy_calls (g ∷ gs) = destroy_guest g.domain g.snapshot ∷ destroy_calls gs

-- The service frees the NAT where clients reach the guests through it.
unfoldable pub through_nat : PoolService → Bool
through_nat p = (not p.local_pool && p.use_nat) || p.pool_only

-- What `stop_pool` does once the pending call is cancelled. The backend's errors in `stop_backend`
-- are caught, and its `destroy_guest` raises none.
unfoldable pub stopped : Result DelayedCall → PoolService → Result (Unit {0}) × PoolService
unfolding destroy_calls through_nat
stopped (err e) p = (err e, p)
stopped (ok call) p = (
  ok tt,
  record p {
    loop_next_call = call;
    qemu_calls = p.qemu_calls ++ (destroy_calls p.guests ++ destroy_all_cowrie ∷ stop_backend ∷ []);
    nat_service = if through_nat p then free_all p.nat_service else p.nat_service;
  },
)

unfoldable pub stop_pool : PoolService → Result (Unit {0}) × PoolService
unfolding cancel stopped
stop_pool p = stopped (cancel p.loop_next_call) p

-- A step that follows one which may raise.
abbrev pub and_then :
    (PoolService → PoolService) → Result (Unit {0}) × PoolService → Result (Unit {0}) × PoolService
and_then f (err e, q) = (err e, q)
and_then f (ok u, q) = (ok u, f q)

unfoldable pub shut_backend : PoolService → PoolService
shut_backend q = record q { qemu_calls = q.qemu_calls ++ shutdown_backend ∷ [] }

unfoldable pub shutdown_pool : PoolService → Result (Unit {0}) × PoolService
unfolding stop_pool shut_backend
shutdown_pool p = and_then shut_backend (stop_pool p)

unfoldable pub restart_pool : ℤ → PoolService → Result (Unit {0}) × PoolService
unfolding stop_pool start_pool
restart_pool recycle_period p = and_then (start_pool recycle_period) (stop_pool p)
