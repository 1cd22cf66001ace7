-- ===== src/Protocol/Tests.antt =====
-- Exchanges between a client and the pool (cowrie/src/cowrie/pool_interface/client.py,
-- cowrie/src/backend_pool/pool_server.py) on concrete messages.
use honeybee_potstore.Base.{
  ℕ, ◌≡◌, refl, Bool, true, false, List, [], ◌∷◌, Option, none, some, ok, arith,
}
use honeybee_potstore.Base.Int.{pos}
use honeybee_potstore.Base.Text.{Text}
use honeybee_potstore.Base.Dict.{lookup}
use honeybee_potstore.Nat.{request_binding}
use honeybee_potstore.Pool.Guest.{Guest, available, unset}
use honeybee_potstore.Pool.Service.{PoolService, scheduled}
use honeybee_potstore.Pool.Consumers.{
  first_where, choose, claim, request_vm, consumers_get_guest_ip, consumers_get_available_guest,
}
use honeybee_potstore.Server.Defs.{ServerConfig, Factory, Outside}
use honeybee_potstore.Client.Connection.{PoolClient}
use honeybee_potstore.Protocol.Guests.{Plain}
use honeybee_potstore.Protocol.Exposed.{Told, nat_guest}

abbrev source : Text
source = 49 ∷ 46 ∷ 50 ∷ []

abbrev guest_address : Text
guest_address = 55 ∷ []

abbrev public_address : Text
public_address = 56 ∷ 57 ∷ []

abbrev waiting : Guest
waiting = record {
  id = 4;
  client_ips = [];
  connected = pos 0;
  state = available;
  prev_state = unset;
  start_timestamp = 0;
  freed_timestamp = pos 0;
  domain = 1;
  guest_ip = guest_address;
  name = [];
  snapshot = 115 ∷ [];
}

abbrev pool_with : List Guest → PoolService
pool_with guests = record {
  qemu_calls = [];
  nat_service = record { bindings = []; listening = [] };
  guests = guests;
  guest_id = 5;
  loop_next_call = scheduled;
  loops_started = 1;
  restart_in = none;
  max_vm = 2;
  vm_unused_timeout = 600;
  share_guests = false;
  ssh_port = pos 22;
  telnet_port = pos 23;
  local_pool = true;
  pool_only = false;
  use_nat = false;
  any_vm_up = true;
}

abbrev factory : Factory
factory = record { initialised = true; pool_service = pool_with (waiting ∷ []) }

abbrev config : Bool → Option Text → ServerConfig
config pool_only nat_public_ip = record {
  local_pool = true;
  pool_only = pool_only;
  use_nat = false;
  nat_public_ip = nat_public_ip;
  guest_ssh_port = pos 22;
  guest_telnet_port = pos 23;
}

abbrev outside : Outside
outside = record { now = 9; new_ports = (4022, 4023) }

abbrev client : Option ℕ → PoolClient
client vm_id = record { has_parent = true; vm_id = vm_id }

source-Plain : Plain source
source-Plain = ((omega arith, (omega arith, (omega arith, tt))), omega arith)

abbrev claimed : PoolService
claimed = pool_with (claim source waiting ∷ [])

granted_vm : request_vm source factory.pool_service ≡ (ok (4, guest_address, 115 ∷ []), claimed)
unfolding request_vm choose consumers_get_guest_ip consumers_get_available_guest first_where
granted_vm = refl

abbrev bound : PoolService
bound = record claimed { nat_service = (request_binding 4 (4022, 4023) claimed.nat_service).1 }

nat_guest_example :
    Told
      (config true (some public_address))
      outside
      source
      factory
      (client none)
      bound
      4
      public_address
      4022
      4023
      (115 ∷ [])
unfolding request_binding lookup
nat_guest_example =
    nat_guest (config true (some public_address)) outside source factory 4 guest_address (115 ∷ [])
      claimed source-Plain granted_vm public_address (client none) refl refl refl
      (record {
        id_fits = omega arith;
        ip_plain = ((omega arith, (omega arith, tt)), omega arith);
        ssh_fits = omega arith;
        telnet_fits = omega arith;
        snapshot_plain = ((omega arith, tt), omega arith);
      })
