-- ===== src/Nat/Tests.antt =====
-- Runs of NATService (cowrie/src/backend_pool/nat.py) on small tables.
use honeybee_potstore.Base.{◌⊎◌, some, ◌≡◌, refl, [], ◌∷◌, arith}
use honeybee_potstore.Base.Int.{pos, int_laws, ◌+ℤ◌}
use honeybee_potstore.Base.Dict.{lookup, insert}
use honeybee_potstore.Nat.{NatService, init, request_binding, free_all}
use honeybee_potstore.Nat.Proxy.{ServerProtocol, fresh}
use honeybee_potstore.Nat.Relay.{relay, from_cowrie, from_guest, passed, relay-passed}
use honeybee_potstore.Nat.Bindings.{IsValid}
use honeybee_potstore.Nat.Counts.{
  start, request_next, free_all_next, requests, frees_all, Closes, clients, Runs-balance,
}

abbrev one_guest : NatService
one_guest = record {
  bindings = (3, record { connected = pos 1; nat_ssh = 40; nat_telnet = 41 }) ∷ [];
  listening = 40 ∷ 41 ∷ [];
}

one_guest-IsValid : IsValid one_guest
unfolding lookup
one_guest-IsValid = record {
  entries = (refl, omega int_laws, tt);
  listens = refl;
  apart = ground arith;
}

Runs-balance_example :
    (clients 7 (free_all (request_binding 7 (72, 73) (request_binding 7 (70, 71) init).1).1)
      ≡ pos 2)
    × (IsValid (free_all (request_binding 7 (72, 73) (request_binding 7 (70, 71) init).1).1)
        ⊎ Closes (frees_all ∷ requests 7 (72, 73) ∷ requests 7 (70, 71) ∷ []))
unfolding request_binding ◌+ℤ◌ insert lookup init
Runs-balance_example = Runs-balance 7 (
    free_all_next
      (request_next (request_next start 7 (70, 71) (ground arith)) 7 (72, 73) (ground arith)))

-- One packet waits.
abbrev open_proxy : ServerProtocol
open_proxy = record {
  dst_ip = 49 ∷ [];
  dst_port = pos 22;
  client_protocol = some fresh;
  buffer = (8 ∷ []) ∷ [];
  transport = fresh;
  connects = 1;
}

relay-passed_example :
    relay (from_cowrie (1 ∷ []) ∷ from_guest (2 ∷ []) ∷ from_cowrie (3 ∷ []) ∷ []) open_proxy
    ≡ passed ((1 ∷ []) ∷ (3 ∷ []) ∷ []) ((2 ∷ []) ∷ []) fresh open_proxy
relay-passed_example =
    relay-passed (from_cowrie (1 ∷ []) ∷ from_guest (2 ∷ []) ∷ from_cowrie (3 ∷ []) ∷ []) fresh
      open_proxy refl
