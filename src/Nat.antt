-- ===== src/Nat.antt =====
-- cowrie/src/backend_pool/nat.py, class NATService: the table of TCP proxies by guest. The reactor
-- is the parameter of a request: `listenTCP` on port 0 hands back two ports of its choice. The
-- ports that the reactor listens on are the field `listening`.
pub mod Bindings
pub mod Requests
pub mod Counts
pub mod Proxy
pub mod Relay
mod Tests
use honeybee_potstore.Base.{
  ℕ, ◌+◌, Bool, List, [], ◌∷◌, ◌++◌, Option, none, some, Result, ok, err, key_error, ◌==◌,
  if◌then◌else◌,
}
use honeybee_potstore.Base.Int.{ℤ, pos, ◌+ℤ◌, ◌-ℤ◌, leb_ℤ}
use honeybee_potstore.Base.Dict.{Dict, lookup, insert, erase, nat_eq}

-- The list `[connected, nat_ssh, nat_telnet]`; a listening port stands for its `_realPortNumber`.
pub record Binding : Type 0 where
  pub connected : ℤ
  pub nat_ssh : ℕ
  pub nat_telnet : ℕ

pub record NatService : Type 0 where
  pub bindings : Dict ℕ Binding
  pub listening : List ℕ

-- `IListeningPort.stopListening`.
pub stop_listening : ℕ → List ℕ → List ℕ
stop_listening port [] = []
stop_listening port (p ∷ ps) = if p == port then ps else p ∷ stop_listening port ps

unfoldable pub init : NatService
init = record { bindings = []; listening = [] }

pub new_binding : ℕ → ℕ → Binding
new_binding ssh telnet = record { connected = pos 1; nat_ssh = ssh; nat_telnet = telnet }

pub joined : Binding → Binding
joined b = record b { connected = b.connected +ℤ pos 1 }

pub left : Binding → Binding
left b = record b { connected = b.connected -ℤ pos 1 }

-- `ports` is what `listenTCP` gives, where the method calls it.
unfoldable pub request_binding : ℕ → ℕ × ℕ → NatService → (ℕ × ℕ) × NatService
unfolding joined new_binding
request_binding guest_id ports n = elim (lookup guest_id n.bindings) [
  | some b ↦
      ((b.nat_ssh, b.nat_telnet), record n { bindings = insert guest_id (joined b) n.bindings })
  | none ↦ (
    ports,
    record {
      bindings = insert guest_id (new_binding ports.0 ports.1) n.bindings;
      listening = n.listening ++ ports.0 ∷ ports.1 ∷ [];
    },
  )
]

pub stop_binding : Binding → List ℕ → List ℕ
unfolding stop_listening
stop_binding b ps = stop_listening b.nat_telnet (stop_listening b.nat_ssh ps)

unfoldable pub free_binding : ℕ → NatService → Result NatService
unfolding left stop_binding
free_binding guest_id n = elim (lookup guest_id n.bindings) [
  | none ↦ err key_error
  | some b ↦ ok (
      if leb_ℤ (left b).connected (pos 0)
      then record { bindings = erase guest_id n.bindings; listening = stop_binding b n.listening }
      else record n { bindings = insert guest_id (left b) n.bindings })
]

pub stop_all : Dict ℕ Binding → List ℕ → List ℕ
unfolding stop_binding
stop_all [] ps = ps
stop_all ((k, b) ∷ d) ps = stop_all d (stop_binding b ps)

-- The listeners are stopped; the table keeps its entries.
unfoldable pub free_all : NatService → NatService
unfolding stop_all
free_all n = record n { listening = stop_all n.bindings n.listening }
