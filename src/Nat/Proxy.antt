-- ===== src/Nat/Proxy.antt =====
-- The TCP proxy of one connection (cowrie/src/backend_pool/nat.py): ServerProtocol on the side of
-- Cowrie, ClientProtocol on the side of the guest, and their factories. A write to a transport is a packet
-- at the end of a list.
use honeybee_potstore.Base.{
  ℕ, ◌+◌, Bool, true, false, List, [], ◌∷◌, ◌++◌, Option, none, some, Result, ok, err,
  attribute_error,
}
use honeybee_potstore.Base.Text.{Text, Bytes}
use honeybee_potstore.Base.Int.{ℤ}

-- A transport: what was written to it, and whether it was told to close.
pub record Transport : Type 0 where
  pub written : List Bytes
  pub closing : Bool

abbrev pub fresh : Transport
fresh = record { written = []; closing = false }

-- `client_protocol` is declared and not assigned: until the factory sets it there is no such
-- attribute. A protocol that is there stands for its transport.
pub record ServerProtocol : Type 0 where
  pub dst_ip : Text
  pub dst_port : ℤ
  pub client_protocol : Option Transport
  pub buffer : List Bytes
  pub transport : Transport
  pub connects : ℕ

-- ServerFactory.buildProtocol.
unfoldable pub build_server : Text → ℤ → ServerProtocol
build_server dst_ip dst_port = record {
  dst_ip = dst_ip;
  dst_port = dst_port;
  client_protocol = none;
  buffer = [];
  transport = fresh;
  connects = 0;
}

-- `connectTCP`: one more connection is asked for.
unfoldable pub connection_made : ServerProtocol → ServerProtocol
connection_made p = record p { connects = p.connects + 1 }

-- ClientFactory.buildProtocol, when the guest answers.
unfoldable pub build_client : ServerProtocol → ServerProtocol
build_client p = record p { client_protocol = some fresh }

abbrev pub write_all : List Bytes → Transport → Transport
write_all packets t = record t { written = t.written ++ packets }

-- A protocol object is always true, so that the branch that waits is never taken.
unfoldable pub send_data : ServerProtocol → Result (Unit {0}) × ServerProtocol
send_data p = elim p.client_protocol [
  | none ↦ (err attribute_error, p)
  | some t ↦ (ok tt, record p { client_protocol = some (write_all p.buffer t); buffer = [] })
]

unfoldable pub server_data_received : Bytes → ServerProtocol → Result (Unit {0}) × ServerProtocol
server_data_received packet p = send_data (record p { buffer = p.buffer ++ packet ∷ [] })

abbrev pub lose : Transport → Transport
lose t = record t { closing = true }

unfoldable pub server_connection_lost : ServerProtocol → Result (Unit {0}) × ServerProtocol
server_connection_lost p = elim p.client_protocol [
  | none ↦ (err attribute_error, p)
  | some t ↦ (ok tt, record p { client_protocol = some (lose t) })
]

-- ClientProtocol: what the guest sends goes back, and its end closes the other side.
unfoldable pub client_data_received : Bytes → ServerProtocol → ServerProtocol
client_data_received packet p = record p { transport = write_all (packet ∷ []) p.transport }

unfoldable pub client_connection_lost : ServerProtocol → ServerProtocol
client_connection_lost p = record p { transport = lose p.transport }
