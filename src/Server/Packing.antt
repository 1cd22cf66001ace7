-- ===== src/Server/Packing.antt =====
-- The answer to a request for a guest (cowrie/src/backend_pool/pool_server.py): `!cIIH{n}sHHH{m}s`.
use honeybee_potstore.Base.{ℕ, ◌++◌, ◌∷◌, Result, ok, ◌>>=◌, length, take, drop}
use honeybee_potstore.Base.Int.{ℤ, pos}
use honeybee_potstore.Base.Text.{Text, Bytes}
use honeybee_potstore.Wire.Struct.{pack_H, pack_I, pack_s, unpack_H, unpack_s}
use honeybee_potstore.Wire.Utf8.{encode, decode}

-- `!cI`: an op-code and a status.
unfoldable pub pack_status : ℕ → ℕ → Result Bytes
pack_status op status = do code ← pack_I (pos status); ok (op ∷ code)

-- The address in a request: its length in two bytes, then all that is left.
unfoldable pub read_ip : Bytes → Result Text
read_ip body = do ip_len ← unpack_H (take 2 body); recv ← unpack_s ip_len (drop 2 body); decode recv

-- `Ns` of a text: as many bytes as it has characters.
unfoldable pub pack_text : Text → Bytes
pack_text s = pack_s (length s) (encode s)

unfoldable pub pack_response : ℕ → Text → ℤ → ℤ → Text → Result Bytes
pack_response id ip ssh telnet snapshot = do
  status ← pack_I (pos 0)
  guest_id ← pack_I (pos id)
  ip_len ← pack_H (pos (length ip))
  ssh_port ← pack_H ssh
  telnet_port ← pack_H telnet
  snapshot_len ← pack_H (pos (length snapshot))
  let tail = snapshot_len ++ pack_text snapshot
  let ports = ssh_port ++ (telnet_port ++ tail)
  ok (b'r' ∷ (status ++ (guest_id ++ (ip_len ++ (pack_text ip ++ ports)))))
