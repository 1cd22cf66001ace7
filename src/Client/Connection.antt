-- ===== src/Client/Connection.antt =====
-- The class PoolClient (cowrie/src/cowrie/pool_interface/client.py). The settings that it reads are
-- arguments; what it writes to the transport is the result of each method.
use honeybee_potstore.Base.{
  ℕ, Bool, true, false, List, [], ◌∷◌, ◌++◌, Option, none, some, Result, ok, err, ◌>>=◌,
  struct_error, length, take, drop, ◌==◌, if◌then◌else◌,
}
use honeybee_potstore.Base.Int.{ℤ, pos}
use honeybee_potstore.Base.Text.{Text, Bytes}
use honeybee_potstore.Wire.Struct.{
  pack_H, pack_I, pack_s, pack_bool, unpack_H, unpack_I, unpack_s, unpack_ports,
}
use honeybee_potstore.Wire.Utf8.{encode}

-- A call of the parent, or of the connection.
pub data ParentCall : Type 0 where
  initialisation_response : (res_code : ℕ) → ParentCall
  lose_connection : ParentCall
  received_pool_data :
      (res_code : ℕ) (honey_ip snapshot : Bytes) (ssh_port telnet_port : ℕ) → ParentCall

pub record PoolClient : Type 0 where
  pub has_parent : Bool
  pub vm_id : Option ℕ

abbrev pub new_client : PoolClient
new_client = record { has_parent = false; vm_id = none }

unfoldable pub set_parent : PoolClient → PoolClient
set_parent c = record c { has_parent = true }

-- `!cII?`
unfoldable pub send_initialisation : ℤ → ℤ → Bool → Result Bytes
send_initialisation max_vms vm_unused_timeout share_guests = do
  vms ← pack_I max_vms
  timeout ← pack_I vm_unused_timeout
  ok (b'i' ∷ (vms ++ (timeout ++ pack_bool share_guests)))

-- `!cH{n}s`
unfoldable pub send_vm_request : Text → Result Bytes
send_vm_request src_ip = do
  ip_len ← pack_H (pos (length src_ip))
  ok (b'r' ∷ (ip_len ++ pack_s (length src_ip) (encode src_ip)))

-- `!cI`, or nothing if the connection had no guest.
unfoldable pub send_vm_free : Bool → PoolClient → Result Bytes
send_vm_free backend_dirty c = elim c.vm_id [
  | none ↦ ok []
  | some id ↦ do vm ← pack_I (pos id); ok ((if backend_dirty then b'f' else b'u') ∷ vm)
]

-- What follows the guest's id in an answer.
unfoldable pub read_guest : ℕ → Bytes → Result (List ParentCall)
read_guest res_code data0 = do
  ip_len ← unpack_H (take 2 data0)
  let data1 = drop 2 data0
  honey_ip ← unpack_s ip_len (take ip_len data1)
  let data2 = drop ip_len data1
  (ssh_port, telnet_port) ← unpack_ports (take 4 data2)
  let data3 = drop 4 data2
  snapshot_len ← unpack_H (take 2 data3)
  let data4 = drop 2 data3
  snapshot ← unpack_s snapshot_len (take snapshot_len data4)
  ok (received_pool_data res_code honey_ip snapshot ssh_port telnet_port ∷ [])

-- The id is kept as soon as it is read.
unfoldable pub read_vm : ℕ → Bytes → PoolClient → Result (List ParentCall) × PoolClient
read_vm res_code bytes c = elim (unpack_I (take 4 bytes)) [
  | err e ↦ (err e, c)
  | ok id ↦ (read_guest res_code (drop 4 bytes), record c { vm_id = some id })
]

-- By op-code and status; other op-codes are passed over.
unfoldable pub on_response : ℕ → ℕ → Bytes → PoolClient → Result (List ParentCall) × PoolClient
on_response res_op res_code bytes c =
    if res_op == b'i'
    then (ok (initialisation_response res_code ∷ []), c)
    else if res_op == b'r'
    then (if res_code == 0 then read_vm res_code bytes c else (ok (lose_connection ∷ []), c))
    else (ok [], c)

-- `struct.unpack("!cI", data[0:5])`: the op-code and the status.
unfoldable pub read_response : Bytes → PoolClient → Result (List ParentCall) × PoolClient
read_response [] c = (err struct_error, c)
read_response (op ∷ bytes) c = elim (unpack_I (take 4 bytes)) [
  | err e ↦ (err e, c)
  | ok res_code ↦ on_response op res_code (drop 4 bytes) c
]

unfoldable pub data_received : Bytes → PoolClient → Result (List ParentCall) × PoolClient
unfolding read_response
data_received bytes c = if c.has_parent then read_response bytes c else (ok [], c)
