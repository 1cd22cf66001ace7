-- ===== src/Protocol/Guests.antt =====
-- Requests, answers and releases between the two ends
-- (cowrie/src/cowrie/pool_interface/client.py, cowrie/src/backend_pool/pool_server.py).
use honeybee_potstore.Base.{
  ℕ, ◌<◌, ◌≡◌, ok-injective, sym, ◌∙◌, Bool, true, false, [], ◌∷◌, ◌++◌, some, ok, arith, length,
  take-append, drop-append, take-length, if◌then◌else◌,
}
use honeybee_potstore.Base.Int.{pos}
use honeybee_potstore.Base.Text.{Text, Bytes}
use honeybee_potstore.Wire.Struct.{
  be16, be32, pack_H-ok, pack_I-ok, unpack_H-be16, unpack_I-be32, unpack_s-length, pack_s-length,
  unpack_ports-be16, take-be32, drop-be32, take-be16, drop-be16, take-be16-be16, drop-be16-be16,
}
use honeybee_potstore.Wire.Utf8.{Ascii, encode-Ascii, decode-Ascii}
use honeybee_potstore.Pool.Consumers.{request_vm, free_vm, reuse_vm}
use honeybee_potstore.Server.Packing.{pack_text, read_ip, pack_response}
use honeybee_potstore.Server.Defs.{
  ServerConfig, Factory, Outside, answer, through_nat, on_request, on_release, dispatch,
  data_received,
}
use honeybee_potstore.Client.Connection
use honeybee_potstore.Client.Connection.{
  PoolClient, ParentCall, lose_connection, received_pool_data, send_vm_request, send_vm_free,
  read_guest, read_vm, on_response, read_response,
}
use honeybee_potstore.Protocol.Exchange.{read_response-status}

-- A text that goes over the wire as it is.
abbrev pub Plain : Text → Type 0
Plain s = Ascii s × (length s < 65536)

pack_text-Ascii : (s : Text) → Ascii s → pack_text s ≡ s
unfolding pack_text
pack_text-Ascii s a = rw (encode-Ascii s a) (pack_s-length s)

abbrev pub request_bytes : Text → Bytes
request_bytes src = b'r' ∷ (be16 (length src) ++ src)

send_vm_request-bytes : (src : Text) → Plain src → send_vm_request src ≡ ok (request_bytes src)
unfolding send_vm_request
send_vm_request-bytes src h =
    rw (pack_H-ok (length src) h.1, encode-Ascii src h.0, pack_s-length src)

read_ip-bytes : (src : Text) → Plain src → read_ip (be16 (length src) ++ src) ≡ ok src
unfolding read_ip
read_ip-bytes src h = rw (
  take-be16 (length src) src,
  unpack_H-be16 (length src) h.1,
  drop-be16 (length src) src,
  unpack_s-length src,
  decode-Ascii src h.0,
)

-- A request for an address reaches the pool as a request for that address.
pub request_exchange :
    (c : ServerConfig) (o : Outside) (src : Text) (f : Factory)
    → Plain src
    → (send_vm_request src ≡ ok (request_bytes src))
      × (data_received c o (request_bytes src) f ≡ answer c o (request_vm src f.pool_service) f)
unfolding data_received dispatch on_request
request_exchange c o src f h = (send_vm_request-bytes src h, rw (read_ip-bytes src h, on_request))

-- What the server tells of a guest, in the range of the format.
pub record Fits (id : ℕ) (ip : Text) (ssh telnet : ℕ) (snapshot : Text) : Type 0 where
  pub id_fits : id < 4294967296
  pub ip_plain : Plain ip
  pub ssh_fits : ssh < 65536
  pub telnet_fits : telnet < 65536
  pub snapshot_plain : Plain snapshot

abbrev guest_bytes : Text → ℕ → ℕ → Text → Bytes
guest_bytes ip ssh telnet snapshot =
    be16 (length ip) ++ (ip ++ (be16 ssh ++ (be16 telnet ++ (be16 (length snapshot) ++ snapshot))))

pack_response-bytes :
    (id : ℕ) (ip : Text) (ssh telnet : ℕ) (snapshot : Text)
    → Fits id ip ssh telnet snapshot
    → pack_response id ip (pos ssh) (pos telnet) snapshot
      ≡ ok (b'r' ∷ (be32 0 ++ (be32 id ++ guest_bytes ip ssh telnet snapshot)))
unfolding pack_response
pack_response-bytes id ip ssh telnet snapshot h = rw (
  pack_I-ok 0 (omega arith),
  pack_I-ok id h.id_fits,
  pack_H-ok (length ip) h.ip_plain.1,
  pack_H-ok ssh h.ssh_fits,
  pack_H-ok telnet h.telnet_fits,
  pack_H-ok (length snapshot) h.snapshot_plain.1,
  pack_text-Ascii ip h.ip_plain.0,
  pack_text-Ascii snapshot h.snapshot_plain.0,
)

pub pack_response-ok :
    (id : ℕ) (ip : Text) (ssh telnet : ℕ) (snapshot : Text)
    → Fits id ip ssh telnet snapshot
    → (reply : Bytes) × (pack_response id ip (pos ssh) (pos telnet) snapshot ≡ ok reply)
pack_response-ok id ip ssh telnet snapshot h = (
  b'r' ∷ (be32 0 ++ (be32 id ++ guest_bytes ip ssh telnet snapshot)),
  pack_response-bytes id ip ssh telnet snapshot h,
)

read_guest-bytes :
    (id : ℕ) (ip : Text) (ssh telnet : ℕ) (snapshot : Text)
    → Fits id ip ssh telnet snapshot
    → read_guest 0 (guest_bytes ip ssh telnet snapshot)
      ≡ ok (received_pool_data 0 ip snapshot ssh telnet ∷ [])
unfolding read_guest
read_guest-bytes id ip ssh telnet snapshot h =
    let tail = be16 (length snapshot) ++ snapshot in
    let ports = be16 ssh ++ (be16 telnet ++ tail) in
    rw (
      take-be16 (length ip) (ip ++ ports),
      unpack_H-be16 (length ip) h.ip_plain.1,
      drop-be16 (length ip) (ip ++ ports),
      take-append ip ports,
      unpack_s-length ip,
      drop-append ip ports,
      take-be16-be16 ssh telnet tail,
      unpack_ports-be16 ssh telnet h.ssh_fits h.telnet_fits,
      drop-be16-be16 ssh telnet tail,
      take-be16 (length snapshot) snapshot,
      unpack_H-be16 (length snapshot) h.snapshot_plain.1,
      drop-be16 (length snapshot) snapshot,
      take-length snapshot,
      unpack_s-length snapshot,
    )

read_vm-bytes :
    (id : ℕ) (ip : Text) (ssh telnet : ℕ) (snapshot : Text) (k : PoolClient)
    → Fits id ip ssh telnet snapshot
    → read_vm 0 (be32 id ++ guest_bytes ip ssh telnet snapshot) k
      ≡ (ok (received_pool_data 0 ip snapshot ssh telnet ∷ []), record k { vm_id = some id })
unfolding read_vm
read_vm-bytes id ip ssh telnet snapshot k h =
    let guest = guest_bytes ip ssh telnet snapshot in
    rw (
      take-be32 id guest,
      unpack_I-be32 id h.id_fits,
      drop-be32 id guest,
      read_guest-bytes id ip ssh telnet snapshot h,
      read_vm,
    )

module _ (k : PoolClient) (parent : k.has_parent ≡ true) where
  heard : (bytes : Bytes) → Connection.data_received bytes k ≡ read_response bytes k
  unfolding Connection.data_received
  heard bytes = simp parent

  -- The client keeps the guest's id and hands its parent the address, the snapshot and the ports
  -- that the server packed.
  pub answer_exchange :
      (id : ℕ) (ip : Text) (ssh telnet : ℕ) (snapshot : Text) {reply : Bytes}
      → Fits id ip ssh telnet snapshot
      → pack_response id ip (pos ssh) (pos telnet) snapshot ≡ ok reply
      → Connection.data_received reply k
        ≡ (ok (received_pool_data 0 ip snapshot ssh telnet ∷ []), record k { vm_id = some id })
  unfolding on_response
  answer_exchange id ip ssh telnet snapshot {reply} h e =
      let guest = guest_bytes ip ssh telnet snapshot in
      let q : reply ≡ b'r' ∷ (be32 0 ++ (be32 id ++ guest)) =
        ok-injective (sym e ∙ pack_response-bytes id ip ssh telnet snapshot h) in
      rw q (
        heard _
        ∙ read_response-status b'r' 0 (be32 id ++ guest) k (omega arith)
        ∙ read_vm-bytes id ip ssh telnet snapshot k h)

  -- To the answer of a pool without a guest the client gives up the connection.
  pub refusal_exchange : Connection.data_received (b'r' ∷ be32 1) k ≡ (ok (lose_connection ∷ []), k)
  unfolding on_response be32
  refusal_exchange = heard _ ∙ (read_response-status b'r' 1 [] k (omega arith))

-- The op-code of a release: of a guest that the attacker used, or did not use.
abbrev pub release_bytes : Bool → ℕ → Bytes
release_bytes dirty id = (if dirty then b'f' else b'u') ∷ be32 id

send_vm_free-bytes :
    (dirty : Bool) (id : ℕ) (k : PoolClient)
    → k.vm_id ≡ some id
    → id < 4294967296
    → send_vm_free dirty k ≡ ok (release_bytes dirty id)
unfolding send_vm_free
send_vm_free-bytes dirty id k e h = rw (e, send_vm_free) (rw (pack_I-ok id h))

-- Where the guests are reached directly, the release of the guest that a client had, by an id of
-- four bytes, frees that guest in the pool if it was used, and else makes it reusable; nothing is
-- answered.
pub release_exchange :
    (c : ServerConfig) (o : Outside) (dirty : Bool) (id : ℕ) (k : PoolClient) (f : Factory)
    → k.vm_id ≡ some id
    → id < 4294967296
    → through_nat c ≡ false
    → (send_vm_free dirty k ≡ ok (release_bytes dirty id))
      × (data_received c o (release_bytes dirty id) f ≡ (
        ok [],
        record f {
          pool_service =
              if dirty then free_vm o.now id f.pool_service else reuse_vm id f.pool_service;
        },
      ))
unfolding data_received dispatch on_release
release_exchange c o true id k f e h direct =
    (send_vm_free-bytes true id k e h, rw (unpack_I-be32 id h, direct))
release_exchange c o false id k f e h direct =
    (send_vm_free-bytes false id k e h, rw (unpack_I-be32 id h, direct))
