-- ===== src/Protocol/Exchange.antt =====
-- Each message of the client reaches the server as what was sent, and each answer comes back so
-- (cowrie/src/cowrie/pool_interface/client.py, cowrie/src/backend_pool/pool_server.py).
use honeybee_potstore.Base.{ℕ, ◌<◌, ◌≡◌, refl, Bool, true, [], ◌∷◌, ◌++◌, ok, arith}
use honeybee_potstore.Base.Int.{pos}
use honeybee_potstore.Base.Text.{Bytes}
use honeybee_potstore.Wire.Struct.{
  be32, pack_I, pack_bool, pack_I-ok, unpack_I-be32, unpack_settings-pack, take-be32, drop-be32,
}
use honeybee_potstore.Pool.Service.{set_configs}
use honeybee_potstore.Server.Packing.{pack_status}
use honeybee_potstore.Server.Defs.{
  ServerConfig, Factory, Outside, on_initialise, dispatch, data_received, set_initialised,
}
use honeybee_potstore.Client.Connection
use honeybee_potstore.Client.Connection.{
  PoolClient, ParentCall, initialisation_response, lose_connection, received_pool_data,
  send_initialisation, send_vm_request, send_vm_free, read_guest, read_vm, on_response,
  read_response,
}

pack_status-zero : (op : ℕ) → pack_status op 0 ≡ ok (op ∷ be32 0)
unfolding pack_status pack_I
pack_status-zero op = refl

send_initialisation-bytes :
    (m t : ℕ) (share : Bool)
    → m < 4294967296
    → t < 4294967296
    → send_initialisation (pos m) (pos t) share
      ≡ ok (b'i' ∷ (be32 m ++ (be32 t ++ pack_bool share)))
unfolding send_initialisation
send_initialisation-bytes m t share hm ht = rw (pack_I-ok m hm, pack_I-ok t ht)

on_initialise-bytes :
    (m t : ℕ) (share : Bool) (f : Factory)
    → m < 4294967296
    → t < 4294967296
    → on_initialise (be32 m ++ (be32 t ++ pack_bool share)) f ≡ (
      ok (b'i' ∷ be32 0),
      record f { initialised = true; pool_service = set_configs m t share f.pool_service },
    )
unfolding on_initialise set_initialised
on_initialise-bytes m t share f hm ht =
    rw (unpack_settings-pack m t share hm ht, pack_status-zero b'i')

pub read_response-status :
    (op n : ℕ) (bytes : Bytes) (k : PoolClient)
    → n < 4294967296
    → read_response (op ∷ (be32 n ++ bytes)) k ≡ on_response op n bytes k
unfolding read_response
read_response-status op n bytes k h =
    rw (take-be32 n bytes, unpack_I-be32 n h, drop-be32 n bytes, read_response)

-- Settings of four bytes reach the pool as they were sent, and a client with a parent tells it
-- that the pool is initialised.
pub initialise_exchange :
    (c : ServerConfig) (o : Outside) (m t : ℕ) (share : Bool) (f : Factory) (k : PoolClient)
    → m < 4294967296
    → t < 4294967296
    → k.has_parent ≡ true
    → let sent = b'i' ∷ (be32 m ++ (be32 t ++ pack_bool share)) in
      let reply = b'i' ∷ be32 0 in
      (send_initialisation (pos m) (pos t) share ≡ ok sent)
      × (data_received c o sent f ≡ (
        ok reply,
        record f { initialised = true; pool_service = set_configs m t share f.pool_service },
      ))
      × (Connection.data_received reply k ≡ (ok (initialisation_response 0 ∷ []), k))
unfolding data_received dispatch Connection.data_received be32 on_response
initialise_exchange c o m t share f k hm ht parent = (
  send_initialisation-bytes m t share hm ht,
  on_initialise-bytes m t share f hm ht,
  simp parent (read_response-status b'i' 0 [] k (omega arith)),
)
