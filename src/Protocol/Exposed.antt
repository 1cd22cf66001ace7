-- ===== src/Protocol/Exposed.antt =====
-- A request from end to end: from an address at the client to the guest that its parent is told of,
-- directly or through the NAT (cowrie/src/cowrie/pool_interface/client.py,
-- cowrie/src/backend_pool/pool_server.py, cowrie/src/backend_pool/nat.py).
use honeybee_potstore.Base.{
  ℕ, ◌<◌, ◌≡◌, ap, ◌∙◌, Bool, true, false, [], ◌∷◌, none, some, Result, ok, err, arith, key_error,
  attribute_error,
}
use honeybee_potstore.Base.Int.{pos}
use honeybee_potstore.Base.Text.{Text, Bytes}
use honeybee_potstore.Base.Dict.{lookup, nat_eq}
use honeybee_potstore.Wire.Struct.{unpack_I-be32}
use honeybee_potstore.Nat.{NatService, request_binding, free_binding}
use honeybee_potstore.Pool.Service.{PoolService}
use honeybee_potstore.Pool.Consumers.{request_vm}
use honeybee_potstore.Server.Defs.{
  ServerConfig, Factory, Outside, answer, through_nat, expose, on_release, dispatch, data_received,
}
use honeybee_potstore.Client.Connection
use honeybee_potstore.Client.Connection.{PoolClient, received_pool_data}
use honeybee_potstore.Protocol.Guests.{
  Plain, Fits, request_bytes, release_bytes, request_exchange, pack_response-ok, answer_exchange,
}

-- What a request comes to, for the server and for the client that hears its answer.
abbrev pub Told :
    ServerConfig
    → Outside
    → Text
    → Factory
    → PoolClient
    → PoolService
    → ℕ
    → Text
    → ℕ
    → ℕ
    → Text
    → Type 0
Told c o src f k p id ip ssh telnet snapshot =
    (reply : Bytes) × (data_received c o (request_bytes src) f
      ≡ (ok reply, record f { pool_service = p }))
    × (Connection.data_received reply k
        ≡ (ok (received_pool_data 0 ip snapshot ssh telnet ∷ []), record k { vm_id = some id }))

module _ (c : ServerConfig) (o : Outside) (src : Text) (f : Factory) (id : ℕ) (ip snapshot : Text)
    (p : PoolService) (plain : Plain src)
    (granted : request_vm src f.pool_service ≡ (ok (id, ip, snapshot), p)) where
  answered :
      data_received c o (request_bytes src) f
      ≡ expose c o (id, ip, snapshot) (record f { pool_service = p })
  answered =
      (request_exchange c o src f plain).1
      ∙ ap (λ (r : Result (ℕ × Text × Text) × PoolService). answer c o r f) granted

  -- Where the guests are reached directly, a client whose request from a plain address the pool
  -- grants is told of the guest that was granted, at its own address and the configured ports, if
  -- these fit the format.
  pub direct_guest :
      (ssh telnet : ℕ) (k : PoolClient)
      → k.has_parent ≡ true
      → through_nat c ≡ false
      → c.guest_ssh_port ≡ pos ssh
      → c.guest_telnet_port ≡ pos telnet
      → Fits id ip ssh telnet snapshot
      → Told c o src f k p id ip ssh telnet snapshot
  unfolding expose
  direct_guest ssh telnet k parent direct es et fits =
      let (reply, packed) = pack_response-ok id ip ssh telnet snapshot fits in
      (
        reply,
        answered ∙ rw (direct, es, et, packed),
        answer_exchange k parent id ip ssh telnet snapshot fits packed,
      )

  -- Through the NAT, a client whose request from a plain address the pool grants is told of the
  -- public address and of the two ports of the guest's binding, if these fit the format, and the
  -- NAT's table is the one that the request for the binding leaves.
  pub nat_guest :
      (public_ip : Text) (k : PoolClient)
      → k.has_parent ≡ true
      → through_nat c ≡ true
      → c.nat_public_ip ≡ some public_ip
      → let (ports, n) = request_binding id o.new_ports p.nat_service in
        Fits id public_ip ports.0 ports.1 snapshot
        → Told c o src f k (record p { nat_service = n }) id public_ip ports.0 ports.1 snapshot
  unfolding expose
  nat_guest public_ip k parent nat public fits =
      let ports = (request_binding id o.new_ports p.nat_service).0 in
      let (reply, packed) = pack_response-ok id public_ip ports.0 ports.1 snapshot fits in
      (
        reply,
        answered ∙ rw (nat, public, packed),
        answer_exchange k parent id public_ip ports.0 ports.1 snapshot fits packed,
      )

  -- Where the guests are reached through the NAT and no public address was read, a request that
  -- the pool grants raises AttributeError, and the guest stays claimed and its binding counted.
  pub nat_without_ip :
      through_nat c ≡ true
      → c.nat_public_ip ≡ none
      → data_received c o (request_bytes src) f ≡ (
        err attribute_error,
        record f {
          pool_service = record p {
            nat_service = (request_binding id o.new_ports p.nat_service).1;
          };
        },
      )
  unfolding expose
  nat_without_ip nat nobody = answered ∙ rw (nat, nobody)

free_unbound :
    (id : ℕ) (n : NatService) → lookup id n.bindings ≡ none → free_binding id n ≡ err key_error
unfolding free_binding
free_unbound id n e = rw (e, free_binding)

-- Through the NAT, the release of a guest that has no binding, by an id of four bytes, raises
-- KeyError and does not reach the pool.
pub release_unbound :
    (c : ServerConfig) (o : Outside) (dirty : Bool) (id : ℕ) (f : Factory)
    → id < 4294967296
    → through_nat c ≡ true
    → lookup id f.pool_service.nat_service.bindings ≡ none
    → data_received c o (release_bytes dirty id) f ≡ (err key_error, f)
unfolding data_received dispatch on_release
release_unbound c o true id f h nat missing =
    ground (arith, unpack_I-be32 id h, free_unbound id f.pool_service.nat_service missing)
release_unbound c o false id f h nat missing =
    ground (arith, unpack_I-be32 id h, free_unbound id f.pool_service.nat_service missing)
