-- ===== src/Server/Defs.antt =====
-- The classes PoolServer and PoolServerFactory (cowrie/src/backend_pool/pool_server.py).
use honeybee_potstore.Base.{
  ℕ, Bool, true, [], ◌∷◌, ◌&&◌, ◌||◌, not, Option, none, some, Result, ok, err, Error,
  no_available_vms, attribute_error, index_error, ◌==◌, if◌then◌else◌,
}
use honeybee_potstore.Base.Int.{ℤ, pos}
use honeybee_potstore.Base.Text.{Text, Bytes}
use honeybee_potstore.Wire.Struct.{unpack_I, unpack_settings}
use honeybee_potstore.Server.Packing.{pack_status, pack_response, read_ip}
use honeybee_potstore.Nat.{NatService, request_binding, free_binding}
use honeybee_potstore.Pool.Service.{PoolService, set_configs, start_pool, shutdown_pool}
use honeybee_potstore.Pool.Consumers.{request_vm, free_vm, reuse_vm}

-- What the protocol reads of the configuration. The public address is read, and so an attribute,
-- only where NAT is used.
pub record ServerConfig : Type 0 where
  pub local_pool : Bool
  pub pool_only : Bool
  pub use_nat : Bool
  pub nat_public_ip : Option Text
  pub guest_ssh_port : ℤ
  pub guest_telnet_port : ℤ

-- The factory's NATService is the one that its PoolService holds.
pub record Factory : Type 0 where
  pub initialised : Bool
  pub pool_service : PoolService

-- The clock, and the two ports that `listenTCP` gives if the message opens any.
pub record Outside : Type 0 where
  pub now : ℕ
  pub new_ports : ℕ × ℕ

abbrev pub Action : Type 0 → Type 0
Action A = Factory → Result A × Factory

infixl 5 ◌>>=◌ ◌>>◌
abbrev pub ◌>>=◌ : {A B : Type 0} → Action A → (A → Action B) → Action B
◌>>=◌ m f s = let (r, s') = m s in elim r [ ok a ↦ f a s' | err e ↦ (err e, s') ]

abbrev pub ◌>>◌ : {A B : Type 0} → Action A → Action B → Action B
m >> k = m >>= λ _. k

abbrev pub lift : {A : Type 0} → Result A → Action A
lift r s = (r, s)

abbrev pub modify_pool : (PoolService → PoolService) → Action (Unit {0})
modify_pool f s = (ok tt, record s { pool_service = f s.pool_service })

-- `(not self.local_pool and self.use_nat) or self.pool_only`
abbrev pub through_nat : ServerConfig → Bool
through_nat c = (not c.local_pool && c.use_nat) || c.pool_only

unfoldable pub set_initialised : Action (Unit {0})
set_initialised s = (ok tt, record s { initialised = true })

-- A call of the NATService, which the pool holds.
abbrev pub with_nat : {A : Type 0} → (NatService → A × NatService) → Action A
with_nat f s =
    let (a, n) = f s.pool_service.nat_service in
    let p = s.pool_service in (ok a, record s { pool_service = record p { nat_service = n } })

abbrev pub try_nat : (NatService → Result NatService) → Action (Unit {0})
try_nat f s =
    let p = s.pool_service in
    elim (f p.nat_service) [
      | ok n ↦ (ok tt, record s { pool_service = record p { nat_service = n } })
      | err e ↦ (err e, s)
    ]

abbrev pub nothing_to_do : Action (Unit {0})
nothing_to_do s = (ok tt, s)

abbrev pub attribute : Option Text → Result Text
attribute none = err attribute_error
attribute (some t) = ok t

-- `RES_OP_I`: the configuration of the pool.
unfoldable pub on_initialise : Bytes → Action Bytes
unfolding set_initialised
on_initialise body = do
  (m, t, share) ← lift (unpack_settings body)
  modify_pool (set_configs m t share)
  set_initialised
  lift (pack_status b'i' 0)

-- The ports that a client is told of: those of the guest, or those of the NAT in front of it.
unfoldable pub expose : ServerConfig → Outside → ℕ × Text × Text → Action Bytes
expose c o (id, guest_ip, snapshot) =
    if through_nat c
    then (do
      (ssh, telnet) ← with_nat (request_binding id o.new_ports)
      public_ip ← lift (attribute c.nat_public_ip)
      lift (pack_response id public_ip (pos ssh) (pos telnet) snapshot))
    else lift (pack_response id guest_ip c.guest_ssh_port c.guest_telnet_port snapshot)

-- `struct.pack("!cI", RES_OP_R, 1)`: the answer where there is no guest.
unfoldable pub no_vm_response : Result Bytes
no_vm_response = pack_status b'r' 1

-- `except NoAvailableVMs`.
unfoldable pub on_error : Error → Result Bytes
unfolding no_vm_response
on_error no_available_vms = no_vm_response
on_error e = err e

abbrev pub answer : ServerConfig → Outside → Result (ℕ × Text × Text) × PoolService → Action Bytes
answer c o (ok vm, p) s = expose c o vm (record s { pool_service = p })
answer c o (err e, p) s = (on_error e, record s { pool_service = p })

-- `RES_OP_R`: a guest for an address; a pool without one is an answer, any other exception is not
-- caught.
unfoldable pub on_request : ServerConfig → Outside → Bytes → Action Bytes
unfolding on_error
on_request c o body s = elim (read_ip body) [
  | err e ↦ (err e, s)
  | ok src ↦ answer c o (request_vm src s.pool_service) s
]

-- `RES_OP_F` and `RES_OP_U`: the binding goes first, and if it is missing the guest is not given
-- back.
unfoldable pub on_release : ServerConfig → (ℕ → PoolService → PoolService) → Bytes → Action Bytes
on_release c give_back body = do
  id ← lift (unpack_I body)
  if through_nat c then try_nat (free_binding id) else nothing_to_do
  modify_pool (give_back id)
  lift (ok [])

unfoldable pub dispatch : ServerConfig → Outside → ℕ → Bytes → Action Bytes
dispatch c o op body =
    if op == b'i'
    then on_initialise body
    else if op == b'r'
    then on_request c o body
    else if op == b'f'
    then on_release c (free_vm o.now) body
    else if op == b'u'
    then on_release c reuse_vm body
    else lift (ok [])

-- The bytes that go back are the result; none are sent if there are none.
unfoldable pub data_received : ServerConfig → Outside → Bytes → Action Bytes
unfolding dispatch
data_received c o [] = lift (err index_error)
data_received c o (op ∷ body) = dispatch c o op body

-- `startFactory` and `stopFactory`.
unfoldable pub start_factory : ℤ → Factory → Factory
start_factory recycle s = record s { pool_service = start_pool recycle s.pool_service }

unfoldable pub stop_factory : Factory → Result (Unit {0}) × Factory
stop_factory s = let (r, p) = shutdown_pool s.pool_service in (r, record s { pool_service = p })
