-- ===== src/Client/Handler.antt =====
-- The class PoolHandler (cowrie/src/cowrie/pool_interface/handler.py).
use honeybee_potstore.Base.{
  ℕ, Bool, true, ◌&&◌, not, Result, ok, err, if◌then◌else◌, ◌==◌, pool_not_ready,
}
use honeybee_potstore.Base.Int.{ℤ}
use honeybee_potstore.Base.Text.{Bytes}
use honeybee_potstore.Client.Connection.{PoolClient, set_parent, send_initialisation}

pub record PoolHandler : Type 0 where
  pub pool_ready : Bool

-- The handler goes on, and has told the plugin that the pool is ready; or the process exits.
pub data Next : Type 0 where
  goes_on : PoolHandler → Next
  exits : Next

-- The client is told its parent and sends the settings.
unfoldable pub initial_pool_connection_success :
    ℤ → ℤ → Bool → PoolClient → Result Bytes × PoolClient
unfolding set_parent
initial_pool_connection_success max_vms timeout share c =
    (send_initialisation max_vms timeout share, set_parent c)

unfoldable pub initial_pool_connection_error : PoolHandler → Next
initial_pool_connection_error h = exits

unfoldable pub initialisation_response : ℕ → PoolHandler → Next
initialisation_response res_code h =
    if res_code == 0 then goes_on (record h { pool_ready = true }) else exits

-- A connection may be asked for at the set-up, and once the pool is ready.
unfoldable pub request_interface : Bool → PoolHandler → Result (Unit {0})
request_interface initial_setup h =
    if not initial_setup && not h.pool_ready then err pool_not_ready else ok tt
