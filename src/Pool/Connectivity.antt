-- ===== src/Pool/Connectivity.antt =====
-- The health test of PoolService (cowrie/src/backend_pool/pool_service.py, has_connectivity).
use honeybee_potstore.Base.{◌≡◌, Bool, true, ◌||◌, arith}
use honeybee_potstore.Base.Int.{ℤ, pos, ◌≤ℤ◌, ◌<ℤ◌}
use honeybee_potstore.Base.Text.{Text}
use honeybee_potstore.Pool.Service.{PoolService, has_connectivity}

module _ (nmap : Text → ℤ → Bool) (ip : Text) (p : PoolService) where
  -- With both services configured a guest is healthy exactly if one of its ports is open.
  pub connectivity_both :
      pos 0 <ℤ p.ssh_port
      → pos 0 <ℤ p.telnet_port
      → has_connectivity nmap ip p ≡ (nmap ip p.ssh_port || nmap ip p.telnet_port)
  unfolding has_connectivity
  connectivity_both s t = ground arith

  -- With Telnet alone it is healthy exactly if the Telnet port is open.
  pub connectivity_telnet :
      p.ssh_port ≤ℤ pos 0
      → pos 0 <ℤ p.telnet_port
      → has_connectivity nmap ip p ≡ nmap ip p.telnet_port
  unfolding has_connectivity
  connectivity_telnet s t = ground arith

  -- With no Telnet port every guest passes, whatever the network answers.
  pub connectivity_ssh : p.telnet_port ≤ℤ pos 0 → has_connectivity nmap ip p ≡ true
  unfolding has_connectivity
  connectivity_ssh t = ground arith
