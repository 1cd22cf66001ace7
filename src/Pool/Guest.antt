-- ===== src/Pool/Guest.antt =====
-- The states of a guest and the class Guest (cowrie/src/backend_pool/pool_service.py).
use honeybee_potstore.Base.{ℕ, Bool, false, List, [], ◌∷◌, ◌||◌, ◌==◌}
use honeybee_potstore.Base.Int.{ℤ}
use honeybee_potstore.Base.Text.{Text}

-- The strings POOL_STATE_*; `unset` is Python's None, which `prev_state` starts as.
pub data GuestState : Type 0 where
  created available using used unavailable destroyed unset : GuestState

abbrev pub code : GuestState → ℕ
code created = 0
code available = 1
code using = 2
code used = 3
code unavailable = 4
code destroyed = 5
code unset = 6

abbrev pub state_eq : GuestState → GuestState → Bool
state_eq s t = code s == code t

-- `state in states`
abbrev pub is_in : GuestState → List GuestState → Bool
is_in s [] = false
is_in s (t ∷ ts) = state_eq s t || is_in s ts

-- Times are whole ticks of the clock. A domain is libvirt's object, of which only the identity is
-- used.
pub record Guest : Type 0 where
  pub id : ℕ
  pub client_ips : List Text
  pub connected : ℤ
  pub state : GuestState
  pub prev_state : GuestState
  pub start_timestamp : ℕ
  pub freed_timestamp : ℤ
  pub domain : ℕ
  pub guest_ip : Text
  pub name : Text
  pub snapshot : Text
