-- ===== src/Pool/Soundness.antt =====
-- What holds of each guest of the pool (cowrie/src/backend_pool/pool_service.py), and that every
-- change of a guest keeps it.
use honeybee_potstore.Base.{ℕ, ◌≡◌, Bool, true, false, [], ◌∷◌, arith}
use honeybee_potstore.Base.Int.{pos, ◌≤ℤ◌, -ℤ_parts}
use honeybee_potstore.Base.Text.{Text}
use honeybee_potstore.Pool.Guest.{Guest, state_eq, is_in, created, available, using, used, unset}
use honeybee_potstore.Pool.Producer.{Pass, Created, retire_if, destroy_one, boot_if, new_guest}
use honeybee_potstore.Pool.Consumers.{claim, freed, reused}

-- A guest has one of the named states; with a client it remembers the state to go back to, one in
-- which it could be handed out; until it is handed out it has no client.
pub record IsSound (g : Guest) : Type 0 where
  pub named : state_eq g.state unset ≡ false
  pub remembers : pos 1 ≤ℤ g.connected → is_in g.prev_state (available ∷ using ∷ used ∷ []) ≡ true
  pub waits : is_in g.state (created ∷ available ∷ used ∷ []) ≡ true → g.connected ≤ℤ pos 0

pub new_guest-IsSound : (id time : ℕ) (c : Created) → IsSound (new_guest id time c)
unfolding new_guest
new_guest-IsSound id time c = ground arith

pub retire-IsSound : (b : Bool) (g : Guest) → IsSound g → IsSound (retire_if b g)
unfolding retire_if
retire-IsSound b g v = ground arith

pub destroy_one-IsSound : (pass : Pass) (g : Guest) → IsSound g → IsSound (destroy_one pass g)
unfolding destroy_one
destroy_one-IsSound pass g v = ground arith

pub boot-IsSound :
    (b : Bool) (g : Guest) → state_eq g.state created ≡ true → IsSound g → IsSound (boot_if b g)
unfolding boot_if
boot-IsSound b g e v = ground arith

pub claim-IsSound :
    (ip : Text) (g : Guest)
    → is_in g.state (available ∷ using ∷ used ∷ []) ≡ true
    → IsSound g
    → IsSound (claim ip g)
unfolding claim
claim-IsSound ip g e v = ground arith

pub freed-IsSound : (now : ℕ) (g : Guest) → IsSound g → IsSound (freed now g)
unfolding freed
freed-IsSound now g v = ground (arith, -ℤ_parts g.connected (pos 1))

pub reused-IsSound : (g : Guest) → IsSound g → IsSound (reused g)
unfolding reused
reused-IsSound g v = ground (arith, -ℤ_parts g.connected (pos 1))
