-- ===== src/Pool/Releases.antt =====
-- The two ways to give a guest back (cowrie/src/backend_pool/pool_service.py, free_vm and
-- reuse_vm), after the request that took it.
use honeybee_potstore.Base.{
  ℕ, zero, suc, ◌≡◌, refl, ap, ◌∙◌, Bool, true, List, [], ◌∷◌, ◌++◌, some, arith, get_elem?,
  modify_at, ◌==◌,
}
use honeybee_potstore.Base.Int.{pos, ◌+ℤ◌, ◌-ℤ◌}
use honeybee_potstore.Base.Text.{Text, contains-append_self, contains-append}
use honeybee_potstore.Pool.Guest.{Guest, is_in, available, using, used, unavailable, unset}
use honeybee_potstore.Pool.Service.{PoolService}
use honeybee_potstore.Pool.Producer.{Pass, producer_mark_timed_out}
use honeybee_potstore.Pool.Consumers.{
  first_where, claim, freed, reused, with_guest, choose, reuse_vm,
}
use honeybee_potstore.Pool.Soundness.{IsSound}

abbrev pub has_id : ℕ → Guest → Bool
has_id id g = g.id == id

with_guest-modify_at :
    (id i : ℕ) (f : Guest → Guest) (gs : List Guest)
    → first_where (has_id id) gs ≡ some i
    → with_guest id f gs ≡ modify_at i f gs
unfolding first_where with_guest
with_guest-modify_at id i f [] e = cc
with_guest-modify_at id zero f (g ∷ gs) e = ground arith
with_guest-modify_at id (suc i) f (g ∷ gs) e = ground (arith, with_guest-modify_at id i f gs)

first_where-modify_at :
    (id i : ℕ) (f : Guest → Guest) (gs : List Guest)
    → ((g : Guest) → (f g).id ≡ g.id)
    → first_where (has_id id) (modify_at i f gs) ≡ first_where (has_id id) gs
unfolding first_where
first_where-modify_at id i f [] k = refl
first_where-modify_at id zero f (g ∷ gs) k = rw (k g)
first_where-modify_at id (suc i) f (g ∷ gs) k = rw (first_where-modify_at id i f gs k)

modify_at-modify_at :
    (i : ℕ) (f h : Guest → Guest) (gs : List Guest)
    → modify_at i f (modify_at i h gs) ≡ modify_at i (λ g. f (h g)) gs
modify_at-modify_at i f h [] = refl
modify_at-modify_at zero f h (g ∷ gs) = refl
modify_at-modify_at (suc i) f h (g ∷ gs) = ap (◌∷◌ g) (modify_at-modify_at i f h gs)

modify_at-ext :
    (i : ℕ) (f h : Guest → Guest) (gs : List Guest)
    → ((g : Guest) → get_elem? gs i ≡ some g → f g ≡ h g)
    → modify_at i f gs ≡ modify_at i h gs
modify_at-ext i f h [] e = refl
modify_at-ext zero f h (g ∷ gs) e = rw (e g refl)
modify_at-ext (suc i) f h (g ∷ gs) e = ap (◌∷◌ g) (modify_at-ext i f h gs e)

-- A guest that was claimed by one client alone and given back unused: as before, but for the
-- address that it remembers.
abbrev pub visited : Text → Guest → Guest
visited src g = record g { client_ips = g.client_ips ++ src ∷ []; prev_state = unset }

reused-claim : (src : Text) (g : Guest) → g.connected ≡ pos 0 → reused (claim src g) ≡ visited src g
unfolding reused claim ◌+ℤ◌ ◌-ℤ◌
reused-claim src g e = ground arith

claim-id : (src : Text) (g : Guest) → (claim src g).id ≡ g.id
unfolding claim
claim-id src g = refl

-- `reuse_vm` after a request that took a guest with no client gives back the pool of before, but
-- for the client's address, which the guest keeps, and for the state that it remembers.
pub reuse-claim :
    (src : Text) (id i : ℕ) (p : PoolService)
    → first_where (has_id id) p.guests ≡ some i
    → ((g : Guest) → get_elem? p.guests i ≡ some g → g.connected ≡ pos 0)
    → reuse_vm id (record p { guests = modify_at i (claim src) p.guests })
      ≡ record p { guests = modify_at i (visited src) p.guests }
unfolding reuse_vm
reuse-claim src id i p first idle =
    ap (λ (gs : List Guest). record p { guests = gs })
      (with_guest-modify_at id i reused _
          (first_where-modify_at id i (claim src) p.guests (claim-id src) ∙ first)
        ∙ modify_at-modify_at i reused (claim src) p.guests
        ∙ modify_at-ext i (λ g. reused (claim src g)) (visited src) p.guests
            (λ g at. reused-claim src g (idle g at)))

-- A sound guest that was marked for destruction comes back into use when its last client lets go
-- of it: `free_vm` makes it `used`, and `reuse_vm` gives it a state in which it can be handed out.
pub release-unavailable :
    (now : ℕ) (g : Guest)
    → IsSound g
    → g.state ≡ unavailable
    → g.connected ≡ pos 1
    → ((freed now g).state ≡ used) × (is_in (reused g).state (available ∷ using ∷ used ∷ []) ≡ true)
unfolding freed reused ◌-ℤ◌
release-unavailable now g v s c = ground arith

-- Two clients share a guest that had none and both give it back unused: it stays `using` with no
-- client, and no clock makes the producer retire it.
pub reuse_twice-strands :
    (a b : Text) (g : Guest) (pass : Pass) (timeout : ℕ) (p : PoolService)
    → g.connected ≡ pos 0
    → let h = reused (reused (claim b (claim a g))) in
      (h.state ≡ using)
      × (h.connected ≡ pos 0)
      × ((producer_mark_timed_out pass timeout (record p { guests = h ∷ [] })).guests ≡ h ∷ [])
unfolding reused claim ◌+ℤ◌ ◌-ℤ◌ producer_mark_timed_out
reuse_twice-strands a b g pass timeout p e = ground arith

-- A guest with no client that a client takes and gives back unused, and that another client then
-- takes, is handed to the first client again, whether or not guests may be shared.
pub reuse-shares :
    (a b : Text) (g : Guest) (p : PoolService)
    → g.connected ≡ pos 0
    → choose a (record p { guests = claim b (reused (claim a g)) ∷ [] }) ≡ some 0
unfolding reused claim ◌+ℤ◌ ◌-ℤ◌ choose first_where
reuse-shares a b g p e = ground (
  arith,
  contains-append a (g.client_ips ++ a ∷ []) (b ∷ []) (contains-append_self a g.client_ips),
)
