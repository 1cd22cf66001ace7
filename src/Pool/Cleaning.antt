-- ===== src/Pool/Cleaning.antt =====
-- What the first half of a pass leaves (cowrie/src/backend_pool/pool_service.py, producer_loop).
use honeybee_potstore.Base.{
  ◌||◌, ℕ, ◌<◌, ◌≤◌, ◌≡◌, refl, sym, ap, ◌∙◌, true, false, List, [], ◌∷◌, not, ok, map, arith, All,
  keep, if◌then◌else◌, Bool-cases, inl, inr, ltb, Bool, ◌⊎◌,
}
use honeybee_potstore.Base.Int.{ℤ, pos, ◌<ℤ◌, ◌≤ℤ◌, ltb_ℤ}
use honeybee_potstore.Base.Text.{Text}
use honeybee_potstore.Pool.Guest.{Guest, is_in, available, using, used, unavailable}
use honeybee_potstore.Pool.Service.{PoolService, existing_pool_size, has_connectivity}
use honeybee_potstore.Pool.Producer.{
  Pass, retire_if, timed_out, destroy_one, producer_mark_timed_out, producer_check_health,
  producer_destroy_timed_out, producer_clean,
}
use honeybee_potstore.Pool.Removal.{alive, remove_destroyed-keep}
use honeybee_potstore.Pool.Passes.{living}

-- What `nmap_port` says of a guest that passes as healthy: a configured port is open, or the
-- question of Telnet is not asked, since none is configured.
abbrev pub Answers : (Text → ℤ → Bool) → PoolService → Guest → Type 0
Answers nmap p g =
    ((pos 0 <ℤ p.ssh_port) × (nmap g.guest_ip p.ssh_port ≡ true))
    ⊎ ((pos 0 <ℤ p.telnet_port) × (nmap g.guest_ip p.telnet_port ≡ true))
    ⊎ (p.telnet_port ≤ℤ pos 0)

answers :
    (nmap : Text → ℤ → Bool) (p : PoolService) (g : Guest)
    → has_connectivity nmap g.guest_ip p ≡ true
    → Answers nmap p g
unfolding has_connectivity
answers nmap p g h = elim (Bool-cases (ltb_ℤ (pos 0) p.telnet_port)) [
  | inr no_telnet ↦ inr (inr (ground arith))
  | inl telnet ↦ elim (Bool-cases (nmap g.guest_ip p.telnet_port)) [
    | inl open_telnet ↦ inr (inl (ground arith, open_telnet))
    | inr shut ↦ elim (Bool-cases (ltb_ℤ (pos 0) p.ssh_port)) [
      | inl ssh ↦ inl (ground arith, ground arith)
      | inr no_ssh ↦ absurd (ground arith)
    ]
  ]
]

-- A guest that is still there, and passes the test of health if it may be handed out.
abbrev Passes : Pass → PoolService → Guest → Type 0
Passes pass p g =
    (alive g ≡ true)
    × ((not (is_in g.state (available ∷ using ∷ used ∷ []))
          || has_connectivity pass.nmap_health g.guest_ip p)
        ≡ true)

-- A guest that is still there, and answers if it may be handed out.
abbrev pub Healthy : Pass → PoolService → Guest → Type 0
Healthy pass p g =
    (alive g ≡ true)
    × ((is_in g.state (available ∷ using ∷ used ∷ []) ≡ false) ⊎ Answers pass.nmap_health p g)

Passes-Healthy : (pass : Pass) (p : PoolService) (g : Guest) → Passes pass p g → Healthy pass p g
Passes-Healthy pass p g h = (
  h.0,
  elim (Bool-cases (is_in g.state (available ∷ using ∷ used ∷ []))) [
    | inl e ↦ inr (answers pass.nmap_health p g (ground arith))
    | inr e ↦ inl e
  ],
)

-- The first step of the cleaning, on the guests.
retired : Pass → PoolService → PoolService
retired pass p =
    if ltb 1 (existing_pool_size p)
    then producer_destroy_timed_out pass (producer_mark_timed_out pass p.vm_unused_timeout p)
    else p

checked : Pass → PoolService → Guest → Guest
unfolding retire_if
checked pass q g =
    if is_in g.state (available ∷ using ∷ used ∷ [])
    then retire_if (not (has_connectivity pass.nmap_health g.guest_ip q)) g
    else g

clean-guests :
    (pass : Pass) (p : PoolService)
    → (producer_clean pass p).guests
      ≡ keep alive (map (checked pass (retired pass p)) (retired pass p).guests)
unfolding producer_clean checked retired
clean-guests pass p = remove_destroyed-keep (producer_check_health pass (retired pass p))

connectivity-retired :
    (pass : Pass) (ip : Text) (p : PoolService)
    → has_connectivity pass.nmap_health ip (retired pass p) ≡ has_connectivity pass.nmap_health ip p
unfolding retired has_connectivity producer_destroy_timed_out producer_mark_timed_out
connectivity-retired pass ip p = elim (Bool-cases (ltb 1 (existing_pool_size p))) [
  | inl e ↦ simp e
  | inr e ↦ simp e
]

checked-Passes :
    (pass : Pass) (q : PoolService) (g : Guest)
    → alive (checked pass q g) ≡ true
    → Passes pass q (checked pass q g)
unfolding checked
checked-Passes pass q g h = ground arith

keep-Passes :
    (pass : Pass) (q : PoolService) (gs : List Guest)
    → All (Passes pass q) (keep alive (map (checked pass q) gs))
keep-Passes pass q [] = tt
keep-Passes pass q (g ∷ gs) = elim (Bool-cases (alive (checked pass q g))) [
  | inl e ↦ rw e (checked-Passes pass q g e, keep-Passes pass q gs)
  | inr e ↦ rw e (keep-Passes pass q gs)
]

Healthy-retired :
    (pass : Pass) (p : PoolService) (gs : List Guest)
    → All (Passes pass (retired pass p)) gs
    → All (Healthy pass p) gs
Healthy-retired pass p [] a = tt
Healthy-retired pass p (g ∷ gs) a = (
  Passes-Healthy pass p g (a.0.0, rw (← connectivity-retired pass g.guest_ip p) a.0.1),
  Healthy-retired pass p gs a.1,
)

-- After the cleaning no destroyed guest is listed, and of every listed guest that may be handed out
-- `nmap_port` said in this pass that the SSH port or the Telnet port is open, each if it is
-- configured; only where no Telnet port is configured nothing is known of it.
pub clean-Healthy :
    (pass : Pass) (p : PoolService) → All (Healthy pass p) (producer_clean pass p).guests
clean-Healthy pass p =
    rw (clean-guests pass p)
      (Healthy-retired pass p _ (keep-Passes pass (retired pass p) (retired pass p).guests))

checked-alive : (pass : Pass) (q : PoolService) (g : Guest) → alive (checked pass q g) ≡ alive g
unfolding checked
checked-alive pass q g = ground arith

living-checked :
    (pass : Pass) (q : PoolService) (gs : List Guest)
    → living (keep alive (map (checked pass q) gs)) ≡ living gs
living-checked pass q [] = refl
living-checked pass q (g ∷ gs) = ground (arith, checked-alive pass q g, living-checked pass q gs)

size-living : (p : PoolService) → existing_pool_size p ≡ living p.guests
unfolding existing_pool_size
size-living p = refl

retired_small : (pass : Pass) (p : PoolService) → existing_pool_size p ≤ 1 → retired pass p ≡ p
unfolding retired
retired_small pass p h = let e : ltb 1 (existing_pool_size p) ≡ false = ground arith in simp e

-- A pool of at most one guest loses none to the cleaning.
pub clean-small :
    (pass : Pass) (p : PoolService)
    → existing_pool_size p ≤ 1
    → existing_pool_size (producer_clean pass p) ≡ existing_pool_size p
clean-small pass p h =
    size-living (producer_clean pass p)
    ∙ ap living (clean-guests pass p)
    ∙ living-checked pass (retired pass p) (retired pass p).guests
    ∙ ap (λ (q : PoolService). living q.guests) (retired_small pass p h)
    ∙ sym (size-living p)

marked : Pass → ℕ → Guest → Guest
unfolding retire_if
marked pass timeout g =
    if is_in g.state (used ∷ []) then retire_if (timed_out pass timeout g) g else g

struck : Pass → Guest → Guest
unfolding destroy_one
struck pass g = if is_in g.state (unavailable ∷ []) then destroy_one pass g else g

retired_large :
    (pass : Pass) (p : PoolService)
    → 1 < existing_pool_size p
    → (retired pass p).guests ≡ map (struck pass) (map (marked pass p.vm_unused_timeout) p.guests)
unfolding retired struck marked producer_destroy_timed_out producer_mark_timed_out
retired_large pass p h = let e : ltb 1 (existing_pool_size p) ≡ true = ground arith in simp e

-- A guest that is `used` and past its time at the clock of the pass.
abbrev pub Expired : Pass → ℕ → Guest → Type 0
Expired pass timeout g = (g.state ≡ used) × (timed_out pass timeout g ≡ true)

Expired-gone :
    (pass : Pass) (timeout : ℕ) (g : Guest)
    → ((h : Guest) → pass.qemu_destroy h ≡ ok tt)
    → Expired pass timeout g
    → alive (struck pass (marked pass timeout g)) ≡ false
unfolding struck marked
Expired-gone pass timeout g d e =
    let q = d (record g { state = unavailable }) in ground (arith, e.0, e.1, q)

Expired-All :
    (pass : Pass) (q : PoolService) (timeout : ℕ) (gs : List Guest)
    → ((h : Guest) → pass.qemu_destroy h ≡ ok tt)
    → All (Expired pass timeout) gs
    → keep alive (map (checked pass q) (map (struck pass) (map (marked pass timeout) gs))) ≡ []
Expired-All pass q timeout [] d a = refl
Expired-All pass q timeout (g ∷ gs) d a = ground (
  arith,
  checked-alive pass q (struck pass (marked pass timeout g)),
  Expired-gone pass timeout g d a.0,
  Expired-All pass q timeout gs d a.1,
)

-- A pool of two or more guests that are all past their time loses every one of them, if the backend
-- destroys what it is told to.
pub clean-empties :
    (pass : Pass) (p : PoolService)
    → 1 < existing_pool_size p
    → All (Expired pass p.vm_unused_timeout) p.guests
    → ((g : Guest) → pass.qemu_destroy g ≡ ok tt)
    → (producer_clean pass p).guests ≡ []
clean-empties pass p h a d =
    clean-guests pass p
    ∙ ap (λ gs. keep alive (map (checked pass (retired pass p)) gs)) (retired_large pass p h)
    ∙ Expired-All pass (retired pass p) p.vm_unused_timeout p.guests d a
