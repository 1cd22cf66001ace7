-- ===== src/Pool/Reachable.antt =====
-- PoolService (cowrie/src/backend_pool/pool_service.py) as a step relation: the calls of its
-- clients, the passes of its producer and its start and stop, in any order; what holds of every
-- state that they reach.
use mathlib.Core.Path.{subst}
use mathlib.Core.Option.{some-injective}
use honeybee_potstore.Base.{
  ℕ, ◌≡◌, refl, sym, ◌∙◌, Bool, true, List, [], ◌∷◌, Result, ok, err, arith, All, All-modify_at,
  get_elem?, some, Bool-cases, inl, inr, ◌==◌,
}
use honeybee_potstore.Base.Int.{ℤ}
use honeybee_potstore.Base.Text.{Text}
use honeybee_potstore.Pool.Guest.{Guest, is_in, available, using, used}
use honeybee_potstore.Pool.Service.{
  PoolService, DelayedCall, cancel, scheduled, called, set_configs, start_pool, stopped, stop_pool,
  and_then, shut_backend, restart_pool, is_ip_free, shutdown_pool,
}
use honeybee_potstore.Pool.Producer.{
  Pass, Created, add_guest, called_create, producer_mark_timed_out, producer_destroy_timed_out,
  producer_check_health, producer_remove_destroyed, producer_mark_available, producer_clean,
  end_pass, producer_loop,
}
use honeybee_potstore.Pool.Consumers.{
  claim, freed, reused, with_guest, request_vm, free_vm, reuse_vm, refuse, no_guest,
}
use honeybee_potstore.Pool.Soundness
use honeybee_potstore.Pool.Soundness.{IsSound}
use honeybee_potstore.Pool.Addresses.{KeepsIp, Addresses-modify_at, Addresses-with_guest}
use honeybee_potstore.Pool.Requests.{Reason, request-Granted_or_Refused}
use honeybee_potstore.Pool.Invariant.{
  Inv, Honest, clean-Inv, create_guests-Inv, mark_available-Inv, mark_timed_out-Inv,
  destroy_timed_out-Inv, check_health-Inv, remove_destroyed-Inv, create_one-Inv, called_create-Inv,
}

end_pass-Inv :
    (pass : Pass) (r : Result (Unit {0}) × PoolService) → Inv r.1 → Inv (end_pass pass r).1
unfolding end_pass
end_pass-Inv pass (err e, q) v = v
end_pass-Inv pass (ok u, q) v =
    let w = mark_available-Inv pass q v in
    record { sound = w.sound; apart = w.apart; counts = w.counts }

producer_loop-Inv :
    (pass : Pass) (p : PoolService) → Honest pass → Inv p → Inv (producer_loop pass p).1
unfolding producer_loop
producer_loop-Inv pass p h v =
    end_pass-Inv pass _ (create_guests-Inv pass (producer_clean pass p) h (clean-Inv pass p v))

abbrev IsHandable : Guest → Type 0
IsHandable g = is_in g.state (available ∷ using ∷ used ∷ []) ≡ true

usable : (src : Text) (p : PoolService) (i : ℕ) (g : Guest) → Reason src p i g → IsHandable g
usable src p i g (inl s) = let h = s.0 in ground arith
usable src p i g (inr (inl a)) = let h = a.1 in ground arith
usable src p i g (inr (inr s)) = let h = s.3 in ground arith

stopped-Inv : (r : Result DelayedCall) (p : PoolService) → Inv p → Inv (stopped r p).1
unfolding stopped
stopped-Inv (err e) p v = v
stopped-Inv (ok c) p v = record { sound = v.sound; apart = v.apart; counts = v.counts }

and_then-Inv :
    (f : PoolService → PoolService) (r : Result (Unit {0}) × PoolService)
    → ((q : PoolService) → Inv q → Inv (f q))
    → Inv r.1
    → Inv (and_then f r).1
and_then-Inv f (err e, q) keeps v = v
and_then-Inv f (ok u, q) keeps v = keeps q v

start_pool-Inv : (recycle : ℤ) (p : PoolService) → Inv (start_pool recycle p)
unfolding start_pool
start_pool-Inv recycle p = record { sound = tt; apart = tt; counts = omega arith }

shut_backend-Inv : (p : PoolService) → Inv p → Inv (shut_backend p)
unfolding shut_backend
shut_backend-Inv p v = record { sound = v.sound; apart = v.apart; counts = v.counts }

set_configs-Inv : (m t : ℕ) (share : Bool) (p : PoolService) → Inv p → Inv (set_configs m t share p)
unfolding set_configs
set_configs-Inv m t share p v = record { sound = v.sound; apart = v.apart; counts = v.counts }

stop_pool-Inv : (p : PoolService) → Inv p → Inv (stop_pool p).1
unfolding stop_pool
stop_pool-Inv p v = stopped-Inv (cancel p.loop_next_call) p v

refuse-Inv : (r : Result (Unit {0}) × PoolService) → Inv r.1 → Inv (refuse r).1
unfolding refuse
refuse-Inv (ok u, q) v = v
refuse-Inv (err e, q) v = v

no_guest-Inv : (p : PoolService) → Inv p → Inv (no_guest p).1
unfolding no_guest
no_guest-Inv p v = elim (Bool-cases p.any_vm_up) [
  | inl e ↦ simp e (refuse-Inv (stop_pool p) (stop_pool-Inv p v))
  | inr e ↦ simp e v
]

claim-KeepsIp : (src : Text) → KeepsIp (claim src)
unfolding claim
claim-KeepsIp src g = refl

freed-KeepsIp : (now : ℕ) → KeepsIp (freed now)
unfolding freed
freed-KeepsIp now g = refl

reused-KeepsIp : KeepsIp reused
unfolding reused
reused-KeepsIp g = refl

with_guest-IsSound :
    (id : ℕ) (f : Guest → Guest) (gs : List Guest)
    → ((g : Guest) → IsSound g → IsSound (f g))
    → All IsSound gs
    → All IsSound (with_guest id f gs)
unfolding with_guest
with_guest-IsSound id f [] keeps a = tt
with_guest-IsSound id f (g ∷ gs) keeps a = elim (Bool-cases (g.id == id)) [
  | inl e ↦ rw e (keeps g a.0, a.1)
  | inr e ↦ rw e (a.0, with_guest-IsSound id f gs keeps a.1)
]

free_vm-Inv : (now id : ℕ) (p : PoolService) → Inv p → Inv (free_vm now id p)
unfolding free_vm
free_vm-Inv now id p v = record {
  sound = with_guest-IsSound id (freed now) p.guests (Soundness.freed-IsSound now) v.sound;
  apart = Addresses-with_guest (freed now) id p.guests (freed-KeepsIp now) v.apart;
  counts = v.counts;
}

reuse_vm-Inv : (id : ℕ) (p : PoolService) → Inv p → Inv (reuse_vm id p)
unfolding reuse_vm
reuse_vm-Inv id p v = record {
  sound = with_guest-IsSound id reused p.guests Soundness.reused-IsSound v.sound;
  apart = Addresses-with_guest reused id p.guests reused-KeepsIp v.apart;
  counts = v.counts;
}

request_vm-Inv : (src : Text) (p : PoolService) → Inv p → Inv (request_vm src p).1
request_vm-Inv src p v = elim (request-Granted_or_Refused src p) [
  | inr (_, e) ↦ rw e (no_guest-Inv p v)
  | inl (i, g, at, why, e) ↦
      let same : (h : Guest) → get_elem? p.guests i ≡ some h → IsHandable h =
        λ h at'. subst IsHandable (some-injective g h (sym at ∙ at')) (usable src p i g why) in
      rw e (record {
        sound =
            All-modify_at IsSound i (claim src) p.guests
              (λ h at' w. Soundness.claim-IsSound src h (same h at') w) v.sound;
        apart = Addresses-modify_at (claim src) i p.guests (claim-KeepsIp src) v.apart;
        counts = v.counts;
      })
]

-- One call or event. The reactor makes the pending call of the producer (`fires`) before a pass. A
-- pass is one step, or goes part by part in the producer's thread, with other calls in between.
pub data Step : PoolService → PoolService → Type 0 where
  configures : (m t : ℕ) (share : Bool) (p : PoolService) → Step p (set_configs m t share p)
  starts : (recycle : ℤ) (p : PoolService) → Step p (start_pool recycle p)
  stops : (p : PoolService) → Step p (stop_pool p).1
  restarts : (recycle : ℤ) (p : PoolService) → Step p (restart_pool recycle p).1
  shuts_down : (p : PoolService) → Step p (shutdown_pool p).1
  fires :
      (p : PoolService)
      → p.loop_next_call ≡ scheduled
      → Step p (record p { loop_next_call = called })
  passes : (pass : Pass) (p : PoolService) → Honest pass → Step p (producer_loop pass p).1
  marks_timed_out :
      (pass : Pass) (timeout : ℕ) (p : PoolService)
      → Step p (producer_mark_timed_out pass timeout p)
  destroys : (pass : Pass) (p : PoolService) → Step p (producer_destroy_timed_out pass p)
  checks_health : (pass : Pass) (p : PoolService) → Step p (producer_check_health pass p)
  removes : (p : PoolService) → Step p (producer_remove_destroyed p)
  creates :
      (time : ℕ) (c : Created) (p : PoolService)
      → is_ip_free c.guest_ip p ≡ true
      → Step p (add_guest time c (called_create p))
  fails_to_create : (p : PoolService) → Step p (called_create p)
  boots : (pass : Pass) (p : PoolService) → Step p (producer_mark_available pass p)
  schedules : (p : PoolService) → Step p (record p { loop_next_call = scheduled })
  requests : (src : Text) (p : PoolService) → Step p (request_vm src p).1
  frees : (now id : ℕ) (p : PoolService) → Step p (free_vm now id p)
  reuses : (id : ℕ) (p : PoolService) → Step p (reuse_vm id p)

pub data Reach (p : PoolService) : PoolService → Type 0 where
  here : Reach p p
  next : {q r : PoolService} → Reach p q → Step q r → Reach p r

Step-Inv : {p q : PoolService} → Step p q → Inv p → Inv q
unfolding restart_pool stop_pool shutdown_pool
Step-Inv (configures m t share p) v = set_configs-Inv m t share p v
Step-Inv (starts recycle p) v = start_pool-Inv recycle p
Step-Inv (stops p) v = stop_pool-Inv p v
Step-Inv (restarts recycle p) v =
    and_then-Inv (start_pool recycle) (stop_pool p) (λ q _. start_pool-Inv recycle q)
      (stop_pool-Inv p v)
Step-Inv (shuts_down p) v =
    and_then-Inv shut_backend (stop_pool p) shut_backend-Inv (stop_pool-Inv p v)
Step-Inv (fires p e) v = record { sound = v.sound; apart = v.apart; counts = v.counts }
Step-Inv (passes pass p h) v = producer_loop-Inv pass p h v
Step-Inv (marks_timed_out pass timeout p) v = mark_timed_out-Inv pass timeout p v
Step-Inv (destroys pass p) v = destroy_timed_out-Inv pass p v
Step-Inv (checks_health pass p) v = check_health-Inv pass p v
Step-Inv (removes p) v = remove_destroyed-Inv p v
Step-Inv (creates time c p free) v = create_one-Inv time c p free v
Step-Inv (fails_to_create p) v = called_create-Inv p v
Step-Inv (boots pass p) v = mark_available-Inv pass p v
Step-Inv (schedules p) v = record { sound = v.sound; apart = v.apart; counts = v.counts }
Step-Inv (requests src p) v = request_vm-Inv src p v
Step-Inv (frees now id p) v = free_vm-Inv now id p v
Step-Inv (reuses id p) v = reuse_vm-Inv id p v

-- Whatever calls, events and passes follow a start of the pool, in any order, the parts of a pass
-- with calls in between too, and if each guest that the backend creates has an address that passed
-- the pool's test: every guest has a named state, remembers while it has clients a state in which
-- it could be handed out, and has no client before it is handed out or once it is `used`; no two
-- guests have one address; the counter stays below 252.
pub Reach-Inv :
    (recycle : ℤ) (p : PoolService) {q : PoolService} → Reach (start_pool recycle p) q → Inv q
Reach-Inv recycle p here = start_pool-Inv recycle p
Reach-Inv recycle p (next r s) = Step-Inv s (Reach-Inv recycle p r)
