-- ===== src/Pool/Passes.antt =====
-- What a pass of the producer achieves (cowrie/src/backend_pool/pool_service.py, producer_loop).
use mathlib.Core.Path.{subst}
use honeybee_potstore.Base.{
  ℕ, zero, suc, ◌+◌, ◌-◌, ◌<◌, ◌≤◌, ◌≡◌, refl, ◌∙◌, Bool, true, List, [], ◌∷◌, ◌++◌, Result, ok,
  err, map, arith, keep, length, max, if◌then◌else◌,
}
use honeybee_potstore.Pool.Guest.{Guest, is_in, created}
use honeybee_potstore.Pool.Service.{
  PoolService, scheduled, existing_pool_size, is_ip_free, has_connectivity,
}
use honeybee_potstore.Pool.Producer.{
  Pass, Created, boot_if, new_guest, add_guest, called_create, create_loop, producer_mark_available,
  producer_create_guests, producer_clean, end_pass, producer_loop,
}
use honeybee_potstore.Pool.Removal.{alive}

-- The guests that are not destroyed.
abbrev pub living : List Guest → ℕ
living gs = length (keep alive gs)

living-append :
    (gs : List Guest) (g : Guest) → alive g ≡ true → living (gs ++ g ∷ []) ≡ living gs + 1
living-append [] g e = rw e (omega arith)
living-append (h ∷ gs) g e = ground (arith, living-append gs g e)

new_guest-alive : (id time : ℕ) (c : Created) → alive (new_guest id time c) ≡ true
unfolding new_guest
new_guest-alive id time c = refl

size-add_guest :
    (time : ℕ) (c : Created) (p : PoolService)
    → existing_pool_size (add_guest time c (called_create p)) ≡ existing_pool_size p + 1
unfolding existing_pool_size add_guest called_create
size-add_guest time c p =
    living-append p.guests (new_guest p.guest_id time c) (new_guest-alive p.guest_id time c)

size-called_create : (p : PoolService) → existing_pool_size (called_create p) ≡ existing_pool_size p
unfolding existing_pool_size called_create
size-called_create p = refl

abbrev pub Filled : ℕ → PoolService → Result (Unit {0}) × PoolService → Type 0
Filled k p (ok _, q) = existing_pool_size q ≡ existing_pool_size p + k
Filled k p (err _, q) =
    (existing_pool_size p ≤ existing_pool_size q)
    × (existing_pool_size q < existing_pool_size p + k)

Filled-next :
    (k : ℕ) (p q : PoolService) (r : Result (Unit {0}) × PoolService)
    → existing_pool_size q ≡ existing_pool_size p + 1
    → Filled k q r
    → Filled (suc k) p r
Filled-next k p q (ok u, s) e f = omega arith
Filled-next k p q (err x, s) e f = (omega arith, omega arith)

create_loop-Filled : (pass : Pass) (k i : ℕ) (p : PoolService) → Filled k p (create_loop pass k i p)
unfolding create_loop
create_loop-Filled pass zero i p = omega arith
create_loop-Filled pass (suc k) i p =
    after (pass.qemu_create i (λ ip. is_ip_free ip p)) refl
      (λ q. create_loop-Filled pass k (suc i) q)
  where
    after :
        (r : Result Created)
        → pass.qemu_create i (λ ip. is_ip_free ip p) ≡ r
        → ((q : PoolService) → Filled k q (create_loop pass k (suc i) q))
        → Filled (suc k) p (create_loop pass (suc k) i p)
    after (err e) q next =
        rw (q, create_loop)
          (omega (arith, size-called_create p), omega (arith, size-called_create p))
    after (ok c) q next =
        let s = add_guest (pass.time i) c (called_create p) in
        rw (q, create_loop)
          (Filled-next k p s (create_loop pass k (suc i) s) (size-add_guest (pass.time i) c p)
            (next s))

living-map :
    (f : Guest → Guest) (gs : List Guest)
    → ((g : Guest) → alive (f g) ≡ alive g)
    → living (map f gs) ≡ living gs
living-map f [] k = refl
living-map f (g ∷ gs) k = ground (arith, k g, living-map f gs k)

boot-alive :
    (b : Bool) (g : Guest)
    → alive (if is_in g.state (created ∷ []) then boot_if b g else g) ≡ alive g
unfolding boot_if
boot-alive b g = ground arith

size-mark_available :
    (pass : Pass) (p : PoolService)
    → existing_pool_size (record (producer_mark_available pass p) { loop_next_call = scheduled })
      ≡ existing_pool_size p
unfolding existing_pool_size producer_mark_available
size-mark_available pass p =
    living-map _ p.guests (λ g. boot-alive (has_connectivity pass.nmap_boot g.guest_ip p) g)

-- The fields that no part of a pass but its end writes.
abbrev Kept : PoolService → PoolService → Type 0
Kept p q =
    (q.max_vm ≡ p.max_vm)
    × (q.loop_next_call ≡ p.loop_next_call)
    × (q.ssh_port ≡ p.ssh_port)
    × (q.telnet_port ≡ p.telnet_port)

clean-Kept : (pass : Pass) (p : PoolService) → Kept p (producer_clean pass p)
unfolding producer_clean
clean-Kept pass p = ground arith

create_loop-Kept : (pass : Pass) (k i : ℕ) (p : PoolService) → Kept p (create_loop pass k i p).1
unfolding create_loop
create_loop-Kept pass zero i p = (refl, refl, refl, refl)
create_loop-Kept pass (suc k) i p =
    after (pass.qemu_create i (λ ip. is_ip_free ip p)) refl (λ q. create_loop-Kept pass k (suc i) q)
  where
    after :
        (r : Result Created)
        → pass.qemu_create i (λ ip. is_ip_free ip p) ≡ r
        → ((q : PoolService) → Kept q (create_loop pass k (suc i) q).1)
        → Kept p (create_loop pass (suc k) i p).1
    after (err e) q next = rw (q, create_loop) (refl, refl, refl, refl)
    after (ok c) q next = rw (q, create_loop) (next (add_guest (pass.time i) c (called_create p)))

abbrev pub Ended : Pass → PoolService → Result (Unit {0}) × PoolService → Type 0
Ended pass p (ok _, q) =
    (existing_pool_size q ≡ max (existing_pool_size (producer_clean pass p)) p.max_vm)
    × (q.loop_next_call ≡ scheduled)
Ended pass p (err _, q) = (existing_pool_size q < p.max_vm) × (q.loop_next_call ≡ p.loop_next_call)

end_pass-Ended :
    (pass : Pass) (p : PoolService) (r : Result (Unit {0}) × PoolService)
    → Filled (p.max_vm - existing_pool_size (producer_clean pass p)) (producer_clean pass p) r
    → Kept p r.1
    → Ended pass p (end_pass pass r)
unfolding end_pass
end_pass-Ended pass p (ok u, q) f k = (size-mark_available pass q ∙ omega arith, refl)
end_pass-Ended pass p (err e, q) f k = (omega arith, k.1)

-- A pass that ends well has filled the pool: it holds the configured number of guests, or what was
-- left after the cleaning if that is more, and the next pass is handed to the reactor. If a
-- creation raises, the pool is short of that number and no further pass is handed over.
pub producer_loop-Ended : (pass : Pass) (p : PoolService) → Ended pass p (producer_loop pass p)
unfolding producer_loop producer_create_guests
producer_loop-Ended pass p =
    let q = producer_clean pass p in
    let k = clean-Kept pass p in
    let l = create_loop-Kept pass (q.max_vm - existing_pool_size q) 0 q in
    end_pass-Ended pass p _
      (subst (λ (m : ℕ). Filled (m - existing_pool_size q) q (producer_create_guests pass q)) k.0
        (create_loop-Filled pass (q.max_vm - existing_pool_size q) 0 q))
      (l.0 ∙ k.0, l.1 ∙ k.1, l.2 ∙ k.2, l.3 ∙ k.3)
