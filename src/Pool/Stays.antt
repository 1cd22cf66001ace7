-- ===== src/Pool/Stays.antt =====
-- What a pass leaves as it is (cowrie/src/backend_pool/pool_service.py, producer_loop).
use honeybee_potstore.Base.{
  ℕ, zero, suc, ◌≡◌, refl, ◌∙◌, Bool, true, false, List, [], ◌∷◌, ◌++◌, ◌&&◌, not, some, Result, ok,
  err, arith, get_elem?, keep, map, if◌then◌else◌, Bool-cases, inl, inr, ltb,
}
use honeybee_potstore.Pool.Guest.{
  Guest, GuestState, is_in, created, available, using, used, unavailable,
}
use honeybee_potstore.Pool.Service.{PoolService, existing_pool_size, has_connectivity, is_ip_free}
use honeybee_potstore.Pool.Producer.{
  Pass, Created, for_guests, retire_if, timed_out, destroy_one, boot_if, producer_mark_timed_out,
  producer_check_health, producer_destroy_timed_out, producer_remove_destroyed,
  producer_mark_available, add_guest, called_create, create_loop, producer_create_guests,
  producer_clean, end_pass, producer_loop,
}
use honeybee_potstore.Pool.Removal.{alive, remove_destroyed-keep}

-- The guest is in the list, with these very fields.
abbrev pub Listed : Guest → List Guest → Type 0
Listed g gs = (i : ℕ) × (get_elem? gs i ≡ some g)

Listed-cons : (g h : Guest) (gs : List Guest) → Listed g gs → Listed g (h ∷ gs)
Listed-cons g h gs l = (suc l.0, l.1)

Listed-map :
    (f : Guest → Guest) (g : Guest) (gs : List Guest) → f g ≡ g → Listed g gs → Listed g (map f gs)
Listed-map f g [] e (i, at) = (i, cc)
Listed-map f g (h ∷ gs) e (zero, at) = let q : h ≡ g = cc in (zero, rw (q, e) refl)
Listed-map f g (h ∷ gs) e (suc i, at) = Listed-cons g (f h) (map f gs) (Listed-map f g gs e (i, at))

Listed-keep :
    (q : Guest → Bool) (g : Guest) (gs : List Guest)
    → q g ≡ true
    → Listed g gs
    → Listed g (keep q gs)
Listed-keep q g [] e (i, at) = (i, cc)
Listed-keep q g (h ∷ gs) e (zero, at) = let same : h ≡ g = cc in rw (same, e) (zero, refl)
Listed-keep q g (h ∷ gs) e (suc i, at) = elim (Bool-cases (q h)) [
  | inl y ↦ rw y (Listed-cons g h (keep q gs) (Listed-keep q g gs e (i, at)))
  | inr n ↦ rw n (Listed-keep q g gs e (i, at))
]

Listed-append : (g : Guest) (gs hs : List Guest) → Listed g gs → Listed g (gs ++ hs)
Listed-append g [] hs (i, at) = absurd cc
Listed-append g (h ∷ gs) hs (zero, at) = (zero, at)
Listed-append g (h ∷ gs) hs (suc i, at) = Listed-cons g h (gs ++ hs) (Listed-append g gs hs (i, at))

Listed-for_guests :
    (states : List GuestState) (f : Guest → Guest) (p : PoolService) (g : Guest)
    → (if is_in g.state states then f g else g) ≡ g
    → Listed g p.guests
    → Listed g (for_guests states f p).guests
unfolding for_guests
Listed-for_guests states f p g e l =
    Listed-map (λ h. if is_in h.state states then f h else h) g p.guests e l

-- A guest that may be handed out.
abbrev pub IsHandable : Guest → Type 0
IsHandable g = is_in g.state (available ∷ using ∷ used ∷ []) ≡ true

module _ (pass : Pass) (g : Guest) where
  Listed-mark_timed_out :
      (timeout : ℕ) (p : PoolService)
      → (is_in g.state (used ∷ []) && timed_out pass timeout g) ≡ false
      → Listed g p.guests
      → Listed g (producer_mark_timed_out pass timeout p).guests
  unfolding producer_mark_timed_out retire_if
  Listed-mark_timed_out timeout p e l =
      Listed-for_guests (used ∷ []) (λ h. retire_if (timed_out pass timeout h) h) p g (ground arith)
        l

  Listed-destroy_timed_out :
      (p : PoolService)
      → IsHandable g
      → Listed g p.guests
      → Listed g (producer_destroy_timed_out pass p).guests
  unfolding producer_destroy_timed_out
  Listed-destroy_timed_out p e l =
      Listed-for_guests (unavailable ∷ []) (destroy_one pass) p g (ground arith) l

  Listed-check_health :
      (p : PoolService)
      → has_connectivity pass.nmap_health g.guest_ip p ≡ true
      → Listed g p.guests
      → Listed g (producer_check_health pass p).guests
  unfolding producer_check_health retire_if
  Listed-check_health p e l =
      Listed-for_guests (available ∷ using ∷ used ∷ [])
        (λ h. retire_if (not (has_connectivity pass.nmap_health h.guest_ip p)) h) p g (ground arith)
        l

  Listed-remove_destroyed :
      (p : PoolService)
      → IsHandable g
      → Listed g p.guests
      → Listed g (producer_remove_destroyed p).guests
  Listed-remove_destroyed p e l =
      rw (remove_destroyed-keep p) (Listed-keep alive g p.guests (ground arith) l)

  same_connectivity :
      (p : PoolService)
      → has_connectivity pass.nmap_health g.guest_ip
          (producer_destroy_timed_out pass (producer_mark_timed_out pass p.vm_unused_timeout p))
        ≡ has_connectivity pass.nmap_health g.guest_ip p
  unfolding has_connectivity producer_destroy_timed_out producer_mark_timed_out
  same_connectivity p = refl

  Listed-clean :
      (p : PoolService)
      → IsHandable g
      → (is_in g.state (used ∷ []) && timed_out pass p.vm_unused_timeout g) ≡ false
      → has_connectivity pass.nmap_health g.guest_ip p ≡ true
      → Listed g p.guests
      → Listed g (producer_clean pass p).guests
  unfolding producer_clean
  Listed-clean p h t c l = elim (Bool-cases (ltb 1 (existing_pool_size p))) [
    | inl e ↦
        let q =
          producer_destroy_timed_out pass (producer_mark_timed_out pass p.vm_unused_timeout p) in
        let kept =
          Listed-destroy_timed_out (producer_mark_timed_out pass p.vm_unused_timeout p) h
            (Listed-mark_timed_out p.vm_unused_timeout p t l) in
        let answers = same_connectivity p ∙ c in
        rw e (
          Listed-remove_destroyed (producer_check_health pass q) h
            (Listed-check_health q answers kept))
    | inr e ↦
        rw e (Listed-remove_destroyed (producer_check_health pass p) h (Listed-check_health p c l))
  ]

  Listed-add_guest :
      (time : ℕ) (c : Created) (p : PoolService)
      → Listed g p.guests
      → Listed g (add_guest time c (called_create p)).guests
  unfolding add_guest called_create
  Listed-add_guest time c p l = Listed-append g p.guests _ l

  Listed-called_create : (p : PoolService) → Listed g p.guests → Listed g (called_create p).guests
  unfolding called_create
  Listed-called_create p l = l

  Listed-create_loop :
      (k i : ℕ) (p : PoolService) → Listed g p.guests → Listed g (create_loop pass k i p).1.guests
  unfolding create_loop
  Listed-create_loop zero i p l = l
  Listed-create_loop (suc k) i p l =
      created_one (pass.qemu_create i (λ ip. is_ip_free ip p)) refl
        (λ q. Listed-create_loop k (suc i) q)
    where
      created_one :
          (r : Result Created)
          → pass.qemu_create i (λ ip. is_ip_free ip p) ≡ r
          → ((q : PoolService)
              → Listed g q.guests
              → Listed g (create_loop pass k (suc i) q).1.guests)
          → Listed g (create_loop pass (suc k) i p).1.guests
      created_one (err e) q next = rw (q, create_loop) (Listed-called_create p l)
      created_one (ok c) q next =
          rw (q, create_loop)
            (next (add_guest (pass.time i) c (called_create p))
              (Listed-add_guest (pass.time i) c p l))

  Listed-mark_available :
      (p : PoolService)
      → IsHandable g
      → Listed g p.guests
      → Listed g (producer_mark_available pass p).guests
  unfolding producer_mark_available
  Listed-mark_available p h l =
      Listed-for_guests (created ∷ [])
        (λ k. boot_if (has_connectivity pass.nmap_boot k.guest_ip p) k) p g (ground arith) l

  Listed-end_pass :
      (r : Result (Unit {0}) × PoolService)
      → IsHandable g
      → Listed g r.1.guests
      → Listed g (end_pass pass r).1.guests
  unfolding end_pass
  Listed-end_pass (err e, q) h l = l
  Listed-end_pass (ok u, q) h l = Listed-mark_available q h l

  -- No pass takes a guest away from its clients, or from those to come: a guest that may be handed
  -- out, and that passes the health check (`has_connectivity`), is listed after the pass as it was, unless it is `used`
  -- and past its time, even if a creation raises.
  pub producer_loop-Listed :
      (p : PoolService)
      → IsHandable g
      → (is_in g.state (used ∷ []) && timed_out pass p.vm_unused_timeout g) ≡ false
      → has_connectivity pass.nmap_health g.guest_ip p ≡ true
      → Listed g p.guests
      → Listed g (producer_loop pass p).1.guests
  unfolding producer_loop producer_create_guests
  producer_loop-Listed p h t c l =
      Listed-end_pass (producer_create_guests pass (producer_clean pass p)) h
        (Listed-create_loop _ 0 (producer_clean pass p) (Listed-clean p h t c l))
