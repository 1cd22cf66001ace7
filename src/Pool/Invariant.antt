-- ===== src/Pool/Invariant.antt =====
-- The invariant of PoolService (cowrie/src/backend_pool/pool_service.py), kept by every method.
use honeybee_potstore.Base.{
  ℕ, zero, suc, ◌-◌, ◌<◌, ◌≡◌, refl, ◌∙◌, Bool, true, false, List, [], ◌∷◌, Result, ok, err, not,
  arith, All, All-map, All-keep, All-append, if◌then◌else◌, Bool-cases, inl, inr, ltb,
}
use honeybee_potstore.Base.Text.{Text}
use honeybee_potstore.Pool.Guest.{
  Guest, GuestState, is_in, created, available, using, used, unavailable,
}
use honeybee_potstore.Pool.Service.{PoolService, is_ip_free, existing_pool_size, has_connectivity}
use honeybee_potstore.Pool.Producer.{
  Pass, Created, for_guests, retire_if, timed_out, destroy_one, boot_if, new_guest, next_id,
  add_guest, called_create, create_loop, producer_mark_timed_out, producer_check_health,
  producer_destroy_timed_out, producer_remove_destroyed, producer_mark_available,
  producer_create_guests, producer_clean,
}
use honeybee_potstore.Pool.Addresses.{
  Addresses, KeepsIp, Addresses-map, Addresses-keep, Addresses-append,
}
use honeybee_potstore.Pool.Soundness
use honeybee_potstore.Pool.Soundness.{IsSound}
use honeybee_potstore.Pool.Removal.{alive, remove_destroyed-keep}

-- Every guest is sound, the addresses are distinct, and the counter of ids stays below 252.
pub record Inv (p : PoolService) : Type 0 where
  pub sound : All IsSound p.guests
  pub apart : Addresses p.guests
  pub counts : p.guest_id < 252

guarded-IsSound :
    (states : List GuestState) (f : Guest → Guest)
    → ((g : Guest) → is_in g.state states ≡ true → IsSound g → IsSound (f g))
    → (g : Guest) → IsSound g
    → IsSound (if is_in g.state states then f g else g)
guarded-IsSound states f keeps g v = elim (Bool-cases (is_in g.state states)) [
  | inl e ↦ rw e (keeps g e v)
  | inr e ↦ rw e v
]

guarded-KeepsIp :
    (states : List GuestState) (f : Guest → Guest)
    → KeepsIp f
    → KeepsIp (λ g. if is_in g.state states then f g else g)
guarded-KeepsIp states f k g = elim (Bool-cases (is_in g.state states)) [
  | inl e ↦ rw e (k g)
  | inr e ↦ rw e
]

-- A loop over guests keeps the invariant if its body keeps a guest sound and its address.
for_guests-Inv :
    (states : List GuestState) (f : Guest → Guest) (p : PoolService)
    → KeepsIp f
    → ((g : Guest) → is_in g.state states ≡ true → IsSound g → IsSound (f g))
    → Inv p
    → Inv (for_guests states f p)
unfolding for_guests
for_guests-Inv states f p k keeps v = record {
  sound = All-map IsSound _ p.guests (guarded-IsSound states f keeps) v.sound;
  apart = Addresses-map _ p.guests (guarded-KeepsIp states f k) v.apart;
  counts = v.counts;
}

retire-KeepsIp : (b : Guest → Bool) → KeepsIp (λ g. retire_if (b g) g)
unfolding retire_if
retire-KeepsIp b g = ground arith

destroy-KeepsIp : (pass : Pass) → KeepsIp (destroy_one pass)
unfolding destroy_one
destroy-KeepsIp pass g = ground arith

boot-KeepsIp : (b : Guest → Bool) → KeepsIp (λ g. boot_if (b g) g)
unfolding boot_if
boot-KeepsIp b g = ground arith

pub mark_timed_out-Inv :
    (pass : Pass) (timeout : ℕ) (p : PoolService)
    → Inv p
    → Inv (producer_mark_timed_out pass timeout p)
unfolding producer_mark_timed_out
mark_timed_out-Inv pass timeout p =
    for_guests-Inv (used ∷ []) _ p (retire-KeepsIp (timed_out pass timeout))
      (λ g _. Soundness.retire-IsSound (timed_out pass timeout g) g)

pub check_health-Inv : (pass : Pass) (p : PoolService) → Inv p → Inv (producer_check_health pass p)
unfolding producer_check_health
check_health-Inv pass p =
    for_guests-Inv (available ∷ using ∷ used ∷ []) _ p
      (retire-KeepsIp (λ g. not (has_connectivity pass.nmap_health g.guest_ip p)))
      (λ g _. Soundness.retire-IsSound (not (has_connectivity pass.nmap_health g.guest_ip p)) g)

pub destroy_timed_out-Inv :
    (pass : Pass) (p : PoolService) → Inv p → Inv (producer_destroy_timed_out pass p)
unfolding producer_destroy_timed_out
destroy_timed_out-Inv pass p v =
    let w =
      for_guests-Inv (unavailable ∷ []) (destroy_one pass) p (destroy-KeepsIp pass)
        (λ g _. Soundness.destroy_one-IsSound pass g) v in
    record { sound = w.sound; apart = w.apart; counts = w.counts }

pub mark_available-Inv :
    (pass : Pass) (p : PoolService) → Inv p → Inv (producer_mark_available pass p)
unfolding producer_mark_available
mark_available-Inv pass p v =
    let up = λ (g : Guest). has_connectivity pass.nmap_boot g.guest_ip p in
    let w =
      for_guests-Inv (created ∷ []) (λ g. boot_if (up g) g) p (boot-KeepsIp up)
        (λ g e. Soundness.boot-IsSound (up g) g (ground arith)) v in
    record { sound = w.sound; apart = w.apart; counts = w.counts }

guest_id-remove_destroyed : (p : PoolService) → (producer_remove_destroyed p).guest_id ≡ p.guest_id
unfolding producer_remove_destroyed
guest_id-remove_destroyed p = refl

pub remove_destroyed-Inv : (p : PoolService) → Inv p → Inv (producer_remove_destroyed p)
remove_destroyed-Inv p v = record {
  sound = rw (remove_destroyed-keep p) (All-keep IsSound alive p.guests v.sound);
  apart = rw (remove_destroyed-keep p) (Addresses-keep alive p.guests v.apart);
  counts = rw (guest_id-remove_destroyed p) v.counts;
}

pub clean-Inv : (pass : Pass) (p : PoolService) → Inv p → Inv (producer_clean pass p)
unfolding producer_clean
clean-Inv pass p v =
    remove_destroyed-Inv _ (check_health-Inv pass _ (retired (ltb 1 (existing_pool_size p))))
  where
    retired :
        (b : Bool)
        → Inv (
            if b
            then producer_destroy_timed_out pass
                (producer_mark_timed_out pass p.vm_unused_timeout p)
            else p)
    retired true = destroy_timed_out-Inv pass _ (mark_timed_out-Inv pass p.vm_unused_timeout p v)
    retired false = v

-- What the backend promises of a guest that it creates: the address passes the test it was handed.
abbrev pub Honest : Pass → Type 0
Honest pass =
    (i : ℕ) (free : Text → Bool) (c : Created)
    → pass.qemu_create i free ≡ ok c
    → free c.guest_ip ≡ true

next_id-lt : (n : ℕ) → n < 252 → next_id n < 252
unfolding next_id
next_id-lt n h = ground arith

add_guest-Inv :
    (time : ℕ) (c : Created) (p : PoolService)
    → is_ip_free c.guest_ip p ≡ true
    → Inv p
    → Inv (add_guest time c p)
unfolding add_guest is_ip_free
add_guest-Inv time c p e v = record {
  sound = All-append IsSound p.guests _ v.sound (Soundness.new_guest-IsSound p.guest_id time c, tt);
  apart = Addresses-append p.guests (new_guest p.guest_id time c) e v.apart;
  counts = next_id-lt p.guest_id v.counts;
}

pub called_create-Inv : (p : PoolService) → Inv p → Inv (called_create p)
unfolding called_create
called_create-Inv p v = record { sound = v.sound; apart = v.apart; counts = v.counts }

is_ip_free-called_create :
    (ip : Text) (p : PoolService) → is_ip_free ip (called_create p) ≡ is_ip_free ip p
unfolding called_create is_ip_free
is_ip_free-called_create ip p = refl

-- One round of the creation.
pub create_one-Inv :
    (time : ℕ) (c : Created) (p : PoolService)
    → is_ip_free c.guest_ip p ≡ true
    → Inv p
    → Inv (add_guest time c (called_create p))
create_one-Inv time c p free v =
    add_guest-Inv time c (called_create p) (is_ip_free-called_create c.guest_ip p ∙ free)
      (called_create-Inv p v)

create_loop-Inv :
    (pass : Pass) (k i : ℕ) (p : PoolService) → Honest pass → Inv p → Inv (create_loop pass k i p).1
unfolding create_loop
create_loop-Inv pass zero i p h v = v
create_loop-Inv pass (suc k) i p h v =
    after (pass.qemu_create i (λ ip. is_ip_free ip p)) refl
      (λ q w. create_loop-Inv pass k (suc i) q h w)
  where
    after :
        (r : Result Created)
        → pass.qemu_create i (λ ip. is_ip_free ip p) ≡ r
        → ((q : PoolService) → Inv q → Inv (create_loop pass k (suc i) q).1)
        → Inv (create_loop pass (suc k) i p).1
    after (err e) q next = rw (q, create_loop) (called_create-Inv p v)
    after (ok c) q next =
        let free = h i (λ ip. is_ip_free ip p) c q in
        rw (q, create_loop) (next _ (create_one-Inv (pass.time i) c p free v))

pub create_guests-Inv :
    (pass : Pass) (p : PoolService) → Honest pass → Inv p → Inv (producer_create_guests pass p).1
unfolding producer_create_guests
create_guests-Inv pass p h v = create_loop-Inv pass (p.max_vm - existing_pool_size p) 0 p h v
