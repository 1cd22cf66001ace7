-- ===== src/Pool/Refusals.antt =====
-- A request that finds no guest (cowrie/src/backend_pool/pool_service.py, request_vm and stop_pool),
-- and the ids that the producer gives out.
use honeybee_potstore.Base.{
  ℕ, ◌≡◌, refl, ◌∙◌, true, List, [], ◌∷◌, ◌++◌, none, ok, err, no_available_vms, already_cancelled,
}
use honeybee_potstore.Base.Text.{Text}
use honeybee_potstore.Base.Dict.{==_refl}
use honeybee_potstore.Pool.Guest.{Guest}
use honeybee_potstore.Pool.Service.{PoolService, scheduled, cancelled, stopped}
use honeybee_potstore.Pool.Producer.{Created, new_guest, add_guest}
use honeybee_potstore.Pool.Consumers.{
  choose, no_guest, request_vm, free_vm, with_guest, freed, consumers_get_guest_ip,
  consumers_get_available_guest, consumers_get_any_guest,
}

request_none : (src : Text) (p : PoolService) → choose src p ≡ none → request_vm src p ≡ no_guest p
unfolding request_vm
request_none src p e = rw (e, request_vm)

-- The pool once it was stopped by a refused request.
halted : PoolService → PoolService
halted p = (stopped (ok cancelled) p).1

no_guest-scheduled :
    (p : PoolService)
    → p.any_vm_up ≡ true
    → p.loop_next_call ≡ scheduled
    → no_guest p ≡ (err no_available_vms, halted p)
unfolding no_guest halted
no_guest-scheduled p up call = simp (up, call)

no_guest-halted :
    (p : PoolService) → p.any_vm_up ≡ true → no_guest (halted p) ≡ (err already_cancelled, halted p)
unfolding no_guest halted
no_guest-halted p up = simp up

choose-halted : (src : Text) (p : PoolService) → choose src (halted p) ≡ choose src p
unfolding halted stopped choose consumers_get_guest_ip consumers_get_available_guest
    consumers_get_any_guest
choose-halted src p = refl

-- A pool in which a guest was up before answers the first request that finds none by stopping: the
-- pending pass is cancelled, no other is started, and the guests stay listed. The next such request
-- is answered by an exception of the reactor in place of NoAvailableVMs.
pub refused_twice :
    (a b : Text) (p : PoolService)
    → p.any_vm_up ≡ true
    → p.loop_next_call ≡ scheduled
    → choose a p ≡ none
    → choose b p ≡ none
    → let (r, q) = request_vm a p in
      (r ≡ err no_available_vms)
      × (q.loop_next_call ≡ cancelled)
      × (q.loops_started ≡ p.loops_started)
      × (q.guests ≡ p.guests)
      × (request_vm b q ≡ (err already_cancelled, q))
unfolding halted stopped
refused_twice a b p up call ea eb =
    let once = request_none a p ea ∙ no_guest-scheduled p up call in
    let again = request_none b (halted p) (choose-halted b p ∙ eb) ∙ no_guest-halted p up in
    rw once (refl, refl, refl, refl, again)

-- When the counter comes back to the id of a guest that still lives, the next guest is created
-- with that id too, and a release for it reaches the older guest alone.
pub same_id_twice :
    (time now : ℕ) (c : Created) (g : Guest) (gs : List Guest) (p : PoolService)
    → p.guests ≡ g ∷ gs
    → p.guest_id ≡ g.id
    → let q = add_guest time c p in
      (q.guests ≡ (g ∷ gs) ++ new_guest g.id time c ∷ [])
      × ((free_vm now g.id q).guests ≡ freed now g ∷ gs ++ new_guest g.id time c ∷ [])
unfolding add_guest free_vm with_guest
same_id_twice time now c g gs p list id = (rw (list, id), rw (list, id) (rw (==_refl g.id)))
