-- ===== src/Pool/Removal.antt =====
-- The removal of destroyed guests (cowrie/src/backend_pool/pool_service.py,
-- __producer_remove_destroyed): `list.remove` finds a guest by the values of its fields.
use mathlib.Core.List.{erase, erase-cons-head, erase-cons-tail}
use honeybee_potstore.Base.{
  ◌≡◌, ◌≢◌, refl, ap, ◌∙◌, Bool, true, false, not, List, [], ◌∷◌, arith, All, keep, inl, inr,
  Bool-cases,
}
use honeybee_potstore.Pool.Guest.{Guest, state_eq, is_in, destroyed}
use honeybee_potstore.Pool.Service.{PoolService}
use honeybee_potstore.Pool.Producer.{Guest-discrete, remove_all, producer_remove_destroyed}

abbrev gone : Guest → Bool
gone g = is_in g.state (destroyed ∷ [])

abbrev pub alive : Guest → Bool
alive g = not (state_eq g.state destroyed)

-- Removals of destroyed guests pass over a guest that is not.
remove_all-alive :
    (ds : List Guest) (g : Guest) (gs : List Guest)
    → All (λ d. gone d ≡ true) ds
    → gone g ≡ false
    → remove_all ds (g ∷ gs) ≡ g ∷ remove_all ds gs
unfolding remove_all
remove_all-alive [] g gs a h = refl
remove_all-alive (d ∷ ds) g gs a h =
    ap (remove_all ds) (erase-cons-tail Guest-discrete gs differ)
    ∙ remove_all-alive ds g (erase Guest-discrete gs d) a.1 h
  where
    differ : g ≢ d
    differ e = let q = ap gone e in ground (arith, q, a.0)

gone-All : (gs : List Guest) → All (λ d. gone d ≡ true) (keep gone gs)
gone-All [] = tt
gone-All (g ∷ gs) = ground (arith, gone-All gs)

remove_all-keep : (gs : List Guest) → remove_all (keep gone gs) gs ≡ keep alive gs
unfolding remove_all
remove_all-keep [] = refl
remove_all-keep (g ∷ gs) = elim (Bool-cases (gone g)) [
  | inl e ↦
      let dead : alive g ≡ false = ground arith in
      rw (e, dead)
        (ap (remove_all (keep gone gs)) (erase-cons-head Guest-discrete g gs) ∙ remove_all-keep gs)
  | inr e ↦
      let live : alive g ≡ true = ground arith in
      rw (e, live)
        (remove_all-alive (keep gone gs) g gs (gone-All gs) e ∙ ap (◌∷◌ g) (remove_all-keep gs))
]

-- The loop of removals by value takes away the destroyed guests, all of them and no other, and
-- keeps the order.
pub remove_destroyed-keep :
    (p : PoolService) → (producer_remove_destroyed p).guests ≡ keep alive p.guests
unfolding producer_remove_destroyed
remove_destroyed-keep p = remove_all-keep p.guests
