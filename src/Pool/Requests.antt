-- ===== src/Pool/Requests.antt =====
-- What a request for a guest gives (cowrie/src/backend_pool/pool_service.py, request_vm).
use mathlib.Core.Path.{subst}
use honeybee_potstore.Base.{
  keep, List, [], ◌∷◌, ℕ, ◌≡◌, refl, sym, Bool, true, false, Option, none, some, ok, All, get_elem?,
  take, modify_at, if◌then◌else◌, Bool-cases, inl, inr, ◌⊎◌,
}
use honeybee_potstore.Base.Int.{ℤ, ◌≤ℤ◌, ◌<ℤ◌}
use honeybee_potstore.Base.Text.{Text}
use honeybee_potstore.Pool.Guest.{Guest}
use honeybee_potstore.Pool.Service.{PoolService}
use honeybee_potstore.Pool.Consumers.{
  first_where, serves, is_available, is_shared, consumers_get_guest_ip,
  consumers_get_available_guest, fewest, consumers_get_any_guest, choose, claim, no_guest,
  request_vm,
}
use honeybee_potstore.Pool.Choice.{NoneBefore, Found, first_where-Found, Least, fewest-Least}

abbrev pub Nobody : (Guest → Bool) → PoolService → Type 0
Nobody q p = All (λ g. q g ≡ false) p.guests

-- Why a request from an address may take the `i`-th guest.
abbrev pub Reason : Text → PoolService → ℕ → Guest → Type 0
Reason src p i g =
    ((serves src g ≡ true) × NoneBefore (serves src) i p.guests)
    ⊎ (Nobody (serves src) p × (is_available g ≡ true) × NoneBefore is_available i p.guests)
    ⊎ (Nobody (serves src) p
        × Nobody is_available p
        × (p.share_guests ≡ true)
        × (is_shared g ≡ true)
        × All (λ h. g.connected ≤ℤ h.connected) (keep is_shared p.guests)
        × All (λ h. g.connected <ℤ h.connected) (keep is_shared (take i p.guests)))

abbrev pub Choice : Text → PoolService → Option ℕ → Type 0
Choice src p none =
    Nobody (serves src) p × Nobody is_available p × ((p.share_guests ≡ false) ⊎ Nobody is_shared p)
Choice src p (some i) = (g : Guest) × (get_elem? p.guests i ≡ some g) × Reason src p i g

keep-All :
    (q : Guest → Bool) (P : Guest → Type 0) (gs : List Guest)
    → All (λ h. q h ≡ true → P h) gs
    → All P (keep q gs)
keep-All q P [] a = tt
keep-All q P (g ∷ gs) a = elim (Bool-cases (q g)) [
  | inl e ↦ rw e (a.0 e, keep-All q P gs a.1)
  | inr e ↦ rw e (keep-All q P gs a.1)
]

any_guest :
    (src : Text) (p : PoolService) (o : Option (ℕ × ℤ))
    → Nobody (serves src) p
    → Nobody is_available p
    → p.share_guests ≡ true
    → Least p.guests o
    → Choice src p (elim o [ none ↦ none | some (i, k) ↦ some i ])
any_guest src p none s a share l = (s, a, inr l)
any_guest src p (some (i, k)) s a share ((g, at, shared, least), low, more) = (
  g,
  at,
  inr (
      inr (
        s,
        a,
        share,
        shared,
        subst (λ (c : ℤ). All (λ h. c ≤ℤ h.connected) (keep is_shared p.guests)) (sym least)
            (keep-All is_shared (λ h. k ≤ℤ h.connected) p.guests low),
        subst (λ (c : ℤ). All (λ h. c <ℤ h.connected) (keep is_shared (take i p.guests)))
            (sym least) (keep-All is_shared (λ h. k <ℤ h.connected) (take i p.guests) more),
      )),
)

available_or_any :
    (src : Text) (p : PoolService) (o : Option ℕ)
    → Nobody (serves src) p
    → Found is_available p.guests o
    → Choice src p (elim o [
      | some i ↦ some i
      | none ↦ if p.share_guests then consumers_get_any_guest p else none
    ])
unfolding consumers_get_any_guest
available_or_any src p (some i) s (g, at, holds, first) = (g, at, inr (inl (s, holds, first)))
available_or_any src p none s f = elim (Bool-cases p.share_guests) [
  | inl share ↦ simp share (any_guest src p (fewest p.guests) s f share (fewest-Least p.guests))
  | inr alone ↦ simp alone (s, f, inl refl)
]

guest_ip_first :
    (src : Text) (p : PoolService) (o : Option ℕ)
    → Found (serves src) p.guests o
    → Choice src p (elim o [
      | some i ↦ some i
      | none ↦ elim (consumers_get_available_guest p) [
        | some i ↦ some i
        | none ↦ if p.share_guests then consumers_get_any_guest p else none
      ]
    ])
unfolding consumers_get_available_guest
guest_ip_first src p (some i) (g, at, holds, first) = (g, at, inl (holds, first))
guest_ip_first src p none f =
    available_or_any src p (first_where is_available p.guests) f
      (first_where-Found is_available p.guests)

pub choose-Choice : (src : Text) (p : PoolService) → Choice src p (choose src p)
unfolding choose consumers_get_guest_ip
choose-Choice src p =
    guest_ip_first src p (first_where (serves src) p.guests)
      (first_where-Found (serves src) p.guests)

abbrev pub Granted : Text → PoolService → Type 0
Granted src p =
    (i : ℕ) × (g : Guest) × (get_elem? p.guests i ≡ some g)
    × Reason src p i g
    × (request_vm src p ≡ (
      ok (g.id, g.guest_ip, g.snapshot),
      record p { guests = modify_at i (claim src) p.guests },
    ))

abbrev pub Refused : Text → PoolService → Type 0
Refused src p = Choice src p none × (request_vm src p ≡ no_guest p)

request-cases :
    (src : Text) (p : PoolService) (o : Option ℕ)
    → choose src p ≡ o
    → Choice src p o
    → Granted src p ⊎ Refused src p
unfolding request_vm
request-cases src p none e c = inr (c, rw (e, request_vm))
request-cases src p (some i) e (g, at, why) =
    inl (i, g, at, why, rw (e, request_vm) (rw (at, request_vm)))

-- A request is granted or refused. It is granted the first guest that already serves the address,
-- else the first available one, else, if guests are shared, the first of those in use that has the
-- fewest clients; that guest alone is changed, by `claim`. It is refused only where there is none
-- of these.
pub request-Granted_or_Refused : (src : Text) (p : PoolService) → Granted src p ⊎ Refused src p
request-Granted_or_Refused src p = request-cases src p (choose src p) refl (choose-Choice src p)
