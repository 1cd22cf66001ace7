-- ===== src/Pool/Choice.antt =====
-- Which guest a request takes (cowrie/src/backend_pool/pool_service.py, the three
-- __consumers_get_* methods and their order in request_vm).
use mathlib.Core.Path.{subst}
use honeybee_potstore.Base.{
  ℕ, suc, ◌≡◌, refl, Bool, true, false, List, [], ◌∷◌, Option, none, some, arith, All, get_elem?,
  take, Bool-cases, inl, inr, sym,
}
use honeybee_potstore.Base.Int.{ℤ, ◌≤ℤ◌, ◌<ℤ◌, ltb_ℤ}
use honeybee_potstore.Pool.Guest.{Guest}
use honeybee_potstore.Pool.Consumers.{first_where, is_shared, lesser, shifted, fewest}

-- No guest before the `i`-th has the property.
abbrev pub NoneBefore : (Guest → Bool) → ℕ → List Guest → Type 0
NoneBefore q i gs = All (λ g. q g ≡ false) (take i gs)

-- What a search for the first guest with a property finds.
abbrev pub Found : (Guest → Bool) → List Guest → Option ℕ → Type 0
Found q gs none = All (λ g. q g ≡ false) gs
Found q gs (some i) = (g : Guest) × (get_elem? gs i ≡ some g) × (q g ≡ true) × NoneBefore q i gs

Found-cons :
    (q : Guest → Bool) (g : Guest) (gs : List Guest) (o : Option ℕ)
    → q g ≡ false
    → Found q gs o
    → Found q (g ∷ gs) (elim o [ none ↦ none | some i ↦ some (suc i) ])
Found-cons q g gs none e f = (e, f)
Found-cons q g gs (some i) e (h, at, holds, first) = (h, at, holds, (e, first))

pub first_where-Found : (q : Guest → Bool) (gs : List Guest) → Found q gs (first_where q gs)
unfolding first_where
first_where-Found q [] = tt
first_where-Found q (g ∷ gs) = elim (Bool-cases (q g)) [
  | inl e ↦ rw e (g, refl, e, tt)
  | inr e ↦ rw e (Found-cons q g gs (first_where q gs) e (first_where-Found q gs))
]

-- Every guest in use before the `i`-th has more clients than `k`.
abbrev pub MoreBefore : ℤ → ℕ → List Guest → Type 0
MoreBefore k i gs = All (λ h. is_shared h ≡ true → k <ℤ h.connected) (take i gs)

-- The least number of clients over the guests in use, and where it is first met.
abbrev pub Least : List Guest → Option (ℕ × ℤ) → Type 0
Least gs none = All (λ g. is_shared g ≡ false) gs
Least gs (some (i, k)) =
    ((g : Guest) × (get_elem? gs i ≡ some g) × (is_shared g ≡ true) × (g.connected ≡ k))
    × All (λ h. is_shared h ≡ true → k ≤ℤ h.connected) gs
    × MoreBefore k i gs

All-weaken :
    (P Q : Guest → Type 0) (gs : List Guest) → ((g : Guest) → P g → Q g) → All P gs → All Q gs
All-weaken P Q [] h a = tt
All-weaken P Q (g ∷ gs) h a = (h g a.0, All-weaken P Q gs h a.1)

le_refl_ℤ : (k : ℤ) → k ≤ℤ k
le_refl_ℤ k = omega arith

lesser_less :
    (g : Guest) (i : ℕ) (k : ℤ) → ltb_ℤ k g.connected ≡ true → lesser g (some (i, k)) ≡ (suc i, k)
unfolding lesser
lesser_less g i k e = rw e

lesser_more :
    (g : Guest) (i : ℕ) (k : ℤ)
    → ltb_ℤ k g.connected ≡ false
    → lesser g (some (i, k)) ≡ (0, g.connected)
unfolding lesser
lesser_more g i k e = rw e

Least-lesser :
    (g : Guest) (gs : List Guest) (o : Option (ℕ × ℤ))
    → is_shared g ≡ true
    → Least gs o
    → Least (g ∷ gs) (some (lesser g o))
unfolding lesser
Least-lesser g gs none e l = (
  (g, refl, e, refl),
  (
    (λ _. le_refl_ℤ g.connected),
    All-weaken (λ h. is_shared h ≡ false) (λ h. is_shared h ≡ true → g.connected ≤ℤ h.connected) gs
        (λ h no_share share. absurd (ground arith)) l,
  ),
  tt,
)
Least-lesser g gs (some (i, k)) e l = elim (Bool-cases (ltb_ℤ k g.connected)) [
  | inl less ↦
      subst (λ r. Least (g ∷ gs) (some r)) (sym (lesser_less g i k less))
        (l.0, ((λ _. ground arith), l.1), ((λ _. ground arith), l.2))
  | inr more ↦
      subst (λ r. Least (g ∷ gs) (some r)) (sym (lesser_more g i k more))
        (
          (g, refl, e, refl),
          (
            (λ _. le_refl_ℤ g.connected),
            All-weaken (λ h. is_shared h ≡ true → k ≤ℤ h.connected)
                (λ h. is_shared h ≡ true → g.connected ≤ℤ h.connected) gs
                (λ h low share. let b = low share in ground arith) l.1,
          ),
          tt,
        )
]

Least-shifted :
    (g : Guest) (gs : List Guest) (o : Option (ℕ × ℤ))
    → is_shared g ≡ false
    → Least gs o
    → Least (g ∷ gs) (shifted o)
Least-shifted g gs none e l = (e, l)
Least-shifted g gs (some (i, k)) e l =
    (l.0, ((λ share. absurd (ground arith)), l.1), ((λ share. absurd (ground arith)), l.2))

pub fewest-Least : (gs : List Guest) → Least gs (fewest gs)
unfolding fewest
fewest-Least [] = tt
fewest-Least (g ∷ gs) = elim (Bool-cases (is_shared g)) [
  | inl e ↦ rw e (Least-lesser g gs (fewest gs) e (fewest-Least gs))
  | inr e ↦ rw e (Least-shifted g gs (fewest gs) e (fewest-Least gs))
]
