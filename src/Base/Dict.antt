-- ===== src/Base/Dict.antt =====
-- A Python dict keyed by numbers or texts, in insertion order, over a Boolean test of equality.
use Prim.Native.Nat.{ℕ}
use mathlib.Core.Path.{◌≡◌, refl}
use mathlib.Core.Bool.{Bool, true, false}
use mathlib.Core.List.{List, [], ◌∷◌}
use mathlib.Core.Option.{Option, none, some}
use native.Mathlib.Omega.{arith}
use honeybee_potstore.Base.Tests.{◌==◌, if◌then◌else◌}
use honeybee_potstore.Base.Text.{Text, text_eq, text_eq_refl, text_eq→eq}

-- Equality of keys.
pub record Eq (K : Type 0) : Type 0 where
  pub beq : K → K → Bool
  pub beq_refl : (a : K) → beq a a ≡ true
  pub beq→eq : (a b : K) → beq a b ≡ true → a ≡ b

pub ==_refl : (a : ℕ) → (a == a) ≡ true
==_refl a = ground arith

pub ==→eq : (a b : ℕ) → (a == b) ≡ true → a ≡ b
==→eq a b h = ground arith

instance abbrev pub nat_eq : Eq ℕ
nat_eq = record { beq = ◌==◌; beq_refl = ==_refl; beq→eq = ==→eq }

instance abbrev pub text_keys : Eq Text
text_keys = record { beq = text_eq; beq_refl = text_eq_refl; beq→eq = text_eq→eq }

abbrev pub Dict : Type 0 → Type 0 → Type 0
Dict K V = List (K × V)

module _ {K V : Type 0} ⦃e : Eq K⦄ where
  -- `d.get(k)`
  unfoldable pub lookup : K → Dict K V → Option V
  lookup k [] = none
  lookup k ((j, v) ∷ d) = if e.beq j k then some v else lookup k d

  -- `d[k] = v`
  unfoldable pub insert : K → V → Dict K V → Dict K V
  insert k v [] = (k, v) ∷ []
  insert k v ((j, w) ∷ d) = if e.beq j k then (j, v) ∷ d else (j, w) ∷ insert k v d

  -- `del d[k]`
  unfoldable pub erase : K → Dict K V → Dict K V
  erase k [] = []
  erase k ((j, w) ∷ d) = if e.beq j k then d else (j, w) ∷ erase k d

  pub lookup-insert :
      (k j : K) (v : V) (d : Dict K V)
      → lookup j (insert k v d) ≡ (if e.beq k j then some v else lookup j d)
  unfolding lookup insert
  lookup-insert k j v [] = refl
  lookup-insert k j v ((i, w) ∷ d) =
      ground (arith, e.beq→eq i k, e.beq→eq i j, e.beq→eq k j, e.beq_refl i, lookup-insert k j v d)

module _ {K : Type 0} ⦃e : Eq K⦄ where
  pub beq_false : (a b : K) → e.beq a b ≡ false → e.beq b a ≡ false
  beq_false a b h = ground (arith, e.beq→eq b a, e.beq_refl a)

module _ {K V : Type 0} ⦃e : Eq K⦄ where
  -- No key is listed twice.
  abbrev pub Keys : Dict K V → Type 0
  Keys [] = Unit
  Keys ((k, v) ∷ d) = (lookup k d ≡ none) × Keys d

  pub Keys-insert : (k : K) (v : V) (d : Dict K V) → Keys d → Keys (insert k v d)
  unfolding lookup insert
  Keys-insert k v [] h = (refl, tt)
  Keys-insert k v ((j, w) ∷ d) h =
      ground (arith, Keys-insert k v d h.1, lookup-insert k j v d, beq_false j k)

module _ {K V : Type 0} ⦃e : Eq K⦄ where
  -- `del d[k]` for each key of a list.
  unfoldable pub erase_all : List K → Dict K V → Dict K V
  unfolding erase
  erase_all [] d = d
  erase_all (k ∷ ks) d = erase_all ks (erase k d)
