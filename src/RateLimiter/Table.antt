-- ===== src/RateLimiter/Table.antt =====
-- The table of RateLimiter under its updates (cowrie/src/cowrie/core/rate_limiter.py).
use mathlib.Core.Path.{subst}
use honeybee_potstore.Base.{
  ℕ, ◌≡◌, refl, sym, ap, ◌∙◌, false, List, [], ◌∷◌, none, arith, All, if◌then◌else◌, Bool-cases,
  inl, inr,
}
use honeybee_potstore.Base.Text.{Text}
use honeybee_potstore.Base.Dict.{
  lookup, insert, erase, erase_all, text_keys, lookup-insert, Keys, beq_false,
}
use honeybee_potstore.RateLimiter.Tracker.{
  Tracker, got, recent, map_values, is_empty, empty_keys, cleanup_all,
}

pub got-insert :
    (key j : Text) (ts : List ℕ) (d : Tracker)
    → got j (insert key ts d) ≡ (if text_keys.beq key j then ts else got j d)
unfolding got
got-insert key j ts d = elim (Bool-cases (text_keys.beq key j)) [
  | inl e ↦ rw (lookup-insert key j ts d, e)
  | inr e ↦ rw (lookup-insert key j ts d, e)
]

pub got-map_values :
    (f : List ℕ → List ℕ) (j : Text) (d : Tracker)
    → f [] ≡ []
    → got j (map_values f d) ≡ f (got j d)
unfolding got map_values lookup
got-map_values f j [] e = sym e
got-map_values f j ((k, ts) ∷ d) e = ground (arith, got-map_values f j d e)

lookup-map_values :
    (f : List ℕ → List ℕ) (j : Text) (d : Tracker)
    → lookup j d ≡ none
    → lookup j (map_values f d) ≡ none
unfolding map_values lookup
lookup-map_values f j [] e = refl
lookup-map_values f j ((k, ts) ∷ d) e = ground (arith, lookup-map_values f j d)

Keys-map_values : (f : List ℕ → List ℕ) (d : Tracker) → Keys d → Keys (map_values f d)
unfolding map_values
Keys-map_values f [] h = tt
Keys-map_values f ((k, ts) ∷ d) h = (lookup-map_values f k d h.0, Keys-map_values f d h.1)

-- The table without its empty entries.
filled : Tracker → Tracker
filled [] = []
filled ((k, ts) ∷ d) = if is_empty ts then filled d else (k, ts) ∷ filled d

-- Deletions of other keys pass over an entry.
erase_all-cons :
    (ks : List Text) (k : Text) (ts : List ℕ) (d : Tracker)
    → All (λ j. text_keys.beq k j ≡ false) ks
    → erase_all ks ((k, ts) ∷ d) ≡ (k, ts) ∷ erase_all ks d
unfolding erase_all erase
erase_all-cons [] k ts d a = refl
erase_all-cons (j ∷ ks) k ts d a = rw (a.0) (erase_all-cons ks k ts (erase j d) a.1)

absent-keys :
    (k : Text) (d : Tracker)
    → lookup k d ≡ none
    → All (λ j. text_keys.beq k j ≡ false) (empty_keys d)
unfolding empty_keys lookup
absent-keys k [] e = tt
absent-keys k ((j, ts) ∷ d) e = ground (arith, absent-keys k d, beq_false j k)

erase_head : (k : Text) (ts : List ℕ) (d : Tracker) → erase k ((k, ts) ∷ d) ≡ d
unfolding erase
erase_head k ts d = rw (text_keys.beq_refl k)

erase_all-empty : (d : Tracker) → Keys d → erase_all (empty_keys d) d ≡ filled d
unfolding erase_all erase empty_keys filled
erase_all-empty [] h = refl
erase_all-empty ((k, ts) ∷ d) h = elim (Bool-cases (is_empty ts)) [
  | inl e ↦ rw e (ap (erase_all (empty_keys d)) (erase_head k ts d) ∙ erase_all-empty d h.1)
  | inr e ↦ rw e (
      erase_all-cons (empty_keys d) k ts d (absent-keys k d h.0)
      ∙ ap (◌∷◌ (k, ts)) (erase_all-empty d h.1))
]

lookup-filled-none : (j : Text) (d : Tracker) → lookup j d ≡ none → lookup j (filled d) ≡ none
unfolding lookup filled
lookup-filled-none j [] e = refl
lookup-filled-none j ((k, ts) ∷ d) e = ground (arith, lookup-filled-none j d)

Keys-filled : (d : Tracker) → Keys d → Keys (filled d)
unfolding filled
Keys-filled [] h = tt
Keys-filled ((k, ts) ∷ d) h = ground (arith, Keys-filled d h.1, lookup-filled-none k d h.0)

got-filled : (j : Text) (d : Tracker) → Keys d → got j (filled d) ≡ got j d
unfolding got lookup filled
got-filled j [] h = refl
got-filled j ((k, []) ∷ d) h = elim (Bool-cases (text_keys.beq k j)) [
  | inl hit ↦
      let missing : lookup j d ≡ none =
        subst (λ (x : Text). lookup x d ≡ none) (text_keys.beq→eq k j hit) h.0 in
      rw (hit, lookup-filled-none j d missing)
  | inr miss ↦ rw miss (got-filled j d h.1)
]
got-filled j ((k, t ∷ ts) ∷ d) h = elim (Bool-cases (text_keys.beq k j)) [
  | inl hit ↦ rw hit
  | inr miss ↦ rw miss (got-filled j d h.1)
]

cleaned-filled :
    (window now : ℕ) (d : Tracker)
    → Keys d
    → cleanup_all window now d ≡ filled (map_values (recent window now) d)
unfolding cleanup_all
cleaned-filled window now d h =
    erase_all-empty (map_values (recent window now) d) (Keys-map_values (recent window now) d h)

pub got-cleanup_all :
    (window now : ℕ) (j : Text) (d : Tracker)
    → Keys d
    → got j (cleanup_all window now d) ≡ recent window now (got j d)
got-cleanup_all window now j d h =
    ap (got j) (cleaned-filled window now d h)
    ∙ got-filled j (map_values (recent window now) d) (Keys-map_values (recent window now) d h)
    ∙ got-map_values (recent window now) j d refl

pub Keys-cleanup_all : (window now : ℕ) (d : Tracker) → Keys d → Keys (cleanup_all window now d)
Keys-cleanup_all window now d h =
    rw (cleaned-filled window now d h)
      (Keys-filled (map_values (recent window now) d) (Keys-map_values (recent window now) d h))
