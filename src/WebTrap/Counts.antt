-- ===== src/WebTrap/Counts.antt =====
-- The counters of the sessions (WebTrap/webtrap/session.py) over any sequence of requests.
use honeybee_potstore.Base.{
  ℕ, zero, suc, ◌+◌, ◌-◌, ◌≤◌, ◌<◌, ◌≡◌, List, [], ◌∷◌, ◌++◌, some, arith, length, drop, modify_at,
  length-append, min, Bool-cases, inl, inr,
}
use honeybee_potstore.Base.Text.{Text, text_eq}
use honeybee_potstore.Base.Dict.{Dict, lookup, insert, erase, erase_all, text_keys}
use honeybee_potstore.WebTrap.Session.{Session, or_zero, count_up, push_recent, record_request}

abbrev pub total : Dict Text ℕ → ℕ
total [] = 0
total ((k, n) ∷ d) = n + total d

total-insert :
    (k : Text) (v : ℕ) (d : Dict Text ℕ) → total (insert k v d) + or_zero (lookup k d) ≡ total d + v
unfolding insert lookup
total-insert k v [] = omega arith
total-insert k v ((j, n) ∷ d) = ground (arith, total-insert k v d)

total-count_up : (k : Text) (d : Dict Text ℕ) → total (count_up k d) ≡ suc (total d)
unfolding count_up
total-count_up k d = omega (arith, total-insert k (suc (or_zero (lookup k d))) d)

pub length-drop : {A : Type 0} (n : ℕ) (xs : List A) → length (drop n xs) ≡ length xs - n
length-drop zero xs = omega arith
length-drop (suc n) [] = omega arith
length-drop (suc n) (x ∷ xs) = omega (arith, length-drop n xs)

length-push_recent :
    (p : Text) (ps : List Text) → length (push_recent p ps) ≡ min 20 (length ps + 1)
unfolding push_recent
length-push_recent p ps =
    omega (arith, length-drop (length ps + 1 - 20) (ps ++ p ∷ []), length-append ps (p ∷ []))

-- The counters of a session agree, and it was last seen between its first request and `t`.
abbrev pub Counted : ℕ → Session → Type 0
Counted t s =
    (total s.paths ≡ s.request_count)
    × (total s.methods ≡ s.request_count)
    × (length s.recent_paths ≡ min 20 s.request_count)
    × (s.first_seen ≤ s.last_seen)
    × (s.last_seen ≤ t)

pub record_request-Counted :
    (t now : ℕ) (path method : Text) (s : Session)
    → Counted t s
    → t ≤ now
    → Counted now (record_request now path method s)
unfolding record_request
record_request-Counted t now path method s (a, b, c, d, e) l = (
  omega (arith, total-count_up path s.paths),
  omega (arith, total-count_up method s.methods),
  omega (arith, length-push_recent path s.recent_paths),
  omega arith,
  omega arith,
)

abbrev pub requests : List Session → ℕ
requests [] = 0
requests (s ∷ ss) = s.request_count + requests ss

pub requests-append : (ss ts : List Session) → requests (ss ++ ts) ≡ requests ss + requests ts
requests-append [] ts = omega arith
requests-append (s ∷ ss) ts = omega (arith, requests-append ss ts)

pub requests-record :
    (i now : ℕ) (path method : Text) (ss : List Session)
    → i < length ss
    → requests (modify_at i (record_request now path method) ss) ≡ suc (requests ss)
unfolding record_request
requests-record i now path method [] l = absurd (omega arith)
requests-record zero now path method (s ∷ ss) l = omega arith
requests-record (suc i) now path method (s ∷ ss) l =
    omega (arith, requests-record i now path method ss (omega arith))

-- The entries of a table are positions of sessions.
abbrev pub Refs : ℕ → Dict Text ℕ → Type 0
Refs n [] = Unit
Refs n ((k, i) ∷ d) = (i < n) × Refs n d

Refs-erase : (n : ℕ) (k : Text) (d : Dict Text ℕ) → Refs n d → Refs n (erase k d)
unfolding erase
Refs-erase n k [] h = tt
Refs-erase n k ((j, i) ∷ d) h = elim (Bool-cases (text_eq j k)) [
  | inl q ↦ rw q h.1
  | inr q ↦ rw q (h.0, Refs-erase n k d h.1)
]

pub Refs-erase_all : (n : ℕ) (ks : List Text) (d : Dict Text ℕ) → Refs n d → Refs n (erase_all ks d)
unfolding erase_all
Refs-erase_all n [] d h = h
Refs-erase_all n (k ∷ ks) d h = Refs-erase_all n ks (erase k d) (Refs-erase n k d h)

pub Refs-insert : (n i : ℕ) (k : Text) (d : Dict Text ℕ) → i < n → Refs n d → Refs n (insert k i d)
unfolding insert
Refs-insert n i k [] l h = (l, tt)
Refs-insert n i k ((j, m) ∷ d) l h = elim (Bool-cases (text_eq j k)) [
  | inl q ↦ rw q (l, h.1)
  | inr q ↦ rw q (h.0, Refs-insert n i k d l h.1)
]

pub Refs-more : (n m : ℕ) (d : Dict Text ℕ) → n ≤ m → Refs n d → Refs m d
Refs-more n m [] l h = tt
Refs-more n m ((k, i) ∷ d) l h = (omega arith, Refs-more n m d l h.1)

pub Refs-lookup : (n i : ℕ) (k : Text) (d : Dict Text ℕ) → Refs n d → lookup k d ≡ some i → i < n
unfolding lookup
Refs-lookup n i k [] h q = cc
Refs-lookup n i k ((j, m) ∷ d) h q = ground (arith, h.0, Refs-lookup n i k d h.1)
