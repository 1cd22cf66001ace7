-- ===== src/WebTrap/Recent.antt =====
-- The paths that a session keeps (WebTrap/webtrap/session.py, recent_paths), against all that it asked for.
use honeybee_potstore.Base.{
  ℕ, zero, suc, ◌+◌, ◌-◌, ◌≤◌, ◌<◌, ◌≡◌, refl, sym, ap, ◌∙◌, false, List, [], ◌∷◌, ◌++◌, some,
  arith, length, drop, get_elem?, modify_at, All, length-append, if◌then◌else◌, ◌==◌, inl, inr, ◌⊎◌,
}
use honeybee_potstore.Base.Text.{Text}
use honeybee_potstore.WebTrap.Session.{Session, new_session, push_recent, record_request}
use honeybee_potstore.WebTrap.Counts.{length-drop}

-- The last 20 of a list, or all of a shorter one.
abbrev pub last_20 : List Text → List Text
last_20 ps = drop (length ps - 20) ps

drop-nil : (n : ℕ) → drop {A = Text} n [] ≡ []
drop-nil zero = refl
drop-nil (suc n) = refl

drop-drop : (a b : ℕ) (xs : List Text) → drop b (drop a xs) ≡ drop (a + b) xs
drop-drop zero b xs = ap (λ n. drop n xs) (omega arith)
drop-drop (suc a) b [] = drop-nil b ∙ sym (drop-nil (suc a + b))
drop-drop (suc a) b (x ∷ xs) =
    let more : suc (a + b) ≡ suc a + b = omega arith in
    drop-drop a b xs ∙ ap (λ n. drop n (x ∷ xs)) more

drop-append_le : (n : ℕ) (xs ys : List Text) → n ≤ length xs → drop n (xs ++ ys) ≡ drop n xs ++ ys
drop-append_le zero xs ys h = refl
drop-append_le (suc n) [] ys h = absurd (omega arith)
drop-append_le (suc n) (x ∷ xs) ys h = drop-append_le n xs ys (omega arith)

push-last_20 : (p : Text) (xs : List Text) → push_recent p (last_20 xs) ≡ last_20 (xs ++ p ∷ [])
unfolding push_recent
push-last_20 p xs =
    let n = length xs - 20 in
    let m = length (drop n xs) + 1 - 20 in
    ap (drop m) (sym (drop-append_le n xs (p ∷ []) (omega arith)))
    ∙ drop-drop n m (xs ++ p ∷ [])
    ∙ ap (λ k. drop k (xs ++ p ∷ [])) (omega (arith, length-drop n xs, length-append xs (p ∷ [])))

-- A request: the session that it was counted for, and its path.
abbrev pub Visit : Type 0
Visit = ℕ × Text

-- The paths of a session, in order.
abbrev pub paths_of : ℕ → List Visit → List Text
paths_of i [] = []
paths_of i ((j, path) ∷ log) = if j == i then path ∷ paths_of i log else paths_of i log

paths_of-append_same :
    (i : ℕ) (path : Text) (log : List Visit)
    → paths_of i (log ++ (i, path) ∷ []) ≡ paths_of i log ++ path ∷ []
paths_of-append_same i path [] = ground arith
paths_of-append_same i path ((j, p) ∷ log) = ground (arith, paths_of-append_same i path log)

paths_of-append_other :
    (i j : ℕ) (path : Text) (log : List Visit)
    → (j == i) ≡ false
    → paths_of i (log ++ (j, path) ∷ []) ≡ paths_of i log
paths_of-append_other i j path [] h = ground arith
paths_of-append_other i j path ((k, p) ∷ log) h =
    ground (arith, paths_of-append_other i j path log h)

-- The log names sessions that there are.
abbrev pub Logged : ℕ → List Visit → Type 0
Logged n log = All (λ v. v.0 < n) log

pub Logged-more : (n m : ℕ) (log : List Visit) → n ≤ m → Logged n log → Logged m log
Logged-more n m [] l h = tt
Logged-more n m (v ∷ log) l h = (omega (arith, h.0), Logged-more n m log l h.1)

paths_of-unknown : (n : ℕ) (log : List Visit) → Logged n log → paths_of n log ≡ []
paths_of-unknown n [] h = refl
paths_of-unknown n ((j, p) ∷ log) h =
    let miss : (j == n) ≡ false = ground (arith, h.0) in rw miss (paths_of-unknown n log h.1)

-- Each session keeps the last 20 of its paths.
abbrev pub Recent : List Visit → List Session → Type 0
Recent log ss =
    (i : ℕ) (s : Session) → get_elem? ss i ≡ some s → s.recent_paths ≡ last_20 (paths_of i log)

get-append :
    (ss : List Session) (x s : Session) (i : ℕ)
    → get_elem? (ss ++ x ∷ []) i ≡ some s
    → (get_elem? ss i ≡ some s) ⊎ ((i ≡ length ss) × (x ≡ s))
get-append [] x s zero h = inr (refl, cc)
get-append [] x s (suc i) h = absurd cc
get-append (y ∷ ss) x s zero h = inl h
get-append (y ∷ ss) x s (suc i) h = elim (get-append ss x s i h) [
  | inl e ↦ inl e
  | inr (e, same) ↦ inr (ap suc e, same)
]

pub Recent-enter :
    (id : Text) (now : ℕ) (log : List Visit) (ss : List Session)
    → Logged (length ss) log
    → Recent log ss
    → Recent log (ss ++ new_session id now ∷ [])
unfolding new_session
Recent-enter id now log ss l h i s at = elim (get-append ss (new_session id now) s i at) [
  | inl e ↦ h i s e
  | inr (e, same) ↦
      ap (λ (s : Session). s.recent_paths) (sym same)
      ∙ ap last_20 (sym (ap (λ j. paths_of j log) e ∙ paths_of-unknown (length ss) log l))
]

get-modify_at :
    (ss : List Session) (f : Session → Session) (i j : ℕ) (s : Session)
    → get_elem? (modify_at i f ss) j ≡ some s
    → ((i ≡ j) × (r : Session) × (get_elem? ss j ≡ some r) × (s ≡ f r))
      ⊎ (((i == j) ≡ false) × (get_elem? ss j ≡ some s))
get-modify_at [] f i j s h = absurd cc
get-modify_at (r ∷ ss) f zero zero s h = inl (refl, r, refl, cc)
get-modify_at (r ∷ ss) f zero (suc j) s h = inr (ground arith, h)
get-modify_at (r ∷ ss) f (suc i) zero s h = inr (ground arith, h)
get-modify_at (r ∷ ss) f (suc i) (suc j) s h = elim (get-modify_at ss f i j s h) [
  | inl (e, r, q, z) ↦ inl (ap suc e, r, q, z)
  | inr (e, q) ↦ inr (ground arith, q)
]

record_request-recent :
    (now : ℕ) (path method : Text) (s : Session)
    → (record_request now path method s).recent_paths ≡ push_recent path s.recent_paths
unfolding record_request
record_request-recent now path method s = refl

pub Recent-record :
    (i now : ℕ) (path method : Text) (log : List Visit) (ss : List Session)
    → Recent log ss
    → Recent (log ++ (i, path) ∷ []) (modify_at i (record_request now path method) ss)
Recent-record i now path method log ss h j s at =
    elim (get-modify_at ss (record_request now path method) i j s at) [
      | inl (e, r, old, new) ↦
          ap (λ (s : Session). s.recent_paths) new
          ∙ record_request-recent now path method r
          ∙ ap (push_recent path) (h j r old)
          ∙ push-last_20 path (paths_of j log)
          ∙ ap last_20 (
              sym
                (ap (λ k. paths_of j (log ++ (k, path) ∷ [])) e ∙ paths_of-append_same j path log))
      | inr (e, old) ↦ h j s old ∙ ap last_20 (sym (paths_of-append_other j i path log e))
    ]
