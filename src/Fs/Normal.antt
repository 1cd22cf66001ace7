-- ===== src/Fs/Normal.antt =====
-- `resolve_path` (cowrie/src/cowrie/shell/fs.py) gives normal paths, and leaves normal paths as they are.
use mathlib.Core.Path.{subst}
use mathlib.Core.List.{append-nil, append_assoc}
use honeybee_potstore.Base.{
  ℕ, ◌≡◌, refl, ap, sym, ◌∙◌, false, List, [], ◌∷◌, ◌++◌, ◌||◌, not, Result, ok, err, ok-injective,
  arith, All, All-append, keep, Bool-cases, inl, inr, ◌==◌,
}
use honeybee_potstore.Base.Text.{Text, text_eq}
use honeybee_potstore.Auth.Strings.{split, has, onto_first, split-append}
use honeybee_potstore.Fs.Paths.{
  rstrip_slashes, unless_slash, join, dot, dots, pop, follow_pieces, expand, start_pieces,
  from_start, onto_root, resolve_path,
}

-- A piece that names an entry.
abbrev pub Piece : Text → Type 0
Piece p =
    (has 47 p ≡ false) × (text_eq p dots ≡ false) × (text_eq p dot ≡ false) × (text_eq p [] ≡ false)

-- A path from the root without `.`, `..` and empty pieces.
abbrev pub Normal : Text → Type 0
Normal path = (ps : List Text) × (path ≡ 47 ∷ join ps) × All Piece ps

onto_first-free :
    (c : ℕ) (ws : List Text)
    → (c == 47) ≡ false
    → All (λ p. has 47 p ≡ false) ws
    → All (λ p. has 47 p ≡ false) (onto_first c ws)
unfolding has
onto_first-free c [] e a = (rw e refl, tt)
onto_first-free c (w ∷ ws) e a = (rw e a.0, a.1)

split-free : (s : Text) → All (λ p. has 47 p ≡ false) (split 47 s)
unfolding split has
split-free [] = (refl, tt)
split-free (c ∷ s) = elim (Bool-cases (c == 47)) [
  | inl e ↦ rw e (refl, split-free s)
  | inr e ↦ rw e (onto_first-free c (split 47 s) e (split-free s))
]

pop-Piece : (ps : List Text) → All Piece ps → All Piece (pop ps)
unfolding pop
pop-Piece [] a = tt
pop-Piece (p ∷ []) a = tt
pop-Piece (p ∷ (q ∷ ps)) a = (a.0, pop-Piece (q ∷ ps) a.1)

follow_pieces-Piece :
    (cwd pieces : List Text)
    → All Piece cwd
    → All (λ p. has 47 p ≡ false) pieces
    → All Piece (follow_pieces cwd pieces)
unfolding follow_pieces
follow_pieces-Piece cwd [] a b = a
follow_pieces-Piece cwd (p ∷ ps) a b = elim (Bool-cases (text_eq p dots)) [
  | inl up ↦ rw up (follow_pieces-Piece (pop cwd) ps (pop-Piece cwd a) b.1)
  | inr e ↦ elim (Bool-cases (text_eq p dot || text_eq p [])) [
    | inl same ↦ rw (e, same) (follow_pieces-Piece cwd ps a b.1)
    | inr down ↦
        rw (e, down)
          (follow_pieces-Piece (cwd ++ p ∷ []) ps
            (All-append Piece cwd (p ∷ []) a ((b.0, e, ground arith, ground arith), tt)) b.1)
  ]
]

split_one : (p : Text) → has 47 p ≡ false → split 47 p ≡ p ∷ []
unfolding split has
split_one [] h = refl
split_one (c ∷ s) h = ground (arith, split_one s)

split-join : (p : Text) (ps : List Text) → All Piece (p ∷ ps) → split 47 (join (p ∷ ps)) ≡ p ∷ ps
unfolding join
split-join p [] a = split_one p a.0.0
split-join p (q ∷ ps) a = split-append 47 p (join (q ∷ ps)) a.0.0 ∙ ap (◌∷◌ p) (split-join q ps a.1)

split-root : (s : Text) → split 47 (47 ∷ s) ≡ [] ∷ split 47 s
unfolding split
split-root s = ground arith

follow_pieces-append : (cwd ps : List Text) → All Piece ps → follow_pieces cwd ps ≡ cwd ++ ps
unfolding follow_pieces
follow_pieces-append cwd [] a = sym (append-nil cwd)
follow_pieces-append cwd (p ∷ ps) a =
    rw (a.0.1, a.0.2, a.0.3)
      (follow_pieces-append (cwd ++ p ∷ []) ps a.1 ∙ append_assoc cwd (p ∷ []) ps)

unless_slash-append :
    (c : ℕ) (s : Text) (d : ℕ) (t : Text) → unless_slash c (s ++ d ∷ t) ≡ c ∷ (s ++ d ∷ t)
unless_slash-append c [] d t = refl
unless_slash-append c (x ∷ s) d t = refl

rstrip-prefix :
    (s : Text) (d : ℕ) (t : Text)
    → rstrip_slashes (d ∷ t) ≡ d ∷ t
    → rstrip_slashes (s ++ d ∷ t) ≡ s ++ d ∷ t
unfolding rstrip_slashes
rstrip-prefix [] d t h = h
rstrip-prefix (c ∷ s) d t h =
    ap (unless_slash c) (rstrip-prefix s d t h) ∙ unless_slash-append c s d t

rstrip_one : (p : Text) → has 47 p ≡ false → rstrip_slashes p ≡ p
unfolding rstrip_slashes has
rstrip_one [] h = refl
rstrip_one (c ∷ []) h = ground arith
rstrip_one (c ∷ (d ∷ s)) h = ground (arith, rstrip_one (d ∷ s))

join-cons :
    (p : Text) (ps : List Text)
    → All Piece (p ∷ ps)
    → (c : ℕ) × (s : Text) × (join (p ∷ ps) ≡ c ∷ s)
unfolding join text_eq
join-cons [] ps a = absurd (ground (arith, a.0.3))
join-cons (c ∷ s) [] a = (c, s, refl)
join-cons (c ∷ s) (q ∷ ps) a = (c, s ++ 47 ∷ join (q ∷ ps), refl)

rstrip-slash :
    (path : Text) (c : ℕ) (s : Text)
    → path ≡ c ∷ s
    → rstrip_slashes path ≡ path
    → rstrip_slashes (47 ∷ path) ≡ 47 ∷ path
unfolding rstrip_slashes
rstrip-slash path c s e h = ap (unless_slash 47) h ∙ rw e refl

-- A path of pieces has no slash at its end.
rstrip-join :
    (p : Text) (ps : List Text)
    → All Piece (p ∷ ps)
    → rstrip_slashes (join (p ∷ ps)) ≡ join (p ∷ ps)
unfolding join
rstrip-join p [] a = rstrip_one p a.0.0
rstrip-join p (q ∷ ps) a =
    let (c, s, e) = join-cons q ps a.1 in
    rstrip-prefix p 47 (join (q ∷ ps)) (rstrip-slash (join (q ∷ ps)) c s e (rstrip-join q ps a.1))

root_none : follow_pieces [] (split 47 (rstrip_slashes (47 ∷ join []))) ≡ []
unfolding follow_pieces rstrip_slashes join split text_eq
root_none = refl

follow_pieces-empty : (cwd ps : List Text) → follow_pieces cwd ([] ∷ ps) ≡ follow_pieces cwd ps
unfolding follow_pieces text_eq
follow_pieces-empty cwd ps = refl

root-pieces :
    (ps : List Text)
    → All Piece ps
    → follow_pieces [] (split 47 (rstrip_slashes (47 ∷ join ps))) ≡ ps
root-pieces [] a = root_none
root-pieces (p ∷ ps) a =
    let (c, s, e) = join-cons p ps a in
    ap (λ path. follow_pieces [] (split 47 path))
      (rstrip-slash (join (p ∷ ps)) c s e (rstrip-join p ps a))
    ∙ ap (follow_pieces []) (split-root (join (p ∷ ps)))
    ∙ follow_pieces-empty [] (split 47 (join (p ∷ ps)))
    ∙ ap (follow_pieces []) (split-join p ps a)
    ∙ follow_pieces-append [] (p ∷ ps) a

keep-Piece : (ps : List Text) → All Piece ps → keep (λ x. not (text_eq x [])) ps ≡ ps
keep-Piece [] a = refl
keep-Piece (p ∷ ps) a = rw (a.0.3) (ap (◌∷◌ p) (keep-Piece ps a.1))

-- The pieces of a normal working directory.
cwd-pieces :
    (ps : List Text) → All Piece ps → keep (λ x. not (text_eq x [])) (split 47 (47 ∷ join ps)) ≡ ps
unfolding split join text_eq
cwd-pieces [] a = refl
cwd-pieces (p ∷ ps) a =
    ap (keep (λ x. not (text_eq x [])))
      (split-root (join (p ∷ ps)) ∙ ap (◌∷◌ []) (split-join p ps a))
    ∙ keep-Piece (p ∷ ps) a

start-Piece :
    (cwd path : Text) (qs : List Text) → Normal cwd → start_pieces cwd path ≡ ok qs → All Piece qs
unfolding start_pieces
start-Piece cwd [] qs n e = cc
start-Piece cwd (c ∷ s) qs (ps, q, a) e =
    let kept : keep (λ x. not (text_eq x [])) (split 47 cwd) ≡ ps =
      ap (λ path. keep (λ x. not (text_eq x [])) (split 47 path)) q ∙ cwd-pieces ps a in
    subst (All Piece) (ok-injective e) (elim (Bool-cases (c == 47)) [
      | inl h ↦ rw h tt
      | inr h ↦ rw h (subst (All Piece) (sym kept) a)
    ])

from_start-Normal :
    (home pathspec cwd path : Text) (r : Result (List Text))
    → Normal cwd
    → start_pieces cwd (expand home pathspec) ≡ r
    → from_start (split 47 (rstrip_slashes (expand home pathspec))) r ≡ ok path
    → Normal path
from_start-Normal home pathspec cwd path (err x) n s e = cc
from_start-Normal home pathspec cwd path (ok qs) n s e = (
  follow_pieces qs (split 47 (rstrip_slashes (expand home pathspec))),
  sym (ok-injective e),
  follow_pieces-Piece qs _ (start-Piece cwd (expand home pathspec) qs n s)
      (split-free (rstrip_slashes (expand home pathspec))),
)

-- From a normal working directory every path resolves to a normal one, if it resolves.
pub resolve_path-Normal :
    (home pathspec cwd path : Text)
    → Normal cwd
    → resolve_path home pathspec cwd ≡ ok path
    → Normal path
unfolding resolve_path
resolve_path-Normal home pathspec cwd path n e =
    from_start-Normal home pathspec cwd path (start_pieces cwd (expand home pathspec)) n refl e

pub expand-root : (home s : Text) → expand home (47 ∷ s) ≡ 47 ∷ s
expand-root home [] = refl
expand-root home (c ∷ s) = refl

resolve_path-root :
    (home cwd s : Text)
    → resolve_path home (47 ∷ s) cwd ≡ ok (onto_root (split 47 (rstrip_slashes (47 ∷ s))) [])
unfolding resolve_path start_pieces
resolve_path-root home cwd s = rw (expand-root home s) refl

-- A normal path resolves to itself, from any working directory.
pub resolve_path-fixed : (home cwd path : Text) → Normal path → resolve_path home path cwd ≡ ok path
resolve_path-fixed home cwd path (ps, q, a) =
    ap (λ p. resolve_path home p cwd) q
    ∙ resolve_path-root home cwd (join ps)
    ∙ ap (λ qs. ok (47 ∷ join qs)) (root-pieces ps a)
    ∙ ap ok (sym q)
