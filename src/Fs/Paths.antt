-- ===== src/Fs/Paths.antt =====
-- Paths as texts: `resolve_path` (cowrie/src/cowrie/shell/fs.py), and what the file system uses of `os.path`.
use honeybee_potstore.Base.{
  ℕ, Bool, true, false, List, [], ◌∷◌, ◌++◌, ◌&&◌, ◌||◌, not, Result, ok, err, index_error, ◌==◌,
  if◌then◌else◌, keep,
}
use honeybee_potstore.Base.Text.{Text, text_eq}
use honeybee_potstore.Auth.Strings.{split}

unfoldable pub strip_slashes : Text → Text
strip_slashes [] = []
strip_slashes (c ∷ s) = if c == 47 then strip_slashes s else c ∷ s

abbrev pub unless_slash : ℕ → Text → Text
unless_slash c [] = if c == 47 then [] else c ∷ []
unless_slash c (d ∷ s) = c ∷ d ∷ s

-- `s.rstrip("/")`
unfoldable pub rstrip_slashes : Text → Text
rstrip_slashes [] = []
rstrip_slashes (c ∷ s) = unless_slash c (rstrip_slashes s)

-- `"/".join(pieces)`
unfoldable pub join : List Text → Text
join [] = []
join (p ∷ []) = p
join (p ∷ (q ∷ ps)) = p ++ 47 ∷ join (q ∷ ps)

unfoldable pub all_slashes : Text → Bool
all_slashes [] = true
all_slashes (c ∷ s) = if c == 47 then all_slashes s else false

-- What stands before and after the last slash; the slash stays with the first part.
abbrev pub cut : ℕ → Text × Text → Text × Text
cut c ([], base) = if c == 47 then (c ∷ [], base) else ([], c ∷ base)
cut c (d ∷ s, base) = (c ∷ d ∷ s, base)

unfoldable pub head_and_base : Text → Text × Text
head_and_base [] = ([], [])
head_and_base (c ∷ s) = cut c (head_and_base s)

-- `os.path.dirname` and `os.path.basename`.
unfoldable pub dirname : Text → Text
dirname path =
    let head = (head_and_base path).0 in if all_slashes head then head else rstrip_slashes head

unfoldable pub basename : Text → Text
basename path = (head_and_base path).1

abbrev pub dot : Text
dot = 46 ∷ []

abbrev pub dots : Text
dots = 46 ∷ 46 ∷ []

-- `cwdpieces.pop()`, if there are any.
unfoldable pub pop : List Text → List Text
pop [] = []
pop (p ∷ []) = []
pop (p ∷ (q ∷ ps)) = p ∷ pop (q ∷ ps)

-- The loop over the pieces of the path.
unfoldable pub follow_pieces : List Text → List Text → List Text
follow_pieces cwdpieces [] = cwdpieces
follow_pieces cwdpieces (piece ∷ pieces) =
    let up = follow_pieces (pop cwdpieces) pieces in
    let same = follow_pieces cwdpieces pieces in
    let down = follow_pieces (cwdpieces ++ piece ∷ []) pieces in
    if text_eq piece dots then up else if text_eq piece dot || text_eq piece [] then same else down

-- A path that starts with `~/` is within the home directory.
abbrev pub expand : Text → Text → Text
expand home [] = []
expand home (c ∷ []) = c ∷ []
expand home (c ∷ (d ∷ s)) = if (c == 126) && (d == 47) then home ++ d ∷ s else c ∷ d ∷ s

-- The pieces to start from: none for an absolute path. An empty path has no first character.
unfoldable pub start_pieces : Text → Text → Result (List Text)
start_pieces cwd [] = err index_error
start_pieces cwd (c ∷ s) =
    ok (if c == 47 then [] else keep (λ x. not (text_eq x [])) (split 47 cwd))

abbrev pub onto_root : List Text → List Text → Text
onto_root pieces cwdpieces = 47 ∷ join (follow_pieces cwdpieces pieces)

abbrev pub from_start : List Text → Result (List Text) → Result Text
from_start pieces (err e) = err e
from_start pieces (ok cwdpieces) = ok (onto_root pieces cwdpieces)

unfoldable pub resolve_path : Text → Text → Text → Result Text
resolve_path home pathspec cwd =
    let path = expand home pathspec in
    from_start (split 47 (rstrip_slashes path)) (start_pieces cwd path)
