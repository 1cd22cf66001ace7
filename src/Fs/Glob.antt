-- ===== src/Fs/Glob.antt =====
-- `resolve_path_wc` (cowrie/src/cowrie/shell/fs.py): the paths that a pattern stands for. `fnmatch.fnmatchcase` is a
-- parameter.
use honeybee_potstore.Base.{
  ℕ, Bool, List, [], ◌∷◌, ◌++◌, not, Result, ok, ◌>>=◌, if◌then◌else◌, keep,
}
use honeybee_potstore.Base.Text.{Text, text_eq}
use honeybee_potstore.Auth.Strings.{split}
use honeybee_potstore.Fs.Paths.{join, rstrip_slashes, dot, dots, pop}
use honeybee_potstore.Fs.Node.{Node}
use honeybee_potstore.Fs.Lookup.{listdir}

-- The paths found below each match, in order.
unfoldable pub below : (Text → Result (List Text)) → List Text → Result (List Text)
below foo [] = ok []
below foo (match ∷ matches) = foo match >>= λ xs. below foo matches >>= λ ys. ok (xs ++ ys)

-- The inner function `foo`.
unfoldable pub glob : (Text → Text → Bool) → ℕ → Node → List Text → List Text → Result (List Text)
glob fnmatch n root [] cwd = ok ((47 ∷ join cwd) ∷ [])
glob fnmatch n root (p ∷ ps) cwd =
    let same = glob fnmatch n root ps cwd in
    let up = glob fnmatch n root ps (pop cwd) in
    let down : Text → Result (List Text) = λ match. glob fnmatch n root ps (cwd ++ match ∷ []) in
    if text_eq p dot
    then same
    else if text_eq p dots
    then up
    else (listdir n root (join cwd) >>= λ names. below down (keep (λ x. fnmatch x p) names))

unfoldable pub glob_start : (Text → Text → Bool) → ℕ → Node → Text → List Text → Result (List Text)
glob_start fnmatch n root cwd [] = ok []
glob_start fnmatch n root cwd (p ∷ ps) =
    if text_eq p []
    then glob fnmatch n root ps []
    else glob fnmatch n root (p ∷ ps) (keep (λ x. not (text_eq x [])) (split 47 cwd))

unfoldable pub resolve_path_wc : (Text → Text → Bool) → ℕ → Node → Text → Text → Result (List Text)
resolve_path_wc fnmatch n root path cwd =
    glob_start fnmatch n root cwd (split 47 (rstrip_slashes path))
