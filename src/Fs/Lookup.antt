-- ===== src/Fs/Lookup.antt =====
-- The lookups of HoneyPotFilesystem (cowrie/src/cowrie/shell/fs.py). A link is followed by a call of `getfile`
-- within `getfile`: the first argument is how deep Python lets calls nest, beyond which it raises.
use honeybee_potstore.Base.{
  ℕ, zero, suc, ◌+◌, Bool, true, false, List, [], ◌∷◌, ◌++◌, ◌&&◌, not, Option, none, some, Result,
  ok, err, ◌>>=◌, index_error, type_error, attribute_error, file_not_found, recursion_error, ◌==◌,
  if◌then◌else◌, map, is_some,
}
use honeybee_potstore.Base.Text.{Text, text_eq, contains}
use honeybee_potstore.Auth.Strings.{split}
use honeybee_potstore.Fs.Paths.{strip_slashes, rstrip_slashes}
use honeybee_potstore.Fs.Node.{
  Kind, link, dir, file, kind_eq, Node, Contents, meta, contents, raw, no_entries, entry, entries,
  Position, node_at,
}

-- `for x in p[A_CONTENTS]` with `x[A_NAME]`: the items of non-empty bytes are numbers, which raises.
unfoldable pub iterate : Contents → Result (List Node)
iterate (raw []) = ok []
iterate (raw (c ∷ s)) = err type_error
iterate no_entries = ok []
iterate (entry n c) = ok (entries (entry n c))

abbrev pub name_of : Node → Text
name_of n = (meta n).name

abbrev pub kind_is : Kind → Node → Bool
kind_is k n = kind_eq (meta n).kind k

-- The path that a link is resolved by. `cwd` is never changed, so a relative link is one from the root.
unfoldable pub link_path : Option Text → Result Text
link_path none = err type_error
link_path (some []) = err index_error
link_path (some (c ∷ s)) = ok (if c == 47 then c ∷ s else 47 ∷ c ∷ s)

-- One entry of the name that is looked for: the position that it leads to.
unfoldable pub enter :
    (Text → Result (Option Position)) → Bool → Position → Node → Result (Option Position)
enter resolve as_is here x =
    if as_is
    then ok (some here)
    else if kind_is link x
    then (do path ← link_path (meta x).target; resolve path)
    else ok (some here)

abbrev pub unless_broken :
    (Position → Result (Option Position)) → Option Position → Result (Option Position)
unless_broken k none = ok none
unless_broken k (some q) = k q

-- The inner loop goes on after an entry of the name; the last one counts.
unfoldable pub scan :
    (Text → Result (Option Position))
    → Bool
    → Text
    → Position
    → ℕ
    → List Node
    → Position
    → Result (Option Position)
scan resolve as_is piece base i [] p = ok (some p)
scan resolve as_is piece base i (x ∷ xs) p =
    if text_eq (name_of x) piece
    then enter resolve as_is (base ++ i ∷ []) x
      >>= unless_broken (scan resolve as_is piece base (i + 1) xs)
    else scan resolve as_is piece base (i + 1) xs p

unfoldable pub last_piece : List Text → Text
last_piece [] = []
last_piece (p ∷ []) = p
last_piece (p ∷ (q ∷ ps)) = last_piece (q ∷ ps)

abbrev pub contents_at : Node → Position → Contents
contents_at root p = elim (node_at root p) [ none ↦ no_entries | some n ↦ contents n ]

-- The loop over the pieces. A piece that is spelled like the last one is not followed either.
unfoldable pub walk :
    (Text → Result (Option Position))
    → Node
    → Bool
    → Text
    → List Text
    → Position
    → Result (Option Position)
walk resolve root follow final [] p = ok (some p)
walk resolve root follow final (piece ∷ pieces) p = iterate (contents_at root p) >>= λ xs.
    if contains piece (map name_of xs)
    then scan resolve (text_eq piece final && not follow) piece p 0 xs p
      >>= unless_broken (walk resolve root follow final pieces)
    else ok none

unfoldable pub getfile : ℕ → Node → Bool → Text → Result (Option Position)
getfile zero root follow path = err recursion_error
getfile (suc n) root follow path =
    if text_eq path (47 ∷ [])
    then ok (some [])
    else (let pieces = split 47 (strip_slashes (rstrip_slashes path)) in
        walk (getfile n root follow) root follow (last_piece pieces) pieces [])

-- The target of a link in `get_path`: `None` has no `strip`.
unfoldable pub target_path : Option Text → Result Text
target_path none = err attribute_error
target_path (some t) = ok t

unfoldable pub or_not_found : Option Position → Result Position
or_not_found none = err file_not_found
or_not_found (some p) = ok p

-- The inner loop of `get_path`: the first entry of the name counts.
unfoldable pub find_part :
    (Text → Result (Option Position)) → Text → Position → ℕ → List Node → Result Position
find_part resolve part base i [] = err file_not_found
find_part resolve part base i (c ∷ cs) =
    if text_eq (name_of c) part
    then (if kind_is link c
        then (do t ← target_path (meta c).target; f ← resolve t; or_not_found f)
        else ok (base ++ i ∷ []))
    else find_part resolve part base (i + 1) cs

unfoldable pub walk_parts :
    (Text → Result (Option Position)) → Node → List Text → Position → Result Position
walk_parts resolve root [] p = ok p
walk_parts resolve root (part ∷ parts) p =
    if text_eq part []
    then walk_parts resolve root parts p
    else (iterate (contents_at root p) >>= λ cs.
        find_part resolve part p 0 cs >>= walk_parts resolve root parts)

-- The position of the directory whose list of contents the method returns.
unfoldable pub get_path : ℕ → Node → Bool → Text → Result Position
get_path n root follow path = walk_parts (getfile n root follow) root (split 47 path) []

unfoldable pub exists : ℕ → Node → Text → Result Bool
exists n root path = do f ← getfile n root true path; ok (is_some f)

unfoldable pub lexists : ℕ → Node → Text → Result Bool
lexists n root path = do f ← getfile n root false path; ok (is_some f)

abbrev pub found_kind : Kind → Node → Result (Option Position) → Bool
found_kind k root (err e) = false
found_kind k root (ok none) = false
found_kind k root (ok (some p)) = elim (node_at root p) [ none ↦ false | some n ↦ kind_is k n ]

-- The three tests catch every exception.
unfoldable pub isfile : ℕ → Node → Text → Bool
isfile n root path = found_kind file root (getfile n root true path)

unfoldable pub islink : ℕ → Node → Text → Bool
islink n root path = found_kind link root (getfile n root true path)

unfoldable pub isdir : ℕ → Node → Text → Bool
isdir n root path =
    if text_eq path (47 ∷ []) then true else found_kind dir root (getfile n root true path)

unfoldable pub listdir : ℕ → Node → Text → Result (List Text)
listdir n root path =
    get_path n root true path >>= λ p. iterate (contents_at root p) >>= λ xs. ok (map name_of xs)
