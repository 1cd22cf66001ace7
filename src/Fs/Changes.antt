-- ===== src/Fs/Changes.antt =====
-- The calls of HoneyPotFilesystem that change the tree, and what is read of a node
-- (cowrie/src/cowrie/shell/fs.py).
use honeybee_potstore.Base.{
  ℕ, suc, ◌+◌, Bool, true, false, List, [], ◌∷◌, ◌++◌, ◌||◌, not, Option, none, some, Result, ok,
  err, Error, value_error, index_error, attribute_error, file_not_found, permission_denied,
  os_error, ◌==◌, ltb, if◌then◌else◌, map, is_some, length,
}
use honeybee_potstore.Base.Text.{Text, text_eq, contains, codes}
use honeybee_potstore.Fs.Paths.{strip_slashes, rstrip_slashes, dirname, basename}
use honeybee_potstore.Fs.Node.{
  Kind, dir, file, Node, Contents, node, with_contents, raw, no_entries, entry, entries,
  from_entries, Position, node_at, change_at, node_eq,
}
use honeybee_potstore.Fs.Lookup.{iterate, name_of, kind_is, contents_at, getfile, get_path}

pub record FileSystem : Type 0 where
  pub fs : Node
  pub home : Text
  pub newcount : ℕ
  pub depth : ℕ

abbrev pub Change : Type 0 → Type 0
Change A = FileSystem → Result A × FileSystem

infixl 5 ◌>>=◌ ◌>>◌
abbrev pub ◌>>=◌ : {A B : Type 0} → Change A → (A → Change B) → Change B
m >>= k = λ s. elim (m s).0 [ err e ↦ (err e, (m s).1) | ok a ↦ k a (m s).1 ]

abbrev pub ◌>>◌ : {A B : Type 0} → Change A → Change B → Change B
m >> k = m >>= λ _. k

abbrev pub give : {A : Type 0} → A → Change A
give a s = (ok a, s)

abbrev pub fail : {A : Type 0} → Error → Change A
fail e s = (err e, s)

-- A lookup in the tree as it stands.
abbrev pub look : {A : Type 0} → (FileSystem → Result A) → Change A
look f s = (f s, s)

abbrev pub change_node : Position → (Node → Node) → Change (Unit {0})
change_node p f s = (ok tt, record s { fs = change_at p f s.fs })

abbrev pub find : Bool → Text → Change (Option Position)
find follow path = look (λ s. getfile s.depth s.fs follow path)

abbrev pub directory : Text → Change Position
directory path = look (λ s. get_path s.depth s.fs true path)

-- A reference that was just found is in the tree.
abbrev pub the_node : Position → Change Node
the_node p s = (elim (node_at s.fs p) [ none ↦ err file_not_found | some n ↦ ok n ], s)

abbrev pub names_in : Position → Change (List Node)
names_in p = look (λ s. iterate (contents_at s.fs p))

abbrev pub set_contents : Position → List Node → Change (Unit {0})
set_contents p ns = change_node p (with_contents (from_entries ns))

-- `_dir.append(…)`: bytes have no such method.
unfoldable pub append_to : Contents → Node → Result Contents
append_to (raw s) n = err attribute_error
append_to no_entries n = ok (entry n no_entries)
append_to (entry m c) n = ok (from_entries (entries (entry m c) ++ n ∷ []))

unfoldable pub append_node : Position → Node → Change (Unit {0})
append_node p n = do
  c ← look (λ s. append_to (contents_at s.fs p) n)
  change_node p (with_contents c)

unfoldable pub starts_with : Text → Text → Bool
starts_with [] s = true
starts_with (c ∷ p) [] = false
starts_with (c ∷ p) (d ∷ s) = if c == d then starts_with p s else false

abbrev pub special_paths : List Text
special_paths = codes "/sys" ∷ codes "/proc" ∷ codes "/dev/pts" ∷ []

unfoldable pub is_special : Text → List Text → Bool
is_special path [] = false
is_special path (p ∷ ps) = starts_with p path || is_special path ps

-- The first entry of a name goes.
unfoldable pub remove_named : Text → List Node → List Node
remove_named name [] = []
remove_named name (x ∷ xs) = if text_eq (name_of x) name then xs else x ∷ remove_named name xs

-- `list.remove`: the first entry that is equal.
unfoldable pub remove_equal : Node → List Node → Result (List Node)
remove_equal n [] = err value_error
remove_equal n (x ∷ xs) =
    if node_eq x n then ok xs else elim (remove_equal n xs) [ err e ↦ err e | ok ys ↦ ok (x ∷ ys) ]

abbrev pub new_node : Text → Kind → ℕ → ℕ → ℕ → ℕ → ℕ → Node
new_node name kind uid gid size mode ctime =
    node
      (record {
        name = name;
        kind = kind;
        uid = uid;
        gid = gid;
        size = size;
        mode = mode;
        ctime = ctime;
        target = none;
        realfile = none;
      })
      no_entries

abbrev pub count_up : Change (Unit {0})
count_up s = (ok tt, record s { newcount = s.newcount + 1 })

-- An entry of the name makes way.
unfoldable pub make_way : Position → Text → Change (Unit {0})
make_way p outfile = do
  xs ← names_in p
  if contains outfile (map name_of xs) then set_contents p (remove_named outfile xs) else give tt

unfoldable pub create_file : Text → ℕ → ℕ → ℕ → ℕ → ℕ → Change Bool
create_file path uid gid size mode ctime =
    if is_special (dirname path) special_paths then fail permission_denied else (do
      p ← directory (dirname path)
      make_way p (basename path)
      append_node p (new_node (basename path) file uid gid size mode ctime)
      count_up
      give true)

-- `ctime` is the clock where it is not given.
unfoldable pub mkfile : Text → ℕ → ℕ → ℕ → ℕ → ℕ → Change Bool
mkfile path uid gid size mode ctime s =
    if ltb 10000 s.newcount then (ok false, s) else create_file path uid gid size mode ctime s

-- `except (IndexError, FileNotFound)`.
unfoldable pub or_enoent : Result Position → Result Position
or_enoent (ok p) = ok p
or_enoent (err e) = elim e as (λ _. Result Position) [
  | file_not_found ↦ err (os_error 2)
  | index_error ↦ err (os_error 2)
  | _ ↦ err e
]

abbrev pub strip_path : Text → Text
strip_path path = strip_slashes (rstrip_slashes path)

unfoldable pub create_dir : Text → ℕ → ℕ → ℕ → ℕ → ℕ → Change (Unit {0})
create_dir path uid gid size mode ctime =
    if text_eq (strip_path path) [] then fail (os_error 2) else (do
      p ← look (λ s. or_enoent (get_path s.depth s.fs true (dirname (strip_path path))))
      append_node p (new_node (basename path) dir uid gid size mode ctime)
      count_up)

unfoldable pub mkdir : Text → ℕ → ℕ → ℕ → ℕ → ℕ → Change (Unit {0})
mkdir path uid gid size mode ctime s =
    if ltb 10000 s.newcount
    then (err (os_error 122), s)
    else create_dir path uid gid size mode ctime s

unfoldable pub mkdir2 : Text → ℕ → Change (Unit {0})
mkdir2 path now =
    find true path >>= λ f. if is_some f then fail (os_error 17) else mkdir path 0 0 4096 16877 now

-- A missing node is an error of the given number.
abbrev pub or_fail : {A : Type 0} → ℕ → (Position → Change A) → Option Position → Change A
or_fail errno k none = fail (os_error errno)
or_fail errno k (some p) = k p

unfoldable pub size_of : Contents → ℕ
size_of (raw s) = length s
size_of no_entries = 0
size_of (entry n c) = suc (length (entries c))

unfoldable pub drop_name : Text → Position → Change Bool
drop_name name p = do
  xs ← names_in p
  if contains name (map name_of xs)
      then (set_contents p (remove_named name xs) >> give true)
      else give false

unfoldable pub remove_dir : Text → Position → Change Bool
remove_dir p f = the_node f >>= λ n. if not (kind_is dir n) then fail (os_error 20) else (do
  q ← directory p
  c ← look (λ s. ok (contents_at s.fs q))
  if ltb 0 (size_of c)
      then fail (os_error 39)
      else (do pdir ← directory (dirname p); drop_name (basename p) pdir))

unfoldable pub rmdir : Text → Change Bool
rmdir path = let p = rstrip_slashes path in find false p >>= or_fail 17 (remove_dir p)
