-- ===== src/Fs/Limits.antt =====
-- The limit on new nodes, and calls that fail (cowrie/src/cowrie/shell/fs.py, mkfile, mkdir, rename).
use honeybee_potstore.Base.{
  ℕ, ◌+◌, ◌≡◌, refl, ap, ◌∙◌, true, Option, none, some, Result, ok, err, Error, [], if◌then◌else◌,
  ltb, Bool-cases, inl, inr, file_not_found, is_some, os_error,
}
use honeybee_potstore.Base.Text.{Text, text_eq}
use honeybee_potstore.Fs.Paths.{dirname, basename}
use honeybee_potstore.Fs.Node.{Node, Position, with_contents, node_at, dir}
use honeybee_potstore.Fs.Lookup.{getfile, get_path, contents_at}
use honeybee_potstore.Fs.Changes.{
  FileSystem, Change, ◌>>=◌, ◌>>◌, append_node, append_to, change_node, count_up, create_dir, mkdir,
  or_enoent, strip_path, new_node, find, directory, the_node, or_fail, fail,
}
use honeybee_potstore.Fs.Attributes.{take_out, move, rename, set_name}

-- What holds of an outcome holds after a lookup, if it holds of a raise and of what follows.
look-cases :
    {A B : Type 0} (P : Result B × FileSystem → Type 0) (s : FileSystem) (k : A → Change B)
    (r : Result A)
    → ((e : Error) → P (err e, s))
    → ((a : A) → P (k a s))
    → P (elim r [ err e ↦ (err e, s) | ok a ↦ k a s ])
look-cases P s k (err e) raised went = raised e
look-cases P s k (ok a) raised went = went a

-- A new node is counted once; a call that raises leaves the tree and the count as they were.
abbrev pub Made : {A : Type 0} → FileSystem → Result A × FileSystem → Type 0
Made s (ok a, t) = t.newcount ≡ s.newcount + 1
Made s (err e, t) = t ≡ s

append_node-Made :
    (p : Position) (n : Node) (s : FileSystem) → Made s ((append_node p n >> count_up) s)
unfolding append_node
append_node-Made p n s =
    look-cases
      (λ x. Made {A = Unit {0}} s (elim x.0 [ err e ↦ (err e, x.1) | ok a ↦ count_up x.1 ])) s
      (λ c. change_node p (with_contents c)) (append_to (contents_at s.fs p) n) (λ e. refl)
      (λ c. refl)

create_dir-Made :
    (path : Text) (uid gid size mode ctime : ℕ) (s : FileSystem)
    → Made s (create_dir path uid gid size mode ctime s)
unfolding create_dir
create_dir-Made path uid gid size mode ctime s = elim (Bool-cases (text_eq (strip_path path) [])) [
  | inl e ↦ rw e refl
  | inr e ↦ rw e (
      look-cases (Made s) s
        (λ p. append_node p (new_node (basename path) dir uid gid size mode ctime) >> count_up)
        (or_enoent (get_path s.depth s.fs true (dirname (strip_path path)))) (λ x. refl)
        (λ p. append_node-Made p _ s))
]

-- `mkdir` counts one new node, or raises and leaves everything as it was.
pub mkdir-Made :
    (path : Text) (uid gid size mode ctime : ℕ) (s : FileSystem)
    → Made s (mkdir path uid gid size mode ctime s)
unfolding mkdir
mkdir-Made path uid gid size mode ctime s = elim (Bool-cases (ltb 10000 s.newcount)) [
  | inl e ↦ rw e refl
  | inr e ↦ rw e (create_dir-Made path uid gid size mode ctime s)
]

abbrev continued : {A B : Type 0} → (A → Change B) → Result A × FileSystem → Result B × FileSystem
continued k x = elim x.0 [ err e ↦ (err e, x.1) | ok a ↦ k a x.1 ]

bind-ok :
    {A B : Type 0} (m : Change A) (k : A → Change B) (s t : FileSystem) (a : A)
    → m s ≡ (ok a, t)
    → (m >>= k) s ≡ k a t
bind-ok m k s t a h = ap (continued k) h

bind-err :
    {A B : Type 0} (m : Change A) (k : A → Change B) (s t : FileSystem) (e : Error)
    → m s ≡ (err e, t)
    → (m >>= k) s ≡ (err e, t)
bind-err m k s t e h = ap (continued k) h

the_node-some :
    (p : Position) (n : Node) (s : FileSystem) → node_at s.fs p ≡ some n → the_node p s ≡ (ok n, s)
the_node-some p n s h = rw h refl

enter_new : Text → Node → Position → Change (Unit {0})
enter_new newpath old q = append_node q (set_name (basename newpath) old)

unless_new : Text → Text → Node → Option Position → Change (Unit {0})
unless_new oldpath newpath old new =
    if is_some new then fail (os_error 17) else move oldpath newpath old

check_new : Text → Text → Node → Change (Unit {0})
check_new oldpath newpath old = find true newpath >>= unless_new oldpath newpath old

-- A renaming of a node that is found, to a name that is not, whose new directory cannot be found
-- once the node has left the old one, raises FileNotFound: the tree without the node is what
-- stays.
pub rename-loses :
    (oldpath newpath : Text) (p : Position) (old : Node) (s t : FileSystem)
    → getfile s.depth s.fs true oldpath ≡ ok (some p)
    → node_at s.fs p ≡ some old
    → getfile s.depth s.fs true newpath ≡ ok none
    → take_out oldpath old s ≡ (ok tt, t)
    → get_path t.depth t.fs true (dirname newpath) ≡ err file_not_found
    → rename oldpath newpath s ≡ (err file_not_found, t)
unfolding rename move check_new unless_new enter_new
rename-loses oldpath newpath p old s t found at new out gone =
    bind-ok (find true oldpath) (or_fail 2 (λ q. the_node q >>= check_new oldpath newpath)) s s
      (some p) (ap (λ r. (r, s)) found)
    ∙ bind-ok (the_node p) (check_new oldpath newpath) s s old (the_node-some p old s at)
    ∙ bind-ok (find true newpath) (unless_new oldpath newpath old) s s none (ap (λ r. (r, s)) new)
    ∙ bind-ok (take_out oldpath old) (λ _. directory (dirname newpath) >>= enter_new newpath old) s
        t tt out
    ∙ bind-err (directory (dirname newpath)) (enter_new newpath old) t t file_not_found
        (ap (λ r. (r, t)) gone)
