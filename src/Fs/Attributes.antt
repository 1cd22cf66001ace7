-- ===== src/Fs/Attributes.antt =====
-- The calls of HoneyPotFilesystem on one node: its times, mode, owner, size and place, and what it
-- contains (cowrie/src/cowrie/shell/fs.py).
use honeybee_potstore.Base.{
  ℕ, zero, suc, ◌+◌, ◌*◌, ◌/◌, ◌%◌, Bool, true, false, List, [], ◌∷◌, ◌&&◌, ◌||◌, not, Option, none,
  some, Result, ok, err, file_not_found, is_a_directory, os_error, ◌==◌, ltb, if◌then◌else◌,
  is_some, max,
}
use honeybee_potstore.Base.Text.{Text, Bytes, text_eq}
use honeybee_potstore.Fs.Paths.{dirname, basename, resolve_path}
use honeybee_potstore.Fs.Node.{
  dir, file, Meta, Node, Contents, meta, contents, with_meta, raw, Position,
}
use honeybee_potstore.Fs.Lookup.{kind_is, exists}
use honeybee_potstore.Fs.Changes.{
  Change, ◌>>=◌, ◌>>◌, give, fail, look, change_node, find, directory, the_node, names_in,
  set_contents, append_node, remove_equal, or_fail,
}

-- `a | b` on the lowest `w` bits.
unfoldable pub bit_or : ℕ → ℕ → ℕ → ℕ
bit_or zero a b = 0
bit_or (suc w) a b = max (a % 2) (b % 2) + 2 * bit_or w (a / 2) (b / 2)

-- `stat.S_IFMT`: the four bits of the type.
unfoldable pub s_ifmt : ℕ → ℕ
s_ifmt mode = (mode / 4096 % 16) * 4096

unfoldable pub set_ctime : ℕ → Node → Node
set_ctime mtime = with_meta (λ m. record m { ctime = mtime })

-- A mode of SFTP has 32 bits.
unfoldable pub set_mode : ℕ → Node → Node
set_mode perm = with_meta (λ m. record m { mode = bit_or 32 (s_ifmt m.mode) perm })

abbrev pub or_keep : ℕ → Option ℕ → ℕ
or_keep old none = old
or_keep old (some new) = new

unfoldable pub set_owner : Option ℕ → Option ℕ → Node → Node
set_owner uid gid = with_meta (λ m. record m { uid = or_keep m.uid uid; gid = or_keep m.gid gid })

unfoldable pub utime : Text → ℕ → Change (Unit {0})
utime path mtime = find true path >>= or_fail 2 (λ p. change_node p (set_ctime mtime))

unfoldable pub chmod : Text → ℕ → Change (Unit {0})
chmod path perm = find true path >>= or_fail 2 (λ p. change_node p (set_mode perm))

-- `none` stands for -1, which leaves the owner or the group as it is.
unfoldable pub chown : Text → Option ℕ → Option ℕ → Change (Unit {0})
chown path uid gid = find true path >>= or_fail 2 (λ p. change_node p (set_owner uid gid))

-- `self.get_path(os.path.dirname(path)).remove(p)`
unfoldable pub take_out : Text → Node → Change (Unit {0})
take_out path n = do
  q ← directory (dirname path)
  xs ← names_in q
  ys ← look (λ s. remove_equal n xs)
  set_contents q ys

unfoldable pub remove : Text → Change (Unit {0})
remove path = find false path >>= or_fail 2 (λ p. the_node p >>= take_out path)

-- `mode & stat.S_IFLNK` is not 0: the bits 13 and 15.
unfoldable pub is_lnk_mode : ℕ → Bool
is_lnk_mode mode = (mode / 8192 % 2 == 1) || (mode / 32768 % 2 == 1)

unfoldable pub target_of : Node → Result (Option Text)
target_of n = if is_lnk_mode (meta n).mode then ok (meta n).target else err (os_error 0)

unfoldable pub readlink : Text → Change (Option Text)
readlink path = find false path >>= or_fail 2 (λ p. the_node p >>= λ n. look (λ s. target_of n))

unfoldable pub set_name : Text → Node → Node
set_name name = with_meta (λ m. record m { name = name })

-- The node leaves its directory, then enters the other: a raise in between leaves it out of both.
unfoldable pub move : Text → Text → Node → Change (Unit {0})
move oldpath newpath old = do
  take_out oldpath old
  q ← directory (dirname newpath)
  append_node q (set_name (basename newpath) old)

unfoldable pub rename : Text → Text → Change (Unit {0})
rename oldpath newpath =
    find true oldpath
    >>= or_fail 2 (λ p. the_node p >>= λ old. find true newpath >>= λ new.
        if is_some new then fail (os_error 17) else move oldpath newpath old)

-- The fields of `_statobj` that are not constant.
pub record StatObj : Type 0 where
  pub st_mode : ℕ
  pub st_uid : ℕ
  pub st_gid : ℕ
  pub st_size : ℕ
  pub st_time : ℕ

unfoldable pub stat_of : Node → StatObj
stat_of n = record {
  st_mode = (meta n).mode;
  st_uid = (meta n).uid;
  st_gid = (meta n).gid;
  st_size = (meta n).size;
  st_time = (meta n).ctime;
}

unfoldable pub root_stat : ℕ → StatObj
root_stat now = record { st_mode = 16877; st_uid = 0; st_gid = 0; st_size = 4096; st_time = now }

unfoldable pub stat : Bool → Text → ℕ → Change StatObj
stat follow path now =
    if text_eq path (47 ∷ [])
    then give (root_stat now)
    else find follow path >>= or_fail 2 (λ p. the_node p >>= λ n. give (stat_of n))

unfoldable pub lstat : Text → ℕ → Change StatObj
lstat path now = stat false path now

unfoldable pub set_size : ℕ → Node → Node
set_size size = with_meta (λ m. record m { size = size })

abbrev pub or_done : (Position → Change (Unit {0})) → Option Position → Change (Unit {0})
or_done k none = give tt
or_done k (some p) = k p

unfoldable pub update_size : Text → ℕ → Change (Unit {0})
update_size filename size =
    find true filename
    >>= or_done
        (λ p. the_node p >>= λ n. if kind_is file n then change_node p (set_size size) else give tt)

-- What the host says of a path.
pub record Host : Type 0 where
  pub path_exists : Text → Bool
  pub path_islink : Text → Bool
  pub path_isfile : Text → Bool
  pub read_bytes : Text → Bytes
  pub arch_bytes : Bytes

abbrev pub is_set : Option Text → Bool
is_set none = false
is_set (some []) = false
is_set (some (c ∷ s)) = true

unfoldable pub real_if : Bool → Text → Node → Node
real_if b realfile n = if b then with_meta (λ m. record m { realfile = some realfile }) n else n

-- A node keeps the real file that it has.
unfoldable pub update_realfile : Host → Text → Node → Node
update_realfile h realfile n =
    real_if
      (not (is_set (meta n).realfile)
        && h.path_exists realfile
        && not (h.path_islink realfile)
        && h.path_isfile realfile
        && ltb (meta n).size 25000000)
      realfile n

-- One file of `init_honeyfs`: its path on the host, and its path in the tree.
unfoldable pub init_file : Host → Text → Text → Change (Unit {0})
init_file h realfile_path virtual_path =
    find false virtual_path
    >>= or_done (λ p. the_node p >>= λ n.
        if kind_is file n then change_node p (update_realfile h realfile_path) else give tt)

unfoldable pub init_honeyfs : Host → List (Text × Text) → Change (Unit {0})
init_honeyfs h [] = give tt
init_honeyfs h ((realfile_path, virtual_path) ∷ rest) =
    init_file h realfile_path virtual_path >> init_honeyfs h rest

abbrev pub raw_bytes : Contents → Option Bytes
raw_bytes (raw s) = some s
raw_bytes c = none

-- What is left of a file that has neither a real file nor bytes of its own: a header if it can be
-- run.
unfoldable pub generic : Host → Meta → Bytes
generic h m = if m.size == 0 then [] else if m.mode / 64 % 2 == 1 then h.arch_bytes else []

abbrev pub bytes_or : Bytes → Option Bytes → Bytes
bytes_or d none = d
bytes_or d (some s) = s

abbrev pub real_or : Host → Bytes → Option Text → Bytes
real_or h d none = d
real_or h d (some []) = d
real_or h d (some (c ∷ s)) = h.read_bytes (c ∷ s)

unfoldable pub node_contents : Host → Node → Result Bytes
node_contents h n =
    if kind_is dir n
    then err is_a_directory
    else if kind_is file n
    then ok (real_or h (bytes_or (generic h (meta n)) (raw_bytes (contents n))) (meta n).realfile)
    else ok []

unfoldable pub file_contents : Host → Text → Change Bytes
file_contents h target = do
  path ← look (λ s. resolve_path s.home target (dirname target))
  there ← look (λ s. exists s.depth s.fs path)
  if not there then fail file_not_found else (do
    f ← find true path
    or_fail 2 (λ p. the_node p >>= λ n. look (λ s. node_contents h n)) f)
