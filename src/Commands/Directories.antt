-- ===== src/Commands/Directories.antt =====
-- cd, pwd, mkdir, rmdir and touch (cowrie/src/cowrie/commands/fs.py). The clock and the ids of the user are arguments.
use honeybee_potstore.Base.{
  ℕ, Bool, true, false, List, [], ◌∷◌, ◌++◌, not, Option, none, some, Result, ok, err,
  file_not_found, index_error, if◌then◌else◌, ltb,
}
use honeybee_potstore.Base.Text.{Text, text_eq, codes}
use honeybee_potstore.Fs.Paths.{dirname, basename, join, pop}
use honeybee_potstore.Auth.Strings.{split}
use honeybee_potstore.Fs.Node.{dir, Node, node_at, Position}
use honeybee_potstore.Fs.Lookup.{name_of, kind_is, contents_at, iterate, getfile, get_path}
use honeybee_potstore.Fs.Changes.{
  mkdir, mkfile, size_of, remove_equal, set_contents, is_special, special_paths,
}
use honeybee_potstore.Commands.Context.{
  Context, Act, ◌>>=◌, ◌>>◌, give, done, on_fs, attempt, ask, error_write, write, set_cwd, resolve,
  exists_at,
}

-- `f"{before}{name}{after}\n"`
abbrev pub about : Text → Text → Text → Text
about before name after = before ++ name ++ after ++ 10 ∷ []

abbrev pub no_such : Text
no_such = codes "': No such file or directory"

-- The resolved path, and the inode there.
abbrev pub cd_target : Text → Context → Result (Text × Option Position)
cd_target pname c = elim (resolve pname c) [
  | err e ↦ err e
  | ok path ↦ elim (getfile c.system.depth c.system.fs true path) [
    | err e ↦ err e
    | ok f ↦ ok (path, f)
  ]
]

abbrev pub cd_missing : Text → Act (Unit {0})
cd_missing pname =
    error_write (about (codes "bash: cd: ") pname (codes ": No such file or directory"))

abbrev pub is_dir_at : Position → Context → Bool
is_dir_at p c = elim (node_at c.system.fs p) [ none ↦ false | some n ↦ kind_is dir n ]

abbrev pub go_to : Text → Result (Text × Option Position) → Act (Unit {0})
go_to pname (err e) = cd_missing pname
go_to pname (ok (path, none)) = cd_missing pname
go_to pname (ok (path, some p)) = λ c.
    if is_dir_at p c
    then set_cwd path c
    else error_write (about (codes "bash: cd: ") pname (codes ": Not a directory")) c

abbrev pub cd_name : Text → List Text → Text
cd_name home [] = home
cd_name home (a ∷ rest) = if text_eq a (codes "~") then home else a

-- `Command_cd.call`
unfoldable pub call_cd : Text → List Text → Act (Unit {0})
call_cd home args =
    let pname = cd_name home args in
    attempt (cd_target pname) >>= λ r.
    if text_eq pname (codes "-")
    then error_write (codes "bash: cd: OLDPWD not set" ++ 10 ∷ [])
    else go_to pname r

-- `Command_pwd.call`
unfoldable pub call_pwd : Act (Unit {0})
call_pwd c = write (c.cwd ++ 10 ∷ []) c

-- `except fs.FileNotFound`
abbrev pub unless_missing : Text → Result (Unit {0}) → Act (Unit {0})
unless_missing f (ok u) = done
unless_missing f (err e) = λ c. elim e as (λ _. Result (Unit {0}) × Context) [
  | file_not_found ↦ error_write (about (codes "mkdir: cannot create directory `") f no_such) c
  | _ ↦ (err e, c)
]

abbrev pub try_mkdir : Text → Text → ℕ → ℕ → ℕ → Act (Unit {0})
try_mkdir f pname uid gid now c =
    let made = mkdir pname uid gid 4096 16877 now c.system in
    unless_missing f made.0 (record c { system = made.1 })

abbrev pub mkdir_unless : Text → ℕ → ℕ → ℕ → Text → Bool → Act (Unit {0})
mkdir_unless f uid gid now pname there =
    if there
    then error_write (about (codes "mkdir: cannot create directory `") f (codes "': File exists"))
    else try_mkdir f pname uid gid now

abbrev pub mkdir_at : Text → ℕ → ℕ → ℕ → Text → Act (Unit {0})
mkdir_at f uid gid now pname = ask (exists_at pname) >>= mkdir_unless f uid gid now pname

-- `Command_mkdir.call`: the loop returns after its first argument.
unfoldable pub call_mkdir : ℕ → ℕ → ℕ → List Text → Act (Unit {0})
call_mkdir uid gid now [] = done
call_mkdir uid gid now (f ∷ fs) = ask (resolve f) >>= mkdir_at f uid gid now

-- `"/".join(pname.split("/")[:-1])`
abbrev pub parent_of : Text → Text
parent_of pname = join (pop (split 47 pname))

abbrev pub path_at : Text → Context → Result Position
path_at path c = get_path c.system.depth c.system.fs true path

-- The directory to remove from; `none` if what is to go is not empty.
abbrev pub emptied : Text → Context → Result (Option Position)
emptied pname c = elim (path_at pname c) [
  | err e ↦ err e
  | ok p ↦
      if ltb 0 (size_of (contents_at c.system.fs p))
      then ok none
      else elim (path_at (parent_of pname) c) [ err e ↦ err e | ok q ↦ ok (some q) ]
]

unfoldable pub first_named : Text → List Node → Option Node
first_named name [] = none
first_named name (x ∷ xs) = if text_eq (name_of x) name then some x else first_named name xs

abbrev rmdir_missing : Text → Act Bool
rmdir_missing f = error_write (about (codes "rmdir: failed to remove `") f no_such) >> give true

-- Whether the loop goes on.
abbrev drop_entry : Text → Position → List Node → Option Node → Act Bool
drop_entry f q xs none = rmdir_missing f
drop_entry f q xs (some x) =
    if kind_is dir x
    then (on_fs (λ s. (remove_equal x xs, s)) >>= λ ys. on_fs (set_contents q ys) >> give true)
    else (error_write (about (codes "rmdir: failed to remove '") f (codes "': Not a directory"))
        >> give false)

abbrev pub entries_at : Position → Context → Result (List Node)
entries_at p c = iterate (contents_at c.system.fs p)

abbrev rmdir_in : Text → Result (Option Position) → Act Bool
rmdir_in f (ok none) =
    error_write (about (codes "rmdir: failed to remove `") f (codes "': Directory not empty"))
    >> give true
rmdir_in f (ok (some q)) =
    ask (entries_at q) >>= λ xs. drop_entry f q xs (first_named (basename f) xs)
rmdir_in f (err e) = λ c. elim e as (λ _. Result Bool × Context) [
  | file_not_found ↦ rmdir_missing f c
  | index_error ↦ rmdir_missing f c
  | _ ↦ (err e, c)
]

unfoldable pub rmdir_one : Text → Act Bool
unfolding first_named
rmdir_one f = ask (resolve f) >>= λ pname. attempt (emptied pname) >>= rmdir_in f

-- `Command_rmdir.call`
unfoldable pub call_rmdir : List Text → Act (Unit {0})
unfolding rmdir_one
call_rmdir [] = done
call_rmdir (f ∷ fs) = rmdir_one f >>= λ on. if on then call_rmdir fs else done

abbrev touch_new : Text → ℕ → ℕ → ℕ → Act Bool
touch_new pname uid gid now =
    if is_special pname special_paths
    then (error_write (about (codes "touch: cannot touch `") pname (codes "`: Permission denied"))
        >> give false)
    else (on_fs (mkfile pname uid gid 0 33188 now) >> give true)

unfoldable pub touch_one : ℕ → ℕ → ℕ → Text → Act Bool
touch_one uid gid now f = ask (resolve f) >>= λ pname. ask (exists_at (dirname pname)) >>= λ room.
    if not room
    then (error_write
          (about (codes "touch: cannot touch `") pname (codes "`: No such file or directory"))
        >> give false)
    else (ask (exists_at pname) >>= λ there.
        if there then give true else touch_new pname uid gid now)

unfoldable pub touch_all : ℕ → ℕ → ℕ → List Text → Act (Unit {0})
unfolding touch_one
touch_all uid gid now [] = done
touch_all uid gid now (f ∷ fs) =
    touch_one uid gid now f >>= λ on. if on then touch_all uid gid now fs else done

-- `Command_touch.call`
unfoldable pub call_touch : ℕ → ℕ → ℕ → List Text → Act (Unit {0})
unfolding touch_all
call_touch uid gid now [] =
    error_write (codes "touch: missing file operand" ++ 10 ∷ [])
    >> error_write (codes "Try `touch --help' for more information." ++ 10 ∷ [])
call_touch uid gid now (f ∷ fs) = touch_all uid gid now (f ∷ fs)
