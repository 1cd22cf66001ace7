-- ===== src/Commands/Moves.antt =====
-- Where cd leads, and what mkdir does where it cannot (cowrie/src/cowrie/commands/fs.py).
use honeybee_potstore.Base.{
  ℕ, ◌≡◌, refl, ap, sym, ◌∙◌, true, false, List, [], ◌∷◌, Option, none, some, Result, ok, err,
  Error, ok-injective, Bool-cases, ◌⊎◌, inl, inr, file_not_found, os_error, ltb,
}
use honeybee_potstore.Base.Text.{Text, text_eq, codes}
use honeybee_potstore.Fs.Paths.{dirname, basename}
use honeybee_potstore.Fs.Normal.{Normal, resolve_path-Normal}
use honeybee_potstore.Fs.Node.{dir, Position}
use honeybee_potstore.Fs.Lookup.{getfile, get_path}
use honeybee_potstore.Fs.Changes.{
  FileSystem, Change, look, append_node, new_node, count_up, mkdir, create_dir, strip_path,
  or_enoent,
}
use honeybee_potstore.Fs.Changes
use honeybee_potstore.Commands.Context.{Act, ask, ◌>>=◌, Context, resolve, exists_at}
use honeybee_potstore.Commands.Directories.{
  cd_target, is_dir_at, cd_name, call_cd, go_to, call_mkdir, mkdir_at, mkdir_unless, unless_missing,
}

-- The working directory is the one that it was, or a normal path to a directory.
abbrev pub IsMoved : Context → Context → Type 0
IsMoved c d =
    (d.cwd ≡ c.cwd)
    ⊎ (Normal d.cwd
        × (p : Position) × (getfile c.system.depth c.system.fs true d.cwd ≡ ok (some p))
        × (is_dir_at p c ≡ true))

abbrev AtPath : Context → Text → Option Position → Type 0
AtPath c path f = Normal path × (getfile c.system.depth c.system.fs true path ≡ ok f)

found_at :
    (c : Context) (path : Text) (f : Option Position) (r : Result Text)
    (g : Text → Result (Option Position))
    → (elim r as (λ _. Result (Text × Option Position)) [
      | err e ↦ err e
      | ok p ↦ elim (g p) as (λ _. Result (Text × Option Position)) [
        | err e ↦ err e
        | ok x ↦ ok (p, x)
      ]
    ])
      ≡ ok (path, f)
    → (r ≡ ok path) × (g path ≡ ok f)
found_at c path f (err e) g h = cc
found_at c path f (ok p) g h = known (g p) refl h
  where
    known :
        (x : Result (Option Position))
        → g p ≡ x
        → (elim x as (λ _. Result (Text × Option Position)) [ err e ↦ err e | ok y ↦ ok (p, y) ])
          ≡ ok (path, f)
        → (ok p ≡ ok path) × (g path ≡ ok f)
    known (err e) q k = cc
    known (ok y) q k =
        let pair : (p, y) ≡ (path, f) = ok-injective k in
        let same : p ≡ path = ap (λ z. z.0) pair in
        (ap ok same, ap g (sym same) ∙ q ∙ ap (λ z. ok z.1) pair)

cd_target-AtPath :
    (pname path : Text) (f : Option Position) (c : Context)
    → Normal c.cwd
    → cd_target pname c ≡ ok (path, f)
    → AtPath c path f
cd_target-AtPath pname path f c n h =
    let (r, g) =
      found_at c path f (resolve pname c) (λ p. getfile c.system.depth c.system.fs true p) h in
    (resolve_path-Normal c.system.home pname c.cwd path n r, g)

go_to-IsMoved :
    (pname : Text) (r : Result (Text × Option Position)) (c : Context)
    → Normal c.cwd
    → cd_target pname c ≡ r
    → ((go_to pname r c).0 ≡ ok tt)
      × ((go_to pname r c).1.system ≡ c.system)
      × IsMoved c (go_to pname r c).1
go_to-IsMoved pname (err e) c n h = (refl, refl, inl refl)
go_to-IsMoved pname (ok (path, none)) c n h = (refl, refl, inl refl)
go_to-IsMoved pname (ok (path, some p)) c n h =
    let (m, g) = cd_target-AtPath pname path (some p) c n h in
    elim (Bool-cases (is_dir_at p c)) [
      | inl d ↦ rw (go_to, d) (refl, refl, inr (m, p, g, d))
      | inr d ↦ rw (go_to, d) (refl, refl, inl refl)
    ]

-- cd never raises and never changes the file system; from a normal working directory it stays there or goes to a
-- normal path that is a directory's, whatever its arguments are.
pub call_cd-IsMoved :
    (home : Text) (args : List Text) (c : Context)
    → Normal c.cwd
    → ((call_cd home args c).0 ≡ ok tt)
      × ((call_cd home args c).1.system ≡ c.system)
      × IsMoved c (call_cd home args c).1
unfolding call_cd
call_cd-IsMoved home args c n = elim (Bool-cases (text_eq (cd_name home args) (codes "-"))) [
  | inl q ↦ rw q (refl, refl, inl refl)
  | inr q ↦ rw q (go_to-IsMoved (cd_name home args) (cd_target (cd_name home args) c) c n refl)
]

bind-err :
    {A B : Type 0} (m : Change A) (k : A → Change B) (s t : FileSystem) (e : Error)
    → m s ≡ (err e, t)
    → Changes.◌>>=◌ m k s ≡ (err e, t)
bind-err {B = B} m k s t e q =
    ap (λ x. elim x.0 as (λ _. Result B × FileSystem) [ err d ↦ (err d, x.1) | ok a ↦ k a x.1 ]) q

then-ok :
    {A B : Type 0} (m : Act A) (k : A → Act B) (c d : Context) (a : A)
    → m c ≡ (ok a, d)
    → (m >>= k) c ≡ k a d
then-ok {B = B} m k c d a q =
    ap (λ x. elim x.0 as (λ _. Result B × Context) [ err e ↦ (err e, x.1) | ok b ↦ k b x.1 ]) q

fs_mkdir-raises :
    (pname : Text) (uid gid now : ℕ) (s : FileSystem)
    → ltb 10000 s.newcount ≡ false
    → text_eq (strip_path pname) [] ≡ false
    → get_path s.depth s.fs true (dirname (strip_path pname)) ≡ err file_not_found
    → mkdir pname uid gid 4096 16877 now s ≡ (err (os_error 2), s)
unfolding mkdir create_dir or_enoent
fs_mkdir-raises pname uid gid now s a b d =
    rw (a, b)
      (bind-err (look (λ u. or_enoent (get_path u.depth u.fs true (dirname (strip_path pname)))))
        (λ p.
          Changes.◌>>◌ (append_node p (new_node (basename pname) dir uid gid 4096 16877 now))
            count_up)
        s s (os_error 2) (ap (λ r. (or_enoent r, s)) d))

-- Where the directory of a new one cannot be found, mkdir raises OSError out of the command and writes nothing: the
-- file system does not raise the FileNotFound that the command waits for.
pub call_mkdir-raises :
    (uid gid now : ℕ) (f pname : Text) (rest : List Text) (c : Context)
    → resolve f c ≡ ok pname
    → exists_at pname c ≡ ok false
    → ltb 10000 c.system.newcount ≡ false
    → text_eq (strip_path pname) [] ≡ false
    → get_path c.system.depth c.system.fs true (dirname (strip_path pname)) ≡ err file_not_found
    → call_mkdir uid gid now (f ∷ rest) c ≡ (err (os_error 2), c)
unfolding call_mkdir
call_mkdir-raises uid gid now f pname rest c a b d e g =
    then-ok (ask (resolve f)) (mkdir_at f uid gid now) c c pname (ap (λ r. (r, c)) a)
    ∙ then-ok (ask (exists_at pname)) (mkdir_unless f uid gid now pname) c c false
        (ap (λ r. (r, c)) b)
    ∙ ap (λ made. unless_missing f made.0 (record c { system = made.1 }))
        (fs_mkdir-raises pname uid gid now c.system d e g)
