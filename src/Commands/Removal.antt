-- ===== src/Commands/Removal.antt =====
-- The loop of rm over its files (cowrie/src/cowrie/commands/fs.py), after its options are read.
use honeybee_potstore.Base.{
  Bool, List, [], ◌∷◌, ◌++◌, ◌&&◌, not, Result, ok, err, file_not_found, index_error, if◌then◌else◌,
}
use honeybee_potstore.Base.Text.{Text, text_eq, codes}
use honeybee_potstore.Auth.Strings.{split}
use honeybee_potstore.Wire.Utf8.{encode}
use honeybee_potstore.Fs.Node.{dir, Node, Position}
use honeybee_potstore.Fs.Lookup.{name_of, kind_is, last_piece}
use honeybee_potstore.Fs.Changes.{remove_equal, set_contents}
use honeybee_potstore.Shell.Stages.{Write, to_out, to_err}
use honeybee_potstore.Commands.Context.{
  Context, Act, ◌>>=◌, ◌>>◌, done, on_fs, attempt, ask, say, error_write, resolve,
}
use honeybee_potstore.Commands.Directories.{about, no_such, parent_of, path_at, entries_at}

pub record Options : Type 0 where
  pub recursive : Bool
  pub force : Bool
  pub verbose : Bool

-- What is said of an entry that goes.
abbrev removed_message : Options → Node → List Write
removed_message o x =
    if not o.verbose
    then []
    else if kind_is dir x
    then to_out (encode (about (codes "removed directory '") (name_of x) (codes "'"))) ∷ []
    else to_out (encode (about (codes "removed '") (name_of x) (codes "'"))) ∷ []

abbrev refused : Node → Write
refused x =
    to_err (encode (about (codes "rm: cannot remove `") (name_of x) (codes "': Is a directory")))

abbrev pub and_write :
    List Write → Result (List Node) × List Write → Result (List Node) × List Write
and_write ws (r, vs) = (r, ws ++ vs)

-- The loop over a copy of the directory; `remove` takes the first entry of the directory that is equal.
unfoldable pub rm_loop : Options → Text → List Node → List Node → Result (List Node) × List Write
rm_loop o name [] xs = (ok xs, [])
rm_loop o name (i ∷ is) xs =
    if text_eq (name_of i) name
    then (if kind_is dir i && not o.recursive
        then and_write (refused i ∷ []) (rm_loop o name is xs)
        else elim (remove_equal i xs) [
          | err e ↦ (err e, [])
          | ok ys ↦ and_write (removed_message o i) (rm_loop o name is ys)
        ])
    else rm_loop o name is xs

abbrev say_all : List Write → Act (Unit {0})
say_all [] = done
say_all (w ∷ ws) = say w >> say_all ws

abbrev keep_rest : Position → Result (List Node) × List Write → Act (Unit {0})
keep_rest q (err e, ws) = λ c. (err e, c)
keep_rest q (ok ys, ws) = say_all ws >> on_fs (set_contents q ys)

-- The directory of a path, if the path exists.
abbrev pub directory_for : Text → Context → Result Position
directory_for pname c = elim (path_at (parent_of pname) c) [
  | err e ↦ err e
  | ok q ↦ elim (path_at pname c) [ err e ↦ err e | ok p ↦ ok q ]
]

abbrev rm_missing : Options → Text → Act (Unit {0})
rm_missing o f =
    if o.force then done else error_write (about (codes "rm: cannot remove `") f no_such)

abbrev rm_in : Options → Text → Text → Result Position → Act (Unit {0})
rm_in o f pname (ok q) =
    ask (entries_at q) >>= λ xs. keep_rest q (rm_loop o (last_piece (split 47 pname)) xs xs)
rm_in o f pname (err e) = λ c. elim e as (λ _. Result (Unit {0}) × Context) [
  | file_not_found ↦ rm_missing o f c
  | index_error ↦ rm_missing o f c
  | _ ↦ (err e, c)
]

unfoldable pub rm_one : Options → Text → Act (Unit {0})
unfolding rm_loop
rm_one o f = ask (resolve f) >>= λ pname. attempt (directory_for pname) >>= rm_in o f pname

unfoldable pub rm_files : Options → List Text → Act (Unit {0})
unfolding rm_one
rm_files o [] = done
rm_files o (f ∷ fs) = rm_one o f >> rm_files o fs
