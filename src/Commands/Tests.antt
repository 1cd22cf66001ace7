-- ===== src/Commands/Tests.antt =====
-- Tests and witnesses for cowrie/src/cowrie/commands/fs.py.
use honeybee_potstore.Base.{◌≡◌, refl, true, false, [], ◌∷◌, ◌++◌, List, none, ok, err, os_error}
use honeybee_potstore.Base.Text.{Bytes, codes, text_eq, contains}
use honeybee_potstore.Auth.Strings.{split, has}
use honeybee_potstore.Fs.Paths.{
  join, resolve_path, start_pieces, follow_pieces, pop, rstrip_slashes, strip_slashes, dirname,
  head_and_base, all_slashes,
}
use honeybee_potstore.Fs.Node.{Node, node, entry, no_entries, file, dir, node_at, child, entries}
use honeybee_potstore.Fs.Changes.{new_node}
use honeybee_potstore.Fs.Lookup.{
  exists, getfile, walk, scan, enter, iterate, last_piece, get_path, walk_parts, find_part,
}
use honeybee_potstore.Commands.Context.{Context}
use honeybee_potstore.Commands.Directories.{call_cd, call_mkdir}
use honeybee_potstore.Commands.Removal.{Options, rm_loop}
use honeybee_potstore.Commands.Lines.{
  tail_application, tail_lines, write_lines, end_lines, head_application,
}
use honeybee_potstore.Commands.Tail.{tail_application-last}
use honeybee_potstore.Commands.Kept.{rm_loop-keep}
use honeybee_potstore.Commands.Moves.{IsMoved, call_cd-IsMoved, call_mkdir-raises}

abbrev two_lines : List Bytes
two_lines = codes "a" ∷ codes "b" ∷ []

tail_application-last_example :
    (tail_application 1 (end_lines two_lines)).1 ≡ end_lines (codes "b" ∷ [])
unfolding has
tail_application-last_example = tail_application-last 1 two_lines (refl, (refl, tt))

-- Asked for three lines of two, tail begins with an empty one.
blank_first : (tail_application 3 (end_lines two_lines)).1 ≡ 10 ∷ end_lines two_lines
unfolding tail_application tail_lines write_lines end_lines split
blank_first = refl

-- head ends a text of fewer lines than it is asked for with an empty one.
blank_last : head_application 10 0 (end_lines two_lines) ≡ end_lines two_lines ++ 10 ∷ []
unfolding head_application end_lines split
blank_last = refl

abbrev a_file : Node
a_file = new_node (codes "a") file 0 0 0 0 0

abbrev a_dir : Node
a_dir = new_node (codes "a") dir 0 0 0 0 0

abbrev b_file : Node
b_file = new_node (codes "b") file 0 0 0 0 0

abbrev plain : Options
plain = record { recursive = false; force = false; verbose = true }

rm_loop-keep_example :
    (rm_loop plain (codes "a") (a_dir ∷ b_file ∷ a_file ∷ []) (a_dir ∷ b_file ∷ a_file ∷ [])).0
    ≡ ok (a_dir ∷ b_file ∷ [])
unfolding text_eq
rm_loop-keep_example = rm_loop-keep plain (codes "a") (a_dir ∷ b_file ∷ a_file ∷ [])

abbrev context : Context
context = record {
  system = record {
    fs =
        node
          (record {
            name = [];
            kind = dir;
            uid = 0;
            gid = 0;
            size = 0;
            mode = 0;
            ctime = 0;
            target = none;
            realfile = none;
          })
          (entry a_dir no_entries);
    home = codes "/a";
    newcount = 0;
    depth = 2;
  };
  cwd = codes "/a";
  written = [];
}

call_cd-IsMoved_example :
    ((call_cd (codes "/a") (codes ".." ∷ []) context).0 ≡ ok tt)
    × ((call_cd (codes "/a") (codes ".." ∷ []) context).1.system ≡ context.system)
    × IsMoved context (call_cd (codes "/a") (codes ".." ∷ []) context).1
unfolding join text_eq has
call_cd-IsMoved_example =
    call_cd-IsMoved (codes "/a") (codes ".." ∷ []) context
      (codes "a" ∷ [], refl, ((refl, refl, refl, refl), tt))

call_mkdir-raises_example :
    call_mkdir 0 0 0 (codes "x/y" ∷ codes "z" ∷ []) context ≡ (err (os_error 2), context)
unfolding resolve_path start_pieces follow_pieces pop split rstrip_slashes strip_slashes join
    text_eq contains exists getfile walk scan enter iterate last_piece node_at child entries
    get_path walk_parts find_part dirname head_and_base all_slashes
call_mkdir-raises_example =
    call_mkdir-raises 0 0 0 (codes "x/y") (codes "/a/x/y") (codes "z" ∷ []) context refl refl refl
      refl refl
