-- ===== src/Fs/Tests.antt =====
-- Paths and trees of the honeypot (cowrie/src/cowrie/shell/fs.py), on small examples.
use honeybee_potstore.Base.{◌≡◌, refl, [], ◌∷◌, none, ok}
use honeybee_potstore.Base.Text.{Text, text_eq}
use honeybee_potstore.Auth.Strings.{split, has}
use honeybee_potstore.Fs.Paths.{
  rstrip_slashes, join, pop, follow_pieces, start_pieces, resolve_path,
}
use honeybee_potstore.Fs.Node.{Node, Contents, node, dir, file}
use honeybee_potstore.Fs.Changes.{FileSystem, new_node}
use honeybee_potstore.Fs.Normal.{Piece, Normal, resolve_path-Normal, resolve_path-fixed}

abbrev a : Text
a = 97 ∷ []

abbrev b : Text
b = 98 ∷ []

a-Piece : Piece a
unfolding has text_eq
a-Piece = (refl, refl, refl, refl)

abbrev slash : Text → Text
slash s = 47 ∷ s

slash-a-Normal : Normal (slash a)
unfolding join
slash-a-Normal = (a ∷ [], refl, (a-Piece, tt))

resolve_path-Normal_example : Normal (slash b)
unfolding resolve_path start_pieces follow_pieces pop split rstrip_slashes join text_eq
resolve_path-Normal_example =
    resolve_path-Normal [] (46 ∷ 46 ∷ 47 ∷ b) (slash a) (slash b) slash-a-Normal refl

resolve_path-fixed_example : resolve_path b (slash a) [] ≡ ok (slash a)
resolve_path-fixed_example = resolve_path-fixed b [] (slash a) slash-a-Normal

abbrev top : Contents → Node
top c =
    node
      (record {
        name = [];
        kind = dir;
        uid = 0;
        gid = 0;
        size = 0;
        mode = 0;
        ctime = 0;
        target = none;
        realfile = none;
      })
      c

abbrev leaf : Node
leaf = new_node a file 0 0 0 0 0

abbrev system : Contents → FileSystem
system c = record { fs = top c; home = []; newcount = 0; depth = 2 }
