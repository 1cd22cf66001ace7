-- ===== src/Fs/Node.antt =====
-- The tree of HoneyPotFilesystem (cowrie/src/cowrie/shell/fs.py). A node is the list of ten fields that the
-- file names A_NAME to A_REALFILE. A reference to a node is its position: the number of each entry on
-- the way from the root.
use honeybee_potstore.Base.{
  ℕ, zero, suc, Bool, true, false, List, [], ◌∷◌, ◌&&◌, Option, none, some, ◌==◌,
}
use honeybee_potstore.Base.Text.{Text, Bytes, text_eq}

-- T_LINK to T_FIFO.
pub data Kind : Type 0 where
  link dir file blk chr sock fifo : Kind

abbrev pub kind_code : Kind → ℕ
kind_code link = 0
kind_code dir = 1
kind_code file = 2
kind_code blk = 3
kind_code chr = 4
kind_code sock = 5
kind_code fifo = 6

abbrev pub kind_eq : Kind → Kind → Bool
kind_eq k l = kind_code k == kind_code l

-- The fields but the contents.
pub record Meta : Type 0 where
  pub name : Text
  pub kind : Kind
  pub uid : ℕ
  pub gid : ℕ
  pub size : ℕ
  pub mode : ℕ
  pub ctime : ℕ
  pub target : Option Text
  pub realfile : Option Text

-- A_CONTENTS is the list of the entries, or the bytes of a file.
mutual
  pub data Node : Type 0 where
    node : Meta → Contents → Node

  pub data Contents : Type 0 where
    raw : Bytes → Contents
    no_entries : Contents
    entry : Node → Contents → Contents

abbrev pub meta : Node → Meta
meta (node m c) = m

abbrev pub contents : Node → Contents
contents (node m c) = c

abbrev pub with_contents : Contents → Node → Node
with_contents c (node m d) = node m c

abbrev pub with_meta : (Meta → Meta) → Node → Node
with_meta f (node m c) = node (f m) c

-- The entries; bytes have none of their own.
unfoldable pub entries : Contents → List Node
entries (raw s) = []
entries no_entries = []
entries (entry n c) = n ∷ entries c

unfoldable pub from_entries : List Node → Contents
from_entries [] = no_entries
from_entries (n ∷ ns) = entry n (from_entries ns)

abbrev pub Position : Type 0
Position = List ℕ

unfoldable pub child : ℕ → Contents → Option Node
child i (raw s) = none
child i no_entries = none
child zero (entry n c) = some n
child (suc i) (entry n c) = child i c

unfoldable pub node_at : Node → Position → Option Node
node_at n [] = some n
node_at n (i ∷ is) = elim (child i (contents n)) [ none ↦ none | some m ↦ node_at m is ]

unfoldable pub change_child : ℕ → (Node → Node) → Contents → Contents
change_child i f (raw s) = raw s
change_child i f no_entries = no_entries
change_child zero f (entry n c) = entry (f n) c
change_child (suc i) f (entry n c) = entry n (change_child i f c)

-- The mutation of the node at a position.
unfoldable pub change_at : Position → (Node → Node) → Node → Node
change_at [] f n = f n
change_at (i ∷ is) f (node m c) = node m (change_child i (change_at is f) c)

unfoldable pub option_eq : Option Text → Option Text → Bool
option_eq none none = true
option_eq (some s) (some t) = text_eq s t
option_eq _ _ = false

abbrev pub meta_eq : Meta → Meta → Bool
meta_eq m n =
    text_eq m.name n.name
    && kind_eq m.kind n.kind
    && (m.uid == n.uid)
    && (m.gid == n.gid)
    && (m.size == n.size)
    && (m.mode == n.mode)
    && (m.ctime == n.ctime)
    && option_eq m.target n.target
    && option_eq m.realfile n.realfile

-- `==` of two nodes compares their fields, deeply.
unfoldable mutual
  pub node_eq : Node → Node → Bool
  node_eq (node m c) (node n d) = meta_eq m n && contents_eq c d

  pub contents_eq : Contents → Contents → Bool
  contents_eq (raw s) (raw t) = text_eq s t
  contents_eq no_entries no_entries = true
  contents_eq (entry m c) (entry n d) = node_eq m n && contents_eq c d
  contents_eq _ _ = false
