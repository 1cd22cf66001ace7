-- ===== src/Commands/Kept.antt =====
-- What rm leaves in a directory (cowrie/src/cowrie/commands/fs.py).
use mathlib.Core.List.{append_assoc}
use honeybee_potstore.Base.{
  ◌≡◌, refl, ap, sym, ◌∙◌, Bool, true, false, List, [], ◌∷◌, ◌++◌, ◌&&◌, not, Option, none, some,
  ok, keep, All, All-append, Bool-cases, inl, inr,
}
use honeybee_potstore.Base.Text.{Text, text_eq, text_eq_refl, text_eq→eq}
use honeybee_potstore.Fs.Node.{
  kind_code, Meta, dir, Node, Contents, node, raw, no_entries, entry, node_eq, contents_eq, meta_eq,
  option_eq, kind_eq,
}
use honeybee_potstore.Base.Dict.{==_refl, ==→eq}
use honeybee_potstore.Fs.Lookup.{name_of, kind_is}
use honeybee_potstore.Fs.Changes.{remove_equal}
use honeybee_potstore.Commands.Removal.{Options, rm_loop}

-- The entries of a name that rm removes: no directory, unless it is recursive.
abbrev pub is_target : Options → Text → Node → Bool
is_target o name x = text_eq (name_of x) name && not (kind_is dir x && not o.recursive)

and_true : (a b : Bool) → a && b ≡ true → (a ≡ true) × (b ≡ true)
and_true true true h = (refl, refl)
and_true true false h = cc
and_true false b h = cc

meta_eq-head :
    (m n : Meta) → meta_eq m n ≡ true → (m.name ≡ n.name) × (kind_code m.kind ≡ kind_code n.kind)
meta_eq-head m n h =
    let six =
      (and_true _ _
        (and_true _ _
          (and_true _ _
            (and_true _ _ (and_true _ _ (and_true _ _ (and_true _ _ h).0).0).0).0).0).0).0 in
    let (names, kinds) = and_true (text_eq m.name n.name) (kind_eq m.kind n.kind) six in
    (text_eq→eq m.name n.name names, ==→eq (kind_code m.kind) (kind_code n.kind) kinds)

node_eq-target :
    (o : Options) (name : Text) (x y : Node)
    → node_eq x y ≡ true
    → is_target o name x ≡ is_target o name y
unfolding node_eq
node_eq-target o name (node m c) (node n d) h =
    let (names, kinds) = meta_eq-head m n (and_true (meta_eq m n) (contents_eq c d) h).0 in
    rw (names, kinds) refl

option_eq_refl : (x : Option Text) → option_eq x x ≡ true
unfolding option_eq
option_eq_refl none = refl
option_eq_refl (some s) = text_eq_refl s

meta_eq_refl : (m : Meta) → meta_eq m m ≡ true
meta_eq_refl m =
    rw
      (
        text_eq_refl m.name,
        ==_refl (kind_code m.kind),
        ==_refl m.uid,
        ==_refl m.gid,
        ==_refl m.size,
        ==_refl m.mode,
        ==_refl m.ctime,
        option_eq_refl m.target,
        option_eq_refl m.realfile,
      )
      refl

mutual
  unfolding node_eq

  node_eq_refl : (x : Node) → node_eq x x ≡ true
  node_eq_refl (node m c) = rw (meta_eq_refl m, contents_eq_refl c) refl

  contents_eq_refl : (c : Contents) → contents_eq c c ≡ true
  contents_eq_refl (raw s) = text_eq_refl s
  contents_eq_refl no_entries = refl
  contents_eq_refl (entry m c) = rw (node_eq_refl m, contents_eq_refl c) refl

-- No entry among them is a target.
abbrev Spared : Options → Text → List Node → Type 0
Spared o name xs = All (λ x. is_target o name x ≡ false) xs

remove_equal-first :
    (o : Options) (name : Text) (i : Node) (pre is : List Node)
    → Spared o name pre
    → is_target o name i ≡ true
    → remove_equal i (pre ++ i ∷ is) ≡ ok (pre ++ is)
unfolding remove_equal
remove_equal-first o name i [] is h t = rw (node_eq_refl i) refl
remove_equal-first o name i (x ∷ pre) is h t = elim (Bool-cases (node_eq x i)) [
  | inl same ↦ let e = node_eq-target o name x i same in absurd (true_false (sym t ∙ sym e ∙ h.0))
  | inr other ↦ rw (other, remove_equal-first o name i pre is h.1 t) refl
]
  where
    true_false : true ≡ false → ⊥
    true_false q = cc

abbrev pub spare : Options → Text → Node → Bool
spare o name x = not (is_target o name x)

shift : (pre is : List Node) (i : Node) → pre ++ i ∷ is ≡ (pre ++ i ∷ []) ++ is
shift pre is i = sym (append_assoc pre (i ∷ []) is)

-- The effect on an entry that is spared, from that on those after it.
stays :
    (o : Options) (name : Text) (i : Node) (is pre : List Node)
    → Spared o name pre
    → is_target o name i ≡ false
    → ((qs : List Node)
        → Spared o name qs
        → (rm_loop o name is (qs ++ is)).0 ≡ ok (qs ++ keep (spare o name) is))
    → (rm_loop o name is (pre ++ i ∷ is)).0 ≡ ok (pre ++ i ∷ keep (spare o name) is)
stays o name i is pre h t ih =
    ap (λ xs. (rm_loop o name is xs).0) (shift pre is i)
    ∙ ih (pre ++ i ∷ []) (All-append (λ x. is_target o name x ≡ false) pre (i ∷ []) h (t, tt))
    ∙ ap ok (sym (shift pre (keep (spare o name) is) i))

rm_loop-from :
    (o : Options) (name : Text) (is pre : List Node)
    → Spared o name pre
    → (rm_loop o name is (pre ++ is)).0 ≡ ok (pre ++ keep (spare o name) is)
unfolding rm_loop
rm_loop-from o name [] pre h = refl
rm_loop-from o name (i ∷ is) pre h = elim (Bool-cases (text_eq (name_of i) name)) [
  | inl named ↦ elim (Bool-cases (kind_is dir i && not o.recursive)) [
    | inl refuses ↦
        let t : is_target o name i ≡ false = rw (named, refuses) refl in
        rw (named, refuses) (stays o name i is pre h t (rm_loop-from o name is))
    | inr goes ↦
        let t : is_target o name i ≡ true = rw (named, goes) refl in
        rw (named, goes, remove_equal-first o name i pre is h t) (rm_loop-from o name is pre h)
  ]
  | inr other ↦
      let t : is_target o name i ≡ false = rw other refl in
      rw other (stays o name i is pre h t (rm_loop-from o name is))
]

-- What rm leaves of a directory are the entries in their order without those of the name; without -r the
-- directories of the name stay too. The removal by equality never hits another entry, and never fails.
pub rm_loop-keep :
    (o : Options) (name : Text) (xs : List Node)
    → (rm_loop o name xs xs).0 ≡ ok (keep (spare o name) xs)
rm_loop-keep o name xs = rm_loop-from o name xs [] tt
