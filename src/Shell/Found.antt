-- ===== src/Shell/Found.antt =====
-- What getCommand (cowrie/src/cowrie/shell/protocol.py) finds.
use honeybee_potstore.Base.{
  Bool, true, false, List, [], ◌∷◌, ◌≡◌, refl, ap, ◌∙◌, Option, none, some, Result, ok, err, ◌>>=◌,
  if◌then◌else◌, is_some, ◌⊎◌, inl, inr, Bool-cases,
}
use honeybee_potstore.Base.Text.{Text}
use honeybee_potstore.Base.Dict.{lookup, text_keys}
use honeybee_potstore.Auth.Strings.{strip}
use honeybee_potstore.Fs.Paths.{resolve_path}
use honeybee_potstore.Fs.Lookup.{exists}
use honeybee_potstore.Shell.Find.{
  Command, Commands, Files, candidates, first_existing, find_path, is_path, at_path, by_name,
  is_blank, get_command,
}

bind-ok :
    {A B : Type 0} (r : Result A) (next : A → Result B) (b : B)
    → (r >>= next) ≡ ok b
    → (a : A) × (r ≡ ok a) × (next a ≡ ok b)
bind-ok (err e) next b h = cc
bind-ok (ok a) next b h = (a, refl, h)

module _ {C : Type 0} (k : Commands C) (f : Files) where
  first_existing-exists :
      (is : List Text) (path : Text)
      → first_existing k f is ≡ ok (some path)
      → exists f.depth f.root path ≡ ok true
  unfolding first_existing
  first_existing-exists [] path h = cc
  first_existing-exists (i ∷ is) path h =
      let (b, q, g) = bind-ok (exists f.depth f.root i) _ _ h in
      elim (Bool-cases b) [
        | inl there ↦
            let g' : ok (some i) ≡ ok (some path) = rw there at g in
            let same : i ≡ path = cc in rw (← same) (q ∙ ap ok there)
        | inr absent ↦ first_existing-exists is path (rw absent at g)
      ]

  checked :
      (p path : Text) (b : Bool)
      → exists f.depth f.root p ≡ ok b
      → ok (if b then some p else none) ≡ ok (some path)
      → exists f.depth f.root path ≡ ok true
  checked p path false q h = cc
  checked p path true q h = let same : p ≡ path = cc in rw (← same) q

  find_path-exists :
      (cmd path : Text) (paths : List Text)
      → find_path k f cmd paths ≡ ok (some path)
      → exists f.depth f.root path ≡ ok true
  unfolding find_path
  find_path-exists cmd path paths h = elim (Bool-cases (is_path k f cmd)) [
    | inl direct ↦
        let (p, q, g) =
          bind-ok (resolve_path f.home cmd f.cwd)
            (λ p. exists f.depth f.root p >>= λ b. ok (if b then some p else none)) (some path)
            (rw direct at h) in
        let (b, r, g2) =
          bind-ok (exists f.depth f.root p) (λ b. ok (if b then some p else none)) (some path) g in
        checked p path b r g2
    | inr bare ↦
        let (cs, q, g) =
          bind-ok (candidates k f cmd paths) (first_existing k f) (some path) (rw bare at h) in
        first_existing-exists cs path g
  ]

  at_path-some :
      (x : Option Text) (c : Command C)
      → at_path k f x ≡ ok (some c)
      → (path : Text) × (x ≡ some path)
  at_path-some none c h = cc
  at_path-some (some path) c h = (path, refl)

  by_name-some :
      (cmd : Text) (paths : List Text) (x : Option C) (c : Command C)
      → by_name k f cmd paths x ≡ ok (some c)
      → is_some x ≡ true ⊎ ((path : Text) × (find_path k f cmd paths ≡ ok (some path)))
  by_name-some cmd paths (some b) c h = inl refl
  by_name-some cmd paths none c h =
      let (x, q, g) = bind-ok (find_path k f cmd paths) (at_path k f) (some c) h in
      let (path, p) = at_path-some x c g in inr (path, q ∙ ap ok p)

  -- A name that stands for a command is not blank, and it is in the dict of commands or leads to a path that
  -- exists in the file system.
  pub get_command-exists :
      (cmd : Text) (paths : List Text) (c : Command C)
      → get_command k f cmd paths ≡ ok (some c)
      → (is_blank k f (strip cmd) ≡ false)
        × ((is_some (lookup cmd k.commands) ≡ true)
            ⊎ ((path : Text) × (find_path k f cmd paths ≡ ok (some path))
                × (exists f.depth f.root path ≡ ok true)))
  unfolding get_command
  get_command-exists cmd paths c h = elim (Bool-cases (is_blank k f (strip cmd))) [
    | inl blank ↦ cc (rw blank at h)
    | inr word ↦ (
      word,
      elim (by_name-some cmd paths (lookup cmd k.commands) c (rw word at h)) [
        | inl known ↦ inl known
        | inr (path, q) ↦ inr (path, q, find_path-exists cmd path paths q)
      ],
    )
  ]
