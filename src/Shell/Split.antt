-- ===== src/Shell/Split.antt =====
-- The words of a pipeline, written with pipes and split again by runCommand (cowrie/src/cowrie/shell/honeypot.py).
use honeybee_potstore.Base.{false, List, [], ◌∷◌, ◌++◌, ◌≡◌, refl, ap, All}
use honeybee_potstore.Base.Text.{Text, text_eq, text_eq_refl}
use honeybee_potstore.Base.Dict.{text_keys}
use honeybee_potstore.Shell.Words.{Cmd, pipe, split_pipes, piped, first_cmd, cmd_array}

-- The words after the name of the first command.
abbrev pub spell_rest : List Cmd → List Text
spell_rest [] = []
spell_rest (c ∷ cs) = pipe ∷ c.command ∷ (c.rargs ++ spell_rest cs)

abbrev pub IsWord : Text → Type 0
IsWord w = text_eq w pipe ≡ false

abbrev pub IsPlain : Cmd → Type 0
IsPlain c = IsWord c.command × All IsWord c.rargs

abbrev groups : List Cmd → List (List Text)
groups [] = []
groups (c ∷ cs) = (c.command ∷ c.rargs) ∷ groups cs

split_pipes-spell :
    (cs : List Cmd) (ws : List Text)
    → All IsPlain cs
    → All IsWord ws
    → split_pipes (ws ++ spell_rest cs) ≡ ws ∷ groups cs
unfolding split_pipes
split_pipes-spell [] [] p h = refl
split_pipes-spell (c ∷ cs) [] p h =
    rw (text_eq_refl pipe)
      (ap (◌∷◌ []) (split_pipes-spell cs (c.command ∷ c.rargs) p.1 (p.0.0, p.0.1)))
split_pipes-spell cs (w ∷ ws) p h = rw (h.0, split_pipes-spell cs ws p h.1) refl

piped-groups : (cs : List Cmd) → piped (groups cs) ≡ cs
unfolding piped
piped-groups [] = refl
piped-groups (c ∷ cs) = ap (◌∷◌ c) (piped-groups cs)

-- Commands that are written one after the other, with a pipe between each two, are read back as they
-- were, if none of their words is a pipe.
pub cmd_array-spell :
    (c : Cmd) (cs : List Cmd)
    → All IsPlain (c ∷ cs)
    → cmd_array c.command (c.rargs ++ spell_rest cs) ≡ c ∷ cs
unfolding cmd_array first_cmd
cmd_array-spell c cs p = rw (split_pipes-spell cs c.rargs p.1 p.0.1, piped-groups cs) refl
