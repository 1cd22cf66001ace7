-- ===== src/Shell/Words.antt =====
-- What HoneyPotShell.runCommand (cowrie/src/cowrie/shell/honeypot.py) makes of the words of a command: the assignments
-- before it, and the commands between pipes.
use honeybee_potstore.Base.{List, [], ◌∷◌, ℕ, if◌then◌else◌, ◌==◌}
use honeybee_potstore.Base.Text.{Text, text_eq}
use honeybee_potstore.Base.Dict.{Dict, insert, text_keys}
use honeybee_potstore.Auth.Strings.{has}

-- `s.split(sep, 1)`, where the separator occurs.
unfoldable pub split_once : ℕ → Text → Text × Text
split_once sep [] = ([], [])
split_once sep (c ∷ s) =
    let rest = split_once sep s in if c == sep then ([], s) else (c ∷ rest.0, rest.1)

abbrev pub Environ : Type 0
Environ = Dict Text Text

-- The words with `=` before the command.
unfoldable pub assignments : Environ → List Text → Environ × List Text
assignments env [] = (env, [])
assignments env (piece ∷ rest) =
    let assigned = split_once 61 piece in
    let more = assignments (insert assigned.0 assigned.1 env) rest in
    if has 61 piece then more else (env, piece ∷ rest)

abbrev pub pipe : Text
pipe = 124 ∷ []

abbrev pub onto_group : Text → List (List Text) → List (List Text)
onto_group w [] = (w ∷ []) ∷ []
onto_group w (ws ∷ rest) = (w ∷ ws) ∷ rest

-- The slices between the indices of the pipes.
unfoldable pub split_pipes : List Text → List (List Text)
split_pipes [] = [] ∷ []
split_pipes (w ∷ ws) =
    let rest = split_pipes ws in if text_eq w pipe then [] ∷ rest else onto_group w rest

pub record Cmd : Type 0 where
  pub command : Text
  pub rargs : List Text

-- The groups after a pipe: an empty one is skipped.
unfoldable pub piped : List (List Text) → List Cmd
piped [] = []
piped ([] ∷ groups) = piped groups
piped ((w ∷ ws) ∷ groups) = record { command = w; rargs = ws } ∷ piped groups

unfoldable pub first_cmd : Text → List (List Text) → List Cmd
unfolding piped
first_cmd w [] = []
first_cmd w (ws ∷ groups) = record { command = w; rargs = ws } ∷ piped groups

-- `cmd_array`, of the command's name and the words after it.
unfoldable pub cmd_array : Text → List Text → List Cmd
unfolding first_cmd split_pipes
cmd_array w ws = first_cmd w (split_pipes ws)
