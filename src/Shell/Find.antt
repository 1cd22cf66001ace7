-- ===== src/Shell/Find.antt =====
-- HoneyPotBaseProtocol.getCommand (cowrie/src/cowrie/shell/protocol.py): which command a name stands for. The commands
-- of the honeypot are a dict, and the texts of `txtcmds` a parameter. `strip` knows the white space of ASCII.
use honeybee_potstore.Base.{
  ℕ, Bool, true, false, List, [], ◌∷◌, ◌++◌, ◌||◌, Option, none, some, Result, ok, err,
  file_not_found, ◌>>=◌, if◌then◌else◌, ◌==◌,
}
use honeybee_potstore.Base.Text.{Text, Bytes}
use honeybee_potstore.Base.Dict.{Dict, lookup, text_keys}
use honeybee_potstore.Auth.Strings.{strip}
use honeybee_potstore.Fs.Paths.{resolve_path}
use honeybee_potstore.Fs.Node.{Node}
use honeybee_potstore.Fs.Lookup.{exists}

-- A class of the honeypot, or `txtcmd`, which writes a text.
pub data Command (C : Type 0) : Type 0 where
  builtin : C → Command C
  txtcmd : (txt : Bytes) → Command C

pub record Commands (C : Type 0) : Type 0 where
  pub commands : Dict Text C
  -- the file of `txtcmds` for a path, on_opened and read
  pub read_txtcmd : Text → Result Bytes

-- What the look-up reads of the honeypot's files.
pub record Files : Type 0 where
  pub depth : ℕ
  pub root : Node
  pub home : Text
  pub cwd : Text

module _ {C : Type 0} (k : Commands C) (f : Files) where
  -- The candidates, in the order of PATH; an entry that does not resolve raises.
  unfoldable pub candidates : Text → List Text → Result (List Text)
  candidates cmd [] = ok []
  candidates cmd (x ∷ xs) = resolve_path f.home x f.cwd >>= λ dir.
      candidates cmd xs >>= λ rest. ok ((dir ++ 47 ∷ cmd) ∷ rest)

  unfoldable pub first_existing : List Text → Result (Option Text)
  first_existing [] = ok none
  first_existing (i ∷ is) =
      exists f.depth f.root i >>= λ b. if b then ok (some i) else first_existing is

  -- `cmd[0] in (".", "/")`
  abbrev pub is_path : Text → Bool
  is_path [] = false
  is_path (c ∷ s) = (c == 46) || (c == 47)

  unfoldable pub find_path : Text → List Text → Result (Option Text)
  unfolding candidates first_existing
  find_path cmd paths =
      if is_path cmd
      then (resolve_path f.home cmd f.cwd >>= λ path.
          exists f.depth f.root path >>= λ b. ok (if b then some path else none))
      else (candidates cmd paths >>= first_existing)

  abbrev pub builtin_or_none : Option C → Option (Command C)
  builtin_or_none none = none
  builtin_or_none (some c) = some (builtin c)

  -- Only FileNotFoundError is caught; a directory, for one, raises another error.
  abbrev pub on_opened : Result Bytes → Option C → Result (Option (Command C))
  on_opened (ok txt) b = ok (some (txtcmd txt))
  on_opened (err file_not_found) b = ok (builtin_or_none b)
  on_opened (err e) b = err e

  abbrev pub at_path : Option Text → Result (Option (Command C))
  at_path none = ok none
  at_path (some path) = on_opened (k.read_txtcmd path) (lookup path k.commands)

  abbrev pub by_name : Text → List Text → Option C → Result (Option (Command C))
  by_name cmd paths (some c) = ok (some (builtin c))
  by_name cmd paths none = find_path cmd paths >>= at_path

  abbrev pub is_blank : Text → Bool
  is_blank [] = true
  is_blank (c ∷ s) = false

  unfoldable pub get_command : Text → List Text → Result (Option (Command C))
  unfolding find_path
  get_command cmd paths =
      if is_blank (strip cmd) then ok none else by_name cmd paths (lookup cmd k.commands)
