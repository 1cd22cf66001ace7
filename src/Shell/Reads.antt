-- ===== src/Shell/Reads.antt =====
-- Reading a line ends (cowrie/src/cowrie/shell/honeypot.py), since no call gives tokens back to the lexer.
use honeybee_potstore.Base.{ℕ, ◌≤◌, ◌≡◌, List, [], ◌∷◌, ◌++◌, some, Result, ok, err, length, ◌⊎◌}
use honeybee_potstore.Base.Text.{Text, Bytes}
use honeybee_potstore.Base.Dict.{text_keys}
use honeybee_potstore.Shell.Words.{Environ}
use honeybee_potstore.Shell.Subst.{Reading, Nested}
use honeybee_potstore.Shell.Run.{Shell}
use honeybee_potstore.Shell.Line.{Lines, Again, unexpected}
use honeybee_potstore.Shell.Shrinks.{Shrinks}

module _ {S : Type 0} (sub : Nested S) (depth : ℕ) (environ : Environ) where
  -- What is left where the loop ends: nothing, or it stopped at an error of the syntax, of which
  -- the terminal was told last; or something was raised.
  abbrev pub Ended : Result (List (List Text)) × Reading S → Type 0
  Ended (err e, r) = Unit
  Ended (ok pending, r) =
      (r.lexer ≡ [])
      ⊎ ((before : List Bytes) × (tok : Text) × (rest : Text) × (r.written
            ≡ before ++ unexpected tok rest ∷ []))

  abbrev Returns : Lines sub depth environ → Type 0
  Returns x = (y : Result (List (List Text)) × Reading S) × (x ≡ some y) × Ended y

  -- A round that goes on with what is left, and ends.
  abbrev GoesOn : Again sub depth environ → ℕ → Type 0
  GoesOn again k =
      (tokens : List Text) (pending : List (List Text)) (r : Reading S)
      → length r.lexer ≤ k
      → Returns (again tokens pending r)
