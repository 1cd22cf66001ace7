-- ===== src/Shell/Subst.antt =====
-- Subshells and command substitution (cowrie/src/cowrie/shell/honeypot.py). The lexer is what is left of its tokens;
-- the output of a command line that a nested shell runs, and the tokens of a text, are parameters.
use honeybee_potstore.Base.{
  ℕ, Bool, false, List, [], ◌∷◌, ◌++◌, ◌&&◌, ◌||◌, Result, ok, err, Error, value_error,
  if◌then◌else◌, ◌==◌, drop,
}
use honeybee_potstore.Base.Text.{Text, Bytes, text_eq, codes}
use honeybee_potstore.Auth.Strings.{has}
use honeybee_potstore.Fs.Changes.{starts_with}

-- What `get_token` gives: a token, or ValueError at a quotation that is not closed. No token is left
-- where the list is empty.
pub data Lexeme : Type 0 where
  token : Text → Lexeme
  no_closing_quotation : Lexeme

-- `machine` is the rest of the honeypot, which the commands of a nested shell change.
pub record Reading (S : Type 0) : Type 0 where
  pub lexer : List Lexeme
  pub written : List Bytes
  pub machine : S

-- A call that reads tokens, runs commands and writes to the terminal.
abbrev pub Read : Type 0 → Type 0 → Type 0
Read S A = Reading S → Result A × Reading S

infixl 5 ◌>>=◌
abbrev pub ◌>>=◌ : {S A B : Type 0} → Read S A → (A → Read S B) → Read S B
m >>= next = λ r. elim (m r).0 [ err e ↦ (err e, (m r).1) | ok a ↦ next a (m r).1 ]

abbrev pub give : {S A : Type 0} → A → Read S A
give a r = (ok a, r)

abbrev pub fail : {S A : Type 0} → Error → Read S A
fail e r = (err e, r)

abbrev pub write : {S : Type 0} → Bytes → Read S (Unit {0})
write bs r = (ok tt, record r { written = r.written ++ bs ∷ [] })

-- `"$(" in s`
unfoldable pub has_dollar_paren : Text → Bool
has_dollar_paren [] = false
has_dollar_paren (c ∷ []) = false
has_dollar_paren (c ∷ d ∷ s) = ((c == 36) && (d == 40)) || has_dollar_paren (d ∷ s)

unfoldable pub substitutes : Text → Bool
unfolding has_dollar_paren
substitutes s = has_dollar_paren s || has 96 s

-- What stands before the first `$(`, and the rest with it.
unfoldable pub split_dollar : Text → Text × Text
split_dollar [] = ([], [])
split_dollar (c ∷ []) = (c ∷ [], [])
split_dollar (c ∷ d ∷ s) =
    let rest = split_dollar (d ∷ s) in
    if (c == 36) && (d == 40) then ([], c ∷ d ∷ s) else (c ∷ rest.0, rest.1)

unfoldable pub split_tick : Text → Text × Text
split_tick [] = ([], [])
split_tick (c ∷ s) =
    let rest = split_tick s in if c == 96 then ([], c ∷ s) else (c ∷ rest.0, rest.1)

-- `" ".join(tokens)`
unfoldable pub join_spaces : List Text → Text
join_spaces [] = []
join_spaces (t ∷ []) = t
join_spaces (t ∷ u ∷ ts) = t ++ 32 ∷ join_spaces (u ∷ ts)

abbrev pub is_separator : Text → Bool
is_separator t = text_eq t (codes ";") || text_eq t (codes "&&") || text_eq t (codes "||")

-- The nested shell: the tokens of a text, and the output of a line.
pub record Nested (S : Type 0) : Type 0 where
  pub lex : Text → List Lexeme
  pub run_line : Text → S → Result Text × S

-- `cmd_expr[k:-1]`
abbrev pub but_last : Text → Text
but_last [] = []
but_last (c ∷ []) = []
but_last (c ∷ d ∷ s) = c ∷ but_last (d ∷ s)

abbrev pub unless_newline : ℕ → Text → Text
unless_newline c [] = if c == 10 then [] else c ∷ []
unless_newline c (d ∷ s) = c ∷ d ∷ s

-- `rstrip("\n")`
unfoldable pub rstrip_newlines : Text → Text
rstrip_newlines [] = []
rstrip_newlines (c ∷ s) = unless_newline c (rstrip_newlines s)

module _ {S : Type 0} (sub : Nested S) where
  -- `_execute_single_command_with_redirect`
  abbrev pub run_single : Text → Read S Text
  run_single cmd r = let ran = sub.run_line cmd r.machine in (ran.0, record r { machine = ran.1 })

  -- A command of the subshell, if there are tokens for one.
  abbrev pub run_tokens : List Text → Text → Read S Text
  run_tokens [] acc = give acc
  run_tokens (t ∷ ts) acc = run_single (join_spaces (t ∷ ts)) >>= λ output. give (acc ++ output)

  unfoldable pub full_output : List Lexeme → List Text → Text → Read S Text
  unfolding join_spaces
  full_output [] current acc = run_tokens current acc
  full_output (no_closing_quotation ∷ ls) current acc = fail value_error
  full_output (token t ∷ ls) current acc =
      let on = full_output ls (current ++ t ∷ []) acc in
      if is_separator t then (run_tokens current acc >>= full_output ls []) else on

  -- `run_subshell_command`: of `(…)` all the output, of `$(…)` and `…` in backticks without its last newlines.
  unfoldable pub run_subshell_command : Text → Read S Text
  unfolding full_output rstrip_newlines
  run_subshell_command [] =
      full_output (sub.lex []) [] [] >>= λ output. give (rstrip_newlines output)
  run_subshell_command (c ∷ s) =
      if c == 40
      then full_output (sub.lex (but_last s)) [] []
      else let cmd = if starts_with (codes "$(") (c ∷ s) then but_last (drop 1 s) else but_last s in
        full_output (sub.lex cmd) [] [] >>= λ output. give (rstrip_newlines output)
