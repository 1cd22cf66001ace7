-- ===== src/Shell/Line.antt =====
-- HoneyPotShell.lineReceived (cowrie/src/cowrie/shell/honeypot.py): the tokens of a line, made into pending commands.
use honeybee_potstore.Base.{
  ℕ, zero, suc, ◌-◌, take, Bool, true, false, List, [], ◌∷◌, ◌++◌, ◌&&◌, ◌||◌, not, Option, none,
  some, Result, ok, err, index_error, value_error, if◌then◌else◌, ◌==◌, leb, length, drop, map,
}
use honeybee_potstore.Base.Text.{Text, Bytes, text_eq, codes}
use honeybee_potstore.Base.Dict.{lookup, text_keys}
use honeybee_potstore.Wire.Utf8.{encode}
use honeybee_potstore.Fs.Changes.{starts_with}
use honeybee_potstore.Shell.Words.{Environ}
use honeybee_potstore.Shell.Subst.{
  Lexeme, token, no_closing_quotation, Reading, Read, ◌>>=◌, write, substitutes, join_spaces,
  Nested, run_subshell_command,
}
use honeybee_potstore.Shell.Scan.{
  Scanned, found, no_token, past_end, bad_token, do_command_substitution,
}
use honeybee_potstore.Shell.Run.{
  Shell, World, Outside, wrote, emit, run_command, perform, show_prompt, is_empty,
}

abbrev pub onto_tokens : Text → Option (List Text) × List Lexeme → Option (List Text) × List Lexeme
onto_tokens t (none, ls) = (none, ls)
onto_tokens t (some ts, ls) = (some (t ∷ ts), ls)

-- The tokens of a subshell that follows a lone `(`, up to its `)`, where `opened` others are open;
-- `none` for an error of the lexer.
unfoldable pub subshell_tokens : List Lexeme → ℕ → Option (List Text) × List Lexeme
subshell_tokens [] opened = (some [], [])
subshell_tokens (no_closing_quotation ∷ ls) opened = (none, ls)
subshell_tokens (token t ∷ ls) opened =
    let closed = onto_tokens t (subshell_tokens ls (opened - 1)) in
    let nested = onto_tokens t (subshell_tokens ls (suc opened)) in
    let on = onto_tokens t (subshell_tokens ls opened) in
    if text_eq t (codes ")")
    then (if opened == 0 then (some [], ls) else closed)
    else if text_eq t (codes "(")
    then nested
    else on

-- The end of a subshell that a token starts with `(`.
unfoldable pub scan_group : List Lexeme → Text → Text → ℕ → Scanned × List Lexeme
scan_group ls [] before opened = (past_end, ls)
scan_group [] (c ∷ []) before opened =
    if c == 41
    then (if opened == 0 then (found (before ++ c ∷ []) [], []) else (past_end, []))
    else if c == 40
    then (past_end, [])
    else (no_token, [])
scan_group (no_closing_quotation ∷ ls) (c ∷ []) before opened =
    if c == 41
    then (
      (if opened == 0 then found (before ++ c ∷ []) [] else past_end),
      no_closing_quotation ∷ ls,
    )
    else if c == 40
    then (past_end, no_closing_quotation ∷ ls)
    else (bad_token, ls)
scan_group (token t ∷ ls) (c ∷ []) before opened =
    let more = scan_group ls (32 ∷ t) (before ++ c ∷ []) opened in
    if c == 41
    then ((if opened == 0 then found (before ++ c ∷ []) [] else past_end), token t ∷ ls)
    else if c == 40
    then (past_end, token t ∷ ls)
    else more
scan_group ls (c ∷ d ∷ s) before opened =
    let closed = scan_group ls (d ∷ s) (before ++ c ∷ []) (opened - 1) in
    let nested = scan_group ls (d ∷ s) (before ++ c ∷ []) (suc opened) in
    let on = scan_group ls (d ∷ s) (before ++ c ∷ []) opened in
    if c == 41
    then (if opened == 0 then (found (before ++ c ∷ []) (d ∷ s), ls) else closed)
    else if c == 40
    then nested
    else on

-- `[_a-zA-Z0-9]`
abbrev is_name_char : ℕ → Bool
is_name_char c =
    (c == 95) || (leb 97 c && leb c 122) || (leb 65 c && leb c 90) || (leb 48 c && leb c 57)

-- The `$` of a pattern matches before a newline at the end too.
abbrev at_end : Text → Bool
at_end [] = true
at_end (c ∷ []) = c == 10
at_end (c ∷ d ∷ s) = false

abbrev onto_name : ℕ → Option Text → Option Text
onto_name c none = none
onto_name c (some s) = some (c ∷ s)

-- The characters of a name up to the end, or to a brace at the end.
unfoldable name_to_end : Bool → Text → Option Text
name_to_end braced [] = if braced then none else some []
name_to_end braced (c ∷ s) =
    let rest = onto_name c (name_to_end braced s) in
    if is_name_char c
    then rest
    else if braced
    then (if (c == 125) && at_end s then some [] else none)
    else (if at_end (c ∷ s) then some [] else none)

abbrev not_empty : Option Text → Option Text
not_empty (some (c ∷ s)) = some (c ∷ s)
not_empty _ = none

-- The variable that `${name}` or `$name` stands for, if a token has that form.
unfoldable pub variable : Text → Option Text
unfolding name_to_end
variable (c ∷ d ∷ s) =
    if d == 123 then not_empty (name_to_end true s) else not_empty (name_to_end false (d ∷ s))
variable s = none

abbrev pub opens_group : Text → Bool
opens_group tok =
    text_eq tok (codes "(") || (starts_with (codes "(") tok && not (starts_with (codes "$(") tok))

abbrev pub group : List Text → List (List Text)
group [] = []
group (t ∷ ts) = (t ∷ ts) ∷ []

-- The message for a separator ends in a newline, that for a parenthesis in a backslash and an `n`.
abbrev pub unexpected : Text → Text → Bytes
unexpected tok end = encode (codes "-bash: syntax error near unexpected token `" ++ tok ++ 39 ∷ end)

module _ {S : Type 0} (sub : Nested S) (depth : ℕ) (environ : Environ) where
  -- The pending commands after the loop, or what it raised; `none` where the fuel is out.
  abbrev pub Lines : Type 0
  Lines = Option (Result (List (List Text)) × Reading S)

  -- Prints the output of the tokens of a subshell.
  abbrev pub group_from_lexer : Option (List Text) × List Lexeme → Read S (Unit {0})
  group_from_lexer (none, ls) r = (err value_error, record r { lexer = ls })
  group_from_lexer (some ts, ls) r =
      (run_subshell_command sub (40 ∷ (join_spaces ts ++ 41 ∷ [])) >>= λ output.
      write (encode output))
        (record r { lexer = ls })

  -- What stands after the end of a subshell in its token is dropped.
  abbrev pub group_from_token : Scanned × List Lexeme → Read S (Unit {0})
  group_from_token (found cmd_expr remainder, ls) r =
      (run_subshell_command sub cmd_expr >>= λ output. write (encode output))
        (record r { lexer = ls })
  group_from_token (no_token, ls) r = (ok tt, record r { lexer = ls })
  group_from_token (past_end, ls) r = (err index_error, record r { lexer = ls })
  group_from_token (bad_token, ls) r = (err value_error, record r { lexer = ls })

  unfoldable pub do_subshell : Text → Read S (Unit {0})
  unfolding subshell_tokens scan_group
  do_subshell tok = λ r.
      if text_eq tok (codes "(")
      then group_from_lexer (subshell_tokens r.lexer 0) r
      else group_from_token (scan_group r.lexer (drop 1 tok) (take 1 tok) 0) r

  abbrev pub Again : Type 0
  Again = List Text → List (List Text) → Reading S → Lines

  abbrev pub after : {A : Type 0} → (A → Reading S → Lines) → Result A × Reading S → Lines
  after next (err e, r) = some (err e, r)
  after next (ok a, r) = next a r

  -- A variable that is not set drops the token, and a token of another form stays.
  abbrev pub on_variable :
      Again → Text → List Text → List (List Text) → Option Text → Reading S → Lines
  on_variable again tok tokens pending none r = again (tokens ++ tok ∷ []) pending r
  on_variable again tok tokens pending (some name) r = elim (lookup name environ) [
    | none ↦ again tokens pending r
    | some value ↦ again (tokens ++ value ∷ []) pending r
  ]

  -- One token, in the order of the tests of the loop.
  unfoldable pub on_token : Again → Text → List Text → List (List Text) → Reading S → Lines
  unfolding do_subshell variable
  on_token again tok tokens pending r =
      if text_eq tok (codes "&&") || text_eq tok (codes "||")
      then (if is_empty tokens
          then some (ok pending, (write (unexpected tok (10 ∷ [])) r).1)
          else again [] (pending ++ tokens ∷ []) r)
      else if text_eq tok (codes ";")
      then again [] (pending ++ group tokens) r
      else if text_eq tok (codes "$?")
      then again (tokens ++ codes "0" ∷ []) pending r
      else if opens_group tok
      then (if is_empty tokens
          then after (λ u. again tokens pending) (do_subshell tok r)
          else some (ok pending, (write (unexpected tok (codes "\\n")) r).1))
      else if substitutes tok
      then after (λ t. again (tokens ++ t ∷ []) pending) (do_command_substitution sub depth tok r)
      else if starts_with (codes "$") tok
      then on_variable again tok tokens pending (variable tok) r
      else again (tokens ++ tok ∷ []) pending r

  abbrev pub on_lexer : Again → List Text → List (List Text) → List Lexeme → Reading S → Lines
  on_lexer again tokens pending [] r = some (ok (pending ++ group tokens), r)
  on_lexer again tokens pending (no_closing_quotation ∷ ls) r =
      some (err value_error, record r { lexer = ls })
  on_lexer again tokens pending (token tok ∷ ls) r =
      on_token again tok tokens pending (record r { lexer = ls })

  -- The loop, one token a round.
  unfoldable pub read_tokens : ℕ → Again
  unfolding on_token
  read_tokens zero tokens pending r = none
  read_tokens (suc n) tokens pending r = on_lexer (read_tokens n) tokens pending r.lexer r

module _ {C S : Type 0} (sh : Shell) (o : Outside C S) (sub : Nested S) (depth : ℕ) where
  abbrev pub read_into : Reading S → List (List Text) → World C S → World C S
  read_into r pending w = record w {
    cmdpending = pending;
    machine = r.machine;
    events = w.events ++ map wrote r.written;
  }

  -- An exception drops all that is pending.
  abbrev pub on_line :
      Lines sub depth sh.environ → World C S → Option (Result (Unit {0}) × World C S)
  on_line none w = none
  on_line (some (err e, r)) w = some (
      show_prompt sh o (
        emit sh o (wrote (codes "-bash: syntax error: unexpected end of file" ++ 10 ∷ []) ∷ [])
          (read_into r [] w)))
  on_line (some (ok pending, r)) w = some (
      if is_empty pending
      then show_prompt sh o (read_into r pending w)
      else perform sh o depth run_command (read_into r pending w))

  -- `lineReceived`, with a round for each token of the line and one for its end.
  unfoldable pub line_received : Text → World C S → Option (Result (Unit {0}) × World C S)
  unfolding read_tokens
  line_received line w =
      let lexer = sub.lex line in
      on_line
        (read_tokens sub depth sh.environ (suc (length lexer)) [] w.cmdpending
          (record { lexer = lexer; written = []; machine = w.machine }))
        w
