-- ===== src/Shell/Scan.antt =====
-- The search for the end of a substitution or a subshell (cowrie/src/cowrie/shell/honeypot.py), which goes on into the
-- tokens that follow, and what is done with it.
use honeybee_potstore.Base.{
  ℕ, zero, suc, ◌-◌, take, Bool, false, List, [], ◌∷◌, ◌++◌, ◌&&◌, ◌||◌, Option, none, some, ok,
  err, index_error, value_error, recursion_error, if◌then◌else◌, ◌==◌, drop,
}
use honeybee_potstore.Base.Text.{Text}
use honeybee_potstore.Wire.Utf8.{encode}
use honeybee_potstore.Auth.Strings.{has}
use honeybee_potstore.Shell.Subst.{
  Lexeme, token, no_closing_quotation, Read, ◌>>=◌, give, fail, write, has_dollar_paren,
  substitutes, split_dollar, split_tick, Nested, run_subshell_command,
}

-- How the search ends: with the expression and what stands after it, or with no token left, an index
-- past the end, or the error of the lexer.
pub data Scanned : Type 0 where
  found : (cmd_expr remainder : Text) → Scanned
  no_token past_end bad_token : Scanned

abbrev pub is_close : ℕ → Bool
is_close c = (c == 41) || (c == 96)

-- `before` and `rest` are `cmd_expr[:pos]` and `cmd_expr[pos:]`, and `opened` is
-- `opening_count - closing_count - 1`.
unfoldable pub scan_subst : List Lexeme → Text → Text → ℕ → Scanned × List Lexeme
scan_subst ls [] before opened = (past_end, ls)
scan_subst [] (c ∷ []) before opened =
    if is_close c
    then (if opened == 0 then (found (before ++ c ∷ []) [], []) else (past_end, []))
    else (no_token, [])
scan_subst (no_closing_quotation ∷ ls) (c ∷ []) before opened =
    if is_close c
    then (if opened == 0
        then (found (before ++ c ∷ []) [], no_closing_quotation ∷ ls)
        else (past_end, no_closing_quotation ∷ ls))
    else (bad_token, ls)
scan_subst (token t ∷ ls) (c ∷ []) before opened =
    let more = scan_subst ls (32 ∷ t) (before ++ c ∷ []) opened in
    if is_close c
    then (if opened == 0
        then (found (before ++ c ∷ []) [], token t ∷ ls)
        else (past_end, token t ∷ ls))
    else more
scan_subst ls (c ∷ d ∷ s) before opened =
    let closed = scan_subst ls (d ∷ s) (before ++ c ∷ []) (opened - 1) in
    let nested = scan_subst ls s (before ++ c ∷ d ∷ []) (suc opened) in
    let on = scan_subst ls (d ∷ s) (before ++ c ∷ []) opened in
    if is_close c
    then (if opened == 0 then (found (before ++ c ∷ []) (d ∷ s), ls) else closed)
    else if (c == 36) && (d == 40)
    then nested
    else on

-- The expression that a token starts with, and what stands before it: the first `$(`, or else the first backtick.
pub record Start : Type 0 where
  pub prefix : Text
  pub opener : Text
  pub rest : Text

abbrev pub opening : ℕ → Text × Text → Start
opening n (before, expr) = record { prefix = before; opener = take n expr; rest = drop n expr }

abbrev pub find_start : Text → Option Start
find_start [] = none
find_start (c ∷ s) =
    if c == 40
    then some (record { prefix = []; opener = c ∷ []; rest = s })
    else if has_dollar_paren (c ∷ s)
    then some (opening 2 (split_dollar (c ∷ s)))
    else if has 96 (c ∷ s)
    then some (opening 1 (split_tick (c ∷ s)))
    else none

abbrev pub starts_paren : Text → Bool
starts_paren [] = false
starts_paren (c ∷ s) = c == 40

module _ {S : Type 0} (sub : Nested S) where
  -- The output goes to the user, or into the text.
  abbrev pub place : Text → Text → Text → Read S Text
  place cmd_expr result output =
      if starts_paren cmd_expr
      then (write (encode output) >>= λ u. give result)
      else give (result ++ output)

  abbrev pub then_remainder : (Text → Read S Text) → Text → Text → Read S Text
  then_remainder again remainder result =
      if substitutes remainder then again (result ++ remainder) else give (result ++ remainder)

  -- What is read from the lexer is gone, whatever the search finds.
  abbrev pub on_scanned : (Text → Read S Text) → Text → Scanned × List Lexeme → Read S Text
  on_scanned again result (found cmd_expr remainder, ls) r =
      (run_subshell_command sub cmd_expr
          >>= place cmd_expr result
          >>= then_remainder again remainder)
        (record r { lexer = ls })
  on_scanned again result (no_token, ls) r = (ok result, record r { lexer = ls })
  on_scanned again result (past_end, ls) r = (err index_error, record r { lexer = ls })
  on_scanned again result (bad_token, ls) r = (err value_error, record r { lexer = ls })

  abbrev pub from_opening : (Text → Read S Text) → Text → Option Start → Read S Text
  from_opening again start_tok none = give start_tok
  from_opening again start_tok (some s) =
      λ r. on_scanned again s.prefix (scan_subst r.lexer s.rest s.opener 0) r

  -- The first argument is how deep Python lets calls nest.
  unfoldable pub do_command_substitution : ℕ → Text → Read S Text
  unfolding scan_subst
  do_command_substitution zero start_tok = fail recursion_error
  do_command_substitution (suc n) start_tok =
      from_opening (do_command_substitution n) start_tok (find_start start_tok)
