-- ===== src/Shell/Shrinks.antt =====
-- What reading a line does to the lexer (cowrie/src/cowrie/shell/honeypot.py): no call gives tokens back to it.
use honeybee_potstore.Base.{
  ℕ, zero, suc, ◌-◌, ◌≤◌, ◌≡◌, refl, List, [], ◌∷◌, ◌++◌, Option, none, some, Result, ok, err,
  arith, length, ◌==◌, Bool-cases, inl, inr,
}
use honeybee_potstore.Base.Text.{Text}
use honeybee_potstore.Base.Dict.{text_keys}
use honeybee_potstore.Shell.Subst.{
  Lexeme, token, no_closing_quotation, Reading, Read, ◌>>=◌, give, join_spaces, Nested, run_single,
  run_tokens, full_output, run_subshell_command, is_separator, but_last, rstrip_newlines,
}
use honeybee_potstore.Shell.Scan.{
  Scanned, found, no_token, past_end, bad_token, scan_subst, Start, find_start, place,
  then_remainder, on_scanned, from_opening, do_command_substitution,
}
use honeybee_potstore.Shell.Line.{onto_tokens, subshell_tokens, scan_group}

module _ {S : Type 0} where
  abbrev pub Shrinks : {A : Type 0} → Read S A → Type 0
  Shrinks f = (r : Reading S) → length (f r).1.lexer ≤ length r.lexer

  pub bind-Shrinks :
      {A B : Type 0} (f : Read S A) (next : A → Read S B)
      → Shrinks f
      → ((a : A) → Shrinks (next a))
      → Shrinks (f >>= next)
  bind-Shrinks {A} {B} f next h g r = step (f r) (h r)
    where
      step :
          (x : Result A × Reading S)
          → length x.1.lexer ≤ length r.lexer
          → length
              (elim x.0 as (λ _. Result B × Reading S) [
                | err e ↦ (err e, x.1)
                | ok a ↦ next a x.1
              ]).1.lexer
            ≤ length r.lexer
      step (err e, s) l = l
      step (ok a, s) l = omega (arith, g a s)

  module _ (sub : Nested S) where
    run_tokens-Shrinks : (ts : List Text) (acc : Text) → Shrinks (run_tokens sub ts acc)
    run_tokens-Shrinks [] acc r = omega arith
    run_tokens-Shrinks (t ∷ ts) acc r =
        bind-Shrinks (run_single sub (join_spaces (t ∷ ts))) (λ output. give (acc ++ output))
          (λ r. omega arith) (λ a r. omega arith) r

    full_output-Shrinks :
        (ls : List Lexeme) (ts : List Text) (acc : Text) → Shrinks (full_output sub ls ts acc)
    unfolding full_output
    full_output-Shrinks [] ts acc r = run_tokens-Shrinks ts acc r
    full_output-Shrinks (no_closing_quotation ∷ ls) ts acc r = omega arith
    full_output-Shrinks (token t ∷ ls) ts acc r = elim (Bool-cases (is_separator t)) [
      | inl q ↦ rw q (
          bind-Shrinks (run_tokens sub ts acc) (full_output sub ls []) (run_tokens-Shrinks ts acc)
            (full_output-Shrinks ls []) r)
      | inr q ↦ rw q (full_output-Shrinks ls (ts ++ t ∷ []) acc r)
    ]

    stripped-Shrinks :
        (cmd : Text)
        → Shrinks (full_output sub (sub.lex cmd) [] [] >>= λ output. give (rstrip_newlines output))
    stripped-Shrinks cmd =
        bind-Shrinks (full_output sub (sub.lex cmd) [] []) (λ output. give (rstrip_newlines output))
          (full_output-Shrinks (sub.lex cmd) [] []) (λ a r. omega arith)

    pub run_subshell-Shrinks : (s : Text) → Shrinks (run_subshell_command sub s)
    unfolding run_subshell_command
    run_subshell-Shrinks [] = stripped-Shrinks []
    run_subshell-Shrinks (c ∷ s) = elim (Bool-cases (c == 40)) [
      | inl q ↦ rw q (full_output-Shrinks (sub.lex (but_last s)) [] [])
      | inr q ↦ rw q (stripped-Shrinks _)
    ]

scan_subst-le :
    (ls : List Lexeme) (s before : Text) (opened : ℕ)
    → length (scan_subst ls s before opened).1 ≤ length ls
unfolding scan_subst
scan_subst-le ls [] before opened = omega arith
scan_subst-le [] (c ∷ []) before opened = ground arith
scan_subst-le (no_closing_quotation ∷ ls) (c ∷ []) before opened = ground arith
scan_subst-le (token t ∷ ls) (c ∷ []) before opened =
    ground (arith, scan_subst-le ls (32 ∷ t) (before ++ c ∷ []) opened)
scan_subst-le ls (c ∷ d ∷ s) before opened = ground (
  arith,
  scan_subst-le ls (d ∷ s) (before ++ c ∷ []) (opened - 1),
  scan_subst-le ls s (before ++ c ∷ d ∷ []) (suc opened),
  scan_subst-le ls (d ∷ s) (before ++ c ∷ []) opened,
)

pub scan_group-le :
    (ls : List Lexeme) (s before : Text) (opened : ℕ)
    → length (scan_group ls s before opened).1 ≤ length ls
unfolding scan_group
scan_group-le ls [] before opened = omega arith
scan_group-le [] (c ∷ []) before opened = ground arith
scan_group-le (no_closing_quotation ∷ ls) (c ∷ []) before opened = ground arith
scan_group-le (token t ∷ ls) (c ∷ []) before opened = elim (Bool-cases (c == 41)) [
  | inl q ↦ rw q (omega arith)
  | inr q ↦ elim (Bool-cases (c == 40)) [
    | inl z ↦ rw (q, z) (omega arith)
    | inr z ↦ rw (q, z) (omega (arith, scan_group-le ls (32 ∷ t) (before ++ c ∷ []) opened))
  ]
]
scan_group-le ls (c ∷ d ∷ s) before opened = ground (
  arith,
  scan_group-le ls (d ∷ s) (before ++ c ∷ []) (opened - 1),
  scan_group-le ls (d ∷ s) (before ++ c ∷ []) (suc opened),
  scan_group-le ls (d ∷ s) (before ++ c ∷ []) opened,
)

onto_tokens-le :
    (t : Text) (x : Option (List Text) × List Lexeme) → length (onto_tokens t x).1 ≡ length x.1
onto_tokens-le t (none, ls) = refl
onto_tokens-le t (some ts, ls) = refl

pub subshell_tokens-le :
    (ls : List Lexeme) (opened : ℕ) → length (subshell_tokens ls opened).1 ≤ length ls
unfolding subshell_tokens
subshell_tokens-le [] opened = omega arith
subshell_tokens-le (no_closing_quotation ∷ ls) opened = omega arith
subshell_tokens-le (token t ∷ ls) opened = ground (
  arith,
  onto_tokens-le t (subshell_tokens ls (opened - 1)),
  onto_tokens-le t (subshell_tokens ls (suc opened)),
  onto_tokens-le t (subshell_tokens ls opened),
  subshell_tokens-le ls (opened - 1),
  subshell_tokens-le ls (suc opened),
  subshell_tokens-le ls opened,
)

module _ {S : Type 0} (sub : Nested S) where
  place-Shrinks :
      (cmd_expr result output : Text) → Shrinks {S = S} (place sub cmd_expr result output)
  place-Shrinks cmd_expr result output r = ground arith

  remainder-Shrinks :
      (again : Text → Read S Text) (remainder result : Text)
      → ((t : Text) → Shrinks (again t))
      → Shrinks (then_remainder sub again remainder result)
  remainder-Shrinks again remainder result h r = ground (arith, h (result ++ remainder) r)

  scanned-Shrinks :
      (again : Text → Read S Text) (result : Text) (x : Scanned × List Lexeme) (r : Reading S)
      → ((t : Text) → Shrinks (again t))
      → length x.1 ≤ length r.lexer
      → length (on_scanned sub again result x r).1.lexer ≤ length r.lexer
  scanned-Shrinks again result (found cmd_expr remainder, ls) r h l =
      let m =
        bind-Shrinks (run_subshell_command sub cmd_expr >>= place sub cmd_expr result)
          (then_remainder sub again remainder)
          (bind-Shrinks (run_subshell_command sub cmd_expr) (place sub cmd_expr result)
            (run_subshell-Shrinks sub cmd_expr) (place-Shrinks cmd_expr result))
          (λ a. remainder-Shrinks again remainder a h) (record r { lexer = ls }) in
      omega arith
  scanned-Shrinks again result (no_token, ls) r h l = l
  scanned-Shrinks again result (past_end, ls) r h l = l
  scanned-Shrinks again result (bad_token, ls) r h l = l

  opening-Shrinks :
      (again : Text → Read S Text) (t : Text) (x : Option Start)
      → ((t : Text) → Shrinks (again t))
      → Shrinks (from_opening sub again t x)
  opening-Shrinks again t none h r = omega arith
  opening-Shrinks again t (some s) h r =
      scanned-Shrinks again s.prefix (scan_subst r.lexer s.rest s.opener 0) r h
        (scan_subst-le r.lexer s.rest s.opener 0)

  pub substitution-Shrinks : (n : ℕ) (t : Text) → Shrinks (do_command_substitution sub n t)
  unfolding do_command_substitution
  substitution-Shrinks zero t r = omega arith
  substitution-Shrinks (suc n) t r =
      opening-Shrinks (do_command_substitution sub n) t (find_start t) (substitution-Shrinks n) r
