-- ===== src/Shell/Plain.antt =====
-- Lines of plain words and separators (cowrie/src/cowrie/shell/honeypot.py): what is pending after them.
use mathlib.Core.List.{append_assoc, append-nil}
use honeybee_potstore.Base.{
  ℕ, zero, suc, ◌+◌, ◌-◌, ◌<◌, ◌≡◌, refl, ap, ◌∙◌, false, List, [], ◌∷◌, ◌++◌, ◌||◌, some, ok,
  arith, length, All,
}
use honeybee_potstore.Base.Text.{Text, text_eq, codes}
use honeybee_potstore.Fs.Changes.{starts_with}
use honeybee_potstore.Shell.Words.{Environ}
use honeybee_potstore.Shell.Subst.{Lexeme, token, Reading, substitutes, Nested}
use honeybee_potstore.Shell.Run.{Shell, World, Outside, run_command, perform, is_empty}
use honeybee_potstore.Shell.Line.{line_received, on_line, Again, on_token, read_tokens, opens_group}

-- A word that the loop keeps as it is.
abbrev pub IsOrdinary : Text → Type 0
IsOrdinary t =
    ((text_eq t (codes "&&") || text_eq t (codes "||")) ≡ false)
    × (text_eq t (codes ";") ≡ false)
    × (text_eq t (codes "$?") ≡ false)
    × (opens_group t ≡ false)
    × (substitutes t ≡ false)
    × (starts_with (codes "$") t ≡ false)

-- Commands of at least one word, each with the separator before it.
pub data Separator : Type 0 where
  semicolon both either : Separator

abbrev pub spell : Separator → Text
spell semicolon = codes ";"
spell both = codes "&&"
spell either = codes "||"

pub record Part : Type 0 where
  pub sep : Separator
  pub word : Text
  pub words : List Text

abbrev pub command_of : Part → List Text
command_of p = p.word ∷ p.words

abbrev pub commands_of : List Part → List (List Text)
commands_of [] = []
commands_of (p ∷ ps) = command_of p ∷ commands_of ps

abbrev pub tokens_of : List Text → List Lexeme
tokens_of [] = []
tokens_of (t ∷ ts) = token t ∷ tokens_of ts

abbrev pub spell_parts : List Part → List Lexeme
spell_parts [] = []
spell_parts (p ∷ ps) = token (spell p.sep) ∷ (tokens_of (command_of p) ++ spell_parts ps)

length-tokens :
    (ts : List Text) (ls : List Lexeme) → length (tokens_of ts ++ ls) ≡ length ts + length ls
length-tokens [] ls = omega arith
length-tokens (t ∷ ts) ls = omega (arith, length-tokens ts ls)

module _ {S : Type 0} (sub : Nested S) (depth : ℕ) (environ : Environ) where
  abbrev at : List Lexeme → Reading S → Reading S
  at ls r = record r { lexer = ls }

  on_token-ordinary :
      (again : Again sub depth environ) (t : Text) (tokens : List Text) (pending : List (List Text))
      (r : Reading S)
      → IsOrdinary t
      → on_token sub depth environ again t tokens pending r ≡ again (tokens ++ t ∷ []) pending r
  unfolding on_token
  on_token-ordinary again t tokens pending r (a, b, c, d, e, f) = rw (a, b, c, d, e, f) refl

  on_token-separator :
      (again : Again sub depth environ) (s : Separator) (t : Text) (tokens : List Text)
      (pending : List (List Text)) (r : Reading S)
      → on_token sub depth environ again (spell s) (t ∷ tokens) pending r
        ≡ again [] (pending ++ (t ∷ tokens) ∷ []) r
  unfolding on_token text_eq
  on_token-separator again semicolon t tokens pending r = refl
  on_token-separator again both t tokens pending r = refl
  on_token-separator again either t tokens pending r = refl

  read_token :
      (n : ℕ) (t : Text) (ls : List Lexeme) (tokens : List Text) (pending : List (List Text))
      (r : Reading S)
      → read_tokens sub depth environ (suc n) tokens pending (at (token t ∷ ls) r)
        ≡ on_token sub depth environ (read_tokens sub depth environ n) t tokens pending (at ls r)
  unfolding read_tokens
  read_token n t ls tokens pending r = refl

  read_words :
      (n : ℕ) (ws tokens : List Text) (ls : List Lexeme) (pending : List (List Text))
      (r : Reading S)
      → All IsOrdinary ws
      → read_tokens sub depth environ (length ws + n) tokens pending (at (tokens_of ws ++ ls) r)
        ≡ read_tokens sub depth environ n (tokens ++ ws) pending (at ls r)
  read_words n [] tokens ls pending r h =
      let e : 0 + n ≡ n = omega arith in rw (e, append-nil tokens) refl
  read_words n (w ∷ ws) tokens ls pending r h =
      let e : suc (length ws) + n ≡ suc (length ws + n) = omega arith in
      ap
        (λ m.
          read_tokens sub depth environ m tokens pending (at (token w ∷ (tokens_of ws ++ ls)) r))
        e
      ∙ read_token (length ws + n) w (tokens_of ws ++ ls) tokens pending r
      ∙ on_token-ordinary (read_tokens sub depth environ (length ws + n)) w tokens pending
          (at (tokens_of ws ++ ls) r) h.0
      ∙ read_words n ws (tokens ++ w ∷ []) ls pending r h.1
      ∙ ap (λ ts. read_tokens sub depth environ n ts pending (at ls r))
          (append_assoc tokens (w ∷ []) ws)

  read_end :
      (n : ℕ) (t : Text) (tokens : List Text) (pending : List (List Text)) (r : Reading S)
      → read_tokens sub depth environ (suc n) (t ∷ tokens) pending (at [] r)
        ≡ some (ok (pending ++ (t ∷ tokens) ∷ []), at [] r)
  unfolding read_tokens
  read_end n t tokens pending r = refl

  read_parts :
      (n : ℕ) (ps : List Part) (t : Text) (tokens : List Text) (pending : List (List Text))
      (r : Reading S)
      → All (λ p. All IsOrdinary (command_of p)) ps
      → length (spell_parts ps) < n
      → read_tokens sub depth environ n (t ∷ tokens) pending (at (spell_parts ps) r)
        ≡ some (ok (pending ++ (t ∷ tokens) ∷ commands_of ps), at [] r)
  read_parts zero ps t tokens pending r h l = absurd (omega arith)
  read_parts (suc n) [] t tokens pending r h l = read_end n t tokens pending r
  read_parts (suc n) (p ∷ ps) t tokens pending r h l =
      let ws = command_of p in
      let e : length (tokens_of ws ++ spell_parts ps) ≡ length ws + length (spell_parts ps) =
        length-tokens ws (spell_parts ps) in
      let m : n ≡ length ws + (n - length ws) = omega arith in
      read_token n (spell p.sep) (tokens_of ws ++ spell_parts ps) (t ∷ tokens) pending r
      ∙ on_token-separator (read_tokens sub depth environ n) p.sep t tokens pending
          (at (tokens_of ws ++ spell_parts ps) r)
      ∙ ap
          (λ k.
            read_tokens sub depth environ k [] (pending ++ (t ∷ tokens) ∷ [])
              (at (tokens_of ws ++ spell_parts ps) r))
          m
      ∙ read_words (n - length ws) ws [] (spell_parts ps) (pending ++ (t ∷ tokens) ∷ []) r h.0
      ∙ read_parts (n - length ws) ps p.word p.words (pending ++ (t ∷ tokens) ∷ []) r h.1
          (omega arith)
      ∙ ap (λ qs. some (ok qs, at [] r))
          (append_assoc pending ((t ∷ tokens) ∷ []) (command_of p ∷ commands_of ps))

  read_line :
      (word : Text) (words : List Text) (ps : List Part) (pending : List (List Text))
      (r : Reading S)
      → All IsOrdinary (word ∷ words)
      → All (λ p. All IsOrdinary (command_of p)) ps
      → let ls = tokens_of (word ∷ words) ++ spell_parts ps in
        read_tokens sub depth environ (suc (length ls)) [] pending (at ls r)
        ≡ some (ok (pending ++ (word ∷ words) ∷ commands_of ps), at [] r)
  read_line word words ps pending r h hs =
      let ws = word ∷ words in
      let e = length-tokens ws (spell_parts ps) in
      let m : suc (length (tokens_of ws ++ spell_parts ps))
          ≡ length ws + suc (length (spell_parts ps)) =
        omega arith in
      ap (λ k. read_tokens sub depth environ k [] pending (at (tokens_of ws ++ spell_parts ps) r)) m
      ∙ read_words (suc (length (spell_parts ps))) ws [] (spell_parts ps) pending r h
      ∙ read_parts (suc (length (spell_parts ps))) ps word words pending r hs (omega arith)

is_empty-append :
    (ps : List (List Text)) (q : List Text) (qs : List (List Text))
    → is_empty (ps ++ q ∷ qs) ≡ false
is_empty-append [] q qs = refl
is_empty-append (p ∷ ps) q qs = refl

-- A line of commands of ordinary words with `;`, `&&` or `||` between each two makes just these commands pending,
-- in their order, after those that were: they are then run, the separator making no difference.
pub line_received-commands :
    {C S : Type 0} (sh : Shell) (o : Outside C S) (sub : Nested S) (depth : ℕ) (line : Text)
    (word : Text) (words : List Text) (ps : List Part) (w : World C S)
    → sub.lex line ≡ tokens_of (word ∷ words) ++ spell_parts ps
    → All IsOrdinary (word ∷ words)
    → All (λ p. All IsOrdinary (command_of p)) ps
    → line_received sh o sub depth line w
      ≡ some (
          perform sh o depth run_command
            (record w { cmdpending = w.cmdpending ++ (word ∷ words) ∷ commands_of ps }))
unfolding line_received
line_received-commands {S = S} sh o sub depth line word words ps w e h hs =
    ap
      (λ ls.
        on_line sh o sub depth
          (read_tokens sub depth sh.environ (suc (length ls)) [] w.cmdpending
            (record { lexer = ls; written = []; machine = w.machine }))
          w)
      e
    ∙ ap (λ x. on_line sh o sub depth x w)
        (read_line sub depth sh.environ word words ps w.cmdpending
          (record { lexer = []; written = []; machine = w.machine }) h hs)
    ∙ rw (is_empty-append w.cmdpending (word ∷ words) (commands_of ps), append-nil w.events) refl
