-- ===== src/Commands/Tail.antt =====
-- Which lines tail and head write (cowrie/src/cowrie/commands/fs.py) of a text whose lines all end.
use honeybee_potstore.Base.{
  ℕ, zero, suc, ◌-◌, ◌≤◌, ◌<◌, ◌≡◌, refl, ap, ◌∙◌, true, false, List, [], ◌∷◌, ◌++◌, arith,
  if◌then◌else◌, ◌==◌, ltb, length, drop, All, Bool-cases, inl, inr, length-append,
}
use honeybee_potstore.Base.Text.{Bytes}
use honeybee_potstore.Auth.Strings.{split, has, split-append, split_none}
use honeybee_potstore.Commands.Lines.{last_of, write_lines, tail_lines, tail_application, end_lines}

abbrev pub IsLine : Bytes → Type 0
IsLine l = has 10 l ≡ false

split-end_lines : (ls : List Bytes) → All IsLine ls → split 10 (end_lines ls) ≡ ls ++ [] ∷ []
unfolding end_lines
split-end_lines [] h = split_none 10
split-end_lines (l ∷ ls) h =
    split-append 10 l (end_lines ls) h.0 ∙ ap (◌∷◌ l) (split-end_lines ls h.1)

-- As many newlines as lines: the text of the lines.
write_lines-end :
    (n : ℕ) (ls : List Bytes) → n ≡ length ls → write_lines n (ls ++ [] ∷ []) ≡ end_lines ls
unfolding write_lines end_lines
write_lines-end zero [] e = refl
write_lines-end (suc n) [] e = absurd (omega arith)
write_lines-end zero (l ∷ ls) e = absurd (omega arith)
write_lines-end (suc n) (l ∷ ls) e = ap (λ s. l ++ 10 ∷ s) (write_lines-end n ls (omega arith))

drop-end : (n : ℕ) (ls : List Bytes) → n ≤ length ls → drop n (ls ++ [] ∷ []) ≡ drop n ls ++ [] ∷ []
drop-end zero ls h = refl
drop-end (suc n) [] h = absurd (omega arith)
drop-end (suc n) (l ∷ ls) h = drop-end n ls (omega arith)

length-drop_lines : (n : ℕ) (ls : List Bytes) → length (drop n ls) ≡ length ls - n
length-drop_lines zero ls = omega arith
length-drop_lines (suc n) [] = omega arith
length-drop_lines (suc n) (l ∷ ls) = omega (arith, length-drop_lines n ls)

last_of-end : (ls : List Bytes) → last_of (ls ++ [] ∷ []) ≡ [] ∷ []
last_of-end [] = refl
last_of-end (l ∷ []) = refl
last_of-end (l ∷ m ∷ ls) = last_of-end (m ∷ ls)

-- The text that tail writes of the lines and the empty rest after the last.
tail_text :
    (m : ℕ) (ls : List Bytes)
    → m ≤ length ls
    → write_lines m (tail_lines m (ls ++ [] ∷ [])) ≡ end_lines (drop (length ls - m) ls)
unfolding tail_lines
tail_text m ls h =
    let k = length-append ls ([] ∷ []) in
    let other : (length (ls ++ [] ∷ []) == m) ≡ false = ground arith in
    let e : length (ls ++ [] ∷ []) - m - 1 ≡ length ls - m = omega arith in
    rw (other, e, drop-end (length ls - m) ls (omega arith))
      (write_lines-end m (drop (length ls - m) ls)
        (omega (arith, length-drop_lines (length ls - m) ls)))

blank_text :
    (ls : List Bytes)
    → write_lines (suc (length ls)) (tail_lines (suc (length ls)) (ls ++ [] ∷ []))
      ≡ 10 ∷ end_lines ls
unfolding tail_lines write_lines
blank_text ls =
    let k = length-append ls ([] ∷ []) in
    let same : (length (ls ++ [] ∷ []) == suc (length ls)) ≡ true = ground arith in
    rw (same, last_of-end ls) (ap (λ s. 10 ∷ s) (write_lines-end (length ls) ls refl))

-- Of a text whose lines all end, tail writes the last lines, as many as it is asked for and there are; but
-- if it is asked for one more than there are, an empty line comes before them.
pub tail_application-last :
    (n : ℕ) (ls : List Bytes)
    → All IsLine ls
    → (tail_application n (end_lines ls)).1
      ≡ (if n == suc (length ls) then 10 ∷ end_lines ls else end_lines (drop (length ls - n) ls))
unfolding tail_application
tail_application-last n ls h =
    let k = length-append ls ([] ∷ []) in
    elim (Bool-cases (n == suc (length ls))) [
      | inl q ↦
          let e : n ≡ suc (length ls) = ground arith in
          let small : ltb (length (ls ++ [] ∷ [])) n ≡ false = ground arith in
          rw (q, split-end_lines ls h, small, e) (blank_text ls)
      | inr q ↦ elim (Bool-cases (ltb (length (ls ++ [] ∷ [])) n)) [
        | inl more ↦
            let e : length (ls ++ [] ∷ []) - 1 ≡ length ls = omega arith in
            let b : suc (length ls) < n = ground arith in
            let z : length ls - n ≡ length ls - length ls = omega arith in
            rw (q, split-end_lines ls h, more, e, z) (tail_text (length ls) ls (omega arith))
        | inr few ↦
            let b : n ≤ length ls = ground arith in
            rw (q, split-end_lines ls h, few) (tail_text n ls b)
      ]
    ]
