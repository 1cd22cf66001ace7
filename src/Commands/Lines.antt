-- ===== src/Commands/Lines.antt =====
-- tail_application and head_application (cowrie/src/cowrie/commands/fs.py): which lines of a text are written.
use honeybee_potstore.Base.{
  ℕ, zero, suc, ◌-◌, not, List, [], ◌∷◌, ◌++◌, if◌then◌else◌, ◌==◌, ltb, length, take, drop,
}
use honeybee_potstore.Base.Text.{Bytes}
use honeybee_potstore.Auth.Strings.{split}

-- `xs[-1:]`
abbrev pub last_of : List Bytes → List Bytes
last_of [] = []
last_of (x ∷ []) = x ∷ []
last_of (x ∷ y ∷ xs) = last_of (y ∷ xs)

-- The written lines: the first `n` of them are followed by a newline.
unfoldable pub write_lines : ℕ → List Bytes → Bytes
write_lines n [] = []
write_lines zero (x ∷ xs) = x ++ write_lines zero xs
write_lines (suc n) (x ∷ xs) = x ++ 10 ∷ write_lines n xs

-- `range(lines - n - 1, lines)`, which starts at -1 where there are `n` lines: that is the last one.
unfoldable pub tail_lines : ℕ → List Bytes → List Bytes
tail_lines n ls = if length ls == n then last_of ls ++ ls else drop (length ls - n - 1) ls

-- `tail_application`: the number of lines, which the object keeps, and what is written.
unfoldable pub tail_application : ℕ → Bytes → ℕ × Bytes
unfolding tail_lines write_lines
tail_application n contents =
    let ls = split 10 contents in
    let m = if ltb (length ls) n then length ls - 1 else n in (m, write_lines m (tail_lines m ls))

unfoldable pub end_lines : List Bytes → Bytes
end_lines [] = []
end_lines (x ∷ xs) = x ++ 10 ∷ end_lines xs

-- `head_application`
unfoldable pub head_application : ℕ → ℕ → Bytes → Bytes
unfolding end_lines
head_application linecount bytecount contents =
    if not (bytecount == 0)
    then take bytecount contents
    else if not (linecount == 0)
    then end_lines (take linecount (split 10 contents))
    else []
