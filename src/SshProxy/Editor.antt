-- ===== src/SshProxy/Editor.antt =====
-- The line that Term (cowrie/src/cowrie/ssh_proxy/protocols/term.py) follows, against an editor with a cursor
-- between two lists.
use honeybee_potstore.Base.{
  ℕ, zero, suc, ◌+◌, ◌≡◌, refl, sym, ap, ◌∙◌, false, List, [], ◌∷◌, ◌++◌, arith, length, take, drop,
  ◌==◌, take-append, drop-append,
}
use honeybee_potstore.Base.Int.{pos}
use honeybee_potstore.Base.Dict.{==_refl}
use honeybee_potstore.Base.Text.{Bytes}
use honeybee_potstore.TtyLog.Record.{int_eq}
use honeybee_potstore.SshProxy.Term.{
  Term, Key, tab, backspace, home, end, right, left, arrow, enter, plain, key_at, press,
  server_loop, Report, report, line_of,
}

-- `before` is read from the cursor to the front.
pub record Line : Type 0 where
  pub before : Bytes
  pub after : Bytes
  pub said : List Report

abbrev pub line : Bytes → Bytes → List Report → Line
line l r s = record { before = l; after = r; said = s }

-- Puts back in front what is before the cursor.
abbrev pub onto : Bytes → Bytes → Bytes
onto [] r = r
onto (x ∷ l) r = onto l (x ∷ r)

abbrev pub text_of : Line → Bytes
text_of e = onto e.before e.after

abbrev all_back : Bytes → Bytes → List Report → Line
all_back [] r s = line [] r s
all_back (x ∷ l) r s = all_back l (x ∷ r) s

abbrev all_forth : Bytes → Bytes → List Report → Line
all_forth l [] s = line l [] s
all_forth l (x ∷ r) s = all_forth (x ∷ l) r s

-- What each key does to the line.
abbrev pub edit : Key → Line → Line
edit tab e = e
edit arrow e = e
edit home e = all_back e.before e.after e.said
edit end e = all_forth e.before e.after e.said
edit backspace e = elim e.before [ [] ↦ e | x ∷ l ↦ line l e.after e.said ]
edit left e = elim e.before [ [] ↦ e | x ∷ l ↦ line l (x ∷ e.after) e.said ]
edit right e = elim e.after [ [] ↦ e | x ∷ r ↦ line (x ∷ e.before) r e.said ]
edit (enter b) e = line [] [] (e.said ++ report (line_of b (text_of e)))
edit (plain b) e = line (b ∷ e.before) e.after e.said

-- The keys that data stands for.
unfoldable pub keys : (skip : ℕ) → Bytes → List Key
keys skip [] = []
keys (suc skip) (b ∷ bs) = keys skip bs
keys zero (b ∷ bs) = let (k, n) = key_at b bs in k ∷ keys n bs

abbrev pub edit_all : List Key → Line → Line
edit_all [] e = e
edit_all (k ∷ ks) e = edit_all ks (edit k e)

-- The command is the line, with the pointer at the cursor.
abbrev pub Follows : Term → Line → Type 0
Follows p e = (p.command ≡ text_of e) × (p.pointer ≡ pos (length e.before)) × (p.reports ≡ e.said)

pub length-onto : (l r : Bytes) → length (onto l r) ≡ length l + length r
length-onto [] r = omega arith
length-onto (x ∷ l) r = omega (arith, length-onto l (x ∷ r))

pub append_onto : (l r s : Bytes) → onto l r ++ s ≡ onto l (r ++ s)
append_onto [] r s = refl
append_onto (x ∷ l) r s = append_onto l (x ∷ r) s

length-onto_nil : (l : Bytes) → length (onto l []) ≡ length l
length-onto_nil l = omega (arith, length-onto l [])

take-onto : (l r : Bytes) → take (length l) (onto l r) ≡ onto l []
take-onto l r =
    ap (λ n. take n (onto l r)) (sym (length-onto_nil l))
    ∙ ap (take (length (onto l []))) (sym (append_onto l [] r))
    ∙ take-append (onto l []) r

drop-onto : (l r : Bytes) → drop (length l) (onto l r) ≡ r
drop-onto l r =
    ap (λ n. drop n (onto l r)) (sym (length-onto_nil l))
    ∙ ap (drop (length (onto l []))) (sym (append_onto l [] r))
    ∙ drop-append (onto l []) r

text_of-all_back : (l r : Bytes) (s : List Report) → text_of (all_back l r s) ≡ onto l r
text_of-all_back [] r s = refl
text_of-all_back (x ∷ l) r s = text_of-all_back l (x ∷ r) s

before-all_back : (l r : Bytes) (s : List Report) → (all_back l r s).before ≡ []
before-all_back [] r s = refl
before-all_back (x ∷ l) r s = before-all_back l (x ∷ r) s

said-all_back : (l r : Bytes) (s : List Report) → (all_back l r s).said ≡ s
said-all_back [] r s = refl
said-all_back (x ∷ l) r s = said-all_back l (x ∷ r) s

text_of-all_forth : (l r : Bytes) (s : List Report) → text_of (all_forth l r s) ≡ onto l r
text_of-all_forth l [] s = refl
text_of-all_forth l (x ∷ r) s = text_of-all_forth (x ∷ l) r s

before-all_forth :
    (l r : Bytes) (s : List Report) → length (all_forth l r s).before ≡ length (onto l r)
before-all_forth l [] s = sym (length-onto_nil l)
before-all_forth l (x ∷ r) s = before-all_forth (x ∷ l) r s

said-all_forth : (l r : Bytes) (s : List Report) → (all_forth l r s).said ≡ s
said-all_forth l [] s = refl
said-all_forth l (x ∷ r) s = said-all_forth (x ∷ l) r s

-- A byte is put in, or taken out, at the cursor.
inserted :
    (b : ℕ) (l r : Bytes)
    → take (length l) (onto l r) ++ b ∷ drop (length l) (onto l r) ≡ onto (b ∷ l) r
inserted b l r = rw (take-onto l r, drop-onto l r) (append_onto l [] (b ∷ r))

deleted :
    (x : ℕ) (l r : Bytes)
    → take (length l) (onto (x ∷ l) r) ++ drop (length (x ∷ l)) (onto (x ∷ l) r) ≡ onto l r
deleted x l r = rw (take-onto l (x ∷ r), drop-onto (x ∷ l) r) (append_onto l [] r)

suc_eq_zero : (n : ℕ) → (suc n == 0) ≡ false
suc_eq_zero n = ground arith

within : (x : ℕ) (l r : Bytes) → (length l == length (onto l (x ∷ r))) ≡ false
within x l r = ground (arith, length-onto l (x ∷ r))

pub press-Follows :
    (k : Key) (p : Term) (l r : Bytes) (s : List Report)
    → Follows p (line l r s)
    → Follows (press k p) (edit k (line l r s))
unfolding press int_eq
press-Follows tab p l r s h = h
press-Follows arrow p l r s h = h
press-Follows home p l r s h = (
  h.0 ∙ sym (text_of-all_back l r s),
  ap (λ b. pos (length b)) (sym (before-all_back l r s)),
  h.2 ∙ sym (said-all_back l r s),
)
press-Follows end p l r s h = (
  h.0 ∙ sym (text_of-all_forth l r s),
  ap (λ b. pos (length b)) h.0 ∙ ap pos (sym (before-all_forth l r s)),
  h.2 ∙ sym (said-all_forth l r s),
)
press-Follows backspace p [] r s h = rw (h.1) (h.0, refl, h.2)
press-Follows backspace p (x ∷ l) r s h = rw (h.1, h.0) (deleted x l r, refl, h.2)
press-Follows left p [] r s h = rw (h.1) (h.0, refl, h.2)
press-Follows left p (x ∷ l) r s h = rw (h.1, suc_eq_zero (length l)) (h.0, refl, h.2)
press-Follows right p l [] s h =
    rw (h.1, h.0, length-onto_nil l, ==_refl (length l)) (refl, refl, h.2)
press-Follows right p l (x ∷ r) s h = rw (h.1, h.0, within x l r) (refl, refl, h.2)
press-Follows (enter b) p l r s h = (refl, refl, rw (h.0, h.2))
press-Follows (plain b) p l r s h = (rw (h.0, h.1) (inserted b l r), rw (h.1), h.2)

pub loop-Follows :
    (skip : ℕ) (bs : Bytes) (p : Term) (e : Line)
    → Follows p e
    → Follows (server_loop skip bs p) (edit_all (keys skip bs) e)
unfolding server_loop keys
loop-Follows skip [] p e h = h
loop-Follows (suc skip) (b ∷ bs) p e h = loop-Follows skip bs p e h
loop-Follows zero (b ∷ bs) p e h =
    let (k, n) = key_at b bs in
    loop-Follows n bs (press k p) (edit k e) (press-Follows k p e.before e.after e.said h)
