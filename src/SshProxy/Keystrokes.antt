-- ===== src/SshProxy/Keystrokes.antt =====
-- The keys that an attacker presses, by the bytes that terminals send for them, and what Term
-- (cowrie/src/cowrie/ssh_proxy/protocols/term.py) makes of them.
use mathlib.Core.Path.{subst}
use honeybee_potstore.Base.{
  ℕ, ◌≡◌, ◌≢◌, refl, sym, ap, ◌∙◌, ◌⊎◌, inl, inr, false, List, [], ◌∷◌, ◌++◌, arith, All,
}
use honeybee_potstore.Base.Text.{Bytes}
use honeybee_potstore.TelnetProxy.Strings.{starts_with}
use honeybee_potstore.TtyLog.Record.{Stamp}
use honeybee_potstore.SshProxy.Term.{
  Parent, server, client, Term, Key, tab, backspace, home, end, right, left, arrow, enter, plain,
  key_at,
}
use honeybee_potstore.SshProxy.Editor.{Line, keys, edit, edit_all, Follows}
use honeybee_potstore.SshProxy.Typing.{
  Packet, parse_all, edit_packets, IsPlainKey, AllTyped, parse_all-Follows,
}

-- A byte that stands for itself: no control key, and no escape.
abbrev pub IsChar : ℕ → Type 0
IsChar b = All (λ n. b ≢ n) (3 ∷ 8 ∷ 9 ∷ 10 ∷ 13 ∷ 27 ∷ 127 ∷ [])

-- The bytes of each key: DEL or BS, ESC O H, ESC O F, ESC [ C and so on.
abbrev pub Spells : Key → Bytes → Type 0
Spells tab bs = bs ≡ 9 ∷ []
Spells backspace bs = (bs ≡ 127 ∷ []) ⊎ (bs ≡ 8 ∷ [])
Spells home bs = bs ≡ 27 ∷ 79 ∷ 72 ∷ []
Spells end bs = bs ≡ 27 ∷ 79 ∷ 70 ∷ []
Spells right bs = bs ≡ 27 ∷ 91 ∷ 67 ∷ []
Spells left bs = bs ≡ 27 ∷ 91 ∷ 68 ∷ []
Spells arrow bs = (bs ≡ 27 ∷ 91 ∷ 65 ∷ []) ⊎ (bs ≡ 27 ∷ 91 ∷ 66 ∷ [])
Spells (enter b) bs = (bs ≡ b ∷ []) × ((b ≡ 13) ⊎ (b ≡ 10) ⊎ (b ≡ 3))
Spells (plain b) bs = (bs ≡ b ∷ []) × IsChar b

-- Bytes that are keys, one after the other.
pub data Typed : Bytes → List Key → Type 0 where
  no_key : Typed [] []
  key_next :
      {bs : Bytes} {ks : List Key} (k : Key) (s : Bytes)
      → Spells k s
      → Typed bs ks
      → Typed (s ++ bs) (k ∷ ks)

abbrev Reads : Key → Bytes → Bytes → Type 0
Reads k bs s = keys 0 (s ++ bs) ≡ k ∷ keys 0 bs

plain_lem : (b : ℕ) (bs : Bytes) → IsChar b → key_at b bs ≡ (plain b, 0)
unfolding key_at starts_with
plain_lem b bs h = ground (arith, h.0, h.1.0, h.1.1.0, h.1.1.1.0, h.1.1.1.1.0, h.1.1.1.1.1.0)

enter_lem : (b : ℕ) (bs : Bytes) → (b ≡ 13) ⊎ (b ≡ 10) ⊎ (b ≡ 3) → Reads (enter b) bs (b ∷ [])
unfolding keys key_at starts_with
enter_lem b bs (inl h) = rw h refl
enter_lem b bs (inr (inl h)) = rw h refl
enter_lem b bs (inr (inr h)) = rw h refl

Spells-keys : (k : Key) (s bs : Bytes) → Spells k s → Reads k bs s
unfolding keys key_at starts_with
Spells-keys tab s bs h = rw h refl
Spells-keys backspace s bs (inl h) = rw h refl
Spells-keys backspace s bs (inr h) = rw h refl
Spells-keys home s bs h = rw h refl
Spells-keys end s bs h = rw h refl
Spells-keys right s bs h = rw h refl
Spells-keys left s bs h = rw h refl
Spells-keys arrow s bs (inl h) = rw h refl
Spells-keys arrow s bs (inr h) = rw h refl
Spells-keys (enter b) s bs h = subst (Reads (enter b) bs) (sym h.0) (enter_lem b bs h.1)
Spells-keys (plain b) s bs h = subst (Reads (plain b) bs) (sym h.0) (rw (plain_lem b bs h.1) refl)

Typed-keys : {bs : Bytes} {ks : List Key} → Typed bs ks → keys 0 bs ≡ ks
unfolding keys
Typed-keys no_key = refl
Typed-keys (key_next {bs = bs} k s h t) = Spells-keys k s bs h ∙ ap (λ ks. k ∷ ks) (Typed-keys t)

abbrev pub packet : Parent → Stamp → Bytes → Packet
packet who t content = record { parent = who; stamp = t; content = content }

-- The keys of all packets of the attacker, each of which has whole keys; the back end answers anything.
pub data TypedIn : List Packet → List Key → Type 0 where
  silent : TypedIn [] []
  types :
      {xs : List Packet} {ks ls : List Key} (t : Stamp) {content : Bytes}
      → Typed content ks
      → TypedIn xs ls
      → TypedIn (packet server t content ∷ xs) (ks ++ ls)
  answered :
      {xs : List Packet} {ls : List Key} (t : Stamp) (content : Bytes)
      → TypedIn xs ls
      → TypedIn (packet client t content ∷ xs) ls

edit_all-append :
    (ks ls : List Key) (e : Line) → edit_all (ks ++ ls) e ≡ edit_all ls (edit_all ks e)
edit_all-append [] ls e = refl
edit_all-append (k ∷ ks) ls e = edit_all-append ks ls (edit k e)

All-parts : (P : Key → Type 0) (ks ls : List Key) → All P (ks ++ ls) → All P ks × All P ls
All-parts P [] ls h = (tt, h)
All-parts P (k ∷ ks) ls h = let r = All-parts P ks ls h.1 in ((h.0, r.0), r.1)

TypedIn-plain :
    {xs : List Packet} {ks : List Key} → TypedIn xs ks → All IsPlainKey ks → AllTyped IsPlainKey xs
TypedIn-plain silent h = tt
TypedIn-plain (types {ks = ks} {ls = ls} t w r) h =
    let parts = All-parts IsPlainKey ks ls h in
    (subst (All IsPlainKey) (sym (Typed-keys w)) parts.0, TypedIn-plain r parts.1)
TypedIn-plain (answered t content r) h = (tt, TypedIn-plain r h)

TypedIn-edits :
    {xs : List Packet} {ks : List Key} (e : Line)
    → TypedIn xs ks
    → edit_packets xs e ≡ edit_all ks e
TypedIn-edits e silent = refl
TypedIn-edits e (types {xs = xs} {ks = ks} {ls = ls} t w r) =
    ap (λ js. edit_packets xs (edit_all js e)) (Typed-keys w)
    ∙ TypedIn-edits (edit_all ks e) r
    ∙ sym (edit_all-append ks ls e)
TypedIn-edits e (answered t content r) = TypedIn-edits e r

-- While neither Tab nor an arrow up or down is pressed, the command is at any time what an editor
-- has that is given the keys alone, with the pointer at its cursor, and the commands that were
-- reported are those that it gave: however the keys are put into packets, if none is cut in two,
-- whatever the back end answers in between, and even if the log cannot be written. The keys are
-- told by the bytes that a terminal sends for them.
pub parse_all-TypedIn :
    (xs : List Packet) (ks : List Key) (p : Term) (e : Line)
    → TypedIn xs ks
    → All IsPlainKey ks
    → p.tab_press ≡ false
    → p.up_arrow ≡ false
    → Follows p e
    → Follows (parse_all xs p) (edit_all ks e)
parse_all-TypedIn xs ks p e w k t u h =
    subst (Follows (parse_all xs p)) (TypedIn-edits e w)
      (parse_all-Follows xs p e t u (TypedIn-plain w k) h)
