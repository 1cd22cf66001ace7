-- ===== src/Auth/Rules.antt =====
-- What the rules of UserDB (cowrie/src/cowrie/core/auth.py) come to.
use honeybee_potstore.Base.{
  ℕ, ◌≡◌, refl, ap, sym, ◌∙◌, Bool, true, false, List, [], ◌∷◌, ◌++◌, ◌&&◌, ◌||◌, not, none, some,
  ok, err, index_error, ok-injective, arith, All, if◌then◌else◌, ◌==◌, Bool-cases, inl, inr, ◌↔◌,
}
use honeybee_potstore.Base.Text.{Text, Bytes}
use honeybee_potstore.Base.Dict.{lookup, insert}
use honeybee_potstore.Auth.Strings.{split-append, split_none, strip, strip_left, strip_right, has}
use honeybee_potstore.Auth.UserDb.{
  Rule, Search, UserDb, match_rule, checklogin, adduser, re_or_bytes, fields, first_and_third,
  load_line, load_lines, is_comment, rule_keys, key_eq,
}

abbrev pub hits : Search → Bytes → Bytes → Rule × Rule → Bool
hits search thelogin thepasswd k = match_rule search k.0 thelogin && match_rule search k.1 thepasswd

abbrev pub Misses : Search → Bytes → Bytes → UserDb → Type 0
Misses search thelogin thepasswd db = All (λ e. hits search thelogin thepasswd e.0 ≡ false) db

-- The rules up to the first that a login and a password hit, which allows them.
abbrev pub Allowing : Search → Bytes → Bytes → UserDb → Type 0
Allowing search thelogin thepasswd db =
    (xs : UserDb) × (k : Rule × Rule) × (ys : UserDb) × (db ≡ xs ++ (k, true) ∷ ys)
    × (hits search thelogin thepasswd k ≡ true)
    × Misses search thelogin thepasswd xs

checklogin-cons :
    (search : Search) (x y : Bytes) (k : Rule × Rule) (policy : Bool) (db : UserDb)
    → checklogin search ((k, policy) ∷ db) x y
      ≡ (if hits search x y k then policy else checklogin search db x y)
unfolding checklogin
checklogin-cons search x y k policy db = ground arith

skip-Allowing :
    (search : Search) (x y : Bytes) (e : (Rule × Rule) × Bool) (db : UserDb)
    → hits search x y e.0 ≡ false
    → Allowing search x y db
    → Allowing search x y (e ∷ db)
skip-Allowing search x y e db miss (xs, k, ys, q, hit, misses) =
    (e ∷ xs, k, ys, ap (◌∷◌ e) q, hit, (miss, misses))

to-Allowing :
    (search : Search) (x y : Bytes) (db : UserDb)
    → checklogin search db x y ≡ true
    → Allowing search x y db
unfolding checklogin
to-Allowing search x y [] h = cc
to-Allowing search x y ((k, policy) ∷ db) h = elim (Bool-cases (hits search x y k)) [
  | inl hit ↦
      let allow : policy ≡ true = sym (checklogin-cons search x y k policy db ∙ rw hit refl) ∙ h in
      ([], k, db, rw allow refl, hit, tt)
  | inr miss ↦
      skip-Allowing search x y (k, policy) db miss
        (to-Allowing search x y db
          (sym (checklogin-cons search x y k policy db ∙ rw miss refl) ∙ h))
]

from-split :
    (search : Search) (x y : Bytes) (xs : UserDb) (k : Rule × Rule) (ys : UserDb)
    → hits search x y k ≡ true
    → Misses search x y xs
    → checklogin search (xs ++ (k, true) ∷ ys) x y ≡ true
from-split search x y [] k ys hit m = checklogin-cons search x y k true ys ∙ rw hit refl
from-split search x y ((j, policy) ∷ xs) k ys hit m =
    checklogin-cons search x y j policy (xs ++ (k, true) ∷ ys)
    ∙ rw (m.0) (from-split search x y xs k ys hit m.1)

-- A login is let in exactly if the first rule that its name and password hit allows it.
pub checklogin-Allowing :
    (search : Search) (db : UserDb) (thelogin thepasswd : Bytes)
    → (checklogin search db thelogin thepasswd ≡ true) ↔ Allowing search thelogin thepasswd db
checklogin-Allowing search db x y = (
  to-Allowing search x y db,
  λ (xs, k, ys, q, hit, misses).
      ap (λ (d : UserDb). checklogin search d x y) q ∙ from-split search x y xs k ys hit misses,
)

-- Some rule is hit.
pub any_hit : Search → Bytes → Bytes → UserDb → Bool
any_hit search x y [] = false
any_hit search x y ((k, policy) ∷ db) = hits search x y k || any_hit search x y db

checklogin-insert :
    (search : Search) (x y : Bytes) (k : Rule × Rule) (policy : Bool) (db : UserDb)
    → lookup k db ≡ none
    → checklogin search (insert k policy db) x y
      ≡ (if any_hit search x y db then checklogin search db x y else hits search x y k && policy)
unfolding any_hit insert lookup checklogin
checklogin-insert search x y k policy [] new = ground arith
checklogin-insert search x y k policy ((j, q) ∷ db) new = elim (Bool-cases (key_eq j k)) [
  | inl e ↦ absurd (ground arith)
  | inr e ↦
      let rest = checklogin-insert search x y k policy db (sym (rw e refl) ∙ new) in
      rw e (ground (arith, rest))
]

-- The key of a rule: a `!` before the password is not a part of it.
abbrev pub rule_of : Bytes → ℕ → Bytes → Rule × Rule
rule_of login c s = (re_or_bytes login, if c == 33 then re_or_bytes s else re_or_bytes (c ∷ s))

adduser-insert :
    (login : Bytes) (c : ℕ) (s : Bytes) (db : UserDb)
    → adduser login (c ∷ s) db ≡ ok (insert (rule_of login c s) (not (c == 33)) db)
unfolding adduser
adduser-insert login c s db = elim (Bool-cases (c == 33)) [
  | inl deny ↦ rw deny refl
  | inr allow ↦ rw allow refl
]

-- A rule for a new pair stands last: it is asked only where no rule before it is hit, and it denies
-- exactly if its password field starts with `!`.
pub adduser-last :
    (search : Search) (login : Bytes) (c : ℕ) (s thelogin thepasswd : Bytes) (db d : UserDb)
    → lookup (rule_of login c s) db ≡ none
    → adduser login (c ∷ s) db ≡ ok d
    → checklogin search d thelogin thepasswd ≡ (
        if any_hit search thelogin thepasswd db
        then checklogin search db thelogin thepasswd
        else hits search thelogin thepasswd (rule_of login c s) && not (c == 33))
adduser-last search login c s x y db d new e =
    ap (λ (r : UserDb). checklogin search r x y)
      (ok-injective (sym e ∙ adduser-insert login c s db))
    ∙ checklogin-insert search x y (rule_of login c s) (not (c == 33)) db new

is_comment-append :
    (login rest : Text) → is_comment login ≡ false → is_comment (login ++ 58 ∷ rest) ≡ false
unfolding is_comment
is_comment-append [] rest h = refl
is_comment-append (c ∷ s) rest h = h

fields_empty :
    (login x : Text)
    → has 58 login ≡ false
    → has 58 x ≡ false
    → fields (login ++ 58 ∷ (x ++ 58 ∷ [])) ≡ some (login, [])
unfolding fields strip strip_left strip_right
fields_empty login x hl hx = ap first_and_third (
    split-append 58 login (x ++ 58 ∷ []) hl
    ∙ ap (◌∷◌ login) (split-append 58 x [] hx ∙ ap (◌∷◌ x) (split_none 58)))

load_line-empty :
    (login x : Text) (db : UserDb)
    → has 58 login ≡ false
    → has 58 x ≡ false
    → is_comment login ≡ false
    → load_line (login ++ 58 ∷ (x ++ 58 ∷ [])) db ≡ err index_error
unfolding load_line adduser
load_line-empty login x db hl hx first =
    rw (is_comment-append login (x ++ 58 ∷ []) first, fields_empty login x hl hx) refl

-- A line of three fields that is no comment and whose password field is empty stops the load with
-- IndexError, whatever lines follow it.
pub load_lines-empty :
    (login x : Text) (lines : List Text) (db : UserDb)
    → has 58 login ≡ false
    → has 58 x ≡ false
    → is_comment login ≡ false
    → load_lines ((login ++ 58 ∷ (x ++ 58 ∷ [])) ∷ lines) db ≡ err index_error
unfolding load_lines
load_lines-empty login x lines db hl hx first =
    rw (load_line-empty login x db hl hx first, load_lines) refl
