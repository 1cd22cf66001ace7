-- ===== src/Auth/UserDb.antt =====
-- The class UserDB (cowrie/src/cowrie/core/auth.py). `re.compile(…).search` is a parameter: the pattern, and
-- whether it ignores case.
use honeybee_potstore.Base.{
  Bool, ◌||◌, true, false, List, [], ◌∷◌, ◌++◌, ◌&&◌, ◌≡◌, ap, Option, none, some, Result, ok, err,
  index_error, not, ◌==◌, if◌then◌else◌, arith,
}
use honeybee_potstore.Base.Text.{Text, Bytes, codes, text_eq, text_eq_refl, text_eq→eq}
use honeybee_potstore.Base.Dict.{Eq, Dict, insert}
use honeybee_potstore.Auth.Strings.{split, strip, has}

-- A rule is a byte string, or a compiled pattern. Patterns are equal if their texts and flags are.
pub data Rule : Type 0 where
  bytes : Bytes → Rule
  pattern : Bytes → Bool → Rule

abbrev pub Search : Type 0
Search = Bytes → Bool → Bytes → Bool

abbrev pub bool_eq : Bool → Bool → Bool
bool_eq true b = b
bool_eq false b = not b

abbrev pub rule_eq : Rule → Rule → Bool
rule_eq (bytes s) (bytes t) = text_eq s t
rule_eq (pattern s b) (pattern t c) = text_eq s t && bool_eq b c
rule_eq _ _ = false

abbrev pub key_eq : Rule × Rule → Rule × Rule → Bool
key_eq k l = rule_eq k.0 l.0 && rule_eq k.1 l.1

rule_eq_refl : (r : Rule) → rule_eq r r ≡ true
rule_eq_refl (bytes s) = text_eq_refl s
rule_eq_refl (pattern s b) = ground (arith, text_eq_refl s)

rule_eq→eq : (r s : Rule) → rule_eq r s ≡ true → r ≡ s
rule_eq→eq (bytes s) (bytes t) h = ap bytes (text_eq→eq s t h)
rule_eq→eq (bytes s) (pattern t c) h = ground arith
rule_eq→eq (pattern s b) (bytes t) h = ground arith
rule_eq→eq (pattern s b) (pattern t c) h = ground (arith, text_eq→eq s t)

pub key_eq_refl : (k : Rule × Rule) → key_eq k k ≡ true
key_eq_refl k = ground (arith, rule_eq_refl k.0, rule_eq_refl k.1)

pub key_eq→eq : (k l : Rule × Rule) → key_eq k l ≡ true → k ≡ l
key_eq→eq k l h = ground (arith, rule_eq→eq k.0 l.0, rule_eq→eq k.1 l.1)

instance abbrev pub rule_keys : Eq (Rule × Rule)
rule_keys = record { beq = key_eq; beq_refl = key_eq_refl; beq→eq = key_eq→eq }

-- The OrderedDict: it keeps the order of insertion, and an update keeps the place.
abbrev pub UserDb : Type 0
UserDb = Dict (Rule × Rule) Bool

-- A list of defaults.
abbrev pub userdb_defaults : List Text
userdb_defaults =
    codes "root:x:!root"
    ∷ codes "root:x:!123456"
    ∷ codes "root:x:!/honeypot/i"
    ∷ codes "root:x:*"
    ∷ codes "phil:x:*"
    ∷ codes "phil:x:fout"
    ∷ []

abbrev pub with_body : Bool → Bytes → Option (Bytes × Bool)
with_body i [] = none
with_body i (c ∷ s) = if has 10 (c ∷ s) then none else some (c ∷ s, i)

-- `(.+)/(i)?$`: what stands before the last `/` or `/i`, one newline at the end passed over.
unfoldable pub closing : Bytes → Bytes → Option (Bytes × Bool)
closing before [] = none
closing before (c ∷ s) =
    let rest = closing (before ++ c ∷ []) s in
    if c == 47 && (text_eq s [] || text_eq s (10 ∷ []))
    then with_body false before
    else if c == 47 && (text_eq s (105 ∷ []) || text_eq s (105 ∷ 10 ∷ []))
    then with_body true before
    else rest

abbrev pub compiled : Bytes → Option (Bytes × Bool) → Rule
compiled rule none = bytes rule
compiled rule (some (s, i)) = pattern s i

unfoldable pub re_or_bytes : Bytes → Rule
unfolding closing
re_or_bytes [] = bytes []
re_or_bytes (c ∷ s) = if c == 47 then compiled (c ∷ s) (closing [] s) else bytes (c ∷ s)

unfoldable pub match_rule : Search → Rule → Bytes → Bool
match_rule search (bytes rule) bs = text_eq rule (42 ∷ []) || text_eq rule bs
match_rule search (pattern s i) bs = search s i bs

unfoldable pub checklogin : Search → UserDb → Bytes → Bytes → Bool
unfolding match_rule
checklogin search [] thelogin thepasswd = false
checklogin search (((login, passwd), policy) ∷ db) thelogin thepasswd =
    let rest = checklogin search db thelogin thepasswd in
    if match_rule search login thelogin
    then (if match_rule search passwd thepasswd then policy else rest)
    else rest

-- An empty password has no first byte.
unfoldable pub adduser : Bytes → Bytes → UserDb → Result UserDb
unfolding re_or_bytes
adduser login [] db = err index_error
adduser login (c ∷ s) db = ok (
    if c == 33
    then insert (re_or_bytes login, re_or_bytes s) false db
    else insert (re_or_bytes login, re_or_bytes (c ∷ s)) true db)

unfoldable pub is_comment : Text → Bool
is_comment [] = false
is_comment (c ∷ s) = c == 35

abbrev pub first_and_third : List Text → Option (Bytes × Bytes)
first_and_third (login ∷ x ∷ password ∷ more) = some (login, strip password)
first_and_third _ = none

-- The login and the password of a line: its first and third field.
unfoldable pub fields : Text → Option (Bytes × Bytes)
fields user = first_and_third (split 58 user)

-- One line: a comment or a line with too few fields is passed over; what `adduser` raises comes
-- through.
unfoldable pub load_line : Text → UserDb → Result UserDb
load_line user db =
    if is_comment user
    then ok db
    else elim (fields user) [ none ↦ ok db | some (login, password) ↦ adduser login password db ]

unfoldable pub load_lines : List Text → UserDb → Result UserDb
load_lines [] db = ok db
load_lines (user ∷ lines) db = elim (load_line user db) [
  | err e ↦ err e
  | ok more ↦ load_lines lines more
]

-- `none` stands for a file that cannot be read.
unfoldable pub load : Option (List Text) → Result UserDb
load none = load_lines userdb_defaults []
load (some lines) = load_lines lines []
