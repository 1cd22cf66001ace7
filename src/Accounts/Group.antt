-- ===== src/Accounts/Group.antt =====
-- The class Group (cowrie/src/cowrie/shell/pwd.py).
use honeybee_potstore.Base.{
  List, [], ◌∷◌, ◌++◌, Result, ok, err, key_error, value_error, ◌==◌, if◌then◌else◌,
}
use honeybee_potstore.Base.Int.{ℤ, eqb_ℤ}
use honeybee_potstore.Base.Text.{Text, text_eq}
use honeybee_potstore.Auth.Strings.{split, strip}
use honeybee_potstore.Accounts.Numbers.{parse_int, or_1001}

pub record GrEntry : Type 0 where
  pub gr_name : Text
  pub gr_gid : ℤ
  pub gr_mem : Text

-- The four names on the left take exactly four fields.
unfoldable pub gr_entry : List Text → Result (List GrEntry)
gr_entry (name ∷ (x ∷ (gid ∷ (mem ∷ [])))) =
    ok (record { gr_name = name; gr_gid = or_1001 (parse_int gid); gr_mem = mem } ∷ [])
gr_entry _ = err value_error

unfoldable pub gr_line : Text → Result (List GrEntry)
gr_line [] = ok []
gr_line (c ∷ s) = if c == 35 then ok [] else gr_entry (split 58 (c ∷ s))

abbrev pub both : Result (List GrEntry) → Result (List GrEntry) → Result (List GrEntry)
both (err e) r = err e
both (ok xs) (err e) = err e
both (ok xs) (ok ys) = ok (xs ++ ys)

unfoldable pub load : List Text → Result (List GrEntry)
load [] = ok []
load (rawline ∷ lines) = both (gr_line (strip rawline)) (load lines)

unfoldable pub getgrnam : Text → List GrEntry → Result GrEntry
getgrnam name [] = err key_error
getgrnam name (e ∷ es) = if text_eq name e.gr_name then ok e else getgrnam name es

unfoldable pub getgrgid : ℤ → List GrEntry → Result GrEntry
getgrgid gid [] = err key_error
getgrgid gid (e ∷ es) = if eqb_ℤ gid e.gr_gid then ok e else getgrgid gid es
