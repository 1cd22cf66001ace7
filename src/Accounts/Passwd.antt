-- ===== src/Accounts/Passwd.antt =====
-- The class Passwd (cowrie/src/cowrie/shell/pwd.py).
use honeybee_potstore.Base.{
  ℕ, List, [], ◌∷◌, ◌++◌, Option, none, some, Result, ok, err, key_error, ◌==◌, if◌then◌else◌,
}
use honeybee_potstore.Base.Int.{ℤ, pos, eqb_ℤ}
use honeybee_potstore.Base.Text.{Text, text_eq, codes}
use honeybee_potstore.Auth.Strings.{split, strip}
use honeybee_potstore.Accounts.Numbers.{parse_int, or_1001}

-- `pw_gecos` is a text, or the number 0 in an entry that `setpwentry` makes: `none`.
pub record PwEntry : Type 0 where
  pub pw_name : Text
  pub pw_passwd : Text
  pub pw_gecos : Option Text
  pub pw_dir : Text
  pub pw_shell : Text
  pub pw_uid : ℤ
  pub pw_gid : ℤ

-- A line of seven fields is an entry.
unfoldable pub pw_entry : List Text → List PwEntry
pw_entry (name ∷ (passwd ∷ (uid ∷ (gid ∷ (gecos ∷ (home ∷ (shell ∷ []))))))) =
    record {
      pw_name = name;
      pw_passwd = passwd;
      pw_gecos = some gecos;
      pw_dir = home;
      pw_shell = shell;
      pw_uid = or_1001 (parse_int uid);
      pw_gid = or_1001 (parse_int gid);
    }
    ∷ []
pw_entry _ = []

-- An empty line and a comment are passed over.
unfoldable pub pw_line : Text → List PwEntry
pw_line [] = []
pw_line (c ∷ s) = if c == 35 then [] else pw_entry (split 58 (c ∷ s))

unfoldable pub load : List Text → List PwEntry
load [] = []
load (rawline ∷ lines) = pw_line (strip rawline) ++ load lines

unfoldable pub getpwnam : Text → List PwEntry → Result PwEntry
getpwnam name [] = err key_error
getpwnam name (e ∷ es) = if text_eq e.pw_name name then ok e else getpwnam name es

unfoldable pub getpwuid : ℤ → List PwEntry → Result PwEntry
getpwuid uid [] = err key_error
getpwuid uid (e ∷ es) = if eqb_ℤ uid e.pw_uid then ok e else getpwuid uid es

-- `id` is what `randint(1500, 10000)` draws after `seed(crc32(name))`.
unfoldable pub new_entry : Text → ℕ → PwEntry
new_entry name id = record {
  pw_name = name;
  pw_passwd = codes "x";
  pw_gecos = none;
  pw_dir = codes "/home/" ++ name;
  pw_shell = codes "/bin/bash";
  pw_uid = pos id;
  pw_gid = pos id;
}

-- The generator is seeded by the name, so that what it draws is a function of the name.
unfoldable pub setpwentry : (Text → ℕ) → Text → List PwEntry → PwEntry × List PwEntry
setpwentry draw name passwd = let e = new_entry name (draw name) in (e, passwd ++ e ∷ [])
