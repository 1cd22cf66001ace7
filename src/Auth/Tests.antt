-- ===== src/Auth/Tests.antt =====
-- Runs of the two ways to log in (cowrie/src/cowrie/core/auth.py).
use honeybee_potstore.Base.{ℕ, ◌≡◌, refl, true, false, List, [], ◌∷◌, some, ◌↔◌}
use honeybee_potstore.Base.Text.{Text, Bytes, text_eq, contains}
use honeybee_potstore.Base.Dict.{lookup}
use honeybee_potstore.Auth.Strings.{str, has, repr_bytes, repr_byte}
use honeybee_potstore.Auth.UserDb.{
  Rule, bytes, pattern, Search, UserDb, match_rule, adduser, re_or_bytes, load_lines, is_comment,
  closing,
}
use honeybee_potstore.Auth.UserDb
use honeybee_potstore.Auth.AuthRandom.{AuthRandom, IpInfo, userpass}
use honeybee_potstore.Auth.Rules.{Allowing, checklogin-Allowing}
use honeybee_potstore.Auth.Counting.{answers, answers-only_last}

abbrev nowhere : Search
nowhere s i bs = false

abbrev root : Bytes
root = 114 ∷ []

abbrev word : ℕ → Bytes
word n = n ∷ []

abbrev two_rules : UserDb
two_rules = ((bytes root, bytes (word 97)), false) ∷ ((bytes root, bytes (word 42)), true) ∷ []

checklogin-Allowing_example :
    (UserDb.checklogin nowhere two_rules root (word 98) ≡ true)
    ↔ Allowing nowhere root (word 98) two_rules
checklogin-Allowing_example = checklogin-Allowing nowhere two_rules root (word 98)

abbrev three_rules : UserDb
three_rules =
    ((bytes root, bytes (word 97)), false)
    ∷ ((bytes root, bytes (word 42)), true)
    ∷ ((bytes (word 112), bytes (word 98)), false)
    ∷ []

abbrev info : IpInfo
info = record {
  try = some 3;
  max = some 2;
  tried = some [];
  user = some (98 ∷ 39 ∷ 114 ∷ 39 ∷ []);
  pw = some (98 ∷ 39 ∷ 97 ∷ 39 ∷ []);
}

abbrev address : Text
address = 49 ∷ []

abbrev auth_of : List (Text × IpInfo) → AuthRandom
auth_of uservar = record { mintry = 2; maxtry = 5; maxcache = 1; cache = []; uservar = uservar }

answers-only_last_example :
    answers 2 address ((root, word 97) ∷ (root, word 98) ∷ []) (auth_of []) ≡ false ∷ true ∷ []
unfolding lookup contains text_eq userpass str has repr_bytes repr_byte
answers-only_last_example =
    answers-only_last 2 address ((root, word 97) ∷ (root, word 98) ∷ []) (auth_of []) refl
      (refl, refl, (refl, refl, tt)) refl
