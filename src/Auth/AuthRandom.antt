-- ===== src/Auth/AuthRandom.antt =====
-- The class AuthRandom (cowrie/src/cowrie/core/auth.py). `randint` is a parameter: the number that it draws. The
-- file that the state is saved to is left out.
use honeybee_potstore.Base.{
  ℕ, ◌+◌, Bool, true, false, List, [], ◌∷◌, ◌++◌, Option, none, some, length, ltb, ◌==◌,
  if◌then◌else◌,
}
use honeybee_potstore.Base.Text.{Text, Bytes, text_eq, contains}
use honeybee_potstore.Base.Dict.{Dict, lookup, insert, text_keys}
use honeybee_potstore.Auth.Strings.{str}

-- The dict that is kept for an address; a missing key is `none`.
pub record IpInfo : Type 0 where
  pub try : Option ℕ
  pub max : Option ℕ
  pub tried : Option (List Text)
  pub user : Option Text
  pub pw : Option Text

-- The key "cache" of the one dict `uservar` is a field of its own: no address is spelled so.
pub record AuthRandom : Type 0 where
  pub mintry : ℕ
  pub maxtry : ℕ
  pub maxcache : ℕ
  pub cache : List Text
  pub uservar : Dict Text IpInfo

-- The constructor, with the three parameters of the configuration or none, and no saved state.
abbrev pub parameters_or_default : Option (ℕ × ℕ × ℕ) → ℕ × ℕ × ℕ
parameters_or_default none = (2, 5, 10)
parameters_or_default (some p) = p

unfoldable pub new_auth : Option (ℕ × ℕ × ℕ) → AuthRandom
new_auth parameters =
    let (mintry, maxtry, maxcache) = parameters_or_default parameters in
    record {
      mintry = mintry;
      maxtry = if ltb maxtry mintry then mintry + 1 else maxtry;
      maxcache = maxcache;
      cache = [];
      uservar = [];
    }

abbrev pub no_info : IpInfo
no_info = record { try = none; max = none; tried = none; user = none; pw = none }

abbrev pub or_else : {A : Type 0} → A → Option A → A
or_else d none = d
or_else d (some a) = a

unfoldable pub userpass : Bytes → Bytes → Text
userpass thelogin thepasswd = str thelogin ++ 58 ∷ str thepasswd

-- A pair that is cached lets the address in.
unfoldable pub let_in : Bytes → Bytes → IpInfo → IpInfo
let_in thelogin thepasswd info = record info {
  max = some 1;
  user = some (str thelogin);
  pw = some (str thepasswd);
}

-- What is known of an address, with the missing entries filled in.
unfoldable pub fill : ℕ → IpInfo → IpInfo
fill drawn info = record info {
  max = some (or_else drawn info.max);
  try = some (or_else 0 info.try);
  tried = some (or_else [] info.tried);
}

unfoldable pub add_to_cache : ℕ → Text → List Text → List Text
add_to_cache maxcache up cache = drop_first (cache ++ up ∷ [])
  where
    drop_first : List Text → List Text
    drop_first [] = []
    drop_first (x ∷ xs) = if ltb maxcache (length (x ∷ xs)) then xs else x ∷ xs

abbrev pub store : Text → IpInfo → AuthRandom → AuthRandom
store src_ip info a = record a { uservar = insert src_ip info a.uservar }

-- Bytes are never equal to a `str`.
abbrev pub bytes_is_str : Bytes → Text → Bool
bytes_is_str bs s = false

-- After the login: the state, and what a later attempt with other data comes to.
unfoldable pub returning : Bytes → Bytes → Text → IpInfo → Bool × IpInfo
returning thelogin thepasswd up info = elim info.user [
  | none ↦ unset_login
  | some user ↦ elim info.pw [
    | none ↦ unset_login
    | some pw ↦ (if bytes_is_str thelogin user then text_eq (str thepasswd) pw else false, info)
  ]
]
  where
    unset_login : Bool × IpInfo
    unset_login =
        (false, record info { tried = some (or_else [] info.tried ++ up ∷ []); try = some 1 })

-- An attempt that counts, the `attempts`-th of the address where `need` are asked for.
unfoldable pub attempt :
    Bytes → Bytes → Text → Text → IpInfo → ℕ → ℕ → AuthRandom → Bool × AuthRandom
attempt thelogin thepasswd src_ip up info attempts need a =
    if ltb attempts need
    then (false, store src_ip (record info { tried = some (or_else [] info.tried ++ up ∷ []) }) a)
    else if attempts == need
    then (
      true,
      store src_ip (record info { user = some (str thelogin); pw = some (str thepasswd) })
          (record a { cache = add_to_cache a.maxcache up a.cache }),
    )
    else (let r = returning thelogin thepasswd up info in (r.0, store src_ip r.1 a))

-- A pair that the address has tried already is not counted.
unfoldable pub counted : Bytes → Bytes → Text → Text → IpInfo → AuthRandom → Bool × AuthRandom
counted thelogin thepasswd src_ip up info a =
    if contains up (or_else [] info.tried)
    then (false, store src_ip info a)
    else (let attempts = or_else 0 info.try + 1 in
        attempt thelogin thepasswd src_ip up (record info { try = some attempts }) attempts
          (or_else 0 info.max) a)

-- For a new address `max` is drawn, and `try` is 0; `drawn` is what `randint` gives.
unfoldable pub info_of : Text → AuthRandom → IpInfo
info_of src_ip a = or_else (record no_info { try = some 0 }) (lookup src_ip a.uservar)

unfoldable pub checklogin : ℕ → Bytes → Bytes → Text → AuthRandom → Bool × AuthRandom
checklogin drawn thelogin thepasswd src_ip a =
    let up = userpass thelogin thepasswd in
    let info = info_of src_ip a in
    if contains up a.cache
    then (true, store src_ip (let_in thelogin thepasswd info) a)
    else counted thelogin thepasswd src_ip up (fill drawn info) a
