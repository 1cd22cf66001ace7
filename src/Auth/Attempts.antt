-- ===== src/Auth/Attempts.antt =====
-- What the attempts of an address come to under AuthRandom (cowrie/src/cowrie/core/auth.py).
use honeybee_potstore.Base.{
  ℕ, ◌+◌, ◌<◌, ◌≤◌, ◌≡◌, refl, ap, ◌∙◌, Bool, false, List, [], ◌∷◌, some, arith, length,
  length-append, Bool-cases, inl, inr,
}
use honeybee_potstore.Base.Text.{Text, Bytes, contains}
use honeybee_potstore.Base.Dict.{lookup, text_keys}
use honeybee_potstore.Auth.AuthRandom.{
  AuthRandom, IpInfo, or_else, userpass, fill, add_to_cache, returning, attempt, counted, info_of,
  checklogin,
}

length-add_to_cache :
    (m : ℕ) (up : Text) (cache : List Text)
    → length cache ≤ m
    → length (add_to_cache m up cache) ≤ m
unfolding add_to_cache
length-add_to_cache m up [] h = ground arith
length-add_to_cache m up (x ∷ xs) h = ground (arith, length-append xs (up ∷ []))

counted-bounded :
    (x y : Bytes) (src up : Text) (info : IpInfo) (a : AuthRandom)
    → length a.cache ≤ a.maxcache
    → length (counted x y src up info a).1.cache ≤ (counted x y src up info a).1.maxcache
unfolding counted attempt
counted-bounded x y src up info a h = ground (arith, length-add_to_cache a.maxcache up a.cache h)

-- An attempt leaves the cache within the length that the configuration allows, if it was within
-- it.
pub checklogin-bounded :
    (drawn : ℕ) (thelogin thepasswd : Bytes) (src_ip : Text) (a : AuthRandom)
    → length a.cache ≤ a.maxcache
    → length (checklogin drawn thelogin thepasswd src_ip a).1.cache
      ≤ (checklogin drawn thelogin thepasswd src_ip a).1.maxcache
unfolding checklogin
checklogin-bounded drawn x y src a h = elim (Bool-cases (contains (userpass x y) a.cache)) [
  | inl e ↦ rw e h
  | inr e ↦ rw e (counted-bounded x y src (userpass x y) (fill drawn (info_of src a)) a h)
]

-- What is known of an address: `t` attempts that counted, of `m` that are asked for.
abbrev pub Known : Text → AuthRandom → ℕ → ℕ → List Text → Type 0
Known src a t m ts =
    (info : IpInfo) × (lookup src a.uservar ≡ some info)
    × (info.try ≡ some t)
    × (info.max ≡ some m)
    × (info.tried ≡ some ts)

returning-false : (x y : Bytes) (up : Text) (info : IpInfo) → (returning x y up info).0 ≡ false
unfolding returning
returning-false x y up info = ground arith

attempt-late :
    (x y : Bytes) (src up : Text) (info : IpInfo) (attempts need : ℕ) (a : AuthRandom)
    → need < attempts
    → (attempt x y src up info attempts need a).0 ≡ false
unfolding attempt
attempt-late x y src up info attempts need a late = ground (arith, returning-false x y up info)

counted-late :
    (x y : Bytes) (src up : Text) (info : IpInfo) (a : AuthRandom)
    → or_else 0 info.max ≤ or_else 0 info.try
    → (counted x y src up info a).0 ≡ false
unfolding counted
counted-late x y src up info a late = elim (Bool-cases (contains up (or_else [] info.tried))) [
  | inl e ↦ rw e refl
  | inr e ↦ rw e (
      attempt-late x y src up (record info { try = some (or_else 0 info.try + 1) })
        (or_else 0 info.try + 1) (or_else 0 info.max) a (omega arith))
]

-- The attempt of an address that is known, with a pair that is not cached.
checklogin-known :
    (drawn : ℕ) (x y : Bytes) (src : Text) (info : IpInfo) (a : AuthRandom)
    → lookup src a.uservar ≡ some info
    → contains (userpass x y) a.cache ≡ false
    → checklogin drawn x y src a ≡ counted x y src (userpass x y) (fill drawn info) a
unfolding checklogin info_of
checklogin-known drawn x y src info a at miss = rw (miss, at) refl

-- Once an address has had all its attempts, a pair that is not cached fails, the pair of its login
-- too: the code compares the bytes of the name with a text.
pub returning-fails :
    (drawn : ℕ) (thelogin thepasswd : Bytes) (src_ip : Text) (t m : ℕ) (ts : List Text)
    (a : AuthRandom)
    → Known src_ip a t m ts
    → m ≤ t
    → contains (userpass thelogin thepasswd) a.cache ≡ false
    → (checklogin drawn thelogin thepasswd src_ip a).0 ≡ false
unfolding fill
returning-fails drawn x y src t m ts a (info, at, et, em, es) late miss =
    ap (λ (r : Bool × AuthRandom). r.0) (checklogin-known drawn x y src info a at miss)
    ∙ counted-late x y src (userpass x y) (fill drawn info) a (rw (em, et) late)
