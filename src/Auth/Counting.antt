-- ===== src/Auth/Counting.antt =====
-- A run of attempts of one new address under AuthRandom (cowrie/src/cowrie/core/auth.py).
use mathlib.Core.Path.{subst}
use honeybee_potstore.Base.{
  ℕ, zero, suc, ◌+◌, ◌<◌, ◌≡◌, refl, ap, sym, ◌∙◌, Bool, true, false, List, [], ◌∷◌, ◌++◌, Option,
  none, some, arith, length,
}
use honeybee_potstore.Base.Text.{Text, Bytes, contains}
use honeybee_potstore.Base.Dict.{lookup, lookup-insert, text_keys}
use honeybee_potstore.Auth.AuthRandom.{
  AuthRandom, IpInfo, or_else, userpass, fill, store, attempt, counted, info_of, checklogin,
}

-- The attempts of one address, in order, and their answers.
abbrev pub answers : ℕ → Text → List (Bytes × Bytes) → AuthRandom → List Bool
answers drawn src_ip [] a = []
answers drawn src_ip ((x, y) ∷ rest) a =
    (checklogin drawn x y src_ip a).0 ∷ answers drawn src_ip rest (checklogin drawn x y src_ip a).1

-- Only the last of `n` answers lets the address in.
abbrev pub only_last : ℕ → List Bool
only_last zero = []
only_last (suc zero) = true ∷ []
only_last (suc (suc n)) = false ∷ only_last (suc n)

-- Pairs that differ from each other, from those tried before, and from those in the cache.
abbrev pub Untried : List Text → List Text → List (Bytes × Bytes) → Type 0
Untried cache ts [] = Unit
Untried cache ts ((x, y) ∷ rest) =
    (contains (userpass x y) cache ≡ false)
    × (contains (userpass x y) ts ≡ false)
    × Untried cache (ts ++ userpass x y ∷ []) rest

attempt-early :
    (x y : Bytes) (src up : Text) (info : IpInfo) (attempts need : ℕ) (a : AuthRandom)
    → attempts < need
    → attempt x y src up info attempts need a
      ≡ (false, store src (record info { tried = some (or_else [] info.tried ++ up ∷ []) }) a)
unfolding attempt
attempt-early x y src up info attempts need a early = ground arith

attempt-last :
    (x y : Bytes) (src up : Text) (info : IpInfo) (attempts need : ℕ) (a : AuthRandom)
    → attempts ≡ need
    → (attempt x y src up info attempts need a).0 ≡ true
unfolding attempt
attempt-last x y src up info attempts need a e = ground arith

counted-new :
    (x y : Bytes) (src up : Text) (info : IpInfo) (a : AuthRandom)
    → contains up (or_else [] info.tried) ≡ false
    → counted x y src up info a
      ≡ attempt x y src up
          (record info { try = some (or_else 0 info.try + 1) })
          (or_else 0 info.try + 1)
          (or_else 0 info.max)
          a
unfolding counted
counted-new x y src up info a e = rw e refl

abbrev full : ℕ → ℕ → List Text → Option Text → Option Text → IpInfo
full t m ts user pw = record { try = some t; max = some m; tried = some ts; user = user; pw = pw }

abbrev Counting : ℕ → Text → AuthRandom → ℕ → ℕ → List Text → Type 0
Counting drawn src a t m ts =
    (user : Option Text) × (pw : Option Text) × (fill drawn (info_of src a) ≡ full t m ts user pw)

checklogin-counted :
    (drawn : ℕ) (x y : Bytes) (src : Text) (a : AuthRandom) (info : IpInfo)
    → fill drawn (info_of src a) ≡ info
    → contains (userpass x y) a.cache ≡ false
    → contains (userpass x y) (or_else [] info.tried) ≡ false
    → checklogin drawn x y src a
      ≡ attempt x y src
          (userpass x y)
          (record info { try = some (or_else 0 info.try + 1) })
          (or_else 0 info.try + 1)
          (or_else 0 info.max)
          a
unfolding checklogin
checklogin-counted drawn x y src a info q miss new =
    rw (miss, q) (counted-new x y src (userpass x y) info a new)

fill-store :
    (drawn : ℕ) (src : Text) (a : AuthRandom) (t m : ℕ) (ts : List Text) (user pw : Option Text)
    → fill drawn (info_of src (store src (full t m ts user pw) a)) ≡ full t m ts user pw
unfolding fill info_of
fill-store drawn src a t m ts user pw =
    rw (lookup-insert src src (full t m ts user pw) a.uservar, text_keys.beq_refl src) refl

step-early :
    (drawn : ℕ) (x y : Bytes) (src : Text) (a : AuthRandom) (t m : ℕ) (ts : List Text)
    → Counting drawn src a t m ts
    → contains (userpass x y) a.cache ≡ false
    → contains (userpass x y) ts ≡ false
    → t + 1 < m
    → let r = checklogin drawn x y src a in
      (r.0 ≡ false)
      × (r.1.cache ≡ a.cache)
      × Counting drawn src r.1 (t + 1) m (ts ++ userpass x y ∷ [])
step-early drawn x y src a t m ts (user, pw, q) miss new early =
    rw
      (
        checklogin-counted drawn x y src a (full t m ts user pw) q miss new,
        attempt-early x y src (userpass x y) (full (t + 1) m ts user pw) (t + 1) m a early,
      )
      (refl, refl, (user, pw, fill-store drawn src a (t + 1) m (ts ++ userpass x y ∷ []) user pw))

step-last :
    (drawn : ℕ) (x y : Bytes) (src : Text) (a : AuthRandom) (t m : ℕ) (ts : List Text)
    → Counting drawn src a t m ts
    → contains (userpass x y) a.cache ≡ false
    → contains (userpass x y) ts ≡ false
    → t + 1 ≡ m
    → (checklogin drawn x y src a).0 ≡ true
step-last drawn x y src a t m ts (user, pw, q) miss new e =
    rw (checklogin-counted drawn x y src a (full t m ts user pw) q miss new)
      (attempt-last x y src (userpass x y) (full (t + 1) m ts user pw) (t + 1) m a e)

answers-Counting :
    (drawn : ℕ) (src : Text) (pairs : List (Bytes × Bytes)) (a : AuthRandom) (t m : ℕ)
    (ts : List Text)
    → Counting drawn src a t m ts
    → Untried a.cache ts pairs
    → t + length pairs ≡ m
    → answers drawn src pairs a ≡ only_last (length pairs)
answers-Counting drawn src [] a t m ts c u e = refl
answers-Counting drawn src ((x, y) ∷ []) a t m ts c u e =
    ap (λ b. b ∷ []) (step-last drawn x y src a t m ts c u.0 u.1 (omega (arith, e)))
answers-Counting drawn src ((x, y) ∷ (z ∷ rest)) a t m ts c u e =
    let s = step-early drawn x y src a t m ts c u.0 u.1 (omega (arith, e)) in
    let later =
      answers-Counting drawn src (z ∷ rest) (checklogin drawn x y src a).1 (t + 1) m _ s.2
        (subst (λ (cache : List Text). Untried cache (ts ++ userpass x y ∷ []) (z ∷ rest)) (sym s.1)
          u.2)
        (omega (arith, e)) in
    ap (λ b. b ∷ answers drawn src (z ∷ rest) (checklogin drawn x y src a).1) s.0
    ∙ ap (◌∷◌ false) later

Counting-new :
    (drawn : ℕ) (src : Text) (a : AuthRandom)
    → lookup src a.uservar ≡ none
    → Counting drawn src a 0 drawn []
unfolding fill info_of
Counting-new drawn src a e = (none, none, rw e refl)

-- An address that is new logs in with exactly the last of as many attempts as were drawn for it,
-- if their pairs differ from each other and none is in the cache.
pub answers-only_last :
    (drawn : ℕ) (src_ip : Text) (pairs : List (Bytes × Bytes)) (a : AuthRandom)
    → lookup src_ip a.uservar ≡ none
    → Untried a.cache [] pairs
    → length pairs ≡ drawn
    → answers drawn src_ip pairs a ≡ only_last drawn
answers-only_last drawn src pairs a fresh u e =
    answers-Counting drawn src pairs a 0 drawn [] (Counting-new drawn src a fresh) u
      (omega (arith, e))
    ∙ ap only_last e
