-- ===== src/Accounts/Entries.antt =====
-- What is found of the accounts (cowrie/src/cowrie/shell/pwd.py): an earlier entry hides a later one.
use honeybee_potstore.Base.{
  ℕ, ◌≡◌, refl, ap, sym, ◌∙◌, List, [], ◌∷◌, ◌++◌, Result, ok, err, key_error, arith, Bool-cases,
  inl, inr, if◌then◌else◌,
}
use honeybee_potstore.Base.Int.{ℤ, eqb_ℤ}
use honeybee_potstore.Base.Text.{Text, text_eq, text_eq→eq}
use honeybee_potstore.Auth.Strings.{strip}
use honeybee_potstore.Accounts.Passwd.{
  PwEntry, pw_line, load, getpwnam, getpwuid, new_entry, setpwentry,
}
use mathlib.Core.List.{append_assoc}

-- The first result, or else the second.
abbrev pub or_then : {A : Type 0} → Result A → Result A → Result A
or_then (ok a) r = ok a
or_then (err e) r = r

getpwnam-append :
    (name : Text) (xs ys : List PwEntry)
    → getpwnam name (xs ++ ys) ≡ or_then (getpwnam name xs) (getpwnam name ys)
unfolding getpwnam
getpwnam-append name [] ys = refl
getpwnam-append name (x ∷ xs) ys = ground (arith, getpwnam-append name xs ys)

getpwuid-append :
    (uid : ℤ) (xs ys : List PwEntry)
    → getpwuid uid (xs ++ ys) ≡ or_then (getpwuid uid xs) (getpwuid uid ys)
unfolding getpwuid
getpwuid-append uid [] ys = refl
getpwuid-append uid (x ∷ xs) ys = elim (Bool-cases (eqb_ℤ uid x.pw_uid)) [
  | inl e ↦ rw e refl
  | inr e ↦ rw e (getpwuid-append uid xs ys)
]

load-append : (xs ys : List Text) → load (xs ++ ys) ≡ load xs ++ load ys
unfolding load
load-append [] ys = refl
load-append (x ∷ xs) ys =
    ap (◌++◌ (pw_line (strip x))) (load-append xs ys)
    ∙ sym (append_assoc (pw_line (strip x)) (load xs) (load ys))

-- Of two parts of the file the first decides, by name and by number; the second is asked only for
-- what the first does not have.
pub load-first :
    (name : Text) (uid : ℤ) (xs ys : List Text)
    → (getpwnam name (load (xs ++ ys))
        ≡ or_then (getpwnam name (load xs)) (getpwnam name (load ys)))
      × (getpwuid uid (load (xs ++ ys)) ≡ or_then (getpwuid uid (load xs)) (getpwuid uid (load ys)))
load-first name uid xs ys = (
  ap (getpwnam name) (load-append xs ys) ∙ getpwnam-append name (load xs) (load ys),
  ap (getpwuid uid) (load-append xs ys) ∙ getpwuid-append uid (load xs) (load ys),
)

or_then-key_error :
    (name : Text) (xs : List PwEntry)
    → or_then (getpwnam name xs) (err key_error) ≡ getpwnam name xs
unfolding getpwnam
or_then-key_error name [] = refl
or_then-key_error name (x ∷ xs) = ground (arith, or_then-key_error name xs)

pw_name-new_entry : (name : Text) (id : ℕ) → (new_entry name id).pw_name ≡ name
unfolding new_entry
pw_name-new_entry name id = refl

getpwnam-one :
    (name other : Text) (id : ℕ)
    → getpwnam other (new_entry name id ∷ [])
      ≡ (if text_eq name other then ok (new_entry name id) else err key_error)
unfolding getpwnam
getpwnam-one name other id = rw (pw_name-new_entry name id) refl

-- A user that is not in the file is found after `setpwentry`, with the entry that it made, and
-- every other name is looked up as before.
pub setpwentry-getpwnam :
    (draw : Text → ℕ) (name other : Text) (passwd : List PwEntry)
    → getpwnam name passwd ≡ err key_error
    → let (e, after) = setpwentry draw name passwd in
      getpwnam other after ≡ (if text_eq name other then ok e else getpwnam other passwd)
unfolding setpwentry
setpwentry-getpwnam draw name other passwd unknown =
    let e = new_entry name (draw name) in
    getpwnam-append other passwd (e ∷ [])
    ∙ ap (or_then (getpwnam other passwd)) (getpwnam-one name other (draw name))
    ∙ elim (Bool-cases (text_eq name other)) [
      | inl same ↦
          let missing : getpwnam other passwd ≡ err key_error =
            ap (λ n. getpwnam n passwd) (sym (text_eq→eq name other same)) ∙ unknown in
          rw (same, missing) refl
      | inr differ ↦ rw differ (or_then-key_error other passwd)
    ]
