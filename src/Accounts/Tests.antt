-- ===== src/Accounts/Tests.antt =====
-- Look-ups in a short file of accounts (cowrie/src/cowrie/shell/pwd.py).
use honeybee_potstore.Base.{◌≡◌, refl, [], ◌∷◌, List, ok}
use honeybee_potstore.Base.Text.{Text, text_eq, codes}
use honeybee_potstore.Accounts.Passwd.{PwEntry, getpwnam, new_entry, setpwentry}
use honeybee_potstore.Accounts.Entries.{setpwentry-getpwnam}

abbrev first_part : List Text
first_part = codes "root:x:0:0:root:/root:/bin/bash" ∷ codes "# none" ∷ []

abbrev second_part : List Text
second_part = codes "root:x:7:7::/:/bin/sh" ∷ codes "phil:x:1000:1000::/home/phil:/bin/sh" ∷ []

abbrev someone : PwEntry
someone = new_entry (codes "a") 1600

setpwentry-getpwnam_example :
    getpwnam (codes "b") (setpwentry (λ name. 2000) (codes "b") (someone ∷ [])).1
    ≡ ok (setpwentry (λ name. 2000) (codes "b") (someone ∷ [])).0
unfolding getpwnam new_entry text_eq
setpwentry-getpwnam_example =
    setpwentry-getpwnam (λ name. 2000) (codes "b") (codes "b") (someone ∷ []) refl
