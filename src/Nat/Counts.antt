-- ===== src/Nat/Counts.antt =====
-- NATService (cowrie/src/backend_pool/nat.py) against its specification: for each guest a number of
-- clients, which a request raises and a release lowers.
use mathlib.Core.Path.{subst}
use honeybee_potstore.Base.{
  ℕ, ◌≡◌, refl, ◌∙◌, sym, ap, Bool, true, false, List, [], ◌∷◌, Option, none, some, ok, arith,
  Option-cases, Bool-cases, inl, inr, ◌⊎◌, ◌==◌, if◌then◌else◌, ok-injective,
}
use honeybee_potstore.Base.Int.{ℤ, pos, ◌≤ℤ◌, ◌+ℤ◌, ◌-ℤ◌, leb_ℤ, int_laws}
use honeybee_potstore.Base.Dict.{Dict, lookup, insert, erase, nat_eq, lookup-insert}
use honeybee_potstore.Nat.{
  Binding, NatService, init, new_binding, joined, left, request_binding, free_binding, free_all,
}
use honeybee_potstore.Nat.Bindings.{IsValid, Entries, Fresh}
use honeybee_potstore.Nat.Requests.{
  request_new, request_old, request-Entries, free-Entries, free_last, free_more, free_missing,
  request-IsValid, free-IsValid, Entries-get,
}

abbrev connected_or : Option Binding → ℤ
connected_or none = pos 0
connected_or (some b) = b.connected

-- The clients of a guest; a guest with no entry has none.
abbrev pub clients : ℕ → NatService → ℤ
clients id n = connected_or (lookup id n.bindings)

abbrev one_if : Bool → ℤ
one_if b = if b then pos 1 else pos 0

lookup-erase_other :
    (k j : ℕ) (d : Dict ℕ Binding) → (k == j) ≡ false → lookup j (erase k d) ≡ lookup j d
unfolding lookup erase
lookup-erase_other k j [] h = refl
lookup-erase_other k j ((i, x) ∷ d) h = ground (arith, lookup-erase_other k j d)

lookup-erase_self : (k : ℕ) (d : Dict ℕ Binding) → Entries d → lookup k (erase k d) ≡ none
unfolding lookup erase
lookup-erase_self k [] v = refl
lookup-erase_self k ((i, x) ∷ d) v = ground (arith, lookup-erase_self k d v.2)

joined_connected : (b : Binding) → (joined b).connected ≡ b.connected +ℤ pos 1
unfolding joined
joined_connected b = refl

left_connected : (b : Binding) → (left b).connected ≡ b.connected -ℤ pos 1
unfolding left
left_connected b = refl

new_connected : (s t : ℕ) → (new_binding s t).connected ≡ pos 1
unfolding new_binding
new_connected s t = refl

add_zero : (c : ℤ) → c ≡ c +ℤ pos 0
add_zero c = omega int_laws

sub_zero : (c : ℤ) → c ≡ c -ℤ pos 0
sub_zero c = omega int_laws

-- An update of the entry of `id` by `f`, read at `j`.
at_key :
    (f : ℤ → ℤ → ℤ) (id j : ℕ) (v : ℤ) (d : Dict ℕ Binding)
    → ((c : ℤ) → c ≡ f c (pos 0))
    → connected_or (lookup id d) ≡ v
    → (if id == j then f v (pos 1) else connected_or (lookup j d))
      ≡ f (connected_or (lookup j d)) (one_if (id == j))
at_key f id j v d z e = elim (Bool-cases (id == j)) [
  | inl hit ↦ let q : id ≡ j = ground arith in rw (hit, ← q, e)
  | inr miss ↦ rw miss (z (connected_or (lookup j d)))
]

connected-insert :
    (id j : ℕ) (c : Binding) (d : Dict ℕ Binding)
    → connected_or (lookup j (insert id c d))
      ≡ (if id == j then c.connected else connected_or (lookup j d))
connected-insert id j c d = elim (Bool-cases (id == j)) [
  | inl hit ↦ rw (lookup-insert id j c d, hit)
  | inr miss ↦ rw (lookup-insert id j c d, miss)
]

connected-erase :
    (id j : ℕ) (d : Dict ℕ Binding)
    → Entries d
    → (w : ℤ) → pos 0 ≡ w
    → connected_or (lookup j (erase id d)) ≡ (if id == j then w else connected_or (lookup j d))
connected-erase id j d v w z = elim (Bool-cases (id == j)) [
  | inl hit ↦
      let q : id ≡ j = ground arith in
      rw (hit, ← q) (ap connected_or (lookup-erase_self id d v) ∙ z)
  | inr miss ↦ rw miss (ap connected_or (lookup-erase_other id j d miss))
]

clients-request :
    (id j : ℕ) (p : ℕ × ℕ) (n : NatService)
    → clients j (request_binding id p n).1 ≡ clients j n +ℤ one_if (id == j)
unfolding ◌+ℤ◌
clients-request id j p n = elim (Option-cases (lookup id n.bindings)) [
  | inl e ↦
      rw
        (
          request_new id p n e,
          connected-insert id j (new_binding p.0 p.1) n.bindings,
          new_connected p.0 p.1,
        )
        (at_key ◌+ℤ◌ id j (pos 0) n.bindings add_zero (ap connected_or e))
  | inr (b, e) ↦
      rw (request_old id p n b e, connected-insert id j (joined b) n.bindings, joined_connected b)
        (at_key ◌+ℤ◌ id j b.connected n.bindings add_zero (ap connected_or e))
]

last-zero :
    (b : Binding)
    → pos 1 ≤ℤ b.connected
    → leb_ℤ (left b).connected (pos 0) ≡ true
    → pos 0 ≡ b.connected -ℤ pos 1
last-zero b h l = let k = left_connected b in grind (int_laws)

clients-free :
    (id j : ℕ) (n m : NatService)
    → Entries n.bindings
    → free_binding id n ≡ ok m
    → clients j m ≡ clients j n -ℤ one_if (id == j)
clients-free id j n m v h = elim (Option-cases (lookup id n.bindings)) [
  | inl e ↦ absurd (free_missing id n m e h)
  | inr (b, e) ↦ elim (Bool-cases (leb_ℤ (left b).connected (pos 0))) [
    | inl last ↦
        let zero_left = last-zero b (Entries-get id b n.bindings e v) last in
        rw
          (
            ok-injective (sym h ∙ free_last id n b e last),
            connected-erase id j n.bindings v (b.connected -ℤ pos 1) zero_left,
          )
          (at_key ◌-ℤ◌ id j b.connected n.bindings sub_zero (ap connected_or e))
    | inr more ↦
        rw
          (
            ok-injective (sym h ∙ free_more id n b e more),
            connected-insert id j (left b) n.bindings,
            left_connected b,
          )
          (at_key ◌-ℤ◌ id j b.connected n.bindings sub_zero (ap connected_or e))
  ]
]

-- A history of calls none of which raises; the ports of each request are new.
pub data Event : Type 0 where
  requests : ℕ → ℕ × ℕ → Event
  frees : ℕ → Event
  frees_all : Event

pub data Runs (n : NatService) : List Event → NatService → Type 0 where
  start : Runs n [] n
  request_next :
      {es : List Event} {m : NatService}
      → Runs n es m
      → (id : ℕ) (p : ℕ × ℕ) → Fresh p m.listening
      → Runs n (requests id p ∷ es) (request_binding id p m).1
  free_next :
      {es : List Event} {m o : NatService}
      → Runs n es m
      → (id : ℕ) → free_binding id m ≡ ok o
      → Runs n (frees id ∷ es) o
  free_all_next :
      {es : List Event} {m : NatService} → Runs n es m → Runs n (frees_all ∷ es) (free_all m)

-- The requests for a guest less its releases. `free_all` releases no one.
abbrev pub balance : ℕ → List Event → ℤ
balance j [] = pos 0
balance j (requests id p ∷ es) = balance j es +ℤ one_if (id == j)
balance j (frees id ∷ es) = balance j es -ℤ one_if (id == j)
balance j (frees_all ∷ es) = balance j es

-- `free_all` was called.
abbrev pub Closes : List Event → Type 0
Closes [] = ⊥
Closes (requests id p ∷ es) = Closes es
Closes (frees id ∷ es) = Closes es
Closes (frees_all ∷ es) = Unit

init-IsValid : IsValid init
unfolding init
init-IsValid = record { entries = tt; listens = refl; apart = tt }

Runs-IsValid :
    {n m : NatService} {es : List Event} → IsValid n → Runs n es m → IsValid m ⊎ Closes es
Runs-IsValid v start = inl v
Runs-IsValid v (request_next {m = m} r id p f) = elim (Runs-IsValid v r) [
  | inl w ↦ inl (request-IsValid id p m w f)
  | inr c ↦ inr c
]
Runs-IsValid v (free_next {m = m} {o = o} r id h) = elim (Runs-IsValid v r) [
  | inl w ↦ inl (free-IsValid id m o w h)
  | inr c ↦ inr c
]
Runs-IsValid v (free_all_next r) = inr tt

free_all-bindings : (n : NatService) → (free_all n).bindings ≡ n.bindings
unfolding free_all
free_all-bindings n = refl

Runs-Entries : {m : NatService} {es : List Event} → Runs init es m → Entries m.bindings
Runs-Entries start = init-IsValid.entries
Runs-Entries (request_next {m = m} r id p f) = request-Entries id p m (Runs-Entries r)
Runs-Entries (free_next {m = m} {o = o} r id h) = free-Entries id m o (Runs-Entries r) h
Runs-Entries (free_all_next {m = m} r) = subst Entries (sym (free_all-bindings m)) (Runs-Entries r)

clients-init : (j : ℕ) → clients j init ≡ pos 0
unfolding init lookup
clients-init j = refl

Runs-clients :
    {m : NatService} {es : List Event} (j : ℕ) → Runs init es m → clients j m ≡ balance j es
Runs-clients j start = clients-init j
Runs-clients j (request_next {m = m} r id p f) =
    clients-request id j p m ∙ ap (λ c. c +ℤ one_if (id == j)) (Runs-clients j r)
Runs-clients j (free_next {m = m} {o = o} r id h) =
    clients-free id j m o (Runs-Entries r) h ∙ ap (λ c. c -ℤ one_if (id == j)) (Runs-clients j r)
Runs-clients j (free_all_next {m = m} r) =
    ap (λ d. connected_or (lookup j d)) (free_all-bindings m) ∙ Runs-clients j r

-- After any history of requests, releases and calls of `free_all` that do not raise, from the empty
-- table and with new ports for each new entry, every guest has as many clients as it had requests
-- more than releases; and the open ports are those of the table, each once, unless `free_all` was
-- called, which leaves the table as it is.
pub Runs-balance :
    {m : NatService} {es : List Event} (j : ℕ)
    → Runs init es m
    → (clients j m ≡ balance j es) × (IsValid m ⊎ Closes es)
Runs-balance j r = (Runs-clients j r, Runs-IsValid init-IsValid r)
