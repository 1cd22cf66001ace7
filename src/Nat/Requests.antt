-- ===== src/Nat/Requests.antt =====
-- NATService (cowrie/src/backend_pool/nat.py): requests, releases, and what `free_all` leaves behind.
use mathlib.Core.Path.{subst}
use honeybee_potstore.Base.{
  ℕ, ◌≡◌, refl, sym, ap, ◌∙◌, true, false, List, [], ◌∷◌, ◌++◌, none, some, ok, arith, Option-cases,
  Bool-cases, ok-injective, inl, inr,
}
use honeybee_potstore.Base.Int.{ℤ, pos, ◌≤ℤ◌, ◌+ℤ◌, ◌-ℤ◌, leb_ℤ, int_laws}
use honeybee_potstore.Base.Dict.{Dict, lookup, insert, erase, nat_eq, lookup-insert}
use honeybee_potstore.Nat.{
  Binding, NatService, stop_listening, new_binding, joined, left, request_binding, stop_binding,
  free_binding, stop_all, free_all,
}
use honeybee_potstore.Nat.Bindings.{
  IsValid, Entries, Fresh, ports, stop_new, stop_binding-ports, ports-insert, ports-insert_new,
  insert-Entries, erase-Entries, Apart-new, Apart-erase,
}

pub Entries-get :
    (k : ℕ) (b : Binding) (d : Dict ℕ Binding)
    → lookup k d ≡ some b
    → Entries d
    → pos 1 ≤ℤ b.connected
unfolding lookup
Entries-get k b [] e v = cc
Entries-get k b ((j, c) ∷ d) e v = ground (arith, Entries-get k b d)

add_sub_one : (c : ℤ) → c +ℤ pos 1 -ℤ pos 1 ≡ c
add_sub_one c = omega int_laws

left-joined : (b : Binding) → left (joined b) ≡ b
unfolding left joined
left-joined b = ap (λ (c : ℤ). record b { connected = c }) (add_sub_one b.connected)

joined-pos : (b : Binding) → pos 1 ≤ℤ b.connected → pos 1 ≤ℤ (joined b).connected
unfolding joined
joined-pos b h = omega int_laws

left-pos : (b : Binding) → leb_ℤ (left b).connected (pos 0) ≡ false → pos 1 ≤ℤ (left b).connected
left-pos b h = ground arith

leb-left-joined :
    (b : Binding) → pos 1 ≤ℤ b.connected → leb_ℤ (left (joined b)).connected (pos 0) ≡ false
leb-left-joined b h = rw (left-joined b) (ground arith)

leb-left-new : (s t : ℕ) → leb_ℤ (left (new_binding s t)).connected (pos 0) ≡ true
unfolding left new_binding ◌-ℤ◌
leb-left-new s t = refl

joined-ssh : (b : Binding) → (joined b).nat_ssh ≡ b.nat_ssh
unfolding joined
joined-ssh b = refl

joined-telnet : (b : Binding) → (joined b).nat_telnet ≡ b.nat_telnet
unfolding joined
joined-telnet b = refl

left-ssh : (b : Binding) → (left b).nat_ssh ≡ b.nat_ssh
unfolding left
left-ssh b = refl

left-telnet : (b : Binding) → (left b).nat_telnet ≡ b.nat_telnet
unfolding left
left-telnet b = refl

new-pos : (s t : ℕ) → pos 1 ≤ℤ (new_binding s t).connected
unfolding new_binding
new-pos s t = omega arith

new-ports :
    (s t : ℕ) (ps : List ℕ)
    → ps ++ s ∷ t ∷ [] ≡ ps ++ (new_binding s t).nat_ssh ∷ (new_binding s t).nat_telnet ∷ []
unfolding new_binding
new-ports s t ps = refl

stop_new_ports :
    (s t : ℕ) (ps : List ℕ)
    → Fresh (s, t) ps
    → stop_binding (new_binding s t) (ps ++ s ∷ t ∷ []) ≡ ps
unfolding new_binding
stop_new_ports s t ps f = stop_new (new_binding s t) ps f

pub free_missing :
    (id : ℕ) (n m : NatService) → lookup id n.bindings ≡ none → ¬ (free_binding id n ≡ ok m)
unfolding free_binding
free_missing id n m e h = ground arith

insert-insert :
    (k : ℕ) (b c : Binding) (d : Dict ℕ Binding)
    → lookup k d ≡ some b
    → insert k b (insert k c d) ≡ d
unfolding lookup insert
insert-insert k b c [] e = cc
insert-insert k b c ((j, x) ∷ d) e = ground (arith, insert-insert k b c d)

erase-insert_new :
    (k : ℕ) (c : Binding) (d : Dict ℕ Binding) → lookup k d ≡ none → erase k (insert k c d) ≡ d
unfolding lookup insert erase
erase-insert_new k c [] e = ground arith
erase-insert_new k c ((j, x) ∷ d) e = ground (arith, erase-insert_new k c d)

lookup-insert_self : (k : ℕ) (c : Binding) (d : Dict ℕ Binding) → lookup k (insert k c d) ≡ some c
lookup-insert_self k c d = rw (lookup-insert k k c d, nat_eq.beq_refl k)

module _ (id : ℕ) (p : ℕ × ℕ) (n : NatService) where
  pub request_new :
      lookup id n.bindings ≡ none
      → (request_binding id p n).1 ≡ record {
        bindings = insert id (new_binding p.0 p.1) n.bindings;
        listening = n.listening ++ p.0 ∷ p.1 ∷ [];
      }
  unfolding request_binding
  request_new e = rw (e, request_binding)

  pub request_old :
      (b : Binding)
      → lookup id n.bindings ≡ some b
      → (request_binding id p n).1 ≡ record n { bindings = insert id (joined b) n.bindings }
  unfolding request_binding
  request_old b e = rw (e, request_binding)

module _ (id : ℕ) (n : NatService) (b : Binding) (e : lookup id n.bindings ≡ some b) where
  pub free_last :
      leb_ℤ (left b).connected (pos 0) ≡ true
      → free_binding id n
        ≡ ok (record { bindings = erase id n.bindings; listening = stop_binding b n.listening })
  unfolding free_binding
  free_last h = rw (e, free_binding, h)

  pub free_more :
      leb_ℤ (left b).connected (pos 0) ≡ false
      → free_binding id n ≡ ok (record n { bindings = insert id (left b) n.bindings })
  unfolding free_binding
  free_more h = rw (e, free_binding, h)

pub request-Entries :
    (id : ℕ) (p : ℕ × ℕ) (n : NatService)
    → Entries n.bindings
    → Entries (request_binding id p n).1.bindings
request-Entries id p n v = elim (Option-cases (lookup id n.bindings)) [
  | inr (b, e) ↦
      let held = joined-pos b (Entries-get id b n.bindings e v) in
      rw (request_old id p n b e) (insert-Entries id (joined b) n.bindings held v)
  | inl e ↦
      rw (request_new id p n e)
        (insert-Entries id (new_binding p.0 p.1) n.bindings (new-pos p.0 p.1) v)
]

pub free-Entries :
    (id : ℕ) (n m : NatService) → Entries n.bindings → free_binding id n ≡ ok m → Entries m.bindings
free-Entries id n m v h = elim (Option-cases (lookup id n.bindings)) [
  | inl e ↦ absurd (free_missing id n m e h)
  | inr (b, e) ↦ elim (Bool-cases (leb_ℤ (left b).connected (pos 0))) [
    | inl last ↦
        subst (λ (n : NatService). Entries n.bindings)
          (ok-injective (sym (free_last id n b e last) ∙ h)) (erase-Entries id n.bindings v)
    | inr more ↦
        subst (λ (n : NatService). Entries n.bindings)
          (ok-injective (sym (free_more id n b e more) ∙ h))
          (insert-Entries id (left b) n.bindings (left-pos b more) v)
  ]
]

-- A request keeps the table and the open ports in step.
pub request-IsValid :
    (id : ℕ) (p : ℕ × ℕ) (n : NatService)
    → IsValid n
    → Fresh p n.listening
    → IsValid (request_binding id p n).1
request-IsValid id p n v f = elim (Option-cases (lookup id n.bindings)) [
  | inr (b, e) ↦
      let same = ports-insert id b (joined b) n.bindings e (joined-ssh b) (joined-telnet b) in
      let held = joined-pos b (Entries-get id b n.bindings e v.entries) in
      rw (request_old id p n b e) (record {
        entries = insert-Entries id (joined b) n.bindings held v.entries;
        listens = v.listens ∙ sym same;
        apart = rw same v.apart;
      })
  | inl e ↦
      let b : Binding = new_binding p.0 p.1 in
      let more = ports-insert_new id b n.bindings e ∙ sym (new-ports p.0 p.1 (ports n.bindings)) in
      rw (request_new id p n e) (record {
        entries = insert-Entries id b n.bindings (new-pos p.0 p.1) v.entries;
        listens = rw (more, v.listens);
        apart = rw more (Apart-new p (ports n.bindings) (rw v.listens at f) v.apart);
      })
]

-- So does a release that does not raise.
pub free-IsValid : (id : ℕ) (n m : NatService) → IsValid n → free_binding id n ≡ ok m → IsValid m
free-IsValid id n m v h = elim (Option-cases (lookup id n.bindings)) [
  | inl e ↦ absurd (free_missing id n m e h)
  | inr (b, e) ↦ elim (Bool-cases (leb_ℤ (left b).connected (pos 0))) [
    | inl last ↦ subst IsValid (ok-injective (sym (free_last id n b e last) ∙ h)) (record {
      entries = erase-Entries id n.bindings v.entries;
      listens = rw v.listens (stop_binding-ports id b n.bindings e v.apart);
      apart = Apart-erase id n.bindings v.apart;
    })
    | inr more ↦
        let same = ports-insert id b (left b) n.bindings e (left-ssh b) (left-telnet b) in
        subst IsValid (ok-injective (sym (free_more id n b e more) ∙ h)) (record {
          entries = insert-Entries id (left b) n.bindings (left-pos b more) v.entries;
          listens = v.listens ∙ sym same;
          apart = rw same v.apart;
        })
  ]
]

-- A release takes a request back, whether or not the guest had a binding: the table and the open
-- ports are those of before, if they were in step and the new ports are not open.
pub free-request :
    (id : ℕ) (p : ℕ × ℕ) (n : NatService)
    → IsValid n
    → Fresh p n.listening
    → free_binding id (request_binding id p n).1 ≡ ok n
free-request id p n v f = elim (Option-cases (lookup id n.bindings)) [
  | inl e ↦
      let b : Binding = new_binding p.0 p.1 in
      rw (request_new id p n e) (
        free_last id _ b (lookup-insert_self id b n.bindings) (leb-left-new p.0 p.1)
        ∙ rw (erase-insert_new id b n.bindings e, stop_new_ports p.0 p.1 n.listening f))
  | inr (b, e) ↦
      let held = leb-left-joined b (Entries-get id b n.bindings e v.entries) in
      rw (request_old id p n b e) (
        free_more id _ (joined b) (lookup-insert_self id (joined b) n.bindings) held
        ∙ rw (left-joined b, insert-insert id b (joined b) n.bindings e))
]

stop_all-ports : (d : Dict ℕ Binding) → stop_all d (ports d) ≡ []
unfolding stop_all stop_binding stop_listening
stop_all-ports [] = refl
stop_all-ports ((k, b) ∷ d) =
    rw (nat_eq.beq_refl b.nat_ssh, nat_eq.beq_refl b.nat_telnet) (stop_all-ports d)

-- After `free_all` on a table in step with the open ports nothing listens, and yet a request for a
-- guest that was bound before is given that guest's old ports and opens none.
pub request-free_all :
    (id : ℕ) (p : ℕ × ℕ) (n : NatService) (b : Binding)
    → IsValid n
    → lookup id n.bindings ≡ some b
    → let r = request_binding id p (free_all n) in
      (r.0 ≡ (b.nat_ssh, b.nat_telnet)) × (r.1.listening ≡ [])
unfolding request_binding free_all
request-free_all id p n b v e =
    (rw (e, request_binding), rw (e, request_binding, v.listens) (stop_all-ports n.bindings))
