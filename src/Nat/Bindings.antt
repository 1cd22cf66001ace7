-- ===== src/Nat/Bindings.antt =====
-- NATService (cowrie/src/backend_pool/nat.py): what holds of the table and of the open ports.
use mathlib.Core.List.{append-nil}
use mathlib.Core.Path.{subst}
use honeybee_potstore.Base.{
  ℕ, ◌≡◌, refl, ◌≢◌, List, [], ◌∷◌, ◌++◌, none, some, arith, Bool-cases, All, All-append, ◌==◌, sym,
  inl, inr,
}
use honeybee_potstore.Base.Int.{pos, ◌≤ℤ◌}
use honeybee_potstore.Base.Dict.{Dict, lookup, insert, erase, nat_eq, lookup-insert}
use honeybee_potstore.Nat.{Binding, NatService, stop_listening, stop_binding}

abbrev pub Avoids : ℕ → List ℕ → Type 0
Avoids p ps = All (λ q. q ≢ p) ps

abbrev pub Apart : List ℕ → Type 0
Apart [] = Unit
Apart (p ∷ ps) = Avoids p ps × Apart ps

abbrev pub ports : Dict ℕ Binding → List ℕ
ports [] = []
ports ((k, b) ∷ d) = b.nat_ssh ∷ b.nat_telnet ∷ ports d

-- No guest has two entries, and each entry has a client.
abbrev pub Entries : Dict ℕ Binding → Type 0
Entries [] = Unit
Entries ((k, b) ∷ d) = (lookup k d ≡ none) × (pos 1 ≤ℤ b.connected) × Entries d

-- The reactor listens on the ports of the table, each once.
pub record IsValid (n : NatService) : Type 0 where
  pub entries : Entries n.bindings
  pub listens : n.listening ≡ ports n.bindings
  pub apart : Apart (ports n.bindings)

-- What the operating system promises of two new ports.
abbrev pub Fresh : ℕ × ℕ → List ℕ → Type 0
Fresh p ps = (p.1 ≢ p.0) × Avoids p.0 ps × Avoids p.1 ps

All-ports :
    (P : ℕ → Type 0) (k : ℕ) (b : Binding) (d : Dict ℕ Binding)
    → lookup k d ≡ some b
    → All P (ports d)
    → P b.nat_ssh × P b.nat_telnet
unfolding lookup
All-ports P k b [] e a = cc
All-ports P k b ((j, c) ∷ d) e a = elim (Bool-cases (j == k)) [
  | inl hit ↦
      let q : c ≡ b = ground arith in
      subst (λ (x : Binding). P x.nat_ssh × P x.nat_telnet) q (a.0, a.1.0)
  | inr miss ↦ All-ports P k b d (ground arith) a.1.1
]

stop_listening-append :
    (p : ℕ) (ps qs : List ℕ) → Avoids p ps → stop_listening p (ps ++ p ∷ qs) ≡ ps ++ qs
unfolding stop_listening
stop_listening-append p [] qs h = ground arith
stop_listening-append p (q ∷ ps) qs h = ground (arith, stop_listening-append p ps qs h.1)

Avoids-append : (p q : ℕ) (ps : List ℕ) → Avoids p ps → q ≢ p → Avoids p (ps ++ q ∷ [])
Avoids-append p q ps h e = All-append (λ q. q ≢ p) ps (q ∷ []) h (e, tt)

-- Stopping the two listeners of a new entry undoes its opening.
pub stop_new :
    (b : Binding) (ps : List ℕ)
    → Fresh (b.nat_ssh, b.nat_telnet) ps
    → stop_binding b (ps ++ b.nat_ssh ∷ b.nat_telnet ∷ []) ≡ ps
unfolding stop_binding
stop_new b ps f =
    rw
      (
        stop_listening-append b.nat_ssh ps (b.nat_telnet ∷ []) f.1,
        stop_listening-append b.nat_telnet ps [] f.2,
      )
      (append-nil ps)

pub stop_binding-ports :
    (k : ℕ) (b : Binding) (d : Dict ℕ Binding)
    → lookup k d ≡ some b
    → Apart (ports d)
    → stop_binding b (ports d) ≡ ports (erase k d)
unfolding lookup erase stop_binding stop_listening
stop_binding-ports k b [] e a = cc
stop_binding-ports k b ((j, c) ∷ d) e a = elim (Bool-cases (j == k)) [
  | inl hit ↦ ground arith
  | inr miss ↦
      let ssh = All-ports (λ q. q ≢ c.nat_ssh) k b d (ground arith) a.0.1 in
      let telnet = All-ports (λ q. q ≢ c.nat_telnet) k b d (ground arith) a.1.0 in
      ground (arith, stop_binding-ports k b d (ground arith) a.1.1)
]

pub ports-insert :
    (k : ℕ) (b c : Binding) (d : Dict ℕ Binding)
    → lookup k d ≡ some b
    → c.nat_ssh ≡ b.nat_ssh
    → c.nat_telnet ≡ b.nat_telnet
    → ports (insert k c d) ≡ ports d
unfolding lookup insert
ports-insert k b c [] e s t = cc
ports-insert k b c ((j, x) ∷ d) e s t = ground (arith, ports-insert k b c d)

pub ports-insert_new :
    (k : ℕ) (c : Binding) (d : Dict ℕ Binding)
    → lookup k d ≡ none
    → ports (insert k c d) ≡ ports d ++ c.nat_ssh ∷ c.nat_telnet ∷ []
unfolding lookup insert
ports-insert_new k c [] e = refl
ports-insert_new k c ((j, x) ∷ d) e = ground (arith, ports-insert_new k c d)

pub insert-Entries :
    (k : ℕ) (c : Binding) (d : Dict ℕ Binding)
    → pos 1 ≤ℤ c.connected
    → Entries d
    → Entries (insert k c d)
unfolding lookup insert
insert-Entries k c [] h v = (refl, h, tt)
insert-Entries k c ((j, x) ∷ d) h v =
    ground (arith, insert-Entries k c d h v.2, lookup-insert k j c d)

lookup-erase-none : (k j : ℕ) (d : Dict ℕ Binding) → lookup j d ≡ none → lookup j (erase k d) ≡ none
unfolding lookup erase
lookup-erase-none k j [] e = refl
lookup-erase-none k j ((i, x) ∷ d) e = ground (arith, lookup-erase-none k j d)

pub erase-Entries : (k : ℕ) (d : Dict ℕ Binding) → Entries d → Entries (erase k d)
unfolding lookup erase
erase-Entries k [] v = tt
erase-Entries k ((j, x) ∷ d) v = ground (arith, erase-Entries k d v.2, lookup-erase-none k j d v.0)

pub Apart-new : (p : ℕ × ℕ) (ps : List ℕ) → Fresh p ps → Apart ps → Apart (ps ++ p.0 ∷ p.1 ∷ [])
Apart-new p [] f a = ((f.0, tt), (tt, tt))
Apart-new p (q ∷ ps) f a = (
  All-append (λ x. x ≢ q) ps (p.0 ∷ p.1 ∷ []) a.0
      ((λ e. f.1.0 (sym e)), ((λ e. f.2.0 (sym e)), tt)),
  Apart-new p ps (f.0, f.1.1, f.2.1) a.1,
)

All-ports-erase :
    (P : ℕ → Type 0) (k : ℕ) (d : Dict ℕ Binding) → All P (ports d) → All P (ports (erase k d))
unfolding erase
All-ports-erase P k [] a = tt
All-ports-erase P k ((j, x) ∷ d) a = elim (Bool-cases (j == k)) [
  | inl hit ↦ rw hit a.1.1
  | inr miss ↦ rw miss (a.0, (a.1.0, All-ports-erase P k d a.1.1))
]

pub Apart-erase : (k : ℕ) (d : Dict ℕ Binding) → Apart (ports d) → Apart (ports (erase k d))
unfolding erase
Apart-erase k [] a = tt
Apart-erase k ((j, x) ∷ d) a = elim (Bool-cases (j == k)) [
  | inl hit ↦ rw hit a.1.1
  | inr miss ↦ rw miss (
    (a.0.0, All-ports-erase (λ q. q ≢ x.nat_ssh) k d a.0.1),
    (All-ports-erase (λ q. q ≢ x.nat_telnet) k d a.1.0, Apart-erase k d a.1.1),
  )
]
