-- ===== src/SshProxy/Conversation.antt =====
-- What both sides say on an open channel (cowrie/src/cowrie/ssh_proxy/protocols/ssh.py), packet by packet.
use mathlib.Core.List.{append-nil, append_assoc}
use honeybee_potstore.Base.{
  ℕ, zero, suc, ◌<◌, ◌≡◌, refl, sym, ap, ◌∙◌, true, List, [], ◌∷◌, ◌++◌, ok, some, length,
  get_elem?, modify_at, All,
}
use honeybee_potstore.Base.Text.{Bytes}
use honeybee_potstore.SshProxy.Reader.{int32, string, pack_fields, fields_bytes, pack_fields-Fits}
use honeybee_potstore.SshProxy.Term.{Parent, server, client}
use honeybee_potstore.SshProxy.Channels.{
  Channel, Ssh, match_key, next_place, search_key, find_channel,
}
use honeybee_potstore.SshProxy.Messages.{Sessions, parse_num_packet}
use honeybee_potstore.SshProxy.Delivered.{
  passed_on, if_from, with_session, Delivers, parse_num_packet-delivers,
}

pub record Data : Type 0 where
  pub parent : Parent
  pub content : Bytes

-- `SSH_MSG_CHANNEL_DATA`, with the number that the side has for the channel.
abbrev pub payload_of : (Parent → ℕ) → Data → Bytes
payload_of number x = fields_bytes (int32 (number x.parent) ∷ string x.content ∷ [])

abbrev pub packets_of : (Parent → ℕ) → Parent → List Data → List (ℕ × Bytes)
packets_of number who [] = []
packets_of number who (x ∷ xs) =
    if_from who x.parent (94, payload_of number x) (packets_of number who xs)

module _ {S : Type 0} where
  find-with_session :
      (who : Parent) (n i : ℕ) (s : S) (cs : List (Channel S))
      → find_channel who n (modify_at i (with_session s) cs) ≡ find_channel who n cs
  unfolding find_channel
  find-with_session who n i s [] = refl
  find-with_session server n zero s (c ∷ cs) = refl
  find-with_session client n zero s (c ∷ cs) = refl
  find-with_session who n (suc i) s (c ∷ cs) =
      ap (λ r. match_key n (search_key who c) (next_place r)) (find-with_session who n i s cs)

  get-with_session :
      (i : ℕ) (s : S) (c : Channel S) (cs : List (Channel S))
      → get_elem? cs i ≡ some c
      → get_elem? (modify_at i (with_session s) cs) i ≡ some (with_session s c)
  get-with_session i s c [] h = cc
  get-with_session zero s c (d ∷ cs) h = let q : d ≡ c = cc in rw q refl
  get-with_session (suc i) s c (d ∷ cs) h = get-with_session i s c cs h

  twice-with_session :
      (i : ℕ) (s t : S) (cs : List (Channel S))
      → modify_at i (with_session t) (modify_at i (with_session s) cs)
        ≡ modify_at i (with_session t) cs
  twice-with_session i s t [] = refl
  twice-with_session zero s t (c ∷ cs) = refl
  twice-with_session (suc i) s t (c ∷ cs) = ap (λ cs. c ∷ cs) (twice-with_session i s t cs)

  same-with_session :
      (i : ℕ) (s : S) (c : Channel S) (cs : List (Channel S))
      → get_elem? cs i ≡ some c
      → c.session ≡ some s
      → cs ≡ modify_at i (with_session s) cs
  same-with_session i s c [] h k = refl
  same-with_session zero s c (d ∷ cs) h k =
      let q : d.session ≡ some s = cc in ap (λ (x : _). record d { session = x } ∷ cs) q
  same-with_session (suc i) s c (d ∷ cs) h k = ap (λ cs. d ∷ cs) (same-with_session i s c cs h k)

if_from-append :
    {A : Type 0} (side who : Parent) (x : A) (xs : List A)
    → if_from side who x [] ++ xs ≡ if_from side who x xs
if_from-append server server x xs = refl
if_from-append client client x xs = refl
if_from-append server client x xs = refl
if_from-append client server x xs = refl

module _ {S : Type 0} (o : Sessions S) where
  -- The packets of both sides, as they come.
  abbrev pub relay_all : (Parent → ℕ) → List Data → Ssh S → Ssh S
  relay_all number [] p = p
  relay_all number (x ∷ xs) p =
      relay_all number xs (parse_num_packet o x.parent 94 (payload_of number x) p).1

  -- What the session makes of them, and that it raises nothing.
  abbrev pub hear : List Data → S → S
  hear [] s = s
  hear (x ∷ xs) s = hear xs (o.parse_packet x.parent x.content s).1

  abbrev pub Takes : List Data → S → Type 0
  Takes [] s = Unit
  Takes (x ∷ xs) s =
      ((o.parse_packet x.parent x.content s).0 ≡ ok tt)
      × Takes xs (o.parse_packet x.parent x.content s).1

  -- The channel at `i` is the one that both sides name by their numbers, and it has the session `s`.
  abbrev pub IsOpen : (Parent → ℕ) → ℕ → S → Ssh S → Type 0
  IsOpen number i s p =
      ((who : Parent) → find_channel who (number who) p.channels ≡ ok i)
      × ((c : Channel S) × (get_elem? p.channels i ≡ some c) × (c.session ≡ some s))
      × (p.has_client ≡ true)

  payload-packs :
      (number : Parent → ℕ) (x : Data)
      → number x.parent < 4294967296
      → length x.content < 4294967296
      → pack_fields (int32 (number x.parent) ∷ string x.content ∷ []) ≡ ok (payload_of number x)
  payload-packs number x a b =
      pack_fields-Fits (int32 (number x.parent) ∷ string x.content ∷ []) (a, (b, tt))

  stays-IsOpen :
      (number : Parent → ℕ) (i : ℕ) (s t : S) (p q : Ssh S)
      → q.channels ≡ modify_at i (with_session t) p.channels
      → q.has_client ≡ true
      → IsOpen number i s p
      → IsOpen number i t q
  stays-IsOpen number i s t p q a b h = (
    λ who.
        ap (find_channel who (number who)) a
        ∙ find-with_session who (number who) i t p.channels
        ∙ h.0 who,
    (
      with_session t h.1.0,
      ap (λ cs. get_elem? cs i) a ∙ get-with_session i t h.1.0 p.channels h.1.1,
      refl,
    ),
    b,
  )

  -- `q` comes of `p` by the packets `xs`, and the session is then `s`.
  abbrev Relayed : (Parent → ℕ) → List Data → ℕ → S → Ssh S → Ssh S → Type 0
  Relayed number xs i s p q =
      ((side : Parent) → passed_on side q ≡ passed_on side p ++ packets_of number side xs)
      × (q.channels ≡ modify_at i (with_session s) p.channels)

  first_then_rest :
      (number : Parent → ℕ) (x : Data) (xs : List Data) (i : ℕ) (s t : S) (p q r : Ssh S)
      → Delivers o x.parent (94, payload_of number x) (modify_at i (with_session s) p.channels) p q
      → Relayed number xs i t q r
      → Relayed number (x ∷ xs) i t p r
  first_then_rest number x xs i s t p q r h k = (
    λ side.
        k.0 side
        ∙ ap (λ ys. ys ++ packets_of number side xs) (h.0 side)
        ∙ append_assoc (passed_on side p) (if_from side x.parent y []) (packets_of number side xs)
        ∙ ap (λ ys. passed_on side p ++ ys)
            (if_from-append side x.parent y (packets_of number side xs)),
    k.1 ∙ ap (modify_at i (with_session t)) h.1 ∙ twice-with_session i s t p.channels,
  )
    where
      y : ℕ × Bytes
      y = (94, payload_of number x)

  -- Whatever both sides say on a channel that is open, in turns or not, in however many packets:
  -- each side is given the other's packets as they came, in order, each once, and of the channels
  -- just the session of this one is changed, to what it makes of all that was said, if it raises
  -- nothing.
  pub relay_all-delivers :
      (number : Parent → ℕ) (xs : List Data) (p : Ssh S) (i : ℕ) (s : S)
      → ((who : Parent) → number who < 4294967296)
      → All (λ x. length x.content < 4294967296) xs
      → IsOpen number i s p
      → Takes xs s
      → ((side : Parent)
          → passed_on side (relay_all number xs p) ≡ passed_on side p ++ packets_of number side xs)
        × ((relay_all number xs p).channels ≡ modify_at i (with_session (hear xs s)) p.channels)
  relay_all-delivers number [] p i s n l h k = (
    λ side. sym (append-nil (passed_on side p)),
    same-with_session i s h.1.0 p.channels h.1.1 h.1.2,
  )
  relay_all-delivers number (x ∷ xs) p i s n l h k =
      let t = (o.parse_packet x.parent x.content s).1 in
      let q = (parse_num_packet o x.parent 94 (payload_of number x) p).1 in
      let step =
        parse_num_packet-delivers o x.parent (number x.parent) x.content (payload_of number x) p i
          h.1.0 s (n x.parent) l.0 (payload-packs number x (n x.parent) l.0) (h.0 x.parent) h.1.1
          h.1.2 k.0 h.2 in
      first_then_rest number x xs i t (hear xs t) p q (relay_all number xs q) step (
        relay_all-delivers number xs q i t n l.1 (stays-IsOpen number i s t p q step.1 step.2 h)
          k.1)
