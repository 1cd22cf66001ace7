-- ===== src/SshProxy/Delivered.antt =====
-- What a channel's data brings about (cowrie/src/cowrie/ssh_proxy/protocols/ssh.py): its session gets it, and so does
-- the other side.
use mathlib.Core.List.{append-nil, append_assoc}
use honeybee_potstore.Base.{
  ℕ, ◌<◌, ◌≡◌, refl, sym, ap, ◌∙◌, true, List, [], ◌∷◌, ◌++◌, ok, some, length, get_elem?,
  modify_at,
}
use honeybee_potstore.Base.Int.{ℤ, pos, ◌-ℤ◌}
use honeybee_potstore.Base.Text.{Bytes}
use honeybee_potstore.Wire.Struct.{be32}
use honeybee_potstore.SshProxy.Reader.{
  int32, string, pack_fields, pack_fields-Fits, reader, extract_int-be32, extract_string-be32,
}
use honeybee_potstore.SshProxy.Term.{Parent, server, client}
use honeybee_potstore.SshProxy.Channels.{
  Channel, Ssh, ◌>>=◌, read_int, read_string, send_to_server, send_to_client, get_channel,
  find_channel,
}
use honeybee_potstore.SshProxy.Messages.{Sessions, to_session, dispatch, parse_num_packet}

-- What the other side was given of the packets of this one.
abbrev pub passed_on : {S : Type 0} → Parent → Ssh S → List (ℕ × Bytes)
passed_on server p = p.to_client
passed_on client p = p.to_server

-- What is put before the packets of a side, if it is that side's.
abbrev pub if_from : {A : Type 0} → Parent → Parent → A → List A → List A
if_from server server x xs = x ∷ xs
if_from client client x xs = x ∷ xs
if_from server client x xs = xs
if_from client server x xs = xs

abbrev pub with_session : {S : Type 0} → S → Channel S → Channel S
with_session s c = record c { session = some s }

payload_lem :
    (n : ℕ) (content payload : Bytes)
    → n < 4294967296
    → length content < 4294967296
    → pack_fields (int32 n ∷ string content ∷ []) ≡ ok payload
    → payload ≡ be32 n ++ (be32 (length content) ++ (content ++ []))
payload_lem n content payload hn hl hp =
    let packed = pack_fields-Fits (int32 n ∷ string content ∷ []) (hn, (hl, tt)) in
    let bytes : payload ≡ be32 n ++ ((be32 (length content) ++ content) ++ []) = cc in
    bytes ∙ ap (λ b. be32 n ++ b) (append_assoc (be32 (length content)) content [])

module _ {S : Type 0} (o : Sessions S) where
  abbrev at_bytes : Ssh S → Bytes → ℤ → Ssh S
  at_bytes p bs z = record p { rest = reader bs z; send_on = true }

  to_session-at_bytes :
      (who : Parent) (content : Bytes) (p : Ssh S) (z : ℤ) (i : ℕ) (c : Channel S) (s : S)
      → length content < 4294967296
      → get_elem? p.channels i ≡ some c
      → c.session ≡ some s
      → (o.parse_packet who content s).0 ≡ ok tt
      → to_session o who i (at_bytes p (be32 (length content) ++ (content ++ [])) z) ≡ (
        ok tt,
        record (at_bytes p [] (z -ℤ pos 4 -ℤ pos (length content))) {
          channels = modify_at i (with_session (o.parse_packet who content s).1) p.channels;
        },
      )
  unfolding to_session read_string ◌>>=◌
  to_session-at_bytes who content p z i c s hl hc hs ho =
      rw (extract_string-be32 content [] z hl, hc, hs, ho)

  dispatch-at_bytes :
      (who : Parent) (n : ℕ) (content : Bytes) (p : Ssh S) (z : ℤ) (i : ℕ) (c : Channel S) (s : S)
      → n < 4294967296
      → length content < 4294967296
      → find_channel who n p.channels ≡ ok i
      → get_elem? p.channels i ≡ some c
      → c.session ≡ some s
      → (o.parse_packet who content s).0 ≡ ok tt
      → dispatch o who 94 (at_bytes p (be32 n ++ (be32 (length content) ++ (content ++ []))) z) ≡ (
        ok tt,
        record (at_bytes p [] (z -ℤ pos 4 -ℤ pos 4 -ℤ pos (length content))) {
          channels = modify_at i (with_session (o.parse_packet who content s).1) p.channels;
        },
      )
  unfolding dispatch read_int get_channel ◌>>=◌
  dispatch-at_bytes who n content p z i c s hn hl hf hc hs ho =
      rw (extract_int-be32 n (be32 (length content) ++ (content ++ [])) z hn, hf)
        (to_session-at_bytes who content p (z -ℤ pos 4) i c s hl hc hs ho)

  -- A packet of the side `who` makes `q` of `p`: it is passed on, and `cs` are the channels then.
  abbrev pub Delivers : Parent → ℕ × Bytes → List (Channel S) → Ssh S → Ssh S → Type 0
  Delivers who x cs p q =
      ((side : Parent) → passed_on side q ≡ passed_on side p ++ if_from side who x [])
      × (q.channels ≡ cs)
      × (q.has_client ≡ true)

  by_side :
      (who : Parent) (x : ℕ × Bytes) (p q : Ssh S)
      → q.to_client ≡ p.to_client ++ if_from server who x []
      → q.to_server ≡ p.to_server ++ if_from client who x []
      → (side : Parent) → passed_on side q ≡ passed_on side p ++ if_from side who x []
  by_side who x p q a b server = a
  by_side who x p q a b client = b

  passed :
      (who : Parent) (n : ℕ) (payload : Bytes) (p q : Ssh S)
      → dispatch o who n (at_bytes p payload (pos (length payload))) ≡ (ok tt, q)
      → q.send_on ≡ true
      → q.has_client ≡ true
      → q.to_client ≡ p.to_client
      → q.to_server ≡ p.to_server
      → Delivers who (n, payload) q.channels p (parse_num_packet o who n payload p).1
  unfolding parse_num_packet ◌>>=◌ send_to_client send_to_server
  passed server n payload p q h on c a b =
      rw (h, on, c)
        (
          by_side server (n, payload) p _ (ap (λ xs. xs ++ (n, payload) ∷ []) a)
              (b ∙ sym (append-nil p.to_server)),
          refl,
          refl,
        )
  passed client n payload p q h on c a b =
      rw (h, on)
        (
          by_side client (n, payload) p _ (a ∙ sym (append-nil p.to_client))
              (ap (λ xs. xs ++ (n, payload) ∷ []) b),
          refl,
          c,
        )

  -- The data of a channel that is open, with a session that takes it, is passed on to the other
  -- side as it came, after what it was given before, and of the channels just the session of this
  -- one is changed, by the content alone.
  pub parse_num_packet-delivers :
      (who : Parent) (n : ℕ) (content payload : Bytes) (p : Ssh S) (i : ℕ) (c : Channel S) (s : S)
      → n < 4294967296
      → length content < 4294967296
      → pack_fields (int32 n ∷ string content ∷ []) ≡ ok payload
      → find_channel who n p.channels ≡ ok i
      → get_elem? p.channels i ≡ some c
      → c.session ≡ some s
      → (o.parse_packet who content s).0 ≡ ok tt
      → p.has_client ≡ true
      → Delivers who
          (94, payload)
          (modify_at i (with_session (o.parse_packet who content s).1) p.channels)
          p
          (parse_num_packet o who 94 payload p).1
  parse_num_packet-delivers who n content payload p i c s hn hl hp hf hc hs ho hcl =
      passed who 94 payload p _
        (ap (λ b. dispatch o who 94 (at_bytes p b (pos (length payload))))
            (payload_lem n content payload hn hl hp)
          ∙ dispatch-at_bytes who n content p (pos (length payload)) i c s hn hl hf hc hs ho)
        refl hcl refl refl
