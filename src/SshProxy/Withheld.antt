-- ===== src/SshProxy/Withheld.antt =====
-- What of the attacker's packets reaches the back end (cowrie/src/cowrie/ssh_proxy/protocols/ssh.py).
use mathlib.Core.Path.{subst}
use honeybee_potstore.Base.{
  ℕ, ◌≡◌, ◌⊎◌, inl, inr, refl, sym, ap, ◌∙◌, Bool, true, false, ◌||◌, List, [], ◌∷◌, ◌++◌, Result,
  ok, err, length, Bool-cases,
}
use honeybee_potstore.Base.Int.{pos}
use honeybee_potstore.Base.Text.{Bytes, text_eq, text_eq→eq, codes}
use honeybee_potstore.SshProxy.Reader.{reader, extract_string}
use honeybee_potstore.SshProxy.Term.{server}
use honeybee_potstore.SshProxy.Channels.{
  Ssh, Act, follow, ◌>>=◌, read_int, read_string, send_to_client, to_client_if,
}
use honeybee_potstore.SshProxy.Messages.{
  Sessions, userauth_request, info_request, info_response, open_forward, channel_open, dispatch,
  refuse_channel, pass_if, parse_num_packet,
}
use honeybee_potstore.SshProxy.Relay.{Keeps, SeesClient}
use honeybee_potstore.SshProxy.Relay.Login.{
  userauth_request-Keeps, info_request-Keeps, info_response-Keeps,
}
use honeybee_potstore.SshProxy.Relay.Connection.{dispatch-Keeps, refuse_channel-Keeps}

-- The messages of the authentication.
pub data UserAuth : Type 0 where
  request failure success banner prompts responses : UserAuth

abbrev pub number_of : UserAuth → ℕ
number_of request = 50
number_of failure = 51
number_of success = 52
number_of banner = 53
number_of prompts = 60
number_of responses = 61

-- The channels that lead to another host.
abbrev pub is_forward : Bytes → Bool
is_forward kind = text_eq kind (codes "direct-tcpip") || text_eq kind (codes "forwarded-tcpip")

abbrev pub first_string : Bytes → Bytes
first_string payload = (extract_string (reader payload (pos (length payload)))).0

module _ {S : Type 0} (o : Sessions S) where
  abbrev Got : List (ℕ × Bytes) → Ssh S → Type 0
  Got v q = q.to_client ≡ v

  abbrev Held : List (ℕ × Bytes) → Ssh S → Type 0
  Held v q = (q.to_client ≡ v) × (q.send_on ≡ false)

  Got-sees : (v : List (ℕ × Bytes)) → SeesClient (Got v)
  Got-sees v p q c s h = c ∙ h

  Held-sees : (v : List (ℕ × Bytes)) → SeesClient (Held v)
  Held-sees v p q c (inl s) h = (c ∙ h.0, s ∙ h.1)
  Held-sees v p q c (inr s) h = (c ∙ h.0, s)

  abbrev fresh : Bytes → Ssh S → Ssh S
  fresh payload p = record p { rest = reader payload (pos (length payload)); send_on = true }

  -- The last step, after what was done with the message.
  abbrev ended : ℕ → Bytes → Result (Unit {0}) × Ssh S → Result (Unit {0}) × Ssh S
  ended n payload r = follow (λ u p. pass_if o p.send_on server n payload p) r

  parse_lem :
      (n : ℕ) (payload : Bytes) (p : Ssh S)
      → parse_num_packet o server n payload p
        ≡ ended n payload (dispatch o server n (fresh payload p))
  unfolding parse_num_packet ◌>>=◌
  parse_lem n payload p = refl

  ended-Held :
      (n : ℕ) (payload : Bytes) (v : List (ℕ × Bytes)) (r : Result (Unit {0}) × Ssh S)
      → Held v r.1
      → (ended n payload r).1.to_client ≡ v
  ended-Held n payload v (err e, q) h = h.0
  ended-Held n payload v (ok u, q) h = rw (h.1) h.0

  abbrev Relays : ℕ → Bytes → List (ℕ × Bytes) → List (ℕ × Bytes) → Type 0
  Relays n payload v w = (w ≡ v) ⊎ (w ≡ v ++ (n, payload) ∷ [])

  ended-Relays :
      (n : ℕ) (payload : Bytes) (v : List (ℕ × Bytes)) (r : Result (Unit {0}) × Ssh S)
      → Got v r.1
      → Relays n payload v (ended n payload r).1.to_client
  unfolding send_to_client
  ended-Relays n payload v (err e, q) h = inl h
  ended-Relays n payload v (ok u, q) h = passed q.send_on
    where
      sent : (c : Bool) → Relays n payload v (to_client_if c n payload q).1.to_client
      sent true = inr (ap (λ w. w ++ (n, payload) ∷ []) h)
      sent false = inl h

      passed : (b : Bool) → Relays n payload v (pass_if o b server n payload q).1.to_client
      passed true = sent q.has_client
      passed false = inl h

  -- No packet of the attacker makes another one for the back end: it gets just this one, or nothing.
  pub parse_num_packet-relays :
      (n : ℕ) (payload : Bytes) (p : Ssh S)
      → ((parse_num_packet o server n payload p).1.to_client ≡ p.to_client)
        ⊎ ((parse_num_packet o server n payload p).1.to_client ≡ p.to_client ++ (n, payload) ∷ [])
  parse_num_packet-relays n payload p =
      subst (λ r. Relays n payload p.to_client r.1.to_client) (sym (parse_lem n payload p))
        (ended-Relays n payload p.to_client (dispatch o server n (fresh payload p))
          (dispatch-Keeps (Got p.to_client) (Got-sees p.to_client) o n (fresh payload p) refl))

  withheld :
      (f : Act S (Unit {0})) (v : List (ℕ × Bytes)) (p : Ssh S)
      → f p ≡ f (record p { send_on = false })
      → Keeps (Held v) f
      → p.to_client ≡ v
      → Held v (f p).1
  withheld f v p e k h =
      subst (λ r. Held v r.1) (sym e) (k (record p { send_on = false }) (h, refl))

  dispatch-Held :
      (a : UserAuth) (p : Ssh S) → Held p.to_client (dispatch o server (number_of a) p).1
  unfolding dispatch userauth_request info_request info_response read_string ◌>>=◌
  dispatch-Held request p =
      withheld (userauth_request o) p.to_client p refl
        (userauth_request-Keeps (Held p.to_client) (Held-sees p.to_client) o) refl
  dispatch-Held failure p = (refl, refl)
  dispatch-Held success p = (refl, refl)
  dispatch-Held banner p = (refl, refl)
  dispatch-Held prompts p =
      withheld (info_request o) p.to_client p refl
        (info_request-Keeps (Held p.to_client) (Held-sees p.to_client) o) refl
  dispatch-Held responses p =
      withheld (info_response o) p.to_client p refl
        (info_response-Keeps (Held p.to_client) (Held-sees p.to_client) o) refl

  -- No message of the authentication that the attacker sends, whatever is in it, reaches the back end.
  pub parse_num_packet-withholds :
      (a : UserAuth) (payload : Bytes) (p : Ssh S)
      → (parse_num_packet o server (number_of a) payload p).1.to_client ≡ p.to_client
  parse_num_packet-withholds a payload p =
      subst (λ r. r.1.to_client ≡ p.to_client) (sym (parse_lem (number_of a) payload p))
        (ended-Held (number_of a) payload p.to_client
          (dispatch o server (number_of a) (fresh payload p)) (dispatch-Held a (fresh payload p)))

  refused : (n : ℕ) (p : Ssh S) → Held p.to_client (refuse_channel o server n p).1
  unfolding refuse_channel ◌>>=◌
  refused n p =
      withheld (refuse_channel o server n) p.to_client p refl
        (refuse_channel-Keeps (Held p.to_client) (Held-sees p.to_client) o n) refl

  forward-Held :
      (n : ℕ) (kind : Bytes) (p : Ssh S)
      → o.forwarding ≡ false
      → Held p.to_client (open_forward o server n kind p).1
  unfolding open_forward read_string read_int ◌>>=◌
  forward-Held n kind p f = simp f (refused n _)

  not_session : (kind : Bytes) → is_forward kind ≡ true → text_eq kind (codes "session") ≡ false
  unfolding text_eq
  not_session kind k = elim (Bool-cases (text_eq kind (codes "session"))) [
    | inl e ↦ absurd (session_not (sym (ap is_forward (text_eq→eq kind (codes "session") e)) ∙ k))
    | inr e ↦ e
  ]
    where
      session_not : is_forward (codes "session") ≡ true → ⊥
      session_not h = cc

  opened :
      (payload : Bytes) (p : Ssh S)
      → o.forwarding ≡ false
      → is_forward (first_string payload) ≡ true
      → Held p.to_client (dispatch o server 90 (fresh payload p)).1
  unfolding dispatch channel_open read_string read_int ◌>>=◌
  opened payload p f k =
      rw (not_session (first_string payload) k, k) (forward-Held _ (first_string payload) _ f)

  -- With forwarding off, no request to open a channel to another host reaches the back end.
  pub parse_num_packet-no_forward :
      (payload : Bytes) (p : Ssh S)
      → o.forwarding ≡ false
      → is_forward (first_string payload) ≡ true
      → (parse_num_packet o server 90 payload p).1.to_client ≡ p.to_client
  parse_num_packet-no_forward payload p f k =
      subst (λ r. r.1.to_client ≡ p.to_client) (sym (parse_lem 90 payload p))
        (ended-Held 90 payload p.to_client (dispatch o server 90 (fresh payload p))
          (opened payload p f k))
