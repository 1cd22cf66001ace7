-- ===== src/SshProxy/Relay.antt =====
-- What `parse_num_packet` (cowrie/src/cowrie/ssh_proxy/protocols/ssh.py) passes on, and what it keeps.
pub mod Login
pub mod Connection
use honeybee_potstore.Base.{
  ℕ, zero, suc, ◌≡◌, ◌⊎◌, inl, inr, refl, Bool, true, false, ◌&&◌, ◌||◌, not, [], ◌∷◌, ◌++◌, Option,
  none, some, Result, ok, err, ◌==◌, if◌then◌else◌, attribute_error, map,
}
use honeybee_potstore.Base.Text.{Bytes, text_eq, codes}
use honeybee_potstore.Wire.Utf8.{decode}
use honeybee_potstore.TelnetProxy.Strings.{has_part}
use honeybee_potstore.SshProxy.Reader.{string_to_hex, int_to_hex}
use honeybee_potstore.SshProxy.Term.{Parent, server, client}
use honeybee_potstore.SshProxy.Channels.{
  Channel, Ssh, Act, follow, ◌>>=◌, ◌>>◌, done, lift, change, read_int, read_string, read_bool,
  withhold, send_to_server, send_back, create_channel, get_channel, set_channel, channel_at,
  or_key_error, remove_channel,
}
use honeybee_potstore.SshProxy.Messages.{
  Sessions, to_lower, only_password, userauth_request, read_prompts, info_request, read_responses,
  info_response, read_extensions, service_request, refuse_channel, set_session, open_forward,
  channel_open, set_id, named_channel, open_confirmation, shown, id_of, open_sftp, quiet_requests,
  request, channel_request, on_session, set_closed, channel_messages, close_session, channel_close,
  to_session, global_request, dispatch,
}

module _ {S : Type 0} (P : Ssh S → Type 0) where
  -- An action keeps what is said of the state.
  abbrev pub Keeps : {A : Type 0} → Act S A → Type 0
  Keeps f = (p : Ssh S) → P p → P (f p).1

  pub bind-Keeps :
      {A B : Type 0} (m : Act S A) (f : A → Act S B)
      → Keeps m
      → ((a : A) → Keeps (f a))
      → Keeps (m >>= f)
  unfolding ◌>>=◌
  bind-Keeps {A} {B} m f hm hf p h = step (m p) (hm p h)
    where
      step : (r : Result A × Ssh S) → P r.1 → P (follow f r).1
      step (ok a, q) k = hf a q k
      step (err e, q) k = k

  pub if-Keeps :
      {A : Type 0} (b : Bool) (x y : Act S A) → Keeps x → Keeps y → Keeps (if b then x else y)
  if-Keeps true x y hx hy = hx
  if-Keeps false x y hx hy = hy

-- What looks at the packets for the back end, and at `send_on` only to say that it is false.
abbrev pub SeesClient : {S : Type 0} → (Ssh S → Type 0) → Type 0
SeesClient {S} P =
    (p q : Ssh S)
    → q.to_client ≡ p.to_client
    → (q.send_on ≡ p.send_on) ⊎ (q.send_on ≡ false)
    → P p
    → P q

module _ {S : Type 0} (P : Ssh S → Type 0) (sees : SeesClient P) where
  pub same : (p q : Ssh S) → q.to_client ≡ p.to_client → q.send_on ≡ p.send_on → P p → P q
  same p q c s h = sees p q c (inl s) h

  pub withhold-Keeps : Keeps P withhold
  withhold-Keeps p h = sees p (record p { send_on = false }) refl (inr refl) h

  pub read_int-Keeps : Keeps P read_int
  unfolding read_int
  read_int-Keeps p h = same p _ refl refl h

  pub read_string-Keeps : Keeps P read_string
  unfolding read_string
  read_string-Keeps p h = same p _ refl refl h

  pub read_bool-Keeps : Keeps P read_bool
  unfolding read_bool
  read_bool-Keeps p h = same p _ refl refl h

  pub send_to_server-Keeps : (n : ℕ) (payload : Bytes) → Keeps P (send_to_server n payload)
  unfolding send_to_server
  send_to_server-Keeps n payload p h = same p _ refl refl h

  pub send_back-Keeps : (n : ℕ) (payload : Bytes) → Keeps P (send_back server n payload)
  unfolding send_back
  send_back-Keeps n payload = send_to_server-Keeps n payload

  pub lift-Keeps : {A : Type 0} (r : Result A) → Keeps P {A = A} (lift r)
  lift-Keeps r p h = h

  pub set_channel-Keeps : (i : ℕ) (f : Channel S → Channel S) → Keeps P (set_channel i f)
  set_channel-Keeps i f p h = same p _ refl refl h

  -- Two readings, or one that decides nothing, before what follows.
  pub after_string :
      {A : Type 0} (f : Bytes → Act S A)
      → ((bs : Bytes) → Keeps P (f bs))
      → Keeps P (read_string >>= f)
  after_string f h = bind-Keeps P read_string f read_string-Keeps h

  pub after_int :
      {A : Type 0} (f : ℕ → Act S A) → ((n : ℕ) → Keeps P (f n)) → Keeps P (read_int >>= f)
  after_int f h = bind-Keeps P read_int f read_int-Keeps h

  pub after_bool :
      {A : Type 0} (f : Bool → Act S A) → ((b : Bool) → Keeps P (f b)) → Keeps P (read_bool >>= f)
  after_bool f h = bind-Keeps P read_bool f read_bool-Keeps h

  pub after_lift :
      {A B : Type 0} (r : Result A) (f : A → Act S B)
      → ((a : A) → Keeps P (f a))
      → Keeps P (lift r >>= f)
  after_lift r f h = bind-Keeps P (lift r) f (lift-Keeps r) h

  pub after_change :
      {A : Type 0} (f : Ssh S → Ssh S) (g : Act S A)
      → ((p : Ssh S) → (f p).to_client ≡ p.to_client)
      → ((p : Ssh S) → (f p).send_on ≡ p.send_on)
      → Keeps P g
      → Keeps P (change f >> g)
  after_change f g c s h =
      bind-Keeps P (change f) (λ u. g) (λ p k. same p (f p) (c p) (s p) k) (λ u. h)

  pub after_withhold : {A : Type 0} (g : Act S A) → Keeps P g → Keeps P (withhold >> g)
  after_withhold g h = bind-Keeps P withhold (λ u. g) withhold-Keeps (λ u. h)

  pub done-Keeps : Keeps P done
  done-Keeps p h = h
