-- ===== src/SshProxy/Channels.antt =====
-- The state of the class SSH (cowrie/src/cowrie/ssh_proxy/protocols/ssh.py) and its channels. A channel is at its
-- position in the list, and its keys that may be missing are options. The sessions are a type `S` of their own.
use honeybee_potstore.Base.{
  ℕ, zero, suc, Bool, true, false, List, [], ◌∷◌, ◌++◌, Option, none, some, Result, ok, err,
  key_error, attribute_error, get_elem?, modify_at, ◌==◌, if◌then◌else◌,
}
use honeybee_potstore.Base.Text.{Bytes}
use honeybee_potstore.SshProxy.Reader.{Reader, extract_int, extract_string, extract_bool}
use honeybee_potstore.SshProxy.Term.{Parent, server, client}

pub record Channel (S : Type 0) : Type 0 where
  pub server_id : Option ℕ
  pub client_id : Option ℕ
  pub kind : Bytes
  pub session : Option S
  pub server_closed : Bool
  pub client_closed : Bool

-- `to_server` and `to_client` are the packets that the two transports were given; `timeouts` counts
-- the calls of `setTimeout`.
pub record Ssh (S : Type 0) : Type 0 where
  pub rest : Reader
  pub channels : List (Channel S)
  pub username : Bytes
  pub password : Bytes
  pub auth_type : Bytes
  pub send_on : Bool
  pub expect_password : ℕ
  pub has_client : Bool
  pub to_server : List (ℕ × Bytes)
  pub to_client : List (ℕ × Bytes)
  pub timeouts : ℕ

abbrev pub Act : Type 0 → Type 0 → Type 0
Act S A = Ssh S → Result A × Ssh S

-- `found` is what a later channel gives; a channel without the key ends the search.
abbrev pub match_key : ℕ → Option ℕ → (later : Result ℕ) → Result ℕ
match_key n none later = err key_error
match_key n (some m) later = if m == n then ok 0 else later

abbrev pub next_place : Result ℕ → Result ℕ
next_place (ok i) = ok (suc i)
next_place (err e) = err e

-- A key of the channel that may be missing.
abbrev pub or_key_error : {A : Type 0} → Option A → Result A
or_key_error none = err key_error
or_key_error (some a) = ok a

abbrev pub remove_at : {A : Type 0} → ℕ → List A → List A
remove_at i [] = []
remove_at zero (x ∷ xs) = xs
remove_at (suc i) (x ∷ xs) = x ∷ remove_at i xs

module _ {S : Type 0} where
  abbrev pub follow : {A B : Type 0} → (A → Act S B) → Result A × Ssh S → Result B × Ssh S
  follow f (ok a, p) = f a p
  follow f (err e, p) = (err e, p)

  infixl 5 ◌>>=◌ ◌>>◌
  unfoldable pub ◌>>=◌ : {A B : Type 0} → Act S A → (A → Act S B) → Act S B
  ◌>>=◌ m f p = follow f (m p)

  abbrev pub ◌>>◌ : {A B : Type 0} → Act S A → Act S B → Act S B
  m >> k = m >>= λ _. k

  abbrev pub done : Act S (Unit {0})
  done p = (ok tt, p)

  abbrev pub lift : {A : Type 0} → Result A → Act S A
  lift r p = (r, p)

  abbrev pub change : (Ssh S → Ssh S) → Act S (Unit {0})
  change f p = (ok tt, f p)

  abbrev pub reading : {A : Type 0} → (Reader → A × Reader) → Act S A
  reading f p = let (a, r) = f p.rest in (ok a, record p { rest = r })

  unfoldable pub read_int : Act S ℕ
  read_int = reading (extract_int 4)

  unfoldable pub read_string : Act S Bytes
  read_string = reading extract_string

  unfoldable pub read_bool : Act S Bool
  read_bool = reading extract_bool

  abbrev pub withhold : Act S (Unit {0})
  withhold = change (λ p. record p { send_on = false })

  unfoldable pub send_to_server : ℕ → Bytes → Act S (Unit {0})
  send_to_server n payload = change (λ p. record p { to_server = p.to_server ++ (n, payload) ∷ [] })

  -- Before there is a client, the call is one on None.
  abbrev pub to_client_if : Bool → ℕ → Bytes → Act S (Unit {0})
  to_client_if true n payload =
      change (λ p. record p { to_client = p.to_client ++ (n, payload) ∷ [] })
  to_client_if false n payload = lift (err attribute_error)

  unfoldable pub send_to_client : ℕ → Bytes → Act S (Unit {0})
  send_to_client n payload p = to_client_if p.has_client n payload p

  unfoldable pub send_back : Parent → ℕ → Bytes → Act S (Unit {0})
  send_back server n payload = send_to_server n payload
  send_back client n payload = send_to_client n payload

  abbrev pub new_channel : Parent → ℕ → Bytes → Channel S
  new_channel server n kind = record {
    server_id = some n;
    client_id = none;
    kind = kind;
    session = none;
    server_closed = false;
    client_closed = false;
  }
  new_channel client n kind = record {
    server_id = none;
    client_id = some n;
    kind = kind;
    session = none;
    server_closed = false;
    client_closed = false;
  }

  unfoldable pub create_channel : Parent → ℕ → Bytes → Act S (Unit {0})
  create_channel who n kind =
      change (λ p. record p { channels = p.channels ++ new_channel who n kind ∷ [] })

  -- The key that a search for a packet of this side looks at.
  abbrev pub search_key : Parent → Channel S → Option ℕ
  search_key client c = c.server_id
  search_key server c = c.client_id

  unfoldable pub find_channel : Parent → ℕ → List (Channel S) → Result ℕ
  find_channel who n [] = err key_error
  find_channel who n (c ∷ cs) = match_key n (search_key who c) (next_place (find_channel who n cs))

  -- The position of the channel.
  unfoldable pub get_channel : ℕ → Parent → Act S ℕ
  get_channel n who p = (find_channel who n p.channels, p)

  abbrev pub set_channel : ℕ → (Channel S → Channel S) → Act S (Unit {0})
  set_channel i f = change (λ p. record p { channels = modify_at i f p.channels })

  abbrev pub channel_at : ℕ → Act S (Channel S)
  channel_at i p = (or_key_error (get_elem? p.channels i), p)

  abbrev pub remove_channel : ℕ → Act S (Unit {0})
  remove_channel i = change (λ p. record p { channels = remove_at i p.channels })
