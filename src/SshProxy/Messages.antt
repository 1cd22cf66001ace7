-- ===== src/SshProxy/Messages.antt =====
-- `parse_num_packet` of the class SSH (cowrie/src/cowrie/ssh_proxy/protocols/ssh.py). Log messages are left out but
-- for the decoding of what they show, which may raise, and so are `log_raw` and the names of the channels.
use honeybee_potstore.Base.{
  ℕ, zero, suc, ◌+◌, Bool, true, false, ◌&&◌, ◌||◌, not, [], ◌∷◌, ◌++◌, Option, none, some, Result,
  err, attribute_error, length, map, ◌==◌, if◌then◌else◌, leb,
}
use honeybee_potstore.Base.Int.{pos}
use honeybee_potstore.Base.Text.{Bytes, Text, text_eq, codes}
use honeybee_potstore.Wire.Utf8.{decode}
use honeybee_potstore.TelnetProxy.Strings.{has_part}
use honeybee_potstore.SshProxy.Reader.{int_to_hex, string_to_hex}
use honeybee_potstore.SshProxy.Term.{Parent, server, client}
use honeybee_potstore.SshProxy.Channels.{
  Channel, Act, ◌>>=◌, ◌>>◌, done, lift, change, read_int, read_string, read_bool, withhold,
  send_to_server, send_to_client, send_back, create_channel, get_channel, set_channel, channel_at,
  or_key_error, remove_channel,
}

-- The configuration, and what a session is and does: the classes Term, ExecTerm, SFTP and PortForward.
pub record Sessions (S : Type 0) : Type 0 where
  pub forwarding : Bool
  pub sftp_enabled : Bool
  pub term : ℕ → Result S
  pub exec_term : ℕ → Bytes → Result S
  pub sftp : Result S
  pub port_forward : Result S
  pub parse_packet : Parent → Bytes → S → Result (Unit {0}) × S
  pub channel_closed : S → Result (Unit {0}) × S

abbrev pub to_lower : ℕ → ℕ
to_lower b = if leb 65 b && leb b 90 then b + 32 else b

abbrev pub other : Parent → Parent
other server = client
other client = server

module _ {S : Type 0} (o : Sessions S) where
  -- `SSH_MSG_USERAUTH_FAILURE` with the one method `password`.
  abbrev pub only_password : Act S (Unit {0})
  only_password = lift (string_to_hex (codes "password")) >>= λ bs. send_to_server 51 (bs ++ 0 ∷ [])

  unfoldable pub userauth_request : Act S (Unit {0})
  userauth_request = do
    withhold
    name ← read_string
    change (λ p. record p { username = name })
    read_string
    kind ← read_string
    change (λ p. record p { auth_type = kind })
    (if text_eq kind (codes "password")
        then (read_bool >> read_string >>= λ w. change (λ p. record p { password = w }))
        else if text_eq kind (codes "publickey")
        then only_password
        else done)

  -- The loop over the prompts, from the `i`-th.
  unfoldable pub read_prompts : ℕ → ℕ → Act S (Unit {0})
  read_prompts i zero = done
  read_prompts i (suc n) = do
    request ← read_string
    read_bool
    (if has_part (codes "password") (map to_lower request)
        then change (λ p. record p { expect_password = i })
        else done)
    read_prompts (suc i) n

  unfoldable pub info_request : Act S (Unit {0})
  info_request = do
    withhold
    change (λ p. record p { auth_type = codes "keyboard-interactive" })
    read_string
    read_string
    read_string
    n ← read_int
    read_prompts 0 n

  unfoldable pub read_responses : ℕ → ℕ → Act S (Unit {0})
  read_responses i zero = done
  read_responses i (suc n) = do
    response ← read_string
    change (λ p. if i == p.expect_password then record p { password = response } else p)
    read_responses (suc i) n

  unfoldable pub info_response : Act S (Unit {0})
  info_response = withhold >> read_int >>= read_responses 0

  unfoldable pub read_extensions : ℕ → Act S (Unit {0})
  read_extensions zero = done
  read_extensions (suc n) = read_string >> read_string >> read_extensions n

  unfoldable pub service_request : Act S (Unit {0})
  service_request =
      read_string >>= λ service. if text_eq service (codes "ssh-userauth") then withhold else done

  -- `SSH_MSG_CHANNEL_OPEN_FAILURE`
  unfoldable pub refuse_channel : Parent → ℕ → Act S (Unit {0})
  refuse_channel who n = do
    withhold
    a ← lift (int_to_hex n)
    b ← lift (int_to_hex 1)
    c ← lift (string_to_hex (codes "open failed"))
    d ← lift (int_to_hex 0)
    send_back who 92 (a ++ (b ++ (c ++ d)))

  abbrev pub set_session : ℕ → Result S → Act S (Unit {0})
  set_session i r = lift r >>= λ s. set_channel i (λ c. record c { session = some s })

  unfoldable pub open_forward : Parent → ℕ → Bytes → Act S (Unit {0})
  open_forward who n kind = do
    read_int
    read_int
    read_string
    read_int
    read_string
    read_int
    (if o.forwarding
        then (create_channel who n kind >> get_channel n (other who) >>= λ i.
            set_session i o.port_forward)
        else refuse_channel who n)

  unfoldable pub channel_open : Parent → Act S (Unit {0})
  channel_open who = do
    kind ← read_string
    n ← read_int
    (if text_eq kind (codes "session")
        then (change (λ p. record p { timeouts = suc p.timeouts }) >> create_channel who n kind)
        else if text_eq kind (codes "direct-tcpip") || text_eq kind (codes "forwarded-tcpip")
        then open_forward who n kind
        else done)

  abbrev pub set_id : Parent → ℕ → Channel S → Channel S
  set_id server n c = record c { server_id = some n }
  set_id client n c = record c { client_id = some n }

  -- The channel that the packet names.
  abbrev pub named_channel : Parent → Act S ℕ
  named_channel who = read_int >>= λ n. get_channel n who

  unfoldable pub open_confirmation : Parent → Act S (Unit {0})
  open_confirmation who = named_channel who >>= λ i. read_int >>= λ n. set_channel i (set_id who n)

  -- What is shown of a name, which has to be UTF-8.
  abbrev pub shown : Bytes → Act S Text
  shown bs = lift (decode bs)

  abbrev pub id_of : (Channel S → Option ℕ) → ℕ → Act S ℕ
  id_of key i = channel_at i >>= λ c. lift (or_key_error (key c))

  unfoldable pub open_sftp : Parent → ℕ → Act S (Unit {0})
  open_sftp who i =
      if o.sftp_enabled
      then (id_of (λ c. c.server_id) i >> set_session i o.sftp)
      else (withhold >> id_of (λ c. c.server_id) i >>= λ n.
          lift (int_to_hex n) >>= λ bs. send_back who 100 bs)

  abbrev pub quiet_requests : Bytes → Bool
  quiet_requests kind =
      text_eq kind (codes "window-change")
      || (text_eq kind (codes "pty-req")
          || (text_eq kind (codes "exit-status") || text_eq kind (codes "exit-signal")))

  abbrev pub request : Parent → ℕ → Bytes → Act S (Unit {0})
  request who i kind =
      if text_eq kind (codes "shell")
      then (id_of (λ c. c.server_id) i >> id_of (λ c. c.client_id) i >>= λ n.
          set_session i (o.term n))
      else if text_eq kind (codes "exec")
      then (id_of (λ c. c.server_id) i >>= λ n.
          read_bool >> read_string >>= λ command. set_session i (o.exec_term n command))
      else if text_eq kind (codes "subsystem")
      then (read_bool >> read_string >>= λ subsystem.
          if text_eq subsystem (codes "sftp") then open_sftp who i else (shown subsystem >> done))
      else if text_eq kind (codes "env")
      then (read_bool >> read_string >>= λ var.
          read_string >>= λ value. shown var >> shown value >> done)
      else if quiet_requests kind
      then done
      else (shown kind >> done)

  unfoldable pub channel_request : Parent → Act S (Unit {0})
  channel_request who = named_channel who >>= λ i. read_string >>= request who i

  -- A call of a method of the channel's session.
  abbrev pub on_session : Option S → ℕ → (S → Result (Unit {0}) × S) → Act S (Unit {0})
  on_session none i f = lift (err attribute_error)
  on_session (some s) i f = set_channel i (λ c. record c { session = some (f s).1 }) >> lift (f s).0

  abbrev pub set_closed : Parent → Channel S → Channel S
  set_closed server c = record c { server_closed = true }
  set_closed client c = record c { client_closed = true }

  abbrev pub close_session : Option S → ℕ → Act S (Unit {0})
  close_session none i = done
  close_session (some s) i = on_session (some s) i o.channel_closed

  unfoldable pub channel_close : Parent → Act S (Unit {0})
  channel_close who = do
    i ← named_channel who
    set_channel i (set_closed who)
    c ← channel_at i
    if c.server_closed && c.client_closed
        then (close_session c.session i >> remove_channel i)
        else done

  unfoldable pub to_session : Parent → ℕ → Act S (Unit {0})
  to_session who i = do
    content ← read_string
    c ← channel_at i
    on_session c.session i (o.parse_packet who content)

  unfoldable pub global_request : Parent → Act S (Unit {0})
  global_request who = read_string >>= λ kind.
      if text_eq kind (codes "tcpip-forward") && not o.forwarding
      then (withhold >> send_back who 82 [])
      else done

  -- The messages of the connection, by their numbers.
  abbrev pub channel_messages : Parent → ℕ → Act S (Unit {0})
  channel_messages who n =
      if n == 90
      then channel_open who
      else if n == 91
      then open_confirmation who
      else if n == 92
      then (named_channel who >>= remove_channel)
      else if n == 98
      then channel_request who
      else if n == 97
      then channel_close who
      else if n == 94
      then (named_channel who >>= to_session who)
      else if n == 95
      then (named_channel who >>= λ i. read_int >> to_session who i)
      else if n == 80
      then global_request who
      else done

  -- All messages.
  unfoldable pub dispatch : Parent → ℕ → Act S (Unit {0})
  dispatch who n =
      if n == 5
      then service_request
      else if (n == 53) || (n == 52)
      then withhold
      else if n == 7
      then (read_int >>= read_extensions >> withhold)
      else if n == 50
      then userauth_request
      else if n == 51
      then (withhold >> read_string >> done)
      else if n == 60
      then info_request
      else if n == 61
      then info_response
      else channel_messages who n

  abbrev pub pass_on : Parent → ℕ → Bytes → Act S (Unit {0})
  pass_on server n payload = send_to_client n payload
  pass_on client n payload = send_to_server n payload

  abbrev pub pass_if : Bool → Parent → ℕ → Bytes → Act S (Unit {0})
  pass_if true who n payload = pass_on who n payload
  pass_if false who n payload = done

  unfoldable pub parse_num_packet : Parent → ℕ → Bytes → Act S (Unit {0})
  parse_num_packet who n payload =
      change (λ p. record p {
        rest = record { content = payload; packet_size = pos (length payload) };
        send_on = true;
      })
      >> dispatch who n
      >> (λ p. pass_if p.send_on who n payload p)
