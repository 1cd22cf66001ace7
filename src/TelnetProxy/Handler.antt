-- ===== src/TelnetProxy/Handler.antt =====
-- The class TelnetHandler (cowrie/src/cowrie/telnet_proxy/handler.py). Log messages are left out but
-- for the decoding of what they show, which may raise, and so is `log_raw`.
use honeybee_potstore.Base.{
  ℕ, suc, ◌+◌, Bool, true, false, ◌&&◌, not, List, [], ◌∷◌, ◌++◌, Option, none, some, Result, ok,
  err, index_error, unicode_error, length, take, ◌==◌, if◌then◌else◌,
}
use honeybee_potstore.Base.Int.{ℤ, pos}
use honeybee_potstore.Base.Text.{Bytes, codes}
use honeybee_potstore.Auth.Strings.{has}
use honeybee_potstore.Wire.Utf8.{encode_char}
use honeybee_potstore.TtyLog.Record.{Stamp, ttylog_write, type_input, type_output}
use honeybee_potstore.TelnetProxy.Strings.{
  has_part, replace, process_backspaces, remove_all, byte_after,
}

-- The searches for the patterns of the configuration (`negotiation` gives the second group and the
-- data with the name replaced), the answer of the check to each login, as it is in this session,
-- whether bytes can be decoded as `unicode-escape`, and the clock, as a function of what is logged so
-- far.
pub record Outside : Type 0 where
  pub spoof_authentication_data : Bool
  pub backend_login : Bytes
  pub backend_password : Bytes
  pub username_prompt : Bytes → Bool
  pub password_prompt : Bytes → Bool
  pub negotiation : Bytes → Option (Bytes × Bytes)
  pub check_user_pass : Bytes → Bytes → Bool
  pub decodes : Bytes → Bool
  pub now : Bytes → Stamp

-- `to_backend` and `to_frontend` are the packets that the two transports have got, `inputs` the
-- commands that were reported, and `timeouts` counts the calls of `setTimeout`.
pub record Handler : Type 0 where
  pub current_data : Bytes
  pub send_data : Bool
  pub has_client : Bool
  pub current_command : Bytes
  pub auth_started : Bool
  pub auth_done : Bool
  pub username_state : Bytes
  pub inputing_login : Bool
  pub password_state : Bytes
  pub inputing_password : Bool
  pub waiting_login_echo : Bool
  pub pre_password_data : Bool
  pub backend_buffer : List Bytes
  pub ttylog_enabled : Bool
  pub ttylog_file : Bytes
  pub ttylog_size : ℕ
  pub to_backend : List Bytes
  pub to_frontend : List Bytes
  pub inputs : List Bytes
  pub timeouts : ℕ

abbrev pub Move : Type 0
Move = Handler → Result (Unit {0}) × Handler

-- What follows a step that may raise.
abbrev pub follow : Move → Result (Unit {0}) × Handler → Result (Unit {0}) × Handler
follow g (ok u, q) = g q
follow g (err e, q) = (err e, q)

infixr 5 ◌>>◌
abbrev pub ◌>>◌ : Move → Move → Move
◌>>◌ f g p = follow g (f p)

abbrev pub done : Move
done p = (ok tt, p)

abbrev pub change : (Handler → Handler) → Move
change f p = (ok tt, f p)

-- A step that is chosen by the state in which it starts.
abbrev pub when : (Handler → Bool) → Move → Move
when test f p = elim (test p) [ true ↦ f p | false ↦ (ok tt, p) ]

abbrev pub set_client : Move
set_client p = (ok tt, record p { has_client = true })

abbrev pub is_logging : Handler → Bool
is_logging p = p.ttylog_enabled && p.auth_started

-- The two that give packets.
pub data Parent : Type 0 where
  backend frontend : Parent

module _ (o : Outside) where
  abbrev pub log_tty : ℤ → Bytes → Move
  log_tty d content p =
      let (r, file) =
        ttylog_write (pos (length content)) d (o.now p.ttylog_file) content p.ttylog_file in
      (r, record p { ttylog_file = file })

  abbrev pub count_logged : Bytes → Move
  count_logged content p = (ok tt, record p { ttylog_size = p.ttylog_size + length content })

  abbrev pub log_backend : Bytes → Move
  log_backend content = when is_logging (log_tty type_input content >> count_logged content)

  abbrev pub to_client : Bytes → Move
  to_client packet p = (ok tt, record p { to_backend = p.to_backend ++ packet ∷ [] })

  abbrev pub drop_first : List Bytes → List Bytes
  drop_first [] = []
  drop_first (b ∷ bs) = bs

  abbrev pub drop_packet : Move
  drop_packet p = (ok tt, record p { backend_buffer = drop_first p.backend_buffer })

  -- The loop over the packets; `content` is the argument of sendBackend.
  unfoldable pub send_packets : Bytes → List Bytes → Move
  send_packets content [] = done
  send_packets content (packet ∷ packets) =
      to_client packet
      >> log_backend (replace (0 ∷ []) (10 ∷ []) content)
      >> drop_packet
      >> send_packets content packets

  abbrev pub if_client : Bool → Move → Move
  if_client true f = f
  if_client false f = done

  unfoldable pub send_backend : Bytes → Move
  send_backend content p =
      let q = record p { backend_buffer = p.backend_buffer ++ content ∷ [] } in
      if_client p.has_client (send_packets content q.backend_buffer) q

  unfoldable pub send_frontend : Bytes → Move
  send_frontend content =
      change (λ p. record p { to_frontend = p.to_frontend ++ content ∷ [] })
      >> when is_logging (log_tty type_output content)

  -- `chr(data[data.index(b"\r") + 1]).encode()`, passed to what follows.
  abbrev pub with_terminator : (Bytes → Move) → Move
  with_terminator next p = elim (byte_after 13 p.current_data) [
    | none ↦ (err index_error, p)
    | some c ↦ next (encode_char c) p
  ]

  -- `decode('unicode-escape')` of a message.
  abbrev pub decoded : (Handler → Bytes) → Move
  decoded field p = if o.decodes (field p) then (ok tt, p) else (err unicode_error, p)

  abbrev pub has_return : Handler → Bool
  has_return p = has 13 p.current_data

  abbrev pub add_username : Move
  add_username p = (
    ok tt,
    record p {
      send_data = false;
      username_state =
          p.username_state ++ remove_all p.current_data ((13 ∷ []) ∷ (0 ∷ []) ∷ (10 ∷ []) ∷ []);
    },
  )

  abbrev pub echo : Move
  echo p =
      send_frontend
        (replace (0 ∷ []) (10 ∷ []) (replace (127 ∷ []) (8 ∷ 32 ∷ 8 ∷ []) p.current_data)) p

  abbrev pub end_username : Bytes → Move
  end_username c =
      change (λ p. record p { username_state = process_backspaces p.username_state })
      >> decoded (λ p. p.username_state)
      >> change (λ p. record p {
        inputing_login = false;
        current_data = o.backend_login ++ 13 ∷ c;
        send_data = true;
        waiting_login_echo = true;
      })

  unfoldable pub process_username_input : Move
  process_username_input = add_username >> echo >> when has_return (with_terminator end_username)

  abbrev pub send_prefix : Move
  send_prefix p =
      (send_backend (take 3 p.current_data) >> change (λ q. record q { pre_password_data = false }))
        p

  abbrev pub add_password : Move
  add_password p = (
    ok tt,
    record p {
      password_state =
          p.password_state
          ++ remove_all p.current_data
              ((255 ∷ []) ∷ (253 ∷ []) ∷ (1 ∷ []) ∷ (13 ∷ []) ∷ (0 ∷ []) ∷ (10 ∷ []) ∷ []);
    },
  )

  abbrev pub answer_with : Bytes → Bytes → Handler → Handler
  answer_with password c p = record p { current_data = password ++ 13 ∷ c; send_data = true }

  abbrev pub check_login : Bytes → Move
  check_login c p = (
    ok tt,
    (if o.check_user_pass p.username_state p.password_state
        then answer_with o.backend_password c
            (record p { auth_done = true; timeouts = suc p.timeouts })
        else answer_with (o.backend_password ++ codes "fake") c p),
  )

  abbrev pub end_password : Bytes → Move
  end_password c =
      change (λ p. record p { password_state = process_backspaces p.password_state })
      >> decoded (λ p. p.password_state)
      >> change (λ p. record p { inputing_password = false })
      >> check_login c

  unfoldable pub process_password_input : Move
  process_password_input =
      change (λ p. record p { send_data = false })
      >> when (λ p. p.pre_password_data) send_prefix
      >> add_password
      >> when has_return (with_terminator end_password)

  abbrev pub see_password_prompt : Handler → Handler
  see_password_prompt p =
      if o.password_prompt p.current_data
      then record p { auth_started = true; inputing_password = true; password_state = [] }
      else p

  abbrev pub see_username_prompt : Handler → Handler
  see_username_prompt p =
      if o.username_prompt p.current_data
      then record p { auth_started = true; inputing_login = true; username_state = [] }
      else p

  abbrev pub see_will_echo : Handler → Handler
  see_will_echo p = record p { pre_password_data = has_part (255 ∷ 251 ∷ 1 ∷ []) p.current_data }

  unfoldable pub set_processing_state_backend : Move
  set_processing_state_backend p =
      (ok tt, see_will_echo (see_username_prompt (see_password_prompt p)))

  unfoldable pub set_processing_state_frontend : Move
  set_processing_state_frontend p = elim (o.negotiation p.current_data) [
    | none ↦ (ok tt, p)
    | some (name, replaced) ↦
        (change (λ q. record q { username_state = name })
            >> decoded (λ q. q.username_state)
            >> change (λ q. record q { current_data = replaced }))
          p
  ]

  abbrev pub drop_echo : Move
  drop_echo p = (
    ok tt,
    record p {
      current_data = replace (o.backend_login ++ 13 ∷ 10 ∷ []) [] p.current_data;
      waiting_login_echo = false;
    },
  )

  abbrev pub spoof : Parent → Move
  spoof backend = set_processing_state_backend >> when (λ p. p.waiting_login_echo) drop_echo
  spoof frontend =
      set_processing_state_frontend
      >> when (λ p. p.inputing_password) process_password_input
      >> when (λ p. p.inputing_login) process_username_input

  abbrev pub report_command : Handler → Handler
  report_command p =
      if length p.current_command == 0
      then p
      else record p { inputs = p.inputs ++ p.current_command ∷ []; current_command = [] }

  abbrev pub add_command : Bytes → Move
  add_command content p =
      let q = record p {
        current_command =
            p.current_command ++ replace (13 ∷ 10 ∷ []) [] (replace (13 ∷ 0 ∷ []) [] content);
      } in
      (ok tt, (if has 13 content then report_command q else q))

  abbrev pub log_command : Parent → Bytes → Move
  log_command backend content = done
  log_command frontend content = when (λ p. p.auth_done) (add_command content)

  abbrev pub pass_to : Parent → Move
  pass_to frontend p = send_backend p.current_data p
  pass_to backend p = send_frontend p.current_data p

  unfoldable pub add_packet : Parent → Bytes → Move
  add_packet parent content =
      change (λ p. record p { current_data = content; send_data = true })
      >> when (λ p. o.spoof_authentication_data && not p.auth_done) (spoof parent)
      >> log_command parent content
      >> when (λ p. p.send_data && not (length p.current_data == 0)) (pass_to parent)
