-- ===== src/TelnetProxy/Tests.antt =====
-- Tests and witnesses for cowrie/src/cowrie/telnet_proxy/handler.py.
use honeybee_potstore.Base.{
  ◌≡◌, refl, Bool, true, false, List, [], ◌∷◌, ◌++◌, none, some, ok, err, index_error,
}
use honeybee_potstore.Base.Int.{pos}
use honeybee_potstore.Base.Text.{codes}
use honeybee_potstore.Auth.Strings.{has}
use honeybee_potstore.Wire.Utf8.{encode_char}
use honeybee_potstore.TtyLog.Record.{
  ttylog_write, ttylog_inputhash, input_bytes, pack_header, pack_i, pack_L, le32, number_le, signed,
  unpack_header, read, read_record, int_eq,
}
use honeybee_potstore.TelnetProxy.Strings.{
  process_backspaces, backspaces_from, but_last_byte, replace, replace_from, starts_with,
  remove_all, byte_after,
}
use honeybee_potstore.TelnetProxy.Handler.{
  Outside, Handler, send_backend, send_packets, process_password_input,
  set_processing_state_frontend, add_packet, frontend,
}
use honeybee_potstore.TelnetProxy.Accepted.{IsChecked, add_packet-IsChecked}
use honeybee_potstore.TelnetProxy.Order.{Act, sends, joins, do_all}

abbrev outside : Outside
outside = record {
  spoof_authentication_data = true;
  backend_login = codes "root";
  backend_password = codes "pw";
  username_prompt = λ bs. has 108 bs;
  password_prompt = λ bs. has 80 bs;
  negotiation = λ bs. none;
  check_user_pass = λ u p. false;
  decodes = λ bs. true;
  now = λ bs. record { whole = pos 5; micros = pos 0 };
}

abbrev new_handler : (logging : Bool) → Handler
new_handler logging = record {
  current_data = [];
  send_data = true;
  has_client = false;
  current_command = [];
  auth_started = logging;
  auth_done = false;
  username_state = [];
  inputing_login = false;
  password_state = [];
  inputing_password = false;
  waiting_login_echo = false;
  pre_password_data = false;
  backend_buffer = [];
  ttylog_enabled = true;
  ttylog_file = [];
  ttylog_size = 0;
  to_backend = [];
  to_frontend = [];
  inputs = [];
  timeouts = 0;
}

abbrev two_early : List Act
two_early = sends (codes "a") ∷ sends (codes "b") ∷ []

-- For each packet that waited the last one is logged.
logged_thrice :
    ttylog_inputhash
      (λ bs. bs)
      9
      (do_all outside
        (sends (codes "a") ∷ sends (codes "b") ∷ joins ∷ sends (codes "c") ∷ [])
        (new_handler true)).1.ttylog_file
    ≡ some (ok (codes "ccc"))
unfolding do_all send_backend send_packets ttylog_write ttylog_inputhash input_bytes pack_header
    pack_i pack_L le32 number_le signed unpack_header read read_record int_eq replace replace_from
    starts_with
logged_thrice = refl

-- A byte from 128 on counts as a character of two bytes, of which a backspace takes one.
half_a_character : process_backspaces (233 ∷ 127 ∷ []) ≡ 195 ∷ []
unfolding process_backspaces backspaces_from but_last_byte encode_char
half_a_character = refl

abbrev typing : Handler
typing = record (new_handler false) { inputing_password = true; has_client = true }

-- A wrong password goes to the back end as a wrong one, and not as it was typed.
wrong_password :
    (add_packet outside frontend (codes "x" ++ 13 ∷ 0 ∷ []) typing).1.to_backend
    ≡ (codes "pwfake" ++ 13 ∷ 0 ∷ []) ∷ []
unfolding add_packet set_processing_state_frontend process_password_input send_backend send_packets
    remove_all replace replace_from starts_with has byte_after process_backspaces backspaces_from
    encode_char
wrong_password = refl

-- A packet that ends with the return raises.
return_last : (add_packet outside frontend (codes "x" ++ 13 ∷ []) typing).0 ≡ err index_error
unfolding add_packet set_processing_state_frontend process_password_input remove_all replace
    replace_from starts_with has byte_after
return_last = refl

abbrev letting_in : Outside
letting_in = record outside { check_user_pass = λ u p. has 120 p }

add_packet-IsChecked_example :
    IsChecked letting_in (add_packet letting_in frontend (codes "x" ++ 13 ∷ 0 ∷ []) typing).1
add_packet-IsChecked_example =
    add_packet-IsChecked letting_in frontend (codes "x" ++ 13 ∷ 0 ∷ []) typing (λ t. cc) refl

-- It is accepted there.
let_in : (add_packet letting_in frontend (codes "x" ++ 13 ∷ 0 ∷ []) typing).1.auth_done ≡ true
unfolding add_packet set_processing_state_frontend process_password_input send_backend send_packets
    remove_all replace replace_from starts_with has byte_after process_backspaces backspaces_from
    encode_char
let_in = refl
