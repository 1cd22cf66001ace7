-- ===== src/SshProxy/RelayTests.antt =====
-- Tests and witnesses for cowrie/src/cowrie/ssh_proxy/protocols/ssh.py.
use honeybee_potstore.Base.{
  ℕ, ◌<◌, modify_at, ◌≡◌, refl, true, false, List, [], ◌∷◌, ◌++◌, some, ok, err, key_error, length,
  arith, ◌⊎◌,
}
use honeybee_potstore.Base.Int.{pos}
use honeybee_potstore.Base.Text.{Bytes, codes, text_eq}
use honeybee_potstore.TelnetProxy.Strings.{starts_with}
use honeybee_potstore.SshProxy.Term.{
  Parent, server, client, Term, command_input, report, key_at, press, server_loop, after_tab,
  after_arrow, parse_packet,
}
use honeybee_potstore.Wire.Utf8.{decode}
use honeybee_potstore.Wire.Struct.{be32, number, number_from}
use honeybee_potstore.SshProxy.Reader.{reader, extract_int, extract_string, extract_bool}
use honeybee_potstore.SshProxy.Channels.{
  Ssh, new_channel, ◌>>=◌, read_int, read_string, read_bool, send_to_server, send_to_client,
  create_channel, get_channel, find_channel,
}
use honeybee_potstore.SshProxy.Messages.{
  Sessions, userauth_request, channel_open, open_confirmation, dispatch, parse_num_packet,
}
use honeybee_potstore.SshProxy.Withheld.{
  request, is_forward, first_string, parse_num_packet-relays, parse_num_packet-withholds,
  parse_num_packet-no_forward,
}
use honeybee_potstore.SshProxy.Delivered.{passed_on, with_session}
use honeybee_potstore.SshProxy.Conversation.{
  Data, packets_of, relay_all, hear, Takes, relay_all-delivers,
}
use honeybee_potstore.SshProxy.Tests.{new_term}

-- Sessions that gather what they are given.
abbrev gathering : Sessions Bytes
gathering = record {
  forwarding = false;
  sftp_enabled = true;
  term = λ n. ok [];
  exec_term = λ n command. ok command;
  sftp = ok [];
  port_forward = ok [];
  parse_packet = λ who content s. (ok tt, s ++ content);
  channel_closed = λ s. (ok tt, s);
}

abbrev new_ssh : Ssh Bytes
new_ssh = record {
  rest = reader [] (pos 0);
  channels = [];
  username = [];
  password = [];
  auth_type = [];
  send_on = false;
  expect_password = 0;
  has_client = true;
  to_server = [];
  to_client = [];
  timeouts = 0;
}

-- A string in a packet.
abbrev text : Bytes → Bytes
text bs = 0 ∷ 0 ∷ 0 ∷ length bs ∷ bs

abbrev login : Bytes
login =
    text (codes "root")
    ++ (text (codes "ssh-connection") ++ (text (codes "password") ++ (0 ∷ text (codes "hunter2"))))

parse_num_packet-withholds_example :
    (parse_num_packet gathering server 50 login new_ssh).1.to_client ≡ []
parse_num_packet-withholds_example = parse_num_packet-withholds gathering request login new_ssh

-- The password was read there.
password_read : (parse_num_packet gathering server 50 login new_ssh).1.password ≡ codes "hunter2"
unfolding parse_num_packet dispatch userauth_request read_string read_bool extract_string
    extract_bool extract_int number number_from text_eq ◌>>=◌
password_read = refl

abbrev forward_request : Bytes
forward_request =
    text (codes "direct-tcpip") ++ (0 ∷ 0 ∷ 0 ∷ 3 ∷ 0 ∷ 0 ∷ 1 ∷ 0 ∷ 0 ∷ 0 ∷ 1 ∷ 0 ∷ [])

forwards : is_forward (first_string forward_request) ≡ true
unfolding extract_string extract_int number number_from text_eq
forwards = refl

parse_num_packet-no_forward_example :
    (parse_num_packet gathering server 90 forward_request new_ssh).1.to_client ≡ []
parse_num_packet-no_forward_example =
    parse_num_packet-no_forward gathering forward_request new_ssh refl forwards

abbrev open_session : ℕ → Bytes
open_session n = text (codes "session") ++ (0 ∷ 0 ∷ 0 ∷ n ∷ [])

parse_num_packet-relays_example :
    ((parse_num_packet gathering server 90 (open_session 4) new_ssh).1.to_client ≡ [])
    ⊎ ((parse_num_packet gathering server 90 (open_session 4) new_ssh).1.to_client
        ≡ (90, open_session 4) ∷ [])
parse_num_packet-relays_example = parse_num_packet-relays gathering 90 (open_session 4) new_ssh

-- A channel that is not confirmed yet makes the search for a later one end in KeyError.
waiting_channel :
    (parse_num_packet gathering server 94
      (0 ∷ 0 ∷ 0 ∷ 9 ∷ text (codes "x"))
      (parse_num_packet gathering client 91
        (0 ∷ 0 ∷ 0 ∷ 1 ∷ 0 ∷ 0 ∷ 0 ∷ 9 ∷ [])
        (parse_num_packet gathering server 90
          (open_session 1)
          (parse_num_packet gathering server 90 (open_session 0) new_ssh).1).1).1).0
    ≡ err key_error
unfolding parse_num_packet dispatch channel_open open_confirmation create_channel get_channel
    find_channel read_int read_string send_to_client send_to_server extract_string extract_int
    number number_from text_eq ◌>>=◌
waiting_channel = refl

-- Sessions of a shell whose log is off.
abbrev shells : Sessions Term
shells = record {
  forwarding = false;
  sftp_enabled = true;
  term = λ n. ok (new_term false);
  exec_term = λ n command. ok (new_term false);
  sftp = ok (new_term false);
  port_forward = ok (new_term false);
  parse_packet =
      λ who content s. parse_packet who (record { whole = pos 5; micros = pos 0 }) content s;
  channel_closed = λ s. (ok tt, s);
}

-- Channel 9 of the attacker, which is 3 at the back end, after one that is not confirmed.
abbrev talking_ssh : Ssh Term
talking_ssh = record {
  rest = reader [] (pos 0);
  channels =
      record (new_channel server 5 (codes "session")) { client_id = some 4 }
      ∷ record {
        server_id = some 9;
        client_id = some 3;
        kind = codes "session";
        session = some (new_term false);
        server_closed = false;
        client_closed = false;
      }
      ∷ [];
  username = [];
  password = [];
  auth_type = [];
  send_on = false;
  expect_password = 0;
  has_client = true;
  to_server = [];
  to_client = [];
  timeouts = 0;
}

abbrev numbers : Parent → ℕ
numbers server = 3
numbers client = 9

abbrev echoed : List Data
echoed =
    record { parent = server; content = codes "l" }
    ∷ record { parent = client; content = codes "l" }
    ∷ record { parent = server; content = codes "s" ++ 13 ∷ [] }
    ∷ []

numbers_fit : (who : Parent) → numbers who < 4294967296
numbers_fit server = omega arith
numbers_fit client = omega arith

same_channel : (who : Parent) → find_channel who (numbers who) talking_ssh.channels ≡ ok 1
unfolding find_channel
same_channel server = refl
same_channel client = refl

taken : Takes shells echoed (new_term false)
unfolding parse_packet server_loop press key_at starts_with after_tab after_arrow
taken = (refl, (refl, (refl, tt)))

relay_all-delivers_example :
    ((side : Parent)
      → passed_on side (relay_all shells numbers echoed talking_ssh)
        ≡ passed_on side talking_ssh ++ packets_of numbers side echoed)
    × ((relay_all shells numbers echoed talking_ssh).channels
        ≡ modify_at 1 (with_session (hear shells echoed (new_term false))) talking_ssh.channels)
relay_all-delivers_example =
    relay_all-delivers shells numbers echoed talking_ssh 1 (new_term false) numbers_fit
      (omega arith, (omega arith, (omega arith, tt))) (same_channel, (_, refl, refl), refl) taken

-- The session heard the command.
heard : (hear shells echoed (new_term false)).reports ≡ command_input (codes "ls") ∷ []
unfolding parse_packet server_loop press key_at starts_with after_tab after_arrow report decode
heard = refl

packet_in : packets_of numbers client echoed ≡ (94, 0 ∷ 0 ∷ 0 ∷ 9 ∷ 0 ∷ 0 ∷ 0 ∷ 1 ∷ codes "l") ∷ []
unfolding be32
packet_in = refl
