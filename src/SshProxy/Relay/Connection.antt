-- ===== src/SshProxy/Relay/Connection.antt =====
-- What the messages of the channels keep, and so all messages (cowrie/src/cowrie/ssh_proxy/protocols/ssh.py).
use honeybee_potstore.Base.{
  ℕ, suc, refl, ◌&&◌, ◌||◌, not, [], ◌++◌, Option, none, some, Result, err, ◌==◌, attribute_error,
}
use honeybee_potstore.Base.Text.{Bytes, text_eq, codes}
use honeybee_potstore.Wire.Utf8.{decode}
use honeybee_potstore.SshProxy.Reader.{string_to_hex, int_to_hex}
use honeybee_potstore.SshProxy.Term.{Parent, server, client}
use honeybee_potstore.SshProxy.Channels.{
  Channel, Ssh, ◌>>◌, done, create_channel, get_channel, channel_at, or_key_error, remove_channel,
}
use honeybee_potstore.SshProxy.Messages.{
  Sessions, refuse_channel, set_session, open_forward, channel_open, set_id, named_channel,
  open_confirmation, shown, id_of, open_sftp, quiet_requests, request, channel_request, on_session,
  set_closed, channel_messages, close_session, channel_close, to_session, global_request, dispatch,
}
use honeybee_potstore.SshProxy.Relay.{
  Keeps, bind-Keeps, if-Keeps, SeesClient, after_string, after_int, after_bool, after_lift,
  after_change, after_withhold, same, send_back-Keeps, lift-Keeps, set_channel-Keeps,
  withhold-Keeps, read_string-Keeps, done-Keeps,
}
use honeybee_potstore.SshProxy.Relay.Login.{
  userauth_request-Keeps, info_request-Keeps, info_response-Keeps, service_request-Keeps,
  read_extensions-Keeps,
}

module _ {S : Type 0} (P : Ssh S → Type 0) (sees : SeesClient P) (o : Sessions S) where
  pub refuse_channel-Keeps : (n : ℕ) → Keeps P (refuse_channel o server n)
  unfolding refuse_channel
  refuse_channel-Keeps n = after_withhold P sees _ (
      after_lift P sees (int_to_hex n) _ λ a. after_lift P sees (int_to_hex 1) _ λ b.
        after_lift P sees (string_to_hex (codes "open failed")) _ λ c.
          after_lift P sees (int_to_hex 0) _ λ d. send_back-Keeps P sees 92 (a ++ (b ++ (c ++ d))))

  set_session-Keeps : (i : ℕ) (r : Result S) → Keeps P (set_session o i r)
  set_session-Keeps i r =
      after_lift P sees r _ λ s. set_channel-Keeps P sees i (λ c. record c { session = some s })

  get_channel-Keeps : (n : ℕ) (who : Parent) → Keeps P (get_channel n who)
  unfolding get_channel
  get_channel-Keeps n who p h = h

  create_channel-Keeps : (who : Parent) (n : ℕ) (kind : Bytes) → Keeps P (create_channel who n kind)
  unfolding create_channel
  create_channel-Keeps who n kind p h = same P sees p _ refl refl h

  open_forward-Keeps : (n : ℕ) (kind : Bytes) → Keeps P (open_forward o server n kind)
  unfolding open_forward
  open_forward-Keeps n kind = after_int P sees _ λ a. after_int P sees _ λ b.
      after_string P sees _ λ c. after_int P sees _ λ d. after_string P sees _ λ e.
        after_int P sees _ λ f.
          if-Keeps P o.forwarding _ _
            (bind-Keeps P _ _
              (bind-Keeps P _ _ (create_channel-Keeps server n kind)
                λ u. get_channel-Keeps n client)
              λ i. set_session-Keeps i o.port_forward)
            (refuse_channel-Keeps n)

  channel_open-Keeps : Keeps P (channel_open o server)
  unfolding channel_open
  channel_open-Keeps = after_string P sees _ λ kind. after_int P sees _ λ n.
      if-Keeps P (text_eq kind (codes "session")) _ _
        (after_change P sees (λ p. record p { timeouts = suc p.timeouts }) _ (λ p. refl) (λ p. refl)
          (create_channel-Keeps server n kind))
        (if-Keeps P (text_eq kind (codes "direct-tcpip") || text_eq kind (codes "forwarded-tcpip"))
          _ _ (open_forward-Keeps n kind) (done-Keeps P sees))

  named_channel-Keeps : (who : Parent) → Keeps P (named_channel o who)
  named_channel-Keeps who = after_int P sees _ λ n. get_channel-Keeps n who

  open_confirmation-Keeps : (who : Parent) → Keeps P (open_confirmation o who)
  unfolding open_confirmation
  open_confirmation-Keeps who =
      bind-Keeps P _ _ (named_channel-Keeps who)
        λ i. after_int P sees _ λ n. set_channel-Keeps P sees i (set_id o who n)

  channel_at-Keeps : (i : ℕ) → Keeps P (channel_at i)
  channel_at-Keeps i p h = h

  id_of-Keeps : (key : Channel S → Option ℕ) (i : ℕ) → Keeps P (id_of o key i)
  id_of-Keeps key i =
      bind-Keeps P _ _ (channel_at-Keeps i) λ c. lift-Keeps P sees (or_key_error (key c))

  open_sftp-Keeps : (i : ℕ) → Keeps P (open_sftp o server i)
  unfolding open_sftp
  open_sftp-Keeps i =
      if-Keeps P o.sftp_enabled _ _
        (bind-Keeps P _ _ (id_of-Keeps (λ c. c.server_id) i) λ n. set_session-Keeps i o.sftp)
        (bind-Keeps P _ _ (after_withhold P sees _ (id_of-Keeps (λ c. c.server_id) i))
          λ n. after_lift P sees (int_to_hex n) _ λ bs. send_back-Keeps P sees 100 bs)

  shown-Keeps : (bs : Bytes) → Keeps P (shown o bs >> done)
  shown-Keeps bs = after_lift P sees (decode bs) _ λ s. done-Keeps P sees

  request-Keeps : (i : ℕ) (kind : Bytes) → Keeps P (request o server i kind)
  request-Keeps i kind =
      if-Keeps P (text_eq kind (codes "shell")) _ _
        (bind-Keeps P _ _
          (bind-Keeps P _ _ (id_of-Keeps (λ c. c.server_id) i)
            λ m. id_of-Keeps (λ c. c.client_id) i)
          λ n. set_session-Keeps i (o.term n))
        (if-Keeps P (text_eq kind (codes "exec")) _ _
          (bind-Keeps P _ _ (id_of-Keeps (λ c. c.server_id) i) λ n.
            bind-Keeps P _ _ (after_bool P sees _ λ b. read_string-Keeps P sees)
              λ command. set_session-Keeps i (o.exec_term n command))
          (if-Keeps P (text_eq kind (codes "subsystem")) _ _
            (bind-Keeps P _ _ (after_bool P sees _ λ b. read_string-Keeps P sees) λ subsystem.
              if-Keeps P (text_eq subsystem (codes "sftp")) _ _ (open_sftp-Keeps i)
                (shown-Keeps subsystem))
            (if-Keeps P (text_eq kind (codes "env")) _ _
              (bind-Keeps P _ _ (after_bool P sees _ λ b. read_string-Keeps P sees) λ var.
                after_string P sees _ λ value.
                  bind-Keeps P _ _
                    (after_lift P sees (decode var) _ λ s. lift-Keeps P sees (decode value))
                    λ t. done-Keeps P sees)
              (if-Keeps P (quiet_requests o kind) _ _ (done-Keeps P sees) (shown-Keeps kind)))))

  channel_request-Keeps : Keeps P (channel_request o server)
  unfolding channel_request
  channel_request-Keeps =
      bind-Keeps P _ _ (named_channel-Keeps server)
        λ i. after_string P sees _ λ kind. request-Keeps i kind

  on_session-Keeps :
      (s : Option S) (i : ℕ) (f : S → Result (Unit {0}) × S) → Keeps P (on_session o s i f)
  on_session-Keeps none i f = lift-Keeps P sees {A = Unit {0}} (err attribute_error)
  on_session-Keeps (some s) i f =
      bind-Keeps P _ _ (set_channel-Keeps P sees i (λ c. record c { session = some (f s).1 }))
        λ u. lift-Keeps P sees {A = Unit {0}} (f s).0

  close_session-Keeps : (s : Option S) (i : ℕ) → Keeps P (close_session o s i)
  close_session-Keeps none i = done-Keeps P sees
  close_session-Keeps (some s) i = on_session-Keeps (some s) i o.channel_closed

  remove_channel-Keeps : (i : ℕ) → Keeps P (remove_channel i)
  remove_channel-Keeps i p h = same P sees p _ refl refl h

  channel_close-Keeps : (who : Parent) → Keeps P (channel_close o who)
  unfolding channel_close
  channel_close-Keeps who = bind-Keeps P _ _ (named_channel-Keeps who) λ i.
      bind-Keeps P _ _ (set_channel-Keeps P sees i (set_closed o who)) λ u.
        bind-Keeps P _ _ (channel_at-Keeps i) λ c.
          if-Keeps P (c.server_closed && c.client_closed) _ _
            (bind-Keeps P _ _ (close_session-Keeps c.session i) λ v. remove_channel-Keeps i)
            (done-Keeps P sees)

  to_session-Keeps : (who : Parent) (i : ℕ) → Keeps P (to_session o who i)
  unfolding to_session
  to_session-Keeps who i = after_string P sees _ λ content.
      bind-Keeps P _ _ (channel_at-Keeps i)
        λ c. on_session-Keeps c.session i (o.parse_packet who content)

  global_request-Keeps : Keeps P (global_request o server)
  unfolding global_request
  global_request-Keeps = after_string P sees _ λ kind.
      if-Keeps P (text_eq kind (codes "tcpip-forward") && not o.forwarding) _ _
        (after_withhold P sees _ (send_back-Keeps P sees 82 [])) (done-Keeps P sees)

  channel_messages-Keeps : (n : ℕ) → Keeps P (channel_messages o server n)
  channel_messages-Keeps n = if-Keeps P (n == 90) _ _ channel_open-Keeps (
      if-Keeps P (n == 91) _ _ (open_confirmation-Keeps server) (
        if-Keeps P (n == 92) _ _
          (bind-Keeps P _ _ (named_channel-Keeps server) remove_channel-Keeps)
          (if-Keeps P (n == 98) _ _ channel_request-Keeps (
            if-Keeps P (n == 97) _ _ (channel_close-Keeps server) (
              if-Keeps P (n == 94) _ _
                (bind-Keeps P _ _ (named_channel-Keeps server) (to_session-Keeps server))
                (if-Keeps P (n == 95) _ _
                  (bind-Keeps P _ _ (named_channel-Keeps server)
                    λ i. after_int P sees _ λ m. to_session-Keeps server i)
                  (if-Keeps P (n == 80) _ _ global_request-Keeps (done-Keeps P sees))))))))

  -- What the attacker sends changes nothing that the back end has got, before it is passed on.
  pub dispatch-Keeps : (n : ℕ) → Keeps P (dispatch o server n)
  unfolding dispatch
  dispatch-Keeps n = if-Keeps P (n == 5) _ _ (service_request-Keeps P sees o) (
      if-Keeps P ((n == 53) || (n == 52)) _ _ (withhold-Keeps P sees) (
        if-Keeps P (n == 7) _ _
          (bind-Keeps P _ _ (after_int P sees _ (read_extensions-Keeps P sees o))
            λ u. withhold-Keeps P sees)
          (if-Keeps P (n == 50) _ _ (userauth_request-Keeps P sees o) (
            if-Keeps P (n == 51) _ _
              (bind-Keeps P _ _ (after_withhold P sees _ (read_string-Keeps P sees))
                λ bs. done-Keeps P sees)
              (if-Keeps P (n == 60) _ _ (info_request-Keeps P sees o) (
                if-Keeps P (n == 61) _ _ (info_response-Keeps P sees o)
                  (channel_messages-Keeps n)))))))
