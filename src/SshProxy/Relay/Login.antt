-- ===== src/SshProxy/Relay/Login.antt =====
-- What the messages of the services and of the authentication keep (cowrie/src/cowrie/ssh_proxy/protocols/ssh.py).
use honeybee_potstore.Base.{
  ℕ, zero, suc, refl, Bool, true, false, [], ◌∷◌, ◌++◌, ◌==◌, if◌then◌else◌, map,
}
use honeybee_potstore.Base.Text.{Bytes, text_eq, codes}
use honeybee_potstore.TelnetProxy.Strings.{has_part}
use honeybee_potstore.SshProxy.Reader.{string_to_hex}
use honeybee_potstore.SshProxy.Channels.{Ssh, send_to_server}
use honeybee_potstore.SshProxy.Messages.{
  Sessions, to_lower, only_password, userauth_request, read_prompts, info_request, read_responses,
  info_response, read_extensions, service_request,
}
use honeybee_potstore.SshProxy.Relay.{
  Keeps, bind-Keeps, if-Keeps, SeesClient, after_string, after_int, after_bool, after_lift,
  after_change, after_withhold, same, send_to_server-Keeps, withhold-Keeps, read_int-Keeps,
  read_string-Keeps, done-Keeps,
}

module _ {S : Type 0} (P : Ssh S → Type 0) (sees : SeesClient P) (o : Sessions S) where
  only_password-Keeps : Keeps P (only_password o)
  only_password-Keeps =
      after_lift P sees (string_to_hex (codes "password")) (λ bs. send_to_server 51 (bs ++ 0 ∷ []))
        (λ bs. send_to_server-Keeps P sees 51 (bs ++ 0 ∷ []))

  pub userauth_request-Keeps : Keeps P (userauth_request o)
  unfolding userauth_request
  userauth_request-Keeps = after_withhold P sees _ (
      after_string P sees _ λ name.
        after_change P sees (λ p. record p { username = name }) _ (λ p. refl) (λ p. refl)
          (after_string P sees _ λ bs. after_string P sees _ λ kind.
            after_change P sees (λ p. record p { auth_type = kind }) _ (λ p. refl) (λ p. refl)
              (if-Keeps P (text_eq kind (codes "password")) _ _
                (bind-Keeps P _ _ (after_bool P sees _ λ b. read_string-Keeps P sees)
                  λ w. λ p h. same P sees p (record p { password = w }) refl refl h)
                (if-Keeps P (text_eq kind (codes "publickey")) _ _ only_password-Keeps
                  (done-Keeps P sees)))))

  read_prompts-Keeps : (i n : ℕ) → Keeps P (read_prompts o i n)
  unfolding read_prompts
  read_prompts-Keeps i zero = done-Keeps P sees
  read_prompts-Keeps i (suc n) = after_string P sees _ λ request. after_bool P sees _ λ b.
      bind-Keeps P _ _
        (if-Keeps P (has_part (codes "password") (map to_lower request)) _ _
          (λ p h. same P sees p (record p { expect_password = i }) refl refl h) (done-Keeps P sees))
        λ u. read_prompts-Keeps (suc i) n

  pub info_request-Keeps : Keeps P (info_request o)
  unfolding info_request
  info_request-Keeps = after_withhold P sees _ (
      after_change P sees (λ p. record p { auth_type = codes "keyboard-interactive" }) _ (λ p. refl)
        (λ p. refl)
        (after_string P sees _ λ a.
          after_string P sees _
            λ b. after_string P sees _ λ c. after_int P sees _ λ n. read_prompts-Keeps 0 n))

  keep_response :
      (i : ℕ) (response : Bytes) (p : Ssh S)
      → P p
      → P (if i == p.expect_password then record p { password = response } else p)
  keep_response i response p h = choice (i == p.expect_password)
    where
      choice : (b : Bool) → P (if b then record p { password = response } else p)
      choice true = same P sees p (record p { password = response }) refl refl h
      choice false = h

  read_responses-Keeps : (i n : ℕ) → Keeps P (read_responses o i n)
  unfolding read_responses
  read_responses-Keeps i zero = done-Keeps P sees
  read_responses-Keeps i (suc n) =
      after_string P sees _
        λ response. bind-Keeps P _ _ (keep_response i response) λ u. read_responses-Keeps (suc i) n

  pub info_response-Keeps : Keeps P (info_response o)
  unfolding info_response
  info_response-Keeps =
      bind-Keeps P _ _ (after_withhold P sees _ (read_int-Keeps P sees))
        λ n. read_responses-Keeps 0 n

  pub read_extensions-Keeps : (n : ℕ) → Keeps P (read_extensions o n)
  unfolding read_extensions
  read_extensions-Keeps zero = done-Keeps P sees
  read_extensions-Keeps (suc n) =
      bind-Keeps P _ _ (after_string P sees _ λ a. read_string-Keeps P sees)
        λ b. read_extensions-Keeps n

  pub service_request-Keeps : Keeps P (service_request o)
  unfolding service_request
  service_request-Keeps = after_string P sees _ λ service.
      if-Keeps P (text_eq service (codes "ssh-userauth")) _ _ (withhold-Keeps P sees)
        (done-Keeps P sees)
