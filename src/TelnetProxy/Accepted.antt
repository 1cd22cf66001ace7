-- ===== src/TelnetProxy/Accepted.antt =====
-- What a packet makes of a login in cowrie/src/cowrie/telnet_proxy/handler.py.
use mathlib.Core.Path.{subst}
use honeybee_potstore.Base.{
  ℕ, ◌≡◌, refl, sym, ap, ◌∙◌, Bool, true, false, ◌&&◌, not, [], ◌∷◌, ◌++◌, none, some, err,
  index_error, Bool-cases, Option-cases, inl, inr, length, ◌==◌, if◌then◌else◌, take,
}
use honeybee_potstore.Base.Text.{Bytes}
use honeybee_potstore.Auth.Strings.{has}
use honeybee_potstore.Wire.Utf8.{encode_char}
use honeybee_potstore.TelnetProxy.Strings.{byte_after, process_backspaces, replace}
use honeybee_potstore.TelnetProxy.Checked.{
  facts, Still, Leads, then-Leads, when-Leads, when-Still, send_backend-Still, send_frontend-Still,
}
use honeybee_potstore.TelnetProxy.Handler.{
  Outside, Handler, Move, ◌>>◌, when, change, send_backend, with_terminator, decoded, send_prefix,
  add_password, check_login, end_password, process_password_input, process_username_input,
  set_processing_state_backend, set_processing_state_frontend, see_password_prompt, Parent, backend,
  frontend, spoof, drop_echo, add_command, report_command, log_command, pass_to, add_packet,
  has_return,
}

if-holds : (P : Handler → Type 0) (b : Bool) (x y : Handler) → P x → P y → P (if b then x else y)
if-holds P true x y h k = h
if-holds P false x y h k = k

module _ (o : Outside) where
  -- The login, if it is accepted, was let in by the check.
  abbrev pub IsChecked : Handler → Type 0
  IsChecked p = p.auth_done ≡ true → o.check_user_pass p.username_state p.password_state ≡ true

  abbrev Before : Handler → Type 0
  Before p = (p.auth_done ≡ false) × (p.inputing_login ≡ false)

  abbrev After : Handler → Type 0
  After p = IsChecked p × (p.inputing_login ≡ false)

  not_both : {b : Bool} → b ≡ true → b ≡ false → ⊥
  not_both h k = cc

  weaken : (p : Handler) → Before p → After p
  weaken p h = ((λ t. absurd (not_both t h.0)), h.1)

  Still-Before : (f : Move) → Still f → Leads Before Before f
  Still-Before f s p h = (ap (λ x. x.0) (s p) ∙ h.0, ap (λ x. x.1) (s p) ∙ h.1)

  Still-IsChecked : (f : Move) → Still f → Leads IsChecked IsChecked f
  Still-IsChecked f s p h t =
      ap (λ x. o.check_user_pass x.2 x.3) (s p) ∙ h (sym (ap (λ x. x.0) (s p)) ∙ t)

  decoded-Still : (field : Handler → Bytes) → Still (decoded o field)
  decoded-Still field p = elim (Bool-cases (o.decodes (field p))) [
    | inl e ↦ rw (e) refl
    | inr e ↦ rw (e) refl
  ]

  with_terminator-Leads :
      (P Q : Handler → Type 0) (next : Bytes → Move)
      → ((c : Bytes) → Leads P Q (next c))
      → ((p : Handler) → P p → Q p)
      → Leads P Q (with_terminator o next)
  with_terminator-Leads P Q next h k p b = elim (Option-cases (byte_after 13 p.current_data)) [
    | inl e ↦ subst (λ r. Q r.1) (sym (left e)) (k p b)
    | inr (c, e) ↦ subst (λ r. Q r.1) (sym (right c e)) (h (encode_char c) p b)
  ]
    where
      left : byte_after 13 p.current_data ≡ none → with_terminator o next p ≡ (err index_error, p)
      left e = rw (e, with_terminator) refl

      right :
          (c : ℕ)
          → byte_after 13 p.current_data ≡ some c
          → with_terminator o next p ≡ next (encode_char c) p
      right c e = rw (e, with_terminator) refl

  check_login-After : (c : Bytes) → Leads Before After (check_login o c)
  check_login-After c p h =
      elim (Bool-cases (o.check_user_pass p.username_state p.password_state)) [
        | inl e ↦ rw (e) ((λ t. e), h.1)
        | inr e ↦ rw (e) (weaken p h)
      ]

  end_password-After : (c : Bytes) → Leads Before After (end_password o c)
  end_password-After c =
      let clean = change (λ p. record p { password_state = process_backspaces p.password_state }) in
      let say = decoded o (λ p. p.password_state) in
      let stop = change (λ p. record p { inputing_password = false }) in
      then-Leads Before Before After clean (say >> (stop >> check_login o c)) (λ p h. h)
        (then-Leads Before Before After say (stop >> check_login o c)
          (Still-Before say (decoded-Still (λ p. p.password_state)))
          (then-Leads Before Before After stop (check_login o c) (λ p h. h) (check_login-After c)
            weaken)
          weaken)
        weaken

  send_prefix-Before : Leads Before Before (send_prefix o)
  send_prefix-Before p h =
      then-Leads Before Before Before (send_backend o (take 3 p.current_data))
        (change (λ q. record q { pre_password_data = false }))
        (Still-Before (send_backend o (take 3 p.current_data))
          (send_backend-Still o (take 3 p.current_data)))
        (λ q k. k) (λ q k. k) p h

  process_password_input-After : Leads Before After (process_password_input o)
  unfolding process_password_input
  process_password_input-After =
      let hold = change (λ p. record p { send_data = false }) in
      let prefix = when (λ p. p.pre_password_data) (send_prefix o) in
      let ending = when (has_return o) (with_terminator o (end_password o)) in
      then-Leads Before Before After hold (prefix >> (add_password o >> ending)) (λ p h. h)
        (then-Leads Before Before After prefix (add_password o >> ending)
          (when-Leads Before Before (λ p. p.pre_password_data) (send_prefix o)
            (λ p h e. send_prefix-Before p h) (λ p h. h))
          (then-Leads Before Before After (add_password o) ending (λ p h. h)
            (when-Leads Before After (has_return o) (with_terminator o (end_password o))
              (λ p h e.
                with_terminator-Leads Before After (end_password o) end_password-After weaken p h)
              weaken)
            weaken)
          weaken)
        weaken

  set_processing_state_frontend-Before : Leads Before Before (set_processing_state_frontend o)
  unfolding set_processing_state_frontend
  set_processing_state_frontend-Before p h = elim (Option-cases (o.negotiation p.current_data)) [
    | inl e ↦ rw (e, set_processing_state_frontend) h
    | inr ((name, replaced), e) ↦ rw (e, set_processing_state_frontend) (named name replaced)
  ]
    where
      named :
          (name replaced : Bytes)
          → Before
              ((change (λ q. record q { username_state = name })
                  >> decoded o (λ q. q.username_state)
                  >> change (λ q. record q { current_data = replaced }))
                p).1
      named name replaced =
          then-Leads Before Before Before (change (λ q. record q { username_state = name }))
            (decoded o (λ q. q.username_state)
              >> change (λ q. record q { current_data = replaced }))
            (λ q k. k)
            (then-Leads Before Before Before (decoded o (λ q. q.username_state))
              (change (λ q. record q { current_data = replaced }))
              (Still-Before (decoded o (λ q. q.username_state))
                (decoded-Still (λ q. q.username_state)))
              (λ q k. k) (λ q k. k))
            (λ q k. k) p h

  abbrev NotDone : Handler → Type 0
  NotDone p = p.auth_done ≡ false

  set_processing_state_backend-NotDone : Leads NotDone NotDone (set_processing_state_backend o)
  unfolding set_processing_state_backend
  set_processing_state_backend-NotDone p h =
      let q = see_password_prompt o p in
      let h1 =
        if-holds NotDone (o.password_prompt p.current_data)
          (record p { auth_started = true; inputing_password = true; password_state = [] }) p h h in
      if-holds NotDone (o.username_prompt q.current_data)
        (record q { auth_started = true; inputing_login = true; username_state = [] }) q h1 h1

  spoof-IsChecked : (parent : Parent) → Leads Before IsChecked (spoof o parent)
  spoof-IsChecked backend p h =
      then-Leads NotDone NotDone IsChecked (set_processing_state_backend o)
        (when (λ p. p.waiting_login_echo) (drop_echo o)) set_processing_state_backend-NotDone
        (λ q k. unchecked (when (λ p. p.waiting_login_echo) (drop_echo o) q).1 (
          when-Leads NotDone NotDone (λ p. p.waiting_login_echo) (drop_echo o) (λ p h e. h)
            (λ p h. h) q k))
        unchecked p h.0
    where
      unchecked : (q : Handler) → NotDone q → IsChecked q
      unchecked q k t = absurd (not_both t k)
  spoof-IsChecked frontend p h =
      let typing = when (λ p. p.inputing_password) (process_password_input o) in
      let naming = when (λ p. p.inputing_login) (process_username_input o) in
      then-Leads Before Before IsChecked (set_processing_state_frontend o) (typing >> naming)
        set_processing_state_frontend-Before
        (then-Leads Before After IsChecked typing naming
          (when-Leads Before After (λ p. p.inputing_password) (process_password_input o)
            (λ p h e. process_password_input-After p h) weaken)
          (when-Leads After IsChecked (λ p. p.inputing_login) (process_username_input o)
            (λ p h e. absurd (not_both e h.1)) (λ p h. h.0))
          (λ q k. k.0))
        (λ q k. (weaken q k).0) p h

  add_command-Still : (content : Bytes) → Still (add_command o content)
  add_command-Still content p =
      let q = record p {
        current_command =
            p.current_command ++ replace (13 ∷ 10 ∷ []) [] (replace (13 ∷ 0 ∷ []) [] content);
      } in
      if-holds (λ x. facts x ≡ facts p) (has 13 content) (report_command o q) q
        (if-holds (λ x. facts x ≡ facts p) (length q.current_command == 0) q
          (record q { inputs = q.inputs ++ q.current_command ∷ []; current_command = [] }) refl
          refl)
        refl

  log_command-Still : (parent : Parent) (content : Bytes) → Still (log_command o parent content)
  log_command-Still backend content = λ p. refl
  log_command-Still frontend content =
      when-Still (λ p. p.auth_done) (add_command o content) (add_command-Still content)

  pass_to-Still : (parent : Parent) → Still (pass_to o parent)
  pass_to-Still backend p = send_frontend-Still o p.current_data p
  pass_to-Still frontend p = send_backend-Still o p.current_data p

  not_done : (b c : Bool) → (b && not c) ≡ true → c ≡ false
  not_done true true h = cc
  not_done true false h = refl
  not_done false c h = cc

  -- While no name is being typed, a packet of either side, whatever it brings about and even if it
  -- raises, leaves the login accepted only where the check let in the name and the password that were
  -- read, if it was so before.
  pub add_packet-IsChecked :
      (parent : Parent) (content : Bytes) (p : Handler)
      → IsChecked p
      → p.inputing_login ≡ false
      → IsChecked (add_packet o parent content p).1
  unfolding add_packet
  add_packet-IsChecked parent content p h n =
      let start = change (λ q. record q { current_data = content; send_data = true }) in
      let fresh = λ (q : Handler). o.spoof_authentication_data && not q.auth_done in
      let some_data = λ (q : Handler). q.send_data && not (length q.current_data == 0) in
      let passing = when some_data (pass_to o parent) in
      then-Leads After After IsChecked start
        (when fresh (spoof o parent) >> (log_command o parent content >> passing)) (λ q k. k)
        (then-Leads After IsChecked IsChecked (when fresh (spoof o parent))
          (log_command o parent content >> passing)
          (when-Leads After IsChecked fresh (spoof o parent)
            (λ q k e.
              spoof-IsChecked parent q (not_done o.spoof_authentication_data q.auth_done e, k.1))
            (λ q k. k.0))
          (then-Leads IsChecked IsChecked IsChecked (log_command o parent content) passing
            (Still-IsChecked (log_command o parent content) (log_command-Still parent content))
            (Still-IsChecked passing
              (when-Still some_data (pass_to o parent) (pass_to-Still parent)))
            (λ q k. k))
          (λ q k. k))
        (λ q k. k.0) p (h, n)
