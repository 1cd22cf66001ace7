-- ===== src/TelnetProxy/Checked.antt =====
-- A login through cowrie/src/cowrie/telnet_proxy/handler.py counts as accepted only if it was checked.
use mathlib.Core.Path.{subst}
use honeybee_potstore.Base.{
  ◌≡◌, refl, sym, ap, ◌∙◌, Bool, true, false, List, [], ◌∷◌, ◌++◌, Result, ok, err, Bool-cases, inl,
  inr,
}
use honeybee_potstore.Base.Text.{Bytes}
use honeybee_potstore.TtyLog.Record.{type_input, type_output}
use honeybee_potstore.TelnetProxy.Strings.{replace}
use honeybee_potstore.TelnetProxy.Handler.{
  change, Outside, Handler, Move, follow, ◌>>◌, when, is_logging, log_tty, log_backend,
  count_logged, to_client, drop_packet, send_packets, if_client, send_backend, send_frontend,
}

-- What the check of a login depends on.
abbrev pub facts : Handler → Bool × Bool × Bytes × Bytes
facts p = (p.auth_done, p.inputing_login, p.username_state, p.password_state)

abbrev pub Still : Move → Type 0
Still f = (p : Handler) → facts (f p).1 ≡ facts p

pub when-false :
    (test : Handler → Bool) (f : Move) (p : Handler) → test p ≡ false → when test f p ≡ (ok tt, p)
when-false test f p h = rw (h, when) refl

pub when-true :
    (test : Handler → Bool) (f : Move) (p : Handler) → test p ≡ true → when test f p ≡ f p
when-true test f p h = rw (h, when) refl

-- What holds before a step and what after it.
abbrev pub Leads : (P Q : Handler → Type 0) → Move → Type 0
Leads P Q f = (p : Handler) → P p → Q (f p).1

pub then-Leads :
    (P Q R : Handler → Type 0) (f g : Move)
    → Leads P Q f
    → Leads Q R g
    → ((q : Handler) → Q q → R q)
    → Leads P R (f >> g)
then-Leads P Q R f g hf hg weaken p h = step (f p) (hf p h)
  where
    step : (r : Result (Unit {0}) × Handler) → Q r.1 → R (follow g r).1
    step (ok u, q) k = hg q k
    step (err e, q) k = weaken q k

pub when-Leads :
    (P Q : Handler → Type 0) (test : Handler → Bool) (f : Move)
    → ((p : Handler) → P p → test p ≡ true → Q (f p).1)
    → ((q : Handler) → P q → Q q)
    → Leads P Q (when test f)
when-Leads P Q test f hf weaken p h = elim (Bool-cases (test p)) [
  | inl e ↦ subst (λ r. Q r.1) (sym (when-true test f p e)) (hf p h e)
  | inr e ↦ subst (λ r. Q r.1) (sym (when-false test f p e)) (weaken p h)
]

pub then-Still : (f g : Move) → Still f → Still g → Still (f >> g)
then-Still f g hf hg p = step (f p) (hf p)
  where
    step : (r : Result (Unit {0}) × Handler) → facts r.1 ≡ facts p → facts (follow g r).1 ≡ facts p
    step (ok u, q) k = hg q ∙ k
    step (err e, q) k = k

pub when-Still : (test : Handler → Bool) (f : Move) → Still f → Still (when test f)
when-Still test f hf p = elim (Bool-cases (test p)) [
  | inl e ↦ ap (λ r. facts r.1) (when-true test f p e) ∙ hf p
  | inr e ↦ ap (λ r. facts r.1) (when-false test f p e)
]

module _ (o : Outside) where
  log_backend-Still : (content : Bytes) → Still (log_backend o content)
  log_backend-Still content =
      when-Still is_logging (log_tty o type_input content >> count_logged o content)
        (then-Still (log_tty o type_input content) (count_logged o content) (λ p. refl) (λ p. refl))

  send_packets-Still : (content : Bytes) (ps : List Bytes) → Still (send_packets o content ps)
  unfolding send_packets
  send_packets-Still content [] = λ p. refl
  send_packets-Still content (x ∷ ps) =
      let cleaned = replace (0 ∷ []) (10 ∷ []) content in
      then-Still (to_client o x)
        (log_backend o cleaned >> drop_packet o >> send_packets o content ps) (λ p. refl)
        (then-Still (log_backend o cleaned) (drop_packet o >> send_packets o content ps)
          (log_backend-Still cleaned)
          (then-Still (drop_packet o) (send_packets o content ps) (λ p. refl)
            (send_packets-Still content ps)))

  pub send_backend-Still : (content : Bytes) → Still (send_backend o content)
  unfolding send_backend
  send_backend-Still content p =
      let q = record p { backend_buffer = p.backend_buffer ++ content ∷ [] } in
      elim (Bool-cases p.has_client) [
        | inl c ↦
            ap (λ b. facts (if_client o b (send_packets o content q.backend_buffer) q).1) c
            ∙ send_packets-Still content q.backend_buffer q
        | inr c ↦ ap (λ b. facts (if_client o b (send_packets o content q.backend_buffer) q).1) c
      ]

  pub send_frontend-Still : (content : Bytes) → Still (send_frontend o content)
  unfolding send_frontend
  send_frontend-Still content =
      then-Still (change (λ p. record p { to_frontend = p.to_frontend ++ content ∷ [] }))
        (when is_logging (log_tty o type_output content)) (λ p. refl)
        (when-Still is_logging (log_tty o type_output content) (λ p. refl))
