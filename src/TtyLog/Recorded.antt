-- ===== src/TtyLog/Recorded.antt =====
-- A whole session at LoggingServerProtocol (cowrie/src/cowrie/insults/insults.py), and its log.
use mathlib.Core.Path.{subst}
use mathlib.Core.List.{append-nil, append_assoc}
use honeybee_potstore.Base.{
  ◌≡◌, refl, sym, ap, ◌∙◌, true, false, List, [], ◌∷◌, ◌++◌, none, ok, err, Error, All,
}
use honeybee_potstore.Base.Int.{pos}
use honeybee_potstore.Base.Text.{Bytes, Text}
use honeybee_potstore.Base.Dict.{text_keys}
use honeybee_potstore.TtyLog.Record.{
  Stamp, header, op_open, op_close, ttylog_open, ttylog_write, ttylog_close,
}
use honeybee_potstore.TtyLog.Written.{header_bytes, append-Fits}
use honeybee_potstore.TtyLog.Terminal.{
  Terminal, Step, then_do, write, data_received, connection_lost, connection_made, store,
}
use honeybee_potstore.TtyLog.Session.{
  Event, wrote, typed, content_of, entry_header, mark, log_of, session_log, all_typed, IsStamp,
  IsSmall, entry-Fits, open-Fits, close-Fits, ttylog_inputhash-session,
}

abbrev pub react : Event → Terminal → Step
react (wrote t content) = write t content
react (typed t content) = data_received t content

unfoldable pub react_all : List Event → Terminal → Step
react_all [] p = (ok tt, p)
react_all (e ∷ es) p = then_do (react e p) (react_all es)

-- A terminal that logs, has no limit and takes no input for a file of its own.
abbrev pub IsPlain : Terminal → Type 0
IsPlain p =
    (p.ttylog_enabled ≡ true)
    × (p.ttylog_open ≡ true)
    × (p.stdinlog_open ≡ false)
    × (p.bytes_received_limit ≡ 0)

abbrev pub Logs : Terminal → Bytes → Step → Type 0
Logs p content s =
    (s.0 ≡ ok tt)
    × IsPlain s.1
    × (s.1.ttylog_file ≡ p.ttylog_file ++ content)
    × (s.1.ttylogs ≡ p.ttylogs)

react-Logs :
    (e : Event) (p : Terminal)
    → IsSmall e
    → IsPlain p
    → Logs p (header_bytes (entry_header e) ++ content_of e) (react e p)
unfolding write data_received ttylog_write
react-Logs (wrote t content) p s h =
    rw
      (
        h.0,
        h.1,
        append-Fits p.ttylog_file (entry_header (wrote t content)) content
            (entry-Fits (wrote t content) s),
      )
      (refl, (refl, refl, h.2, h.3), refl, refl)
react-Logs (typed t content) p s h =
    rw
      (
        h.0,
        h.1,
        h.2,
        h.3,
        append-Fits p.ttylog_file (entry_header (typed t content)) content
            (entry-Fits (typed t content) s),
      )
      (refl, (refl, refl, refl, refl), refl, refl)

not_ok : {e : Error} {u : Unit {0}} → err e ≡ ok u → ⊥
not_ok h = cc

Logs-then :
    (p : Terminal) (a b : Bytes) (s : Step) (next : Terminal → Step)
    → Logs p a s
    → ((q : Terminal) → IsPlain q → Logs q b (next q))
    → Logs p (a ++ b) (then_do s next)
Logs-then p a b (err e, q) next l k = absurd (not_ok l.0)
Logs-then p a b (ok u, q) next l k =
    let m = k q l.1 in
    (m.0, m.1, m.2 ∙ ap (λ x. x ++ b) l.2 ∙ append_assoc p.ttylog_file a b, m.3 ∙ l.3)

react_all-Logs :
    (es : List Event) (p : Terminal)
    → All IsSmall es
    → IsPlain p
    → Logs p (log_of es) (react_all es p)
unfolding react_all
react_all-Logs [] p s h = (refl, h, sym (append-nil p.ttylog_file), refl)
react_all-Logs (e ∷ es) p s h =
    subst (λ b. Logs p b (react_all (e ∷ es) p))
      (append_assoc (header_bytes (entry_header e)) (content_of e) (log_of es))
      (Logs-then p (header_bytes (entry_header e) ++ content_of e) (log_of es) (react e p)
        (react_all es) (react-Logs e p s.0 h) (λ q i. react_all-Logs es q s.1 i))

abbrev pub session : (Bytes → Text) → (start now end : Stamp) → List Event → Terminal → Step
session sha256 start now end es p =
    then_do (then_do (connection_made start now none p) (react_all es)) (connection_lost sha256 end)

-- A terminal of an interactive session, before it.
abbrev pub IsFresh : Terminal → Type 0
IsFresh p = (p.ttylog_enabled ≡ true) × (p.bytes_received_limit ≡ 0) × (p.ttylog_file ≡ [])

connection_made-Logs :
    (start now : Stamp) (p : Terminal)
    → IsStamp start
    → IsFresh p
    → Logs p (mark op_open start) (connection_made start now none p)
unfolding connection_made ttylog_open
connection_made-Logs start now p ss h =
    rw
      (
        h.0,
        append-Fits p.ttylog_file (header op_open (pos 0) (pos 0) start) [] (open-Fits start ss),
        append-nil (mark op_open start),
      )
      (refl, (refl, refl, refl, h.1), refl, refl)

connection_lost-stores :
    (sha256 : Bytes → Text) (start end : Stamp) (es : List Event) (p : Terminal)
    → IsStamp start
    → IsStamp end
    → All IsSmall es
    → IsPlain p
    → p.ttylog_file ≡ mark op_open start ++ log_of es
    → let s = connection_lost sha256 end p in
      (s.0 ≡ ok tt)
      × (s.1.ttylogs ≡ store (sha256 (all_typed es)) (session_log start es end) p.ttylogs)
unfolding connection_lost ttylog_close
connection_lost-stores sha256 start end es p ss se sm h f =
    rw
      (
        h.0,
        h.1,
        h.2,
        append-Fits p.ttylog_file (header op_close (pos 0) (pos 0) end) [] (close-Fits end se),
        whole,
        ttylog_inputhash-session sha256 start end es ss se sm,
      )
      (refl, refl)
  where
    whole : p.ttylog_file ++ ((mark op_close end) ++ []) ≡ session_log start es end
    whole =
        ap (λ b. b ++ ((mark op_close end) ++ [])) f
        ∙ append_assoc (mark op_open start) (log_of es) ((mark op_close end) ++ [])
        ∙ ap (λ b. (mark op_open start) ++ (log_of es ++ b)) (append-nil (mark op_close end))

closes :
    (sha256 : Bytes → Text) (start end : Stamp) (es : List Event) (p : Terminal)
    → IsStamp start
    → IsStamp end
    → All IsSmall es
    → p.ttylog_file ≡ []
    → (s : Step) → Logs p (mark op_open start ++ log_of es) s
    → let r = then_do s (connection_lost sha256 end) in
      (r.0 ≡ ok tt)
      × (r.1.ttylogs ≡ store (sha256 (all_typed es)) (session_log start es end) p.ttylogs)
closes sha256 start end es p ss se sm f (err e, q) l = absurd (not_ok l.0)
closes sha256 start end es p ss se sm f (ok u, q) l =
    let r =
      connection_lost-stores sha256 start end es q ss se sm l.1
        (l.2 ∙ ap (λ b. b ++ (mark op_open start ++ log_of es)) f) in
    (r.0, r.1 ∙ ap (store (sha256 (all_typed es)) (session_log start es end)) l.3)

-- An interactive session whose log is on and whose input has no limit raises nothing if the stamps
-- fit and no piece is too long, and its log has then, in the order of what happened, all output and
-- input: it is kept under the hash of all that was typed, unless a log of that hash is there already.
pub session-stores :
    (sha256 : Bytes → Text) (start now end : Stamp) (es : List Event) (p : Terminal)
    → IsStamp start
    → IsStamp end
    → All IsSmall es
    → IsFresh p
    → ((session sha256 start now end es p).0 ≡ ok tt)
      × ((session sha256 start now end es p).1.ttylogs
          ≡ store (sha256 (all_typed es)) (session_log start es end) p.ttylogs)
session-stores sha256 start now end es p ss se sm h =
    closes sha256 start end es p ss se sm h.2
      (then_do (connection_made start now none p) (react_all es))
      (Logs-then p (mark op_open start) (log_of es) (connection_made start now none p)
        (react_all es) (connection_made-Logs start now p ss h) (λ q i. react_all-Logs es q sm i))
