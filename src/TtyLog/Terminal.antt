-- ===== src/TtyLog/Terminal.antt =====
-- The class LoggingServerProtocol (cowrie/src/cowrie/insults/insults.py): what it records of a session.
-- The files are bytes; `ttylogs` and `downloads` are those that are named after their hash. The files
-- of redirected output (`redirFiles`) and the messages to the log are left out.
use honeybee_potstore.Base.{
  ℕ, suc, ◌+◌, Bool, true, false, ◌&&◌, not, List, [], ◌++◌, Option, none, some, Result, ok, err,
  length, ltb, ◌==◌, if◌then◌else◌,
}
use honeybee_potstore.Base.Int.{ℤ, pos}
use honeybee_potstore.Base.Text.{Bytes, Text}
use honeybee_potstore.Base.Dict.{lookup, insert, text_keys}
use honeybee_potstore.TtyLog.Record.{
  Stamp, Appended, ttylog_open, ttylog_write, ttylog_close, ttylog_inputhash, type_input,
  type_output, type_interact,
}

-- `sent` and `handed` are what `write` and `dataReceived` of Twisted's ServerProtocol have got, and
-- `eofs` counts the ends of input that the terminal was told of.
pub record Terminal : Type 0 where
  pub ttylog_enabled : Bool
  pub ttylog_open : Bool
  pub stdinlog_open : Bool
  pub ttylog_size : ℕ
  pub bytes_sent : ℕ
  pub bytes_received : ℕ
  pub bytes_received_limit : ℕ
  pub ttylog_file : Bytes
  pub stdinlog_file : Option Bytes
  pub ttylogs : List (Text × Bytes)
  pub downloads : List (Text × Bytes)
  pub sent : Bytes
  pub handed : Bytes
  pub eofs : ℕ

abbrev pub Step : Type 0
Step = Result (Unit {0}) × Terminal

-- What follows a call that may raise.
abbrev pub then_do : Step → (Terminal → Step) → Step
then_do (ok u, p) next = next p
then_do (err e, p) next = (err e, p)

abbrev pub on_ttylog : (Bytes → Appended) → Terminal → Step
on_ttylog f p = let (r, file) = f p.ttylog_file in (r, record p { ttylog_file = file })

abbrev pub log_entry : ℤ → Stamp → Bytes → Terminal → Step
log_entry d t content p = on_ttylog (ttylog_write (pos (length content)) d t content) p

abbrev pub is_logging : Terminal → Bool
is_logging p = p.ttylog_enabled && p.ttylog_open

abbrev pub start_log : Stamp → Terminal → Step
start_log start p = elim p.ttylog_enabled [
  | false ↦ (ok tt, p)
  | true ↦
      then_do (on_ttylog (ttylog_open start) p)
        (λ q. (ok tt, record q { ttylog_open = true; ttylog_size = 0 }))
]

-- The command of an exec channel; without one the protocol is interactive.
abbrev pub start_input : Stamp → Option Bytes → Terminal → Step
start_input t none p = (ok tt, record p { stdinlog_open = false })
start_input t (some cmd) p =
    let q = record p { stdinlog_open = true } in
    if p.ttylog_enabled then log_entry type_interact t cmd q else (ok tt, q)

unfoldable pub connection_made : (start now : Stamp) → Option Bytes → Terminal → Step
connection_made start now cmd p = then_do (start_log start p) (start_input now cmd)

abbrev pub write_on : Bytes → Terminal → Step
write_on content p = (ok tt, record p { sent = p.sent ++ content })

abbrev pub count_logged : Bytes → Terminal → Terminal
count_logged content p = record p { ttylog_size = p.ttylog_size + length content }

unfoldable pub write : Stamp → Bytes → Terminal → Step
write t content p =
    let q = record p { bytes_sent = p.bytes_sent + length content } in
    elim (is_logging p) [
      | true ↦
          then_do (log_entry type_output t content q)
            (λ r. write_on content (count_logged content r))
      | false ↦ write_on content q
    ]

abbrev pub hand_on : Bytes → Terminal → Step
hand_on content p = (ok tt, record p { handed = p.handed ++ content })

abbrev pub appended : Option Bytes → Bytes → Bytes
appended none content = content
appended (some bs) content = bs ++ content

abbrev pub log_input : Stamp → Bytes → Terminal → Step
log_input t content p = elim p.stdinlog_open [
  | true ↦ (ok tt, record p { stdinlog_file = some (appended p.stdinlog_file content) })
  | false ↦ elim (is_logging p) [ true ↦ log_entry type_input t content p | false ↦ (ok tt, p) ]
]

abbrev pub over_limit : Terminal → Bool
over_limit p = not (p.bytes_received_limit == 0) && ltb p.bytes_received_limit p.bytes_received

abbrev pub eof_received : Terminal → Step
eof_received p = (ok tt, record p { eofs = suc p.eofs })

unfoldable pub data_received : Stamp → Bytes → Terminal → Step
data_received t content p =
    let q = record p { bytes_received = p.bytes_received + length content } in
    elim (over_limit q) [
      | true ↦ eof_received q
      | false ↦ then_do (log_input t content q) (hand_on content)
    ]

-- Under its hash, unless there is such a file: then this one is removed.
unfoldable pub store : Text → Bytes → List (Text × Bytes) → List (Text × Bytes)
store shasum file files = elim (lookup shasum files) [
  | none ↦ insert shasum file files
  | some old ↦ files
]

module _ (sha256 : Bytes → Text) where
  -- A file that is not there raises OSError, which is passed over.
  abbrev pub stored_stdin : Option Bytes → Terminal → Terminal
  stored_stdin none p = p
  stored_stdin (some file) p = record p {
    stdinlog_file = none;
    downloads = store (sha256 file) file p.downloads;
  }

  abbrev pub close_stdin : Terminal → Terminal
  close_stdin p =
      if p.stdinlog_open
      then record (stored_stdin p.stdinlog_file p) { stdinlog_open = false }
      else p

  -- `none`, where the fuel is out, does not come.
  abbrev pub name_log : Option (Result Text) → Terminal → Step
  name_log none p = (ok tt, p)
  name_log (some (err e)) p = (err e, p)
  name_log (some (ok shasum)) p =
      (ok tt, record p { ttylog_file = []; ttylogs = store shasum p.ttylog_file p.ttylogs })

  abbrev pub hash_log : Terminal → Step
  hash_log p = name_log (ttylog_inputhash sha256 (suc (length p.ttylog_file)) p.ttylog_file) p

  abbrev pub close_log : Stamp → Terminal → Step
  close_log t p = elim (is_logging p) [
    | true ↦
        then_do (on_ttylog (ttylog_close t) p) (λ q. hash_log (record q { ttylog_open = false }))
    | false ↦ (ok tt, p)
  ]

  unfoldable pub connection_lost : Stamp → Terminal → Step
  connection_lost t p = close_log t (close_stdin p)
