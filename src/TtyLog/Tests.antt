-- ===== src/TtyLog/Tests.antt =====
-- Tests and witnesses for cowrie/src/cowrie/core/ttylog.py, insults/insults.py and scripts/playlog.py.
use honeybee_potstore.Base.{ℕ, ◌≡◌, refl, true, false, [], ◌∷◌, ◌++◌, List, none, some, ok, arith}
use honeybee_potstore.Base.Int.{pos}
use honeybee_potstore.Base.Text.{Bytes, Text, codes}
use honeybee_potstore.TtyLog.Record.{
  Stamp, type_output, ttylog_open, ttylog_write, pack_header, pack_i, pack_L, le32, number_le,
  signed, unpack_header, read, read_record, int_eq,
}
use honeybee_potstore.TtyLog.Terminal.{Terminal, then_do, connection_made, write, store}
use honeybee_potstore.TtyLog.Session.{Event, wrote, typed, session_log}
use honeybee_potstore.TtyLog.Recorded.{session, session-stores}
use honeybee_potstore.TtyLog.Replay.{
  playlog, play_loop, play_next, play_record, play_write, show, choose_color, choose_direction,
}
use honeybee_potstore.TtyLog.Played.{plain}

abbrev at : ℕ → Stamp
at n = record { whole = pos n; micros = pos 500 }

abbrev events : List Event
events = wrote (at 7) (codes "$ ") ∷ typed (at 8) (codes "ls") ∷ wrote (at 8) (codes "a b") ∷ []

abbrev fresh : Terminal
fresh = record {
  ttylog_enabled = true;
  ttylog_open = false;
  stdinlog_open = false;
  ttylog_size = 0;
  bytes_sent = 0;
  bytes_received = 0;
  bytes_received_limit = 0;
  ttylog_file = [];
  stdinlog_file = none;
  ttylogs = [];
  downloads = [];
  sent = [];
  handed = [];
  eofs = 0;
}

abbrev itself : Bytes → Text
itself bs = bs

session-stores_example :
    ((session itself (at 5) (at 6) (at 9) events fresh).0 ≡ ok tt)
    × ((session itself (at 5) (at 6) (at 9) events fresh).1.ttylogs
        ≡ store (codes "ls") (session_log (at 5) events (at 9)) [])
session-stores_example =
    session-stores itself (at 5) (at 6) (at 9) events fresh (omega arith, omega arith)
      (omega arith, omega arith)
      (
        ((omega arith, omega arith), omega arith),
        (
          ((omega arith, omega arith), omega arith),
          (((omega arith, omega arith), omega arith), tt),
        ),
      )
      (refl, refl, refl)

-- Of a command's channel the first record is the command, of a direction of its own: a replay shows
-- nothing else.
abbrev exec_log : Bytes
exec_log =
    (then_do (connection_made (at 5) (at 6) (some (codes "id")) fresh)
      (write (at 7) (codes "uid=0"))).1.ttylog_file

command_only : playlog 9 exec_log (plain false false false) ≡ some (ok (codes "id"))
unfolding playlog play_loop play_next play_record play_write show choose_color choose_direction
    connection_made write ttylog_open ttylog_write pack_header pack_i pack_L le32 number_le signed
    unpack_header read read_record int_eq
command_only = refl

-- Output is shown in the colour of the input before it, which is not shown.
colour_of_input :
    playlog 9
      (session_log (at 5) events (at 9))
      (record { tail = false; input_only = false; both_dirs = false; colorify = true })
    ≡ some (ok (codes "$ " ++ (27 ∷ codes "[33m" ++ (codes "a b" ++ 27 ∷ codes "[0m"))))
unfolding playlog play_loop play_next play_record play_write show choose_color choose_direction le32
    number_le signed unpack_header read read_record int_eq
colour_of_input = refl

-- A record longer than what an `i` holds is not written.
too_long : (ttylog_write (pos 2147483648) type_output (at 7) [] []).1 ≡ []
unfolding ttylog_write pack_header pack_i pack_L
too_long = refl
