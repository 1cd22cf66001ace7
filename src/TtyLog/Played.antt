-- ===== src/TtyLog/Played.antt =====
-- What cowrie/src/cowrie/scripts/playlog.py shows of a session that began with output.
use honeybee_potstore.Base.{
  Bool, true, false, ◌||◌, not, List, [], ◌∷◌, ◌++◌, Option, some, if◌then◌else◌,
}
use honeybee_potstore.Base.Int.{ℤ, pos}
use honeybee_potstore.Base.Text.{Bytes, codes}
use honeybee_potstore.TtyLog.Record.{type_input, type_output}
use honeybee_potstore.TtyLog.Session.{Event, wrote, typed}
use honeybee_potstore.TtyLog.Replay.{Settings, Player}

-- The settings without colours, and what they ask for of an event.
abbrev pub plain : (tail input_only both_dirs : Bool) → Settings
plain tl io bd = record { tail = tl; input_only = io; both_dirs = bd; colorify = false }

abbrev pub asked : (input_only both_dirs : Bool) → Event → Bytes
asked io bd (wrote t content) = if not io || bd then content else []
asked io bd (typed t content) = if io || bd then content else []

abbrev pub all_asked : (input_only both_dirs : Bool) → List Event → Bytes
all_asked io bd [] = []
all_asked io bd (e ∷ es) = asked io bd e ++ all_asked io bd es

abbrev preferred : Bool → ℤ
preferred true = type_input
preferred false = type_output

abbrev playing : ℤ → Option Bytes → Bytes → Player
playing d c out = record { currtty = pos 0; prefdir = d; color = c; stdout = out }

abbrev color_after : Event → Option Bytes → Option Bytes
color_after (wrote t content) c = c
color_after (typed t content) c = some (27 ∷ codes "[33m")
