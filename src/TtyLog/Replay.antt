-- ===== src/TtyLog/Replay.antt =====
-- `playlog` of cowrie/src/cowrie/scripts/playlog.py: what it writes to the standard output. The
-- pauses between two records (`time.sleep`), which change nothing of it, are left out.
use honeybee_potstore.Base.{
  ℕ, zero, suc, Bool, true, false, ◌&&◌, ◌||◌, [], ◌∷◌, ◌++◌, Option, none, some, Result, ok, err,
  struct_error, if◌then◌else◌,
}
use honeybee_potstore.Base.Int.{ℤ, pos}
use honeybee_potstore.Base.Text.{Bytes, codes}
use honeybee_potstore.TtyLog.Record.{
  Header, read_record, int_eq, op_write, op_close, type_input, type_output, type_interact,
}

pub record Settings : Type 0 where
  pub tail : Bool
  pub input_only : Bool
  pub both_dirs : Bool
  pub colorify : Bool

-- The variables of the loop, and what stdout has got.
pub record Player : Type 0 where
  pub currtty : ℤ
  pub prefdir : ℤ
  pub color : Option Bytes
  pub stdout : Bytes

abbrev pub new_player : Player
new_player = record { currtty = pos 0; prefdir = pos 0; color = none; stdout = [] }

abbrev pub choose_tty : ℤ → Player → Player
choose_tty tty p = if int_eq p.currtty (pos 0) then record p { currtty = tty } else p

-- The first stream seen is taken for the output.
abbrev pub first_direction : Settings → ℤ → ℤ
first_direction s d =
    if s.input_only then (if int_eq d type_input then type_output else type_input) else d

unfoldable pub choose_direction : Settings → ℤ → Player → Player
choose_direction s d p =
    if int_eq p.prefdir (pos 0) then record p { prefdir = first_direction s d } else p

unfoldable pub choose_color : ℤ → Player → Player
choose_color d p =
    if int_eq d type_interact
    then record p { color = some (27 ∷ codes "[36m") }
    else if int_eq d type_input
    then record p { color = some (27 ∷ codes "[33m") }
    else p

-- The text in its colour, if there is one (`if settings["colorify"] and color`).
abbrev pub put : Bool → Option Bytes → Bytes → Player → Player
put true (some c) content p = record p {
  color = none;
  stdout = p.stdout ++ (c ++ (content ++ 27 ∷ codes "[0m"));
}
put _ _ content p = record p { stdout = p.stdout ++ content }

unfoldable pub show : Settings → ℤ → Bytes → Player → Player
show s d content p =
    if int_eq d p.prefdir || s.both_dirs then put s.colorify p.color content p else p

unfoldable pub play_write : Settings → ℤ → Bytes → Player → Player
play_write s d content p = show s d content (choose_color d (choose_direction s d p))

-- A record that was read; `rest` is the loop.
unfoldable pub play_record :
    Settings
    → (Player → Bytes → Option (Result Bytes))
    → Header
    → Bytes
    → Bytes
    → Player
    → Option (Result Bytes)
play_record s rest h content fd p = elim (int_eq h.tty p.currtty && int_eq h.op op_write) [
  | true ↦ rest (play_write s h.direction content p) fd
  | false ↦ elim (int_eq h.tty p.currtty && int_eq h.op op_close) [
    | true ↦ some (ok p.stdout)
    | false ↦ rest p fd
  ]
]

-- With `tail` an incomplete record, which is read all the same, is waited for.
unfoldable pub play_next :
    Settings
    → (Player → Bytes → Option (Result Bytes))
    → Result (Header × Bytes × Bytes)
    → Player
    → Option (Result Bytes)
play_next s rest (err struct_error) p = elim s.tail [
  | true ↦ rest p []
  | false ↦ some (ok p.stdout)
]
play_next s rest (err e) p = some (err e)
play_next s rest (ok (h, content, fd)) p = play_record s rest h content fd (choose_tty h.tty p)

-- The loop; `none` where the fuel is out.
unfoldable pub play_loop : Settings → ℕ → Player → Bytes → Option (Result Bytes)
play_loop s zero p fd = none
play_loop s (suc fuel) p fd = play_next s (play_loop s fuel) (read_record fd) p

unfoldable pub playlog : ℕ → Bytes → Settings → Option (Result Bytes)
playlog fuel fd settings = play_loop settings fuel new_player fd
