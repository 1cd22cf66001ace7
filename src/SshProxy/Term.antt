-- ===== src/SshProxy/Term.antt =====
-- The class Term (cowrie/src/cowrie/ssh_proxy/protocols/term.py): the command line that is followed through
-- what the attacker types (`server`) and what the back end answers (`client`).
use honeybee_potstore.Base.{
  ℕ, zero, suc, ◌+◌, ◌-◌, Bool, true, false, ◌||◌, not, List, [], ◌∷◌, ◌++◌, Result, ok, err,
  length, take, drop, ◌==◌, if◌then◌else◌,
}
use honeybee_potstore.Base.Int.{ℤ, pos, negsuc}
use honeybee_potstore.Base.Text.{Bytes, Text, codes, text_eq}
use honeybee_potstore.Wire.Utf8.{decode}
use honeybee_potstore.TelnetProxy.Strings.{starts_with, but_last_byte}
use honeybee_potstore.TtyLog.Record.{Stamp, int_eq, ttylog_write, type_input, type_output}

-- The two that give packets: the attacker's side, and the back end's.
pub data Parent : Type 0 where
  server client : Parent

-- What is said of a command: an event, or that it is no UTF-8.
pub data Report : Type 0 where
  command_input : Text → Report
  unusual : Bytes → Report

pub record Term : Type 0 where
  pub command : Bytes
  pub pointer : ℤ
  pub tab_press : Bool
  pub up_arrow : Bool
  pub reports : List Report
  pub ttylog_enabled : Bool
  pub ttylog_size : ℕ
  pub ttylog_file : Bytes

-- `p + 1` and `p - 1`
abbrev pub inc : ℤ → ℤ
inc (pos n) = pos (suc n)
inc (negsuc zero) = pos 0
inc (negsuc (suc n)) = negsuc n

abbrev pub dec : ℤ → ℤ
dec (pos zero) = negsuc 0
dec (pos (suc n)) = pos n
dec (negsuc n) = negsuc (suc n)

-- `bs[:p]` and `bs[p:]`; a negative `p` counts from the end.
abbrev pub slice_to : ℤ → Bytes → Bytes
slice_to (pos n) bs = take n bs
slice_to (negsuc n) bs = take (length bs - suc n) bs

abbrev pub slice_from : ℤ → Bytes → Bytes
slice_from (pos n) bs = drop n bs
slice_from (negsuc n) bs = drop (length bs - suc n) bs

abbrev pub is_positive : ℤ → Bool
is_positive (pos zero) = false
is_positive (pos (suc n)) = true
is_positive (negsuc n) = false

pub data Key : Type 0 where
  tab backspace home end right left arrow : Key
  enter plain : (byte : ℕ) → Key

abbrev pub esc : ℕ → ℕ → Bytes
esc b c = 27 ∷ b ∷ c ∷ []

-- The key at the front, and how many bytes it has after the first.
unfoldable pub key_at : ℕ → Bytes → Key × ℕ
key_at b bs =
    if b == 9
    then (tab, 0)
    else if (b == 127) || (b == 8)
    then (backspace, 0)
    else if (b == 13) || ((b == 3) || (b == 10))
    then (enter b, 0)
    else if starts_with (esc 79 72) (b ∷ bs)
    then (home, 2)
    else if starts_with (esc 79 70) (b ∷ bs)
    then (end, 2)
    else if starts_with (esc 91 67) (b ∷ bs)
    then (right, 2)
    else if starts_with (esc 91 68) (b ∷ bs)
    then (left, 2)
    else if starts_with (esc 91 65) (b ∷ bs) || starts_with (esc 91 66) (b ∷ bs)
    then (arrow, 2)
    else (plain b, 0)

abbrev pub report_of : Bytes → Result Text → Report
report_of command (ok s) = command_input s
report_of command (err e) = unusual command

unfoldable pub report : Bytes → List Report
report command = if length command == 0 then [] else report_of command (decode command) ∷ []

abbrev pub insert_byte : ℕ → Term → Term
insert_byte b p = record p {
  command = slice_to p.pointer p.command ++ b ∷ slice_from p.pointer p.command;
  pointer = inc p.pointer;
}

abbrev pub delete_byte : Term → Term
delete_byte p = record p {
  command = slice_to (dec p.pointer) p.command ++ slice_from p.pointer p.command;
  pointer = dec p.pointer;
}

-- What is reported at the end of a line: `^C` is put after what was typed.
abbrev pub line_of : ℕ → Bytes → Bytes
line_of b command = if b == 3 then command ++ codes "^C" else command

unfoldable pub press : Key → Term → Term
press tab p = record p { tab_press = true }
press backspace p = if is_positive p.pointer then delete_byte p else p
press home p = record p { pointer = pos 0 }
press end p = record p { pointer = pos (length p.command) }
press right p =
    if int_eq p.pointer (pos (length p.command)) then p else record p { pointer = inc p.pointer }
press left p = if int_eq p.pointer (pos 0) then p else record p { pointer = dec p.pointer }
press arrow p = record p { up_arrow = true }
press (enter b) p = record p {
  command = [];
  pointer = pos 0;
  reports = p.reports ++ report (line_of b p.command);
}
press (plain b) p = insert_byte b p

-- The loop over the attacker's data; the first `skip` bytes belong to the key before.
unfoldable pub server_loop : (skip : ℕ) → Bytes → Term → Term
server_loop skip [] p = p
server_loop (suc skip) (b ∷ bs) p = server_loop skip bs p
server_loop zero (b ∷ bs) p = let (k, n) = key_at b bs in server_loop n bs (press k p)

-- What the back end does to a line that an arrow key brings. The test for the sequence that deletes
-- a byte looks at an empty slice, `data[3:3]`, and is never true.
unfoldable pub client_at : ℕ → Bytes → Term → Term × ℕ
client_at b bs p =
    if b == 8
    then (record p { command = but_last_byte p.command; pointer = dec p.pointer }, 0)
    else if starts_with (esc 91 75) (b ∷ bs)
    then (record p { command = slice_to p.pointer p.command }, 2)
    else if b == 13
    then (record p { pointer = pos 0 }, 0)
    else if starts_with (esc 91 67) (b ∷ bs)
    then (record p { pointer = inc p.pointer }, 2)
    else if not (b == 7)
    then (insert_byte b p, 0)
    else (record p { pointer = inc p.pointer }, 0)

unfoldable pub client_loop : (skip : ℕ) → Bytes → Term → Term
client_loop skip [] p = p
client_loop (suc skip) (b ∷ bs) p = client_loop skip bs p
client_loop zero (b ∷ bs) p = let (q, n) = client_at b bs p in client_loop n bs q

-- The completion of a word.
abbrev pub complete : Bytes → Term → Term
complete content p =
    if starts_with (13 ∷ []) content || text_eq content (7 ∷ [])
    then p
    else record p { command = p.command ++ content }

unfoldable pub after_tab : Bytes → Term → Term
after_tab content p = if p.tab_press then record (complete content p) { tab_press = false } else p

unfoldable pub after_arrow : Bytes → Term → Term
after_arrow content p = elim p.up_arrow [
  | true ↦ record (client_loop 0 content p) { up_arrow = false }
  | false ↦ p
]

abbrev pub log_packet : ℤ → Stamp → Bytes → Term → Result (Unit {0}) × Term
log_packet d t content p =
    if p.ttylog_enabled
    then (let (r, file) = ttylog_write (pos (length content)) d t content p.ttylog_file in
        (r, record p { ttylog_size = p.ttylog_size + length content; ttylog_file = file }))
    else (ok tt, p)

unfoldable pub parse_packet : Parent → Stamp → Bytes → Term → Result (Unit {0}) × Term
parse_packet server t content p = log_packet type_output t content (server_loop 0 content p)
parse_packet client t content p =
    log_packet type_input t content (after_arrow content (after_tab content p))
