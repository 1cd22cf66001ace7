-- ===== src/TtyLog/Session.antt =====
-- The log of a whole session (cowrie/src/cowrie/core/ttylog.py): what was typed comes out of it.
use mathlib.Core.List.{append-nil, append_assoc}
use honeybee_potstore.Base.{
  ℕ, length-append, suc, ◌+◌, ◌-◌, ◌<◌, ◌≤◌, ◌≡◌, refl, sym, ap, ◌∙◌, false, List, [], ◌∷◌, ◌++◌,
  some, ok, arith, length, All,
}
use honeybee_potstore.Base.Int.{ℤ, pos}
use honeybee_potstore.Base.Text.{Bytes, Text}
use honeybee_potstore.Base.Dict.{text_keys}
use honeybee_potstore.TtyLog.Record.{
  Header, Stamp, header, op_open, op_close, op_write, type_input, type_output, ttylog_inputhash,
  input_bytes, read_record, int_eq, two_power_31, unpack_header, le32,
}
use honeybee_potstore.TtyLog.Written.{IsUnsigned, Fits, header_bytes, read_record-header}

-- What happens at the terminal: output is written, or input comes.
pub data Event : Type 0 where
  wrote typed : (t : Stamp) (content : Bytes) → Event

abbrev pub content_of : Event → Bytes
content_of (wrote t content) = content
content_of (typed t content) = content

abbrev pub entry_header : Event → Header
entry_header (wrote t content) = header op_write (pos (length content)) type_output t
entry_header (typed t content) = header op_write (pos (length content)) type_input t

-- A record of no content.
abbrev pub mark : ℤ → Stamp → Bytes
mark o t = header_bytes (header o (pos 0) (pos 0) t)

abbrev pub log_of : List Event → Bytes
log_of [] = []
log_of (e ∷ es) = header_bytes (entry_header e) ++ (content_of e ++ log_of es)

abbrev pub session_log : Stamp → List Event → Stamp → Bytes
session_log start es end = mark op_open start ++ (log_of es ++ mark op_close end)

abbrev pub all_typed : List Event → Bytes
all_typed [] = []
all_typed (wrote t content ∷ es) = all_typed es
all_typed (typed t content ∷ es) = content ++ all_typed es

abbrev pub all_written : List Event → Bytes
all_written [] = []
all_written (wrote t content ∷ es) = content ++ all_written es
all_written (typed t content ∷ es) = all_written es

abbrev pub IsStamp : Stamp → Type 0
IsStamp t = IsUnsigned t.whole × IsUnsigned t.micros

abbrev pub IsSmall : Event → Type 0
IsSmall (wrote t content) = IsStamp t × (length content < two_power_31)
IsSmall (typed t content) = IsStamp t × (length content < two_power_31)

pub entry-Fits : (e : Event) → IsSmall e → Fits (entry_header e)
entry-Fits (wrote t content) s = (omega arith, omega arith, s.1, omega arith, s.0.0, s.0.1)
entry-Fits (typed t content) s = (omega arith, omega arith, s.1, omega arith, s.0.0, s.0.1)

pub open-Fits : (t : Stamp) → IsStamp t → Fits (header op_open (pos 0) (pos 0) t)
open-Fits t s = (omega arith, omega arith, omega arith, omega arith, s.0, s.1)

pub close-Fits : (t : Stamp) → IsStamp t → Fits (header op_close (pos 0) (pos 0) t)
close-Fits t s = (omega arith, omega arith, omega arith, omega arith, s.0, s.1)

abbrev gather : Event → Bytes → Bytes
gather (wrote t content) acc = acc
gather (typed t content) acc = acc ++ content

-- One round of the loop.
input_bytes-entry :
    (e : Event) (fuel : ℕ) (acc rest : Bytes)
    → IsSmall e
    → input_bytes (suc fuel) acc (header_bytes (entry_header e) ++ (content_of e ++ rest))
      ≡ input_bytes fuel (gather e acc) rest
unfolding input_bytes int_eq
input_bytes-entry (wrote t content) fuel acc rest s = rw (
    read_record-header (entry_header (wrote t content)) content rest
      (entry-Fits (wrote t content) s) refl)
input_bytes-entry (typed t content) fuel acc rest s = rw (
    read_record-header (entry_header (typed t content)) content rest
      (entry-Fits (typed t content) s) refl)

input_bytes-mark :
    (o : ℤ) (stamp : Stamp) (fuel : ℕ) (acc rest : Bytes)
    → int_eq o op_write ≡ false
    → Fits (header o (pos 0) (pos 0) stamp)
    → input_bytes (suc fuel) acc (mark o stamp ++ rest) ≡ input_bytes fuel (acc ++ []) rest
unfolding input_bytes
input_bytes-mark o stamp fuel acc rest h f =
    rw (read_record-header (header o (pos 0) (pos 0) stamp) [] rest f refl, h)

gather_all :
    (es : List Event) (e : Event) (acc : Bytes)
    → gather e acc ++ all_typed es ≡ acc ++ all_typed (e ∷ es)
gather_all es (wrote t content) acc = refl
gather_all es (typed t content) acc = append_assoc acc content (all_typed es)

pub entry_assoc :
    (e : Event) (es : List Event) (rest : Bytes)
    → log_of (e ∷ es) ++ rest
      ≡ header_bytes (entry_header e) ++ (content_of e ++ (log_of es ++ rest))
entry_assoc e es rest =
    append_assoc (header_bytes (entry_header e)) (content_of e ++ log_of es) rest
    ∙ ap (λ b. header_bytes (entry_header e) ++ b) (append_assoc (content_of e) (log_of es) rest)

-- A round of the loop for each record, and `n` more.
abbrev pub rounds : List Event → ℕ → ℕ
rounds [] n = n
rounds (e ∷ es) n = suc (rounds es n)

input_bytes-log :
    (es : List Event) (n : ℕ) (acc rest : Bytes)
    → All IsSmall es
    → input_bytes (rounds es n) acc (log_of es ++ rest) ≡ input_bytes n (acc ++ all_typed es) rest
input_bytes-log [] n acc rest s = ap (λ b. input_bytes n b rest) (sym (append-nil acc))
input_bytes-log (e ∷ es) n acc rest s =
    ap (λ b. input_bytes (suc (rounds es n)) acc b) (entry_assoc e es rest)
    ∙ input_bytes-entry e (rounds es n) acc (log_of es ++ rest) s.0
    ∙ input_bytes-log es n (gather e acc) rest s.1
    ∙ ap (λ b. input_bytes n b rest) (gather_all es e acc)

open_write : int_eq op_open op_write ≡ false
unfolding int_eq
open_write = refl

close_write : int_eq op_close op_write ≡ false
unfolding int_eq
close_write = refl

stop : (n : ℕ) (acc : Bytes) → input_bytes (suc n) (acc ++ []) [] ≡ some (ok acc)
unfolding input_bytes read_record unpack_header
stop n acc = rw (append-nil acc)

input_bytes-session :
    (start end : Stamp) (es : List Event) (n : ℕ)
    → IsStamp start
    → IsStamp end
    → All IsSmall es
    → input_bytes (suc (rounds es (suc (suc n)))) [] (session_log start es end)
      ≡ some (ok (all_typed es))
input_bytes-session start end es n ss se sm =
    input_bytes-mark op_open start (rounds es (suc (suc n))) [] (log_of es ++ mark op_close end)
      open_write (open-Fits start ss)
    ∙ input_bytes-log es (suc (suc n)) [] (mark op_close end) sm
    ∙ ap (λ b. input_bytes (suc (suc n)) (all_typed es) b) (sym (append-nil (mark op_close end)))
    ∙ input_bytes-mark op_close end (suc n) (all_typed es) [] close_write (close-Fits end se)
    ∙ stop n (all_typed es)

length-log_of : (es : List Event) → length es ≤ length (log_of es)
unfolding le32
length-log_of [] = omega arith
length-log_of (e ∷ es) = omega (arith, length-log_of es, length-append (content_of e) (log_of es))

-- As many rounds as the file has bytes, and one more, are enough.
rounds_lem : (es : List Event) (n : ℕ) → rounds es n ≡ length es + n
rounds_lem [] n = omega arith
rounds_lem (e ∷ es) n = omega (arith, rounds_lem es n)

log_long : (start end : Stamp) (es : List Event) → length es + 2 ≤ length (session_log start es end)
unfolding le32
log_long start end es =
    omega (arith, length-log_of es, length-append (log_of es) (mark op_close end))

pub length-session_log :
    (start end : Stamp) (es : List Event)
    → (n : ℕ) × (suc (length (session_log start es end)) ≡ suc (rounds es (suc (suc n))))
length-session_log start end es =
    let n = length (session_log start es end) - (length es + 2) in
    (n, omega (arith, log_long start end es, rounds_lem es (suc (suc n))))

pub ttylog_inputhash-session :
    (sha256 : Bytes → Text) (start end : Stamp) (es : List Event)
    → IsStamp start
    → IsStamp end
    → All IsSmall es
    → let file = session_log start es end in
      ttylog_inputhash sha256 (suc (length file)) file ≡ some (ok (sha256 (all_typed es)))
unfolding ttylog_inputhash
ttylog_inputhash-session sha256 start end es ss se sm =
    let (n, e) = length-session_log start end es in
    rw (e, input_bytes-session start end es n ss se sm)
