-- ===== src/TtyLog/Record.antt =====
-- The functions of cowrie/src/cowrie/core/ttylog.py. A file is its bytes, of which the readers hold
-- those that are not read yet; a stamp is the two whole numbers that the code takes from the float.
use honeybee_potstore.Base.{
  ℕ, zero, suc, ◌+◌, ◌-◌, ◌*◌, ◌/◌, ◌%◌, Bool, false, ◌&&◌, [], ◌∷◌, ◌++◌, Option, none, some,
  Result, ok, err, ◌>>=◌, struct_error, value_error, length, take, drop, ltb, ◌==◌, if◌then◌else◌,
}
use honeybee_potstore.Base.Int.{ℤ, pos, negsuc}
use honeybee_potstore.Base.Text.{Bytes, Text}

-- A number of four bytes, the low byte first.
unfoldable pub le32 : ℕ → Bytes
le32 n = (n % 256) ∷ (n / 256 % 256) ∷ (n / 65536 % 256) ∷ (n / 16777216) ∷ []

unfoldable pub number_le : Bytes → ℕ
number_le [] = 0
number_le (b ∷ bs) = b + 256 * number_le bs

abbrev pub two_power_31 : ℕ
two_power_31 = 2147483648

-- Two's complement.
abbrev pub encode_i : ℤ → ℕ
encode_i (pos n) = n
encode_i (negsuc n) = 4294967295 - n

unfoldable pub signed : ℕ → ℤ
signed n = if ltb n two_power_31 then pos n else negsuc (4294967295 - n)

abbrev pub in_i : ℤ → Bool
in_i (pos n) = ltb n two_power_31
in_i (negsuc n) = ltb n two_power_31

unfoldable pub pack_i : ℤ → Result Bytes
pack_i z = if in_i z then ok (le32 (encode_i z)) else err struct_error

unfoldable pub pack_L : ℤ → Result Bytes
pack_L (pos n) = if ltb n 4294967296 then ok (le32 n) else err struct_error
pack_L (negsuc n) = err struct_error

pub record Header : Type 0 where
  pub op : ℤ
  pub tty : ℤ
  pub size : ℤ
  pub direction : ℤ
  pub sec : ℤ
  pub usec : ℤ

-- The format `<iLiiLL`.
unfoldable pub pack_header : Header → Result Bytes
pack_header h = do
  a ← pack_i h.op
  b ← pack_L h.tty
  c ← pack_i h.size
  d ← pack_i h.direction
  e ← pack_L h.sec
  f ← pack_L h.usec
  ok (a ++ (b ++ (c ++ (d ++ (e ++ f)))))

-- The `i`-th of the fields, each of four bytes.
abbrev pub field_at : ℕ → Bytes → ℕ
field_at i bs = number_le (take 4 (drop (4 * i) bs))

unfoldable pub unpack_header : Bytes → Result Header
unpack_header bs =
    if length bs == 24
    then ok (record {
      op = signed (field_at 0 bs);
      tty = pos (field_at 1 bs);
      size = signed (field_at 2 bs);
      direction = signed (field_at 3 bs);
      sec = pos (field_at 4 bs);
      usec = pos (field_at 5 bs);
    })
    else err struct_error

abbrev pub op_open : ℤ
op_open = pos 1

abbrev pub op_close : ℤ
op_close = pos 2

abbrev pub op_write : ℤ
op_write = pos 3

abbrev pub type_input : ℤ
type_input = pos 1

abbrev pub type_output : ℤ
type_output = pos 2

abbrev pub type_interact : ℤ
type_interact = pos 3

pub record Stamp : Type 0 where
  pub whole : ℤ
  pub micros : ℤ

abbrev pub header : ℤ → ℤ → ℤ → Stamp → Header
header o n d t = record {
  op = o;
  tty = pos 0;
  size = n;
  direction = d;
  sec = t.whole;
  usec = t.micros;
}

-- The file, opened for appending, with what a raise leaves in it.
abbrev pub Appended : Type 0
Appended = Result (Unit {0}) × Bytes

abbrev pub append : Bytes → Result Bytes → Bytes → Appended
append file (ok bs) content = (ok tt, file ++ (bs ++ content))
append file (err e) content = (err e, file)

unfoldable pub ttylog_open : Stamp → Bytes → Appended
ttylog_open stamp file = append file (pack_header (header op_open (pos 0) (pos 0) stamp)) []

unfoldable pub ttylog_write : ℤ → ℤ → Stamp → Bytes → Bytes → Appended
ttylog_write size direction stamp content file =
    append file (pack_header (header op_write size direction stamp)) content

unfoldable pub ttylog_close : Stamp → Bytes → Appended
ttylog_close stamp file = append file (pack_header (header op_close (pos 0) (pos 0) stamp)) []

-- `fd.read(n)`, with what is left: all of it for -1.
unfoldable pub read : ℤ → Bytes → Result (Bytes × Bytes)
read (pos n) fd = ok (take n fd, drop n fd)
read (negsuc zero) fd = ok (fd, [])
read (negsuc (suc n)) fd = err value_error

-- The body of the `try` of both readers.
unfoldable pub read_record : Bytes → Result (Header × Bytes × Bytes)
read_record fd = do h ← unpack_header (take 24 fd); r ← read h.size (drop 24 fd); ok (h, r.0, r.1)

unfoldable pub int_eq : ℤ → ℤ → Bool
int_eq (pos a) (pos b) = a == b
int_eq (negsuc a) (negsuc b) = a == b
int_eq _ _ = false

abbrev pub is_output : Header → Bool
is_output h = int_eq h.op op_write && int_eq h.direction type_output

-- `except struct.error: break`; another error leaves the function. `rest` is the loop.
abbrev pub add_record :
    (Bytes → Bytes → Option (Result Bytes))
    → Bytes
    → Result (Header × Bytes × Bytes)
    → Option (Result Bytes)
add_record rest inputbytes (err struct_error) = some (ok inputbytes)
add_record rest inputbytes (err e) = some (err e)
add_record rest inputbytes (ok (h, content, fd)) =
    rest (if is_output h then inputbytes else inputbytes ++ content) fd

-- The loop, from the bytes that are gathered; `none` where the fuel is out.
unfoldable pub input_bytes : ℕ → Bytes → Bytes → Option (Result Bytes)
input_bytes zero inputbytes fd = none
input_bytes (suc fuel) inputbytes fd = add_record (input_bytes fuel) inputbytes (read_record fd)

abbrev pub digest : (Bytes → Text) → Result Bytes → Result Text
digest sha256 r = r >>= λ bs. ok (sha256 bs)

abbrev pub digest_if : (Bytes → Text) → Option (Result Bytes) → Option (Result Text)
digest_if sha256 none = none
digest_if sha256 (some r) = some (digest sha256 r)

unfoldable pub ttylog_inputhash : (sha256 : Bytes → Text) → ℕ → Bytes → Option (Result Text)
ttylog_inputhash sha256 fuel file = digest_if sha256 (input_bytes fuel [] file)
