-- ===== src/TtyLog/Written.antt =====
-- What cowrie/src/cowrie/core/ttylog.py writes is read back, by it and by cowrie/src/cowrie/scripts/playlog.py.
use honeybee_potstore.Base.{
  ℕ, ◌-◌, ◌<◌, ◌≡◌, ap, ◌∙◌, false, ◌++◌, ok, arith, length, ltb, lt→ltb, take-append, drop-append,
}
use honeybee_potstore.Base.Int.{ℤ, pos, negsuc}
use honeybee_potstore.Base.Text.{Bytes}
use honeybee_potstore.TtyLog.Record.{
  le32, number_le, two_power_31, encode_i, signed, pack_i, pack_L, Header, pack_header,
  unpack_header, append, read, read_record,
}

abbrev pub IsInt32 : ℤ → Type 0
IsInt32 (pos n) = n < two_power_31
IsInt32 (negsuc n) = n < two_power_31

abbrev pub IsUnsigned : ℤ → Type 0
IsUnsigned (pos n) = n < 4294967296
IsUnsigned (negsuc n) = ⊥

abbrev pub Fits : Header → Type 0
Fits h =
    IsInt32 h.op
    × IsUnsigned h.tty
    × IsInt32 h.size
    × IsInt32 h.direction
    × IsUnsigned h.sec
    × IsUnsigned h.usec

abbrev natural : ℤ → ℕ
natural (pos n) = n
natural (negsuc n) = 0

abbrev pub header_bytes : Header → Bytes
header_bytes h =
    le32 (encode_i h.op)
    ++ (le32 (natural h.tty)
        ++ (le32 (encode_i h.size)
            ++ (le32 (encode_i h.direction) ++ (le32 (natural h.sec) ++ le32 (natural h.usec)))))

number_le-le32 : (n : ℕ) → n < 4294967296 → number_le (le32 n) ≡ n
unfolding number_le le32
number_le-le32 n h = omega arith

encode-lt : (z : ℤ) → IsInt32 z → encode_i z < 4294967296
encode-lt (pos n) h = omega arith
encode-lt (negsuc n) h = omega arith

signed-encode : (z : ℤ) → IsInt32 z → signed (encode_i z) ≡ z
unfolding signed
signed-encode (pos n) h = ground arith
signed-encode (negsuc n) h = rw (ltb_high, ap (λ k. negsuc k) back)
  where
    ltb_high : ltb (4294967295 - n) two_power_31 ≡ false
    ltb_high = ground arith

    back : 4294967295 - (4294967295 - n) ≡ n
    back = omega arith

pack_i-IsInt32 : (z : ℤ) → IsInt32 z → pack_i z ≡ ok (le32 (encode_i z))
unfolding pack_i
pack_i-IsInt32 (pos n) h = rw (lt→ltb n two_power_31 h)
pack_i-IsInt32 (negsuc n) h = rw (lt→ltb n two_power_31 h)

pack_L-IsUnsigned : (z : ℤ) → IsUnsigned z → pack_L z ≡ ok (le32 (natural z))
unfolding pack_L
pack_L-IsUnsigned (pos n) h = rw (lt→ltb n 4294967296 h)
pack_L-IsUnsigned (negsuc n) h = elim h [ ]

natural-pos : (z : ℤ) → IsUnsigned z → pos (number_le (le32 (natural z))) ≡ z
natural-pos (pos n) h = ap pos (number_le-le32 n h)
natural-pos (negsuc n) h = elim h [ ]

signed-le32 : (z : ℤ) → IsInt32 z → signed (number_le (le32 (encode_i z))) ≡ z
signed-le32 z h = ap signed (number_le-le32 (encode_i z) (encode-lt z h)) ∙ signed-encode z h

pub pack_header-Fits : (h : Header) → Fits h → pack_header h ≡ ok (header_bytes h)
unfolding pack_header
pack_header-Fits h f = rw (
  pack_i-IsInt32 h.op f.0,
  pack_L-IsUnsigned h.tty f.1,
  pack_i-IsInt32 h.size f.2,
  pack_i-IsInt32 h.direction f.3,
  pack_L-IsUnsigned h.sec f.4,
  pack_L-IsUnsigned h.usec f.5,
)

pub unpack_header-bytes : (h : Header) → Fits h → unpack_header (header_bytes h) ≡ ok h
unfolding unpack_header le32
unpack_header-bytes h f = rw (
  signed-le32 h.op f.0,
  natural-pos h.tty f.1,
  signed-le32 h.size f.2,
  signed-le32 h.direction f.3,
  natural-pos h.sec f.4,
  natural-pos h.usec f.5,
)

-- The header, what belongs to it and what follows.
pub read_record-header :
    (h : Header) (content rest : Bytes)
    → Fits h
    → h.size ≡ pos (length content)
    → read_record (header_bytes h ++ (content ++ rest)) ≡ ok (h, content, rest)
unfolding read_record read le32
read_record-header h content rest f e =
    rw (unpack_header-bytes h f, e, take-append content rest, drop-append content rest)

pub append-Fits :
    (file : Bytes) (h : Header) (content : Bytes)
    → Fits h
    → append file (pack_header h) content ≡ (ok tt, file ++ (header_bytes h ++ content))
append-Fits file h content f = rw (pack_header-Fits h f)
