-- ===== src/SshProxy/Reader.antt =====
-- The class BaseProtocol (cowrie/src/cowrie/ssh_proxy/protocols/base_protocol.py), which takes a packet apart, and
-- the functions of ssh_proxy/util.py, which put one together.
use mathlib.Core.List.{append-nil, append_assoc}
use honeybee_potstore.Base.{
  ℕ, ◌+◌, ◌<◌, ◌≡◌, refl, sym, ap, ◌∙◌, Bool, not, List, [], ◌∷◌, ◌++◌, Result, ok, ◌>>=◌, length,
  take, drop, ◌==◌, arith, take-append, drop-append, length-append, All,
}
use honeybee_potstore.Base.Int.{ℤ, pos, ◌-ℤ◌, int_laws}
use honeybee_potstore.Base.Text.{Bytes, Text}
use honeybee_potstore.Wire.Struct.{
  be32, number, pack_I, pack_I-ok, number-be32, length-be32, take-be32, drop-be32,
}
use honeybee_potstore.Wire.Utf8.{encode}

pub record Reader : Type 0 where
  pub content : Bytes
  pub packet_size : ℤ

unfoldable pub extract_int : ℕ → Reader → ℕ × Reader
extract_int n r = (
  number (take n r.content),
  record r { content = drop n r.content; packet_size = r.packet_size -ℤ pos n },
)

unfoldable pub extract_string : Reader → Bytes × Reader
unfolding extract_int
extract_string r =
    let (n, q) = extract_int 4 r in
    (
      take n q.content,
      record q { content = drop n q.content; packet_size = q.packet_size -ℤ pos n },
    )

unfoldable pub extract_bool : Reader → Bool × Reader
unfolding extract_int
extract_bool r = let (n, q) = extract_int 1 r in (not (n == 0), q)

unfoldable pub extract_data : Reader → Bytes × Reader
unfolding extract_int
extract_data r =
    let (n, q) = extract_int 4 r in
    (q.content, record { content = []; packet_size = pos n -ℤ pos (length q.content) })

unfoldable pub int_to_hex : ℕ → Result Bytes
int_to_hex n = pack_I (pos n)

unfoldable pub bin_string_to_hex : Bytes → Result Bytes
bin_string_to_hex bs = do size ← pack_I (pos (length bs)); ok (size ++ bs)

unfoldable pub string_to_hex : Text → Result Bytes
unfolding bin_string_to_hex
string_to_hex s = bin_string_to_hex (encode s)

-- What a client may send: numbers and strings, one after the other.
pub data Field : Type 0 where
  int32 : ℕ → Field
  string : Bytes → Field

abbrev pub pack_field : Field → Result Bytes
pack_field (int32 n) = int_to_hex n
pack_field (string bs) = bin_string_to_hex bs

abbrev pub pack_fields : List Field → Result Bytes
pack_fields [] = ok []
pack_fields (f ∷ fs) = do bs ← pack_field f; rest ← pack_fields fs; ok (bs ++ rest)

-- The fields of the same kinds are taken out of a packet.
abbrev pub extract_field : Field → Reader → Field × Reader
extract_field (int32 n) r = let (m, q) = extract_int 4 r in (int32 m, q)
extract_field (string bs) r = let (cs, q) = extract_string r in (string cs, q)

abbrev pub extract_fields : List Field → Reader → List Field × Reader
extract_fields [] r = ([], r)
extract_fields (f ∷ fs) r =
    let (g, q) = extract_field f r in let (gs, s) = extract_fields fs q in (g ∷ gs, s)

abbrev pub Fits : Field → Type 0
Fits (int32 n) = n < 4294967296
Fits (string bs) = length bs < 4294967296

abbrev pub field_bytes : Field → Bytes
field_bytes (int32 n) = be32 n
field_bytes (string bs) = be32 (length bs) ++ bs

abbrev pub fields_bytes : List Field → Bytes
fields_bytes [] = []
fields_bytes (f ∷ fs) = field_bytes f ++ fields_bytes fs

pack_field-Fits : (f : Field) → Fits f → pack_field f ≡ ok (field_bytes f)
unfolding int_to_hex bin_string_to_hex
pack_field-Fits (int32 n) h = pack_I-ok n h
pack_field-Fits (string bs) h = rw (pack_I-ok (length bs) h)

abbrev pub reader : Bytes → ℤ → Reader
reader bs z = record { content = bs; packet_size = z }

minus_twice : (z : ℤ) (a b c : ℕ) → c ≡ a + b → z -ℤ pos a -ℤ pos b ≡ z -ℤ pos c
minus_twice z a b c h = omega int_laws

minus_zero : (z : ℤ) → z ≡ z -ℤ pos 0
minus_zero z = omega int_laws

minus_self : (n : ℕ) → pos n -ℤ pos n ≡ pos 0
minus_self n = omega int_laws

pub extract_int-be32 :
    (n : ℕ) (rest : Bytes) (z : ℤ)
    → n < 4294967296
    → extract_int 4 (reader (be32 n ++ rest) z) ≡ (n, reader rest (z -ℤ pos 4))
unfolding extract_int
extract_int-be32 n rest z h = rw (take-be32 n rest, drop-be32 n rest, number-be32 n h)

pub extract_string-be32 :
    (bs rest : Bytes) (z : ℤ)
    → length bs < 4294967296
    → extract_string (reader (be32 (length bs) ++ (bs ++ rest)) z)
      ≡ (bs, reader rest (z -ℤ pos 4 -ℤ pos (length bs)))
unfolding extract_string
extract_string-be32 bs rest z h = rw (
  take-be32 (length bs) (bs ++ rest),
  drop-be32 (length bs) (bs ++ rest),
  number-be32 (length bs) h,
  take-append bs rest,
  drop-append bs rest,
)

extract_field-Fits :
    (f : Field) (rest : Bytes) (z : ℤ)
    → Fits f
    → extract_field f (reader (field_bytes f ++ rest) z)
      ≡ (f, reader rest (z -ℤ pos (length (field_bytes f))))
extract_field-Fits (int32 n) rest z h = rw (extract_int-be32 n rest z h, length-be32 n)
extract_field-Fits (string bs) rest z h =
    ap (λ b. extract_field (string bs) (reader b z)) (append_assoc (be32 (length bs)) bs rest)
    ∙ rw (
      extract_string-be32 bs rest z h,
      minus_twice z 4 (length bs) (length (be32 (length bs) ++ bs))
          (omega (arith, length-be32 (length bs), length-append (be32 (length bs)) bs)),
    )

extract_fields-append :
    (fs : List Field) (rest : Bytes) (z : ℤ)
    → All Fits fs
    → extract_fields fs (reader (fields_bytes fs ++ rest) z)
      ≡ (fs, reader rest (z -ℤ pos (length (fields_bytes fs))))
extract_fields-append [] rest z h = ap (λ y. ([], reader rest y)) (minus_zero z)
extract_fields-append (f ∷ fs) rest z h =
    ap (λ b. extract_fields (f ∷ fs) (reader b z))
      (append_assoc (field_bytes f) (fields_bytes fs) rest)
    ∙ rw (
      extract_field-Fits f (fields_bytes fs ++ rest) z h.0,
      extract_fields-append fs rest (z -ℤ pos (length (field_bytes f))) h.1,
      minus_twice z (length (field_bytes f)) (length (fields_bytes fs))
          (length (field_bytes f ++ fields_bytes fs))
          (length-append (field_bytes f) (fields_bytes fs)),
    )

pub pack_fields-Fits : (fs : List Field) → All Fits fs → pack_fields fs ≡ ok (fields_bytes fs)
pack_fields-Fits [] h = refl
pack_fields-Fits (f ∷ fs) h = rw (pack_field-Fits f h.0, pack_fields-Fits fs h.1)

-- Numbers of four bytes and strings of fewer than 2^32 bytes that are put together to a packet are
-- taken out of it as they were, and then the packet is empty, with no byte left to read.
pub extract_fields-pack :
    (fs : List Field)
    → All Fits fs
    → (bs : Bytes) × (pack_fields fs ≡ ok bs)
      × (extract_fields fs (reader bs (pos (length bs))) ≡ (fs, reader [] (pos 0)))
extract_fields-pack fs h =
    let bs = fields_bytes fs in
    (
      bs,
      pack_fields-Fits fs h,
      ap (λ b. extract_fields fs (reader b (pos (length bs)))) (sym (append-nil bs))
          ∙ extract_fields-append fs [] (pos (length bs)) h
          ∙ ap (λ y. (fs, reader [] y)) (minus_self (length bs)),
    )
