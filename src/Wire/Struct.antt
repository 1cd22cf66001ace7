-- ===== src/Wire/Struct.antt =====
-- `struct.pack` and `struct.unpack` for the formats `H`, `I`, `?` and `Ns` after `!`.
use honeybee_potstore.Base.{
  ℕ, zero, suc, ◌+◌, ◌*◌, ◌/◌, ◌%◌, ◌<◌, ◌≡◌, refl, Bool, true, false, not, [], ◌∷◌, ◌++◌, Result,
  ok, err, arith, struct_error, length, take, drop, ltb, ◌==◌, if◌then◌else◌, lt→ltb,
}
use honeybee_potstore.Base.Int.{ℤ, pos, negsuc}
use honeybee_potstore.Base.Text.{Bytes}

-- A number of two or four bytes, the high byte first.
unfoldable pub be16 : ℕ → Bytes
be16 n = (n / 256) ∷ (n % 256) ∷ []

unfoldable pub be32 : ℕ → Bytes
be32 n = (n / 16777216) ∷ (n / 65536 % 256) ∷ (n / 256 % 256) ∷ (n % 256) ∷ []

unfoldable pub number_from : ℕ → Bytes → ℕ
number_from acc [] = acc
number_from acc (b ∷ bs) = number_from (acc * 256 + b) bs

unfoldable pub number : Bytes → ℕ
unfolding number_from
number bs = number_from 0 bs

-- Out of range, `struct.error`.
unfoldable pub pack_H : ℤ → Result Bytes
unfolding be16
pack_H (pos n) = if ltb n 65536 then ok (be16 n) else err struct_error
pack_H (negsuc n) = err struct_error

unfoldable pub pack_I : ℤ → Result Bytes
unfolding be32
pack_I (pos n) = if ltb n 4294967296 then ok (be32 n) else err struct_error
pack_I (negsuc n) = err struct_error

unfoldable pub pack_bool : Bool → Bytes
pack_bool b = (if b then 1 else 0) ∷ []

-- `Ns`: cut off, or filled up with zero bytes.
unfoldable pub pack_s : ℕ → Bytes → Bytes
pack_s zero bs = []
pack_s (suc n) [] = 0 ∷ pack_s n []
pack_s (suc n) (b ∷ bs) = b ∷ pack_s n bs

-- The buffer must have the size of the format.
unfoldable pub unpack_H : Bytes → Result ℕ
unfolding number
unpack_H bs = if length bs == 2 then ok (number bs) else err struct_error

unfoldable pub unpack_I : Bytes → Result ℕ
unfolding number
unpack_I bs = if length bs == 4 then ok (number bs) else err struct_error

unfoldable pub unpack_s : ℕ → Bytes → Result Bytes
unpack_s n bs = if length bs == n then ok bs else err struct_error

-- Any byte but zero is true.
unfoldable pub unpack_settings : Bytes → Result (ℕ × ℕ × Bool)
unfolding number
unpack_settings bs =
    if length bs == 9
    then ok (number (take 4 bs), number (take 4 (drop 4 bs)), not (number (drop 8 bs) == 0))
    else err struct_error

unfoldable pub unpack_ports : Bytes → Result (ℕ × ℕ)
unfolding number
unpack_ports bs =
    if length bs == 4 then ok (number (take 2 bs), number (drop 2 bs)) else err struct_error

pub length-be16 : (n : ℕ) → length (be16 n) ≡ 2
unfolding be16
length-be16 n = refl

pub length-be32 : (n : ℕ) → length (be32 n) ≡ 4
unfolding be32
length-be32 n = refl

pub pack_H-ok : (n : ℕ) → n < 65536 → pack_H (pos n) ≡ ok (be16 n)
unfolding pack_H
pack_H-ok n h = rw (lt→ltb n 65536 h)

pub pack_I-ok : (n : ℕ) → n < 4294967296 → pack_I (pos n) ≡ ok (be32 n)
unfolding pack_I
pack_I-ok n h = rw (lt→ltb n 4294967296 h)

pub number-be16 : (n : ℕ) → n < 65536 → number (be16 n) ≡ n
unfolding number be16
number-be16 n h = omega arith

pub number-be32 : (n : ℕ) → n < 4294967296 → number (be32 n) ≡ n
unfolding number be32
number-be32 n h = omega arith

pub unpack_H-be16 : (n : ℕ) → n < 65536 → unpack_H (be16 n) ≡ ok n
unfolding unpack_H
unpack_H-be16 n h = rw (length-be16 n, number-be16 n h)

pub unpack_I-be32 : (n : ℕ) → n < 4294967296 → unpack_I (be32 n) ≡ ok n
unfolding unpack_I
unpack_I-be32 n h = rw (length-be32 n, number-be32 n h)

pub unpack_s-length : (bs : Bytes) → unpack_s (length bs) bs ≡ ok bs
unfolding unpack_s
unpack_s-length bs = ground arith

pub pack_s-length : (bs : Bytes) → pack_s (length bs) bs ≡ bs
unfolding pack_s
pack_s-length [] = refl
pack_s-length (b ∷ bs) = rw (pack_s-length bs)

value32 :
    (n : ℕ)
    → n < 4294967296
    → (((0 + n / 16777216) * 256 + n / 65536 % 256) * 256 + n / 256 % 256) * 256 + n % 256 ≡ n
value32 n h = omega arith

value16 : (n : ℕ) → n < 65536 → (0 + n / 256) * 256 + n % 256 ≡ n
value16 n h = omega arith

flag : (b : Bool) → not (0 + (if b then 1 else 0) == 0) ≡ b
flag true = refl
flag false = refl

pub unpack_settings-pack :
    (m t : ℕ) (share : Bool)
    → m < 4294967296
    → t < 4294967296
    → unpack_settings (be32 m ++ (be32 t ++ pack_bool share)) ≡ ok (m, t, share)
unfolding unpack_settings be32 pack_bool
unpack_settings-pack m t share hm ht = rw (value32 m hm, value32 t ht, flag share)

pub unpack_ports-be16 :
    (s t : ℕ) → s < 65536 → t < 65536 → unpack_ports (be16 s ++ be16 t) ≡ ok (s, t)
unfolding unpack_ports be16
unpack_ports-be16 s t hs ht = rw (value16 s hs, value16 t ht)

-- The fields at the front of a buffer.
pub take-be32 : (n : ℕ) (r : Bytes) → take 4 (be32 n ++ r) ≡ be32 n
unfolding be32
take-be32 n r = refl

pub drop-be32 : (n : ℕ) (r : Bytes) → drop 4 (be32 n ++ r) ≡ r
unfolding be32
drop-be32 n r = refl

pub take-be16 : (n : ℕ) (r : Bytes) → take 2 (be16 n ++ r) ≡ be16 n
unfolding be16
take-be16 n r = refl

pub drop-be16 : (n : ℕ) (r : Bytes) → drop 2 (be16 n ++ r) ≡ r
unfolding be16
drop-be16 n r = refl

pub take-be16-be16 : (s t : ℕ) (r : Bytes) → take 4 (be16 s ++ (be16 t ++ r)) ≡ be16 s ++ be16 t
unfolding be16
take-be16-be16 s t r = refl

pub drop-be16-be16 : (s t : ℕ) (r : Bytes) → drop 4 (be16 s ++ (be16 t ++ r)) ≡ r
unfolding be16
drop-be16-be16 s t r = refl
