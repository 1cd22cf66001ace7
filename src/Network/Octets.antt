-- ===== src/Network/Octets.antt =====
-- Printing an IPv4 address and reading it again (Python's `ipaddress`, in cowrie/src/cowrie/core/network.py).
use honeybee_potstore.Base.{
  ℕ, ◌+◌, ◌*◌, ◌/◌, ◌%◌, ◌<◌, ◌≡◌, refl, false, [], ◌∷◌, ◌++◌, some, arith,
}
use honeybee_potstore.Auth.Strings.{split, has, split-append}
use honeybee_potstore.Network.Ipv4.{digits_from, parse_octet, show_octet, parse_ipv4, show_ipv4}

parse_octet-show : (n : ℕ) → n < 256 → parse_octet (show_octet n) ≡ some n
unfolding parse_octet show_octet digits_from
parse_octet-show n h = ground arith

no_dot : (n : ℕ) → n < 1000 → has 46 (show_octet n) ≡ false
unfolding show_octet has
no_dot n h = ground arith

split_octet : (n : ℕ) → n < 1000 → split 46 (show_octet n) ≡ show_octet n ∷ []
unfolding show_octet split
split_octet n h = ground arith

joined :
    (n : ℕ)
    → n < 4294967296
    → ((n / 16777216 * 256 + n / 65536 % 256) * 256 + n / 256 % 256) * 256 + n % 256 ≡ n
joined n h = omega arith

pub parse_ipv4-show : (n : ℕ) → n < 4294967296 → parse_ipv4 (show_ipv4 n) ≡ some n
unfolding parse_ipv4 show_ipv4
parse_ipv4-show n h =
    rw
      (
        split-append 46 (show_octet (n / 16777216))
            (show_octet (n / 65536 % 256)
              ++ 46 ∷ (show_octet (n / 256 % 256) ++ 46 ∷ show_octet (n % 256)))
            (no_dot (n / 16777216) (omega arith)),
        split-append 46 (show_octet (n / 65536 % 256))
            (show_octet (n / 256 % 256) ++ 46 ∷ show_octet (n % 256))
            (no_dot (n / 65536 % 256) (omega arith)),
        split-append 46 (show_octet (n / 256 % 256)) (show_octet (n % 256))
            (no_dot (n / 256 % 256) (omega arith)),
        split_octet (n % 256) (omega arith),
        parse_octet-show (n / 16777216) (omega arith),
        parse_octet-show (n / 65536 % 256) (omega arith),
        parse_octet-show (n / 256 % 256) (omega arith),
        parse_octet-show (n % 256) (omega arith),
        joined n h,
      )
      refl
