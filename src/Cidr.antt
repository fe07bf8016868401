-- ===== src/Cidr.antt =====
-- src/config.rs: networks in CIDR notation. The parse of an IP address is a parameter.
pub mod Prefix
use Prim.Native.Nat.{bit_and}
use didicafe.Base.{
  ℕ, zero, suc, ◌+◌, ◌-◌, ◌*◌, ◌%◌, ◌^◌, Bool, true, false, ◌&&◌, Option, none, some, [], ◌∷◌, ltb,
  eqb, if◌then◌else◌, Str,
}
use didicafe.Mac.{is_ascii_digit}
use didicafe.RateLimit.{IpAddr, v4, v6}

-- `str::split_once('/')`
unfoldable pub split_once : ℕ → Str → Option (Str × Str)
split_once c [] = none
split_once c (d ∷ s) =
    if eqb d c
    then some ([], s)
    else elim (split_once c s) [ none ↦ none | some (before, after) ↦ some (d ∷ before, after) ]

-- The digits of `str::parse::<u8>`, after those that make `n`; the value must stay below 256.
unfoldable pub parse_digits : ℕ → Str → Option ℕ
parse_digits n [] = some n
parse_digits n (c ∷ s) =
    let m = n * 10 + (c - b'0') in
    let rest = parse_digits m s in if is_ascii_digit c && ltb m 256 then rest else none

-- `str::parse::<u8>`: a `+` may stand in front, and there is at least one digit.
unfoldable pub parse_u8 : Str → Option ℕ
parse_u8 [] = none
parse_u8 (c ∷ []) = parse_digits 0 (c ∷ [])
parse_u8 (c ∷ d ∷ s) = if eqb c b'+' then parse_digits 0 (d ∷ s) else parse_digits 0 (c ∷ d ∷ s)

-- The number of bits of an address.
abbrev pub width : IpAddr → ℕ
width (v4 a) = 32
width (v6 a) = 128

-- `u32::MAX << (32 - prefix_len)`, and the same in 128 bits; the shift is less than the width.
abbrev pub mask : ℕ → ℕ → ℕ
mask w prefix_len = (2 ^ w - 1) * 2 ^ (w - prefix_len) % 2 ^ w

-- `prefix_len == 0 || (ip_bits & mask) == (net_bits & mask)`
unfoldable pub same_network : ℕ → ℕ → ℕ → ℕ → Bool
same_network w prefix_len ip net =
    if eqb prefix_len 0
    then true
    else eqb (bit_and ip (mask w prefix_len)) (bit_and net (mask w prefix_len))

unfoldable pub ip_matches : IpAddr → IpAddr × ℕ → Bool
ip_matches (v4 ip) (v4 net, prefix_len) = same_network 32 prefix_len ip net
ip_matches (v6 ip) (v6 net, prefix_len) = same_network 128 prefix_len ip net
ip_matches (v4 ip) (v6 net, prefix_len) = false
ip_matches (v6 ip) (v4 net, prefix_len) = false

module _ (parse_ip : Str → Option IpAddr) where
  unfoldable pub parse_cidr : Str → Option (IpAddr × ℕ)
  parse_cidr cidr = elim (split_once b'/' cidr) [
    | none ↦ none
    | some (addr_str, prefix_str) ↦ elim (parse_ip addr_str) [
      | none ↦ none
      | some addr ↦ elim (parse_u8 prefix_str) [
        | none ↦ none
        | some prefix_len ↦ if ltb (width addr) prefix_len then none else some (addr, prefix_len)
      ]
    ]
  ]

  unfoldable pub ip_in_cidr : IpAddr → Str → Bool
  ip_in_cidr ip cidr = elim (parse_cidr cidr) [
    | none ↦ false
    | some network ↦ ip_matches ip network
  ]
