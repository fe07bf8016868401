-- ===== src/Mac/Fake.antt =====
-- src/net/arp.rs: the made-up MAC is one that the firewall accepts.
use didicafe.Base.{ℕ, ◌/◌, ◌%◌, ◌^◌, ◌<◌, ◌≡◌, refl, ap, [], ◌∷◌, inl, Str, ok, arith}
use didicafe.RateLimit.{IpAddr}
use didicafe.Mac.{validate_mac, dev_fake_mac, hex_digit, ip_hash}
use didicafe.Mac.Grammar.{IsDigit, validate_mac-IsMac}

hex_digit-IsDigit : (d : ℕ) → d < 16 → IsDigit (hex_digit d)
hex_digit-IsDigit d h = ground arith

octet_digits : (n : ℕ) → IsDigit (hex_digit (n % 256 / 16)) × IsDigit (hex_digit (n % 256 % 16))
octet_digits n = (hex_digit-IsDigit _ (omega arith), hex_digit-IsDigit _ (omega arith))

abbrev second : Str → ℕ
second [] = 0
second (a ∷ []) = 0
second (a ∷ b ∷ s) = b

IsDigit-0 : IsDigit b'0'
IsDigit-0 = inl (omega arith, omega arith)

IsDigit-2 : IsDigit b'2'
IsDigit-2 = inl (omega arith, omega arith)

-- The MAC that a development build makes up is accepted, whatever the address.
pub dev_fake_mac-valid : (ip : IpAddr) → validate_mac (dev_fake_mac ip) ≡ ok tt
unfolding dev_fake_mac
dev_fake_mac-valid ip =
    let hash = ip_hash ip % 0xFFFFFF in
    let digits = octet_digits in
    (validate_mac-IsMac (dev_fake_mac ip)).1 (
      (b'0', b'2')
          ∷ (b'0', b'0')
          ∷ (b'0', b'0')
          ∷ (hex_digit (hash / 2 ^ 16 % 256 / 16), hex_digit (hash / 2 ^ 16 % 256 % 16))
          ∷ (hex_digit (hash / 2 ^ 8 % 256 / 16), hex_digit (hash / 2 ^ 8 % 256 % 16))
          ∷ (hex_digit (hash % 256 / 16), hex_digit (hash % 256 % 16))
          ∷ [],
      (
        refl,
        refl,
        (
          (IsDigit-0, IsDigit-2),
          (
            (IsDigit-0, IsDigit-0),
            (
              (IsDigit-0, IsDigit-0),
              (digits (hash / 2 ^ 16), (digits (hash / 2 ^ 8), (digits hash, tt))),
            ),
          ),
        ),
        λ e. omega (arith, ap second e),
        λ e. omega (arith, ap second e),
      ),
    )
