-- ===== src/Mac.antt =====
-- src/net/mac.rs: the format that a MAC address must have before it reaches the firewall.
-- src/net/arp.rs: the MAC that a development build makes up from an address.
pub mod Grammar
pub mod Fake
use didicafe.Base.{
  ℕ, ◌+◌, ◌*◌, ◌/◌, ◌%◌, ◌^◌, Bool, true, false, ◌&&◌, ◌||◌, not, List, [], ◌∷◌, ◌++◌, eqb, leb,
  ltb, if◌then◌else◌, ◌==◌, Str, lit, str_eq, as_bytes, byte_len, Result, ok, err,
}
use didicafe.RateLimit.{IpAddr, v4, v6}

pub data MacError : Type 0 where
  invalid_length : ℕ → MacError
  invalid_separator : ℕ → MacError
  invalid_character : ℕ → MacError
  null_mac : MacError
  broadcast_mac : MacError

abbrev pub is_ascii_digit : ℕ → Bool
is_ascii_digit b = leb b'0' b && leb b b'9'

abbrev pub is_ascii_hexdigit : ℕ → Bool
is_ascii_hexdigit b = is_ascii_digit b || (leb b'a' b && leb b b'f') || (leb b'A' b && leb b b'F')

abbrev pub is_ascii_lowercase : ℕ → Bool
is_ascii_lowercase b = leb b'a' b && leb b b'z'

abbrev pub is_ascii_alphabetic : ℕ → Bool
is_ascii_alphabetic b = is_ascii_lowercase b || (leb b'A' b && leb b b'Z')

-- One round of the loop, at position `i`.
unfoldable pub check_byte : ℕ → ℕ → Result MacError (Unit {0})
check_byte i b =
    if eqb (i % 3) 2
    then (if not (eqb b b':') then err (invalid_separator i) else ok tt)
    else if not (is_ascii_hexdigit b) || (is_ascii_alphabetic b && not (is_ascii_lowercase b))
    then err (invalid_character i)
    else ok tt

-- The `for` loop, from position `i`.
unfoldable pub check_bytes : ℕ → List ℕ → Result MacError (Unit {0})
check_bytes i [] = ok tt
check_bytes i (b ∷ bytes) = elim (check_byte i b) [
  | err e ↦ err e
  | ok _ ↦ check_bytes (i + 1) bytes
]

abbrev pub null_text : Str
null_text = lit "00:00:00:00:00:00"

abbrev pub broadcast_text : Str
broadcast_text = lit "ff:ff:ff:ff:ff:ff"

unfoldable pub validate_mac : Str → Result MacError (Unit {0})
validate_mac mac =
    if not (eqb (byte_len mac) 17)
    then err (invalid_length (byte_len mac))
    else elim (check_bytes 0 (as_bytes mac)) [
      | err e ↦ err e
      | ok _ ↦
          if mac == null_text
          then err null_mac
          else if mac == broadcast_text
          then err broadcast_mac
          else ok tt
    ]

unfoldable pub is_valid_mac : Str → Bool
is_valid_mac mac = elim (validate_mac mac) [ ok _ ↦ true | err e ↦ false ]

abbrev pub hex_digit : ℕ → ℕ
hex_digit d = if ltb d 10 then b'0' + d else 87 + d

-- `{:02x}` of a number below 256.
abbrev pub format_02x : ℕ → Str
format_02x n = hex_digit (n / 16) ∷ hex_digit (n % 16) ∷ []

-- The octets of an address put together: an IPv4 address gives its integer back, of an IPv6 address
-- the first four octets stand in reverse.
unfoldable pub ip_hash : IpAddr → ℕ
ip_hash (v4 a) = a % 2 ^ 32
ip_hash (v6 a) =
    let top = a / 2 ^ 96 % 2 ^ 32 in
    top / 2 ^ 24 + top / 2 ^ 16 % 256 * 2 ^ 8 + top / 2 ^ 8 % 256 * 2 ^ 16 + top % 256 * 2 ^ 24

unfoldable pub dev_fake_mac : IpAddr → Str
dev_fake_mac ip =
    let hash = ip_hash ip % 0xFFFFFF in
    lit "02:00:00:"
    ++ (format_02x (hash / 2 ^ 16 % 256)
        ++ (b':' ∷ (format_02x (hash / 2 ^ 8 % 256) ++ (b':' ∷ format_02x (hash % 256)))))
