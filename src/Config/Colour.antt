-- ===== src/Config/Colour.antt =====
-- src/config.rs: the components of the theme's colour, and how the first of its four shades is written.
-- The slices of the source are at bytes; a valid colour has one byte for each character.
use didicafe.Base.{
  ℕ, ◌+◌, ◌-◌, ◌*◌, ◌≤◌, ◌≡◌, ap, ◌∙◌, Bool, true, ◌&&◌, Option, none, some, [], ◌∷◌, ◌++◌, leb,
  eqb, if◌then◌else◌, Str, arith, to_ascii_lower, to_lowercase, strip_prefix, byte_len,
  as_bytes_ascii, IsAscii, length, all, ◌⊎◌,
}
use didicafe.Mac.{is_ascii_hexdigit, format_02x}
use didicafe.Config.{is_valid_hex_color}

-- `char::to_digit(16)`
abbrev pub to_digit : ℕ → Option ℕ
to_digit c =
    if leb b'0' c && leb c b'9'
    then some (c - b'0')
    else if leb b'a' c && leb c b'f'
    then some (c - b'a' + 10)
    else if leb b'A' c && leb c b'F'
    then some (c - b'A' + 10)
    else none

-- `u8::from_str_radix(…, 16).unwrap_or(0)` of one and of two characters; a `+` may stand in front of a
-- digit, and two digits are below 256.
abbrev pub value_or_zero : Option ℕ → ℕ
value_or_zero none = 0
value_or_zero (some v) = v

abbrev pub join_digits : Option ℕ → Option ℕ → Option ℕ
join_digits (some v) (some w) = some (v * 16 + w)
join_digits _ _ = none

unfoldable pub one_digit : ℕ → ℕ
one_digit c = value_or_zero (to_digit c)

unfoldable pub two_digits : ℕ → ℕ → ℕ
two_digits c d =
    if eqb c b'+'
    then value_or_zero (to_digit d)
    else value_or_zero (join_digits (to_digit c) (to_digit d))

abbrev pub strip_hash : Str → Str
strip_hash hex = elim (strip_prefix (b'#' ∷ []) hex) [ none ↦ hex | some rest ↦ rest ]

-- By the digits after the `#`: three, six, or the default amber.
abbrev pub rgb_of : Str → ℕ × ℕ × ℕ
rgb_of (r ∷ g ∷ b ∷ []) = (one_digit r * 17, one_digit g * 17, one_digit b * 17)
rgb_of (r ∷ r' ∷ g ∷ g' ∷ b ∷ b' ∷ []) = (two_digits r r', two_digits g g', two_digits b b')
rgb_of _ = (180, 83, 9)

unfoldable pub parse_hex_rgb : Str → ℕ × ℕ × ℕ
parse_hex_rgb hex = rgb_of (strip_hash hex)

-- `format!("#{r:02x}{g:02x}{b:02x}")` of the components
unfoldable pub primary : Str → Str
primary hex =
    let (r, g, b) = parse_hex_rgb hex in b'#' ∷ (format_02x r ++ (format_02x g ++ format_02x b))

one_digit_bound : (c : ℕ) → one_digit c ≤ 15
unfolding one_digit
one_digit_bound c = ground arith

two_digits_bound : (c d : ℕ) → two_digits c d ≤ 255
unfolding two_digits
two_digits_bound c d = ground arith

two_digits_read :
    (c d : ℕ)
    → is_ascii_hexdigit c ≡ true
    → is_ascii_hexdigit d ≡ true
    → format_02x (two_digits c d) ≡ to_ascii_lower c ∷ to_ascii_lower d ∷ []
unfolding two_digits
two_digits_read c d h g = ground arith

one_digit_read :
    (c : ℕ)
    → is_ascii_hexdigit c ≡ true
    → format_02x (one_digit c * 17) ≡ to_ascii_lower c ∷ to_ascii_lower c ∷ []
unfolding one_digit
one_digit_read c h = ground arith

rgb_bounds : (s : Str) → ((rgb_of s).0 ≤ 255) × ((rgb_of s).1 ≤ 255) × ((rgb_of s).2 ≤ 255)
rgb_bounds [] = (omega arith, omega arith, omega arith)
rgb_bounds (a ∷ []) = (omega arith, omega arith, omega arith)
rgb_bounds (a ∷ b ∷ []) = (omega arith, omega arith, omega arith)
rgb_bounds (r ∷ g ∷ b ∷ []) = (
  omega (arith, one_digit_bound r),
  omega (arith, one_digit_bound g),
  omega (arith, one_digit_bound b),
)
rgb_bounds (a ∷ b ∷ c ∷ d ∷ []) = (omega arith, omega arith, omega arith)
rgb_bounds (a ∷ b ∷ c ∷ d ∷ e ∷ []) = (omega arith, omega arith, omega arith)
rgb_bounds (r ∷ r' ∷ g ∷ g' ∷ b ∷ b' ∷ []) =
    (two_digits_bound r r', two_digits_bound g g', two_digits_bound b b')
rgb_bounds (a ∷ b ∷ c ∷ d ∷ e ∷ f ∷ g ∷ s) = (omega arith, omega arith, omega arith)

-- Every component of every text fits in a byte: in particular the product by 17 does not overflow.
pub parse_hex_rgb_bounds :
    (hex : Str)
    → ((parse_hex_rgb hex).0 ≤ 255) × ((parse_hex_rgb hex).1 ≤ 255) × ((parse_hex_rgb hex).2 ≤ 255)
unfolding parse_hex_rgb
parse_hex_rgb_bounds hex = rgb_bounds (strip_hash hex)

hexdigit-IsAscii : (s : Str) → all is_ascii_hexdigit s ≡ true → IsAscii s
hexdigit-IsAscii [] h = tt
hexdigit-IsAscii (c ∷ s) h = (ground arith, hexdigit-IsAscii s (ground arith))

-- The six digits that three stand for.
abbrev full : Str → Str
full (r ∷ g ∷ b ∷ []) = r ∷ r ∷ g ∷ g ∷ b ∷ b ∷ []
full s = s

first : (p : ℕ → Bool) (c : ℕ) (s : Str) → all p (c ∷ s) ≡ true → (p c ≡ true) × (all p s ≡ true)
first p c s h = ground arith

spelled :
    (digits : Str)
    → (length digits ≡ 3) ⊎ (length digits ≡ 6)
    → all is_ascii_hexdigit digits ≡ true
    → primary (b'#' ∷ digits) ≡ b'#' ∷ to_lowercase (full digits)
unfolding primary parse_hex_rgb strip_prefix
spelled [] n h = absurd (ground (arith, n))
spelled (a ∷ []) n h = absurd (ground (arith, n))
spelled (a ∷ b ∷ []) n h = absurd (ground (arith, n))
spelled (r ∷ g ∷ b ∷ []) n h = ground (
  arith,
  one_digit_read r (ground arith),
  one_digit_read g (ground arith),
  one_digit_read b (ground arith),
)
spelled (a ∷ b ∷ c ∷ d ∷ []) n h = absurd (ground (arith, n))
spelled (a ∷ b ∷ c ∷ d ∷ e ∷ []) n h = absurd (ground (arith, n))
spelled (r ∷ r' ∷ g ∷ g' ∷ b ∷ b' ∷ []) n h =
    let (h1, t1) = first is_ascii_hexdigit r (r' ∷ g ∷ g' ∷ b ∷ b' ∷ []) h in
    let (h2, t2) = first is_ascii_hexdigit r' (g ∷ g' ∷ b ∷ b' ∷ []) t1 in
    let (h3, t3) = first is_ascii_hexdigit g (g' ∷ b ∷ b' ∷ []) t2 in
    let (h4, t4) = first is_ascii_hexdigit g' (b ∷ b' ∷ []) t3 in
    let (h5, t5) = first is_ascii_hexdigit b (b' ∷ []) t4 in
    let (h6, t6) = first is_ascii_hexdigit b' [] t5 in
    let p = two_digits_read r r' h1 h2 in
    let q = two_digits_read g g' h3 h4 in
    let o = two_digits_read b b' h5 h6 in
    ap (λ x. b'#' ∷ (x ++ (format_02x (two_digits g g') ++ format_02x (two_digits b b')))) p
    ∙ (ap (λ x. b'#' ∷ to_ascii_lower r ∷ to_ascii_lower r' ∷ (x ++ format_02x (two_digits b b'))) q
        ∙ ap
            (λ x.
              b'#'
              ∷ to_ascii_lower r
              ∷ to_ascii_lower r'
              ∷ to_ascii_lower g
              ∷ to_ascii_lower g'
              ∷ x)
            o)
spelled (a ∷ b ∷ c ∷ d ∷ e ∷ f ∷ g ∷ s) n h = absurd (ground (arith, n))

valid_digits :
    (digits : Str)
    → is_valid_hex_color (b'#' ∷ digits) ≡ true
    → ((byte_len digits ≡ 3) ⊎ (byte_len digits ≡ 6)) × (all is_ascii_hexdigit digits ≡ true)
unfolding is_valid_hex_color strip_prefix
valid_digits digits h = ground arith

-- The first shade of a colour that the configuration or the settings accept is that colour, in lower
-- case, with three digits written out to six: no digit is lost or read as 0.
pub primary-valid :
    (digits : Str)
    → is_valid_hex_color (b'#' ∷ digits) ≡ true
    → primary (b'#' ∷ digits) ≡ b'#' ∷ to_lowercase (full digits)
primary-valid digits h =
    let (size, hexes) = valid_digits digits h in
    let same : byte_len digits ≡ length digits =
      ap length (as_bytes_ascii digits (hexdigit-IsAscii digits hexes)) in
    spelled digits (ground (arith, same, size)) hexes
