-- ===== src/TokenCode/Format.antt =====
-- src/services/token.rs: the codes that are accepted, and that every generated code is one.
use didicafe.Base.{
  ℕ, ◌↔◌, suc, zero, ◌+◌, ◌/◌, ◌<◌, ◌≡◌, ap, refl, inl, inr, true, some, [], ◌∷◌, ◌++◌, Str,
  as_bytes, utf8, IsAscii, as_bytes_ascii, length, length-append, get_elem?, ok, pick_all_total,
  strip_prefix, strip_prefix-append, append-strip_prefix, contains, AllIn, IsAscii-AllIn,
  IsAscii-contains, arith, Option-cases,
}
use didicafe.TokenCode.{
  TokenConfig, expected_prefix, check_chars, check_body, validate_token_format, generate_code,
  format_code,
}

-- A code in the format: two groups of `length / 2` characters of the set, after the prefix.
abbrev pub IsCode : TokenConfig → Str → Str × Str → Type 0
IsCode config code (part1, part2) =
    (code ≡ format_code config.prefix part1 part2)
    × (length part1 ≡ config.length / 2)
    × (length part2 ≡ config.length / 2)
    × AllIn config.charset part1
    × AllIn config.charset part2

-- Past the dash every character is checked.
check_chars_after :
    (charset : Str) (half i : ℕ) (s : Str)
    → half < i
    → AllIn charset s
    → check_chars charset half i s ≡ ok tt
unfolding check_chars
check_chars_after charset half i [] h a = refl
check_chars_after charset half i (c ∷ s) h a =
    ground (arith, check_chars_after charset half (i + 1) s)

check_chars_before :
    (charset : Str) (half i : ℕ) (p s : Str) (c : ℕ)
    → i + length p ≡ half
    → AllIn charset p
    → AllIn charset s
    → check_chars charset half i (p ++ c ∷ s) ≡ ok tt
unfolding check_chars
check_chars_before charset half i [] s c h a b =
    ground (arith, check_chars_after charset half (i + 1) s)
check_chars_before charset half i (d ∷ p) s c h a b =
    ground (arith, check_chars_before charset half (i + 1) p s c)

get_elem?_middle : (p s : Str) (c : ℕ) → get_elem? (p ++ c ∷ s) (length p) ≡ some c
get_elem?_middle [] s c = refl
get_elem?_middle (d ∷ p) s c = get_elem?_middle p s c

append-IsAscii : (p s : Str) (c : ℕ) → IsAscii p → c < 128 → IsAscii s → IsAscii (p ++ c ∷ s)
append-IsAscii [] s c a h b = (h, b)
append-IsAscii (d ∷ p) s c a h b = (a.0, append-IsAscii p s c a.1 h b)

IsCode-valid :
    (config : TokenConfig) (code part1 part2 : Str)
    → IsAscii config.charset
    → IsCode config code (part1, part2)
    → validate_token_format config code ≡ ok tt
unfolding validate_token_format check_body
IsCode-valid config code part1 part2 a (e, l1, l2, in1, in2) =
    let body = part1 ++ b'-' ∷ part2 in
    let ascii =
      append-IsAscii part1 part2 b'-' (IsAscii-AllIn config.charset part1 a in1) (omega arith)
        (IsAscii-AllIn config.charset part2 a in2) in
    ground (
      arith,
      strip_prefix-append (expected_prefix config) body,
      as_bytes_ascii body ascii,
      get_elem?_middle part1 part2 b'-',
      length-append {0} part1 (b'-' ∷ part2),
      check_chars_before config.charset (config.length / 2) 0 part1 part2 b'-',
    )

after_AllIn :
    (charset : Str) (half i : ℕ) (s : Str)
    → half < i
    → check_chars charset half i s ≡ ok tt
    → AllIn charset s
unfolding check_chars
after_AllIn charset half i [] h e = tt
after_AllIn charset half i (c ∷ s) h e = ground (arith, after_AllIn charset half (i + 1) s)

-- A character whose encoding begins with a dash is the dash.
dash_of_byte : (c : ℕ) (s : Str) → get_elem? (utf8 c ++ s) 0 ≡ some b'-' → c ≡ b'-'
dash_of_byte c s e = ground arith

utf8_ascii : (c : ℕ) → c < 128 → utf8 c ≡ c ∷ []
utf8_ascii c h = ground arith

-- The characters before the dash, the dash, and the characters after it.
split_body :
    (charset : Str) (half i k : ℕ) (s : Str)
    → IsAscii charset
    → i + k ≡ half
    → check_chars charset half i s ≡ ok tt
    → get_elem? (as_bytes s) k ≡ some b'-'
    → (p q : Str) × (s ≡ p ++ b'-' ∷ q) × (length p ≡ k) × AllIn charset p × AllIn charset q
unfolding check_chars
split_body charset half i zero [] a h e g = absurd (ground arith)
split_body charset half i zero (c ∷ q) a h e g =
    let dash = dash_of_byte c (as_bytes q) g in
    ([], q, rw dash, refl, tt, after_AllIn charset half (i + 1) q (omega arith) (ground arith))
split_body charset half i (suc k) [] a h e g = absurd (ground arith)
split_body charset half i (suc k) (c ∷ s) a h e g =
    let inside : contains charset c ≡ true = ground arith in
    let plain = utf8_ascii c (IsAscii-contains charset c a inside) in
    let (p, q, parts, size, in_p, in_q) =
      split_body charset half (i + 1) k s a (omega arith) (ground arith) (rw plain at g) in
    (c ∷ p, q, ap (◌∷◌ c) parts, ap suc size, (inside, in_p), in_q)

-- Inversion of the checks on the body.
check_body-parts :
    (charset body : Str) (half : ℕ)
    → check_body charset half body ≡ ok tt
    → (length (as_bytes body) ≡ half + 1 + half)
      × (get_elem? (as_bytes body) half ≡ some b'-')
      × (check_chars charset half 0 body ≡ ok tt)
unfolding check_body
check_body-parts charset body half e = ground arith

valid-body :
    (config : TokenConfig) (code : Str)
    → validate_token_format config code ≡ ok tt
    → (body : Str) × (code ≡ expected_prefix config ++ body)
      × (check_body config.charset (config.length / 2) body ≡ ok tt)
unfolding validate_token_format
valid-body config code e = elim (Option-cases (strip_prefix (expected_prefix config) code)) [
  | inl missing ↦ absurd (ground arith)
  | inr (body, found) ↦
      (body, append-strip_prefix (expected_prefix config) code body found, ground arith)
]

valid-IsCode :
    (config : TokenConfig) (code : Str)
    → IsAscii config.charset
    → validate_token_format config code ≡ ok tt
    → (parts : Str × Str) × IsCode config code parts
valid-IsCode config code a e =
    let half = config.length / 2 in
    let (body, prefixed, checked) = valid-body config code e in
    let (size, dash, chars) = check_body-parts config.charset body half checked in
    let (p, q, parts, size_p, in_p, in_q) =
      split_body config.charset half 0 half body a (omega arith) chars dash in
    let ascii =
      append-IsAscii p q b'-' (IsAscii-AllIn config.charset p a in_p) (omega arith)
        (IsAscii-AllIn config.charset q a in_q) in
    let bytes = as_bytes_ascii (p ++ b'-' ∷ q) ascii in
    (
      (p, q),
      (
        rw (← parts) prefixed,
        size_p,
        omega (
          arith,
          length-append {0} p (b'-' ∷ q),
          ap length bytes,
          ap (λ b. length (as_bytes b)) parts,
        ),
        in_p,
        in_q,
      ),
    )

-- Over an ASCII character set, the codes that are accepted are exactly the prefix, a dash, and two
-- groups of `length / 2` characters of the set with a dash between them.
pub validate_token_format-IsCode :
    (config : TokenConfig) (code : Str)
    → IsAscii config.charset
    → (validate_token_format config code ≡ ok tt) ↔ ((parts : Str × Str) × IsCode config code parts)
validate_token_format-IsCode config code a =
    (valid-IsCode config code a, λ p. IsCode-valid config code p.0.0 p.0.1 a p.1)

-- Generation succeeds for draws in range, and what it generates is accepted.
pub generate_code-valid :
    (config : TokenConfig) (draws1 draws2 : ℕ → ℕ)
    → IsAscii config.charset
    → ((i : ℕ) → draws1 i < length config.charset)
    → ((i : ℕ) → draws2 i < length config.charset)
    → (code : Str) × (generate_code config draws1 draws2 ≡ some code)
      × (validate_token_format config code ≡ ok tt)
unfolding generate_code
generate_code-valid config draws1 draws2 a h1 h2 =
    let half = config.length / 2 in
    let (p, picked_p, size_p, in_p) = pick_all_total config.charset draws1 half h1 in
    let (q, picked_q, size_q, in_q) = pick_all_total config.charset draws2 half h2 in
    let code = format_code config.prefix p q in
    (
      code,
      ground (arith, picked_p, picked_q),
      IsCode-valid config code p q a (refl, size_p, size_q, in_p, in_q),
    )
