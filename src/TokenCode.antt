-- ===== src/TokenCode.antt =====
-- src/services/token.rs: the text of an access code, `PREFIX-XXXX-XXXX`: generation and the check
-- that a submitted code passes before the database is asked.
pub mod Format
use didicafe.Base.{
  ℕ, ◌+◌, ◌/◌, not, Option, none, some, [], ◌∷◌, ◌++◌, eqb, if◌then◌else◌, Str, lit, as_bytes,
  byte_len, get_elem?, Result, ok, err, pick_all, strip_prefix, contains,
}

pub record TokenConfig : Type 0 where
  pub prefix : Str
  pub charset : Str
  pub length : ℕ

abbrev pub invalid_format : Str
invalid_format = lit "Invalid token format."

-- `format!("{}-", config.prefix)`
abbrev pub expected_prefix : TokenConfig → Str
expected_prefix config = config.prefix ++ b'-' ∷ []

-- The `for` loop over `body.chars().enumerate()`, from position `i`.
unfoldable pub check_chars : Str → ℕ → ℕ → Str → Result Str (Unit {0})
check_chars charset half i [] = ok tt
check_chars charset half i (ch ∷ body) =
    let rest = check_chars charset half (i + 1) body in
    if eqb i half then rest else if not (contains charset ch) then err invalid_format else rest

-- The checks on what follows the prefix. The byte at `half` is there, since the length is right.
unfoldable pub check_body : Str → ℕ → Str → Result Str (Unit {0})
check_body charset half body =
    if not (eqb (byte_len body) (half + 1 + half))
    then err invalid_format
    else elim (get_elem? (as_bytes body) half) [
      | none ↦ err invalid_format
      | some b ↦ if not (eqb b b'-') then err invalid_format else check_chars charset half 0 body
    ]

unfoldable pub validate_token_format : TokenConfig → Str → Result Str (Unit {0})
validate_token_format config code = elim (strip_prefix (expected_prefix config) code) [
  | none ↦ err invalid_format
  | some body ↦ check_body config.charset (config.length / 2) body
]

-- `format!("{}-{}-{}", config.prefix, part1, part2)`
abbrev pub format_code : Str → Str → Str → Str
format_code prefix part1 part2 = (prefix ++ b'-' ∷ []) ++ (part1 ++ b'-' ∷ part2)

-- One code of `generate_tokens`, with the values drawn for its two halves.
unfoldable pub generate_code : TokenConfig → (ℕ → ℕ) → (ℕ → ℕ) → Option Str
generate_code config draws1 draws2 = elim (pick_all config.charset draws1 (config.length / 2)) [
  | none ↦ none
  | some part1 ↦ elim (pick_all config.charset draws2 (config.length / 2)) [
    | none ↦ none
    | some part2 ↦ some (format_code config.prefix part1 part2)
  ]
]
