-- ===== src/Mac/Grammar.antt =====
-- src/net/mac.rs: the language that `validate_mac` accepts.
use didicafe.Base.{
  ◌↔◌, IsAscii, as_bytes_ascii, IsAscii-as_bytes, ℕ, suc, zero, ◌+◌, ◌*◌, ◌%◌, ◌≤◌, ◌<◌, ◌≡◌, ◌≢◌,
  ◌⊎◌, ◌∙◌, ap, sym, refl, List, [], ◌∷◌, Str, str_eq, as_bytes, ok, arith, All, length, beq_ne,
}
use didicafe.Mac.{check_byte, check_bytes, validate_mac, null_text, broadcast_text}

-- A lowercase hexadecimal digit.
abbrev pub IsDigit : ℕ → Type 0
IsDigit b = ((48 ≤ b) × (b ≤ 57)) ⊎ ((97 ≤ b) × (b ≤ 102))

-- Pairs of digits, separated by colons.
abbrev pub join : List (ℕ × ℕ) → Str
join [] = []
join ((a, b) ∷ []) = a ∷ b ∷ []
join ((a, b) ∷ p ∷ pairs) = a ∷ b ∷ b':' ∷ join (p ∷ pairs)

-- Six pairs of digits, other than all zeros and all ones.
abbrev pub IsMac : Str → List (ℕ × ℕ) → Type 0
IsMac mac pairs =
    (mac ≡ join pairs)
    × (length pairs ≡ 6)
    × All (λ p. IsDigit p.0 × IsDigit p.1) pairs
    × (mac ≢ null_text)
    × (mac ≢ broadcast_text)

check_byte-IsDigit : (i b : ℕ) → i % 3 < 2 → check_byte i b ≡ ok tt → IsDigit b
unfolding check_byte
check_byte-IsDigit i b h e = ground arith

check_byte-colon : (i b : ℕ) → i % 3 ≡ 2 → check_byte i b ≡ ok tt → b ≡ b':'
unfolding check_byte
check_byte-colon i b h e = ground arith

digit-check_byte : (i b : ℕ) → i % 3 < 2 → IsDigit b → check_byte i b ≡ ok tt
unfolding check_byte
digit-check_byte i b h d = ground arith

colon-check_byte : (i : ℕ) → i % 3 ≡ 2 → check_byte i b':' ≡ ok tt
unfolding check_byte
colon-check_byte i h = ground arith

-- Inversion of one round.
check_bytes-cons :
    (i b : ℕ) (bytes : List ℕ)
    → check_bytes i (b ∷ bytes) ≡ ok tt
    → (check_byte i b ≡ ok tt) × (check_bytes (i + 1) bytes ≡ ok tt)
unfolding check_bytes
check_bytes-cons i b bytes e = ground arith

cons-check_bytes :
    (i b : ℕ) (bytes : List ℕ)
    → check_byte i b ≡ ok tt
    → check_bytes (i + 1) bytes ≡ ok tt
    → check_bytes i (b ∷ bytes) ≡ ok tt
unfolding check_bytes
cons-check_bytes i b bytes e f = ground arith

join-cons :
    (a b c : ℕ) (bytes : List ℕ) (pairs : List (ℕ × ℕ)) (n : ℕ)
    → bytes ≡ join pairs
    → length pairs ≡ suc n
    → c ≡ b':'
    → a ∷ b ∷ c ∷ bytes ≡ join ((a, b) ∷ pairs)
join-cons a b c bytes [] n e l colon = absurd (omega arith)
join-cons a b c bytes (p ∷ pairs) n e l colon = rw (e, colon)

-- The loop accepts only pairs of digits separated by colons.
pairs_of :
    (n i : ℕ) (bytes : List ℕ)
    → i % 3 ≡ 0
    → length bytes ≡ 3 * n + 2
    → check_bytes i bytes ≡ ok tt
    → (pairs : List (ℕ × ℕ)) × (bytes ≡ join pairs)
      × (length pairs ≡ suc n)
      × All (λ p. IsDigit p.0 × IsDigit p.1) pairs
pairs_of zero i (a ∷ b ∷ []) m l e =
    let ea = check_bytes-cons i a (b ∷ []) e in
    let eb = check_bytes-cons (i + 1) b [] ea.1 in
    (
      (a, b) ∷ [],
      refl,
      refl,
      (
        (
          check_byte-IsDigit i a (omega arith) ea.0,
          check_byte-IsDigit (i + 1) b (omega arith) eb.0,
        ),
        tt,
      ),
    )
pairs_of (suc n) i (a ∷ b ∷ c ∷ bytes) m l e =
    let ea = check_bytes-cons i a (b ∷ c ∷ bytes) e in
    let eb = check_bytes-cons (i + 1) b (c ∷ bytes) ea.1 in
    let ec = check_bytes-cons (i + 1 + 1) c bytes eb.1 in
    let (pairs, split, size, digits) =
      pairs_of n (i + 1 + 1 + 1) bytes (omega arith) (omega arith) ec.1 in
    (
      (a, b) ∷ pairs,
      join-cons a b c bytes pairs n split size (check_byte-colon (i + 1 + 1) c (omega arith) ec.0),
      ap suc size,
      (
        (
          check_byte-IsDigit i a (omega arith) ea.0,
          check_byte-IsDigit (i + 1) b (omega arith) eb.0,
        ),
        digits,
      ),
    )
pairs_of _ i bytes m l e = absurd (omega arith)

join-check_bytes :
    (i : ℕ) (pairs : List (ℕ × ℕ))
    → i % 3 ≡ 0
    → All (λ p. IsDigit p.0 × IsDigit p.1) pairs
    → check_bytes i (join pairs) ≡ ok tt
unfolding check_bytes
join-check_bytes i [] m d = refl
join-check_bytes i ((a, b) ∷ []) m d =
    cons-check_bytes i a (b ∷ []) (digit-check_byte i a (omega arith) d.0.0)
      (cons-check_bytes (i + 1) b [] (digit-check_byte (i + 1) b (omega arith) d.0.1) refl)
join-check_bytes i ((a, b) ∷ p ∷ pairs) m d =
    cons-check_bytes i a (b ∷ b':' ∷ join (p ∷ pairs)) (digit-check_byte i a (omega arith) d.0.0) (
      cons-check_bytes (i + 1) b (b':' ∷ join (p ∷ pairs))
        (digit-check_byte (i + 1) b (omega arith) d.0.1)
        (cons-check_bytes (i + 1 + 1) b':' _ (colon-check_byte (i + 1 + 1) (omega arith))
          (join-check_bytes (i + 1 + 1 + 1) (p ∷ pairs) (omega arith) d.1)))

length-join :
    (n : ℕ) (pairs : List (ℕ × ℕ)) → length pairs ≡ suc n → length (join pairs) ≡ 3 * n + 2
length-join n [] l = absurd (omega arith)
length-join n ((a, b) ∷ []) l = omega arith
length-join zero ((a, b) ∷ p ∷ pairs) l = absurd (omega arith)
length-join (suc n) ((a, b) ∷ p ∷ pairs) l = omega (arith, length-join n (p ∷ pairs) (omega arith))

join-IsAscii :
    (pairs : List (ℕ × ℕ)) → All (λ p. IsDigit p.0 × IsDigit p.1) pairs → IsAscii (join pairs)
join-IsAscii [] d = tt
join-IsAscii ((a, b) ∷ []) d = ground arith
join-IsAscii ((a, b) ∷ p ∷ pairs) d = ground (arith, join-IsAscii (p ∷ pairs) d.1)

validate-parts :
    (mac : Str)
    → validate_mac mac ≡ ok tt
    → (length (as_bytes mac) ≡ 17)
      × (check_bytes 0 (as_bytes mac) ≡ ok tt)
      × (mac ≢ null_text)
      × (mac ≢ broadcast_text)
unfolding validate_mac
validate-parts mac e = (
  ground arith,
  ground arith,
  λ n. ground (arith, str_eq.equal_iff mac null_text),
  λ n. ground (arith, str_eq.equal_iff mac broadcast_text),
)

parts-validate :
    (mac : Str)
    → length (as_bytes mac) ≡ 17
    → check_bytes 0 (as_bytes mac) ≡ ok tt
    → mac ≢ null_text
    → mac ≢ broadcast_text
    → validate_mac mac ≡ ok tt
unfolding validate_mac
parts-validate mac l c n b = ground (arith, beq_ne mac null_text n, beq_ne mac broadcast_text b)

-- Whatever is accepted is six pairs of lowercase hexadecimal digits separated by colons, and
-- neither the null nor the broadcast address.
accepted-IsMac : (mac : Str) → validate_mac mac ≡ ok tt → (pairs : List (ℕ × ℕ)) × IsMac mac pairs
accepted-IsMac mac e =
    let (size, checked, not_null, not_broadcast) = validate-parts mac e in
    let (pairs, split, six, digits) = pairs_of 5 0 (as_bytes mac) (omega arith) size checked in
    let ascii = IsAscii-as_bytes mac (rw split (join-IsAscii pairs digits)) in
    (pairs, (sym (as_bytes_ascii mac ascii) ∙ split, six, digits, not_null, not_broadcast))

IsMac-accepted : (mac : Str) (pairs : List (ℕ × ℕ)) → IsMac mac pairs → validate_mac mac ≡ ok tt
IsMac-accepted mac pairs (split, six, digits, not_null, not_broadcast) =
    let bytes = ap as_bytes split ∙ as_bytes_ascii (join pairs) (join-IsAscii pairs digits) in
    parts-validate mac (ap length bytes ∙ length-join 5 pairs six)
      (rw bytes (join-check_bytes 0 pairs (omega arith) digits)) not_null not_broadcast

-- `validate_mac` accepts exactly the texts of six pairs of lowercase hexadecimal digits separated
-- by colons, but for the null and the broadcast address. No other character can pass, so none can
-- reach the firewall's command line.
pub validate_mac-IsMac :
    (mac : Str) → (validate_mac mac ≡ ok tt) ↔ ((pairs : List (ℕ × ℕ)) × IsMac mac pairs)
validate_mac-IsMac mac = (accepted-IsMac mac, λ p. IsMac-accepted mac p.0 p.1)
