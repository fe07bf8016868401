-- ===== src/Base/Text.antt =====
-- Rust's `str` as its sequence of code points, with its UTF-8 bytes.
use Prim.Native.Nat.{ℕ, zero, suc, ◌<◌, ◌+◌, ◌/◌, ◌%◌}
use Prim.Native.Char.{code}
use Prim.Native.String.{String}
use mathlib.Core.Path.{◌≡◌, refl, ap}
use mathlib.Core.Logic.{◌↔◌}
use mathlib.Core.Bool.{Bool, true, false, ◌&&◌, ◌||◌}
use mathlib.Core.Option.{Option, none, some}
use mathlib.Core.List.{List, [], ◌∷◌, ◌++◌, map}
use native.Mathlib.Omega.{arith}
use didicafe.Base.Tests.{lt→ltb, Eq, eqb, ltb, leb, if◌then◌else◌}
use didicafe.Base.Lists.{length, All, get_elem?}

abbrev pub Str : Type 0
Str = List ℕ

-- A text literal.
abbrev pub lit : String → Str
lit String.[] = []
lit (String.◌∷◌ c s) = code c ∷ lit s

unfoldable pub list_beq : List ℕ → List ℕ → Bool
list_beq [] [] = true
list_beq [] (y ∷ ys) = false
list_beq (x ∷ xs) [] = false
list_beq (x ∷ xs) (y ∷ ys) = eqb x y && list_beq xs ys

pub list_beq_iff : (s t : List ℕ) → (list_beq s t ≡ true) ↔ (s ≡ t)
unfolding list_beq
list_beq_iff [] [] = ground arith
list_beq_iff [] (y ∷ ys) = ground arith
list_beq_iff (x ∷ xs) [] = ground arith
list_beq_iff (x ∷ xs) (y ∷ ys) = ground (arith, list_beq_iff xs ys)

instance abbrev pub str_eq : Eq Str
str_eq = record { equal = list_beq; equal_iff = list_beq_iff }

-- The UTF-8 encoding of a code point.
abbrev pub utf8 : ℕ → List ℕ
utf8 c =
    if ltb c 0x80
    then c ∷ []
    else if ltb c 0x800
    then (0xC0 + c / 64) ∷ (0x80 + c % 64) ∷ []
    else if ltb c 0x10000
    then (0xE0 + c / 4096) ∷ (0x80 + c / 64 % 64) ∷ (0x80 + c % 64) ∷ []
    else (0xF0 + c / 262144) ∷ (0x80 + c / 4096 % 64) ∷ (0x80 + c / 64 % 64) ∷ (0x80 + c % 64) ∷ []

-- `str::as_bytes`
abbrev pub as_bytes : Str → List ℕ
as_bytes [] = []
as_bytes (c ∷ s) = utf8 c ++ as_bytes s

-- `str::len`, in bytes
abbrev pub byte_len : Str → ℕ
byte_len s = length (as_bytes s)

abbrev pub to_ascii_lower : ℕ → ℕ
to_ascii_lower c = if leb b'A' c && leb c b'Z' then c + 32 else c

-- `str::to_lowercase` on ASCII text.
abbrev pub to_lowercase : Str → Str
to_lowercase = map to_ascii_lower

-- ASCII text is its own encoding.
abbrev pub IsAscii : List ℕ → Type 0
IsAscii = All (λ c. c < 128)

pub as_bytes_ascii : (s : Str) → IsAscii s → as_bytes s ≡ s
as_bytes_ascii [] a = refl
as_bytes_ascii (c ∷ s) a = rw (lt→ltb c 128 a.0) (ap (◌∷◌ c) (as_bytes_ascii s a.1))

-- Text whose encoding is ASCII is ASCII.
pub IsAscii-as_bytes : (s : Str) → IsAscii (as_bytes s) → IsAscii s
IsAscii-as_bytes [] a = tt
IsAscii-as_bytes (c ∷ s) a = ground (arith, IsAscii-as_bytes s)

-- `[charset[rng.random_range(0..charset.len())]; n]` as text, where `draws` are the values drawn; an
-- index out of range would panic in the source, and gives `none` here.
unfoldable pub pick_all : Str → (ℕ → ℕ) → ℕ → Option Str
pick_all charset draws zero = some []
pick_all charset draws (suc n) = elim (get_elem? charset (draws n)) [
  | none ↦ none
  | some c ↦ elim (pick_all charset draws n) [ none ↦ none | some rest ↦ some (c ∷ rest) ]
]

-- `char::is_whitespace`
abbrev pub is_whitespace : ℕ → Bool
is_whitespace c =
    (leb 0x09 c && leb c 0x0D)
    || eqb c 0x20
    || eqb c 0x85
    || eqb c 0xA0
    || eqb c 0x1680
    || (leb 0x2000 c && leb c 0x200A)
    || eqb c 0x2028
    || eqb c 0x2029
    || eqb c 0x202F
    || eqb c 0x205F
    || eqb c 0x3000

-- `str::split_whitespace`: `leading_word` is the part in front of the first whitespace, which may be
-- empty, with the words behind it.
abbrev pub put_word : Str → List Str → List Str
put_word [] words = words
put_word (c ∷ word) words = (c ∷ word) ∷ words

unfoldable pub leading_word : Str → Str × List Str
leading_word [] = ([], [])
leading_word (c ∷ s) =
    let (word, words) = leading_word s in
    if is_whitespace c then ([], put_word word words) else (c ∷ word, words)

abbrev pub split_whitespace : Str → List Str
split_whitespace s = let (word, words) = leading_word s in put_word word words

-- `str::lines`: a line ends at `\n`, and a `\r` in front of it is dropped.
abbrev pub to_first_line : ℕ → List Str → List Str
to_first_line c [] = (c ∷ []) ∷ []
to_first_line c (line ∷ rest) = (c ∷ line) ∷ rest

abbrev pub starts_line_end : Str → Bool
starts_line_end [] = false
starts_line_end (c ∷ s) = eqb c 0x0A

unfoldable pub lines : Str → List Str
lines [] = []
lines (c ∷ s) =
    let rest = lines s in
    if eqb c 0x0A
    then [] ∷ rest
    else if eqb c 0x0D && starts_line_end s
    then rest
    else to_first_line c rest

-- `str::contains` with a text.
abbrev pub starts_with : Str → Str → Bool
starts_with [] s = true
starts_with (p ∷ ps) [] = false
starts_with (p ∷ ps) (c ∷ s) = eqb p c && starts_with ps s

abbrev pub contains_text : Str → Str → Bool
contains_text [] needle = starts_with needle []
contains_text (c ∷ s) needle = starts_with needle (c ∷ s) || contains_text s needle

-- `str::strip_prefix`
unfoldable pub strip_prefix : Str → Str → Option Str
strip_prefix [] s = some s
strip_prefix (p ∷ ps) [] = none
strip_prefix (p ∷ ps) (c ∷ cs) = if eqb p c then strip_prefix ps cs else none

pub strip_prefix-append : (p s : Str) → strip_prefix p (p ++ s) ≡ some s
unfolding strip_prefix
strip_prefix-append [] s = refl
strip_prefix-append (c ∷ p) s = ground (arith, strip_prefix-append p s)

pub append-strip_prefix : (p s rest : Str) → strip_prefix p s ≡ some rest → s ≡ p ++ rest
unfolding strip_prefix
append-strip_prefix [] s rest e = ground arith
append-strip_prefix (q ∷ p) [] rest e = cc
append-strip_prefix (q ∷ p) (c ∷ s) rest e = ground (arith, append-strip_prefix p s rest)

-- `str::contains` with a character.
abbrev pub contains : Str → ℕ → Bool
contains [] c = false
contains (d ∷ s) c = eqb d c || contains s c

-- Every character is in the set.
abbrev pub AllIn : Str → Str → Type 0
AllIn charset = All (λ c. contains charset c ≡ true)

pub contains-get_elem? : (s : Str) (i : ℕ) (c : ℕ) → get_elem? s i ≡ some c → contains s c ≡ true
contains-get_elem? [] i c e = cc
contains-get_elem? (d ∷ s) zero c e = ground arith
contains-get_elem? (d ∷ s) (suc i) c e = ground (arith, contains-get_elem? s i c e)

pub IsAscii-contains : (s : Str) (c : ℕ) → IsAscii s → contains s c ≡ true → c < 128
IsAscii-contains [] c a e = cc
IsAscii-contains (d ∷ s) c a e = ground (arith, IsAscii-contains s c a.1)

pub IsAscii-AllIn : (charset s : Str) → IsAscii charset → AllIn charset s → IsAscii s
IsAscii-AllIn charset [] a h = tt
IsAscii-AllIn charset (c ∷ s) a h =
    (IsAscii-contains charset c a h.0, IsAscii-AllIn charset s a h.1)

pub get_elem?_in_range : (s : Str) (i : ℕ) → i < length s → (c : ℕ) × (get_elem? s i ≡ some c)
get_elem?_in_range [] i h = absurd (omega arith)
get_elem?_in_range (d ∷ s) zero h = (d, refl)
get_elem?_in_range (d ∷ s) (suc i) h = get_elem?_in_range s i (omega arith)

-- Draws in range give a text of the length asked for, over the character set.
pub pick_all_total :
    (charset : Str) (draws : ℕ → ℕ) (n : ℕ)
    → ((i : ℕ) → draws i < length charset)
    → (s : Str) × (pick_all charset draws n ≡ some s) × (length s ≡ n) × AllIn charset s
unfolding pick_all
pick_all_total charset draws zero h = ([], refl, refl, tt)
pick_all_total charset draws (suc n) h =
    let (c, found) = get_elem?_in_range charset (draws n) (h n) in
    let (s, picked, size, inside) = pick_all_total charset draws n h in
    (c ∷ s, ground arith, ap suc size, (contains-get_elem? charset (draws n) c found, inside))
