-- ===== src/Portal/Price.antt =====
-- src/web/portal.rs: the prices on the page of the plans.
use didicafe.Base.{
  ℕ, ◌+◌, ◌-◌, ◌%◌, ◌<◌, ◌≡◌, ◌≢◌, refl, ap, sym, ◌∙◌, Bool, true, not, ◌&&◌, ◌||◌, [], ◌∷◌, ◌++◌,
  ltb, leb, eqb, if◌then◌else◌, Str, length, all, is_empty, arith, length-append,
}

-- The narrow no-break space.
abbrev pub separator : ℕ
separator = 0x202F

abbrev pub is_ascii_digit : ℕ → Bool
is_ascii_digit c = leb b'0' c && leb c b'9'

-- The `for` loop over the digits from the index `i` on; `len` is the number of all digits.
unfoldable pub group_digits : ℕ → ℕ → Str → Str
group_digits len i [] = []
group_digits len i (ch ∷ digits) =
    let rest = group_digits len (i + 1) digits in
    if ltb 0 i && eqb ((len - i) % 3) 0 then separator ∷ ch ∷ rest else ch ∷ rest

-- The sign and what follows it.
abbrev pub split_sign : Str → Str × Str
split_sign [] = ([], [])
split_sign (c ∷ s) = if eqb c b'-' then (b'-' ∷ [], s) else ([], c ∷ s)

unfoldable pub format_ariary : Str → Str
format_ariary s =
    let (sign, digits) = split_sign s in
    if is_empty digits || not (all is_ascii_digit digits)
    then s
    else sign ++ group_digits (length digits) 0 digits

-- The last three digits are a group of their own.
grouped-append :
    (len i : ℕ) (digits : Str) (a b c : ℕ)
    → 0 < len
    → len ≡ i + length digits
    → group_digits (len + 3) i (digits ++ a ∷ b ∷ c ∷ [])
      ≡ group_digits len i digits ++ separator ∷ a ∷ b ∷ c ∷ []
unfolding group_digits
grouped-append len i [] a b c h e = ground arith
grouped-append len i (d ∷ digits) a b c h e =
    ground (arith, grouped-append len (i + 1) digits a b c)

all-append : (p : ℕ → Bool) (xs ys : Str) → all p (xs ++ ys) ≡ (all p xs && all p ys)
all-append p [] ys = refl
all-append p (x ∷ xs) ys = ground (arith, all-append p xs ys)

-- Text of digits starts with no sign.
unsigned :
    (s : Str) → s ≢ [] → all is_ascii_digit s ≡ true → format_ariary s ≡ group_digits (length s) 0 s
unfolding format_ariary
unsigned [] h d = absurd (h refl)
unsigned (c ∷ s) h d = ground arith

length-split :
    (len : ℕ) (xs : Str) → length xs ≡ len → group_digits (length xs) 0 xs ≡ group_digits len 0 xs
length-split len xs e = ap (λ n. group_digits n 0 xs) e

-- A minus sign stays in front.
signed :
    (digits : Str)
    → digits ≢ []
    → all is_ascii_digit digits ≡ true
    → format_ariary (b'-' ∷ digits) ≡ b'-' ∷ format_ariary digits
unfolding format_ariary
signed [] h d = absurd (h refl)
signed (c ∷ digits) h d = ground arith

grouped :
    (digits : Str) (a b c : ℕ)
    → digits ≢ []
    → all is_ascii_digit digits ≡ true
    → all is_ascii_digit (a ∷ b ∷ c ∷ []) ≡ true
    → format_ariary (digits ++ a ∷ b ∷ c ∷ []) ≡ format_ariary digits ++ separator ∷ a ∷ b ∷ c ∷ []
grouped [] a b c h decimal last = absurd (h refl)
grouped (d ∷ digits) a b c h decimal last =
    let all_digits = d ∷ digits in
    let longer = all_digits ++ a ∷ b ∷ c ∷ [] in
    unsigned longer (λ e. cc)
      (rw (all-append is_ascii_digit all_digits (a ∷ b ∷ c ∷ [])) (rw (decimal, last) refl))
    ∙ length-split (length all_digits + 3) longer (length-append all_digits (a ∷ b ∷ c ∷ []))
    ∙ grouped-append (length all_digits) 0 all_digits a b c (omega arith) (omega arith)
    ∙ ap (λ front. front ++ separator ∷ a ∷ b ∷ c ∷ []) (sym (unsigned all_digits h decimal))

-- A price is written in groups of three digits from the right: the last three digits of a longer one
-- stand behind a separator and the rest is written as a price of its own; one of at most three digits
-- is left as it is; and a minus sign stays in front of what follows it.
pub format_ariary_groups :
    (digits : Str) (a b c : ℕ)
    → digits ≢ []
    → all is_ascii_digit digits ≡ true
    → all is_ascii_digit (a ∷ b ∷ c ∷ []) ≡ true
    → (format_ariary (digits ++ a ∷ b ∷ c ∷ [])
        ≡ format_ariary digits ++ separator ∷ a ∷ b ∷ c ∷ [])
      × (format_ariary (a ∷ b ∷ c ∷ []) ≡ a ∷ b ∷ c ∷ [])
      × (format_ariary (b ∷ c ∷ []) ≡ b ∷ c ∷ [])
      × (format_ariary (c ∷ []) ≡ c ∷ [])
      × (format_ariary (b'-' ∷ digits) ≡ b'-' ∷ format_ariary digits)
unfolding group_digits
format_ariary_groups digits a b c h decimal last = (
  grouped digits a b c h decimal last,
  unsigned (a ∷ b ∷ c ∷ []) (λ e. cc) last ∙ refl,
  unsigned (b ∷ c ∷ []) (λ e. cc) (ground arith) ∙ refl,
  unsigned (c ∷ []) (λ e. cc) (ground arith) ∙ refl,
  signed digits h decimal,
)
