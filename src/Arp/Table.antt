-- ===== src/Arp/Table.antt =====
-- src/net/arp.rs: reading the kernel's table. The table is written here as the kernel prints it, with any
-- numbers of blanks between the fields, and the reader is compared with a search over its entries.
use didicafe.Base.{
  ℕ, zero, suc, ◌≡◌, ◌≢◌, refl, ap, ◌∙◌, false, Option, none, some, List, [], ◌∷◌, ◌++◌, eqb,
  if◌then◌else◌, ◌==◌, Str, str_eq, All, map, is_whitespace, put_word, leading_word,
  split_whitespace, to_first_line, lines, arith,
}
use didicafe.Arp.{usable, first_some, listed_mac, lookup_proc_net_arp}

-- A field: a text that is not empty, with no whitespace.
abbrev pub IsField : Str → Type 0
IsField w = (w ≢ []) × All (λ c. is_whitespace c ≡ false) w

abbrev pub blanks : ℕ → Str
blanks zero = []
blanks (suc n) = b' ' ∷ blanks n

-- Fields, each with one blank and as many more as it says in front of it.
abbrev pub print_fields : List (ℕ × Str) → Str
print_fields [] = []
print_fields ((n, w) ∷ rest) = blanks (suc n) ++ (w ++ print_fields rest)

-- An entry: its four fields that matter, the blanks between them, and the mask and the device.
pub record Entry : Type 0 where
  pub ip : Str
  pub hw_type : ℕ × Str
  pub flags : ℕ × Str
  pub mac : ℕ × Str
  pub others : List (ℕ × Str)

abbrev pub rest_of : Entry → List (ℕ × Str)
rest_of e = e.hw_type ∷ e.flags ∷ e.mac ∷ e.others

abbrev pub IsEntry : Entry → Type 0
IsEntry e = IsField e.ip × All (λ f. IsField f.1) (rest_of e)

abbrev pub print_entries : List Entry → Str
print_entries [] = []
print_entries (e ∷ entries) = (e.ip ++ print_fields (rest_of e)) ++ 0x0A ∷ print_entries entries

-- The file: the line of the headings, and a line for each entry.
abbrev pub print_table : Str → List Entry → Str
print_table headings entries = headings ++ 0x0A ∷ print_entries entries

abbrev pub IsLine : Str → Type 0
IsLine = All (λ c. (eqb c 0x0A ≡ false) × (eqb c 0x0D ≡ false))

-- The first entry of the address whose hardware address is set.
abbrev pub first_entry : (Str → Str) → Str → List Entry → Option Str
first_entry to_lowercase ip [] = none
first_entry to_lowercase ip (e ∷ entries) =
    elim (if e.ip == ip then usable (to_lowercase e.mac.1) else none) [
      | none ↦ first_entry to_lowercase ip entries
      | some mac ↦ some mac
    ]

leading_word-append :
    (w s : Str)
    → All (λ c. is_whitespace c ≡ false) w
    → leading_word (w ++ s) ≡ (w ++ (leading_word s).0, (leading_word s).1)
unfolding leading_word
leading_word-append [] s h = refl
leading_word-append (c ∷ w) s h = rw (leading_word-append w s h.1) (rw h.0)

split-blanks : (n : ℕ) (s : Str) → split_whitespace (blanks n ++ s) ≡ split_whitespace s
unfolding leading_word
split-blanks zero s = refl
split-blanks (suc n) s = split-blanks n s

put_field : (w : Str) (words : List Str) → w ≢ [] → put_word w words ≡ w ∷ words
put_field [] words h = absurd (h refl)
put_field (c ∷ w) words h = refl

append-nil : (s : Str) → s ++ [] ≡ s
append-nil [] = refl
append-nil (c ∷ s) = ap (◌∷◌ c) (append-nil s)

-- A field in front of text that starts no field.
split-field :
    (w s : Str)
    → IsField w
    → (leading_word s).0 ≡ []
    → split_whitespace (w ++ s) ≡ w ∷ (leading_word s).1
split-field w s h e =
    rw (leading_word-append w s h.1) (rw e (rw (append-nil w) (put_field w (leading_word s).1 h.0)))

split-print :
    (w : Str) (rest : List (ℕ × Str))
    → IsField w
    → All (λ f. IsField f.1) rest
    → split_whitespace (w ++ print_fields rest) ≡ w ∷ map (λ f. f.1) rest
unfolding leading_word
split-print w [] h hs = split-field w [] h refl
split-print w ((n, v) ∷ rest) h hs =
    split-field w (print_fields ((n, v) ∷ rest)) h refl
    ∙ ap (◌∷◌ w) (split-blanks n (v ++ print_fields rest) ∙ split-print v rest hs.0 hs.1)

lines-line : (l s : Str) → IsLine l → lines (l ++ 0x0A ∷ s) ≡ l ∷ lines s
unfolding lines
lines-line [] s h = refl
lines-line (c ∷ l) s h = rw (h.0.0, h.0.1) (ap (to_first_line c) (lines-line l s h.1))

All-append : (p : ℕ → Type 0) (xs ys : Str) → All p xs → All p ys → All p (xs ++ ys)
All-append p [] ys hx hy = hy
All-append p (x ∷ xs) ys hx hy = (hx.0, All-append p xs ys hx.1 hy)

IsLine-field : (w : Str) → All (λ c. is_whitespace c ≡ false) w → IsLine w
IsLine-field [] h = tt
IsLine-field (c ∷ w) h = ((ground arith, ground arith), IsLine-field w h.1)

IsLine-blanks : (n : ℕ) → IsLine (blanks n)
IsLine-blanks zero = tt
IsLine-blanks (suc n) = ((refl, refl), IsLine-blanks n)

IsLine-print : (rest : List (ℕ × Str)) → All (λ f. IsField f.1) rest → IsLine (print_fields rest)
IsLine-print [] h = tt
IsLine-print ((n, w) ∷ rest) h =
    All-append _ (blanks (suc n)) (w ++ print_fields rest) (IsLine-blanks (suc n))
      (All-append _ w (print_fields rest) (IsLine-field w h.0.1) (IsLine-print rest h.1))

abbrev or_else : Option Str → Option Str → Option Str
or_else o later = elim o [ none ↦ later | some mac ↦ some mac ]

module _ (to_lowercase : Str → Str) (ip : Str) where
  abbrev listed_line : Str → Option Str
  listed_line line = listed_mac to_lowercase ip (split_whitespace line)

  first-entry :
      (entries : List Entry)
      → All IsEntry entries
      → first_some listed_line (lines (print_entries entries)) ≡ first_entry to_lowercase ip entries
  unfolding lines
  first-entry [] h = refl
  first-entry (e ∷ entries) h =
      let text = e.ip ++ print_fields (rest_of e) in
      let later = first_some listed_line (lines (print_entries entries)) in
      ap (first_some listed_line) (
        lines-line text (print_entries entries) (
          All-append _ e.ip (print_fields (rest_of e)) (IsLine-field e.ip h.0.0.1)
            (IsLine-print (rest_of e) h.0.1)))
      ∙ ap (λ fields. or_else (listed_mac to_lowercase ip fields) later)
          (split-print e.ip (rest_of e) h.0.0 h.0.1)
      ∙ ap (or_else (if e.ip == ip then usable (to_lowercase e.mac.1) else none))
          (first-entry entries h.1)

  -- Of a table as the kernel prints it, with any blanks between the fields and any headings, the lookup
  -- answers the hardware address, in lower case, of the first entry of the address that is not unset,
  -- and nothing where there is none.
  pub lookup_proc_net_arp-print_table :
      (headings : Str) (entries : List Entry)
      → IsLine headings
      → All IsEntry entries
      → lookup_proc_net_arp to_lowercase ip (some (print_table headings entries))
        ≡ first_entry to_lowercase ip entries
  unfolding lookup_proc_net_arp
  lookup_proc_net_arp-print_table headings entries h hs =
      rw (lines-line headings (print_entries entries) h) (first-entry entries hs)
