-- ===== src/Web/Message.antt =====
-- src/web/mod.rs: a translated message with its arguments, and their JSON text. The arguments are in the
-- order of their names.
use didicafe.Base.{
  ℕ, ◌≡◌, refl, Bool, true, false, Option, none, some, List, [], ◌∷◌, ◌++◌, eqb, if◌then◌else◌, Str,
  arith,
}

pub record I18nMessage : Type 0 where
  pub key : Str
  pub args : List (Str × Str)

-- `str::replace` of a character by a text.
unfoldable pub replace : ℕ → Str → Str → Str
replace c by [] = []
replace c by (d ∷ s) = let rest = replace c by s in if eqb d c then by ++ rest else d ∷ rest

-- `v.replace('\\', "\\\\").replace('"', "\\\"")`
unfoldable pub escape : Str → Str
escape v = replace b'"' (b'\\' ∷ b'"' ∷ []) (replace b'\\' (b'\\' ∷ b'\\' ∷ []) v)

-- `format!("\"{}\":\"{}\"", k, escaped)`
abbrev pub pair_json : Str × Str → Str
pair_json (k, v) = b'"' ∷ (k ++ (b'"' ∷ b':' ∷ b'"' ∷ (escape v ++ b'"' ∷ [])))

-- `pairs.join(",")`
abbrev pub join_pairs : List (Str × Str) → Str
join_pairs [] = []
join_pairs (p ∷ []) = pair_json p
join_pairs (p ∷ q ∷ rest) = pair_json p ++ (b',' ∷ join_pairs (q ∷ rest))

unfoldable pub args_json : I18nMessage → Str
args_json m = elim m.args [ [] ↦ [] | p ∷ rest ↦ b'{' ∷ (join_pairs (p ∷ rest) ++ b'}' ∷ []) ]

abbrev prepend : ℕ → Option (Str × Str) → Option (Str × Str)
prepend c none = none
prepend c (some (s, rest)) = some (c ∷ s, rest)

-- How a JSON string is read up to its closing quotation mark, as far as these two escapes go; `escaped`
-- says that a backslash stands before.
abbrev pub read_string : Bool → Str → Option (Str × Str)
read_string escaped [] = none
read_string true (c ∷ s) = prepend c (read_string false s)
read_string false (c ∷ s) =
    if eqb c b'\\'
    then read_string true s
    else if eqb c b'"'
    then some ([], s)
    else prepend c (read_string false s)

-- No value can end its string early: what is read of an escaped value, whatever follows it, is the value.
pub read_string-escape :
    (v rest : Str) → read_string false (escape v ++ b'"' ∷ rest) ≡ some (v, rest)
unfolding escape replace
read_string-escape [] rest = refl
read_string-escape (c ∷ v) rest = ground (arith, read_string-escape v rest)
