-- ===== src/Arp.antt =====
-- src/net/arp.rs: the lookup of a client's MAC in what the system says of its neighbours, in a release
-- build. The content of `/proc/net/arp` and the outputs of the two commands are parameters, and so is
-- `str::to_lowercase`.
pub mod Table
use didicafe.Base.{
  ℕ, ◌+◌, Bool, not, ◌&&◌, Option, none, some, List, [], ◌∷◌, ◌++◌, if◌then◌else◌, ◌==◌, Str, lit,
  str_eq, contains, get_elem?, drop, lines, split_whitespace, contains_text,
}

abbrev pub unset_mac : Str
unset_mac = lit "00:00:00:00:00:00"

-- What a command printed and whether it succeeded, if it could be run.
pub record Output : Type 0 where
  pub success : Bool
  pub stdout : Str

-- `iter().position(|&f| f == name)` and `get(idx + 1)`.
abbrev pub position : Str → List Str → Option ℕ
position name [] = none
position name (f ∷ fields) =
    if f == name
    then some 0
    else elim (position name fields) [ none ↦ none | some i ↦ some (i + 1) ]

abbrev pub field_after : Str → List Str → Option Str
field_after name fields = elim (position name fields) [
  | none ↦ none
  | some idx ↦ get_elem? fields (idx + 1)
]

-- A loop over lines that returns at the first that gives something.
abbrev pub first_some : (Str → Option Str) → List Str → Option Str
first_some f [] = none
first_some f (line ∷ rest) =
    let later = first_some f rest in elim (f line) [ none ↦ later | some mac ↦ some mac ]

abbrev pub usable : Str → Option Str
usable mac = if mac == unset_mac then none else some mac

module _ (to_lowercase : Str → Str) where
  -- `fields.len() >= 4 && fields[0] == ip`
  abbrev pub listed_mac : Str → List Str → Option Str
  listed_mac ip (f0 ∷ f1 ∷ f2 ∷ f3 ∷ fields) = if f0 == ip then usable (to_lowercase f3) else none
  listed_mac ip _ = none

  unfoldable pub lookup_proc_net_arp : Str → Option Str → Option Str
  lookup_proc_net_arp ip none = none
  lookup_proc_net_arp ip (some content) =
      first_some (λ line. listed_mac ip (split_whitespace line)) (drop 1 (lines content))

  abbrev pub neighbour_mac : List Str → Option Str
  neighbour_mac fields = elim (field_after (lit "lladdr") fields) [
    | none ↦ none
    | some mac ↦ some (to_lowercase mac)
  ]

  unfoldable pub lookup_ip_neigh : Option Output → Option Str
  lookup_ip_neigh none = none
  lookup_ip_neigh (some output) =
      if output.success
      then first_some (λ line. neighbour_mac (split_whitespace line)) (lines output.stdout)
      else none

  abbrev pub complete : Str → Option Str
  complete mac = if contains mac b':' && not (mac == unset_mac) then some mac else none

  abbrev pub arp_mac : Str → Str → Option Str
  arp_mac needle line =
      if contains_text line needle
      then elim (field_after (lit "at") (split_whitespace line)) [
        | none ↦ none
        | some mac ↦ complete (to_lowercase mac)
      ]
      else none

  unfoldable pub lookup_arp_command : Str → Option Output → Option Str
  lookup_arp_command ip none = none
  lookup_arp_command ip (some output) =
      if output.success
      then first_some (arp_mac (b'(' ∷ (ip ++ b')' ∷ []))) (lines output.stdout)
      else none

  -- The three sources in their order; the commands are given the address.
  unfoldable pub lookup_mac : Str → Option Str → (Str → Option Output) → Option Output → Option Str
  lookup_mac ip_str proc_net_arp ip_neigh arp = elim (lookup_proc_net_arp ip_str proc_net_arp) [
    | some mac ↦ some mac
    | none ↦ elim (lookup_ip_neigh (ip_neigh ip_str)) [
      | some mac ↦ some mac
      | none ↦ lookup_arp_command ip_str arp
    ]
  ]
