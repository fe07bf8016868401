-- ===== src/Firewall/Nftables.antt =====
-- src/firewall/nftables.rs: the controller of the `nft` command. Running the command is a parameter:
-- a state and a step that answers, or fails with a message.
pub mod Safety
use didicafe.Base.{
  ℕ, zero, suc, ◌+◌, ◌/◌, ◌%◌, Bool, true, false, not, none, some, [], ◌∷◌, ◌++◌, ltb,
  if◌then◌else◌, Str, lit, Result, ok, err, to_lowercase, strip_prefix, ◌||◌,
}
use didicafe.Mac.{validate_mac}
use didicafe.Firewall.{Firewall}

pub record NftablesController : Type 0 where
  pub nft_path : Str
  pub table_name : Str
  pub set_name : Str

-- What executes `nft_path` with one argument.
pub record Nft : Type 1 where
  pub World : Type 0
  pub run : Str → Str → World → Result Str (Unit {0}) × World

-- `{}` of a number.
pub decimal_fuel : ℕ → ℕ → Str
decimal_fuel zero n = []
decimal_fuel (suc fuel) n =
    let rest = decimal_fuel fuel (n / 10) in
    if ltb n 10 then (b'0' + n) ∷ [] else rest ++ (b'0' + n % 10) ∷ []

unfoldable pub decimal : ℕ → Str
unfolding decimal_fuel
decimal n = decimal_fuel (suc n) n

-- `format!("{} . {} timeout {}s", …)` within `add element inet {} {} {{ {} }}`
abbrev pub add_element : NftablesController → Str → Str → ℕ → Str
add_element c mac ip timeout_secs =
    lit "add element inet "
    ++ (c.table_name
        ++ (lit " "
            ++ (c.set_name
                ++ (lit " { "
                    ++ (mac
                        ++ (lit " . "
                            ++ (ip
                                ++ (lit " timeout " ++ (decimal timeout_secs ++ lit "s }")))))))))

abbrev pub delete_element : NftablesController → Str → Str → Str
delete_element c mac ip =
    lit "delete element inet "
    ++ (c.table_name
        ++ (lit " " ++ (c.set_name ++ (lit " { " ++ (mac ++ (lit " . " ++ (ip ++ lit " }")))))))

abbrev pub add_table : NftablesController → Str
add_table c = lit "add table inet " ++ c.table_name

abbrev pub add_set : NftablesController → Str
add_set c =
    lit "add set inet "
    ++ (c.table_name
        ++ (lit " " ++ (c.set_name ++ lit " { type ether_addr . ipv4_addr; flags timeout; }")))

-- `str::contains`
unfoldable pub contains_text : Str → Str → Bool
contains_text s [] = elim (strip_prefix s []) [ none ↦ false | some rest ↦ true ]
contains_text s (c ∷ text) =
    (elim (strip_prefix s (c ∷ text)) [ none ↦ false | some rest ↦ true ]) || contains_text s text

module _ (nft : Nft) (c : NftablesController) where
  open nft use {World, run}

  abbrev pub run_nft : Str → World → Result Str (Unit {0}) × World
  run_nft cmd = run c.nft_path cmd

  -- The message of an error that was given a context is the context.
  abbrev pub with_context : Str → Result Str (Unit {0}) × World → Result Str (Unit {0}) × World
  with_context context (ok u, w) = (ok u, w)
  with_context context (err e, w) = (err context, w)

  unfoldable pub authorize_client : Str → Str → ℕ → World → Result Str (Unit {0}) × World
  authorize_client mac ip timeout_secs w = elim (validate_mac mac) [
    | err e ↦ (err (lit "refusing to authorize invalid MAC: " ++ mac), w)
    | ok _ ↦
        with_context (lit "failed to authorize client " ++ (mac ++ (b'/' ∷ ip)))
          (run_nft (add_element c mac ip timeout_secs) w)
  ]

  -- A command that fails is not an error here: the element may be gone already.
  unfoldable pub deauthorize_client : Str → Str → World → Result Str (Unit {0}) × World
  deauthorize_client mac ip w = elim (validate_mac mac) [
    | err e ↦ (err (lit "refusing to deauthorize invalid MAC: " ++ mac), w)
    | ok _ ↦ (ok tt, (run_nft (delete_element c mac ip) w).1)
  ]

  -- An "already exists" error is no error.
  abbrev pub tolerate : Result Str (Unit {0}) → Result Str (Unit {0})
  tolerate (ok u) = ok u
  tolerate (err e) = if contains_text (lit "exist") (to_lowercase e) then ok tt else err e

  unfoldable pub init_ruleset : World → Result Str (Unit {0}) × World
  init_ruleset w =
      let (table, w1) = run_nft (add_table c) w in
      elim (tolerate table) [
        | err e ↦ (err e, w1)
        | ok _ ↦ let (set, w2) = run_nft (add_set c) w1 in (tolerate set, w2)
      ]

  abbrev pub nftables : Firewall
  nftables = record {
    State = World;
    authorize_client = authorize_client;
    deauthorize_client = deauthorize_client;
    init_ruleset = init_ruleset;
  }
