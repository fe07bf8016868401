-- ===== src/Tests/Formats.antt =====
-- Runs of src/net/mac.rs, src/net/arp.rs, src/services/token.rs and src/firewall/nftables.rs.
use didicafe.Base.{ℕ, ◌≡◌, ◌↔◌, List, [], ◌∷◌, ◌++◌, Str, lit, ok, arith, IsAscii}
use didicafe.Mac.{validate_mac, check_bytes, check_byte}
use didicafe.Mac.Grammar.{IsMac, validate_mac-IsMac}
use didicafe.TokenCode.{TokenConfig, validate_token_format}
use didicafe.TokenCode.Format.{IsCode, validate_token_format-IsCode}
use didicafe.Firewall.Nftables.{Nft, NftablesController}

validate_mac-IsMac_example :
    (validate_mac (lit "02:00:5e:10:00:ff") ≡ ok tt)
    ↔ ((pairs : List (ℕ × ℕ)) × IsMac (lit "02:00:5e:10:00:ff") pairs)
validate_mac-IsMac_example = validate_mac-IsMac (lit "02:00:5e:10:00:ff")

abbrev config : TokenConfig
config = record { prefix = lit "WIFI"; charset = lit "ABCD23"; length = 8 }

abbrev code : Str
code = lit "WIFI-ABCD-2323"

ascii : IsAscii config.charset
ascii = (omega arith, (omega arith, (omega arith, (omega arith, (omega arith, (omega arith, tt))))))

validate_token_format-IsCode_example :
    (validate_token_format config code ≡ ok tt) ↔ ((parts : Str × Str) × IsCode config code parts)
validate_token_format-IsCode_example = validate_token_format-IsCode config code ascii

-- A command runner that keeps what it was given, and always succeeds.
abbrev journal : Nft
journal = record { World = List Str; run = λ path cmd w. (ok tt, w ++ cmd ∷ []) }

abbrev controller : NftablesController
controller = record {
  nft_path = lit "/usr/sbin/nft";
  table_name = lit "didicafe";
  set_name = lit "authorized";
}

abbrev injected : Str
injected = lit "aa:bb:cc:dd:ee:0;"

not_mac : ((pairs : List (ℕ × ℕ)) × IsMac injected pairs) → ⊥
unfolding validate_mac check_bytes check_byte
not_mac p =
    let accepted : validate_mac injected ≡ ok tt = (validate_mac-IsMac injected).1 p in ground arith
