-- ===== src/Firewall/Nftables/Safety.antt =====
-- src/firewall/nftables.rs: no command is run with a MAC that is not in the format.
use didicafe.Base.{ℕ, ◌≡◌, refl, inl, inr, ◌⊎◌, List, ◌++◌, Str, lit, Result, ok, err}
use didicafe.Mac.{validate_mac}
use didicafe.Mac.Grammar.{IsMac, validate_mac-IsMac}
use didicafe.Firewall.Nftables.{Nft, NftablesController, authorize_client, deauthorize_client}

Result-cases {ℓ} :
    {E A : Type ℓ} (r : Result E A) → ((a : A) × (r ≡ ok a)) ⊎ ((e : E) × (r ≡ err e))
Result-cases (ok a) = inl (a, refl)
Result-cases (err e) = inr (e, refl)

module _ (nft : Nft) (c : NftablesController) where
  -- A MAC that is not six pairs of lowercase hexadecimal digits, or is the null or the broadcast
  -- address, is refused by both calls, and neither runs the command.
  pub invalid_mac_refused :
      (mac ip : Str) (timeout_secs : ℕ) (w : nft.World)
      → (((pairs : List (ℕ × ℕ)) × IsMac mac pairs) → ⊥)
      → (authorize_client nft c mac ip timeout_secs w
          ≡ (err (lit "refusing to authorize invalid MAC: " ++ mac), w))
        × (deauthorize_client nft c mac ip w
            ≡ (err (lit "refusing to deauthorize invalid MAC: " ++ mac), w))
  unfolding authorize_client deauthorize_client
  invalid_mac_refused mac ip timeout_secs w bad = elim (Result-cases (validate_mac mac)) [
    | inl (u, good) ↦ absurd (bad ((validate_mac-IsMac mac).0 good))
    | inr (e, refused) ↦ (rw (refused, authorize_client), rw (refused, deauthorize_client))
  ]
