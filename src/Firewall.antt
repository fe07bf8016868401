-- ===== src/Firewall.antt =====
-- src/firewall: the interface of the firewall, its recording mock, and the controller that runs the
-- `nft` command, which is a parameter.
pub mod Mock
pub mod Nftables
use didicafe.Base.{ℕ, Str, Result}

-- The trait `Firewall`. A call returns beside the new state also when it fails.
pub record Firewall : Type 1 where
  pub State : Type 0
  -- the MAC, the IP, and the timeout in seconds
  pub authorize_client : Str → Str → ℕ → State → Result Str (Unit {0}) × State
  pub deauthorize_client : Str → Str → State → Result Str (Unit {0}) × State
  pub init_ruleset : State → Result Str (Unit {0}) × State
