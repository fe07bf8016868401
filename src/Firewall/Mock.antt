-- ===== src/Firewall/Mock.antt =====
-- src/firewall/mock.rs: the firewall of development builds and tests, which records its calls.
use didicafe.Base.{ℕ, List, [], ◌∷◌, ◌++◌, Str, Result, ok}
use didicafe.Firewall.{Firewall}

pub data FirewallCall : Type 0 where
  authorize : Str → Str → ℕ → FirewallCall
  deauthorize : Str → Str → FirewallCall
  init : FirewallCall

-- `calls.push(…)`, then `Ok(())`
abbrev pub record_call :
    FirewallCall → List FirewallCall → Result Str (Unit {0}) × List FirewallCall
record_call call calls = (ok tt, calls ++ call ∷ [])

abbrev pub mock_firewall : Firewall
mock_firewall = record {
  State = List FirewallCall;
  authorize_client = λ mac ip timeout_secs. record_call (authorize mac ip timeout_secs);
  deauthorize_client = λ mac ip. record_call (deauthorize mac ip);
  init_ruleset = record_call init;
}
