-- ===== src/Router/Config/Valid.antt =====
-- What `validate` of dumbarp-routerd/src/config.rs accepts.
use dumbarp.Common.{
  ◌≤◌, ◌≡◌, ◌≢◌, ◌↔◌, refl, false, String, Option, none, some, List, [], ◌∷◌, nat_eq, string_eq,
  arith, contains, All, NoRepeat, All-always, images, contains-images,
}
use dumbarp.Router.Config.{
  GatewayEntry, DaemonEntry, Config, check_daemons, check_gateway, check_rest, validate,
}

pub record IsComplete (d : DaemonEntry) : Type 0 where
  pub name : d.name ≢ ""
  pub device : d.device ≢ ""
  pub auth_token : d.auth_token ≢ ""

abbrev pub names : List DaemonEntry → List String
names = images (λ (d : DaemonEntry). d.name)

abbrev pub HasSource : Option GatewayEntry → List DaemonEntry → Type 0
HasSource none daemons = daemons ≢ []
HasSource (some gw) daemons = (daemons ≡ []) × (gw.auth_token ≢ "")

pub record IsValid (cfg : Config) : Type 0 where
  pub source : HasSource cfg.gateway cfg.daemons
  pub refresh : 1 ≤ cfg.refresh_interval_secs
  pub stale : cfg.refresh_interval_secs ≤ cfg.stale_after_secs
  pub ifaces : cfg.dscp.ifaces ≢ []
  pub daemons : All IsComplete cfg.daemons
  pub once : NoRepeat (names cfg.daemons)

pub check_daemons_lem :
    (seen : List String) (daemons : List DaemonEntry)
    → (check_daemons seen daemons ≡ none) ↔ (
        All IsComplete daemons
        × NoRepeat (names daemons)
        × All (λ (d : DaemonEntry). contains seen d.name ≡ false) daemons)
unfolding check_daemons
check_daemons_lem seen [] = ground arith
check_daemons_lem seen (d ∷ daemons) = ground (
  arith,
  string_eq.equal_iff d.name "",
  string_eq.equal_iff d.device "",
  string_eq.equal_iff d.auth_token "",
  contains-images (λ (x : DaemonEntry). x.name) d.name seen daemons,
  check_daemons_lem (d.name ∷ seen) daemons,
)

check_gateway_lem :
    (gateway : Option GatewayEntry) (daemons : List DaemonEntry)
    → (check_gateway gateway daemons ≡ none) ↔ HasSource gateway daemons
unfolding check_gateway
check_gateway_lem none [] = ground arith
check_gateway_lem none (d ∷ ds) = ground arith
check_gateway_lem (some gw) [] = ground (arith, string_eq.equal_iff gw.auth_token "")
check_gateway_lem (some gw) (d ∷ ds) = ground arith

check_rest_lem :
    (cfg : Config)
    → (check_rest cfg ≡ none) ↔ (
        (1 ≤ cfg.refresh_interval_secs)
        × (cfg.refresh_interval_secs ≤ cfg.stale_after_secs)
        × (cfg.dscp.ifaces ≢ [])
        × All IsComplete cfg.daemons
        × NoRepeat (names cfg.daemons))
unfolding check_rest
check_rest_lem cfg = ground (
  arith,
  check_daemons_lem [] cfg.daemons,
  All-always (λ (d : DaemonEntry). contains {A = String} [] d.name ≡ false) (λ d. refl) cfg.daemons,
)

-- A configuration is accepted exactly if it has either a gateway with a token or daemons, a refresh
-- interval that is not 0 nor longer than `stale_after_secs`, an interface to mark on, and daemons
-- that are complete and of different names.
pub validate-IsValid : (cfg : Config) → (validate cfg ≡ none) ↔ IsValid cfg
unfolding validate
validate-IsValid cfg = (
  λ e. ground (arith, check_gateway_lem cfg.gateway cfg.daemons, check_rest_lem cfg),
  λ v. ground (arith, check_gateway_lem cfg.gateway cfg.daemons, check_rest_lem cfg),
)
