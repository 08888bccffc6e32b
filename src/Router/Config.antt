-- ===== src/Router/Config.antt =====
-- dumbarp-routerd/src/config.rs. A `Url` is its text, an `Ipv4Addr` the number that `u32::from` gives.
pub mod Valid
use dumbarp.Common.{
  ℕ, Bool, String, Option, none, some, List, [], ◌∷◌, ◌==◌, nat_eq, string_eq, ltb, if◌then◌else◌,
  is_empty, contains, Dict,
}

pub record GatewayEntry : Type 0 where
  pub endpoint : String
  pub auth_token : String
  pub device_overrides : Dict String String

pub record DaemonEntry : Type 0 where
  pub name : String
  pub endpoint : String
  pub auth_token : String
  pub nexthop : ℕ
  pub device : String

pub record DscpConfig : Type 0 where
  pub ifaces : List String

pub record Config : Type 0 where
  pub refresh_interval_secs : ℕ
  pub stale_after_secs : ℕ
  pub source_based_routing : Bool
  pub daemons : List DaemonEntry
  pub gateway : Option GatewayEntry
  pub dscp : DscpConfig

pub data ConfigError : Type 0 where
  both_sources no_source no_gateway_token no_refresh stale_before_refresh no_ifaces : ConfigError
  no_name : ConfigError
  no_device no_daemon_token duplicate_name : String → ConfigError

-- the loop over the daemons, with the names seen
unfoldable pub check_daemons : List String → List DaemonEntry → Option ConfigError
check_daemons seen [] = none
check_daemons seen (d ∷ daemons) =
    let rest = check_daemons (d.name ∷ seen) daemons in
    if d.name == ""
    then some no_name
    else if d.device == ""
    then some (no_device d.name)
    else if d.auth_token == ""
    then some (no_daemon_token d.name)
    else if contains seen d.name
    then some (duplicate_name d.name)
    else rest

-- the checks from `refresh_interval_secs` on
unfoldable pub check_rest : Config → Option ConfigError
unfolding check_daemons
check_rest cfg =
    if cfg.refresh_interval_secs == 0
    then some no_refresh
    else if ltb cfg.stale_after_secs cfg.refresh_interval_secs
    then some stale_before_refresh
    else if is_empty cfg.dscp.ifaces
    then some no_ifaces
    else check_daemons [] cfg.daemons

unfoldable pub check_gateway : Option GatewayEntry → List DaemonEntry → Option ConfigError
check_gateway none [] = some no_source
check_gateway none (d ∷ ds) = none
check_gateway (some gw) (d ∷ ds) = some both_sources
check_gateway (some gw) [] = if gw.auth_token == "" then some no_gateway_token else none

-- `none`: the configuration is accepted
unfoldable pub validate : Config → Option ConfigError
unfolding check_gateway check_rest
validate cfg = elim (check_gateway cfg.gateway cfg.daemons) [
  | some error ↦ some error
  | none ↦ check_rest cfg
]
