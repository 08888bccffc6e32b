-- ===== src/Daemon.antt =====
-- dumbarp-daemon/src: the configuration and the state that its tasks share.
pub mod Attaching
pub mod Serve
pub mod Dhcp
pub mod Refreshers
pub mod Spawned
pub mod Turn
pub mod Loops
pub mod Answering
mod Test
use dumbarp.Common.{
  ℕ, Bool, not, String, Option, none, some, List, ◌==◌, nat_eq, string_eq, leb, if◌then◌else◌,
  is_empty, Dict, insert, remove,
}
use dumbarp.Wire.{dscp_id_max}
use dumbarp.Ebpf.{Quad}
use dumbarp.Engine.{Dumbarp}

pub record Config : Type 0 where
  pub listen : String
  pub auth_token : String
  pub refresh_interval_secs : ℕ
  pub ifaces : List String
  pub manage_routing : Bool
  pub neigh_refresh_interval_secs : ℕ
  pub dumbarpd_id : ℕ

pub data DaemonError : Type 0 where
  no_token no_ifaces no_refresh id_out_of_range : DaemonError

-- `Config::load`, once the file is read: `none` if it is accepted
unfoldable pub load : Config → Option DaemonError
load cfg =
    if cfg.auth_token == ""
    then some no_token
    else if is_empty cfg.ifaces
    then some no_ifaces
    else if cfg.refresh_interval_secs == 0
    then some no_refresh
    else if not (leb cfg.dumbarpd_id dscp_id_max)
    then some id_out_of_range
    else none

unfoldable pub dscp_id : Config → Option ℕ
dscp_id cfg = if not (cfg.dumbarpd_id == 0) then some cfg.dumbarpd_id else none

-- An address is its four octets.
pub record LeaseInfo : Type 0 where
  pub ip : Quad
  pub gateway : Quad

pub record AppState : Type 0 where
  pub engine : Dumbarp
  pub leases : Dict String LeaseInfo
