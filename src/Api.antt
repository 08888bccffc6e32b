-- ===== src/Api.antt =====
-- dumbarp-api/src: what the programs tell each other, and the cache of what they were told.
pub mod Cache
pub mod Responses
mod Test
use dumbarp.Common.{ℕ, String, Option, List}

-- An `Ipv4Addr` is the number that `u32::from` gives.
pub record Leases : Type 0 where
  pub ips : List ℕ
  pub dumbarpd_id : Option ℕ

pub record DaemonRoutes : Type 0 where
  pub name : String
  pub nexthop : ℕ
  pub device : String
  pub dumbarpd_id : Option ℕ
  pub ips : List ℕ
