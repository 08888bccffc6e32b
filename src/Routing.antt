-- ===== src/Routing.antt =====
-- dumbarp-routing/src/lib.rs: policy rules and routes, one table for each source address. This file
-- has the data; the operations are in the children, and so are the proofs.
pub mod TableId
pub mod Messages
pub mod Netlink
pub mod Reconcile
pub mod Views
pub mod Kernel
pub mod Ideal
pub mod Wanted
pub mod Converge
pub mod Fresh
pub mod Pass
pub mod Stable
pub mod Safe
pub mod Tidy
pub mod Simulator
mod Test
use dumbarp.Common.{
  ℕ, ◌≡◌, ◌↔◌, refl, Bool, true, ◌&&◌, String, Option, none, some, arith, Eq, ◌==◌, nat_eq,
  option_eq, option_beq_iff,
}
use mathlib.Core.Option

abbrev pub dumbarp_proto_raw : ℕ
dumbarp_proto_raw = 0x9A

abbrev pub dumbarp_priority : ℕ
dumbarp_priority = 9876

abbrev pub fwmask_exact : ℕ
fwmask_exact = 0xFFFF_FFFF

-- An `Ipv4Addr` is the number that `u32::from` gives.
pub record RouteSpec : Type 0 where
  pub src : ℕ
  pub gateway : ℕ
  pub iface : String
  pub fwmark : Option ℕ

pub record ResolvedSpec : Type 0 where
  pub src : ℕ
  pub gateway : ℕ
  pub ifindex : ℕ
  pub fwmark : Option ℕ

pub record CurrentRule : Type 0 where
  pub src : ℕ
  pub fwmark : Option ℕ
  pub fwmask : Option ℕ

pub record CurrentRoute : Type 0 where
  pub gateway : ℕ
  pub oif : ℕ
  pub onlink : Bool

pub record ParsedRoute : Type 0 where
  pub table : ℕ
  pub gateway : ℕ
  pub oif : ℕ
  pub onlink : Bool

unfoldable pub into_value : ParsedRoute → CurrentRoute
into_value p = record { gateway = p.gateway; oif = p.oif; onlink = p.onlink }

unfoldable pub expected_fwmask : Option ℕ → Option ℕ
expected_fwmask fwmark = Option.map (λ _. fwmask_exact) fwmark

-- `CurrentRule::matches`
unfoldable pub rule_matches : CurrentRule → ResolvedSpec → Bool
unfolding expected_fwmask
rule_matches r want =
    r.src == want.src && r.fwmark == want.fwmark && r.fwmask == expected_fwmask want.fwmark
