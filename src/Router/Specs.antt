-- ===== src/Router/Specs.antt =====
-- The specs that a pass of dumbarp-routerd/src/reconcile.rs asks for. The set of sources seen, which
-- serves a warning only, is left out.
pub mod Sources
use mathlib.Core.Option
use dumbarp.Common.{
  ℕ, Bool, true, false, String, Option, none, some, List, [], ◌∷◌, ◌++◌, ◌==◌, string_eq, Dict,
  lookup,
}
use dumbarp.Routing.{RouteSpec}
use dumbarp.Routing.Messages.{unwrap_or}
use dumbarp.Api.{DaemonRoutes, Leases}
use dumbarp.Router.Config.{DaemonEntry}

-- the loop over the addresses of one daemon
unfoldable pub push_all : ℕ → String → Option ℕ → List ℕ → List RouteSpec → List RouteSpec
push_all nexthop device fwmark [] out = out
push_all nexthop device fwmark (ip ∷ ips) out =
    push_all nexthop device fwmark ips
      (out ++ record { src = ip; gateway = nexthop; iface = device; fwmark = fwmark } ∷ [])

unfoldable pub push_specs : DaemonEntry → List ℕ → Option ℕ → List RouteSpec → List RouteSpec
unfolding push_all
push_specs daemon ips fwmark out = push_all daemon.nexthop daemon.device fwmark ips out

-- the mark of a daemon's rules, or `none` if the daemon is skipped for want of an id
unfoldable pub mark_for : Bool → Dict String ℕ → String → Option (Option ℕ)
unfolding lookup
mark_for true ids name = some none
mark_for false ids name = Option.map some (lookup name ids)

unfoldable pub device_for : Dict String String → DaemonRoutes → String
unfolding lookup
device_for device_overrides d = unwrap_or (lookup d.name device_overrides) d.device

module _ (source_based_routing : Bool) (ids : Dict String ℕ) where
  -- the loop of `build_gateway_specs`
  unfoldable pub gateway_specs :
      Dict String String → List DaemonRoutes → List RouteSpec → List RouteSpec
  unfolding mark_for device_for push_all
  gateway_specs device_overrides [] desired = desired
  gateway_specs device_overrides (d ∷ daemons) desired =
      elim (mark_for source_based_routing ids d.name) [
        | none ↦ gateway_specs device_overrides daemons desired
        | some fwmark ↦
            gateway_specs device_overrides daemons
              (push_all d.nexthop (device_for device_overrides d) fwmark d.ips desired)
      ]

  unfoldable pub build_gateway_specs : List DaemonRoutes → Dict String String → List RouteSpec
  unfolding gateway_specs
  build_gateway_specs daemons device_overrides = gateway_specs device_overrides daemons []

  -- the loop of `reconcile_via_daemons`
  unfoldable pub daemon_specs :
      Dict String Leases → List DaemonEntry → List RouteSpec → List RouteSpec
  unfolding mark_for push_specs
  daemon_specs view [] desired = desired
  daemon_specs view (daemon ∷ daemons) desired = elim (lookup daemon.name view) [
    | none ↦ daemon_specs view daemons desired
    | some leases ↦ elim (mark_for source_based_routing ids daemon.name) [
      | none ↦ daemon_specs view daemons desired
      | some fwmark ↦ daemon_specs view daemons (push_specs daemon leases.ips fwmark desired)
    ]
  ]
