-- ===== src/Router/Pass/Gateway.antt =====
-- A pass of dumbarp-routerd/src/reconcile.rs that learns the daemons from a gateway.
use dumbarp.Common.{
  ℕ, ◌≤◌, ◌≡◌, String, Option, none, some, List, nat_eq, string_eq, arith, All, All-Among, Among,
  contains, NoRepeat, length, Dict, lookup,
}
use dumbarp.Routing.{RouteSpec}
use dumbarp.Routing.Netlink.{Netlink}
use dumbarp.Routing.Views.{routes_at}
use dumbarp.Routing.Ideal.{Kernel, Reliable, Agrees}
use dumbarp.Routing.Wanted.{wanted, IsMarkable}
use dumbarp.Routing.Pass.{reconcile-Agrees}
use dumbarp.Api.{DaemonRoutes}
use dumbarp.Router.Config.{Config, GatewayEntry}
use dumbarp.Router.Specs.Sources.{build_gateway_specs-ids}
use dumbarp.Router.Datapath.{IdMap, IsHashMap}
use dumbarp.Router.Pass.Marks.{given, given-IsTag, sync_ids-given}
use dumbarp.Router.Pass.{
  RouterState, from_secs, gateway_ids, gateway_daemons, gateway_desired, reconcile_via_gateway,
}

module _ (nl : Netlink) (m : IdMap) (order : List ℕ → List ℕ) (cfg : Config) (now now' : ℕ)
    (gw : GatewayEntry) (fetched : Option (List DaemonRoutes)) (s : RouterState nl m) where
  abbrev ids : Dict String ℕ
  ids =
      given (from_secs cfg.stale_after_secs) now'
        (gateway_ids (gateway_daemons nl m order cfg now now' fetched s)) s.known_ids

  abbrev pub desired : List RouteSpec
  desired = gateway_desired nl m order cfg now now' gw fetched s

  abbrev pub after : RouterState nl m
  after = reconcile_via_gateway nl m order cfg now now' gw fetched s

  pub desired-given :
      (spec : RouteSpec) (mark : ℕ)
      → Among spec desired
      → spec.fwmark ≡ some mark
      → (name : String) × (lookup name ids ≡ some mark)
  unfolding gateway_desired
  desired-given spec mark among e =
      build_gateway_specs-ids cfg.source_based_routing ids
        (gateway_daemons nl m order cfg now now' fetched s) gw.device_overrides spec mark among e

  -- If the map of ids is a hash map of the kernel with room for 64 entries: after a pass, whatever it
  -- held before, every mark that a spec of the pass asks for is a key that goes to itself, and every
  -- key is a DSCP from 1 to 63 that goes to itself.
  pub reconcile_via_gateway-marks :
      IsHashMap m
      → ((spec : RouteSpec) (mark : ℕ)
          → Among spec desired
          → spec.fwmark ≡ some mark
          → m.get mark after.datapath ≡ some mark)
        × ((d v : ℕ) → m.get d after.datapath ≡ some v → (1 ≤ d) × (d ≤ 63) × (v ≡ d))
  reconcile_via_gateway-marks ok =
      let (goes, only) =
        sync_ids-given (from_secs cfg.stale_after_secs) now'
          (gateway_ids (gateway_daemons nl m order cfg now now' fetched s)) s.known_ids m s.datapath
          ok in
      unfold reconcile_via_gateway in
      (
        λ spec mark among e.
            let (name, found) = desired-given spec mark among e in goes name mark found,
        only,
      )

  desired-IsMarkable : All (λ (spec : RouteSpec). IsMarkable spec.fwmark) desired
  desired-IsMarkable =
      All-Among (λ (spec : RouteSpec). IsMarkable spec.fwmark) desired
        (λ spec among e.
          let (name, found) = desired-given spec 0 among e in
          let (lo, hi) =
            given-IsTag (from_secs cfg.stale_after_secs) now'
              (gateway_ids (gateway_daemons nl m order cfg now now' fetched s)) s.known_ids name 0
              found in
          omega arith)

  -- Over a kernel that does what it is asked and has at most one dumbarp route in each table: after a
  -- pass every table has exactly the rule and the route of the last resolvable spec for it.
  pub reconcile_via_gateway-Agrees :
      (k : Kernel nl)
      → Reliable nl k
      → ((l : List ℕ) → NoRepeat l → NoRepeat (order l))
      → ((l : List ℕ) (t : ℕ) → contains (order l) t ≡ contains l t)
      → ((t : ℕ) → length (routes_at t (k.routes s.kernel)) ≤ 1)
      → (t : ℕ) → Agrees nl k (wanted nl s.kernel t none desired) t after.kernel
  reconcile_via_gateway-Agrees k ok once same single =
      let pass =
        reconcile-Agrees nl k ok order desired s.kernel once same desired-IsMarkable single in
      unfold reconcile_via_gateway in pass.1
