-- ===== src/Gateway/Serve.antt =====
-- `daemons_handler` of dumbarp-gateway/src/http.rs. The view is that of the cache, and the response
-- is the record that serde writes.
use dumbarp.Common.{
  ℕ, ◌≡◌, refl, Bool, false, inl, inr, String, none, some, List, [], ◌∷◌, ◌==◌, string_eq, nat_eq,
  arith, All, Option-cases, Dict, lookup,
}
use dumbarp.Routing.{RouteSpec}
use dumbarp.Api.{Leases, DaemonRoutes}
use dumbarp.Api.Responses.{
  DaemonEntryView, DaemonsResponse, ip_text, ip_texts, IsIp, parse_daemon, parse_each,
  parse_daemons, parse_ip-ip_text, parse_ips-ip_texts,
}
use dumbarp.Router.Config.{DaemonEntry}
use dumbarp.Router.Specs.{
  push_all, push_specs, mark_for, device_for, gateway_specs, build_gateway_specs, daemon_specs,
}

abbrev pub entry_view : DaemonEntry → Leases → DaemonEntryView
entry_view d leases = record {
  name = d.name;
  nexthop = ip_text d.nexthop;
  device = d.device;
  dumbarpd_id = leases.dumbarpd_id;
  ips = ip_texts leases.ips;
}

-- the `filter_map` over the daemons
unfoldable pub entry_views : Dict String Leases → List DaemonEntry → List DaemonEntryView
entry_views view [] = []
entry_views view (d ∷ daemons) = elim (lookup d.name view) [
  | none ↦ entry_views view daemons
  | some leases ↦ entry_view d leases ∷ entry_views view daemons
]

unfoldable pub daemons_handler : Dict String Leases → List DaemonEntry → DaemonsResponse
daemons_handler view daemons = record { daemons = entry_views view daemons }

abbrev pub routes_of : DaemonEntry → Leases → DaemonRoutes
routes_of d leases = record {
  name = d.name;
  nexthop = d.nexthop;
  device = d.device;
  dumbarpd_id = leases.dumbarpd_id;
  ips = leases.ips;
}

-- the routes of the daemons that are in the view
unfoldable pub served : Dict String Leases → List DaemonEntry → List DaemonRoutes
served view [] = []
served view (d ∷ daemons) = elim (lookup d.name view) [
  | none ↦ served view daemons
  | some leases ↦ routes_of d leases ∷ served view daemons
]

pub record IsServable (view : Dict String Leases) (d : DaemonEntry) : Type 0 where
  pub nexthop_ip : IsIp d.nexthop
  pub device_named : (d.device == "") ≡ false
  pub leased_ips : (leases : Leases) → lookup d.name view ≡ some leases → All IsIp leases.ips

parse_daemon-entry_view :
    (d : DaemonEntry) (leases : Leases)
    → IsIp d.nexthop
    → (d.device == "") ≡ false
    → All IsIp leases.ips
    → parse_daemon (entry_view d leases) ≡ some (routes_of d leases)
unfolding parse_daemon
parse_daemon-entry_view d leases nexthop device ips =
    rw (parse_ip-ip_text d.nexthop nexthop, device, parse_ips-ip_texts leases.ips ips)

parse_each-entry_views :
    (view : Dict String Leases) (daemons : List DaemonEntry)
    → All (IsServable view) daemons
    → parse_each (entry_views view daemons) ≡ some (served view daemons)
parse_each-entry_views view [] ok = unfold entry_views served in refl
parse_each-entry_views view (d ∷ daemons) ok = elim (Option-cases (lookup d.name view)) [
  | inl gone ↦
      let views : entry_views view (d ∷ daemons) ≡ entry_views view daemons =
        unfold entry_views in ground (arith, gone) in
      let routes : served view (d ∷ daemons) ≡ served view daemons =
        unfold served in ground (arith, gone) in
      rw (views, routes, parse_each-entry_views view daemons ok.1)
  | inr (leases, has) ↦
      let views : entry_views view (d ∷ daemons) ≡ entry_view d leases ∷ entry_views view daemons =
        unfold entry_views in ground (arith, has) in
      let routes : served view (d ∷ daemons) ≡ routes_of d leases ∷ served view daemons =
        unfold served in ground (arith, has) in
      rw (
        views,
        routes,
        parse_daemon-entry_view d leases ok.0.nexthop_ip ok.0.device_named
            (ok.0.leased_ips leases has),
        parse_each-entry_views view daemons ok.1,
      )
]

gateway_specs-served :
    (source_based_routing : Bool) (ids : Dict String ℕ) (view : Dict String Leases)
    (daemons : List DaemonEntry) (out : List RouteSpec)
    → gateway_specs source_based_routing ids [] (served view daemons) out
      ≡ daemon_specs source_based_routing ids view daemons out
gateway_specs-served direct ids view [] out = unfold gateway_specs daemon_specs served in refl
gateway_specs-served direct ids view (d ∷ daemons) out = elim (Option-cases (lookup d.name view)) [
  | inl gone ↦
      let turn : daemon_specs direct ids view (d ∷ daemons) out
          ≡ daemon_specs direct ids view daemons out =
        unfold daemon_specs in ground (arith, gone) in
      let left : served view (d ∷ daemons) ≡ served view daemons =
        unfold served in ground (arith, gone) in
      rw (left, turn, gateway_specs-served direct ids view daemons out)
  | inr (leases, has) ↦
      let left : served view (d ∷ daemons) ≡ routes_of d leases ∷ served view daemons =
        unfold served in ground (arith, has) in
      elim (Option-cases (mark_for direct ids d.name)) [
        | inl skipped ↦
            let turn : daemon_specs direct ids view (d ∷ daemons) out
                ≡ daemon_specs direct ids view daemons out =
              unfold daemon_specs in ground (arith, has, skipped) in
            let turn' : gateway_specs direct ids [] (routes_of d leases ∷ served view daemons) out
                ≡ gateway_specs direct ids [] (served view daemons) out =
              unfold gateway_specs in ground (arith, skipped) in
            rw (left, turn, turn', gateway_specs-served direct ids view daemons out)
        | inr (mark, found) ↦
            let out' = push_all d.nexthop d.device mark leases.ips out in
            let turn : daemon_specs direct ids view (d ∷ daemons) out
                ≡ daemon_specs direct ids view daemons out' =
              unfold daemon_specs push_specs in ground (arith, has, found) in
            let turn' : gateway_specs direct ids [] (routes_of d leases ∷ served view daemons) out
                ≡ gateway_specs direct ids [] (served view daemons) out' =
              unfold gateway_specs device_for in ground (arith, found) in
            rw (left, turn, turn', gateway_specs-served direct ids view daemons out')
      ]
]

-- What a gateway serves is read back by its client, if the addresses are 32-bit numbers and the
-- devices have names: there are routes for exactly the daemons in the gateway's view, and a
-- routerd that has no overrides asks for the same specs as one that has the view itself.
pub parse_daemons-daemons_handler :
    (source_based_routing : Bool) (ids : Dict String ℕ) (view : Dict String Leases)
    (daemons : List DaemonEntry)
    → All (IsServable view) daemons
    → (routes : List DaemonRoutes) × (parse_daemons (daemons_handler view daemons) ≡ some routes)
      × (routes ≡ served view daemons)
      × (build_gateway_specs source_based_routing ids routes []
          ≡ daemon_specs source_based_routing ids view daemons [])
parse_daemons-daemons_handler direct ids view daemons ok = (
  served view daemons,
  unfold parse_daemons daemons_handler in parse_each-entry_views view daemons ok,
  refl,
  unfold build_gateway_specs in gateway_specs-served direct ids view daemons [],
)
