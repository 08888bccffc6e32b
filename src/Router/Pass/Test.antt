-- ===== src/Router/Pass/Test.antt =====
-- Runs of `reconcile_via_daemons` of dumbarp-routerd/src/reconcile.rs, and its theorems there.
use dumbarp.Common.{
  ℕ, ◌≤◌, ◌≡◌, refl, false, Option, none, some, List, [], ◌∷◌, Among, lookup, insert, remove,
}
use dumbarp.Routing.{RouteSpec}
use dumbarp.Routing.Simulator.{memory}
use dumbarp.Api.{Leases}
use dumbarp.Router.Config.{Config, DaemonEntry}
use dumbarp.Router.Simulator.{id_map, id_map-IsHashMap}
use dumbarp.Router.Pass.{RouterState, zip_names, daemon_ids}
use dumbarp.Router.Ids.{resolve_ids}
use dumbarp.Router.Specs.{daemon_specs}
use dumbarp.Api.Cache.{apply_round}
use dumbarp.Router.Pass.Daemons.{daemons_desired, after_daemons, reconcile_via_daemons-marks}

abbrev daemon : DaemonEntry
daemon = record {
  name = "a";
  endpoint = "http://a";
  auth_token = "t";
  nexthop = 500;
  device = "eth0";
}

abbrev config : Config
config = record {
  refresh_interval_secs = 30;
  stale_after_secs = 300;
  source_based_routing = false;
  daemons = daemon ∷ [];
  gateway = none;
  dscp = record { ifaces = "eth0" ∷ [] };
}

abbrev answers : List (Option Leases)
answers = some (record { ips = 1000 ∷ []; dumbarpd_id = some 7 }) ∷ []

abbrev router : RouterState memory id_map
router = record {
  cache = [];
  gateway_cache = [];
  datapath = record { entries = (5, 5) ∷ []; once = (refl, tt) };
  known_ids = [];
  kernel = record { rules = []; routes = [] };
}

abbrev in_turn : List ℕ → List ℕ
in_turn l = l

desired_run :
    daemons_desired memory id_map in_turn config 100 101 answers router
    ≡ record { src = 1000; gateway = 500; iface = "eth0"; fwmark = some 7 } ∷ []
unfolding resolve_ids apply_round zip_names daemon_ids daemon_specs insert lookup remove
desired_run = refl

reconcile_via_daemons-marks_example :
    ((spec : RouteSpec) (mark : ℕ)
      → Among spec (daemons_desired memory id_map in_turn config 100 101 answers router)
      → spec.fwmark ≡ some mark
      → id_map.get mark (after_daemons memory id_map in_turn config 100 101 answers router).datapath
        ≡ some mark)
    × ((d v : ℕ)
        → id_map.get d (after_daemons memory id_map in_turn config 100 101 answers router).datapath
          ≡ some v
        → (1 ≤ d) × (d ≤ 63) × (v ≡ d))
reconcile_via_daemons-marks_example =
    reconcile_via_daemons-marks memory id_map in_turn config 100 101 answers router id_map-IsHashMap
