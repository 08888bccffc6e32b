-- ===== src/Router/Pass.antt =====
-- A pass of dumbarp-routerd/src/reconcile.rs: `reconcile_once`, `reconcile_via_gateway`,
-- `reconcile_via_daemons` and `sync_datapath`. What the fetches gave and the instants at which the
-- clock is read are inputs; the counters, which are only logged, are left out. A failure of the
-- datapath or of the routes is logged, and the pass goes on.
pub mod Marks
pub mod Gateway
pub mod Daemons
mod Test
use dumbarp.Common.{
  ℕ, ◌*◌, Bool, true, false, String, Option, none, some, List, [], ◌∷◌, ◌==◌, string_eq, Dict,
  lookup, values,
}
use dumbarp.Routing.{RouteSpec}
use dumbarp.Routing.Messages.{unwrap_or}
use dumbarp.Routing.Netlink.{Netlink}
use dumbarp.Routing.Reconcile.{reconcile}
use dumbarp.Api.{DaemonRoutes, Leases}
use dumbarp.Api.Cache.{Cached, apply_round}
use dumbarp.Router.Config.{Config, GatewayEntry, DaemonEntry}
use dumbarp.Router.Ids.{RememberedId, resolve_ids}
use dumbarp.Router.Specs.{build_gateway_specs, daemon_specs}
use dumbarp.Router.Datapath.{IdMap, sync_ids}

abbrev pub gateway_cache_key : String
gateway_cache_key = "gateway"

-- `Duration::from_secs`
abbrev pub from_secs : ℕ → ℕ
from_secs secs = secs * 1000000000

-- the names of the daemons with the ids that they advertise
unfoldable pub gateway_ids : List DaemonRoutes → List (String × Option ℕ)
gateway_ids [] = []
gateway_ids (d ∷ daemons) = (d.name, d.dumbarpd_id) ∷ gateway_ids daemons

abbrev id_of : Option Leases → Option ℕ
id_of none = none
id_of (some leases) = leases.dumbarpd_id

unfoldable pub daemon_ids : Dict String Leases → List DaemonEntry → List (String × Option ℕ)
unfolding lookup
daemon_ids view [] = []
daemon_ids view (d ∷ daemons) = (d.name, id_of (lookup d.name view)) ∷ daemon_ids view daemons

-- the names of the configured daemons beside the results of their fetches
unfoldable pub zip_names : List DaemonEntry → List (Option Leases) → List (String × Option Leases)
zip_names (d ∷ daemons) (r ∷ results) = (d.name, r) ∷ zip_names daemons results
zip_names _ _ = []

module _ (nl : Netlink) (m : IdMap) where
  -- `RouterState`, with the state of the kernel
  pub record RouterState : Type 0 where
    pub cache : Cached Leases
    pub gateway_cache : Cached (List DaemonRoutes)
    pub datapath : m.State
    pub known_ids : Dict String RememberedId
    pub kernel : nl.State

  module _ (order : List ℕ → List ℕ) (cfg : Config) (now now' : ℕ) where
    -- the daemons that the pass knows of
    unfoldable pub gateway_daemons : Option (List DaemonRoutes) → RouterState → List DaemonRoutes
    unfolding apply_round lookup
    gateway_daemons fetched s =
        let round =
          apply_round (from_secs cfg.stale_after_secs) now ((gateway_cache_key, fetched) ∷ [])
            s.gateway_cache in
        unwrap_or (lookup gateway_cache_key round.0.1) []

    unfoldable pub gateway_desired :
        GatewayEntry → Option (List DaemonRoutes) → RouterState → List RouteSpec
    unfolding gateway_daemons gateway_ids resolve_ids build_gateway_specs
    gateway_desired gw fetched s =
        let daemons = gateway_daemons fetched s in
        let ids =
          (resolve_ids (from_secs cfg.stale_after_secs) now' (gateway_ids daemons) s.known_ids).0 in
        build_gateway_specs cfg.source_based_routing ids daemons gw.device_overrides

    unfoldable pub reconcile_via_gateway :
        GatewayEntry → Option (List DaemonRoutes) → RouterState → RouterState
    unfolding gateway_daemons gateway_desired apply_round resolve_ids sync_ids reconcile
    reconcile_via_gateway gw fetched s =
        let stale = from_secs cfg.stale_after_secs in
        let round = apply_round stale now ((gateway_cache_key, fetched) ∷ []) s.gateway_cache in
        let daemons = gateway_daemons fetched s in
        let (ids, known_ids) = resolve_ids stale now' (gateway_ids daemons) s.known_ids in
        let desired = gateway_desired gw fetched s in
        record s {
          gateway_cache = round.1;
          known_ids = known_ids;
          datapath = (sync_ids m (values ids) s.datapath).1;
          kernel = (reconcile nl order desired s.kernel).1;
        }

    unfoldable pub reconcile_via_daemons : List (Option Leases) → RouterState → RouterState
    unfolding zip_names apply_round daemon_ids resolve_ids daemon_specs sync_ids reconcile
    reconcile_via_daemons results s =
        let stale = from_secs cfg.stale_after_secs in
        let round = apply_round stale now (zip_names cfg.daemons results) s.cache in
        let view = round.0.1 in
        let (ids, known_ids) = resolve_ids stale now' (daemon_ids view cfg.daemons) s.known_ids in
        let desired = daemon_specs cfg.source_based_routing ids view cfg.daemons [] in
        record s {
          cache = round.1;
          known_ids = known_ids;
          datapath = (sync_ids m (values ids) s.datapath).1;
          kernel = (reconcile nl order desired s.kernel).1;
        }

    unfoldable pub reconcile_once :
        Option (List DaemonRoutes) → List (Option Leases) → RouterState → RouterState
    unfolding reconcile_via_gateway reconcile_via_daemons
    reconcile_once fetched results s = elim cfg.gateway [
      | some gw ↦ reconcile_via_gateway gw fetched s
      | none ↦ reconcile_via_daemons results s
    ]
