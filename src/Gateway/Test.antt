-- ===== src/Gateway/Test.antt =====
-- Runs of dumbarp-gateway/src, and its theorems at concrete inputs.
use dumbarp.Common.{
  ℕ, ◌≡◌, ◌↔◌, refl, true, none, some, List, [], ◌∷◌, nat_eq, string_eq, arith, All, Among, Option,
  insert, lookup, remove,
}
use dumbarp.Routing.{RouteSpec}
use dumbarp.Routing.Views.{routes_at}
use dumbarp.Routing.Ideal.{Agrees}
use dumbarp.Routing.Wanted.{wanted}
use dumbarp.Routing.Simulator.{memory, memory_kernel, memory-Reliable}
use dumbarp.Api.{Leases}
use dumbarp.Router.Pass.{from_secs}
use dumbarp.Router.Config.{DaemonEntry}
use dumbarp.Api.{DaemonRoutes}
use dumbarp.Api.Responses.{parse_daemons}
use dumbarp.Router.Specs.{build_gateway_specs, daemon_specs}
use dumbarp.Gateway.Serve.{IsServable, daemons_handler, served, parse_daemons-daemons_handler}
use dumbarp.Gateway.Config.{Config, IsValid, load, load-IsValid}
use dumbarp.Gateway.Fetched.{FromFetches}
use dumbarp.Gateway.Pass.{GatewayState, lease_desired, reconcile_once, reconcile_once-Agrees}

abbrev homelab : DaemonEntry
homelab = record {
  name = "homelab";
  endpoint = "http://a";
  auth_token = "t";
  nexthop = 500;
  device = "eth0";
}

abbrev edge : DaemonEntry
edge = record {
  name = "edge";
  endpoint = "http://b";
  auth_token = "t";
  nexthop = 501;
  device = "eth1";
}

abbrev config : Config
config = record {
  refresh_interval_secs = 30;
  stale_after_secs = 300;
  manage_routes = true;
  daemons = homelab ∷ edge ∷ [];
  serve = none;
}

config_accepted : load config ≡ none
unfolding load
config_accepted = refl

load-IsValid_example : (load config ≡ none) ↔ IsValid config
load-IsValid_example = load-IsValid config

abbrev leases : Leases
leases = record { ips = 1000 ∷ 1001 ∷ []; dumbarpd_id = none }

abbrev wanted_spec : RouteSpec
wanted_spec = record { src = 1001; gateway = 500; iface = "eth0"; fwmark = none }

abbrev state : GatewayState memory
state = record { cache = []; kernel = record { rules = []; routes = [] } }

abbrev in_turn : List ℕ → List ℕ
in_turn l = l

desired_run :
    lease_desired memory in_turn config 100 (some leases ∷ none ∷ []) state
    ≡ record { src = 1000; gateway = 500; iface = "eth0"; fwmark = none } ∷ wanted_spec ∷ []
unfolding lease_desired insert lookup remove
desired_run = refl

reconcile_once-Agrees_example :
    ((spec : RouteSpec)
      → Among spec (lease_desired memory in_turn config 100 (some leases ∷ none ∷ []) state)
        ↔ FromFetches (from_secs 300) 100 [] config.daemons (some leases ∷ none ∷ []) spec)
    × ((t : ℕ)
        → Agrees memory memory_kernel
            (wanted memory state.kernel t none
              (lease_desired memory in_turn config 100 (some leases ∷ none ∷ []) state))
            t
            (reconcile_once memory in_turn config 100 true (some leases ∷ none ∷ []) state).kernel)
unfolding memory_kernel routes_at
reconcile_once-Agrees_example =
    reconcile_once-Agrees memory in_turn config 100 memory_kernel (some leases ∷ none ∷ []) state
      (refl, (refl, tt)) refl memory-Reliable (λ l h. h) (λ l t. refl) (λ t. ground arith)

leases_of : {l : Leases} → ◌≡◌ {A = Option Leases} (some leases) (some l) → l ≡ leases
leases_of e = ground (arith, e)

daemons-IsServable : All (IsServable (("homelab", leases) ∷ [])) (homelab ∷ edge ∷ [])
unfolding lookup
daemons-IsServable = (
  record {
    nexthop_ip = omega arith;
    device_named = refl;
    leased_ips = λ l e. rw (leases_of e) (omega arith, (omega arith, tt));
  },
  (record { nexthop_ip = omega arith; device_named = refl; leased_ips = λ l e. absurd (cc) }, tt),
)

parse_daemons-daemons_handler_example :
    (routes : List DaemonRoutes) × (parse_daemons
        (daemons_handler (("homelab", leases) ∷ []) (homelab ∷ edge ∷ []))
      ≡ some routes)
    × (routes ≡ served (("homelab", leases) ∷ []) (homelab ∷ edge ∷ []))
    × (build_gateway_specs true [] routes []
        ≡ daemon_specs true [] (("homelab", leases) ∷ []) (homelab ∷ edge ∷ []) [])
parse_daemons-daemons_handler_example =
    parse_daemons-daemons_handler true [] (("homelab", leases) ∷ []) (homelab ∷ edge ∷ [])
      daemons-IsServable
