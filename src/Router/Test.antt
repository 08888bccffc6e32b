-- ===== src/Router/Test.antt =====
-- Runs of dumbarp-routerd/src and dumbarp-routerd-ebpf/src/main.rs, and their theorems there.
use dumbarp.Common.{
  ℕ, ◌-◌, ◌<◌, ◌≤◌, ◌≡◌, ◌≢◌, ◌↔◌, ◌⊎◌, refl, true, false, String, Option, none, some, List, [],
  ◌∷◌, ◌==◌, nat_eq, string_eq, arith, if◌then◌else◌, Among, contains, Dict, lookup, insert, remove,
}
use dumbarp.Routing.{RouteSpec}
use dumbarp.Routing.Views.{routes_at}
use dumbarp.Routing.Ideal.{Agrees}
use dumbarp.Routing.Wanted.{wanted}
use dumbarp.Routing.Simulator.{memory, memory_kernel, memory-Reliable}
use dumbarp.Api.{DaemonRoutes}
use dumbarp.Router.Config.{Config, GatewayEntry, DaemonEntry, validate}
use dumbarp.Router.Config.Valid.{IsValid, validate-IsValid}
use dumbarp.Router.Ids.{RememberedId, resolve_ids, candidate}
use dumbarp.Router.Ids.Claims.{resolve_ids_lem}
use dumbarp.Router.Ids.Memory.{resolve_ids-remembered, resolve_ids-IsAlone}
use dumbarp.Router.Specs.{build_gateway_specs}
use dumbarp.Router.Specs.Sources.{FromGateway, build_gateway_specs_lem}
use dumbarp.Router.Datapath.{sync_ids}
use dumbarp.Router.Datapath.Synced.{sync_ids_lem}
use dumbarp.Router.Steer.{Skb, Slots, steer, HasDscp, Counts, steer_lem}
use dumbarp.Router.Pass.{RouterState}
use dumbarp.Router.Pass.Gateway.{
  desired, after, reconcile_via_gateway-marks, reconcile_via_gateway-Agrees,
}
use dumbarp.Router.Simulator.{Entries, id_map, id_map-IsHashMap}

-- "b" advertises the id of "a", "c" is remembered
abbrev advertised : List (String × Option ℕ)
advertised = ("a", some 7) ∷ ("b", some 7) ∷ ("c", none) ∷ []

abbrev known : Dict String RememberedId
known = ("c", record { id = 9; seen = 95 }) ∷ []

ids_run : (resolve_ids 10 100 advertised known).0 ≡ ("a", 7) ∷ ("c", 9) ∷ []
unfolding resolve_ids insert lookup remove
ids_run = refl

resolve_ids_lem_example : (1 ≤ 7) × (7 ≤ 63) × (◌≡◌ {A = ℕ} 7 9 → ◌≡◌ {A = String} "a" "c")
unfolding resolve_ids insert lookup remove
resolve_ids_lem_example = resolve_ids_lem 10 100 advertised known "a" "c" 7 9 refl refl

resolve_ids-remembered_example :
    (100 - 95 < 10)
    × ((lookup "c" known ≡ some (record { id = 9; seen = 95 }))
        ⊎ ((◌≡◌ {A = ℕ} 95 100) × (lookup "c" advertised ≡ some (some 9))))
unfolding resolve_ids insert lookup remove
resolve_ids-remembered_example =
    resolve_ids-remembered 10 100 advertised known "c" (record { id = 9; seen = 95 }) (ground arith)
      refl

abbrev alone : List (String × Option ℕ)
alone = ("a", some 7) ∷ ("b", some 8) ∷ []

resolve_ids-IsAlone_example : lookup "b" (resolve_ids 10 100 alone known).0 ≡ some 8
unfolding lookup candidate
resolve_ids-IsAlone_example =
    resolve_ids-IsAlone 10 100 alone known "b" 8 (ground arith) refl (omega arith) (omega arith)
      (λ j adv other asked e.
        ground
          (arith, string_eq.equal_iff "a" j, string_eq.equal_iff "b" j, string_eq.equal_iff "c" j))

abbrev daemon : DaemonEntry
daemon = record {
  name = "a";
  endpoint = "http://a";
  auth_token = "t";
  nexthop = 500;
  device = "eth0";
}

abbrev gateway : GatewayEntry
gateway = record { endpoint = "http://g"; auth_token = "t"; device_overrides = ("b", "eth1") ∷ [] }

abbrev config : Config
config = record {
  refresh_interval_secs = 30;
  stale_after_secs = 300;
  source_based_routing = false;
  daemons = [];
  gateway = some gateway;
  dscp = record { ifaces = "eth0" ∷ [] };
}

config_accepted : validate config ≡ none
unfolding validate
config_accepted = refl

twice_refused : validate (record config { gateway = none; daemons = daemon ∷ daemon ∷ [] }) ≢ none
unfolding validate
twice_refused e = ground arith

validate-IsValid_example : (validate config ≡ none) ↔ IsValid config
validate-IsValid_example = validate-IsValid config

abbrev old_map : Entries
old_map = record { entries = (5, 5) ∷ (7, 7) ∷ []; once = (refl, (refl, tt)) }

sync_ids_lem_example :
    ((sync_ids id_map (7 ∷ 9 ∷ []) old_map).0 ≡ true)
    × ((j : ℕ)
        → id_map.get j (sync_ids id_map (7 ∷ 9 ∷ []) old_map).1
          ≡ (if contains (7 ∷ 9 ∷ []) j then some j else none))
sync_ids_lem_example = sync_ids_lem id_map id_map-IsHashMap (7 ∷ 9 ∷ []) old_map (ground arith)

-- a packet with the DSCP 7
abbrev skb : Skb
skb = record { protocol = 8; mark = 0; net = λ i. if i == 1 then some 30 else some 69 }

abbrev ids : ℕ → Option ℕ
ids d = if d == 7 then some 7 else none

abbrev slots : Slots
slots = record { tagged = 4; untagged = 2; skipped = 1 }

steer_marks : (steer 8 ids skb slots).0.mark ≡ 7
unfolding steer
steer_marks = refl

steer_lem_example :
    ((steer 8 ids skb slots).0.net ≡ skb.net)
    × ((steer 8 ids skb slots).0.protocol ≡ 8)
    × ((d mark : ℕ)
        → HasDscp 8 ids skb d
        → d ≢ 0
        → ids d ≡ some mark
        → ((steer 8 ids skb slots).0.mark ≡ mark) × Counts 8 ids (steer 8 ids skb slots).1 5 2 1)
    × ((d : ℕ)
        → HasDscp 8 ids skb d
        → (d ≡ 0) ⊎ (ids d ≡ none)
        → ((steer 8 ids skb slots).0.mark ≡ 0) × Counts 8 ids (steer 8 ids skb slots).1 4 3 1)
    × ((skb.protocol ≢ 8) ⊎ (skb.net 1 ≡ none)
        → ((steer 8 ids skb slots).0.mark ≡ 0) × Counts 8 ids (steer 8 ids skb slots).1 4 2 2)
steer_lem_example = steer_lem 8 ids skb slots (omega arith)

abbrev daemons : List DaemonRoutes
daemons =
    record { name = "a"; nexthop = 500; device = "eth0"; dumbarpd_id = some 7; ips = 1000 ∷ [] }
    ∷ record { name = "b"; nexthop = 501; device = "eth0"; dumbarpd_id = none; ips = 1001 ∷ [] }
    ∷ []

abbrev overrides : Dict String String
overrides = []

build_gateway_specs_lem_example :
    Among
      (record { src = 1000; gateway = 500; iface = "eth0"; fwmark = some 7 })
      (build_gateway_specs false (("a", 7) ∷ []) daemons overrides)
    ↔ FromGateway false
        (("a", 7) ∷ [])
        overrides
        daemons
        (record { src = 1000; gateway = 500; iface = "eth0"; fwmark = some 7 })
build_gateway_specs_lem_example =
    build_gateway_specs_lem false (("a", 7) ∷ []) daemons overrides
      (record { src = 1000; gateway = 500; iface = "eth0"; fwmark = some 7 })

abbrev router : RouterState memory id_map
router = record {
  cache = [];
  gateway_cache = [];
  datapath = old_map;
  known_ids = [];
  kernel = record { rules = []; routes = [] };
}

abbrev in_turn : List ℕ → List ℕ
in_turn l = l

reconcile_via_gateway-marks_example :
    ((spec : RouteSpec) (mark : ℕ)
      → Among spec (desired memory id_map in_turn config 100 101 gateway (some daemons) router)
      → spec.fwmark ≡ some mark
      → id_map.get mark
          (after memory id_map in_turn config 100 101 gateway (some daemons) router).datapath
        ≡ some mark)
    × ((d v : ℕ)
        → id_map.get d
            (after memory id_map in_turn config 100 101 gateway (some daemons) router).datapath
          ≡ some v
        → (1 ≤ d) × (d ≤ 63) × (v ≡ d))
reconcile_via_gateway-marks_example =
    reconcile_via_gateway-marks memory id_map in_turn config 100 101 gateway (some daemons) router
      id_map-IsHashMap

reconcile_via_gateway-Agrees_example :
    Agrees memory memory_kernel
      (wanted memory router.kernel 1000 none
        (desired memory id_map in_turn config 100 101 gateway (some daemons) router))
      1000
      (after memory id_map in_turn config 100 101 gateway (some daemons) router).kernel
unfolding memory_kernel routes_at
reconcile_via_gateway-Agrees_example =
    reconcile_via_gateway-Agrees memory id_map in_turn config 100 101 gateway (some daemons) router
      memory_kernel memory-Reliable (λ l h. h) (λ l t. refl) (λ t. ground arith) 1000
