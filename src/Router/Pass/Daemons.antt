-- ===== src/Router/Pass/Daemons.antt =====
-- A pass of dumbarp-routerd/src/reconcile.rs that asks the daemons itself.
use dumbarp.Common.{
  ℕ, ◌≤◌, ◌≡◌, ◌⊎◌, inl, inr, Bool, String, Option, none, some, List, [], ◌∷◌, nat_eq, string_eq,
  arith, All, All-Among, Among, NoRepeat, contains, length, Option-cases, Dict, lookup,
}
use dumbarp.Routing.{RouteSpec}
use dumbarp.Routing.Netlink.{Netlink}
use dumbarp.Routing.Views.{routes_at}
use dumbarp.Routing.Ideal.{Kernel, Reliable, Agrees}
use dumbarp.Routing.Wanted.{wanted, IsMarkable}
use dumbarp.Routing.Pass.{reconcile-Agrees}
use dumbarp.Api.{Leases}
use dumbarp.Api.Cache.{apply_round}
use dumbarp.Router.Config.{Config, DaemonEntry}
use dumbarp.Router.Specs.{push_all, mark_for, daemon_specs}
use dumbarp.Router.Specs.Sources.{push_all_lem, mark_for-ids}
use dumbarp.Router.Datapath.{IdMap, IsHashMap}
use dumbarp.Router.Pass.Marks.{given, given-IsTag, sync_ids-given}
use dumbarp.Router.Pass.{RouterState, from_secs, zip_names, daemon_ids, reconcile_via_daemons}

module _ (source_based_routing : Bool) (ids : Dict String ℕ) (view : Dict String Leases) where
  -- The mark of each spec that is added is the one of a daemon.
  daemon_specs-mark_for :
      (daemons : List DaemonEntry) (out : List RouteSpec) (s : RouteSpec)
      → Among s (daemon_specs source_based_routing ids view daemons out)
      → Among s out ⊎ ((name : String) × (mark_for source_based_routing ids name ≡ some s.fwmark))
  daemon_specs-mark_for [] out s h = inl (unfold daemon_specs in h)
  daemon_specs-mark_for (d ∷ daemons) out s h = elim (Option-cases (lookup d.name view)) [
    | inl absent ↦
        let turn : daemon_specs source_based_routing ids view (d ∷ daemons) out
            ≡ daemon_specs source_based_routing ids view daemons out =
          unfold daemon_specs in ground (arith, absent) in
        daemon_specs-mark_for daemons out s (rw turn at h)
    | inr (leases, has) ↦ elim (Option-cases (mark_for source_based_routing ids d.name)) [
      | inl skipped ↦
          let turn : daemon_specs source_based_routing ids view (d ∷ daemons) out
              ≡ daemon_specs source_based_routing ids view daemons out =
            unfold daemon_specs in ground (arith, has, skipped) in
          daemon_specs-mark_for daemons out s (rw turn at h)
      | inr (mark, marked) ↦
          let out' = push_all d.nexthop d.device mark leases.ips out in
          let turn : daemon_specs source_based_routing ids view (d ∷ daemons) out
              ≡ daemon_specs source_based_routing ids view daemons out' =
            unfold daemon_specs in ground (arith, has, marked) in
          elim (daemon_specs-mark_for daemons out' s (rw turn at h)) [
            | inr later ↦ inr later
            | inl pushed ↦ elim ((push_all_lem d.nexthop d.device mark leases.ips out s).0 pushed) [
              | inl old ↦ inl old
              | inr f ↦ inr (d.name, ground (arith, marked, f.mark))
            ]
          ]
    ]
  ]

module _ (nl : Netlink) (m : IdMap) (order : List ℕ → List ℕ) (cfg : Config) (now now' : ℕ)
    (results : List (Option Leases)) (s : RouterState nl m) where
  abbrev pub view : Dict String Leases
  view =
      (apply_round (from_secs cfg.stale_after_secs) now (zip_names cfg.daemons results) s.cache).0.1

  abbrev ids : Dict String ℕ
  ids = given (from_secs cfg.stale_after_secs) now' (daemon_ids view cfg.daemons) s.known_ids

  abbrev pub daemons_desired : List RouteSpec
  daemons_desired = daemon_specs cfg.source_based_routing ids view cfg.daemons []

  abbrev pub after_daemons : RouterState nl m
  after_daemons = reconcile_via_daemons nl m order cfg now now' results s

  daemons_desired-given :
      (spec : RouteSpec) (mark : ℕ)
      → Among spec daemons_desired
      → spec.fwmark ≡ some mark
      → (name : String) × (lookup name ids ≡ some mark)
  daemons_desired-given spec mark among e =
      elim (daemon_specs-mark_for cfg.source_based_routing ids view cfg.daemons [] spec among) [
        | inl nothing ↦ absurd nothing
        | inr (name, marked) ↦
            (name, mark_for-ids cfg.source_based_routing ids name mark (ground (arith, marked, e)))
      ]

  -- If the map of ids is a hash map of the kernel with room for 64 entries: after a pass that asks the
  -- daemons itself, whatever it held before, every mark that a spec of the pass asks for is a key that
  -- goes to itself, and every key is a DSCP from 1 to 63 that goes to itself.
  pub reconcile_via_daemons-marks :
      IsHashMap m
      → ((spec : RouteSpec) (mark : ℕ)
          → Among spec daemons_desired
          → spec.fwmark ≡ some mark
          → m.get mark after_daemons.datapath ≡ some mark)
        × ((d v : ℕ) → m.get d after_daemons.datapath ≡ some v → (1 ≤ d) × (d ≤ 63) × (v ≡ d))
  reconcile_via_daemons-marks ok =
      let (goes, only) =
        sync_ids-given (from_secs cfg.stale_after_secs) now' (daemon_ids view cfg.daemons)
          s.known_ids m s.datapath ok in
      unfold reconcile_via_daemons in
      (
        λ spec mark among e.
            let (name, found) = daemons_desired-given spec mark among e in goes name mark found,
        only,
      )

  daemons_desired-IsMarkable : All (λ (spec : RouteSpec). IsMarkable spec.fwmark) daemons_desired
  daemons_desired-IsMarkable =
      All-Among (λ (spec : RouteSpec). IsMarkable spec.fwmark) daemons_desired
        (λ spec among e.
          let (name, found) = daemons_desired-given spec 0 among e in
          let (lo, hi) =
            given-IsTag (from_secs cfg.stale_after_secs) now' (daemon_ids view cfg.daemons)
              s.known_ids name 0 found in
          omega arith)

  -- A pass that asks the daemons itself, over a kernel that does what it is asked and has at most one
  -- dumbarp route in each table, leaves every table with exactly the rule and the route of the last
  -- resolvable spec for it.
  pub reconcile_via_daemons-Agrees :
      (k : Kernel nl)
      → Reliable nl k
      → ((l : List ℕ) → NoRepeat l → NoRepeat (order l))
      → ((l : List ℕ) (t : ℕ) → contains (order l) t ≡ contains l t)
      → ((t : ℕ) → length (routes_at t (k.routes s.kernel)) ≤ 1)
      → (t : ℕ) → Agrees nl k (wanted nl s.kernel t none daemons_desired) t after_daemons.kernel
  reconcile_via_daemons-Agrees k ok once same single =
      let pass =
        reconcile-Agrees nl k ok order daemons_desired s.kernel once same daemons_desired-IsMarkable
          single in
      unfold reconcile_via_daemons in pass.1
