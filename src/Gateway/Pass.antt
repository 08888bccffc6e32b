-- ===== src/Gateway/Pass.antt =====
-- A pass of dumbarp-gateway/src/reconcile.rs. What the fetches gave and the instant are inputs. The set
-- of sources seen, which serves a warning only, is left out, and so is the loop of the timer.
use dumbarp.Common.{
  ℕ, ◌≤◌, ◌≡◌, ◌↔◌, ◌⊎◌, inl, inr, Bool, true, false, String, Option, none, some, List, [], ◌∷◌,
  string_eq, nat_eq, arith, All, All-Among, Among, NoRepeat, contains, length, Option-cases, Dict,
  lookup,
}
use dumbarp.Routing.{RouteSpec}
use dumbarp.Routing.Netlink.{Netlink}
use dumbarp.Routing.Reconcile.{reconcile}
use dumbarp.Routing.Views.{routes_at}
use dumbarp.Routing.Ideal.{Kernel, Reliable, Agrees}
use dumbarp.Routing.Wanted.{wanted, IsMarkable}
use dumbarp.Routing.Pass.{reconcile-Agrees}
use dumbarp.Api.{Leases}
use dumbarp.Api.Cache.{Cached, apply_round}
use dumbarp.Router.Config.{DaemonEntry}
use dumbarp.Router.Config.Valid.{names}
use dumbarp.Router.Specs.{push_all, push_specs}
use dumbarp.Router.Specs.Sources.{push_all_lem}
use dumbarp.Router.Pass.{zip_names, from_secs}
use dumbarp.Gateway.Config.{Config}
use dumbarp.Gateway.Fetched.{FromLeases, FromFetches, FromLeases-FromFetches}

-- the loop over the daemons; `push_specs` without a mark
unfoldable pub lease_specs : Dict String Leases → List DaemonEntry → List RouteSpec → List RouteSpec
unfolding push_specs lookup
lease_specs view [] desired = desired
lease_specs view (daemon ∷ daemons) desired = elim (lookup daemon.name view) [
  | none ↦ lease_specs view daemons desired
  | some leases ↦ lease_specs view daemons (push_specs daemon leases.ips none desired)
]

lease_specs_into :
    (view : Dict String Leases) (daemons : List DaemonEntry) (out : List RouteSpec) (s : RouteSpec)
    → Among s (lease_specs view daemons out) ↔ (Among s out ⊎ FromLeases view daemons s)
lease_specs_into view [] out s = unfold lease_specs in ground arith
lease_specs_into view (d ∷ daemons) out s = elim (Option-cases (lookup d.name view)) [
  | inl skipped ↦
      let turn : lease_specs view (d ∷ daemons) out ≡ lease_specs view daemons out =
        unfold lease_specs in ground (arith, skipped) in
      let rest = lease_specs_into view daemons out s in
      rw turn (
        λ h. elim (rest.0 h) [ inl old ↦ inl old | inr g ↦ inr (inr g) ],
        λ h. rest.1 (elim h [
          | inl old ↦ inl old
          | inr (inl (leases, has, f)) ↦ absurd (ground (arith, has, skipped))
          | inr (inr g) ↦ inr g
        ]),
      )
  | inr (leases, has) ↦
      let out' = push_all d.nexthop d.device none leases.ips out in
      let turn : lease_specs view (d ∷ daemons) out ≡ lease_specs view daemons out' =
        unfold lease_specs in ground (arith, has) in
      let rest = lease_specs_into view daemons out' s in
      let own = push_all_lem d.nexthop d.device none leases.ips out s in
      rw turn (
        λ h. elim (rest.0 h) [
          | inl pushed ↦ elim (own.0 pushed) [
            | inl old ↦ inl old
            | inr f ↦ inr (inl (leases, has, f))
          ]
          | inr g ↦ inr (inr g)
        ],
        λ h. rest.1 (elim h [
          | inl old ↦ inl (own.1 (inl old))
          | inr (inl (leases', has', f)) ↦
              let same : leases' ≡ leases = ground (arith, has, has') in
              inl (own.1 (inr (rw same at f)))
          | inr (inr g) ↦ inr g
        ]),
      )
]

-- The specs of a pass are exactly those for the addresses that the daemons have in the view.
pub lease_specs_lem :
    (view : Dict String Leases) (daemons : List DaemonEntry) (s : RouteSpec)
    → Among s (lease_specs view daemons []) ↔ FromLeases view daemons s
lease_specs_lem view daemons s =
    let all = lease_specs_into view daemons [] s in
    (λ h. elim (all.0 h) [ inl nothing ↦ absurd nothing | inr g ↦ g ], λ g. all.1 (inr g))

FromLeases-unmarked :
    (view : Dict String Leases) (daemons : List DaemonEntry) (s : RouteSpec)
    → FromLeases view daemons s
    → s.fwmark ≡ none
FromLeases-unmarked view [] s g = absurd g
FromLeases-unmarked view (d ∷ daemons) s g = elim g [
  | inl (leases, has, f) ↦ f.mark
  | inr later ↦ FromLeases-unmarked view daemons s later
]

module _ (nl : Netlink) where
  -- the cache, with the state of the kernel
  pub record GatewayState : Type 0 where
    pub cache : Cached Leases
    pub kernel : nl.State

  module _ (order : List ℕ → List ℕ) (cfg : Config) (now : ℕ) where
    unfoldable pub lease_desired : List (Option Leases) → GatewayState → List RouteSpec
    unfolding zip_names apply_round lease_specs
    lease_desired results s =
        let round =
          apply_round (from_secs cfg.stale_after_secs) now (zip_names cfg.daemons results)
            s.cache in
        lease_specs round.0.1 cfg.daemons []

    -- `has_router`: there is a route manager
    unfoldable pub reconcile_once : Bool → List (Option Leases) → GatewayState → GatewayState
    unfolding lease_desired zip_names apply_round reconcile
    reconcile_once has_router results s =
        let round =
          apply_round (from_secs cfg.stale_after_secs) now (zip_names cfg.daemons results)
            s.cache in
        let routed = (reconcile nl order (lease_desired results s) s.kernel).1 in
        record { cache = round.1; kernel = elim has_router [ true ↦ routed | false ↦ s.kernel ] }

    lease_desired-unmarked :
        (results : List (Option Leases)) (s : GatewayState)
        → All (λ (spec : RouteSpec). IsMarkable spec.fwmark) (lease_desired results s)
    unfolding lease_desired
    lease_desired-unmarked results s =
        let round =
          apply_round (from_secs cfg.stale_after_secs) now (zip_names cfg.daemons results)
            s.cache in
        All-Among (λ (spec : RouteSpec). IsMarkable spec.fwmark)
          (lease_specs round.0.1 cfg.daemons [])
          (λ spec among e.
            let bare =
              FromLeases-unmarked round.0.1 cfg.daemons spec
                ((lease_specs_lem round.0.1 cfg.daemons spec).0 among) in
            ground (arith, bare, e))

    -- A gateway with a route manager and daemons of different names, with one result for each daemon,
    -- over a kernel that does what it is asked and has at most one dumbarp route in each table: the
    -- specs of a pass are exactly those for the addresses that a daemon's fetch has just given, or if
    -- that failed the daemon's entry in the cache, if it is younger than `stale_after_secs`, each with
    -- the daemon's nexthop and device and without a mark; and after the pass every table has exactly
    -- the rule and the route of the last resolvable spec for it.
    pub reconcile_once-Agrees :
        (k : Kernel nl) (results : List (Option Leases)) (s : GatewayState)
        → NoRepeat (names cfg.daemons)
        → length results ≡ length cfg.daemons
        → Reliable nl k
        → ((l : List ℕ) → NoRepeat l → NoRepeat (order l))
        → ((l : List ℕ) (t : ℕ) → contains (order l) t ≡ contains l t)
        → ((t : ℕ) → length (routes_at t (k.routes s.kernel)) ≤ 1)
        → ((spec : RouteSpec)
            → Among spec (lease_desired results s)
              ↔ FromFetches (from_secs cfg.stale_after_secs) now s.cache cfg.daemons results spec)
          × ((t : ℕ)
              → Agrees nl k
                  (wanted nl s.kernel t none (lease_desired results s))
                  t
                  (reconcile_once true results s).kernel)
    reconcile_once-Agrees k results s different each ok once same single =
        let pass =
          reconcile-Agrees nl k ok order (lease_desired results s) s.kernel once same
            (lease_desired-unmarked results s) single in
        let view =
          (apply_round (from_secs cfg.stale_after_secs) now (zip_names cfg.daemons results)
            s.cache).0.1 in
        (
          λ spec.
              let from_view = lease_specs_lem view cfg.daemons spec in
              let fetched =
                FromLeases-FromFetches (from_secs cfg.stale_after_secs) now s.cache cfg.daemons
                  results spec different each in
              unfold lease_desired in
              (λ h. fetched.0 (from_view.0 h), λ h. from_view.1 (fetched.1 h)),
          unfold reconcile_once in pass.1,
        )
