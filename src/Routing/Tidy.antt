-- ===== src/Routing/Tidy.antt =====
-- What holds of the tables after a pass of dumbarp-routing/src/lib.rs in which requests may fail.
use dumbarp.Common.{
  ℕ, true, false, ◌≡◌, inl, inr, none, List, [], ◌∷◌, ◌++◌, nat_eq, arith, All, Bool-cases,
  Option-cases, beq_refl, Dict, lookup, contains, keys, NoRepeat, ◌≤◌, ◌==◌, length,
}
use dumbarp.Routing.{RouteSpec, ResolvedSpec, CurrentRule, CurrentRoute}
use dumbarp.Routing.Messages.{unwrap_or}
use dumbarp.Routing.Netlink.{Netlink}
use dumbarp.Routing.Views.{rules_at, routes_at}
use dumbarp.Routing.Ideal.{Kernel}
use dumbarp.Routing.Fresh.{IsFresh, still-IsFresh, IsFresh-maps}
use dumbarp.Routing.Wanted.{
  WantMarkable, IsMarkable, lookup-resolve_nil, wanted-WantMarkable, dedup-NoRepeat,
}
use dumbarp.Routing.Reconcile.{
  reconcile_table, reconcile_tables, reconcile, resolve, group_rules, group_routes, dedup,
}
use dumbarp.Routing.Safe.{Honest, KeepsOne, reconcile_table-KeepsOne}

module _ (nl : Netlink) (k : Kernel nl) (honest : Honest nl k) where
  open nl use {State}

  -- No table has more than one dumbarp rule or route.
  pub record IsTidy (s : State) : Type 0 where
    pub rules : (t : ℕ) → length (rules_at t (k.rules s)) ≤ 1
    pub routes : (t : ℕ) → length (routes_at t (k.routes s)) ≤ 1

  KeepsOne-IsTidy : (x : ℕ) (s s' : State) → KeepsOne nl k honest x s s' → IsTidy s → IsTidy s'
  KeepsOne-IsTidy x s s' kept tidy = record {
    rules = λ t. elim (Bool-cases (t == x)) [
      | inl here ↦ let same : t ≡ x = ground (arith, here) in rw same kept.rules
      | inr other ↦ rw (kept.elsewhere.rules t (λ e. ground (arith, e, other))) (tidy.rules t)
    ];
    routes = λ t. elim (Bool-cases (t == x)) [
      | inl here ↦ let same : t ≡ x = ground (arith, here) in rw same kept.routes
      | inr other ↦ rw (kept.elsewhere.routes t (λ e. ground (arith, e, other))) (tidy.routes t)
    ];
  }

  module _ (resolved : Dict ℕ ResolvedSpec) (rules : Dict ℕ (List CurrentRule))
      (routes : Dict ℕ CurrentRoute) (marked : (t : ℕ) → WantMarkable (lookup t resolved)) where
    reconcile_tables-IsTidy :
        (ts : List ℕ) (s : State)
        → NoRepeat ts
        → ((t : ℕ) → contains ts t ≡ true → IsFresh nl k rules routes t s)
        → IsTidy s
        → IsTidy (reconcile_tables nl resolved rules routes ts s)
    unfolding reconcile_tables
    reconcile_tables-IsTidy [] s once fresh tidy = tidy
    reconcile_tables-IsTidy (x ∷ ts) s once fresh tidy =
        let f = fresh x (ground (arith, beq_refl x)) in
        let have_rules = unwrap_or (lookup x rules) [] in
        let s' = reconcile_table nl x (lookup x resolved) have_rules (lookup x routes) s in
        let kept =
          reconcile_table-KeepsOne nl k honest x (lookup x resolved) have_rules (lookup x routes) s
            (marked x) f.have_rules f.have_route (tidy.rules x) (tidy.routes x) in
        reconcile_tables-IsTidy ts s' once.1
          (still-IsFresh nl k x ts s s' once kept.elsewhere fresh)
          (KeepsOne-IsTidy x s s' kept tidy)

  -- Whatever requests fail in a pass, where a request that fails changes nothing and a dump that
  -- succeeds is complete: if no table had more than one dumbarp rule or more than one dumbarp route
  -- before the pass, none has after it, in whatever order the tables are visited. So a new rule or
  -- route never joins an old one that could not be deleted. No spec may have the mark 0.
  pub reconcile-IsTidy :
      (order : List ℕ → List ℕ) (desired : List RouteSpec) (s : State)
      → ((l : List ℕ) → NoRepeat l → NoRepeat (order l))
      → All (λ (spec : RouteSpec). IsMarkable spec.fwmark) desired
      → IsTidy s
      → IsTidy (reconcile nl order desired s).1
  reconcile-IsTidy order desired s once marks tidy = elim (Option-cases (nl.dump_rules s)) [
    | inl failed ↦
        let run : reconcile nl order desired s ≡ (false, s) =
          unfold reconcile in ground (arith, failed) in
        rw run tidy
    | inr (l, got) ↦ elim (Option-cases (nl.dump_routes s)) [
      | inl failed ↦
          let run : reconcile nl order desired s ≡ (false, s) =
            unfold reconcile in ground (arith, got, failed) in
          rw run tidy
      | inr (m, got') ↦
          let resolved = resolve nl s [] [] desired in
          let rules = group_rules [] (k.rules s) in
          let routes = group_routes [] (k.routes s) in
          let all = dedup (keys rules ++ keys routes ++ keys resolved) in
          let marked : (t : ℕ) → WantMarkable (lookup t resolved) = λ t.
            rw (lookup-resolve_nil nl s t desired)
              (wanted-WantMarkable nl s t none desired tt marks) in
          let run : reconcile nl order desired s
              ≡ (true, reconcile_tables nl resolved rules routes (order all) s) =
            unfold reconcile in
            ground
              (arith, got, got', honest.dump_rules_all s l got, honest.dump_routes_all s m got') in
          rw run (
            reconcile_tables-IsTidy resolved rules routes marked (order all) s
              (once all (dedup-NoRepeat _)) (λ t h. IsFresh-maps nl k s t (tidy.routes t)) tidy)
    ]
  ]
