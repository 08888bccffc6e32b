-- ===== src/Routing/Stable.antt =====
-- A pass of dumbarp-routing/src/lib.rs that finds everything as wanted.
use dumbarp.Common.{
  ℕ, true, ◌≡◌, refl, ◌∙◌, Option, none, some, List, [], ◌∷◌, ◌++◌, nat_eq, arith, Dict, lookup,
  keys,
}
use dumbarp.Routing.{RouteSpec, ResolvedSpec, CurrentRule, CurrentRoute}
use dumbarp.Routing.Messages.{RuleMessage, RouteMessage, unwrap_or}
use dumbarp.Routing.Netlink.{Netlink}
use dumbarp.Routing.Views.{rules_at, routes_at, last_or, lookup-group_rules, lookup-group_routes}
use dumbarp.Routing.Ideal.{want_rules, want_routes, table_matches_wanted}
use dumbarp.Routing.Wanted.{wanted, lookup-resolve}
use dumbarp.Routing.Reconcile.{
  reconcile_table, reconcile_tables, reconcile, resolve, group_rules, group_routes, dedup,
}

module _ (nl : Netlink) where
  open nl use {State}

  reconcile_table_idle :
      (t : ℕ) (want : Option ResolvedSpec) (rs : List CurrentRule) (have : Option CurrentRoute)
      (s : State)
      → rs ≡ want_rules want
      → have ≡ last_or none (want_routes want)
      → reconcile_table nl t want rs have s ≡ s
  unfolding reconcile_table
  reconcile_table_idle t none rs have s er eh = rw (er, eh)
  reconcile_table_idle t (some w) rs have s er eh = rw (er, eh, table_matches_wanted w)

  reconcile_tables_idle :
      (resolved : Dict ℕ ResolvedSpec) (rules : Dict ℕ (List CurrentRule))
      (routes : Dict ℕ CurrentRoute) (ts : List ℕ) (s : State)
      → ((t : ℕ) → unwrap_or (lookup t rules) [] ≡ want_rules (lookup t resolved))
      → ((t : ℕ) → lookup t routes ≡ last_or none (want_routes (lookup t resolved)))
      → reconcile_tables nl resolved rules routes ts s ≡ s
  unfolding reconcile_tables
  reconcile_tables_idle resolved rules routes [] s er eh = refl
  reconcile_tables_idle resolved rules routes (t ∷ ts) s er eh =
      rw (reconcile_table_idle t (lookup t resolved) _ _ s (er t) (eh t))
        (reconcile_tables_idle resolved rules routes ts s er eh)

  -- Whatever the kernel: if the two dumps succeed and show of every table exactly the rule and the
  -- route that are wanted, a pass succeeds and makes no request that would change the state.
  pub reconcile_idle :
      (order : List ℕ → List ℕ) (desired : List RouteSpec) (s : State) (rl : List RuleMessage)
      (tl : List RouteMessage)
      → nl.dump_rules s ≡ some rl
      → nl.dump_routes s ≡ some tl
      → ((t : ℕ) → rules_at t rl ≡ want_rules (wanted nl s t none desired))
      → ((t : ℕ) → routes_at t tl ≡ want_routes (wanted nl s t none desired))
      → reconcile nl order desired s ≡ (true, s)
  unfolding lookup
  reconcile_idle order desired s rl tl dr dt hr ht =
      let resolved = resolve nl s [] [] desired in
      let rules = group_rules [] rl in
      let routes = group_routes [] tl in
      let all = dedup (keys rules ++ keys routes ++ keys resolved) in
      let want : (t : ℕ) → lookup t resolved ≡ wanted nl s t none desired =
        λ t. lookup-resolve nl s t [] [] desired (λ iface idx e. cc) in
      let idle =
        reconcile_tables_idle resolved rules routes (order all) s
          (λ t. rw (want t) (lookup-group_rules t [] rl ∙ hr t))
          (λ t. rw (want t) (rw (← ht t) (lookup-group_routes t [] tl))) in
      let run : reconcile nl order desired s
          ≡ (true, reconcile_tables nl resolved rules routes (order all) s) =
        unfold reconcile in ground (arith, dr, dt) in
      rw (run, idle)
