-- ===== src/Routing/Pass.antt =====
-- A whole reconcile pass of dumbarp-routing/src/lib.rs, over a kernel that does what it is asked.
use dumbarp.Common.{
  ℕ, true, false, ◌≡◌, ◌≢◌, refl, ◌∙◌, sym, inl, inr, none, List, [], ◌∷◌, ◌++◌, nat_eq, option_eq,
  arith, All, Bool-cases, beq_refl, Dict, lookup, lookup-eq-none, keys, contains, contains-append,
  NoRepeat, ◌≤◌, length,
}
use dumbarp.Routing.{RouteSpec, ResolvedSpec, CurrentRule, CurrentRoute}
use dumbarp.Routing.Messages.{unwrap_or}
use dumbarp.Routing.Netlink.{Netlink}
use dumbarp.Routing.Views.{rules_at, routes_at}
use dumbarp.Routing.Ideal.{Kernel, Reliable, Agrees}
use dumbarp.Routing.Fresh.{IsFresh, still-IsFresh, IsFresh-maps}
use dumbarp.Routing.Wanted.{
  WantMarkable, IsMarkable, wanted, lookup-resolve_nil, wanted-WantMarkable, contains-dedup,
  dedup-NoRepeat,
}
use dumbarp.Routing.Converge.{reconcile_table_lem, last_or-eq-none}
use dumbarp.Routing.Reconcile.{
  reconcile_table, reconcile_tables, reconcile, resolve, group_rules, group_routes, dedup,
}

module _ (nl : Netlink) (k : Kernel nl) (ok : Reliable nl k) where
  open nl use {State}

  module _ (resolved : Dict ℕ ResolvedSpec) (rules : Dict ℕ (List CurrentRule))
      (routes : Dict ℕ CurrentRoute) (marked : (t : ℕ) → WantMarkable (lookup t resolved)) where
    reconcile_tables_lem :
        (ts : List ℕ) (s : State)
        → NoRepeat ts
        → ((t : ℕ) → contains ts t ≡ true → IsFresh nl k rules routes t s)
        → ((t : ℕ)
            → contains ts t ≡ true
            → Agrees nl k (lookup t resolved) t (reconcile_tables nl resolved rules routes ts s))
          × ((t : ℕ)
              → contains ts t ≡ false
              → (rules_at t (k.rules (reconcile_tables nl resolved rules routes ts s))
                  ≡ rules_at t (k.rules s))
                × (routes_at t (k.routes (reconcile_tables nl resolved rules routes ts s))
                    ≡ routes_at t (k.routes s)))
    unfolding reconcile_tables
    reconcile_tables_lem [] s once fresh = (λ t h. cc, λ t h. (refl, refl))
    reconcile_tables_lem (x ∷ ts) s once fresh =
        let f = fresh x (ground (arith, beq_refl x)) in
        let have_rules = unwrap_or (lookup x rules) [] in
        let s' = reconcile_table nl x (lookup x resolved) have_rules (lookup x routes) s in
        let (agrees, kept) =
          reconcile_table_lem nl k ok x (lookup x resolved) have_rules (lookup x routes) s
            (marked x) f.have_rules f.have_route f.one_route in
        let (visited, others) =
          reconcile_tables_lem ts s' once.1 (still-IsFresh nl k x ts s s' once kept fresh) in
        (
          λ t h. elim (Bool-cases (contains ts t)) [
            | inl later ↦ visited t later
            | inr now ↦
                let here : t ≡ x = ground arith in
                let (same_rules, same_routes) = others x once.0 in
                rw here (record {
                  rules = same_rules ∙ agrees.rules;
                  routes = same_routes ∙ agrees.routes;
                })
          ],
          λ t h.
              let away : t ≢ x = λ e. ground arith in
              let (same_rules, same_routes) = others t (ground arith) in
              (same_rules ∙ kept.rules t away, same_routes ∙ kept.routes t away),
        )

  -- A table that no map names has nothing, and nothing is wanted of it.
  unnamed :
      (resolved : Dict ℕ ResolvedSpec) (rules : Dict ℕ (List CurrentRule))
      (routes : Dict ℕ CurrentRoute) (t : ℕ) (s : State)
      → contains (dedup (keys rules ++ keys routes ++ keys resolved)) t ≡ false
      → IsFresh nl k rules routes t s
      → Agrees nl k (lookup t resolved) t s
  unnamed resolved rules routes t s absent f =
      let a = contains-dedup (keys rules ++ keys routes ++ keys resolved) t in
      let b = contains-append (keys rules ++ keys routes) (keys resolved) t in
      let c = contains-append (keys rules) (keys routes) t in
      let no_spec = lookup-eq-none t resolved (ground arith) in
      let no_rules = lookup-eq-none t rules (ground arith) in
      let no_route = lookup-eq-none t routes (ground arith) in
      rw no_spec (record {
        rules = sym f.have_rules ∙ rw no_rules;
        routes = last_or-eq-none _ (sym no_route ∙ f.have_route) f.one_route;
      })

  -- Over a kernel that does what it is asked and has at most one dumbarp route in each table: a
  -- pass succeeds, whatever the order in which it visits the tables, and then every table has
  -- exactly the rule and the route of the last resolvable spec for it, or no dumbarp rule and route
  -- if there is none. No spec may have the mark 0.
  pub reconcile-Agrees :
      (order : List ℕ → List ℕ) (desired : List RouteSpec) (s : State)
      → ((l : List ℕ) → NoRepeat l → NoRepeat (order l))
      → ((l : List ℕ) (t : ℕ) → contains (order l) t ≡ contains l t)
      → All (λ (spec : RouteSpec). IsMarkable spec.fwmark) desired
      → ((t : ℕ) → length (routes_at t (k.routes s)) ≤ 1)
      → ((reconcile nl order desired s).0 ≡ true)
        × ((t : ℕ) → Agrees nl k (wanted nl s t none desired) t (reconcile nl order desired s).1)
  reconcile-Agrees order desired s once same marks single =
      let resolved = resolve nl s [] [] desired in
      let rules = group_rules [] (k.rules s) in
      let routes = group_routes [] (k.routes s) in
      let all = dedup (keys rules ++ keys routes ++ keys resolved) in
      let marked : (t : ℕ) → WantMarkable (lookup t resolved) = λ t.
        rw (lookup-resolve_nil nl s t desired) (wanted-WantMarkable nl s t none desired tt marks) in
      let (visited, others) =
        reconcile_tables_lem resolved rules routes marked (order all) s
          (once all (dedup-NoRepeat _)) (λ t h. IsFresh-maps nl k s t (single t)) in
      let run : reconcile nl order desired s
          ≡ (true, reconcile_tables nl resolved rules routes (order all) s) =
        unfold reconcile in ground (arith, ok.dump_rules_ok s, ok.dump_routes_ok s) in
      rw run (
        refl,
        λ t. rw (← lookup-resolve_nil nl s t desired) (elim (Bool-cases (contains (order all) t)) [
          | inl named ↦ visited t named
          | inr not_named ↦
              let nothing =
                unnamed resolved rules routes t s (sym (same all t) ∙ not_named)
                  (IsFresh-maps nl k s t (single t)) in
              let (same_rules, same_routes) = others t not_named in
              record { rules = same_rules ∙ nothing.rules; routes = same_routes ∙ nothing.routes }
        ]),
      )
