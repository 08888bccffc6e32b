-- ===== src/Routing/Safe.antt =====
-- A reconcile pass of dumbarp-routing/src/lib.rs in which requests may fail.
use dumbarp.Common.{
  ℕ, Bool, true, false, ◌≡◌, ◌≢◌, refl, ap, ◌∙◌, sym, inl, inr, Option, none, some, List, [], ◌∷◌,
  nat_eq, arith, Bool-cases, ◌≤◌, length,
}
use dumbarp.Routing.{ResolvedSpec, CurrentRule, CurrentRoute}
use dumbarp.Routing.Messages.{RuleMessage, RouteMessage}
use dumbarp.Routing.Netlink.{
  Netlink, NewRule, NewRoute, OldRoute, new_rule, old_rule, new_route, old_route,
}
use dumbarp.Routing.Views.{rules_at, routes_at, last_or}
use dumbarp.Routing.Kernel.{rules_at-Deleted, rules_at-Inserted}
use dumbarp.Routing.Ideal.{tail, Kernel, SameElsewhere, SameElsewhere-trans}
use dumbarp.Routing.Converge.{last_or-eq-none}
use dumbarp.Routing.Wanted.{WantMarkable}
use dumbarp.Routing.Reconcile.{table_matches, del_rules, del_route, add_both, reconcile_table}

-- Any request may fail, and then it changes nothing of its kind; a dump that succeeds is complete.
pub record Honest (nl : Netlink) (k : Kernel nl) : Type 0 where
  pub dump_rules_all :
      (s : nl.State) (l : List RuleMessage) → nl.dump_rules s ≡ some l → l ≡ k.rules s
  pub dump_routes_all :
      (s : nl.State) (l : List RouteMessage) → nl.dump_routes s ≡ some l → l ≡ k.routes s
  pub rule_add_failed :
      (r : NewRule) (s : nl.State)
      → (nl.rule_add r s).0 ≡ false
      → k.rules (nl.rule_add r s).1 ≡ k.rules s
  pub rule_del_failed :
      (req : RuleMessage) (s : nl.State)
      → (nl.rule_del req s).0 ≡ false
      → k.rules (nl.rule_del req s).1 ≡ k.rules s
  pub route_add_failed :
      (r : NewRoute) (s : nl.State)
      → (nl.route_add r s).0 ≡ false
      → k.routes (nl.route_add r s).1 ≡ k.routes s
  pub route_del_failed :
      (r : OldRoute) (s : nl.State)
      → (nl.route_del r s).0 ≡ false
      → k.routes (nl.route_del r s).1 ≡ k.routes s

tail_short : (l : List CurrentRoute) → length l ≤ 1 → tail l ≡ []
tail_short [] one = refl
tail_short (x ∷ []) one = refl
tail_short (x ∷ y ∷ l) one = absurd (omega arith)

module _ (nl : Netlink) (k : Kernel nl) (honest : Honest nl k) where
  open nl use {State}

  -- A step at table `t` that leaves at most one rule and one route in it, and the others alone.
  pub record KeepsOne (t : ℕ) (s s' : State) : Type 0 where
    pub rules : length (rules_at t (k.rules s')) ≤ 1
    pub routes : length (routes_at t (k.routes s')) ≤ 1
    pub elsewhere : SameElsewhere nl k t s s'

  nothing_done : (t : ℕ) (s : State) → SameElsewhere nl k t s s
  nothing_done t s = record { rules = λ t' h. refl; routes = λ t' h. refl }

  one_del_rules :
      (t : ℕ) (rs : List CurrentRule) (s : State)
      → rules_at t (k.rules s) ≡ rs
      → length rs ≤ 1
      → ((del_rules nl t rs false s).0 ≡ false
          → rules_at t (k.rules (del_rules nl t rs false s).1) ≡ [])
        × (length (rules_at t (k.rules (del_rules nl t rs false s).1)) ≤ 1)
        × (k.routes (del_rules nl t rs false s).1 ≡ k.routes s)
        × SameElsewhere nl k t s (del_rules nl t rs false s).1
  unfolding del_rules
  one_del_rules t [] s e one = (λ f. e, omega (arith, ap length e), refl, nothing_done t s)
  one_del_rules t (r ∷ []) s e one =
      let req = old_rule r.src t r.fwmark in
      let same = k.rule_del_routes req s in
      elim (Bool-cases (nl.rule_del req s).0) [
        | inl done ↦
            let (gone, kept) =
              rules_at-Deleted t r [] (k.rules s) (k.rules (nl.rule_del req s).1) e
                (k.rule_del_lem req s done) in
            (
              λ f. gone,
              omega (arith, ap length gone),
              same,
              record { rules = kept; routes = λ t' h. ap (routes_at t') same },
            )
        | inr failed ↦
            let still = honest.rule_del_failed req s failed in
            (
              λ f. absurd (ground (arith, f, failed)),
              omega (arith, ap (λ l. length (rules_at t l)) still, ap length e),
              same,
              record {
                rules = λ t' h. ap (rules_at t') still;
                routes = λ t' h. ap (routes_at t') same;
              },
            )
      ]
  one_del_rules t (r ∷ r' ∷ rs) s e one = absurd (omega (arith, one))

  one_del_route :
      (t : ℕ) (have : Option CurrentRoute) (failed : Bool) (s : State)
      → have ≡ last_or none (routes_at t (k.routes s))
      → length (routes_at t (k.routes s)) ≤ 1
      → ((del_route nl t have failed s).0 ≡ false
          → (failed ≡ false) × (routes_at t (k.routes (del_route nl t have failed s).1) ≡ []))
        × (length (routes_at t (k.routes (del_route nl t have failed s).1)) ≤ 1)
        × (k.rules (del_route nl t have failed s).1 ≡ k.rules s)
        × SameElsewhere nl k t s (del_route nl t have failed s).1
  unfolding del_route
  one_del_route t none failed s e one =
      let empty = last_or-eq-none (routes_at t (k.routes s)) e one in
      (λ f. (f, empty), one, refl, nothing_done t s)
  one_del_route t (some rt) failed s e one =
      let same = k.route_del_rules t s in
      elim (Bool-cases (nl.route_del (old_route t) s).0) [
        | inl done ↦
            let after = k.route_del_lem t s done in
            let gone : routes_at t (k.routes (nl.route_del (old_route t) s).1) ≡ [] =
              ground (arith, after t, tail_short (routes_at t (k.routes s)) one) in
            (
              λ f. (ground (arith, f, done), gone),
              omega (arith, ap length gone),
              same,
              record {
                rules = λ t' h. ap (rules_at t') same;
                routes = λ t' h. ground (arith, after t');
              },
            )
        | inr bad ↦
            let still = honest.route_del_failed (old_route t) s bad in
            (
              λ f. absurd (ground (arith, f, bad)),
              omega (arith, ap (λ l. length (routes_at t l)) still, one),
              same,
              record {
                rules = λ t' h. ap (rules_at t') same;
                routes = λ t' h. ap (routes_at t') still;
              },
            )
      ]

  one_add_route :
      (t gateway ifindex : ℕ) (s : State)
      → routes_at t (k.routes s) ≡ []
      → (length (routes_at t (k.routes (nl.route_add (new_route t gateway ifindex) s).1)) ≤ 1)
        × ((t' : ℕ)
            → t' ≢ t
            → routes_at t' (k.routes (nl.route_add (new_route t gateway ifindex) s).1)
              ≡ routes_at t' (k.routes s))
  one_add_route t gateway ifindex s empty =
      elim (Bool-cases (nl.route_add (new_route t gateway ifindex) s).0) [
        | inl done ↦
            let after = k.route_add_lem t gateway ifindex s done in
            (ground (arith, after t, empty), λ t' h. ground (arith, after t', h))
        | inr bad ↦
            let still = honest.route_add_failed (new_route t gateway ifindex) s bad in
            (
              omega (arith, ap (λ l. length (routes_at t l)) still, ap length empty),
              λ t' h. ap (routes_at t') still,
            )
      ]

  one_add_both :
      (t : ℕ) (want : Option ResolvedSpec) (failed : Bool) (s : State)
      → WantMarkable want
      → (failed ≡ false → (rules_at t (k.rules s) ≡ []) × (routes_at t (k.routes s) ≡ []))
      → length (rules_at t (k.rules s)) ≤ 1
      → length (routes_at t (k.routes s)) ≤ 1
      → KeepsOne t s (add_both nl t want failed s)
  unfolding add_both
  one_add_both t none failed s marked clean rules routes = record {
    rules = rules;
    routes = routes;
    elsewhere = nothing_done t s;
  }
  one_add_both t (some w) true s marked clean rules routes = record {
    rules = rules;
    routes = routes;
    elsewhere = nothing_done t s;
  }
  one_add_both t (some w) false s marked clean rules routes =
      let nr = new_rule w.src t w.fwmark in
      let s' = (nl.rule_add nr s).1 in
      let s'' = (nl.route_add (new_route t w.gateway w.ifindex) s').1 in
      let (no_rules, no_routes) = clean refl in
      let routes_same = k.rule_add_routes nr s in
      let rules_same = k.route_add_rules t w.gateway w.ifindex s' in
      elim (Bool-cases (nl.rule_add nr s).0) [
        | inr bad ↦
            let still = honest.rule_add_failed nr s bad in
            rw bad (record {
              rules = omega (arith, ap (λ l. length (rules_at t l)) still, rules);
              routes = omega (arith, ap (λ l. length (routes_at t l)) routes_same, routes);
              elsewhere = record {
                rules = λ t' h. ap (rules_at t') still;
                routes = λ t' h. ap (routes_at t') routes_same;
              };
            })
        | inl done ↦
            let (m, described, inserted) = k.rule_add_lem nr s done in
            let (here, kept) =
              rules_at-Inserted w.src t w.fwmark m (k.rules s) (k.rules s') marked described
                inserted in
            let (routes_one, routes_kept) =
              one_add_route t w.gateway w.ifindex s' (ap (routes_at t) routes_same ∙ no_routes) in
            rw done (record {
              rules = rw (rules_same, here, no_rules) (omega arith);
              routes = routes_one;
              elsewhere = record {
                rules = λ t' h. rw rules_same (kept t' h);
                routes = λ t' h. routes_kept t' h ∙ ap (routes_at t') routes_same;
              };
            })
      ]

  -- One table of the pass, whose entries in the three maps are what the state has.
  pub reconcile_table-KeepsOne :
      (t : ℕ) (want : Option ResolvedSpec) (rs : List CurrentRule) (have : Option CurrentRoute)
      (s : State)
      → WantMarkable want
      → rs ≡ rules_at t (k.rules s)
      → have ≡ last_or none (routes_at t (k.routes s))
      → length (rules_at t (k.rules s)) ≤ 1
      → length (routes_at t (k.routes s)) ≤ 1
      → KeepsOne t s (reconcile_table nl t want rs have s)
  unfolding reconcile_table
  reconcile_table-KeepsOne t want rs have s marked er eh rules routes =
      elim (Bool-cases (table_matches want rs have)) [
        | inl same ↦
            rw same (record { rules = rules; routes = routes; elsewhere = nothing_done t s })
        | inr differ ↦
            let d = del_rules nl t rs false s in
            let (clean1, one1, same1, kept1) = one_del_rules t rs s (sym er) (rw er rules) in
            let r = del_route nl t have d.0 d.1 in
            let (clean2, one2, same2, kept2) =
              one_del_route t have d.0 d.1 (rw same1 eh) (rw same1 routes) in
            let clean : r.0 ≡ false
                → (rules_at t (k.rules r.1) ≡ []) × (routes_at t (k.routes r.1) ≡ []) =
              λ f. let (f1, no_routes) = clean2 f in (rw same2 (clean1 f1), no_routes) in
            let last = one_add_both t want r.0 r.1 marked clean (rw same2 one1) one2 in
            rw differ (record {
              rules = last.rules;
              routes = last.routes;
              elsewhere =
                  SameElsewhere-trans nl k t s d.1 _ kept1
                    (SameElsewhere-trans nl k t d.1 r.1 _ kept2 last.elsewhere);
            })
      ]
