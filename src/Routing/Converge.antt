-- ===== src/Routing/Converge.antt =====
-- One table of a reconcile pass of dumbarp-routing/src/lib.rs, over a kernel that does what it is
-- asked.
use dumbarp.Common.{
  ℕ, Bool, true, false, not, ◌||◌, ◌≡◌, ◌≢◌, refl, ap, ◌∙◌, sym, inl, inr, Option, none, some, List,
  [], ◌∷◌, nat_eq, option_eq, arith, Bool-cases, ◌≤◌, length,
}
use dumbarp.Routing.{ResolvedSpec, CurrentRule, CurrentRoute}
use dumbarp.Routing.Netlink.{Netlink, new_rule, old_rule, new_route, old_route}
use dumbarp.Routing.Views.{rules_at, routes_at, last_or}
use dumbarp.Routing.Kernel.{selects-old_rule, rules_at-Deleted, rules_at-Inserted}
use dumbarp.Routing.Ideal.{
  tail, Kernel, Reliable, rules_at-head, Agrees, SameElsewhere, SameElsewhere-trans,
  table_matches-eq,
}
use dumbarp.Routing.Wanted.{WantMarkable}
use dumbarp.Routing.Reconcile.{table_matches, del_rules, del_route, add_both, reconcile_table}

pub last_or-eq-none : (l : List CurrentRoute) → none ≡ last_or none l → length l ≤ 1 → l ≡ []
last_or-eq-none [] e one = refl
last_or-eq-none (x ∷ []) e one = cc
last_or-eq-none (x ∷ y ∷ l) e one = absurd (omega arith)

module _ (nl : Netlink) (k : Kernel nl) (ok : Reliable nl k) where
  open nl use {State}

  -- Deleting the first rule of a table succeeds.
  del_first :
      (t : ℕ) (r : CurrentRule) (rs : List CurrentRule) (s : State)
      → rules_at t (k.rules s) ≡ r ∷ rs
      → ((nl.rule_del (old_rule r.src t r.fwmark) s).0 ≡ true)
        × (rules_at t (k.rules (nl.rule_del (old_rule r.src t r.fwmark) s).1) ≡ rs)
        × SameElsewhere nl k t s (nl.rule_del (old_rule r.src t r.fwmark) s).1
  del_first t r rs s e =
      let req = old_rule r.src t r.fwmark in
      let (before, hit, after, split, parsed) = rules_at-head t r rs (k.rules s) e in
      let done = ok.rule_del_ok req hit before after s split (selects-old_rule hit t r parsed) in
      let (gone, kept) =
        rules_at-Deleted t r rs (k.rules s) (k.rules (nl.rule_del req s).1) e
          (k.rule_del_lem req s done) in
      (
        done,
        gone,
        record { rules = kept; routes = λ t' h. ap (routes_at t') (k.rule_del_routes req s) },
      )

  del_rules_lem :
      (t : ℕ) (rs : List CurrentRule) (failed : Bool) (s : State)
      → rules_at t (k.rules s) ≡ rs
      → ((del_rules nl t rs failed s).0 ≡ failed)
        × (rules_at t (k.rules (del_rules nl t rs failed s).1) ≡ [])
        × (k.routes (del_rules nl t rs failed s).1 ≡ k.routes s)
        × SameElsewhere nl k t s (del_rules nl t rs failed s).1
  unfolding del_rules
  del_rules_lem t [] failed s e =
      (refl, e, refl, record { rules = λ t' h. refl; routes = λ t' h. refl })
  del_rules_lem t (r ∷ rs) failed s e =
      let req = old_rule r.src t r.fwmark in
      let s' = (nl.rule_del req s).1 in
      let (done, gone, kept) = del_first t r rs s e in
      let flag : (failed || not (nl.rule_del req s).0) ≡ failed = ground arith in
      let (f, none_left, same, rest) =
        del_rules_lem t rs (failed || not (nl.rule_del req s).0) s' gone in
      (
        f ∙ flag,
        none_left,
        same ∙ k.rule_del_routes req s,
        SameElsewhere-trans nl k t s s' _ kept rest,
      )

  del_route_lem :
      (t : ℕ) (have : Option CurrentRoute) (failed : Bool) (s : State)
      → have ≡ last_or none (routes_at t (k.routes s))
      → length (routes_at t (k.routes s)) ≤ 1
      → ((del_route nl t have failed s).0 ≡ failed)
        × (routes_at t (k.routes (del_route nl t have failed s).1) ≡ [])
        × (k.rules (del_route nl t have failed s).1 ≡ k.rules s)
        × SameElsewhere nl k t s (del_route nl t have failed s).1
  unfolding del_route
  del_route_lem t none failed s e one = (
    refl,
    last_or-eq-none (routes_at t (k.routes s)) e one,
    refl,
    record { rules = λ t' h. refl; routes = λ t' h. refl },
  )
  del_route_lem t (some rt) failed s e one =
      let s' = (nl.route_del (old_route t) s).1 in
      let there : routes_at t (k.routes s) ≢ [] = λ h. ground arith in
      let done = ok.route_del_ok t s there in
      let after = k.route_del_lem t s done in
      (
        ground arith,
        ground (arith, after t, tail_short (routes_at t (k.routes s)) one),
        k.route_del_rules t s,
        record {
          rules = λ t' h. ap (rules_at t') (k.route_del_rules t s);
          routes = λ t' h. ground (arith, after t');
        },
      )
    where
      tail_short : (l : List CurrentRoute) → length l ≤ 1 → tail l ≡ []
      tail_short [] one = refl
      tail_short (x ∷ []) one = refl
      tail_short (x ∷ y ∷ l) one = absurd (omega arith)

  add_both_lem :
      (t : ℕ) (want : Option ResolvedSpec) (s : State)
      → WantMarkable want
      → rules_at t (k.rules s) ≡ []
      → routes_at t (k.routes s) ≡ []
      → Agrees nl k want t (add_both nl t want false s)
        × SameElsewhere nl k t s (add_both nl t want false s)
  unfolding add_both
  add_both_lem t none s marked no_rules no_routes = (
    record { rules = no_rules; routes = no_routes },
    record { rules = λ t' h. refl; routes = λ t' h. refl },
  )
  add_both_lem t (some w) s marked no_rules no_routes =
      let nr = new_rule w.src t w.fwmark in
      let s' = (nl.rule_add nr s).1 in
      let s'' = (nl.route_add (new_route t w.gateway w.ifindex) s').1 in
      let done = ok.rule_add_ok w.src t w.fwmark s no_rules in
      let (m, described, inserted) = k.rule_add_lem nr s done in
      let (here, kept) =
        rules_at-Inserted w.src t w.fwmark m (k.rules s) (k.rules s') marked described inserted in
      let same : routes_at t (k.routes s') ≡ [] = rw (k.rule_add_routes nr s) no_routes in
      let added = ok.route_add_ok t w.gateway w.ifindex s' same in
      let after = k.route_add_lem t w.gateway w.ifindex s' added in
      let rules_same = k.route_add_rules t w.gateway w.ifindex s' in
      rw done (
        record { rules = rw (rules_same, here, no_rules); routes = ground (arith, after t, same) },
        record {
          rules = λ t' h. rw rules_same (kept t' h);
          routes = λ t' h. ground (arith, after t', k.rule_add_routes nr s);
        },
      )

  -- One table of the pass, whose entries in the three maps are what the state has.
  pub reconcile_table_lem :
      (t : ℕ) (want : Option ResolvedSpec) (rs : List CurrentRule) (have : Option CurrentRoute)
      (s : State)
      → WantMarkable want
      → rs ≡ rules_at t (k.rules s)
      → have ≡ last_or none (routes_at t (k.routes s))
      → length (routes_at t (k.routes s)) ≤ 1
      → Agrees nl k want t (reconcile_table nl t want rs have s)
        × SameElsewhere nl k t s (reconcile_table nl t want rs have s)
  unfolding reconcile_table
  reconcile_table_lem t want rs have s marked er eh one =
      elim (Bool-cases (table_matches want rs have)) [
        | inl same ↦
            let (a, b) = table_matches-eq want rs (routes_at t (k.routes s)) one (rw (← eh) same) in
            rw same (
              record { rules = sym er ∙ a; routes = b },
              record { rules = λ t' h. refl; routes = λ t' h. refl },
            )
        | inr differ ↦
            let d = del_rules nl t rs false s in
            let (f1, no_rules, same1, kept1) = del_rules_lem t rs false s (sym er) in
            let r = del_route nl t have d.0 d.1 in
            let (f2, no_routes, same2, kept2) =
              del_route_lem t have d.0 d.1 (rw same1 eh) (rw same1 one) in
            let clean : r.0 ≡ false = f2 ∙ f1 in
            let (agrees, kept3) = add_both_lem t want r.1 marked (rw same2 no_rules) no_routes in
            rw (differ, clean)
              (
                agrees,
                SameElsewhere-trans nl k t s d.1 _ kept1
                    (SameElsewhere-trans nl k t d.1 r.1 _ kept2 kept3),
              )
      ]
