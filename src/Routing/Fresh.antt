-- ===== src/Routing/Fresh.antt =====
-- What the maps that a pass of dumbarp-routing/src/lib.rs reads at its start say of the state, while it
-- visits the tables.
use dumbarp.Common.{
  ℕ, true, ◌≡◌, ◌≢◌, ◌∙◌, sym, none, List, [], ◌∷◌, nat_eq, arith, Dict, lookup, contains, NoRepeat,
  ◌≤◌, length,
}
use dumbarp.Routing.{CurrentRule, CurrentRoute}
use dumbarp.Routing.Messages.{unwrap_or}
use dumbarp.Routing.Netlink.{Netlink}
use dumbarp.Routing.Views.{rules_at, routes_at, last_or, lookup-group_rules, lookup-group_routes}
use dumbarp.Routing.Ideal.{Kernel, SameElsewhere}
use dumbarp.Routing.Reconcile.{group_rules, group_routes}

module _ (nl : Netlink) (k : Kernel nl) where
  open nl use {State}

  -- The state has what the three maps were read from, for table `t`.
  pub record IsFresh (rules : Dict ℕ (List CurrentRule)) (routes : Dict ℕ CurrentRoute) (t : ℕ)
      (s : State) : Type 0 where
    pub have_rules : unwrap_or (lookup t rules) [] ≡ rules_at t (k.rules s)
    pub have_route : lookup t routes ≡ last_or none (routes_at t (k.routes s))
    pub one_route : length (routes_at t (k.routes s)) ≤ 1

  pub still-IsFresh :
      {rules : Dict ℕ (List CurrentRule)} {routes : Dict ℕ CurrentRoute} (x : ℕ) (ts : List ℕ)
      (s s' : State)
      → NoRepeat (x ∷ ts)
      → SameElsewhere nl k x s s'
      → ((t : ℕ) → contains (x ∷ ts) t ≡ true → IsFresh rules routes t s)
      → (t : ℕ) → contains ts t ≡ true
      → IsFresh rules routes t s'
  still-IsFresh x ts s s' once kept fresh t h =
      let away : t ≢ x = λ e. ground arith in
      let f = fresh t (ground arith) in
      let same = kept.routes t away in
      record {
        have_rules = f.have_rules ∙ sym (kept.rules t away);
        have_route = rw same f.have_route;
        one_route = rw same f.one_route;
      }

  pub IsFresh-maps :
      (s : State) (t : ℕ)
      → length (routes_at t (k.routes s)) ≤ 1
      → IsFresh (group_rules [] (k.rules s)) (group_routes [] (k.routes s)) t s
  unfolding lookup
  IsFresh-maps s t one = record {
    have_rules = lookup-group_rules t [] (k.rules s);
    have_route = lookup-group_routes t [] (k.routes s);
    one_route = one;
  }
