-- ===== src/Routing/Ideal.antt =====
-- The kernel that dumbarp-routing/src/lib.rs counts on, and what it is for a table to be as wanted.
use dumbarp.Common.{
  ℕ, true, ◌≡◌, ◌≢◌, refl, ap, ◌∙◌, inl, inr, Option, none, some, List, [], ◌∷◌, ◌++◌, ◌==◌, nat_eq,
  option_eq, arith, if◌then◌else◌, Option-cases, Bool-cases, beq_refl, option_beq_iff, ◌≤◌, length,
}
use dumbarp.Routing.{ResolvedSpec, CurrentRule, CurrentRoute, expected_fwmask}
use dumbarp.Routing.Messages.{RuleMessage, RouteMessage, parse_dumbarp_rule}
use dumbarp.Routing.Netlink.{Netlink, NewRule, new_rule, new_route, old_route}
use dumbarp.Routing.Views.{rules_at, routes_at, last_or}
use dumbarp.Routing.Kernel.{Describes, Inserted, Deleted, selects, rule_for}
use dumbarp.Routing.Reconcile.{table_matches}

abbrev pub tail {ℓ} : {A : Type ℓ} → List A → List A
tail [] = []
tail (x ∷ xs) = xs

abbrev pub route_for : ℕ → ℕ → CurrentRoute
route_for gateway ifindex = record { gateway = gateway; oif = ifindex; onlink = true }

-- How the requests change what the dumps list. Rules are changed as `Inserted` and `Deleted` say,
-- routes as seen by `parse_dumbarp_route`: a new one comes behind those of its table, and the first
-- of the table goes. A request that fails changes nothing.
pub record Kernel (nl : Netlink) : Type 0 where
  pub rules : nl.State → List RuleMessage
  pub routes : nl.State → List RouteMessage
  pub rule_add_lem :
      (r : NewRule) (s : nl.State)
      → (nl.rule_add r s).0 ≡ true
      → (m : RuleMessage) × Describes r m × Inserted m (rules s) (rules (nl.rule_add r s).1)
  pub rule_del_lem :
      (req : RuleMessage) (s : nl.State)
      → (nl.rule_del req s).0 ≡ true
      → Deleted req (rules s) (rules (nl.rule_del req s).1)
  pub rule_add_routes : (r : NewRule) (s : nl.State) → routes (nl.rule_add r s).1 ≡ routes s
  pub rule_del_routes : (req : RuleMessage) (s : nl.State) → routes (nl.rule_del req s).1 ≡ routes s
  pub route_add_lem :
      (t gateway ifindex : ℕ) (s : nl.State)
      → (nl.route_add (new_route t gateway ifindex) s).0 ≡ true
      → (t' : ℕ)
      → routes_at t' (routes (nl.route_add (new_route t gateway ifindex) s).1) ≡ (
          if t' == t
          then routes_at t' (routes s) ++ route_for gateway ifindex ∷ []
          else routes_at t' (routes s))
  pub route_del_lem :
      (t : ℕ) (s : nl.State)
      → (nl.route_del (old_route t) s).0 ≡ true
      → (t' : ℕ)
      → routes_at t' (routes (nl.route_del (old_route t) s).1)
        ≡ (if t' == t then tail (routes_at t' (routes s)) else routes_at t' (routes s))
  pub route_add_rules :
      (t gateway ifindex : ℕ) (s : nl.State)
      → rules (nl.route_add (new_route t gateway ifindex) s).1 ≡ rules s
  pub route_del_rules : (t : ℕ) (s : nl.State) → rules (nl.route_del (old_route t) s).1 ≡ rules s

-- No request fails that has something to do: dumps succeed and are complete, what is there can be
-- deleted, and what is not there can be added.
pub record Reliable (nl : Netlink) (k : Kernel nl) : Type 0 where
  pub dump_rules_ok : (s : nl.State) → nl.dump_rules s ≡ some (k.rules s)
  pub dump_routes_ok : (s : nl.State) → nl.dump_routes s ≡ some (k.routes s)
  pub rule_del_ok :
      (req hit : RuleMessage) (before after : List RuleMessage) (s : nl.State)
      → k.rules s ≡ before ++ hit ∷ after
      → selects req hit ≡ true
      → (nl.rule_del req s).0 ≡ true
  pub rule_add_ok :
      (src t : ℕ) (mark : Option ℕ) (s : nl.State)
      → rules_at t (k.rules s) ≡ []
      → (nl.rule_add (new_rule src t mark) s).0 ≡ true
  pub route_del_ok :
      (t : ℕ) (s : nl.State)
      → routes_at t (k.routes s) ≢ []
      → (nl.route_del (old_route t) s).0 ≡ true
  pub route_add_ok :
      (t gateway ifindex : ℕ) (s : nl.State)
      → routes_at t (k.routes s) ≡ []
      → (nl.route_add (new_route t gateway ifindex) s).0 ≡ true

abbrev pub want_rules : Option ResolvedSpec → List CurrentRule
want_rules none = []
want_rules (some w) = rule_for w.src w.fwmark ∷ []

abbrev pub want_routes : Option ResolvedSpec → List CurrentRoute
want_routes none = []
want_routes (some w) = route_for w.gateway w.ifindex ∷ []

-- a rule of the table, and where it stands
pub rules_at-head :
    (t : ℕ) (r : CurrentRule) (rs : List CurrentRule) (l : List RuleMessage)
    → rules_at t l ≡ r ∷ rs
    → (before : List RuleMessage) × (hit : RuleMessage) × (after : List RuleMessage) × (l
        ≡ before ++ hit ∷ after)
      × (parse_dumbarp_rule hit ≡ some (t, r))
unfolding rules_at
rules_at-head t r rs [] e = absurd (cc)
rules_at-head t r rs (m ∷ l) e = elim (Option-cases (parse_dumbarp_rule m)) [
  | inl p ↦
      let (before, hit, after, split, q) = rules_at-head t r rs l (ground arith) in
      (m ∷ before, hit, after, ap (◌∷◌ m) split, q)
  | inr ((table, rule), p) ↦ elim (Bool-cases (table == t)) [
    | inl here ↦ ([], m, l, refl, ground arith)
    | inr other ↦
        let (before, hit, after, split, q) = rules_at-head t r rs l (ground arith) in
        (m ∷ before, hit, after, ap (◌∷◌ m) split, q)
  ]
]

module _ (nl : Netlink) (k : Kernel nl) where
  -- Table `t` has exactly what is wanted of it.
  pub record Agrees (want : Option ResolvedSpec) (t : ℕ) (s : nl.State) : Type 0 where
    pub rules : rules_at t (k.rules s) ≡ want_rules want
    pub routes : routes_at t (k.routes s) ≡ want_routes want

  -- The tables other than `t` are the same in both states.
  pub record SameElsewhere (t : ℕ) (s s' : nl.State) : Type 0 where
    pub rules : (t' : ℕ) → t' ≢ t → rules_at t' (k.rules s') ≡ rules_at t' (k.rules s)
    pub routes : (t' : ℕ) → t' ≢ t → routes_at t' (k.routes s') ≡ routes_at t' (k.routes s)

  pub SameElsewhere-trans :
      (t : ℕ) (s s' s'' : nl.State)
      → SameElsewhere t s s'
      → SameElsewhere t s' s''
      → SameElsewhere t s s''
  SameElsewhere-trans t s s' s'' a b = record {
    rules = λ t' h. b.rules t' h ∙ a.rules t' h;
    routes = λ t' h. b.routes t' h ∙ a.routes t' h;
  }

-- A table that is left alone has exactly the rule and the route that are wanted.
pub table_matches-eq :
    (want : Option ResolvedSpec) (rs : List CurrentRule) (l : List CurrentRoute)
    → length l ≤ 1
    → table_matches want rs (last_or none l) ≡ true
    → (rs ≡ want_rules want) × (l ≡ want_routes want)
unfolding table_matches expected_fwmask
table_matches-eq (some w) (r ∷ []) (rt ∷ []) one e =
    ground
      (arith, option_beq_iff r.fwmark w.fwmark, option_beq_iff r.fwmask (expected_fwmask w.fwmark))
table_matches-eq (some w) (r ∷ []) (rt ∷ rt' ∷ l) one e = absurd (omega arith)
table_matches-eq (some w) (r ∷ []) [] one e = cc
table_matches-eq (some w) (r ∷ r' ∷ rs) (rt ∷ l) one e = cc
table_matches-eq (some w) (r ∷ r' ∷ rs) [] one e = cc
table_matches-eq (some w) [] l one e = cc
table_matches-eq none rs l one e = cc

-- Where a spec is wanted and the table is as wanted, it is left alone.
pub table_matches_wanted :
    (w : ResolvedSpec)
    → table_matches (some w) (rule_for w.src w.fwmark ∷ []) (some (route_for w.gateway w.ifindex))
      ≡ true
unfolding table_matches expected_fwmask
table_matches_wanted w = ground (arith, beq_refl w.fwmark, beq_refl (expected_fwmask w.fwmark))
