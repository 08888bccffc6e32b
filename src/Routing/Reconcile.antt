-- ===== src/Routing/Reconcile.antt =====
-- `RouteManager::reconcile` of dumbarp-routing/src/lib.rs and what it calls. Failed requests are
-- only logged, so what is kept is the kernel's state.
use dumbarp.Common.{
  ℕ, Bool, true, false, not, ◌&&◌, ◌||◌, String, Option, none, some, List, [], ◌∷◌, ◌++◌, ◌==◌,
  nat_eq, option_eq, string_eq, if◌then◌else◌, Dict, lookup, insert, keys, contains,
}
use dumbarp.Routing.{RouteSpec, ResolvedSpec, CurrentRule, CurrentRoute, into_value, rule_matches}
use dumbarp.Routing.Messages.{
  RuleMessage, RouteMessage, parse_dumbarp_rule, parse_dumbarp_route, unwrap_or,
}
use dumbarp.Routing.Netlink.{Netlink, new_rule, old_rule, new_route, old_route}
use dumbarp.Routing.TableId.{table_id_for}

-- the loops of `list_rules` and `list_routes`
unfoldable pub group_rules :
    Dict ℕ (List CurrentRule) → List RuleMessage → Dict ℕ (List CurrentRule)
group_rules out [] = out
group_rules out (msg ∷ stream) = elim (parse_dumbarp_rule msg) [
  | none ↦ group_rules out stream
  | some (table, rule) ↦
      group_rules (insert table (unwrap_or (lookup table out) [] ++ rule ∷ []) out) stream
]

unfoldable pub group_routes : Dict ℕ CurrentRoute → List RouteMessage → Dict ℕ CurrentRoute
group_routes out [] = out
group_routes out (msg ∷ stream) = elim (parse_dumbarp_route msg) [
  | none ↦ group_routes out stream
  | some current ↦ group_routes (insert current.table (into_value current) out) stream
]

abbrev pub resolved_with : RouteSpec → ℕ → ResolvedSpec
resolved_with spec ifindex = record {
  src = spec.src;
  gateway = spec.gateway;
  ifindex = ifindex;
  fwmark = spec.fwmark;
}

-- the tables that the three maps name, each of them once
unfoldable pub dedup : List ℕ → List ℕ
dedup [] = []
dedup (t ∷ ts) = let rest = dedup ts in if contains rest t then rest else t ∷ rest

unfoldable pub route_matches : CurrentRoute → ResolvedSpec → Bool
route_matches rt w = rt.gateway == w.gateway && rt.oif == w.ifindex && rt.onlink

-- the `match` that decides whether a table is left alone
unfoldable pub table_matches : Option ResolvedSpec → List CurrentRule → Option CurrentRoute → Bool
unfolding rule_matches route_matches
table_matches (some w) (r ∷ []) (some rt) = rule_matches r w && route_matches rt w
table_matches _ _ _ = false

module _ (nl : Netlink) where
  open nl use {State}

  -- the loop over `desired`, which asks for each interface once
  unfoldable pub resolve :
      State → Dict String ℕ → Dict ℕ ResolvedSpec → List RouteSpec → Dict ℕ ResolvedSpec
  resolve s cache resolved [] = resolved
  resolve s cache resolved (spec ∷ desired) =
      let table = table_id_for spec.src in
      elim (lookup spec.iface cache) [
        | some idx ↦ resolve s cache (insert table (resolved_with spec idx) resolved) desired
        | none ↦ elim (nl.find_link spec.iface s) [
          | some idx ↦
              resolve s (insert spec.iface idx cache)
                (insert table (resolved_with spec idx) resolved) desired
          | none ↦ resolve s cache resolved desired
        ]
      ]

  -- deletes each rule of the table; true if a deletion failed
  unfoldable pub del_rules : ℕ → List CurrentRule → Bool → State → Bool × State
  unfolding old_rule
  del_rules table [] delete_failed s = (delete_failed, s)
  del_rules table (rule ∷ rules) delete_failed s =
      let (done, s') = nl.rule_del (old_rule rule.src table rule.fwmark) s in
      del_rules table rules (delete_failed || not done) s'

  unfoldable pub del_route : ℕ → Option CurrentRoute → Bool → State → Bool × State
  unfolding old_route
  del_route table none delete_failed s = (delete_failed, s)
  del_route table (some rt) delete_failed s =
      let (done, s') = nl.route_del (old_route table) s in (delete_failed || not done, s')

  unfoldable pub add_both : ℕ → Option ResolvedSpec → Bool → State → State
  unfolding new_rule new_route
  add_both table none delete_failed s = s
  add_both table (some w) true s = s
  add_both table (some w) false s =
      let (done, s') = nl.rule_add (new_rule w.src table w.fwmark) s in
      if done then (nl.route_add (new_route table w.gateway w.ifindex) s').1 else s'

  unfoldable pub reconcile_table :
      ℕ → Option ResolvedSpec → List CurrentRule → Option CurrentRoute → State → State
  unfolding table_matches del_rules del_route add_both
  reconcile_table table want have_rules have_route s =
      let (failed, s') = del_rules table have_rules false s in
      let (failed', s'') = del_route table have_route failed s' in
      if table_matches want have_rules have_route then s else add_both table want failed' s''

  -- the loop over `all_tables`
  unfoldable pub reconcile_tables :
      Dict ℕ ResolvedSpec → Dict ℕ (List CurrentRule) → Dict ℕ CurrentRoute → List ℕ → State → State
  unfolding reconcile_table
  reconcile_tables resolved current_rules current_routes [] s = s
  reconcile_tables resolved current_rules current_routes (table ∷ tables) s =
      reconcile_tables resolved current_rules current_routes tables (
        reconcile_table table (lookup table resolved) (unwrap_or (lookup table current_rules) [])
          (lookup table current_routes) s)

  -- `order` is the order in which the set of tables is visited. False: a dump failed.
  unfoldable pub reconcile : (List ℕ → List ℕ) → List RouteSpec → State → Bool × State
  unfolding resolve group_rules group_routes dedup reconcile_tables
  reconcile order desired s =
      let resolved = resolve s [] [] desired in
      elim (nl.dump_rules s) [
        | none ↦ (false, s)
        | some rules ↦ elim (nl.dump_routes s) [
          | none ↦ (false, s)
          | some routes ↦
              let current_rules = group_rules [] rules in
              let current_routes = group_routes [] routes in
              let all_tables = dedup (keys current_rules ++ keys current_routes ++ keys resolved) in
              (true, reconcile_tables resolved current_rules current_routes (order all_tables) s)
        ]
      ]
