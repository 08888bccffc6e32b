-- ===== src/Routing/Test.antt =====
-- Runs of dumbarp-routing/src/lib.rs over the kernel in memory, and its theorems there.
use dumbarp.Common.{
  ℕ, true, false, Option, Bool, ◌≡◌, ◌≤◌, refl, ◌⊎◌, ◌↔◌, ◌<◌, ◌+◌, ◌^◌, none, some, List, [], ◌∷◌,
  nat_eq, string_eq, arith, length, lookup, insert,
}
use dumbarp.Routing.{RouteSpec, into_value, expected_fwmask}
use dumbarp.Routing.TableId.{table_id_for, IsReserved, table_id_for_lem}
use dumbarp.Routing.Messages.{RouteMessage, parse_dumbarp_rule, parse_dumbarp_route}
use dumbarp.Routing.Netlink.{new_rule, new_route}
use dumbarp.Routing.Views.{rules_at, routes_at}
use dumbarp.Routing.Kernel.{selects, parse-new_rule, rule_for}
use dumbarp.Routing.Ideal.{Agrees, want_rules, want_routes}
use dumbarp.Routing.Netlink.{Netlink}
use dumbarp.Routing.Ideal.{Kernel}
use dumbarp.Routing.Safe.{Honest}
use dumbarp.Routing.Tidy.{IsTidy, reconcile-IsTidy}
use dumbarp.Routing.Wanted.{wanted}
use dumbarp.Routing.Reconcile.{reconcile}
use dumbarp.Routing.Pass.{reconcile-Agrees}
use dumbarp.Routing.Stable.{reconcile_idle}
use dumbarp.Routing.Simulator.{
  Tables, take_route, del_route_of, memory, memory_kernel, memory-Reliable, listed, listed_route,
  listed-Describes,
}

-- 0.0.0.255 and 0.1.0.255 have one table
table_id_for_lem_example :
    (table_id_for 255 < 2 ^ 32)
    × (¬ IsReserved (table_id_for 255))
    × ((table_id_for 255 ≡ table_id_for 65791) ↔ (
        (◌≡◌ {A = ℕ} 255 65791)
        ⊎ (IsReserved 255 × (◌≡◌ {A = ℕ} 65791 (255 + 65536)))
        ⊎ (IsReserved 65791 × (◌≡◌ {A = ℕ} 255 (65791 + 65536)))))
table_id_for_lem_example = table_id_for_lem 255 65791 (omega arith) (omega arith)

parse-new_rule_example :
    parse_dumbarp_rule (listed (new_rule 1000 2000 (some 7))) ≡ some (2000, rule_for 1000 (some 7))
parse-new_rule_example =
    parse-new_rule 1000 2000 (some 7) (listed (new_rule 1000 2000 (some 7))) (λ e. ground arith)
      (listed-Describes (new_rule 1000 2000 (some 7)))

-- two addresses through eth0, and one through an interface that is not there
abbrev specs : List RouteSpec
specs =
    record { src = 1000; gateway = 500; iface = "eth0"; fwmark = none }
    ∷ record { src = 1001; gateway = 501; iface = "eth0"; fwmark = some 7 }
    ∷ record { src = 1002; gateway = 502; iface = "eth9"; fwmark = none }
    ∷ []

-- table 1001 has a stale rule and route, table 900 has a rule that nobody wants
abbrev stale : Tables
stale = record {
  rules = listed (new_rule 900 900 none) ∷ listed (new_rule 1001 1001 (some 6)) ∷ [];
  routes = listed_route (new_route 1001 777 3) ∷ [];
}

abbrev fresh : Tables
fresh = record {
  rules = listed (new_rule 1000 1000 none) ∷ listed (new_rule 1001 1001 (some 7)) ∷ [];
  routes = listed_route (new_route 1000 500 2) ∷ listed_route (new_route 1001 501 2) ∷ [];
}

abbrev in_turn : List ℕ → List ℕ
in_turn l = l

stale_pass :
    rules_at 1001 (reconcile memory in_turn specs stale).1.rules ≡ rule_for 1001 (some 7) ∷ []
unfolding reconcile rules_at parse_dumbarp_rule insert parse_dumbarp_route lookup table_id_for
    selects
stale_pass = refl

stale_pass_gone : rules_at 900 (reconcile memory in_turn specs stale).1.rules ≡ []
unfolding reconcile rules_at parse_dumbarp_rule insert parse_dumbarp_route lookup table_id_for
    selects
stale_pass_gone = refl

one_route : (t : ℕ) → length (routes_at t stale.routes) ≤ 1
unfolding routes_at new_route
one_route t = ground arith

reconcile-Agrees_example :
    ((reconcile memory in_turn specs stale).0 ≡ true)
    × ((t : ℕ)
        → Agrees memory memory_kernel
            (wanted memory stale t none specs)
            t
            (reconcile memory in_turn specs stale).1)
unfolding memory_kernel
reconcile-Agrees_example =
    reconcile-Agrees memory memory_kernel memory-Reliable in_turn specs stale (λ l h. h)
      (λ l t. refl) (λ e. ground arith, (λ e. ground arith, (λ e. ground arith, tt))) one_route

fresh_rules : (t : ℕ) → rules_at t fresh.rules ≡ want_rules (wanted memory fresh t none specs)
unfolding rules_at new_rule wanted parse_dumbarp_rule table_id_for expected_fwmask
fresh_rules t = ground arith

fresh_routes : (t : ℕ) → routes_at t fresh.routes ≡ want_routes (wanted memory fresh t none specs)
unfolding routes_at new_route wanted parse_dumbarp_route table_id_for into_value
fresh_routes t = ground arith

reconcile_idle_example : reconcile memory in_turn specs fresh ≡ (true, fresh)
reconcile_idle_example =
    reconcile_idle memory in_turn specs fresh fresh.rules fresh.routes refl refl fresh_rules
      fresh_routes

-- a kernel in memory that deletes no rule
abbrev stuck : Netlink
stuck = record memory { rule_del = λ req s. (false, s) }

never : ◌≡◌ {A = Bool} true false → ⊥
never e = cc

never' : ◌≡◌ {A = Bool} false true → ⊥
never' e = cc

stuck_kernel : Kernel stuck
unfolding memory_kernel
stuck_kernel = record {
  rules = λ s. s.rules;
  routes = λ s. s.routes;
  rule_add_lem = λ r s e. memory_kernel.rule_add_lem r s e;
  rule_del_lem = λ req s e. absurd (never' e);
  rule_add_routes = λ r s. refl;
  rule_del_routes = λ req s. refl;
  route_add_lem = λ t gateway ifindex s e. memory_kernel.route_add_lem t gateway ifindex s e;
  route_del_lem = λ t s e. memory_kernel.route_del_lem t s e;
  route_add_rules = λ t gateway ifindex s. refl;
  route_del_rules = λ t s. memory_kernel.route_del_rules t s;
}

taken_or_same :
    (s : Tables) (o : Option (List RouteMessage))
    → (del_route_of s o).0 ≡ false
    → (del_route_of s o).1.routes ≡ s.routes
taken_or_same s none e = refl
taken_or_same s (some l) e = absurd (never e)

stuck-Honest : Honest stuck stuck_kernel
unfolding stuck_kernel
stuck-Honest = record {
  dump_rules_all = λ s l e. ground (arith, e);
  dump_routes_all = λ s l e. ground (arith, e);
  rule_add_failed = λ r s e. absurd (never e);
  rule_del_failed = λ req s e. refl;
  route_add_failed = λ r s e. absurd (never e);
  route_del_failed = λ r s e. taken_or_same s (take_route r.table_id s.routes) e;
}

stale-IsTidy : IsTidy stuck stuck_kernel stuck-Honest stale
unfolding stuck_kernel rules_at routes_at parse_dumbarp_rule parse_dumbarp_route new_rule new_route
stale-IsTidy = record { rules = λ t. ground arith; routes = λ t. ground arith }

reconcile-IsTidy_example :
    IsTidy stuck stuck_kernel stuck-Honest (reconcile stuck in_turn specs stale).1
reconcile-IsTidy_example =
    reconcile-IsTidy stuck stuck_kernel stuck-Honest in_turn specs stale (λ l h. h)
      (λ e. ground (arith, e), (λ e. ground (arith, e), (λ e. ground (arith, e), tt))) stale-IsTidy
