-- ===== src/Routing/Views.antt =====
-- What a dump shows of one table, and that the maps of `list_rules` and `list_routes` hold just that.
use mathlib.Core.List.{append-nil, append_assoc}
use dumbarp.Common.{
  ℕ, ◌≡◌, refl, sym, Option, none, some, List, [], ◌∷◌, ◌++◌, ◌==◌, nat_eq, arith, if◌then◌else◌,
  Dict, lookup, insert, lookup-insert, Option-cases, inl, inr,
}
use dumbarp.Routing.{CurrentRule, CurrentRoute, into_value}
use dumbarp.Routing.Messages.{
  RuleMessage, RouteMessage, parse_dumbarp_rule, parse_dumbarp_route, unwrap_or,
}
use dumbarp.Routing.Reconcile.{group_rules, group_routes}

-- the dumbarp rules of table `t`, in the order of the dump
unfoldable pub rules_at : ℕ → List RuleMessage → List CurrentRule
rules_at t [] = []
rules_at t (msg ∷ msgs) = elim (parse_dumbarp_rule msg) [
  | none ↦ rules_at t msgs
  | some (table, rule) ↦ if table == t then rule ∷ rules_at t msgs else rules_at t msgs
]

unfoldable pub routes_at : ℕ → List RouteMessage → List CurrentRoute
routes_at t [] = []
routes_at t (msg ∷ msgs) = elim (parse_dumbarp_route msg) [
  | none ↦ routes_at t msgs
  | some current ↦
      if current.table == t then into_value current ∷ routes_at t msgs else routes_at t msgs
]

pub rules_at-append :
    (t : ℕ) (xs ys : List RuleMessage) → rules_at t (xs ++ ys) ≡ rules_at t xs ++ rules_at t ys
unfolding rules_at
rules_at-append t [] ys = refl
rules_at-append t (x ∷ xs) ys = ground (arith, rules_at-append t xs ys)

abbrev pub last_or {ℓ} : {A : Type ℓ} → Option A → List A → Option A
last_or d [] = d
last_or d (x ∷ xs) = last_or (some x) xs

pub lookup-group_rules :
    (t : ℕ) (out : Dict ℕ (List CurrentRule)) (msgs : List RuleMessage)
    → unwrap_or (lookup t (group_rules out msgs)) []
      ≡ unwrap_or (lookup t out) [] ++ rules_at t msgs
unfolding group_rules rules_at
lookup-group_rules t out [] = sym (append-nil _)
lookup-group_rules t out (msg ∷ msgs) = elim (Option-cases (parse_dumbarp_rule msg)) [
  | inl e ↦ ground (arith, lookup-group_rules t out msgs)
  | inr ((table, rule), e) ↦
      let more = unwrap_or (lookup table out) [] ++ rule ∷ [] in
      ground (
        arith,
        lookup-group_rules t (insert table more out) msgs,
        lookup-insert table t more out,
        append_assoc (unwrap_or (lookup t out) []) (rule ∷ []) (rules_at t msgs),
      )
]

pub lookup-group_routes :
    (t : ℕ) (out : Dict ℕ CurrentRoute) (msgs : List RouteMessage)
    → lookup t (group_routes out msgs) ≡ last_or (lookup t out) (routes_at t msgs)
unfolding group_routes routes_at
lookup-group_routes t out [] = refl
lookup-group_routes t out (msg ∷ msgs) = elim (Option-cases (parse_dumbarp_route msg)) [
  | inl e ↦ ground (arith, lookup-group_routes t out msgs)
  | inr (cur, e) ↦ ground (
    arith,
    lookup-group_routes t (insert cur.table (into_value cur) out) msgs,
    lookup-insert cur.table t (into_value cur) out,
  )
]
