-- ===== src/Routing/Simulator.antt =====
-- A kernel in memory that answers as dumbarp-routing/src/lib.rs expects: it shows that the
-- assumptions about the kernel can be met, and runs the tests.
use mathlib.Core.Option
use mathlib.Core.List.{append-nil}
use dumbarp.Common.{
  ℕ, Bool, true, false, ◌≡◌, ◌≢◌, refl, ap, ◌∙◌, sym, inl, inr, Option, none, some, List, [], ◌∷◌,
  ◌++◌, ◌==◌, nat_eq, string_eq, arith, if◌then◌else◌, Option-cases, Bool-cases, String,
}
use dumbarp.Routing.{into_value}
use dumbarp.Routing.Messages.{
  RuleMessage, RouteMessage, RuleAttribute, RouteAttribute, inet, source, fw_mark, fw_mask,
  parse_dumbarp_route, scan_rule,
}
use dumbarp.Routing.Netlink.{Netlink, NewRule, NewRoute, new_route, old_route}
use dumbarp.Routing.Views.{routes_at}
use dumbarp.Routing.Kernel.{Describes, Deleted, selects}
use dumbarp.Routing.Ideal.{tail, route_for, Kernel, Reliable}

pub record Tables : Type 0 where
  pub rules : List RuleMessage
  pub routes : List RouteMessage

abbrev pub mark_of : Option ℕ → List RuleAttribute
mark_of none = []
mark_of (some m) = fw_mark m ∷ []

abbrev pub mask_of : Option ℕ → List RuleAttribute
mask_of none = []
mask_of (some m) = fw_mask m ∷ []

abbrev pub listed : NewRule → RuleMessage
listed r = record {
  family = inet;
  src_len = r.source_prefix.1;
  header_table = 0;
  attributes =
      source r.source_prefix.0
      ∷ RuleAttribute.table r.table_id
      ∷ RuleAttribute.priority r.priority
      ∷ (mark_of r.fw_mark ++ mask_of r.fw_mask);
}

pub listed-Describes : (r : NewRule) → Describes r (listed r)
unfolding scan_rule
listed-Describes r = record { family = refl; src_len = refl; attributes = ground arith }

abbrev pub take_out : RuleMessage → List RuleMessage → Option (List RuleMessage)
take_out req [] = none
take_out req (m ∷ l) = if selects req m then some l else Option.map (◌∷◌ m) (take_out req l)

take_out-Deleted :
    (req : RuleMessage) (l l' : List RuleMessage) → take_out req l ≡ some l' → Deleted req l l'
take_out-Deleted req [] l' e = absurd (cc)
take_out-Deleted req (m ∷ l) l' e = elim (Bool-cases (selects req m)) [
  | inl hit ↦ record {
    before = [];
    hit = m;
    after = l;
    old = refl;
    new = ground arith;
    fit = hit;
    first = tt;
  }
  | inr miss ↦ elim (Option-cases (take_out req l)) [
    | inl gone ↦ absurd (ground arith)
    | inr (rest, found) ↦
        let d = take_out-Deleted req l rest found in
        let same : m ∷ rest ≡ l' = ground arith in
        record {
          before = m ∷ d.before;
          hit = d.hit;
          after = d.after;
          old = ap (◌∷◌ m) d.old;
          new = sym same ∙ ap (◌∷◌ m) d.new;
          fit = d.fit;
          first = (miss, d.first);
        }
  ]
]

take_out_hit :
    (req hit : RuleMessage) (before after : List RuleMessage)
    → selects req hit ≡ true
    → take_out req (before ++ hit ∷ after) ≢ none
take_out_hit req hit [] after h e = ground arith
take_out_hit req hit (m ∷ before) after h e = ground (arith, take_out_hit req hit before after h)

abbrev pub listed_route : NewRoute → RouteMessage
listed_route r = record {
  address_family = inet;
  protocol = r.protocol;
  onlink = r.onlink;
  header_table = 0;
  attributes =
      RouteAttribute.gateway r.gateway
      ∷ RouteAttribute.oif r.output_interface
      ∷ RouteAttribute.table r.table_id
      ∷ [];
}

abbrev pub is_of : ℕ → RouteMessage → Bool
is_of t m = elim (parse_dumbarp_route m) [ none ↦ false | some p ↦ p.table == t ]

abbrev pub take_route : ℕ → List RouteMessage → Option (List RouteMessage)
take_route t [] = none
take_route t (m ∷ l) = if is_of t m then some l else Option.map (◌∷◌ m) (take_route t l)

take_route_lem :
    (t : ℕ) (l l' : List RouteMessage)
    → take_route t l ≡ some l'
    → (t' : ℕ) → routes_at t' l' ≡ (if t' == t then tail (routes_at t' l) else routes_at t' l)
unfolding routes_at
take_route_lem t [] l' e t' = absurd (cc)
take_route_lem t (m ∷ l) l' e t' = elim (Option-cases (take_route t l)) [
  | inl gone ↦ ground arith
  | inr (rest, found) ↦ ground (arith, take_route_lem t l rest found t')
]

take_route_hit : (t : ℕ) (l : List RouteMessage) → routes_at t l ≢ [] → take_route t l ≢ none
unfolding routes_at
take_route_hit t [] h e = absurd (h refl)
take_route_hit t (m ∷ l) h e = ground (arith, take_route_hit t l)

pub routes_at-listed :
    (t gateway ifindex : ℕ) (l : List RouteMessage) (t' : ℕ)
    → routes_at t' (l ++ listed_route (new_route t gateway ifindex) ∷ [])
      ≡ (if t' == t then routes_at t' l ++ route_for gateway ifindex ∷ [] else routes_at t' l)
unfolding routes_at new_route parse_dumbarp_route into_value
routes_at-listed t gateway ifindex [] t' = ground arith
routes_at-listed t gateway ifindex (m ∷ l) t' =
    ground (arith, routes_at-listed t gateway ifindex l t')

abbrev pub links : String → Option ℕ
links name = if name == "eth0" then some 2 else if name == "eth1" then some 3 else none

abbrev pub del_rule_of : Tables → Option (List RuleMessage) → Bool × Tables
del_rule_of s none = (false, s)
del_rule_of s (some l) = (true, record s { rules = l })

abbrev pub del_route_of : Tables → Option (List RouteMessage) → Bool × Tables
del_route_of s none = (false, s)
del_route_of s (some l) = (true, record s { routes = l })

abbrev pub memory : Netlink
memory = record {
  State = Tables;
  find_link = λ name s. links name;
  dump_rules = λ s. some s.rules;
  dump_routes = λ s. some s.routes;
  rule_add = λ r s. (true, record s { rules = s.rules ++ listed r ∷ [] });
  rule_del = λ req s. del_rule_of s (take_out req s.rules);
  route_add = λ r s. (true, record s { routes = s.routes ++ listed_route r ∷ [] });
  route_del = λ r s. del_route_of s (take_route r.table_id s.routes);
}

pub memory_rule_del :
    (req : RuleMessage) (s : Tables)
    → (memory.rule_del req s).0 ≡ true
    → Deleted req s.rules (memory.rule_del req s).1.rules
memory_rule_del req s e = elim (Option-cases (take_out req s.rules)) [
  | inl gone ↦ absurd (ground arith)
  | inr (l, found) ↦ rw (found, del_rule_of) (take_out-Deleted req s.rules l found)
]

pub memory_rule_del_routes :
    (req : RuleMessage) (s : Tables) → (memory.rule_del req s).1.routes ≡ s.routes
memory_rule_del_routes req s = ground arith

pub memory_route_del :
    (t : ℕ) (s : Tables)
    → (memory.route_del (old_route t) s).0 ≡ true
    → (t' : ℕ)
    → routes_at t' (memory.route_del (old_route t) s).1.routes
      ≡ (if t' == t then tail (routes_at t' s.routes) else routes_at t' s.routes)
unfolding old_route
memory_route_del t s e t' = elim (Option-cases (take_route t s.routes)) [
  | inl gone ↦ absurd (ground arith)
  | inr (l, found) ↦ rw (found, del_route_of) (take_route_lem t s.routes l found t')
]

pub memory_route_del_rules :
    (t : ℕ) (s : Tables) → (memory.route_del (old_route t) s).1.rules ≡ s.rules
memory_route_del_rules t s = ground arith

memory_rule_del_ok :
    (req hit : RuleMessage) (before after : List RuleMessage) (s : Tables)
    → s.rules ≡ before ++ hit ∷ after
    → selects req hit ≡ true
    → (memory.rule_del req s).0 ≡ true
memory_rule_del_ok req hit before after s split fit = elim (Option-cases (take_out req s.rules)) [
  | inl gone ↦ absurd (take_out_hit req hit before after fit (rw split at gone))
  | inr (l, found) ↦ rw (found, del_rule_of)
]

memory_route_del_ok :
    (t : ℕ) (s : Tables) → routes_at t s.routes ≢ [] → (memory.route_del (old_route t) s).0 ≡ true
unfolding old_route
memory_route_del_ok t s there = elim (Option-cases (take_route t s.routes)) [
  | inl gone ↦ absurd (take_route_hit t s.routes there gone)
  | inr (l, found) ↦ rw (found, del_route_of)
]

unfoldable pub memory_kernel : Kernel memory
memory_kernel = record {
  rules = λ s. s.rules;
  routes = λ s. s.routes;
  rule_add_lem = λ r s e. (
    listed r,
    listed-Describes r,
    record { before = s.rules; after = []; old = sym (append-nil s.rules); new = refl; last = tt },
  );
  rule_del_lem = memory_rule_del;
  rule_add_routes = λ r s. refl;
  rule_del_routes = memory_rule_del_routes;
  route_add_lem = λ t gateway ifindex s e. routes_at-listed t gateway ifindex s.routes;
  route_del_lem = memory_route_del;
  route_add_rules = λ t gateway ifindex s. refl;
  route_del_rules = memory_route_del_rules;
}

pub memory-Reliable : Reliable memory memory_kernel
unfolding memory_kernel
memory-Reliable = record {
  dump_rules_ok = λ s. refl;
  dump_routes_ok = λ s. refl;
  rule_del_ok = memory_rule_del_ok;
  rule_add_ok = λ src t mark s e. refl;
  route_del_ok = memory_route_del_ok;
  route_add_ok = λ t gateway ifindex s e. refl;
}
