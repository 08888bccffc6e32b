-- ===== src/Routing/Messages.antt =====
-- `parse_dumbarp_rule` and `parse_dumbarp_route` of dumbarp-routing/src/lib.rs. Of the messages of
-- the crate `netlink-packet-route` only the parts that the source reads or writes are kept.
use mathlib.Core.List.{foldl}
use dumbarp.Common.{
  ℕ, Bool, true, false, not, Option, none, some, List, ◌==◌, nat_eq, option_eq, if◌then◌else◌,
  filter_option,
}
use dumbarp.Routing.{CurrentRule, ParsedRoute, dumbarp_priority, dumbarp_proto_raw}

pub data AddressFamily : Type 0 where
  inet other_family : AddressFamily

abbrev pub is_inet : AddressFamily → Bool
is_inet inet = true
is_inet other_family = false

pub data RuleAttribute : Type 0 where
  priority source table fw_mark fw_mask : ℕ → RuleAttribute
  source_v6 other : RuleAttribute

pub record RuleMessage : Type 0 where
  pub family : AddressFamily
  pub src_len : ℕ
  pub header_table : ℕ
  pub attributes : List RuleAttribute

-- the five variables of the loop over the attributes
pub record RuleScan : Type 0 where
  pub priority : Option ℕ
  pub src : Option ℕ
  pub table_attr : Option ℕ
  pub fwmark : Option ℕ
  pub fwmask : Option ℕ

abbrev pub no_rule : RuleScan
no_rule = record { priority = none; src = none; table_attr = none; fwmark = none; fwmask = none }

unfoldable pub scan_rule : RuleScan → RuleAttribute → RuleScan
scan_rule s (RuleAttribute.priority p) = record s { priority = some p }
scan_rule s (source v4) = record s { src = some v4 }
scan_rule s (table t) = record s { table_attr = some t }
scan_rule s (fw_mark m) = record s { fwmark = some m }
scan_rule s (fw_mask m) = record s { fwmask = some m }
scan_rule s source_v6 = s
scan_rule s other = s

-- `opt.unwrap_or(d)` and `a.and(b)`
abbrev pub unwrap_or {ℓ} : {A : Type ℓ} → Option A → A → A
unwrap_or none d = d
unwrap_or (some a) d = a

abbrev pub and_option : Option ℕ → Option ℕ → Option ℕ
and_option none b = none
and_option (some a) b = b

-- what the loop has read, and the header
unfoldable pub finish_rule : RuleMessage → RuleScan → Option (ℕ × CurrentRule)
finish_rule msg s = if not (s.priority == some dumbarp_priority) then none else elim s.src [
  | none ↦ none
  | some src ↦
      let fwmark = filter_option (λ m. not (m == 0)) s.fwmark in
      if not (msg.src_len == 32)
      then none
      else some (
        unwrap_or s.table_attr msg.header_table,
        record { src = src; fwmark = fwmark; fwmask = and_option fwmark s.fwmask },
      )
]

unfoldable pub parse_dumbarp_rule : RuleMessage → Option (ℕ × CurrentRule)
unfolding scan_rule finish_rule
parse_dumbarp_rule msg =
    if not (is_inet msg.family)
    then none
    else finish_rule msg (foldl scan_rule no_rule msg.attributes)

pub data RouteAttribute : Type 0 where
  gateway oif table : ℕ → RouteAttribute
  other : RouteAttribute

-- `onlink` is `flags.contains(RouteFlags::Onlink)`.
pub record RouteMessage : Type 0 where
  pub address_family : AddressFamily
  pub protocol : ℕ
  pub onlink : Bool
  pub header_table : ℕ
  pub attributes : List RouteAttribute

pub record RouteScan : Type 0 where
  pub gateway : Option ℕ
  pub oif : Option ℕ
  pub table_attr : Option ℕ

abbrev pub no_route : RouteScan
no_route = record { gateway = none; oif = none; table_attr = none }

unfoldable pub scan_route : RouteScan → RouteAttribute → RouteScan
scan_route s (RouteAttribute.gateway v4) = record s { gateway = some v4 }
scan_route s (RouteAttribute.oif idx) = record s { oif = some idx }
scan_route s (RouteAttribute.table t) = record s { table_attr = some t }
scan_route s RouteAttribute.other = s

unfoldable pub finish_route : RouteMessage → RouteScan → Option ParsedRoute
finish_route msg s =
    let t = unwrap_or s.table_attr msg.header_table in
    elim s.gateway [
      | none ↦ none
      | some gw ↦ elim s.oif [
        | none ↦ none
        | some idx ↦ some (record { table = t; gateway = gw; oif = idx; onlink = msg.onlink })
      ]
    ]

unfoldable pub parse_dumbarp_route : RouteMessage → Option ParsedRoute
unfolding scan_route finish_route
parse_dumbarp_route msg =
    if not (is_inet msg.address_family)
    then none
    else if not (msg.protocol == dumbarp_proto_raw)
    then none
    else finish_route msg (foldl scan_route no_route msg.attributes)
