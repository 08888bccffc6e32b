-- ===== src/Routing/Netlink.antt =====
-- The rtnetlink socket that dumbarp-routing/src/lib.rs holds, as an interface over the kernel's
-- state, and the requests that `add_rule`, `del_rule`, `add_route` and `del_route` send over it.
use dumbarp.Common.{ℕ, Bool, true, String, Option, none, some, List, [], ◌∷◌}
use dumbarp.Routing.{dumbarp_priority, dumbarp_proto_raw, fwmask_exact}
use dumbarp.Routing.Messages.{RuleMessage, RouteMessage, RuleAttribute, inet, source, fw_mark}

-- What the builder of `rule().add()` is given.
pub record NewRule : Type 0 where
  pub source_prefix : ℕ × ℕ
  pub table_id : ℕ
  pub priority : ℕ
  pub fw_mark : Option ℕ
  pub fw_mask : Option ℕ

-- What `RouteMessageBuilder` is given, for `route().add` and for `route().del`.
pub record NewRoute : Type 0 where
  pub table_id : ℕ
  pub protocol : ℕ
  pub output_interface : ℕ
  pub gateway : ℕ
  pub onlink : Bool

pub record OldRoute : Type 0 where
  pub table_id : ℕ
  pub protocol : ℕ

-- A request returns whether it succeeded, beside the state; a dump or a lookup may fail.
pub record Netlink : Type 1 where
  pub State : Type 0
  pub find_link : String → State → Option ℕ
  pub dump_rules : State → Option (List RuleMessage)
  pub dump_routes : State → Option (List RouteMessage)
  pub rule_add : NewRule → State → Bool × State
  pub rule_del : RuleMessage → State → Bool × State
  pub route_add : NewRoute → State → Bool × State
  pub route_del : OldRoute → State → Bool × State

-- a mark is matched under the mask of all ones
unfoldable pub new_rule : ℕ → ℕ → Option ℕ → NewRule
new_rule src table none = record {
  source_prefix = (src, 32);
  table_id = table;
  priority = dumbarp_priority;
  fw_mark = none;
  fw_mask = none;
}
new_rule src table (some mark) = record {
  source_prefix = (src, 32);
  table_id = table;
  priority = dumbarp_priority;
  fw_mark = some mark;
  fw_mask = some fwmask_exact;
}

abbrev mark_attributes : Option ℕ → List RuleAttribute
mark_attributes none = []
mark_attributes (some mark) = fw_mark mark ∷ []

unfoldable pub old_rule : ℕ → ℕ → Option ℕ → RuleMessage
old_rule src t fwmark = record {
  family = inet;
  src_len = 32;
  header_table = 0;
  attributes =
      source src
      ∷ RuleAttribute.table t
      ∷ RuleAttribute.priority dumbarp_priority
      ∷ mark_attributes fwmark;
}

unfoldable pub new_route : ℕ → ℕ → ℕ → NewRoute
new_route table gateway ifindex = record {
  table_id = table;
  protocol = dumbarp_proto_raw;
  output_interface = ifindex;
  gateway = gateway;
  onlink = true;
}

unfoldable pub old_route : ℕ → OldRoute
old_route table = record { table_id = table; protocol = dumbarp_proto_raw }
