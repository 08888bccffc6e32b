-- ===== src/Routing/Kernel.antt =====
-- What dumbarp-routing/src/lib.rs relies on in the kernel: how its requests change the policy rules
-- and the routes that a dump lists.
use mathlib.Core.List.{foldl, append-nil}
use dumbarp.Common.{
  ℕ, Bool, true, false, not, ◌&&◌, ◌≡◌, refl, ap, Option, none, some, List, [], ◌∷◌, ◌++◌, ◌==◌,
  nat_eq, option_eq, arith, All, Option-cases, Bool-cases, filter_option, ◌≢◌, inl, inr,
}
use dumbarp.Routing.{CurrentRule, expected_fwmask, dumbarp_priority}
use dumbarp.Routing.Messages.{
  RuleMessage, RuleScan, inet, is_inet, scan_rule, no_rule, parse_dumbarp_rule, unwrap_or,
  and_option,
}
use dumbarp.Routing.Netlink.{NewRule, new_rule, old_rule}
use dumbarp.Routing.Views.{rules_at, rules_at-append}

-- the attributes of a message, by kind
abbrev pub scan : RuleMessage → RuleScan
scan m = foldl scan_rule no_rule m.attributes

-- a field that a request leaves open fits any value
abbrev pub fits : Option ℕ → Option ℕ → Bool
fits none v = true
fits (some a) v = v == some a

-- The deletion request `req` fits the rule `m`: the same family and prefix length, and each
-- attribute that the request gives.
unfoldable pub selects : RuleMessage → RuleMessage → Bool
selects req m =
    is_inet req.family
    && is_inet m.family
    && req.src_len == m.src_len
    && fits (scan req).priority (scan m).priority
    && fits (scan req).src (scan m).src
    && fits (scan req).table_attr (some (unwrap_or (scan m).table_attr m.header_table))
    && fits (scan req).fwmark (scan m).fwmark

-- `m` is the rule that was asked for.
pub record Describes (r : NewRule) (m : RuleMessage) : Type 0 where
  pub family : m.family ≡ inet
  pub src_len : m.src_len ≡ r.source_prefix.1
  pub attributes : scan m ≡ record {
    priority = some r.priority;
    src = some r.source_prefix.0;
    table_attr = some r.table_id;
    fwmark = r.fw_mark;
    fwmask = r.fw_mask;
  }

-- The rules `l'` are `l` with `m` behind all rules of its priority.
pub record Inserted (m : RuleMessage) (l l' : List RuleMessage) : Type 0 where
  pub before : List RuleMessage
  pub after : List RuleMessage
  pub old : l ≡ before ++ after
  pub new : l' ≡ before ++ m ∷ after
  pub last : All (λ x. ((scan x).priority == (scan m).priority) ≡ false) after

-- The rules `l'` are `l` without the first that the request fits.
pub record Deleted (req : RuleMessage) (l l' : List RuleMessage) : Type 0 where
  pub before : List RuleMessage
  pub hit : RuleMessage
  pub after : List RuleMessage
  pub old : l ≡ before ++ hit ∷ after
  pub new : l' ≡ before ++ after
  pub fit : selects req hit ≡ true
  pub first : All (λ x. selects req x ≡ false) before

-- A rule that `list_rules` keeps is fitted by the request that `del_rule` makes for it, and what
-- such a request fits is a dumbarp rule of the table.
pub selects-old_rule :
    (m : RuleMessage) (t : ℕ) (r : CurrentRule)
    → parse_dumbarp_rule m ≡ some (t, r)
    → selects (old_rule r.src t r.fwmark) m ≡ true
unfolding selects old_rule parse_dumbarp_rule
selects-old_rule m t r e = ground arith

-- the rule that the scan of a message with the source `src` gives
abbrev pub rule_of : ℕ → RuleMessage → CurrentRule
rule_of src m =
    let mark = filter_option (λ (k : ℕ). not (k == 0)) (scan m).fwmark in
    record { src = src; fwmark = mark; fwmask = and_option mark (scan m).fwmask }

pub parse-selects :
    (m : RuleMessage) (src t : ℕ) (mark : Option ℕ)
    → selects (old_rule src t mark) m ≡ true
    → parse_dumbarp_rule m ≡ some (t, rule_of src m)
unfolding selects old_rule parse_dumbarp_rule
parse-selects m src t none e = ground arith
parse-selects m src t (some mark) e = ground arith

-- Of rules that the request does not fit, none is the first of the table if that has its source
-- and mark.
rules_at-before :
    (t : ℕ) (r : CurrentRule) (before rest : List RuleMessage) (rs : List CurrentRule)
    → All (λ x. selects (old_rule r.src t r.fwmark) x ≡ false) before
    → rules_at t (before ++ rest) ≡ r ∷ rs
    → rules_at t before ≡ []
unfolding rules_at
rules_at-before t r [] rest rs h e = refl
rules_at-before t r (m ∷ before) rest rs h e = elim (Option-cases (parse_dumbarp_rule m)) [
  | inl p ↦ ground (arith, rules_at-before t r before rest rs h.1)
  | inr ((table, rule), p) ↦ elim (Bool-cases (table == t)) [
    | inl here ↦
        let same : table ≡ t = ground arith in absurd (ground (arith, selects-old_rule m t rule))
    | inr other ↦ ground (arith, rules_at-before t r before rest rs h.1)
  ]
]

-- Deleting the first rule of a table takes it out of the table, and touches no other table.
pub rules_at-Deleted :
    (t : ℕ) (r : CurrentRule) (rs : List CurrentRule) (l l' : List RuleMessage)
    → rules_at t l ≡ r ∷ rs
    → Deleted (old_rule r.src t r.fwmark) l l'
    → (rules_at t l' ≡ rs) × ((t' : ℕ) → t' ≢ t → rules_at t' l' ≡ rules_at t' l)
unfolding rules_at
rules_at-Deleted t r rs l l' e d =
    let p = parse-selects d.hit r.src t r.fwmark d.fit in
    let e' : rules_at t (d.before ++ d.hit ∷ d.after) ≡ r ∷ rs = rw d.old at e in
    let none_before = rules_at-before t r d.before (d.hit ∷ d.after) rs d.first e' in
    (
      rw (d.new, rules_at-append, none_before)
          (ground (arith, rules_at-append t d.before (d.hit ∷ d.after))),
      λ t' other. rw (d.new, d.old, rules_at-append, rules_at-append) (ground arith),
    )

abbrev pub rule_for : ℕ → Option ℕ → CurrentRule
rule_for src mark = record { src = src; fwmark = mark; fwmask = expected_fwmask mark }

-- What `add_rule` asks for is what `parse_dumbarp_rule` reads back, if the mark is not 0.
pub parse-new_rule :
    (src t : ℕ) (mark : Option ℕ) (m : RuleMessage)
    → mark ≢ some 0
    → Describes (new_rule src t mark) m
    → parse_dumbarp_rule m ≡ some (t, rule_for src mark)
unfolding new_rule parse_dumbarp_rule expected_fwmask
parse-new_rule src t none m marked d = ground arith
parse-new_rule src t (some mark) m marked d = ground arith

rules_at-after :
    (t : ℕ) (after : List RuleMessage)
    → All (λ x. ((scan x).priority == some dumbarp_priority) ≡ false) after
    → rules_at t after ≡ []
unfolding rules_at parse_dumbarp_rule
rules_at-after t [] h = refl
rules_at-after t (m ∷ after) h = ground (arith, rules_at-after t after h.1)

priority-new_rule :
    (src t : ℕ) (mark : Option ℕ) (m : RuleMessage)
    → Describes (new_rule src t mark) m
    → (scan m).priority ≡ some dumbarp_priority
unfolding new_rule
priority-new_rule src t none m d = ap (λ (s : RuleScan). s.priority) d.attributes
priority-new_rule src t (some k) m d = ap (λ (s : RuleScan). s.priority) d.attributes

-- Adding a rule puts it behind the dumbarp rules of its table, and touches no other table.
pub rules_at-Inserted :
    (src t : ℕ) (mark : Option ℕ) (m : RuleMessage) (l l' : List RuleMessage)
    → mark ≢ some 0
    → Describes (new_rule src t mark) m
    → Inserted m l l'
    → (rules_at t l' ≡ rules_at t l ++ rule_for src mark ∷ [])
      × ((t' : ℕ) → t' ≢ t → rules_at t' l' ≡ rules_at t' l)
unfolding rules_at
rules_at-Inserted src t mark m l l' marked d i =
    let p = parse-new_rule src t mark m marked d in
    let prio = priority-new_rule src t mark m d in
    let last : All (λ x. ((scan x).priority == some dumbarp_priority) ≡ false) i.after =
      rw prio at i.last in
    let none_after = rules_at-after t i.after last in
    (
      rw (i.new, i.old, rules_at-append, rules_at-append, none_after)
          (ground (arith, append-nil (rules_at t i.before))),
      λ t' other. rw (i.new, i.old, rules_at-append, rules_at-append) (ground arith),
    )
