-- ===== src/Router/Pass/Marks.antt =====
-- The map of the classifier after a pass of dumbarp-routerd/src/reconcile.rs, and the marks of the rules.
use dumbarp.Common.{
  ℕ, ◌≤◌, ◌≡◌, inl, inr, String, Option, some, List, nat_eq, string_eq, arith, All, All-Among,
  Among-All, Among-values, lookup-Among, contains, contains-Among, Bool-cases, Dict, lookup, values,
}
use dumbarp.Router.Ids.{RememberedId, resolve_ids}
use dumbarp.Router.Ids.Claims.{resolve_ids_lem, resolve_ids-NoRepeat}
use dumbarp.Router.Datapath.{IdMap, IsHashMap, sync_ids}
use dumbarp.Router.Datapath.Synced.{IsTag, sync_ids_lem}

module _ (stale now : ℕ) (advertised : List (String × Option ℕ))
    (remembered : Dict String RememberedId) where
  abbrev pub given : Dict String ℕ
  given = (resolve_ids stale now advertised remembered).0

  -- The ids that are given out are tags.
  pub given-IsTag : (name : String) (id : ℕ) → lookup name given ≡ some id → IsTag 63 id
  given-IsTag name id found =
      let (lo, hi, same) =
        resolve_ids_lem stale now advertised remembered name name id id found found in
      (lo, hi)

  values-IsTag : All (IsTag 63) (values given)
  values-IsTag = All-Among (IsTag 63) (values given) (λ id among.
      let (name, found) =
        Among-values id given (resolve_ids-NoRepeat stale now advertised remembered) among in
      given-IsTag name id found)

  -- After `sync_ids` every id that was given out goes to itself, and no key is not a tag.
  pub sync_ids-given :
      (m : IdMap) (s : m.State)
      → IsHashMap m
      → ((name : String) (mark : ℕ)
          → lookup name given ≡ some mark
          → m.get mark (sync_ids m (values given) s).1 ≡ some mark)
        × ((d v : ℕ)
            → m.get d (sync_ids m (values given) s).1 ≡ some v
            → (1 ≤ d) × (d ≤ 63) × (v ≡ d))
  sync_ids-given m s ok =
      let (done, have) = sync_ids_lem m ok (values given) s values-IsTag in
      (
        λ name mark found.
            let there =
              (contains-Among (values given) mark).1 (lookup-Among name mark given found) in
            ground (arith, have mark, there),
        λ d v e. elim (Bool-cases (contains (values given) d)) [
          | inr absent ↦ absurd (ground (arith, have d))
          | inl there ↦
              let (lo, hi) =
                Among-All (IsTag 63) (values given) d values-IsTag
                  ((contains-Among (values given) d).0 there) in
              (lo, hi, ground (arith, have d))
        ],
      )
