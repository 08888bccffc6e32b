-- ===== src/Routing/Wanted.antt =====
-- The tables that a list of specs asks for, in dumbarp-routing/src/lib.rs.
use dumbarp.Common.{
  ℕ, ◌≡◌, ◌≢◌, refl, inl, inr, Option, none, some, List, [], ◌∷◌, ◌==◌, nat_eq, string_eq, arith,
  if◌then◌else◌, All, Option-cases, Bool-cases, Dict, lookup, insert, lookup-insert, contains,
  NoRepeat, String,
}
use dumbarp.Routing.{RouteSpec, ResolvedSpec}
use dumbarp.Routing.Netlink.{Netlink}
use dumbarp.Routing.Reconcile.{resolve, resolved_with, dedup}
use dumbarp.Routing.TableId.{table_id_for}

pub contains-dedup : (l : List ℕ) (t : ℕ) → contains (dedup l) t ≡ contains l t
unfolding dedup
contains-dedup [] t = refl
contains-dedup (x ∷ l) t = ground (arith, contains-dedup l t, contains-dedup l x)

pub dedup-NoRepeat : (l : List ℕ) → NoRepeat (dedup l)
unfolding dedup
dedup-NoRepeat [] = tt
dedup-NoRepeat (x ∷ l) = ground (arith, dedup-NoRepeat l)

-- A mark of 0 is no mark to the kernel.
abbrev pub IsMarkable : Option ℕ → Type 0
IsMarkable mark = mark ≢ some 0

abbrev pub WantMarkable : Option ResolvedSpec → Type 0
WantMarkable none = Unit
WantMarkable (some w) = IsMarkable w.fwmark

module _ (nl : Netlink) (s : nl.State) (t : ℕ) where
  -- What is wanted of table `t`: the last spec whose source has that table and whose interface
  -- is there, or else `d`.
  unfoldable pub wanted : Option ResolvedSpec → List RouteSpec → Option ResolvedSpec
  wanted d [] = d
  wanted d (spec ∷ desired) =
      wanted
        (if table_id_for spec.src == t
          then elim (nl.find_link spec.iface s) [
            | some idx ↦ some (resolved_with spec idx)
            | none ↦ d
          ]
          else d)
        desired

  -- the cache holds answers of the kernel
  abbrev pub IsCache : Dict String ℕ → Type 0
  IsCache cache =
      (iface : String) (idx : ℕ) → lookup iface cache ≡ some idx → nl.find_link iface s ≡ some idx

  IsCache-insert :
      (cache : Dict String ℕ) (iface : String) (idx : ℕ)
      → nl.find_link iface s ≡ some idx
      → IsCache cache
      → IsCache (insert iface idx cache)
  IsCache-insert cache iface idx found h i j q =
      ground (arith, h i j, lookup-insert iface i idx cache, string_eq.equal_iff iface i)

  -- The map of resolved specs has for a table what is wanted of it: asking for each interface once
  -- makes no difference, and of two specs for one table the later wins.
  pub lookup-resolve :
      (cache : Dict String ℕ) (resolved : Dict ℕ ResolvedSpec) (desired : List RouteSpec)
      → IsCache cache
      → lookup t (resolve nl s cache resolved desired) ≡ wanted (lookup t resolved) desired
  unfolding resolve wanted
  lookup-resolve cache resolved [] h = refl
  lookup-resolve cache resolved (spec ∷ desired) h = elim (Option-cases (lookup spec.iface cache)) [
    | inr (idx, e) ↦
        let table = table_id_for spec.src in
        ground (
          arith,
          h spec.iface idx,
          lookup-insert table t (resolved_with spec idx) resolved,
          lookup-resolve cache (insert table (resolved_with spec idx) resolved) desired h,
        )
    | inl e ↦ elim (Option-cases (nl.find_link spec.iface s)) [
      | inl gone ↦ ground (arith, lookup-resolve cache resolved desired h)
      | inr (idx, found) ↦
          let table = table_id_for spec.src in
          ground (
            arith,
            lookup-insert table t (resolved_with spec idx) resolved,
            lookup-resolve (insert spec.iface idx cache)
                (insert table (resolved_with spec idx) resolved) desired
                (IsCache-insert cache spec.iface idx found h),
          )
    ]
  ]

  pub lookup-resolve_nil :
      (desired : List RouteSpec) → lookup t (resolve nl s [] [] desired) ≡ wanted none desired
  unfolding lookup
  lookup-resolve_nil desired = lookup-resolve [] [] desired (λ iface idx e. cc)

  pub wanted-WantMarkable :
      (d : Option ResolvedSpec) (desired : List RouteSpec)
      → WantMarkable d
      → All (λ (spec : RouteSpec). IsMarkable spec.fwmark) desired
      → WantMarkable (wanted d desired)
  unfolding wanted
  wanted-WantMarkable d [] h all = h
  wanted-WantMarkable d (spec ∷ desired) h all = elim (Bool-cases (table_id_for spec.src == t)) [
    | inr other ↦ rw other (wanted-WantMarkable d desired h all.1)
    | inl mine ↦ elim (Option-cases (nl.find_link spec.iface s)) [
      | inl gone ↦ rw (mine, gone) (wanted-WantMarkable d desired h all.1)
      | inr (idx, found) ↦
          rw (mine, found) (wanted-WantMarkable (some (resolved_with spec idx)) desired all.0 all.1)
    ]
  ]
