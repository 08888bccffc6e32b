-- ===== src/Gateway/Fetched.antt =====
-- Where the specs of a pass of dumbarp-gateway/src/reconcile.rs come from.
use mathlib.Core.Option
use dumbarp.Common.{
  ℕ, ◌-◌, ◌<◌, ◌≡◌, ◌↔◌, ◌⊎◌, refl, sym, ap, ◌∙◌, inl, inr, false, String, Option, none, some, List,
  [], ◌∷◌, string_eq, arith, NoRepeat, contains, length, Option-cases, Dict, keys, lookup,
}
use dumbarp.Routing.{RouteSpec}
use dumbarp.Api.{Leases}
use dumbarp.Api.Cache.{Cached, CachedEntry, is_fresh, apply_round}
use dumbarp.Api.Cache.Rounds.{entry_after, apply_round_lem}
use dumbarp.Router.Config.{DaemonEntry}
use dumbarp.Router.Config.Valid.{names}
use dumbarp.Router.Specs.Sources.{IsFor}
use dumbarp.Router.Pass.{zip_names}

-- `spec` is for an address that a daemon has in the view, with that daemon's nexthop and device and
-- without a mark.
abbrev pub FromLeases : Dict String Leases → List DaemonEntry → RouteSpec → Type 0
FromLeases view [] spec = ⊥
FromLeases view (d ∷ daemons) spec =
    ((leases : Leases) × (lookup d.name view ≡ some leases)
      × IsFor d.nexthop d.device none leases.ips spec)
    ⊎ FromLeases view daemons spec

-- Each daemon's result is found under its name.
abbrev Aligned : List DaemonEntry → List (Option Leases) → Dict String (Option Leases) → Type 0
Aligned [] results m = Unit
Aligned (d ∷ daemons) [] m = ⊥
Aligned (d ∷ daemons) (r ∷ results) m = (lookup d.name m ≡ some r) × Aligned daemons results m

Aligned-more :
    (name : String) (v : Option Leases) (daemons : List DaemonEntry)
    (results : List (Option Leases)) (m : Dict String (Option Leases))
    → contains (names daemons) name ≡ false
    → Aligned daemons results m
    → Aligned daemons results ((name, v) ∷ m)
Aligned-more name v [] results m new a = tt
Aligned-more name v (d ∷ daemons) [] m new a = absurd a
Aligned-more name v (d ∷ daemons) (r ∷ results) m new a = (
  unfold lookup in
      ground (arith, new, a.0, string_eq.equal_iff name d.name, string_eq.equal_iff d.name name),
  Aligned-more name v daemons results m (ground (arith, new)) a.1,
)

keys-zip_names :
    (daemons : List DaemonEntry) (results : List (Option Leases))
    → length results ≡ length daemons
    → keys (zip_names daemons results) ≡ names daemons
unfolding zip_names
keys-zip_names [] [] each = refl
keys-zip_names [] (r ∷ results) each = refl
keys-zip_names (d ∷ daemons) [] each = absurd (omega (arith, each))
keys-zip_names (d ∷ daemons) (r ∷ results) each =
    ap (λ l. d.name ∷ l) (keys-zip_names daemons results (omega (arith, each)))

zip_names-Aligned :
    (daemons : List DaemonEntry) (results : List (Option Leases))
    → NoRepeat (names daemons)
    → length results ≡ length daemons
    → Aligned daemons results (zip_names daemons results)
unfolding zip_names
zip_names-Aligned [] results once each = tt
zip_names-Aligned (d ∷ daemons) [] once each = absurd (omega (arith, each))
zip_names-Aligned (d ∷ daemons) (r ∷ results) once each = (
  unfold lookup in ground (arith, string_eq.equal_iff d.name d.name),
  Aligned-more d.name r daemons results (zip_names daemons results) once.0
      (zip_names-Aligned daemons results once.1 (omega (arith, each))),
)

module _ (stale_after now : ℕ) (cache : Cached Leases) where
  -- What is known of a daemon: what its fetch has given, or if that failed its entry in the cache, if
  -- that is fresh.
  abbrev pub IsKnown : String → Option Leases → Leases → Type 0
  IsKnown name (some got) l = l ≡ got
  IsKnown name none l =
      (entry : CachedEntry Leases) × (lookup name cache ≡ some entry)
      × (now - entry.last_success < stale_after)
      × (l ≡ entry.value)

  -- `spec` is for an address that is known of a daemon, with the daemon's nexthop and device and
  -- without a mark.
  abbrev pub FromFetches : List DaemonEntry → List (Option Leases) → RouteSpec → Type 0
  FromFetches [] results spec = ⊥
  FromFetches (d ∷ daemons) [] spec = ⊥
  FromFetches (d ∷ daemons) (r ∷ results) spec =
      ((l : Leases) × IsKnown d.name r l × IsFor d.nexthop d.device none l.ips spec)
      ⊎ FromFetches daemons results spec

  IsKnown-value :
      (name : String) (r : Option Leases) (l : Leases)
      → (Option.map
            (λ (entry : CachedEntry Leases). entry.value)
            (entry_after stale_after now (some r) (lookup name cache))
          ≡ some l)
        ↔ IsKnown name r l
  unfolding entry_after is_fresh
  IsKnown-value name (some got) l = (λ e. ground (arith, e), λ e. ground (arith, e))
  IsKnown-value name none l = elim (Option-cases (lookup name cache)) [
    | inl gone ↦ (
      λ e. absurd (ground (arith, gone, e)),
      λ (entry, is, fresh, value). absurd (ground (arith, gone, is)),
    )
    | inr (entry, is) ↦ (
      λ e. (entry, is, ground (arith, is, e), ground (arith, is, e)),
      λ (entry', is', fresh, value).
          let same : entry ≡ entry' = ground (arith, is, is') in ground (arith, is', fresh, value),
    )
  ]

  view-IsKnown :
      (results : Dict String (Option Leases)) (name : String) (r : Option Leases) (l : Leases)
      → NoRepeat (keys results)
      → lookup name results ≡ some r
      → (lookup name (apply_round stale_after now results cache).0.1 ≡ some l) ↔ IsKnown name r l
  view-IsKnown results name r l once is =
      let (after, view, count) = apply_round_lem stale_after now results cache once in
      let value =
        view name
        ∙ ap (λ e. Option.map (λ (entry : CachedEntry Leases). entry.value) e)
            (after name ∙ ap (λ x. entry_after stale_after now x (lookup name cache)) is) in
      let known = IsKnown-value name r l in (λ e. known.0 (sym value ∙ e), λ k. value ∙ known.1 k)

  from_view :
      (asked : Dict String (Option Leases)) (daemons : List DaemonEntry)
      (results : List (Option Leases)) (spec : RouteSpec)
      → NoRepeat (keys asked)
      → Aligned daemons results asked
      → FromLeases (apply_round stale_after now asked cache).0.1 daemons spec
        ↔ FromFetches daemons results spec
  from_view asked [] results spec once a = (λ h. h, λ h. h)
  from_view asked (d ∷ daemons) [] spec once a = absurd a
  from_view asked (d ∷ daemons) (r ∷ results) spec once a =
      let rest = from_view asked daemons results spec once a.1 in
      (
        λ h. elim h [
          | inl (l, has, f) ↦ inl (l, (view-IsKnown asked d.name r l once a.0).0 has, f)
          | inr later ↦ inr (rest.0 later)
        ],
        λ h. elim h [
          | inl (l, known, f) ↦ inl (l, (view-IsKnown asked d.name r l once a.0).1 known, f)
          | inr later ↦ inr (rest.1 later)
        ],
      )

  pub FromLeases-FromFetches :
      (daemons : List DaemonEntry) (results : List (Option Leases)) (spec : RouteSpec)
      → NoRepeat (names daemons)
      → length results ≡ length daemons
      → FromLeases (apply_round stale_after now (zip_names daemons results) cache).0.1 daemons spec
        ↔ FromFetches daemons results spec
  FromLeases-FromFetches daemons results spec once each =
      from_view (zip_names daemons results) daemons results spec
        (rw (keys-zip_names daemons results each) once)
        (zip_names-Aligned daemons results once each)
