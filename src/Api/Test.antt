-- ===== src/Api/Test.antt =====
-- Runs of dumbarp-api/src, and its theorems at concrete inputs.
use mathlib.Core.Option
use dumbarp.Common.{
  ℕ, ◌-◌, ◌<◌, ◌≡◌, refl, ◌⊎◌, String, Option, none, some, List, [], ◌∷◌, string_eq, arith, length,
  lookup, insert, remove,
}
use dumbarp.Api.Cache.{CachedEntry, Cached, apply_round}
use dumbarp.Api.Cache.Rounds.{
  Round, total, entry_after, after_rounds, IsFetched, apply_round_lem, view-IsFetched,
}

-- one answer, and two sources that fail: "b" has a fresh entry, "c" has a stale one
abbrev results : List (String × Option ℕ)
results = ("a", some 1) ∷ ("b", none) ∷ ("c", none) ∷ []

abbrev cached : Cached ℕ
cached =
    ("b", record { value = 2; last_success = 95 })
    ∷ ("c", record { value = 3; last_success = 80 })
    ∷ []

round_runs : apply_round 10 100 results cached ≡ (
  (record { fetched_ok = 1; used_cache = 1; dropped = 1 }, ("b", 2) ∷ ("a", 1) ∷ []),
  ("b", record { value = 2; last_success = 95 })
      ∷ ("a", record { value = 1; last_success = 100 })
      ∷ [],
)
unfolding apply_round insert remove
round_runs = refl

apply_round_lem_example :
    ((k : String)
      → lookup k (apply_round 10 100 results cached).1
        ≡ entry_after 10 100 (lookup k results) (lookup k cached))
    × ((k : String)
        → lookup k (apply_round 10 100 results cached).0.1
          ≡ Option.map
              (λ (entry : CachedEntry ℕ). entry.value)
              (lookup k (apply_round 10 100 results cached).1))
    × (total (apply_round 10 100 results cached).0.0 ≡ length results)
apply_round_lem_example = apply_round_lem 10 100 results cached (ground arith)

abbrev failed : List (String × Option ℕ)
failed = ("a", none) ∷ []

abbrev earlier : List (Round ℕ)
earlier = (95, ("a", some 1) ∷ []) ∷ []

view-IsFetched_example :
    (t : ℕ) × ((t ≡ 100) ⊎ (100 - t < 10)) × IsFetched "a" 1 t ((100, failed) ∷ earlier)
unfolding after_rounds lookup insert
view-IsFetched_example =
    view-IsFetched 10 100 failed earlier "a" 1 (ground arith) (λ e. ground arith) refl
