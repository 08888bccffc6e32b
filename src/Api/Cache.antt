-- ===== src/Api/Cache.antt =====
-- dumbarp-api/src/cache.rs: the last value that each source gave. Instants and durations are
-- numbers of nanoseconds, and `duration_since` stops at 0.
pub mod Rounds
use dumbarp.Common.{
  ℕ, ◌+◌, ◌-◌, ◌<◌, ◌≡◌, refl, Bool, String, Option, none, some, List, [], ◌∷◌, ◌==◌, string_eq,
  nat_eq, ltb, arith, if◌then◌else◌, Option-cases, Bool-cases, inl, inr, length, contains, NoRepeat,
  Dict, lookup, insert, remove, keys, lookup-insert, lookup-remove, map_values, filter_option,
}

pub record CachedEntry {ℓ} (T : Type ℓ) : Type ℓ where
  pub value : T
  pub last_success : ℕ

pub record RoundStats : Type 0 where
  pub fetched_ok : ℕ
  pub used_cache : ℕ
  pub dropped : ℕ

abbrev pub no_stats : RoundStats
no_stats = record { fetched_ok = 0; used_cache = 0; dropped = 0 }

abbrev pub Cached {ℓ} : Type ℓ → Type ℓ
Cached T = Dict String (CachedEntry T)

module _ {ℓ} {T : Type ℓ} where
  -- the guard on an entry
  unfoldable pub is_fresh : ℕ → ℕ → CachedEntry T → Bool
  is_fresh stale_after now entry = ltb (now - entry.last_success) stale_after

  -- a failed fetch keeps a fresh entry, and removes any other
  unfoldable pub keep_or_drop :
      ℕ → ℕ → String → Option (CachedEntry T) → RoundStats → Cached T → RoundStats × Cached T
  unfolding is_fresh
  keep_or_drop stale_after now name none stats cached =
      (record stats { dropped = stats.dropped + 1 }, remove name cached)
  keep_or_drop stale_after now name (some entry) stats cached =
      if is_fresh stale_after now entry
      then (record stats { used_cache = stats.used_cache + 1 }, cached)
      else (record stats { dropped = stats.dropped + 1 }, remove name cached)

  -- the loop; a result is `none` if the fetch failed
  unfoldable pub apply_results :
      ℕ → ℕ → List (String × Option T) → RoundStats → Cached T → RoundStats × Cached T
  unfolding keep_or_drop lookup
  apply_results stale_after now [] stats cached = (stats, cached)
  apply_results stale_after now ((name, some value) ∷ results) stats cached =
      apply_results stale_after now results (record stats { fetched_ok = stats.fetched_ok + 1 })
        (insert name (record { value = value; last_success = now }) cached)
  apply_results stale_after now ((name, none) ∷ results) stats cached =
      let (stats', cached') = keep_or_drop stale_after now name (lookup name cached) stats cached in
      apply_results stale_after now results stats' cached'

  unfoldable pub snapshot : Cached T → Dict String T
  unfolding map_values
  snapshot cached = map_values (λ (entry : CachedEntry T). entry.value) cached

  unfoldable pub apply_round :
      ℕ → ℕ → List (String × Option T) → Cached T → (RoundStats × Dict String T) × Cached T
  unfolding apply_results snapshot
  apply_round stale_after now results cached =
      let (stats, cached') = apply_results stale_after now results no_stats cached in
      ((stats, snapshot cached'), cached')
