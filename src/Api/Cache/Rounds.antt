-- ===== src/Api/Cache/Rounds.antt =====
-- What a round of dumbarp-api/src/cache.rs does to the entry of each source, and what many do.
use mathlib.Core.Option
use mathlib.Core.Path.{subst}
use dumbarp.Common.{
  ℕ, ◌+◌, ◌-◌, ◌<◌, ◌≡◌, ◌≢◌, refl, ◌⊎◌, String, Option, none, some, List, [], ◌∷◌, ◌==◌, string_eq,
  arith, if◌then◌else◌, Option-cases, inl, inr, length, All, NoRepeat, lookup, insert, keys,
  lookup-insert, lookup-remove, lookup-map_values, lookup-eq-none, filter_option,
}
use dumbarp.Api.Cache.{
  CachedEntry, RoundStats, no_stats, Cached, is_fresh, keep_or_drop, apply_results, apply_round,
}

abbrev pub total : RoundStats → ℕ
total s = s.fetched_ok + s.used_cache + s.dropped

module _ {ℓ} {T : Type ℓ} (stale_after now : ℕ) where
  -- The entry that a source has after a round, from what it had and what its fetch gave, if it was
  -- asked.
  unfoldable pub entry_after : Option (Option T) → Option (CachedEntry T) → Option (CachedEntry T)
  unfolding is_fresh
  entry_after none old = old
  entry_after (some (some value)) old = some (record { value = value; last_success = now })
  entry_after (some none) old = filter_option (is_fresh stale_after now) old

  lookup-keep_or_drop :
      (name k : String) (stats : RoundStats) (cached : Cached T)
      → lookup k (keep_or_drop stale_after now name (lookup name cached) stats cached).1
        ≡ (if name == k then entry_after (some none) (lookup name cached) else lookup k cached)
  unfolding keep_or_drop entry_after
  lookup-keep_or_drop name k stats cached = elim (Option-cases (lookup name cached)) [
    | inl e ↦ ground (arith, lookup-remove name k cached)
    | inr (entry, e) ↦ ground (arith, string_eq.equal_iff name k, lookup-remove name k cached)
  ]

  pub lookup-apply_results :
      (results : List (String × Option T)) (stats : RoundStats) (cached : Cached T) (k : String)
      → NoRepeat (keys results)
      → lookup k (apply_results stale_after now results stats cached).1
        ≡ entry_after (lookup k results) (lookup k cached)
  unfolding apply_results entry_after lookup
  lookup-apply_results [] stats cached k once = refl
  lookup-apply_results ((name, some v) ∷ results) stats cached k once = ground (
    arith,
    string_eq.equal_iff name k,
    lookup-eq-none name results,
    lookup-insert name k (record { value = v; last_success = now }) cached,
    lookup-apply_results results (record stats { fetched_ok = stats.fetched_ok + 1 })
        (insert name (record { value = v; last_success = now }) cached) k once.1,
  )
  lookup-apply_results ((name, none) ∷ results) stats cached k once =
      let next = keep_or_drop stale_after now name (lookup name cached) stats cached in
      ground (
        arith,
        string_eq.equal_iff name k,
        lookup-eq-none name results,
        lookup-keep_or_drop name k stats cached,
        lookup-apply_results results next.0 next.1 k once.1,
      )

  apply_results-total :
      (results : List (String × Option T)) (stats : RoundStats) (cached : Cached T)
      → total (apply_results stale_after now results stats cached).0 ≡ total stats + length results
  unfolding apply_results keep_or_drop
  apply_results-total [] stats cached = ground arith
  apply_results-total ((name, some v) ∷ results) stats cached = ground (
    arith,
    apply_results-total results (record stats { fetched_ok = stats.fetched_ok + 1 })
        (insert name (record { value = v; last_success = now }) cached),
  )
  apply_results-total ((name, none) ∷ results) stats cached =
      let next = keep_or_drop stale_after now name (lookup name cached) stats cached in
      ground (arith, apply_results-total results next.0 next.1)

  -- A round that asks no source twice: the cache afterwards has for each source the value that was
  -- just fetched, or where the fetch failed the old entry if it is fresh, and keeps the entries of
  -- sources that were not asked; the view has the values of the cache; and every result is counted
  -- once.
  pub apply_round_lem :
      (results : List (String × Option T)) (cached : Cached T)
      → NoRepeat (keys results)
      → ((k : String)
          → lookup k (apply_round stale_after now results cached).1
            ≡ entry_after (lookup k results) (lookup k cached))
        × ((k : String)
            → lookup k (apply_round stale_after now results cached).0.1
              ≡ Option.map
                  (λ (entry : CachedEntry T). entry.value)
                  (lookup k (apply_round stale_after now results cached).1))
        × (total (apply_round stale_after now results cached).0.0 ≡ length results)
  unfolding apply_round
  apply_round_lem results cached once =
      let out = apply_results stale_after now results no_stats cached in
      (
        λ k. lookup-apply_results results no_stats cached k once,
        λ k. lookup-map_values _ k out.1,
        ground (arith, apply_results-total results no_stats cached),
      )

-- when a round was, and what its fetches gave
abbrev pub Round : Type 0 → Type 0
Round T = ℕ × List (String × Option T)

module _ {T : Type 0} where
  -- The source `k` gave `v` in one of the rounds, which was at the time `t`.
  abbrev pub IsFetched : String → T → ℕ → List (Round T) → Type 0
  IsFetched k v t [] = ⊥
  IsFetched k v t ((now, results) ∷ earlier) =
      ((t ≡ now) × (lookup k results ≡ some (some v))) ⊎ IsFetched k v t earlier

module _ {T : Type 0} (stale_after : ℕ) where
  -- the cache after the rounds, of which the latest comes first
  unfoldable pub after_rounds : List (Round T) → Cached T
  unfolding apply_round
  after_rounds [] = []
  after_rounds ((now, results) ∷ earlier) =
      (apply_round stale_after now results (after_rounds earlier)).1

  after_rounds-IsFetched :
      (rounds : List (Round T)) (k : String) (entry : CachedEntry T)
      → All (λ (r : Round T). NoRepeat (keys r.1)) rounds
      → lookup k (after_rounds rounds) ≡ some entry
      → IsFetched k entry.value entry.last_success rounds
  unfolding after_rounds entry_after lookup
  after_rounds-IsFetched [] k entry once e = ground arith
  after_rounds-IsFetched ((now, results) ∷ earlier) k entry once e = ground (
    arith,
    lookup-apply_results stale_after now results no_stats (after_rounds earlier) k once.0,
    after_rounds-IsFetched earlier k entry once.1,
  )

  -- Sources are asked in round after round, none twice in one. If the view of the latest round has a
  -- value for a source that was asked in it, then the source gave that value in a round that was the
  -- latest, or less than `stale_after` before it.
  pub view-IsFetched :
      (now : ℕ) (results : List (String × Option T)) (earlier : List (Round T)) (k : String) (v : T)
      → All (λ (r : Round T). NoRepeat (keys r.1)) ((now, results) ∷ earlier)
      → lookup k results ≢ none
      → lookup k (apply_round stale_after now results (after_rounds earlier)).0.1 ≡ some v
      → (t : ℕ) × ((t ≡ now) ⊎ (now - t < stale_after)) × IsFetched k v t ((now, results) ∷ earlier)
  unfolding entry_after is_fresh
  view-IsFetched now results earlier k v once asked seen =
      let cached = after_rounds earlier in
      let round = apply_round_lem stale_after now results cached once.0 in
      elim (Option-cases (lookup k (apply_round stale_after now results cached).1)) [
        | inl gone ↦ absurd (ground (arith, round.1 k))
        | inr (entry, e) ↦
            let fetched : IsFetched k entry.value entry.last_success ((now, results) ∷ earlier) =
              after_rounds-IsFetched ((now, results) ∷ earlier) k entry once
                (unfold after_rounds in e) in
            let same : entry.value ≡ v = ground (arith, round.1 k) in
            (
              entry.last_success,
              elim (Option-cases (lookup k results)) [
                | inl not_asked ↦ absurd (asked not_asked)
                | inr (none, failed) ↦ elim (Option-cases (lookup k cached)) [
                  | inl absent ↦ absurd (ground (arith, round.0 k))
                  | inr (old, o) ↦ inr (ground (arith, round.0 k))
                ]
                | inr (some value, given) ↦ inl (ground (arith, round.0 k))
              ],
              subst (λ (x : T). IsFetched k x entry.last_success ((now, results) ∷ earlier)) same
                  fetched,
            )
      ]
