-- ===== src/Router/Datapath.antt =====
-- `Datapath::sync_ids` and `Datapath::counters` of dumbarp-routerd/src/datapath.rs. The map
-- `DSCP_IDS` lies in the kernel, and is a parameter.
pub mod Synced
use dumbarp.Common.{
  ℕ, ◌+◌, ◌%◌, ◌^◌, ◌<◌, ◌≡◌, ◌≢◌, Bool, true, false, not, Option, none, some, List, [], ◌∷◌, ◌==◌,
  nat_eq, if◌then◌else◌, contains, NoRepeat, length,
}

-- `keys` gives the keys that can be read; the result of a removal is ignored.
pub record IdMap : Type 1 where
  pub State : Type 0
  pub get : ℕ → State → Option ℕ
  pub keys : State → List ℕ
  pub remove : ℕ → State → State
  pub insert : ℕ → ℕ → State → Option State

-- A hash map of the kernel with room for 64 entries.
pub record IsHashMap (m : IdMap) : Type 0 where
  pub keys_lem : (k : ℕ) (s : m.State) → (contains (m.keys s) k ≡ false) → m.get k s ≡ none
  pub keys_once : (s : m.State) → NoRepeat (m.keys s)
  pub keys_found : (k : ℕ) (s : m.State) → contains (m.keys s) k ≡ true → m.get k s ≢ none
  pub remove_lem :
      (k j : ℕ) (s : m.State) → m.get j (m.remove k s) ≡ (if k == j then none else m.get j s)
  pub insert_lem :
      (k v j : ℕ) (s s' : m.State)
      → m.insert k v s ≡ some s'
      → m.get j s' ≡ (if k == j then some v else m.get j s)
  pub insert_ok : (k v : ℕ) (s : m.State) → length (m.keys s) < 64 → m.insert k v s ≢ none

module _ (m : IdMap) where
  open m use {State}

  -- the loop over the keys that are there
  unfoldable pub remove_stale : List ℕ → List ℕ → State → State
  remove_stale ids [] s = s
  remove_stale ids (id ∷ existing) s =
      remove_stale ids existing (if not (contains ids id) then m.remove id s else s)

  -- the loop over the ids; false: an insertion failed
  unfoldable pub insert_ids : List ℕ → State → Bool × State
  insert_ids [] s = (true, s)
  insert_ids (id ∷ ids) s = elim (m.insert id id s) [
    | none ↦ (false, s)
    | some s' ↦ insert_ids ids s'
  ]

  unfoldable pub sync_ids : List ℕ → State → Bool × State
  unfolding remove_stale insert_ids
  sync_ids ids s = insert_ids ids (remove_stale ids (m.keys s) s)

pub record Counters : Type 0 where
  pub tagged : ℕ
  pub untagged : ℕ
  pub skipped : ℕ

-- the sum over the CPUs, in 64 bits
abbrev pub sum_u64 : List ℕ → ℕ
sum_u64 [] = 0
sum_u64 (n ∷ per_cpu) = (n + sum_u64 per_cpu) % 2 ^ 64

-- `slots` reads a slot on every CPU; a read may fail
unfoldable pub counters : (ℕ → Option (List ℕ)) → Option Counters
counters slots = elim (slots 0) [
  | none ↦ none
  | some tagged ↦ elim (slots 1) [
    | none ↦ none
    | some untagged ↦ elim (slots 2) [
      | none ↦ none
      | some skipped ↦ some (record {
        tagged = sum_u64 tagged;
        untagged = sum_u64 untagged;
        skipped = sum_u64 skipped;
      })
    ]
  ]
]
