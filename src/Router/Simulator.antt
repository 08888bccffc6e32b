-- ===== src/Router/Simulator.antt =====
-- A hash map in memory with the laws that dumbarp-routerd/src/datapath.rs relies on.
use dumbarp.Common.{
  ℕ, ◌≡◌, ◌≢◌, refl, true, false, none, some, [], ◌∷◌, nat_eq, arith, contains, NoRepeat, Dict,
  lookup, insert, remove, keys, lookup-insert, lookup-remove, lookup-eq-none, NoRepeat-insert,
}
use dumbarp.Router.Datapath.{IdMap, IsHashMap}

contains-keys-remove :
    (k j : ℕ) (l : Dict ℕ ℕ) → contains (keys l) j ≡ false → contains (keys (remove k l)) j ≡ false
unfolding remove
contains-keys-remove k j [] h = refl
contains-keys-remove k j ((i, v) ∷ l) h = ground (arith, contains-keys-remove k j l)

pub NoRepeat-remove : (k : ℕ) (l : Dict ℕ ℕ) → NoRepeat (keys l) → NoRepeat (keys (remove k l))
unfolding remove
NoRepeat-remove k [] once = tt
NoRepeat-remove k ((i, v) ∷ l) once =
    ground (arith, NoRepeat-remove k l once.1, contains-keys-remove k i l once.0)

pub lookup_there : (k : ℕ) (l : Dict ℕ ℕ) → contains (keys l) k ≡ true → lookup k l ≢ none
unfolding lookup
lookup_there k [] h e = absurd (cc)
lookup_there k ((i, v) ∷ l) h e = ground (arith, lookup_there k l)

-- entries with different keys
pub record Entries : Type 0 where
  pub entries : Dict ℕ ℕ
  pub once : NoRepeat (keys entries)

abbrev pub id_map : IdMap
id_map = record {
  State = Entries;
  get = λ k s. lookup k s.entries;
  keys = λ s. keys s.entries;
  remove =
      λ k s. record { entries = remove k s.entries; once = NoRepeat-remove k s.entries s.once };
  insert = λ k v s.
      some (record { entries = insert k v s.entries; once = NoRepeat-insert k v s.entries s.once });
}

pub id_map-IsHashMap : IsHashMap id_map
id_map-IsHashMap = record {
  keys_lem = λ k s h. lookup-eq-none k s.entries h;
  keys_once = λ s. s.once;
  keys_found = λ k s h. lookup_there k s.entries h;
  remove_lem = λ k j s. lookup-remove k j s.entries;
  insert_lem = λ k v j s s' e. ground (arith, lookup-insert k j v s.entries);
  insert_ok = λ k v s small e. ground arith;
}
