-- ===== src/Common/Maps.antt =====
-- Rust's `HashMap` and `BTreeMap`: association lists, seen through `lookup`. Each operation has a
-- law for `lookup` that holds on every list, so no client relies on the order of the entries.
use mathlib.Core.Path.{◌≡◌, refl}
use mathlib.Core.Bool.{Bool, false, ◌||◌}
use mathlib.Core.List.{List, [], ◌∷◌}
use mathlib.Core.Option
use mathlib.Core.Option.{Option, none, some}
use native.Mathlib.Omega.{arith}
use dumbarp.Common.Tests.{Eq, ◌==◌, if◌then◌else◌}
use dumbarp.Common.Lists.{contains, NoRepeat, Among}
use mathlib.Core.Logic.{inl, inr}

abbrev pub Dict {ℓ κ} : Type ℓ → Type κ → Type (ℓ ⊔ κ)
Dict K V = List (K × V)

-- `opt.filter(p)`
abbrev pub filter_option {κ} : {V : Type κ} → (V → Bool) → Option V → Option V
filter_option p none = none
filter_option p (some v) = if p v then some v else none

module _ {ℓ κ} {K : Type ℓ} {V : Type κ} ⦃e : Eq K⦄ where
  -- `map.get(&k)`
  unfoldable pub lookup : K → Dict K V → Option V
  lookup k [] = none
  lookup k (entry ∷ m) = if entry.0 == k then some entry.1 else lookup k m

  -- `map.remove(&k)`
  unfoldable pub remove : K → Dict K V → Dict K V
  remove k [] = []
  remove k ((j, v) ∷ m) = let rest = remove k m in if j == k then rest else (j, v) ∷ rest

  -- `map.insert(k, v)`
  unfoldable pub insert : K → V → Dict K V → Dict K V
  insert k v [] = (k, v) ∷ []
  insert k v (entry ∷ m) = if entry.0 == k then (k, v) ∷ m else entry ∷ insert k v m

  -- `map.retain(|k, v| p)`; with each entry that goes, so does what it shadows.
  unfoldable pub retain : (K → V → Bool) → Dict K V → Dict K V
  unfolding remove
  retain p [] = []
  retain p ((j, v) ∷ m) = let rest = retain p m in if p j v then (j, v) ∷ rest else remove j rest

  abbrev pub keys : Dict K V → List K
  keys [] = []
  keys ((j, v) ∷ m) = j ∷ keys m

  pub lookup-remove :
      (k j : K) (m : Dict K V) → lookup j (remove k m) ≡ (if k == j then none else lookup j m)
  unfolding lookup remove
  lookup-remove k j [] = ground arith
  lookup-remove k j ((i, w) ∷ m) =
      ground (arith, e.equal_iff i k, e.equal_iff i j, e.equal_iff k j, lookup-remove k j m)

  pub lookup-insert :
      (new k : K) (v : V) (m : Dict K V)
      → lookup k (insert new v m) ≡ (if new == k then some v else lookup k m)
  unfolding lookup insert
  lookup-insert new k v [] = refl
  lookup-insert new k v (entry ∷ m) = ground (
    arith,
    lookup-insert new k v m,
    e.equal_iff entry.0 new,
    e.equal_iff entry.0 k,
    e.equal_iff new k,
  )

  pub lookup-retain :
      (p : K → V → Bool) (k : K) (m : Dict K V)
      → lookup k (retain p m) ≡ filter_option (p k) (lookup k m)
  unfolding lookup retain
  lookup-retain p k [] = refl
  lookup-retain p k ((i, w) ∷ m) =
      ground (arith, e.equal_iff i k, lookup-remove i k (retain p m), lookup-retain p k m)

module _ {ℓ κ μ} {K : Type ℓ} {V : Type κ} {W : Type μ} ⦃e : Eq K⦄ where
  -- `map.iter().map(|(k, v)| (k.clone(), f(v))).collect()`
  unfoldable pub map_values : (V → W) → Dict K V → Dict K W
  map_values f [] = []
  map_values f ((j, v) ∷ m) = (j, f v) ∷ map_values f m

  pub lookup-map_values :
      (f : V → W) (k : K) (m : Dict K V) → lookup k (map_values f m) ≡ Option.map f (lookup k m)
  unfolding lookup map_values
  lookup-map_values f k [] = refl
  lookup-map_values f k ((j, v) ∷ m) = ground (arith, lookup-map_values f k m)

module _ {ℓ κ} {K : Type ℓ} {V : Type κ} ⦃e : Eq K⦄ where
  -- A key that no entry has is not found.
  pub lookup-eq-none : (k : K) (m : Dict K V) → contains (keys m) k ≡ false → lookup k m ≡ none
  unfolding lookup
  lookup-eq-none k [] h = refl
  lookup-eq-none k ((j, v) ∷ m) h = ground (arith, lookup-eq-none k m)

  abbrev pub values : Dict K V → List V
  values [] = []
  values ((j, v) ∷ m) = v ∷ values m

  pub contains-keys-insert :
      (new k : K) (v : V) (m : Dict K V)
      → contains (keys (insert new v m)) k ≡ (contains (keys m) k || new == k)
  unfolding insert
  contains-keys-insert new k v [] = ground arith
  contains-keys-insert new k v (entry ∷ m) =
      ground (arith, contains-keys-insert new k v m, e.equal_iff entry.0 new)

  -- Inserting keeps the keys different.
  pub NoRepeat-insert :
      (new : K) (v : V) (m : Dict K V) → NoRepeat (keys m) → NoRepeat (keys (insert new v m))
  unfolding insert
  NoRepeat-insert new v [] once = ground arith
  NoRepeat-insert new v (entry ∷ m) once = ground (
    arith,
    NoRepeat-insert new v m once.1,
    contains-keys-insert new entry.0 v m,
    e.equal_iff entry.0 new,
    e.equal_iff new entry.0,
  )

module _ {K : Type 0} {V : Type 0} ⦃e : Eq K⦄ where
  -- A value of the map belongs to a key, and is found under it if the keys are different.
  pub Among-values :
      (v : V) (m : Dict K V)
      → NoRepeat (keys m)
      → Among v (values m)
      → (k : K) × (lookup k m ≡ some v)
  unfolding lookup
  Among-values v [] once h = absurd h
  Among-values v ((j, w) ∷ m) once h = elim h [
    | inl here ↦ (j, ground (arith, here, e.equal_iff j j))
    | inr later ↦
        let (k, found) = Among-values v m once.1 later in
        (k, ground (arith, found, e.equal_iff j k, lookup-eq-none k m))
  ]

  pub lookup-Among : (k : K) (v : V) (m : Dict K V) → lookup k m ≡ some v → Among v (values m)
  unfolding lookup
  lookup-Among k v [] h = absurd (cc)
  lookup-Among k v ((j, w) ∷ m) h = ground (arith, lookup-Among k v m)
