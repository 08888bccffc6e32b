-- ===== src/Router/Datapath/Synced.antt =====
-- The map `DSCP_IDS` after `sync_ids` of dumbarp-routerd/src/datapath.rs.
use dumbarp.Common.{
  ℕ, zero, suc, ◌+◌, ◌<◌, ◌≤◌, ◌≡◌, ◌≢◌, refl, inl, inr, true, false, not, none, some, List, [],
  ◌∷◌, ◌==◌, nat_eq, if◌then◌else◌, contains, NoRepeat, length, All, arith, Option-cases,
  Bool-cases, ◌&&◌,
}
use dumbarp.Router.Datapath.{IdMap, IsHashMap, remove_stale, insert_ids, sync_ids}

abbrev without : ℕ → List ℕ → List ℕ
without n [] = []
without n (x ∷ l) = if x == n then without n l else x ∷ without n l

contains-without :
    (n : ℕ) (l : List ℕ) (x : ℕ) → contains l x ≡ false → contains (without n l) x ≡ false
contains-without n [] x h = refl
contains-without n (y ∷ l) x h = ground (arith, contains-without n l x)

NoRepeat-without : (n : ℕ) (l : List ℕ) → NoRepeat l → NoRepeat (without n l)
NoRepeat-without n [] h = tt
NoRepeat-without n (x ∷ l) h = ground (arith, NoRepeat-without n l h.1, contains-without n l x h.0)

without_absent : (n : ℕ) (l : List ℕ) → contains l n ≡ false → without n l ≡ l
without_absent n [] h = refl
without_absent n (x ∷ l) h = ground (arith, without_absent n l)

length-without : (n : ℕ) (l : List ℕ) → NoRepeat l → length l ≤ length (without n l) + 1
length-without n [] h = ground arith
length-without n (x ∷ l) h = ground (arith, length-without n l h.1, without_absent n l)

-- an id that can be a tag below or at `n`
abbrev pub IsTag : ℕ → ℕ → Type 0
IsTag n x = (1 ≤ x) × (x ≤ n)

without-IsTag : (n : ℕ) (l : List ℕ) → All (IsTag (suc n)) l → All (IsTag n) (without (suc n) l)
without-IsTag n [] h = tt
without-IsTag n (x ∷ l) h = ground (arith, without-IsTag n l h.1)

-- There are at most `n` different numbers from 1 to `n`.
length-NoRepeat : (n : ℕ) (l : List ℕ) → NoRepeat l → All (IsTag n) l → length l ≤ n
length-NoRepeat zero [] once h = ground arith
length-NoRepeat zero (x ∷ l) once h = absurd (omega arith)
length-NoRepeat (suc n) l once h = ground (
  arith,
  length-without (suc n) l once,
  length-NoRepeat n (without (suc n) l) (NoRepeat-without (suc n) l once) (without-IsTag n l h),
)

All-contains : (P : ℕ → Type 0) (l : List ℕ) → ((k : ℕ) → contains l k ≡ true → P k) → All P l
All-contains P [] h = tt
All-contains P (x ∷ l) h = (h x (ground arith), All-contains P l (λ k e. h k (ground arith)))

contains-IsTag : (l : List ℕ) (k : ℕ) → All (IsTag 63) l → contains l k ≡ true → IsTag 63 k
contains-IsTag [] k h e = absurd (cc)
contains-IsTag (x ∷ l) k h e = ground (arith, contains-IsTag l k h.1)

module _ (m : IdMap) (ok : IsHashMap m) where
  open m use {State}

  get-remove_stale :
      (ids existing : List ℕ) (s : State) (j : ℕ)
      → m.get j (remove_stale m ids existing s)
        ≡ (if contains existing j && not (contains ids j) then none else m.get j s)
  unfolding remove_stale
  get-remove_stale ids [] s j = refl
  get-remove_stale ids (id ∷ existing) s j = elim (Bool-cases (contains ids id)) [
    | inl keep ↦ rw keep (ground (arith, get-remove_stale ids existing s j))
    | inr stale ↦
        rw stale
          (ground (arith, get-remove_stale ids existing (m.remove id s) j, ok.remove_lem id j s))
  ]

  -- the ids of the map are tags, so there is room
  room : (s : State) → ((k : ℕ) → m.get k s ≢ none → IsTag 63 k) → length (m.keys s) < 64
  room s h = ground (
    arith,
    length-NoRepeat 63 (m.keys s) (ok.keys_once s)
        (All-contains (IsTag 63) (m.keys s) (λ k e. h k (ok.keys_found k s e))),
  )

  insert_ids_lem :
      (ids : List ℕ) (s : State)
      → All (IsTag 63) ids
      → ((k : ℕ) → m.get k s ≢ none → IsTag 63 k)
      → ((insert_ids m ids s).0 ≡ true)
        × ((j : ℕ)
            → m.get j (insert_ids m ids s).1 ≡ (if contains ids j then some j else m.get j s))
  unfolding insert_ids
  insert_ids_lem [] s tags h = (refl, λ j. refl)
  insert_ids_lem (id ∷ ids) s tags h = elim (Option-cases (m.insert id id s)) [
    | inl full ↦ absurd (ok.insert_ok id id s (room s h) full)
    | inr (s', e) ↦
        let get = ok.insert_lem id id in
        let (done, have) =
          insert_ids_lem ids s' tags.1 (λ k there. ground (arith, get k s s' e, h k, tags.0)) in
        let turn : insert_ids m (id ∷ ids) s ≡ insert_ids m ids s' = ground (arith, e) in
        (rw turn done, λ j. rw turn (ground (arith, have j, get j s s' e)))
  ]

  -- If the ids are from 1 to 63, then `sync_ids` succeeds, whatever the map held, and the map
  -- afterwards takes each of the ids to itself and has no other key.
  pub sync_ids_lem :
      (ids : List ℕ) (s : State)
      → All (IsTag 63) ids
      → ((sync_ids m ids s).0 ≡ true)
        × ((j : ℕ) → m.get j (sync_ids m ids s).1 ≡ (if contains ids j then some j else none))
  unfolding sync_ids
  sync_ids_lem ids s tags =
      let clean = remove_stale m ids (m.keys s) s in
      let only : (k : ℕ) → contains ids k ≡ false → m.get k clean ≡ none = λ k e.
        elim (Bool-cases (contains (m.keys s) k)) [
          | inl there ↦ ground (arith, get-remove_stale ids (m.keys s) s k)
          | inr absent ↦ ground (arith, get-remove_stale ids (m.keys s) s k, ok.keys_lem k s absent)
        ] in
      let (done, have) = insert_ids_lem ids clean tags (λ k there.
        elim (Bool-cases (contains ids k)) [
          | inl wanted ↦ contains-IsTag ids k tags wanted
          | inr other ↦ absurd (there (only k other))
        ]) in
      (done, λ j. ground (arith, have j, only j))
