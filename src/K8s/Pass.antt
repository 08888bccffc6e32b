-- ===== src/K8s/Pass.antt =====
-- A pass of dumbarp-k8s/src/reconcile.rs. What the fetches gave and the instant are inputs, and what
-- only the log uses is left out.
use dumbarp.Common.{
  ℕ, ◌+◌, ◌*◌, ◌-◌, ◌^◌, Bool, true, false, Option, none, some, List, [], ◌∷◌, ◌==◌, nat_eq,
  string_eq, ltb, if◌then◌else◌, contains, Dict, lookup,
}
use dumbarp.Text.{Text, ◌>>=◌}
use dumbarp.Api.Responses.{parse_ip}
use dumbarp.K8s.{
  Pool, Answer, done, api_error, other_error, Kube, Chrono, ExistingPool, managed_by_label,
  managed_by_value, ip_annotation, last_seen_annotation, pool_name, build_pool,
}
use dumbarp.K8s.Config.{Config, HostConfig}

-- `BTreeSet::insert` and `BTreeMap::insert`: sorted lists
unfoldable pub set_insert : ℕ → List ℕ → List ℕ
set_insert x [] = x ∷ []
set_insert x (y ∷ l) =
    let rest = set_insert x l in if ltb x y then x ∷ y ∷ l else if x == y then y ∷ l else y ∷ rest

unfoldable pub map_insert : ℕ → ExistingPool → Dict ℕ ExistingPool → Dict ℕ ExistingPool
map_insert k v [] = (k, v) ∷ []
map_insert k v ((j, w) ∷ m) =
    let rest = map_insert k v m in
    if ltb k j then (k, v) ∷ (j, w) ∷ m else if k == j then (k, v) ∷ m else (j, w) ∷ rest

abbrev pub extend : List ℕ → List ℕ → List ℕ
extend desired [] = desired
extend desired (ip ∷ ips) = extend (set_insert ip desired) ips

-- the loop of `collect_desired`: the addresses, and how many hosts failed
unfoldable pub collect : List HostConfig → List (Option (List ℕ)) → List ℕ → ℕ → List ℕ × ℕ
unfolding set_insert
collect [] results desired errors = (desired, errors)
collect (h ∷ hosts) [] desired errors = (desired, errors)
collect (h ∷ hosts) (none ∷ results) desired errors = collect hosts results desired (errors + 1)
collect (h ∷ hosts) (some ips ∷ results) desired errors =
    collect hosts results (extend desired ips) errors

-- the addresses, and whether every host answered
unfoldable pub collect_desired : Config → List (Option (List ℕ)) → List ℕ × Bool
unfolding collect
collect_desired cfg results = let out = collect cfg.hosts results [] 0 in (out.0, out.1 == 0)

abbrev or_empty : Option Text → Text
or_empty none = []
or_empty (some t) = t

module _ (chrono : Chrono) where
  -- the entry of a listed pool, if it is not skipped
  unfoldable pub existing : Pool → Option (ℕ × ExistingPool)
  existing pool = do
    annotations ← pool.annotations
    ip ← parse_ip (← lookup ip_annotation annotations)
    let last_seen = do chrono.parse_from_rfc3339 (← lookup last_seen_annotation annotations)
    some (ip, record { name = or_empty pool.name; last_seen = last_seen })

  unfoldable pub index_pools : List Pool → Dict ℕ ExistingPool → Dict ℕ ExistingPool
  unfolding existing map_insert
  index_pools [] out = out
  index_pools (pool ∷ pools) out = elim (existing pool) [
    | none ↦ index_pools pools out
    | some (ip, e) ↦ index_pools pools (map_insert ip e out)
  ]

-- `seen < now - chrono::Duration::seconds(secs as i64)`, without the subtraction. Seconds from 2^63
-- on are negative as `i64`.
unfoldable pub is_stale : ℕ → ℕ → ℕ → Bool
is_stale secs now seen =
    if ltb secs (2 ^ 63)
    then ltb (seen + secs * 1000000000) now
    else ltb seen (now + (2 ^ 64 - secs) * 1000000000)

-- whether a pool that is not desired goes
unfoldable pub is_pruned : Bool → ℕ → ℕ → Option ℕ → Bool
unfolding is_stale
is_pruned true secs now last_seen = true
is_pruned false secs now none = true
is_pruned false secs now (some seen) = is_stale secs now seen

module _ (kube : Kube) (chrono : Chrono) where
  unfoldable pub list_current : kube.State → Option (Dict ℕ ExistingPool)
  unfolding index_pools
  list_current s = do some (index_pools chrono (← kube.list managed_by_label managed_by_value s) [])

  -- A request that may fail, and `?` behind it.
  abbrev pub Run : Type 0
  Run = Bool × kube.State

  abbrev pub then_run : Run → (kube.State → Run) → Run
  then_run (true, s) next = next s
  then_run (false, s) next = (false, s)

  abbrev pub is_done : Answer × kube.State → Run
  is_done (done, s) = (true, s)
  is_done (api_error n, s) = (false, s)
  is_done (other_error, s) = (false, s)

  unfoldable pub touch_pool : ℕ → ℕ → kube.State → Run
  touch_pool ip now s =
      is_done (
        kube.patch_annotations (pool_name ip) ((last_seen_annotation, chrono.to_rfc3339 now) ∷ [])
          s)

  unfoldable pub created : ℕ → ℕ → Answer × kube.State → Run
  created ip now (done, s) = (true, s)
  created ip now (api_error n, s) =
      let touched = touch_pool ip now s in if n == 409 then touched else (false, s)
  created ip now (other_error, s) = (false, s)

  unfoldable pub create_pool : ℕ → ℕ → kube.State → Run
  unfolding created touch_pool
  create_pool ip now s = created ip now (kube.create (build_pool chrono ip now) s)

  unfoldable pub deleted : Answer × kube.State → Run
  deleted (done, s) = (true, s)
  deleted (api_error n, s) = (n == 404, s)
  deleted (other_error, s) = (false, s)

  unfoldable pub delete_pool : Text → kube.State → Run
  unfolding deleted
  delete_pool name s = deleted (kube.delete name s)

  module _ (current : Dict ℕ ExistingPool) (now : ℕ) where
    unfoldable pub keep : ℕ → kube.State → Run
    keep ip s = elim (lookup ip current) [
      | none ↦ create_pool ip now s
      | some e ↦ touch_pool ip now s
    ]

    -- the loop over the desired addresses
    unfoldable pub keep_all : List ℕ → kube.State → Run
    keep_all [] s = (true, s)
    keep_all (ip ∷ ips) s = then_run (keep ip s) (keep_all ips)

  module _ (desired : List ℕ) (all_hosts_ok : Bool) (secs now : ℕ) where
    -- the loop over the pools that are there
    unfoldable pub prune_all : Dict ℕ ExistingPool → kube.State → Run
    prune_all [] s = (true, s)
    prune_all ((ip, e) ∷ current) s =
        let kept = prune_all current s in
        if contains desired ip
        then kept
        else if is_pruned all_hosts_ok secs now e.last_seen
        then then_run (delete_pool e.name s) (prune_all current)
        else kept

  -- Where chrono cannot form the threshold it panics, and the pass ends.
  unfoldable pub reconcile_once : Config → List (Option (List ℕ)) → ℕ → kube.State → Run
  reconcile_once cfg results now s =
      let (desired, all_hosts_ok) = collect_desired cfg results in
      elim (list_current s) [
        | none ↦ (false, s)
        | some current ↦
            if chrono.has_threshold now cfg.stale_after_secs
            then then_run (keep_all current now desired s)
                (prune_all desired all_hosts_ok cfg.stale_after_secs now current)
            else (false, s)
      ]
