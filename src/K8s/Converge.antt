-- ===== src/K8s/Converge.antt =====
-- What a pass of dumbarp-k8s/src/reconcile.rs comes to.
use dumbarp.Common.{
  ℕ, Bool, true, false, Option, some, List, [], ◌∷◌, ◌≡◌, ◌≢◌, ◌∙◌, inl, inr, nat_eq, string_eq,
  arith, Dict, lookup, Option-cases, Bool-cases, All, Among, Among-All, contains-Among,
}
use dumbarp.Text.{Text}
use dumbarp.Text.Addr.{>>=-eq-some, parse_addr, parse_addr-IsAddr, number}
use dumbarp.Api.Responses.{IsIp, parse_ip}
use dumbarp.K8s.{
  Pool, Kube, Chrono, ExistingPool, pool_name, managed_by_label, managed_by_value, ip_annotation,
}
use dumbarp.K8s.Names.{pool_name-injective}
use dumbarp.K8s.Config.{Config}
use dumbarp.K8s.Pass.{
  existing, map_insert, index_pools, list_current, keep_all, prune_all, collect_desired,
  reconcile_once,
}
use dumbarp.K8s.Requests.{Cluster}
use dumbarp.K8s.Kept.{keep_all_lem, Goes, prune_all_lem}

-- An entry whose pool has the name that the program gives it.
pub record IsOwn (entry : ℕ × ExistingPool) : Type 0 where
  pub is_ip : IsIp entry.0
  pub named : entry.1.name ≡ pool_name entry.0

map_insert-IsOwn :
    (ip : ℕ) (e : ExistingPool) (m : Dict ℕ ExistingPool)
    → IsOwn (ip, e)
    → All IsOwn m
    → All IsOwn (map_insert ip e m)
unfolding map_insert
map_insert-IsOwn ip e [] own all = (own, tt)
map_insert-IsOwn ip e ((j, w) ∷ m) own all = ground (arith, map_insert-IsOwn ip e m own all.1)

parse_ip-IsIp : (t : Text) (ip : ℕ) → parse_ip t ≡ some ip → IsIp ip
unfolding parse_ip
parse_ip-IsIp t ip e =
    let (a, read, f) = >>=-eq-some (parse_addr t) _ e in
    let ok = parse_addr-IsAddr t a read in
    let same : number a ≡ ip = ground (arith, f) in
    omega (arith, same, ok.q0_byte, ok.q1_byte, ok.q2_byte, ok.q3_byte)

module _ (chrono : Chrono) where
  -- A listed pool that is not skipped has the name that the program gives to the pool of its address.
  abbrev pub IsNamed : Pool → Type 0
  IsNamed pool =
      (ip : ℕ) (e : ExistingPool) → existing chrono pool ≡ some (ip, e) → e.name ≡ pool_name ip

  existing-IsIp :
      (pool : Pool) (ip : ℕ) (e : ExistingPool) → existing chrono pool ≡ some (ip, e) → IsIp ip
  unfolding existing
  existing-IsIp pool ip e h =
      let (annotations, _, f) = >>=-eq-some pool.annotations _ h in
      let (t, _, g) = >>=-eq-some (lookup ip_annotation annotations) _ f in
      let (ip', read, k) = >>=-eq-some (parse_ip t) _ g in
      let same : ip' ≡ ip = ground (arith, k) in rw same at (parse_ip-IsIp t ip' read)

  index_pools-IsOwn :
      (pools : List Pool) (out : Dict ℕ ExistingPool)
      → All IsNamed pools
      → All IsOwn out
      → All IsOwn (index_pools chrono pools out)
  index_pools-IsOwn [] out named own = unfold index_pools in own
  index_pools-IsOwn (pool ∷ pools) out named own = elim (Option-cases (existing chrono pool)) [
    | inl skipped ↦
        let run : index_pools chrono (pool ∷ pools) out ≡ index_pools chrono pools out =
          unfold index_pools in ground (arith, skipped) in
        rw run (index_pools-IsOwn pools out named.1 own)
    | inr ((ip, e), found) ↦
        let run : index_pools chrono (pool ∷ pools) out
            ≡ index_pools chrono pools (map_insert ip e out) =
          unfold index_pools in ground (arith, found) in
        let mine : IsOwn (ip, e) = record {
          is_ip = existing-IsIp pool ip e found;
          named = named.0 ip e found;
        } in
        rw run (index_pools-IsOwn pools _ named.1 (map_insert-IsOwn ip e out mine own))
  ]

module _ (kube : Kube) (chrono : Chrono) where
  module _ (cluster : Cluster kube) (cfg : Config) (results : List (Option (List ℕ)))
      (now : ℕ) where
    open cluster use {has}

    abbrev pub desired : List ℕ
    desired = (collect_desired cfg results).0

    -- the entries that a pass deletes
    abbrev pub IsStale : ℕ → ExistingPool → Type 0
    IsStale ip e =
        Goes kube chrono cluster desired (collect_desired cfg results).1 (cfg.stale_after_secs) now
          ip e

    pub record Settled (current : Dict ℕ ExistingPool) (s : kube.State) (r : Bool × kube.State)
        : Type 0 where
      pub made : r.0 ≡ true → (ip : ℕ) → Among ip desired → has (pool_name ip) r.1 ≡ true
      pub kept :
          (m : Text)
          → ((ip : ℕ) (e : ExistingPool) → Among (ip, e) current → IsStale ip e → m ≢ e.name)
          → has m s ≡ true
          → has m r.1 ≡ true
      pub kept_desired :
          (ip : ℕ) → Among ip desired → has (pool_name ip) s ≡ true → has (pool_name ip) r.1 ≡ true
      pub pruned :
          r.0 ≡ true
          → (ip : ℕ) (e : ExistingPool) → Among (ip, e) current
          → IsStale ip e
          → has e.name r.1 ≡ false

    -- no desired address has the pool of an entry that is deleted
    desired_apart :
        (current : Dict ℕ ExistingPool)
        → All IsOwn current
        → All IsIp desired
        → (ip : ℕ) → Among ip desired
        → (i : ℕ) (e : ExistingPool) → Among (i, e) current
        → IsStale i e
        → pool_name ip ≢ e.name
    desired_apart current own ips ip among i e there stale q =
        let mine = Among-All IsOwn current (i, e) own there in
        let same =
          pool_name-injective ip i (Among-All IsIp desired ip ips among) mine.is_ip
            (q ∙ mine.named) in
        ground (arith, stale.not_desired, (contains-Among desired ip).1 among, same)

    reconcile_once-Settled :
        (s : kube.State) (current : Dict ℕ ExistingPool)
        → list_current kube chrono s ≡ some current
        → All IsOwn current
        → All IsIp desired
        → Settled current s (reconcile_once kube chrono cfg results now s)
    reconcile_once-Settled s current listed own ips =
        let k = keep_all kube chrono current now desired s in
        let (keeps, there) = keep_all_lem kube chrono cluster current now desired s in
        elim (Bool-cases (chrono.has_threshold now cfg.stale_after_secs)) [
          | inr panics ↦
              let run : reconcile_once kube chrono cfg results now s ≡ (false, s) =
                unfold reconcile_once in ground (arith, listed, panics) in
              rw run (record {
                made = λ done ip among. absurd (ground (arith, done));
                kept = λ m h hs. hs;
                kept_desired = λ ip among hs. hs;
                pruned = λ done ip e among stale. absurd (ground (arith, done));
              })
          | inl formed ↦ elim (Bool-cases k.0) [
            | inl ok ↦
                let all_ok = (collect_desired cfg results).1 in
                let run : reconcile_once kube chrono cfg results now s
                    ≡ prune_all kube chrono desired all_ok cfg.stale_after_secs now current k.1 =
                  unfold reconcile_once in ground (arith, listed, ok, formed) in
                let p =
                  prune_all_lem kube chrono cluster desired all_ok cfg.stale_after_secs now current
                    k.1 in
                let apart = desired_apart current own ips in
                rw run (record {
                  made = λ done ip among.
                      ground (arith, p.others (pool_name ip) (apart ip among), there ok ip among);
                  kept = λ m h hs. ground (arith, p.others m h, keeps m hs);
                  kept_desired = λ ip among hs.
                      ground
                        (arith, p.others (pool_name ip) (apart ip among), keeps (pool_name ip) hs);
                  pruned = p.gone;
                })
            | inr bad ↦
                let run : reconcile_once kube chrono cfg results now s ≡ (false, k.1) =
                  unfold reconcile_once in ground (arith, listed, bad, formed) in
                rw run (record {
                  made = λ done ip among. absurd (ground (arith, done));
                  kept = λ m h hs. keeps m hs;
                  kept_desired = λ ip among hs. keeps (pool_name ip) hs;
                  pruned = λ done ip e among stale. absurd (ground (arith, done));
                })
          ]
        ]

    -- A pass over a cluster that does what it says it did, where each listed pool has the name that
    -- the program gives to the pool of its address, and the addresses fetched are 32-bit numbers. A
    -- pool of a desired address is never lost, nor any other that is not out of date and listed,
    -- whether or not the pass succeeds; and if it does, every desired address has a pool, and no pool
    -- is left of a listed address that is not desired, where every host answered or the pool has not
    -- been seen for `stale_after_secs`, which as an `i64` is negative from 2^63 on.
    pub reconcile_once-pools :
        (s : kube.State) (pools : List Pool)
        → kube.list managed_by_label managed_by_value s ≡ some pools
        → All (IsNamed chrono) pools
        → All IsIp desired
        → Settled (index_pools chrono pools []) s (reconcile_once kube chrono cfg results now s)
    reconcile_once-pools s pools listed named ips =
        let current = index_pools chrono pools [] in
        let found : list_current kube chrono s ≡ some current =
          unfold list_current in ground (arith, listed) in
        reconcile_once-Settled s current found (index_pools-IsOwn chrono pools [] named tt) ips
