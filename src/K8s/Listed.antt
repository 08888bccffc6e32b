-- ===== src/K8s/Listed.antt =====
-- The pools that dumbarp-k8s/src/reconcile.rs makes, when a later pass lists them.
use dumbarp.Common.{ℕ, ◌≡◌, refl, some, List, [], ◌∷◌, string_eq, arith, Dict, lookup, All}
use dumbarp.Api.Responses.{IsIp, parse_ip-ip_text}
use dumbarp.K8s.{Pool, Chrono, ExistingPool, pool_name, build_pool}
use dumbarp.K8s.Pass.{existing, map_insert, index_pools}
use dumbarp.K8s.Converge.{IsNamed}

-- the pools that a pass at `now` makes for new addresses
abbrev pub build_pools : Chrono → List ℕ → ℕ → List Pool
build_pools chrono [] now = []
build_pools chrono (ip ∷ ips) now = build_pool chrono ip now ∷ build_pools chrono ips now

-- their entries
abbrev pub own_entries : List ℕ → ℕ → Dict ℕ ExistingPool → Dict ℕ ExistingPool
own_entries [] now out = out
own_entries (ip ∷ ips) now out =
    own_entries ips now (map_insert ip (record { name = pool_name ip; last_seen = some now }) out)

module _ (chrono : Chrono) (now : ℕ)
    (read : chrono.parse_from_rfc3339 (chrono.to_rfc3339 now) ≡ some now) where
  existing-build_pool :
      (ip : ℕ)
      → IsIp ip
      → existing chrono (build_pool chrono ip now)
        ≡ some (ip, record { name = pool_name ip; last_seen = some now })
  unfolding existing build_pool lookup
  existing-build_pool ip h = rw (parse_ip-ip_text ip h, read)

  -- The pools that the program makes for 32-bit addresses are listed as pools of those addresses,
  -- with the names that it gives them and last seen when they were made, where an instant that is
  -- written is read back.
  pub index_pools-build_pools :
      (ips : List ℕ) (out : Dict ℕ ExistingPool)
      → All IsIp ips
      → (index_pools chrono (build_pools chrono ips now) out ≡ own_entries ips now out)
        × All (IsNamed chrono) (build_pools chrono ips now)
  index_pools-build_pools [] out h = (unfold index_pools in refl, tt)
  index_pools-build_pools (ip ∷ ips) out h =
      let mine = existing-build_pool ip h.0 in
      let e : ExistingPool = record { name = pool_name ip; last_seen = some now } in
      let run : index_pools chrono (build_pools chrono (ip ∷ ips) now) out
          ≡ index_pools chrono (build_pools chrono ips now) (map_insert ip e out) =
        unfold index_pools in ground (arith, mine) in
      let (rest, named) = index_pools-build_pools ips (map_insert ip e out) h.1 in
      (rw run rest, (λ i f found. ground (arith, mine, found), named))
