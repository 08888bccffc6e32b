-- ===== src/K8s/Test.antt =====
-- Runs of dumbarp-k8s/src, and its theorems at a cluster in memory.
use dumbarp.Common.{
  ℕ, Bool, true, false, not, ◌&&◌, ◌||◌, String, Option, none, some, List, [], ◌∷◌, ◌≡◌, refl, ◌==◌,
  nat_eq, string_eq, option_eq, option_beq_iff, arith, All, Dict, insert, lookup, if◌then◌else◌,
}
use dumbarp.Text.{Text, text_eq, text_beq_iff, is_digit}
use dumbarp.Text.Addr.{show_octet, show_addr, read_octet, read_dot, read_addr, parse_addr}
use dumbarp.Api.Responses.{IsIp, parse_ip}
use dumbarp.K8s.{Pool, Answer, done, api_error, other_error, Kube, Chrono, build_pool, pool_name}
use dumbarp.K8s.Config.{Config, load}
use dumbarp.K8s.Pass.{
  existing, index_pools, collect_desired, reconcile_once, list_current, keep_all, keep, create_pool,
  prune_all, delete_pool, is_pruned, is_stale,
}
use dumbarp.K8s.Requests.{Cluster}
use dumbarp.K8s.Listed.{build_pools, own_entries, index_pools-build_pools}
use dumbarp.K8s.Converge.{Settled, IsNamed, reconcile_once-pools}

abbrev named : Text → Pool → Bool
named n p = p.name == some n

abbrev has_pool : Text → List Pool → Bool
has_pool n [] = false
has_pool n (p ∷ s) = named n p || has_pool n s

abbrev without : Text → List Pool → List Pool
without n [] = []
without n (p ∷ s) = let rest = without n s in if named n p then rest else p ∷ rest

abbrev create_in : Pool → List Pool → Answer × List Pool
create_in p s = elim p.name [
  | none ↦ (other_error, s)
  | some n ↦ if has_pool n s then (api_error 409, s) else (done, p ∷ s)
]

abbrev patch_in : Text → Dict String Text → List Pool → Answer × List Pool
patch_in n a s = if has_pool n s then (done, s) else (api_error 404, s)

abbrev delete_in : Text → List Pool → Answer × List Pool
delete_in n s = if has_pool n s then (done, without n s) else (api_error 404, s)

-- a cluster in memory, which has only pools of the program and keeps no annotations of a patch
abbrev memory : Kube
memory = record {
  State = List Pool;
  list = λ label value s. some s;
  create = create_in;
  patch_annotations = patch_in;
  delete = delete_in;
}

has_pool-without :
    (n : Text) (s : List Pool) (m : Text)
    → has_pool m (without n s) ≡ (has_pool m s && not (m == n))
has_pool-without n [] m = refl
has_pool-without n (p ∷ s) m = ground (
  arith,
  has_pool-without n s m,
  option_beq_iff p.name (some n),
  option_beq_iff p.name (some m),
  text_beq_iff m n,
)

memory-Cluster : Cluster memory
memory-Cluster = record {
  has = has_pool;
  create_done =
      λ p name s n e m. ground (arith, n, e, option_beq_iff p.name (some m), text_beq_iff m name);
  create_failed = λ p s e m. ground arith;
  patch_done = λ n a s e. ground arith;
  patch_keeps = λ n a s m. ground arith;
  delete_done = λ n s e m. ground (arith, has_pool-without n s m);
  delete_failed = λ n s e m. ground arith;
  delete_missing = λ n s e. ground arith;
}

abbrev read_instant : Text → Option ℕ
read_instant [] = none
read_instant (t ∷ rest) = some t

abbrev chrono : Chrono
chrono = record {
  to_rfc3339 = λ t. t ∷ [];
  parse_from_rfc3339 = read_instant;
  has_threshold = λ now secs. true;
}

abbrev config : Config
config = record {
  refresh_interval_secs = 30;
  stale_after_secs = 300;
  hosts = record { name = "homelab"; url = "http://a"; auth_token_file = "t" } ∷ [];
}

-- 1.2.3.4 has a pool, and the host has 1.2.3.5
abbrev before : List Pool
before = build_pool chrono 16909060 7 ∷ []

abbrev fetched : List (Option (List ℕ))
fetched = some (16909061 ∷ []) ∷ []

before-IsNamed : IsNamed chrono (build_pool chrono 16909060 7)
unfolding build_pool existing parse_ip parse_addr read_addr read_octet read_dot show_addr show_octet
    is_digit pool_name lookup insert
before-IsNamed ip e h = ground (arith, h)

fetched_ips : All IsIp (collect_desired config fetched).0
unfolding collect_desired
fetched_ips = (omega arith, tt)

reconcile_once-pools_example :
    Settled memory chrono memory-Cluster config fetched 100
      (index_pools chrono before [])
      before
      (reconcile_once memory chrono config fetched 100 before)
reconcile_once-pools_example =
    reconcile_once-pools memory chrono memory-Cluster config fetched 100 before before refl
      (before-IsNamed, tt) fetched_ips

-- the new pool stands alone
pool_moved :
    reconcile_once memory chrono config fetched 100 before
    ≡ (true, build_pool chrono 16909061 100 ∷ [])
unfolding reconcile_once list_current index_pools existing parse_ip parse_addr read_addr read_octet
    read_dot show_addr show_octet is_digit pool_name lookup insert build_pool collect_desired
    keep_all keep create_pool prune_all delete_pool is_pruned is_stale
pool_moved = refl

config_accepted : load config ≡ none
unfolding load
config_accepted = refl

index_pools-build_pools_example :
    (index_pools chrono (build_pools chrono (16909060 ∷ 16909061 ∷ []) 7) []
      ≡ own_entries (16909060 ∷ 16909061 ∷ []) 7 [])
    × All (IsNamed chrono) (build_pools chrono (16909060 ∷ 16909061 ∷ []) 7)
index_pools-build_pools_example =
    index_pools-build_pools chrono 7 refl (16909060 ∷ 16909061 ∷ []) []
      (omega arith, (omega arith, tt))
