-- ===== src/K8s.antt =====
-- dumbarp-k8s/src: the configuration, and the requests that keep one address pool for each address.
pub mod Config
pub mod Pass
pub mod Requests
pub mod Names
pub mod Kept
pub mod Converge
pub mod Listed
mod Test
use dumbarp.Common.{
  ℕ, ◌+◌, ◌*◌, Bool, true, false, String, Option, none, some, List, [], ◌∷◌, ◌++◌, ◌==◌, nat_eq,
  string_eq, ltb, if◌then◌else◌, Dict, insert, lookup,
}
use dumbarp.Text.{Text, codes}
use dumbarp.Api.Responses.{ip_text}

-- `CiliumLoadBalancerIPPool`: what the program sets and reads of it. A block is its `cidr`.
pub record Pool : Type 0 where
  pub name : Option Text
  pub labels : Option (Dict String Text)
  pub annotations : Option (Dict String Text)
  pub blocks : List (Option Text)

pub data Answer : Type 0 where
  done : Answer
  api_error : ℕ → Answer
  other_error : Answer

-- The crate kube: the requests of an `Api`, over the cluster's state. A list is restricted to a label
-- and its value.
pub record Kube : Type 1 where
  pub State : Type 0
  pub list : String → Text → State → Option (List Pool)
  pub create : Pool → State → Answer × State
  pub patch_annotations : Text → Dict String Text → State → Answer × State
  pub delete : Text → State → Answer × State

-- The crate chrono: an instant is a number of nanoseconds. `has_threshold` says whether the instant
-- `now - Duration::seconds(secs as i64)` is in chrono's range.
pub record Chrono : Type 0 where
  pub to_rfc3339 : ℕ → Text
  pub parse_from_rfc3339 : Text → Option ℕ
  pub has_threshold : ℕ → ℕ → Bool

abbrev pub managed_by_label : String
managed_by_label = "app.kubernetes.io/managed-by"

abbrev pub managed_by_value : Text
managed_by_value = codes "dumbarp-k8s"

abbrev pub ip_annotation : String
ip_annotation = "dumbarp.k8s/ip"

abbrev pub last_seen_annotation : String
last_seen_annotation = "dumbarp.k8s/last-seen-at"

-- `str::replace` of one character by another
abbrev pub replace : ℕ → ℕ → Text → Text
replace from to [] = []
replace from to (c ∷ s) = (if c == from then to else c) ∷ replace from to s

unfoldable pub pool_name : ℕ → Text
pool_name ip = codes "dumbarp-" ++ replace 46 45 (ip_text ip)

unfoldable pub build_pool : Chrono → ℕ → ℕ → Pool
unfolding pool_name insert
build_pool chrono ip now = record {
  name = some (pool_name ip);
  labels = some (insert managed_by_label managed_by_value []);
  annotations =
      some (
        insert last_seen_annotation (chrono.to_rfc3339 now) (insert ip_annotation (ip_text ip) []));
  blocks = some (ip_text ip ++ codes "/32") ∷ [];
}

pub record ExistingPool : Type 0 where
  pub name : Text
  pub last_seen : Option ℕ
