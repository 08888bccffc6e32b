-- ===== src/K8s/Config.antt =====
-- dumbarp-k8s/src/config.rs.
use dumbarp.Common.{
  ℕ, ◌≤◌, ◌≡◌, ◌≢◌, ◌↔◌, refl, false, String, Option, none, some, List, [], ◌∷◌, ◌==◌, nat_eq,
  string_eq, ltb, arith, if◌then◌else◌, is_empty, All, All-always, NoRepeat, contains, images,
  contains-images,
}
use dumbarp.Text.{Text, trim}

pub record HostConfig : Type 0 where
  pub name : String
  pub url : String
  pub auth_token_file : String

pub record Config : Type 0 where
  pub refresh_interval_secs : ℕ
  pub stale_after_secs : ℕ
  pub hosts : List HostConfig

pub data K8sError : Type 0 where
  no_hosts no_refresh stale_before_refresh no_name : K8sError
  duplicate_name : String → K8sError

-- the loop over the hosts, with the names seen
unfoldable pub check_hosts : List String → List HostConfig → Option K8sError
check_hosts seen [] = none
check_hosts seen (h ∷ hosts) =
    let rest = check_hosts (h.name ∷ seen) hosts in
    if h.name == ""
    then some no_name
    else if contains seen h.name
    then some (duplicate_name h.name)
    else rest

-- `Config::load`, once the file is read: `none` if it is accepted
unfoldable pub load : Config → Option K8sError
unfolding check_hosts
load cfg =
    if is_empty cfg.hosts
    then some no_hosts
    else if cfg.refresh_interval_secs == 0
    then some no_refresh
    else if ltb cfg.stale_after_secs cfg.refresh_interval_secs
    then some stale_before_refresh
    else check_hosts [] cfg.hosts

-- `read_token`, of the file's text if it can be read
unfoldable pub read_token : Option Text → Option Text
read_token none = none
read_token (some raw) = let trimmed = trim raw in if is_empty trimmed then none else some trimmed

abbrev pub names : List HostConfig → List String
names = images (λ (h : HostConfig). h.name)

pub record IsValid (cfg : Config) : Type 0 where
  pub some_host : cfg.hosts ≢ []
  pub refresh : 1 ≤ cfg.refresh_interval_secs
  pub stale : cfg.refresh_interval_secs ≤ cfg.stale_after_secs
  pub named : All (λ (h : HostConfig). h.name ≢ "") cfg.hosts
  pub once : NoRepeat (names cfg.hosts)

check_hosts_lem :
    (seen : List String) (hosts : List HostConfig)
    → (check_hosts seen hosts ≡ none) ↔ (
        All (λ (h : HostConfig). h.name ≢ "") hosts
        × NoRepeat (names hosts)
        × All (λ (h : HostConfig). contains seen h.name ≡ false) hosts)
unfolding check_hosts
check_hosts_lem seen [] = ground arith
check_hosts_lem seen (h ∷ hosts) = ground (
  arith,
  string_eq.equal_iff h.name "",
  contains-images (λ (x : HostConfig). x.name) h.name seen hosts,
  check_hosts_lem (h.name ∷ seen) hosts,
)

-- A configuration is accepted exactly if it has hosts, with names that are not empty and different,
-- and a refresh interval that is not 0 nor longer than `stale_after_secs`.
pub load-IsValid_k8s : (cfg : Config) → (load cfg ≡ none) ↔ IsValid cfg
unfolding load
load-IsValid_k8s cfg =
    let unseen =
      All-always (λ (h : HostConfig). contains {A = String} [] h.name ≡ false) (λ h. refl)
        cfg.hosts in
    (
      λ e. ground (arith, unseen, check_hosts_lem [] cfg.hosts),
      λ v. ground (arith, unseen, check_hosts_lem [] cfg.hosts),
    )
