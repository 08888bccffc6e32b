-- ===== src/Gateway/Config.antt =====
-- dumbarp-gateway/src/config.rs. Its `DaemonEntry`, and the loop that checks the daemons, are those of
-- dumbarp-routerd/src/config.rs.
use dumbarp.Common.{
  ℕ, ◌≤◌, ◌≡◌, ◌≢◌, ◌↔◌, refl, Bool, true, false, String, Option, none, some, List, [], ◌==◌,
  nat_eq, string_eq, ltb, arith, if◌then◌else◌, is_empty, All, All-always, NoRepeat, contains,
}
use dumbarp.Router.Config.{DaemonEntry, ConfigError, check_daemons}
use dumbarp.Router.Config.Valid.{IsComplete, names, check_daemons_lem}

pub record ServeConfig : Type 0 where
  pub listen : String
  pub auth_token : String

pub record Config : Type 0 where
  pub refresh_interval_secs : ℕ
  pub stale_after_secs : ℕ
  pub manage_routes : Bool
  pub daemons : List DaemonEntry
  pub serve : Option ServeConfig

pub data GatewayError : Type 0 where
  no_daemons no_refresh stale_before_refresh no_serve_token nothing_to_do : GatewayError
  daemon_error : ConfigError → GatewayError

-- the checks behind the loop over the daemons
unfoldable pub check_serve : Bool → Option ServeConfig → Option GatewayError
check_serve manage_routes none = if manage_routes then none else some nothing_to_do
check_serve manage_routes (some serve) =
    if serve.auth_token == "" then some no_serve_token else none

-- `Config::load`, once the file is read: `none` if it is accepted
unfoldable pub load : Config → Option GatewayError
unfolding check_daemons check_serve
load cfg =
    if is_empty cfg.daemons
    then some no_daemons
    else if cfg.refresh_interval_secs == 0
    then some no_refresh
    else if ltb cfg.stale_after_secs cfg.refresh_interval_secs
    then some stale_before_refresh
    else elim (check_daemons [] cfg.daemons) [
      | some error ↦ some (daemon_error error)
      | none ↦ check_serve cfg.manage_routes cfg.serve
    ]

-- The gateway has routes to manage or daemons to tell of, and a token if it tells.
abbrev pub IsUseful : Bool → Option ServeConfig → Type 0
IsUseful manage_routes none = manage_routes ≡ true
IsUseful manage_routes (some serve) = serve.auth_token ≢ ""

pub record IsValid (cfg : Config) : Type 0 where
  pub some_daemon : cfg.daemons ≢ []
  pub refresh : 1 ≤ cfg.refresh_interval_secs
  pub stale : cfg.refresh_interval_secs ≤ cfg.stale_after_secs
  pub daemons : All IsComplete cfg.daemons
  pub once : NoRepeat (names cfg.daemons)
  pub useful : IsUseful cfg.manage_routes cfg.serve

check_serve_lem :
    (manage_routes : Bool) (serve : Option ServeConfig)
    → (check_serve manage_routes serve ≡ none) ↔ IsUseful manage_routes serve
unfolding check_serve
check_serve_lem manage_routes none = ground arith
check_serve_lem manage_routes (some serve) = ground (arith, string_eq.equal_iff serve.auth_token "")

-- A configuration is accepted exactly if it has daemons, which are complete and of different names, a
-- refresh interval that is not 0 nor longer than `stale_after_secs`, and either a token to serve with
-- or no `[serve]` and routes to manage.
pub load-IsValid : (cfg : Config) → (load cfg ≡ none) ↔ IsValid cfg
unfolding load
load-IsValid cfg =
    let unseen =
      All-always (λ (d : DaemonEntry). contains {A = String} [] d.name ≡ false) (λ d. refl)
        cfg.daemons in
    (
      λ e. ground (
        arith,
        unseen,
        check_daemons_lem [] cfg.daemons,
        check_serve_lem cfg.manage_routes cfg.serve,
      ),
      λ v. ground (
        arith,
        unseen,
        check_daemons_lem [] cfg.daemons,
        check_serve_lem cfg.manage_routes cfg.serve,
      ),
    )
