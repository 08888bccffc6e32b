-- ===== src/Daemon/Serve.antt =====
-- What the daemon tells others: `current_ips` and `current_routes` of dumbarp-daemon/src/state.rs,
-- `leases_handler` of dumbarp-daemon/src/http.rs and `reconcile_routing` of refresh.rs beside them.
use dumbarp.Common.{
  ℕ, ◌≤◌, ◌≡◌, refl, Bool, true, false, String, Option, none, some, List, [], ◌∷◌, string_eq,
  nat_eq, arith, All, Dict, contains, NoRepeat, length,
}
use dumbarp.Ebpf.{Quad}
use dumbarp.Text.{Text}
use dumbarp.Text.Addr.{IsAddr, show_addr, parse_addr-show_addr, number}
use dumbarp.Api.Responses.{LeasesResponse, parse_ip, parse_ips, parse_leases}
use dumbarp.Routing.{RouteSpec}
use dumbarp.Routing.Netlink.{Netlink}
use dumbarp.Routing.Reconcile.{reconcile}
use dumbarp.Routing.Views.{routes_at}
use dumbarp.Routing.Ideal.{Kernel, Reliable, Agrees}
use dumbarp.Routing.Wanted.{wanted, IsMarkable}
use dumbarp.Routing.Pass.{reconcile-Agrees}
use dumbarp.Daemon.{LeaseInfo, AppState}

abbrev pub lease_ips : Dict String LeaseInfo → List Quad
lease_ips [] = []
lease_ips ((iface, l) ∷ leases) = l.ip ∷ lease_ips leases

unfoldable pub current_ips : AppState → List Quad
current_ips s = lease_ips s.leases

abbrev lease_routes : Dict String LeaseInfo → List RouteSpec
lease_routes [] = []
lease_routes ((iface, l) ∷ leases) =
    record { src = number l.ip; gateway = number l.gateway; iface = iface; fwmark = none }
    ∷ lease_routes leases

unfoldable pub current_routes : AppState → List RouteSpec
current_routes s = lease_routes s.leases

abbrev show_addrs : List Quad → List Text
show_addrs [] = []
show_addrs (ip ∷ ips) = show_addr ip ∷ show_addrs ips

unfoldable pub leases_handler : Option ℕ → AppState → LeasesResponse
unfolding current_ips
leases_handler dumbarpd_id s = record {
  ips = show_addrs (current_ips s);
  dumbarpd_id = dumbarpd_id;
}

abbrev pub numbers : List Quad → List ℕ
numbers [] = []
numbers (ip ∷ ips) = number ip ∷ numbers ips

parse_ips-show_addrs :
    (ips : List Quad) → All IsAddr ips → parse_ips (show_addrs ips) ≡ some (numbers ips)
unfolding parse_ips parse_ip
parse_ips-show_addrs [] ok = refl
parse_ips-show_addrs (ip ∷ ips) ok =
    rw (parse_addr-show_addr ip ok.0, parse_ips-show_addrs ips ok.1)

-- The addresses that the daemon serves, which are of four octets, are read back by its clients, in
-- the same order and with the id.
pub parse_leases-leases_handler :
    (dumbarpd_id : Option ℕ) (s : AppState)
    → All IsAddr (current_ips s)
    → parse_leases (leases_handler dumbarpd_id s)
      ≡ some (record { ips = numbers (current_ips s); dumbarpd_id = dumbarpd_id })
unfolding parse_leases leases_handler
parse_leases-leases_handler dumbarpd_id s ok = rw (parse_ips-show_addrs (lease_ips s.leases) ok)

module _ (nl : Netlink) (order : List ℕ → List ℕ) where
  -- `has_router`: there is a route manager
  unfoldable pub reconcile_routing : Bool → AppState → nl.State → nl.State
  unfolding current_routes reconcile
  reconcile_routing has_router s kernel =
      let routed = (reconcile nl order (current_routes s) kernel).1 in
      elim has_router [ true ↦ routed | false ↦ kernel ]

  lease_routes-IsMarkable :
      (leases : Dict String LeaseInfo)
      → All (λ (spec : RouteSpec). IsMarkable spec.fwmark) (lease_routes leases)
  lease_routes-IsMarkable [] = tt
  lease_routes-IsMarkable ((iface, l) ∷ leases) =
      (λ e. ground (arith, e), lease_routes-IsMarkable leases)

  -- A daemon with a route manager, over a kernel that does what it is asked and has at most one
  -- dumbarp route in each table: after a pass every table has exactly the rule and the route of the
  -- last lease for it whose interface is there.
  pub reconcile_routing-Agrees :
      (k : Kernel nl) (s : AppState) (kernel : nl.State)
      → Reliable nl k
      → ((l : List ℕ) → NoRepeat l → NoRepeat (order l))
      → ((l : List ℕ) (t : ℕ) → contains (order l) t ≡ contains l t)
      → ((t : ℕ) → length (routes_at t (k.routes kernel)) ≤ 1)
      → (t : ℕ)
      → Agrees nl k (wanted nl kernel t none (current_routes s)) t (reconcile_routing true s kernel)
  reconcile_routing-Agrees k s kernel ok once same single =
      let marks : All (λ (spec : RouteSpec). IsMarkable spec.fwmark) (current_routes s) =
        unfold current_routes in lease_routes-IsMarkable s.leases in
      let pass = reconcile-Agrees nl k ok order (current_routes s) kernel once same marks single in
      unfold reconcile_routing in pass.1
