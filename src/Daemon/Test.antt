-- ===== src/Daemon/Test.antt =====
-- Runs of dumbarp-daemon/src, and its theorems at concrete inputs.
use dumbarp.Common.{ℕ, ◌≡◌, refl, true, none, arith, All, List, some, [], ◌∷◌, string_eq, nat_eq}
use dumbarp.Ebpf.{Quad}
use dumbarp.Daemon.{Config, load, dscp_id, AppState, id_out_of_range}
use dumbarp.Text.Addr.{IsAddr}
use dumbarp.Api.Responses.{parse_leases}
use dumbarp.Routing.Simulator.{Tables}
use dumbarp.Daemon.Serve.{current_ips, current_routes, leases_handler, parse_leases-leases_handler}

abbrev config : Config
config = record {
  listen = "0.0.0.0:1028";
  auth_token = "t";
  refresh_interval_secs = 60;
  ifaces = "eth0" ∷ [];
  manage_routing = true;
  neigh_refresh_interval_secs = 30;
  dumbarpd_id = 64;
}

id_refused : load config ≡ some id_out_of_range
unfolding load
id_refused = refl

no_id : dscp_id (record config { dumbarpd_id = 0 }) ≡ none
unfolding dscp_id
no_id = refl

abbrev idle : AppState
idle = record {
  engine = record {
    host = record {
      maps = record {
        arp_table = λ k. none;
        dscp_id = λ i. none;
        orig_dscp = λ k. none;
        l2_len = λ i. none;
      };
      xdp_links = [];
      tc_links = [];
    };
    attached = [];
  };
  leases = [];
}

abbrev ip : Quad
ip = record { q0 = 110; q1 = 110; q2 = 110; q3 = 110 }

abbrev served_state : AppState
served_state = record idle { leases = ("eth0", record { ip = ip; gateway = ip }) ∷ [] }

ip-IsAddr : IsAddr ip
ip-IsAddr = record {
  q0_byte = omega arith;
  q1_byte = omega arith;
  q2_byte = omega arith;
  q3_byte = omega arith;
}

served_ips : All IsAddr (current_ips served_state)
unfolding current_ips
served_ips = (ip-IsAddr, tt)

abbrev in_order : List ℕ → List ℕ
in_order l = l

-- a kernel in memory, which has nothing yet
abbrev empty_kernel : Tables
empty_kernel = record { rules = []; routes = [] }

one_route :
    current_routes served_state
    ≡ record { src = 1852730990; gateway = 1852730990; iface = "eth0"; fwmark = none } ∷ []
unfolding current_routes
one_route = refl

served_is_read :
    parse_leases (leases_handler (some 7) served_state)
    ≡ some (record { ips = 1852730990 ∷ []; dumbarpd_id = some 7 })
unfolding current_ips
served_is_read = parse_leases-leases_handler (some 7) served_state served_ips
