-- ===== src/Api/Responses.antt =====
-- The responses of dumbarp-api/src/lib.rs and their parsing. What serde reads and writes, the JSON of
-- these records, is not modelled.
use dumbarp.Common.{
  ℕ, ◌<◌, ◌≡◌, refl, String, Option, some, List, [], ◌∷◌, ◌==◌, string_eq, not, All,
}
use dumbarp.Text.{Text, ◌>>=◌, ◌>>◌, guard}
use dumbarp.Text.Addr.{
  show_addr, parse_addr, parse_addr-show_addr, number, address, address-IsAddr, number-address,
}
use dumbarp.Api.{Leases, DaemonRoutes}

pub record LeasesResponse : Type 0 where
  pub ips : List Text
  pub dumbarpd_id : Option ℕ

pub record DaemonEntryView : Type 0 where
  pub name : String
  pub nexthop : Text
  pub device : String
  pub dumbarpd_id : Option ℕ
  pub ips : List Text

pub record DaemonsResponse : Type 0 where
  pub daemons : List DaemonEntryView

-- `ip.to_string()` and `s.parse::<Ipv4Addr>()`
abbrev pub ip_text : ℕ → Text
ip_text ip = show_addr (address ip)

unfoldable pub parse_ip : Text → Option ℕ
parse_ip s = do some (number (← parse_addr s))

unfoldable pub parse_ips : List Text → Option (List ℕ)
parse_ips [] = some []
parse_ips (s ∷ raw) = do ip ← parse_ip s; ips ← parse_ips raw; some (ip ∷ ips)

unfoldable pub parse_leases : LeasesResponse → Option Leases
parse_leases r = do ips ← parse_ips r.ips; some (record { ips = ips; dumbarpd_id = r.dumbarpd_id })

-- one turn of the loop in `DaemonsResponse::parse`
unfoldable pub parse_daemon : DaemonEntryView → Option DaemonRoutes
parse_daemon d = do
  nexthop ← parse_ip d.nexthop
  guard (not (d.device == ""))
  ips ← parse_ips d.ips
  some (record {
    name = d.name;
    nexthop = nexthop;
    device = d.device;
    dumbarpd_id = d.dumbarpd_id;
    ips = ips;
  })

abbrev pub parse_each : List DaemonEntryView → Option (List DaemonRoutes)
parse_each [] = some []
parse_each (d ∷ daemons) = do routes ← parse_daemon d; out ← parse_each daemons; some (routes ∷ out)

unfoldable pub parse_daemons : DaemonsResponse → Option (List DaemonRoutes)
parse_daemons r = parse_each r.daemons

abbrev pub IsIp : ℕ → Type 0
IsIp ip = ip < 4294967296

abbrev pub ip_texts : List ℕ → List Text
ip_texts [] = []
ip_texts (ip ∷ ips) = ip_text ip ∷ ip_texts ips

pub parse_ip-ip_text : (ip : ℕ) → IsIp ip → parse_ip (ip_text ip) ≡ some ip
unfolding parse_ip
parse_ip-ip_text ip h =
    rw (parse_addr-show_addr (address ip) (address-IsAddr ip), number-address ip h)

pub parse_ips-ip_texts : (ips : List ℕ) → All IsIp ips → parse_ips (ip_texts ips) ≡ some ips
unfolding parse_ips
parse_ips-ip_texts [] h = refl
parse_ips-ip_texts (ip ∷ ips) h = rw (parse_ip-ip_text ip h.0, parse_ips-ip_texts ips h.1)
