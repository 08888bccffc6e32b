-- ===== src/Dhclient/Read.antt =====
-- dhcp-lease-read/src/isc_dhclient/read_lease.rs: the lease that is taken from the files, whose
-- contents are an input, `none` for a file that cannot be read.
use dumbarp.Common.{
  ℕ, Bool, true, false, Option, none, some, List, [], ◌∷◌, ◌++◌, ◌==◌, if◌then◌else◌,
}
use dumbarp.Text.{Text, ◌>>=◌, codes, text_eq}
use dumbarp.Dhclient.{Nom, Chrono, Lease, DhcpLease}
use dumbarp.Dhclient.Parser.{parse_leases}

unfoldable pub option_value : List (Text × Text) → Text → Option Text
option_value [] key = none
option_value (opt ∷ opts) key = if opt.0 == key then some opt.1 else option_value opts key

module _ (chrono : Chrono) where
  -- the order of `Option<DateTime>`
  unfoldable pub key_before : Option chrono.Instant → Option chrono.Instant → Bool
  key_before none none = false
  key_before none (some b) = true
  key_before (some a) none = false
  key_before (some a) (some b) = chrono.is_before a b

  unfoldable pub is_unexpired : chrono.Instant → Lease chrono → Bool
  is_unexpired now l = elim l.expire [ none ↦ false | some e ↦ chrono.is_before now e ]

  unfoldable pub unexpired : chrono.Instant → List (Lease chrono) → List (Lease chrono)
  unfolding is_unexpired
  unexpired now [] = []
  unexpired now (l ∷ leases) =
      let rest = unexpired now leases in if is_unexpired now l then l ∷ rest else rest

  -- `max_by_key`: of equal ones the last
  unfoldable pub max_from : Lease chrono → List (Lease chrono) → Lease chrono
  unfolding key_before
  max_from best [] = best
  max_from best (l ∷ leases) = max_from (if key_before l.expire best.expire then best else l) leases

  unfoldable pub max_by_expire : List (Lease chrono) → Option (Lease chrono)
  unfolding max_from
  max_by_expire [] = none
  max_by_expire (l ∷ leases) = some (max_from l leases)

  module _ (nom : Nom) (unicode : ℕ → Bool) where
    unfoldable pub all_leases : List (Option Text) → List (Lease chrono)
    all_leases [] = []
    all_leases (none ∷ files) = all_leases files
    all_leases (some contents ∷ files) =
        let rest = all_leases files in
        elim (parse_leases nom unicode chrono contents) [
          | none ↦ rest
          | some (_, leases) ↦ leases ++ rest
        ]

    unfoldable pub read_dhcp_lease : List (Option Text) → chrono.Instant → Option DhcpLease
    unfolding all_leases unexpired max_by_expire option_value
    read_dhcp_lease files now = do
      latest ← max_by_expire (unexpired now (all_leases files))
      interface ← latest.interface
      ip_address ← latest.fixed_address
      subnet_mask ← option_value latest.options (codes "subnet-mask")
      router ← option_value latest.options (codes "routers")
      some (record {
        interface = interface;
        ip_address = ip_address;
        subnet_mask = subnet_mask;
        router = router;
        expired = false;
      })
