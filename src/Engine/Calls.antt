-- ===== src/Engine/Calls.antt =====
-- Any sequence of calls of `add_interface` and `remove_interface` of dumbarp/src/lib.rs.
use dumbarp.Common.{
  ℕ, if◌then◌else◌, ◌≡◌, refl, sym, ◌∙◌, ◌⊎◌, inl, inr, String, Option, none, some, nat_eq,
  string_eq, arith, Option-cases, lookup, remove,
}
use dumbarp.Wire.Keys.{ArpKey, arp_key_eq}
use dumbarp.Ebpf.{Mac, Quad, from_ne_bytes}
use dumbarp.Engine.{
  Host, Aya, Attached, Dumbarp, already_attached, drop_link, put_arp, no_detach, clear_arp_entry,
  detach_xdp, clear_egress, add_interface, remove_interface,
}
use dumbarp.Engine.Egress.{
  SameHost, IsUnused, IsDetachable, SameHost_refl, clear_arp_entry-eq, add_interface-cases,
}
use dumbarp.Engine.Attach.{add_interface-SameHost}
use dumbarp.Engine.Served.{Served, attach_at-Served}
use dumbarp.Engine.Owned.{IsTracked, IsTracked-IsUnused}

-- The engine after calls, in any order, whether they succeed or not.
pub data Called (aya : Aya) (e : Dumbarp) : Dumbarp → Type 0 where
  uncalled : Called aya e e
  adding :
      {e' : Dumbarp}
      → Called aya e e'
      → (iface : String) (ip : Quad) (dscp_id : Option ℕ)
      → Called aya e (add_interface aya iface ip dscp_id e').1
  removing :
      {e' : Dumbarp}
      → Called aya e e'
      → (iface : String) → Called aya e (remove_interface aya iface e').1

-- Numbers of interfaces do not change, and no two interfaces share one.
pub record IsNumbered (aya : Aya) (number : String → Option ℕ) : Type 0 where
  pub stable : (iface : String) (h : Host) → aya.iface_ifindex iface h ≡ number iface
  pub distinct : (a b : String) (i : ℕ) → number a ≡ some i → number b ≡ some i → a ≡ b

module _ (aya : Aya) (ok : IsDetachable aya) where
  pub remove_interface-eq :
      (iface : String) (a : Attached) (e : Dumbarp)
      → lookup iface e.attached ≡ some a
      → remove_interface aya iface e ≡ (
        none,
        record {
          host = record (put_arp a.key none (clear_egress aya a.tc_link_id a.ifindex e.host)) {
            xdp_links =
                drop_link a.link_id (clear_egress aya a.tc_link_id a.ifindex e.host).xdp_links;
          };
          attached = remove iface e.attached;
        },
      )
  remove_interface-eq iface a e there =
      let h = clear_egress aya a.tc_link_id a.ifindex e.host in
      let run : remove_interface aya iface e ≡ (
        if aya.detach_xdp a.link_id (clear_arp_entry aya a.key h) then none else some no_detach,
        record {
          host = detach_xdp aya a.link_id (clear_arp_entry aya a.key h);
          attached = remove iface e.attached;
        },
      ) =
        unfold remove_interface in ground (arith, there) in
      rw (run, clear_arp_entry-eq aya ok a.key h)
        (unfold detach_xdp in ground (arith, ok.detach_xdp_ok a.link_id (put_arp a.key none h)))

  -- A call either changes nothing, or attaches the interface, if entries and links belong to
  -- attached interfaces.
  pub add_interface-changes :
      (number : String → Option ℕ) (named : IsNumbered aya number) (iface : String) (ip : Quad)
      (dscp_id : Option ℕ) (e : Dumbarp)
      → IsTracked number e
      → (((add_interface aya iface ip dscp_id e).1.attached ≡ e.attached)
          × SameHost e.host (add_interface aya iface ip dscp_id e).1.host)
        ⊎ ((key : ArpKey) × (mac : Mac) × (lookup iface e.attached ≡ none)
            × (number iface ≡ some key.ifindex)
            × Served aya ok iface key mac dscp_id e (add_interface aya iface ip dscp_id e).1)
  add_interface-changes number named iface ip dscp_id e t =
      elim (add_interface-cases aya iface ip dscp_id e) [
        | inl (error, run) ↦ inl (rw run (refl, SameHost_refl e.host))
        | inr (i, mac, found, run) ↦ elim (Option-cases (lookup iface e.attached)) [
          | inr (a, there) ↦
              let refused : add_interface aya iface ip dscp_id e ≡ (some already_attached, e) =
                unfold add_interface in ground (arith, there) in
              inl (rw refused (refl, SameHost_refl e.host))
          | inl free ↦
              let key : ArpKey = record { ifindex = i; ip = from_ne_bytes ip } in
              let is_number : number iface ≡ some i = sym (named.stable iface e.host) ∙ found in
              let unused : IsUnused key i e.host =
                IsTracked-IsUnused number e iface key
                  (λ other is_other. named.distinct other iface i is_other is_number) free t in
              elim (Option-cases (add_interface aya iface ip dscp_id e).0) [
                | inl fine ↦
                    let served = attach_at-Served aya ok iface key mac dscp_id e (rw run at fine) in
                    inr (key, mac, free, is_number, rw run served)
                | inr (error, failed) ↦ inl (
                    add_interface-SameHost aya ok iface ip dscp_id e error
                      (λ j is_j. let is_i : j ≡ i = ground (arith, is_j, found) in rw is_i unused)
                      failed)
              ]
        ]
      ]
