-- ===== src/Engine/Detach.antt =====
-- `remove_interface` of dumbarp/src/lib.rs after `add_interface`.
use dumbarp.Common.{
  ℕ, ◌≡◌, refl, inl, inr, false, String, Option, none, some, nat_eq, string_eq, arith, contains,
  Option-cases, lookup, insert, remove, lookup-insert, lookup-remove,
}
use dumbarp.Wire.Keys.{ArpKey, arp_key_eq, arp_key_beq_iff}
use dumbarp.Ebpf.{Mac, Quad, from_ne_bytes}
use dumbarp.Engine.{
  Host, Aya, Attached, Dumbarp, already_attached, drop_link, put_arp, put_id, put_l2,
  clear_arp_entry, detach_xdp, detach_tc, add_interface, clear_egress, remove_interface,
}
use dumbarp.Engine.Egress.{
  SameHost, IsUnused, IsDetachable, add_interface-cases, drop_link_absent, detach-SameHost,
  clear_arp_entry-eq, clear_egress-eq,
}
use dumbarp.Engine.Served.{IsOnly, Egress, Served, attach_at-Served}

module _ (aya : Aya) (ok : IsDetachable aya) where
  detached-SameHost :
      (key : ArpKey) (mac : Mac) (link : ℕ) (dscp_id tc : Option ℕ) (h h' : Host)
      → IsUnused key key.ifindex h
      → contains h.xdp_links link ≡ false
      → IsOnly key link mac h h'
      → Egress key.ifindex dscp_id tc h h'
      → SameHost h
          (detach_xdp aya link (clear_arp_entry aya key (clear_egress aya tc key.ifindex h')))
  unfolding Egress
  detached-SameHost key mac link none tc h h' unused new only (no_tc, links, ids, l2) =
      let none_set : clear_egress aya none key.ifindex h' ≡ h' = unfold clear_egress in refl in
      rw (no_tc, none_set, clear_arp_entry-eq aya ok key h')
        (detach-SameHost aya ok link h (put_arp key none h') new (record {
          arp = λ k. ground (arith, only.arp k, unused.arp, arp_key_beq_iff key k);
          ids = ids;
          l2 = l2;
          xdp = only.xdp;
          tc = links;
        }))
  detached-SameHost key mac link (some id) tc h h' unused new only
        (t, has_tc, links, fresh, has_id, has_l2) =
      let freed = put_l2 key.ifindex none (put_id key.ifindex none (detach_tc aya t h')) in
      let run : detach_tc aya t h' ≡ record h' { tc_links = drop_link t h'.tc_links } =
        unfold detach_tc in ground (arith, ok.detach_tc_ok t h') in
      rw (has_tc, clear_egress-eq aya ok t key.ifindex h', clear_arp_entry-eq aya ok key freed, run)
        (detach-SameHost aya ok link h
          (put_arp key none (
            put_l2 key.ifindex none
              (put_id key.ifindex none (record h' { tc_links = drop_link t h'.tc_links }))))
          new
          (record {
            arp = λ k.
                ground (arith, only.arp k, unused.arp, arp_key_beq_iff key k, ok.detach_tc_ok t h');
            ids = λ j. ground (arith, only.ids j, unused.ids, ok.detach_tc_ok t h');
            l2 = λ j. ground (arith, only.l2 j, unused.l2, ok.detach_tc_ok t h');
            xdp = ground (arith, only.xdp, ok.detach_tc_ok t h');
            tc = ground (arith, links, ok.detach_tc_ok t h', drop_link_absent t h.tc_links fresh);
          }))

  -- Undoes what `Served` says.
  remove-Served :
      (iface : String) (key : ArpKey) (mac : Mac) (dscp_id : Option ℕ) (e e' : Dumbarp)
      → lookup iface e.attached ≡ none
      → IsUnused key key.ifindex e.host
      → Served aya ok iface key mac dscp_id e e'
      → ((remove_interface aya iface e').0 ≡ none)
        × SameHost e.host (remove_interface aya iface e').1.host
        × ((k : String) → lookup k (remove_interface aya iface e').1.attached ≡ lookup k e.attached)
  remove-Served iface key mac dscp_id e e' free unused s =
      let entry : Attached = record {
        link_id = s.link;
        tc_link_id = s.tc;
        key = key;
        ifindex = key.ifindex;
      } in
      let found : lookup iface e'.attached ≡ some entry = rw s.attached (
        ground
          (arith, lookup-insert iface iface entry e.attached, string_eq.equal_iff iface iface)) in
      let cleared = clear_arp_entry aya key (clear_egress aya s.tc key.ifindex e'.host) in
      let run : remove_interface aya iface e' ≡ (
        none,
        record { host = detach_xdp aya s.link cleared; attached = remove iface e'.attached },
      ) =
        unfold remove_interface in ground (arith, found, ok.detach_xdp_ok s.link cleared) in
      rw run (
        refl,
        detached-SameHost key mac s.link dscp_id s.tc e.host e'.host unused s.new s.only s.egress,
        λ k. rw s.attached (
            ground (
              arith,
              free,
              string_eq.equal_iff iface k,
              lookup-remove iface k (insert iface entry e.attached),
              lookup-insert iface k entry e.attached,
            )),
      )

  -- If detaching works, links are new, a `remove` fails only where there is no entry, and the
  -- interface had no entries: what `add_interface` attaches, with or without an id,
  -- `remove_interface` takes away again, and it succeeds; the attachments, the entries and the
  -- attached interfaces are then as they were.
  pub remove_interface-add_interface :
      (iface : String) (ip : Quad) (dscp_id : Option ℕ) (e : Dumbarp)
      → ((i : ℕ)
          → aya.iface_ifindex iface e.host ≡ some i
          → IsUnused (record { ifindex = i; ip = from_ne_bytes ip }) i e.host)
      → (add_interface aya iface ip dscp_id e).0 ≡ none
      → ((remove_interface aya iface (add_interface aya iface ip dscp_id e).1).0 ≡ none)
        × SameHost e.host
            (remove_interface aya iface (add_interface aya iface ip dscp_id e).1).1.host
        × ((k : String)
            → lookup k
                (remove_interface aya iface (add_interface aya iface ip dscp_id e).1).1.attached
              ≡ lookup k e.attached)
  remove_interface-add_interface iface ip dscp_id e unused fine =
      elim (Option-cases (lookup iface e.attached)) [
        | inr (a, there) ↦
            let run : (add_interface aya iface ip dscp_id e).0 ≡ some already_attached =
              unfold add_interface in ground (arith, there) in
            absurd (ground (arith, run))
        | inl free ↦ elim (add_interface-cases aya iface ip dscp_id e) [
          | inl (error, run) ↦ absurd (ground (arith, run))
          | inr (i, mac, found, run) ↦
              let key : ArpKey = record { ifindex = i; ip = from_ne_bytes ip } in
              rw run (
                remove-Served iface key mac dscp_id e _ free (unused i found)
                  (attach_at-Served aya ok iface key mac dscp_id e (rw run at fine)))
        ]
      ]
