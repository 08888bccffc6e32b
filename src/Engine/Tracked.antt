-- ===== src/Engine/Tracked.antt =====
-- Whose the entries and links are that dumbarp/src/lib.rs makes, over sequences of calls.
use dumbarp.Common.{
  ℕ, ◌≡◌, refl, sym, inl, inr, String, Option, none, some, ◌==◌, nat_eq, string_eq, arith,
  Bool-cases, Option-cases, lookup, lookup-insert, lookup-remove,
}
use dumbarp.Wire.Keys.{ArpKey, arp_key_eq, arp_key_beq_iff}
use dumbarp.Ebpf.{Mac, Quad}
use dumbarp.Engine.{
  Host, Aya, Attached, Dumbarp, not_attached, clear_egress, add_interface, remove_interface,
}
use dumbarp.Engine.Egress.{IsDetachable}
use dumbarp.Engine.Served.{Served}
use dumbarp.Engine.Cleared.{
  contains-drop_link, Egress-ids, Egress-l2, Egress-tc, clear_egress-ids, clear_egress-l2,
  clear_egress-tc, clear_egress-rest,
}
use dumbarp.Engine.Calls.{
  Called, uncalled, adding, removing, IsNumbered, add_interface-changes, remove_interface-eq,
}
use dumbarp.Engine.Owned.{
  Egresses, Owned-insert, Owned-new, Owned-remove, IsTracked, IsTracked-SameHost,
}

module _ (aya : Aya) (ok : IsDetachable aya) (number : String → Option ℕ)
    (named : IsNumbered aya number) where
  Served-IsTracked :
      (iface : String) (key : ArpKey) (mac : Mac) (dscp_id : Option ℕ) (e e' : Dumbarp)
      → lookup iface e.attached ≡ none
      → number iface ≡ some key.ifindex
      → IsTracked number e
      → Served aya ok iface key mac dscp_id e e'
      → IsTracked number e'
  Served-IsTracked iface key mac dscp_id e e' free is_number t s =
      let entry : Attached = record {
        link_id = s.link;
        tc_link_id = s.tc;
        key = key;
        ifindex = key.ifindex;
      } in
      rw s.attached (record {
        arp = λ k m set. elim (Bool-cases (key == k)) [
          | inl same ↦
              Owned-new (λ b. b.key ≡ k) iface entry e.attached
                (ground (arith, same, arp_key_beq_iff key k))
          | inr other ↦
              Owned-insert (λ b. b.key ≡ k) iface entry e.attached free
                (t.arp k m (ground (arith, other, s.only.arp k, set)))
        ];
        ids = λ j v set.
            elim (Egress-ids key.ifindex dscp_id s.tc e.host e'.host s.egress s.only.ids j v set) [
              | inl before ↦
                  Owned-insert (Egresses j) iface entry e.attached free (t.ids j v before)
              | inr owner ↦ Owned-new (Egresses j) iface entry e.attached owner
            ];
        l2 = λ j v set.
            elim (Egress-l2 key.ifindex dscp_id s.tc e.host e'.host s.egress s.only.l2 j v set) [
              | inl before ↦ Owned-insert (Egresses j) iface entry e.attached free (t.l2 j v before)
              | inr owner ↦ Owned-new (Egresses j) iface entry e.attached owner
            ];
        xdp = λ l has. elim (Bool-cases (s.link == l)) [
          | inl same ↦ Owned-new (λ b. b.link_id ≡ l) iface entry e.attached (ground (arith, same))
          | inr other ↦
              Owned-insert (λ b. b.link_id ≡ l) iface entry e.attached free
                (t.xdp l (ground (arith, other, rw s.only.xdp at has)))
        ];
        tc = λ l has. elim (Egress-tc key.ifindex dscp_id s.tc e.host e'.host s.egress l has) [
          | inl before ↦
              Owned-insert (λ b. b.tc_link_id ≡ some l) iface entry e.attached free (t.tc l before)
          | inr owner ↦ Owned-new (λ b. b.tc_link_id ≡ some l) iface entry e.attached owner
        ];
        numbered = λ k b is. elim (Bool-cases (iface == k)) [
          | inl same ↦
              let is_k : iface ≡ k = (string_eq.equal_iff iface k).0 same in
              let is_b : entry ≡ b =
                ground (arith, same, is, lookup-insert iface k entry e.attached) in
              rw (sym is_b) (refl, rw is_k at is_number)
          | inr other ↦
              t.numbered k b (ground (arith, other, is, lookup-insert iface k entry e.attached))
        ];
      })

  remove-IsTracked :
      (iface : String) (a : Attached) (e : Dumbarp)
      → lookup iface e.attached ≡ some a
      → IsTracked number e
      → IsTracked number (remove_interface aya iface e).1
  remove-IsTracked iface a e there t =
      let h : Host = clear_egress aya a.tc_link_id a.ifindex e.host in
      let (same_arp, same_xdp) = clear_egress-rest aya ok a.tc_link_id a.ifindex e.host in
      rw (remove_interface-eq aya ok iface a e there) (record {
        arp = λ k m set.
            Owned-remove (λ b. b.key ≡ k) iface a e.attached there
              (λ same. ground (arith, set, arp_key_beq_iff a.key k, same))
              (t.arp k m (ground (arith, set, same_arp k)));
        ids = λ j v set.
            let (before, other) = clear_egress-ids aya ok a.tc_link_id a.ifindex j v e.host set in
            Owned-remove (Egresses j) iface a e.attached there other (t.ids j v before);
        l2 = λ j v set.
            let (before, other) = clear_egress-l2 aya ok a.tc_link_id a.ifindex j v e.host set in
            Owned-remove (Egresses j) iface a e.attached there other (t.l2 j v before);
        xdp = λ l has.
            let (before, other) = contains-drop_link a.link_id l h.xdp_links has in
            Owned-remove (λ b. b.link_id ≡ l) iface a e.attached there other
              (t.xdp l (rw same_xdp at before));
        tc = λ l has.
            let (before, other) = clear_egress-tc aya ok a.tc_link_id a.ifindex l e.host has in
            Owned-remove (λ b. b.tc_link_id ≡ some l) iface a e.attached there other
              (t.tc l before);
        numbered = λ k b is. t.numbered k b (ground (arith, is, lookup-remove iface k e.attached));
      })

  add_interface-IsTracked :
      (iface : String) (ip : Quad) (dscp_id : Option ℕ) (e : Dumbarp)
      → IsTracked number e
      → IsTracked number (add_interface aya iface ip dscp_id e).1
  add_interface-IsTracked iface ip dscp_id e t =
      elim (add_interface-changes aya ok number named iface ip dscp_id e t) [
        | inl (attached, same) ↦ IsTracked-SameHost number e _ attached same t
        | inr (key, mac, free, is_number, served) ↦
            Served-IsTracked iface key mac dscp_id e _ free is_number t served
      ]

  remove_interface-IsTracked :
      (iface : String) (e : Dumbarp)
      → IsTracked number e
      → IsTracked number (remove_interface aya iface e).1
  remove_interface-IsTracked iface e t = elim (Option-cases (lookup iface e.attached)) [
    | inl free ↦
        let run : remove_interface aya iface e ≡ (some not_attached, e) =
          unfold remove_interface in ground (arith, free) in
        rw run t
    | inr (a, there) ↦ remove-IsTracked iface a e there t
  ]

  -- If detaching works, links are new, a `remove` fails only where there is no entry, numbers of
  -- interfaces do not change and no two interfaces share one: if every entry of the maps and every
  -- link belongs to an attached interface, then so it is after any sequence of calls of
  -- `add_interface` and `remove_interface`, also of calls that fail: an ARP entry has the
  -- interface's key, an entry of the egress program's maps the number of an interface with that
  -- program, and each link is the one the interface was attached by.
  pub Called-IsTracked :
      (e e' : Dumbarp) → IsTracked number e → Called aya e e' → IsTracked number e'
  Called-IsTracked e e' t uncalled = t
  Called-IsTracked e e' t (adding calls iface ip dscp_id) =
      add_interface-IsTracked iface ip dscp_id _ (Called-IsTracked e _ t calls)
  Called-IsTracked e e' t (removing calls iface) =
      remove_interface-IsTracked iface _ (Called-IsTracked e _ t calls)
