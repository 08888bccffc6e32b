-- ===== src/Engine/Kept.antt =====
-- The entries and the link of an attached interface of dumbarp/src/lib.rs over sequences of calls.
use dumbarp.Common.{
  ℕ, ◌≡◌, ◌≢◌, refl, sym, ap, ◌∙◌, ◌⊎◌, inl, inr, String, Option, none, some, nat_eq, string_eq,
  arith, Option-cases, lookup, remove, lookup-remove,
}
use dumbarp.Wire.Keys.{ArpKey, arp_key_eq, arp_key_beq_iff}
use dumbarp.Ebpf.{Mac, Quad}
use dumbarp.Engine.{
  Host, Aya, Attached, Dumbarp, not_attached, clear_egress, add_interface, remove_interface,
}
use dumbarp.Engine.Egress.{IsDetachable}
use dumbarp.Engine.Served.{Served}
use dumbarp.Engine.Cleared.{clear_egress-rest}
use dumbarp.Engine.Owned.{IsTracked}
use dumbarp.Engine.Calls.{
  Called, uncalled, adding, removing, IsNumbered, add_interface-changes, remove_interface-eq,
}
use dumbarp.Engine.Tracked.{Called-IsTracked}
use dumbarp.Engine.Serving.{
  IsServing, IsServing-SameHost, insert-cases, contains-drop_link-other, Egress-new,
}

module _ (aya : Aya) (ok : IsDetachable aya) (number : String → Option ℕ)
    (named : IsNumbered aya number) where
  clear_egress-ids-other :
      (tc : Option ℕ) (i j : ℕ) (h : Host)
      → i ≢ j
      → (clear_egress aya tc i h).maps.dscp_id j ≡ h.maps.dscp_id j
  unfolding clear_egress
  clear_egress-ids-other none i j h other = refl
  clear_egress-ids-other (some l) i j h other = ground (arith, other, ok.detach_tc_ok l h)

  Served-IsServing :
      (iface : String) (key : ArpKey) (mac : Mac) (dscp_id : Option ℕ) (e e' : Dumbarp)
      → lookup iface e.attached ≡ none
      → number iface ≡ some key.ifindex
      → IsTracked number e
      → IsServing e
      → Served aya ok iface key mac dscp_id e e'
      → IsServing e'
  Served-IsServing iface key mac dscp_id e e' free is_number t v s =
      let entry : Attached = record {
        link_id = s.link;
        tc_link_id = s.tc;
        key = key;
        ifindex = key.ifindex;
      } in
      let split : (k : String) (b : Attached)
          → lookup k e'.attached ≡ some b
          → ((iface ≡ k) × (entry ≡ b)) ⊎ (lookup k e.attached ≡ some b) =
        λ k b is. insert-cases iface k entry b e.attached (rw s.attached at is) in
      let numbers : (k : String) (b : Attached)
          → lookup k e.attached ≡ some b
          → b.ifindex ≢ key.ifindex =
        λ k b before same.
          let is_k : iface ≡ k =
            named.distinct iface k key.ifindex is_number (rw same at (t.numbered k b before).1) in
          ground (arith, before, free, is_k) in
      let newer : (k : String) (b : Attached) → lookup k e.attached ≡ some b → s.link ≢ b.link_id =
        λ k b before same. ground (arith, s.new, same, v.xdp k b before) in
      record {
        arp = λ k b is. elim (split k b is) [
          | inl (is_k, is_b) ↦
              rw (sym is_b) (λ off. ground (arith, off, s.only.arp key, arp_key_beq_iff key key))
          | inr before ↦ λ off. v.arp k b before (ground (arith, off, s.only.arp b.key))
        ];
        xdp = λ k b is. rw s.only.xdp (elim (split k b is) [
          | inl (is_k, is_b) ↦ rw (sym is_b) (ground arith)
          | inr before ↦ ground (arith, v.xdp k b before)
        ]);
        ids = λ k b is. elim (split k b is) [
          | inl (is_k, is_b) ↦
              rw (sym is_b) (Egress-new key.ifindex dscp_id s.tc e.host e'.host s.egress)
          | inr before ↦ λ has off.
              v.ids k b before has (sym (s.only.ids b.ifindex (numbers k b before)) ∙ off)
        ];
        apart = λ i j b c is_b is_c same. elim (split i b is_b) [
          | inl (is_i, new_b) ↦ elim (split j c is_c) [
            | inl (is_j, new_c) ↦ sym is_i ∙ is_j
            | inr before ↦ absurd (newer j c before (rw (sym new_b) at same))
          ]
          | inr before_b ↦ elim (split j c is_c) [
            | inl (is_j, new_c) ↦ absurd (newer i b before_b (sym (rw (sym new_c) at same)))
            | inr before_c ↦ v.apart i j b c before_b before_c same
          ]
        ];
      }

  remove-IsServing :
      (iface : String) (a : Attached) (e : Dumbarp)
      → lookup iface e.attached ≡ some a
      → IsTracked number e
      → IsServing e
      → IsServing (remove_interface aya iface e).1
  remove-IsServing iface a e there t v =
      let (same_arp, same_xdp) = clear_egress-rest aya ok a.tc_link_id a.ifindex e.host in
      let other : (k : String) (b : Attached)
          → lookup k (remove iface e.attached) ≡ some b
          → (lookup k e.attached ≡ some b) × (iface ≢ k) =
        λ k b is. (
          ground (arith, is, lookup-remove iface k e.attached),
          λ same.
              ground
                (arith, is, lookup-remove iface k e.attached, string_eq.equal_iff iface k, same),
        ) in
      let numbers : (k : String) (b : Attached)
          → lookup k (remove iface e.attached) ≡ some b
          → a.ifindex ≢ b.ifindex =
        λ k b is same.
          let (before, differs) = other k b is in
          differs (
            named.distinct iface k a.ifindex (t.numbered iface a there).1
              (rw same ((t.numbered k b before).1))) in
      rw (remove_interface-eq aya ok iface a e there) (record {
        arp = λ k b is off.
            let (before, differs) = other k b is in
            let keys : a.key ≢ b.key = λ same. numbers k b is (
              sym (t.numbered iface a there).0
              ∙ ap ArpKey.ifindex same
              ∙ (t.numbered k b before).0) in
            v.arp k b before
              (ground (arith, off, keys, same_arp b.key, arp_key_beq_iff a.key b.key));
        xdp = λ k b is.
            let (before, differs) = other k b is in
            contains-drop_link-other a.link_id b.link_id _
              (λ same. differs (v.apart iface k a b there before same))
              (rw same_xdp (v.xdp k b before));
        ids = λ k b is has off.
            let (before, differs) = other k b is in
            v.ids k b before has (
              sym (clear_egress-ids-other a.tc_link_id a.ifindex b.ifindex e.host (numbers k b is))
              ∙ off);
        apart = λ i j b c is_b is_c. v.apart i j b c (other i b is_b).0 (other j c is_c).0;
      })

  remove_interface-IsServing :
      (iface : String) (e : Dumbarp)
      → IsTracked number e
      → IsServing e
      → IsServing (remove_interface aya iface e).1
  remove_interface-IsServing iface e t v = elim (Option-cases (lookup iface e.attached)) [
    | inl free ↦
        let run : remove_interface aya iface e ≡ (some not_attached, e) =
          unfold remove_interface in ground (arith, free) in
        rw run v
    | inr (a, there) ↦ remove-IsServing iface a e there t v
  ]

  add_interface-IsServing :
      (iface : String) (ip : Quad) (dscp_id : Option ℕ) (e : Dumbarp)
      → IsTracked number e
      → IsServing e
      → IsServing (add_interface aya iface ip dscp_id e).1
  add_interface-IsServing iface ip dscp_id e t v =
      elim (add_interface-changes aya ok number named iface ip dscp_id e t) [
        | inl (attached, same) ↦ IsServing-SameHost e _ attached same v
        | inr (key, mac, free, is_number, served) ↦
            Served-IsServing iface key mac dscp_id e _ free is_number t v served
      ]

  -- If detaching works, links are new, a `remove` fails only where there is no entry, numbers of
  -- interfaces do not change and no two interfaces share one, and every entry and link belongs to
  -- an attached interface to begin with: if each attached interface has an ARP entry under its
  -- key, its link, an id in the map if it has the egress program, and a link of its own, then so
  -- it is after any sequence of calls of `add_interface` and `remove_interface`, also of calls
  -- that fail.
  pub Called-IsServing :
      (e e' : Dumbarp) → IsTracked number e → IsServing e → Called aya e e' → IsServing e'
  Called-IsServing e e' t v uncalled = v
  Called-IsServing e e' t v (adding calls iface ip dscp_id) =
      add_interface-IsServing iface ip dscp_id _ (Called-IsTracked aya ok number named e _ t calls)
        (Called-IsServing e _ t v calls)
  Called-IsServing e e' t v (removing calls iface) =
      remove_interface-IsServing iface _ (Called-IsTracked aya ok number named e _ t calls)
        (Called-IsServing e _ t v calls)
