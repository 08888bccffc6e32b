-- ===== src/Engine/Egress.antt =====
-- What the calls of dumbarp/src/lib.rs do to the kernel, and `attach_egress`.
use dumbarp.Common.{
  ℕ, if◌then◌else◌, ◌==◌, Bool-cases, ap, ◌∙◌, ◌≡◌, ◌≢◌, refl, ◌⊎◌, inl, inr, true, false, String,
  Option, none, some, List, [], ◌∷◌, nat_eq, string_eq, arith, contains, Option-cases, lookup,
}
use dumbarp.Wire.Keys.{ArpKey, arp_key_eq, arp_key_beq_iff}
use dumbarp.Ebpf.{Mac, Quad, from_ne_bytes}
use dumbarp.Engine.{
  Host, Aya, Dumbarp, EngineError, no_interface, already_attached, drop_link, put_arp, put_id,
  put_l2, clear_arp_entry, clear_id, clear_l2, clear_egress, detach_tc, clear_iface_maps,
  detach_xdp, attach_egress, attach_at, add_interface,
}

-- The two have the same attachments and the same entries.
pub record SameHost (h h' : Host) : Type 0 where
  pub arp : (k : ArpKey) → h'.maps.arp_table k ≡ h.maps.arp_table k
  pub ids : (i : ℕ) → h'.maps.dscp_id i ≡ h.maps.dscp_id i
  pub l2 : (i : ℕ) → h'.maps.l2_len i ≡ h.maps.l2_len i
  pub xdp : h'.xdp_links ≡ h.xdp_links
  pub tc : h'.tc_links ≡ h.tc_links

-- The two differ at most in the entries of the key and the interface.
pub record Within (key : ArpKey) (i : ℕ) (h h' : Host) : Type 0 where
  pub arp : (k : ArpKey) → k ≢ key → h'.maps.arp_table k ≡ h.maps.arp_table k
  pub ids : (j : ℕ) → j ≢ i → h'.maps.dscp_id j ≡ h.maps.dscp_id j
  pub l2 : (j : ℕ) → j ≢ i → h'.maps.l2_len j ≡ h.maps.l2_len j

-- The key and the interface have no entries.
pub record IsUnused (key : ArpKey) (i : ℕ) (h : Host) : Type 0 where
  pub arp : h.maps.arp_table key ≡ none
  pub ids : h.maps.dscp_id i ≡ none
  pub l2 : h.maps.l2_len i ≡ none

pub SameHost_refl : (h : Host) → SameHost h h
SameHost_refl h = record { arp = λ k. refl; ids = λ i. refl; l2 = λ i. refl; xdp = refl; tc = refl }

pub cleared :
    (key : ArpKey) (i : ℕ) (h h' : Host)
    → IsUnused key i h
    → Within key i h h'
    → h'.xdp_links ≡ h.xdp_links
    → h'.tc_links ≡ h.tc_links
    → SameHost h (put_l2 i none (put_id i none (put_arp key none h')))
cleared key i h h' unused w x t = record {
  arp = λ k. ground (arith, arp_key_beq_iff key k, unused.arp, w.arp k);
  ids = λ j. ground (arith, unused.ids, w.ids j);
  l2 = λ j. ground (arith, unused.l2, w.l2 j);
  xdp = x;
  tc = t;
}

pub drop_link_absent : (l : ℕ) (xs : List ℕ) → contains xs l ≡ false → drop_link l xs ≡ xs
drop_link_absent l [] h = refl
drop_link_absent l (x ∷ xs) h = ground (arith, drop_link_absent l xs)

-- the host with the new link
abbrev pub linked : ℕ → Host → Host
linked link h = record h { xdp_links = link ∷ h.xdp_links }

-- Taking out an entry that is not there changes nothing.
put_arp-absent : (key : ArpKey) (h : Host) → h.maps.arp_table key ≡ none → h ≡ put_arp key none h
put_arp-absent key h gone =
    let same : (j : ArpKey) → h.maps.arp_table j ≡ (if key == j then none else h.maps.arp_table j) =
      λ j. ground (arith, gone, arp_key_beq_iff key j) in
    λ i. record h { maps = record h.maps { arp_table = λ j. same j i } }

put_id-absent : (n : ℕ) (h : Host) → h.maps.dscp_id n ≡ none → h ≡ put_id n none h
put_id-absent n h gone =
    let same : (j : ℕ) → h.maps.dscp_id j ≡ (if n == j then none else h.maps.dscp_id j) =
      λ j. ground (arith, gone) in
    λ i. record h { maps = record h.maps { dscp_id = λ j. same j i } }

put_l2-absent : (n : ℕ) (h : Host) → h.maps.l2_len n ≡ none → h ≡ put_l2 n none h
put_l2-absent n h gone =
    let same : (j : ℕ) → h.maps.l2_len j ≡ (if n == j then none else h.maps.l2_len j) =
      λ j. ground (arith, gone) in
    λ i. record h { maps = record h.maps { l2_len = λ j. same j i } }

module _ (aya : Aya) where
  -- A failed `attach_egress` touches only the entries of the interface, and attaches nothing.
  pub attach_egress-none :
      (iface : String) (key : ArpKey) (i id : ℕ) (h : Host)
      → (attach_egress aya iface i id h).0 ≡ none
      → Within key i h (attach_egress aya iface i id h).1
        × ((attach_egress aya iface i id h).1.xdp_links ≡ h.xdp_links)
        × ((attach_egress aya iface i id h).1.tc_links ≡ h.tc_links)
  unfolding attach_egress
  attach_egress-none iface key i id h e = (
    record { arp = λ k o. ground arith; ids = λ j o. ground arith; l2 = λ j o. ground arith },
    ground arith,
    ground arith,
  )

  pub attach_egress-some :
      (iface : String) (key : ArpKey) (i id tc : ℕ) (h : Host)
      → (attach_egress aya iface i id h).0 ≡ some tc
      → Within key i h (attach_egress aya iface i id h).1
        × ((attach_egress aya iface i id h).1.xdp_links ≡ h.xdp_links)
        × ((attach_egress aya iface i id h).1.tc_links ≡ tc ∷ h.tc_links)
        × ((attach_egress aya iface i id h).1.maps.dscp_id i ≡ some id)
        × (((attach_egress aya iface i id h).1.maps.l2_len i ≡ some 14)
            ⊎ ((attach_egress aya iface i id h).1.maps.l2_len i ≡ some 0))
        × ((k : ArpKey) → (attach_egress aya iface i id h).1.maps.arp_table k ≡ h.maps.arp_table k)
  unfolding attach_egress
  attach_egress-some iface key i id tc h e = (
    record { arp = λ k o. ground arith; ids = λ j o. ground arith; l2 = λ j o. ground arith },
    ground arith,
    ground arith,
    ground arith,
    ground arith,
    λ k. ground arith,
  )

  -- A call either changes nothing, or goes on from the numbers of the interface.
  pub add_interface-cases :
      (iface : String) (ip : Quad) (dscp_id : Option ℕ) (e : Dumbarp)
      → ((error : EngineError) × (add_interface aya iface ip dscp_id e ≡ (some error, e)))
        ⊎ ((i : ℕ) × (mac : Mac) × (aya.iface_ifindex iface e.host ≡ some i)
            × (add_interface aya iface ip dscp_id e
                ≡ attach_at aya iface
                    (record { ifindex = i; ip = from_ne_bytes ip })
                    mac
                    dscp_id
                    e))
  add_interface-cases iface ip dscp_id e = elim (Option-cases (lookup iface e.attached)) [
    | inr (a, there) ↦ inl (already_attached, unfold add_interface in ground (arith, there))
    | inl free ↦ elim (Option-cases (aya.iface_mac iface e.host)) [
      | inl no_mac ↦ inl (no_interface, unfold add_interface in ground (arith, free, no_mac))
      | inr (mac, has_mac) ↦ elim (Option-cases (aya.iface_ifindex iface e.host)) [
        | inl no_index ↦
            inl (no_interface, unfold add_interface in ground (arith, free, has_mac, no_index))
        | inr (i, has_index) ↦
            inr
              (i, mac, has_index, unfold add_interface in ground (arith, free, has_mac, has_index))
      ]
    ]
  ]

  -- The links of aya are new, and detaching them works. A `remove` fails only where there is no entry.
  pub record IsDetachable : Type 0 where
    pub detach_xdp_ok : (link : ℕ) (h : Host) → aya.detach_xdp link h ≡ true
    pub detach_tc_ok : (link : ℕ) (h : Host) → aya.detach_tc link h ≡ true
    pub xdp_new :
        (iface : String) (link : ℕ) (h : Host)
        → aya.attach_xdp iface h ≡ some link
        → contains h.xdp_links link ≡ false
    pub tc_new :
        (iface : String) (link : ℕ) (h : Host)
        → aya.attach_tc iface h ≡ some link
        → contains h.tc_links link ≡ false
    pub arp_absent :
        (key : ArpKey) (h : Host) → aya.arp_remove key h ≡ false → h.maps.arp_table key ≡ none
    pub id_absent : (i : ℕ) (h : Host) → aya.id_remove i h ≡ false → h.maps.dscp_id i ≡ none
    pub l2_absent : (i : ℕ) (h : Host) → aya.l2_remove i h ≡ false → h.maps.l2_len i ≡ none

  module _ (ok : IsDetachable) where
    pub clear_arp_entry-eq :
        (key : ArpKey) (h : Host) → clear_arp_entry aya key h ≡ put_arp key none h
    unfolding clear_arp_entry
    clear_arp_entry-eq key h = elim (Bool-cases (aya.arp_remove key h)) [
      | inl fine ↦ rw fine refl
      | inr failed ↦ rw failed (put_arp-absent key h (ok.arp_absent key h failed))
    ]

    clear_id-eq : (i : ℕ) (h : Host) → clear_id aya i h ≡ put_id i none h
    unfolding clear_id
    clear_id-eq i h = elim (Bool-cases (aya.id_remove i h)) [
      | inl fine ↦ rw fine refl
      | inr failed ↦ rw failed (put_id-absent i h (ok.id_absent i h failed))
    ]

    clear_l2-eq : (i : ℕ) (h : Host) → clear_l2 aya i h ≡ put_l2 i none h
    unfolding clear_l2
    clear_l2-eq i h = elim (Bool-cases (aya.l2_remove i h)) [
      | inl fine ↦ rw fine refl
      | inr failed ↦ rw failed (put_l2-absent i h (ok.l2_absent i h failed))
    ]

    pub clear_iface_maps-eq :
        (i : ℕ) (h : Host) → clear_iface_maps aya i h ≡ put_l2 i none (put_id i none h)
    clear_iface_maps-eq i h =
        unfold clear_iface_maps in
        clear_l2-eq i (clear_id aya i h) ∙ ap (put_l2 i none) (clear_id-eq i h)

    pub clear_egress-eq :
        (link i : ℕ) (h : Host)
        → clear_egress aya (some link) i h ≡ put_l2 i none (put_id i none (detach_tc aya link h))
    clear_egress-eq link i h = unfold clear_egress in clear_iface_maps-eq i (detach_tc aya link h)

    pub detach-SameHost :
        (link : ℕ) (h x : Host)
        → contains h.xdp_links link ≡ false
        → SameHost (linked link h) x
        → SameHost h (detach_xdp aya link x)
    unfolding detach_xdp
    detach-SameHost link h x new same = rw (ok.detach_xdp_ok link x) (record {
      arp = same.arp;
      ids = same.ids;
      l2 = same.l2;
      xdp = rw same.xdp (ground (arith, drop_link_absent link h.xdp_links new));
      tc = same.tc;
    })
