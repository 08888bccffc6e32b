-- ===== src/Engine/Attach.antt =====
-- `add_interface` of dumbarp/src/lib.rs when it fails.
use dumbarp.Common.{
  ℕ, ◌≡◌, refl, inl, inr, true, false, String, Option, none, some, ◌∷◌, nat_eq, string_eq, arith,
  contains, Option-cases, Bool-cases,
}
use dumbarp.Wire.Keys.{ArpKey, arp_key_eq, arp_key_beq_iff}
use dumbarp.Ebpf.{Mac, Quad, from_ne_bytes}
use dumbarp.Engine.{
  Host, Aya, Dumbarp, EngineError, no_egress, no_arp_entry, no_xdp, put_arp, put_id, put_l2,
  clear_arp_entry, detach_xdp, attach_egress, roll_back, attach_rest, attach_at, add_interface,
}
use dumbarp.Engine.Egress.{
  SameHost, Within, IsUnused, IsDetachable, SameHost_refl, cleared, linked, attach_egress-none,
  add_interface-cases, detach-SameHost, clear_arp_entry-eq, clear_iface_maps-eq,
}

module _ (aya : Aya) (ok : IsDetachable aya) where
  roll_back-eq :
      (link i : ℕ) (key : ArpKey) (h : Host)
      → roll_back aya link key i h
        ≡ detach_xdp aya link (put_l2 i none (put_id i none (put_arp key none h)))
  roll_back-eq link i key h =
      unfold roll_back in
      rw (clear_iface_maps-eq aya ok i (clear_arp_entry aya key h), clear_arp_entry-eq aya ok key h)
        refl

  roll_back-SameHost :
      (link : ℕ) (key : ArpKey) (h x : Host)
      → IsUnused key key.ifindex h
      → contains h.xdp_links link ≡ false
      → Within key key.ifindex h x
      → x.xdp_links ≡ link ∷ h.xdp_links
      → x.tc_links ≡ h.tc_links
      → SameHost h (roll_back aya link key key.ifindex x)
  roll_back-SameHost link key h x unused new w xdp tc = rw (roll_back-eq link key.ifindex key x) (
      detach-SameHost aya ok link h _ new (
        cleared key key.ifindex (linked link h) x
          (record { arp = unused.arp; ids = unused.ids; l2 = unused.l2 })
          (record { arp = w.arp; ids = w.ids; l2 = w.l2 }) xdp tc))

  attach_egress-undone :
      (iface : String) (key : ArpKey) (mac : Mac) (link : ℕ) (dscp_id : Option ℕ) (h : Host)
      (error : EngineError)
      → IsUnused key key.ifindex h
      → contains h.xdp_links link ≡ false
      → aya.arp_insert key mac (linked link h) ≡ true
      → (attach_rest aya iface key mac link dscp_id (linked link h)).0.0 ≡ some error
      → SameHost h (attach_rest aya iface key mac link dscp_id (linked link h)).1
  attach_egress-undone iface key mac link none h error unused new done e =
      let run : attach_rest aya iface key mac link none (linked link h)
          ≡ ((none, none), put_arp key (some mac) (linked link h)) =
        unfold attach_rest in ground (arith, done) in
      absurd (ground (arith, run))
  attach_egress-undone iface key mac link (some id) h error unused new done e =
      let inserted = put_arp key (some mac) (linked link h) in
      let egress = attach_egress aya iface key.ifindex id inserted in
      elim (Option-cases egress.0) [
        | inr (tc, attached) ↦
            let run : attach_rest aya iface key mac link (some id) (linked link h)
                ≡ ((none, some tc), egress.1) =
              unfold attach_rest in ground (arith, done, attached) in
            absurd (ground (arith, run))
        | inl failed ↦
            let (w, xdp, tc) = attach_egress-none aya iface key key.ifindex id inserted failed in
            let run : attach_rest aya iface key mac link (some id) (linked link h)
                ≡ ((some no_egress, none), roll_back aya link key key.ifindex egress.1) =
              unfold attach_rest in ground (arith, done, failed) in
            rw run (
              roll_back-SameHost link key h egress.1 unused new
                (record {
                  arp = λ k o. ground (arith, w.arp k o, arp_key_beq_iff key k);
                  ids = w.ids;
                  l2 = w.l2;
                })
                xdp tc)
      ]

  -- A failure after the XDP program was attached leaves the host as it was before.
  attach_rest-undone :
      (iface : String) (key : ArpKey) (mac : Mac) (link : ℕ) (dscp_id : Option ℕ) (h : Host)
      (error : EngineError)
      → IsUnused key key.ifindex h
      → contains h.xdp_links link ≡ false
      → (attach_rest aya iface key mac link dscp_id (linked link h)).0.0 ≡ some error
      → SameHost h (attach_rest aya iface key mac link dscp_id (linked link h)).1
  attach_rest-undone iface key mac link dscp_id h error unused new e =
      let out = attach_rest aya iface key mac link dscp_id (linked link h) in
      let inserted = put_arp key (some mac) (linked link h) in
      elim (Bool-cases (aya.arp_insert key mac (linked link h))) [
        | inr full ↦
            let run : out ≡ ((some no_arp_entry, none), detach_xdp aya link (linked link h)) =
              unfold attach_rest in ground (arith, full) in
            rw run (
              detach-SameHost aya ok link h (linked link h) new (record {
                arp = λ k. refl;
                ids = λ i. refl;
                l2 = λ i. refl;
                xdp = refl;
                tc = refl;
              }))
        | inl done ↦ attach_egress-undone iface key mac link dscp_id h error unused new done e
      ]

  attach_at-undone :
      (iface : String) (key : ArpKey) (mac : Mac) (dscp_id : Option ℕ) (e : Dumbarp)
      (error : EngineError)
      → IsUnused key key.ifindex e.host
      → (attach_at aya iface key mac dscp_id e).0 ≡ some error
      → ((attach_at aya iface key mac dscp_id e).1.attached ≡ e.attached)
        × SameHost e.host (attach_at aya iface key mac dscp_id e).1.host
  attach_at-undone iface key mac dscp_id e error unused failed =
      elim (Option-cases (aya.attach_xdp iface e.host)) [
        | inl gone ↦
            let run : attach_at aya iface key mac dscp_id e ≡ (some no_xdp, e) =
              unfold attach_at in ground (arith, gone) in
            rw run (refl, SameHost_refl e.host)
        | inr (link, got) ↦
            let rest = attach_rest aya iface key mac link dscp_id (linked link e.host) in
            elim (Option-cases rest.0.0) [
              | inl fine ↦
                  let run : (attach_at aya iface key mac dscp_id e).0 ≡ none =
                    unfold attach_at in ground (arith, got, fine) in
                  absurd (ground (arith, run))
              | inr (error', bad) ↦
                  let run : attach_at aya iface key mac dscp_id e
                      ≡ (some error', record e { host = rest.1 }) =
                    unfold attach_at in ground (arith, got, bad) in
                  rw run (
                    refl,
                    attach_rest-undone iface key mac link dscp_id e.host error' unused
                        (ok.xdp_new iface link e.host got) bad,
                  )
            ]
      ]

  -- If detaching works, links are new, a `remove` fails only where there is no entry, and the
  -- interface has no entries yet: an `add_interface` that fails leaves the attached interfaces,
  -- the attachments and the entries as they were.
  pub add_interface-SameHost :
      (iface : String) (ip : Quad) (dscp_id : Option ℕ) (e : Dumbarp) (error : EngineError)
      → ((i : ℕ)
          → aya.iface_ifindex iface e.host ≡ some i
          → IsUnused (record { ifindex = i; ip = from_ne_bytes ip }) i e.host)
      → (add_interface aya iface ip dscp_id e).0 ≡ some error
      → ((add_interface aya iface ip dscp_id e).1.attached ≡ e.attached)
        × SameHost e.host (add_interface aya iface ip dscp_id e).1.host
  add_interface-SameHost iface ip dscp_id e error unused failed =
      elim (add_interface-cases aya iface ip dscp_id e) [
        | inl (error', run) ↦ rw run (refl, SameHost_refl e.host)
        | inr (i, mac, found, run) ↦
            let key : ArpKey = record { ifindex = i; ip = from_ne_bytes ip } in
            rw run
              (attach_at-undone iface key mac dscp_id e error (unused i found) (rw run at failed))
      ]
