-- ===== src/Engine/Served.antt =====
-- What a successful `add_interface` of dumbarp/src/lib.rs has done.
use dumbarp.Common.{
  ℕ, ◌≡◌, ◌≢◌, refl, ◌⊎◌, inl, inr, true, false, String, Option, none, some, ◌∷◌, ◌==◌, nat_eq,
  string_eq, arith, if◌then◌else◌, contains, Option-cases, Bool-cases, insert,
}
use dumbarp.Wire.Keys.{ArpKey, arp_key_eq, arp_key_beq_iff}
use dumbarp.Ebpf.{Mac, Quad, from_ne_bytes}
use dumbarp.Engine.{
  Host, Aya, Attached, Dumbarp, no_egress, no_arp_entry, no_xdp, put_arp, put_id, put_l2,
  attach_egress, attach_rest, attach_at, add_interface,
}
use dumbarp.Engine.Egress.{IsDetachable, linked, attach_egress-some, add_interface-cases}

-- What an attached interface has of the host, and that the rest is as it was.
pub record IsOnly (key : ArpKey) (link : ℕ) (mac : Mac) (h h' : Host) : Type 0 where
  pub arp : (k : ArpKey) → h'.maps.arp_table k ≡ (if key == k then some mac else h.maps.arp_table k)
  pub ids : (j : ℕ) → j ≢ key.ifindex → h'.maps.dscp_id j ≡ h.maps.dscp_id j
  pub l2 : (j : ℕ) → j ≢ key.ifindex → h'.maps.l2_len j ≡ h.maps.l2_len j
  pub xdp : h'.xdp_links ≡ link ∷ h.xdp_links

-- With an id the egress program is attached too, and its maps have the interface.
unfoldable pub Egress : ℕ → Option ℕ → Option ℕ → Host → Host → Type 0
Egress i none tc h h' =
    (tc ≡ none)
    × (h'.tc_links ≡ h.tc_links)
    × ((j : ℕ) → h'.maps.dscp_id j ≡ h.maps.dscp_id j)
    × ((j : ℕ) → h'.maps.l2_len j ≡ h.maps.l2_len j)
Egress i (some id) tc h h' =
    (link : ℕ) × (tc ≡ some link)
    × (h'.tc_links ≡ link ∷ h.tc_links)
    × (contains h.tc_links link ≡ false)
    × (h'.maps.dscp_id i ≡ some id)
    × ((h'.maps.l2_len i ≡ some 14) ⊎ (h'.maps.l2_len i ≡ some 0))

module _ (aya : Aya) (ok : IsDetachable aya) where
  attach_egress-new :
      (iface : String) (i id tc : ℕ) (h : Host)
      → (attach_egress aya iface i id h).0 ≡ some tc
      → contains h.tc_links tc ≡ false
  unfolding attach_egress
  attach_egress-new iface i id tc h e = ground (
    arith,
    ok.tc_new iface tc (put_l2 i (some 14) (put_id i (some id) h)),
    ok.tc_new iface tc (put_l2 i (some 0) (put_id i (some id) h)),
  )

  attach_rest-inserted :
      (iface : String) (key : ArpKey) (mac : Mac) (link : ℕ) (dscp_id : Option ℕ) (h : Host)
      → aya.arp_insert key mac (linked link h) ≡ true
      → (attach_rest aya iface key mac link dscp_id (linked link h)).0.0 ≡ none
      → IsOnly key link mac h (attach_rest aya iface key mac link dscp_id (linked link h)).1
        × Egress key.ifindex dscp_id
            (attach_rest aya iface key mac link dscp_id (linked link h)).0.1
            h
            (attach_rest aya iface key mac link dscp_id (linked link h)).1
  unfolding Egress
  attach_rest-inserted iface key mac link none h done e =
      let run : attach_rest aya iface key mac link none (linked link h)
          ≡ ((none, none), put_arp key (some mac) (linked link h)) =
        unfold attach_rest in ground (arith, done) in
      rw run (
        record { arp = λ k. refl; ids = λ j o. refl; l2 = λ j o. refl; xdp = refl },
        (refl, refl, λ j. refl, λ j. refl),
      )
  attach_rest-inserted iface key mac link (some id) h done e =
      let inserted = put_arp key (some mac) (linked link h) in
      let egress = attach_egress aya iface key.ifindex id inserted in
      elim (Option-cases egress.0) [
        | inl failed ↦
            let run : (attach_rest aya iface key mac link (some id) (linked link h)).0.0
                ≡ some no_egress =
              unfold attach_rest in ground (arith, done, failed) in
            absurd (ground (arith, run))
        | inr (tc, attached) ↦
            let (w, xdp, links, has_id, has_l2, arp) =
              attach_egress-some aya iface key key.ifindex id tc inserted attached in
            let run : attach_rest aya iface key mac link (some id) (linked link h)
                ≡ ((none, some tc), egress.1) =
              unfold attach_rest in ground (arith, done, attached) in
            let new = attach_egress-new iface key.ifindex id tc inserted attached in
            rw run (
              record { arp = arp; ids = w.ids; l2 = w.l2; xdp = xdp },
              (tc, refl, links, new, has_id, has_l2),
            )
      ]

  attach_rest-done :
      (iface : String) (key : ArpKey) (mac : Mac) (link : ℕ) (dscp_id : Option ℕ) (h : Host)
      → (attach_rest aya iface key mac link dscp_id (linked link h)).0.0 ≡ none
      → IsOnly key link mac h (attach_rest aya iface key mac link dscp_id (linked link h)).1
        × Egress key.ifindex dscp_id
            (attach_rest aya iface key mac link dscp_id (linked link h)).0.1
            h
            (attach_rest aya iface key mac link dscp_id (linked link h)).1
  attach_rest-done iface key mac link dscp_id h e =
      let inserted = put_arp key (some mac) (linked link h) in
      elim (Bool-cases (aya.arp_insert key mac (linked link h))) [
        | inr full ↦
            let run : (attach_rest aya iface key mac link dscp_id (linked link h)).0.0
                ≡ some no_arp_entry =
              unfold attach_rest in ground (arith, full) in
            absurd (ground (arith, run))
        | inl done ↦ attach_rest-inserted iface key mac link dscp_id h done e
      ]

  -- What a successful call has done.
  pub record Served (iface : String) (key : ArpKey) (mac : Mac) (dscp_id : Option ℕ)
      (e e' : Dumbarp) : Type 0 where
    pub link : ℕ
    pub tc : Option ℕ
    pub new : contains e.host.xdp_links link ≡ false
    pub only : IsOnly key link mac e.host e'.host
    pub egress : Egress key.ifindex dscp_id tc e.host e'.host
    pub attached :
        e'.attached
        ≡ insert iface
            (record { link_id = link; tc_link_id = tc; key = key; ifindex = key.ifindex })
            e.attached

  pub attach_at-Served :
      (iface : String) (key : ArpKey) (mac : Mac) (dscp_id : Option ℕ) (e : Dumbarp)
      → (attach_at aya iface key mac dscp_id e).0 ≡ none
      → Served iface key mac dscp_id e (attach_at aya iface key mac dscp_id e).1
  attach_at-Served iface key mac dscp_id e fine =
      elim (Option-cases (aya.attach_xdp iface e.host)) [
        | inl gone ↦
            let run : (attach_at aya iface key mac dscp_id e).0 ≡ some no_xdp =
              unfold attach_at in ground (arith, gone) in
            absurd (ground (arith, run))
        | inr (link, got) ↦
            let rest = attach_rest aya iface key mac link dscp_id (linked link e.host) in
            elim (Option-cases rest.0.0) [
              | inr (error, bad) ↦
                  let run : (attach_at aya iface key mac dscp_id e).0 ≡ some error =
                    unfold attach_at in ground (arith, got, bad) in
                  absurd (ground (arith, run))
              | inl done ↦
                  let entry : Attached = record {
                    link_id = link;
                    tc_link_id = rest.0.1;
                    key = key;
                    ifindex = key.ifindex;
                  } in
                  let run : attach_at aya iface key mac dscp_id e
                      ≡ (none, record { host = rest.1; attached = insert iface entry e.attached }) =
                    unfold attach_at in ground (arith, got, done) in
                  let (only, egress) = attach_rest-done iface key mac link dscp_id e.host done in
                  rw run (record {
                    link = link;
                    tc = rest.0.1;
                    new = ok.xdp_new iface link e.host got;
                    only = only;
                    egress = egress;
                    attached = refl;
                  })
            ]
      ]

  -- If detaching works, links are new and a `remove` fails only where there is no entry: a call
  -- with an id that succeeds has put a MAC address under the interface's number and the address,
  -- the id under its number, and 14 or 0 as the length of the link header.
  pub add_interface-entries :
      (iface : String) (ip : Quad) (id : ℕ) (e : Dumbarp)
      → (add_interface aya iface ip (some id) e).0 ≡ none
      → (i : ℕ) × (mac : Mac) × (aya.iface_ifindex iface e.host ≡ some i)
        × ((add_interface aya iface ip (some id) e).1.host.maps.arp_table
              (record { ifindex = i; ip = from_ne_bytes ip })
            ≡ some mac)
        × ((add_interface aya iface ip (some id) e).1.host.maps.dscp_id i ≡ some id)
        × (((add_interface aya iface ip (some id) e).1.host.maps.l2_len i ≡ some 14)
            ⊎ ((add_interface aya iface ip (some id) e).1.host.maps.l2_len i ≡ some 0))
  unfolding Egress
  add_interface-entries iface ip id e fine = elim (add_interface-cases aya iface ip (some id) e) [
    | inl (error, run) ↦ absurd (ground (arith, run))
    | inr (i, mac, found, run) ↦
        let key : ArpKey = record { ifindex = i; ip = from_ne_bytes ip } in
        let s = attach_at-Served iface key mac (some id) e (rw run at fine) in
        let (link, is_tc, links, fresh, has_id, has_l2) = s.egress in
        rw run
          (i, mac, found, ground (arith, s.only.arp key, arp_key_beq_iff key key), has_id, has_l2)
  ]
