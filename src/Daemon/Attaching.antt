-- ===== src/Daemon/Attaching.antt =====
-- The attached interfaces after the calls of dumbarp/src/lib.rs that dumbarp-daemon/src/dhcp.rs makes.
use dumbarp.Common.{
  ℕ, ◌≡◌, ◌≢◌, refl, ◌⊎◌, inl, inr, String, Option, none, some, ◌==◌, nat_eq, string_eq, arith,
  if◌then◌else◌, Option-cases, lookup, insert, lookup-insert, lookup-remove,
}
use dumbarp.Ebpf.{Mac, Quad, from_ne_bytes}
use dumbarp.Wire.Keys.{ArpKey}
use dumbarp.Engine.{
  Aya, Attached, Dumbarp, no_xdp, attach_at, attach_rest, add_interface, remove_interface,
}
use dumbarp.Engine.Egress.{linked, add_interface-cases}
use dumbarp.Engine.Egress.{IsDetachable}
use dumbarp.Engine.Served.{attach_at-Served}

module _ (aya : Aya) (dumbarpd_id : Option ℕ) where
  pub attached-remove_interface :
      (iface : String) (e : Dumbarp) (k : String)
      → lookup k (remove_interface aya iface e).1.attached
        ≡ (if iface == k then none else lookup k e.attached)
  attached-remove_interface iface e k = elim (Option-cases (lookup iface e.attached)) [
    | inl gone ↦ unfold remove_interface in ground (arith, gone, string_eq.equal_iff iface k)
    | inr (a, there) ↦
        unfold remove_interface in ground (arith, there, lookup-remove iface k e.attached)
  ]

  -- A failed call leaves the attached interfaces alone; after one that succeeds the interface is one.
  attached-attach_at :
      (iface : String) (key : ArpKey) (mac : Mac) (e : Dumbarp) (k : String)
      → (((attach_at aya iface key mac dumbarpd_id e).0 ≢ none)
          × ((attach_at aya iface key mac dumbarpd_id e).1.attached ≡ e.attached))
        ⊎ ((a : Attached) × (lookup k (attach_at aya iface key mac dumbarpd_id e).1.attached
              ≡ (if iface == k then some a else lookup k e.attached)))
  attached-attach_at iface key mac e k = elim (Option-cases (aya.attach_xdp iface e.host)) [
    | inl gone ↦
        let run : attach_at aya iface key mac dumbarpd_id e ≡ (some no_xdp, e) =
          unfold attach_at in ground (arith, gone) in
        inl (rw run (λ q. ground arith, refl))
    | inr (link, got) ↦
        let rest = attach_rest aya iface key mac link dumbarpd_id (linked link e.host) in
        elim (Option-cases rest.0.0) [
          | inr (error, bad) ↦
              let run : attach_at aya iface key mac dumbarpd_id e
                  ≡ (some error, record e { host = rest.1 }) =
                unfold attach_at in ground (arith, got, bad) in
              inl (rw run (λ q. ground arith, refl))
          | inl fine ↦
              let entry : Attached = record {
                link_id = link;
                tc_link_id = rest.0.1;
                key = key;
                ifindex = key.ifindex;
              } in
              let run : attach_at aya iface key mac dumbarpd_id e
                  ≡ (none, record { host = rest.1; attached = insert iface entry e.attached }) =
                unfold attach_at in ground (arith, got, fine) in
              inr (entry, rw run (lookup-insert iface k entry e.attached))
        ]
  ]

  -- The same of `add_interface`.
  pub attached-add_interface :
      (iface : String) (ip : Quad) (e : Dumbarp) (k : String)
      → (((add_interface aya iface ip dumbarpd_id e).0 ≢ none)
          × ((add_interface aya iface ip dumbarpd_id e).1.attached ≡ e.attached))
        ⊎ ((a : Attached) × (lookup k (add_interface aya iface ip dumbarpd_id e).1.attached
              ≡ (if iface == k then some a else lookup k e.attached)))
  attached-add_interface iface ip e k = elim (add_interface-cases aya iface ip dumbarpd_id e) [
    | inl (error, run) ↦ inl (rw run (λ q. ground arith, refl))
    | inr (i, mac, found, run) ↦
        rw run (attached-attach_at iface (record { ifindex = i; ip = from_ne_bytes ip }) mac e k)
  ]

  module _ (ok : IsDetachable aya) where
    pub add_interface-key :
        (iface : String) (ip : Quad) (e : Dumbarp)
        → (add_interface aya iface ip dumbarpd_id e).0 ≡ none
        → (a : Attached) × (lookup iface (add_interface aya iface ip dumbarpd_id e).1.attached
            ≡ some a)
          × (a.key.ip ≡ from_ne_bytes ip)
    add_interface-key iface ip e fine = elim (add_interface-cases aya iface ip dumbarpd_id e) [
      | inl (error, run) ↦ absurd (ground (arith, run, fine))
      | inr (i, mac, found, run) ↦
          let key : ArpKey = record { ifindex = i; ip = from_ne_bytes ip } in
          let s = attach_at-Served aya ok iface key mac dumbarpd_id e (rw run at fine) in
          let entry : Attached = record {
            link_id = s.link;
            tc_link_id = s.tc;
            key = key;
            ifindex = key.ifindex;
          } in
          rw run (
            entry,
            rw s.attached (
                ground (
                  arith,
                  lookup-insert iface iface entry e.attached,
                  string_eq.equal_iff iface iface,
                )),
            refl,
          )
    ]
