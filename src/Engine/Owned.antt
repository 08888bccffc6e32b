-- ===== src/Engine/Owned.antt =====
-- Which attached interface of dumbarp/src/lib.rs an entry or a link of the kernel belongs to.
use dumbarp.Common.{
  ℕ, ◌≡◌, ◌≢◌, sym, ◌∙◌, inl, inr, true, String, Option, none, some, ◌==◌, nat_eq, string_eq, arith,
  contains, Bool-cases, Option-cases, ap, Dict, lookup, insert, remove, lookup-insert,
  lookup-remove,
}
use dumbarp.Wire.Keys.{ArpKey, arp_key_eq}
use dumbarp.Ebpf.{Mac}
use dumbarp.Engine.{Attached, Dumbarp}
use dumbarp.Engine.Egress.{SameHost, IsUnused}

-- An attached interface has the property.
abbrev pub Owned : (Attached → Type 0) → Dict String Attached → Type 0
Owned P m = (iface : String) × (a : Attached) × (lookup iface m ≡ some a) × P a

pub Owned-insert :
    (P : Attached → Type 0) (iface : String) (entry : Attached) (m : Dict String Attached)
    → lookup iface m ≡ none
    → Owned P m
    → Owned P (insert iface entry m)
Owned-insert P iface entry m free (k, a, found, has) = (
  k,
  a,
  ground (arith, free, found, lookup-insert iface k entry m, string_eq.equal_iff iface k),
  has,
)

pub Owned-new :
    (P : Attached → Type 0) (iface : String) (entry : Attached) (m : Dict String Attached)
    → P entry
    → Owned P (insert iface entry m)
Owned-new P iface entry m has = (
  iface,
  entry,
  ground (arith, lookup-insert iface iface entry m, string_eq.equal_iff iface iface),
  has,
)

pub Owned-remove :
    (P : Attached → Type 0) (iface : String) (entry : Attached) (m : Dict String Attached)
    → lookup iface m ≡ some entry
    → ¬ P entry
    → Owned P m
    → Owned P (remove iface m)
Owned-remove P iface entry m there lacks (k, a, found, has) = elim (Bool-cases (iface == k)) [
  | inl same ↦
      let is_key : iface ≡ k = (string_eq.equal_iff iface k).0 same in
      let is_entry : a ≡ entry = ground (arith, found, there, is_key) in
      absurd (lacks (rw is_entry at has))
  | inr other ↦ (k, a, ground (arith, found, other, lookup-remove iface k m), has)
]

-- The interface has the number and an egress program.
abbrev pub Egresses : ℕ → Attached → Type 0
Egresses i a = (a.ifindex ≡ i) × (a.tc_link_id ≢ none)

-- Each entry and each link belongs to an attached interface, and an interface is known by its number.
pub record IsTracked (number : String → Option ℕ) (e : Dumbarp) : Type 0 where
  pub arp :
      (k : ArpKey) (mac : Mac)
      → e.host.maps.arp_table k ≡ some mac
      → Owned (λ a. a.key ≡ k) e.attached
  pub ids : (i v : ℕ) → e.host.maps.dscp_id i ≡ some v → Owned (Egresses i) e.attached
  pub l2 : (i v : ℕ) → e.host.maps.l2_len i ≡ some v → Owned (Egresses i) e.attached
  pub xdp : (l : ℕ) → contains e.host.xdp_links l ≡ true → Owned (λ a. a.link_id ≡ l) e.attached
  pub tc :
      (l : ℕ) → contains e.host.tc_links l ≡ true → Owned (λ a. a.tc_link_id ≡ some l) e.attached
  pub numbered :
      (iface : String) (a : Attached)
      → lookup iface e.attached ≡ some a
      → (a.key.ifindex ≡ a.ifindex) × (number iface ≡ some a.ifindex)

pub IsTracked-SameHost :
    (number : String → Option ℕ) (e e' : Dumbarp)
    → e'.attached ≡ e.attached
    → SameHost e.host e'.host
    → IsTracked number e
    → IsTracked number e'
IsTracked-SameHost number e e' attached same t = record {
  arp = λ k mac h. rw attached (t.arp k mac (sym (same.arp k) ∙ h));
  ids = λ i v h. rw attached (t.ids i v (sym (same.ids i) ∙ h));
  l2 = λ i v h. rw attached (t.l2 i v (sym (same.l2 i) ∙ h));
  xdp = λ l h. rw attached (t.xdp l (rw same.xdp at h));
  tc = λ l h. rw attached (t.tc l (rw same.tc at h));
  numbered = λ iface a h. t.numbered iface a (rw attached at h);
}

-- An interface that is not attached has no entries, where interfaces have different numbers.
pub IsTracked-IsUnused :
    (number : String → Option ℕ) (e : Dumbarp) (iface : String) (key : ArpKey)
    → ((other : String) → number other ≡ some key.ifindex → other ≡ iface)
    → lookup iface e.attached ≡ none
    → IsTracked number e
    → IsUnused key key.ifindex e.host
IsTracked-IsUnused number e iface key only free t =
    let unowned : ¬ Owned (λ a. a.ifindex ≡ key.ifindex) e.attached = λ (k, a, found, is_number).
      let is_iface : k ≡ iface = only k ((t.numbered k a found).1 ∙ ap some is_number) in
      absurd (ground (arith, found, free, is_iface)) in
    record {
      arp = elim (Option-cases (e.host.maps.arp_table key)) [
        | inl unset ↦ unset
        | inr (mac, set) ↦
            let (k, a, found, is_key) = t.arp key mac set in
            absurd (unowned (k, a, found, sym (t.numbered k a found).0 ∙ ap ArpKey.ifindex is_key))
      ];
      ids = elim (Option-cases (e.host.maps.dscp_id key.ifindex)) [
        | inl unset ↦ unset
        | inr (v, set) ↦
            let (k, a, found, (is_number, has)) = t.ids key.ifindex v set in
            absurd (unowned (k, a, found, is_number))
      ];
      l2 = elim (Option-cases (e.host.maps.l2_len key.ifindex)) [
        | inl unset ↦ unset
        | inr (v, set) ↦
            let (k, a, found, (is_number, has)) = t.l2 key.ifindex v set in
            absurd (unowned (k, a, found, is_number))
      ];
    }
