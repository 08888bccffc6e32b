-- ===== src/Engine/Serving.antt =====
-- What an attached interface of dumbarp/src/lib.rs has in the kernel.
use dumbarp.Common.{
  ℕ, ◌≡◌, ◌≢◌, sym, ◌∙◌, ◌⊎◌, inl, inr, true, String, Option, none, some, List, [], ◌∷◌, ◌==◌,
  nat_eq, string_eq, arith, contains, Bool-cases, Dict, lookup, insert, lookup-insert,
}
use dumbarp.Wire.Keys.{arp_key_eq}
use dumbarp.Engine.{Host, Attached, Dumbarp, drop_link}
use dumbarp.Engine.Egress.{SameHost}
use dumbarp.Engine.Served.{Egress}

-- What an attached interface has in the kernel; and each has its own link.
pub record IsServing (e : Dumbarp) : Type 0 where
  pub arp :
      (iface : String) (a : Attached)
      → lookup iface e.attached ≡ some a
      → e.host.maps.arp_table a.key ≢ none
  pub xdp :
      (iface : String) (a : Attached)
      → lookup iface e.attached ≡ some a
      → contains e.host.xdp_links a.link_id ≡ true
  pub ids :
      (iface : String) (a : Attached)
      → lookup iface e.attached ≡ some a
      → a.tc_link_id ≢ none
      → e.host.maps.dscp_id a.ifindex ≢ none
  pub apart :
      (i j : String) (a b : Attached)
      → lookup i e.attached ≡ some a
      → lookup j e.attached ≡ some b
      → a.link_id ≡ b.link_id
      → i ≡ j

pub IsServing-SameHost :
    (e e' : Dumbarp)
    → e'.attached ≡ e.attached
    → SameHost e.host e'.host
    → IsServing e
    → IsServing e'
IsServing-SameHost e e' attached same s = record {
  arp = λ i a is off. s.arp i a (rw attached at is) (sym (same.arp a.key) ∙ off);
  xdp = λ i a is. rw same.xdp (s.xdp i a (rw attached at is));
  ids = λ i a is has off. s.ids i a (rw attached at is) has (sym (same.ids a.ifindex) ∙ off);
  apart = λ i j a b is_a is_b. s.apart i j a b (rw attached at is_a) (rw attached at is_b);
}

-- An interface of the new map is the new one, or one of the old map.
pub insert-cases :
    (iface k : String) (entry b : Attached) (m : Dict String Attached)
    → lookup k (insert iface entry m) ≡ some b
    → ((iface ≡ k) × (entry ≡ b)) ⊎ (lookup k m ≡ some b)
insert-cases iface k entry b m is = elim (Bool-cases (iface == k)) [
  | inl same ↦ inl (
    (string_eq.equal_iff iface k).0 same,
    ground (arith, same, is, lookup-insert iface k entry m),
  )
  | inr other ↦ inr (ground (arith, other, is, lookup-insert iface k entry m))
]

-- The other links stay.
pub contains-drop_link-other :
    (l j : ℕ) (xs : List ℕ) → l ≢ j → contains xs j ≡ true → contains (drop_link l xs) j ≡ true
contains-drop_link-other l j [] other h = h
contains-drop_link-other l j (x ∷ xs) other h =
    ground (arith, h, other, contains-drop_link-other l j xs other)

pub Egress-new :
    (i : ℕ) (dscp_id tc : Option ℕ) (h h' : Host)
    → Egress i dscp_id tc h h'
    → tc ≢ none
    → h'.maps.dscp_id i ≢ none
unfolding Egress
Egress-new i none tc h h' (no_tc, links, ids, l2) has off = has no_tc
Egress-new i (some id) tc h h' (link, is_tc, links, new, has_id, has_l2) has off =
    ground (arith, has_id, off)
