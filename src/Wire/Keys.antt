-- ===== src/Wire/Keys.antt =====
-- The map keys of dumbarp-common/src/lib.rs. The padding of `FlowKey` is a field, so that two keys
-- are one exactly if the kernel's bytewise comparison says so.
use dumbarp.Common.{ℕ, ◌≡◌, refl, ◌↔◌, nat_eq, Bool, true, ◌&&◌, arith, Eq, ◌==◌}

pub record ArpKey : Type 0 where
  pub ifindex : ℕ
  pub ip : ℕ

abbrev pub arp_key_beq : ArpKey → ArpKey → Bool
arp_key_beq a b = a.ifindex == b.ifindex && a.ip == b.ip

pub arp_key_beq_iff : (a b : ArpKey) → (arp_key_beq a b ≡ true) ↔ (a ≡ b)
arp_key_beq_iff a b = ground arith

instance abbrev pub arp_key_eq : Eq ArpKey
arp_key_eq = record { equal = arp_key_beq; equal_iff = arp_key_beq_iff }

-- Three bytes of padding.
pub record Pad : Type 0 where
  pub p0 : ℕ
  pub p1 : ℕ
  pub p2 : ℕ

abbrev pub zero_pad : Pad
zero_pad = record { p0 = 0; p1 = 0; p2 = 0 }

pub record FlowKey : Type 0 where
  pub src : ℕ
  pub dst : ℕ
  pub sport : ℕ
  pub dport : ℕ
  pub proto : ℕ
  pub pad : Pad

unfoldable pub flow_key : ℕ → ℕ → ℕ → ℕ → ℕ → FlowKey
flow_key src dst sport dport proto = record {
  src = src;
  dst = dst;
  sport = sport;
  dport = dport;
  proto = proto;
  pad = zero_pad;
}

unfoldable pub reversed : FlowKey → FlowKey
unfolding flow_key
reversed k = flow_key k.dst k.src k.dport k.sport k.proto

-- The key of the packets that answer a flow is the reverse of the flow's key, and reversing twice
-- gives the key back, padding included.
pub reversed-flow_key :
    (src dst sport dport proto : ℕ)
    → (reversed (flow_key src dst sport dport proto) ≡ flow_key dst src dport sport proto)
      × (reversed (reversed (flow_key src dst sport dport proto))
          ≡ flow_key src dst sport dport proto)
unfolding reversed
reversed-flow_key src dst sport dport proto = (refl, refl)
