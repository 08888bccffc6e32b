-- ===== src/Ebpf.antt =====
-- dumbarp-ebpf/src/main.rs: the data that the two programs work on. A packet is what lies between
-- `data` and `data_end`: a length, and the byte at each offset. `from_ne_bytes` and the raw
-- `ether_type` are read as on a little-endian machine.
pub mod Xdp
pub mod Tc
pub mod Arp
pub mod Stamp
pub mod Restore
pub mod RoundTrip
mod Test
use dumbarp.Common.{
  ℕ, ◌+◌, ◌*◌, Bool, true, Option, none, some, ◌≡◌, ◌==◌, leb, if◌then◌else◌, nat_eq,
}
use dumbarp.Wire.Keys.{ArpKey, FlowKey}

pub record Packet : Type 0 where
  pub len : ℕ
  pub at : ℕ → ℕ

-- `[u8; 4]` and `[u8; 6]`
pub record Quad : Type 0 where
  pub q0 : ℕ
  pub q1 : ℕ
  pub q2 : ℕ
  pub q3 : ℕ

pub record Mac : Type 0 where
  pub m0 : ℕ
  pub m1 : ℕ
  pub m2 : ℕ
  pub m3 : ℕ
  pub m4 : ℕ
  pub m5 : ℕ

abbrev pub read_quad : (ℕ → ℕ) → ℕ → Quad
read_quad at i = record { q0 = at i; q1 = at (i + 1); q2 = at (i + 2); q3 = at (i + 3) }

abbrev pub read_mac : (ℕ → ℕ) → ℕ → Mac
read_mac at i = record {
  m0 = at i;
  m1 = at (i + 1);
  m2 = at (i + 2);
  m3 = at (i + 3);
  m4 = at (i + 4);
  m5 = at (i + 5);
}

-- `u32::from_ne_bytes`, `u16::from_be_bytes`, and a `u16` field read as it lies in memory
abbrev pub from_ne_bytes : Quad → ℕ
from_ne_bytes q = q.q0 + 256 * q.q1 + 65536 * q.q2 + 16777216 * q.q3

abbrev pub be16 : (ℕ → ℕ) → ℕ → ℕ
be16 at i = at i * 256 + at (i + 1)

abbrev pub ne16 : (ℕ → ℕ) → ℕ → ℕ
ne16 at i = at i + 256 * at (i + 1)

abbrev pub write : ℕ → ℕ → Packet → Packet
write i v p = record p { at = λ j. if j == i then v else p.at j }

abbrev pub write_quad : ℕ → Quad → Packet → Packet
write_quad i q p = write (i + 3) q.q3 (write (i + 2) q.q2 (write (i + 1) q.q1 (write i q.q0 p)))

abbrev pub write_mac : ℕ → Mac → Packet → Packet
write_mac i m p = write (i + 5) m.m5 (
    write (i + 4) m.m4
      (write (i + 3) m.m3 (write (i + 2) m.m2 (write (i + 1) m.m1 (write i m.m0 p)))))

-- The crate `network-types`: two of its constants as the fields of a packet hold them, and
-- `Ipv4Hdr::ihl`, by which the header's first byte gives its length.
pub record NetworkTypes : Type 0 where
  pub arp : ℕ
  pub ipv4 : ℕ
  pub ihl : ℕ → ℕ

-- The four maps, as their lookups see them.
pub record Maps : Type 0 where
  pub arp_table : ArpKey → Option Mac
  pub dscp_id : ℕ → Option ℕ
  pub orig_dscp : FlowKey → Option ℕ
  pub l2_len : ℕ → Option ℕ

-- The kernel's insertion into an LRU map: it may fail, it may drop other keys, and if it succeeds
-- the key has the value.
pub record LruMap : Type 0 where
  pub insert : FlowKey → ℕ → (FlowKey → Option ℕ) → Bool × (FlowKey → Option ℕ)
  pub insert_ok :
      (k : FlowKey) (v : ℕ) (m : FlowKey → Option ℕ)
      → (insert k v m).0 ≡ true
      → (insert k v m).1 k ≡ some v

abbrev pub eth_len : ℕ
eth_len = 14

abbrev pub ipv4_len : ℕ
ipv4_len = 20

-- `ptr_at`: the offset again, if `size` bytes from it on lie in the packet
unfoldable pub ptr_at : Packet → ℕ → ℕ → Option ℕ
ptr_at p offset size = if leb (offset + size) p.len then some offset else none
