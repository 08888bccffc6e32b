-- ===== src/Ebpf/Tc.antt =====
-- The egress classifier of dumbarp-ebpf/src/main.rs: `dumbarp_egress`, `try_terminate`, `l2_len` and
-- `tc_flow_key`. The accesses to the socket buffer are kernel helpers, which may fail.
use dumbarp.Common.{
  ℕ, ◌+◌, ◌*◌, ◌/◌, ◌%◌, ◌<◌, not, Option, none, some, ◌≡◌, ◌≢◌, ◌==◌, if◌then◌else◌, nat_eq,
}
use dumbarp.Wire.{ipv4_tos_offset, ipv4_check_offset, tos_with_dscp, word}
use dumbarp.Wire.Keys.{FlowKey, flow_key}
use dumbarp.Ebpf.{
  Packet, read_quad, from_ne_bytes, be16, write, NetworkTypes, Maps, eth_len, ipv4_len,
}
use dumbarp.Ebpf.Xdp.{has_ports}

-- `ctx.load`, `ctx.store` of one byte, and `ctx.l3_csum_replace` for a 16-bit word. A load gives
-- the bytes at the offset, a store writes its byte and nothing else, and the checksum helper writes
-- the two bytes of the checksum and nothing else.
pub record Skb : Type 0 where
  pub load : Packet → ℕ → ℕ → Option (ℕ → ℕ)
  pub store : ℕ → ℕ → Packet → Option Packet
  pub l3_csum_replace : ℕ → ℕ → ℕ → Packet → Option Packet
  pub load_lem :
      (p : Packet) (offset size : ℕ) (bytes : ℕ → ℕ)
      → load p offset size ≡ some bytes
      → (i : ℕ) → i < size
      → bytes i ≡ p.at (offset + i)
  pub store_lem :
      (offset v : ℕ) (p p' : Packet) → store offset v p ≡ some p' → p' ≡ write offset v p
  pub l3_csum_replace_lem :
      (offset from to : ℕ) (p p' : Packet)
      → l3_csum_replace offset from to p ≡ some p'
      → (p'.len ≡ p.len) × ((i : ℕ) → i ≢ offset → i ≢ offset + 1 → p'.at i ≡ p.at i)

pub record TcContext : Type 0 where
  pub skb : Packet
  pub protocol : ℕ
  pub ifindex : ℕ

-- the packet after the program, beside what the program returned: `err` keeps what was written
-- before the failure
pub data Verdict : Type 0 where
  ok err : Verdict

-- any length but 0 is taken for that of an Ethernet header
unfoldable pub l2_len : Option ℕ → Option ℕ
l2_len none = none
l2_len (some n) = if n == 0 then some 0 else some eth_len

unfoldable pub nonzero_id : Option ℕ → Option ℕ
nonzero_id none = none
nonzero_id (some id) = if not (id == 0) then some id else none

-- `x.to_be()` of a `u16`
abbrev pub to_be : ℕ → ℕ
to_be x = x % 256 * 256 + x / 256

module _ (sk : Skb) where
  -- the two writes: the TOS byte, then the checksum
  unfoldable pub rewrite_tos : ℕ → (ℕ → ℕ) → ℕ → Packet → Verdict × Packet
  rewrite_tos l2 ip new_tos p =
      let old_word = word (ip 0) (ip 1) in
      let new_word = word (ip 0) new_tos in
      elim (sk.store (l2 + ipv4_tos_offset) new_tos p) [
        | none ↦ (err, p)
        | some stored ↦
            elim (sk.l3_csum_replace (l2 + ipv4_check_offset) (to_be old_word) (to_be new_word)
              stored) [ none ↦ (err, stored) | some summed ↦ (ok, summed) ]
      ]

-- `.copied().unwrap_or(0)`
unfoldable pub copied_or_zero : Option ℕ → ℕ
copied_or_zero none = 0
copied_or_zero (some v) = v

module _ (nt : NetworkTypes) (sk : Skb) where
  unfoldable pub tc_flow_key : Packet → (ℕ → ℕ) → ℕ → FlowKey
  unfolding has_ports
  tc_flow_key p ip l2 =
      let src = from_ne_bytes (read_quad ip 12) in
      let dst = from_ne_bytes (read_quad ip 16) in
      let proto = ip 9 in
      if has_ports nt proto (ip 0)
      then elim (sk.load p (l2 + ipv4_len) 4) [
        | none ↦ flow_key src dst 0 0 proto
        | some ports ↦ flow_key src dst (be16 ports 0) (be16 ports 2) proto
      ]
      else flow_key src dst 0 0 proto

  -- from the load of the header on
  unfoldable pub terminate_at : Maps → ℕ → ℕ → (ℕ → ℕ) → Packet → Verdict × Packet
  unfolding tc_flow_key copied_or_zero rewrite_tos
  terminate_at maps our_id l2 ip p =
      let old_tos = ip 1 in
      let restored = copied_or_zero (maps.orig_dscp (tc_flow_key p ip l2)) in
      let new_tos = tos_with_dscp old_tos restored in
      if not (old_tos / 4 == our_id)
      then (ok, p)
      else if new_tos == old_tos
      then (ok, p)
      else rewrite_tos sk l2 ip new_tos p

  unfoldable pub try_terminate : Maps → TcContext → Verdict × Packet
  unfolding nonzero_id l2_len terminate_at
  try_terminate maps ctx =
      if not (ctx.protocol == nt.ipv4)
      then (ok, ctx.skb)
      else elim (nonzero_id (maps.dscp_id ctx.ifindex)) [
        | none ↦ (ok, ctx.skb)
        | some our_id ↦ elim (l2_len (maps.l2_len ctx.ifindex)) [
          | none ↦ (ok, ctx.skb)
          | some l2 ↦ elim (sk.load ctx.skb l2 ipv4_len) [
            | none ↦ (err, ctx.skb)
            | some ip ↦ terminate_at maps our_id l2 ip ctx.skb
          ]
        ]
      ]

  -- the packet goes on, whatever the verdict
  unfoldable pub dumbarp_egress : Maps → TcContext → Packet
  unfolding try_terminate
  dumbarp_egress maps ctx = (try_terminate maps ctx).1
