-- ===== src/Ebpf/Test.antt =====
-- Runs of dumbarp-ebpf/src/main.rs, and its theorems at concrete packets.
use dumbarp.Common.{
  ℕ, ◌+◌, ◌*◌, ◌/◌, ◌%◌, ◌≤◌, ◌<◌, ◌≡◌, ◌≢◌, refl, ◌↔◌, inr, Option, none, some, true, ◌==◌, arith,
  nat_eq, List, [], ◌∷◌, length, get_or, leb, if◌then◌else◌,
}
use dumbarp.Wire.{tos_with_dscp, csum_replace2, carry, word}
use dumbarp.Wire.Checksum.{full_checksum}
use dumbarp.Wire.Keys.{ArpKey, arp_key_eq, reversed}
use dumbarp.Ebpf.{Packet, Mac, from_ne_bytes, be16, ne16, write, NetworkTypes, Maps, LruMap}
use dumbarp.Ebpf.Xdp.{XdpContext, has_ports, xdp_pass, xdp_tx, dumbarp_xdp}
use dumbarp.Ebpf.Arp.{asked, IsReply, dumbarp_xdp-eq-tx, dumbarp_xdp-IsReply}
use dumbarp.Ebpf.Stamp.{
  IsInbound, HasChecksum, dumbarp_xdp-stamps, dumbarp_xdp-only-IsInbound, dumbarp_xdp-HasChecksum,
}
use dumbarp.Ebpf.Tc.{Skb, to_be, l2_len, TcContext, ok, try_terminate}
use dumbarp.Ebpf.Restore.{Answers, IsTagged}
use dumbarp.Ebpf.RoundTrip.{dscp_restored, dscp_cleared}

abbrev packet : List ℕ → Packet
packet bytes = record { len = length bytes; at = λ i. get_or bytes i 0 }

abbrev nt : NetworkTypes
nt = record { arp = 0x0608; ipv4 = 0x0008; ihl = λ vihl. vihl % 16 * 4 }

-- a map that has room
abbrev lru : LruMap
lru = record { insert = λ k v m. (true, λ _. some v); insert_ok = λ k v m e. refl }

abbrev mac : Mac
mac = record { m0 = 2; m1 = 0; m2 = 0; m3 = 0; m4 = 0; m5 = 9 }

abbrev ours : ArpKey
ours = record {
  ifindex = 3;
  ip = from_ne_bytes (record { q0 = 110; q1 = 110; q2 = 110; q3 = 110 });
}

abbrev maps : Maps
maps = record {
  arp_table = λ k. if k == ours then some mac else none;
  dscp_id = λ i. if i == 3 then some 7 else none;
  orig_dscp = λ _. none;
  l2_len = λ i. if i == 3 then some 14 else none;
}

-- who has 110.110.110.110, asked by 110.110.110.1
abbrev request : List ℕ
request =
    255 ∷ 255 ∷ 255 ∷ 255 ∷ 255 ∷ 255 ∷ 4 ∷ 0 ∷ 0 ∷ 0 ∷ 0 ∷ 1 ∷ 8 ∷ 6 ∷ 0 ∷ 1 ∷ 8 ∷ 0 ∷ 6 ∷ 4 ∷ 0
    ∷ 1 ∷ 4 ∷ 0 ∷ 0 ∷ 0 ∷ 0 ∷ 1 ∷ 110 ∷ 110 ∷ 110 ∷ 1 ∷ 0 ∷ 0 ∷ 0 ∷ 0 ∷ 0 ∷ 0 ∷ 110 ∷ 110 ∷ 110
    ∷ 110 ∷ []

abbrev arp_ctx : XdpContext
arp_ctx = record { packet = packet request; ingress_ifindex = 3 }

request_is_answered : (dumbarp_xdp nt lru maps arp_ctx).0 ≡ xdp_tx
unfolding dumbarp_xdp
request_is_answered = refl

dumbarp_xdp-eq-tx_example : ((dumbarp_xdp nt lru maps arp_ctx).0 ≡ xdp_tx) ↔ (
    (42 ≤ length request)
    × (ne16 (packet request).at 12 ≡ nt.arp)
    × (be16 (packet request).at 20 ≡ 1)
    × ((m : Mac) × (maps.arp_table (asked arp_ctx) ≡ some m)))
dumbarp_xdp-eq-tx_example = dumbarp_xdp-eq-tx nt lru maps arp_ctx

dumbarp_xdp-IsReply_example :
    (m : Mac) × (maps.arp_table (asked arp_ctx) ≡ some m)
    × IsReply m (packet request) (dumbarp_xdp nt lru maps arp_ctx).1
    × ((dumbarp_xdp nt lru maps arp_ctx).2 ≡ maps)
dumbarp_xdp-IsReply_example = dumbarp_xdp-IsReply nt lru maps arp_ctx request_is_answered

-- a TCP segment for 110.110.110.110 with the DSCP 46, one with the DSCP 7, and an answer
abbrev segment : List ℕ
segment =
    2 ∷ 0 ∷ 0 ∷ 0 ∷ 0 ∷ 9 ∷ 4 ∷ 0 ∷ 0 ∷ 0 ∷ 0 ∷ 1 ∷ 8 ∷ 0 ∷ 69 ∷ 184 ∷ 5 ∷ 220 ∷ 171 ∷ 205 ∷ 64 ∷ 0
    ∷ 64 ∷ 6 ∷ 111 ∷ 178 ∷ 203 ∷ 0 ∷ 113 ∷ 7 ∷ 110 ∷ 110 ∷ 110 ∷ 110 ∷ 4 ∷ 210 ∷ 0 ∷ 80 ∷ []

abbrev segment_tagged : List ℕ
segment_tagged =
    2 ∷ 0 ∷ 0 ∷ 0 ∷ 0 ∷ 9 ∷ 4 ∷ 0 ∷ 0 ∷ 0 ∷ 0 ∷ 1 ∷ 8 ∷ 0 ∷ 69 ∷ 30 ∷ 5 ∷ 220 ∷ 171 ∷ 205 ∷ 64 ∷ 0
    ∷ 64 ∷ 6 ∷ 112 ∷ 76 ∷ 203 ∷ 0 ∷ 113 ∷ 7 ∷ 110 ∷ 110 ∷ 110 ∷ 110 ∷ 4 ∷ 210 ∷ 0 ∷ 80 ∷ []

abbrev answer_segment : List ℕ
answer_segment =
    2 ∷ 0 ∷ 0 ∷ 0 ∷ 0 ∷ 9 ∷ 4 ∷ 0 ∷ 0 ∷ 0 ∷ 0 ∷ 1 ∷ 8 ∷ 0 ∷ 69 ∷ 30 ∷ 5 ∷ 220 ∷ 171 ∷ 205 ∷ 64 ∷ 0
    ∷ 64 ∷ 6 ∷ 112 ∷ 76 ∷ 110 ∷ 110 ∷ 110 ∷ 110 ∷ 203 ∷ 0 ∷ 113 ∷ 7 ∷ 0 ∷ 80 ∷ 4 ∷ 210 ∷ []

abbrev in_ctx : XdpContext
in_ctx = record { packet = packet segment; ingress_ifindex = 3 }

abbrev tagged_ctx : XdpContext
tagged_ctx = record { packet = packet segment_tagged; ingress_ifindex = 3 }

in_ctx-IsInbound : IsInbound nt maps in_ctx 7
in_ctx-IsInbound = record {
  len = omega arith;
  not_arp = omega arith;
  type = refl;
  has_id = refl;
  id_pos = omega arith;
  id_max = omega arith;
  is_ours = (mac, refl);
}

tagged_ctx-IsInbound : IsInbound nt maps tagged_ctx 7
tagged_ctx-IsInbound = record {
  len = omega arith;
  not_arp = omega arith;
  type = refl;
  has_id = refl;
  id_pos = omega arith;
  id_max = omega arith;
  is_ours = (mac, refl);
}

dumbarp_xdp-stamps_example :
    ((dumbarp_xdp nt lru maps in_ctx).0 ≡ xdp_pass)
    × ((dumbarp_xdp nt lru maps in_ctx).1.at 15 / 4 ≡ 7)
    × ((dumbarp_xdp nt lru maps in_ctx).1.at 15 % 4 ≡ in_ctx.packet.at 15 % 4)
    × ((dumbarp_xdp nt lru maps in_ctx).1.len ≡ in_ctx.packet.len)
    × ((i : ℕ)
        → i ≢ 15
        → i ≢ 24
        → i ≢ 25
        → (dumbarp_xdp nt lru maps in_ctx).1.at i ≡ in_ctx.packet.at i)
dumbarp_xdp-stamps_example = dumbarp_xdp-stamps nt lru maps in_ctx 7 (omega arith) in_ctx-IsInbound

stamped_tos : (dumbarp_xdp nt lru maps in_ctx).1.at 15 ≢ in_ctx.packet.at 15
stamped_tos e =
    omega (arith, e, dumbarp_xdp-stamps nt lru maps in_ctx 7 (omega arith) in_ctx-IsInbound)

dumbarp_xdp-only-IsInbound_example : (id : ℕ) × IsInbound nt maps in_ctx id
dumbarp_xdp-only-IsInbound_example = dumbarp_xdp-only-IsInbound nt lru maps in_ctx stamped_tos

segment-HasChecksum : HasChecksum 18 (packet segment)
unfolding full_checksum carry
segment-HasChecksum = record {
  vihl_pos = omega arith;
  vihl_byte = omega arith;
  tos_byte = omega arith;
  check_hi = omega arith;
  check_lo = omega arith;
  rest_bytes = omega arith;
  check = refl;
}

dumbarp_xdp-HasChecksum_example : HasChecksum 18 (dumbarp_xdp nt lru maps in_ctx).1
dumbarp_xdp-HasChecksum_example =
    dumbarp_xdp-HasChecksum nt lru maps in_ctx 18 (omega arith)
      (dumbarp_xdp-stamps nt lru maps in_ctx 7 (omega arith) in_ctx-IsInbound).0 segment-HasChecksum

abbrev loads : Packet → ℕ → ℕ → Option (ℕ → ℕ)
loads p offset size = if leb (offset + size) p.len then some (λ i. p.at (offset + i)) else none

abbrev stores : ℕ → ℕ → Packet → Option Packet
stores offset v p = if leb (offset + 1) p.len then some (write offset v p) else none

abbrev replaces : ℕ → ℕ → ℕ → Packet → Option Packet
replaces offset from to p =
    let check = csum_replace2 (be16 p.at offset) (to_be from) (to_be to) in
    if leb (offset + 2) p.len
    then some (write (offset + 1) (check % 256) (write offset (check / 256) p))
    else none

loads_lem :
    (p : Packet) (offset size : ℕ) (bytes : ℕ → ℕ)
    → loads p offset size ≡ some bytes
    → (i : ℕ) → i < size
    → bytes i ≡ p.at (offset + i)
loads_lem p offset size bytes e i h = ground arith

stores_lem : (offset v : ℕ) (p p' : Packet) → stores offset v p ≡ some p' → p' ≡ write offset v p
stores_lem offset v p p' e = ground arith

replaces_lem :
    (offset from to : ℕ) (p p' : Packet)
    → replaces offset from to p ≡ some p'
    → (p'.len ≡ p.len) × ((i : ℕ) → i ≢ offset → i ≢ offset + 1 → p'.at i ≡ p.at i)
replaces_lem offset from to p p' e = (ground arith, λ i a b. ground arith)

abbrev sk : Skb
sk = record {
  load = loads;
  store = stores;
  l3_csum_replace = replaces;
  load_lem = loads_lem;
  store_lem = stores_lem;
  l3_csum_replace_lem = replaces_lem;
}

abbrev out_ctx : TcContext
out_ctx = record { skb = packet answer_segment; protocol = 0x0008; ifindex = 3 }

abbrev out_header : ℕ → ℕ
out_header i = (packet answer_segment).at (14 + i)

-- what leaves after each of the two segments
abbrev restored : Packet
restored = (try_terminate nt sk (dumbarp_xdp nt lru maps in_ctx).2 out_ctx).1

abbrev cleared : Packet
cleared = (try_terminate nt sk (dumbarp_xdp nt lru maps tagged_ctx).2 out_ctx).1

restored_runs : restored.at 15 ≡ 186
unfolding try_terminate dumbarp_xdp tos_with_dscp csum_replace2 carry word reversed
restored_runs = refl

segment-Answers : Answers nt sk (packet segment) (packet answer_segment) out_header 14
unfolding has_ports
segment-Answers = record {
  src = refl;
  dst = refl;
  proto = refl;
  ports =
      inr (refl, refl, omega arith, (λ i. (packet answer_segment).at (34 + i), refl, refl, refl));
}

segment_tagged-Answers : Answers nt sk (packet segment_tagged) (packet answer_segment) out_header 14
unfolding has_ports
segment_tagged-Answers = record {
  src = refl;
  dst = refl;
  proto = refl;
  ports =
      inr (refl, refl, omega arith, (λ i. (packet answer_segment).at (34 + i), refl, refl, refl));
}

out_ctx-IsTagged : IsTagged nt sk (dumbarp_xdp nt lru maps in_ctx).2 out_ctx 7 14 out_header
unfolding dumbarp_xdp tos_with_dscp l2_len
out_ctx-IsTagged = record {
  protocol = refl;
  has_id = refl;
  id_pos = omega arith;
  link = refl;
  header = refl;
  tag = refl;
}

out_ctx-IsTagged_again :
    IsTagged nt sk (dumbarp_xdp nt lru maps tagged_ctx).2 out_ctx 7 14 out_header
unfolding dumbarp_xdp tos_with_dscp l2_len
out_ctx-IsTagged_again = record {
  protocol = refl;
  has_id = refl;
  id_pos = omega arith;
  link = refl;
  header = refl;
  tag = refl;
}

restored_ok : try_terminate nt sk (dumbarp_xdp nt lru maps in_ctx).2 out_ctx ≡ (ok, restored)
unfolding try_terminate dumbarp_xdp tos_with_dscp csum_replace2 carry word reversed
restored_ok = refl

cleared_ok : try_terminate nt sk (dumbarp_xdp nt lru maps tagged_ctx).2 out_ctx ≡ (ok, cleared)
unfolding try_terminate dumbarp_xdp tos_with_dscp csum_replace2 carry word reversed
cleared_ok = refl

dscp_restored_example :
    (restored.at 15 / 4 ≡ 184 / 4)
    × (restored.at 15 % 4 ≡ 30 % 4)
    × (restored.len ≡ 38)
    × ((i : ℕ) → i ≢ 15 → i ≢ 24 → i ≢ 25 → restored.at i ≡ (packet answer_segment).at i)
dscp_restored_example =
    dscp_restored nt lru sk maps in_ctx 7 14 out_ctx out_header restored (omega arith) (omega arith)
      in_ctx-IsInbound refl segment-Answers out_ctx-IsTagged restored_ok

dscp_cleared_example : (cleared.at 15 / 4 ≡ 0) × (cleared.at 15 / 4 ≢ 30 / 4)
dscp_cleared_example =
    dscp_cleared nt lru sk maps tagged_ctx 7 14 out_ctx out_header cleared refl (omega arith)
      tagged_ctx-IsInbound refl segment_tagged-Answers out_ctx-IsTagged_again cleared_ok
