-- ===== src/Ebpf/RoundTrip.antt =====
-- The two programs of dumbarp-ebpf/src/main.rs together: a packet comes in and is stamped, and the
-- answer of its flow goes out.
use dumbarp.Common.{
  ℕ, Bool, ◌+◌, ◌/◌, ◌%◌, ◌<◌, ◌≡◌, ◌≢◌, refl, Option, none, some, true, arith, nat_eq,
}
use dumbarp.Wire.Keys.{FlowKey, reversed}
use dumbarp.Wire.Tos.{tos_with_dscp_lem}
use dumbarp.Ebpf.{Packet, NetworkTypes, Maps, LruMap, ipv4_len}
use dumbarp.Ebpf.Xdp.{XdpContext, stamp, xdp_flow_key, dumbarp_xdp}
use dumbarp.Ebpf.Stamp.{IsInbound, dumbarp_xdp-stamp}
use dumbarp.Ebpf.Tc.{Skb, TcContext, ok, copied_or_zero, try_terminate}
use dumbarp.Ebpf.Restore.{Answers, IsTagged, recorded, tc_flow_key-reversed, try_terminate-HasTos}

module _ (nt : NetworkTypes) (lru : LruMap) (sk : Skb) (maps : Maps) (xdp : XdpContext) where
  -- the recording of the flow, where the packet's DSCP is not yet the id
  abbrev pub recording : (FlowKey → Option ℕ) → Bool × (FlowKey → Option ℕ)
  recording = lru.insert (reversed (xdp_flow_key nt xdp.packet)) (xdp.packet.at 15 / 4)

  stamp_records :
      (id : ℕ)
      → xdp.packet.at 15 < 256
      → xdp.packet.at 15 / 4 ≢ id
      → IsInbound nt maps xdp id
      → (recording maps.orig_dscp).0 ≡ true
      → (dumbarp_xdp nt lru maps xdp).2.orig_dscp (reversed (xdp_flow_key nt xdp.packet))
        ≡ some (xdp.packet.at 15 / 4)
  stamp_records id byte fresh inbound inserted =
      let old = xdp.packet.at 15 in
      let key = reversed (xdp_flow_key nt xdp.packet) in
      rw (dumbarp_xdp-stamp nt lru maps xdp id inbound) (
        unfold stamp in
        ground (
          arith,
          tos_with_dscp_lem old id,
          inbound.id_max,
          lru.insert_ok key (old / 4) maps.orig_dscp inserted,
        ))

  -- A packet comes in for one of our addresses with a DSCP other than the id, and its flow is
  -- recorded. When a packet that answers the flow goes out with the id as its DSCP, and the
  -- classifier has no error, then it carries the DSCP of the packet that came in; its ECN bits, its
  -- length and all but its TOS byte and its checksum stay.
  pub dscp_restored :
      (id l2 : ℕ) (ctx : TcContext) (ip : ℕ → ℕ) (q : Packet)
      → xdp.packet.at 15 < 256
      → xdp.packet.at 15 / 4 ≢ id
      → IsInbound nt maps xdp id
      → (recording maps.orig_dscp).0 ≡ true
      → Answers nt sk xdp.packet ctx.skb ip l2
      → IsTagged nt sk (dumbarp_xdp nt lru maps xdp).2 ctx id l2 ip
      → try_terminate nt sk (dumbarp_xdp nt lru maps xdp).2 ctx ≡ (ok, q)
      → (q.at (l2 + 1) / 4 ≡ xdp.packet.at 15 / 4)
        × (q.at (l2 + 1) % 4 ≡ ctx.skb.at (l2 + 1) % 4)
        × (q.len ≡ ctx.skb.len)
        × ((i : ℕ) → i ≢ l2 + 1 → i ≢ l2 + 10 → i ≢ l2 + 11 → q.at i ≡ ctx.skb.at i)
  dscp_restored id l2 ctx ip q byte fresh inbound inserted answers tagged done =
      let old = xdp.packet.at 15 in
      let out =
        try_terminate-HasTos nt sk (dumbarp_xdp nt lru maps xdp).2 ctx id l2 ip q tagged done in
      let read = sk.load_lem ctx.skb l2 ipv4_len ip tagged.header 1 (omega arith) in
      let found : recorded nt sk (dumbarp_xdp nt lru maps xdp).2 ctx.skb ip l2 ≡ old / 4 =
        rw
          (
            tc_flow_key-reversed nt sk xdp.packet ctx.skb ip l2 answers,
            stamp_records id byte fresh inbound inserted,
          )
          (unfold copied_or_zero in refl) in
      (
        ground (arith, out.new_tos, found, tos_with_dscp_lem (ip 1) (old / 4)),
        ground (arith, out.new_tos, found, tos_with_dscp_lem (ip 1) (old / 4)),
        out.len,
        out.kept,
      )

  -- A packet that comes in with the id as its DSCP already is not recorded: if its flow has no
  -- record, a packet that answers it and is tagged goes out with the DSCP 0.
  pub dscp_cleared :
      (id l2 : ℕ) (ctx : TcContext) (ip : ℕ → ℕ) (q : Packet)
      → xdp.packet.at 15 / 4 ≡ id
      → xdp.packet.at 15 < 256
      → IsInbound nt maps xdp id
      → maps.orig_dscp (reversed (xdp_flow_key nt xdp.packet)) ≡ none
      → Answers nt sk xdp.packet ctx.skb ip l2
      → IsTagged nt sk (dumbarp_xdp nt lru maps xdp).2 ctx id l2 ip
      → try_terminate nt sk (dumbarp_xdp nt lru maps xdp).2 ctx ≡ (ok, q)
      → (q.at (l2 + 1) / 4 ≡ 0) × (q.at (l2 + 1) / 4 ≢ xdp.packet.at 15 / 4)
  dscp_cleared id l2 ctx ip q tag byte inbound absent answers tagged done =
      let old = xdp.packet.at 15 in
      let key = reversed (xdp_flow_key nt xdp.packet) in
      let out =
        try_terminate-HasTos nt sk (dumbarp_xdp nt lru maps xdp).2 ctx id l2 ip q tagged done in
      let unrecorded : (dumbarp_xdp nt lru maps xdp).2.orig_dscp key ≡ none =
        rw (dumbarp_xdp-stamp nt lru maps xdp id inbound)
          (unfold stamp in ground (arith, tos_with_dscp_lem old id)) in
      let cleared : recorded nt sk (dumbarp_xdp nt lru maps xdp).2 ctx.skb ip l2 ≡ 0 =
        rw (tc_flow_key-reversed nt sk xdp.packet ctx.skb ip l2 answers, unrecorded)
          (unfold copied_or_zero in refl) in
      let written : q.at (l2 + 1) / 4 ≡ 0 =
        ground (arith, out.new_tos, cleared, tos_with_dscp_lem (ip 1) 0) in
      (written, omega (arith, written, inbound.id_pos))
