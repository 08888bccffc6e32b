-- ===== src/Probe/Answered.antt =====
-- The probe of dumbarp-daemon/src/neigh.rs at an interface that runs the XDP program of
-- dumbarp-ebpf/src/main.rs.
use dumbarp.Common.{
  ℕ, ◌≤◌, ◌≡◌, refl, sym, ◌↔◌, true, false, Option, none, some, List, ◌∷◌, ◌++◌, arith, nat_eq, All,
}
use dumbarp.Wire.Keys.{ArpKey}
use dumbarp.Ebpf.{
  Packet, Quad, Mac, NetworkTypes, Maps, LruMap, read_quad, read_mac, from_ne_bytes, be16,
}
use dumbarp.Ebpf.Xdp.{XdpContext, xdp_tx, dumbarp_xdp}
use dumbarp.Ebpf.Arp.{asked, IsReply, dumbarp_xdp-eq-tx, dumbarp_xdp-IsReply}
use dumbarp.Probe.{build_arp_request, parse_arp_reply, quad_eq, quad_beq_iff}
use dumbarp.Probe.Attempts.{
  Attempt, found, read_iface_mac, read_iface_index, receive, receive-skips, probe_gateway_mac,
  attempted, probe_attempts, probe_with_retry,
}

-- A frame is taken exactly if it is long enough and an ARP reply from the one address to the other.
pub parse_arp_reply-eq-some :
    (frame : Packet) (sender target : Quad) (mac : Mac)
    → (parse_arp_reply frame sender target ≡ some mac) ↔ (
        (42 ≤ frame.len)
        × (be16 frame.at 12 ≡ 2054)
        × (be16 frame.at 20 ≡ 2)
        × (read_quad frame.at 28 ≡ sender)
        × (read_quad frame.at 38 ≡ target)
        × (read_mac frame.at 22 ≡ mac))
unfolding parse_arp_reply
parse_arp_reply-eq-some frame sender target mac = ground (
  arith,
  quad_beq_iff (read_quad frame.at 28) sender,
  quad_beq_iff (read_quad frame.at 38) target,
)

-- `ifindex` is the number, on the gateway, of its interface by which the request comes in.
module _ (ifindex : ℕ) (src_mac : Mac) (src_ip gw_ip : Quad) where
  abbrev pub request_ctx : XdpContext
  request_ctx = record {
    packet = build_arp_request src_mac src_ip gw_ip;
    ingress_ifindex = ifindex;
  }

  abbrev pub gateway_key : ArpKey
  gateway_key = record { ifindex = ifindex; ip = from_ne_bytes gw_ip }

  reply_taken :
      (mac : Mac) (q : Packet)
      → IsReply mac (build_arp_request src_mac src_ip gw_ip) q
      → parse_arp_reply q gw_ip src_ip ≡ some mac
  unfolding build_arp_request
  reply_taken mac q reply = (parse_arp_reply-eq-some q gw_ip src_ip mac).1 (
    omega (arith, reply.len),
    omega (arith, reply.kept_type 12, reply.kept_type 13),
    reply.oper,
    reply.spa,
    reply.tpa,
    reply.sha,
  )

  -- The first attempt comes to the point of waiting, and what it meets then. `own_index` is the number
  -- that the prober's interface has on the prober.
  pub record Waits (own_index : ℕ) (a : Attempt) (arriving : List (Option Packet)) : Type 0 where
    pub runs : a.panics ≡ false
    pub mac_read : read_iface_mac a ≡ some src_mac
    pub index_read : read_iface_index a ≡ some (false, own_index)
    pub socket_made : a.socket ≡ true
    pub timeout_set : a.timeout_set ≡ true
    pub is_bound : a.bound ≡ true
    pub is_sent : a.sent (build_arp_request src_mac src_ip gw_ip) ≡ true
    pub arrives : a.recvfrom (build_arp_request src_mac src_ip gw_ip) ≡ arriving

  Waits-receive :
      (own_index : ℕ) (a : Attempt) (arriving : List (Option Packet))
      → Waits own_index a arriving
      → probe_gateway_mac a src_ip gw_ip ≡ receive src_ip gw_ip arriving
  unfolding probe_gateway_mac
  Waits-receive own_index a arriving w = ground (
    arith, w.mac_read, w.index_read, w.socket_made, w.timeout_set, w.is_bound, w.is_sent, w.arrives,
  )

  -- `nt.arp` is 0x0806 as it lies in memory.
  module _ (nt : NetworkTypes) (lru : LruMap) (maps : Maps) where
    -- Where the table has the gateway's address, the program sends the request back as a reply, and
    -- that reply is taken.
    pub dumbarp_xdp-request :
        (mac : Mac)
        → nt.arp ≡ 1544
        → maps.arp_table gateway_key ≡ some mac
        → ((dumbarp_xdp nt lru maps request_ctx).0 ≡ xdp_tx)
          × (parse_arp_reply (dumbarp_xdp nt lru maps request_ctx).1 gw_ip src_ip ≡ some mac)
    dumbarp_xdp-request mac arp entry =
        let asked_gateway : asked request_ctx ≡ gateway_key = unfold build_arp_request in refl in
        let entry' : maps.arp_table (asked request_ctx) ≡ some mac = rw (asked_gateway, entry) in
        let sent : (dumbarp_xdp nt lru maps request_ctx).0 ≡ xdp_tx =
          (dumbarp_xdp-eq-tx nt lru maps request_ctx).1 (
            unfold build_arp_request in omega arith,
            unfold build_arp_request in sym arp,
            unfold build_arp_request in refl,
            (mac, entry'),
          ) in
        let (mac', entry'', reply, same) = dumbarp_xdp-IsReply nt lru maps request_ctx sent in
        let mine : mac' ≡ mac = ground (arith, entry', entry'') in
        (sent, rw mine at (reply_taken mac' (dumbarp_xdp nt lru maps request_ctx).1 reply))

    -- A probe whose first attempt can send its request, on a link behind which the program has the
    -- gateway's address in its table, finds the MAC address of that entry, if what arrives before the
    -- program's reply are frames that are no reply from the gateway. The table's entry is under the
    -- number of the interface by which the request comes in, which need not be the number of the
    -- prober's own. The constant for ARP of network-types is 0x0806 as it lies in memory.
    pub probe_with_retry-dumbarp_xdp :
        (own_index : ℕ) (mac : Mac) (world : ℕ → Attempt) (others later : List (Option Packet))
        → nt.arp ≡ 1544
        → maps.arp_table gateway_key ≡ some mac
        → All
            (λ (o : Option Packet).
              (f : Packet) × (o ≡ some f) × (parse_arp_reply f gw_ip src_ip ≡ none))
            others
        → Waits own_index
            (world 1)
            (others ++ (some (dumbarp_xdp nt lru maps request_ctx).1 ∷ later))
        → probe_with_retry world src_ip gw_ip ≡ found mac
    probe_with_retry-dumbarp_xdp own_index mac world others later arp entry skip w =
        let (sent, taken) = dumbarp_xdp-request mac arp entry in
        let reply = (dumbarp_xdp nt lru maps request_ctx).1 in
        let long = ((parse_arp_reply-eq-some reply gw_ip src_ip mac).0 taken).0 in
        let arriving = others ++ (some reply ∷ later) in
        let received = receive-skips src_ip gw_ip others reply mac later skip taken long in
        let first : attempted world src_ip gw_ip 1 ≡ found mac =
          unfold attempted in
          ground (arith, w.runs, Waits-receive own_index (world 1) arriving w, received) in
        unfold probe_with_retry probe_attempts in ground (arith, first)
