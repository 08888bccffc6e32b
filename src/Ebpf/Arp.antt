-- ===== src/Ebpf/Arp.antt =====
-- What the XDP program of dumbarp-ebpf/src/main.rs answers.
use dumbarp.Common.{ℕ, ◌≤◌, ◌<◌, ◌≡◌, refl, ◌↔◌, some, arith, nat_eq}
use dumbarp.Wire.Keys.{ArpKey}
use dumbarp.Ebpf.{
  Packet, Mac, read_quad, read_mac, from_ne_bytes, be16, ne16, NetworkTypes, Maps, LruMap,
}
use dumbarp.Ebpf.Xdp.{XdpContext, xdp_tx, arp_reply, answer, dumbarp_xdp}

-- the key under which the table is asked for the address in the request
abbrev pub asked : XdpContext → ArpKey
asked ctx = record {
  ifindex = ctx.ingress_ifindex;
  ip = from_ne_bytes (read_quad ctx.packet.at 38);
}

-- `q` is the ARP reply to the request `p` in which `mac` claims the address asked for.
pub record IsReply (mac : Mac) (p q : Packet) : Type 0 where
  pub len : q.len ≡ p.len
  pub eth_dst : read_mac q.at 0 ≡ read_mac p.at 6
  pub eth_src : read_mac q.at 6 ≡ mac
  pub oper : be16 q.at 20 ≡ 2
  pub sha : read_mac q.at 22 ≡ mac
  pub spa : read_quad q.at 28 ≡ read_quad p.at 38
  pub tha : read_mac q.at 32 ≡ read_mac p.at 22
  pub tpa : read_quad q.at 38 ≡ read_quad p.at 28
  pub kept_type : (i : ℕ) → 12 ≤ i → i < 20 → q.at i ≡ p.at i
  pub kept_rest : (i : ℕ) → 42 ≤ i → q.at i ≡ p.at i

pub arp_reply-IsReply : (mac : Mac) (p : Packet) → IsReply mac p (arp_reply mac p)
unfolding arp_reply
arp_reply-IsReply mac p = record {
  len = refl;
  eth_dst = refl;
  eth_src = refl;
  oper = refl;
  sha = refl;
  spa = refl;
  tha = refl;
  tpa = refl;
  kept_type = λ i lo hi. ground arith;
  kept_rest = λ i lo. ground arith;
}

module _ (nt : NetworkTypes) (lru : LruMap) (maps : Maps) (ctx : XdpContext) where
  open ctx use {packet}

  -- A packet is sent back exactly if it has an Ethernet and an ARP header, its type is ARP, the
  -- operation is a request, and the table has the interface with the address asked for.
  pub dumbarp_xdp-eq-tx : ((dumbarp_xdp nt lru maps ctx).0 ≡ xdp_tx) ↔ (
      (42 ≤ packet.len)
      × (ne16 packet.at 12 ≡ nt.arp)
      × (be16 packet.at 20 ≡ 1)
      × ((mac : Mac) × (maps.arp_table (asked ctx) ≡ some mac)))
  unfolding dumbarp_xdp answer
  dumbarp_xdp-eq-tx = (λ e. ground arith, λ h. ground arith)

  -- A packet that is sent back is the reply to the request that came in, from the MAC address that
  -- the table has for the interface and the address asked for, and the maps stay as they were.
  pub dumbarp_xdp-IsReply :
      (dumbarp_xdp nt lru maps ctx).0 ≡ xdp_tx
      → (mac : Mac) × (maps.arp_table (asked ctx) ≡ some mac)
        × IsReply mac packet (dumbarp_xdp nt lru maps ctx).1
        × ((dumbarp_xdp nt lru maps ctx).2 ≡ maps)
  unfolding dumbarp_xdp answer
  dumbarp_xdp-IsReply e =
      let (len, type, oper, (mac, entry)) = dumbarp_xdp-eq-tx.0 e in
      let out : dumbarp_xdp nt lru maps ctx ≡ (xdp_tx, arp_reply mac packet, maps) = ground arith in
      (mac, entry, rw out (arp_reply-IsReply mac packet), rw out)
