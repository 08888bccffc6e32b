-- ===== src/Ebpf/Xdp.antt =====
-- The XDP program of dumbarp-ebpf/src/main.rs: `dumbarp`, `try_dumbarp`, `try_arp`, `try_stamp` and
-- `xdp_flow_key`. An error is `none`; each `?` comes before the first write, so the packet and the
-- maps of a failed call are those that it was given.
use dumbarp.Common.{
  ℕ, ◌+◌, ◌/◌, ◌%◌, Bool, not, ◌&&◌, ◌||◌, Option, none, some, ◌==◌, leb, if◌then◌else◌, nat_eq,
  ◌≡◌, refl, ◌⊎◌, inl, inr,
}
use dumbarp.Wire.{dscp_id_max, ipproto_tcp, ipproto_udp, csum_replace2, tos_with_dscp, word}
use dumbarp.Wire.Keys.{FlowKey, flow_key, reversed}
use dumbarp.Ebpf.{
  Packet, Mac, read_quad, read_mac, from_ne_bytes, be16, ne16, write, write_quad, write_mac,
  NetworkTypes, Maps, LruMap, eth_len, ipv4_len, ptr_at,
}

pub data Action : Type 0 where
  xdp_pass xdp_tx : Action

pub Action-cases : (a : Action) → (a ≡ xdp_pass) ⊎ (a ≡ xdp_tx)
Action-cases xdp_pass = inl refl
Action-cases xdp_tx = inr refl

pub record XdpContext : Type 0 where
  pub packet : Packet
  pub ingress_ifindex : ℕ

abbrev pub Outcome : Type 0
Outcome = Action × Packet × Maps

abbrev pub arpop_request : ℕ
arpop_request = 1

abbrev pub arpop_reply : ℕ
arpop_reply = 2

-- The ARP header lies at offset 14: `oper` at 20, `sha` at 22, `spa` at 28, `tha` at 32, `tpa` at 38.
unfoldable pub arp_reply : Mac → Packet → Packet
arp_reply our_mac p =
    let tpa = read_quad p.at 38 in
    let old_sha = read_mac p.at 22 in
    let old_spa = read_quad p.at 28 in
    let eth_src = read_mac p.at 6 in
    let oper_set = write 21 (arpop_reply % 256) (write 20 (arpop_reply / 256) p) in
    let target_set = write_quad 38 old_spa (write_mac 32 old_sha oper_set) in
    let sender_set = write_quad 28 tpa (write_mac 22 our_mac target_set) in
    write_mac 6 our_mac (write_mac 0 eth_src sender_set)

unfoldable pub answer : Option Mac → Packet → Maps → Outcome
answer none p maps = (xdp_pass, p, maps)
answer (some our_mac) p maps = (xdp_tx, arp_reply our_mac p, maps)

unfoldable pub try_arp : Maps → XdpContext → Option Outcome
unfolding ptr_at answer
try_arp maps ctx = elim (ptr_at ctx.packet eth_len 28) [
  | none ↦ none
  | some arp ↦
      if be16 ctx.packet.at 20 == arpop_request
      then some (
          answer
            (maps.arp_table (record {
              ifindex = ctx.ingress_ifindex;
              ip = from_ne_bytes (read_quad ctx.packet.at 38);
            }))
            ctx.packet maps)
      else some (xdp_pass, ctx.packet, maps)
]

-- the match on the map entry, with its guard
unfoldable pub usable_id : Option ℕ → Option ℕ
usable_id none = none
usable_id (some id) = if not (id == 0) && leb id dscp_id_max then some id else none

-- the header fields that `try_stamp` writes
unfoldable pub set_tos : ℕ → Packet → Packet
set_tos new_tos p =
    let old_word = word (p.at 14) (p.at 15) in
    let new_word = word (p.at 14) new_tos in
    let check = csum_replace2 (be16 p.at 24) old_word new_word in
    write 25 (check % 256) (write 24 (check / 256) (write 15 new_tos p))

module _ (nt : NetworkTypes) where
  -- The IPv4 header lies at offset 14: `vihl` at 14, `tos` at 15, `proto` at 23, `check` at 24, the
  -- addresses at 26 and 30, and the ports of TCP and UDP at 34 if it has no options.
  unfoldable pub has_ports : ℕ → ℕ → Bool
  has_ports proto vihl = (proto == ipproto_tcp || proto == ipproto_udp) && nt.ihl vihl == ipv4_len

  unfoldable pub xdp_flow_key : Packet → FlowKey
  unfolding has_ports ptr_at
  xdp_flow_key p =
      let src = from_ne_bytes (read_quad p.at 26) in
      let dst = from_ne_bytes (read_quad p.at 30) in
      let proto = p.at 23 in
      if has_ports proto (p.at 14)
      then elim (ptr_at p (eth_len + ipv4_len) 4) [
        | none ↦ flow_key src dst 0 0 proto
        | some ports ↦ flow_key src dst (be16 p.at 34) (be16 p.at 36) proto
      ]
      else flow_key src dst 0 0 proto

  module _ (lru : LruMap) where
    unfoldable pub stamp : ℕ → Packet → Maps → Outcome
    unfolding xdp_flow_key set_tos
    stamp id p maps =
        let old_tos = p.at 15 in
        let new_tos = tos_with_dscp old_tos id in
        let key = xdp_flow_key p in
        if new_tos == old_tos then (xdp_pass, p, maps) else (
          xdp_pass,
          set_tos new_tos p,
          record maps { orig_dscp = (lru.insert (reversed key) (old_tos / 4) maps.orig_dscp).1 },
        )

    unfoldable pub try_stamp : Maps → XdpContext → Option Outcome
    unfolding usable_id ptr_at stamp
    try_stamp maps ctx =
        let p = ctx.packet in
        elim (usable_id (maps.dscp_id ctx.ingress_ifindex)) [
          | none ↦ some (xdp_pass, p, maps)
          | some id ↦ elim (ptr_at p eth_len ipv4_len) [
            | none ↦ none
            | some ip ↦
                elim (maps.arp_table (record {
                  ifindex = ctx.ingress_ifindex;
                  ip = from_ne_bytes (read_quad p.at 30);
                })) [ none ↦ some (xdp_pass, p, maps) | some _ ↦ some (stamp id p maps) ]
          ]
        ]

    unfoldable pub try_dumbarp : Maps → XdpContext → Option Outcome
    unfolding try_arp try_stamp
    try_dumbarp maps ctx =
        let p = ctx.packet in
        elim (ptr_at p 0 eth_len) [
          | none ↦ none
          | some eth ↦
              if ne16 p.at 12 == nt.arp
              then try_arp maps ctx
              else if ne16 p.at 12 == nt.ipv4
              then try_stamp maps ctx
              else some (xdp_pass, p, maps)
        ]

    unfoldable pub dumbarp_xdp : Maps → XdpContext → Outcome
    unfolding try_dumbarp
    dumbarp_xdp maps ctx = elim (try_dumbarp maps ctx) [
      | some outcome ↦ outcome
      | none ↦ (xdp_pass, ctx.packet, maps)
    ]
