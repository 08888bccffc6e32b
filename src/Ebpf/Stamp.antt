-- ===== src/Ebpf/Stamp.antt =====
-- What the XDP program of dumbarp-ebpf/src/main.rs does to IPv4 packets.
use dumbarp.Common.{
  ℕ, zero, suc, ◌+◌, ◌/◌, ◌%◌, ◌≤◌, ◌<◌, ◌≡◌, ◌≢◌, refl, ◌⊎◌, inl, inr, some, List, [], ◌∷◌, ◌==◌,
  arith, nat_eq, if◌then◌else◌, Option-cases, Bool-cases, All, length, leb, not, ◌&&◌, Bool,
}
use dumbarp.Wire.{dscp_id_max, csum_replace2, tos_with_dscp, word}
use dumbarp.Wire.Checksum.{IsByte, full_checksum, csum_replace2-full_checksum}
use dumbarp.Wire.Tos.{tos_with_dscp_lem, tos_with_dscp_fields}
use dumbarp.Ebpf.{Packet, Mac, read_quad, from_ne_bytes, be16, ne16, NetworkTypes, Maps, LruMap}
use dumbarp.Ebpf.Xdp.{XdpContext, Action-cases, xdp_pass, set_tos, stamp, answer, dumbarp_xdp}
use dumbarp.Ebpf.Arp.{dumbarp_xdp-IsReply}

-- The bytes from `i` on, with those of the checksum field set to 0.
abbrev pub summed : (ℕ → ℕ) → ℕ → ℕ → List ℕ
summed at i zero = []
summed at i (suc n) = (if i == 24 then 0 else if i == 25 then 0 else at i) ∷ summed at (i + 1) n

-- The header of `n + 2` bytes at offset 14 has the right checksum.
pub record HasChecksum (n : ℕ) (p : Packet) : Type 0 where
  pub vihl_pos : p.at 14 ≢ 0
  pub vihl_byte : p.at 14 < 256
  pub tos_byte : p.at 15 < 256
  pub check_hi : p.at 24 < 256
  pub check_lo : p.at 25 < 256
  pub rest_bytes : All IsByte (summed p.at 16 n)
  pub check : be16 p.at 24 ≡ full_checksum (p.at 14 ∷ p.at 15 ∷ summed p.at 16 n)

length-summed : (at : ℕ → ℕ) (i n : ℕ) → length (summed at i n) ≡ n
length-summed at i zero = refl
length-summed at i (suc n) = omega (arith, length-summed at (i + 1) n)

full_checksum-lt : (h : List ℕ) → full_checksum h < 65536
unfolding full_checksum
full_checksum-lt h = omega arith

summed-set_tos :
    (tos : ℕ) (p : Packet) (i n : ℕ) → 16 ≤ i → summed (set_tos tos p).at i n ≡ summed p.at i n
unfolding set_tos
summed-set_tos tos p i zero h = refl
summed-set_tos tos p i (suc n) h = ground (arith, summed-set_tos tos p (i + 1) n)

-- The checksum that is written for a new TOS byte.
new_check :
    (n tos : ℕ) (p : Packet)
    → n ≤ 58
    → tos < 256
    → HasChecksum n p
    → csum_replace2 (be16 p.at 24) (word (p.at 14) (p.at 15)) (word (p.at 14) tos)
      ≡ full_checksum (p.at 14 ∷ tos ∷ summed p.at 16 n)
new_check n tos p short ht h = rw h.check (
    csum_replace2-full_checksum (p.at 14) (p.at 15) tos (summed p.at 16 n) h.vihl_byte h.vihl_pos
      h.tos_byte ht h.rest_bytes (omega (arith, length-summed p.at 16 n)))

set_tos-HasChecksum :
    (n tos : ℕ) (p : Packet) → n ≤ 58 → tos < 256 → HasChecksum n p → HasChecksum n (set_tos tos p)
set_tos-HasChecksum n tos p short ht h =
    let rest = summed-set_tos tos p 16 n (omega arith) in
    let check = new_check n tos p short ht h in
    let small = full_checksum-lt (p.at 14 ∷ tos ∷ summed p.at 16 n) in
    unfold set_tos in
    record {
      vihl_pos = h.vihl_pos;
      vihl_byte = h.vihl_byte;
      tos_byte = ht;
      check_hi = omega (arith, check, small);
      check_lo = omega (arith, check, small);
      rest_bytes = rw rest h.rest_bytes;
      check = rw rest (rw check (omega arith));
    }

-- The conditions under which a packet is stamped with `id`.
pub record IsInbound (nt : NetworkTypes) (maps : Maps) (ctx : XdpContext) (id : ℕ) : Type 0 where
  pub len : 34 ≤ ctx.packet.len
  pub not_arp : ne16 ctx.packet.at 12 ≢ nt.arp
  pub type : ne16 ctx.packet.at 12 ≡ nt.ipv4
  pub has_id : maps.dscp_id ctx.ingress_ifindex ≡ some id
  pub id_pos : id ≢ 0
  pub id_max : id ≤ dscp_id_max
  pub is_ours :
      (mac : Mac) × (maps.arp_table (record {
        ifindex = ctx.ingress_ifindex;
        ip = from_ne_bytes (read_quad ctx.packet.at 30);
      })
        ≡ some mac)

stamp-HasChecksum :
    (nt : NetworkTypes) (lru : LruMap) (n id : ℕ) (p : Packet) (maps : Maps)
    → n ≤ 58
    → HasChecksum n p
    → HasChecksum n (stamp nt lru id p maps).1
stamp-HasChecksum nt lru n id p maps short h =
    let tos = tos_with_dscp (p.at 15) id in
    let small : tos < 256 = omega (arith, tos_with_dscp_lem (p.at 15) id) in
    elim (Bool-cases (tos == p.at 15)) [
      | inl same ↦ unfold stamp in rw same h
      | inr new ↦ unfold stamp in rw new (set_tos-HasChecksum n tos p short small h)
    ]

module _ (nt : NetworkTypes) (lru : LruMap) (maps : Maps) (ctx : XdpContext) where
  open ctx use {packet}

  pub dumbarp_xdp-stamp :
      (id : ℕ)
      → IsInbound nt maps ctx id
      → dumbarp_xdp nt lru maps ctx ≡ stamp nt lru id packet maps
  unfolding dumbarp_xdp answer
  dumbarp_xdp-stamp id h = let (mac, entry) = h.is_ours in ground arith

  -- the conditions that are tests on numbers
  abbrev tests_pass : ℕ → Bool
  tests_pass id =
      leb 34 packet.len
      && not (ne16 packet.at 12 == nt.arp)
      && ne16 packet.at 12 == nt.ipv4
      && not (id == 0)
      && leb id dscp_id_max

  -- Whatever the program passes on it leaves alone, or it is inbound traffic, which is stamped.
  pub dumbarp_xdp-cases :
      (dumbarp_xdp nt lru maps ctx).0 ≡ xdp_pass
      → (dumbarp_xdp nt lru maps ctx ≡ (xdp_pass, packet, maps))
        ⊎ ((id : ℕ) × IsInbound nt maps ctx id)
  unfolding dumbarp_xdp answer stamp
  dumbarp_xdp-cases e = elim (Option-cases (maps.dscp_id ctx.ingress_ifindex)) [
    | inl no_id ↦ inl (ground arith)
    | inr (id, has_id) ↦
        elim (Option-cases (
          maps.arp_table (record {
            ifindex = ctx.ingress_ifindex;
            ip = from_ne_bytes (read_quad packet.at 30);
          }))) [
            | inl foreign ↦ inl (ground arith)
            | inr ours ↦ elim (Bool-cases (tests_pass id)) [
              | inl t ↦ inr (
                id,
                record {
                  len = ground arith;
                  not_arp = ground arith;
                  type = ground arith;
                  has_id = has_id;
                  id_pos = ground arith;
                  id_max = ground arith;
                  is_ours = ours;
                },
              )
              | inr f ↦ inl (ground arith)
            ]
          ]
  ]

  -- Inbound traffic is passed on with the interface's id as its DSCP; its ECN bits, its length and
  -- every byte but the TOS byte and the checksum are as they came in.
  pub dumbarp_xdp-stamps :
      (id : ℕ)
      → packet.at 15 < 256
      → IsInbound nt maps ctx id
      → ((dumbarp_xdp nt lru maps ctx).0 ≡ xdp_pass)
        × ((dumbarp_xdp nt lru maps ctx).1.at 15 / 4 ≡ id)
        × ((dumbarp_xdp nt lru maps ctx).1.at 15 % 4 ≡ packet.at 15 % 4)
        × ((dumbarp_xdp nt lru maps ctx).1.len ≡ packet.len)
        × ((i : ℕ) → i ≢ 15 → i ≢ 24 → i ≢ 25 → (dumbarp_xdp nt lru maps ctx).1.at i ≡ packet.at i)
  dumbarp_xdp-stamps id ht h = rw (dumbarp_xdp-stamp id h) (
      unfold stamp in
      (
        ground arith,
        ground (arith, tos_with_dscp_fields (packet.at 15) id ht h.id_max),
        ground (arith, tos_with_dscp_fields (packet.at 15) id ht h.id_max),
        ground arith,
        λ i a b c. ground arith,
      ))

  -- The TOS byte of a packet changes only if the packet is inbound traffic.
  pub dumbarp_xdp-only-IsInbound :
      (dumbarp_xdp nt lru maps ctx).1.at 15 ≢ packet.at 15 → (id : ℕ) × IsInbound nt maps ctx id
  dumbarp_xdp-only-IsInbound changed = elim (Action-cases (dumbarp_xdp nt lru maps ctx).0) [
    | inl pass ↦ elim (dumbarp_xdp-cases pass) [
      | inl same ↦ absurd (changed (rw same))
      | inr inbound ↦ inbound
    ]
    | inr tx ↦
        let (mac, entry, reply, kept) = dumbarp_xdp-IsReply nt lru maps ctx tx in
        absurd (changed (reply.kept_type 15 (omega arith) (omega arith)))
  ]

  -- If the header of a packet that is passed on had the right checksum, it has it afterwards; the
  -- header is of any length up to 60 bytes.
  pub dumbarp_xdp-HasChecksum :
      (n : ℕ)
      → n ≤ 58
      → (dumbarp_xdp nt lru maps ctx).0 ≡ xdp_pass
      → HasChecksum n packet
      → HasChecksum n (dumbarp_xdp nt lru maps ctx).1
  dumbarp_xdp-HasChecksum n short pass h = elim (dumbarp_xdp-cases pass) [
    | inl same ↦ rw same h
    | inr (id, inbound) ↦
        rw (dumbarp_xdp-stamp id inbound) (stamp-HasChecksum nt lru n id packet maps short h)
  ]
