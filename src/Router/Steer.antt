-- ===== src/Router/Steer.antt =====
-- dumbarp-routerd-ebpf/src/main.rs: the ingress classifier of the router.
use dumbarp.Common.{
  ℕ, ◌+◌, ◌/◌, ◌%◌, ◌^◌, ◌<◌, ◌≡◌, ◌≢◌, ◌⊎◌, not, Option, none, some, ◌==◌, nat_eq, arith,
  if◌then◌else◌,
}
use dumbarp.Wire.{ipv4_tos_offset}

-- The counters of this CPU.
pub record Slots : Type 0 where
  pub tagged : ℕ
  pub untagged : ℕ
  pub skipped : ℕ

-- `net` reads a byte at an offset from the network header, and may fail.
pub record Skb : Type 0 where
  pub protocol : ℕ
  pub mark : ℕ
  pub net : ℕ → Option ℕ

abbrev pub ctr_tagged : ℕ
ctr_tagged = 0

abbrev pub ctr_untagged : ℕ
ctr_untagged = 1

abbrev pub ctr_skipped : ℕ
ctr_skipped = 2

-- adds one in 64 bits; there is no other slot
unfoldable pub bump : ℕ → Slots → Slots
bump slot c =
    if slot == ctr_tagged
    then record c { tagged = (c.tagged + 1) % 2 ^ 64 }
    else if slot == ctr_untagged
    then record c { untagged = (c.untagged + 1) % 2 ^ 64 }
    else if slot == ctr_skipped
    then record c { skipped = (c.skipped + 1) % 2 ^ 64 }
    else c

-- The DSCP against the map `ids`: a packet without DSCP is not looked up.
unfoldable pub tagged_mark : (ℕ → Option ℕ) → ℕ → Option ℕ
tagged_mark ids dscp = if not (dscp == 0) then ids dscp else none

unfoldable pub mark_or_not : Option ℕ → Skb → Slots → Skb × Slots
unfolding bump
mark_or_not none skb c = (skb, bump ctr_untagged c)
mark_or_not (some mark) skb c = (record skb { mark = mark }, bump ctr_tagged c)

module _ (ipv4 : ℕ) (ids : ℕ → Option ℕ) where
  -- The packet passes in every case.
  unfoldable pub steer : Skb → Slots → Skb × Slots
  unfolding tagged_mark mark_or_not
  steer skb c =
      if not (skb.protocol == ipv4)
      then (skb, bump ctr_skipped c)
      else elim (skb.net ipv4_tos_offset) [
        | none ↦ (skb, bump ctr_skipped c)
        | some tos ↦ mark_or_not (tagged_mark ids (tos / 4)) skb c
      ]

  -- The packet is IPv4, and its DSCP is `d`.
  abbrev pub HasDscp : Skb → ℕ → Type 0
  HasDscp skb d = (skb.protocol ≡ ipv4) × ((tos : ℕ) × (skb.net 1 ≡ some tos) × (tos / 4 ≡ d))

  -- The counters and how many were counted before.
  abbrev pub Counts : Slots → ℕ → ℕ → ℕ → Type 0
  Counts c tagged untagged skipped =
      (c.tagged ≡ tagged) × (c.untagged ≡ untagged) × (c.skipped ≡ skipped)

  -- What can be read of the packet stays. Below 2^64 packets: if the packet is IPv4 with a DSCP other
  -- than 0 that the map has, it gets the mark of the map and the tagged packets go up by one; if it is
  -- IPv4 with another DSCP, it keeps its mark and the untagged go up by one; and if it is not IPv4 or
  -- its TOS byte cannot be read, it keeps its mark and the skipped go up by one. The other two
  -- counters stay.
  pub steer_lem :
      (skb : Skb) (c : Slots)
      → c.tagged + c.untagged + c.skipped + 1 < 2 ^ 64
      → ((steer skb c).0.net ≡ skb.net)
        × ((steer skb c).0.protocol ≡ skb.protocol)
        × ((d mark : ℕ)
            → HasDscp skb d
            → d ≢ 0
            → ids d ≡ some mark
            → ((steer skb c).0.mark ≡ mark)
              × Counts (steer skb c).1 (c.tagged + 1) c.untagged c.skipped)
        × ((d : ℕ)
            → HasDscp skb d
            → (d ≡ 0) ⊎ (ids d ≡ none)
            → ((steer skb c).0.mark ≡ skb.mark)
              × Counts (steer skb c).1 c.tagged (c.untagged + 1) c.skipped)
        × ((skb.protocol ≢ ipv4) ⊎ (skb.net 1 ≡ none)
            → ((steer skb c).0.mark ≡ skb.mark)
              × Counts (steer skb c).1 c.tagged c.untagged (c.skipped + 1))
  unfolding steer
  steer_lem skb c small = (
    ground arith,
    ground arith,
    λ d mark (same, (tos, e, is)) other found.
        (ground arith, (ground arith, ground arith, ground arith)),
    λ d (same, (tos, e, is)) unknown. (ground arith, (ground arith, ground arith, ground arith)),
    λ unread. (ground arith, (ground arith, ground arith, ground arith)),
  )
