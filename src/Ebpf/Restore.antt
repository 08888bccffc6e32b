-- ===== src/Ebpf/Restore.antt =====
-- The way back: the egress classifier of dumbarp-ebpf/src/main.rs undoes, on the packets that answer
-- a flow, what the XDP program did to the flow.
use dumbarp.Common.{
  ℕ, ◌+◌, ◌/◌, ◌≤◌, ◌≡◌, ◌≢◌, refl, ◌⊎◌, inl, inr, some, true, false, ◌==◌, arith, nat_eq,
  Option-cases, Bool-cases,
}
use dumbarp.Wire.{tos_with_dscp, word}
use dumbarp.Wire.Keys.{reversed}
use dumbarp.Ebpf.{Packet, read_quad, be16, NetworkTypes, Maps, ipv4_len}
use dumbarp.Ebpf.Xdp.{xdp_flow_key, has_ports}
use dumbarp.Ebpf.Tc.{
  Skb, TcContext, ok, l2_len, tc_flow_key, copied_or_zero, to_be, rewrite_tos, terminate_at,
  try_terminate,
}

-- The two ends that a flow key has agree: the packet `p` came in, and the header `ip` and the
-- bytes after it go out, with the addresses and the ports swapped.
pub record Answers (nt : NetworkTypes) (sk : Skb) (p r : Packet) (ip : ℕ → ℕ) (l2 : ℕ)
    : Type 0 where
  pub src : read_quad ip 12 ≡ read_quad p.at 30
  pub dst : read_quad ip 16 ≡ read_quad p.at 26
  pub proto : ip 9 ≡ p.at 23
  pub ports :
      ((has_ports nt (p.at 23) (p.at 14) ≡ false) × (has_ports nt (ip 9) (ip 0) ≡ false))
      ⊎ ((has_ports nt (p.at 23) (p.at 14) ≡ true)
          × (has_ports nt (ip 9) (ip 0) ≡ true)
          × (38 ≤ p.len)
          × ((bytes : ℕ → ℕ) × (sk.load r (l2 + ipv4_len) 4 ≡ some bytes)
              × (be16 bytes 0 ≡ be16 p.at 36)
              × (be16 bytes 2 ≡ be16 p.at 34)))

-- Then the egress classifier computes the key under which the XDP program recorded the flow.
pub tc_flow_key-reversed :
    (nt : NetworkTypes) (sk : Skb) (p r : Packet) (ip : ℕ → ℕ) (l2 : ℕ)
    → Answers nt sk p r ip l2
    → tc_flow_key nt sk r ip l2 ≡ reversed (xdp_flow_key nt p)
unfolding tc_flow_key xdp_flow_key reversed
tc_flow_key-reversed nt sk p r ip l2 h = elim h.ports [
  | inl q ↦ ground arith
  | inr q ↦ ground arith
]

-- `q` is `p` with `tos` in the header at `l2`, and perhaps another checksum.
pub record HasTos (l2 tos : ℕ) (p q : Packet) : Type 0 where
  pub new_tos : q.at (l2 + 1) ≡ tos
  pub len : q.len ≡ p.len
  pub kept : (i : ℕ) → i ≢ l2 + 1 → i ≢ l2 + 10 → i ≢ l2 + 11 → q.at i ≡ p.at i

module _ (sk : Skb) where
  writes-HasTos :
      (l2 tos from to : ℕ) (p s q : Packet)
      → sk.store (l2 + 1) tos p ≡ some s
      → sk.l3_csum_replace (l2 + 10) from to s ≡ some q
      → HasTos l2 tos p q
  writes-HasTos l2 tos from to p s q stored summed =
      let st = sk.store_lem (l2 + 1) tos p s stored in
      let (len, kept) = sk.l3_csum_replace_lem (l2 + 10) from to s q summed in
      record {
        new_tos = ground (arith, kept (l2 + 1), st);
        len = ground (arith, st);
        kept = λ i a b c. ground (arith, kept i, st);
      }

  -- The result of the two writes, if both succeed.
  rewrite_tos-HasTos :
      (l2 : ℕ) (ip : ℕ → ℕ) (tos : ℕ) (p q : Packet)
      → rewrite_tos sk l2 ip tos p ≡ (ok, q)
      → HasTos l2 tos p q
  unfolding rewrite_tos
  rewrite_tos-HasTos l2 ip tos p q e =
      let old = to_be (word (ip 0) (ip 1)) in
      let new = to_be (word (ip 0) tos) in
      elim (Option-cases (sk.store (l2 + 1) tos p)) [
        | inl failed ↦ absurd (ground arith)
        | inr (s, stored) ↦ elim (Option-cases (sk.l3_csum_replace (l2 + 10) old new s)) [
          | inl failed ↦ absurd (ground arith)
          | inr (r, summed) ↦ writes-HasTos l2 tos old new p s q stored (ground arith)
        ]
      ]

-- A packet goes out with the tag of its interface: what the classifier has read when it decides to
-- put another DSCP there.
pub record IsTagged (nt : NetworkTypes) (sk : Skb) (maps : Maps) (ctx : TcContext) (id l2 : ℕ)
    (ip : ℕ → ℕ) : Type 0 where
  pub protocol : ctx.protocol ≡ nt.ipv4
  pub has_id : maps.dscp_id ctx.ifindex ≡ some id
  pub id_pos : id ≢ 0
  pub link : l2_len (maps.l2_len ctx.ifindex) ≡ some l2
  pub header : sk.load ctx.skb l2 ipv4_len ≡ some ip
  pub tag : ip 1 / 4 ≡ id

module _ (nt : NetworkTypes) (sk : Skb) (maps : Maps) where
  -- the DSCP that was recorded for the flow, or 0
  abbrev pub recorded : Packet → (ℕ → ℕ) → ℕ → ℕ
  recorded p ip l2 = copied_or_zero (maps.orig_dscp (tc_flow_key nt sk p ip l2))

  terminate_at-HasTos :
      (id l2 : ℕ) (ip : ℕ → ℕ) (p q : Packet)
      → sk.load p l2 ipv4_len ≡ some ip
      → ip 1 / 4 ≡ id
      → terminate_at nt sk maps id l2 ip p ≡ (ok, q)
      → HasTos l2 (tos_with_dscp (ip 1) (recorded p ip l2)) p q
  unfolding terminate_at
  terminate_at-HasTos id l2 ip p q loaded tag e =
      let tos = tos_with_dscp (ip 1) (recorded p ip l2) in
      let read = sk.load_lem p l2 ipv4_len ip loaded 1 (omega arith) in
      elim (Bool-cases (tos == ip 1)) [
        | inl same ↦
            let here : p ≡ q = ground arith in
            rw (← here) (record { new_tos = ground arith; len = refl; kept = λ i a b c. refl })
        | inr new ↦ rewrite_tos-HasTos sk l2 ip tos p q (ground arith)
      ]

  -- A tagged packet that the classifier handles with no error carries the recorded DSCP.
  pub try_terminate-HasTos :
      (ctx : TcContext) (id l2 : ℕ) (ip : ℕ → ℕ) (q : Packet)
      → IsTagged nt sk maps ctx id l2 ip
      → try_terminate nt sk maps ctx ≡ (ok, q)
      → HasTos l2 (tos_with_dscp (ip 1) (recorded ctx.skb ip l2)) ctx.skb q
  try_terminate-HasTos ctx id l2 ip q h e =
      terminate_at-HasTos id l2 ip ctx.skb q h.header h.tag
        (rw (← e) (unfold try_terminate in ground arith))
