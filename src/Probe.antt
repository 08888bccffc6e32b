-- ===== src/Probe.antt =====
-- dumbarp-daemon/src/neigh.rs: the frames of the probe that asks for the gateway's MAC address, and
-- how often it asks.
pub mod Attempts
pub mod Answered
mod Test
use dumbarp.Common.{
  ℕ, ◌+◌, ◌*◌, Bool, true, not, ◌&&◌, ◌||◌, Option, none, some, List, [], ◌∷◌, ◌≡◌, refl, ◌↔◌, Eq,
  ◌==◌, nat_eq, leb, ltb, if◌then◌else◌, arith,
}
use dumbarp.Ebpf.{Packet, Quad, Mac, read_quad, read_mac, be16, write, write_quad, write_mac}

abbrev pub quad_beq : Quad → Quad → Bool
quad_beq a b = a.q0 == b.q0 && a.q1 == b.q1 && a.q2 == b.q2 && a.q3 == b.q3

pub quad_beq_iff : (a b : Quad) → (quad_beq a b ≡ true) ↔ (a ≡ b)
quad_beq_iff a b = ground arith

instance abbrev pub quad_eq : Eq Quad
quad_eq = record { equal = quad_beq; equal_iff = quad_beq_iff }

abbrev pub broadcast : Mac
broadcast = record { m0 = 255; m1 = 255; m2 = 255; m3 = 255; m4 = 255; m5 = 255 }

abbrev pub zeros : Mac
zeros = record { m0 = 0; m1 = 0; m2 = 0; m3 = 0; m4 = 0; m5 = 0 }

-- a field of two bytes
abbrev pub write_pair : ℕ → ℕ → ℕ → Packet → Packet
write_pair i hi lo p = write (i + 1) lo (write i hi p)

-- The Ethernet header has 14 bytes, and the ARP header lies behind it.
unfoldable pub build_arp_request : Mac → Quad → Quad → Packet
build_arp_request src_mac src_ip dst_ip =
    let frame : Packet = record { len = 42; at = λ i. 0 } in
    let eth = write_pair 12 8 6 (write_mac 6 src_mac (write_mac 0 broadcast frame)) in
    let types = write_pair 16 8 0 (write_pair 14 0 1 eth) in
    let oper = write_pair 20 0 1 (write 19 4 (write 18 6 types)) in
    let sender = write_quad 28 src_ip (write_mac 22 src_mac oper) in
    write_quad 38 dst_ip (write_mac 32 zeros sender)

unfoldable pub parse_arp_reply : Packet → Quad → Quad → Option Mac
parse_arp_reply frame expected_sender_ip expected_target_ip =
    if ltb frame.len 42
    then none
    else if not (be16 frame.at 12 == 2054)
    then none
    else if not (be16 frame.at 20 == 2)
    then none
    else if not (read_quad frame.at 28 == expected_sender_ip)
        || not (read_quad frame.at 38 == expected_target_ip)
    then none
    else some (read_mac frame.at 22)
