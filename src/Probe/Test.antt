-- ===== src/Probe/Test.antt =====
-- Runs of dumbarp-daemon/src/neigh.rs, and its theorems at concrete frames.
use dumbarp.Common.{
  ℕ, ◌≡◌, refl, true, false, Option, none, some, List, [], ◌∷◌, ◌==◌, nat_eq, if◌then◌else◌,
}
use dumbarp.Wire.Keys.{arp_key_eq}
use dumbarp.Ebpf.{Packet, Quad, Mac, NetworkTypes, Maps, LruMap, from_ne_bytes}
use dumbarp.Ebpf.Xdp.{dumbarp_xdp}
use dumbarp.Text.{codes, is_whitespace, is_digit, hex_value}
use dumbarp.Text.Mac.{parse_mac, octets, from_hex}
use dumbarp.Probe.{build_arp_request, parse_arp_reply}
use dumbarp.Probe.Attempts.{
  Attempt, found, read_iface_mac, read_iface_index, probe_with_retry, spawn_probe_and_refresh,
  set_permanent_neigh,
}
use dumbarp.Probe.Answered.{request_ctx, Waits, probe_with_retry-dumbarp_xdp}

abbrev nt : NetworkTypes
nt = record { arp = 0x0608; ipv4 = 0x0008; ihl = λ vihl. 20 }

abbrev lru : LruMap
lru = record { insert = λ k v m. (true, λ _. some v); insert_ok = λ k v m e. refl }

abbrev ours : Mac
ours = record { m0 = 2; m1 = 0; m2 = 0; m3 = 0; m4 = 0; m5 = 9 }

abbrev theirs : Mac
theirs = record { m0 = 2; m1 = 0; m2 = 0; m3 = 0; m4 = 0; m5 = 10 }

abbrev us : Quad
us = record { q0 = 110; q1 = 110; q2 = 110; q3 = 110 }

abbrev gateway : Quad
gateway = record { q0 = 110; q1 = 110; q2 = 110; q3 = 1 }

abbrev maps : Maps
maps = record {
  arp_table =
      λ k. if k == record { ifindex = 8; ip = from_ne_bytes gateway } then some theirs else none;
  dscp_id = λ i. none;
  orig_dscp = λ k. none;
  l2_len = λ i. none;
}

abbrev reply : Packet
reply = (dumbarp_xdp nt lru maps (request_ctx 8 ours us gateway)).1

-- the request itself comes back first
abbrev arriving : Packet → List (Option Packet)
arriving request = some request ∷ some reply ∷ []

-- "02:00:00:00:00:09" and a line feed, and "3"
abbrev attempt : Attempt
attempt = record {
  panics = false;
  address = some (
      48 ∷ 50 ∷ 58 ∷ 48 ∷ 48 ∷ 58 ∷ 48 ∷ 48 ∷ 58 ∷ 48 ∷ 48 ∷ 58 ∷ 48 ∷ 48 ∷ 58 ∷ 48 ∷ 57 ∷ 10 ∷ []);
  ifindex = some (51 ∷ 10 ∷ []);
  socket = true;
  timeout_set = true;
  bound = true;
  sent = λ f. true;
  recvfrom = arriving;
}

abbrev world : ℕ → Attempt
world i = attempt

attempt-Waits : Waits 8 ours us gateway 3 attempt (arriving (build_arp_request ours us gateway))
unfolding read_iface_mac read_iface_index is_whitespace is_digit hex_value parse_mac octets from_hex
attempt-Waits = record {
  runs = refl;
  mac_read = refl;
  index_read = refl;
  socket_made = refl;
  timeout_set = refl;
  is_bound = refl;
  is_sent = refl;
  arrives = refl;
}

request_is_no_reply : parse_arp_reply (build_arp_request ours us gateway) gateway us ≡ none
unfolding parse_arp_reply build_arp_request
request_is_no_reply = refl

probe_with_retry-dumbarp_xdp_example : probe_with_retry world us gateway ≡ found theirs
probe_with_retry-dumbarp_xdp_example =
    probe_with_retry-dumbarp_xdp 8 ours us gateway nt lru maps 3 theirs world
      (some (build_arp_request ours us gateway) ∷ []) [] refl refl
      ((build_arp_request ours us gateway, refl, request_is_no_reply), tt) attempt-Waits

-- the entry is set once, and again at each tick
entry_kept :
    spawn_probe_and_refresh (codes "eth0") gateway (found theirs) 1
    ≡ set_permanent_neigh (codes "eth0") gateway theirs
      ∷ set_permanent_neigh (codes "eth0") gateway theirs
      ∷ []
unfolding spawn_probe_and_refresh
entry_kept = refl
