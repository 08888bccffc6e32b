-- ===== src/Daemon/Answering/Test.antt =====
-- A run of the tasks of dumbarp-daemon/src/dhcp.rs, and their theorems at it.
use dumbarp.Common.{
  ℕ, ◌∷◌, false, refl, List, NoRepeat, ◌⊎◌, ◌≡◌, ◌≢◌, refl, true, String, Option, some, none, [],
  ◌==◌, string_eq, nat_eq, arith, if◌then◌else◌, contains, lookup, insert, remove,
}
use dumbarp.Ebpf.{Quad, from_ne_bytes}
use dumbarp.Engine.{Aya, Dumbarp, add_interface, remove_interface}
use dumbarp.Engine.Egress.{IsDetachable}
use dumbarp.Engine.Owned.{IsTracked}
use dumbarp.Engine.Calls.{IsNumbered}
use dumbarp.Engine.Serving.{IsServing}
use dumbarp.Daemon.{LeaseInfo}
use dumbarp.Daemon.Dhcp.{
  Phase, connecting, waiting, storing, IfaceTask, World, goes_to, spawn_all, reattach, store,
  Reaches, here, then_step, init_done, leased, lease_stored,
}
use dumbarp.Daemon.Loops.{IsOrderly, Reaches-IsOrderly}
use dumbarp.Daemon.Answering.{IsBetween, Reaches-IsAnswered}

-- "eth0" has the number 3; links are new.
abbrev aya : Aya
aya = record {
  iface_mac = λ iface h. some (record { m0 = 2; m1 = 0; m2 = 0; m3 = 0; m4 = 0; m5 = 9 });
  iface_ifindex = λ iface h. if iface == "eth0" then some 3 else none;
  link_type = λ iface h. some 1;
  attach_xdp = λ iface h. if contains h.xdp_links 1 then none else some 1;
  attach_tc = λ iface h. if contains h.tc_links 2 then none else some 2;
  detach_xdp = λ link h. true;
  detach_tc = λ link h. true;
  arp_insert = λ k m h. true;
  id_insert = λ i v h. true;
  l2_insert = λ i v h. true;
  arp_remove = λ k h. true;
  id_remove = λ i h. true;
  l2_remove = λ i h. true;
}

aya-IsDetachable : IsDetachable aya
aya-IsDetachable = record {
  detach_xdp_ok = λ link h. refl;
  detach_tc_ok = λ link h. refl;
  xdp_new = λ iface link h e. ground arith;
  tc_new = λ iface link h e. ground arith;
  arp_absent = λ k h e. absurd (ground (arith, e));
  id_absent = λ i h e. absurd (ground (arith, e));
  l2_absent = λ i h e. absurd (ground (arith, e));
}

abbrev number : String → Option ℕ
number iface = if iface == "eth0" then some 3 else none

aya-IsNumbered : IsNumbered aya number
aya-IsNumbered = record {
  stable = λ iface h. refl;
  distinct = λ a b i is_a is_b.
      ground (arith, is_a, is_b, string_eq.equal_iff a "eth0", string_eq.equal_iff b "eth0");
}

abbrev idle : Dumbarp
idle = record {
  host = record {
    maps = record {
      arp_table = λ k. none;
      dscp_id = λ i. none;
      orig_dscp = λ k. none;
      l2_len = λ i. none;
    };
    xdp_links = [];
    tc_links = [];
  };
  attached = [];
}

idle-IsTracked : IsTracked number idle
idle-IsTracked = record {
  arp = λ k m set. absurd (ground (arith, set));
  ids = λ i v set. absurd (ground (arith, set));
  l2 = λ i v set. absurd (ground (arith, set));
  xdp = λ l has. absurd (ground (arith, has));
  tc = λ l has. absurd (ground (arith, has));
  numbered = λ iface a is. absurd (unfold lookup in ground (arith, is));
}

idle-IsServing : IsServing idle
idle-IsServing = record {
  arp = λ iface a is. absurd (unfold lookup in ground (arith, is));
  xdp = λ iface a is. absurd (unfold lookup in ground (arith, is));
  ids = λ iface a is. absurd (unfold lookup in ground (arith, is));
  apart = λ i j a b is. absurd (unfold lookup in ground (arith, is));
}

abbrev ip : Quad
ip = record { q0 = 110; q1 = 110; q2 = 110; q3 = 110 }

abbrev ifaces : List String
ifaces = "eth1" ∷ "eth0" ∷ []

abbrev lease : LeaseInfo
lease = record { ip = ip; gateway = ip }

-- the task of "eth0" at a phase
abbrev task : Phase → Option ℕ → IfaceTask
task phase handle = record { iface = "eth0"; phase = phase; neigh_handle = handle }

abbrev connected : World
connected = goes_to 1 (task connecting none) waiting (spawn_all idle ifaces)

abbrev attached : World
attached = reattach aya (some 7) 1 (task waiting none) ip ip connected

abbrev with_lease : World
with_lease = store 1 (task (storing lease) none) lease attached

-- a second lease of the same address
abbrev attached_again : World
attached_again = reattach aya (some 7) 1 (task waiting (some 0)) ip ip with_lease

abbrev with_two : World
with_two = store 1 (task (storing lease) (some 0)) lease attached_again

has_lease : lookup "eth0" with_two.app.leases ≡ some lease
unfolding store reattach lookup insert remove spawn_all
has_lease = refl

-- one of the two refreshers is aborted
one_runs :
    with_two.running
    ≡ record { id = 1; iface = "eth0"; src_ip = ip; gw_ip = ip; aborted = false }
      ∷ record { id = 0; iface = "eth0"; src_ip = ip; gw_ip = ip; aborted = true }
      ∷ []
unfolding store reattach lookup insert remove spawn_all
one_runs = refl

with_two_reached : Reaches aya (some 7) (spawn_all idle ifaces) with_two
unfolding store reattach lookup insert remove spawn_all add_interface remove_interface
with_two_reached =
    then_step
      (then_step
        (then_step
          (then_step (then_step here (init_done 1 (task connecting none) (refl, refl)))
            (leased 1 (task waiting none) ip ip (refl, refl)))
          (lease_stored 1 (task (storing lease) none) lease (refl, refl)))
        (leased 1 (task waiting (some 0)) ip ip (refl, refl)))
      (lease_stored 1 (task (storing lease) (some 0)) lease (refl, refl))

once : NoRepeat ifaces
once = (refl, (refl, tt))

Reaches-IsOrderly_example : IsOrderly with_two
Reaches-IsOrderly_example =
    Reaches-IsOrderly aya aya-IsDetachable (some 7) idle ifaces with_two once with_two_reached

Reaches-IsAnswered_example :
    ((k : String) (info : LeaseInfo)
      → lookup k with_two.app.leases ≡ some info
      → (n : ℕ) × (t : IfaceTask) × (with_two.tasks n ≡ some t)
        × (t.iface ≡ k)
        × (IsBetween t.phase
            ⊎ ((i : ℕ) × (number k ≡ some i)
                × (with_two.app.engine.host.maps.arp_table
                      (record { ifindex = i; ip = from_ne_bytes info.ip })
                    ≢ none))))
    × IsTracked number with_two.app.engine
Reaches-IsAnswered_example =
    Reaches-IsAnswered aya aya-IsDetachable (some 7) number idle ifaces with_two aya-IsNumbered
      idle-IsTracked idle-IsServing once with_two_reached
