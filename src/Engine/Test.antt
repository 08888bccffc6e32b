-- ===== src/Engine/Test.antt =====
-- Runs of dumbarp/src/lib.rs, and its theorems at concrete inputs.
use dumbarp.Common.{
  ℕ, ◌≡◌, refl, Bool, true, false, String, Option, none, some, [], ◌∷◌, ◌==◌, nat_eq, string_eq,
  arith, if◌then◌else◌, contains, lookup,
}
use dumbarp.Ebpf.{Mac, Quad, from_ne_bytes}
use dumbarp.Engine.{Aya, Dumbarp, no_egress, add_interface, remove_interface}
use dumbarp.Engine.Egress.{SameHost, IsUnused, IsDetachable}
use dumbarp.Engine.Attach.{add_interface-SameHost}
use dumbarp.Engine.Detach.{remove_interface-add_interface}
use dumbarp.Engine.Owned.{IsTracked}
use dumbarp.Engine.Calls.{IsNumbered, uncalled, adding}
use dumbarp.Engine.Tracked.{Called-IsTracked}
use dumbarp.Engine.Serving.{IsServing}
use dumbarp.Engine.Kept.{Called-IsServing}

abbrev mac : Mac
mac = record { m0 = 2; m1 = 0; m2 = 0; m3 = 0; m4 = 0; m5 = 9 }

-- "eth0" is an Ethernet device of number 3; egress programs attach if the flag says so
abbrev aya : Bool → Aya
aya tc_works = record {
  iface_mac = λ iface h. if iface == "eth0" then some mac else none;
  iface_ifindex = λ iface h. if iface == "eth0" then some 3 else none;
  link_type = λ iface h. some 1;
  attach_xdp = λ iface h. if contains h.xdp_links 1 then none else some 1;
  attach_tc = λ iface h. if contains h.tc_links 2 then none else if tc_works then some 2 else none;
  detach_xdp = λ link h. true;
  detach_tc = λ link h. true;
  arp_insert = λ k m h. true;
  id_insert = λ i v h. true;
  l2_insert = λ i v h. true;
  arp_remove = λ k h. true;
  id_remove = λ i h. true;
  l2_remove = λ i h. true;
}

aya-IsDetachable : (b : Bool) → IsDetachable (aya b)
aya-IsDetachable b = record {
  detach_xdp_ok = λ link h. refl;
  detach_tc_ok = λ link h. refl;
  xdp_new = λ iface link h e. ground arith;
  tc_new = λ iface link h e. ground arith;
  arp_absent = λ k h e. absurd (ground (arith, e));
  id_absent = λ i h e. absurd (ground (arith, e));
  l2_absent = λ i h e. absurd (ground (arith, e));
}

abbrev idle : Dumbarp
idle = record {
  host = record {
    maps = record {
      arp_table = λ k. none;
      dscp_id = λ i. none;
      orig_dscp = λ k. none;
      l2_len = λ i. none;
    };
    xdp_links = [];
    tc_links = [];
  };
  attached = [];
}

abbrev ip : Quad
ip = record { q0 = 110; q1 = 110; q2 = 110; q3 = 110 }

idle-IsUnused :
    (b : Bool) (i : ℕ)
    → (aya b).iface_ifindex "eth0" idle.host ≡ some i
    → IsUnused (record { ifindex = i; ip = from_ne_bytes ip }) i idle.host
idle-IsUnused b i e = record { arp = refl; ids = refl; l2 = refl }

attaches : (add_interface (aya true) "eth0" ip (some 7) idle).1.host.tc_links ≡ 2 ∷ []
unfolding add_interface
attaches = refl

add_interface-SameHost_example :
    ((add_interface (aya false) "eth0" ip (some 7) idle).1.attached ≡ [])
    × SameHost idle.host (add_interface (aya false) "eth0" ip (some 7) idle).1.host
unfolding add_interface
add_interface-SameHost_example =
    add_interface-SameHost (aya false) (aya-IsDetachable false) "eth0" ip (some 7) idle no_egress
      (idle-IsUnused false) refl

remove_interface-add_interface_example :
    ((remove_interface (aya true) "eth0" (add_interface (aya true) "eth0" ip (some 7) idle).1).0
      ≡ none)
    × SameHost idle.host
        (remove_interface
          (aya true)
          "eth0"
          (add_interface (aya true) "eth0" ip (some 7) idle).1).1.host
    × ((k : String)
        → lookup k
            (remove_interface
              (aya true)
              "eth0"
              (add_interface (aya true) "eth0" ip (some 7) idle).1).1.attached
          ≡ lookup k idle.attached)
unfolding add_interface
remove_interface-add_interface_example =
    remove_interface-add_interface (aya true) (aya-IsDetachable true) "eth0" ip (some 7) idle
      (idle-IsUnused true) refl

abbrev number : String → Option ℕ
number iface = if iface == "eth0" then some 3 else none

aya-IsNumbered : IsNumbered (aya true) number
aya-IsNumbered = record {
  stable = λ iface h. refl;
  distinct = λ a b i is_a is_b.
      ground (arith, is_a, is_b, string_eq.equal_iff a "eth0", string_eq.equal_iff b "eth0");
}

idle-IsTracked : IsTracked number idle
idle-IsTracked = record {
  arp = λ k m set. absurd (ground (arith, set));
  ids = λ i v set. absurd (ground (arith, set));
  l2 = λ i v set. absurd (ground (arith, set));
  xdp = λ l has. absurd (ground (arith, has));
  tc = λ l has. absurd (ground (arith, has));
  numbered = λ iface a is. absurd (unfold lookup in ground (arith, is));
}

-- attached twice, of which the second fails
abbrev again : Dumbarp
again =
    (add_interface (aya true) "eth0" ip none (add_interface (aya true) "eth0" ip (some 7) idle).1).1

Called-IsTracked_example : IsTracked number again
Called-IsTracked_example =
    Called-IsTracked (aya true) (aya-IsDetachable true) number aya-IsNumbered idle again
      idle-IsTracked (adding (adding uncalled "eth0" ip (some 7)) "eth0" ip none)

idle-IsServing : IsServing idle
idle-IsServing = record {
  arp = λ iface a is. absurd (unfold lookup in ground (arith, is));
  xdp = λ iface a is. absurd (unfold lookup in ground (arith, is));
  ids = λ iface a is. absurd (unfold lookup in ground (arith, is));
  apart = λ i j a b is. absurd (unfold lookup in ground (arith, is));
}

Called-IsServing_example : IsServing again
Called-IsServing_example =
    Called-IsServing (aya true) (aya-IsDetachable true) number aya-IsNumbered idle again
      idle-IsTracked idle-IsServing (adding (adding uncalled "eth0" ip (some 7)) "eth0" ip none)
