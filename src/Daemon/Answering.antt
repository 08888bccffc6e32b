-- ===== src/Daemon/Answering.antt =====
-- The entries in the kernel of the interfaces that dumbarp-daemon/src/dhcp.rs has leases for.
mod Test
use dumbarp.Common.{
  ℕ, List, NoRepeat, ◌⊎◌, ◌≡◌, ◌≢◌, refl, sym, ◌∙◌, inl, inr, true, false, String, Option, none,
  some, [], ◌∷◌, ◌==◌, nat_eq, string_eq, arith, ap, if◌then◌else◌, contains, Bool-cases,
  Option-cases, lookup, insert, remove, lookup-insert, lookup-remove,
}
use dumbarp.Ebpf.{Mac, Quad, from_ne_bytes}
use dumbarp.Wire.Keys.{ArpKey}
use dumbarp.Engine.{Aya, Attached, Dumbarp, add_interface, remove_interface}
use dumbarp.Engine.Egress.{IsDetachable, add_interface-cases}
use dumbarp.Engine.Served.{attach_at-Served}
use dumbarp.Engine.Owned.{IsTracked}
use dumbarp.Engine.Calls.{Called, uncalled, adding, removing, IsNumbered}
use dumbarp.Engine.Tracked.{Called-IsTracked}
use dumbarp.Engine.Serving.{IsServing}
use dumbarp.Engine.Kept.{Called-IsServing}
use dumbarp.Daemon.{LeaseInfo}
use dumbarp.Daemon.Dhcp.{
  Phase, connecting, waiting, storing, dropping, erring, ending, closing, releasing, IfaceTask,
  World, spawn_all, store, drop_lease, detach, cancel, reattach, Step, Reaches, init_failed,
  init_done, no_gateway, leased, lease_stored, lease_dropped, client_error, error_dropped,
  client_ended, cancelled, closed, released, refresher_ended, here, then_step,
}
use dumbarp.Daemon.Turn.{Settled, Holds}
use dumbarp.Daemon.Loops.{Reaches-IsOrderly}

ArpKey-eq :
    (key : ArpKey) (i address : ℕ)
    → key.ifindex ≡ i
    → key.ip ≡ address
    → key ≡ record { ifindex = i; ip = address }
ArpKey-eq key i address p q = rw (sym p) (rw (sym q) refl)

-- The task has changed the engine, and the leases not yet.
abbrev pub IsBetween : Phase → Type 0
IsBetween connecting = ⊥
IsBetween waiting = ⊥
IsBetween ending = ⊥
IsBetween closing = ⊥
IsBetween (storing info) = Unit
IsBetween dropping = Unit
IsBetween erring = Unit
IsBetween releasing = Unit

Settled-Holds :
    (phase : Phase) (lease : Option LeaseInfo) (attached : Option Attached) (info : LeaseInfo)
    → Settled phase lease attached
    → lease ≡ some info
    → IsBetween phase ⊎ Holds info attached
Settled-Holds connecting lease attached info s e = absurd (ground (arith, s, e))
Settled-Holds waiting lease attached info s e = inr (s info e)
Settled-Holds ending lease attached info s e = inr (s info e)
Settled-Holds closing lease attached info s e = inr (s info e)
Settled-Holds (storing i) lease attached info s e = inl tt
Settled-Holds dropping lease attached info s e = inl tt
Settled-Holds erring lease attached info s e = inl tt
Settled-Holds releasing lease attached info s e = inl tt

module _ (aya : Aya) (ok : IsDetachable aya) (dumbarpd_id : Option ℕ) where
  Step-Called :
      (e : Dumbarp) (w v : World)
      → Step aya dumbarpd_id w v
      → Called aya e w.app.engine
      → Called aya e v.app.engine
  unfolding reattach store drop_lease detach cancel
  Step-Called e w v (init_failed n t is) calls = calls
  Step-Called e w v (init_done n t is) calls = calls
  Step-Called e w v (no_gateway n t is) calls = calls
  Step-Called e w v (leased n t ip gateway is) calls =
      adding (removing calls t.iface) t.iface ip dumbarpd_id
  Step-Called e w v (lease_stored n t info is) calls = calls
  Step-Called e w v (lease_dropped n t is) calls = calls
  Step-Called e w v (client_error n t is) calls = removing calls t.iface
  Step-Called e w v (error_dropped n t is) calls = calls
  Step-Called e w v (client_ended n t is) calls = calls
  Step-Called e w v (cancelled n t is) calls = calls
  Step-Called e w v (closed n t is) calls = removing calls t.iface
  Step-Called e w v (released n t is) calls = calls
  Step-Called e w v (refresher_ended h) calls = calls

  Reaches-Called :
      (engine : Dumbarp) (ifaces : List String) (v : World)
      → Reaches aya dumbarpd_id (spawn_all engine ifaces) v
      → Called aya engine v.app.engine
  Reaches-Called engine ifaces v here = unfold spawn_all in uncalled
  Reaches-Called engine ifaces v (then_step path step) =
      Step-Called engine _ v step (Reaches-Called engine ifaces _ path)

  -- If detaching works, links are new, a `remove` fails only where there is no entry, numbers of
  -- interfaces do not change and no two share one, no interface is listed twice, and the engine
  -- that the daemon starts with has entries and links of attached interfaces only, and all of
  -- theirs: however the steps of the tasks interleave, an interface with a lease has a task, and
  -- unless this task has changed the engine and not yet the leases, there is an ARP entry under
  -- the interface's number and the address of the lease. At all times every entry and link in the
  -- kernel is that of an attached interface.
  pub Reaches-IsAnswered :
      (number : String → Option ℕ) (engine : Dumbarp) (ifaces : List String) (v : World)
      → IsNumbered aya number
      → IsTracked number engine
      → IsServing engine
      → NoRepeat ifaces
      → Reaches aya dumbarpd_id (spawn_all engine ifaces) v
      → ((k : String) (info : LeaseInfo)
          → lookup k v.app.leases ≡ some info
          → (n : ℕ) × (t : IfaceTask) × (v.tasks n ≡ some t)
            × (t.iface ≡ k)
            × (IsBetween t.phase
                ⊎ ((i : ℕ) × (number k ≡ some i)
                    × (v.app.engine.host.maps.arp_table
                          (record { ifindex = i; ip = from_ne_bytes info.ip })
                        ≢ none))))
        × IsTracked number v.app.engine
  Reaches-IsAnswered number engine ifaces v named t s once path =
      let calls = Reaches-Called engine ifaces v path in
      let tracked = Called-IsTracked aya ok number named engine _ t calls in
      let serving = Called-IsServing aya ok number named engine _ t s calls in
      let orderly = Reaches-IsOrderly aya ok dumbarpd_id engine ifaces v once path in
      (
        λ k info found.
            let (n, task, is, name) = orderly.leased k info found in
            let settled = rw name at (orderly.settled n task is) in
            let held = Settled-Holds task.phase _ _ info settled found in
            (
              n,
              task,
              is,
              name,
              elim held [
                | inl between ↦ inl between
                | inr (a, there, address) ↦
                    let (own, is_number) = tracked.numbered k a there in
                    let is_key = ArpKey-eq a.key a.ifindex (from_ne_bytes info.ip) own address in
                    inr (a.ifindex, is_number, λ off. serving.arp k a there (rw is_key off))
              ],
            ),
        tracked,
      )
