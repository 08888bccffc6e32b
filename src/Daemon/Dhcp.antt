-- ===== src/Daemon/Dhcp.antt =====
-- `run_dhcp_for_iface` of dumbarp-daemon/src/dhcp.rs, one task for each element of the list of
-- interfaces, over the state that they share. The engine and the leases have a lock each, and what a
-- task does under one lock is one step, so that steps of other tasks come between. A neighbour
-- refresher is the task that `spawn_probe_and_refresh` of neigh.rs starts; it runs on for a while
-- after it was aborted.
use dumbarp.Common.{
  ℕ, ◌+◌, ◌-◌, Bool, true, false, String, Option, none, some, List, [], ◌∷◌, ◌≡◌, ◌==◌, nat_eq,
  string_eq, if◌then◌else◌, insert, remove,
}
use dumbarp.Ebpf.{Quad}
use dumbarp.Engine.{Aya, Dumbarp, EngineError, add_interface, remove_interface}
use dumbarp.Daemon.{LeaseInfo, AppState}

pub record Refresher : Type 0 where
  pub id : ℕ
  pub iface : String
  pub src_ip : Quad
  pub gw_ip : Quad
  pub aborted : Bool

-- Where a task is: before it has a client; at `client.next()`; after the engine's part of a lease,
-- before the leases' part, with the lease to insert or one to remove; between the two parts of the
-- `detach` that follows an error; behind the loop over the events; behind `abort`; and between the two
-- parts of the last `detach`.
pub data Phase : Type 0 where
  connecting waiting dropping erring ending closing releasing : Phase
  storing : LeaseInfo → Phase

pub record IfaceTask : Type 0 where
  pub iface : String
  pub phase : Phase
  pub neigh_handle : Option ℕ

pub record World : Type 0 where
  pub app : AppState
  pub tasks : ℕ → Option IfaceTask
  pub running : List Refresher
  pub next_id : ℕ

abbrev pub set_task : ℕ → IfaceTask → (ℕ → Option IfaceTask) → ℕ → Option IfaceTask
set_task n t tasks m = if n == m then some t else tasks m

-- `AbortHandle::abort`
unfoldable pub abort : ℕ → List Refresher → List Refresher
abort h [] = []
abort h (r ∷ running) = (if r.id == h then record r { aborted = true } else r) ∷ abort h running

unfoldable pub abort_held : Option ℕ → List Refresher → List Refresher
unfolding abort
abort_held none running = running
abort_held (some h) running = abort h running

-- a refresher ends, by itself or because it was aborted
unfoldable pub finish : ℕ → List Refresher → List Refresher
finish h [] = []
finish h (r ∷ running) = let rest = finish h running in if r.id == h then rest else r ∷ rest

-- the tasks, in the order of the list
unfoldable pub spawned : List String → ℕ → Option IfaceTask
spawned [] n = none
spawned (iface ∷ ifaces) n =
    let rest = spawned ifaces (n - 1) in
    if n == 0
    then some (record { iface = iface; phase = connecting; neigh_handle = none })
    else rest

-- `AppState::new` and `spawn_all`
unfoldable pub spawn_all : Dumbarp → List String → World
unfolding spawned
spawn_all engine ifaces = record {
  app = record { engine = engine; leases = [] };
  tasks = spawned ifaces;
  running = [];
  next_id = 0;
}

-- the match on the result of `add_interface`
unfoldable pub after_attach : Option EngineError → LeaseInfo → Phase
after_attach none info = storing info
after_attach (some error) info = dropping

-- the lease inserted, and the refresher cancelled and a fresh one started
unfoldable pub store : ℕ → IfaceTask → LeaseInfo → World → World
unfolding abort_held
store n t info w =
    let fresh : Refresher = record {
      id = w.next_id;
      iface = t.iface;
      src_ip = info.ip;
      gw_ip = info.gateway;
      aborted = false;
    } in
    record w {
      app = record w.app { leases = insert t.iface info w.app.leases };
      tasks = set_task n (record t { phase = waiting; neigh_handle = some w.next_id }) w.tasks;
      running = fresh ∷ abort_held t.neigh_handle w.running;
      next_id = w.next_id + 1;
    }

-- the lease removed: after a failed `add_interface`, and the second part of `detach`
unfoldable pub drop_lease : ℕ → IfaceTask → Phase → World → World
drop_lease n t next w = record w {
  app = record w.app { leases = remove t.iface w.app.leases };
  tasks = set_task n (record t { phase = next }) w.tasks;
}

-- what follows the loop over the events, up to `detach`
unfoldable pub cancel : ℕ → IfaceTask → World → World
unfolding abort_held
cancel n t w = record w {
  tasks = set_task n (record t { phase = closing; neigh_handle = none }) w.tasks;
  running = abort_held t.neigh_handle w.running;
}

abbrev pub goes_to : ℕ → IfaceTask → Phase → World → World
goes_to n t next w = record w { tasks = set_task n (record t { phase = next }) w.tasks }

-- The task `n` is at the phase.
abbrev pub At : World → ℕ → IfaceTask → Phase → Type 0
At w n t phase = (w.tasks n ≡ some t) × (t.phase ≡ phase)

module _ (aya : Aya) (dumbarpd_id : Option ℕ) where
  -- a lease with a gateway, under the lock of the engine
  unfoldable pub reattach : ℕ → IfaceTask → Quad → Quad → World → World
  unfolding after_attach
  reattach n t ip gateway w =
      let detached = (remove_interface aya t.iface w.app.engine).1 in
      let result = add_interface aya t.iface ip dumbarpd_id detached in
      let phase = after_attach result.0 (record { ip = ip; gateway = gateway }) in
      record w {
        app = record w.app { engine = result.1 };
        tasks = set_task n (record t { phase = phase }) w.tasks;
      }

  -- the first part of `detach`
  unfoldable pub detach : ℕ → IfaceTask → Phase → World → World
  detach n t next w = record w {
    app = record w.app { engine = (remove_interface aya t.iface w.app.engine).1 };
    tasks = set_task n (record t { phase = next }) w.tasks;
  }

  pub data Step (w : World) : World → Type 0 where
    init_failed : (n : ℕ) (t : IfaceTask) → At w n t connecting → Step w w
    init_done : (n : ℕ) (t : IfaceTask) → At w n t connecting → Step w (goes_to n t waiting w)
    no_gateway : (n : ℕ) (t : IfaceTask) → At w n t waiting → Step w w
    leased :
        (n : ℕ) (t : IfaceTask) (ip gateway : Quad)
        → At w n t waiting
        → Step w (reattach n t ip gateway w)
    lease_stored :
        (n : ℕ) (t : IfaceTask) (info : LeaseInfo)
        → At w n t (storing info)
        → Step w (store n t info w)
    lease_dropped : (n : ℕ) (t : IfaceTask) → At w n t dropping → Step w (drop_lease n t waiting w)
    client_error : (n : ℕ) (t : IfaceTask) → At w n t waiting → Step w (detach n t erring w)
    error_dropped : (n : ℕ) (t : IfaceTask) → At w n t erring → Step w (drop_lease n t ending w)
    client_ended : (n : ℕ) (t : IfaceTask) → At w n t waiting → Step w (goes_to n t ending w)
    cancelled : (n : ℕ) (t : IfaceTask) → At w n t ending → Step w (cancel n t w)
    closed : (n : ℕ) (t : IfaceTask) → At w n t closing → Step w (detach n t releasing w)
    released : (n : ℕ) (t : IfaceTask) → At w n t releasing → Step w (drop_lease n t connecting w)
    refresher_ended : (h : ℕ) → Step w (record w { running = finish h w.running })

  pub data Reaches (w : World) : World → Type 0 where
    here : Reaches w w
    then_step : {u v : World} → Reaches w u → Step u v → Reaches w v
