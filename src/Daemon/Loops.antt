-- ===== src/Daemon/Loops.antt =====
-- The tasks of dumbarp-daemon/src/dhcp.rs over their steps, in any order.
use dumbarp.Common.{
  ℕ, false, String, Option, some, List, ◌≡◌, ◌≢◌, ◌⊎◌, refl, sym, ◌∙◌, ap, inl, inr, ◌==◌, nat_eq,
  string_eq, arith, Among, NoRepeat, lookup, Bool-cases,
}
use dumbarp.Engine.{Aya, Dumbarp}
use dumbarp.Engine.Egress.{IsDetachable}
use dumbarp.Daemon.{LeaseInfo}
use dumbarp.Daemon.Dhcp.{
  Refresher, connecting, waiting, erring, ending, releasing, IfaceTask, World, spawn_all, Step,
  Reaches, init_failed, init_done, no_gateway, leased, lease_stored, lease_dropped, client_error,
  error_dropped, client_ended, cancelled, closed, released, refresher_ended, here, then_step,
}
use dumbarp.Daemon.Turn.{
  Settled, Cancelled, Turn, goes_to-Turn, drop_lease-Turn, detach-Turn, cancel-Turn, store-Turn,
  reattach-Turn,
}
use dumbarp.Daemon.Refreshers.{Among-finish}
use dumbarp.Daemon.Spawned.{spawned-new, spawned-named}

-- No two tasks have the same interface. An interface with a lease has a task, and what holds of its
-- lease and its attachment is what the task's phase says. A refresher that is not aborted is the one
-- that the task of its interface holds, and a task without a client holds none.
pub record IsOrderly (w : World) : Type 0 where
  pub named :
      (n m : ℕ) (t u : IfaceTask)
      → w.tasks n ≡ some t
      → w.tasks m ≡ some u
      → t.iface ≡ u.iface
      → n ≡ m
  pub leased :
      (k : String) (info : LeaseInfo)
      → lookup k w.app.leases ≡ some info
      → (n : ℕ) × (t : IfaceTask) × (w.tasks n ≡ some t) × (t.iface ≡ k)
  pub settled :
      (n : ℕ) (t : IfaceTask)
      → w.tasks n ≡ some t
      → Settled t.phase (lookup t.iface w.app.leases) (lookup t.iface w.app.engine.attached)
  pub held :
      (r : Refresher)
      → Among r w.running
      → r.aborted ≡ false
      → (n : ℕ) × (t : IfaceTask) × (w.tasks n ≡ some t)
        × (t.iface ≡ r.iface)
        × (t.neigh_handle ≡ some r.id)
  pub idle : (n : ℕ) (t : IfaceTask) → w.tasks n ≡ some t → Cancelled t.phase t.neigh_handle

module _ (n : ℕ) (t : IfaceTask) (w v : World) (was : w.tasks n ≡ some t)
    (turn : Turn n t w v) where
  -- A task is the one whose turn it was, or one of before.
  task-cases :
      (m : ℕ) (u : IfaceTask)
      → v.tasks m ≡ some u
      → ((n ≡ m) × (turn.t' ≡ u)) ⊎ ((n ≢ m) × (w.tasks m ≡ some u))
  task-cases m u is = elim (Bool-cases (n == m)) [
    | inl same ↦ inl (ground (arith, same), ground (arith, same, is, turn.now m))
    | inr other ↦ inr (ground (arith, other), ground (arith, other, is, turn.now m))
  ]

  -- Each task of before has a task now, of the same interface.
  iface_before :
      (m : ℕ) (u : IfaceTask)
      → v.tasks m ≡ some u
      → (u' : IfaceTask) × (w.tasks m ≡ some u') × (u'.iface ≡ u.iface)
  iface_before m u is = elim (task-cases m u is) [
    | inl (same, new) ↦ (t, rw same at was, sym turn.iface ∙ ap (λ (x : IfaceTask). x.iface) new)
    | inr (other, old) ↦ (u, old, refl)
  ]

  iface_after :
      (m : ℕ) (u : IfaceTask)
      → w.tasks m ≡ some u
      → (u' : IfaceTask) × (v.tasks m ≡ some u') × (u'.iface ≡ u.iface)
  iface_after m u is = elim (Bool-cases (n == m)) [
    | inl same ↦
        let is_m : n ≡ m = ground (arith, same) in
        let is_t : t ≡ u = ground (arith, is, was, is_m) in
        (
          turn.t',
          ground (arith, same, turn.now m),
          turn.iface ∙ ap (λ (x : IfaceTask). x.iface) is_t,
        )
    | inr other ↦ (u, ground (arith, other, is, turn.now m), refl)
  ]

  apart_from :
      (o : IsOrderly w) (m : ℕ) (u : IfaceTask)
      → n ≢ m
      → w.tasks m ≡ some u
      → (t.iface == u.iface) ≡ false
  apart_from o m u other is = elim (Bool-cases (t.iface == u.iface)) [
    | inr apart ↦ apart
    | inl same ↦
        absurd (other (o.named n m t u was is ((string_eq.equal_iff t.iface u.iface).0 same)))
  ]

  pub Turn-IsOrderly : IsOrderly w → IsOrderly v
  Turn-IsOrderly o = record {
    named = λ m l u x is_u is_x same.
        let (u', was_u, name_u) = iface_before m u is_u in
        let (x', was_x, name_x) = iface_before l x is_x in
        o.named m l u' x' was_u was_x (name_u ∙ same ∙ sym name_x);
    leased = λ k info found. elim (Bool-cases (t.iface == k)) [
      | inl same ↦
          let (t', now, name) = iface_after n t was in
          (n, t', now, name ∙ (string_eq.equal_iff t.iface k).0 same)
      | inr other ↦
          let (m, u, is, name) = o.leased k info (sym (turn.leases k other) ∙ found) in
          let (u', now, name') = iface_after m u is in (m, u', now, name' ∙ name)
    ];
    settled = λ m u is. elim (task-cases m u is) [
      | inl (same, new) ↦ rw (sym new) (rw turn.iface (turn.settled (o.settled n t was)))
      | inr (other, old) ↦
          let apart = apart_from o m u other old in
          rw (turn.leases u.iface apart, turn.attached u.iface apart) (o.settled m u old)
    ];
    held = λ r among live. elim (turn.kept r among live) [
      | inr (name, holds) ↦ (n, turn.t', ground (arith, turn.now n), turn.iface ∙ sym name, holds)
      | inl (there, was_live, how) ↦
          let (m, u, is, name, holds) = o.held r there was_live in
          elim (Bool-cases (n == m)) [
            | inr other ↦ (m, u, ground (arith, other, is, turn.now m), name, holds)
            | inl same ↦
                let is_m : n ≡ m = ground (arith, same) in
                let is_t : t ≡ u = ground (arith, is, was, is_m) in
                let mine : t.neigh_handle ≡ some r.id =
                  ap (λ (x : IfaceTask). x.neigh_handle) is_t ∙ holds in
                elim how [
                  | inl other ↦ absurd (other mine)
                  | inr still ↦ (
                    n,
                    turn.t',
                    ground (arith, turn.now n),
                    turn.iface ∙ ap (λ (x : IfaceTask). x.iface) is_t ∙ name,
                    still ∙ mine,
                  )
                ]
          ]
    ];
    idle = λ m u is. elim (task-cases m u is) [
      | inl (same, new) ↦ rw (sym new) (turn.idle (o.idle n t was))
      | inr (other, old) ↦ o.idle m u old
    ];
  }

spawn_all-IsOrderly :
    (engine : Dumbarp) (ifaces : List String)
    → NoRepeat ifaces
    → IsOrderly (spawn_all engine ifaces)
unfolding spawn_all
spawn_all-IsOrderly engine ifaces once = record {
  named = λ n m t u is_t is_u same. spawned-named ifaces n m t u once is_t is_u same;
  leased = λ k info found. absurd (unfold lookup in ground (arith, found));
  settled = λ n t is. rw (spawned-new ifaces n t is).0 (unfold lookup in refl);
  held = λ r among live. absurd among;
  idle = λ n t is. let (phase, handle, among) = spawned-new ifaces n t is in rw phase handle;
}

module _ (aya : Aya) (ok : IsDetachable aya) (dumbarpd_id : Option ℕ) where
  Step-IsOrderly : (w v : World) → Step aya dumbarpd_id w v → IsOrderly w → IsOrderly v
  Step-IsOrderly w v (init_failed n t at_task) o = o
  Step-IsOrderly w v (no_gateway n t at_task) o = o
  Step-IsOrderly w v (init_done n t (is, phase)) o =
      Turn-IsOrderly n t w v is
        (goes_to-Turn n t waiting w (λ h info e. absurd (ground (arith, rw phase at h, e)))
          (λ h. tt))
        o
  Step-IsOrderly w v (leased n t ip gateway (is, phase)) o =
      Turn-IsOrderly n t w v is (reattach-Turn aya dumbarpd_id ok n t ip gateway w) o
  Step-IsOrderly w v (lease_stored n t info (is, phase)) o =
      Turn-IsOrderly n t w v is (store-Turn n t info w phase) o
  Step-IsOrderly w v (lease_dropped n t (is, phase)) o =
      Turn-IsOrderly n t w v is
        (drop_lease-Turn n t waiting w (λ h info e. absurd (ground (arith, e))) (λ h. tt)) o
  Step-IsOrderly w v (client_error n t (is, phase)) o =
      Turn-IsOrderly n t w v is (detach-Turn aya dumbarpd_id n t erring w (λ l a. tt) (λ h. tt)) o
  Step-IsOrderly w v (error_dropped n t (is, phase)) o =
      Turn-IsOrderly n t w v is
        (drop_lease-Turn n t ending w (λ h info e. absurd (ground (arith, e))) (λ h. tt)) o
  Step-IsOrderly w v (client_ended n t (is, phase)) o =
      Turn-IsOrderly n t w v is (goes_to-Turn n t ending w (λ h. rw phase at h) (λ h. tt)) o
  Step-IsOrderly w v (cancelled n t (is, phase)) o =
      Turn-IsOrderly n t w v is (cancel-Turn n t w phase) o
  Step-IsOrderly w v (closed n t (is, phase)) o =
      Turn-IsOrderly n t w v is
        (detach-Turn aya dumbarpd_id n t releasing w (λ l a. tt) (λ h. rw phase at h)) o
  Step-IsOrderly w v (released n t (is, phase)) o =
      Turn-IsOrderly n t w v is (drop_lease-Turn n t connecting w (λ h. refl) (λ h. rw phase at h))
        o
  Step-IsOrderly w v (refresher_ended h) o = record {
    named = o.named;
    leased = o.leased;
    settled = o.settled;
    held = λ r among live. o.held r (Among-finish h w.running r among) live;
    idle = o.idle;
  }

  -- If detaching works, links are new, a `remove` fails only where there is no entry, and no
  -- interface is listed twice: however the steps of the tasks interleave, from the start on every
  -- interface with a lease has one task. Unless this task has changed the engine and not yet the
  -- leases, the interface is attached with the address of its lease; and when it is about to insert
  -- a lease, the interface is attached with the address of that one. The interface of a task that
  -- has not got a client yet has no lease. A neighbour refresher that is not aborted is the one
  -- that the task of its interface holds, and from the abort until the next client a task holds
  -- none.
  pub Reaches-IsOrderly :
      (engine : Dumbarp) (ifaces : List String) (v : World)
      → NoRepeat ifaces
      → Reaches aya dumbarpd_id (spawn_all engine ifaces) v
      → IsOrderly v
  Reaches-IsOrderly engine ifaces v once here = spawn_all-IsOrderly engine ifaces once
  Reaches-IsOrderly engine ifaces v once (then_step path step) =
      Step-IsOrderly _ v step (Reaches-IsOrderly engine ifaces _ once path)
