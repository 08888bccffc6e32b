-- ===== src/Daemon/Turn.antt =====
-- What one step of a task of dumbarp-daemon/src/dhcp.rs changes.
use dumbarp.Common.{
  ℕ, false, String, Option, none, some, ◌≡◌, ◌≢◌, ◌⊎◌, refl, ◌∙◌, ap, inl, inr, ◌==◌, nat_eq,
  string_eq, arith, Among, lookup, insert, remove, lookup-insert, lookup-remove, if◌then◌else◌,
}
use dumbarp.Ebpf.{Quad, from_ne_bytes}
use dumbarp.Engine.{Aya, Attached, EngineError, add_interface, remove_interface}
use dumbarp.Engine.Egress.{IsDetachable}
use dumbarp.Daemon.{LeaseInfo}
use dumbarp.Daemon.Attaching.{attached-remove_interface, attached-add_interface, add_interface-key}
use dumbarp.Daemon.Dhcp.{
  Refresher, Phase, connecting, waiting, storing, dropping, erring, ending, closing, releasing,
  IfaceTask, World, after_attach, reattach, store, drop_lease, detach, cancel, goes_to,
}
use dumbarp.Daemon.Refreshers.{Among-abort_held}

-- The interface is attached with the address of the lease.
abbrev pub Holds : LeaseInfo → Option Attached → Type 0
Holds info attached = (a : Attached) × (attached ≡ some a) × (a.key.ip ≡ from_ne_bytes info.ip)

-- What holds of the lease and the attachment of an interface whose task is at the phase: nothing
-- while the task is between its change of the engine and that of the leases, but for what it is about
-- to insert.
abbrev pub Settled : Phase → Option LeaseInfo → Option Attached → Type 0
Settled connecting lease attached = lease ≡ none
Settled waiting lease attached = (info : LeaseInfo) → lease ≡ some info → Holds info attached
Settled ending lease attached = (info : LeaseInfo) → lease ≡ some info → Holds info attached
Settled closing lease attached = (info : LeaseInfo) → lease ≡ some info → Holds info attached
Settled (storing info) lease attached = Holds info attached
Settled dropping lease attached = Unit
Settled erring lease attached = Unit
Settled releasing lease attached = Unit

-- the handle of a task that has no client, or has cancelled its refresher
abbrev pub Cancelled : Phase → Option ℕ → Type 0
Cancelled connecting handle = handle ≡ none
Cancelled closing handle = handle ≡ none
Cancelled releasing handle = handle ≡ none
Cancelled waiting handle = Unit
Cancelled ending handle = Unit
Cancelled erring handle = Unit
Cancelled dropping handle = Unit
Cancelled (storing info) handle = Unit

-- A refresher that is not aborted after the turn is an old one that the task still holds or that
-- another holds, or is the one that the task holds now.
abbrev pub Kept : IfaceTask → IfaceTask → World → Refresher → Type 0
Kept t t' w r =
    (Among r w.running
      × (r.aborted ≡ false)
      × ((t.neigh_handle ≢ some r.id) ⊎ (t'.neigh_handle ≡ t.neigh_handle)))
    ⊎ ((r.iface ≡ t.iface) × (t'.neigh_handle ≡ some r.id))

-- The task `n`, which was `t`, is `t'` now; other interfaces have what they had.
pub record Turn (n : ℕ) (t : IfaceTask) (w v : World) : Type 0 where
  pub t' : IfaceTask
  pub now : (m : ℕ) → v.tasks m ≡ (if n == m then some t' else w.tasks m)
  pub iface : t'.iface ≡ t.iface
  pub leases : (k : String) → (t.iface == k) ≡ false → lookup k v.app.leases ≡ lookup k w.app.leases
  pub attached :
      (k : String)
      → (t.iface == k) ≡ false
      → lookup k v.app.engine.attached ≡ lookup k w.app.engine.attached
  pub settled :
      Settled t.phase (lookup t.iface w.app.leases) (lookup t.iface w.app.engine.attached)
      → Settled t'.phase (lookup t.iface v.app.leases) (lookup t.iface v.app.engine.attached)
  pub kept : (r : Refresher) → Among r v.running → r.aborted ≡ false → Kept t t' w r
  pub idle : Cancelled t.phase t.neigh_handle → Cancelled t'.phase t'.neigh_handle

-- a turn that changes the phase only
pub goes_to-Turn :
    (n : ℕ) (t : IfaceTask) (next : Phase) (w : World)
    → (Settled t.phase (lookup t.iface w.app.leases) (lookup t.iface w.app.engine.attached)
        → Settled next (lookup t.iface w.app.leases) (lookup t.iface w.app.engine.attached))
    → (Cancelled t.phase t.neigh_handle → Cancelled next t.neigh_handle)
    → Turn n t w (goes_to n t next w)
goes_to-Turn n t next w settled idle = record {
  t' = record t { phase = next };
  now = λ m. refl;
  iface = refl;
  leases = λ k other. refl;
  attached = λ k other. refl;
  settled = settled;
  kept = λ r among live. inl (among, live, inr refl);
  idle = idle;
}

pub drop_lease-Turn :
    (n : ℕ) (t : IfaceTask) (next : Phase) (w : World)
    → (Settled t.phase (lookup t.iface w.app.leases) (lookup t.iface w.app.engine.attached)
        → Settled next none (lookup t.iface w.app.engine.attached))
    → (Cancelled t.phase t.neigh_handle → Cancelled next t.neigh_handle)
    → Turn n t w (drop_lease n t next w)
unfolding drop_lease
drop_lease-Turn n t next w settled idle =
    let gone : lookup t.iface (remove t.iface w.app.leases) ≡ none =
      ground
        (arith, lookup-remove t.iface t.iface w.app.leases, string_eq.equal_iff t.iface t.iface) in
    record {
      t' = record t { phase = next };
      now = λ m. refl;
      iface = refl;
      leases = λ k other. ground (arith, other, lookup-remove t.iface k w.app.leases);
      attached = λ k other. refl;
      settled = λ before. rw gone (settled before);
      kept = λ r among live. inl (among, live, inr refl);
      idle = idle;
    }

pub cancel-Turn : (n : ℕ) (t : IfaceTask) (w : World) → t.phase ≡ ending → Turn n t w (cancel n t w)
unfolding cancel
cancel-Turn n t w at_end = record {
  t' = record t { phase = closing; neigh_handle = none };
  now = λ m. refl;
  iface = refl;
  leases = λ k other. refl;
  attached = λ k other. refl;
  settled = λ before. rw at_end at before;
  kept = λ r among live.
      let (there, other) = Among-abort_held t.neigh_handle w.running r among live in
      inl (there, live, inl other);
  idle = λ before. refl;
}

pub store-Turn :
    (n : ℕ) (t : IfaceTask) (info : LeaseInfo) (w : World)
    → t.phase ≡ storing info
    → Turn n t w (store n t info w)
unfolding store
store-Turn n t info w at_store =
    let found : lookup t.iface (insert t.iface info w.app.leases) ≡ some info = ground (
      arith,
      lookup-insert t.iface t.iface info w.app.leases,
      string_eq.equal_iff t.iface t.iface,
    ) in
    record {
      t' = record t { phase = waiting; neigh_handle = some w.next_id };
      now = λ m. refl;
      iface = refl;
      leases = λ k other. ground (arith, other, lookup-insert t.iface k info w.app.leases);
      attached = λ k other. refl;
      settled = λ before i is.
          let same : info ≡ i = ground (arith, found, is) in rw same at (rw at_store at before);
      kept = λ r among live. elim among [
        | inl fresh ↦ inr (ground (arith, fresh), ground (arith, fresh))
        | inr old ↦
            let (there, other) = Among-abort_held t.neigh_handle w.running r old live in
            inl (there, live, inl other)
      ];
      idle = λ before. tt;
    }

after_attach-cases :
    (result : Option EngineError) (info : LeaseInfo)
    → ((result ≡ none) × (after_attach result info ≡ storing info))
      ⊎ (after_attach result info ≡ dropping)
unfolding after_attach
after_attach-cases none info = inl (refl, refl)
after_attach-cases (some error) info = inr refl

module _ (aya : Aya) (dumbarpd_id : Option ℕ) where
  -- the phase after it says nothing of the interface
  pub detach-Turn :
      (n : ℕ) (t : IfaceTask) (next : Phase) (w : World)
      → ((lease : Option LeaseInfo) (attached : Option Attached) → Settled next lease attached)
      → (Cancelled t.phase t.neigh_handle → Cancelled next t.neigh_handle)
      → Turn n t w (detach aya dumbarpd_id n t next w)
  unfolding detach
  detach-Turn n t next w settled idle = record {
    t' = record t { phase = next };
    now = λ m. refl;
    iface = refl;
    leases = λ k other. refl;
    attached = λ k other.
        ground (arith, other, attached-remove_interface aya dumbarpd_id t.iface w.app.engine k);
    settled = λ before. settled _ _;
    kept = λ r among live. inl (among, live, inr refl);
    idle = idle;
  }

  pub reattach-Turn :
      (ok : IsDetachable aya) (n : ℕ) (t : IfaceTask) (ip gateway : Quad) (w : World)
      → Turn n t w (reattach aya dumbarpd_id n t ip gateway w)
  unfolding reattach
  reattach-Turn ok n t ip gateway w =
      let e = (remove_interface aya t.iface w.app.engine).1 in
      let r = add_interface aya t.iface ip dumbarpd_id e in
      let info : LeaseInfo = record { ip = ip; gateway = gateway } in
      record {
        t' = record t { phase = after_attach r.0 info };
        now = λ m. refl;
        iface = refl;
        leases = λ k other. refl;
        attached = λ k other.
            let gone = attached-remove_interface aya dumbarpd_id t.iface w.app.engine k in
            elim (attached-add_interface aya dumbarpd_id t.iface ip e k) [
              | inl (failed, same) ↦ ap (λ m. lookup k m) same ∙ ground (arith, other, gone)
              | inr (a, got) ↦ ground (arith, other, gone, got)
            ];
        settled = λ before. elim (after_attach-cases r.0 info) [
          | inl (fine, next) ↦ rw next (add_interface-key aya dumbarpd_id ok t.iface ip e fine)
          | inr next ↦ rw next tt
        ];
        kept = λ r among live. inl (among, live, inr refl);
        idle = λ before. elim (after_attach-cases r.0 info) [
          | inl (fine, next) ↦ rw next tt
          | inr next ↦ rw next tt
        ];
      }
