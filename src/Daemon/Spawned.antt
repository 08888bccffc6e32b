-- ===== src/Daemon/Spawned.antt =====
-- The tasks that `spawn_all` of dumbarp-daemon/src/dhcp.rs starts.
use dumbarp.Common.{
  ℕ, zero, suc, ◌-◌, true, String, none, some, List, [], ◌∷◌, ◌≡◌, refl, sym, ◌∙◌, ap, inl, inr,
  ◌==◌, nat_eq, string_eq, arith, contains, NoRepeat, Bool-cases,
}
use dumbarp.Daemon.Dhcp.{connecting, IfaceTask, spawned}

-- the tasks that are spawned
pub spawned-new :
    (ifaces : List String) (n : ℕ) (t : IfaceTask)
    → spawned ifaces n ≡ some t
    → (t.phase ≡ connecting) × (t.neigh_handle ≡ none) × (contains ifaces t.iface ≡ true)
unfolding spawned
spawned-new [] n t is = absurd (ground (arith, is))
spawned-new (iface ∷ ifaces) n t is = elim (Bool-cases (n == 0)) [
  | inl first ↦ ground (arith, first, is, string_eq.equal_iff iface t.iface)
  | inr later ↦
      let (phase, handle, among) = spawned-new ifaces (n - 1) t (ground (arith, later, is)) in
      (phase, handle, ground (arith, among))
]

spawned-suc :
    (iface : String) (ifaces : List String) (n : ℕ)
    → spawned (iface ∷ ifaces) (suc n) ≡ spawned ifaces n
unfolding spawned
spawned-suc iface ifaces n =
    let shift : suc n - 1 ≡ n = omega arith in ground (arith, ap (λ m. spawned ifaces m) shift)

pub spawned-named :
    (ifaces : List String) (n m : ℕ) (t u : IfaceTask)
    → NoRepeat ifaces
    → spawned ifaces n ≡ some t
    → spawned ifaces m ≡ some u
    → t.iface ≡ u.iface
    → n ≡ m
unfolding spawned
spawned-named [] n m t u once is_t is_u same = absurd (ground (arith, is_t))
spawned-named (iface ∷ ifaces) zero zero t u once is_t is_u same = refl
spawned-named (iface ∷ ifaces) zero (suc m) t u once is_t is_u same =
    let (phase, handle, among) = spawned-new ifaces m u (sym (spawned-suc iface ifaces m) ∙ is_u) in
    let name : iface ≡ u.iface = ground (arith, is_t, same) in
    absurd (ground (arith, once.0, rw (sym name) at among))
spawned-named (iface ∷ ifaces) (suc n) zero t u once is_t is_u same =
    let (phase, handle, among) = spawned-new ifaces n t (sym (spawned-suc iface ifaces n) ∙ is_t) in
    let name : iface ≡ t.iface = ground (arith, is_u, same) in
    absurd (ground (arith, once.0, rw (sym name) at among))
spawned-named (iface ∷ ifaces) (suc n) (suc m) t u once is_t is_u same = ap suc (
    spawned-named ifaces n m t u once.1 (sym (spawned-suc iface ifaces n) ∙ is_t)
      (sym (spawned-suc iface ifaces m) ∙ is_u) same)
