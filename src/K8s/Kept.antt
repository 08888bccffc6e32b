-- ===== src/K8s/Kept.antt =====
-- The pools that there are after a pass of dumbarp-k8s/src/reconcile.rs.
use dumbarp.Common.{
  ℕ, Bool, true, false, List, [], ◌∷◌, ◌≡◌, ◌≢◌, refl, sym, ◌∙◌, inl, inr, nat_eq, string_eq, arith,
  Dict, Bool-cases, Among, contains,
}
use mathlib.Core.Path.{subst}
use dumbarp.Text.{Text}
use dumbarp.K8s.{Kube, Chrono, ExistingPool, pool_name}
use dumbarp.K8s.Pass.{keep, keep_all, is_pruned, delete_pool, prune_all}
use dumbarp.K8s.Requests.{Cluster, keep-Ensures, Removes, delete_pool-Removes}

module _ (kube : Kube) (chrono : Chrono) (cluster : Cluster kube) where
  open cluster use {has}

  module _ (current : Dict ℕ ExistingPool) (now : ℕ) where
    pub keep_all_lem :
        (ips : List ℕ) (s : kube.State)
        → ((m : Text) → has m s ≡ true → has m (keep_all kube chrono current now ips s).1 ≡ true)
          × ((keep_all kube chrono current now ips s).0 ≡ true
              → (ip : ℕ) → Among ip ips
              → has (pool_name ip) (keep_all kube chrono current now ips s).1 ≡ true)
    keep_all_lem [] s = unfold keep_all in (λ m h. h, λ e ip h. absurd h)
    keep_all_lem (x ∷ ips) s =
        let r = keep kube chrono current now x s in
        let first = keep-Ensures kube chrono cluster current now x s in
        elim (Bool-cases r.0) [
          | inl ok ↦
              let run : keep_all kube chrono current now (x ∷ ips) s
                  ≡ keep_all kube chrono current now ips r.1 =
                unfold keep_all in ground (arith, ok) in
              let (keeps, there) = keep_all_lem ips r.1 in
              rw run (
                λ m h. keeps m (first.keeps m h),
                λ e ip among. elim among [
                  | inl here ↦ rw here (keeps (pool_name x) (first.there ok))
                  | inr later ↦ there e ip later
                ],
              )
          | inr bad ↦
              let run : keep_all kube chrono current now (x ∷ ips) s ≡ (false, r.1) =
                unfold keep_all in ground (arith, bad) in
              rw run (first.keeps, λ e ip among. absurd (ground (arith, e)))
        ]

  module _ (desired : List ℕ) (all_hosts_ok : Bool) (stale now : ℕ) where
    -- The entry is not desired, and it is out of date or every host answered.
    pub record Goes (ip : ℕ) (e : ExistingPool) : Type 0 where
      pub not_desired : contains desired ip ≡ false
      pub is_pruned : is_pruned all_hosts_ok stale now e.last_seen ≡ true

    pub record Pruned (current : Dict ℕ ExistingPool) (s : kube.State) (r : Bool × kube.State)
        : Type 0 where
      pub no_new : (m : Text) → has m s ≡ false → has m r.1 ≡ false
      pub others :
          (m : Text)
          → ((ip : ℕ) (e : ExistingPool) → Among (ip, e) current → Goes ip e → m ≢ e.name)
          → has m r.1 ≡ has m s
      pub gone :
          r.0 ≡ true
          → (ip : ℕ) (e : ExistingPool) → Among (ip, e) current
          → Goes ip e
          → has e.name r.1 ≡ false

    -- an entry that stays adds nothing to what is to be shown
    Pruned-stays :
        (ip : ℕ) (e : ExistingPool) (current : Dict ℕ ExistingPool) (s : kube.State)
        (r : Bool × kube.State)
        → (Goes ip e → ⊥)
        → Pruned current s r
        → Pruned ((ip, e) ∷ current) s r
    Pruned-stays ip e current s r stays p = record {
      no_new = p.no_new;
      others = λ m h. p.others m (λ i f among. h i f (inr among));
      gone = λ ok i f among goes. elim among [
        | inl here ↦ absurd (stays (subst (λ x. Goes x.0 x.1) here goes))
        | inr later ↦ p.gone ok i f later goes
      ];
    }

    -- nor does one whose pool has been deleted
    Pruned-after :
        (ip : ℕ) (e : ExistingPool) (current : Dict ℕ ExistingPool) (s : kube.State)
        (r r' : Bool × kube.State)
        → Goes ip e
        → Removes kube chrono cluster e.name s r
        → r.0 ≡ true
        → Pruned current r.1 r'
        → Pruned ((ip, e) ∷ current) s r'
    Pruned-after ip e current s r r' goes d ok rest = record {
      no_new = λ m h. rest.no_new m (d.no_new m h);
      others = λ m h.
          rest.others m (λ i f among. h i f (inr among)) ∙ d.others m (h ip e (inl refl) goes);
      gone = λ done i f among g. elim among [
        | inl here ↦
            subst (λ x. has x.1.name r'.1 ≡ false) (sym here) (rest.no_new e.name (d.gone ok))
        | inr later ↦ rest.gone done i f later g
      ];
    }

    pub prune_all_lem :
        (current : Dict ℕ ExistingPool) (s : kube.State)
        → Pruned current s (prune_all kube chrono desired all_hosts_ok stale now current s)
    prune_all_lem [] s =
        unfold prune_all in
        record { no_new = λ m h. h; others = λ m h. refl; gone = λ ok ip e h. absurd h }
    prune_all_lem ((ip, e) ∷ current) s = elim (Bool-cases (contains desired ip)) [
      | inl wanted ↦
          let run : prune_all kube chrono desired all_hosts_ok stale now ((ip, e) ∷ current) s
              ≡ prune_all kube chrono desired all_hosts_ok stale now current s =
            unfold prune_all in ground (arith, wanted) in
          rw run (
            Pruned-stays ip e current s _ (λ g. ground (arith, g.not_desired, wanted))
              (prune_all_lem current s))
      | inr unwanted ↦ elim (Bool-cases (is_pruned all_hosts_ok stale now e.last_seen)) [
        | inr fresh ↦
            let run : prune_all kube chrono desired all_hosts_ok stale now ((ip, e) ∷ current) s
                ≡ prune_all kube chrono desired all_hosts_ok stale now current s =
              unfold prune_all in ground (arith, unwanted, fresh) in
            rw run (
              Pruned-stays ip e current s _ (λ g. ground (arith, g.is_pruned, fresh))
                (prune_all_lem current s))
        | inl old ↦
            let r = delete_pool kube chrono e.name s in
            let d = delete_pool-Removes kube chrono cluster e.name s in
            let goes : Goes ip e = record { not_desired = unwanted; is_pruned = old } in
            elim (Bool-cases r.0) [
              | inl ok ↦
                  let run : prune_all kube chrono desired all_hosts_ok stale now ((ip, e) ∷ current)
                        s
                      ≡ prune_all kube chrono desired all_hosts_ok stale now current r.1 =
                    unfold prune_all in ground (arith, unwanted, old, ok) in
                  rw run (Pruned-after ip e current s r _ goes d ok (prune_all_lem current r.1))
              | inr bad ↦
                  let run : prune_all kube chrono desired all_hosts_ok stale now ((ip, e) ∷ current)
                        s
                      ≡ (false, r.1) =
                    unfold prune_all in ground (arith, unwanted, old, bad) in
                  rw run (record {
                    no_new = d.no_new;
                    others = λ m h. d.others m (h ip e (inl refl) goes);
                    gone = λ ok i f among g. absurd (ground (arith, ok));
                  })
            ]
      ]
    ]
