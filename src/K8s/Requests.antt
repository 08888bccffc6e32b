-- ===== src/K8s/Requests.antt =====
-- The requests of dumbarp-k8s/src/reconcile.rs, over a cluster that does what it says it did.
use dumbarp.Common.{
  ℕ, Bool, true, false, not, ◌&&◌, ◌||◌, String, some, [], ◌∷◌, ◌≡◌, ◌≢◌, refl, ◌⊎◌, inl, inr, ◌==◌,
  nat_eq, string_eq, arith, Dict, lookup, Option-cases, Bool-cases,
}
use dumbarp.Text.{Text, text_eq, text_beq_iff}
use dumbarp.K8s.{
  Pool, Answer, done, api_error, other_error, Kube, Chrono, ExistingPool, pool_name, build_pool,
  last_seen_annotation,
}
use dumbarp.K8s.Pass.{touch_pool, create_pool, delete_pool, keep}

-- Which pools there are, by their names.
pub record Cluster (kube : Kube) : Type 0 where
  pub has : Text → kube.State → Bool
  pub create_done :
      (p : Pool) (name : Text) (s : kube.State)
      → p.name ≡ some name
      → (kube.create p s).0 ≡ done
      → (m : Text) → has m (kube.create p s).1 ≡ (has m s || m == name)
  pub create_failed :
      (p : Pool) (s : kube.State)
      → (kube.create p s).0 ≢ done
      → (m : Text) → has m (kube.create p s).1 ≡ has m s
  pub patch_done :
      (n : Text) (a : Dict String Text) (s : kube.State)
      → (kube.patch_annotations n a s).0 ≡ done
      → has n s ≡ true
  pub patch_keeps :
      (n : Text) (a : Dict String Text) (s : kube.State) (m : Text)
      → has m (kube.patch_annotations n a s).1 ≡ has m s
  pub delete_done :
      (n : Text) (s : kube.State)
      → (kube.delete n s).0 ≡ done
      → (m : Text) → has m (kube.delete n s).1 ≡ (has m s && not (m == n))
  pub delete_failed :
      (n : Text) (s : kube.State)
      → (kube.delete n s).0 ≢ done
      → (m : Text) → has m (kube.delete n s).1 ≡ has m s
  pub delete_missing :
      (n : Text) (s : kube.State) → (kube.delete n s).0 ≡ api_error 404 → has n s ≡ false

Answer-cases : (a : Answer) → (a ≡ done) ⊎ ((n : ℕ) × (a ≡ api_error n)) ⊎ (a ≡ other_error)
Answer-cases done = inl refl
Answer-cases (api_error n) = inr (inl (n, refl))
Answer-cases other_error = inr (inr refl)

module _ (kube : Kube) (chrono : Chrono) (cluster : Cluster kube) where
  open cluster use {has}

  -- A call that leaves the pools that there are, and if it succeeds there is one of the name.
  pub record Ensures (name : Text) (s : kube.State) (r : Bool × kube.State) : Type 0 where
    pub keeps : (m : Text) → has m s ≡ true → has m r.1 ≡ true
    pub there : r.0 ≡ true → has name r.1 ≡ true

  touch_pool-Ensures :
      (ip now : ℕ) (s : kube.State) → Ensures (pool_name ip) s (touch_pool kube chrono ip now s)
  touch_pool-Ensures ip now s =
      let a : Dict String Text = (last_seen_annotation, chrono.to_rfc3339 now) ∷ [] in
      let r = kube.patch_annotations (pool_name ip) a s in
      let same = cluster.patch_keeps (pool_name ip) a s in
      elim (Answer-cases r.0) [
        | inl ok ↦
            let run : touch_pool kube chrono ip now s ≡ (true, r.1) =
              unfold touch_pool in ground (arith, ok) in
            let was = cluster.patch_done (pool_name ip) a s ok in
            rw run (record {
              keeps = λ m h. ground (arith, same m, h);
              there = λ e. ground (arith, same (pool_name ip), was);
            })
        | inr other ↦
            let run : touch_pool kube chrono ip now s ≡ (false, r.1) =
              unfold touch_pool in ground (arith, other) in
            rw run
              (record { keeps = λ m h. ground (arith, same m, h); there = λ e. ground (arith, e) })
      ]

  create_pool-Ensures :
      (ip now : ℕ) (s : kube.State) → Ensures (pool_name ip) s (create_pool kube chrono ip now s)
  create_pool-Ensures ip now s =
      let p = build_pool chrono ip now in
      let r = kube.create p s in
      let named : p.name ≡ some (pool_name ip) = unfold build_pool in refl in
      elim (Answer-cases r.0) [
        | inl ok ↦
            let run : create_pool kube chrono ip now s ≡ (true, r.1) =
              unfold create_pool in ground (arith, ok) in
            let after = cluster.create_done p (pool_name ip) s named ok in
            rw run (record {
              keeps = λ m h. ground (arith, after m, h);
              there = λ e.
                  ground (arith, after (pool_name ip), text_beq_iff (pool_name ip) (pool_name ip));
            })
        | inr (inl (n, bad)) ↦
            let same = cluster.create_failed p s (λ q. ground (arith, bad, q)) in
            elim (Bool-cases (n == 409)) [
              | inl there ↦
                  let run : create_pool kube chrono ip now s ≡ touch_pool kube chrono ip now r.1 =
                    unfold create_pool in ground (arith, bad, there) in
                  let e = touch_pool-Ensures ip now r.1 in
                  rw run (record {
                    keeps = λ m h. e.keeps m (ground (arith, same m, h));
                    there = e.there;
                  })
              | inr other ↦
                  let run : create_pool kube chrono ip now s ≡ (false, r.1) =
                    unfold create_pool in ground (arith, bad, other) in
                  rw run (record {
                    keeps = λ m h. ground (arith, same m, h);
                    there = λ e. ground (arith, e);
                  })
            ]
        | inr (inr bad) ↦
            let same = cluster.create_failed p s (λ q. ground (arith, bad, q)) in
            let run : create_pool kube chrono ip now s ≡ (false, r.1) =
              unfold create_pool in ground (arith, bad) in
            rw run
              (record { keeps = λ m h. ground (arith, same m, h); there = λ e. ground (arith, e) })
      ]

  pub keep-Ensures :
      (current : Dict ℕ ExistingPool) (now ip : ℕ) (s : kube.State)
      → Ensures (pool_name ip) s (keep kube chrono current now ip s)
  keep-Ensures current now ip s = elim (Option-cases (lookup ip current)) [
    | inl new ↦
        let run : keep kube chrono current now ip s ≡ create_pool kube chrono ip now s =
          unfold keep in ground (arith, new) in
        rw run (create_pool-Ensures ip now s)
    | inr (e, old) ↦
        let run : keep kube chrono current now ip s ≡ touch_pool kube chrono ip now s =
          unfold keep in ground (arith, old) in
        rw run (touch_pool-Ensures ip now s)
  ]

  -- A call that leaves the pools of other names and makes no new ones, and if it succeeds there is
  -- none of the name.
  pub record Removes (name : Text) (s : kube.State) (r : Bool × kube.State) : Type 0 where
    pub others : (m : Text) → m ≢ name → has m r.1 ≡ has m s
    pub no_new : (m : Text) → has m s ≡ false → has m r.1 ≡ false
    pub gone : r.0 ≡ true → has name r.1 ≡ false

  pub delete_pool-Removes :
      (name : Text) (s : kube.State) → Removes name s (delete_pool kube chrono name s)
  delete_pool-Removes name s =
      let r = kube.delete name s in
      elim (Answer-cases r.0) [
        | inl ok ↦
            let run : delete_pool kube chrono name s ≡ (true, r.1) =
              unfold delete_pool in ground (arith, ok) in
            let after = cluster.delete_done name s ok in
            rw run (record {
              others = λ m h. ground (arith, after m, text_beq_iff m name, h);
              no_new = λ m h. ground (arith, after m, h);
              gone = λ e. ground (arith, after name, text_beq_iff name name);
            })
        | inr (inl (n, bad)) ↦
            let same = cluster.delete_failed name s (λ q. ground (arith, bad, q)) in
            let run : delete_pool kube chrono name s ≡ (n == 404, r.1) =
              unfold delete_pool in ground (arith, bad) in
            rw run (record {
              others = λ m h. same m;
              no_new = λ m h. ground (arith, same m, h);
              gone = λ e.
                  let missing : r.0 ≡ api_error 404 = ground (arith, e, bad) in
                  ground (arith, same name, cluster.delete_missing name s missing);
            })
        | inr (inr bad) ↦
            let same = cluster.delete_failed name s (λ q. ground (arith, bad, q)) in
            let run : delete_pool kube chrono name s ≡ (false, r.1) =
              unfold delete_pool in ground (arith, bad) in
            rw run (record {
              others = λ m h. same m;
              no_new = λ m h. ground (arith, same m, h);
              gone = λ e. ground (arith, e);
            })
      ]
