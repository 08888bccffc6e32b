-- ===== src/Router/Ids/Memory.antt =====
-- What `resolve_ids` of dumbarp-routerd/src/reconcile.rs remembers, and who is given an id.
use dumbarp.Common.{
  ℕ, ◌-◌, ◌<◌, ◌≤◌, ◌≡◌, ◌≢◌, refl, ap, ◌⊎◌, inl, inr, String, Option, none, some, List, [], ◌∷◌,
  ◌==◌, nat_eq, string_eq, option_eq, option_beq_iff, false, arith, Option-cases, Bool-cases,
  contains, NoRepeat, Dict, lookup, insert, keys, lookup-insert, lookup-eq-none, lookup-retain,
}
use dumbarp.Router.Ids.{RememberedId, is_recent, candidate, remember, resolve_each, resolve_ids}
use dumbarp.Router.Ids.Claims.{
  validate_id-cases, resolve_each-refused, resolve_each-claimed, lookup-remember,
}

module _ (stale now : ℕ) where
  resolve_each-remembered :
      (advertised : List (String × Option ℕ)) (remembered : Dict String RememberedId)
      (out : Dict String ℕ) (claimed : Dict ℕ String) (k : String) (prev : RememberedId)
      → NoRepeat (keys advertised)
      → lookup k (resolve_each stale now advertised remembered out claimed).1 ≡ some prev
      → (lookup k remembered ≡ some prev)
        ⊎ ((prev.seen ≡ now) × (lookup k advertised ≡ some (some prev.id)))
  unfolding lookup
  resolve_each-remembered [] remembered out claimed k prev once e = inl (unfold resolve_each in e)
  resolve_each-remembered ((name, adv) ∷ rest) remembered out claimed k prev once e =
      elim (validate_id-cases name (candidate stale now adv (lookup name remembered)) claimed) [
        | inl (refused, why) ↦ ground (
          arith,
          resolve_each-refused stale now name adv rest remembered out claimed refused,
          string_eq.equal_iff name k,
          lookup-eq-none name rest,
          resolve_each-remembered rest remembered out claimed k prev once.1,
        )
        | inr (i, v) ↦
            let later =
              resolve_each-remembered rest (remember stale now name adv i remembered)
                (insert name i out) (insert i name claimed) k prev once.1
                (rw (← resolve_each-claimed stale now name adv rest remembered out claimed i v.out)
                  e) in
            ground (
              arith,
              later,
              string_eq.equal_iff name k,
              lookup-eq-none name rest,
              option_beq_iff adv (some i),
              lookup-remember stale now name k adv i remembered,
            )
      ]

  -- If no source advertises twice: what is remembered after a pass is recent, and it is either what
  -- was remembered before, with the time at which it was seen, or an id that the source advertised in
  -- this pass.
  pub resolve_ids-remembered :
      (advertised : List (String × Option ℕ)) (remembered : Dict String RememberedId) (k : String)
      (prev : RememberedId)
      → NoRepeat (keys advertised)
      → lookup k (resolve_ids stale now advertised remembered).1 ≡ some prev
      → (now - prev.seen < stale)
        × ((lookup k remembered ≡ some prev)
            ⊎ ((prev.seen ≡ now) × (lookup k advertised ≡ some (some prev.id))))
  unfolding resolve_ids is_recent
  resolve_ids-remembered advertised remembered k prev once e =
      let each = resolve_each stale now advertised remembered [] [] in
      let kept =
        lookup-retain (λ (name : String) (p : RememberedId). is_recent stale now p) k each.1 in
      elim (Option-cases (lookup k each.1)) [
        | inl gone ↦ absurd (ground (arith, kept))
        | inr (p, found) ↦
            let same : p ≡ prev = ground (arith, kept) in
            (
              ground (arith, kept),
              resolve_each-remembered advertised remembered [] [] k prev once
                  (rw found (ap some same)),
            )
      ]

  -- A source that does not advertise keeps the id that it was given.
  resolve_each-kept :
      (advertised : List (String × Option ℕ)) (remembered : Dict String RememberedId)
      (out : Dict String ℕ) (claimed : Dict ℕ String) (k : String)
      → contains (keys advertised) k ≡ false
      → lookup k (resolve_each stale now advertised remembered out claimed).0 ≡ lookup k out
  unfolding lookup
  resolve_each-kept [] remembered out claimed k h = unfold resolve_each in refl
  resolve_each-kept ((name, adv) ∷ rest) remembered out claimed k h =
      elim (validate_id-cases name (candidate stale now adv (lookup name remembered)) claimed) [
        | inl (refused, why) ↦ ground (
          arith,
          resolve_each-refused stale now name adv rest remembered out claimed refused,
          resolve_each-kept rest remembered out claimed k,
        )
        | inr (i, v) ↦ ground (
          arith,
          string_eq.equal_iff name k,
          string_eq.equal_iff k name,
          resolve_each-claimed stale now name adv rest remembered out claimed i v.out,
          lookup-insert name k i out,
          resolve_each-kept rest (remember stale now name adv i remembered) (insert name i out)
              (insert i name claimed) k,
        )
      ]

  -- No other source has a claim to the id.
  abbrev pub IsAlone : List (String × Option ℕ) → Dict String RememberedId → String → ℕ → Type 0
  IsAlone advertised remembered k id =
      (j : String) (adv : Option ℕ)
      → j ≢ k
      → lookup j advertised ≡ some adv
      → candidate stale now adv (lookup j remembered) ≢ some id

  IsAlone-rest :
      (name : String) (adv : Option ℕ) (rest : List (String × Option ℕ))
      (remembered : Dict String RememberedId) (k : String) (id : ℕ)
      → contains (keys rest) name ≡ false
      → IsAlone ((name, adv) ∷ rest) remembered k id
      → (i : ℕ) → IsAlone rest (remember stale now name adv i remembered) k id
  unfolding lookup
  IsAlone-rest name adv rest remembered k id once h i j adv' other asked e = ground (
    arith,
    h j adv' other,
    string_eq.equal_iff name j,
    lookup-eq-none name rest,
    lookup-remember stale now name j adv i remembered,
  )

  IsAlone-tail :
      (name : String) (adv : Option ℕ) (rest : List (String × Option ℕ))
      (remembered : Dict String RememberedId) (k : String) (id : ℕ)
      → contains (keys rest) name ≡ false
      → IsAlone ((name, adv) ∷ rest) remembered k id
      → IsAlone rest remembered k id
  unfolding lookup
  IsAlone-tail name adv rest remembered k id once h j adv' other asked e =
      ground (arith, h j adv' other, string_eq.equal_iff name j, lookup-eq-none name rest)

  resolve_each-alone :
      (advertised : List (String × Option ℕ)) (remembered : Dict String RememberedId)
      (out : Dict String ℕ) (claimed : Dict ℕ String) (k : String) (id : ℕ)
      → NoRepeat (keys advertised)
      → lookup k advertised ≡ some (some id)
      → 1 ≤ id
      → id ≤ 63
      → lookup id claimed ≡ none
      → IsAlone advertised remembered k id
      → lookup k (resolve_each stale now advertised remembered out claimed).0 ≡ some id
  unfolding lookup candidate
  resolve_each-alone [] remembered out claimed k id once asked lo hi free alone = absurd (cc)
  resolve_each-alone ((name, adv) ∷ rest) remembered out claimed k id once asked lo hi free alone =
      elim (validate_id-cases name (candidate stale now adv (lookup name remembered)) claimed) [
        | inl (refused, why) ↦ elim (Bool-cases (name == k)) [
          | inl here ↦ absurd (ground (arith, why id))
          | inr other ↦
              rw (resolve_each-refused stale now name adv rest remembered out claimed refused) (
                resolve_each-alone rest remembered out claimed k id once.1 (ground arith) lo hi free
                  (IsAlone-tail name adv rest remembered k id once.0 alone))
        ]
        | inr (i, v) ↦
            let rest_remembered = remember stale now name adv i remembered in
            let turn =
              resolve_each-claimed stale now name adv rest remembered out claimed i v.out in
            elim (Bool-cases (name == k)) [
              | inl here ↦
                  let same : name ≡ k = ground (arith, string_eq.equal_iff name k) in
                  let mine : i ≡ id = ground (arith, v.asked) in
                  rw turn (
                    ground (
                      arith,
                      lookup-insert name k i out,
                      resolve_each-kept rest rest_remembered (insert name i out)
                          (insert i name claimed) k,
                      once.0,
                    ))
              | inr other ↦
                  let away : name ≢ k = ground (arith, string_eq.equal_iff name k) in
                  let theirs : i ≢ id = λ e.
                    alone name adv away (ground (arith, string_eq.equal_iff name name))
                      (rw (← e) v.asked) in
                  rw turn (
                    resolve_each-alone rest rest_remembered (insert name i out)
                      (insert i name claimed) k id once.1 (ground arith) lo hi
                      (ground (arith, lookup-insert i id name claimed))
                      (IsAlone-rest name adv rest remembered k id once.0 alone i))
            ]
      ]

  -- If no source advertises twice: a source that advertises an id from 1 to 63 is given it if no
  -- other source advertises it or is remembered with it and advertises none.
  pub resolve_ids-IsAlone :
      (advertised : List (String × Option ℕ)) (remembered : Dict String RememberedId) (k : String)
      (id : ℕ)
      → NoRepeat (keys advertised)
      → lookup k advertised ≡ some (some id)
      → 1 ≤ id
      → id ≤ 63
      → IsAlone advertised remembered k id
      → lookup k (resolve_ids stale now advertised remembered).0 ≡ some id
  unfolding resolve_ids
  resolve_ids-IsAlone advertised remembered k id once asked lo hi alone =
      resolve_each-alone advertised remembered [] [] k id once asked lo hi (unfold lookup in refl)
        alone
