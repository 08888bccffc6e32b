-- ===== src/Router/Ids/Claims.antt =====
-- Which ids `resolve_ids` of dumbarp-routerd/src/reconcile.rs gives out.
use dumbarp.Common.{
  ℕ, ◌≤◌, ◌≡◌, ◌≢◌, refl, ◌⊎◌, inl, inr, String, Option, none, some, List, [], ◌∷◌, ◌==◌, nat_eq,
  string_eq, option_eq, leb, not, ◌||◌, ◌&&◌, arith, if◌then◌else◌, Option-cases, Bool-cases,
  NoRepeat, Dict, lookup, insert, keys, NoRepeat-insert, lookup-insert, lookup-eq-none,
}
use dumbarp.Router.Ids.{
  RememberedId, claim, validate_id, candidate, remember, resolve_each, resolve_ids,
}

-- An id that is valid is one that can be a DSCP tag, was claimed by nobody, and is so now.
pub record Claims (name : String) (c : Option ℕ) (claimed : Dict ℕ String) (id : ℕ) : Type 0 where
  pub asked : c ≡ some id
  pub positive : 1 ≤ id
  pub id_max : id ≤ 63
  pub free : lookup id claimed ≡ none
  pub out : validate_id name c claimed ≡ (some id, insert id name claimed)

pub validate_id-cases :
    (name : String) (c : Option ℕ) (claimed : Dict ℕ String)
    → ((validate_id name c claimed ≡ (none, claimed))
        × ((id : ℕ) → c ≡ some id → 1 ≤ id → id ≤ 63 → lookup id claimed ≢ none))
      ⊎ ((id : ℕ) × Claims name c claimed id)
unfolding validate_id claim
validate_id-cases name none claimed = inl (refl, λ id e. ground arith)
validate_id-cases name (some id) claimed = elim (Bool-cases (id == 0 || not (leb id 63))) [
  | inl bad ↦ inl (ground arith, λ j e lo hi. ground arith)
  | inr good ↦ elim (Option-cases (lookup id claimed)) [
    | inr (owner, e) ↦ inl (ground arith, λ j q lo hi f. ground arith)
    | inl e ↦ inr (
      id,
      record {
        asked = refl;
        positive = ground arith;
        id_max = ground arith;
        free = e;
        out = ground arith;
      },
    )
  ]
]

module _ (stale now : ℕ) where
  -- The ids that were given out are tags, each claimed by the source that it was given to.
  IsClaimed : Dict String ℕ → Dict ℕ String → Type 0
  IsClaimed out claimed =
      (name : String) (id : ℕ)
      → lookup name out ≡ some id
      → (1 ≤ id) × (id ≤ 63) × (lookup id claimed ≡ some name)

  IsClaimed-insert :
      (name : String) (id : ℕ) (out : Dict String ℕ) (claimed : Dict ℕ String)
      → 1 ≤ id
      → id ≤ 63
      → lookup id claimed ≡ none
      → IsClaimed out claimed
      → IsClaimed (insert name id out) (insert id name claimed)
  unfolding IsClaimed
  IsClaimed-insert name id out claimed lo hi free h k j e = ground (
    arith,
    h k j,
    string_eq.equal_iff name k,
    lookup-insert name k id out,
    lookup-insert id j name claimed,
  )

  -- one turn of the loop
  pub resolve_each-refused :
      (name : String) (adv : Option ℕ) (rest : List (String × Option ℕ))
      (remembered : Dict String RememberedId) (out : Dict String ℕ) (claimed : Dict ℕ String)
      → validate_id name (candidate stale now adv (lookup name remembered)) claimed
        ≡ (none, claimed)
      → resolve_each stale now ((name, adv) ∷ rest) remembered out claimed
        ≡ resolve_each stale now rest remembered out claimed
  unfolding resolve_each
  resolve_each-refused name adv rest remembered out claimed e = ground (arith, e)

  pub resolve_each-claimed :
      (name : String) (adv : Option ℕ) (rest : List (String × Option ℕ))
      (remembered : Dict String RememberedId) (out : Dict String ℕ) (claimed : Dict ℕ String)
      (id : ℕ)
      → validate_id name (candidate stale now adv (lookup name remembered)) claimed
        ≡ (some id, insert id name claimed)
      → resolve_each stale now ((name, adv) ∷ rest) remembered out claimed
        ≡ resolve_each stale now rest
            (remember stale now name adv id remembered)
            (insert name id out)
            (insert id name claimed)
  unfolding resolve_each
  resolve_each-claimed name adv rest remembered out claimed id e = ground (arith, e)

  resolve_each-IsClaimed :
      (advertised : List (String × Option ℕ)) (remembered : Dict String RememberedId)
      (out : Dict String ℕ) (claimed : Dict ℕ String)
      → IsClaimed out claimed
      → (claimed' : Dict ℕ String) × IsClaimed
          (resolve_each stale now advertised remembered out claimed).0
          claimed'
  resolve_each-IsClaimed [] remembered out claimed h = (claimed, unfold resolve_each in h)
  resolve_each-IsClaimed ((name, adv) ∷ rest) remembered out claimed h =
      let c = candidate stale now adv (lookup name remembered) in
      elim (validate_id-cases name c claimed) [
        | inl (refused, why) ↦
            rw (resolve_each-refused name adv rest remembered out claimed refused)
              (resolve_each-IsClaimed rest remembered out claimed h)
        | inr (id, v) ↦ rw (resolve_each-claimed name adv rest remembered out claimed id v.out) (
            resolve_each-IsClaimed rest (remember stale now name adv id remembered)
              (insert name id out) (insert id name claimed)
              (IsClaimed-insert name id out claimed v.positive v.id_max v.free h))
      ]

  -- Every id that is given out is a DSCP tag, that is, from 1 to 63, and no two sources have one id.
  pub resolve_ids_lem :
      (advertised : List (String × Option ℕ)) (remembered : Dict String RememberedId) (a b : String)
      (i j : ℕ)
      → lookup a (resolve_ids stale now advertised remembered).0 ≡ some i
      → lookup b (resolve_ids stale now advertised remembered).0 ≡ some j
      → (1 ≤ i) × (i ≤ 63) × (i ≡ j → a ≡ b)
  unfolding resolve_ids lookup IsClaimed
  resolve_ids_lem advertised remembered a b i j ha hb =
      let (claimed, h) =
        resolve_each-IsClaimed advertised remembered [] [] (λ name id e. ground arith) in
      let (lo, hi, owner) = h a i ha in
      let (lo', hi', owner') = h b j hb in (lo, hi, λ e. ground arith)

  pub lookup-remember :
      (name k : String) (adv : Option ℕ) (id : ℕ) (remembered : Dict String RememberedId)
      → lookup k (remember stale now name adv id remembered) ≡ (
          if name == k && adv == some id
          then some (record { id = id; seen = now })
          else lookup k remembered)
  unfolding remember
  lookup-remember name k adv id remembered =
      ground (arith, lookup-insert name k (record { id = id; seen = now }) remembered)

  -- An id that is given out was advertised, or comes from what is remembered.
  pub resolve_each-given :
      (advertised : List (String × Option ℕ)) (remembered : Dict String RememberedId)
      (out : Dict String ℕ) (claimed : Dict ℕ String) (k : String) (id : ℕ)
      → NoRepeat (keys advertised)
      → lookup k (resolve_each stale now advertised remembered out claimed).0 ≡ some id
      → (lookup k out ≡ some id)
        ⊎ ((adv : Option ℕ) × (lookup k advertised ≡ some adv)
            × (candidate stale now adv (lookup k remembered) ≡ some id))
  unfolding lookup
  resolve_each-given [] remembered out claimed k id once e = inl (unfold resolve_each in e)
  resolve_each-given ((name, adv) ∷ rest) remembered out claimed k id once e =
      let c = candidate stale now adv (lookup name remembered) in
      elim (validate_id-cases name c claimed) [
        | inl (refused, why) ↦ ground (
          arith,
          resolve_each-refused name adv rest remembered out claimed refused,
          string_eq.equal_iff name k,
          lookup-eq-none name rest,
          resolve_each-given rest remembered out claimed k id once.1,
        )
        | inr (i, v) ↦
            let rest_given =
              resolve_each-given rest (remember stale now name adv i remembered) (insert name i out)
                (insert i name claimed) k id once.1
                (rw (← resolve_each-claimed name adv rest remembered out claimed i v.out) e) in
            elim (Bool-cases (name == k)) [
              | inr other ↦ ground (
                arith,
                rest_given,
                lookup-insert name k i out,
                lookup-remember name k adv i remembered,
              )
              | inl here ↦
                  let same : name ≡ k = ground (arith, string_eq.equal_iff name k) in
                  let no_more : lookup k rest ≡ none =
                    rw (← same) (lookup-eq-none name rest once.0) in
                  let mine : i ≡ id = ground (arith, rest_given, lookup-insert name k i out) in
                  inr (adv, ground arith, rw (← same, ← mine) v.asked)
            ]
      ]

  -- If no source advertises twice: an id that is given out is the one that its source advertised, or
  -- if it advertised none the one that is remembered of it and is recent.
  pub resolve_ids-candidate :
      (advertised : List (String × Option ℕ)) (remembered : Dict String RememberedId) (k : String)
      (id : ℕ)
      → NoRepeat (keys advertised)
      → lookup k (resolve_ids stale now advertised remembered).0 ≡ some id
      → (adv : Option ℕ) × (lookup k advertised ≡ some adv)
        × (candidate stale now adv (lookup k remembered) ≡ some id)
  unfolding resolve_ids lookup
  resolve_ids-candidate advertised remembered k id once e =
      elim (resolve_each-given advertised remembered [] [] k id once e) [
        | inl nothing ↦ absurd (ground arith)
        | inr given ↦ given
      ]

  resolve_each-NoRepeat :
      (advertised : List (String × Option ℕ)) (remembered : Dict String RememberedId)
      (out : Dict String ℕ) (claimed : Dict ℕ String)
      → NoRepeat (keys out)
      → NoRepeat (keys (resolve_each stale now advertised remembered out claimed).0)
  resolve_each-NoRepeat [] remembered out claimed h = unfold resolve_each in h
  resolve_each-NoRepeat ((name, adv) ∷ rest) remembered out claimed h =
      elim (validate_id-cases name (candidate stale now adv (lookup name remembered)) claimed) [
        | inl (refused, why) ↦
            rw (resolve_each-refused name adv rest remembered out claimed refused)
              (resolve_each-NoRepeat rest remembered out claimed h)
        | inr (id, v) ↦ rw (resolve_each-claimed name adv rest remembered out claimed id v.out) (
            resolve_each-NoRepeat rest (remember stale now name adv id remembered)
              (insert name id out) (insert id name claimed) (NoRepeat-insert name id out h))
      ]

  pub resolve_ids-NoRepeat :
      (advertised : List (String × Option ℕ)) (remembered : Dict String RememberedId)
      → NoRepeat (keys (resolve_ids stale now advertised remembered).0)
  unfolding resolve_ids
  resolve_ids-NoRepeat advertised remembered = resolve_each-NoRepeat advertised remembered [] [] tt
