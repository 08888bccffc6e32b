-- ===== src/Router/Ids.antt =====
-- `resolve_ids` and `validate_id` of dumbarp-routerd/src/reconcile.rs. Instants and durations are
-- numbers of nanoseconds, and `duration_since` stops at 0.
pub mod Claims
pub mod Memory
use dumbarp.Common.{
  ℕ, ◌-◌, Bool, not, ◌&&◌, ◌||◌, String, Option, none, some, List, [], ◌∷◌, ◌==◌, nat_eq, string_eq,
  option_eq, leb, ltb, if◌then◌else◌, Dict, lookup, insert, retain, filter_option,
}
use dumbarp.Wire.{dscp_id_max}

pub record RememberedId : Type 0 where
  pub id : ℕ
  pub seen : ℕ

-- the ids that were claimed, with their owners
unfoldable pub claim : String → ℕ → Option String → Dict ℕ String → Option ℕ × Dict ℕ String
unfolding insert
claim name id none claimed = (some id, insert id name claimed)
claim name id (some owner) claimed = (none, claimed)

unfoldable pub validate_id : String → Option ℕ → Dict ℕ String → Option ℕ × Dict ℕ String
unfolding claim lookup
validate_id name none claimed = (none, claimed)
validate_id name (some id) claimed =
    if id == 0 || not (leb id dscp_id_max)
    then (none, claimed)
    else claim name id (lookup id claimed) claimed

module _ (stale now : ℕ) where
  unfoldable pub is_recent : RememberedId → Bool
  is_recent prev = ltb (now - prev.seen) stale

  -- the id that was advertised, or else the last that was, if it is recent
  unfoldable pub candidate : Option ℕ → Option RememberedId → Option ℕ
  unfolding is_recent
  candidate (some id) prev = some id
  candidate none none = none
  candidate none (some prev) = if is_recent prev then some prev.id else none

  unfoldable pub remember :
      String → Option ℕ → ℕ → Dict String RememberedId → Dict String RememberedId
  unfolding insert
  remember name advertised id remembered =
      if advertised == some id
      then insert name (record { id = id; seen = now }) remembered
      else remembered

  -- the loop over the advertised ids
  unfoldable pub resolve_each :
      List (String × Option ℕ)
      → Dict String RememberedId
      → Dict String ℕ
      → Dict ℕ String
      → Dict String ℕ × Dict String RememberedId
  unfolding validate_id candidate remember
  resolve_each [] remembered out claimed = (out, remembered)
  resolve_each ((name, advertised) ∷ rest) remembered out claimed =
      let (valid, claimed') =
        validate_id name (candidate advertised (lookup name remembered)) claimed in
      elim valid [
        | none ↦ resolve_each rest remembered out claimed'
        | some id ↦
            resolve_each rest (remember name advertised id remembered) (insert name id out) claimed'
      ]

  unfoldable pub resolve_ids :
      List (String × Option ℕ) → Dict String RememberedId → Dict String ℕ × Dict String RememberedId
  unfolding resolve_each retain
  resolve_ids advertised remembered =
      let (out, remembered') = resolve_each advertised remembered [] [] in
      (out, retain (λ (name : String) (prev : RememberedId). is_recent prev) remembered')
