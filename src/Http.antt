-- ===== src/Http.antt =====
-- The token check of dumbarp-daemon/src/http.rs and dumbarp-gateway/src/http.rs, which are the same.
-- A header value and a token are their bytes.
pub mod Token
mod Test
use Prim.Native.Nat.{bit_or, bit_xor}
use dumbarp.Common.{
  ℕ, Bool, true, false, not, ◌&&◌, ◌||◌, Option, none, some, List, [], ◌∷◌, ◌==◌, nat_eq, leb,
  if◌then◌else◌, length,
}

-- "Bearer "
abbrev pub bearer : List ℕ
bearer = 66 ∷ 101 ∷ 97 ∷ 114 ∷ 101 ∷ 114 ∷ 32 ∷ []

-- `HeaderValue::to_str`: visible ASCII, spaces and tabs
abbrev pub is_visible : ℕ → Bool
is_visible b = (leb 32 b && leb b 126) || b == 9

unfoldable pub to_str : List ℕ → Option (List ℕ)
to_str [] = some []
to_str (b ∷ bytes) =
    let rest = to_str bytes in
    if is_visible b then elim rest [ none ↦ none | some s ↦ some (b ∷ s) ] else none

unfoldable pub strip_prefix : List ℕ → List ℕ → Option (List ℕ)
strip_prefix [] s = some s
strip_prefix (p ∷ ps) [] = none
strip_prefix (p ∷ ps) (b ∷ s) = let rest = strip_prefix ps s in if p == b then rest else none

-- the loop over the two slices
unfoldable pub differences : ℕ → List ℕ → List ℕ → ℕ
differences diff (x ∷ a) (y ∷ b) = differences (bit_or diff (bit_xor x y)) a b
differences diff [] b = diff
differences diff (x ∷ a) [] = diff

unfoldable pub constant_time_eq : List ℕ → List ℕ → Bool
unfolding differences
constant_time_eq a b = if not (length a == length b) then false else differences 0 a b == 0

-- Whether a request goes on to its handler: false is the answer 401.
unfoldable pub auth_layer : List ℕ → Option (List ℕ) → Bool
unfolding to_str strip_prefix constant_time_eq
auth_layer auth_token none = false
auth_layer auth_token (some header) = elim (to_str header) [
  | none ↦ false
  | some value ↦ elim (strip_prefix bearer value) [
    | none ↦ false
    | some token ↦ constant_time_eq token auth_token
  ]
]
