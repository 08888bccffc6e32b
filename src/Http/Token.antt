-- ===== src/Http/Token.antt =====
-- Which requests dumbarp-daemon/src/http.rs and dumbarp-gateway/src/http.rs let through.
use Prim.Native.Nat.{bit_or, bit_xor}
use dumbarp.Common.{
  ℕ, ◌≡◌, ◌↔◌, refl, ap, ◌∙◌, inl, inr, true, Option, none, some, List, [], ◌∷◌, ◌++◌, nat_eq,
  arith, length, All, Option-cases,
}
use dumbarp.Common.Xor.{xor-eq-zero, or-eq-zero}
use dumbarp.Http.{
  bearer, is_visible, to_str, strip_prefix, differences, constant_time_eq, auth_layer,
}

differences-eq-zero :
    (diff : ℕ) (a b : List ℕ)
    → length a ≡ length b
    → (differences diff a b ≡ 0) ↔ ((diff ≡ 0) × (a ≡ b))
unfolding differences
differences-eq-zero diff [] [] h = ground arith
differences-eq-zero diff [] (y ∷ b) h = absurd (omega arith)
differences-eq-zero diff (x ∷ a) [] h = absurd (omega arith)
differences-eq-zero diff (x ∷ a) (y ∷ b) h = ground (
  arith,
  differences-eq-zero (bit_or diff (bit_xor x y)) a b,
  or-eq-zero diff (bit_xor x y),
  xor-eq-zero x y,
)

-- `constant_time_eq` says whether its two arguments are equal, whatever their lengths.
pub constant_time_eq_lem : (a b : List ℕ) → (constant_time_eq a b ≡ true) ↔ (a ≡ b)
unfolding constant_time_eq
constant_time_eq_lem a b = (
  λ e. ground (arith, differences-eq-zero 0 a b),
  λ e. ground (arith, differences-eq-zero 0 a b, ap length e),
)

to_str_lem : (s t : List ℕ) → (to_str s ≡ some t) ↔ ((s ≡ t) × All (λ b. is_visible b ≡ true) s)
unfolding to_str
to_str_lem [] t = ground arith
to_str_lem (b ∷ s) t = elim (Option-cases (to_str s)) [
  | inl gone ↦ (
    λ e. ground (arith, gone),
    λ (e, v). absurd (ground (arith, (to_str_lem s s).1 (refl, v.1), gone)),
  )
  | inr (u, e) ↦
      let (same, visible) = (to_str_lem s u).0 e in
      (λ q. ground (arith, e, same, visible), λ q. ground (arith, e, same, visible))
]

strip_prefix_lem : (p s t : List ℕ) → (strip_prefix p s ≡ some t) ↔ (s ≡ p ++ t)
unfolding strip_prefix
strip_prefix_lem [] s t = ground arith
strip_prefix_lem (x ∷ p) [] t = ground arith
strip_prefix_lem (x ∷ p) (b ∷ s) t = ground (arith, strip_prefix_lem p s t)

All-visible-append :
    (p t : List ℕ)
    → All (λ b. is_visible b ≡ true) (p ++ t)
      ↔ (All (λ b. is_visible b ≡ true) p × All (λ b. is_visible b ≡ true) t)
All-visible-append [] t = ground arith
All-visible-append (b ∷ p) t = ground (arith, All-visible-append p t)

-- If the token is visible ASCII, a request goes on exactly if its header is "Bearer " and the token.
pub auth_layer_lem :
    (auth_token : List ℕ) (header : Option (List ℕ))
    → All (λ b. is_visible b ≡ true) auth_token
    → (auth_layer auth_token header ≡ true) ↔ (header ≡ some (bearer ++ auth_token))
unfolding auth_layer
auth_layer_lem auth_token none visible = ground arith
auth_layer_lem auth_token (some header) visible = (
  λ e. elim (Option-cases (to_str header)) [
    | inl gone ↦ absurd (ground (arith, gone))
    | inr (value, has_value) ↦ elim (Option-cases (strip_prefix bearer value)) [
      | inl none_left ↦ absurd (ground (arith, has_value, none_left))
      | inr (token, has_token) ↦
          let same = (to_str_lem header value).0 has_value in
          let split = (strip_prefix_lem bearer value token).0 has_token in
          let equal : constant_time_eq token auth_token ≡ true =
            ground (arith, e, has_value, has_token) in
          ap some (
            same.0
            ∙ split
            ∙ ap (λ (t : List ℕ). bearer ++ t) ((constant_time_eq_lem token auth_token).0 equal))
    ]
  ],
  λ e.
      let same : header ≡ bearer ++ auth_token = ground (arith, e) in
      let all : All (λ b. is_visible b ≡ true) (bearer ++ auth_token) =
        (All-visible-append bearer auth_token).1 (ground arith, visible) in
      let has_value = (to_str_lem (bearer ++ auth_token) (bearer ++ auth_token)).1 (refl, all) in
      let has_token = (strip_prefix_lem bearer (bearer ++ auth_token) auth_token).1 refl in
      let equal = (constant_time_eq_lem auth_token auth_token).1 refl in
      rw same (ground (arith, has_value, has_token, equal)),
)
