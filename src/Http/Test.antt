-- ===== src/Http/Test.antt =====
-- Runs of the token check of dumbarp-daemon/src/http.rs, and its theorems there.
use dumbarp.Common.{ℕ, ◌≡◌, ◌↔◌, refl, true, false, Option, some, List, [], ◌∷◌, ◌++◌, arith}
use dumbarp.Http.{bearer, auth_layer}
use dumbarp.Http.Token.{auth_layer_lem}

abbrev secret : List ℕ
secret = 115 ∷ 51 ∷ 99 ∷ []

refused : auth_layer secret (some (bearer ++ 115 ∷ 51 ∷ 98 ∷ [])) ≡ false
unfolding auth_layer
refused = refl

auth_layer_lem_example :
    (auth_layer secret (some (bearer ++ secret)) ≡ true)
    ↔ (◌≡◌ {A = Option (List ℕ)} (some (bearer ++ secret)) (some (bearer ++ secret)))
auth_layer_lem_example = auth_layer_lem secret (some (bearer ++ secret)) (ground arith)
