-- ===== src/Wire/Test.antt =====
-- Runs of dumbarp-common/src/lib.rs, and its theorems at concrete inputs.
use dumbarp.Common.{◌≡◌, refl, List, [], ◌∷◌, ℕ, arith}
use dumbarp.Wire.{csum_replace2, tos_with_dscp, word, carry}
use dumbarp.Wire.Checksum.{full_checksum, csum_replace2-full_checksum}

-- `sample_header`, from its third byte on and with no checksum
abbrev sample : List ℕ
sample =
    5 ∷ 220 ∷ 171 ∷ 205 ∷ 64 ∷ 0 ∷ 64 ∷ 6 ∷ 0 ∷ 0 ∷ 203 ∷ 0 ∷ 113 ∷ 7 ∷ 110 ∷ 110 ∷ 110 ∷ 110 ∷ []

replaces_only_the_dscp_bits :
    (tos_with_dscp 255 0 ≡ 3) × (tos_with_dscp 2 63 ≡ 254) × (tos_with_dscp 0 7 ≡ 28)
unfolding tos_with_dscp
replaces_only_the_dscp_bits = (refl, refl, refl)

incremental_runs :
    csum_replace2 (full_checksum (69 ∷ 28 ∷ sample)) (word 69 28) (word 69 0)
    ≡ full_checksum (69 ∷ 0 ∷ sample)
unfolding csum_replace2 carry full_checksum word
incremental_runs = refl

csum_replace2-full_checksum_example :
    csum_replace2 (full_checksum (69 ∷ 28 ∷ sample)) (word 69 28) (word 69 0)
    ≡ full_checksum (69 ∷ 0 ∷ sample)
csum_replace2-full_checksum_example =
    csum_replace2-full_checksum 69 28 0 sample (omega arith) (omega arith) (omega arith)
      (omega arith) (omega arith) (omega arith)
