-- ===== src/Routing/TableId.antt =====
-- `table_id_for` of dumbarp-routing/src/lib.rs.
use dumbarp.Common.{ℕ, ◌+◌, ◌%◌, ◌^◌, ◌<◌, ◌≡◌, ◌⊎◌, ◌↔◌, ◌||◌, arith, ◌==◌, nat_eq, if◌then◌else◌}

-- `raw.wrapping_add(0x1_0000)` on the four ids that the kernel reserves
unfoldable pub table_id_for : ℕ → ℕ
table_id_for raw =
    if raw == 0 || raw == 253 || raw == 254 || raw == 255 then (raw + 0x1_0000) % 2 ^ 32 else raw

abbrev pub IsReserved : ℕ → Type 0
IsReserved t = (t ≡ 0) ⊎ (t ≡ 253) ⊎ (t ≡ 254) ⊎ (t ≡ 255)

-- The table of an address is a `u32` and none of the reserved ones. Two addresses have one table
-- only if they are equal, or one of them is 0.0.0.0, 0.0.0.253, 0.0.0.254 or 0.0.0.255 and the
-- other is the same with 1 for its second byte.
pub table_id_for_lem :
    (a b : ℕ)
    → a < 2 ^ 32
    → b < 2 ^ 32
    → (table_id_for a < 2 ^ 32)
      × (¬ IsReserved (table_id_for a))
      × ((table_id_for a ≡ table_id_for b)
          ↔ ((a ≡ b) ⊎ (IsReserved a × (b ≡ a + 65536)) ⊎ (IsReserved b × (a ≡ b + 65536))))
unfolding table_id_for
table_id_for_lem a b ha hb =
    (ground arith, λ r. ground arith, (λ e. ground arith, λ e. ground arith))
