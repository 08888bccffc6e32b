-- ===== src/Wire/Tos.antt =====
-- `tos_with_dscp`: the DSCP is replaced, and the two ECN bits stay.
use dumbarp.Common.{ℕ, ◌+◌, ◌*◌, ◌/◌, ◌%◌, ◌≤◌, ◌<◌, ◌≡◌, arith}
use dumbarp.Common.Bits.{or-shift, and-mask}
use dumbarp.Wire.{dscp_id_max, tos_with_dscp}

pub tos_with_dscp_lem : (tos d : ℕ) → tos_with_dscp tos d ≡ d % 64 * 4 + tos % 4
unfolding tos_with_dscp
tos_with_dscp_lem tos d = ground (arith, and-mask 2 tos, or-shift 2 (d % 64) (tos % 4))

-- For a 6-bit DSCP value: the new byte is a byte, carries that value above the old ECN bits, and
-- writing the old DSCP back gives the old byte.
pub tos_with_dscp_fields :
    (tos d : ℕ)
    → tos < 256
    → d ≤ dscp_id_max
    → (tos_with_dscp tos d < 256)
      × (tos_with_dscp tos d / 4 ≡ d)
      × (tos_with_dscp tos d % 4 ≡ tos % 4)
      × (tos_with_dscp (tos_with_dscp tos d) (tos / 4) ≡ tos)
tos_with_dscp_fields tos d ht hd =
    ground (arith, tos_with_dscp_lem tos d, tos_with_dscp_lem (tos_with_dscp tos d) (tos / 4))
