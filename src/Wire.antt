-- ===== src/Wire.antt =====
-- dumbarp-common/src/lib.rs: what the eBPF programs and the daemons share. Words are numbers below
-- 2 ^ 8, 2 ^ 16 or 2 ^ 32, with the wrap-around of each operation written out.
pub mod Keys
pub mod Checksum
pub mod Tos
mod Test
use Prim.Native.Nat.{bit_and, bit_or}
use dumbarp.Common.{ℕ, ◌+◌, ◌-◌, ◌*◌, ◌/◌, ◌%◌, ◌^◌}

abbrev pub dscp_id_max : ℕ
dscp_id_max = 63

abbrev pub ipv4_tos_offset : ℕ
ipv4_tos_offset = 1

abbrev pub ipv4_check_offset : ℕ
ipv4_check_offset = 10

abbrev pub ipproto_tcp : ℕ
ipproto_tcp = 6

abbrev pub ipproto_udp : ℕ
ipproto_udp = 17

-- `!x` of a `u16`
abbrev pub not16 : ℕ → ℕ
not16 x = 2 ^ 16 - 1 - x

-- `(sum & 0xffff) + (sum >> 16)`
unfoldable pub carry : ℕ → ℕ
carry sum = bit_and sum 0xffff + sum / 2 ^ 16

unfoldable pub csum_replace2 : ℕ → ℕ → ℕ → ℕ
csum_replace2 check old new =
    let sum = not16 check + not16 old + new in not16 (carry (carry sum) % 2 ^ 16)

-- `dscp << 2` drops the two high bits of the byte.
unfoldable pub tos_with_dscp : ℕ → ℕ → ℕ
tos_with_dscp tos dscp = bit_or (dscp * 2 ^ 2 % 2 ^ 8) (bit_and tos 0x03)

-- `(hi as u16) << 8 | lo as u16`
unfoldable pub word : ℕ → ℕ → ℕ
word hi lo = bit_or (hi * 2 ^ 8) lo
