-- ===== src/Wire/Checksum.antt =====
-- The incremental update of the header checksum, against the sum over all words that RFC 1071
-- states and that the tests of dumbarp-common recompute.
use dumbarp.Common.{
  ℕ, zero, suc, ◌+◌, ◌-◌, ◌*◌, ◌/◌, ◌%◌, ◌^◌, ◌≤◌, ◌<◌, ◌≡◌, ◌≢◌, List, [], ◌∷◌, arith, ◌==◌, All,
  length, if◌then◌else◌, nat_eq,
}
use dumbarp.Common.Bits.{or-shift, and-mask}
use dumbarp.Wire.{not16, carry, csum_replace2, word}

-- The sum of the 16-bit words of a header; a header has whole words.
unfoldable pub word_sum : List ℕ → ℕ
word_sum (hi ∷ lo ∷ rest) = hi * 2 ^ 8 + lo + word_sum rest
word_sum _ = 0

-- `while sum >> 16 != 0 { sum = (sum & 0xffff) + (sum >> 16) }`
unfoldable pub carry_loop : ℕ → ℕ → ℕ
carry_loop zero sum = sum
carry_loop (suc fuel) sum =
    let rest = carry_loop fuel (carry sum) in if sum / 2 ^ 16 == 0 then sum else rest

unfoldable pub full_checksum : List ℕ → ℕ
unfolding word_sum carry_loop
full_checksum header = not16 (carry_loop 3 (word_sum header) % 2 ^ 16)

carry_lem : (s : ℕ) → carry s ≡ s % 65536 + s / 65536
unfolding carry
carry_lem s = omega (arith, and-mask 16 s)

-- Three rounds end the loop on every `u32`, and leave the residue modulo 2 ^ 16 - 1, with 0 only
-- for the sum 0.
pub carry_loop_lem :
    (s : ℕ)
    → s < 2 ^ 32
    → (carry_loop 3 s < 65536) × (carry_loop 3 s % 65535 ≡ s % 65535) × (s ≢ 0 → carry_loop 3 s ≢ 0)
unfolding carry_loop
carry_loop_lem s h = ground (arith, carry_lem s, carry_lem (carry s), carry_lem (carry (carry s)))

abbrev pub IsByte : ℕ → Type 0
IsByte b = b < 256

pub word_lem : (hi lo : ℕ) → lo < 256 → word hi lo ≡ hi * 256 + lo
unfolding word
word_lem hi lo h = ground (arith, or-shift 8 hi lo)

word_sum-le : (bytes : List ℕ) → All IsByte bytes → word_sum bytes ≤ length bytes * 65535
unfolding word_sum
word_sum-le [] h = omega arith
word_sum-le (b ∷ []) h = omega arith
word_sum-le (hi ∷ lo ∷ rest) h = omega (arith, word_sum-le rest h.1.1)

-- The folded sum of three words is below 2 ^ 16 after two carries, and is 0 only for the sum 0.
carry_twice :
    (s : ℕ)
    → s ≤ 3 * 65535
    → (carry (carry s) < 65536)
      × (carry (carry s) % 65535 ≡ s % 65535)
      × (s ≢ 0 → carry (carry s) ≢ 0)
carry_twice s h = ground (arith, carry_lem s, carry_lem (carry s))

-- For a header of at most 60 bytes whose first byte (the IP version and header length) is not 0:
-- when its TOS byte changes, updating the stored checksum gives the checksum of the new header.
pub csum_replace2-full_checksum :
    (vihl tos tos' : ℕ) (rest : List ℕ)
    → vihl < 256
    → vihl ≢ 0
    → tos < 256
    → tos' < 256
    → All IsByte rest
    → length rest ≤ 58
    → csum_replace2 (full_checksum (vihl ∷ tos ∷ rest)) (word vihl tos) (word vihl tos')
      ≡ full_checksum (vihl ∷ tos' ∷ rest)
unfolding csum_replace2 full_checksum
csum_replace2-full_checksum vihl tos tos' rest hv nz ht ht' bytes short =
    let old = vihl * 256 + tos in
    let new = vihl * 256 + tos' in
    let w = word_sum rest in
    let l = carry_loop 3 (old + w) in
    ground (
      arith,
      word_lem vihl tos ht,
      word_lem vihl tos' ht',
      word_sum-le rest bytes,
      carry_loop_lem (old + w),
      carry_loop_lem (new + w),
      carry_twice (l + (65535 - old) + new),
    )
