-- ===== src/Text/Mac.antt =====
-- MAC addresses as text: `parse_mac` of dumbarp/src/lib.rs, which dumbarp-daemon/src/neigh.rs has
-- again, and the text that `set_permanent_neigh` of dumbarp-daemon/src/neigh.rs hands to `ip`.
use dumbarp.Common.{
  ℕ, ◌+◌, ◌*◌, ◌/◌, ◌%◌, ◌<◌, ◌≡◌, false, Option, none, some, List, [], ◌∷◌, ◌++◌, ◌==◌, nat_eq,
  ltb, if◌then◌else◌, arith, All,
}
use mathlib.Core.List.{append-nil}
use dumbarp.Ebpf.{Mac}
use dumbarp.Text.{Text, ◌>>=◌, ◌>>◌, guard, split, cut-append, hex_value}

-- `u8::from_str_radix` in base 16: one plus sign may stand in front
abbrev pub hex_digits : ℕ → Text → Option ℕ
hex_digits acc [] = some acc
hex_digits acc (c ∷ s) = do
  d ← hex_value c
  guard (ltb (acc * 16 + d) 256)
  hex_digits (acc * 16 + d) s

unfoldable pub from_hex : Text → Option ℕ
from_hex [] = none
from_hex (c ∷ []) = hex_digits 0 (c ∷ [])
from_hex (c ∷ d ∷ s) = if c == 43 then hex_digits 0 (d ∷ s) else hex_digits 0 (c ∷ d ∷ s)

-- exactly six parts, each of them an octet
unfoldable pub octets : List Text → Option Mac
octets (p0 ∷ p1 ∷ p2 ∷ p3 ∷ p4 ∷ p5 ∷ []) = do
  m0 ← from_hex p0
  m1 ← from_hex p1
  m2 ← from_hex p2
  m3 ← from_hex p3
  m4 ← from_hex p4
  m5 ← from_hex p5
  some (record { m0 = m0; m1 = m1; m2 = m2; m3 = m3; m4 = m4; m5 = m5 })
octets _ = none

unfoldable pub parse_mac : Text → Option Mac
parse_mac s = octets (split 58 s)

abbrev hex_char : ℕ → ℕ
hex_char d = if ltb d 10 then 48 + d else 87 + d

-- `{:02x}`
unfoldable pub show_hex : ℕ → Text
show_hex n = hex_char (n / 16) ∷ hex_char (n % 16) ∷ []

unfoldable pub show_mac : Mac → Text
show_mac m =
    show_hex m.m0
    ++ (58
        ∷ (show_hex m.m1
            ++ (58
                ∷ (show_hex m.m2
                    ++ (58 ∷ (show_hex m.m3 ++ (58 ∷ (show_hex m.m4 ++ (58 ∷ show_hex m.m5)))))))))

pub record IsMac (m : Mac) : Type 0 where
  pub m0_byte : m.m0 < 256
  pub m1_byte : m.m1 < 256
  pub m2_byte : m.m2 < 256
  pub m3_byte : m.m3 < 256
  pub m4_byte : m.m4 < 256
  pub m5_byte : m.m5 < 256

hex_value-hex_char : (d : ℕ) → d < 16 → hex_value (hex_char d) ≡ some d
unfolding hex_value
hex_value-hex_char d h = ground arith

from_hex-show_hex : (n : ℕ) → n < 256 → from_hex (show_hex n) ≡ some n
unfolding from_hex show_hex
from_hex-show_hex n h = ground (arith, hex_value-hex_char (n / 16), hex_value-hex_char (n % 16))

-- a separator never stands in an octet, and neither does white space
show_hex_parts : (n : ℕ) → n < 256 → All (λ (c : ℕ). (c == 58) ≡ false) (show_hex n)
unfolding show_hex
show_hex_parts n h = ground arith

split-show_hex :
    (n : ℕ) (rest : Text)
    → n < 256
    → split 58 (show_hex n ++ (58 ∷ rest)) ≡ show_hex n ∷ split 58 rest
split-show_hex n rest h =
    rw (cut-append 58 (show_hex n) (58 ∷ rest) (show_hex_parts n h), append-nil (show_hex n))

split-show_hex_last : (n : ℕ) → n < 256 → split 58 (show_hex n) ≡ show_hex n ∷ []
unfolding show_hex
split-show_hex_last n h = ground arith

pub parse_mac-show_mac : (m : Mac) → IsMac m → parse_mac (show_mac m) ≡ some m
unfolding parse_mac octets show_mac
parse_mac-show_mac m h =
    let s4 = show_hex m.m4 ++ (58 ∷ show_hex m.m5) in
    let s3 = show_hex m.m3 ++ (58 ∷ s4) in
    let s2 = show_hex m.m2 ++ (58 ∷ s3) in
    let s1 = show_hex m.m1 ++ (58 ∷ s2) in
    rw (
      split-show_hex m.m0 s1 h.m0_byte,
      split-show_hex m.m1 s2 h.m1_byte,
      split-show_hex m.m2 s3 h.m2_byte,
      split-show_hex m.m3 s4 h.m3_byte,
      split-show_hex m.m4 (show_hex m.m5) h.m4_byte,
      split-show_hex_last m.m5 h.m5_byte,
      from_hex-show_hex m.m0 h.m0_byte,
      from_hex-show_hex m.m1 h.m1_byte,
      from_hex-show_hex m.m2 h.m2_byte,
      from_hex-show_hex m.m3 h.m3_byte,
      from_hex-show_hex m.m4 h.m4_byte,
      from_hex-show_hex m.m5 h.m5_byte,
    )
