-- ===== src/Text/Addr.antt =====
-- Rust's `Display` and `FromStr` of `Ipv4Addr`, which the programs use for every address that they
-- write and read.
use dumbarp.Common.{
  ℕ, ◌+◌, ◌-◌, ◌*◌, ◌/◌, ◌%◌, ◌≤◌, ◌<◌, ◌≡◌, refl, Bool, true, false, not, ◌&&◌, Option, none, some,
  [], ◌∷◌, ◌++◌, ◌==◌, nat_eq, leb, ltb, if◌then◌else◌, arith, length, is_empty, length-append,
}
use mathlib.Core.List.{append_assoc, append-nil}
use dumbarp.Ebpf.{Quad}
use dumbarp.Text.{Text, ◌>>=◌, ◌>>◌, guard, span, Stops, span-Stops, is_digit}

-- `Display` of `u8`
unfoldable pub show_octet : ℕ → Text
show_octet n =
    if ltb n 10
    then (48 + n) ∷ []
    else if ltb n 100
    then (48 + n / 10) ∷ (48 + n % 10) ∷ []
    else (48 + n / 100) ∷ (48 + n / 10 % 10) ∷ (48 + n % 10) ∷ []

unfoldable pub show_addr : Quad → Text
show_addr a =
    show_octet a.q0
    ++ (46 ∷ (show_octet a.q1 ++ (46 ∷ (show_octet a.q2 ++ (46 ∷ show_octet a.q3)))))

abbrev decimal : ℕ → Text → ℕ
decimal acc [] = acc
decimal acc (c ∷ s) = decimal (acc * 10 + (c - 48)) s

abbrev begins_with_zero : Text → Bool
begins_with_zero [] = false
begins_with_zero (c ∷ s) = c == 48

-- a number of one to three digits, without a leading zero, below 256
unfoldable pub read_octet : Text → Option (ℕ × Text)
read_octet s = do
  let digits = (span is_digit s).0
  guard (not (length digits == 0) && leb (length digits) 3)
  guard (not (begins_with_zero digits && ltb 1 (length digits)))
  guard (ltb (decimal 0 digits) 256)
  some (decimal 0 digits, (span is_digit s).1)

unfoldable pub read_dot : Text → Option Text
read_dot [] = none
read_dot (c ∷ s) = if c == 46 then some s else none

-- `read_ipv4_addr`, without the limit on the length
unfoldable pub read_addr : Text → Option (Quad × Text)
read_addr s = do
  (q0, s0) ← read_octet s
  (q1, s1) ← read_octet (← read_dot s0)
  (q2, s2) ← read_octet (← read_dot s1)
  (q3, s3) ← read_octet (← read_dot s2)
  some (record { q0 = q0; q1 = q1; q2 = q2; q3 = q3 }, s3)

-- `Ipv4Addr::from_str`: at most 15 characters, and all of them
unfoldable pub parse_addr : Text → Option Quad
parse_addr s = do guard (leb (length s) 15); (a, rest) ← read_addr s; guard (is_empty rest); some a

pub record IsAddr (a : Quad) : Type 0 where
  pub q0_byte : a.q0 < 256
  pub q1_byte : a.q1 < 256
  pub q2_byte : a.q2 < 256
  pub q3_byte : a.q3 < 256

is_digit-plus : (d : ℕ) → d < 10 → is_digit (48 + d) ≡ true
unfolding is_digit
is_digit-plus d h = ground arith

dot_stops : is_digit 46 ≡ false
unfolding is_digit
dot_stops = refl

read_octet-show_octet :
    (n : ℕ) (rest : Text)
    → n < 256
    → Stops is_digit rest
    → read_octet (show_octet n ++ rest) ≡ some (n, rest)
unfolding read_octet show_octet
read_octet-show_octet n rest h stops = ground (
  arith,
  is_digit-plus n,
  is_digit-plus (n / 10),
  is_digit-plus (n / 100),
  is_digit-plus (n / 10 % 10),
  is_digit-plus (n % 10),
  span-Stops is_digit rest stops,
)

show_addr-append :
    (a : Quad) (rest : Text)
    → show_addr a ++ rest
      ≡ show_octet a.q0
        ++ (46 ∷ (show_octet a.q1 ++ (46 ∷ (show_octet a.q2 ++ (46 ∷ (show_octet a.q3 ++ rest))))))
unfolding show_addr
show_addr-append a rest = simp append_assoc

pub read_addr-show_addr :
    (a : Quad) (rest : Text)
    → IsAddr a
    → Stops is_digit rest
    → read_addr (show_addr a ++ rest) ≡ some (a, rest)
unfolding read_addr read_dot
read_addr-show_addr a rest h stops =
    let s3 = show_octet a.q3 ++ rest in
    let s2 = show_octet a.q2 ++ (46 ∷ s3) in
    let s1 = show_octet a.q1 ++ (46 ∷ s2) in
    rw (
      show_addr-append a rest,
      read_octet-show_octet a.q0 (46 ∷ s1) h.q0_byte dot_stops,
      read_octet-show_octet a.q1 (46 ∷ s2) h.q1_byte dot_stops,
      read_octet-show_octet a.q2 (46 ∷ s3) h.q2_byte dot_stops,
      read_octet-show_octet a.q3 rest h.q3_byte stops,
    )

show_octet-length : (n : ℕ) → n < 256 → length (show_octet n) ≤ 3
unfolding show_octet
show_octet-length n h = ground arith

show_addr-length : (a : Quad) → IsAddr a → leb (length (show_addr a)) 15 ≡ true
unfolding show_addr
show_addr-length a h = ground (
  arith,
  length-append (show_octet a.q0)
      (46 ∷ (show_octet a.q1 ++ (46 ∷ (show_octet a.q2 ++ (46 ∷ show_octet a.q3))))),
  length-append (show_octet a.q1) (46 ∷ (show_octet a.q2 ++ (46 ∷ show_octet a.q3))),
  length-append (show_octet a.q2) (46 ∷ show_octet a.q3),
  show_octet-length a.q0 h.q0_byte,
  show_octet-length a.q1 h.q1_byte,
  show_octet-length a.q2 h.q2_byte,
  show_octet-length a.q3 h.q3_byte,
)

-- An address that is written is read back.
pub parse_addr-show_addr : (a : Quad) → IsAddr a → parse_addr (show_addr a) ≡ some a
unfolding parse_addr
parse_addr-show_addr a h =
    let read : read_addr (show_addr a) ≡ some (a, []) =
      rw (append-nil (show_addr a)) at (read_addr-show_addr a [] h tt) in
    rw (show_addr-length a h, read)

-- `u32::from` and `Ipv4Addr::from`
abbrev pub number : Quad → ℕ
number a = ((a.q0 * 256 + a.q1) * 256 + a.q2) * 256 + a.q3

abbrev pub address : ℕ → Quad
address n = record {
  q0 = n / 16777216 % 256;
  q1 = n / 65536 % 256;
  q2 = n / 256 % 256;
  q3 = n % 256;
}

pub address-IsAddr : (n : ℕ) → IsAddr (address n)
address-IsAddr n = record {
  q0_byte = omega arith;
  q1_byte = omega arith;
  q2_byte = omega arith;
  q3_byte = omega arith;
}

pub number-address : (n : ℕ) → n < 4294967296 → number (address n) ≡ n
number-address n h = omega arith

pub >>=-eq-some {ℓ κ} :
    {A : Type ℓ} {B : Type κ} (m : Option A) (f : A → Option B) {b : B}
    → (m >>= f) ≡ some b
    → (a : A) × (m ≡ some a) × (f a ≡ some b)
>>=-eq-some (some a) f h = (a, refl, h)
>>=-eq-some none f h = cc

read_octet-byte : (s : Text) (n : ℕ) (rest : Text) → read_octet s ≡ some (n, rest) → n < 256
unfolding read_octet
read_octet-byte s n rest e = ground arith

read_addr-IsAddr : (s : Text) (a : Quad) (rest : Text) → read_addr s ≡ some (a, rest) → IsAddr a
unfolding read_addr
read_addr-IsAddr s a rest e =
    let (r0, e0, f0) = >>=-eq-some (read_octet s) _ e in
    let (d0, _, g0) = >>=-eq-some (read_dot r0.1) _ f0 in
    let (r1, e1, f1) = >>=-eq-some (read_octet d0) _ g0 in
    let (d1, _, g1) = >>=-eq-some (read_dot r1.1) _ f1 in
    let (r2, e2, f2) = >>=-eq-some (read_octet d1) _ g1 in
    let (d2, _, g2) = >>=-eq-some (read_dot r2.1) _ f2 in
    let (r3, e3, f3) = >>=-eq-some (read_octet d2) _ g2 in
    let octets : (a.q0 ≡ r0.0) × (a.q1 ≡ r1.0) × (a.q2 ≡ r2.0) × (a.q3 ≡ r3.0) =
      ground (arith, f3) in
    record {
      q0_byte = rw octets.0 (read_octet-byte s r0.0 r0.1 e0);
      q1_byte = rw octets.1 (read_octet-byte d0 r1.0 r1.1 e1);
      q2_byte = rw octets.2 (read_octet-byte d1 r2.0 r2.1 e2);
      q3_byte = rw octets.3 (read_octet-byte d2 r3.0 r3.1 e3);
    }

pub parse_addr-IsAddr : (s : Text) (a : Quad) → parse_addr s ≡ some a → IsAddr a
unfolding parse_addr
parse_addr-IsAddr s a e =
    let (_, _, f) = >>=-eq-some (guard (leb (length s) 15)) _ e in
    let (r, read, g) = >>=-eq-some (read_addr s) _ f in
    let (_, _, h) = >>=-eq-some (guard (is_empty r.1)) _ g in
    let same : r.0 ≡ a = ground (arith, h) in rw same at (read_addr-IsAddr s r.0 r.1 read)
