-- ===== src/Text.antt =====
-- Texts as lists of code points, and what the programs use of Rust's `str` and `char`.
pub mod Addr
pub mod Mac
mod Test
use Prim.Native.Char.{code}
use Prim.Native.String.{String}
use dumbarp.Common.{
  ℕ, ◌+◌, ◌-◌, ◌*◌, ◌/◌, ◌%◌, ◌≤◌, ◌<◌, ◌≡◌, refl, ◌↔◌, Bool, true, false, ◌&&◌, ◌||◌, Option, none,
  some, List, [], ◌∷◌, ◌++◌, Eq, ◌==◌, nat_eq, leb, if◌then◌else◌, arith, All,
}

-- A chain of results that may be missing.
infixl 5 ◌>>=◌ ◌>>◌
abbrev pub ◌>>=◌ {ℓ κ} : {A : Type ℓ} {B : Type κ} → Option A → (A → Option B) → Option B
some a >>= f = f a
none >>= f = none

abbrev pub ◌>>◌ {ℓ} : {B : Type ℓ} → Option (Unit {0}) → Option B → Option B
m >> k = m >>= λ _. k

abbrev pub guard : Bool → Option (Unit {0})
guard true = some tt
guard false = none

abbrev pub Text : Type 0
Text = List ℕ

-- the characters of a literal
abbrev pub codes : String → Text
codes String.[] = []
codes (String.◌∷◌ c s) = code c ∷ codes s

abbrev pub text_beq : Text → Text → Bool
text_beq [] [] = true
text_beq [] (d ∷ t) = false
text_beq (c ∷ s) [] = false
text_beq (c ∷ s) (d ∷ t) = c == d && text_beq s t

pub text_beq_iff : (s t : Text) → (text_beq s t ≡ true) ↔ (s ≡ t)
text_beq_iff [] [] = ground arith
text_beq_iff [] (d ∷ t) = ground arith
text_beq_iff (c ∷ s) [] = ground arith
text_beq_iff (c ∷ s) (d ∷ t) = ground (arith, text_beq_iff s t)

instance abbrev pub text_eq : Eq Text
text_eq = record { equal = text_beq; equal_iff = text_beq_iff }

-- The longest prefix whose characters pass the test, and the rest.
abbrev pub span : (ℕ → Bool) → Text → Text × Text
span test [] = ([], [])
span test (c ∷ s) =
    let found = span test s in if test c then (c ∷ found.0, found.1) else ([], c ∷ s)

-- The text does not begin with a character that passes the test.
abbrev pub Stops : (ℕ → Bool) → Text → Type 0
Stops test [] = Unit
Stops test (c ∷ s) = test c ≡ false

pub span-Stops : (test : ℕ → Bool) (rest : Text) → Stops test rest → span test rest ≡ ([], rest)
span-Stops test [] stops = refl
span-Stops test (c ∷ s) stops = ground arith

pub span-append :
    (test : ℕ → Bool) (s rest : Text)
    → All (λ (c : ℕ). test c ≡ true) s
    → Stops test rest
    → span test (s ++ rest) ≡ (s, rest)
span-append test [] rest pass stops = span-Stops test rest stops
span-append test (c ∷ s) rest pass stops = ground (arith, span-append test s rest pass.1 stops)

-- `str::split` at one character: there is always a first part.
abbrev pub cut : ℕ → Text → Text × List Text
cut sep [] = ([], [])
cut sep (c ∷ s) =
    let later = cut sep s in if c == sep then ([], later.0 ∷ later.1) else (c ∷ later.0, later.1)

abbrev pub split : ℕ → Text → List Text
split sep s = (cut sep s).0 ∷ (cut sep s).1

pub cut-append :
    (sep : ℕ) (s rest : Text)
    → All (λ (c : ℕ). (c == sep) ≡ false) s
    → cut sep (s ++ rest) ≡ (s ++ (cut sep rest).0, (cut sep rest).1)
cut-append sep [] rest other = refl
cut-append sep (c ∷ s) rest other = ground (arith, cut-append sep s rest other.1)

-- `char::is_whitespace`
unfoldable pub is_whitespace : ℕ → Bool
is_whitespace c =
    (leb 9 c && leb c 13)
    || c == 32
    || c == 133
    || c == 160
    || c == 5760
    || (leb 8192 c && leb c 8202)
    || c == 8232
    || c == 8233
    || c == 8239
    || c == 8287
    || c == 12288

abbrev pub trim_start : Text → Text
trim_start s = (span is_whitespace s).1

-- `str::trim_end`
abbrev pub trim_end : Text → Text
trim_end [] = []
trim_end (c ∷ s) = elim (trim_end s) [
  | [] ↦ if is_whitespace c then [] else c ∷ []
  | d ∷ t ↦ c ∷ d ∷ t
]

abbrev pub trim : Text → Text
trim s = trim_end (trim_start s)

-- `char::to_digit`: in base 10 and in base 16
unfoldable pub is_digit : ℕ → Bool
is_digit c = leb 48 c && leb c 57

unfoldable pub hex_value : ℕ → Option ℕ
unfolding is_digit
hex_value c =
    if is_digit c
    then some (c - 48)
    else if leb 97 c && leb c 102
    then some (c - 87)
    else if leb 65 c && leb c 70
    then some (c - 55)
    else none

-- digits in base 10, and nothing else
abbrev pub decimal_digits : ℕ → Text → Option ℕ
decimal_digits acc [] = some acc
decimal_digits acc (c ∷ s) = do guard (is_digit c); decimal_digits (acc * 10 + (c - 48)) s
