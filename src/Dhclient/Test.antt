-- ===== src/Dhclient/Test.antt =====
-- Runs of dhcp-lease-read/src, and its theorems at a concrete file.
use dumbarp.Common.{
  ℕ, zero, suc, ◌+◌, ◌*◌, ◌≤◌, ◌<◌, Bool, false, not, ◌||◌, Option, none, some, List, [], ◌∷◌, ◌++◌,
  ◌≡◌, refl, ◌==◌, nat_eq, arith, ltb, length, is_empty, if◌then◌else◌, Option-cases, Among, inl,
  inr,
}
use dumbarp.Text.{Text, ◌>>=◌, ◌>>◌, guard, span, codes, is_digit, is_whitespace}
use dumbarp.Dhclient.{Parser, Nom, Chrono, Lease, DhcpLease}
use dumbarp.Dhclient.Parser.{
  parse_leases, parse_lease, parse_stmt, statements, parse_interface, parse_string_lit,
  parse_fixed_address, is_alphanumeric, parse_option, parse_value, parse_renew, parse_rebind,
  parse_expire, parse_dated, parse_datetime, parse_u32, apply,
}
use dumbarp.Dhclient.Progress.{Reads, parse_leases_ends}
use dumbarp.Dhclient.Latest.{IsLatest, Reports, read_dhcp_lease-IsLatest}
use dumbarp.Dhclient.Read.{
  read_dhcp_lease, all_leases, is_unexpired, key_before, max_by_expire, max_from, option_value,
  unexpired,
}

abbrev strip : Text → Text → Option Text
strip [] i = some i
strip (c ∷ t) [] = none
strip (c ∷ t) (d ∷ i) = if c == d then strip t i else none

abbrev tagged : Text → Parser Text
tagged t i = do some ((← strip t i), t)

abbrev one_char : ℕ → Parser ℕ
one_char c [] = none
one_char c (d ∷ i) = if c == d then some (i, d) else none

abbrev taken0 : (ℕ → Bool) → Parser Text
taken0 p i = some ((span p i).1, (span p i).0)

abbrev taken1 : (ℕ → Bool) → Parser Text
taken1 p i = do guard (not (is_empty (span p i).0)); taken0 p i

abbrev first_of : {A : Type 0} → List (Parser A) → Parser A
first_of [] i = none
first_of (f ∷ fs) i = elim (f i) [ some x ↦ some x | none ↦ first_of fs i ]

abbrev repeated : {A : Type 0} → ℕ → Parser A → Parser (List A)
repeated zero f i = none
repeated (suc n) f i = elim (f i) [
  | none ↦ some (i, [])
  | some (r, a) ↦ do guard (ltb (length r) (length i)); (r', l) ← repeated n f r; some (r', a ∷ l)
]

abbrev is_space : ℕ → Bool
is_space c = c == 32 || c == 9

abbrev is_multispace : ℕ → Bool
is_multispace c = is_space c || c == 10 || c == 13

strip_lem : (t i r : Text) → strip t i ≡ some r → i ≡ t ++ r
strip_lem [] i r e = ground (arith, e)
strip_lem (c ∷ t) [] r e = absurd (cc)
strip_lem (c ∷ t) (d ∷ i) r e = ground (arith, strip_lem t i r, e)

span_lem : (p : ℕ → Bool) (i : Text) → i ≡ (span p i).0 ++ (span p i).1
span_lem p [] = refl
span_lem p (c ∷ i) = ground (arith, span_lem p i)

one_char_lem : (c : ℕ) (i r : Text) (d : ℕ) → one_char c i ≡ some (r, d) → i ≡ c ∷ r
one_char_lem c [] r d e = absurd (cc)
one_char_lem c (x ∷ i) r d e = ground (arith, e)

taken1_lem : (p : ℕ → Bool) (i r o : Text) → taken1 p i ≡ some (r, o) → i ≡ o ++ r
taken1_lem p i r o e = ground (arith, span_lem p i, e)

-- more fuel makes no difference
repeated_more :
    {A : Type 0} (n m : ℕ) (f : Parser A) (i r : Text) (l : List A)
    → n ≤ m
    → repeated n f i ≡ some (r, l)
    → repeated m f i ≡ some (r, l)
repeated_more zero m f i r l h e = absurd (cc)
repeated_more (suc n) zero f i r l h e = absurd (omega (arith, h))
repeated_more (suc n) (suc m) f i r l h e = elim (Option-cases (f i)) [
  | inl fails ↦ ground (arith, fails, e)
  | inr ((r1, a), works) ↦ elim (Option-cases (repeated n f r1)) [
    | inl stuck ↦ absurd (ground (arith, works, stuck, e))
    | inr ((r', l'), run) ↦
        ground (arith, works, run, repeated_more n m f r1 r' l' (omega (arith, h)) run, e)
  ]
]

repeated_step :
    {A : Type 0} (f : Parser A) (i r r' : Text) (a : A) (l : List A)
    → f i ≡ some (r, a)
    → length r < length i
    → repeated (suc (length r)) f r ≡ some (r', l)
    → repeated (suc (length i)) f i ≡ some (r', a ∷ l)
repeated_step f i r r' a l works short rest = ground (
  arith,
  works,
  short,
  repeated_more (suc (length r)) (length i) f r r' l (omega (arith, short)) rest,
)

abbrev nom : Nom
nom = record {
  tag = tagged;
  char = one_char;
  take_while1 = taken1;
  digit1 = taken1 is_digit;
  space1 = taken1 is_space;
  multispace0 = taken0 is_multispace;
  alt = first_of;
  many0 = λ f i. repeated (suc (length i)) f i;
  tag_takes = λ t i r o e. ground (arith, strip_lem t i r, e);
  char_takes = one_char_lem;
  take_while1_takes = taken1_lem;
  digit1_takes = taken1_lem is_digit;
  space1_takes = taken1_lem is_space;
  multispace0_takes = λ i r o e. ground (arith, span_lem is_multispace i, e);
  multispace0_always = λ i. ((span is_multispace i).1, (span is_multispace i).0, refl);
  alt_none = λ i. refl;
  alt_here = λ f fs i x e. ground (arith, e);
  alt_next = λ f fs i e. ground (arith, e);
  many0_stop = λ f i e. ground (arith, e);
  many0_more = repeated_step;
}

abbrev chrono : Chrono
chrono = record {
  Instant = ℕ;
  and_hms = λ year month day hour minute second.
      some (((((year.1 * 12 + month) * 31 + day) * 24 + hour) * 60 + minute) * 60 + second);
  is_before = ltb;
  before_irrefl = λ a. ground arith;
  before_trans = λ a b c h g. ground arith;
  before_cotrans = λ a b c h g. ground arith;
}

abbrev no_unicode : ℕ → Bool
no_unicode c = false

abbrev file : Text
file =
    codes
      "lease { interface \"wan0\"; fixed-address 10.0.0.4; option subnet-mask 255.255.255.0; option routers 10.0.0.1; renew 0 2026/05/24 14:49:33; expire 0 2026/05/24 21:51:15; } lease { bad"

abbrev report : DhcpLease
report = record {
  interface = codes "wan0";
  ip_address = codes "10.0.0.4";
  subnet_mask = codes "255.255.255.0";
  router = codes "10.0.0.1";
  expired = false;
}

file_is_read : read_dhcp_lease chrono nom no_unicode (none ∷ some file ∷ []) 5 ≡ some report
unfolding read_dhcp_lease parse_leases parse_lease parse_stmt statements parse_interface
    parse_string_lit parse_fixed_address is_alphanumeric parse_option parse_value parse_renew
    parse_rebind parse_expire parse_dated parse_datetime parse_u32 apply is_whitespace all_leases
    is_unexpired key_before max_by_expire max_from option_value unexpired is_digit
file_is_read = refl

parse_leases_ends_example :
    (rest unread spaces : Text) × (leases : List (Lease chrono)) × (parse_leases nom no_unicode
        chrono file
      ≡ some (rest, leases))
    × Reads nom no_unicode chrono (parse_lease nom no_unicode chrono) file leases unread
    × (parse_lease nom no_unicode chrono unread ≡ none)
    × (nom.multispace0 unread ≡ some (rest, spaces))
    × (unread ≡ spaces ++ rest)
parse_leases_ends_example = parse_leases_ends nom no_unicode chrono file

read_dhcp_lease-IsLatest_example :
    ((out : DhcpLease)
      → read_dhcp_lease chrono nom no_unicode (some file ∷ []) 5 ≡ some out
      → (l : Lease chrono) × IsLatest chrono 5 (all_leases chrono nom no_unicode (some file ∷ [])) l
        × Reports chrono l out)
    × (((l : Lease chrono)
          → Among l (all_leases chrono nom no_unicode (some file ∷ []))
          → is_unexpired chrono 5 l ≡ false)
        → read_dhcp_lease chrono nom no_unicode (some file ∷ []) 5 ≡ none)
read_dhcp_lease-IsLatest_example = read_dhcp_lease-IsLatest chrono nom no_unicode (some file ∷ []) 5
