-- ===== src/Dhclient/Parser.antt =====
-- dhcp-lease-read/src/isc_dhclient/lease_parser.rs. `unicode` says which characters beyond ASCII are
-- alphanumeric.
use dumbarp.Common.{
  ℕ, ◌-◌, Bool, true, false, not, ◌&&◌, ◌||◌, none, some, List, [], ◌∷◌, ◌++◌, ◌==◌, nat_eq, ltb,
  leb, if◌then◌else◌,
}
use dumbarp.Text.{Text, ◌>>=◌, ◌>>◌, guard, codes, trim_end, decimal_digits, is_digit}
use dumbarp.Dhclient.{Parser, Nom, Chrono, LeaseStmt, Lease}

abbrev is_letter : ℕ → Bool
is_letter c = (leb 97 c && leb c 122) || (leb 65 c && leb c 90)

unfoldable pub is_alphanumeric : (ℕ → Bool) → ℕ → Bool
unfolding is_digit
is_alphanumeric unicode c = is_digit c || is_letter c || (leb 128 c && unicode c)

-- `n as i32`
abbrev pub as_i32 : ℕ → Bool × ℕ
as_i32 n = if ltb n 2147483648 then (false, n) else (true, 4294967296 - n)

module _ (nom : Nom) where
  unfoldable pub parse_string_lit : Parser Text
  parse_string_lit input = do
    (input, _) ← nom.tag (codes "\"") input
    (input, content) ← nom.take_while1 (λ c. not (c == 34)) input
    (input, _) ← nom.tag (codes "\"") input
    some (input, content)

  unfoldable pub parse_u32 : Parser ℕ
  parse_u32 input = do
    (input, digits) ← nom.digit1 input
    n ← decimal_digits 0 digits
    guard (ltb n 4294967296)
    some (input, n)

  unfoldable pub parse_interface : Parser Text
  parse_interface input = do
    (input, _) ← nom.tag (codes "interface") input
    (input, _) ← nom.space1 input
    parse_string_lit input

  -- a quoted value, or what stands before the semicolon
  unfoldable pub parse_value : Parser Text
  parse_value input = elim (parse_string_lit input) [
    | some out ↦ some out
    | none ↦ do
      (input, val) ← nom.take_while1 (λ c. not (c == 59)) input
      some (input, trim_end val)
  ]

  module _ (chrono : Chrono) where
    unfoldable pub parse_datetime : Parser chrono.Instant
    parse_datetime input = do
      (input, _) ← parse_u32 input
      (input, _) ← nom.space1 input
      (input, year) ← parse_u32 input
      (input, _) ← nom.char 47 input
      (input, month) ← parse_u32 input
      (input, _) ← nom.char 47 input
      (input, day) ← parse_u32 input
      (input, _) ← nom.space1 input
      (input, hour) ← parse_u32 input
      (input, _) ← nom.char 58 input
      (input, minute) ← parse_u32 input
      (input, _) ← nom.char 58 input
      (input, second) ← parse_u32 input
      date ← chrono.and_hms (as_i32 year) month day hour minute second
      some (input, date)

    -- `parse_renew`, `parse_rebind` and `parse_expire`: a word, and an instant behind it
    unfoldable pub parse_dated : Text → Parser chrono.Instant
    parse_dated word input = do
      (input, _) ← nom.tag word input
      (input, _) ← nom.space1 input
      parse_datetime input

    unfoldable pub parse_renew : Parser chrono.Instant
    parse_renew = parse_dated (codes "renew")

    unfoldable pub parse_rebind : Parser chrono.Instant
    parse_rebind = parse_dated (codes "rebind")

    unfoldable pub parse_expire : Parser chrono.Instant
    parse_expire = parse_dated (codes "expire")

  module _ (unicode : ℕ → Bool) where
    unfoldable pub parse_fixed_address : Parser Text
    parse_fixed_address input = do
      (input, _) ← nom.tag (codes "fixed-address") input
      (input, _) ← nom.space1 input
      nom.take_while1 (λ c. is_alphanumeric unicode c || c == 46) input

    unfoldable pub parse_option : Parser (Text × Text)
    parse_option input = do
      (input, _) ← nom.tag (codes "option") input
      (input, _) ← nom.space1 input
      (input, key) ← nom.take_while1 (λ c. is_alphanumeric unicode c || c == 45) input
      (input, _) ← nom.space1 input
      (input, value) ← parse_value input
      some (input, (key, value))

    module _ (chrono : Chrono) where
      -- a statement, from the result of one of the six parsers
      abbrev pub stated :
          {A : Type 0} → Parser A → (A → LeaseStmt chrono) → Parser (LeaseStmt chrono)
      stated p f input = do (input, v) ← p input; some (input, f v)

      unfoldable pub statements : List (Parser (LeaseStmt chrono))
      statements =
          stated parse_interface LeaseStmt.interface
          ∷ stated parse_fixed_address LeaseStmt.fixed_address
          ∷ stated parse_option (λ o. LeaseStmt.option o.0 o.1)
          ∷ stated (parse_renew chrono) LeaseStmt.renew
          ∷ stated (parse_rebind chrono) LeaseStmt.rebind
          ∷ stated (parse_expire chrono) LeaseStmt.expire
          ∷ []

      unfoldable pub parse_stmt : Parser (LeaseStmt chrono)
      parse_stmt input = do
        (input, _) ← nom.multispace0 input
        (input, stmt) ← nom.alt statements input
        (input, _) ← nom.char 59 input
        some (input, stmt)

      abbrev pub default_lease : Lease chrono
      default_lease = record {
        interface = none;
        fixed_address = none;
        options = [];
        renew = none;
        rebind = none;
        expire = none;
      }

      -- the loop over the statements
      unfoldable pub apply : LeaseStmt chrono → Lease chrono → Lease chrono
      apply (LeaseStmt.interface v) lease = record lease { interface = some v }
      apply (LeaseStmt.fixed_address v) lease = record lease { fixed_address = some v }
      apply (LeaseStmt.option k v) lease = record lease { options = lease.options ++ (k, v) ∷ [] }
      apply (LeaseStmt.renew v) lease = record lease { renew = some v }
      apply (LeaseStmt.rebind v) lease = record lease { rebind = some v }
      apply (LeaseStmt.expire v) lease = record lease { expire = some v }

      abbrev pub apply_all : List (LeaseStmt chrono) → Lease chrono → Lease chrono
      apply_all [] lease = lease
      apply_all (stmt ∷ stmts) lease = apply_all stmts (apply stmt lease)

      unfoldable pub parse_lease : Parser (Lease chrono)
      parse_lease input = do
        (input, _) ← nom.multispace0 input
        (input, _) ← nom.tag (codes "lease") input
        (input, _) ← nom.multispace0 input
        (input, _) ← nom.char 123 input
        (input, stmts) ← nom.many0 parse_stmt input
        (input, _) ← nom.multispace0 input
        (input, _) ← nom.char 125 input
        some (input, apply_all stmts default_lease)

      unfoldable pub parse_leases : Parser (List (Lease chrono))
      parse_leases input = do
        (input, leases) ← nom.many0 parse_lease input
        (input, _) ← nom.multispace0 input
        some (input, leases)
