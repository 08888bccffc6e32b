-- ===== src/Dhclient.antt =====
-- dhcp-lease-read/src: the data, and the crates that its parser stands on.
pub mod Parser
pub mod Steps
pub mod Progress
pub mod Read
pub mod Latest
mod Test
use dumbarp.Common.{
  ℕ, ◌+◌, ◌≡◌, ◌<◌, Bool, length, true, false, Option, none, some, List, [], ◌∷◌, ◌++◌, All,
}
use dumbarp.Text.{Text, Stops}

-- The complete parsers of nom: the rest of the input and the result, or `none` for an error.
abbrev pub Parser : Type 0 → Type 0
Parser A = Text → Option (Text × A)

-- The crate nom, with what its documentation says of these parsers.
pub record Nom : Type 1 where
  pub tag : Text → Parser Text
  pub char : ℕ → Parser ℕ
  pub take_while1 : (ℕ → Bool) → Parser Text
  pub digit1 : Parser Text
  pub space1 : Parser Text
  pub multispace0 : Parser Text
  pub alt : {A : Type 0} → List (Parser A) → Parser A
  pub many0 : {A : Type 0} → Parser A → Parser (List A)
  pub tag_takes : (t i r o : Text) → tag t i ≡ some (r, o) → i ≡ t ++ r
  pub char_takes : (c : ℕ) (i r : Text) (d : ℕ) → char c i ≡ some (r, d) → i ≡ c ∷ r
  pub take_while1_takes : (p : ℕ → Bool) (i r o : Text) → take_while1 p i ≡ some (r, o) → i ≡ o ++ r
  pub digit1_takes : (i r o : Text) → digit1 i ≡ some (r, o) → i ≡ o ++ r
  pub space1_takes : (i r o : Text) → space1 i ≡ some (r, o) → i ≡ o ++ r
  pub multispace0_takes : (i r o : Text) → multispace0 i ≡ some (r, o) → i ≡ o ++ r
  pub multispace0_always : (i : Text) → (r : Text) × (o : Text) × (multispace0 i ≡ some (r, o))
  pub alt_none : {A : Type 0} (i : Text) → alt {A = A} [] i ≡ none
  pub alt_here :
      {A : Type 0} (f : Parser A) (fs : List (Parser A)) (i : Text) (x : Text × A)
      → f i ≡ some x
      → alt (f ∷ fs) i ≡ some x
  pub alt_next :
      {A : Type 0} (f : Parser A) (fs : List (Parser A)) (i : Text)
      → f i ≡ none
      → alt (f ∷ fs) i ≡ alt fs i
  pub many0_stop : {A : Type 0} (f : Parser A) (i : Text) → f i ≡ none → many0 f i ≡ some (i, [])
  pub many0_more :
      {A : Type 0} (f : Parser A) (i r r' : Text) (a : A) (l : List A)
      → f i ≡ some (r, a)
      → length r < length i
      → many0 f r ≡ some (r', l)
      → many0 f i ≡ some (r', a ∷ l)

-- The crate chrono: instants, the instant of a date and a time in UTC if there is one, and the order.
-- The year is signed: whether it is negative, and its amount.
pub record Chrono : Type 1 where
  pub Instant : Type 0
  pub and_hms : Bool × ℕ → ℕ → ℕ → ℕ → ℕ → ℕ → Option Instant
  pub is_before : Instant → Instant → Bool
  pub before_irrefl : (a : Instant) → is_before a a ≡ false
  pub before_trans :
      (a b c : Instant) → is_before a b ≡ true → is_before b c ≡ true → is_before a c ≡ true
  pub before_cotrans :
      (a b c : Instant) → is_before a b ≡ false → is_before b c ≡ false → is_before a c ≡ false

module _ (chrono : Chrono) where
  pub data LeaseStmt : Type 0 where
    interface : Text → LeaseStmt
    fixed_address : Text → LeaseStmt
    option : Text → Text → LeaseStmt
    renew rebind expire : chrono.Instant → LeaseStmt

  pub record Lease : Type 0 where
    pub interface : Option Text
    pub fixed_address : Option Text
    pub options : List (Text × Text)
    pub renew : Option chrono.Instant
    pub rebind : Option chrono.Instant
    pub expire : Option chrono.Instant

pub record DhcpLease : Type 0 where
  pub interface : Text
  pub ip_address : Text
  pub subnet_mask : Text
  pub router : Text
  pub expired : Bool
