-- ===== src/Dhclient/Steps.antt =====
-- How much of the input a parser leaves: the rules for its steps, and for the parsers that
-- dhcp-lease-read/src/isc_dhclient/lease_parser.rs takes from nom.
use dumbarp.Common.{
  ℕ, ◌≤◌, ◌<◌, Bool, Option, none, some, ◌≡◌, arith, length, length-append, nat_eq,
}
use dumbarp.Text.{Text, ◌>>=◌}
use dumbarp.Text.Addr.{>>=-eq-some}
use dumbarp.Dhclient.{Nom}

-- What is left has at most `n` characters.
abbrev pub AtMost : {A : Type 0} → ℕ → Option (Text × A) → Type 0
AtMost {A} n out = (r : Text) (a : A) → out ≡ some (r, a) → length r ≤ n

pub none-neq-some : {A : Type 0} {x : A} → ◌≡◌ {A = Option A} none (some x) → ⊥
none-neq-some e = cc

pub AtMost-then :
    {A : Type 0} {B : Type 0} (n : ℕ) (m : Option A) (h : A → Option (Text × B))
    → ((a : A) → AtMost n (h a))
    → AtMost n (m >>= h)
AtMost-then n m h short r b e = let (a, _, f) = >>=-eq-some m h e in short a r b f

pub AtMost-next :
    {A : Type 0} {B : Type 0} (n : ℕ) (m : Option (Text × A)) (h : Text × A → Option (Text × B))
    → AtMost n m
    → ((x : Text × A) → AtMost (length x.0) (h x))
    → AtMost n (m >>= h)
AtMost-next n m h first later r b e =
    let (x, got, f) = >>=-eq-some m h e in omega (arith, first x.0 x.1 got, later x r b f)

pub AtMost-some : {A : Type 0} (r : Text) (a : A) → AtMost (length r) (some (r, a))
AtMost-some r a r' b e = ground (arith, e)

-- What is left has fewer than `n` characters.
abbrev pub Below : {A : Type 0} → ℕ → Option (Text × A) → Type 0
Below {A} n out = (r : Text) (a : A) → out ≡ some (r, a) → length r < n

pub Below-next :
    {A : Type 0} {B : Type 0} (n : ℕ) (m : Option (Text × A)) (h : Text × A → Option (Text × B))
    → AtMost n m
    → ((x : Text × A) → Below (length x.0) (h x))
    → Below n (m >>= h)
Below-next n m h first later r b e =
    let (x, got, f) = >>=-eq-some m h e in omega (arith, first x.0 x.1 got, later x r b f)

module _ (nom : Nom) where
  pub tag-AtMost : (t i : Text) → AtMost (length i) (nom.tag t i)
  tag-AtMost t i r o e = ground (arith, nom.tag_takes t i r o e, length-append t r)

  pub char-AtMost : (c : ℕ) (i : Text) → AtMost (length i) (nom.char c i)
  char-AtMost c i r o e = ground (arith, nom.char_takes c i r o e)

  pub char-Below :
      {B : Type 0} (c : ℕ) (i : Text) (b : B)
      → Below (length i) (nom.char c i >>= λ x. some (x.0, b))
  char-Below c i b r b' e =
      let (x, got, f) = >>=-eq-some (nom.char c i) (λ x. some (x.0, b)) e in
      ground (arith, f, nom.char_takes c i x.0 x.1 got)

  pub take_while1-AtMost : (p : ℕ → Bool) (i : Text) → AtMost (length i) (nom.take_while1 p i)
  take_while1-AtMost p i r o e = ground (arith, nom.take_while1_takes p i r o e, length-append o r)

  pub digit1-AtMost : (i : Text) → AtMost (length i) (nom.digit1 i)
  digit1-AtMost i r o e = ground (arith, nom.digit1_takes i r o e, length-append o r)

  pub space1-AtMost : (i : Text) → AtMost (length i) (nom.space1 i)
  space1-AtMost i r o e = ground (arith, nom.space1_takes i r o e, length-append o r)

  pub multispace0-AtMost : (i : Text) → AtMost (length i) (nom.multispace0 i)
  multispace0-AtMost i r o e = ground (arith, nom.multispace0_takes i r o e, length-append o r)
