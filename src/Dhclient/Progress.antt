-- ===== src/Dhclient/Progress.antt =====
-- What the parsers of dhcp-lease-read/src/isc_dhclient/lease_parser.rs give back of their text.
use dumbarp.Common.{
  ℕ, zero, suc, ◌≤◌, ◌<◌, Bool, none, some, List, [], ◌∷◌, ◌++◌, ◌≡◌, refl, sym, ◌∙◌, inl, inr,
  arith, length, Option-cases, All, ◌==◌, nat_eq, not, ltb,
}
use dumbarp.Text.{Text, ◌>>=◌, guard, codes, trim_end, decimal_digits}
use dumbarp.Dhclient.{Parser, Nom, Chrono, LeaseStmt, Lease}
use dumbarp.Dhclient.Parser.{
  parse_string_lit, parse_u32, parse_interface, parse_fixed_address, parse_value, parse_option,
  parse_datetime, parse_dated, parse_renew, parse_rebind, parse_expire, stated, statements,
  parse_stmt, parse_lease, parse_leases, as_i32, apply_all, default_lease,
}
use dumbarp.Dhclient.Steps.{
  AtMost, AtMost-next, AtMost-some, AtMost-then, Below, Below-next, char-AtMost, char-Below,
  digit1-AtMost, multispace0-AtMost, none-neq-some, space1-AtMost, tag-AtMost, take_while1-AtMost,
}

module _ (nom : Nom) where
  parse_string_lit-AtMost : (i : Text) → AtMost (length i) (parse_string_lit nom i)
  unfolding parse_string_lit
  parse_string_lit-AtMost i = AtMost-next _ _ _ (tag-AtMost nom _ i) (λ x.
      AtMost-next _ _ _ (take_while1-AtMost nom _ x.0)
        (λ y. AtMost-next _ _ _ (tag-AtMost nom _ y.0) (λ z. AtMost-some z.0 y.1)))

  parse_u32-AtMost : (i : Text) → AtMost (length i) (parse_u32 nom i)
  unfolding parse_u32
  parse_u32-AtMost i = AtMost-next _ _ _ (digit1-AtMost nom i) (λ x.
      AtMost-then _ (decimal_digits 0 x.1) _
        (λ n. AtMost-then _ (guard (ltb n 4294967296)) _ (λ _. AtMost-some x.0 n)))

  parse_interface-AtMost : (i : Text) → AtMost (length i) (parse_interface nom i)
  unfolding parse_interface
  parse_interface-AtMost i =
      AtMost-next _ _ _ (tag-AtMost nom _ i)
        (λ x. AtMost-next _ _ _ (space1-AtMost nom x.0) (λ y. parse_string_lit-AtMost y.0))

  parse_value-AtMost : (i : Text) → AtMost (length i) (parse_value nom i)
  parse_value-AtMost i = elim (Option-cases (parse_string_lit nom i)) [
    | inl other ↦
        let run : parse_value nom i
            ≡ (nom.take_while1 (λ c. not (c == 59)) i >>= λ x. some (x.0, trim_end x.1)) =
          unfold parse_value in ground (arith, other) in
        rw run
          (AtMost-next _ _ _ (take_while1-AtMost nom _ i) (λ x. AtMost-some x.0 (trim_end x.1)))
    | inr (out, quoted) ↦
        let run : parse_value nom i ≡ parse_string_lit nom i =
          unfold parse_value in ground (arith, quoted) in
        rw run (parse_string_lit-AtMost i)
  ]

  module _ (unicode : ℕ → Bool) (chrono : Chrono) where
    parse_fixed_address-AtMost : (i : Text) → AtMost (length i) (parse_fixed_address nom unicode i)
    unfolding parse_fixed_address
    parse_fixed_address-AtMost i =
        AtMost-next _ _ _ (tag-AtMost nom _ i)
          (λ x. AtMost-next _ _ _ (space1-AtMost nom x.0) (λ y. take_while1-AtMost nom _ y.0))

    parse_option-AtMost : (i : Text) → AtMost (length i) (parse_option nom unicode i)
    unfolding parse_option
    parse_option-AtMost i = AtMost-next _ _ _ (tag-AtMost nom _ i) (λ x.
        AtMost-next _ _ _ (space1-AtMost nom x.0) (λ y.
          AtMost-next _ _ _ (take_while1-AtMost nom _ y.0) (λ key.
            AtMost-next _ _ _ (space1-AtMost nom key.0) (λ z.
              AtMost-next _ _ _ (parse_value-AtMost z.0)
                (λ value. AtMost-some value.0 (key.1, value.1))))))

    parse_datetime-AtMost : (i : Text) → AtMost (length i) (parse_datetime nom chrono i)
    unfolding parse_datetime
    parse_datetime-AtMost i = AtMost-next _ _ _ (parse_u32-AtMost i) (λ a.
        AtMost-next _ _ _ (space1-AtMost nom a.0) (λ b.
          AtMost-next _ _ _ (parse_u32-AtMost b.0) (λ year.
            AtMost-next _ _ _ (char-AtMost nom _ year.0) (λ c.
              AtMost-next _ _ _ (parse_u32-AtMost c.0) (λ month.
                AtMost-next _ _ _ (char-AtMost nom _ month.0) (λ d.
                  AtMost-next _ _ _ (parse_u32-AtMost d.0) (λ day.
                    AtMost-next _ _ _ (space1-AtMost nom day.0) (λ e.
                      AtMost-next _ _ _ (parse_u32-AtMost e.0) (λ hour.
                        AtMost-next _ _ _ (char-AtMost nom _ hour.0) (λ f.
                          AtMost-next _ _ _ (parse_u32-AtMost f.0) (λ minute.
                            AtMost-next _ _ _ (char-AtMost nom _ minute.0) (λ g.
                              AtMost-next _ _ _ (parse_u32-AtMost g.0) (λ second.
                                AtMost-then _
                                  (chrono.and_hms (as_i32 year.1) month.1 day.1 hour.1 minute.1
                                    second.1)
                                  _ (λ date. AtMost-some second.0 date))))))))))))))

    parse_dated-AtMost : (word i : Text) → AtMost (length i) (parse_dated nom chrono word i)
    unfolding parse_dated
    parse_dated-AtMost word i =
        AtMost-next _ _ _ (tag-AtMost nom word i)
          (λ x. AtMost-next _ _ _ (space1-AtMost nom x.0) (λ y. parse_datetime-AtMost y.0))

    stated-AtMost :
        {A : Type 0} (p : Parser A) (f : A → LeaseStmt chrono)
        → ((i : Text) → AtMost (length i) (p i))
        → (i : Text) → AtMost (length i) (stated nom unicode chrono p f i)
    stated-AtMost p f short i = AtMost-next _ _ _ (short i) (λ x. AtMost-some x.0 (f x.1))

    alt-AtMost :
        {A : Type 0} (fs : List (Parser A))
        → All (λ (f : Parser A). (i : Text) → AtMost (length i) (f i)) fs
        → (i : Text) → AtMost (length i) (nom.alt fs i)
    alt-AtMost {A} [] short i r a e =
        let nothing : nom.alt {A = A} [] i ≡ none = nom.alt_none i in
        absurd (none-neq-some (sym nothing ∙ e))
    alt-AtMost (f ∷ fs) short i r a e = elim (Option-cases (f i)) [
      | inl fails ↦ alt-AtMost fs short.1 i r a (rw (nom.alt_next f fs i fails) at e)
      | inr (x, works) ↦
          let same : x ≡ (r, a) = ground (arith, nom.alt_here f fs i x works, e) in
          short.0 i r a (rw same at works)
    ]

    statements-AtMost :
        All
          (λ (f : Parser (LeaseStmt chrono)). (i : Text) → AtMost (length i) (f i))
          (statements nom unicode chrono)
    unfolding statements parse_renew parse_rebind parse_expire
    statements-AtMost = (
      stated-AtMost (parse_interface nom) LeaseStmt.interface parse_interface-AtMost,
      (
        stated-AtMost (parse_fixed_address nom unicode) LeaseStmt.fixed_address
            parse_fixed_address-AtMost,
        (
          stated-AtMost (parse_option nom unicode) (λ o. LeaseStmt.option o.0 o.1)
              parse_option-AtMost,
          (
            stated-AtMost (parse_renew nom chrono) LeaseStmt.renew
                (parse_dated-AtMost (codes "renew")),
            (
              stated-AtMost (parse_rebind nom chrono) LeaseStmt.rebind
                  (parse_dated-AtMost (codes "rebind")),
              (
                stated-AtMost (parse_expire nom chrono) LeaseStmt.expire
                    (parse_dated-AtMost (codes "expire")),
                tt,
              ),
            ),
          ),
        ),
      ),
    )

    parse_stmt-Below : (i : Text) → Below (length i) (parse_stmt nom unicode chrono i)
    unfolding parse_stmt
    parse_stmt-Below i = Below-next _ _ _ (multispace0-AtMost nom i) (λ x.
        Below-next _ _ _ (alt-AtMost _ statements-AtMost x.0) (λ y. char-Below nom 59 y.0 y.1))

    -- The parser reads the one after the other, and leaves `r`.
    abbrev pub Reads : {A : Type 0} → Parser A → Text → List A → Text → Type 0
    Reads f i [] r = i ≡ r
    Reads f i (a ∷ l) r = (j : Text) × (f i ≡ some (j, a)) × Reads f j l r

    -- Repeating a parser that gives back less than it was given comes to an end, with a result.
    many0_ends :
        {A : Type 0} (f : Parser A)
        → ((i : Text) → Below (length i) (f i))
        → (n : ℕ) (i : Text) → length i < n
        → (r : Text) × (l : List A) × (nom.many0 f i ≡ some (r, l))
          × Reads f i l r
          × (f r ≡ none)
          × (length r ≤ length i)
    many0_ends f below zero i h = absurd (omega (arith, h))
    many0_ends f below (suc n) i h = elim (Option-cases (f i)) [
      | inl fails ↦ (i, [], nom.many0_stop f i fails, refl, fails, omega arith)
      | inr ((r, a), works) ↦
          let short = below i r a works in
          let (r', l, rest, reads, stops, short') =
            many0_ends f below n r (omega (arith, short, h)) in
          (
            r',
            a ∷ l,
            nom.many0_more f i r r' a l works short rest,
            (r, works, reads),
            stops,
            omega (arith, short, short'),
          )
    ]

    many0-AtMost :
        {A : Type 0} (f : Parser A)
        → ((i : Text) → Below (length i) (f i))
        → (i : Text) → AtMost (length i) (nom.many0 f i)
    many0-AtMost f below i r l e =
        let (r', l', run, reads, stops, short) =
          many0_ends f below (suc (length i)) i (omega arith) in
        ground (arith, run, e, short)

    parse_lease-Below : (i : Text) → Below (length i) (parse_lease nom unicode chrono i)
    unfolding parse_lease
    parse_lease-Below i = Below-next _ _ _ (multispace0-AtMost nom i) (λ a.
        Below-next _ _ _ (tag-AtMost nom _ a.0) (λ b.
          Below-next _ _ _ (multispace0-AtMost nom b.0) (λ c.
            Below-next _ _ _ (char-AtMost nom _ c.0) (λ d.
              Below-next _ _ _ (many0-AtMost _ parse_stmt-Below d.0) (λ stmts.
                Below-next _ _ _ (multispace0-AtMost nom stmts.0) (λ e.
                  char-Below nom 125 e.0
                    (apply_all nom unicode chrono stmts.1 (default_lease nom unicode chrono))))))))

    -- The parser of a file ends on every text and never reports an error. The leases are those that
    -- `parse_lease` reads one after the other until it fails, and all the text from there on, but for
    -- the whitespace before it, is given back.
    pub parse_leases_ends :
        (input : Text)
        → (rest unread spaces : Text) × (leases : List (Lease chrono)) × (parse_leases nom unicode
              chrono input
            ≡ some (rest, leases))
          × Reads (parse_lease nom unicode chrono) input leases unread
          × (parse_lease nom unicode chrono unread ≡ none)
          × (nom.multispace0 unread ≡ some (rest, spaces))
          × (unread ≡ spaces ++ rest)
    parse_leases_ends input =
        let (r, leases, run, reads, stops, short) =
          many0_ends (parse_lease nom unicode chrono) parse_lease-Below (suc (length input)) input
            (omega arith) in
        let (rest, o, spaces) = nom.multispace0_always r in
        (
          rest,
          r,
          o,
          leases,
          unfold parse_leases in ground (arith, run, spaces),
          reads,
          stops,
          spaces,
          nom.multispace0_takes r rest o spaces,
        )
