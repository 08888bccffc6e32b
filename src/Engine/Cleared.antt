-- ===== src/Engine/Cleared.antt =====
-- The maps and the egress links of dumbarp/src/lib.rs after an attachment, and after a detachment.
use dumbarp.Common.{
  ℕ, ◌≡◌, ◌≢◌, refl, sym, ◌∙◌, ◌⊎◌, inl, inr, true, Option, none, some, List, [], ◌∷◌, ◌==◌, nat_eq,
  arith, contains, Bool-cases,
}
use dumbarp.Wire.Keys.{ArpKey}
use dumbarp.Engine.{Host, Aya, drop_link, detach_tc, clear_egress}
use dumbarp.Engine.Egress.{IsDetachable, clear_egress-eq}
use dumbarp.Engine.Served.{Egress}

pub contains-drop_link :
    (l j : ℕ) (xs : List ℕ) → contains (drop_link l xs) j ≡ true → (contains xs j ≡ true) × (l ≢ j)
contains-drop_link l j [] h = absurd (ground (arith, h))
contains-drop_link l j (x ∷ xs) h = ground (arith, h, contains-drop_link l j xs)

-- An entry of the egress program's maps after a successful call is one from before, or is the
-- interface's, which then has the program.
pub Egress-ids :
    (i : ℕ) (dscp_id tc : Option ℕ) (h h' : Host)
    → Egress i dscp_id tc h h'
    → ((j : ℕ) → j ≢ i → h'.maps.dscp_id j ≡ h.maps.dscp_id j)
    → (j v : ℕ) → h'.maps.dscp_id j ≡ some v
    → (h.maps.dscp_id j ≡ some v) ⊎ ((i ≡ j) × (tc ≢ none))
unfolding Egress
Egress-ids i none tc h h' (no_tc, links, ids, l2) rest j v set = inl (sym (ids j) ∙ set)
Egress-ids i (some id) tc h h' (link, is_tc, links, new, has_id, has_l2) rest j v set =
    elim (Bool-cases (i == j)) [
      | inl same ↦ inr (ground (arith, same), λ none_tc. ground (arith, is_tc, none_tc))
      | inr other ↦ inl (sym (rest j (λ e. ground (arith, other, e))) ∙ set)
    ]

pub Egress-l2 :
    (i : ℕ) (dscp_id tc : Option ℕ) (h h' : Host)
    → Egress i dscp_id tc h h'
    → ((j : ℕ) → j ≢ i → h'.maps.l2_len j ≡ h.maps.l2_len j)
    → (j v : ℕ) → h'.maps.l2_len j ≡ some v
    → (h.maps.l2_len j ≡ some v) ⊎ ((i ≡ j) × (tc ≢ none))
unfolding Egress
Egress-l2 i none tc h h' (no_tc, links, ids, l2) rest j v set = inl (sym (l2 j) ∙ set)
Egress-l2 i (some id) tc h h' (link, is_tc, links, new, has_id, has_l2) rest j v set =
    elim (Bool-cases (i == j)) [
      | inl same ↦ inr (ground (arith, same), λ none_tc. ground (arith, is_tc, none_tc))
      | inr other ↦ inl (sym (rest j (λ e. ground (arith, other, e))) ∙ set)
    ]

pub Egress-tc :
    (i : ℕ) (dscp_id tc : Option ℕ) (h h' : Host)
    → Egress i dscp_id tc h h'
    → (l : ℕ) → contains h'.tc_links l ≡ true
    → (contains h.tc_links l ≡ true) ⊎ (tc ≡ some l)
unfolding Egress
Egress-tc i none tc h h' (no_tc, links, ids, l2) l has = inl (rw links at has)
Egress-tc i (some id) tc h h' (link, is_tc, links, new, has_id, has_l2) l has =
    let has' : contains (link ∷ h.tc_links) l ≡ true = rw links at has in
    elim (Bool-cases (link == l)) [
      | inl same ↦ inr (ground (arith, same, is_tc))
      | inr other ↦ inl (ground (arith, other, has'))
    ]

module _ (aya : Aya) (ok : IsDetachable aya) where
  pub clear_egress-ids :
      (tc : Option ℕ) (i j v : ℕ) (h : Host)
      → (clear_egress aya tc i h).maps.dscp_id j ≡ some v
      → (h.maps.dscp_id j ≡ some v) × ¬ ((i ≡ j) × (tc ≢ none))
  unfolding detach_tc
  clear_egress-ids none i j v h set = (unfold clear_egress in set, λ (e, has). has refl)
  clear_egress-ids (some l) i j v h set =
      let set' = rw (clear_egress-eq aya ok l i h) at set in
      (
        ground (arith, set', ok.detach_tc_ok l h),
        λ (e, has). ground (arith, set', e, ok.detach_tc_ok l h),
      )

  pub clear_egress-l2 :
      (tc : Option ℕ) (i j v : ℕ) (h : Host)
      → (clear_egress aya tc i h).maps.l2_len j ≡ some v
      → (h.maps.l2_len j ≡ some v) × ¬ ((i ≡ j) × (tc ≢ none))
  unfolding detach_tc
  clear_egress-l2 none i j v h set = (unfold clear_egress in set, λ (e, has). has refl)
  clear_egress-l2 (some l) i j v h set =
      let set' = rw (clear_egress-eq aya ok l i h) at set in
      (
        ground (arith, set', ok.detach_tc_ok l h),
        λ (e, has). ground (arith, set', e, ok.detach_tc_ok l h),
      )

  pub clear_egress-tc :
      (tc : Option ℕ) (i l : ℕ) (h : Host)
      → contains (clear_egress aya tc i h).tc_links l ≡ true
      → (contains h.tc_links l ≡ true) × (tc ≢ some l)
  unfolding clear_egress
  clear_egress-tc none i l h has = (has, λ e. ground (arith, e))
  clear_egress-tc (some m) i l h has =
      let left : contains (drop_link m h.tc_links) l ≡ true =
        ground (arith, has, ok.detach_tc_ok m h) in
      let (before, other) = contains-drop_link m l h.tc_links left in
      (before, λ e. other (ground (arith, e)))

  pub clear_egress-rest :
      (tc : Option ℕ) (i : ℕ) (h : Host)
      → ((k : ArpKey) → (clear_egress aya tc i h).maps.arp_table k ≡ h.maps.arp_table k)
        × ((clear_egress aya tc i h).xdp_links ≡ h.xdp_links)
  unfolding clear_egress
  clear_egress-rest none i h = (λ k. refl, refl)
  clear_egress-rest (some l) i h =
      (λ k. ground (arith, ok.detach_tc_ok l h), ground (arith, ok.detach_tc_ok l h))
