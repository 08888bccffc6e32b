-- ===== src/Dhclient/Latest.antt =====
-- Which lease dhcp-lease-read/src/isc_dhclient/read_lease.rs takes.
use dumbarp.Common.{
  ℕ, Bool, true, false, Option, none, some, List, [], ◌∷◌, ◌≡◌, refl, sym, ◌↔◌, inl, inr, arith,
  Among, Bool-cases, Option-cases,
}
use mathlib.Core.Path.{subst}
use dumbarp.Text.{Text, codes}
use dumbarp.Text.Addr.{>>=-eq-some}
use dumbarp.Dhclient.{Nom, Chrono, Lease, DhcpLease}
use dumbarp.Dhclient.Read.{
  option_value, key_before, is_unexpired, unexpired, max_from, max_by_expire, all_leases,
  read_dhcp_lease,
}

module _ (chrono : Chrono) where
  key_before_irrefl : (a : Option chrono.Instant) → key_before chrono a a ≡ false
  unfolding key_before
  key_before_irrefl none = refl
  key_before_irrefl (some a) = chrono.before_irrefl a

  key_before_trans :
      (a b c : Option chrono.Instant)
      → key_before chrono a b ≡ true
      → key_before chrono b c ≡ true
      → key_before chrono a c ≡ true
  unfolding key_before
  key_before_trans (some a) (some b) (some c) h g = chrono.before_trans a b c h g
  key_before_trans none (some b) (some c) h g = refl
  key_before_trans none none c h g = absurd (cc)
  key_before_trans (some a) none c h g = absurd (cc)
  key_before_trans none (some b) none h g = absurd (cc)
  key_before_trans (some a) (some b) none h g = absurd (cc)

  key_before_cotrans :
      (a b c : Option chrono.Instant)
      → key_before chrono a b ≡ false
      → key_before chrono b c ≡ false
      → key_before chrono a c ≡ false
  unfolding key_before
  key_before_cotrans (some a) (some b) (some c) h g = chrono.before_cotrans a b c h g
  key_before_cotrans none b none h g = refl
  key_before_cotrans (some a) b none h g = refl
  key_before_cotrans none none (some c) h g = absurd (ground arith)
  key_before_cotrans none (some b) (some c) h g = absurd (ground arith)
  key_before_cotrans (some a) none (some c) h g = absurd (cc)

  -- no lease of the list expires later
  abbrev pub IsLast : Lease chrono → List (Lease chrono) → Type 0
  IsLast l leases =
      (m : Lease chrono) → Among m leases → key_before chrono l.expire m.expire ≡ false

  abbrev IsMax : Lease chrono → List (Lease chrono) → Type 0
  IsMax l leases = Among l leases × IsLast l leases

  max_from_lem :
      (best : Lease chrono) (leases : List (Lease chrono))
      → IsMax (max_from chrono best leases) (best ∷ leases)
  max_from_lem best [] =
      unfold max_from in
      (
        inl refl,
        λ m among. elim among [
          | inl here ↦ rw here (key_before_irrefl best.expire)
          | inr later ↦ absurd later
        ],
      )
  max_from_lem best (l ∷ leases) = elim (Bool-cases (key_before chrono l.expire best.expire)) [
    | inl before ↦
        let run : max_from chrono best (l ∷ leases) ≡ max_from chrono best leases =
          unfold max_from in ground (arith, before) in
        let (among, last) = max_from_lem best leases in
        let not_after : key_before chrono best.expire l.expire ≡ false =
          elim (Bool-cases (key_before chrono best.expire l.expire)) [
            | inr no_order ↦ no_order
            | inl order ↦ absurd (
                ground (
                  arith,
                  key_before_trans l.expire best.expire l.expire before order,
                  key_before_irrefl l.expire,
                ))
          ] in
        subst (λ x. IsMax x (best ∷ l ∷ leases)) (sym run)
          (
            elim among [ inl here ↦ inl here | inr later ↦ inr (inr later) ],
            λ m other. elim other [
              | inl here ↦ last m (inl here)
              | inr (inl here) ↦
                  rw here (key_before_cotrans _ best.expire _ (last best (inl refl)) not_after)
              | inr (inr later) ↦ last m (inr later)
            ],
          )
    | inr after ↦
        let run : max_from chrono best (l ∷ leases) ≡ max_from chrono l leases =
          unfold max_from in ground (arith, after) in
        let (among, last) = max_from_lem l leases in
        subst (λ x. IsMax x (best ∷ l ∷ leases)) (sym run)
          (
            inr among,
            λ m other. elim other [
              | inl here ↦ rw here (key_before_cotrans _ l.expire _ (last l (inl refl)) after)
              | inr rest ↦ last m rest
            ],
          )
  ]

  Among-unexpired :
      (now : chrono.Instant) (leases : List (Lease chrono)) (l : Lease chrono)
      → Among l (unexpired chrono now leases)
        ↔ (Among l leases × (is_unexpired chrono now l ≡ true))
  Among-unexpired now [] l = unfold unexpired in ground arith
  Among-unexpired now (m ∷ leases) l =
      let rest = Among-unexpired now leases l in
      elim (Bool-cases (is_unexpired chrono now m)) [
        | inl good ↦
            let run : unexpired chrono now (m ∷ leases) ≡ m ∷ unexpired chrono now leases =
              unfold unexpired in ground (arith, good) in
            rw run (ground (arith, rest, good))
        | inr bad ↦
            let run : unexpired chrono now (m ∷ leases) ≡ unexpired chrono now leases =
              unfold unexpired in ground (arith, bad) in
            rw run (ground (arith, rest, bad))
      ]

  -- A lease that runs at `now`, and none that runs expires later.
  pub record IsLatest (now : chrono.Instant) (leases : List (Lease chrono)) (l : Lease chrono)
      : Type 0 where
    pub listed : Among l leases
    pub runs : is_unexpired chrono now l ≡ true
    pub last :
        (m : Lease chrono)
        → Among m leases
        → is_unexpired chrono now m ≡ true
        → key_before chrono l.expire m.expire ≡ false

  max_by_expire-IsMax :
      (leases : List (Lease chrono)) (l : Lease chrono)
      → max_by_expire chrono leases ≡ some l
      → IsMax l leases
  unfolding max_by_expire
  max_by_expire-IsMax [] l e = absurd (cc)
  max_by_expire-IsMax (best ∷ leases) l e =
      let same : max_from chrono best leases ≡ l = ground (arith, e) in
      subst (λ x. IsMax x (best ∷ leases)) same (max_from_lem best leases)

  -- What is reported of a lease: its interface and address, and the first values of two options.
  pub record Reports (l : Lease chrono) (out : DhcpLease) : Type 0 where
    pub interface : l.interface ≡ some out.interface
    pub ip_address : l.fixed_address ≡ some out.ip_address
    pub subnet_mask : option_value l.options (codes "subnet-mask") ≡ some out.subnet_mask
    pub router : option_value l.options (codes "routers") ≡ some out.router
    pub expired : out.expired ≡ false

  module _ (nom : Nom) (unicode : ℕ → Bool) (files : List (Option Text))
      (now : chrono.Instant) where
    report_of :
        (out : DhcpLease)
        → read_dhcp_lease chrono nom unicode files now ≡ some out
        → (l : Lease chrono) × (max_by_expire chrono
              (unexpired chrono now (all_leases chrono nom unicode files))
            ≡ some l)
          × Reports l out
    unfolding read_dhcp_lease
    report_of out e =
        let (l, latest, e1) =
          >>=-eq-some
            (max_by_expire chrono (unexpired chrono now (all_leases chrono nom unicode files))) _
            e in
        let (interface, i, e2) = >>=-eq-some l.interface _ e1 in
        let (ip_address, a, e3) = >>=-eq-some l.fixed_address _ e2 in
        let (subnet_mask, m, e4) =
          >>=-eq-some (option_value l.options (codes "subnet-mask")) _ e3 in
        let (router, r, e5) = >>=-eq-some (option_value l.options (codes "routers")) _ e4 in
        (
          l,
          latest,
          record {
            interface = ground (arith, i, e5);
            ip_address = ground (arith, a, e5);
            subnet_mask = ground (arith, m, e5);
            router = ground (arith, r, e5);
            expired = ground (arith, e5);
          },
        )

    -- A lease that is reported is one of those in the files that can be read, it has not expired, no
    -- other of them that has not expires later, and its data are those of that lease. If no lease in
    -- the files is unexpired there is no report.
    pub read_dhcp_lease-IsLatest :
        ((out : DhcpLease)
          → read_dhcp_lease chrono nom unicode files now ≡ some out
          → (l : Lease chrono) × IsLatest now (all_leases chrono nom unicode files) l
            × Reports l out)
        × (((l : Lease chrono)
              → Among l (all_leases chrono nom unicode files)
              → is_unexpired chrono now l ≡ false)
            → read_dhcp_lease chrono nom unicode files now ≡ none)
    read_dhcp_lease-IsLatest = (
      λ out e.
          let all = all_leases chrono nom unicode files in
          let h : (l : Lease chrono) × (max_by_expire chrono (unexpired chrono now all) ≡ some l)
              × Reports l out =
            report_of out e in
          let (l, latest, reports) = h in
          let (among, last) = max_by_expire-IsMax (unexpired chrono now all) l latest in
          let (listed, runs) = (Among-unexpired now all l).0 among in
          (
            l,
            record {
              listed = listed;
              runs = runs;
              last = λ m there runs'. last m ((Among-unexpired now all m).1 (there, runs'));
            },
            reports,
          ),
      λ expired.
          let all = all_leases chrono nom unicode files in
          elim (Option-cases (max_by_expire chrono (unexpired chrono now all))) [
            | inl nothing ↦ unfold read_dhcp_lease in ground (arith, nothing)
            | inr (l, latest) ↦
                let (among, _) = max_by_expire-IsMax (unexpired chrono now all) l latest in
                let (listed, runs) = (Among-unexpired now all l).0 among in
                absurd (ground (arith, expired l listed, runs))
          ],
    )
