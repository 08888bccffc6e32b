-- ===== src/Probe/Attempts.antt =====
-- The waiting for a reply and the retries of dumbarp-daemon/src/neigh.rs. What the kernel answers is
-- a parameter: of each attempt, the results of its calls and the frames that arrive. The descriptor,
-- which the guard closes, is left out.
use dumbarp.Common.{
  ℕ, zero, suc, ◌+◌, ◌<◌, ◌≤◌, Bool, not, Option, none, some, List, [], ◌∷◌, ◌≡◌, refl, ◌↔◌, ◌⊎◌,
  inl, inr, ltb, leb, ◌==◌, ◌||◌, ◌++◌, is_empty, All, if◌then◌else◌, arith, nat_eq, Bool-cases,
}
use dumbarp.Ebpf.{Packet, Quad, Mac}
use dumbarp.Text.{Text, codes, ◌>>=◌, ◌>>◌, guard, trim, decimal_digits}
use dumbarp.Text.Addr.{show_addr}
use dumbarp.Text.Mac.{parse_mac, show_mac}
use dumbarp.Probe.{build_arp_request, parse_arp_reply}

-- How a probe ends: `waiting` if it has not, for the frames that are given have run out.
pub data Outcome : Type 0 where
  found : Mac → Outcome
  failed : Outcome
  panicked : Outcome
  waiting : Outcome

-- What one attempt meets. `recvfrom` gives `none` for an error, a time-out included. The frames
-- that arrive are those that follow the request.
pub record Attempt : Type 0 where
  pub panics : Bool
  pub address : Option Text
  pub ifindex : Option Text
  pub socket : Bool
  pub timeout_set : Bool
  pub bound : Bool
  pub sent : Packet → Bool
  pub recvfrom : Packet → List (Option Packet)

unfoldable pub read_iface_mac : Attempt → Option Mac
read_iface_mac a = do parse_mac (trim (← a.address))

-- `i32::from_str`: whether the number is negative, and its amount
unfoldable pub parse_i32 : Text → Option (Bool × ℕ)
parse_i32 [] = none
parse_i32 (c ∷ s) = do
  let negative = c == 45
  let digits = if negative || c == 43 then s else c ∷ s
  guard (not (is_empty digits))
  n ← decimal_digits 0 digits
  guard (leb n (if negative then 2147483648 else 2147483647))
  some (negative, n)

unfoldable pub read_iface_index : Attempt → Option (Bool × ℕ)
unfolding parse_i32
read_iface_index a = do parse_i32 (trim (← a.ifindex))

-- the loop over what arrives
unfoldable pub receive : Quad → Quad → List (Option Packet) → Outcome
receive src_ip gw_ip [] = waiting
receive src_ip gw_ip (none ∷ arriving) = failed
receive src_ip gw_ip (some frame ∷ arriving) =
    let rest = receive src_ip gw_ip arriving in
    if ltb frame.len 42
    then rest
    else elim (parse_arp_reply frame gw_ip src_ip) [ some mac ↦ found mac | none ↦ rest ]

unfoldable pub probe_gateway_mac : Attempt → Quad → Quad → Outcome
probe_gateway_mac a src_ip gw_ip = elim (read_iface_mac a) [
  | none ↦ failed
  | some src_mac ↦ elim (read_iface_index a) [
    | none ↦ failed
    | some ifindex ↦
        let frame = build_arp_request src_mac src_ip gw_ip in
        if not a.socket
        then failed
        else if not a.timeout_set
        then failed
        else if not a.bound
        then failed
        else if not (a.sent frame)
        then failed
        else receive src_ip gw_ip (a.recvfrom frame)
  ]
]

-- what the blocking task of attempt `i` gives
unfoldable pub attempted : (ℕ → Attempt) → Quad → Quad → ℕ → Outcome
attempted world src_ip gw_ip i =
    if (world i).panics then panicked else probe_gateway_mac (world i) src_ip gw_ip

-- the loop of `probe_with_retry`, with the attempts that are left, where attempt `i` meets `world i`
unfoldable pub probe_attempts : (ℕ → Attempt) → Quad → Quad → ℕ → ℕ → Outcome
probe_attempts world src_ip gw_ip zero i = failed
probe_attempts world src_ip gw_ip (suc left) i =
    let rest = probe_attempts world src_ip gw_ip left (suc i) in
    elim (attempted world src_ip gw_ip i) [
      | found mac ↦ found mac
      | failed ↦ rest
      | panicked ↦ panicked
      | waiting ↦ waiting
    ]

unfoldable pub probe_with_retry : (ℕ → Attempt) → Quad → Quad → Outcome
probe_with_retry world src_ip gw_ip = probe_attempts world src_ip gw_ip 3 1

-- the arguments with which `set_permanent_neigh` runs the command `ip`
unfoldable pub set_permanent_neigh : Text → Quad → Mac → List Text
set_permanent_neigh iface gw_ip mac =
    codes "neigh"
    ∷ codes "replace"
    ∷ show_addr gw_ip
    ∷ codes "lladdr"
    ∷ show_mac mac
    ∷ codes "dev"
    ∷ iface
    ∷ codes "nud"
    ∷ codes "permanent"
    ∷ []

abbrev repeat : ℕ → List Text → List (List Text)
repeat zero args = []
repeat (suc n) args = args ∷ repeat n args

-- `spawn_probe_and_refresh`, of the probe's outcome: the commands that have been run once the ticker
-- has ticked `ticks` times after its first tick, whether or not they succeed
unfoldable pub spawn_probe_and_refresh : Text → Quad → Outcome → ℕ → List (List Text)
unfolding set_permanent_neigh
spawn_probe_and_refresh iface gw_ip (found mac) ticks =
    repeat (1 + ticks) (set_permanent_neigh iface gw_ip mac)
spawn_probe_and_refresh iface gw_ip failed ticks = []
spawn_probe_and_refresh iface gw_ip panicked ticks = []
spawn_probe_and_refresh iface gw_ip waiting ticks = []

-- Frames that are no reply are passed over.
pub receive-skips :
    (src_ip gw_ip : Quad) (others : List (Option Packet)) (frame : Packet) (mac : Mac)
    (later : List (Option Packet))
    → All
        (λ (o : Option Packet).
          (f : Packet) × (o ≡ some f) × (parse_arp_reply f gw_ip src_ip ≡ none))
        others
    → parse_arp_reply frame gw_ip src_ip ≡ some mac
    → 42 ≤ frame.len
    → receive src_ip gw_ip (others ++ (some frame ∷ later)) ≡ found mac
unfolding receive
receive-skips src_ip gw_ip [] frame mac later skip reply long = ground (arith, reply, long)
receive-skips src_ip gw_ip (some f ∷ others) frame mac later skip reply long =
    ground (arith, receive-skips src_ip gw_ip others frame mac later skip.1 reply long)
receive-skips src_ip gw_ip (none ∷ others) frame mac later skip reply long = ground (arith, skip.0)

Outcome-cases :
    (o : Outcome) → ((mac : Mac) × (o ≡ found mac)) ⊎ (o ≡ failed) ⊎ (o ≡ panicked) ⊎ (o ≡ waiting)
Outcome-cases (found mac) = inl (mac, refl)
Outcome-cases failed = inr (inl refl)
Outcome-cases panicked = inr (inr (inl refl))
Outcome-cases waiting = inr (inr (inr refl))

module _ (world : ℕ → Attempt) (src_ip gw_ip : Quad) (mac : Mac) where
  -- Attempt `j` is the first of those from `i` on that does not fail, and it finds the address.
  pub record IsFirst (i j : ℕ) : Type 0 where
    pub from : i ≤ j
    pub finds : attempted world src_ip gw_ip j ≡ found mac
    pub before : (h : ℕ) → i ≤ h → h < j → attempted world src_ip gw_ip h ≡ failed

  IsFirst-back :
      (i j : ℕ) → attempted world src_ip gw_ip i ≡ failed → IsFirst (suc i) j → IsFirst i j
  IsFirst-back i j bad first = record {
    from = omega (arith, first.from);
    finds = first.finds;
    before = λ h lo hi. elim (Bool-cases (h == i)) [
      | inl same ↦ ground (arith, same, bad)
      | inr other ↦ first.before h (ground (arith, other, lo)) hi
    ];
  }

  probe_attempts_found :
      (left i : ℕ)
      → probe_attempts world src_ip gw_ip left i ≡ found mac
      → (j : ℕ) × (j < i + left) × IsFirst i j
  unfolding probe_attempts
  probe_attempts_found zero i e = absurd (cc)
  probe_attempts_found (suc left) i e = elim (Outcome-cases (attempted world src_ip gw_ip i)) [
    | inl (m, got) ↦ (
      i,
      omega arith,
      record {
        from = omega arith;
        finds = ground (arith, e, got);
        before = λ h lo hi. absurd (omega (arith, lo, hi));
      },
    )
    | inr (inl bad) ↦
        let (j, lt, first) = probe_attempts_found left (suc i) (ground (arith, e, bad)) in
        (j, omega (arith, lt), IsFirst-back i j bad first)
    | inr (inr (inl bad)) ↦ absurd (ground (arith, e, bad))
    | inr (inr (inr bad)) ↦ absurd (ground (arith, e, bad))
  ]

  probe_attempts_first :
      (left i j : ℕ)
      → j < i + left
      → IsFirst i j
      → probe_attempts world src_ip gw_ip left i ≡ found mac
  unfolding probe_attempts
  probe_attempts_first zero i j h first = absurd (omega (arith, h, first.from))
  probe_attempts_first (suc left) i j h first = elim (Bool-cases (i == j)) [
    | inl same ↦ ground (arith, same, first.finds)
    | inr other ↦
        let bad = first.before i (omega arith) (ground (arith, other, first.from)) in
        let later : IsFirst (suc i) j = record {
          from = ground (arith, other, first.from);
          finds = first.finds;
          before = λ h' lo hi. first.before h' (omega (arith, lo)) hi;
        } in
        ground (arith, bad, probe_attempts_first left (suc i) j (omega (arith, h)) later)
  ]

  -- The probe finds an address exactly if one of the three attempts finds it and those before it
  -- fail.
  pub probe_with_retry-eq-found :
      (probe_with_retry world src_ip gw_ip ≡ found mac) ↔ ((j : ℕ) × (j < 4) × IsFirst 1 j)
  unfolding probe_with_retry
  probe_with_retry-eq-found =
      (λ e. probe_attempts_found 3 1 e, λ (j, lt, first). probe_attempts_first 3 1 j lt first)
