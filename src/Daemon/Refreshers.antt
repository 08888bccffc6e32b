-- ===== src/Daemon/Refreshers.antt =====
-- The neighbour refreshers of dumbarp-daemon/src/dhcp.rs that run, after some are aborted or end.
use dumbarp.Common.{
  ℕ, true, false, Option, none, some, List, [], ◌∷◌, ◌≡◌, ◌≢◌, inl, inr, ◌==◌, nat_eq, string_eq,
  arith, Among, Bool-cases,
}
use dumbarp.Daemon.Dhcp.{Refresher, abort, abort_held, finish}

Among-abort :
    (h : ℕ) (running : List Refresher) (r : Refresher)
    → Among r (abort h running)
    → r.aborted ≡ false
    → Among r running × (h ≢ r.id)
unfolding abort
Among-abort h [] r among live = absurd among
Among-abort h (x ∷ running) r among live = elim among [
  | inr later ↦ let (there, other) = Among-abort h running r later live in (inr there, other)
  | inl this ↦ elim (Bool-cases (x.id == h)) [
    | inl gone ↦
        let flag : r.aborted ≡ true = ground (arith, this, gone) in
        absurd (ground (arith, flag, live))
    | inr stays ↦
        let same : r ≡ x = ground (arith, this, stays) in
        (inl same, λ e. ground (arith, stays, e, same))
  ]
]

pub Among-abort_held :
    (held : Option ℕ) (running : List Refresher) (r : Refresher)
    → Among r (abort_held held running)
    → r.aborted ≡ false
    → Among r running × (held ≢ some r.id)
unfolding abort_held
Among-abort_held none running r among live = (among, λ e. cc)
Among-abort_held (some h) running r among live =
    let (there, other) = Among-abort h running r among live in
    (there, λ e. other (ground (arith, e)))

pub Among-finish :
    (h : ℕ) (running : List Refresher) (r : Refresher)
    → Among r (finish h running)
    → Among r running
unfolding finish
Among-finish h [] r among = absurd among
Among-finish h (x ∷ running) r among = elim (Bool-cases (x.id == h)) [
  | inl gone ↦
      let run : finish h (x ∷ running) ≡ finish h running = ground (arith, gone) in
      inr (Among-finish h running r (rw run at among))
  | inr stays ↦
      let run : finish h (x ∷ running) ≡ x ∷ finish h running = ground (arith, stays) in
      elim (rw run at among) [
        | inl this ↦ inl this
        | inr later ↦ inr (Among-finish h running r later)
      ]
]
