-- ===== src/Router/Specs/Sources.antt =====
-- Where the specs of a pass of dumbarp-routerd/src/reconcile.rs come from.
use dumbarp.Common.{
  ℕ, Bool, true, false, none, refl, sym, ◌≡◌, ◌↔◌, ◌⊎◌, inl, inr, ap, String, Option, some, List,
  [], ◌∷◌, ◌++◌, string_eq, Dict, lookup, arith, Option-cases, Among, Among-append,
}
use dumbarp.Routing.{RouteSpec}
use dumbarp.Api.{DaemonRoutes}
use dumbarp.Router.Specs.{push_all, mark_for, device_for, gateway_specs, build_gateway_specs}

-- `spec` is for one of the addresses, with the mark.
pub record IsFor (nexthop : ℕ) (device : String) (fwmark : Option ℕ) (ips : List ℕ)
    (spec : RouteSpec) : Type 0 where
  pub src : Among spec.src ips
  pub gateway : spec.gateway ≡ nexthop
  pub iface : spec.iface ≡ device
  pub mark : spec.fwmark ≡ fwmark

pub push_all_lem :
    (nexthop : ℕ) (device : String) (fwmark : Option ℕ) (ips : List ℕ) (out : List RouteSpec)
    (s : RouteSpec)
    → Among s (push_all nexthop device fwmark ips out)
      ↔ (Among s out ⊎ IsFor nexthop device fwmark ips s)
unfolding push_all
push_all_lem nexthop device fwmark [] out s =
    (λ h. inl h, λ h. elim h [ inl a ↦ a | inr f ↦ absurd f.src ])
push_all_lem nexthop device fwmark (ip ∷ ips) out s =
    let spec : RouteSpec = record {
      src = ip;
      gateway = nexthop;
      iface = device;
      fwmark = fwmark;
    } in
    let rest = push_all_lem nexthop device fwmark ips (out ++ spec ∷ []) s in
    let last = Among-append s out (spec ∷ []) in
    (
      λ h. elim (rest.0 h) [
        | inr f ↦
            inr (record { src = inr f.src; gateway = f.gateway; iface = f.iface; mark = f.mark })
        | inl o ↦ elim (last.0 o) [
          | inl old ↦ inl old
          | inr (inl new) ↦ inr (record {
            src = inl (ap (λ (x : RouteSpec). x.src) new);
            gateway = ap (λ (x : RouteSpec). x.gateway) new;
            iface = ap (λ (x : RouteSpec). x.iface) new;
            mark = ap (λ (x : RouteSpec). x.fwmark) new;
          })
          | inr (inr none_left) ↦ absurd none_left
        ]
      ],
      λ h. elim h [
        | inl old ↦ rest.1 (inl (last.1 (inl old)))
        | inr f ↦ elim f.src [
          | inl here ↦
              rest.1 (inl (last.1 (inr (inl (ground (arith, here, f.gateway, f.iface, f.mark))))))
          | inr later ↦
              rest.1
                (inr (record { src = later; gateway = f.gateway; iface = f.iface; mark = f.mark }))
        ]
      ],
    )

module _ (source_based_routing : Bool) (ids : Dict String ℕ) where
  -- The mark of a daemon's rules: none if routing is by the source alone, else the id that the daemon
  -- was given.
  abbrev pub IsMark : Bool → String → Option ℕ → Type 0
  IsMark true name mark = mark ≡ none
  IsMark false name mark = (id : ℕ) × (lookup name ids ≡ some id) × (mark ≡ some id)

  -- The device by which a daemon is reached: the one set for the daemon's name, else the daemon's.
  abbrev pub IsDevice : Dict String String → DaemonRoutes → String → Type 0
  IsDevice device_overrides d device =
      (lookup d.name device_overrides ≡ some device)
      ⊎ ((lookup d.name device_overrides ≡ none) × (device ≡ d.device))

  -- `spec` is for an address of one of the daemons, with that daemon's nexthop, device and mark.
  abbrev pub FromGateway : Dict String String → List DaemonRoutes → RouteSpec → Type 0
  FromGateway device_overrides [] spec = ⊥
  FromGateway device_overrides (d ∷ daemons) spec =
      ((mark : Option ℕ) × (device : String) × IsMark source_based_routing d.name mark
        × IsDevice device_overrides d device
        × IsFor d.nexthop device mark d.ips spec)
      ⊎ FromGateway device_overrides daemons spec

  mark_for-IsMark :
      (by_source : Bool) (name : String) (mark : Option ℕ)
      → (mark_for by_source ids name ≡ some mark) ↔ IsMark by_source name mark
  unfolding mark_for
  mark_for-IsMark true name mark = ground arith
  mark_for-IsMark false name mark = elim (Option-cases (lookup name ids)) [
    | inl gone ↦
        (λ e. absurd (ground (arith, gone, e)), λ (id, has, e). absurd (ground (arith, gone, has)))
    | inr (id, has) ↦
        (λ e. (id, has, ground (arith, has, e)), λ (id', has', e). ground (arith, has', e))
  ]

  device_for-IsDevice :
      (device_overrides : Dict String String) (d : DaemonRoutes) (device : String)
      → (device_for device_overrides d ≡ device) ↔ IsDevice device_overrides d device
  unfolding device_for
  device_for-IsDevice device_overrides d device =
      elim (Option-cases (lookup d.name device_overrides)) [
        | inl unset ↦ (
          λ e. inr (unset, ground (arith, unset, e)),
          λ h. elim h [
            | inl set ↦ absurd (ground (arith, unset, set))
            | inr (u, e) ↦ ground (arith, unset, e)
          ],
        )
        | inr (over, set) ↦ (
          λ e. inl (ground (arith, set, e)),
          λ h. elim h [
            | inl same ↦ ground (arith, set, same)
            | inr (unset, e) ↦ absurd (ground (arith, unset, set))
          ],
        )
      ]

  -- The same in the words of the code.
  abbrev Pushed : Dict String String → List DaemonRoutes → RouteSpec → Type 0
  Pushed device_overrides [] spec = ⊥
  Pushed device_overrides (d ∷ daemons) spec =
      ((mark : Option ℕ) × (mark_for source_based_routing ids d.name ≡ some mark)
        × IsFor d.nexthop (device_for device_overrides d) mark d.ips spec)
      ⊎ Pushed device_overrides daemons spec

  Pushed-FromGateway :
      (device_overrides : Dict String String) (daemons : List DaemonRoutes) (s : RouteSpec)
      → Pushed device_overrides daemons s ↔ FromGateway device_overrides daemons s
  Pushed-FromGateway device_overrides [] s = (λ h. h, λ h. h)
  Pushed-FromGateway device_overrides (d ∷ daemons) s =
      let rest = Pushed-FromGateway device_overrides daemons s in
      let marks = mark_for-IsMark source_based_routing d.name in
      let devices = device_for-IsDevice device_overrides d in
      (
        λ h. elim h [
          | inl (mark, marked, f) ↦ inl (
            mark,
            device_for device_overrides d,
            (marks mark).0 marked,
            (devices (device_for device_overrides d)).0 refl,
            f,
          )
          | inr later ↦ inr (rest.0 later)
        ],
        λ h. elim h [
          | inl (mark, device, marked, is_device, f) ↦
              inl (mark, (marks mark).1 marked, rw (sym ((devices device).1 is_device)) at f)
          | inr later ↦ inr (rest.1 later)
        ],
      )

  gateway_specs_lem :
      (device_overrides : Dict String String) (daemons : List DaemonRoutes) (out : List RouteSpec)
      (s : RouteSpec)
      → Among s (gateway_specs source_based_routing ids device_overrides daemons out)
        ↔ (Among s out ⊎ Pushed device_overrides daemons s)
  gateway_specs_lem device_overrides [] out s = unfold gateway_specs in ground arith
  gateway_specs_lem device_overrides (d ∷ daemons) out s =
      elim (Option-cases (mark_for source_based_routing ids d.name)) [
        | inl skipped ↦
            let turn : gateway_specs source_based_routing ids device_overrides (d ∷ daemons) out
                ≡ gateway_specs source_based_routing ids device_overrides daemons out =
              unfold gateway_specs in ground (arith, skipped) in
            let rest = gateway_specs_lem device_overrides daemons out s in
            rw turn (
              λ h. elim (rest.0 h) [ inl old ↦ inl old | inr g ↦ inr (inr g) ],
              λ h. rest.1 (elim h [
                | inl old ↦ inl old
                | inr (inl (mark, marked, f)) ↦ absurd (ground (arith, marked, skipped))
                | inr (inr g) ↦ inr g
              ]),
            )
        | inr (mark, marked) ↦
            let device = device_for device_overrides d in
            let out' = push_all d.nexthop device mark d.ips out in
            let turn : gateway_specs source_based_routing ids device_overrides (d ∷ daemons) out
                ≡ gateway_specs source_based_routing ids device_overrides daemons out' =
              unfold gateway_specs in ground (arith, marked) in
            let rest = gateway_specs_lem device_overrides daemons out' s in
            let own = push_all_lem d.nexthop device mark d.ips out s in
            rw turn (
              λ h. elim (rest.0 h) [
                | inl pushed ↦ elim (own.0 pushed) [
                  | inl old ↦ inl old
                  | inr f ↦ inr (inl (mark, marked, f))
                ]
                | inr g ↦ inr (inr g)
              ],
              λ h. rest.1 (elim h [
                | inl old ↦ inl (own.1 (inl old))
                | inr (inl (mark', marked', f)) ↦
                    let same : mark' ≡ mark = ground (arith, marked, marked') in
                    inl (own.1 (inr (rw same at f)))
                | inr (inr g) ↦ inr g
              ]),
            )
      ]

  -- The specs are exactly those for the addresses of the daemons: with the daemon's nexthop, the
  -- device set for the daemon's name or else the daemon's own, and the daemon's id as the mark, of
  -- daemons that have an id; where routing is by the source alone, of every daemon and without a mark.
  pub build_gateway_specs_lem :
      (daemons : List DaemonRoutes) (device_overrides : Dict String String) (s : RouteSpec)
      → Among s (build_gateway_specs source_based_routing ids daemons device_overrides)
        ↔ FromGateway device_overrides daemons s
  unfolding build_gateway_specs
  build_gateway_specs_lem daemons device_overrides s =
      let all = gateway_specs_lem device_overrides daemons [] s in
      let same = Pushed-FromGateway device_overrides daemons s in
      (
        λ h. elim (all.0 h) [ inl nothing ↦ absurd nothing | inr g ↦ same.0 g ],
        λ g. all.1 (inr (same.1 g)),
      )

  -- a mark is an id that was given out
  pub mark_for-ids :
      (name : String) (mark : ℕ)
      → mark_for source_based_routing ids name ≡ some (some mark)
      → lookup name ids ≡ some mark
  unfolding mark_for
  mark_for-ids name mark e = ground arith

  Pushed-ids :
      (device_overrides : Dict String String) (daemons : List DaemonRoutes) (s : RouteSpec)
      (mark : ℕ)
      → Pushed device_overrides daemons s
      → s.fwmark ≡ some mark
      → (name : String) × (lookup name ids ≡ some mark)
  Pushed-ids device_overrides [] s mark g e = absurd g
  Pushed-ids device_overrides (d ∷ daemons) s mark g e = elim g [
    | inl (m, marked, f) ↦ (d.name, mark_for-ids d.name mark (ground (arith, marked, f.mark)))
    | inr later ↦ Pushed-ids device_overrides daemons s mark later e
  ]

  -- The mark of each spec is an id that was given out.
  pub build_gateway_specs-ids :
      (daemons : List DaemonRoutes) (device_overrides : Dict String String) (s : RouteSpec)
      (mark : ℕ)
      → Among s (build_gateway_specs source_based_routing ids daemons device_overrides)
      → s.fwmark ≡ some mark
      → (name : String) × (lookup name ids ≡ some mark)
  build_gateway_specs-ids daemons device_overrides s mark among e =
      Pushed-ids device_overrides daemons s mark
        ((Pushed-FromGateway device_overrides daemons s).1
          ((build_gateway_specs_lem daemons device_overrides s).0 among))
        e
