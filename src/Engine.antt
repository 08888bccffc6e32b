-- ===== src/Engine.antt =====
-- dumbarp/src/lib.rs: the programs attached to interfaces, and the entries of their maps. The
-- programs and maps of the loaded object are taken to be found.
pub mod Egress
pub mod Attach
pub mod Served
pub mod Detach
pub mod Cleared
pub mod Owned
pub mod Calls
pub mod Tracked
pub mod Serving
pub mod Kept
mod Test
use dumbarp.Common.{
  ℕ, Bool, true, false, String, Option, none, some, List, [], ◌∷◌, ◌==◌, nat_eq, string_eq,
  if◌then◌else◌, Dict, lookup, insert, remove,
}
use dumbarp.Wire.Keys.{ArpKey, arp_key_eq}
use dumbarp.Ebpf.{Mac, Quad, Maps, from_ne_bytes}

abbrev pub arphrd_ether : ℕ
arphrd_ether = 1

abbrev pub eth_hlen : ℕ
eth_hlen = 14

-- What the programs of the kernel side are attached to, and their maps.
pub record Host : Type 0 where
  pub maps : Maps
  pub xdp_links : List ℕ
  pub tc_links : List ℕ

-- What the crate aya and the files under /sys answer: the numbers of an interface, the link that an
-- attachment makes, and whether a request succeeds. A request that fails changes nothing.
pub record Aya : Type 0 where
  pub iface_mac : String → Host → Option Mac
  pub iface_ifindex : String → Host → Option ℕ
  pub link_type : String → Host → Option ℕ
  pub attach_xdp : String → Host → Option ℕ
  pub attach_tc : String → Host → Option ℕ
  pub detach_xdp : ℕ → Host → Bool
  pub detach_tc : ℕ → Host → Bool
  pub arp_insert : ArpKey → Mac → Host → Bool
  pub id_insert : ℕ → ℕ → Host → Bool
  pub l2_insert : ℕ → ℕ → Host → Bool
  pub arp_remove : ArpKey → Host → Bool
  pub id_remove : ℕ → Host → Bool
  pub l2_remove : ℕ → Host → Bool

pub record Attached : Type 0 where
  pub link_id : ℕ
  pub tc_link_id : Option ℕ
  pub key : ArpKey
  pub ifindex : ℕ

pub record Dumbarp : Type 0 where
  pub host : Host
  pub attached : Dict String Attached

pub data EngineError : Type 0 where
  already_attached not_attached no_interface no_xdp no_arp_entry no_egress no_detach : EngineError

-- an entry set, or taken out
abbrev pub put_arp : ArpKey → Option Mac → Host → Host
put_arp k v h = record h {
  maps = record h.maps { arp_table = λ j. if k == j then v else h.maps.arp_table j };
}

abbrev pub put_id : ℕ → Option ℕ → Host → Host
put_id i v h = record h {
  maps = record h.maps { dscp_id = λ j. if i == j then v else h.maps.dscp_id j };
}

abbrev pub put_l2 : ℕ → Option ℕ → Host → Host
put_l2 i v h = record h {
  maps = record h.maps { l2_len = λ j. if i == j then v else h.maps.l2_len j };
}

abbrev pub drop_link : ℕ → List ℕ → List ℕ
drop_link l [] = []
drop_link l (x ∷ xs) = if x == l then drop_link l xs else x ∷ drop_link l xs

unfoldable pub iface_l2_len : Option ℕ → Option ℕ
iface_l2_len none = none
iface_l2_len (some arphrd) = some (if arphrd == arphrd_ether then eth_hlen else 0)

module _ (aya : Aya) where
  -- a failed `remove` is ignored
  unfoldable pub clear_arp_entry : ArpKey → Host → Host
  clear_arp_entry key h = if aya.arp_remove key h then put_arp key none h else h

  unfoldable pub clear_id : ℕ → Host → Host
  clear_id ifindex h = if aya.id_remove ifindex h then put_id ifindex none h else h

  unfoldable pub clear_l2 : ℕ → Host → Host
  clear_l2 ifindex h = if aya.l2_remove ifindex h then put_l2 ifindex none h else h

  unfoldable pub clear_iface_maps : ℕ → Host → Host
  unfolding clear_id clear_l2
  clear_iface_maps ifindex h = clear_l2 ifindex (clear_id ifindex h)

  unfoldable pub detach_xdp : ℕ → Host → Host
  detach_xdp link h =
      if aya.detach_xdp link h then record h { xdp_links = drop_link link h.xdp_links } else h

  unfoldable pub detach_tc : ℕ → Host → Host
  detach_tc link h =
      if aya.detach_tc link h then record h { tc_links = drop_link link h.tc_links } else h

  -- the last step of `attach_egress`
  unfoldable pub attach_tc : String → Host → Option ℕ × Host
  attach_tc iface h = elim (aya.attach_tc iface h) [
    | none ↦ (none, h)
    | some link ↦ (some link, record h { tc_links = link ∷ h.tc_links })
  ]

  -- from the entry of `L2_LEN` on
  unfoldable pub attach_l2 : String → ℕ → Option ℕ → Host → Option ℕ × Host
  unfolding attach_tc
  attach_l2 iface ifindex none h = (none, h)
  attach_l2 iface ifindex (some len) h =
      if aya.l2_insert ifindex len h
      then attach_tc iface (put_l2 ifindex (some len) h)
      else (none, h)

  -- `none`: an error, with what was done before it left as it is
  unfoldable pub attach_egress : String → ℕ → ℕ → Host → Option ℕ × Host
  unfolding attach_l2 iface_l2_len
  attach_egress iface ifindex dscp_id h =
      if aya.id_insert ifindex dscp_id h
      then (let h' = put_id ifindex (some dscp_id) h in
          attach_l2 iface ifindex (iface_l2_len (aya.link_type iface h')) h')
      else (none, h)

  -- what a failed `attach_egress` is followed by
  unfoldable pub roll_back : ℕ → ArpKey → ℕ → Host → Host
  unfolding clear_arp_entry clear_iface_maps detach_xdp
  roll_back link key ifindex h = detach_xdp link (clear_iface_maps ifindex (clear_arp_entry key h))

  -- from the attached XDP program on: the link of the egress program, if there is to be one
  unfoldable pub attach_rest :
      String → ArpKey → Mac → ℕ → Option ℕ → Host → (Option EngineError × Option ℕ) × Host
  unfolding detach_xdp attach_egress roll_back
  attach_rest iface key mac link dscp_id h =
      if aya.arp_insert key mac h
      then (let h' = put_arp key (some mac) h in
          elim dscp_id [
            | none ↦ ((none, none), h')
            | some id ↦
                let (tc_link, h'') = attach_egress iface key.ifindex id h' in
                elim tc_link [
                  | none ↦ ((some no_egress, none), roll_back link key key.ifindex h'')
                  | some tc ↦ ((none, some tc), h'')
                ]
          ])
      else ((some no_arp_entry, none), detach_xdp link h)

  -- from the numbers of the interface on
  unfoldable pub attach_at :
      String → ArpKey → Mac → Option ℕ → Dumbarp → Option EngineError × Dumbarp
  unfolding attach_rest insert
  attach_at iface key mac dscp_id e = elim (aya.attach_xdp iface e.host) [
    | none ↦ (some no_xdp, e)
    | some link ↦
        let linked = record e.host { xdp_links = link ∷ e.host.xdp_links } in
        let (result, h) = attach_rest iface key mac link dscp_id linked in
        elim result.0 [
          | some error ↦ (some error, record e { host = h })
          | none ↦ (
            none,
            record {
              host = h;
              attached =
                  insert iface
                    (record {
                      link_id = link;
                      tc_link_id = result.1;
                      key = key;
                      ifindex = key.ifindex;
                    })
                    e.attached;
            },
          )
        ]
  ]

  -- An address is its four octets. `none`: success.
  unfoldable pub add_interface : String → Quad → Option ℕ → Dumbarp → Option EngineError × Dumbarp
  unfolding lookup attach_at
  add_interface iface ip dscp_id e = elim (lookup iface e.attached) [
    | some a ↦ (some already_attached, e)
    | none ↦ elim (aya.iface_mac iface e.host) [
      | none ↦ (some no_interface, e)
      | some mac ↦ elim (aya.iface_ifindex iface e.host) [
        | none ↦ (some no_interface, e)
        | some ifindex ↦
            attach_at iface (record { ifindex = ifindex; ip = from_ne_bytes ip }) mac dscp_id e
      ]
    ]
  ]

  unfoldable pub clear_egress : Option ℕ → ℕ → Host → Host
  unfolding detach_tc clear_iface_maps
  clear_egress none ifindex h = h
  clear_egress (some link) ifindex h = clear_iface_maps ifindex (detach_tc link h)

  unfoldable pub remove_interface : String → Dumbarp → Option EngineError × Dumbarp
  unfolding lookup remove clear_egress clear_arp_entry detach_xdp
  remove_interface iface e = elim (lookup iface e.attached) [
    | none ↦ (some not_attached, e)
    | some a ↦
        let h = clear_arp_entry a.key (clear_egress a.tc_link_id a.ifindex e.host) in
        (
          if aya.detach_xdp a.link_id h then none else some no_detach,
          record { host = detach_xdp a.link_id h; attached = remove iface e.attached },
        )
  ]
