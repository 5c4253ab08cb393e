-- ===== src/Agent/Identity/Sighted.antt =====
-- agent.rs: a sighting on the wire leaves the media buffers alone.
use michoi.Common.{not, ◌&&◌, Option, none, some, ◌≡◌, refl, sym, inl, inr, Bool-cases}
use michoi.Net.{Ipv4Addr, ip_eq, is_unspecified}
use michoi.Ethernet.{MacAddress, mac_eq}
use michoi.Protocol.{Station}
use michoi.MediaRing.Accounting.{IsWithin}
use michoi.Protocol.Jpeg.Tidy.{IsTidy}
use michoi.Agent.{Side, door_side, pad_side, Agent}
use michoi.Agent.Identity.{
  set_room_ip_if_unset, learn_address, learn_room, learn_door, learn_side, mac_slot, check_mac,
  pin_mac, warn_mismatch,
}
use michoi.Agent.Identity.Pinned.{
  KeepsPins, set_room_ip_if_unset-KeepsPins, learn_address-KeepsPins, pin_mac-KeepsPins,
}
use michoi.Agent.Dispatch.Kept.{IsSound, IsKept}
use mathlib.Core.Path.{subst}

abbrev SameBuffers : Agent → Agent → Type 0
SameBuffers p q = (q.history ≡ p.history) × (q.jpeg ≡ p.jpeg)

same-IsKept : (p q : Agent) → IsSound p → SameBuffers p q → KeepsPins p.peers q.peers → IsKept p q
same-IsKept p q s b k = ((subst IsWithin (sym b.0) s.0, subst IsTidy (sym b.1) s.1), k)

pub set_room_ip_if_unset-IsKept :
    (ip : Ipv4Addr) (agent : Agent) → IsSound agent → IsKept agent (set_room_ip_if_unset ip agent)
unfolding set_room_ip_if_unset
set_room_ip_if_unset-IsKept ip agent s =
    let same : SameBuffers agent (set_room_ip_if_unset ip agent) =
      elim (Bool-cases (is_unspecified agent.peers.room.ip && not (is_unspecified ip))) [
        | inl e ↦ rw e (refl, refl)
        | inr e ↦ rw e (refl, refl)
      ] in
    same-IsKept agent (set_room_ip_if_unset ip agent) s same
      (set_room_ip_if_unset-KeepsPins ip agent)

learn_room-SameBuffers : (ip : Ipv4Addr) (agent : Agent) → SameBuffers agent (learn_room ip agent).0
unfolding warn_mismatch
learn_room-SameBuffers ip agent = elim (Bool-cases (is_unspecified agent.peers.room.ip)) [
  | inl e ↦ rw e (refl, refl)
  | inr e ↦ elim (Bool-cases (ip_eq agent.peers.room.ip ip)) [
    | inl f ↦ rw (e, f) (refl, refl)
    | inr f ↦ rw (e, f) (refl, refl)
  ]
]

learn_door-SameBuffers :
    (d : Option Station) (ip : Ipv4Addr) (agent : Agent)
    → SameBuffers agent (learn_door d ip agent).0
unfolding warn_mismatch
learn_door-SameBuffers none ip agent = (refl, refl)
learn_door-SameBuffers (some d) ip agent = elim (Bool-cases (is_unspecified d.ip)) [
  | inl e ↦ rw e (refl, refl)
  | inr e ↦ elim (Bool-cases (ip_eq d.ip ip)) [
    | inl f ↦ rw (e, f) (refl, refl)
    | inr f ↦ rw (e, f) (refl, refl)
  ]
]

learn_side-SameBuffers :
    (side : Side) (ip : Ipv4Addr) (agent : Agent) → SameBuffers agent (learn_side side ip agent).0
learn_side-SameBuffers pad_side ip agent = learn_room-SameBuffers ip agent
learn_side-SameBuffers door_side ip agent = learn_door-SameBuffers agent.peers.door ip agent

pub learn_address-IsKept :
    (side : Side) (ip : Ipv4Addr) (agent : Agent)
    → IsSound agent
    → IsKept agent (learn_address side ip agent).0
unfolding learn_address
learn_address-IsKept side ip agent s =
    let same : SameBuffers agent (learn_address side ip agent).0 =
      elim (Bool-cases (is_unspecified ip)) [
        | inl e ↦ rw e (refl, refl)
        | inr e ↦ rw e (learn_side-SameBuffers side ip agent)
      ] in
    same-IsKept agent (learn_address side ip agent).0 s same (learn_address-KeepsPins side ip agent)

check_mac-SameBuffers :
    (o : Option MacAddress) (side : Side) (m : MacAddress) (agent : Agent)
    → SameBuffers agent (check_mac o side m agent).0
unfolding warn_mismatch
check_mac-SameBuffers none side m agent = (refl, refl)
check_mac-SameBuffers (some pinned) side m agent = elim (Bool-cases (mac_eq pinned m)) [
  | inl e ↦ rw e (refl, refl)
  | inr e ↦ rw e (refl, refl)
]

pub pin_mac-IsKept :
    (side : Side) (m : MacAddress) (agent : Agent)
    → IsSound agent
    → IsKept agent (pin_mac side m agent).0
unfolding pin_mac
pin_mac-IsKept side m agent s =
    same-IsKept agent (pin_mac side m agent).0 s
      (check_mac-SameBuffers (mac_slot side agent.peers) side m agent)
      (pin_mac-KeepsPins side m agent)
