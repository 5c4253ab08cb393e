-- ===== src/Agent/Identity/Pinned.antt =====
-- agent.rs: what is pinned stays, whatever is seen on the wire.
use michoi.Common.{
  Bool, true, false, not, ◌&&◌, Option, none, some, List, [], ◌∷◌, ◌≡◌, refl, ap, sym, ◌∙◌, inl,
  inr,
}
use michoi.Common.{str_eq, Bool-cases, Option-cases}
use michoi.Common.{and_left, and_right}
use michoi.Net.{Ipv4Addr, ip_eq, is_unspecified}
use michoi.Ethernet.{MacAddress, mac_eq}
use michoi.Protocol.{Station, Endpoints}
use michoi.Agent.{Side, door_side, pad_side, Peers, Agent}
use michoi.Agent.Identity.{
  Sighting, room_address, address, mac, session, observe, observe_all, is_empty,
  set_room_ip_if_unset, learn_address, learn_room, learn_door, learn_side, mac_slot, with_mac,
  pin_mac, accept_endpoints, check_room, check_door, after_room, settle, warn_mismatch, with_peers,
}
use mathlib.Core.Bool.{false≢true}

abbrev is_some : Option MacAddress → Bool
is_some none = false
is_some (some _) = true

-- The identifier and the address of a station, each kept once it is known.
abbrev pub KeepsStation : Station → Station → Type 0
KeepsStation d d' =
    (is_empty d.id ≡ false → d'.id ≡ d.id) × (is_unspecified d.ip ≡ false → d'.ip ≡ d.ip)

abbrev pub KeepsDoor : Option Station → Option Station → Type 0
KeepsDoor none q = Unit {0}
KeepsDoor (some d) none = ⊥
KeepsDoor (some d) (some d') = KeepsStation d d'

abbrev pub KeepsMac : Option MacAddress → Option MacAddress → Type 0
KeepsMac none q = Unit {0}
KeepsMac (some m) q = q ≡ some m

pub record KeepsPins (p q : Peers) : Type 0 where
  pub room_id : q.room.id ≡ p.room.id
  pub room_ip : is_unspecified p.room.ip ≡ false → q.room.ip ≡ p.room.ip
  pub door : KeepsDoor p.door q.door
  pub door_mac : KeepsMac p.door_mac q.door_mac
  pub pad_mac : KeepsMac p.pad_mac q.pad_mac
  pub control_port : q.control_port ≡ p.control_port

KeepsDoor-same : (d : Option Station) → KeepsDoor d d
KeepsDoor-same none = tt
KeepsDoor-same (some d) = ((λ _. refl), (λ _. refl))

KeepsMac-same : (m : Option MacAddress) → KeepsMac m m
KeepsMac-same none = tt
KeepsMac-same (some m) = refl

KeepsDoor-trans : (a b c : Option Station) → KeepsDoor a b → KeepsDoor b c → KeepsDoor a c
KeepsDoor-trans none b c h k = tt
KeepsDoor-trans (some x) none c h k = absurd h
KeepsDoor-trans (some x) (some y) none h k = absurd k
KeepsDoor-trans (some x) (some y) (some z) h k = (
  (λ known. k.0 (ap is_empty (h.0 known) ∙ known) ∙ h.0 known),
  (λ known. k.1 (ap is_unspecified (h.1 known) ∙ known) ∙ h.1 known),
)

KeepsMac-trans : (a b c : Option MacAddress) → KeepsMac a b → KeepsMac b c → KeepsMac a c
KeepsMac-trans none b c h k = tt
KeepsMac-trans (some x) none c h k = absurd (false≢true (ap is_some h))
KeepsMac-trans (some x) (some y) c h k = k ∙ h

pub KeepsPins-same : (p : Peers) → KeepsPins p p
KeepsPins-same p = record {
  room_id = refl;
  room_ip = λ _. refl;
  door = KeepsDoor-same p.door;
  door_mac = KeepsMac-same p.door_mac;
  pad_mac = KeepsMac-same p.pad_mac;
  control_port = refl;
}

pub KeepsPins-trans : (p q r : Peers) → KeepsPins p q → KeepsPins q r → KeepsPins p r
KeepsPins-trans p q r h k = record {
  room_id = k.room_id ∙ h.room_id;
  room_ip = λ known. k.room_ip (ap is_unspecified (h.room_ip known) ∙ known) ∙ h.room_ip known;
  door = KeepsDoor-trans p.door q.door r.door h.door k.door;
  door_mac = KeepsMac-trans p.door_mac q.door_mac r.door_mac h.door_mac k.door_mac;
  pad_mac = KeepsMac-trans p.pad_mac q.pad_mac r.pad_mac h.pad_mac k.pad_mac;
  control_port = k.control_port ∙ h.control_port;
}

with_room_ip-KeepsPins :
    (p : Peers) (ip : Ipv4Addr)
    → is_unspecified p.room.ip ≡ true
    → KeepsPins p (record p { room = record (p.room) { ip = ip } })
with_room_ip-KeepsPins p ip unset = record {
  room_id = refl;
  room_ip = λ known. absurd (false≢true (sym known ∙ unset));
  door = KeepsDoor-same p.door;
  door_mac = KeepsMac-same p.door_mac;
  pad_mac = KeepsMac-same p.pad_mac;
  control_port = refl;
}

with_door-KeepsPins :
    (p : Peers) (d : Station) → KeepsDoor p.door (some d) → KeepsPins p (record p { door = some d })
with_door-KeepsPins p d h = record {
  room_id = refl;
  room_ip = λ _. refl;
  door = h;
  door_mac = KeepsMac-same p.door_mac;
  pad_mac = KeepsMac-same p.pad_mac;
  control_port = refl;
}

abbrev MayKeep : Peers → Option Peers → Type 0
MayKeep p none = Unit {0}
MayKeep p (some q) = KeepsPins p q

pub set_room_ip_if_unset-KeepsPins :
    (ip : Ipv4Addr) (agent : Agent) → KeepsPins agent.peers (set_room_ip_if_unset ip agent).peers
unfolding set_room_ip_if_unset
set_room_ip_if_unset-KeepsPins ip agent = elim (Bool-cases (is_unspecified agent.peers.room.ip)) [
  | inr set ↦ rw set (KeepsPins-same agent.peers)
  | inl unset ↦ elim (Bool-cases (not (is_unspecified ip))) [
    | inl new ↦ rw (unset, new) (with_room_ip-KeepsPins agent.peers ip unset)
    | inr old ↦ rw (unset, old) (KeepsPins-same agent.peers)
  ]
]

learn_room-KeepsPins :
    (ip : Ipv4Addr) (agent : Agent) → KeepsPins agent.peers (learn_room ip agent).0.peers
unfolding warn_mismatch
learn_room-KeepsPins ip agent = elim (Bool-cases (is_unspecified agent.peers.room.ip)) [
  | inl unset ↦ rw unset (with_room_ip-KeepsPins agent.peers ip unset)
  | inr set ↦ elim (Bool-cases (ip_eq agent.peers.room.ip ip)) [
    | inl same ↦ rw (set, same) (KeepsPins-same agent.peers)
    | inr other ↦ rw (set, other) (KeepsPins-same agent.peers)
  ]
]

learn_door-KeepsPins :
    (d : Option Station) (ip : Ipv4Addr) (agent : Agent)
    → agent.peers.door ≡ d
    → KeepsPins agent.peers (learn_door d ip agent).0.peers
unfolding warn_mismatch
learn_door-KeepsPins none ip agent h =
    with_door-KeepsPins agent.peers (record { id = []; ip = ip }) (rw h tt)
learn_door-KeepsPins (some d) ip agent h = elim (Bool-cases (is_unspecified d.ip)) [
  | inl unset ↦ rw unset (
      with_door-KeepsPins agent.peers (record d { ip = ip })
        (rw h ((λ _. refl), (λ known. absurd (false≢true (sym known ∙ unset))))))
  | inr set ↦ elim (Bool-cases (ip_eq d.ip ip)) [
    | inl same ↦ rw (set, same) (KeepsPins-same agent.peers)
    | inr other ↦ rw (set, other) (KeepsPins-same agent.peers)
  ]
]

pub learn_address-KeepsPins :
    (side : Side) (ip : Ipv4Addr) (agent : Agent)
    → KeepsPins agent.peers (learn_address side ip agent).0.peers
unfolding learn_address
learn_address-KeepsPins side ip agent = elim (Bool-cases (is_unspecified ip)) [
  | inl e ↦ rw e (KeepsPins-same agent.peers)
  | inr e ↦ rw e (learned side)
]
  where
    learned : (s : Side) → KeepsPins agent.peers (learn_side s ip agent).0.peers
    learned pad_side = learn_room-KeepsPins ip agent
    learned door_side = learn_door-KeepsPins agent.peers.door ip agent refl

pub pin_mac-KeepsPins :
    (side : Side) (m : MacAddress) (agent : Agent)
    → KeepsPins agent.peers (pin_mac side m agent).0.peers
unfolding pin_mac warn_mismatch
pin_mac-KeepsPins side m agent = elim (Option-cases (mac_slot side agent.peers)) [
  | inl e ↦ rw e (pinned side e)
  | inr (old, e) ↦ elim (Bool-cases (mac_eq old m)) [
    | inl same ↦ rw (e, same) (KeepsPins-same agent.peers)
    | inr other ↦ rw (e, other) (KeepsPins-same agent.peers)
  ]
]
  where
    pinned :
        (s : Side)
        → mac_slot s agent.peers ≡ none
        → KeepsPins agent.peers (with_mac s m agent.peers)
    pinned door_side e = record {
      room_id = refl;
      room_ip = λ _. refl;
      door = KeepsDoor-same agent.peers.door;
      door_mac = rw e tt;
      pad_mac = KeepsMac-same agent.peers.pad_mac;
      control_port = refl;
    }
    pinned pad_side e = record {
      room_id = refl;
      room_ip = λ _. refl;
      door = KeepsDoor-same agent.peers.door;
      door_mac = KeepsMac-same agent.peers.door_mac;
      pad_mac = rw e tt;
      control_port = refl;
    }

check_room-KeepsPins : (e : Endpoints) (p : Peers) → MayKeep p (check_room e p)
check_room-KeepsPins e p = elim (Bool-cases (is_unspecified p.room.ip)) [
  | inl unset ↦ elim (Bool-cases (is_unspecified e.room.ip)) [
    | inl blank ↦ rw (unset, blank) (KeepsPins-same p)
    | inr seen ↦ rw (unset, seen) (with_room_ip-KeepsPins p e.room.ip unset)
  ]
  | inr set ↦ elim (Bool-cases (ip_eq p.room.ip e.room.ip)) [
    | inl same ↦ rw (set, same) (KeepsPins-same p)
    | inr other ↦ rw (set, other) tt
  ]
]

check_door-KeepsPins :
    (d : Option Station) (e : Endpoints) (p : Peers) → p.door ≡ d → MayKeep p (check_door d e p)
check_door-KeepsPins none e p h = with_door-KeepsPins p e.door (rw h tt)
check_door-KeepsPins (some d) e p h = elim (Bool-cases (is_empty d.id && ip_eq d.ip e.door.ip)) [
  | inl nameless ↦ rw nameless (
      with_door-KeepsPins p (record d { id = e.door.id })
        (rw h ((λ known. absurd (false≢true (sym known ∙ and_left _ _ nameless))), (λ _. refl))))
  | inr named ↦ elim (Bool-cases (str_eq d.id e.door.id && is_unspecified d.ip)) [
    | inl placeless ↦
        rw (named, placeless)
          (with_door-KeepsPins p (record d { ip = e.door.ip })
            (rw h
              ((λ _. refl), (λ known. absurd (false≢true (sym known ∙ and_right _ _ placeless))))))
    | inr placed ↦ elim (Bool-cases (str_eq d.id e.door.id && ip_eq d.ip e.door.ip)) [
      | inl same ↦ rw (named, placed, same) (KeepsPins-same p)
      | inr other ↦ rw (named, placed, other) tt
    ]
  ]
]

settle-KeepsPins :
    (agent : Agent) (o : Option Peers)
    → MayKeep agent.peers o
    → KeepsPins agent.peers (settle agent o).0.peers
unfolding warn_mismatch
settle-KeepsPins agent none h = KeepsPins-same agent.peers
settle-KeepsPins agent (some q) h = h

after_room-KeepsPins :
    (e : Endpoints) (agent : Agent) (o : Option Peers)
    → MayKeep agent.peers o
    → KeepsPins agent.peers (after_room e agent o).0.peers
unfolding warn_mismatch
after_room-KeepsPins e agent none h = KeepsPins-same agent.peers
after_room-KeepsPins e agent (some q) h = KeepsPins-trans agent.peers q _ h (
    settle-KeepsPins (with_peers agent q) (check_door q.door e q)
      (check_door-KeepsPins q.door e q refl))

pub accept_endpoints-KeepsPins :
    (e : Endpoints) (agent : Agent) → KeepsPins agent.peers (accept_endpoints e agent).0.peers
unfolding accept_endpoints
accept_endpoints-KeepsPins e agent =
    elim (Bool-cases (not (str_eq e.room.id agent.peers.room.id))) [
      | inl other ↦ rw other (KeepsPins-same agent.peers)
      | inr same ↦ rw same (
          after_room-KeepsPins e agent (check_room e agent.peers)
            (check_room-KeepsPins e agent.peers))
    ]

observe-KeepsPins : (s : Sighting) (agent : Agent) → KeepsPins agent.peers (observe s agent).peers
unfolding observe
observe-KeepsPins (room_address ip) agent = set_room_ip_if_unset-KeepsPins ip agent
observe-KeepsPins (address side ip) agent = learn_address-KeepsPins side ip agent
observe-KeepsPins (mac side m) agent = pin_mac-KeepsPins side m agent
observe-KeepsPins (session e) agent = accept_endpoints-KeepsPins e agent

-- After any sequence of sightings on the wire: the room identifier and the control port are what
-- they were; an address of the Pad or of the door, an identifier of the door, and a MAC of either
-- that was known is unchanged.
pub observe_all-KeepsPins :
    (ss : List Sighting) (agent : Agent) → KeepsPins agent.peers (observe_all ss agent).peers
unfolding observe_all
observe_all-KeepsPins [] agent = KeepsPins-same agent.peers
observe_all-KeepsPins (s ∷ ss) agent =
    KeepsPins-trans agent.peers (observe s agent).peers (observe_all ss (observe s agent)).peers
      (observe-KeepsPins s agent) (observe_all-KeepsPins ss (observe s agent))
