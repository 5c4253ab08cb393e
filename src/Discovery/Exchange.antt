-- ===== src/Discovery/Exchange.antt =====
-- discovery.rs: a query and its reply between two services, and the end of a wait.
use michoi.Common.{lookup-remove-insert}
use michoi.Discovery.{found}
use michoi.Common.{keys}
use michoi.Common.{map}
use michoi.Common.{Distinct}
use michoi.Common.{Option}
use michoi.Common.{List}
use michoi.Protocol.{until_nul}
use michoi.Common.{ℕ, ◌-◌, ◌≤◌, false, none, some, [], ◌∷◌, ◌++◌, ◌≡◌, ◌≢◌, refl, ap, ◌∙◌, arith}
use michoi.Common.{
  length, replicate, ltb, All, lookup, insert, lookup-insert_self, str_key, str_eq_refl, ok,
}
use michoi.Common.Bytes.{Str}
use michoi.Net.{Ipv4Addr, from_utf8_lossy, IsUtf8}
use michoi.Protocol.Discovery.{
  discovery_request, discovery_reply, discovery_request_room, discovery_reply_room, tagged,
}
use michoi.Protocol.RoundTrip.{until_nul-append}
use michoi.Discovery.{
  DiscoveryService, answer, ask, closed, on_datagram, resolve, timed_out, complete, waiters_of,
}

-- An identifier that the discovery messages can carry.
pub record IsName (id : Str) : Type 0 where
  pub fits : length id ≤ 34
  pub no_nul : All (λ x. x ≢ 0) id
  pub utf8 : IsUtf8 id

discovery_request_lem : (id : Str) → IsName id → discovery_request id ≡ ok (tagged 1 100 id)
unfolding discovery_request
discovery_request_lem id n =
    let fits : ltb 34 (length id) ≡ false = ground (arith, n.fits) in rw fits refl

discovery_reply_lem : (id : Str) → IsName id → discovery_reply id ≡ ok (tagged 2 35 id)
unfolding discovery_reply
discovery_reply_lem id n =
    let fits : ltb 34 (length id) ≡ false = ground (arith, n.fits) in rw fits refl

named_lem :
    (id : Str) (k : ℕ)
    → IsName id
    → some (from_utf8_lossy (until_nul (id ++ replicate k 0))) ≡ some id
named_lem id k n =
    ap (λ s. some (from_utf8_lossy s)) (until_nul-append id k n.no_nul) ∙ ap some n.utf8

request_read : (id : Str) → IsName id → discovery_request_room (tagged 1 100 id) ≡ some id
unfolding discovery_request_room
request_read id n = named_lem id (100 - 1 - length id) n

request_not_reply : (id : Str) → discovery_reply_room (tagged 1 100 id) ≡ none
unfolding discovery_reply_room
request_not_reply id = refl

reply_read : (id : Str) → IsName id → discovery_reply_room (tagged 2 35 id) ≡ some id
unfolding discovery_reply_room
reply_read id n = named_lem id (35 - 1 - length id) n

-- The waiters that are known, none at first.
abbrev known : Option (List ℕ) → List ℕ
known none = []
known (some waiters) = waiters

complete_lem : (ip : Ipv4Addr) (ws : List ℕ) → complete ip ws ≡ map (λ w. found w ip) ws
complete_lem ip [] = refl
complete_lem ip (w ∷ ws) = ap (λ more. found w ip ∷ more) (complete_lem ip ws)

waiters_of-known : (o : Option (List ℕ)) → waiters_of o ≡ known o
waiters_of-known none = refl
waiters_of-known (some ws) = refl

-- The request that `resolve` broadcasts, at a service that has this identifier: it answers the
-- sender. The answer, back at the first service: each waiter of this identifier in their order, the
-- new one last, gets the address that it came from, and then none waits for it. The identifier has at
-- most 34 bytes, without a zero, in UTF-8; and no identifier stands twice in the table.
pub discovery_exchange :
    (id : Str) (tx : ℕ) (asker other : DiscoveryService) (from ip : Ipv4Addr)
    → IsName id
    → other.device_id ≡ some id
    → Distinct (keys asker.pending)
    → ((resolve id tx asker).1 ≡ ask (tagged 1 100 id) ∷ [])
      × ((on_datagram from (tagged 1 100 id) other ≡ (other, answer (tagged 2 35 id) ∷ []))
          × (((on_datagram ip (tagged 2 35 id) (resolve id tx asker).0).1
                ≡ map (λ w. found w ip) (known (lookup id asker.pending) ++ (tx ∷ [])))
              × (lookup id (on_datagram ip (tagged 2 35 id) (resolve id tx asker).0).0.pending
                  ≡ none)))
unfolding on_datagram resolve
discovery_exchange id tx asker other from ip n own d =
    let ws = waiters_of (lookup id asker.pending) ++ (tx ∷ []) in
    (
      rw (discovery_request_lem id n) refl,
      (
        rw (request_not_reply id, request_read id n, own, str_eq_refl id, discovery_reply_lem id n)
            refl,
        (
          rw (reply_read id n, lookup-insert_self id ws asker.pending)
              (complete_lem ip ws
                ∙ ap (λ k. map (λ w. found w ip) (k ++ (tx ∷ [])))
                    (waiters_of-known (lookup id asker.pending))),
          rw (reply_read id n) (lookup-remove-insert id ws asker.pending d),
        ),
      ),
    )

-- Two resolves of one identifier wait, the second has just begun. When the first gives up, the
-- channel of the second is closed as well, and a reply that comes then reaches nobody.
pub timeout_drops_others :
    (id : Str) (first second : ℕ) (service : DiscoveryService)
    → lookup id service.pending ≡ some (first ∷ [])
    → ((timed_out id (resolve id second service).0).1 ≡ closed first ∷ closed second ∷ [])
      × (lookup id (timed_out id (resolve id second service).0).0.pending ≡ some [])
unfolding timed_out resolve
timeout_drops_others id first second service waits =
    let both : lookup id (insert id (first ∷ second ∷ []) service.pending)
        ≡ some (first ∷ second ∷ []) =
      lookup-insert_self id (first ∷ second ∷ []) service.pending in
    rw (waits, both) (refl, lookup-insert_self id [] _)
