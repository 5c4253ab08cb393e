-- ===== src/Server/Route/Open.antt =====
-- agent_server.rs: the paths that are served without the token do not reach the Agent.
use michoi.Common.{
  inl, inr, Bool-cases, Bool, true, false, not, ◌&&◌, ◌||◌, Option, none, some, List, [], ◌∷◌, ◌≡◌,
  refl, ap, sym, ◌∙◌, str_eq, str_eq→eq, if-both, and_left, and_right, Result, ok, err,
  if◌then◌else◌,
}
use mathlib.Core.Bool.{false≢true}
use michoi.Common.Bytes.{Str, ascii}
use michoi.Api.Control.{AgentApi}
use michoi.Server.{ServerConfig, Request, Response}
use michoi.Server.Negotiate.{Quality, require_accept}
use michoi.Server.Handlers.{BodyFormat, refuse_or}
use michoi.Server.Route.{is_route, route, by_path, shown, posted}

-- The paths of the gate's exception.
abbrev pub public_paths : List Str
public_paths =
    ascii "/openapi.yaml" ∷ ascii "/swagger" ∷ ascii "/" ∷ ascii "/pad" ∷ ascii "/v1/ui-config" ∷ []

abbrev pub is_one_of : List Str → Str → Bool
is_one_of [] path = false
is_one_of (p ∷ ps) path = str_eq path p || is_one_of ps path

unfoldable pub is_public : Request → Bool
is_public request = is_one_of public_paths request.path

pub private_route :
    (method path : Str) (request : Request)
    → is_public request ≡ true
    → is_one_of public_paths path ≡ false
    → is_route method path request ≡ true
    → ⊥
unfolding is_public
private_route method path request free hidden here =
    let same : request.path ≡ path =
      str_eq→eq request.path path (and_right (str_eq request.method method) _ here) in
    false≢true (sym hidden ∙ sym (ap (is_one_of public_paths) same) ∙ free)

module _ {S : Type 0} (quality : Quality) (format : BodyFormat) (config : ServerConfig)
    (api : AgentApi S) where
  refuse_or-same :
      (s : S) (o : S × Response) (r : Result Response Str)
      → o.0 ≡ s
      → (refuse_or s (λ _. o) r).0 ≡ s
  refuse_or-same s o (err response) h = refl
  refuse_or-same s o (ok _) h = h

  Same : S → S × Response → Type 0
  Same s o = o.0 ≡ s

  here : (s : S) (response : Response) → Same s (s, response)
  unfolding Same
  here s response = refl

  shown-Same :
      (type : Str) (s : S) (request : Request) (response : Response)
      → Same s (shown quality format config api type s request response)
  unfolding Same
  shown-Same type s request response =
      refuse_or-same s (s, response) (require_accept quality request (type ∷ [])) refl

  posted-public :
      (request : Request) (s : S)
      → is_public request ≡ true
      → Same s (posted quality format config api request s)
  unfolding michoi.Common.Tests.str_eq
  posted-public request s free =
      let hidden : (path : Str)
          → is_one_of public_paths path ≡ false
          → is_route (ascii "POST") path request ≡ true
          → ⊥ =
        λ path h e. private_route (ascii "POST") path request free h e in
      if-both (Same s) _ _ _ (λ e. absurd (hidden (ascii "/v1/monitor") refl e))
        (λ _.
          if-both (Same s) _ _ _ (λ e. absurd (hidden (ascii "/v1/monitor/stop") refl e))
            (λ _.
              if-both (Same s) _ _ _ (λ e. absurd (hidden (ascii "/v1/dial") refl e))
                (λ _.
                  if-both (Same s) _ _ _ (λ e. absurd (hidden (ascii "/v1/dial/hangup") refl e))
                    (λ _.
                      if-both (Same s) _ _ _ (λ e. absurd (hidden (ascii "/v1/elevator") refl e))
                        (λ _.
                          if-both (Same s) _ _ _
                            (λ e. absurd (hidden (ascii "/v1/call/claim") refl e))
                            (λ _.
                              if-both (Same s) _ _ _
                                (λ e. absurd (hidden (ascii "/v1/call/unlock") refl e))
                                (λ _.
                                  if-both (Same s) _ _ _
                                    (λ e. absurd (hidden (ascii "/v1/call/hangup") refl e))
                                    (λ _. here s _))))))))

  route-Same :
      (request : Request) (s : S)
      → is_public request ≡ true
      → Same s (by_path quality format config api request s)
  unfolding michoi.Common.Tests.str_eq
  route-Same request s free =
      elim (Bool-cases (is_route (ascii "GET") (ascii "/openapi.yaml") request)) [
        | inl e ↦ rw e (here s _)
        | inr e ↦
            rw e
              (elim (Bool-cases (
                is_route (ascii "GET") (ascii "/") request
                || is_route (ascii "GET") (ascii "/pad") request)) [
                  | inl e ↦ rw e (here s _)
                  | inr e ↦
                      rw e
                        (elim (Bool-cases
                          (is_route (ascii "GET") (ascii "/v1/ui-config") request)) [
                            | inl e ↦ rw e (here s _)
                            | inr e ↦
                                rw e
                                  (elim (Bool-cases
                                    (is_route (ascii "GET") (ascii "/swagger") request)) [
                                      | inl e ↦ rw e (here s _)
                                      | inr e ↦
                                          rw e
                                            (elim (Bool-cases (
                                              is_route (ascii "GET") (ascii "/v1/") request
                                              || is_route (ascii "GET") (ascii "/v1") request)) [
                                                | inl e ↦ rw e (shown-Same _ s request _)
                                                | inr e ↦
                                                    rw e
                                                      (elim (Bool-cases (
                                                        is_route (ascii "GET") (ascii "/v1/state")
                                                          request)) [
                                                            | inl e ↦
                                                              rw e (shown-Same _ s request _)
                                                            | inr e ↦
                                                              rw e
                                                              (elim (Bool-cases (
                                                              is_route (ascii "GET")
                                                              (ascii "/v1/media") request)) [
                                                                | inl e ↦
                                                                  rw e (shown-Same _ s request _)
                                                                | inr e ↦
                                                                  rw e
                                                                  (elim (Bool-cases (
                                                                  is_route (ascii "GET")
                                                                  (ascii "/v1/snapshot.jpg")
                                                                  request)) [
                                                                    | inl e ↦
                                                                      rw e
                                                                      (shown-Same _ s request _)
                                                                    | inr e ↦
                                                                      rw e
                                                                      (elim (Bool-cases (
                                                                      is_route (ascii "GET")
                                                                      (ascii "/v1/cameras")
                                                                      request)) [
                                                                        | inl e ↦ absurd (
                                                                          private_route
                                                                          (ascii "GET")
                                                                          (ascii "/v1/cameras")
                                                                          request free refl e)
                                                                        | inr e ↦ rw e (
                                                                          posted-public request s
                                                                          free)
                                                                      ])
                                                                  ])
                                                              ])
                                                          ])
                                              ])
                                    ])
                          ])
                ])
      ]

  pub route-public :
      (request : Request) (s : S)
      → is_public request ≡ true
      → (route quality format config api request s).0 ≡ s
  unfolding Same route
  route-public request s free = route-Same request s free
