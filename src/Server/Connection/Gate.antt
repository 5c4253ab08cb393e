-- ===== src/Server/Connection/Gate.antt =====
-- agent_server.rs: what a client without the token can do.
use michoi.Common.{tail-drop}
use michoi.Common.{
  ℕ, zero, suc, Bool, true, false, not, ◌&&◌, ◌||◌, Option, none, some, List, [], ◌∷◌, ◌++◌, ◌≡◌,
  ◌≢◌, ◌⊎◌, refl, ap, sym, ◌∙◌, inl, inr, length, take, drop, take-append-drop, Result, ok, err,
  Bool-cases, Option-cases, if-cases, All, str_eq, str_eq→eq, and_left, and_right, if◌then◌else◌,
}
use mathlib.Core.Path.{subst}
use mathlib.Core.Bool.{false≢true}
use mathlib.Core.Option.{some-injective, none-ne-some}
use michoi.Common.Bytes.{Str, ascii}
use michoi.Common.Text.{trim, split, split_once, starts_with, same_word}
use michoi.Api.Control.{AgentApi}
use michoi.Server.{
  ServerConfig, Request, find_header, header, find_param, decode_param, query_param,
}
use michoi.Server.Body.{Input, ReadError}
use michoi.Server.Parse.{read_request}
use michoi.Server.Negotiate.{authorized, presents, is_token}
use michoi.Server.Route.{is_route}
use michoi.Server.Route.Open.{is_public, private_route, route-public}
use michoi.Server.Connection.{
  World, Served, go_on, finished, broken, upgraded, admitted, serve, served, continue_with,
  connection_loop, connection,
}

abbrev next_requests :
    (Input → List Request) → Result ReadError (Option Request × Input) → List Request
next_requests again (err e) = []
next_requests again (ok (none, rest)) = []
next_requests again (ok (some request, rest)) = request ∷ again rest

abbrev requests_from : ℕ → Input → List Request
requests_from zero input = []
requests_from (suc fuel) input = next_requests (requests_from fuel) (read_request input)

-- The requests that can be read one behind the other from the input.
abbrev pub requests_of : Input → List Request
requests_of input = requests_from (suc (length input)) input

-- A value of an Authorization header that is not the scheme `Bearer`, in this or in small letters, and
-- the token with any white space around it.
abbrev pub IsOther : Str → Str → Type 0
IsOther token v =
    (rest : Str) → (v ≡ ascii "Bearer " ++ rest) ⊎ (v ≡ ascii "bearer " ++ rest) → trim rest ≢ token

-- A request that does not show the token: in no Authorization header, and in no parameter `token`.
pub record IsStranger (token : Str) (request : Request) : Type 0 where
  pub no_header :
      All (λ h. (same_word h.0 (ascii "authorization") ≡ true) → IsOther token h.1) request.headers
  pub no_param :
      All
        (λ pair.
          (v : Str) → split_once b'=' pair ≡ some (ascii "token", v) → decode_param v ≢ token)
        (split b'&' request.query)

starts_with-split :
    (prefix s : Str) → starts_with prefix s ≡ true → s ≡ prefix ++ drop (length prefix) s
starts_with-split prefix s h =
    sym (take-append-drop (length prefix) s)
    ∙ ap (λ t. t ++ drop (length prefix) s) (str_eq→eq (take (length prefix) s) prefix h)

find_header-All :
    (name : Str) (P : Str → Type 0) (headers : List (Str × Str)) (v : Str)
    → All (λ h. (same_word h.0 name ≡ true) → P h.1) headers
    → find_header name headers ≡ some v
    → P v
find_header-All name P [] v h e = absurd (none-ne-some v e)
find_header-All name P ((k, w) ∷ rest) v (p, h) e = elim (if-cases (same_word k name) _ _ _ e) [
  | inl (same, f) ↦ subst P (some-injective w v f) (p same)
  | inr (_, f) ↦ find_header-All name P rest v h f
]

find_param-All :
    (name token : Str) (pairs : List Str)
    → All (λ pair. (v : Str) → split_once b'=' pair ≡ some (name, v) → decode_param v ≢ token) pairs
    → find_param name pairs ≢ some token
find_param-All name token [] h e = none-ne-some token e
find_param-All name token (pair ∷ rest) (p, h) e = elim (Option-cases (split_once b'=' pair)) [
  | inl nothing ↦ find_param-All name token rest h (sym (rw nothing refl) ∙ e)
  | inr ((k, v), found) ↦
      let chosen : (if str_eq k name then some (decode_param v) else find_param name rest)
          ≡ some token =
        sym (rw found refl) ∙ e in
      elim (if-cases (str_eq k name) _ _ _ chosen) [
        | inl (same, f) ↦
            p v (found ∙ ap (λ n. some (n, v)) (str_eq→eq k name same))
              (some-injective (decode_param v) token f)
        | inr (_, f) ↦ find_param-All name token rest h f
      ]
]

or_second : (a b : Bool) → (a || b) ≡ true → a ≡ false → b ≡ true
or_second true b h e = absurd (false≢true (sym e))
or_second false b h e = h

presents-IsOther :
    (token : Str) (o : Option Str)
    → ((v : Str) → o ≡ some v → IsOther token v)
    → presents token o ≡ false
presents-IsOther token none h = refl
presents-IsOther token (some v) h = elim (Bool-cases (presents token (some v))) [
  | inr e ↦ e
  | inl e ↦
      let shown : trim (drop 7 v) ≡ token = str_eq→eq (trim (drop 7 v)) token (and_right _ _ e) in
      let scheme : (starts_with (ascii "Bearer ") v || starts_with (ascii "bearer ") v) ≡ true =
        and_left _ _ e in
      elim (Bool-cases (starts_with (ascii "Bearer ") v)) [
        | inl big ↦
            absurd (h v refl (drop 7 v) (inl (starts_with-split (ascii "Bearer ") v big)) shown)
        | inr not_big ↦
            let small : starts_with (ascii "bearer ") v ≡ true = or_second _ _ scheme not_big in
            absurd (h v refl (drop 7 v) (inr (starts_with-split (ascii "bearer ") v small)) shown)
      ]
]

is_token-other : (token : Str) (o : Option Str) → o ≢ some token → is_token token o ≡ false
is_token-other token none h = refl
is_token-other token (some t) h = elim (Bool-cases (str_eq t token)) [
  | inr e ↦ e
  | inl e ↦ absurd (h (ap some (str_eq→eq t token e)))
]

IsStranger-authorized :
    (token : Str) (request : Request)
    → IsStranger token request
    → authorized request (some token) ≡ false
unfolding authorized header query_param
IsStranger-authorized token request h =
    rw
      (
        presents-IsOther token (find_header (ascii "authorization") request.headers) (λ v e.
            find_header-All (ascii "authorization") (IsOther token) request.headers v h.no_header
              e),
        is_token-other token (find_param (ascii "token") (split b'&' request.query))
            (find_param-All (ascii "token") token (split b'&' request.query) h.no_param),
      )
      refl

module _ {S : Type 0} (config : ServerConfig) (token : Str) (set : config.token ≡ some token)
    (world : World) (api : AgentApi S) where
  admitted-public :
      (request : Request) (input : Input) (s : S)
      → is_public request ≡ true
      → (admitted config world api request input s).0 ≡ s
  unfolding admitted michoi.Common.Tests.str_eq
  admitted-public request input s free =
      elim (Bool-cases (is_route (ascii "GET") (ascii "/v1/events") request)) [
        | inl e ↦ absurd (private_route (ascii "GET") (ascii "/v1/events") request free refl e)
        | inr e ↦ rw e (elim (Bool-cases (is_route (ascii "POST") (ascii "/v1/talk") request)) [
          | inl e ↦ absurd (private_route (ascii "POST") (ascii "/v1/talk") request free refl e)
          | inr e ↦
              rw e (elim (Bool-cases (is_route (ascii "GET") (ascii "/v1/stream.mjpeg") request)) [
                | inl e ↦
                    absurd
                      (private_route (ascii "GET") (ascii "/v1/stream.mjpeg") request free refl e)
                | inr e ↦
                    rw e
                      (elim (Bool-cases (is_route (ascii "GET") (ascii "/v1/audio.pcm") request)) [
                        | inl e ↦ absurd (
                            private_route (ascii "GET") (ascii "/v1/audio.pcm") request free refl e)
                        | inr e ↦
                            rw e
                              (elim (Bool-cases
                                (is_route (ascii "GET") (ascii "/v1/talk.ws") request)) [
                                  | inl e ↦ absurd (
                                      private_route (ascii "GET") (ascii "/v1/talk.ws") request free
                                        refl e)
                                  | inr e ↦
                                      rw e
                                        (elim (Bool-cases (
                                          is_route (ascii "GET") (ascii "/v1/talk-video.ws")
                                            request)) [
                                              | inl e ↦ absurd (
                                                  private_route (ascii "GET")
                                                    (ascii "/v1/talk-video.ws") request free refl e)
                                              | inr e ↦ rw e (
                                                  route-public world.quality world.format config api
                                                    request s free)
                                            ])
                                ])
                      ])
              ])
        ])
      ]

  serve-stranger :
      (request : Request) (input : Input) (s : S)
      → IsStranger token request
      → (serve config world api request input s).0 ≡ s
  unfolding serve
  serve-stranger request input s stranger = elim (Bool-cases (is_public request)) [
    | inl free ↦ rw free (admitted-public request input s free)
    | inr hidden ↦
        let refused : authorized request config.token ≡ false =
          ap (authorized request) set ∙ IsStranger-authorized token request stranger in
        rw (hidden, refused) refl
  ]

  continue_with-same :
      (again : S → Served config world api) (o : Served config world api) (s : S)
      → o.0 ≡ s
      → (again s).0 ≡ s
      → (continue_with config world api again o).0 ≡ s
  continue_with-same again (t, (out, go_on)) s h k = ap (λ x. (again x).0) h ∙ k
  continue_with-same again (t, (out, finished)) s h k = h
  continue_with-same again (t, (out, broken e)) s h k = h
  continue_with-same again (t, (out, upgraded r)) s h k = h

  served-strangers :
      (again : Input → S → Served config world api) (requests : Input → List Request) (s : S)
      (r : Result ReadError (Option Request × Input))
      → ((input : Input) → All (IsStranger token) (requests input) → (again input s).0 ≡ s)
      → All (IsStranger token) (next_requests requests r)
      → (served config world api again s r).0 ≡ s
  served-strangers again requests s (err e) h k = refl
  served-strangers again requests s (ok (none, rest)) h k = refl
  served-strangers again requests s (ok (some request, rest)) h (k, ks) =
      continue_with-same (again rest) (serve config world api request rest s) s
        (serve-stranger request rest s k) (h rest ks)

  loop-strangers :
      (fuel : ℕ) (input : Input) (s : S)
      → All (IsStranger token) (requests_from fuel input)
      → (connection_loop config world api fuel input s).0 ≡ s
  unfolding connection_loop
  loop-strangers zero input s h = refl
  loop-strangers (suc fuel) input s h =
      served-strangers (connection_loop config world api fuel) (requests_from fuel) s
        (read_request input) (λ rest k. loop-strangers fuel rest s k) h

-- A server with a token set, any Agent behind it, and any bytes on a connection: if none of the
-- requests that can be read from them shows the token, in an Authorization header or in the parameter
-- `token`, the connection leaves the Agent's state as it was; whatever the methods and paths are,
-- those that need no token included.
pub connection-strangers :
    {S : Type 0} (config : ServerConfig) (token : Str) (world : World) (api : AgentApi S)
    (input : Input) (s : S)
    → config.token ≡ some token
    → All (IsStranger token) (requests_of input)
    → (connection config world api input s).0 ≡ s
unfolding connection
connection-strangers config token world api input s set h =
    loop-strangers config token set world api (suc (length input)) input s h
