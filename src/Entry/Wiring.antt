-- ===== src/Entry/Wiring.antt =====
-- cmd/interchange-gateway/main.go: the gateway that main assembles, and what it makes of a request.
-- heraldauth.New is a parameter, and so are url.Parse and strings.TrimSpace; dialling the pillars is in
-- Startup. ServeMux is taken at paths that it leaves as they are.
pub mod Assembly
pub mod Admission
pub mod Handed
pub mod Bypass
use interchange.Base.{
  ℕ, Bool, true, false, Option, none, some, List, [], ◌∷◌, String, Text, codes, is_empty, ◌==◌,
  find, map, if◌then◌else◌,
}
use interchange.Gateway
use interchange.Gateway.{Verifier, Request, product_of, Served, refused, handled, proxied}
use interchange.Edge
use interchange.Entry.{
  Outcome, rejected, called, passed, auth_inject, cairn_composite, herald_composite,
}
use interchange.Entry.Settings.{parse_routes, parse_public_paths, take_route}

-- The environment of the program.
pub record Settings : Type 0 where
  pub auth_bypass : Bool
  pub herald_issuer : Text
  pub routes : Text
  pub public_paths : Text

pub record Tools : Type 0 where
  pub trim_space : Text → Text
  pub parse_url : Text → Option Text
  -- heraldauth.New at an issuer, behind the adapter heraldVerifier
  pub herald_auth : Text → Option Verifier

-- routeProducts
abbrev pub route_products : List (Text × Text)
route_products =
    (codes "/cairn", codes "cairn")
    ∷ (codes "/ledger", codes "ledger")
    ∷ (codes "/knowledge", codes "commonplace")
    ∷ []

-- The handlers that main builds, by the prefix that they serve, with the product that each gets.
abbrev pub handlers : Option Verifier → List (Text × (Text × (Request → Outcome)))
handlers v =
    (codes "/knowledge", (codes "commonplace", auth_inject v (codes "commonplace")))
    ∷ (codes "/ledger", (codes "ledger", auth_inject v (codes "ledger")))
    ∷ (codes "/cairn", (codes "cairn", cairn_composite v (codes "cairn")))
    ∷ (codes "/herald", ([], herald_composite v))
    ∷ (codes "/almanac", ([], auth_inject v []))
    ∷ (codes "/mason", ([], auth_inject v []))
    ∷ (codes "/atlas", ([], auth_inject v []))
    ∷ []

-- The verifier: none at all in bypass mode, and a start without one fails otherwise.
unfoldable pub choose_verifier : Tools → Settings → Option (Option Verifier)
choose_verifier tools s =
    if s.auth_bypass
    then some none
    else if is_empty s.herald_issuer
    then none
    else elim (tools.herald_auth s.herald_issuer) [ none ↦ none | some v ↦ some (some v) ]

-- The program behind its listener.
pub record Entry : Type 0 where
  pub verifier : Option Verifier
  pub cairn_git : Text
  pub herald_http : Text
  pub gateway : Gateway.Gateway

abbrev pub gateway_config : Settings → Tools → Option Verifier → List (Text × Text) → Gateway.Config
gateway_config s tools v routes = record {
  verifier = v;
  auth_bypass = s.auth_bypass;
  public_paths = parse_public_paths tools.trim_space s.public_paths;
  routes = routes;
  route_products = route_products;
  grpc_handlers = map (λ h. (h.0, h.0)) (handlers v);
}

abbrev pub gateway_env : Tools → Gateway.Env
gateway_env tools = record { parse_url = tools.parse_url; trim_space = tools.trim_space }

-- The composite handlers take their backends out of the routes; the rest is for the gateway.
unfoldable pub assemble : Tools → Settings → Option Verifier → List (Text × Text) → Option Entry
assemble tools s v routes =
    let (cairn, others) = take_route routes (codes "/cairn") (codes "http://cairn.cwb.svc:8100") in
    let (herald, rest) = take_route others (codes "/herald") (codes "http://herald.cwb.svc:8099") in
    elim (tools.parse_url cairn) [
      | none ↦ none
      | some cairn_git ↦ elim (tools.parse_url herald) [
        | none ↦ none
        | some herald_http ↦
            elim (Gateway.new (gateway_env tools) (gateway_config s tools v rest)) [
              | none ↦ none
              | some g ↦ some (record {
                verifier = v;
                cairn_git = cairn_git;
                herald_http = herald_http;
                gateway = g;
              })
            ]
      ]
    ]

-- main up to ListenAndServe; none where it ends the program.
unfoldable pub start : Tools → Settings → Option Entry
start tools s = elim (parse_routes tools.trim_space s.routes) [
  | none ↦ none
  | some routes ↦ elim (choose_verifier tools s) [
    | none ↦ none
    | some v ↦ assemble tools s v routes
  ]
]

-- What becomes of a request: an error response, the health answer, a call to the pillar of a handler
-- under an identity, or the backend that it is forwarded to.
pub data Reply : Type 0 where
  answered : ℕ → String → Reply
  healthy : Reply
  calls : Text → Edge.Identity → Request → Reply
  forwards : Text → Request → Reply

-- The two composite handlers have an HTTP backend of their own.
abbrev pub own_backend : Entry → Text → Text
own_backend e name = if name == codes "/cairn" then e.cairn_git else e.herald_http

abbrev pub reply_of : Entry → Text → Outcome → Reply
reply_of e name (rejected status message) = answered status message
reply_of e name (called id r) = calls name id r
reply_of e name (passed r) = forwards (own_backend e name) r

unfoldable pub run_handler : Entry → Text → Request → Reply
run_handler e name r = elim (find (λ h. h.0 == name) (handlers e.verifier)) [
  | none ↦ answered 404 "no route"
  | some h ↦ reply_of e name (h.1.1 r)
]

-- What serve makes of a request, with the handlers behind it.
abbrev pub reply_to : Entry → Served → Reply
reply_to e (refused status message) = answered status message
reply_to e (proxied u r) = forwards u r
reply_to e (handled name r) = run_handler e name r

-- Handler of the gateway, with the handlers of main behind it.
unfoldable pub respond : Entry → Request → Reply
respond e req =
    if req.path == codes "/healthz" then healthy else reply_to e (Gateway.serve e.gateway req)
