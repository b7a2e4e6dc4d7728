-- ===== src/Gateway.antt =====
-- internal/gateway/gateway.go: the routing and authenticating proxy. The maps of the configuration come
-- as lists in the order in which Go happens to visit them. The two ends of a route, the reverse proxy
-- and a handler of its own, are what the request is handed to.
pub mod Routing
pub mod Headers
use interchange.Base.{
  ℕ, ◌+◌, Bool, true, false, not, ◌&&◌, ◌||◌, Option, none, some, List, [], ◌∷◌, ◌++◌, map, String,
  Text, codes, is_empty, ltb, leb, eqb, ◌==◌, length, find, filter, contains, sort_by, has_prefix,
  cut_prefix, join_with, take, drop, if◌then◌else◌,
}

pub record Identity : Type 0 where
  pub subject : Text
  pub kind : Text
  pub org : Text
  pub responsible_human : Text
  pub scopes : List Text
  pub products : List Text
  pub audience : List Text

-- url.Parse up to what the proxy keeps of it, strings.TrimSpace, and the token verifier.
pub record Env : Type 0 where
  pub parse_url : Text → Option Text
  pub trim_space : Text → Text

abbrev pub Verifier : Type 0
Verifier = Text → Option Identity

pub record Config : Type 0 where
  pub verifier : Option Verifier
  pub auth_bypass : Bool
  pub public_paths : List Text
  pub routes : List (Text × Text)
  pub route_products : List (Text × Text)
  pub grpc_handlers : List (Text × Text)

-- Where a route leads: a backend behind the proxy with its product, or a handler.
pub data Target : Type 0 where
  backend : Text → Text → Target
  handler : Text → Target

pub record Route : Type 0 where
  pub prefix : Text
  pub target : Target

pub record Gateway : Type 0 where
  pub bypass : Bool
  pub verify : Verifier
  pub routes : List Route
  pub public_exact : List Text
  pub public_prefixes : List Text

abbrev pub slash : ℕ
slash = b'/'

-- strings.TrimRight(s, "/"), from the end.
unfoldable pub trim_right_slash : Text → Text
trim_right_slash [] = []
trim_right_slash (c ∷ s) =
    let rest = trim_right_slash s in if is_empty rest && eqb c slash then [] else c ∷ rest

-- strings.HasSuffix(s, "/")
unfoldable pub ends_in_slash : Text → Bool
ends_in_slash [] = false
ends_in_slash (c ∷ s) = let rest = ends_in_slash s in if is_empty s then eqb c slash else rest

-- A map lookup, the zero value where the key is missing.
unfoldable pub product_of : List (Text × Text) → Text → Text
product_of products p = elim (find (λ q. q.0 == p) products) [ none ↦ [] | some q ↦ q.1 ]

-- The proxied routes, unless some backend does not parse.
unfoldable pub proxy_routes : Env → List (Text × Text) → List (Text × Text) → Option (List Route)
proxy_routes env products [] = some []
proxy_routes env products (q ∷ rest) =
    let others = proxy_routes env products rest in
    let p = trim_right_slash q.0 in
    elim (env.parse_url q.1) [
      | none ↦ none
      | some u ↦ elim others [
        | none ↦ none
        | some rs ↦ some (record { prefix = p; target = backend u (product_of products p) } ∷ rs)
      ]
    ]

abbrev pub grpc_route : Text × Text → Route
grpc_route q = record { prefix = trim_right_slash q.0; target = handler q.1 }

abbrev pub longer : Route → Route → Bool
longer a b = ltb (length b.prefix) (length a.prefix)

abbrev pub trimmed_paths : Env → Config → List Text
trimmed_paths env cfg = filter (λ p. not (is_empty p)) (map env.trim_space cfg.public_paths)

-- What stands in for a missing verifier, which a gateway in bypass mode never asks.
abbrev pub no_verifier : Option Verifier → Verifier
no_verifier none token = none
no_verifier (some v) token = v token

abbrev pub is_verifiable : Config → Bool
is_verifiable cfg = elim cfg.verifier [ none ↦ cfg.auth_bypass | some v ↦ true ]

-- New
unfoldable pub new : Env → Config → Option Gateway
new env cfg =
    if is_verifiable cfg
    then elim (proxy_routes env cfg.route_products cfg.routes) [
      | none ↦ none
      | some rs ↦ some (record {
        bypass = cfg.auth_bypass;
        verify = no_verifier cfg.verifier;
        routes = sort_by longer (rs ++ map grpc_route cfg.grpc_handlers);
        public_exact = filter (λ p. not (ends_in_slash p)) (trimmed_paths env cfg);
        public_prefixes = filter ends_in_slash (trimmed_paths env cfg);
      })
    ]
    else none

-- Header fields by canonical name, in order; a name may occur more than once.
abbrev pub Headers : Type 0
Headers = List (Text × Text)

pub record Request : Type 0 where
  pub path : Text
  pub headers : Headers

-- Header.Del, Header.Set and Header.Get
unfoldable pub del : Text → Headers → Headers
del name hs = filter (λ h. not (h.0 == name)) hs

unfoldable pub set : Text → Text → Headers → Headers
set name value hs = del name hs ++ ((name, value) ∷ [])

unfoldable pub get : Text → Headers → Text
get name hs = elim (find (λ h. h.0 == name) hs) [ none ↦ [] | some h ↦ h.1 ]

abbrev pub trusted_headers : List Text
trusted_headers =
    codes "X-CWB-Org"
    ∷ codes "X-CWB-Subject"
    ∷ codes "X-CWB-Kind"
    ∷ codes "X-CWB-Scopes"
    ∷ codes "X-CWB-Responsible-Human"
    ∷ codes "X-CWB-Products"
    ∷ []

-- The loop of serve over the trusted headers.
unfoldable pub strip : List Text → Headers → Headers
strip [] hs = hs
strip (name ∷ names) hs = strip names (del name hs)

-- injectIdentity
unfoldable pub inject_identity : Identity → Headers → Headers
inject_identity id hs =
    let five = set (codes "X-CWB-Products") (join_with b' ' id.products) (
      set (codes "X-CWB-Scopes") (join_with b' ' id.scopes) (
        set (codes "X-CWB-Kind") id.kind
          (set (codes "X-CWB-Subject") id.subject (set (codes "X-CWB-Org") id.org hs)))) in
    if is_empty id.responsible_human
    then five
    else set (codes "X-CWB-Responsible-Human") id.responsible_human five

unfoldable pub has_product : List Text → Text → Bool
has_product products p = contains (λ x. x == p) products

abbrev pub lower : ℕ → ℕ
lower c = if leb b'A' c && leb c b'Z' then c + 32 else c

-- strings.EqualFold against a word whose letters have no case variants beyond ASCII.
unfoldable pub equal_fold : Text → Text → Bool
equal_fold [] [] = true
equal_fold [] (d ∷ t) = false
equal_fold (c ∷ s) [] = false
equal_fold (c ∷ s) (d ∷ t) = eqb (lower c) (lower d) && equal_fold s t

-- bearer
unfoldable pub bearer : Headers → Text
bearer hs =
    let h = get (codes "Authorization") hs in
    if ltb 7 (length h) && equal_fold (take 7 h) (codes "Bearer ") then drop 7 h else []

-- isPublic
unfoldable pub is_public : Gateway → Text → Bool
is_public g path =
    contains (λ p. p == path) g.public_exact || contains (λ p. has_prefix path p) g.public_prefixes

abbrev pub serves : Text → Route → Bool
serves path rt = path == rt.prefix || has_prefix path (rt.prefix ++ (slash ∷ []))

abbrev pub remainder : Text → Text → Text
remainder path prefix = elim (cut_prefix path prefix) [
  | none ↦ path
  | some rest ↦ if is_empty rest then slash ∷ [] else rest
]

-- match
unfoldable pub match_route : List Route → Text → Option (Route × Text)
match_route routes path = elim (find (serves path) routes) [
  | none ↦ none
  | some rt ↦ some (rt, remainder path rt.prefix)
]

-- The end of a request: a refusal, or what is handed on, and to whom.
pub data Served : Type 0 where
  refused : ℕ → String → Served
  handled : Text → Request → Served
  proxied : Text → Request → Served

-- The checks and rewrites for a proxied route.
unfoldable pub serve_backend : Gateway → Text → Text → Text → Request → Served
serve_backend g u product rest req =
    let clean = strip trusted_headers req.headers in
    if not g.bypass && not (is_public g req.path)
    then (let tok = bearer clean in
        if is_empty tok then refused 401 "missing bearer token" else elim (g.verify tok) [
          | none ↦ refused 401 "invalid token"
          | some id ↦
              if not (is_empty product) && not (has_product id.products product)
              then refused 403 "product not enabled for org"
              else proxied u (record { path = rest; headers = inject_identity id clean })
        ])
    else proxied u (record { path = rest; headers = clean })

abbrev pub serve_target : Gateway → Target → Text → Request → Served
serve_target g (handler h) rest req = handled h (record req { path = rest })
serve_target g (backend u product) rest req = serve_backend g u product rest req

-- serve
unfoldable pub serve : Gateway → Request → Served
serve g req = elim (match_route g.routes req.path) [
  | none ↦ refused 404 "no route"
  | some (rt, rest) ↦ serve_target g rt.target rest req
]
