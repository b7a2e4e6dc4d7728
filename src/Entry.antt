-- ===== src/Entry.antt =====
-- cmd/interchange-gateway/main.go: the handlers that stand between the gateway and its pillars. A
-- handler gets the request under the path that the gateway left of it. strings.HasPrefix is has_prefix.
pub mod Settings
pub mod Metadata
pub mod Spoofing
pub mod Lanes
pub mod Composite
pub mod Wiring
pub mod Startup
use interchange.Base.{
  ℕ, Bool, true, false, not, ◌&&◌, ◌||◌, Option, none, some, List, [], ◌∷◌, String, Text, codes,
  is_empty, ◌==◌, contains, has_prefix, join_with, if◌then◌else◌,
}
use interchange.Gateway
use interchange.Gateway.{Verifier, Headers, Request, bearer, set, strip}
use interchange.Edge

-- What a handler does with a request: an error response, a call through the pillar's gRPC mux with the
-- identity in its context, or the plain HTTP backend.
pub data Outcome : Type 0 where
  rejected : ℕ → String → Outcome
  called : Edge.Identity → Request → Outcome
  passed : Request → Outcome

abbrev pub is_none : List Text → Bool
is_none [] = true
is_none (x ∷ xs) = false

-- audienceOK
unfoldable pub audience_ok : Gateway.Identity → Text → Bool
audience_ok gid product =
    if is_empty product || is_none gid.audience
    then true
    else contains (λ a. a == product) gid.audience

abbrev pub zero_identity : Gateway.Identity
zero_identity = record {
  subject = [];
  kind = [];
  org = [];
  responsible_human = [];
  scopes = [];
  products = [];
  audience = [];
}

-- The verification, which a missing verifier skips.
abbrev pub verified : Option Verifier → Text → Option Gateway.Identity
verified none tok = some zero_identity
verified (some v) tok = v tok

abbrev pub edge_identity : Gateway.Identity → Edge.Identity
edge_identity gid = record {
  subject = gid.subject;
  kind = gid.kind;
  org = gid.org;
  responsible_human = gid.responsible_human;
  scopes = gid.scopes;
  products = gid.products;
}

-- The cwb-* headers, each with its form as gRPC metadata.
abbrev pub cwb_headers : List Text
cwb_headers =
    codes "cwb-org"
    ∷ codes "Grpc-Metadata-cwb-org"
    ∷ codes "cwb-subject"
    ∷ codes "Grpc-Metadata-cwb-subject"
    ∷ codes "cwb-kind"
    ∷ codes "Grpc-Metadata-cwb-kind"
    ∷ codes "cwb-scopes"
    ∷ codes "Grpc-Metadata-cwb-scopes"
    ∷ codes "cwb-products"
    ∷ codes "Grpc-Metadata-cwb-products"
    ∷ codes "cwb-responsible-human"
    ∷ codes "Grpc-Metadata-cwb-responsible-human"
    ∷ []

abbrev pub x_cwb_headers : List Text
x_cwb_headers =
    codes "X-CWB-Org"
    ∷ codes "X-CWB-Subject"
    ∷ codes "X-CWB-Kind"
    ∷ codes "X-CWB-Scopes"
    ∷ codes "X-CWB-Products"
    ∷ codes "X-CWB-Responsible-Human"
    ∷ []

-- stripSpoofedIdentity
unfoldable pub strip_spoofed_identity : Headers → Headers
strip_spoofed_identity hs = strip x_cwb_headers (strip cwb_headers hs)

-- injectCWBHeaders
unfoldable pub inject_cwb_headers : Edge.Identity → Headers → Headers
inject_cwb_headers id hs =
    let five = set (codes "X-CWB-Products") (join_with b' ' id.products) (
      set (codes "X-CWB-Scopes") (join_with b' ' id.scopes) (
        set (codes "X-CWB-Kind") id.kind
          (set (codes "X-CWB-Subject") id.subject (set (codes "X-CWB-Org") id.org hs)))) in
    if is_empty id.responsible_human
    then five
    else set (codes "X-CWB-Responsible-Human") id.responsible_human five

abbrev pub with_headers : Request → Headers → Request
with_headers r hs = record r { headers = hs }

-- The bearer token and its verification, with which authInject, cairnComposite and heraldComposite
-- begin.
unfoldable pub authenticate : Option Verifier → Request → (Gateway.Identity → Outcome) → Outcome
authenticate v r next =
    let tok = bearer r.headers in
    if is_empty tok
    then rejected 401 "missing bearer token"
    else elim (verified v tok) [ none ↦ rejected 401 "invalid token" | some gid ↦ next gid ]

-- authInject
unfoldable pub auth_inject : Option Verifier → Text → Request → Outcome
auth_inject v product r = authenticate v r (λ gid.
    let id = edge_identity gid in
    if not (is_empty product) && not (Edge.has_product id product)
    then rejected 403 "product not enabled for org"
    else if not (audience_ok gid product)
    then rejected 403 "token audience does not include this service"
    else called id (with_headers r (strip cwb_headers r.headers)))

-- The two lanes of cairnComposite.
unfoldable pub cairn_lane : Edge.Identity → Request → Outcome
cairn_lane id r =
    let clean = strip_spoofed_identity r.headers in
    if has_prefix r.path (codes "/api/")
    then called id (with_headers r clean)
    else passed (with_headers r (inject_cwb_headers id clean))

-- cairnComposite
unfoldable pub cairn_composite : Option Verifier → Text → Request → Outcome
cairn_composite v product r = authenticate v r (λ gid.
    let id = edge_identity gid in
    if not (Edge.has_product id product)
    then rejected 403 "product not enabled for org"
    else if not (audience_ok gid product)
    then rejected 403 "token audience does not include this service"
    else cairn_lane id r)

-- The paths that heraldComposite does not pass through.
unfoldable pub is_admin_path : Text → Bool
is_admin_path p =
    has_prefix p (codes "/api/orgs")
    || (has_prefix p (codes "/api/humans/") || p == codes "/api/me")

-- heraldComposite
unfoldable pub herald_composite : Option Verifier → Request → Outcome
herald_composite v r =
    let clean = with_headers r (strip_spoofed_identity r.headers) in
    if is_admin_path r.path
    then authenticate v r (λ gid. called (edge_identity gid) clean)
    else passed clean
