-- ===== src/Tests/Entrances.antt =====
-- The gateway command with a git lane, in its normal mode and in bypass mode.
use interchange.Base.{
  ◌≡◌, ◌≢◌, ◌⊎◌, refl, true, false, none, some, List, [], ◌∷◌, Text, codes, text_eq, ◌==◌, find,
  filter, contains, has_prefix, cut_prefix, sort_by, take, drop, split_on, if◌then◌else◌, arith,
}
use interchange.Gateway
use interchange.Gateway.{Identity, Request, bearer, Route, match_route, product_of, backend}
use interchange.Gateway.Headers.{Admission, Without}
use interchange.Edge
use interchange.Edge.{Metadata, IsLawful}
use interchange.Edge.Carried.{Carries}
use interchange.Entry.{
  auth_inject, cairn_composite, cairn_lane, audience_ok, authenticate, edge_identity, zero_identity,
  cwb_headers, strip_spoofed_identity, inject_cwb_headers,
}
use interchange.Entry.Metadata.{annotate, joined_some}
use interchange.Entry.Settings
use interchange.Entry.Settings.RoundTrip.{
  Plain, print_routes, last_value, parse_routes-print_routes,
}
use interchange.Entry.Lanes.{Entitled}
use interchange.Entry.Wiring.{
  Settings, Tools, Entry, start, respond, calls, forwards, route_products, run_handler,
  choose_verifier, assemble,
}
use interchange.Entry.Wiring.Handed.{Handed}
use interchange.Entry.Wiring.Admission.{Composite, Vouched, calls-Carries, respond-forwards}
use interchange.Entry.Wiring.Bypass.{bypass-calls}

-- Metadata as a function of its keys.
abbrev metadata : Metadata
metadata = record {
  Md = Text → List Text;
  empty = λ k. [];
  set = λ m k v j. if k == j then v ∷ [] else m j;
  delete = λ m k j. if k == j then [] else m j;
  values = λ m k. m k;
}

metadata-IsLawful : IsLawful metadata
metadata-IsLawful = record {
  values-empty = λ k. refl;
  values-set = λ m j v k. refl;
  values-delete = λ m j k. refl;
}

abbrev bob : Identity
bob = record {
  subject = codes "bob";
  kind = codes "agent";
  org = codes "acme";
  responsible_human = codes "alice";
  scopes = codes "repo" ∷ [];
  products = codes "cairn" ∷ [];
  audience = codes "cairn" ∷ [];
}

abbrev route_to : Text → Route
route_to prefix = record { prefix = prefix; target = Gateway.Target.handler prefix }

abbrev handler_routes : List Route
handler_routes =
    route_to (codes "/knowledge")
    ∷ route_to (codes "/almanac")
    ∷ route_to (codes "/ledger")
    ∷ route_to (codes "/herald")
    ∷ route_to (codes "/cairn")
    ∷ route_to (codes "/mason")
    ∷ route_to (codes "/atlas")
    ∷ []

abbrev entry : Entry
entry = record {
  verifier = some (λ token. some bob);
  cairn_git = codes "http://git";
  herald_http = codes "http://herald";
  gateway = record {
    bypass = false;
    verify = λ token. some bob;
    routes = handler_routes;
    public_exact = [];
    public_prefixes = [];
  };
}

abbrev token : List (Text × Text)
token = (codes "Authorization", codes "Bearer t") ∷ []

abbrev api_request : Request
api_request = record {
  path = codes "/cairn/api/repos";
  headers = (codes "cwb-org", codes "evil") ∷ token;
}

abbrev api_call : Request
api_call = record { path = codes "/api/repos"; headers = token }

api_run : respond entry api_request ≡ calls (codes "/cairn") (edge_identity bob) api_call
unfolding respond Gateway.serve match_route run_handler cairn_composite authenticate cairn_lane
    audience_ok Edge.has_product strip_spoofed_identity Gateway.strip Gateway.del Gateway.bearer
    Gateway.get Gateway.equal_fold find filter text_eq has_prefix cut_prefix contains take drop
api_run = refl

calls-Carries_example :
    (r : Request) × Handed entry api_request (codes "/cairn") r
    × (gid : Gateway.Identity) × (bearer r.headers ≢ [])
    × Vouched entry.verifier (bearer r.headers) gid
    × ((product_of route_products (codes "/cairn") ≡ [])
        ⊎ Entitled gid (product_of route_products (codes "/cairn")))
    × (edge_identity bob ≡ edge_identity gid)
    × (api_call.path ≡ r.path)
    × Without cwb_headers api_call.headers
    × Carries joined_some
        (edge_identity bob)
        (λ k. metadata.values (annotate metadata (some (edge_identity bob))) k)
calls-Carries_example =
    calls-Carries metadata metadata-IsLawful entry api_request api_call (codes "/cairn")
      (edge_identity bob) api_run

abbrev git_request : Request
git_request = record {
  path = codes "/cairn/repo.git/info";
  headers = (codes "X-CWB-Org", codes "evil") ∷ token;
}

abbrev git_forwarded : Request
git_forwarded = record {
  path = codes "/repo.git/info";
  headers = inject_cwb_headers (edge_identity bob) token;
}

git_run : respond entry git_request ≡ forwards (codes "http://git") git_forwarded
unfolding respond Gateway.serve match_route run_handler cairn_composite authenticate cairn_lane
    audience_ok Edge.has_product strip_spoofed_identity Gateway.strip Gateway.del Gateway.bearer
    Gateway.get Gateway.equal_fold find filter text_eq has_prefix cut_prefix contains take drop
git_run = refl

respond-forwards_example :
    ((rt : Route) × (rest : Text) × (product : Text) × (match_route entry.gateway.routes
          git_request.path
        ≡ some (rt, rest))
      × (rt.target ≡ backend (codes "http://git") product)
      × (git_forwarded.path ≡ rest)
      × Admission entry.gateway product git_request git_forwarded.headers)
    ⊎ Composite entry git_request (codes "http://git") git_forwarded
respond-forwards_example =
    respond-forwards entry git_request git_forwarded (codes "http://git") git_run

abbrev pub tools : Tools
tools = record { trim_space = λ s. s; parse_url = λ s. some s; herald_auth = λ issuer. none }

abbrev pub standalone : Settings
standalone = record {
  auth_bypass = true;
  herald_issuer = [];
  routes = codes "/cairn=http://git,/herald=http://herald";
  public_paths = [];
}

abbrev pub open_entry : Entry
open_entry = record {
  verifier = none;
  cairn_git = codes "http://git";
  herald_http = codes "http://herald";
  gateway = record {
    bypass = true;
    verify = λ token. none;
    routes = handler_routes;
    public_exact = [];
    public_prefixes = [];
  };
}

open_start : start tools standalone ≡ some open_entry
unfolding start assemble choose_verifier Settings.parse_routes Settings.parse_entries split_on
    Settings.parse_entry Settings.cut Gateway.new Gateway.proxy_routes Settings.take_route filter
    Gateway.set Gateway.del text_eq product_of sort_by Settings.parse_public_paths find
    Gateway.trim_right_slash
open_start = refl

abbrev config_request : Request
config_request = record { path = codes "/almanac/config"; headers = token }

abbrev config_call : Request
config_call = record { path = codes "/config"; headers = token }

config_run :
    respond open_entry config_request
    ≡ calls (codes "/almanac") (edge_identity zero_identity) config_call
unfolding respond Gateway.serve match_route run_handler auth_inject authenticate audience_ok
    Gateway.strip Gateway.del Gateway.bearer Gateway.get Gateway.equal_fold find filter text_eq
    has_prefix cut_prefix take drop
config_run = refl

bypass-calls_example :
    (product_of route_products (codes "/almanac") ≡ [])
    × (edge_identity zero_identity ≡ edge_identity zero_identity)
bypass-calls_example =
    bypass-calls tools standalone open_entry config_request config_call (codes "/almanac")
      (edge_identity zero_identity) open_start refl config_run

abbrev first_entry : Text × Text
first_entry = (codes "/a", codes "u")

abbrev later_entry : Text × Text
later_entry = (codes "/a", codes "v")

first_entry-Plain : Plain (λ s. s) first_entry
first_entry-Plain = (ground arith, ground arith, refl, refl, refl, refl, refl)

later_entry-Plain : Plain (λ s. s) later_entry
later_entry-Plain = (ground arith, ground arith, refl, refl, refl, refl, refl)

parse_routes-print_routes_example :
    (routes : List (Text × Text)) × (Settings.parse_routes
        (λ s. s)
        (print_routes (first_entry ∷ later_entry ∷ []))
      ≡ some routes)
    × ((k : Text) → product_of routes k ≡ last_value (first_entry ∷ later_entry ∷ []) k [])
parse_routes-print_routes_example =
    parse_routes-print_routes (λ s. s) first_entry (later_entry ∷ [])
      (first_entry-Plain, (later_entry-Plain, tt)) refl
