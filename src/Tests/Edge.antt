-- ===== src/Tests/Edge.antt =====
-- The sweeper on the small deployment, and a gateway with a gated route, a core route and a handler.
use interchange.Base.{
  ◌*◌, ◌≡◌, refl, true, false, some, List, [], ◌∷◌, text_eq, Text, codes, find, filter, contains,
  has_prefix, cut_prefix, sort_by, insert_by, take, drop,
}
use interchange.Platform.{second}
use interchange.Storage.{Db, no_faults, denied, PairRequest}
use interchange.Storage.Requests.{lookup}
use interchange.Sweep.{Config, Tick, run}
use interchange.Sweep.Retention.{Swept, Kept, run-Swept}
use interchange.Gateway
use interchange.Gateway.{Identity, Route, Request, backend, proxied, match_route, serve}
use interchange.Gateway.Headers.{Admission, serve-Admission}
use interchange.Gateway.Routing.{Matched, configured, match_route-longest}
use interchange.Tests.{request_id, open_request, db}

abbrev sweeper : Config
sweeper = record { interval = second; envelope_max_age = 60 * second }

abbrev failing : Tick
failing = record { now = 2000 * second; faults = λ op. true }

abbrev working : Tick
working = record { now = 100000 * second; faults = no_faults }

run-Swept_example :
    let after = run sweeper (failing ∷ working ∷ []) db in
    Swept sweeper (100000 * second) after × Kept sweeper (failing ∷ working ∷ []) db after
run-Swept_example = run-Swept sweeper (failing ∷ []) working db (λ op. refl)

abbrev closed_request : PairRequest
closed_request = record open_request { status = denied }

abbrev closed_db : Db
closed_db = record db { requests = closed_request ∷ [] }

found_closed : lookup request_id closed_db ≡ some closed_request
unfolding find text_eq
found_closed = refl

abbrev alice : Identity
alice = record {
  subject = codes "alice";
  kind = codes "human";
  org = codes "acme";
  responsible_human = [];
  scopes = codes "read" ∷ codes "write" ∷ [];
  products = codes "ledger" ∷ [];
  audience = [];
}

abbrev tools : Gateway.Env
tools = record { parse_url = λ s. some s; trim_space = λ s. s }

abbrev setup : Gateway.Config
setup = record {
  verifier = some (λ token. some alice);
  auth_bypass = false;
  public_paths = codes "/herald/.well-known/" ∷ [];
  routes = (codes "/herald", codes "http://h") ∷ (codes "/ledger/", codes "http://l") ∷ [];
  route_products = (codes "/ledger", codes "ledger") ∷ [];
  grpc_handlers = (codes "/ledger/v1", codes "grpc") ∷ [];
}

abbrev proxies : List Route
proxies =
    record { prefix = codes "/herald"; target = backend (codes "http://h") [] }
    ∷ record { prefix = codes "/ledger"; target = backend (codes "http://l") (codes "ledger") }
    ∷ []

proxies_parse : Gateway.proxy_routes tools setup.route_products setup.routes ≡ some proxies
unfolding Gateway.proxy_routes Gateway.trim_right_slash Gateway.product_of find text_eq
proxies_parse = refl

abbrev gateway : Gateway.Gateway
gateway = record {
  bypass = false;
  verify = λ token. some alice;
  routes =
      record { prefix = codes "/ledger/v1"; target = Gateway.Target.handler (codes "grpc") }
      ∷ proxies;
  public_exact = [];
  public_prefixes = codes "/herald/.well-known/" ∷ [];
}

gateway_built : Gateway.new tools setup ≡ some gateway
unfolding Gateway.new Gateway.proxy_routes Gateway.trim_right_slash Gateway.product_of
    Gateway.ends_in_slash find text_eq sort_by insert_by filter
gateway_built = refl

match_route-longest_example :
    Matched
      (configured setup proxies)
      (codes "/ledger/v1/books")
      (match_route gateway.routes (codes "/ledger/v1/books"))
match_route-longest_example =
    match_route-longest tools setup gateway proxies (codes "/ledger/v1/books") proxies_parse
      gateway_built

-- A client that forges an identity header and holds a token.
abbrev request : Request
request = record {
  path = codes "/ledger/books";
  headers = (codes "X-CWB-Org", codes "evil") ∷ (codes "Authorization", codes "bearer t") ∷ [];
}

abbrev forwarded : Request
forwarded = record {
  path = codes "/books";
  headers = Gateway.inject_identity alice ((codes "Authorization", codes "bearer t") ∷ []);
}

serve_run : serve gateway request ≡ proxied (codes "http://l") forwarded
unfolding serve match_route Gateway.serve_backend Gateway.strip Gateway.del Gateway.bearer
    Gateway.get Gateway.is_public Gateway.has_product Gateway.equal_fold find filter text_eq
    has_prefix cut_prefix contains take drop
serve_run = refl

serve-Admission_example :
    (rt : Route) × (rest : Text) × (product : Text) × (match_route gateway.routes request.path
      ≡ some (rt, rest))
    × (rt.target ≡ backend (codes "http://l") product)
    × (forwarded.path ≡ rest)
    × Admission gateway product request forwarded.headers
serve-Admission_example = serve-Admission gateway (codes "http://l") request forwarded serve_run
