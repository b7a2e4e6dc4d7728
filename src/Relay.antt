-- ===== src/Relay.antt =====
-- cmd/interchange/main.go: the relay with its two listeners and its sweeper, and the handlers of
-- internal/landing and internal/discovery at the root of the public one. ServeMux is taken at paths that
-- it leaves as they are, but for the redirect to a subtree. The bodies of the landing page and of the
-- discovery document are static.
pub mod History
pub mod Advertised
pub mod Launch
use interchange.Base.{Bool, true, Option, [], ◌∷◌, Text, codes, ◌==◌, has_prefix, if◌then◌else◌}
use interchange.Platform.{Time}
use interchange.Storage.{Db}
use interchange.Storage.Keys.{empty_db}
use interchange.Handlers
use interchange.Mailbox
use interchange.Submissions
use interchange.Pairflow
use interchange.Sweep
use interchange.RateLimit.{RateLimitConfig, with_defaults, Limiter, KeyMap, decide, client_ip}

-- A request at a listener.
pub record Http : Type 0 where
  pub method : Text
  pub path : Text
  pub raw_query : Text
  pub signature : Text
  pub owner_secret : Text
  pub forwarded_for : Text
  pub remote_addr : Text
  pub body : Option Text

abbrev pub to_mailbox : Http → Mailbox.Request
to_mailbox r = record {
  method = r.method;
  path = r.path;
  raw_query = r.raw_query;
  signature = r.signature;
  body = r.body;
}

abbrev pub to_pairflow : Http → Submissions.Request
to_pairflow r = record {
  method = r.method;
  path = r.path;
  raw_query = r.raw_query;
  owner_secret = r.owner_secret;
  body = r.body;
}

-- A response: the static pages, the health answer, the redirect to a subtree, the refusal of the rate
-- limit, or the reply of a handler.
pub data Response : Type 0 where
  landing_page discovery_document healthy not_found method_not_allowed rate_limited : Response
  moved : Text → Response
  replied : Handlers.Reply → Response

abbrev pub is_get : Http → Bool
is_get r = r.method == codes "GET"

-- Handler of internal/landing
unfoldable pub landing : Http → Response
landing r =
    if r.path == codes "/"
    then (if is_get r then landing_page else method_not_allowed)
    else not_found

-- Handler of internal/discovery, and its path
abbrev pub discovery_path : Text
discovery_path = codes "/.well-known/nexus-interchange"

unfoldable pub discovery : Http → Response
discovery r = if is_get r then discovery_document else method_not_allowed

unfoldable pub health : Http → Response
health r = if is_get r then healthy else method_not_allowed

-- The rate limits of main.
abbrev pub rate_cfg : RateLimitConfig
rate_cfg = record {
  default_rule = record { tokens = 5; seconds = 1; burst = 10 };
  routes =
      record {
        method = codes "POST";
        prefix = codes "/pair/request";
        rule = record { tokens = 5; seconds = 60; burst = 5 };
      }
      ∷ record {
        method = codes "PUT";
        prefix = codes "/mailbox/";
        rule = record { tokens = 1; seconds = 1; burst = 60 };
      }
      ∷ record {
        method = codes "GET";
        prefix = codes "/mailbox/";
        rule = record { tokens = 2; seconds = 1; burst = 120 };
      }
      ∷ [];
  idle_evict_after = 0;
  max_buckets_per_rule = 0;
  trust_xff = true;
}

-- What stays the same while the program runs: its flags, and the functions of the standard library.
pub record Node : Type 0 where
  pub owner_secret : Text
  pub sweep : Sweep.Config
  pub trim_space : Text → Text
  pub split_host : Text → Option Text

-- What a request meets: the clock, the ids and the faults of the driver, in the handlers' environments.
pub record Turn : Type 0 where
  pub now : Time
  pub mailbox : Mailbox.Env
  pub pairflow : Submissions.Env

abbrev pub pairflow_env : Node → Turn → Submissions.Env
pairflow_env node t = record t.pairflow { owner_secret = node.owner_secret }

abbrev pub as_response : Handlers.Reply × Db → Response × Db
as_response (reply, db) = (replied reply, db)

-- publicMux
unfoldable pub public_mux : Node → Turn → Http → Db → Response × Db
public_mux node t r db =
    if has_prefix r.path (codes "/mailbox/")
    then as_response (Mailbox.dispatch t.mailbox (to_mailbox r) db)
    else if has_prefix r.path (codes "/pair/")
    then as_response (Pairflow.dispatch_public (pairflow_env node t) (to_pairflow r) db)
    else if r.path == codes "/health"
    then (health r, db)
    else if r.path == discovery_path
    then (discovery r, db)
    else if r.path == codes "/mailbox"
    then (moved (codes "/mailbox/"), db)
    else if r.path == codes "/pair"
    then (moved (codes "/pair/"), db)
    else (landing r, db)

-- tailnetMux
unfoldable pub tailnet_mux : Node → Turn → Http → Db → Response × Db
tailnet_mux node t r db =
    if has_prefix r.path (codes "/pair/")
    then as_response (Pairflow.dispatch_owner (pairflow_env node t) (to_pairflow r) db)
    else if r.path == codes "/health"
    then (healthy, db)
    else if r.path == codes "/pair"
    then (moved (codes "/pair/"), db)
    else (not_found, db)

-- The program: the tables behind the handlers, and the table of the rate limit.
pub record Relay (L : Limiter) : Type 0 where
  pub db : Db
  pub buckets : KeyMap L

module _ (L : Limiter) (node : Node) where
  abbrev pub fresh : Relay L
  fresh = record { db = empty_db; buckets = [] }

  abbrev pub address : Http → Text
  address r = client_ip node.trim_space node.split_host true r.forwarded_for r.remote_addr

  -- publicHandler: the rate limit around publicMux.
  unfoldable pub serve_public : Turn → Http → Relay L → Response × Relay L
  serve_public t r s =
      let (ok, buckets) =
        decide L (with_defaults rate_cfg) r.method r.path (address r) t.now s.buckets in
      let (response, db) = public_mux node t r s.db in
      if ok
      then (response, record { db = db; buckets = buckets })
      else (rate_limited, record { db = s.db; buckets = buckets })

  -- tailnetHandler
  unfoldable pub serve_tailnet : Turn → Http → Relay L → Response × Relay L
  serve_tailnet t r s =
      let (response, db) = tailnet_mux node t r s.db in (response, record s { db = db })

  -- A tick of the sweeper, and one of the rate limit.
  unfoldable pub sweep_once : Sweep.Tick → Relay L → Relay L
  sweep_once t s = record s { db = Sweep.once (Sweep.defaults node.sweep) t.now t.faults s.db }
