-- ===== src/Entry/Startup.antt =====
-- cmd/interchange-gateway/main.go: the steps of main from the environment to the listener, with the
-- dialling of the pillars by internal/edge/edge.go. Key files, certificate pools, grpc.NewClient and
-- the generated Register functions are parameters. The deadlines of a shutdown are in Settings.
pub mod Edges
pub mod Up
use interchange.Base.{
  ℕ, Bool, true, false, Option, none, some, List, [], ◌∷◌, ◌++◌, String, Text, codes, is_empty,
}
use interchange.Gateway
use interchange.Entry.Settings.{parse_routes, take_route, env}
use interchange.Entry.Wiring.{Settings, Tools, Entry, choose_verifier, gateway_config, gateway_env}

-- A client of a pillar: where it goes, and the credentials of its tls.Config.
pub record Connection : Type 0 where
  pub target : Text
  pub certificate : Text
  pub root_cas : Text
  pub min_version : ℕ

pub record Dialer : Type 0 where
  -- tls.LoadX509KeyPair
  pub load_x509_key_pair : Text → Text → Option Text
  -- os.ReadFile
  pub read_file : Text → Option Text
  -- AppendCertsFromPEM on an empty pool
  pub append_certs : Text → Option Text
  -- grpc.NewClient, whether it succeeds
  pub new_client : Connection → Bool
  -- Register...Handler of a service, whether it succeeds
  pub register : String → Connection → Bool

pub record TlsFiles : Type 0 where
  pub cert : Text
  pub key : Text
  pub ca : Text

abbrev pub version_tls13 : ℕ
version_tls13 = 0x0304

-- grpc.NewClient with the error that comes with a nil connection.
abbrev pub connect : Dialer → Connection → Option Connection
connect d c = elim (d.new_client c) [ true ↦ some c | false ↦ none ]

-- DialPillar
unfoldable pub dial_pillar : Dialer → TlsFiles → Text → Option Connection
dial_pillar d files addr = elim (d.load_x509_key_pair files.cert files.key) [
  | none ↦ none
  | some cert ↦ elim (d.read_file files.ca) [
    | none ↦ none
    | some pem ↦ elim (d.append_certs pem) [
      | none ↦ none
      | some pool ↦ connect d (record {
        target = addr;
        certificate = cert;
        root_cas = pool;
        min_version = version_tls13;
      })
    ]
  ]
]

-- What ends the program before it listens.
pub data Fatal : Type 0 where
  bad_routes no_issuer no_verifier bad_gateway : Fatal
  dial unregistered bad_backend : String → Fatal

pub data Startup {ℓ} (A : Type ℓ) : Type ℓ where
  ready : A → Startup A
  fatal : Fatal → Startup A

infixl 5 ◌>>=◌ ◌>>◌
abbrev pub ◌>>=◌ {ℓ κ} : {A : Type ℓ} {B : Type κ} → Startup A → (A → Startup B) → Startup B
ready a >>= f = f a
fatal e >>= f = fatal e

abbrev pub ◌>>◌ {ℓ} : {B : Type ℓ} → Startup (Unit {0}) → Startup B → Startup B
m >> k = m >>= λ _. k

abbrev pub or_fatal {ℓ} : {A : Type ℓ} → Option A → Fatal → Startup A
or_fatal none e = fatal e
or_fatal (some a) e = ready a

-- A gRPC edge: its name in the log, its address, and the services that its mux serves.
pub record Pillar : Type 0 where
  pub name : String
  pub address : Text
  pub services : List String

-- The registrations, up to the first that fails.
unfoldable pub register_all : Dialer → String → List String → Connection → Startup (Unit {0})
register_all d name [] c = ready tt
register_all d name (service ∷ services) c = elim (d.register service c) [
  | true ↦ register_all d name services c
  | false ↦ fatal (unregistered name)
]

unfoldable pub open_pillar : Dialer → TlsFiles → Pillar → Startup Connection
open_pillar d files p = do
  c ← or_fatal (dial_pillar d files p.address) (dial p.name)
  register_all d p.name p.services c
  ready c

unfoldable pub open_pillars : Dialer → TlsFiles → List Pillar → Startup (List Connection)
open_pillars d files [] = ready []
open_pillars d files (p ∷ ps) = do
  c ← open_pillar d files p
  cs ← open_pillars d files ps
  ready (c ∷ cs)

-- The variables of the environment that main reads.
pub record Environment : Type 0 where
  pub settings : Settings
  pub tls : TlsFiles
  pub commonplace_grpc : Text
  pub ledger_grpc : Text
  pub almanac_grpc : Text
  pub mason_grpc : Text
  pub atlas_grpc : Text
  pub cairn_grpc : Text
  pub herald_grpc : Text

-- The edges of which authInject is the handler, in the order in which main opens them.
abbrev pub plain_pillars : Environment → List Pillar
plain_pillars e =
    record {
      name = "commonplace";
      address = env e.commonplace_grpc (codes "commonplace.cwb.svc:50051");
      services = "KnowledgeService" ∷ [];
    }
    ∷ record {
      name = "ledger";
      address = env e.ledger_grpc (codes "ledger.cwb.svc:50051");
      services = "IssueService" ∷ "ProjectService" ∷ "OrgService" ∷ "AdminService" ∷ [];
    }
    ∷ record {
      name = "almanac";
      address = env e.almanac_grpc (codes "almanac.cwb.svc:8083");
      services = "ConfigService" ∷ "SecretService" ∷ "AlmanacAdminService" ∷ [];
    }
    ∷ record {
      name = "mason";
      address = env e.mason_grpc (codes "mason.cwb.svc:8086");
      services = "AppService" ∷ [];
    }
    ∷ record {
      name = "atlas";
      address = env e.atlas_grpc (codes "atlas.cwb.svc.cluster.local:8089");
      services = "StrataService" ∷ [];
    }
    ∷ []

abbrev pub cairn_pillar : Environment → Pillar
cairn_pillar e = record {
  name = "cairn";
  address = env e.cairn_grpc (codes "cairn.cwb.svc:8102");
  services = "RepoService" ∷ "PullService" ∷ "OrgService" ∷ [];
}

abbrev pub herald_pillar : Environment → Pillar
herald_pillar e = record {
  name = "herald";
  address = env e.herald_grpc (codes "herald.cwb.svc:8098");
  services = "AdminService" ∷ [];
}

-- Why there is no verifier.
abbrev pub missing_verifier : Settings → Fatal
missing_verifier s = elim (is_empty s.herald_issuer) [ true ↦ no_issuer | false ↦ no_verifier ]

-- The program behind its listener, with the connections of its edges.
pub record Running : Type 0 where
  pub entry : Entry
  pub connections : List Connection

-- main up to ListenAndServe.
unfoldable pub boot : Tools → Dialer → Environment → Startup Running
boot tools d e = do
  routes ← or_fatal (parse_routes tools.trim_space e.settings.routes) bad_routes
  v ← or_fatal (choose_verifier tools e.settings) (missing_verifier e.settings)
  five ← open_pillars d e.tls (plain_pillars e)
  let (cairn_http, others) = take_route routes (codes "/cairn") (codes "http://cairn.cwb.svc:8100")
  cairn ← open_pillar d e.tls (cairn_pillar e)
  cairn_git ← or_fatal (tools.parse_url cairn_http) (bad_backend "cairn")
  let (herald, rest) = take_route others (codes "/herald") (codes "http://herald.cwb.svc:8099")
  admin ← open_pillar d e.tls (herald_pillar e)
  herald_http ← or_fatal (tools.parse_url herald) (bad_backend "herald")
  g ←
      or_fatal (Gateway.new (gateway_env tools) (gateway_config e.settings tools v rest))
        bad_gateway
  ready (record {
    entry = record { verifier = v; cairn_git = cairn_git; herald_http = herald_http; gateway = g };
    connections = five ++ (cairn ∷ admin ∷ []);
  })
