-- ===== src/Entry/Startup/Up.antt =====
-- When the gateway command comes up, and what it is connected to then.
use interchange.Base.{
  ◌≡◌, ◌↔◌, sym, ap, some, List, [], ◌∷◌, ◌++◌, subst, String, Text, codes, is_empty, if◌then◌else◌,
}
use interchange.Gateway
use interchange.Gateway.{Verifier}
use interchange.Entry.Settings.{parse_routes}
use interchange.Entry.Wiring.{Tools, choose_verifier, gateway_config, gateway_env, start}
use interchange.Entry.Startup.{
  Connection, Dialer, ready, or_fatal, Pillar, open_pillar, open_pillars, Environment,
  plain_pillars, cairn_pillar, herald_pillar, missing_verifier, Running, boot, bad_routes,
  bad_gateway, bad_backend,
}
use interchange.Entry.Startup.Edges.{
  then_ready, ready-injective, or_fatal-eq-ready, AllOpened, open-Opened, Opened-open,
  open-AllOpened, AllOpened-open, AllOpened-append, AllOpened-split,
}
use interchange.Entry.Wiring.Assembly.{
  cairn_taken, herald_taken, Assembled, Assembled-start, start-Assembled,
}

-- An edge by its name: at the address of the variable, or at the default one where that is empty, with
-- the services that are served over it.
abbrev pub edge : String → Text → String → List String → Pillar
edge name variable default services = record {
  name = name;
  address = if is_empty variable then codes default else variable;
  services = services;
}

-- What the command is to be connected to, each pillar by its own variable.
abbrev pub edges : Environment → List Pillar
edges e =
    edge "commonplace" e.commonplace_grpc "commonplace.cwb.svc:50051" ("KnowledgeService" ∷ [])
    ∷ edge "ledger" e.ledger_grpc "ledger.cwb.svc:50051"
        ("IssueService" ∷ "ProjectService" ∷ "OrgService" ∷ "AdminService" ∷ [])
    ∷ edge "almanac" e.almanac_grpc "almanac.cwb.svc:8083"
        ("ConfigService" ∷ "SecretService" ∷ "AlmanacAdminService" ∷ [])
    ∷ edge "mason" e.mason_grpc "mason.cwb.svc:8086" ("AppService" ∷ [])
    ∷ edge "atlas" e.atlas_grpc "atlas.cwb.svc.cluster.local:8089" ("StrataService" ∷ [])
    ∷ edge "cairn" e.cairn_grpc "cairn.cwb.svc:8102"
        ("RepoService" ∷ "PullService" ∷ "OrgService" ∷ [])
    ∷ edge "herald" e.herald_grpc "herald.cwb.svc:8098" ("AdminService" ∷ [])
    ∷ []

boot-Assembled :
    (tools : Tools) (d : Dialer) (e : Environment) (b : Running)
    → boot tools d e ≡ ready b
    → Assembled tools e.settings b.entry × AllOpened d e.tls (edges e) b.connections
unfolding boot
boot-Assembled tools d e b h =
    then_ready (or_fatal (parse_routes tools.trim_space e.settings.routes) bad_routes) _ h
      λ routes h1 k1.
        then_ready (or_fatal (choose_verifier tools e.settings) (missing_verifier e.settings)) _ k1
          λ v h2 k2. then_ready (open_pillars d e.tls (plain_pillars e)) _ k2 λ five h3 k3.
            then_ready (open_pillar d e.tls (cairn_pillar e)) _ k3 λ cairn h4 k4.
              then_ready (or_fatal (tools.parse_url (cairn_taken routes).0) (bad_backend "cairn")) _
                k4
                λ git h5 k5. then_ready (open_pillar d e.tls (herald_pillar e)) _ k5 λ admin h6 k6.
                  then_ready
                    (or_fatal (tools.parse_url (herald_taken routes).0) (bad_backend "herald")) _ k6
                    λ http h7 k7.
                      then_ready
                        (or_fatal
                          (Gateway.new (gateway_env tools)
                            (gateway_config e.settings tools v (herald_taken routes).1))
                          bad_gateway)
                        _ k7
                        λ g h8 k8.
                          subst
                            (λ r.
                              Assembled tools e.settings r.entry
                              × AllOpened d e.tls (edges e) r.connections)
                            (ready-injective _ _ k8)
                            (
                              record {
                                routes = routes;
                                parses = (or_fatal-eq-ready _ _ _).0 h1;
                                verifies = (or_fatal-eq-ready _ _ _).0 h2;
                                git = (or_fatal-eq-ready _ _ _).0 h5;
                                http = (or_fatal-eq-ready _ _ _).0 h7;
                                serves = (or_fatal-eq-ready _ _ _).0 h8;
                              },
                              AllOpened-append d e.tls (plain_pillars e)
                                  (cairn_pillar e ∷ herald_pillar e ∷ []) five (cairn ∷ admin ∷ [])
                                  (open-AllOpened d e.tls _ five h3)
                                  (
                                    open-Opened d e.tls _ cairn h4,
                                    (open-Opened d e.tls _ admin h6, tt),
                                  ),
                            )

Assembled-boot :
    (tools : Tools) (d : Dialer) (e : Environment) (b : Running)
    → Assembled tools e.settings b.entry
    → AllOpened d e.tls (edges e) b.connections
    → boot tools d e ≡ ready b
unfolding boot
Assembled-boot tools d e b a all =
    let (five, others, joined, first, last) =
      AllOpened-split d e.tls (plain_pillars e) (cairn_pillar e ∷ herald_pillar e ∷ [])
        b.connections all in
    finish five others joined first last
  where
    finish :
        (five others : List Connection)
        → b.connections ≡ five ++ others
        → AllOpened d e.tls (plain_pillars e) five
        → AllOpened d e.tls (cairn_pillar e ∷ herald_pillar e ∷ []) others
        → boot tools d e ≡ ready b
    finish five (cairn ∷ admin ∷ []) joined first last =
        rw
          (
            a.parses,
            boot,
            a.verifies,
            AllOpened-open d e.tls (plain_pillars e) five first,
            Opened-open d e.tls (cairn_pillar e) cairn last.0,
            a.git,
            Opened-open d e.tls (herald_pillar e) admin last.1.0,
            a.http,
            a.serves,
          )
          (ap (λ cs. ready (record { entry = b.entry; connections = cs })) (sym joined))
    finish five [] joined first last = absurd last
    finish five (c ∷ []) joined first last = absurd last.1
    finish five (c ∷ c' ∷ c'' ∷ cs) joined first last = absurd last.1.1

-- The command comes up exactly if its configuration gives an entry, which it then has behind its
-- listener, and its connections are those of the seven edges commonplace, ledger, almanac, mason, atlas,
-- cairn and herald, in this order: each to the address in its own variable or else to its own default
-- one, from a key pair that loads and a readable CA file with a certificate, by a client that
-- grpc.NewClient makes over TLS 1.3 with that pair and those roots, and with each of its services
-- registered on that connection.
pub boot_iff :
    (tools : Tools) (d : Dialer) (e : Environment) (b : Running)
    → (boot tools d e ≡ ready b)
      ↔ ((start tools e.settings ≡ some b.entry) × AllOpened d e.tls (edges e) b.connections)
boot_iff tools d e b = (
  λ h.
      let (a, all) = boot-Assembled tools d e b h in
      (Assembled-start tools e.settings b.entry a, all),
  λ h. Assembled-boot tools d e b (start-Assembled tools e.settings b.entry h.0) h.1,
)
