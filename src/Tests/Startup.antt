-- ===== src/Tests/Startup.antt =====
-- The gateway command in bypass mode, with pillars that can all be dialled.
use interchange.Base.{◌≡◌, ◌↔◌, true, some, [], codes}
use interchange.Entry.Wiring.{start}
use interchange.Entry.Startup.{
  Connection, Dialer, Environment, Running, boot, ready, Pillar, version_tls13,
}
use interchange.Entry.Startup.Edges.{AllOpened}
use interchange.Entry.Startup.Up.{edges, boot_iff}
use interchange.Tests.Entrances.{tools, standalone, open_entry}
use interchange.Base.{map}

abbrev dialer : Dialer
dialer = record {
  load_x509_key_pair = λ cert key. some (codes "certificate");
  read_file = λ path. some (codes "pem");
  append_certs = λ pem. some (codes "pool");
  new_client = λ c. true;
  register = λ service c. true;
}

abbrev environment : Environment
environment = record {
  settings = standalone;
  tls = record { cert = codes "c"; key = codes "k"; ca = codes "a" };
  commonplace_grpc = [];
  ledger_grpc = codes "ledger:1";
  almanac_grpc = [];
  mason_grpc = [];
  atlas_grpc = [];
  cairn_grpc = [];
  herald_grpc = [];
}

abbrev connection : Pillar → Connection
connection p = record {
  target = p.address;
  certificate = codes "certificate";
  root_cas = codes "pool";
  min_version = version_tls13;
}

abbrev running : Running
running = record { entry = open_entry; connections = map connection (edges environment) }

boot_iff_example : (boot tools dialer environment ≡ ready running) ↔ (
    (start tools standalone ≡ some open_entry)
    × AllOpened dialer environment.tls (edges environment) running.connections)
boot_iff_example = boot_iff tools dialer environment running
