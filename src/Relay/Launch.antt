-- ===== src/Relay/Launch.antt =====
-- cmd/interchange/main.go: main from the flags to the listeners. The database is that of Storage.Schema;
-- what sql.Open makes of a path is a parameter.
pub mod Prepared
use interchange.Base.{ℕ, Bool, Option, none, some, Text, is_empty, if◌then◌else◌}
use interchange.Storage.Schema.{create_schema, open_sqlite}
use interchange.Relay.{Node}
use interchange.Discovery.Document.{Document, new_document}

-- The flags.
pub record Flags : Type 0 where
  pub addr : Text
  pub tailnet_addr : Text
  pub interchange_id : Text
  pub db_path : Text
  pub sweep_interval : ℕ
  pub envelope_max_age : ℕ
  pub owner_secret : Text
  pub show_version : Bool

-- The two servers by their addresses: the public mux behind one, the owner's mux behind the other.
pub record Servers : Type 0 where
  pub public_addr : Text
  pub owner_addr : Text

-- How main goes on: it prints the version, ends with an error, or listens at two addresses over a
-- database, under the id that its discovery document names.
pub data Launch (D : Type 0) : Type 0 where
  printed_version missing_id unopened unprepared : Launch D
  listens : D → Node → Servers → Document → Launch D

module _ {D : Type 0} (sql_open : Text → Option D) (exec : Text → D → Bool × D)
    (trim_space : Text → Text) (split_host : Text → Option Text) where
  abbrev pub node_of : Flags → Node
  node_of flags = record {
    owner_secret = flags.owner_secret;
    sweep = record { interval = flags.sweep_interval; envelope_max_age = flags.envelope_max_age };
    trim_space = trim_space;
    split_host = split_host;
  }

  abbrev pub servers_of : Flags → Servers
  servers_of flags = record { public_addr = flags.addr; owner_addr = flags.tailnet_addr }

  abbrev pub prepare : Flags → Option D → Launch D
  prepare flags none = unopened
  prepare flags (some db) =
      let (ok, ready) = create_schema exec db in
      if ok
      then listens ready (node_of flags) (servers_of flags) (new_document flags.interchange_id)
      else unprepared

  -- main up to the listeners
  unfoldable pub launch : Flags → Launch D
  launch flags =
      if flags.show_version
      then printed_version
      else if is_empty flags.interchange_id
      then missing_id
      else prepare flags (open_sqlite exec (sql_open flags.db_path))
