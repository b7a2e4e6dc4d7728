-- ===== src/Tests/Scripts.antt =====
-- A database that is the list of the statements that it has run, and a small script.
use interchange.Base.{
  ◌≡◌, refl, arith, Bool, true, false, Option, none, some, List, [], ◌∷◌, ◌++◌, Text, codes,
  text_eq, text_eq_iff, ◌==◌, contains, not, is_empty, map, filter, join_with, split_on,
  if◌then◌else◌,
}
use interchange.Storage.Schema.{
  schema_statements, split_statements, create_schema, open_sqlite, exec_all, cleaned, cut_comment,
  trim_left, trim_right, trim_space,
}
use interchange.Storage.Schema.Script.{Line, written, unlines, split_statements-written}
use interchange.Storage.Schema.Settled.{IsLawful}
use interchange.Discovery.Document.{new_document}
use interchange.Relay.{Node}
use interchange.Relay.Launch.{Flags, Servers, launch, listens, node_of}
use interchange.Relay.Launch.Prepared.{Prepared, launch-Prepared}

abbrev Log : Type 0
Log = List Text

abbrev has : Text → Log → Bool
has s d = contains (λ t. t == s) d

abbrev exec : Text → Log → Bool × Log
exec s d = (true, if has s d then d else s ∷ d)

abbrev Has : Text → Log → Type 0
Has s d = has s d ≡ true

self : (s : Text) → text_eq s s ≡ true
self s = (text_eq_iff s s).1 refl

exec-Has : (s : Text) (d : Log) → Has s (exec s d).1
unfolding contains
exec-Has s d = ground (arith, self s)

exec-keeps : (s t : Text) (d : Log) → Has s d → Has s (exec t d).1
unfolding contains
exec-keeps s t d h = ground arith

exec-repeats : (s : Text) (d : Log) → Has s d → exec s d ≡ (true, d)
exec-repeats s d h = rw h refl

exec-IsLawful : IsLawful Log exec Has
exec-IsLawful = record {
  creates = λ s d r e. exec-Has s d;
  keeps = λ s t d r h. exec-keeps s t d h;
  repeats = λ s d r h. exec-repeats s d h;
}

abbrev flags : Flags
flags = record {
  addr = codes ":8443";
  tailnet_addr = codes "127.0.0.1:8444";
  interchange_id = codes "owner";
  db_path = codes ":memory:";
  sweep_interval = 0;
  envelope_max_age = 0;
  owner_secret = codes "secret";
  show_version = false;
}

abbrev open_empty : Text → Option Log
open_empty path = some []

abbrev running_node : Node
running_node = node_of open_empty exec (λ s. s) (λ s. some s) flags

abbrev after_pragmas : Log
after_pragmas =
    codes "PRAGMA foreign_keys = ON"
    ∷ codes "PRAGMA busy_timeout = 5000"
    ∷ codes "PRAGMA journal_mode = WAL"
    ∷ []

abbrev prepared_log : Log
prepared_log = (create_schema exec after_pragmas).1

abbrev servers : Servers
servers = record { public_addr = codes ":8443"; owner_addr = codes "127.0.0.1:8444" }

launch_run :
    launch open_empty exec (λ s. s) (λ s. some s) flags
    ≡ listens prepared_log running_node servers (new_document (codes "owner"))
unfolding launch open_sqlite create_schema exec_all schema_statements split_statements split_on
    cleaned cut_comment trim_left trim_right filter join_with contains text_eq
launch_run = refl

launch-Prepared_example :
    Prepared Log exec Has open_empty flags prepared_log running_node servers
      (new_document (codes "owner"))
launch-Prepared_example =
    launch-Prepared Log exec Has open_empty (λ s. s) (λ s. some s) flags prepared_log running_node
      servers (new_document (codes "owner")) exec-IsLawful launch_run

abbrev first_line : Line
first_line = (codes "CREATE a; ", some (codes " one; two"))

abbrev second_line : Line
second_line = (codes "CREATE b;", none)

split_statements-written_example :
    split_statements trim_space (join_with b'\n' (map written (first_line ∷ second_line ∷ [])))
    ≡ filter
        (λ s. not (is_empty s))
        (map trim_space
          (codes "CREATE a" ∷ (codes " " ++ (b'\n' ∷ codes "CREATE b")) ∷ (b'\n' ∷ []) ∷ []))
unfolding unlines join_with
split_statements-written_example =
    split_statements-written trim_space first_line (second_line ∷ []) (codes "CREATE a")
      ((codes " " ++ (b'\n' ∷ codes "CREATE b")) ∷ (b'\n' ∷ []) ∷ [])
      ((refl, omega arith), ((refl, omega arith), tt))
      (omega arith, (omega arith, (omega arith, tt))) refl
