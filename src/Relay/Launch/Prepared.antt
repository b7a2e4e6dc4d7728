-- ===== src/Relay/Launch/Prepared.antt =====
-- What is in place when the relay listens.
use interchange.Base.{
  ◌≡◌, ◌≢◌, sym, ap, refl, ◌∙◌, Bool, true, false, Option, none, some, List, [], ◌∷◌, ◌++◌, Text,
  codes, is_empty, All, Bool-cases, inl, inr,
}
use mathlib.Core.Option.{some-injective}
use interchange.Storage.Schema.{exec_all, schema_statements, pragmas, create_schema, open_sqlite}
use interchange.Storage.Schema.Settled.{IsLawful, create_schema_again}
use interchange.Discovery.Document.{Document, new_document}
use interchange.Relay.{Node}
use interchange.Relay.Launch.{Flags, Servers, listens, node_of, servers_of, prepare, launch}

-- Every flag, in what it sets: the id is there and the document names it, the two addresses are those of
-- the public and of the owner's server, the secret and the numbers of the sweeper are those of the node,
-- and the version was not asked for. The database is the one at the path of the flag, on which the
-- pragmas and the schema were executed, one after another and all with success, and nothing else. It has
-- every table and index of the schema, and creating the schema again would change nothing.
pub record Prepared (D : Type 0) (exec : Text → D → Bool × D) (Has : Text → D → Type 0)
    (sql_open : Text → Option D) (flags : Flags) (db : D) (node : Node) (servers : Servers)
    (document : Document) : Type 0 where
  pub runs : flags.show_version ≡ false
  pub named : flags.interchange_id ≢ []
  pub announced : document.interchange_id ≡ flags.interchange_id
  pub public_listener : servers.public_addr ≡ flags.addr
  pub owner_listener : servers.owner_addr ≡ flags.tailnet_addr
  pub keeps_secret : node.owner_secret ≡ flags.owner_secret
  pub sweeps_every : node.sweep.interval ≡ flags.sweep_interval
  pub sweeps_older : node.sweep.envelope_max_age ≡ flags.envelope_max_age
  pub handle : D
  pub opened : sql_open flags.db_path ≡ some handle
  pub executed :
      exec_all exec
        (codes "PRAGMA journal_mode = WAL"
          ∷ codes "PRAGMA busy_timeout = 5000"
          ∷ codes "PRAGMA foreign_keys = ON"
          ∷ schema_statements)
        handle
      ≡ (true, db)
  pub tables : All (λ s. Has s db) schema_statements
  pub again : create_schema exec db ≡ (true, db)

listens-injective :
    {D : Type 0} (a b : D) (m n : Node) (s t : Servers) (x y : Document)
    → listens a m s x ≡ listens b n t y
    → (a ≡ b) × (m ≡ n) × (s ≡ t) × (x ≡ y)
listens-injective a b m n s t x y h = (cc, cc, cc, cc)

module _ (D : Type 0) (exec : Text → D → Bool × D) where
  exec_all-append :
      (xs ys : List Text) (d e : D)
      → exec_all exec xs d ≡ (true, e)
      → exec_all exec (xs ++ ys) d ≡ exec_all exec ys e
  unfolding exec_all
  exec_all-append [] ys d e h = ap (λ o. exec_all exec ys o.1) h
  exec_all-append (x ∷ xs) ys d e h = elim (Bool-cases (exec x d).0) [
    | inl went ↦
        rw (went, exec_all) (exec_all-append xs ys (exec x d).1 e (rw (went, exec_all) at h))
    | inr failed ↦ absurd (cc (rw (failed, exec_all) at h))
  ]

  open_sqlite_inv :
      (o : Option D) (before : D)
      → open_sqlite exec o ≡ some before
      → (handle : D) × (o ≡ some handle) × (exec_all exec (pragmas exec) handle ≡ (true, before))
  unfolding open_sqlite
  open_sqlite_inv none before h = absurd (cc h)
  open_sqlite_inv (some handle) before h =
      elim (Bool-cases (exec_all exec (pragmas exec) handle).0) [
        | inl e ↦
            let same = some-injective _ _ (rw (e, open_sqlite) at h) in
            (handle, refl, (λ i. (e i, same i)))
        | inr e ↦ absurd (cc (rw (e, open_sqlite) at h))
      ]

module _ (D : Type 0) (exec : Text → D → Bool × D) (sql_open : Text → Option D)
    (trim_space : Text → Text) (split_host : Text → Option Text) (flags : Flags) where
  prepare-listens :
      (o : Option D) (db : D) (node : Node) (servers : Servers) (document : Document)
      → prepare sql_open exec trim_space split_host flags o ≡ listens db node servers document
      → (before : D) × (o ≡ some before)
        × (create_schema exec before ≡ (true, db))
        × (node ≡ node_of sql_open exec trim_space split_host flags)
        × (servers ≡ servers_of sql_open exec trim_space split_host flags)
        × (document ≡ new_document flags.interchange_id)
  prepare-listens none db node servers document h = absurd (cc h)
  prepare-listens (some before) db node servers document h =
      elim (Bool-cases (create_schema exec before).0) [
        | inl e ↦
            let (same, run, addresses, named) =
              listens-injective _ db _ node _ servers _ document (rw (e, prepare) at h) in
            (before, refl, (λ i. (e i, same i)), sym run, sym addresses, sym named)
        | inr e ↦ absurd (cc (rw (e, prepare) at h))
      ]

-- A relay that has come to listen has an id, which its discovery document names, and each of its flags
-- set what it is for: the addresses of the public and of the owner's listener, the database, the secret
-- of the owner, and the interval and the age of the sweeper. Its database is the one at the path of the
-- flag, after the three pragmas and the statements of the schema, which all succeeded, and nothing else;
-- it has every table and index of the schema, and creating the schema again would change nothing, if the
-- database keeps the law of IF NOT EXISTS.
pub launch-Prepared :
    (D : Type 0) (exec : Text → D → Bool × D) (Has : Text → D → Type 0) (sql_open : Text → Option D)
    (trim_space : Text → Text) (split_host : Text → Option Text) (flags : Flags) (db : D)
    (node : Node) (servers : Servers) (document : Document)
    → IsLawful D exec Has
    → launch sql_open exec trim_space split_host flags ≡ listens db node servers document
    → Prepared D exec Has sql_open flags db node servers document
unfolding launch create_schema new_document
launch-Prepared D exec Has sql_open trim_space split_host flags db node servers document laws h =
    elim (Bool-cases flags.show_version) [
      | inl v ↦ absurd (cc (rw (v, launch) at h))
      | inr v ↦ elim (Bool-cases (is_empty flags.interchange_id)) [
        | inl n ↦ absurd (cc (rw (v, launch, n) at h))
        | inr n ↦
            let (before, found, made, same, addresses, told) =
              prepare-listens D exec sql_open trim_space split_host flags
                (open_sqlite exec (sql_open flags.db_path)) db node servers document
                (rw (v, launch, n) at h) in
            let (handle, opened, prepared) =
              open_sqlite_inv D exec (sql_open flags.db_path) before found in
            let (tables, again) = create_schema_again D exec Has before db laws made in
            record {
              runs = v;
              named = λ empty. absurd (cc (sym n ∙ ap is_empty empty));
              announced = ap (λ x. x.interchange_id) told;
              public_listener = ap (λ x. x.public_addr) addresses;
              owner_listener = ap (λ x. x.owner_addr) addresses;
              keeps_secret = ap (λ x. x.owner_secret) same;
              sweeps_every = ap (λ x. x.sweep.interval) same;
              sweeps_older = ap (λ x. x.sweep.envelope_max_age) same;
              handle = handle;
              opened = opened;
              executed =
                  exec_all-append D exec (pragmas exec) schema_statements handle before prepared
                  ∙ made;
              tables = tables;
              again = again;
            }
      ]
    ]
