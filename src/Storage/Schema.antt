-- ===== src/Storage/Schema.antt =====
-- internal/storage/sqlite.go: opening the database and creating its tables. The database behind the driver
-- is a parameter, with what a statement does to it; strings.TrimSpace is taken on ASCII text.
pub mod Script
pub mod Settled
use interchange.Base.{
  ℕ, Bool, true, false, not, ◌&&◌, ◌||◌, leb, Option, none, some, List, [], ◌∷◌, ◌++◌, Text, codes,
  eqb, is_empty, filter, map, split_on, join_with, if◌then◌else◌,
}

-- schemaSQL, line by line
abbrev pub schema_lines : List Text
schema_lines =
    []
    ∷ codes "CREATE TABLE IF NOT EXISTS envelopes ("
    ∷ codes "  msg_id      TEXT PRIMARY KEY,"
    ∷ codes "  path_id     TEXT NOT NULL,"
    ∷ codes "  direction   TEXT NOT NULL,"
    ∷ codes "  received_at TEXT NOT NULL,"
    ∷ codes "  ciphertext  TEXT NOT NULL,"
    ∷ codes "  signature   TEXT NOT NULL,"
    ∷ codes "  outer_json  TEXT NOT NULL"
    ∷ codes ");"
    ∷ codes "-- Index covers the cursor walk: WHERE path_id=? AND direction=? AND msg_id>?"
    ∷ codes "-- ORDER BY msg_id. UUIDv7 is timestamp-ordered so msg_id alone is both"
    ∷ codes "-- the filter and the stable order."
    ∷ codes
        "CREATE INDEX IF NOT EXISTS idx_envelopes_path_dir ON envelopes(path_id, direction, msg_id);"
    ∷ codes "CREATE INDEX IF NOT EXISTS idx_envelopes_retention ON envelopes(received_at);"
    ∷ []
    ∷ codes "CREATE TABLE IF NOT EXISTS pair_requests ("
    ∷ codes "  request_id      TEXT PRIMARY KEY,"
    ∷ codes "  status          TEXT NOT NULL,"
    ∷ codes "  created_at      TEXT NOT NULL,"
    ∷ codes "  expires_at      TEXT NOT NULL,"
    ∷ codes "  path_id         TEXT,"
    ∷ codes "  requester_json  TEXT NOT NULL,"
    ∷ codes "  owner_json      TEXT,"
    ∷ codes "  -- target_nexus_id is not in the spec DDL but IS in the POST /pair/request"
    ∷ codes "  -- payload. Stored so the owner dashboard can display the target without"
    ∷ codes "  -- parsing requester_json."
    ∷ codes "  target_nexus_id TEXT NOT NULL"
    ∷ codes ");"
    ∷ codes
        "CREATE INDEX IF NOT EXISTS idx_pair_requests_status ON pair_requests(status, created_at);"
    ∷ codes
        "CREATE INDEX IF NOT EXISTS idx_pair_requests_expiry ON pair_requests(status, expires_at);"
    ∷ []
    ∷ codes "CREATE TABLE IF NOT EXISTS pairs ("
    ∷ codes "  path_id              TEXT PRIMARY KEY,"
    ∷ codes "  requester_id         TEXT NOT NULL,"
    ∷ codes "  requester_pubkey     TEXT NOT NULL,"
    ∷ codes "  requester_dh_pubkey  TEXT NOT NULL,"
    ∷ codes "  owner_id             TEXT NOT NULL,"
    ∷ codes "  owner_pubkey         TEXT NOT NULL,"
    ∷ codes "  owner_dh_pubkey      TEXT NOT NULL,"
    ∷ codes "  sig_alg              TEXT NOT NULL,"
    ∷ codes "  dh_alg               TEXT NOT NULL,"
    ∷ codes "  activated_at         TEXT NOT NULL"
    ∷ codes ");"
    ∷ []
    ∷ []

-- strings.Index(line, "--"), and the line up to there
unfoldable pub cut_comment : Text → Text
cut_comment [] = []
cut_comment (a ∷ []) = a ∷ []
cut_comment (a ∷ b ∷ s) =
    let rest = cut_comment (b ∷ s) in if eqb a b'-' && eqb b b'-' then [] else a ∷ rest

-- The first loop of splitStatements.
unfoldable pub cleaned : List Text → Text
cleaned [] = []
cleaned (line ∷ lines) = cut_comment line ++ (b'\n' ∷ cleaned lines)

-- splitStatements
unfoldable pub split_statements : (Text → Text) → Text → List Text
split_statements trim script =
    filter (λ s. not (is_empty s)) (map trim (split_on b';' (cleaned (split_on b'\n' script))))

-- strings.TrimSpace, on the ASCII text of the schema
abbrev pub is_space : ℕ → Bool
is_space c = eqb c 32 || (leb 9 c && leb c 13)

unfoldable pub trim_left : Text → Text
trim_left [] = []
trim_left (c ∷ s) = let rest = trim_left s in if is_space c then rest else c ∷ s

unfoldable pub trim_right : Text → Text
trim_right [] = []
trim_right (c ∷ s) = let rest = trim_right s in if is_space c && is_empty rest then [] else c ∷ rest

abbrev pub trim_space : Text → Text
trim_space s = trim_right (trim_left s)

-- The statements of schemaSQL.
unfoldable pub schema_statements : List Text
schema_statements = split_statements trim_space (join_with b'\n' schema_lines)

module _ {D : Type 0} (exec : Text → D → Bool × D) where
  -- The statements one after another, up to the first that fails.
  unfoldable pub exec_all : List Text → D → Bool × D
  exec_all [] db = (true, db)
  exec_all (stmt ∷ stmts) db =
      let (ok, after) = exec stmt db in
      let rest = exec_all stmts after in if ok then rest else (false, after)

  -- CreateSchema
  unfoldable pub create_schema : D → Bool × D
  create_schema db = exec_all schema_statements db

  abbrev pub pragmas : List Text
  pragmas =
      codes "PRAGMA journal_mode = WAL"
      ∷ codes "PRAGMA busy_timeout = 5000"
      ∷ codes "PRAGMA foreign_keys = ON"
      ∷ []

  -- OpenSQLite, at what sql.Open makes of the path; a database whose pragmas fail is closed again.
  unfoldable pub open_sqlite : Option D → Option D
  open_sqlite none = none
  open_sqlite (some db) = let (ok, after) = exec_all pragmas db in if ok then some after else none
