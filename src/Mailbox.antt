-- ===== src/Mailbox.antt =====
-- internal/mailbox/mailbox.go: the PUT, GET and ack handlers over the tables. A handler takes the
-- tables to a reply and the tables after it. The body of a request is `none` if reading it fails.
pub mod Checks
pub mod Put
pub mod Inbox
pub mod Ack
pub mod Writes
pub mod Arrival
pub mod Exchange
use interchange.Base.{
  ℕ, ◌*◌, ◌^◌, not, ◌&&◌, ◌||◌, Option, none, some, List, [], ◌∷◌, ◌++◌, map, Text, codes, is_empty,
  leb, ◌==◌, length, filter, contains, split_on, cut_prefix, if◌then◌else◌,
}
use interchange.Platform.{Platform, Time, ts_in_window}
use interchange.Formats.{path_id_regex, uuidv7_regex}
use interchange.Base64.{decode_b64url}
use interchange.Crypto.{Identified, Verifier}
use interchange.Handlers.{
  ◌>>=◌, ◌>>◌, Reply, failed, accepted, listed, evicted, Checked, pass, stop, require, require_some,
  read_body,
}
use interchange.Storage.{
  Envelope, Pair, not_found, duplicate, Result, Db, Faults, insert_envelope, list_envelopes,
  delete_envelopes_by_msg_id, get_pair,
}
use interchange.Envelopes.{
  OuterEnvelope, valid_envelope_schema, direction_from, read_direction_for, to_hex, canonical_json,
}

-- json.Unmarshal into an OuterEnvelope, and into the body of an ack.
pub record Codec : Type 0 where
  pub envelope : Text → Option OuterEnvelope
  pub ids : Text → Option (List Text)

pub record Request : Type 0 where
  pub method : Text
  pub path : Text
  pub raw_query : Text
  pub signature : Text
  pub body : Option Text

abbrev pub require_pair : Result Pair → Checked Pair
require_pair (Result.ok p) = pass p
require_pair (Result.err not_found) = stop (failed 404 "pair_not_found")
require_pair (Result.err e) = stop (failed 500 "storage_error")

-- An error of the verifier, or an empty key.
abbrev pub require_caller : Identified → Checked Text
require_caller Identified.fault = stop (failed 500 "verifier_error")
require_caller (Identified.caller []) = stop (failed 401 "signature_invalid")
require_caller (Identified.caller (c ∷ key)) = pass (c ∷ key)

abbrev pub put_limit : ℕ
put_limit = 2 ^ 21

abbrev pub ack_limit : ℕ
ack_limit = 64 * 1024

abbrev pub max_ack_batch : ℕ
max_ack_batch = 100

-- What a handler works with: its dependencies, the two readings of the clock, and the driver's faults.
pub record Env : Type 0 where
  pub platform : Platform
  pub codec : Codec
  pub verifier : Verifier
  pub now : Time
  pub later : Time
  pub faults : Faults

-- The checks of put, up to the row that it inserts.
unfoldable pub put_checks : Env → Text → Request → Db → Checked Envelope
put_checks env path_id req db = do
  pair ← require_pair (get_pair env.faults path_id db)
  body ← read_body put_limit req.body
  e ← require_some (env.codec.envelope body) 400 "invalid_json"
  require (valid_envelope_schema e) 400 "invalid_envelope"
  require (e.path_id == path_id) 400 "path_id_mismatch"
  require (uuidv7_regex e.msg_id) 400 "invalid_msg_id"
  require (ts_in_window env.platform e.ts env.now) 400 "ts_out_of_window"
  bytes ← require_some (decode_b64url e.ciphertext) 400 "ciphertext_not_base64url"
  require (to_hex (env.platform.sha256 bytes) == e.ciphertext_sha256) 400 "ciphertext_hash_mismatch"
  sender ← require_caller (env.verifier pair req.signature (canonical_json env.platform e))
  direction ← require_some (direction_from pair sender) 401 "sender_not_in_pair"
  pass (record {
    msg_id = e.msg_id;
    path_id = path_id;
    direction = direction;
    received_at = env.later;
    ciphertext = e.ciphertext;
    signature = req.signature;
    outer_json = body;
  })

abbrev pub put_reply : Text → Result (Unit {0}) × Db → Reply × Db
put_reply msg_id (Result.ok _, db) = (accepted msg_id, db)
put_reply msg_id (Result.err duplicate, db) = (failed 409 "duplicate_msg_id", db)
put_reply msg_id (Result.err e, db) = (failed 500 "storage_error", db)

-- put
unfoldable pub put : Env → Text → Request → Db → Reply × Db
put env path_id req db = elim (put_checks env path_id req db) [
  | stop reply ↦ (reply, db)
  | pass row ↦ put_reply row.msg_id (insert_envelope env.faults row db)
]

-- What a GET signs: its path, and its query if it has one.
abbrev pub signed_target : Request → Text
signed_target req =
    if is_empty req.raw_query then req.path else req.path ++ (codes "?" ++ req.raw_query)

abbrev pub require_list : Result (List Envelope) → Checked (List Envelope)
require_list (Result.ok rows) = pass rows
require_list (Result.err e) = stop (failed 500 "storage_error")

-- The checks of get, up to the rows that it returns.
unfoldable pub get_checks : Env → Text → Request → Db → Checked (List Envelope)
get_checks env path_id req db = do
  pair ← require_pair (get_pair env.faults path_id db)
  caller ← require_caller (env.verifier pair req.signature (signed_target req))
  let since = env.platform.query_get req.raw_query (codes "since")
  require (is_empty since || uuidv7_regex since) 400 "invalid_since"
  direction ← require_some (read_direction_for pair caller) 401 "caller_not_in_pair"
  require_list (list_envelopes env.faults path_id direction since db)

-- The msg_id of the last row, or what was there before.
abbrev pub last_id : Text → List Envelope → Text
last_id id [] = id
last_id id (e ∷ rows) = last_id e.msg_id rows

abbrev pub cursor_of : Text → Option Text
cursor_of id = if is_empty id then none else some id

-- get
unfoldable pub get : Env → Text → Request → Db → Reply
get env path_id req db = elim (get_checks env path_id req db) [
  | stop reply ↦ reply
  | pass rows ↦ listed (map (λ e. e.outer_json) rows) (cursor_of (last_id [] rows))
]

-- An empty batch ends with nothing evicted; one above the limit is refused.
abbrev pub require_batch : List Text → Checked (Unit {0})
require_batch [] = stop (evicted 0)
require_batch (id ∷ ids) = require (leb (length (id ∷ ids)) max_ack_batch) 400 "too_many_ids"

-- The checks of ack, up to the ids that it deletes: those of the batch that the first page of the
-- caller's inbox holds.
unfoldable pub ack_checks : Env → Text → Request → Db → Checked (List Text)
ack_checks env path_id req db = do
  pair ← require_pair (get_pair env.faults path_id db)
  caller ← require_caller (env.verifier pair req.signature req.path)
  raw ← read_body ack_limit req.body
  ids ← require_some (env.codec.ids raw) 400 "invalid_json"
  require_batch ids
  direction ← require_some (read_direction_for pair caller) 401 "caller_not_in_pair"
  mine ← require_list (list_envelopes env.faults path_id direction [] db)
  pass (map (λ e. e.msg_id) (filter (λ e. contains (λ id. e.msg_id == id) ids) mine))

abbrev pub ack_reply : Result ℕ × Db → Reply × Db
ack_reply (Result.ok n, db) = (evicted n, db)
ack_reply (Result.err e, db) = (failed 500 "storage_error", db)

-- ack
unfoldable pub ack : Env → Text → Request → Db → Reply × Db
ack env path_id req db = elim (ack_checks env path_id req db) [
  | stop reply ↦ (reply, db)
  | pass ids ↦ ack_reply (delete_envelopes_by_msg_id env.faults path_id ids db)
]

abbrev pub page_not_found : Reply
page_not_found = failed 404 "404 page not found"

-- The routes below one path id, by the parts behind it and the method.
unfoldable pub route : Env → Text → List Text → Request → Db → Reply × Db
route env path_id [] req db =
    if req.method == codes "PUT"
    then put env path_id req db
    else if req.method == codes "GET"
    then (get env path_id req db, db)
    else (failed 405 "method not allowed", db)
route env path_id (part ∷ []) req db =
    if part == codes "ack" && req.method == codes "POST"
    then ack env path_id req db
    else (page_not_found, db)
route env path_id (part ∷ other ∷ rest) req db = (page_not_found, db)

unfoldable pub dispatch_parts : Env → List Text → Request → Db → Reply × Db
dispatch_parts env [] req db = (failed 400 "missing_path_id", db)
dispatch_parts env (path_id ∷ rest) req db =
    if is_empty path_id
    then (failed 400 "missing_path_id", db)
    else if path_id_regex path_id
    then route env path_id rest req db
    else (failed 400 "invalid_path_id", db)

-- dispatch
unfoldable pub dispatch : Env → Request → Db → Reply × Db
dispatch env req db = elim (cut_prefix req.path (codes "/mailbox/")) [
  | none ↦ (page_not_found, db)
  | some trimmed ↦ dispatch_parts env (split_on b'/' trimmed) req db
]
