-- ===== src/Submissions.antt =====
-- internal/pairflow/pairflow.go: Dependencies, the submission of a request, its status and the list of
-- the pending ones. A handler takes the tables to a reply and the tables after it.
use interchange.Base.{
  ℕ, ◌+◌, ◌*◌, not, ◌&&◌, ◌||◌, Option, none, some, List, [], ◌∷◌, ◌++◌, map, String, Text, codes,
  is_empty, ltb, ◌==◌, length, if◌then◌else◌,
}
use interchange.Platform.{Platform, Time, minute, ts_in_window, format_time}
use interchange.Formats.{uuid_regex}
use interchange.Handlers.{
  PendingView, Reply, failed, created, request_status, pending_list, Checked, pass, stop, ◌>>=◌,
  ◌>>◌, require, require_some, read_body,
}
use interchange.Halves.{
  Half, Parsed, parsed, bad, parse_half, verify_self_sig, half_to_wire, wire_form, optional_member,
}
use interchange.Storage.{
  pending, approved, PairRequest, not_found, duplicate, Result, Db, Faults, get_request_op,
  insert_pair_request, get_pair_request, list_pending_pair_requests, same_status,
}

-- encoding/json on the two request bodies and on a stored half.
pub record Codec : Type 0 where
  pub create_body : Text → Option (Text × Half)
  pub approve_body : Text → Option Half
  pub half : Text → Option Half
  pub encode_half : Half → Text
  -- the bytes that base64 returns beside an error
  pub partial : Text → Text

pub record Request : Type 0 where
  pub method : Text
  pub path : Text
  pub raw_query : Text
  pub owner_secret : Text
  pub body : Option Text

-- Dependencies, the generated id, the readings of the clock in order, and the driver's faults.
-- `before_write` and `before_claim` are what other requests do to the tables before approve writes
-- the pair, and between that and its claim of the request.
pub record Env : Type 0 where
  pub platform : Platform
  pub codec : Codec
  pub owner_secret : Text
  pub gen_id : Text
  pub now : Time
  pub check_time : Time
  pub write_time : Time
  pub faults : Faults
  pub before_write : Db → Db
  pub before_claim : Db → Db

abbrev pub request_ttl : ℕ
request_ttl = 24 * (60 * minute)

abbrev pub max_body_size : ℕ
max_body_size = 64 * 1024

-- serializeHalf
unfoldable pub serialize_half : Codec → Half → Text
serialize_half c h = c.encode_half (wire_form h)

-- parsedRequesterHalf
unfoldable pub parsed_requester_half : Codec → Text → List (String × Text)
parsed_requester_half c stored = elim (c.half stored) [ none ↦ [] | some h ↦ half_to_wire h ]

abbrev pub require_parsed : Parsed → Checked Half
require_parsed (parsed h) = pass h
require_parsed (bad code) = stop (failed 400 code)

abbrev pub require_request : Result PairRequest → Checked PairRequest
require_request (Result.ok r) = pass r
require_request (Result.err not_found) = stop (failed 404 "request_not_found")
require_request (Result.err e) = stop (failed 500 "storage_error")

-- The checks of createRequest, up to the row that it inserts.
unfoldable pub create_checks : Env → Request → Checked PairRequest
create_checks env req = do
  raw ← read_body max_body_size req.body
  body ← require_some (env.codec.create_body raw) 400 "invalid_json"
  require (not (is_empty body.0)) 400 "missing_target"
  require (not (ltb 256 (length body.0))) 400 "target_nexus_id_too_long"
  half ← require_parsed (parse_half body.1)
  require (ts_in_window env.platform half.ts env.check_time) 400 "ts_out_of_window"
  require (verify_self_sig env.platform half) 400 "bad_self_sig"
  pass (record {
    request_id = env.gen_id;
    status = pending;
    created_at = env.write_time;
    expires_at = env.write_time + request_ttl;
    path_id = [];
    requester_json = serialize_half env.codec half;
    owner_json = [];
    target_nexus_id = body.0;
  })

abbrev pub create_reply : PairRequest → Result (Unit {0}) × Db → Reply × Db
create_reply r (Result.ok _, db) = (created r.request_id (format_time r.expires_at), db)
create_reply r (Result.err duplicate, db) = (failed 500 "request_id_collision", db)
create_reply r (Result.err e, db) = (failed 500 "storage_error", db)

-- createRequest
unfoldable pub create_request : Env → Request → Db → Reply × Db
create_request env req db = elim (create_checks env req) [
  | stop reply ↦ (reply, db)
  | pass row ↦ create_reply row (insert_pair_request env.faults row db)
]

-- The owner_half of a status response.
unfoldable pub owner_half : Codec → PairRequest → Option (List (String × Text))
owner_half c r =
    if same_status r.status approved && not (is_empty r.owner_json)
    then elim (c.half r.owner_json) [ none ↦ none | some h ↦ some (half_to_wire h) ]
    else none

unfoldable pub status_checks : Env → Text → Db → Checked PairRequest
status_checks env id db = do
  require (uuid_regex id) 400 "invalid_request_id"
  require_request (get_pair_request (env.faults get_request_op) id db)

-- getRequestStatus. An empty path_id stands for a response without that member.
unfoldable pub get_request_status : Env → Text → Db → Reply
get_request_status env id db = elim (status_checks env id db) [
  | stop reply ↦ reply
  | pass r ↦ request_status r.request_id r.status r.path_id (owner_half env.codec r)
]

-- The requester's view in a list, without nonce, timestamp and signature.
unfoldable pub requester_view : Codec → Text → Option (List (String × Text))
requester_view c stored = elim (c.half stored) [
  | none ↦ none
  | some h ↦ some (
      ("nexus_id", h.nexus_id)
      ∷ ("sig_alg", h.sig_alg)
      ∷ ("pubkey", h.pubkey)
      ∷ ("endpoint", h.endpoint)
      ∷ (optional_member "dh_alg" h.dh_alg ++ optional_member "dh_pubkey" h.dh_pubkey))
]

unfoldable pub render : Codec → PairRequest → PendingView
render c r = record {
  request_id = r.request_id;
  created_at = format_time r.created_at;
  target_nexus_id = r.target_nexus_id;
  requester = requester_view c r.requester_json;
}

abbrev pub list_reply : Codec → Result (List PairRequest) → Reply
list_reply c (Result.err e) = failed 500 "storage_error"
list_reply c (Result.ok rows) = pending_list (map (render c) rows)

-- listPending
unfoldable pub list_pending : Env → Request → Db → Reply
list_pending env req db =
    let want = env.platform.query_get req.raw_query (codes "status") in
    if is_empty want || want == codes "pending"
    then list_reply env.codec (list_pending_pair_requests env.faults db)
    else failed 400 "status_filter_unsupported"
