-- ===== src/Decisions.antt =====
-- internal/pairflow/pairflow.go: the two decisions of the owner, approve and deny.
use interchange.Base.{
  Bool, false, not, ◌&&◌, none, some, [], Text, codes, is_empty, ◌==◌, if◌then◌else◌,
}
use interchange.Platform.{ts_in_window}
use interchange.Formats.{uuid_regex}
use interchange.Base64.{decode_b64url}
use interchange.Handlers.{
  Reply, failed, approval, denial, not_pending, Checked, pass, stop, ◌>>=◌, ◌>>◌, require,
  require_some, read_body,
}
use interchange.Halves.{
  Half, parsed, bad, parse_half, verify_self_sig, compute_path_id, half_to_wire,
}
use interchange.Storage.{
  pending, approved, denied, PairRequest, Pair, not_found, duplicate, conflict, Result, Db,
  get_request_op, get_pair_request, update_pair_request_status, insert_pair, get_pair, same_status,
}
use interchange.Submissions.{
  Codec, Request, Env, max_body_size, serialize_half, parsed_requester_half, require_parsed,
  require_request,
}

-- The checks of approve, up to the request that it loads: the body, the owner's half as sent, the row.
unfoldable pub approve_checks : Env → Text → Request → Db → Checked (Text × Half × PairRequest)
approve_checks env id req db = do
  require (uuid_regex id) 400 "invalid_request_id"
  raw ← read_body max_body_size req.body
  body ← require_some (env.codec.approve_body raw) 400 "invalid_json"
  r ← require_request (get_pair_request (env.faults get_request_op) id db)
  pass (raw, body, r)

abbrev pub owns : Text → Result Pair → Bool
owns key (Result.ok existing) = existing.owner_pubkey == key
owns key (Result.err e) = false

-- Whether the caller of a second approval shows the key of the owner that the pair has.
unfoldable pub is_same_owner : Env → Half → PairRequest → Db → Bool
is_same_owner env body r db = elim (parse_half body) [
  | bad code ↦ false
  | parsed owner ↦
      verify_self_sig env.platform owner && owns owner.pubkey (get_pair env.faults r.path_id db)
]

-- The branch of approve for a request that is not pending.
unfoldable pub approve_closed : Env → Text → Half → PairRequest → Db → Reply
approve_closed env id body r db =
    if same_status r.status approved && (not (is_empty r.path_id) && is_same_owner env body r db)
    then approval id r.path_id (parsed_requester_half env.codec r.requester_json)
    else not_pending r.status

abbrev pub decoded_or_partial : Codec → Text → Text
decoded_or_partial c s = elim (decode_b64url s) [ none ↦ c.partial s | some bytes ↦ bytes ]

-- The requester's half as approve reads it back.
abbrev pub loaded : Codec → Half → Half
loaded c stored = record stored { pubkey_raw = decoded_or_partial c stored.pubkey }

-- The checks for a pending request: the two halves of the new pair.
unfoldable pub approve_halves : Env → Half → PairRequest → Checked (Half × Half)
approve_halves env body r = do
  stored ← require_some (env.codec.half r.requester_json) 500 "stored_requester_corrupt"
  owner ← require_parsed (parse_half body)
  require (owner.sig_alg == stored.sig_alg) 400 "sig_alg_mismatch"
  require (ts_in_window env.platform owner.ts env.check_time) 400 "ts_out_of_window"
  require (verify_self_sig env.platform owner) 400 "bad_self_sig"
  pass (loaded env.codec stored, owner)

abbrev pub path_id_of : Env → Half → Half → Text
path_id_of env requester owner = compute_path_id env.platform requester.pubkey_raw owner.pubkey_raw

-- The row of the new pair.
unfoldable pub new_pair : Env → Half → Half → Pair
new_pair env requester owner = record {
  path_id = path_id_of env requester owner;
  requester_id = requester.nexus_id;
  requester_pubkey = requester.pubkey;
  requester_dh_pubkey = [];
  owner_id = owner.nexus_id;
  owner_pubkey = owner.pubkey;
  owner_dh_pubkey = [];
  sig_alg = requester.sig_alg;
  dh_alg = codes "P-256";
  activated_at = env.write_time;
}

abbrev pub is_same_pair : Half → Half → Result Pair → Bool
is_same_pair requester owner (Result.err e) = false
is_same_pair requester owner (Result.ok existing) =
    existing.requester_pubkey == requester.pubkey && existing.owner_pubkey == owner.pubkey

abbrev pub claim_reply : Reply → Result (Unit {0}) × Db → Reply × Db
claim_reply success (Result.ok _, db) = (success, db)
claim_reply success (Result.err conflict, db) = (failed 409 "request_not_pending_concurrent", db)
claim_reply success (Result.err e, db) = (failed 500 "storage_error", db)

-- The claim of the request after the insertion of the pair. A duplicate is taken for the same approval
-- if the keys are the same; the outcome of its update is dropped.
unfoldable pub claim : Env → Text → Text → Half → Half → Result (Unit {0}) × Db → Reply × Db
claim env id raw requester owner (Result.ok _, db) =
    claim_reply (approval id (path_id_of env requester owner) (half_to_wire requester)) (
      update_pair_request_status env.faults id approved (serialize_half env.codec owner)
        (path_id_of env requester owner) (env.before_claim db))
claim env id raw requester owner (Result.err duplicate, db) =
    if is_same_pair requester owner (get_pair env.faults (path_id_of env requester owner) db)
    then (
      approval id (path_id_of env requester owner) (half_to_wire requester),
      (update_pair_request_status env.faults id approved raw (path_id_of env requester owner)
          (env.before_claim db)).1,
    )
    else (failed 409 "pair_conflict", db)
claim env id raw requester owner (Result.err e, db) = (failed 500 "storage_error", db)

-- The branch of approve for a pending request.
unfoldable pub approve_pending : Env → Text → Text → Half → PairRequest → Db → Reply × Db
approve_pending env id raw body r db = elim (approve_halves env body r) [
  | stop reply ↦ (reply, db)
  | pass (requester, owner) ↦
      claim env id raw requester owner
        (insert_pair env.faults (new_pair env requester owner) (env.before_write db))
]

-- approve
unfoldable pub approve : Env → Text → Request → Db → Reply × Db
approve env id req db = elim (approve_checks env id req db) [
  | stop reply ↦ (reply, db)
  | pass (raw, body, r) ↦
      if same_status r.status pending
      then approve_pending env id raw body r db
      else (approve_closed env id body r db, db)
]

abbrev pub deny_reply : Text → Result (Unit {0}) × Db → Reply × Db
deny_reply id (Result.ok _, db) = (denial id, db)
deny_reply id (Result.err not_found, db) = (failed 404 "request_not_found", db)
deny_reply id (Result.err conflict, db) = (failed 409 "request_not_pending", db)
deny_reply id (Result.err e, db) = (failed 500 "storage_error", db)

-- deny
unfoldable pub deny : Env → Text → Db → Reply × Db
deny env id db =
    if uuid_regex id
    then deny_reply id (update_pair_request_status env.faults id denied [] [] db)
    else (failed 400 "invalid_request_id", db)
