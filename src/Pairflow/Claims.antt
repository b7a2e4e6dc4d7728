-- ===== src/Pairflow/Claims.antt =====
-- What a status update, a claim and a status poll do with one row.
use interchange.Base.{◌≡◌, ◌≢◌, refl, arith, true, false, some, [], Text, is_empty-false}
use interchange.Formats.{uuid_regex}
use interchange.Storage.{
  Status, approved, conflict, coalesce, get_request_op, PairRequest, Result, err, Db, Faults,
  update_pair_request_status, get_pair_request,
}
use interchange.Storage.Requests.{lookup}
use interchange.Handlers.{Reply, failed, request_status, ◌>>=◌}
use interchange.Halves.{Half, half_to_wire}
use interchange.Submissions.{Env, Codec, get_request_status, status_checks, owner_half}
use interchange.Decisions.{claim_reply}

pub update-pairs :
    (f : Faults) (id : Text) (to : Status) (owner_json path_id : Text) (d : Db)
    → ((update_pair_request_status f id to owner_json path_id d).1.pairs ≡ d.pairs)
      × ((update_pair_request_status f id to owner_json path_id d).1.envelopes ≡ d.envelopes)
unfolding update_pair_request_status
update-pairs f id to owner_json path_id d = ground arith

pub get_request_status-found :
    (env : Env) (id : Text) (d : Db) (x : PairRequest)
    → uuid_regex id ≡ true
    → env.faults get_request_op ≡ false
    → lookup id d ≡ some x
    → get_request_status env id d
      ≡ request_status x.request_id x.status x.path_id (owner_half env.codec x)
unfolding get_request_status status_checks ◌>>=◌ get_pair_request uuid_regex owner_half
get_request_status-found env id d x form up row = rw (form, up, row) refl

pub owner_half-approved :
    (c : Codec) (x : PairRequest) (h : Half)
    → x.status ≡ approved
    → x.owner_json ≢ []
    → c.half x.owner_json ≡ some h
    → owner_half c x ≡ some (half_to_wire h)
unfolding owner_half
owner_half-approved c x h done full read = rw (done, is_empty-false x.owner_json full, read) refl

pub coalesce_new : (new old : Text) → new ≢ [] → coalesce new old ≡ new
coalesce_new new old full = rw (is_empty-false new full) refl

pub claim_reply-conflict :
    (s : Reply) (u : Result (Unit {0}) × Db)
    → u.0 ≡ err conflict
    → claim_reply s u ≡ (failed 409 "request_not_pending_concurrent", u.1)
claim_reply-conflict s (result, d) e = rw e refl
