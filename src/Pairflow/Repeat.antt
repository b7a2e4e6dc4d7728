-- ===== src/Pairflow/Repeat.antt =====
-- An approval that is sent again.
use interchange.Base.{◌≡◌, false, Text}
use interchange.Storage.{approved, get_pair_op, get_request_op, Faults, PairRequest, Op, Db}
use interchange.Platform.{Time}
use interchange.Halves.{Half}
use interchange.Submissions.{Env, Request, serialize_half}
use interchange.Decisions.{loaded, path_id_of}
use interchange.Pairflow.Approve.{Approvable}

module _ {env : Env} {id : Text} {req : Request} {db : Db} {r : PairRequest} {stored owner : Half}
    (quiet : (op : Op) → env.faults op ≡ false) (a : Approvable env id req db r stored owner) where
  abbrev requester : Half
  requester = loaded env.codec stored

  abbrev path_id : Text
  path_id = path_id_of env requester owner

  abbrev owner_json : Text
  owner_json = serialize_half env.codec owner

  abbrev approved_row : PairRequest
  approved_row = record r { status = approved; owner_json = owner_json; path_id = path_id }

  -- The environment of a later approval: the same codecs and cryptography, and whatever clock, faults
  -- of its writes and requests in its midst. Only its two reads meet no fault.
  module _ (gen_id : Text) (now check_time write_time : Time) (faults : Faults)
      (before_write before_claim : Db → Db) (reads_request : faults get_request_op ≡ false)
      (reads_pair : faults get_pair_op ≡ false) where
    abbrev again : Env
    again = record {
      platform = env.platform;
      codec = env.codec;
      owner_secret = env.owner_secret;
      gen_id = gen_id;
      now = now;
      check_time = check_time;
      write_time = write_time;
      faults = faults;
      before_write = before_write;
      before_claim = before_claim;
    }
