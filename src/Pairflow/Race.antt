-- ===== src/Pairflow/Race.antt =====
-- A decision between the two writes of an approval.
use interchange.Base.{
  ◌≡◌, refl, ◌∙◌, arith, false, some, [], ◌∷◌, ◌++◌, Text, ◌==◌, contains, find_sound,
}
use interchange.Storage.{
  approved, denied, conflict, PairRequest, Op, err, Db, no_faults, update_pair_request_status,
}
use interchange.Storage.Keys.{Keyed, Step-Keyed, decided}
use interchange.Storage.Requests.{lookup, update_pair_request_status_lem}
use interchange.Handlers.{failed, approval}
use interchange.Halves.{Half, half_to_wire}
use interchange.Pairflow.Claims.{update-pairs, claim_reply-conflict}
use interchange.Submissions.{Env, Request, serialize_half}
use interchange.Decisions.{loaded, path_id_of, new_pair, claim, approve}
use interchange.Pairflow.Approve.{
  Approvable, stored_pair, Keyed-inserted, approve-claim, insert_pair-new, inserted, is_open-r,
}

module _ {env : Env} {id : Text} {req : Request} {db : Db} {r : PairRequest} {stored owner : Half}
    (quiet : (op : Op) → env.faults op ≡ false) (a : Approvable env id req db r stored owner) where
  abbrev requester : Half
  requester = loaded env.codec stored

  abbrev path_id : Text
  path_id = path_id_of env requester owner

  abbrev owner_json : Text
  owner_json = serialize_half env.codec owner

  abbrev denied_between : Db
  denied_between = (update_pair_request_status no_faults id denied [] [] (inserted quiet a)).1

  denied_between-row :
      Keyed (inserted quiet a) → lookup id denied_between ≡ some (record r { status = denied })
  denied_between-row v =
      (update_pair_request_status_lem no_faults id denied [] [] (inserted quiet a) v refl refl).1 id
      ∙ rw
          (a.found, find_sound (λ x. x.request_id == id) db.requests r a.found, (is_open-r quiet a))
          refl

  -- The claim of a request that was denied meanwhile.
  claim-denied :
      Keyed (inserted quiet a)
      → let u =
          update_pair_request_status env.faults id approved owner_json path_id denied_between in
        (u.0 ≡ err conflict) × (lookup id u.1 ≡ some (record r { status = denied }))
  claim-denied v =
      let (result, rows) =
        update_pair_request_status_lem env.faults id approved owner_json path_id denied_between
          (Step-Keyed (decided no_faults id denied [] []) v) (quiet _) (quiet _) in
      (result ∙ rw (denied_between-row v) refl, rows id ∙ rw (denied_between-row v) (ground arith))

  -- A denial between the two writes of an approval: the caller is told of the conflict, the request
  -- stays denied, and yet the pair of the two halves is in the tables.
  pub approve_after_denial :
      Keyed db
      → env.before_write db ≡ db
      → ((d : Db) → env.before_claim d ≡ (update_pair_request_status no_faults id denied [] [] d).1)
      → contains (λ x. x.path_id == path_id) db.pairs ≡ false
      → let out = approve env id req db in
        (out.0 ≡ failed 409 "request_not_pending_concurrent")
        × (lookup id out.1 ≡ some (record r { status = denied }))
        × (out.1.pairs ≡ db.pairs ++ (stored_pair (new_pair env requester owner) ∷ []))
  unfolding claim
  approve_after_denial v calm_write race new =
      let (result, row) = claim-denied ((Keyed-inserted quiet a) new v) in
      let kept = (update-pairs env.faults id approved owner_json path_id denied_between).0 in
      rw
        (
          (approve-claim quiet a),
          calm_write,
          (insert_pair-new quiet a) new,
          race,
          claim_reply-conflict (approval id path_id (half_to_wire requester))
              (update_pair_request_status env.faults id approved owner_json path_id denied_between)
              result,
        )
        (refl, row, kept ∙ (update-pairs no_faults id denied [] [] (inserted quiet a)).0)
