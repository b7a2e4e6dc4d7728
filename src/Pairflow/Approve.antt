-- ===== src/Pairflow/Approve.antt =====
-- POST /pair/requests/:id/approve: what one approval does to the tables, and what the requester then
-- reads.
use interchange.Base.{
  ◌≡◌, ◌≢◌, refl, ap, subst, ◌∙◌, arith, true, false, none, some, [], ◌∷◌, ◌++◌, Text, ◌==◌, take,
  contains, find_sound, text_eq_iff, codes, ◌*◌, ◌/◌,
}
use interchange.Platform.{ts_in_window, second}
use interchange.Formats.{uuid_regex}
use interchange.Storage.{
  pending, approved, PairRequest, Pair, Op, ok, Db, same_status, decide, insert_pair,
  update_pair_request_status, get_pair_request, stored_time,
}
use interchange.Storage.Keys.{Keyed, Step-Keyed, inserted_pair}
use interchange.Storage.Requests.{lookup, update_pair_request_status_lem}
use interchange.Handlers.{approval, request_status, pass, ◌>>=◌}
use interchange.Halves.{
  Half, parsed, parse_half, verify_self_sig, half_to_wire, wire_form, compute_path_id,
}
use interchange.Pairflow.Claims.{
  update-pairs, get_request_status-found, owner_half-approved, coalesce_new,
}
use interchange.Submissions.{
  Env, Request, max_body_size, serialize_half, get_request_status, owner_half,
}
use interchange.Decisions.{
  loaded, path_id_of, new_pair, approve_checks, approve_halves, approve_pending, claim, approve,
}

-- A pending request, and an owner's half for it that every check lets through.
pub record Approvable (env : Env) (id : Text) (req : Request) (db : Db) (r : PairRequest)
    (stored owner : Half) : Type 0 where
  pub well_formed : uuid_regex id ≡ true
  pub raw : Text
  pub body : Half
  pub read : req.body ≡ some raw
  pub decoded : env.codec.approve_body (take max_body_size raw) ≡ some body
  pub found : lookup id db ≡ some r
  pub is_pending : r.status ≡ pending
  pub requester : env.codec.half r.requester_json ≡ some stored
  pub accepted : parse_half body ≡ parsed owner
  pub same_alg : owner.sig_alg ≡ stored.sig_alg
  pub fresh_ts : ts_in_window env.platform owner.ts env.check_time ≡ true
  pub signed : verify_self_sig env.platform owner ≡ true

-- The row of the pair as it is read back.
abbrev pub stored_pair : Pair → Pair
stored_pair p = record p { activated_at = stored_time p.activated_at }

module _ {env : Env} {id : Text} {req : Request} {db : Db} {r : PairRequest} {stored owner : Half}
    (quiet : (op : Op) → env.faults op ≡ false) (a : Approvable env id req db r stored owner) where
  pub approve_checks-pass :
      (d : Db) (x : PairRequest)
      → lookup id d ≡ some x
      → approve_checks env id req d ≡ pass (take max_body_size a.raw, a.body, x)
  unfolding approve_checks ◌>>=◌ get_pair_request
  approve_checks-pass d x row = rw (a.well_formed, a.read, a.decoded, quiet, row) refl

  approve_halves-pass : approve_halves env a.body r ≡ pass (loaded env.codec stored, owner)
  unfolding approve_halves ◌>>=◌
  approve_halves-pass =
      rw (a.requester, a.accepted, (text_eq_iff _ _).1 a.same_alg, a.fresh_ts, a.signed) refl

  pub is_open-r : same_status r.status pending ≡ true
  is_open-r = ground (arith, a.is_pending)

  abbrev requester : Half
  requester = loaded env.codec stored

  abbrev path_id : Text
  path_id = path_id_of env requester owner

  pub approve-claim :
      approve env id req db
      ≡ claim env id
          (take max_body_size a.raw)
          requester
          owner
          (insert_pair env.faults (new_pair env requester owner) (env.before_write db))
  unfolding approve approve_pending claim insert_pair
  approve-claim =
      rw
        (approve_checks-pass db r a.found, approve, is_open-r, approve_halves-pass, approve_pending)
        refl

  pub path_id-filled : path_id ≢ []
  unfolding compute_path_id
  path_id-filled e = absurd (ground arith)

  -- The tables after the insertion of the new pair.
  abbrev pub inserted : Db
  inserted = record db { pairs = db.pairs ++ (stored_pair (new_pair env requester owner) ∷ []) }

  abbrev owner_json : Text
  owner_json = serialize_half env.codec owner

  pub insert_pair-new :
      contains (λ x. x.path_id == path_id) db.pairs ≡ false
      → insert_pair env.faults (new_pair env requester owner) db ≡ (ok tt, inserted)
  unfolding insert_pair new_pair
  insert_pair-new new = rw (quiet, new) refl

  pub Keyed-inserted :
      contains (λ x. x.path_id == path_id) db.pairs ≡ false → Keyed db → Keyed inserted
  Keyed-inserted new v =
      subst (λ q. Keyed q.1) (insert_pair-new new)
        (Step-Keyed (inserted_pair env.faults (new_pair env requester owner)) v)

  -- The claim of a request that is still the one that was read.
  pub update-claimed :
      Keyed inserted
      → (update_pair_request_status env.faults id approved owner_json path_id inserted ≡ (
        ok tt,
        (update_pair_request_status env.faults id approved owner_json path_id inserted).1,
      ))
        × (lookup id
              (update_pair_request_status env.faults id approved owner_json path_id inserted).1
            ≡ some (decide approved owner_json path_id r))
  update-claimed v =
      let (result, rows) =
        update_pair_request_status_lem env.faults id approved owner_json path_id inserted v
          (quiet _) (quiet _) in
      (
        ground (arith, a.found, is_open-r),
        rows id
            ∙ rw (a.found, find_sound (λ x. x.request_id == id) db.requests r a.found, is_open-r)
                refl,
      )

  abbrev pub activated : Db
  activated = (update_pair_request_status env.faults id approved owner_json path_id inserted).1

  pub approve-run :
      Keyed db
      → env.before_write db ≡ db
      → ((d : Db) → env.before_claim d ≡ d)
      → contains (λ x. x.path_id == path_id) db.pairs ≡ false
      → approve env id req db ≡ (approval id path_id (half_to_wire stored), activated)
  unfolding claim half_to_wire
  approve-run v calm_write calm_claim new =
      rw
        (
          approve-claim,
          calm_write,
          insert_pair-new new,
          calm_claim,
          (update-claimed (Keyed-inserted new v)).0,
        )
        refl

  pub owner_json-filled :
      env.codec.half owner_json ≡ some (wire_form owner)
      → env.codec.half [] ≡ none
      → owner_json ≢ []
  owner_json-filled trip nothing e = absurd (cc (trip, nothing, e))

  -- What the requester reads of a request that was approved with the owner's half in it.
  poll-approved :
      (d : Db)
      → env.codec.half owner_json ≡ some (wire_form owner)
      → env.codec.half [] ≡ none
      → lookup id d ≡ some (decide approved owner_json path_id r)
      → get_request_status env id d ≡ request_status id approved path_id (some (half_to_wire owner))
  unfolding half_to_wire wire_form owner_half
  poll-approved d trip nothing row =
      let full = owner_json-filled trip nothing in
      get_request_status-found env id d _ a.well_formed (quiet _) row
      ∙ rw
          (
            coalesce_new owner_json r.owner_json full,
            coalesce_new path_id r.path_id path_id-filled,
            (text_eq_iff _ _).0 (find_sound (λ x. x.request_id == id) db.requests r a.found),
          )
          (ap (request_status id approved path_id) (
            owner_half-approved env.codec
              (record r { status = approved; owner_json = owner_json; path_id = path_id })
              (wire_form owner) refl full trip))

  -- An approval that meets no fault and no interference, on tables with unique keys where no pair has
  -- the path id of the two halves yet, and where JSON gives back the owner's half and nothing of an
  -- empty text, answers with the path id and the requester's half. The tables gain exactly one pair:
  -- under that path id, the id and the key that the requester submitted on the requester's side and
  -- those that the owner submitted on the owner's, with the requester's algorithm, the label P-256, no
  -- ECDH keys, and the clock, to the second, as its activation. The request is approved under that path
  -- id with the owner's half in it, no message changes, and from then on the requester reads that path
  -- id and the owner's half from the status.
  pub approve_activates :
      Keyed db
      → env.before_write db ≡ db
      → ((d : Db) → env.before_claim d ≡ d)
      → contains (λ x. x.path_id == path_id) db.pairs ≡ false
      → env.codec.half owner_json ≡ some (wire_form owner)
      → env.codec.half [] ≡ none
      → let out = approve env id req db in
        (out.0 ≡ approval id path_id (half_to_wire stored))
        × (out.1.pairs
            ≡ db.pairs
              ++ (record {
                path_id = path_id;
                requester_id = stored.nexus_id;
                requester_pubkey = stored.pubkey;
                requester_dh_pubkey = [];
                owner_id = owner.nexus_id;
                owner_pubkey = owner.pubkey;
                owner_dh_pubkey = [];
                sig_alg = stored.sig_alg;
                dh_alg = codes "P-256";
                activated_at = env.write_time / second * second;
              }
                  ∷ []))
        × (out.1.envelopes ≡ db.envelopes)
        × (lookup id out.1
            ≡ some (record r { status = approved; owner_json = owner_json; path_id = path_id }))
        × (get_request_status env id out.1
            ≡ request_status id approved path_id (some (half_to_wire owner)))
  unfolding new_pair
  approve_activates v calm_write calm_claim new trip nothing =
      let (result, row) = update-claimed (Keyed-inserted new v) in
      let (pairs, envelopes) = update-pairs env.faults id approved owner_json path_id inserted in
      let full = owner_json-filled trip nothing in
      let decided =
        rw
          (coalesce_new owner_json r.owner_json full, coalesce_new path_id r.path_id path_id-filled)
          at row in
      rw (approve-run v calm_write calm_claim new)
        (refl, pairs, envelopes, decided, poll-approved activated trip nothing row)
