-- ===== src/Pairflow/Duplicate.antt =====
-- An approval whose pair is in the tables already.
use interchange.Base.{
  ◌≡◌, refl, ◌∙◌, arith, true, false, some, Text, take, ◌==◌, contains, contains-of_find,
  find_sound, text_eq_iff,
}
use interchange.Storage.{
  approved, decide, PairRequest, Pair, Op, ok, err, duplicate, Db, insert_pair_op, insert_pair,
  get_pair,
}
use interchange.Storage.Keys.{Keyed}
use interchange.Storage.Requests.{lookup, update_pair_request_status_lem}
use interchange.Handlers.{approval}
use interchange.Halves.{Half, half_to_wire}
use interchange.Submissions.{Env, Request, max_body_size}
use interchange.Decisions.{loaded, path_id_of, new_pair, claim, approve}
use interchange.Pairflow.Claims.{update-pairs}
use interchange.Pairflow.Approve.{Approvable, approve-claim, is_open-r}

get_pair-contains :
    (env : Env) (path_id : Text) (db : Db) (p : Pair)
    → get_pair env.faults path_id db ≡ ok p
    → contains (λ x. x.path_id == path_id) db.pairs ≡ true
unfolding get_pair
get_pair-contains env path_id db p h =
    ground (arith, contains-of_find (λ x. x.path_id == path_id) db.pairs p)

insert_pair-known :
    (env : Env) (p q : Pair) (db : Db)
    → env.faults insert_pair_op ≡ false
    → get_pair env.faults p.path_id db ≡ ok q
    → insert_pair env.faults p db ≡ (err duplicate, db)
unfolding insert_pair
insert_pair-known env p q db up h = rw (up, get_pair-contains env p.path_id db q h) refl

-- When the pair of the two halves is in the tables already, with their keys, an approval without
-- faults or interference succeeds with the same reply, adds no pair, and approves the request; what
-- the request then keeps as the owner's half is the body of the approval as it was sent.
pub approve_duplicate :
    {env : Env} {id : Text} {req : Request} {db : Db} {r : PairRequest} {stored owner : Half}
    (quiet : (op : Op) → env.faults op ≡ false) (a : Approvable env id req db r stored owner)
    (existing : Pair)
    → Keyed db
    → env.before_write db ≡ db
    → ((d : Db) → env.before_claim d ≡ d)
    → get_pair env.faults (path_id_of env (loaded env.codec stored) owner) db ≡ ok existing
    → existing.requester_pubkey ≡ stored.pubkey
    → existing.owner_pubkey ≡ owner.pubkey
    → let path_id = path_id_of env (loaded env.codec stored) owner in
      let out = approve env id req db in
      (out.0 ≡ approval id path_id (half_to_wire stored))
      × (out.1.pairs ≡ db.pairs)
      × (lookup id out.1 ≡ some (decide approved (take max_body_size a.raw) path_id r))
unfolding claim half_to_wire new_pair
approve_duplicate {env} {id} {req} {db} {r} {stored} {owner} quiet a existing v calm_write
      calm_claim known left right =
    let requester = loaded env.codec stored in
    let path_id = path_id_of env requester owner in
    let raw = take max_body_size a.raw in
    let rows =
      (update_pair_request_status_lem env.faults id approved raw path_id db v (quiet _) (quiet _)).1
        id in
    rw
      (
        approve-claim quiet a,
        calm_write,
        insert_pair-known env (new_pair env requester owner) existing db (quiet _) known,
        known,
        (text_eq_iff _ _).1 left,
        (text_eq_iff _ _).1 right,
        calm_claim,
      )
      (
        refl,
        (update-pairs env.faults id approved raw path_id db).0,
        rows
            ∙ rw
                (
                  a.found,
                  find_sound (λ x. x.request_id == id) db.requests r a.found,
                  is_open-r quiet a,
                )
                refl,
      )
