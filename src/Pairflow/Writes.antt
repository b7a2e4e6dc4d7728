-- ===== src/Pairflow/Writes.antt =====
-- What the pair flow writes: chains of single operations on the tables.
use interchange.Base.{
  ◌≡◌, refl, sym, subst, arith, Bool, true, false, Option, none, some, List, [], ◌∷◌, Text, codes,
  is_empty, ◌==◌, ◌&&◌, ◌||◌, not, split_on, if◌then◌else◌,
}
use interchange.Formats.{uuid_regex}
use interchange.Storage.{
  Db, Faults, PairRequest, Status, Result, Error, duplicate, insert_pair_request,
  update_pair_request_status, insert_pair, expire_pending_requests, same_status, get_pair,
}
use interchange.Storage.Keys.{
  Reach, Reach-trans, here, next, inserted_request, inserted_pair, decided, expired,
}
use interchange.Handlers.{Reply, Checked, pass, stop}
use interchange.Halves.{Half}
use interchange.Submissions.{Env, Request, create_checks, create_reply, create_request}
use interchange.Decisions.{
  approve_checks, approve_closed, approve_halves, approve_pending, approve, claim, claim_reply,
  deny, deny_reply, new_pair, path_id_of, is_same_pair,
}
use interchange.Pairflow.{
  route_public, route_owner, dispatch_public, dispatch_owner, below_pair, page_not_found, is_get,
  is_post,
}

either-Reach :
    (b : Bool) (db : Db) (x y : Reply × Db)
    → Reach db x.1
    → Reach db y.1
    → Reach db (if b then x else y).1
either-Reach true db x y h k = h
either-Reach false db x y h k = k

checked-Reach :
    {A : Type 0} (c : Checked A) (db : Db) (f : A → Reply × Db)
    → ((a : A) → Reach db (f a).1)
    → Reach db (elim c as (λ _. Reply × Db) [ stop r ↦ (r, db) | pass a ↦ f a ]).1
checked-Reach (stop r) db f h = here
checked-Reach (pass a) db f h = h a

create_reply-tables : (q : PairRequest) (x : Result (Unit {0}) × Db) → (create_reply q x).1 ≡ x.1
create_reply-tables q (Result.ok u, db) = refl
create_reply-tables q (Result.err e, db) = ground arith

create-Reach : (env : Env) (req : Request) (db : Db) → Reach db (create_request env req db).1
unfolding create_request
create-Reach env req db =
    checked-Reach (create_checks env req) db
      (λ row. create_reply row (insert_pair_request env.faults row db))
      λ row.
        subst (Reach db) (sym (create_reply-tables row (insert_pair_request env.faults row db)))
          (next here (inserted_request env.faults row))

claim_reply-tables : (r : Reply) (x : Result (Unit {0}) × Db) → (claim_reply r x).1 ≡ x.1
claim_reply-tables r (Result.ok u, db) = refl
claim_reply-tables r (Result.err e, db) = ground arith

deny_reply-tables : (id : Text) (x : Result (Unit {0}) × Db) → (deny_reply id x).1 ≡ x.1
deny_reply-tables id (Result.ok u, db) = refl
deny_reply-tables id (Result.err e, db) = ground arith

update-Reach :
    (f : Faults) (id : Text) (to : Status) (owner_json path_id : Text) (d db : Db)
    → Reach d db
    → Reach d (update_pair_request_status f id to owner_json path_id db).1
update-Reach f id to owner_json path_id d db r = next r (decided f id to owner_json path_id)

deny-Reach : (env : Env) (id : Text) (db : Db) → Reach db (deny env id db).1
unfolding deny
deny-Reach env id db =
    either-Reach (uuid_regex id) db _ _
      (subst (Reach db) (sym (deny_reply-tables id _))
        (update-Reach env.faults id _ _ _ db db here))
      here

below-Reach :
    (d swept : Db) (path : Option Text) (f : Text → Reply × Db)
    → Reach d swept
    → ((path : Text) → Reach swept (f path).1)
    → Reach d (elim path as (λ _. Reply × Db) [ none ↦ (page_not_found, swept) | some p ↦ f p ]).1
below-Reach d swept none f first h = first
below-Reach d swept (some path) f first h = Reach-trans first (h path)

-- What other requests write in the middle of an approval are operations on the tables as well.
pub record Interleaved (env : Env) : Type 0 where
  pub before_write : (d : Db) → Reach d (env.before_write d)
  pub before_claim : (d : Db) → Reach d (env.before_claim d)

module _ (env : Env) (others : Interleaved env) where
  claim-Reach :
      (id raw : Text) (requester owner : Half) (d : Db) (x : Result (Unit {0}) × Db)
      → Reach d x.1
      → Reach d (claim env id raw requester owner x).1
  unfolding claim
  claim-Reach id raw requester owner d (Result.ok u, db) h =
      subst (Reach d) (sym (claim_reply-tables _ _)) (
        update-Reach env.faults id _ _ _ d (env.before_claim db)
          (Reach-trans h (others.before_claim db)))
  claim-Reach id raw requester owner d (Result.err duplicate, db) h =
      either-Reach
        (is_same_pair requester owner (get_pair env.faults (path_id_of env requester owner) db)) d _
        _
        (update-Reach env.faults id _ _ _ d (env.before_claim db)
          (Reach-trans h (others.before_claim db)))
        h
  claim-Reach id raw requester owner d (Result.err Error.not_found, db) h = h
  claim-Reach id raw requester owner d (Result.err Error.conflict, db) h = h
  claim-Reach id raw requester owner d (Result.err Error.driver, db) h = h

  approve_pending-Reach :
      (id raw : Text) (body : Half) (r : PairRequest) (db : Db)
      → Reach db (approve_pending env id raw body r db).1
  unfolding approve_pending
  approve_pending-Reach id raw body r db =
      checked-Reach (approve_halves env body r) db
        (λ h.
          claim env id raw h.0 h.1
            (insert_pair env.faults (new_pair env h.0 h.1) (env.before_write db)))
        λ h.
          claim-Reach id raw h.0 h.1 db
            (insert_pair env.faults (new_pair env h.0 h.1) (env.before_write db))
            (next (others.before_write db) (inserted_pair env.faults (new_pair env h.0 h.1)))

  approve-Reach : (id : Text) (req : Request) (db : Db) → Reach db (approve env id req db).1
  unfolding approve
  approve-Reach id req db =
      checked-Reach (approve_checks env id req db) db
        (λ p.
          if same_status p.2.status Status.pending
          then approve_pending env id p.0 p.1 p.2 db
          else (approve_closed env id p.1 p.2 db, db))
        λ p.
          either-Reach (same_status p.2.status Status.pending) db _ _
            (approve_pending-Reach id p.0 p.1 p.2 db) here

  route_owner-Reach :
      (parts : List Text) (req : Request) (db : Db) → Reach db (route_owner env parts req db).1
  unfolding route_owner
  route_owner-Reach [] req db = here
  route_owner-Reach (a ∷ []) req db =
      either-Reach (a == codes "requests" && is_get req) db _ _ here here
  route_owner-Reach (a ∷ id ∷ []) req db = here
  route_owner-Reach (a ∷ id ∷ action ∷ []) req db =
      either-Reach (a == codes "requests" && is_post req) db _ _
        (either-Reach (action == codes "approve") db _ _ (approve-Reach id req db)
          (either-Reach (action == codes "deny") db _ _ (deny-Reach env id db) here))
        here
  route_owner-Reach (a ∷ b ∷ c ∷ d ∷ rest) req db = here

  -- A request to the owner listener runs operations on the tables, if what others do meanwhile does.
  pub dispatch_owner-Reach : (req : Request) (db : Db) → Reach db (dispatch_owner env req db).1
  unfolding dispatch_owner
  dispatch_owner-Reach req db =
      let swept = (expire_pending_requests env.faults env.now db).1 in
      let first : Reach db swept = next here (expired env.faults env.now) in
      either-Reach (is_empty env.owner_secret || req.owner_secret == env.owner_secret) db _ _
        (below-Reach db swept (below_pair req)
          (λ path. route_owner env (split_on b'/' path) req swept) first
          (λ path. route_owner-Reach (split_on b'/' path) req swept))
        here

route_public-Reach :
    (env : Env) (parts : List Text) (req : Request) (db : Db)
    → Reach db (route_public env parts req db).1
unfolding route_public
route_public-Reach env [] req db = here
route_public-Reach env (a ∷ []) req db =
    either-Reach (a == codes "request" && is_post req) db _ _ (create-Reach env req db) here
route_public-Reach env (a ∷ id ∷ []) req db =
    either-Reach (a == codes "requests" && (not (is_empty id) && is_get req)) db _ _ here here
route_public-Reach env (a ∷ b ∷ c ∷ rest) req db = here

-- A request to the public listener runs operations on the tables.
pub dispatch_public-Reach :
    (env : Env) (req : Request) (db : Db) → Reach db (dispatch_public env req db).1
unfolding dispatch_public
dispatch_public-Reach env req db =
    let swept = (expire_pending_requests env.faults env.now db).1 in
    below-Reach db swept (below_pair req) (λ path. route_public env (split_on b'/' path) req swept)
      (next here (expired env.faults env.now))
      (λ path. route_public-Reach env (split_on b'/' path) req swept)
