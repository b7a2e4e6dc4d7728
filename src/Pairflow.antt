-- ===== src/Pairflow.antt =====
-- internal/pairflow/pairflow.go: the two dispatchers of the pair flow and their routes.
pub mod Claims
pub mod Opening
pub mod Create
pub mod Duplicate
pub mod Public
pub mod Race
pub mod Repeat
pub mod Approve
pub mod Writes
use interchange.Base.{
  Bool, not, ◌&&◌, ◌||◌, Option, none, some, List, [], ◌∷◌, Text, codes, is_empty, ◌==◌, split_on,
  cut_prefix, if◌then◌else◌,
}
use interchange.Handlers.{Reply, failed}
use interchange.Storage.{Db, expire_pending_requests}
use interchange.Submissions.{Request, Env, create_request, get_request_status, list_pending}
use interchange.Decisions.{approve, deny}

abbrev pub page_not_found : Reply
page_not_found = failed 404 "404 page not found"

abbrev pub is_get : Request → Bool
is_get req = req.method == codes "GET"

abbrev pub is_post : Request → Bool
is_post req = req.method == codes "POST"

unfoldable pub route_public : Env → List Text → Request → Db → Reply × Db
route_public env (a ∷ []) req db =
    if a == codes "request" && is_post req then create_request env req db else (page_not_found, db)
route_public env (a ∷ id ∷ []) req db =
    if a == codes "requests" && (not (is_empty id) && is_get req)
    then (get_request_status env id db, db)
    else (page_not_found, db)
route_public env _ req db = (page_not_found, db)

unfoldable pub route_owner : Env → List Text → Request → Db → Reply × Db
route_owner env (a ∷ []) req db =
    if a == codes "requests" && is_get req
    then (list_pending env req db, db)
    else (page_not_found, db)
route_owner env (a ∷ id ∷ action ∷ []) req db =
    if a == codes "requests" && is_post req
    then (if action == codes "approve"
        then approve env id req db
        else if action == codes "deny"
        then deny env id db
        else (page_not_found, db))
    else (page_not_found, db)
route_owner env _ req db = (page_not_found, db)

abbrev pub below_pair : Request → Option Text
below_pair req = cut_prefix req.path (codes "/pair/")

-- dispatchPublic: stale requests expire first, and an error of that is ignored.
unfoldable pub dispatch_public : Env → Request → Db → Reply × Db
dispatch_public env req db =
    let swept = (expire_pending_requests env.faults env.now db).1 in
    elim (below_pair req) [
      | none ↦ (page_not_found, swept)
      | some path ↦ route_public env (split_on b'/' path) req swept
    ]

-- dispatchOwner
unfoldable pub dispatch_owner : Env → Request → Db → Reply × Db
dispatch_owner env req db =
    let swept = (expire_pending_requests env.faults env.now db).1 in
    if is_empty env.owner_secret || req.owner_secret == env.owner_secret
    then elim (below_pair req) [
      | none ↦ (page_not_found, swept)
      | some path ↦ route_owner env (split_on b'/' path) req swept
    ]
    else (failed 401 "owner_auth_required", db)
