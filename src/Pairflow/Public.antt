-- ===== src/Pairflow/Public.antt =====
-- What the two listeners can change: the public one never activates anything.
use interchange.Base.{
  ◌≡◌, ◌≢◌, refl, arith, Bool, false, List, [], ◌∷◌, ◌++◌, map, Text, codes, is_empty-false,
  text_eq-false, filter, Option-cases, inl, inr, split_on, cut_prefix,
}
use interchange.Platform.{Time}
use interchange.Storage.{
  pending, approved, PairRequest, Db, Faults, same_status, expire, insert_pair_request,
  expire_pending_requests, stored_request,
}
use interchange.Handlers.{failed, Checked, pass, stop}
use interchange.Handlers.Checks.{on_pass, pass-injective}
use interchange.Submissions.{Env, Request, create_checks, create_reply, create_request}
use interchange.Pairflow.{route_public, dispatch_public, dispatch_owner}

abbrev pub is_approved : PairRequest → Bool
is_approved r = same_status r.status approved

filter-expire :
    (cutoff : Time) (rs : List PairRequest)
    → filter is_approved (map (expire cutoff) rs) ≡ filter is_approved rs
unfolding filter
filter-expire cutoff [] = refl
filter-expire cutoff (r ∷ rs) = ground (arith, filter-expire cutoff rs)

filter-insert :
    (rs : List PairRequest) (q : PairRequest)
    → is_approved q ≡ false
    → filter is_approved (rs ++ (q ∷ [])) ≡ filter is_approved rs
unfolding filter
filter-insert [] q h = rw h refl
filter-insert (r ∷ rs) q h = ground (arith, filter-insert rs q h)

-- The pairs, the envelopes and the approved requests are those of before.
abbrev pub SameGrants : Db → Db → Type 0
SameGrants d e =
    (e.pairs ≡ d.pairs)
    × (e.envelopes ≡ d.envelopes)
    × (filter is_approved e.requests ≡ filter is_approved d.requests)

pub expire-SameGrants :
    (f : Faults) (cutoff : Time) (db : Db) → SameGrants db (expire_pending_requests f cutoff db).1
unfolding expire_pending_requests
expire-SameGrants f cutoff db = ground (arith, filter-expire cutoff db.requests)

insert-SameGrants :
    (f : Faults) (q : PairRequest) (db : Db)
    → q.status ≡ pending
    → SameGrants db (insert_pair_request f q db).1
unfolding insert_pair_request
insert-SameGrants f q db h = ground (arith, filter-insert db.requests (stored_request q))

create_checks-status :
    (env : Env) (req : Request) (row : PairRequest)
    → create_checks env req ≡ pass row
    → row.status ≡ pending
unfolding create_checks
create_checks-status env req row h = on_pass _ _ h λ raw h1 k1. on_pass _ _ k1 λ body h2 k2.
    on_pass _ _ k2 λ _ h3 k3. on_pass _ _ k3 λ _ h4 k4.
      on_pass _ _ k4
        λ half h5 k5. on_pass _ _ k5 λ _ h6 k6. on_pass _ _ k6 λ _ h7 k7. cc (pass-injective _ _ k7)

create_reply-tables :
    (q : PairRequest) (f : Faults) (db : Db)
    → (create_reply q (insert_pair_request f q db)).1 ≡ (insert_pair_request f q db).1
unfolding insert_pair_request
create_reply-tables q f db = ground arith

create-SameGrants :
    (env : Env) (req : Request) (db : Db) (c : Checked PairRequest)
    → create_checks env req ≡ c
    → SameGrants db (create_request env req db).1
unfolding create_request
create-SameGrants env req db (stop r) e = rw (e, create_request) (refl, refl, refl)
create-SameGrants env req db (pass row) e =
    rw (e, create_request, create_reply-tables row env.faults db)
      (insert-SameGrants env.faults row db (create_checks-status env req row e))

route-SameGrants :
    (env : Env) (parts : List Text) (req : Request) (db : Db)
    → SameGrants db (route_public env parts req db).1
unfolding route_public
route-SameGrants env [] req db = (refl, refl, refl)
route-SameGrants env (a ∷ []) req db =
    ground (arith, create-SameGrants env req db (create_checks env req) refl)
route-SameGrants env (a ∷ b ∷ []) req db = ground arith
route-SameGrants env (a ∷ b ∷ c ∷ rest) req db = (refl, refl, refl)

-- Whatever arrives at the public listener, it activates no pair, touches no message, and approves no
-- request: the pairs, the envelopes and the approved requests are those of before.
pub dispatch_public-SameGrants :
    (env : Env) (req : Request) (db : Db) → SameGrants db (dispatch_public env req db).1
unfolding dispatch_public cut_prefix filter
dispatch_public-SameGrants env req db =
    let swept = (expire_pending_requests env.faults env.now db).1 in
    let first : SameGrants db swept = expire-SameGrants env.faults env.now db in
    elim (Option-cases (cut_prefix req.path (codes "/pair/"))) [
      | inl e ↦ rw e first
      | inr (path, e) ↦
          let second : SameGrants swept (route_public env (split_on b'/' path) req swept).1 =
            route-SameGrants env _ req _ in
          rw e (ground arith)
    ]

-- Where an owner secret is configured, a request without it is refused and changes nothing at all.
pub dispatch_owner-unauthorized :
    (env : Env) (req : Request) (db : Db)
    → env.owner_secret ≢ []
    → req.owner_secret ≢ env.owner_secret
    → dispatch_owner env req db ≡ (failed 401 "owner_auth_required", db)
unfolding dispatch_owner
dispatch_owner-unauthorized env req db set wrong =
    rw (is_empty-false env.owner_secret set, text_eq-false req.owner_secret env.owner_secret wrong)
      refl
