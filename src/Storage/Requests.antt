-- ===== src/Storage/Requests.antt =====
-- The life of a pair request: pending, then one decision that nothing changes any more.
use mathlib.Core.Option
use interchange.Base.{
  ◌≡◌, ◌≢◌, refl, ap, arith, Bool, true, false, ◌||◌, contains-false, contains-eq-false, find-All,
  All-map, filter-none, Option, none, some, List, [], ◌∷◌, map, Text, ◌==◌, text_eq_iff, All, find,
  contains, if◌then◌else◌, Distinct, Bool-cases, Option-cases, inl, inr, find-append, find-map,
  map-id_of_All,
}
use interchange.Platform.{Time}
use interchange.Storage.{
  Status, pending, PairRequest, not_found, conflict, Result, ok, err, Db, Faults,
  insert_pair_request, update_pair_request_status, expire_pending_requests, get_pair_request,
  is_open, decide, expire, is_stale, stored_request, same_status, insert_envelope,
  delete_envelopes_by_msg_id, delete_envelopes_older_than, insert_pair, update_status_op,
  recheck_op, expire_op,
}
use interchange.Storage.Keys.{
  Keyed, Step, inserted_envelope, deleted, swept, inserted_request, decided, inserted_pair, Reach,
  here, next, request_key,
}

-- The row that a lookup by id finds.
abbrev pub lookup : Text → Db → Option PairRequest
lookup id db = find (λ r. r.request_id == id) db.requests

-- An update seen through a lookup: the row is decided where it is open, and all else stays.
abbrev pub decided_row : Text → Status → Text → Text → PairRequest → PairRequest
decided_row id to owner_json path_id r = if is_open id r then decide to owner_json path_id r else r

requests-delete :
    (f : Faults) (path_id : Text) (ids : List Text) (db : Db)
    → (delete_envelopes_by_msg_id f path_id ids db).1.requests ≡ db.requests
unfolding delete_envelopes_by_msg_id
requests-delete f path_id [] db = refl
requests-delete f path_id (id ∷ ids) db = ground arith

lookup-update :
    (f : Faults) (id j : Text) (to : Status) (owner_json path_id : Text) (db : Db)
    → f update_status_op ≡ false
    → contains (is_open id) db.requests ≡ true
    → lookup j (update_pair_request_status f id to owner_json path_id db).1
      ≡ Option.map (decided_row id to owner_json path_id) (lookup j db)
unfolding update_pair_request_status
lookup-update f id j to owner_json path_id db up found =
    rw (up, found)
      (find-map (λ r. r.request_id == j) (decided_row id to owner_json path_id) db.requests
        (λ r. ground arith))

lookup-expire :
    (f : Faults) (cutoff : Time) (j : Text) (db : Db)
    → f expire_op ≡ false
    → lookup j (expire_pending_requests f cutoff db).1 ≡ Option.map (expire cutoff) (lookup j db)
unfolding expire_pending_requests
lookup-expire f cutoff j db up =
    rw up (find-map (λ r. r.request_id == j) (expire cutoff) db.requests (λ r. ground arith))

update-decided :
    (f : Faults) (i id : Text) (to : Status) (owner_json path_id : Text) (db : Db) (r : PairRequest)
    → lookup id db ≡ some r
    → r.status ≢ pending
    → lookup id (update_pair_request_status f i to owner_json path_id db).1 ≡ some r
update-decided f i id to owner_json path_id db r h n = elim (Bool-cases (f update_status_op)) [
  | inl down ↦ unfold update_pair_request_status in rw down h
  | inr up ↦ elim (Bool-cases (contains (is_open i) db.requests)) [
    | inl found ↦ rw (lookup-update f i id to owner_json path_id db up found, h) (ground arith)
    | inr missed ↦ unfold update_pair_request_status in rw (up, missed) h
  ]
]

expire-decided :
    (f : Faults) (cutoff : Time) (id : Text) (db : Db) (r : PairRequest)
    → lookup id db ≡ some r
    → r.status ≢ pending
    → lookup id (expire_pending_requests f cutoff db).1 ≡ some r
expire-decided f cutoff id db r h n = elim (Bool-cases (f expire_op)) [
  | inl down ↦ unfold expire_pending_requests in rw down h
  | inr up ↦ rw (lookup-expire f cutoff id db up, h) (ground arith)
]

insert-lookup :
    (f : Faults) (q : PairRequest) (id : Text) (db : Db) (r : PairRequest)
    → lookup id db ≡ some r
    → lookup id (insert_pair_request f q db).1 ≡ some r
unfolding insert_pair_request
insert-lookup f q id db r h =
    ground (arith, find-append (λ x. x.request_id == id) db.requests (stored_request q ∷ []) r)

Step-decided :
    {d e : Db} (id : Text) (r : PairRequest)
    → Step d e
    → lookup id d ≡ some r
    → r.status ≢ pending
    → lookup id e ≡ some r
unfolding insert_envelope delete_envelopes_older_than insert_pair
Step-decided id r (inserted_envelope f e) h n = ground arith
Step-decided {d} id r (deleted f path_id ids) h n = rw (requests-delete f path_id ids d) h
Step-decided id r (swept f cutoff) h n = ground arith
Step-decided {d} id r (inserted_request f q) h n = insert-lookup f q id d r h
Step-decided {d} id r (decided f i to owner_json path_id) h n =
    update-decided f i id to owner_json path_id d r h n
Step-decided {d} id r (Step.expired f cutoff) h n = expire-decided f cutoff id d r h n
Step-decided id r (inserted_pair f p) h n = ground arith

-- A request that has been approved, denied or expired keeps its row, the status included, whatever
-- operations write to the tables afterwards and whichever of them fail.
pub Reach-decided :
    {d e : Db} (id : Text) (r : PairRequest)
    → Reach d e
    → lookup id d ≡ some r
    → r.status ≢ pending
    → lookup id e ≡ some r
Reach-decided id r here h n = h
Reach-decided id r (next w s) h n = Step-decided id r s (Reach-decided id r w h n) n

-- The result of a status update, by the row that the id has.
abbrev pub outcome : Status → Option PairRequest → Result (Unit {0})
outcome to none = err not_found
outcome to (some r) =
    if same_status r.status pending || same_status r.status to then ok tt else err conflict

abbrev is_pending_row : Option PairRequest → Bool
is_pending_row none = false
is_pending_row (some r) = same_status r.status pending

closed_of_ne :
    (id : Text) (r y : PairRequest)
    → r.request_id ≡ id
    → r.request_id ≢ y.request_id
    → is_open id y ≡ false
closed_of_ne id r y e n = ground (arith, text_eq_iff y.request_id id)

-- With unique ids, some row is open under an id exactly if the row of the id is pending.
open-eq-pending :
    (id : Text) (rs : List PairRequest)
    → Distinct request_key rs
    → contains (is_open id) rs ≡ is_pending_row (find (λ r. r.request_id == id) rs)
unfolding find contains
open-eq-pending id [] d = refl
open-eq-pending id (r ∷ rs) d = elim (Bool-cases (r.request_id == id)) [
  | inl hit ↦
      let others : contains (is_open id) rs ≡ false = contains-eq-false (is_open id) rs (
        All-map {Q = λ y. is_open id y ≡ false}
          (λ y. closed_of_ne id r y ((text_eq_iff r.request_id id).0 hit)) rs d.0) in
      rw (hit, others) (ground arith)
  | inr miss ↦ rw miss (open-eq-pending id rs d.1)
]

closed_row :
    (id j : Text) (to : Status) (owner_json path_id : Text) (db : Db)
    → contains (is_open id) db.requests ≡ false
    → lookup j db ≡ Option.map (decided_row id to owner_json path_id) (lookup j db)
closed_row id j to owner_json path_id db h = elim (Option-cases (lookup j db)) [
  | inl e ↦ rw e refl
  | inr (r, e) ↦
      let shut =
        find-All (λ y. is_open id y ≡ false) (λ y. y.request_id == j) db.requests r e
          (contains-false (is_open id) db.requests h) in
      rw (e, shut) refl
]

-- Without faults an update reports an unknown id as not found; it decides a pending row, storing the
-- owner's half and the path id where they are not empty; it accepts a row that has the wanted status
-- already, and reports any other decided row as a conflict. Every other row, and every row in the
-- last three cases, stays as it is.
pub update_pair_request_status_lem :
    (f : Faults) (id : Text) (to : Status) (owner_json path_id : Text) (db : Db)
    → Keyed db
    → f update_status_op ≡ false
    → f recheck_op ≡ false
    → ((update_pair_request_status f id to owner_json path_id db).0 ≡ outcome to (lookup id db))
      × ((j : Text)
          → lookup j (update_pair_request_status f id to owner_json path_id db).1
            ≡ Option.map (decided_row id to owner_json path_id) (lookup j db))
update_pair_request_status_lem f id to owner_json path_id db v up rechecks =
    elim (Bool-cases (contains (is_open id) db.requests)) [
      | inl found ↦ (
        unfold update_pair_request_status in
            ground (arith, open-eq-pending id db.requests v.requests),
        λ j. lookup-update f id j to owner_json path_id db up found,
      )
      | inr missed ↦ (
        unfold update_pair_request_status get_pair_request in
            ground (arith, open-eq-pending id db.requests v.requests),
        λ j.
            unfold update_pair_request_status in
            rw (up, missed) (closed_row id j to owner_json path_id db missed),
      )
    ]

expire_twice : (cutoff : Time) (r : PairRequest) → is_stale cutoff (expire cutoff r) ≡ false
expire_twice cutoff r = ground arith

none_stale :
    (cutoff : Time) (rs : List PairRequest)
    → All (λ r. is_stale cutoff r ≡ false) (map (expire cutoff) rs)
none_stale cutoff [] = tt
none_stale cutoff (r ∷ rs) = (expire_twice cutoff r, none_stale cutoff rs)

expire_again :
    (f : Faults) (cutoff : Time) (db : Db)
    → f expire_op ≡ false
    → All (λ r. is_stale cutoff r ≡ false) db.requests
    → expire_pending_requests f cutoff db ≡ (ok 0, db)
unfolding expire_pending_requests
expire_again f cutoff db up h =
    let same : map (expire cutoff) db.requests ≡ db.requests =
      map-id_of_All (expire cutoff) db.requests (
        All-map {Q = λ r. expire cutoff r ≡ r} (λ r (e : is_stale cutoff r ≡ false). rw e refl)
          db.requests h) in
    rw (up, filter-none (is_stale cutoff) db.requests h)
      (ap (λ rs. (ok 0, record db { requests = rs })) same)

-- The expiry pass turns exactly the pending requests whose deadline lies in an earlier second than
-- the cutoff into expired ones, changing no other field and no other row, and leaves none of them; a
-- second pass with the same cutoff finds nothing to do.
pub expire_pending_requests_lem :
    (f : Faults) (cutoff : Time) (db : Db)
    → f expire_op ≡ false
    → let after = (expire_pending_requests f cutoff db).1 in
      ((j : Text) → lookup j after ≡ Option.map (expire cutoff) (lookup j db))
      × All (λ r. is_stale cutoff r ≡ false) after.requests
      × (expire_pending_requests f cutoff after ≡ (ok 0, after))
expire_pending_requests_lem f cutoff db up =
    let none_left : All (λ r. is_stale cutoff r ≡ false)
        (expire_pending_requests f cutoff db).1.requests =
      unfold expire_pending_requests in rw up (none_stale cutoff db.requests) in
    (
      λ j. lookup-expire f cutoff j db up,
      none_left,
      expire_again f cutoff (expire_pending_requests f cutoff db).1 up none_left,
    )
