-- ===== src/Storage.antt =====
-- internal/storage: the rows of the three tables, and every operation of sqlite.go as a function on
-- the tables. A driver fault is an input: it says which operations of a request the driver fails.
pub mod Schema
pub mod Paging
pub mod Drain
pub mod Requests
pub mod Keys
pub mod Arrival
use interchange.Base.{
  ℕ, Bool, true, false, not, ◌&&◌, Option, none, some, List, [], ◌∷◌, ◌++◌, map, Text, is_empty,
  ltb, ◌==◌, text_lt, length, take, filter, find, contains, sort_by, if◌then◌else◌,
}
use interchange.Platform.{Time, format_time, parse_time}

-- "A_to_B" travels from the requester to the owner, "B_to_A" the other way.
pub data Direction : Type 0 where
  a_to_b b_to_a : Direction

pub record Envelope : Type 0 where
  pub msg_id : Text
  pub path_id : Text
  pub direction : Direction
  pub received_at : Time
  pub ciphertext : Text
  pub signature : Text
  pub outer_json : Text

pub data Status : Type 0 where
  pending approved denied expired : Status

-- NULL columns read back as empty texts.
pub record PairRequest : Type 0 where
  pub request_id : Text
  pub status : Status
  pub created_at : Time
  pub expires_at : Time
  pub path_id : Text
  pub requester_json : Text
  pub owner_json : Text
  pub target_nexus_id : Text

pub record Pair : Type 0 where
  pub path_id : Text
  pub requester_id : Text
  pub requester_pubkey : Text
  pub requester_dh_pubkey : Text
  pub owner_id : Text
  pub owner_pubkey : Text
  pub owner_dh_pubkey : Text
  pub sig_alg : Text
  pub dh_alg : Text
  pub activated_at : Time

-- ErrNotFound, ErrDuplicate, ErrConflict, and any other error of the driver.
pub data Error : Type 0 where
  not_found duplicate conflict driver : Error

pub data Result {ℓ} (A : Type ℓ) : Type ℓ where
  ok : A → Result A
  err : Error → Result A

-- The tables, each row behind those that were inserted before it.
pub record Db : Type 0 where
  pub envelopes : List Envelope
  pub requests : List PairRequest
  pub pairs : List Pair

-- The operations that reach the driver; `recheck` is the lookup inside a status update.
pub data Op : Type 0 where
  insert_envelope_op list_envelopes_op delete_envelopes_op sweep_op : Op
  insert_request_op get_request_op list_pending_op update_status_op recheck_op expire_op : Op
  insert_pair_op get_pair_op : Op

abbrev pub Faults : Type 0
Faults = Op → Bool

abbrev pub no_faults : Faults
no_faults op = false

abbrev pub same_direction : Direction → Direction → Bool
same_direction a_to_b a_to_b = true
same_direction b_to_a b_to_a = true
same_direction _ _ = false

abbrev pub same_status : Status → Status → Bool
same_status pending pending = true
same_status approved approved = true
same_status denied denied = true
same_status expired expired = true
same_status _ _ = false

-- A time column goes through the canonical layout and comes back.
abbrev pub stored_time : Time → Time
stored_time t = parse_time (format_time t)

abbrev pub stored_envelope : Envelope → Envelope
stored_envelope e = record e { received_at = stored_time e.received_at }

unfoldable pub insert_envelope : Faults → Envelope → Db → Result (Unit {0}) × Db
insert_envelope f e db =
    if f insert_envelope_op
    then (err driver, db)
    else if contains (λ x. x.msg_id == e.msg_id) db.envelopes
    then (err duplicate, db)
    else (ok tt, record db { envelopes = db.envelopes ++ (stored_envelope e ∷ []) })

abbrev pub list_limit : ℕ
list_limit = 50

-- WHERE path_id = ? AND direction = ? AND msg_id > ?
abbrev pub is_after : Text → Direction → Text → Envelope → Bool
is_after path_id dir since e =
    e.path_id == path_id && (same_direction e.direction dir && text_lt since e.msg_id)

abbrev pub before_msg : Envelope → Envelope → Bool
before_msg a b = text_lt a.msg_id b.msg_id

-- ORDER BY msg_id ASC, with no LIMIT: all that a cursor walk has to deliver.
unfoldable pub inbox : Text → Direction → Text → List Envelope → List Envelope
inbox path_id dir since rows = sort_by before_msg (filter (is_after path_id dir since) rows)

unfoldable pub list_envelopes : Faults → Text → Direction → Text → Db → Result (List Envelope)
list_envelopes f path_id dir since db =
    if f list_envelopes_op
    then err driver
    else ok (take list_limit (inbox path_id dir since db.envelopes))

-- WHERE path_id = ? AND msg_id IN (…)
abbrev pub is_listed : Text → List Text → Envelope → Bool
is_listed path_id ids e = e.path_id == path_id && contains (λ id. e.msg_id == id) ids

unfoldable pub delete_envelopes_by_msg_id : Faults → Text → List Text → Db → Result ℕ × Db
delete_envelopes_by_msg_id f path_id [] db = (ok 0, db)
delete_envelopes_by_msg_id f path_id (id ∷ ids) db =
    if f delete_envelopes_op then (err driver, db) else (
      ok (length (filter (is_listed path_id (id ∷ ids)) db.envelopes)),
      record db { envelopes = filter (λ e. not (is_listed path_id (id ∷ ids) e)) db.envelopes },
    )

abbrev pub is_older : Time → Envelope → Bool
is_older cutoff e = ltb (format_time e.received_at) (format_time cutoff)

unfoldable pub delete_envelopes_older_than : Faults → Time → Db → Result ℕ × Db
delete_envelopes_older_than f cutoff db = if f sweep_op then (err driver, db) else (
  ok (length (filter (is_older cutoff) db.envelopes)),
  record db { envelopes = filter (λ e. not (is_older cutoff e)) db.envelopes },
)

abbrev pub stored_request : PairRequest → PairRequest
stored_request r = record r {
  created_at = stored_time r.created_at;
  expires_at = stored_time r.expires_at;
}

unfoldable pub insert_pair_request : Faults → PairRequest → Db → Result (Unit {0}) × Db
insert_pair_request f r db =
    if f insert_request_op
    then (err driver, db)
    else if contains (λ x. x.request_id == r.request_id) db.requests
    then (err duplicate, db)
    else (ok tt, record db { requests = db.requests ++ (stored_request r ∷ []) })

abbrev pub or_not_found {ℓ} : {A : Type ℓ} → Option A → Result A
or_not_found none = err not_found
or_not_found (some a) = ok a

unfoldable pub get_pair_request : Bool → Text → Db → Result PairRequest
get_pair_request fault id db =
    if fault then err driver else or_not_found (find (λ r. r.request_id == id) db.requests)

abbrev pub created_before : PairRequest → PairRequest → Bool
created_before a b = ltb (format_time a.created_at) (format_time b.created_at)

unfoldable pub list_pending_pair_requests : Faults → Db → Result (List PairRequest)
list_pending_pair_requests f db =
    if f list_pending_op
    then err driver
    else ok (sort_by created_before (filter (λ r. same_status r.status pending) db.requests))

-- COALESCE(?, column), where an empty argument is bound as NULL
abbrev pub coalesce : Text → Text → Text
coalesce new old = if is_empty new then old else new

-- WHERE request_id = ? AND status = 'pending'
abbrev pub is_open : Text → PairRequest → Bool
is_open id r = r.request_id == id && same_status r.status pending

abbrev pub decide : Status → Text → Text → PairRequest → PairRequest
decide to owner_json path_id r = record r {
  status = to;
  owner_json = coalesce owner_json r.owner_json;
  path_id = coalesce path_id r.path_id;
}

-- What an update that touched no row reports.
abbrev pub untouched : Status → Result PairRequest → Result (Unit {0})
untouched to (err e) = err e
untouched to (ok r) =
    if same_status r.status to
    then ok tt
    else if not (same_status r.status pending)
    then err conflict
    else err driver

unfoldable pub update_pair_request_status :
    Faults → Text → Status → Text → Text → Db → Result (Unit {0}) × Db
update_pair_request_status f id to owner_json path_id db =
    if f update_status_op
    then (err driver, db)
    else if contains (is_open id) db.requests
    then (
      ok tt,
      record db {
        requests =
            map (λ r. if is_open id r then decide to owner_json path_id r else r) db.requests;
      },
    )
    else (untouched to (get_pair_request (f recheck_op) id db), db)

abbrev pub is_stale : Time → PairRequest → Bool
is_stale cutoff r =
    same_status r.status pending && ltb (format_time r.expires_at) (format_time cutoff)

abbrev pub expire : Time → PairRequest → PairRequest
expire cutoff r = if is_stale cutoff r then record r { status = expired } else r

unfoldable pub expire_pending_requests : Faults → Time → Db → Result ℕ × Db
expire_pending_requests f cutoff db = if f expire_op then (err driver, db) else (
  ok (length (filter (is_stale cutoff) db.requests)),
  record db { requests = map (expire cutoff) db.requests },
)

unfoldable pub insert_pair : Faults → Pair → Db → Result (Unit {0}) × Db
insert_pair f p db =
    if f insert_pair_op
    then (err driver, db)
    else if contains (λ x. x.path_id == p.path_id) db.pairs
    then (err duplicate, db)
    else (
      ok tt,
      record db {
        pairs = db.pairs ++ (record p { activated_at = stored_time p.activated_at } ∷ []);
      },
    )

unfoldable pub get_pair : Faults → Text → Db → Result Pair
get_pair f path_id db =
    if f get_pair_op then err driver else or_not_found (find (λ p. p.path_id == path_id) db.pairs)
