-- ===== src/Storage/Keys.antt =====
-- The primary keys, over every history of operations, and what a decision leaves final.
use interchange.Base.{
  ◌≡◌, ◌≢◌, arith, false, List, [], ◌∷◌, ◌++◌, Text, ◌==◌, text_eq_iff, All-map, contains,
  contains-false, Distinct, Distinct-filter, Distinct-append, Distinct-map, Bool-cases, inl, inr,
}
use interchange.Platform.{Time}
use interchange.Storage.{
  Envelope, Status, PairRequest, Pair, Db, Faults, insert_envelope, delete_envelopes_by_msg_id,
  delete_envelopes_older_than, insert_pair_request, update_pair_request_status,
  expire_pending_requests, insert_pair, is_open, expire, stored_envelope, stored_request,
  stored_time, insert_envelope_op, insert_request_op, insert_pair_op, delete_envelopes_op, sweep_op,
  update_status_op, expire_op,
}
use interchange.Storage.Paging.{msg_key}

abbrev pub request_key : PairRequest → Text
request_key r = r.request_id

abbrev pub pair_key : Pair → Text
pair_key p = p.path_id

-- No two rows of a table share a primary key.
pub record Keyed (db : Db) : Type 0 where
  pub envelopes : Distinct msg_key db.envelopes
  pub requests : Distinct request_key db.requests
  pub pairs : Distinct pair_key db.pairs

-- The operations that write, with any arguments and any faults.
pub data Step (db : Db) : Db → Type 0 where
  inserted_envelope : (f : Faults) (e : Envelope) → Step db (insert_envelope f e db).1
  deleted :
      (f : Faults) (path_id : Text) (ids : List Text)
      → Step db (delete_envelopes_by_msg_id f path_id ids db).1
  swept : (f : Faults) (cutoff : Time) → Step db (delete_envelopes_older_than f cutoff db).1
  inserted_request : (f : Faults) (r : PairRequest) → Step db (insert_pair_request f r db).1
  decided :
      (f : Faults) (id : Text) (to : Status) (owner_json path_id : Text)
      → Step db (update_pair_request_status f id to owner_json path_id db).1
  expired : (f : Faults) (cutoff : Time) → Step db (expire_pending_requests f cutoff db).1
  inserted_pair : (f : Faults) (p : Pair) → Step db (insert_pair f p db).1

pub data Reach (db : Db) : Db → Type 0 where
  here : Reach db db
  next : {d e : Db} → Reach db d → Step d e → Reach db e

pub Reach-trans : {d e f : Db} → Reach d e → Reach e f → Reach d f
Reach-trans u here = u
Reach-trans u (next w s) = next (Reach-trans u w) s

module _ {A : Type 0} (key : A → Text) where
  absent_ne : (k : Text) (x : A) → (key x == k) ≡ false → key x ≢ k
  absent_ne k x n e = cc (n, (text_eq_iff (key x) k).1 e)

  -- A row with a key that no row has may be appended.
  Distinct-insert :
      (a : A) (xs : List A)
      → contains (λ x. key x == key a) xs ≡ false
      → Distinct key xs
      → Distinct key (xs ++ (a ∷ []))
  Distinct-insert a xs h d =
      Distinct-append key xs a
        (All-map {Q = λ x. key x ≢ key a} (absent_ne (key a)) xs
          (contains-false (λ x. key x == key a) xs h))
        d

module _ {db : Db} (v : Keyed db) where
  open v use {envelopes, requests, pairs}

  insert_envelope-Keyed : (f : Faults) (e : Envelope) → Keyed (insert_envelope f e db).1
  unfolding insert_envelope
  insert_envelope-Keyed f e = elim (Bool-cases (f insert_envelope_op)) [
    | inl down ↦ rw down v
    | inr up ↦ elim (Bool-cases (contains (λ x. x.msg_id == e.msg_id) db.envelopes)) [
      | inl known ↦ rw (up, known) v
      | inr new ↦
          rw (up, new)
            (record {
              envelopes = Distinct-insert msg_key (stored_envelope e) db.envelopes new envelopes;
              requests = requests;
              pairs = pairs;
            })
    ]
  ]

  insert_pair_request-Keyed : (f : Faults) (r : PairRequest) → Keyed (insert_pair_request f r db).1
  unfolding insert_pair_request
  insert_pair_request-Keyed f r = elim (Bool-cases (f insert_request_op)) [
    | inl down ↦ rw down v
    | inr up ↦ elim (Bool-cases (contains (λ x. x.request_id == r.request_id) db.requests)) [
      | inl known ↦ rw (up, known) v
      | inr new ↦
          rw (up, new)
            (record {
              envelopes = envelopes;
              requests = Distinct-insert request_key (stored_request r) db.requests new requests;
              pairs = pairs;
            })
    ]
  ]

  insert_pair-Keyed : (f : Faults) (p : Pair) → Keyed (insert_pair f p db).1
  unfolding insert_pair
  insert_pair-Keyed f p = elim (Bool-cases (f insert_pair_op)) [
    | inl down ↦ rw down v
    | inr up ↦ elim (Bool-cases (contains (λ x. x.path_id == p.path_id) db.pairs)) [
      | inl known ↦ rw (up, known) v
      | inr new ↦
          rw (up, new)
            (record {
              envelopes = envelopes;
              requests = requests;
              pairs =
                  Distinct-insert pair_key (record p { activated_at = stored_time p.activated_at })
                    db.pairs new pairs;
            })
    ]
  ]

  delete-Keyed :
      (f : Faults) (path_id : Text) (ids : List Text)
      → Keyed (delete_envelopes_by_msg_id f path_id ids db).1
  unfolding delete_envelopes_by_msg_id
  delete-Keyed f path_id [] = v
  delete-Keyed f path_id (id ∷ ids) = elim (Bool-cases (f delete_envelopes_op)) [
    | inl down ↦ rw down v
    | inr up ↦ rw up (record {
      envelopes = Distinct-filter msg_key _ db.envelopes envelopes;
      requests = requests;
      pairs = pairs;
    })
  ]

  sweep-Keyed : (f : Faults) (cutoff : Time) → Keyed (delete_envelopes_older_than f cutoff db).1
  unfolding delete_envelopes_older_than
  sweep-Keyed f cutoff = elim (Bool-cases (f sweep_op)) [
    | inl down ↦ rw down v
    | inr up ↦ rw up (record {
      envelopes = Distinct-filter msg_key _ db.envelopes envelopes;
      requests = requests;
      pairs = pairs;
    })
  ]

  update-Keyed :
      (f : Faults) (id : Text) (to : Status) (owner_json path_id : Text)
      → Keyed (update_pair_request_status f id to owner_json path_id db).1
  unfolding update_pair_request_status
  update-Keyed f id to owner_json path_id = elim (Bool-cases (f update_status_op)) [
    | inl down ↦ rw down v
    | inr up ↦ elim (Bool-cases (contains (is_open id) db.requests)) [
      | inl found ↦
          rw (up, found)
            (record {
              envelopes = envelopes;
              requests = Distinct-map request_key _ (λ r. ground arith) db.requests requests;
              pairs = pairs;
            })
      | inr missed ↦ rw (up, missed) v
    ]
  ]

  expire-Keyed : (f : Faults) (cutoff : Time) → Keyed (expire_pending_requests f cutoff db).1
  unfolding expire_pending_requests
  expire-Keyed f cutoff = elim (Bool-cases (f expire_op)) [
    | inl down ↦ rw down v
    | inr up ↦ rw up (record {
      envelopes = envelopes;
      requests = Distinct-map request_key (expire cutoff) (λ r. ground arith) db.requests requests;
      pairs = pairs;
    })
  ]

-- Every write, failing or not, keeps the primary keys unique.
pub Step-Keyed : {d e : Db} → Step d e → Keyed d → Keyed e
Step-Keyed (inserted_envelope f e) v = insert_envelope-Keyed v f e
Step-Keyed (deleted f path_id ids) v = delete-Keyed v f path_id ids
Step-Keyed (swept f cutoff) v = sweep-Keyed v f cutoff
Step-Keyed (inserted_request f r) v = insert_pair_request-Keyed v f r
Step-Keyed (decided f id to owner_json path_id) v = update-Keyed v f id to owner_json path_id
Step-Keyed (expired f cutoff) v = expire-Keyed v f cutoff
Step-Keyed (inserted_pair f p) v = insert_pair-Keyed v f p

pub Reach-Keyed_from : {d e : Db} → Reach d e → Keyed d → Keyed e
Reach-Keyed_from here v = v
Reach-Keyed_from (next r s) v = Step-Keyed s (Reach-Keyed_from r v)

abbrev pub empty_db : Db
empty_db = record { envelopes = []; requests = []; pairs = [] }

-- Whatever writes have been made to the fresh tables, no two rows of a table share a primary key.
pub Reach-Keyed : {db : Db} → Reach empty_db db → Keyed db
Reach-Keyed r = Reach-Keyed_from r (record { envelopes = tt; requests = tt; pairs = tt })
