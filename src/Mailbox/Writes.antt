-- ===== src/Mailbox/Writes.antt =====
-- What the mailbox writes: single operations on the message table, and nothing else.
use interchange.Base.{
  ℕ, ◌≡◌, ◌&&◌, none, some, true, false, refl, sym, subst, is_empty, if◌then◌else◌, arith, Bool,
  List, [], ◌∷◌, Text, codes, ◌==◌, split_on, cut_prefix,
}
use interchange.Storage.{Db, Envelope, Faults, Result, insert_envelope, delete_envelopes_by_msg_id}
use interchange.Storage.Keys.{Reach, here, next, inserted_envelope, deleted}
use interchange.Formats.{path_id_regex}
use interchange.Handlers.{Reply, pass, stop}
use interchange.Mailbox.{
  Env, Request, put, put_checks, put_reply, ack, ack_checks, ack_reply, route, dispatch_parts,
  dispatch, page_not_found,
}

-- One table after another, by operations that leave pairs and requests as they are.
abbrev pub Writes : Db → Db → Type 0
Writes d e = Reach d e × (e.pairs ≡ d.pairs) × (e.requests ≡ d.requests)

none_written : (db : Db) → Writes db db
none_written db = (here, refl, refl)

pub insert-Writes : (f : Faults) (row : Envelope) (db : Db) → Writes db (insert_envelope f row db).1
unfolding insert_envelope
insert-Writes f row db = (next here (inserted_envelope f row), ground arith, ground arith)

delete-Writes :
    (f : Faults) (path_id : Text) (ids : List Text) (db : Db)
    → Writes db (delete_envelopes_by_msg_id f path_id ids db).1
unfolding delete_envelopes_by_msg_id
delete-Writes f path_id [] db = none_written db
delete-Writes f path_id (id ∷ ids) db =
    (next here (deleted f path_id (id ∷ ids)), ground arith, ground arith)

pub put_reply-tables : (msg_id : Text) (x : Result (Unit {0}) × Db) → (put_reply msg_id x).1 ≡ x.1
put_reply-tables msg_id (Result.ok u, db) = refl
put_reply-tables msg_id (Result.err e, db) = ground arith

pub ack_reply-tables : (x : Result ℕ × Db) → (ack_reply x).1 ≡ x.1
ack_reply-tables (Result.ok n, db) = refl
ack_reply-tables (Result.err e, db) = refl

put-Writes :
    (env : Env) (path_id : Text) (req : Request) (db : Db) → Writes db (put env path_id req db).1
unfolding put
put-Writes env path_id req db =
    elim (put_checks env path_id req db)
      as (λ c.
        Writes db
          (elim c as (λ _. Reply × Db) [
            | stop reply ↦ (reply, db)
            | pass row ↦ put_reply row.msg_id (insert_envelope env.faults row db)
          ]).1) [
            | stop reply ↦ none_written db
            | pass row ↦
                subst (Writes db)
                  (sym (put_reply-tables row.msg_id (insert_envelope env.faults row db)))
                  (insert-Writes env.faults row db)
          ]

ack-Writes :
    (env : Env) (path_id : Text) (req : Request) (db : Db) → Writes db (ack env path_id req db).1
unfolding ack
ack-Writes env path_id req db =
    elim (ack_checks env path_id req db)
      as (λ c.
        Writes db
          (elim c as (λ _. Reply × Db) [
            | stop reply ↦ (reply, db)
            | pass ids ↦ ack_reply (delete_envelopes_by_msg_id env.faults path_id ids db)
          ]).1) [
            | stop reply ↦ none_written db
            | pass ids ↦
                subst (Writes db)
                  (sym (ack_reply-tables (delete_envelopes_by_msg_id env.faults path_id ids db)))
                  (delete-Writes env.faults path_id ids db)
          ]

-- A test that chooses between two outcomes.
either-Writes :
    (b : Bool) (db : Db) (x y : Reply × Db)
    → Writes db x.1
    → Writes db y.1
    → Writes db (if b then x else y).1
either-Writes true db x y h k = h
either-Writes false db x y h k = k

route-Writes :
    (env : Env) (path_id : Text) (parts : List Text) (req : Request) (db : Db)
    → Writes db (route env path_id parts req db).1
unfolding route
route-Writes env path_id [] req db =
    either-Writes (req.method == codes "PUT") db _ _ (put-Writes env path_id req db)
      (either-Writes (req.method == codes "GET") db _ _ (none_written db) (none_written db))
route-Writes env path_id (a ∷ []) req db =
    either-Writes (a == codes "ack" && req.method == codes "POST") db _ _
      (ack-Writes env path_id req db) (none_written db)
route-Writes env path_id (a ∷ b ∷ rest) req db = none_written db

parts-Writes :
    (env : Env) (parts : List Text) (req : Request) (db : Db)
    → Writes db (dispatch_parts env parts req db).1
unfolding dispatch_parts
parts-Writes env [] req db = none_written db
parts-Writes env (id ∷ rest) req db =
    either-Writes (is_empty id) db _ _ (none_written db)
      (either-Writes (path_id_regex id) db _ _ (route-Writes env id rest req db) (none_written db))

-- A request to the mailbox makes writes that leave pairs and requests as they are.
pub dispatch-Writes : (env : Env) (req : Request) (db : Db) → Writes db (dispatch env req db).1
unfolding dispatch
dispatch-Writes env req db =
    elim (cut_prefix req.path (codes "/mailbox/"))
      as (λ c.
        Writes db
          (elim c as (λ _. Reply × Db) [
            | none ↦ (page_not_found, db)
            | some trimmed ↦ dispatch_parts env (split_on b'/' trimmed) req db
          ]).1) [
            | none ↦ none_written db
            | some trimmed ↦ parts-Writes env (split_on b'/' trimmed) req db
          ]
