-- ===== src/Mailbox/Arrival.antt =====
-- The order in which messages arrived is not seen: the mailbox answers alike on tables that hold the
-- same messages in another order.
use interchange.Base.{
  ◌≡◌, refl, ap, ◌∙◌, Bool, true, false, ◌&&◌, List, [], ◌∷◌, Text, codes, ◌==◌, is_empty, none,
  some, cut_prefix, split_on, if◌then◌else◌, arith, ℕ,
}
use interchange.Formats.{path_id_regex}
use interchange.Handlers.{Reply, Checked, pass, stop}
use interchange.Storage.{Envelope, Direction, Db, Result, list_envelopes, get_pair}
use interchange.Storage.Keys.{Keyed}
use interchange.Storage.Arrival.{Shuffled, insert-Shuffled, delete-Shuffled, list-Shuffled}
use interchange.Mailbox.{
  Env, Request, put, put_checks, put_reply, get, get_checks, ack, ack_checks, ack_reply, route,
  dispatch_parts, dispatch, page_not_found,
}
use interchange.Mailbox.Writes.{put_reply-tables, ack_reply-tables}

-- One reply, and tables that hold the same messages.
abbrev Same : Reply × Db → Reply × Db → Type 0
Same p q = (p.0 ≡ q.0) × Shuffled p.1 q.1

pub put_reply_same :
    (id : Text) (r : Result (Unit {0})) (c d : Db)
    → (put_reply id (r, c)).0 ≡ (put_reply id (r, d)).0
put_reply_same id (Result.ok u) c d = refl
put_reply_same id (Result.err e) c d = ground arith

pub put_reply-Same :
    (id : Text) (p q : Result (Unit {0}) × Db)
    → p.0 ≡ q.0
    → Shuffled p.1 q.1
    → Same (put_reply id p) (put_reply id q)
put_reply-Same id p q e π = (
  put_reply_same id p.0 p.1 q.1 ∙ ap (λ r. (put_reply id (r, q.1)).0) e,
  rw (put_reply-tables id p, put_reply-tables id q) π,
)

ack_reply_same : (r : Result ℕ) (c d : Db) → (ack_reply (r, c)).0 ≡ (ack_reply (r, d)).0
ack_reply_same (Result.ok n) c d = refl
ack_reply_same (Result.err e) c d = refl

ack_reply-Same :
    (p q : Result ℕ × Db) → p.0 ≡ q.0 → Shuffled p.1 q.1 → Same (ack_reply p) (ack_reply q)
ack_reply-Same p q e π = (
  ack_reply_same p.0 p.1 q.1 ∙ ap (λ r. (ack_reply (r, q.1)).0) e,
  rw (ack_reply-tables p, ack_reply-tables q) π,
)

module _ (c d : Db) (same : c.pairs ≡ d.pairs) (env : Env) where
  get_pair-same : (path_id : Text) → get_pair env.faults path_id c ≡ get_pair env.faults path_id d
  unfolding get_pair
  get_pair-same path_id = rw same refl

  -- The checks of a PUT read the pairs and nothing else of the tables.
  pub put_checks-same :
      (path_id : Text) (req : Request) → put_checks env path_id req c ≡ put_checks env path_id req d
  unfolding put_checks
  put_checks-same path_id req = rw (get_pair-same path_id) refl

module _ (c d : Db) (π : Shuffled c d) (same : c.pairs ≡ d.pairs) (v : Keyed c) (env : Env) where
  list-same :
      (path_id : Text) (dir : Direction) (since : Text)
      → list_envelopes env.faults path_id dir since c
        ≡ list_envelopes env.faults path_id dir since d
  list-same path_id dir since = list-Shuffled c d π env.faults path_id dir since v

  get_checks-same :
      (path_id : Text) (req : Request) → get_checks env path_id req c ≡ get_checks env path_id req d
  unfolding get_checks
  get_checks-same path_id req = simp (get_pair-same c d same env path_id, list-same path_id)

  ack_checks-same :
      (path_id : Text) (req : Request) → ack_checks env path_id req c ≡ ack_checks env path_id req d
  unfolding ack_checks
  ack_checks-same path_id req = simp (get_pair-same c d same env path_id, list-same path_id)

  get-same : (path_id : Text) (req : Request) → get env path_id req c ≡ get env path_id req d
  unfolding get
  get-same path_id req = rw (get_checks-same path_id req, get) refl

  put-Same_at :
      (path_id : Text) (req : Request) (k : Checked Envelope)
      → put_checks env path_id req d ≡ k
      → Same (put env path_id req c) (put env path_id req d)
  unfolding put
  put-Same_at path_id req (stop r) h =
      rw (put_checks-same c d same env path_id req ∙ h, h, put) (refl, π)
  put-Same_at path_id req (pass row) h =
      let r = insert-Shuffled c d π env.faults row in
      rw (put_checks-same c d same env path_id req ∙ h, h, put)
        (put_reply-Same row.msg_id _ _ r.0 r.1)

  ack-Same_at :
      (path_id : Text) (req : Request) (k : Checked (List Text))
      → ack_checks env path_id req d ≡ k
      → Same (ack env path_id req c) (ack env path_id req d)
  unfolding ack
  ack-Same_at path_id req (stop r) h = rw (ack_checks-same path_id req ∙ h, h, ack) (refl, π)
  ack-Same_at path_id req (pass ids) h =
      let r = delete-Shuffled c d π env.faults path_id ids in
      rw (ack_checks-same path_id req ∙ h, h, ack) (ack_reply-Same _ _ r.0 r.1)

  -- A test that chooses between two outcomes.
  either-Same :
      (b : Bool) (p p' q q' : Reply × Db)
      → Same p q
      → Same p' q'
      → Same (if b then p else p') (if b then q else q')
  either-Same true p p' q q' h k = h
  either-Same false p p' q q' h k = k

  route-Same :
      (path_id : Text) (parts : List Text) (req : Request)
      → Same (route env path_id parts req c) (route env path_id parts req d)
  unfolding route
  route-Same path_id [] req =
      either-Same (req.method == codes "PUT") _ _ _ _ (put-Same_at path_id req _ refl)
        (either-Same (req.method == codes "GET") _ _ _ _ (get-same path_id req, π) (refl, π))
  route-Same path_id (a ∷ []) req =
      either-Same (a == codes "ack" && req.method == codes "POST") _ _ _ _
        (ack-Same_at path_id req _ refl) (refl, π)
  route-Same path_id (a ∷ b ∷ rest) req = (refl, π)

  parts-Same :
      (parts : List Text) (req : Request)
      → Same (dispatch_parts env parts req c) (dispatch_parts env parts req d)
  unfolding dispatch_parts
  parts-Same [] req = (refl, π)
  parts-Same (id ∷ rest) req =
      either-Same (is_empty id) _ _ _ _ (refl, π)
        (either-Same (path_id_regex id) _ _ _ _ (route-Same id rest req) (refl, π))

  -- One request, on the same messages in another order.
  pub dispatch-Same : (req : Request) → Same (dispatch env req c) (dispatch env req d)
  unfolding dispatch
  dispatch-Same req =
      elim (cut_prefix req.path (codes "/mailbox/"))
        as (λ k.
          Same
            (elim k as (λ _. Reply × Db) [
              | none ↦ (page_not_found, c)
              | some trimmed ↦ dispatch_parts env (split_on b'/' trimmed) req c
            ])
            (elim k as (λ _. Reply × Db) [
              | none ↦ (page_not_found, d)
              | some trimmed ↦ dispatch_parts env (split_on b'/' trimmed) req d
            ])) [ none ↦ (refl, π) | some trimmed ↦ parts-Same (split_on b'/' trimmed) req ]
