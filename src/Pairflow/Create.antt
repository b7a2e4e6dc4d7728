-- ===== src/Pairflow/Create.antt =====
-- POST /pair/request: what an accepted submission has passed, and what is stored.
use interchange.Base.{
  subst, sym, ℕ, ◌+◌, ◌≤◌, String, ◌≡◌, ◌⊎◌, inl, inr, refl, arith, Bool, true, false, not, some,
  [], ◌∷◌, ◌++◌, Text, ltb, is_empty, length, ◌==◌, take, contains, Bool-cases,
}
use interchange.Platform.{ts_in_window, format_time}
use interchange.Storage.{
  pending, PairRequest, Db, insert_pair_request, insert_request_op, stored_request,
}
use interchange.Handlers.{Reply, failed, created, Checked, pass, stop, require_some}
use interchange.Handlers.Checks.{
  on_pass, pass-injective, require_inv, require_some_inv, read_body_inv, Refuses, Refuses-pass,
  Refuses-bind, Refuses-require, Refuses-require_some, Refuses-read_body,
}
use interchange.Halves.{Half, Parsed, parsed, bad}
use interchange.Halves.Signing.{Acceptable, SelfSigned, parse_half_sound, verify_self_sig_iff}
use interchange.Submissions.{
  Env, Request, max_body_size, request_ttl, serialize_half, require_parsed, create_checks,
  create_reply, create_request,
}

-- A submission that every check of the handler lets through, with the row that it becomes.
pub record Submission (env : Env) (req : Request) (row : PairRequest) : Type 0 where
  pub body : Text
  pub target : Text
  pub sent : Half
  pub half : Half
  pub body_read : req.body ≡ some body
  pub decoded : env.codec.create_body (take max_body_size body) ≡ some (target, sent)
  pub named : is_empty target ≡ false
  pub target_fits : length target ≤ 256
  pub acceptable : Acceptable sent half
  pub fresh_ts : ts_in_window env.platform half.ts env.check_time ≡ true
  pub signed : SelfSigned env.platform half
  pub stored : row ≡ record {
    request_id = env.gen_id;
    status = pending;
    created_at = env.write_time;
    expires_at = env.write_time + request_ttl;
    path_id = [];
    requester_json = serialize_half env.codec half;
    owner_json = [];
    target_nexus_id = target;
  }

not-false : (b : Bool) → not b ≡ true → b ≡ false
not-false b h = ground arith

fits : (n : ℕ) → not (ltb 256 n) ≡ true → n ≤ 256
fits n h = ground arith

require_parsed_inv : (p : Parsed) (h : Half) → require_parsed p ≡ pass h → p ≡ parsed h
require_parsed_inv (parsed k) h e = cc e
require_parsed_inv (bad code) h e = absurd (cc e)

Refuses-require_parsed : (p : Parsed) → Refuses (require_parsed p)
Refuses-require_parsed (parsed h) = record { at = λ r e. absurd (cc e) }
Refuses-require_parsed (bad code) = record { at = λ r e. (400, code, cc) }

create_checks_sound :
    (env : Env) (req : Request) (row : PairRequest)
    → create_checks env req ≡ pass row
    → Submission env req row
unfolding create_checks
create_checks_sound env req row h = on_pass _ _ h λ raw h1 k1. on_pass _ _ k1 λ body h2 k2.
    on_pass _ _ k2 λ u3 h3 k3. on_pass _ _ k3 λ u4 h4 k4. on_pass _ _ k4 λ half h5 k5.
      on_pass _ _ k5 λ u6 h6 k6. on_pass _ _ k6 λ u7 h7 k7.
        let (text, r1, r2) = read_body_inv max_body_size req.body raw h1 in
        record {
          body = text;
          target = body.0;
          sent = body.1;
          half = half;
          body_read = r1;
          decoded = require_some_inv _ _ _ body (
              subst (λ b. require_some (env.codec.create_body b) 400 "invalid_json" ≡ pass body) r2
                h2);
          named = not-false _ (require_inv _ _ _ u3 h3);
          target_fits = fits _ (require_inv _ _ _ u4 h4);
          acceptable = parse_half_sound body.1 half (require_parsed_inv _ half h5);
          fresh_ts = require_inv _ _ _ u6 h6;
          signed = (verify_self_sig_iff env.platform half).0 (require_inv _ _ _ u7 h7);
          stored = sym (pass-injective _ _ k7);
        }

create_checks-Refuses : (env : Env) (req : Request) → Refuses (create_checks env req)
unfolding create_checks
create_checks-Refuses env req = Refuses-bind _ _ (Refuses-read_body _ _) λ raw.
    Refuses-bind _ _ (Refuses-require_some _ _ _) λ body.
      Refuses-bind _ _ (Refuses-require _ _ _) λ _. Refuses-bind _ _ (Refuses-require _ _ _) λ _.
        Refuses-bind _ _ (Refuses-require_parsed _) λ half.
          Refuses-bind _ _ (Refuses-require _ _ _)
            λ _. Refuses-bind _ _ (Refuses-require _ _ _) λ _. Refuses-pass _

-- A refusal that changes nothing, or an accepted submission that is the last request of the tables.
abbrev pub CreateOutcome : Env → Request → Db → Reply × Db → Type 0
CreateOutcome env req db out =
    ((n : ℕ) × (code : String) × (out ≡ (failed n code, db)))
    ⊎ ((row : PairRequest) × Submission env req row
        × (contains (λ x. x.request_id == row.request_id) db.requests ≡ false)
        × (out ≡ (
          created row.request_id (format_time row.expires_at),
          record db { requests = db.requests ++ (stored_request row ∷ []) },
        )))

create_reply_outcome :
    (env : Env) (req : Request) (db : Db) (row : PairRequest)
    → Submission env req row
    → CreateOutcome env req db (create_reply row (insert_pair_request env.faults row db))
unfolding insert_pair_request
create_reply_outcome env req db row d = elim (Bool-cases (env.faults insert_request_op)) [
  | inl down ↦ rw down (inl (500, "storage_error", refl))
  | inr up ↦ elim (Bool-cases (contains (λ x. x.request_id == row.request_id) db.requests)) [
    | inl known ↦ rw (up, known) (inl (500, "request_id_collision", refl))
    | inr new ↦ inr (row, d, new, rw (up, new) refl)
  ]
]

create_outcome :
    (env : Env) (req : Request) (db : Db) (c : Checked PairRequest)
    → create_checks env req ≡ c
    → CreateOutcome env req db (create_request env req db)
unfolding create_request
create_outcome env req db (stop r) e =
    let (n, code, same) = (create_checks-Refuses env req).at r e in
    rw (e, create_request) (inl (n, code, cc same))
create_outcome env req db (pass row) e =
    rw (e, create_request) (create_reply_outcome env req db row (create_checks_sound env req row e))

-- Every reply but 201 is an error code and leaves the tables as they were. A 201 is sent only for a
-- half that names a target, has the required shape, is fresh and is signed by its own key; the tables
-- then hold one more request at the end, pending for 24 hours under an id that no request had, with
-- the half in it and nothing else changed.
pub create_sound :
    (env : Env) (req : Request) (db : Db) → CreateOutcome env req db (create_request env req db)
create_sound env req db = create_outcome env req db (create_checks env req) refl
