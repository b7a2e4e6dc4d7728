-- ===== src/Mailbox/Put.antt =====
-- PUT /mailbox/:pathId: what an accepted message has passed, and what is stored.
use interchange.Base.{
  ℕ, String, subst, ap, ◌∙◌, sym, ◌≡◌, ◌≢◌, ◌⊎◌, inl, inr, refl, true, false, some, [], ◌∷◌, ◌++◌,
  Text, ◌==◌, take, contains, Bool-cases, text_eq_iff,
}
use interchange.Platform.{ts_in_window}
use interchange.Formats.{uuidv7_regex}
use interchange.Base64.{decode_b64url}
use interchange.Crypto.{caller}
use interchange.Storage.{
  Envelope, Pair, ok, Db, insert_envelope, insert_envelope_op, get_pair, stored_envelope,
}
use interchange.Handlers.Checks.{
  on_pass, pass-injective, require_inv, require_some_inv, read_body_inv, Refuses, Refuses-pass,
  Refuses-bind, Refuses-require, Refuses-require_some, Refuses-read_body,
}
use interchange.Mailbox.Checks.{
  require_pair_inv, require_caller_inv, require_caller-caller, Refuses-require_pair,
  Refuses-require_caller,
}
use interchange.Handlers.{Reply, failed, accepted, Checked, pass, stop, ◌>>=◌, require_some}
use interchange.Envelopes.{
  OuterEnvelope, valid_envelope_schema, direction_from, canonical_json, to_hex,
}
use interchange.Mailbox.{Env, Request, put_limit, put_checks, put_reply, put}

-- A message that every check of the handler lets through, with the row that it becomes.
pub record Deliverable (env : Env) (path_id : Text) (req : Request) (db : Db) (row : Envelope)
    : Type 0 where
  pub pair : Pair
  pub body : Text
  pub envelope : OuterEnvelope
  pub bytes : Text
  pub sender : Text
  pub pair_found : get_pair env.faults path_id db ≡ ok pair
  pub body_read : req.body ≡ some body
  pub parsed : env.codec.envelope (take put_limit body) ≡ some envelope
  pub schema : valid_envelope_schema envelope ≡ true
  pub same_path : envelope.path_id ≡ path_id
  pub uuidv7 : uuidv7_regex envelope.msg_id ≡ true
  pub fresh_ts : ts_in_window env.platform envelope.ts env.now ≡ true
  pub decoded : decode_b64url envelope.ciphertext ≡ some bytes
  pub hashed : to_hex (env.platform.sha256 bytes) ≡ envelope.ciphertext_sha256
  pub signed :
      env.verifier pair req.signature (canonical_json env.platform envelope) ≡ caller sender
  pub somebody : sender ≢ []
  pub side : direction_from pair sender ≡ some row.direction
  pub stored : row ≡ record {
    msg_id = envelope.msg_id;
    path_id = path_id;
    direction = row.direction;
    received_at = env.later;
    ciphertext = envelope.ciphertext;
    signature = req.signature;
    outer_json = take put_limit body;
  }

put_checks_sound :
    (env : Env) (path_id : Text) (req : Request) (db : Db) (row : Envelope)
    → put_checks env path_id req db ≡ pass row
    → Deliverable env path_id req db row
unfolding put_checks
put_checks_sound env path_id req db row h = on_pass _ _ h λ pair h1 k1. on_pass _ _ k1 λ body h2 k2.
    on_pass _ _ k2 λ e h3 k3. on_pass _ _ k3 λ _ h4 k4. on_pass _ _ k4 λ _ h5 k5.
      on_pass _ _ k5 λ _ h6 k6. on_pass _ _ k6 λ _ h7 k7. on_pass _ _ k7 λ bytes h8 k8.
        on_pass _ _ k8 λ _ h9 k9. on_pass _ _ k9 λ sender h10 k10. on_pass _ _ k10 λ dir h11 k11.
          let (raw, r1, r2) = read_body_inv put_limit req.body body h2 in
          let (named, somebody) = require_caller_inv _ sender h10 in
          let stored = pass-injective _ _ k11 in
          record {
            pair = pair;
            body = raw;
            envelope = e;
            bytes = bytes;
            sender = sender;
            pair_found = require_pair_inv _ pair h1;
            body_read = r1;
            parsed = require_some_inv _ _ _ e (
                subst (λ b. require_some (env.codec.envelope b) 400 "invalid_json" ≡ pass e) r2 h3);
            schema = require_inv _ _ _ _ h4;
            same_path = (text_eq_iff _ _).0 (require_inv _ _ _ _ h5);
            uuidv7 = require_inv _ _ _ _ h6;
            fresh_ts = require_inv _ _ _ _ h7;
            decoded = require_some_inv _ _ _ bytes h8;
            hashed = (text_eq_iff _ _).0 (require_inv _ _ _ _ h9);
            signed = named;
            somebody = somebody;
            side = require_some_inv _ _ _ _ (h11 ∙ ap pass (ap (λ r. r.direction) stored));
            stored = cc (stored, r2);
          }

pub put_checks_complete :
    (env : Env) (path_id : Text) (req : Request) (db : Db) (row : Envelope)
    → Deliverable env path_id req db row
    → put_checks env path_id req db ≡ pass row
unfolding put_checks ◌>>=◌
put_checks_complete env path_id req db row d =
    rw
      (
        d.pair_found,
        d.body_read,
        d.parsed,
        d.schema,
        d.uuidv7,
        d.fresh_ts,
        d.decoded,
        (text_eq_iff _ _).1 d.same_path,
        (text_eq_iff _ _).1 d.hashed,
        d.signed,
        require_caller-caller d.sender d.somebody,
        d.side,
      )
      (ap pass (sym d.stored))

put_checks-Refuses :
    (env : Env) (path_id : Text) (req : Request) (db : Db) → Refuses (put_checks env path_id req db)
unfolding put_checks
put_checks-Refuses env path_id req db = Refuses-bind _ _ (Refuses-require_pair _) λ pair.
    Refuses-bind _ _ (Refuses-read_body _ _) λ body.
      Refuses-bind _ _ (Refuses-require_some _ _ _) λ e.
        Refuses-bind _ _ (Refuses-require _ _ _) λ _. Refuses-bind _ _ (Refuses-require _ _ _) λ _.
          Refuses-bind _ _ (Refuses-require _ _ _) λ _.
            Refuses-bind _ _ (Refuses-require _ _ _) λ _.
              Refuses-bind _ _ (Refuses-require_some _ _ _) λ bytes.
                Refuses-bind _ _ (Refuses-require _ _ _) λ _.
                  Refuses-bind _ _ (Refuses-require_caller _)
                    λ sender. Refuses-bind _ _ (Refuses-require_some _ _ _) λ dir. Refuses-pass _

-- A refusal that changes nothing, or an accepted message that is the last envelope of the tables.
abbrev pub PutOutcome : Env → Text → Request → Db → Reply × Db → Type 0
PutOutcome env path_id req db out =
    ((n : ℕ) × (code : String) × (out ≡ (failed n code, db)))
    ⊎ ((row : Envelope) × Deliverable env path_id req db row
        × (contains (λ x. x.msg_id == row.msg_id) db.envelopes ≡ false)
        × (out ≡ (
          accepted row.msg_id,
          record db { envelopes = db.envelopes ++ (stored_envelope row ∷ []) },
        )))

put_reply_outcome :
    (env : Env) (path_id : Text) (req : Request) (db : Db) (row : Envelope)
    → Deliverable env path_id req db row
    → PutOutcome env path_id req db (put_reply row.msg_id (insert_envelope env.faults row db))
unfolding insert_envelope
put_reply_outcome env path_id req db row d = elim (Bool-cases (env.faults insert_envelope_op)) [
  | inl down ↦ rw down (inl (500, "storage_error", refl))
  | inr up ↦ elim (Bool-cases (contains (λ x. x.msg_id == row.msg_id) db.envelopes)) [
    | inl known ↦ rw (up, known) (inl (409, "duplicate_msg_id", refl))
    | inr new ↦ inr (row, d, new, rw (up, new) refl)
  ]
]

put_outcome :
    (env : Env) (path_id : Text) (req : Request) (db : Db) (c : Checked Envelope)
    → put_checks env path_id req db ≡ c
    → PutOutcome env path_id req db (put env path_id req db)
unfolding put
put_outcome env path_id req db (stop r) e =
    let (n, code, same) = (put_checks-Refuses env path_id req db).at r e in
    rw (e, put) (inl (n, code, cc same))
put_outcome env path_id req db (pass row) e =
    rw (e, put)
      (put_reply_outcome env path_id req db row (put_checks_sound env path_id req db row e))

-- Every reply but 202 is an error code and leaves the tables as they were. A 202 is sent only for a
-- message that passed every check of the handler and whose id no stored message has; the reply names
-- that id, and the tables hold it as one more envelope at the end, with nothing else changed.
pub put_sound :
    (env : Env) (path_id : Text) (req : Request) (db : Db)
    → PutOutcome env path_id req db (put env path_id req db)
put_sound env path_id req db = put_outcome env path_id req db (put_checks env path_id req db) refl

-- Conversely, a message that passes every check and has a new id is accepted and stored, unless the
-- driver fails at the insertion.
pub put_complete :
    (env : Env) (path_id : Text) (req : Request) (db : Db) (row : Envelope)
    → Deliverable env path_id req db row
    → contains (λ x. x.msg_id == row.msg_id) db.envelopes ≡ false
    → env.faults insert_envelope_op ≡ false
    → put env path_id req db
      ≡ (accepted row.msg_id, record db { envelopes = db.envelopes ++ (stored_envelope row ∷ []) })
unfolding put insert_envelope
put_complete env path_id req db row d new up =
    rw (put_checks_complete env path_id req db row d, put, up, new) refl
