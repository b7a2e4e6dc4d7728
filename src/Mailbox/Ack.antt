-- ===== src/Mailbox/Ack.antt =====
-- POST /mailbox/:pathId/ack: which envelopes an acknowledgement evicts.
use interchange.Base.{
  suc, ℕ, ◌≤◌, subst, ap, ◌∙◌, sym, ◌≡◌, ◌≢◌, ◌⊎◌, inl, inr, refl, arith, Bool, true, not, ◌&&◌,
  some, List, [], ◌∷◌, map, Text, ◌==◌, take, contains, filter, length, Bool-cases, text_eq_iff,
  Has, All-of_Has, filter-ext_of_All, contains-ext, contains-and, contains-filter, contains-sort_by,
  contains_of_take, contains-of_key, contains-map, All-map,
}
use interchange.Crypto.{caller}
use interchange.Storage.{
  Faults, Envelope, Pair, Direction, ok, Db, list_limit, inbox, is_after, is_listed, list_envelopes,
  delete_envelopes_by_msg_id, delete_envelopes_op, get_pair,
}
use interchange.Storage.Keys.{Keyed}
use interchange.Storage.Paging.{msg_key}
use interchange.Storage.Drain.{delete_lem}
use interchange.Handlers.Checks.{
  on_pass, pass-injective, require_inv, require_some_inv, read_body_inv,
}
use interchange.Mailbox.Checks.{require_pair_inv, require_caller_inv, require_list_inv}
use interchange.Handlers.{Reply, failed, evicted, Checked, pass, stop, ◌>>=◌, require_some}
use interchange.Envelopes.{read_direction_for}
use interchange.Mailbox.{Env, Request, require_batch, ack_limit, ack_checks, ack_reply, ack}

module _ (path_id : Text) (dir : Direction) (batch : List Text) (db : Db) where
  -- The first page of the inbox of one side.
  abbrev first_page : List Envelope
  first_page = take list_limit (inbox path_id dir [] db.envelopes)

  abbrev in_batch : Envelope → Bool
  in_batch e = contains (λ id. e.msg_id == id) batch

  -- The ids that ack hands to the deletion.
  abbrev doomed_ids : List Text
  doomed_ids = map (λ e. e.msg_id) (filter in_batch first_page)

  -- An envelope of the batch that stands on that page.
  abbrev pub is_acked : Envelope → Bool
  is_acked e = contains (λ x. e.msg_id == x.msg_id) first_page && in_batch e

  same_batch :
      (e x : Envelope) → (in_batch x && e.msg_id == x.msg_id) ≡ (e.msg_id == x.msg_id && in_batch e)
  same_batch e x = elim (Bool-cases (e.msg_id == x.msg_id)) [
    | inl same ↦ rw (same, (text_eq_iff e.msg_id x.msg_id).0 same) (ground arith)
    | inr other ↦ rw other (ground arith)
  ]

  doomed : (e : Envelope) → contains (λ id. e.msg_id == id) doomed_ids ≡ is_acked e
  doomed e =
      contains-map (λ id. e.msg_id == id) (λ x. x.msg_id) (filter in_batch first_page)
      ∙ contains-filter in_batch (λ x. e.msg_id == x.msg_id) first_page
      ∙ contains-ext _ _ first_page (same_batch e)
      ∙ contains-and (λ x. e.msg_id == x.msg_id) (in_batch e) first_page

  -- Ids are unique, so what stands on the page under the id of a row is that row.
  on_page :
      Keyed db
      → (e : Envelope) → Has e db.envelopes
      → contains (λ x. e.msg_id == x.msg_id) first_page ≡ true
      → is_after path_id dir [] e ≡ true
  unfolding inbox
  on_page v e m h = contains-of_key msg_key (is_after path_id dir []) e db.envelopes v.envelopes m (
      sym (contains-filter (is_after path_id dir []) (λ x. e.msg_id == x.msg_id) db.envelopes)
      ∙ sym (contains-sort_by (λ x. e.msg_id == x.msg_id) _ _)
      ∙ contains_of_take _ list_limit _ h)

  listed-eq-acked :
      Keyed db → (e : Envelope) → Has e db.envelopes → is_listed path_id doomed_ids e ≡ is_acked e
  listed-eq-acked v e m = ground (arith, doomed e, on_page v e m)

page_of_list :
    (f : Faults) (path_id : Text) (dir : Direction) (db : Db) (rows : List Envelope)
    → list_envelopes f path_id dir [] db ≡ ok rows
    → rows ≡ take list_limit (inbox path_id dir [] db.envelopes)
unfolding list_envelopes
page_of_list f path_id dir db rows h = ground arith

-- What an acknowledgement that reaches the deletion has established.
pub record Acknowledges (env : Env) (path_id : Text) (req : Request) (db : Db) (dir : Direction)
    (batch : List Text) : Type 0 where
  pub pair : Pair
  pub key : Text
  pub raw : Text
  pub pair_found : get_pair env.faults path_id db ≡ ok pair
  pub signed : env.verifier pair req.signature req.path ≡ caller key
  pub somebody : key ≢ []
  pub body_read : req.body ≡ some raw
  pub parsed : env.codec.ids (take ack_limit raw) ≡ some batch
  pub some_named : 1 ≤ length batch
  pub few_named : length batch ≤ 100
  pub side : read_direction_for pair key ≡ some dir

require_batch_inv :
    (batch : List Text) (u : Unit {0})
    → require_batch batch ≡ pass u
    → (1 ≤ length batch) × (length batch ≤ 100)
require_batch_inv [] u h = absurd (cc h)
require_batch_inv (id ∷ ids) u h = (omega arith, ground (arith, require_inv _ _ _ _ h))

ack_checks_sound :
    (env : Env) (path_id : Text) (req : Request) (db : Db) (ids : List Text)
    → ack_checks env path_id req db ≡ pass ids
    → (dir : Direction) × (batch : List Text) × Acknowledges env path_id req db dir batch
      × (ids ≡ doomed_ids path_id dir batch db)
unfolding ack_checks
ack_checks_sound env path_id req db ids h = on_pass _ _ h λ pair h1 k1. on_pass _ _ k1 λ key h2 k2.
    on_pass _ _ k2 λ body h3 k3. on_pass _ _ k3 λ batch h4 k4. on_pass _ _ k4 λ u h5 k5.
      on_pass _ _ k5 λ dir h6 k6. on_pass _ _ k6 λ mine h7 k7.
        let (raw, r1, r2) = read_body_inv ack_limit req.body body h3 in
        let (named, somebody) = require_caller_inv _ key h2 in
        (
          dir,
          batch,
          record {
            pair = pair;
            key = key;
            raw = raw;
            pair_found = require_pair_inv _ pair h1;
            signed = named;
            somebody = somebody;
            body_read = r1;
            parsed =
                require_some_inv _ _ _ batch (
                  subst (λ b. require_some (env.codec.ids b) 400 "invalid_json" ≡ pass batch) r2
                    h4);
            some_named = (require_batch_inv batch u h5).0;
            few_named = (require_batch_inv batch u h5).1;
            side = require_some_inv _ _ _ dir h6;
          },
          sym (pass-injective _ _ k7)
              ∙ ap
                  (λ rows.
                    map (λ e. e.msg_id) (filter (λ e. contains (λ id. e.msg_id == id) batch) rows))
                  (page_of_list env.faults path_id dir db mine (require_list_inv _ mine h7)),
        )

not_zero : (n : ℕ) → suc n ≢ 0
not_zero n h = cc h

ack_stops_quiet :
    (env : Env) (path_id : Text) (req : Request) (db : Db) (n : ℕ)
    → ack_checks env path_id req db ≡ stop (evicted n)
    → n ≡ 0
unfolding ack_checks ◌>>=◌
ack_stops_quiet env path_id req db n h = ground arith

-- An acknowledgement either changes nothing, and then reports no eviction, or evicts exactly the
-- envelopes of its batch that stand on the first page of the caller's inbox.
abbrev pub AckOutcome : Env → Text → Request → Db → Reply × Db → Type 0
AckOutcome env path_id req db out =
    ((r : Reply) × (out ≡ (r, db)) × ((n : ℕ) → r ≢ evicted (suc n)))
    ⊎ ((dir : Direction) × (batch : List Text) × Acknowledges env path_id req db dir batch
        × (out ≡ (
          evicted (length (filter (is_acked path_id dir batch db) db.envelopes)),
          record db {
            envelopes = filter (λ e. not (is_acked path_id dir batch db e)) db.envelopes;
          },
        )))

delete_down :
    (f : Faults) (path_id : Text) (ids : List Text) (db : Db)
    → f delete_envelopes_op ≡ true
    → (r : Reply) × (ack_reply (delete_envelopes_by_msg_id f path_id ids db) ≡ (r, db))
      × ((n : ℕ) → r ≢ evicted (suc n))
unfolding delete_envelopes_by_msg_id
delete_down f path_id [] db down = (evicted 0, refl, λ n h. absurd (cc h))
delete_down f path_id (id ∷ ids) db down =
    (failed 500 "storage_error", rw down refl, λ n h. absurd (cc h))

ack_reply_outcome :
    (env : Env) (path_id : Text) (req : Request) (db : Db) (dir : Direction) (batch : List Text)
    → Keyed db
    → Acknowledges env path_id req db dir batch
    → AckOutcome env path_id req db (
        ack_reply
          (delete_envelopes_by_msg_id env.faults path_id (doomed_ids path_id dir batch db) db))
ack_reply_outcome env path_id req db dir batch v a =
    elim (Bool-cases (env.faults delete_envelopes_op)) [
      | inl down ↦ inl (delete_down env.faults path_id (doomed_ids path_id dir batch db) db down)
      | inr up ↦
          let same =
            All-of_Has
              (λ e.
                is_listed path_id (doomed_ids path_id dir batch db) e
                ≡ is_acked path_id dir batch db e)
              db.envelopes (listed-eq-acked path_id dir batch db v) in
          rw
            (
              delete_lem env.faults path_id (doomed_ids path_id dir batch db) db up,
              filter-ext_of_All _ (is_acked path_id dir batch db) db.envelopes same,
              filter-ext_of_All _ (λ e. not (is_acked path_id dir batch db e)) db.envelopes
                  (All-map (λ e h. ap not h) db.envelopes same),
            )
            (inr (dir, batch, a, refl))
    ]

ack_outcome :
    (env : Env) (path_id : Text) (req : Request) (db : Db) (c : Checked (List Text))
    → Keyed db
    → ack_checks env path_id req db ≡ c
    → AckOutcome env path_id req db (ack env path_id req db)
unfolding ack
ack_outcome env path_id req db (stop r) v e =
    rw (e, ack)
      (inl (
        r,
        refl,
        λ n h. absurd (not_zero n (ack_stops_quiet env path_id req db (suc n) (e ∙ ap stop h))),
      ))
ack_outcome env path_id req db (pass ids) v e =
    let (dir, batch, a, same) = ack_checks_sound env path_id req db ids e in
    rw (e, ack, same) (ack_reply_outcome env path_id req db dir batch v a)

-- The query of an acknowledgement is neither signed nor read.
ack_query :
    (env : Env) (path_id : Text) (req : Request) (db : Db) (query : Text)
    → ack env path_id (record req { raw_query = query }) db ≡ ack env path_id req db
unfolding ack ack_checks
ack_query env path_id req db query = refl

-- With unique ids an acknowledgement either changes no table, and then reports no eviction, or has a
-- caller who signed the path, holds one half of its pair and named between 1 and 100 ids. In that case
-- exactly the envelopes that are named and stand on the first page (50 envelopes) of the inbox of this
-- caller are evicted, the reply counts them, and every other envelope stays, the other side's included.
-- The signature covers the path alone, though the discovery document and docs/spec.md say path and
-- query: under any other query the same signature has the same reply and the same effect.
pub ack_exact :
    (env : Env) (path_id : Text) (req : Request) (db : Db)
    → Keyed db
    → AckOutcome env path_id req db (ack env path_id req db)
      × ((query : Text)
          → ack env path_id (record req { raw_query = query }) db ≡ ack env path_id req db)
ack_exact env path_id req db v = (
  ack_outcome env path_id req db (ack_checks env path_id req db) v refl,
  ack_query env path_id req db,
)
