-- ===== src/Mailbox/Inbox.antt =====
-- GET /mailbox/:pathId, and what an accepted PUT changes for each reader.
use interchange.Base.{
  filter, ◌&&◌, ap, ◌∙◌, sym, ◌≡◌, ◌≢◌, ◌⊎◌, refl, arith, Bool, true, false, ◌||◌, Option, some,
  List, [], ◌∷◌, ◌++◌, map, Text, codes, is_empty, ◌==◌, take, contains, text_eq_iff,
  contains-append, contains-filter, contains-sort_by, ◌↔◌,
}
use interchange.Formats.{uuidv7_regex}
use interchange.Crypto.{caller}
use interchange.Storage.{
  Faults, Envelope, Pair, Direction, a_to_b, b_to_a, ok, Db, list_limit, inbox, is_after,
  before_msg, list_envelopes, get_pair, stored_envelope, insert_envelope_op,
}
use interchange.Handlers.Checks.{on_pass, require_inv, require_some_inv}
use interchange.Mailbox.Checks.{require_pair_inv, require_caller_inv, require_list_inv}
use interchange.Mailbox.Put.{Deliverable, put_complete}
use interchange.Handlers.{Reply, listed, Checked, pass, stop, ◌>>=◌}
use interchange.Envelopes.{direction_from, read_direction_for}
use interchange.Mailbox.{put, Env, Request, signed_target, last_id, cursor_of, get_checks, get}

-- What a GET that lists has established, with the rows that it lists.
pub record Lists (env : Env) (path_id : Text) (req : Request) (db : Db) (rows : List Envelope)
    : Type 0 where
  pub pair : Pair
  pub key : Text
  pub dir : Direction
  pub pair_found : get_pair env.faults path_id db ≡ ok pair
  pub signed : env.verifier pair req.signature (signed_target req) ≡ caller key
  pub somebody : key ≢ []
  pub since :
      (is_empty (env.platform.query_get req.raw_query (codes "since"))
        || uuidv7_regex (env.platform.query_get req.raw_query (codes "since")))
      ≡ true
  pub side : read_direction_for pair key ≡ some dir
  pub page :
      rows
      ≡ take list_limit
          (inbox path_id dir (env.platform.query_get req.raw_query (codes "since")) db.envelopes)

listed_page :
    (f : Faults) (path_id : Text) (dir : Direction) (since : Text) (db : Db) (rows : List Envelope)
    → list_envelopes f path_id dir since db ≡ ok rows
    → rows ≡ take list_limit (inbox path_id dir since db.envelopes)
unfolding list_envelopes
listed_page f path_id dir since db rows h = ground arith

get_checks_sound :
    (env : Env) (path_id : Text) (req : Request) (db : Db) (rows : List Envelope)
    → get_checks env path_id req db ≡ pass rows
    → Lists env path_id req db rows
unfolding get_checks
get_checks_sound env path_id req db rows h = on_pass _ _ h λ pair h1 k1. on_pass _ _ k1 λ key h2 k2.
    on_pass _ _ k2 λ u h3 k3. on_pass _ _ k3 λ dir h4 h5.
      let (named, somebody) = require_caller_inv _ key h2 in
      record {
        pair = pair;
        key = key;
        dir = dir;
        pair_found = require_pair_inv _ pair h1;
        signed = named;
        somebody = somebody;
        since = require_inv _ _ _ u h3;
        side = require_some_inv _ _ _ dir h4;
        page = listed_page env.faults path_id dir _ db rows (require_list_inv _ rows h5);
      }

get_stops :
    (env : Env) (path_id : Text) (req : Request) (db : Db) (items : List Text)
    (cursor : Option Text)
    → get_checks env path_id req db ≢ stop (listed items cursor)
unfolding get_checks ◌>>=◌
get_stops env path_id req db items cursor h = ground arith

abbrev get_reply : Checked (List Envelope) → Reply
get_reply (stop r) = r
get_reply (pass rows) = listed (map (λ e. e.outer_json) rows) (cursor_of (last_id [] rows))

get-eq-reply :
    (env : Env) (path_id : Text) (req : Request) (db : Db) (c : Checked (List Envelope))
    → get_checks env path_id req db ≡ c
    → get env path_id req db ≡ get_reply c
unfolding get
get-eq-reply env path_id req db (stop r) e = rw (e, get) refl
get-eq-reply env path_id req db (pass rows) e = rw (e, get) refl

listed-injective :
    (xs ys : List Text) (a b : Option Text) → listed xs a ≡ listed ys b → (xs ≡ ys) × (a ≡ b)
listed-injective xs ys a b h = (cc, cc)

get_outcome :
    (env : Env) (path_id : Text) (req : Request) (db : Db) (items : List Text)
    (cursor : Option Text) (c : Checked (List Envelope))
    → get_checks env path_id req db ≡ c
    → get env path_id req db ≡ listed items cursor
    → (rows : List Envelope) × Lists env path_id req db rows
      × (items ≡ map (λ e. e.outer_json) rows)
      × (cursor ≡ cursor_of (last_id [] rows))
get_outcome env path_id req db items cursor (stop r) e h = absurd (
    get_stops env path_id req db items cursor
      (e ∙ ap stop (sym (get-eq-reply env path_id req db (stop r) e) ∙ h)))
get_outcome env path_id req db items cursor (pass rows) e h =
    let same = listed-injective _ _ _ _ (sym (get-eq-reply env path_id req db (pass rows) e) ∙ h) in
    (rows, get_checks_sound env path_id req db rows e, sym same.0, sym same.1)

-- A GET lists envelopes only to a caller who signed its path and query and holds one half of the pair,
-- behind an empty or well-formed cursor. It lists the first page of the inbox of the caller's reading
-- direction, as the messages were received, and its cursor is the id of the last one listed.
pub get_sound :
    (env : Env) (path_id : Text) (req : Request) (db : Db) (items : List Text)
    (cursor : Option Text)
    → get env path_id req db ≡ listed items cursor
    → (rows : List Envelope) × Lists env path_id req db rows
      × (items ≡ map (λ e. e.outer_json) rows)
      × (cursor ≡ cursor_of (last_id [] rows))
get_sound env path_id req db items cursor h =
    get_outcome env path_id req db items cursor (get_checks env path_id req db) refl h

abbrev pub opposite : Direction → Direction
opposite a_to_b = b_to_a
opposite b_to_a = a_to_b

-- Who may read a message: where the halves of a pair have different keys, exactly the half that did
-- not send it reads the direction in which it travels, and a stranger neither sends nor reads.
reader_of_direction :
    (pair : Pair) (sender reader : Text) (d : Direction)
    → pair.requester_pubkey ≢ pair.owner_pubkey
    → direction_from pair sender ≡ some d
    → (read_direction_for pair reader ≡ some d) ↔ (
        ((sender ≡ pair.requester_pubkey) × (reader ≡ pair.owner_pubkey))
        ⊎ ((sender ≡ pair.owner_pubkey) × (reader ≡ pair.requester_pubkey)))
unfolding direction_from read_direction_for
reader_of_direction pair sender reader d n h = (
  λ k. ground (
    arith,
    text_eq_iff sender pair.requester_pubkey,
    text_eq_iff sender pair.owner_pubkey,
    text_eq_iff reader pair.requester_pubkey,
    text_eq_iff reader pair.owner_pubkey,
  ),
  λ k. ground (
    arith,
    text_eq_iff sender pair.requester_pubkey,
    text_eq_iff sender pair.owner_pubkey,
    text_eq_iff reader pair.requester_pubkey,
    text_eq_iff reader pair.owner_pubkey,
  ),
)

-- One more stored envelope, as a search of an inbox sees it.
inbox-append :
    (path_id : Text) (dir : Direction) (since : Text) (rows : List Envelope) (row : Envelope)
    (q : Envelope → Bool)
    → contains q (inbox path_id dir since (rows ++ (row ∷ [])))
      ≡ (contains q (inbox path_id dir since rows) || (is_after path_id dir since row && q row))
unfolding inbox contains
inbox-append path_id dir since rows row q =
    let p = is_after path_id dir since in
    contains-sort_by q before_msg (filter p (rows ++ (row ∷ [])))
    ∙ contains-filter p q (rows ++ (row ∷ []))
    ∙ contains-append (λ x. p x && q x) rows (row ∷ [])
    ∙ rw (contains-sort_by q before_msg (filter p rows), contains-filter p q rows) (ground arith)

-- An accepted message reaches its reader and nobody else: whatever is searched for in whatever inbox
-- and behind whatever cursor, the search succeeds exactly if it did before, or if the stored envelope
-- passes it and belongs there by its path, its direction and an id above the cursor.
pub put_delivers :
    (env : Env) (path_id : Text) (req : Request) (db : Db) (row : Envelope)
    → Deliverable env path_id req db row
    → contains (λ x. x.msg_id == row.msg_id) db.envelopes ≡ false
    → env.faults insert_envelope_op ≡ false
    → (path : Text) (dir : Direction) (since : Text) (q : Envelope → Bool)
    → contains q (inbox path dir since (put env path_id req db).1.envelopes) ≡ (
        contains q (inbox path dir since db.envelopes)
        || (is_after path dir since (stored_envelope row) && q (stored_envelope row)))
put_delivers env path_id req db row d new up path dir since q =
    rw (put_complete env path_id req db row d new up)
      (inbox-append path dir since db.envelopes (stored_envelope row) q)
