-- ===== src/Tests/Mail.antt =====
-- The mailbox routes on the small deployment: a message of the requester, the reading of the requester's
-- inbox, and the acknowledgement of what is there.
use interchange.Base.{
  map, ◌≡◌, ◌≢◌, refl, false, none, some, List, [], ◌∷◌, ◌++◌, Text, ◌||◌, ◌&&◌, codes, ◌==◌,
  contains, find, text_eq, take, replicate, filter, sort_by, insert_by, text_lt,
}
use interchange.Platform.{parse_ts, ts_in_window}
use interchange.Formats.{matches, uuidv7_regex}
use interchange.Base64.{decode_b64url, decode_groups, decode_url}
use interchange.Crypto.{caller}
use interchange.Storage.{
  a_to_b, b_to_a, Envelope, no_faults, get_pair, list_envelopes, inbox, stored_envelope, is_after,
}
use interchange.Handlers.{listed, ◌>>=◌}
use interchange.Envelopes.{
  OuterEnvelope, to_hex, valid_envelope_schema, direction_from, read_direction_for,
}
use interchange.Mailbox.{Env, Request, put, get, ack, get_checks, cursor_of, last_id}
use interchange.Mailbox.Put.{Deliverable, PutOutcome, put_sound}
use interchange.Mailbox.Ack.{AckOutcome, ack_exact}
use interchange.Mailbox.Exchange.{requested, replies, put_comm}
use interchange.Mailbox.Inbox.{Lists, get_sound, put_delivers}
use interchange.Tests.{
  noon, digest, platform, path_id, first_id, second_id, third_id, requester_key, owner_key, differ,
  pair, db, db-Keyed,
}

abbrev pub message : OuterEnvelope
unfolding to_hex
message = record {
  version = codes "1";
  msg_id = second_id;
  ts = codes "now";
  path_id = path_id;
  ciphertext_sha256 = to_hex digest;
  ciphertext = codes "AAAA";
}

abbrev pub env : Env
env = record {
  platform = platform;
  codec = record { envelope = λ s. some message; ids = λ s. some (first_id ∷ second_id ∷ []) };
  verifier = λ p signature m. caller p.requester_pubkey;
  now = noon;
  later = noon;
  faults = no_faults;
}

abbrev request : Request
request = record {
  method = codes "PUT";
  path = codes "/mailbox/" ++ path_id;
  raw_query = [];
  signature = codes "s";
  body = some (codes "{}");
}

abbrev new_row : Envelope
new_row = record {
  msg_id = second_id;
  path_id = path_id;
  direction = a_to_b;
  received_at = noon;
  ciphertext = codes "AAAA";
  signature = codes "s";
  outer_json = codes "{}";
}

new_row-Deliverable : Deliverable env path_id request db new_row
unfolding get_pair find text_eq take valid_envelope_schema uuidv7_regex matches ts_in_window
    parse_ts decode_b64url decode_groups decode_url to_hex direction_from filter replicate
new_row-Deliverable = record {
  pair = pair;
  body = codes "{}";
  envelope = message;
  bytes = 0 ∷ 0 ∷ 0 ∷ [];
  sender = requester_key;
  pair_found = refl;
  body_read = refl;
  parsed = refl;
  schema = refl;
  same_path = refl;
  uuidv7 = refl;
  fresh_ts = refl;
  decoded = refl;
  hashed = refl;
  signed = refl;
  somebody = λ e. absurd (cc e);
  side = refl;
  stored = refl;
}

id_is_new : contains (λ x. x.msg_id == second_id) db.envelopes ≡ false
unfolding contains text_eq
id_is_new = refl

put_sound_example : PutOutcome env path_id request db (put env path_id request db)
put_sound_example = put_sound env path_id request db

put_delivers_example :
    contains
      (λ e. e.msg_id == second_id)
      (inbox path_id a_to_b first_id (put env path_id request db).1.envelopes)
    ≡ (contains (λ e. e.msg_id == second_id) (inbox path_id a_to_b first_id db.envelopes)
        || (is_after path_id a_to_b first_id (stored_envelope new_row) && second_id == second_id))
put_delivers_example =
    put_delivers env path_id request db new_row new_row-Deliverable id_is_new refl path_id a_to_b
      first_id (λ e. e.msg_id == second_id)

get_run : get env path_id request db ≡ listed (codes "{}" ∷ []) (some first_id)
unfolding get get_checks ◌>>=◌ get_pair find text_eq list_envelopes inbox sort_by insert_by filter
    take read_direction_for uuidv7_regex matches text_lt
get_run = refl

get_sound_example :
    (rows : List Envelope) × Lists env path_id request db rows
    × (codes "{}" ∷ [] ≡ map (λ e. e.outer_json) rows)
    × (some first_id ≡ cursor_of (last_id [] rows))
get_sound_example = get_sound env path_id request db (codes "{}" ∷ []) (some first_id) get_run

ack_exact_example :
    AckOutcome env path_id request db (ack env path_id request db)
    × ((query : Text)
        → ack env path_id (record request { raw_query = query }) db ≡ ack env path_id request db)
ack_exact_example = ack_exact env path_id request db db-Keyed

-- A message with yet another id, sent by the other half of the pair.
abbrev other_message : OuterEnvelope
other_message = record message { msg_id = third_id }

abbrev other_env : Env
other_env = record env {
  codec = record { envelope = λ s. some other_message; ids = λ s. some (third_id ∷ []) };
  verifier = λ p signature m. caller p.owner_pubkey;
}

abbrev other_row : Envelope
other_row = record new_row { msg_id = third_id; direction = b_to_a }

other_row-Deliverable : Deliverable other_env path_id request db other_row
unfolding get_pair find text_eq take valid_envelope_schema uuidv7_regex matches ts_in_window
    parse_ts decode_b64url decode_groups decode_url to_hex direction_from filter replicate
other_row-Deliverable = record {
  pair = pair;
  body = codes "{}";
  envelope = other_message;
  bytes = 0 ∷ 0 ∷ 0 ∷ [];
  sender = owner_key;
  pair_found = refl;
  body_read = refl;
  parsed = refl;
  schema = refl;
  same_path = refl;
  uuidv7 = refl;
  fresh_ts = refl;
  decoded = refl;
  hashed = refl;
  signed = refl;
  somebody = λ e. absurd (cc e);
  side = refl;
  stored = refl;
}

ids_differ : second_id ≢ third_id
unfolding text_eq
ids_differ e = absurd (differ second_id third_id refl e)

abbrev reading : Request
reading = record request { method = codes "GET"; body = none }

put_comm_example :
    ((put other_env path_id request (put env path_id request db).1).0
      ≡ (put other_env path_id request db).0)
    × ((put env path_id request (put other_env path_id request db).1).0
        ≡ (put env path_id request db).0)
    × (replies
          (requested env reading ∷ requested other_env reading ∷ [])
          (put other_env path_id request (put env path_id request db).1).1
        ≡ replies
            (requested env reading ∷ requested other_env reading ∷ [])
            (put env path_id request (put other_env path_id request db).1).1)
put_comm_example =
    put_comm env other_env path_id path_id request request db new_row other_row db-Keyed
      new_row-Deliverable other_row-Deliverable ids_differ
      (requested env reading ∷ requested other_env reading ∷ [])
