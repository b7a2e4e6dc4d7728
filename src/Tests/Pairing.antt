-- ===== src/Tests/Pairing.antt =====
-- The pair flow on the small deployment: the owner's half for the open request.
use interchange.Base.{
  List, take, ◌+◌, ◌*◌, ◌/◌, ◌≡◌, ◌≢◌, ◌↔◌, refl, arith, true, false, Option, none, some, [], ◌∷◌,
  ◌++◌, Text, codes, ◌==◌, text_eq, contains, find, filter, replicate, All,
}
use interchange.Platform.{Time, second, parse_ts, ts_in_window}
use interchange.Formats.{matches, uuid_regex, path_id_regex}
use interchange.Base64.{encode_raw, decode_b64url, decode_groups, decode_url}
use interchange.Storage.{
  Pair, ok, get_pair, Db, Faults, get_request_op, get_pair_op, approved, denied, decide, no_faults,
  update_pair_request_status,
}
use interchange.Storage.Requests.{lookup}
use interchange.Handlers.{failed, approval, request_status}
use interchange.Halves.{
  Half, parsed, parse_half, parse_dh, verify_self_sig, half_to_wire, wire_form, compute_path_id,
  bytes_less, fields_v2, canonical_bytes_v1, canonical_bytes_v2,
}
use interchange.Halves.Signing.{
  Acceptable, SelfSigned, HasNoNewline, canonical_bytes_v2_lem, parse_half_sound,
  verify_self_sig_iff,
}
use interchange.Submissions.{
  create_request, max_body_size, request_ttl, Env, Request, serialize_half, get_request_status,
}
use interchange.Decisions.{loaded, path_id_of, new_pair, approve}
use interchange.Pairflow.{dispatch_public}
use interchange.Pairflow.Public.{SameGrants, dispatch_public-SameGrants}
use interchange.Storage.Keys.{Keyed}
use interchange.Pairflow.Duplicate.{approve_duplicate}
use interchange.Pairflow.Create.{CreateOutcome, create_sound}
use interchange.Pairflow.Opening.{Opposed, approve_opens}
use interchange.Pairflow.Race.{approve_after_denial}
use interchange.Pairflow.Approve.{Approvable, stored_pair, approve_activates}
use interchange.Tests.{
  differ, noon, digest-AreBytes, platform, requester_key, owner_key, signature, zeros, request_id,
  open_request, db, db-Keyed,
}

abbrev requester : Half
requester = record {
  nexus_id = codes "alpha";
  sig_alg = codes "ed25519";
  pubkey = requester_key;
  dh_alg = [];
  dh_pubkey = [];
  endpoint = [];
  nonce = codes "n";
  ts = codes "now";
  self_sig = signature;
  pubkey_raw = [];
}

-- The owner's half as it is sent, and as it is parsed.
abbrev sent : Half
sent = record requester {
  nexus_id = codes "beta";
  pubkey = owner_key;
  dh_alg = codes "X25519";
  dh_pubkey = codes "AAAA";
}

abbrev owner : Half
owner = record sent { pubkey_raw = zeros ++ (4 ∷ []) }

unfoldable pub decode_half : Text → Option Half
decode_half [] = none
decode_half (c ∷ s) = elim s [ [] ↦ some sent | ◌∷◌ d t ↦ some requester ]

abbrev env_with : (Db → Db) → Env
env_with f = record {
  platform = platform;
  codec = record {
    create_body = λ s. some (codes "beta", requester);
    approve_body = λ s. some sent;
    half = decode_half;
    encode_half = λ h. codes "o";
    partial = λ s. [];
  };
  owner_secret = codes "hush";
  gen_id = codes "fedcba98-7654-3210-fedc-ba9876543210";
  now = noon;
  check_time = noon;
  write_time = noon;
  faults = no_faults;
  before_write = λ d. d;
  before_claim = f;
}

abbrev pub calm : Env
calm = env_with (λ d. d)

abbrev denying : Env
denying = env_with (λ d. (update_pair_request_status no_faults request_id denied [] [] d).1)

abbrev request : Request
request = record {
  method = codes "POST";
  path = codes "/pair/request";
  raw_query = [];
  owner_secret = [];
  body = some (codes "{}");
}

sent_parses : parse_half sent ≡ parsed owner
unfolding parse_half parse_dh decode_b64url decode_groups decode_url filter replicate text_eq
sent_parses = refl

sent-Approvable :
    (f : Db → Db) (ps : List Pair)
    → Approvable
        (env_with f)
        request_id
        request
        (record db { pairs = ps })
        open_request
        requester
        owner
unfolding uuid_regex matches replicate find text_eq decode_half ts_in_window parse_ts
    verify_self_sig encode_raw decode_b64url decode_groups decode_url filter
sent-Approvable f ps = record {
  well_formed = refl;
  raw = codes "{}";
  body = sent;
  read = refl;
  decoded = refl;
  found = refl;
  is_pending = refl;
  requester = refl;
  accepted = sent_parses;
  same_alg = refl;
  fresh_ts = refl;
  signed = refl;
}

abbrev new_path : Text
new_path = path_id_of calm (loaded calm.codec requester) owner

path_is_new : contains (λ x. x.path_id == new_path) db.pairs ≡ false
unfolding contains text_eq compute_path_id encode_raw bytes_less decode_b64url decode_groups
    decode_url filter replicate
path_is_new = refl

owner_reads_back : calm.codec.half (serialize_half calm.codec owner) ≡ some (wire_form owner)
unfolding serialize_half decode_half wire_form
owner_reads_back = refl

-- A day later, when the half is no longer fresh, on a driver whose writes all fail.
abbrev reads_only : Faults
reads_only get_request_op = false
reads_only get_pair_op = false
reads_only _ = true

abbrev tomorrow : Time
tomorrow = noon + request_ttl

abbrev later : Env
later = record calm { check_time = tomorrow; faults = reads_only }

approve_activates_example :
    let out = approve calm request_id request db in
    (out.0 ≡ approval request_id new_path (half_to_wire requester))
    × (out.1.pairs
        ≡ db.pairs
          ++ (record {
            path_id = new_path;
            requester_id = codes "alpha";
            requester_pubkey = requester_key;
            requester_dh_pubkey = [];
            owner_id = codes "beta";
            owner_pubkey = owner_key;
            owner_dh_pubkey = [];
            sig_alg = codes "ed25519";
            dh_alg = codes "P-256";
            activated_at = noon / second * second;
          }
              ∷ []))
    × (out.1.envelopes ≡ db.envelopes)
    × (lookup request_id out.1
        ≡ some (record open_request {
          status = approved;
          owner_json = serialize_half calm.codec owner;
          path_id = new_path;
        }))
    × (get_request_status calm request_id out.1
        ≡ request_status request_id approved new_path (some (half_to_wire owner)))
unfolding decode_half
approve_activates_example =
    approve_activates (λ op. refl) (sent-Approvable (λ d. d) db.pairs) db-Keyed refl (λ d. refl)
      path_is_new owner_reads_back refl

approve_after_denial_example :
    let out = approve denying request_id request db in
    (out.0 ≡ failed 409 "request_not_pending_concurrent")
    × (lookup request_id out.1 ≡ some (record open_request { status = denied }))
    × (out.1.pairs
        ≡ db.pairs ++ (stored_pair (new_pair denying (loaded denying.codec requester) owner) ∷ []))
approve_after_denial_example =
    approve_after_denial (λ op. refl)
      (sent-Approvable (λ d. (update_pair_request_status no_faults request_id denied [] [] d).1)
        db.pairs)
      db-Keyed refl (λ d. refl) path_is_new

dispatch_public-SameGrants_example : SameGrants db (dispatch_public calm request db).1
dispatch_public-SameGrants_example = dispatch_public-SameGrants calm request db

parse_half_sound_example : Acceptable sent owner
parse_half_sound_example = parse_half_sound sent owner sent_parses

verify_self_sig_iff_example : (verify_self_sig platform owner ≡ true) ↔ SelfSigned platform owner
verify_self_sig_iff_example = verify_self_sig_iff platform owner

-- The same members under another signature, which the signed bytes leave out.
abbrev resigned : Half
resigned = record owner { self_sig = codes "x" }

no_newlines : All HasNoNewline (fields_v2 owner)
unfolding contains
no_newlines = ground arith

canonical_bytes_v2_lem_example :
    (fields_v2 owner ≡ fields_v2 resigned)
    × (canonical_bytes_v1 owner ≢ canonical_bytes_v2 resigned)
unfolding canonical_bytes_v2
canonical_bytes_v2_lem_example = canonical_bytes_v2_lem owner resigned no_newlines no_newlines refl

-- The pair as an earlier approval would have left it.
abbrev paired_before : Pair
paired_before = new_pair calm (loaded calm.codec requester) owner

abbrev paired_db : Db
paired_db = record db { pairs = paired_before ∷ [] }

pair_is_known : get_pair calm.faults new_path paired_db ≡ ok paired_before
unfolding get_pair find text_eq new_pair compute_path_id encode_raw bytes_less decode_b64url
    decode_groups decode_url filter replicate
pair_is_known = refl

paired_db-Keyed : Keyed paired_db
paired_db-Keyed = record { envelopes = (tt, tt); requests = (tt, tt); pairs = (tt, tt) }

approve_duplicate_example :
    let out = approve calm request_id request paired_db in
    (out.0 ≡ approval request_id new_path (half_to_wire requester))
    × (out.1.pairs ≡ paired_db.pairs)
    × (lookup request_id out.1
        ≡ some (
            decide approved
              (take max_body_size (sent-Approvable (λ d. d) paired_db.pairs).raw)
              new_path
              open_request))
unfolding new_pair
approve_duplicate_example =
    approve_duplicate (λ op. refl) (sent-Approvable (λ d. d) paired_db.pairs) paired_before
      paired_db-Keyed refl (λ d. refl) pair_is_known refl refl

create_sound_example : CreateOutcome calm request db (create_request calm request db)
create_sound_example = create_sound calm request db

keys_apart : (requester_key == owner_key) ≡ false
unfolding text_eq
keys_apart = refl

approve_opens_example :
    (path_id_regex new_path ≡ true)
    × ((p : Pair) × (get_pair no_faults new_path (approve calm request_id request db).1 ≡ ok p)
        × Opposed p requester.pubkey owner.pubkey)
unfolding decode_half
approve_opens_example =
    approve_opens (λ op. refl) (sent-Approvable (λ d. d) db.pairs) no_faults db-Keyed refl
      (λ d. refl) path_is_new owner_reads_back refl (λ s. digest-AreBytes) (λ s. refl)
      (differ requester_key owner_key keys_apart) refl
