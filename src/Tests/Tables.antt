-- ===== src/Tests/Tables.antt =====
-- The tables and the formats on the small deployment.
use interchange.Base.{
  text_lt, sort_by, insert_by, ℕ, ◌*◌, ◌≡◌, ◌≢◌, ◌≤◌, ◌↔◌, ◌⊎◌, refl, arith, true, some, [], ◌∷◌,
  ◌++◌, Text, codes, All, length, filter, find, replicate, text_eq, Ascending, if◌then◌else◌,
}
use interchange.Platform.{parse_ts, ts_in_window}
use interchange.Platform.Window.{InWindow, ts_in_window_iff}
use interchange.Formats.{path_id_regex}
use interchange.Formats.PathIds.{path_id_regex-encode_raw}
use interchange.Base64.{encode_raw, decode_b64url, decode_groups, decode_url}
use interchange.Base64.RoundTrip.{AreBytes}
use interchange.Crypto.{caller, identify, try_halves, signature_size}
use interchange.Crypto.Identity.{Signs, identify_sound, identify_complete}
use interchange.Storage.{
  approved, denied, PairRequest, Db, no_faults, is_after, b_to_a, inbox, list_limit,
  update_pair_request_status,
}
use interchange.Storage.Keys.{here, next, decided}
use interchange.Storage.Paging.{walk, msg_key, walk_complete}
use interchange.Storage.Requests.{lookup, Reach-decided}
use interchange.Tests.{
  noon, digest, platform, path_id, requester_key, owner_key, pair, request_id, open_request, db,
  db-Keyed, signature, zeros, digest-AreBytes,
}

one_page : length (inbox path_id b_to_a [] db.envelopes) ≤ 1 * list_limit
unfolding inbox filter sort_by insert_by text_eq text_lt
one_page = ground arith

walk_complete_example :
    (walk path_id b_to_a 1 [] db ≡ inbox path_id b_to_a [] db.envelopes)
    × Ascending msg_key (walk path_id b_to_a 1 [] db)
    × All (λ e. is_after path_id b_to_a [] e ≡ true) (walk path_id b_to_a 1 [] db)
walk_complete_example = walk_complete path_id b_to_a 1 [] db db-Keyed.envelopes one_page

abbrev closed_request : PairRequest
closed_request = record open_request { status = denied }

abbrev closed_db : Db
closed_db = record db { requests = closed_request ∷ [] }

found_closed : lookup request_id closed_db ≡ some closed_request
unfolding find text_eq
found_closed = refl

Reach-decided_example :
    lookup request_id
      (update_pair_request_status no_faults request_id approved (codes "h") (codes "p") closed_db).1
    ≡ some closed_request
Reach-decided_example =
    Reach-decided request_id closed_request
      (next here (decided no_faults request_id approved (codes "h") (codes "p"))) found_closed
      (λ e. absurd (cc e))

ts_in_window_iff_example :
    (ts_in_window platform (codes "now") noon ≡ true)
    ↔ ((t : ℕ) × (parse_ts platform (codes "now") ≡ some t) × InWindow noon t)
ts_in_window_iff_example = ts_in_window_iff platform (codes "now") noon

abbrev bytes : Text
bytes = 0 ∷ 255 ∷ 16 ∷ 131 ∷ []

bytes-AreBytes : AreBytes bytes
bytes-AreBytes = ground arith

path_id_regex-encode_raw_example : path_id_regex (codes "nxc_" ++ encode_raw digest) ≡ true
path_id_regex-encode_raw_example = path_id_regex-encode_raw digest digest-AreBytes refl

identify_run : identify platform pair signature (codes "m") ≡ caller requester_key
unfolding identify encode_raw decode_b64url decode_groups decode_url filter replicate text_eq
    try_halves
identify_run = refl

identify_sound_example :
    (pair.sig_alg ≡ codes "ed25519")
    × ((requester_key ≡ pair.requester_pubkey) ⊎ (requester_key ≡ pair.owner_pubkey))
    × ((sig : Text) × (decode_b64url signature ≡ some sig)
        × (length sig ≡ signature_size)
        × Signs platform requester_key (codes "m") sig)
identify_sound_example =
    identify_sound platform pair signature (codes "m") identify_run (λ e. absurd (cc e))

decoded_signature : decode_b64url signature ≡ some (digest ++ digest)
unfolding encode_raw decode_b64url decode_groups decode_url filter replicate
decoded_signature = refl

decoded_requester : decode_b64url requester_key ≡ some (0 ∷ zeros)
unfolding decode_b64url decode_groups decode_url filter replicate
decoded_requester = refl

decoded_owner : decode_b64url owner_key ≡ some (zeros ++ (4 ∷ []))
unfolding decode_b64url decode_groups decode_url filter replicate
decoded_owner = refl

signature_filled : signature ≢ []
unfolding encode_raw
signature_filled e = absurd (cc e)

identify_complete_example : identify platform pair signature (codes "m") ≡ (
    if platform.ed25519_verify (0 ∷ zeros) (codes "m") (digest ++ digest)
    then caller pair.requester_pubkey
    else if platform.ed25519_verify (zeros ++ (4 ∷ [])) (codes "m") (digest ++ digest)
    then caller pair.owner_pubkey
    else caller [])
identify_complete_example =
    identify_complete platform pair signature (codes "m") (digest ++ digest) (0 ∷ zeros)
      (zeros ++ (4 ∷ [])) refl signature_filled decoded_signature refl decoded_requester refl
      decoded_owner refl
