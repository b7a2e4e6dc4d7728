-- ===== src/Tests.antt =====
-- One small deployment on which the theorems are tried: a platform with a constant digest and
-- signatures that always hold, one pair, one stored message, one request on its way.
mod Mail
mod Pairing
mod Tables
mod Edge
mod Entrances
mod Relaying
mod Published
mod Startup
mod Vectors
mod Scripts
use interchange.Base.{
  ℕ, ◌*◌, Bool, true, false, Option, none, some, List, [], ◌∷◌, ◌++◌, Text, codes, replicate, ◌==◌,
  ◌≡◌, ◌≢◌, text_eq_iff, arith,
}
use interchange.Platform.{Platform, Time, second}
use interchange.Storage.{
  Direction, a_to_b, b_to_a, Envelope, Status, pending, PairRequest, Pair, Db, no_faults,
}
use interchange.Storage.Keys.{Keyed}
use interchange.Base64.{encode_raw}
use interchange.Base64.RoundTrip.{AreBytes}
use interchange.Crypto.{Verifier, caller}
use interchange.Envelopes.{OuterEnvelope, to_hex}

abbrev pub noon : Time
noon = 1000 * second

abbrev pub digest : Text
digest =
    7 ∷ 7 ∷ 7 ∷ 7 ∷ 7 ∷ 7 ∷ 7 ∷ 7 ∷ 7 ∷ 7 ∷ 7 ∷ 7 ∷ 7 ∷ 7 ∷ 7 ∷ 7 ∷ 7 ∷ 7 ∷ 7 ∷ 7 ∷ 7 ∷ 7 ∷ 7 ∷ 7
    ∷ 7 ∷ 7 ∷ 7 ∷ 7 ∷ 7 ∷ 7 ∷ 7 ∷ 7 ∷ []

abbrev pub platform : Platform
platform = record {
  parse_rfc3339 = λ s. some noon;
  parse_layout = λ s. none;
  sha256 = λ s. digest;
  ed25519_verify = λ key message sig. true;
  json_string = λ s. b'"' ∷ (s ++ (b'"' ∷ []));
  query_get = λ query key. [];
}

abbrev pub path_id : Text
path_id = codes "nxc_AAAAAAAAAAAAAAAAAAAAAAAAAAAAAAAAAAAAAAAAAAA"

abbrev pub first_id : Text
first_id = codes "01890000-0000-7000-8000-000000000001"

abbrev pub second_id : Text
second_id = codes "01890000-0000-7000-8000-000000000002"

abbrev pub third_id : Text
third_id = codes "01890000-0000-7000-8000-000000000003"

-- The keys: 32 zero bytes, and 32 bytes of which the last is 4.
abbrev pub requester_key : Text
requester_key = codes "AAAAAAAAAAAAAAAAAAAAAAAAAAAAAAAAAAAAAAAAAAA"

abbrev pub owner_key : Text
owner_key = codes "AAAAAAAAAAAAAAAAAAAAAAAAAAAAAAAAAAAAAAAAAAQ"

abbrev pub pair : Pair
pair = record {
  path_id = path_id;
  requester_id = codes "alpha";
  requester_pubkey = requester_key;
  requester_dh_pubkey = [];
  owner_id = codes "beta";
  owner_pubkey = owner_key;
  owner_dh_pubkey = [];
  sig_alg = codes "ed25519";
  dh_alg = codes "P-256";
  activated_at = noon;
}

abbrev pub old_row : Envelope
old_row = record {
  msg_id = first_id;
  path_id = path_id;
  direction = b_to_a;
  received_at = noon;
  ciphertext = codes "AAAA";
  signature = codes "s";
  outer_json = codes "{}";
}

abbrev pub request_id : Text
request_id = codes "01234567-89ab-cdef-0123-456789abcdef"

abbrev pub open_request : PairRequest
open_request = record {
  request_id = request_id;
  status = pending;
  created_at = noon;
  expires_at = 90000 * second;
  path_id = [];
  requester_json = codes "requester";
  owner_json = [];
  target_nexus_id = codes "beta";
}

abbrev pub db : Db
db = record { envelopes = old_row ∷ []; requests = open_request ∷ []; pairs = pair ∷ [] }

pub db-Keyed : Keyed db
db-Keyed = record { envelopes = (tt, tt); requests = (tt, tt); pairs = (tt, tt) }

pub differ : (a b : Text) → (a == b) ≡ false → a ≢ b
differ a b n e = absurd (cc (n, (text_eq_iff a b).1 e))

-- 64 bytes, encoded.
abbrev pub signature : Text
signature =
    codes "BwcHBwcHBwcHBwcHBwcHBwcHBwcHBwcHBwcHBwcHBwcHBwcHBwcHBwcHBwcHBwcHBwcHBwcHBwcHBwcHBwcHBw"

-- 31 zero bytes.
abbrev pub zeros : Text
zeros =
    0 ∷ 0 ∷ 0 ∷ 0 ∷ 0 ∷ 0 ∷ 0 ∷ 0 ∷ 0 ∷ 0 ∷ 0 ∷ 0 ∷ 0 ∷ 0 ∷ 0 ∷ 0 ∷ 0 ∷ 0 ∷ 0 ∷ 0 ∷ 0 ∷ 0 ∷ 0 ∷ 0
    ∷ 0 ∷ 0 ∷ 0 ∷ 0 ∷ 0 ∷ 0 ∷ 0 ∷ []

pub digest-AreBytes : AreBytes digest
digest-AreBytes = ground arith
