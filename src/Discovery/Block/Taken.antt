-- ===== src/Discovery/Block/Taken.antt =====
-- The examples block against the relay: every published value is one that it takes.
use interchange.Base.{
  ◌≡◌, ◌≢◌, refl, ◌∙◌, ap, true, some, List, [], none, Text, codes, length, lookup_key, text_eq,
  is_empty,
}
use interchange.Platform.{Platform}
use interchange.Base64.{decode_b64url, encode_raw}
use interchange.Base64.RoundTrip.{AreBytes, decode_b64url-encode_raw}
use interchange.Storage.{Pair}
use interchange.Crypto.{caller, identify}
use interchange.Crypto.Identity.{identify_complete}
use interchange.Formats.{path_id_regex, uuidv7_regex}
use interchange.Envelopes.{OuterEnvelope, canonical_json, valid_envelope_schema, to_hex}
use interchange.Halves.{
  Half, parsed, parse_half, verify_self_sig, canonical_bytes_v1, canonical_bytes_v2,
  compute_path_id,
}
use interchange.Discovery.{
  Signer, alice_seed, bob_seed, example_half_v1, example_half_v2, public_b64u, example_path_id,
}
use interchange.Discovery.Examples.{IsSound, with_key, halves_accepted, nonempty_encoding}
use interchange.Discovery.Outer.{IsPlain, quoted, example_envelope, outer_accepted}
use interchange.Discovery.Block.{
  Examples, Outer, PairHalfVersion, build_examples, test_keys, version_1, version_2, outer_envelope,
  sign_canonical,
}

-- The member under a key, or an empty text.
abbrev pub member : Text → List (Text × Text) → Text
member k wire = elim (lookup_key k wire) [ none ↦ [] | some s ↦ s ]

-- The members of a half, under the names that the relay reads them by.
pub record Writes (wire : List (Text × Text)) (half : Half) : Type 0 where
  pub nexus_id : member (codes "nexus_id") wire ≡ half.nexus_id
  pub sig_alg : member (codes "sig_alg") wire ≡ half.sig_alg
  pub pubkey : member (codes "pubkey") wire ≡ half.pubkey
  pub dh_alg : member (codes "dh_alg") wire ≡ half.dh_alg
  pub dh_pubkey : member (codes "dh_pubkey") wire ≡ half.dh_pubkey
  pub endpoint : member (codes "endpoint") wire ≡ half.endpoint
  pub nonce : member (codes "nonce") wire ≡ half.nonce
  pub ts : member (codes "ts") wire ≡ half.ts
  pub self_sig : member (codes "self_sig") wire ≡ half.self_sig

-- A published half that the pair flow takes, under the key, with the published preimage as its bytes.
pub record HalfTaken (p : Platform) (key : Text) (bytes : Half → Text) (v : PairHalfVersion)
    : Type 0 where
  pub half : Half
  pub written : Writes v.wire_json half
  pub parses : parse_half half ≡ parsed (with_key half key)
  pub signed : verify_self_sig p (with_key half key) ≡ true
  pub preimage : bytes half ≡ v.preimage
  pub signature : half.self_sig ≡ v.signature

-- A published envelope that passes the checks of PUT that depend on the envelope alone, and whose
-- canonical bytes are the published ones.
pub record OuterTaken (p : Platform) (path_id : Text) (x : Outer) : Type 0 where
  pub envelope : OuterEnvelope
  pub raw : Text
  pub canonical : canonical_json p envelope ≡ x.canonical_json
  pub wire : x.wire_hex ≡ to_hex x.canonical_json
  pub schema : valid_envelope_schema envelope ≡ true
  pub uuidv7 : uuidv7_regex envelope.msg_id ≡ true
  pub same_path : envelope.path_id ≡ path_id
  pub well_formed : path_id_regex path_id ≡ true
  pub decodes : decode_b64url envelope.ciphertext ≡ some raw
  pub digest : to_hex (p.sha256 raw) ≡ envelope.ciphertext_sha256
  pub published_digest : envelope.ciphertext_sha256 ≡ x.ciphertext_sha256

-- A block of examples that the relay takes, by its published values alone.
pub record BlockTaken (p : Platform) (x : Examples) : Type 0 where
  pub alice : Text
  pub bob : Text
  pub alice_key : decode_b64url x.test_keys.alice_pubkey_b64u ≡ some alice
  pub bob_key : decode_b64url x.test_keys.bob_pubkey_b64u ≡ some bob
  pub v2 : HalfTaken p alice canonical_bytes_v2 x.pair_half.v2
  pub v1 : HalfTaken p alice canonical_bytes_v1 x.pair_half.v1
  pub path_id : x.path_id ≡ compute_path_id p alice bob
  pub outer : OuterTaken p x.path_id x.outer_envelope
  pub identified :
      (pair : Pair)
      → pair.sig_alg ≡ codes "ed25519"
      → pair.requester_pubkey ≡ x.test_keys.alice_pubkey_b64u
      → pair.owner_pubkey ≡ x.test_keys.bob_pubkey_b64u
      → identify p pair x.outer_envelope.x_nexus_signature x.outer_envelope.canonical_json
        ≡ caller x.test_keys.alice_pubkey_b64u

module _ (p : Platform) (signer : Signer) (sound : IsSound p signer) where
  taken_v2 : HalfTaken p (signer.public alice_seed) canonical_bytes_v2 (version_2 signer)
  unfolding version_2 example_half_v2 lookup_key text_eq
  taken_v2 =
      let h = (halves_accepted p signer sound).0 in
      record {
        half = example_half_v2 signer;
        written = record {
          nexus_id = refl;
          sig_alg = refl;
          pubkey = refl;
          dh_alg = refl;
          dh_pubkey = refl;
          endpoint = refl;
          nonce = refl;
          ts = refl;
          self_sig = refl;
        };
        parses = h.0;
        signed = h.1;
        preimage = h.2;
        signature = refl;
      }

  taken_v1 : HalfTaken p (signer.public alice_seed) canonical_bytes_v1 (version_1 signer)
  unfolding version_1 example_half_v1 lookup_key text_eq
  taken_v1 =
      let h = (halves_accepted p signer sound).1 in
      record {
        half = example_half_v1 signer;
        written = record {
          nexus_id = refl;
          sig_alg = refl;
          pubkey = refl;
          dh_alg = refl;
          dh_pubkey = refl;
          endpoint = refl;
          nonce = refl;
          ts = refl;
          self_sig = refl;
        };
        parses = h.0;
        signed = h.1;
        preimage = h.2;
        signature = refl;
      }

  key_decodes : (seed : Text) → decode_b64url (public_b64u signer seed) ≡ some (signer.public seed)
  key_decodes seed = decode_b64url-encode_raw _ (sound.public_bytes seed)

  signature_filled : (seed m : Text) → encode_raw (signer.sign seed m) ≢ []
  signature_filled seed m e =
      let n = nonempty_encoding (signer.sign seed m) 63 (sound.sign_length seed m) in
      absurd (cc (n, ap is_empty e))

  signed_by_alice :
      (m : Text) (pair : Pair)
      → pair.sig_alg ≡ codes "ed25519"
      → pair.requester_pubkey ≡ public_b64u signer alice_seed
      → pair.owner_pubkey ≡ public_b64u signer bob_seed
      → identify p pair (sign_canonical signer alice_seed m) m
        ≡ caller (public_b64u signer alice_seed)
  unfolding sign_canonical
  signed_by_alice m pair alg requester owner =
      identify_complete p pair _ m (signer.sign alice_seed m) (signer.public alice_seed)
        (signer.public bob_seed) alg (signature_filled alice_seed m)
        (decode_b64url-encode_raw _ (sound.sign_bytes alice_seed m))
        (sound.sign_length alice_seed m) (ap decode_b64url requester ∙ key_decodes alice_seed)
        (sound.public_length alice_seed) (ap decode_b64url owner ∙ key_decodes bob_seed)
        (sound.public_length bob_seed)
      ∙ rw (sound.verifies alice_seed m) (ap caller requester)

  module _ (bytes : (s : Text) → AreBytes (p.sha256 s))
      (len : (s : Text) → length (p.sha256 s) ≡ 32)
      (quotes : (s : Text) → IsPlain s → p.json_string s ≡ quoted s) where
    outer_taken : OuterTaken p (example_path_id signer p) (outer_envelope signer p)
    unfolding outer_envelope
    outer_taken =
        let (schema, uuidv7, well_formed, (raw, decodes, digest), canonical) =
          outer_accepted p signer bytes len quotes in
        record {
          envelope = example_envelope p signer;
          raw = raw;
          canonical = canonical;
          wire = refl;
          schema = schema;
          uuidv7 = uuidv7;
          same_path = refl;
          well_formed = well_formed;
          decodes = decodes;
          digest = digest;
          published_digest = refl;
        }

    -- The examples block of the discovery document is one that the relay takes, by its published values
    -- alone. The two maps of the pair halves have the members of halves that parse, under the published
    -- key, and whose signature, the published one, holds over the published preimage; the path id is the
    -- one that the pair flow computes from the two published keys. The outer envelope is the canonical
    -- JSON of an envelope at this path id that passes the checks of PUT on schema, id and digest, and the
    -- verifier names the published key of alice as the signer of it for every ed25519 pair of the two
    -- keys. Keys have 32 bytes, signatures 64 and digests 32, a signature verifies under the key of its
    -- seed, and JSON quotes plain text as it is.
    pub build_examples_accepted : BlockTaken p (build_examples signer p)
    unfolding build_examples test_keys outer_envelope
    build_examples_accepted = record {
      alice = signer.public alice_seed;
      bob = signer.public bob_seed;
      alice_key = key_decodes alice_seed;
      bob_key = key_decodes bob_seed;
      v2 = taken_v2;
      v1 = taken_v1;
      path_id = (halves_accepted p signer sound).2;
      outer = outer_taken;
      identified = signed_by_alice _;
    }
