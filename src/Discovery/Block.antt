-- ===== src/Discovery/Block.antt =====
-- internal/discovery/examples.go: the examples block of the discovery document, without its prose. The
-- sealed vector is in Vector, and the inner envelope is prose around a map that nothing reads.
pub mod Taken
use interchange.Base.{List, [], ◌∷◌, Text, codes}
use interchange.Platform.{Platform}
use interchange.Base64.{encode_raw}
use interchange.Envelopes.{to_hex}
use interchange.Discovery.{
  Signer, alice_seed, bob_seed, example_nexus_id, example_endpoint, example_nonce, example_ts,
  example_dh_alg, example_dh_pubkey, public_b64u, build_preimage_v1, build_preimage_v2,
  sign_preimage, example_path_id, compute_ciphertext_sha256, build_example_outer,
}

pub record TestKeys : Type 0 where
  pub alice_seed_hex : Text
  pub alice_pubkey_b64u : Text
  pub bob_seed_hex : Text
  pub bob_pubkey_b64u : Text

-- A map of the members of the half, as the list of its entries.
pub record PairHalfVersion : Type 0 where
  pub preimage : Text
  pub signature : Text
  pub wire_json : List (Text × Text)

pub record PairHalf : Type 0 where
  pub v2 : PairHalfVersion
  pub v1 : PairHalfVersion

-- The hex of the wire bytes is the one value in the prose of its note.
pub record Outer : Type 0 where
  pub canonical_json : Text
  pub wire_hex : Text
  pub ciphertext_sha256 : Text
  pub x_nexus_signature : Text

pub record Examples : Type 0 where
  pub test_keys : TestKeys
  pub pair_half : PairHalf
  pub outer_envelope : Outer
  pub path_id : Text

abbrev pub alice_seed_hex : Text
alice_seed_hex = codes "0000000000000000000000000000000000000000000000000000000000000000"

abbrev pub bob_seed_hex : Text
bob_seed_hex = codes "0101010101010101010101010101010101010101010101010101010101010101"

module _ (signer : Signer) where
  -- signCanonical
  unfoldable pub sign_canonical : Text → Text → Text
  sign_canonical seed canonical = encode_raw (signer.sign seed canonical)

  unfoldable pub test_keys : TestKeys
  test_keys = record {
    alice_seed_hex = alice_seed_hex;
    alice_pubkey_b64u = public_b64u signer alice_seed;
    bob_seed_hex = bob_seed_hex;
    bob_pubkey_b64u = public_b64u signer bob_seed;
  }

  unfoldable pub version_2 : PairHalfVersion
  version_2 =
      let signature = sign_preimage signer alice_seed (build_preimage_v2 signer) in
      record {
        preimage = build_preimage_v2 signer;
        signature = signature;
        wire_json =
            (codes "nexus_id", example_nexus_id)
            ∷ (codes "sig_alg", codes "ed25519")
            ∷ (codes "pubkey", public_b64u signer alice_seed)
            ∷ (codes "dh_alg", example_dh_alg)
            ∷ (codes "dh_pubkey", example_dh_pubkey)
            ∷ (codes "endpoint", example_endpoint)
            ∷ (codes "nonce", example_nonce)
            ∷ (codes "ts", example_ts)
            ∷ (codes "self_sig", signature)
            ∷ [];
      }

  unfoldable pub version_1 : PairHalfVersion
  version_1 =
      let signature = sign_preimage signer alice_seed (build_preimage_v1 signer) in
      record {
        preimage = build_preimage_v1 signer;
        signature = signature;
        wire_json =
            (codes "nexus_id", example_nexus_id)
            ∷ (codes "sig_alg", codes "ed25519")
            ∷ (codes "pubkey", public_b64u signer alice_seed)
            ∷ (codes "endpoint", example_endpoint)
            ∷ (codes "nonce", example_nonce)
            ∷ (codes "ts", example_ts)
            ∷ (codes "self_sig", signature)
            ∷ [];
      }

  unfoldable pub outer_envelope : Platform → Outer
  outer_envelope p = record {
    canonical_json = build_example_outer p signer;
    wire_hex = to_hex (build_example_outer p signer);
    ciphertext_sha256 = compute_ciphertext_sha256 p;
    x_nexus_signature = sign_canonical alice_seed (build_example_outer p signer);
  }

  -- buildExamples
  unfoldable pub build_examples : Platform → Examples
  build_examples p = record {
    test_keys = test_keys;
    pair_half = record { v2 = version_2; v1 = version_1 };
    outer_envelope = outer_envelope p;
    path_id = example_path_id signer p;
  }
