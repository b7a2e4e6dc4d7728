-- ===== src/Discovery.antt =====
-- internal/discovery/discovery.go: the numbers that the discovery document names, and, from
-- example_values.go and examples.go, the worked examples that it publishes. Keys and signatures of
-- crypto/ed25519 are parameters, and SHA-256 is that of Platform. The test seeds are written as bytes.
pub mod Examples
pub mod Outer
pub mod Limits
pub mod Vector
pub mod Document
pub mod Block
use interchange.Base.{
  ℕ, none, some, [], ◌∷◌, ◌++◌, Text, codes, ltb, eqb, join_with, replicate, if◌then◌else◌,
}
use interchange.Platform.{Platform}
use interchange.Base64.{encode_raw, decode_b64url}
use interchange.Halves.{Half, newline}
use interchange.Envelopes.{to_hex}

abbrev pub replay_window_seconds : ℕ
replay_window_seconds = 300

abbrev pub body_max_bytes : ℕ
body_max_bytes = 1048576

abbrev pub request_ttl_hours : ℕ
request_ttl_hours = 24

-- ed25519.NewKeyFromSeed with Public, and Sign under the key of a seed.
pub record Signer : Type 0 where
  pub public : Text → Text
  pub sign : Text → Text → Text

abbrev pub alice_seed : Text
alice_seed = replicate 32 0

abbrev pub bob_seed : Text
bob_seed = replicate 32 1

abbrev pub example_nexus_id : Text
example_nexus_id = codes "alice-nexus"

abbrev pub example_endpoint : Text
example_endpoint = codes "https://alice.example.org:10000"

abbrev pub example_nonce : Text
example_nonce = codes "AAECAwQFBgcICQoLDA0ODw"

abbrev pub example_ts : Text
example_ts = codes "2026-04-30T00:00:00Z"

abbrev pub example_dh_alg : Text
example_dh_alg = codes "P-256"

abbrev pub example_dh_pubkey : Text
example_dh_pubkey =
    codes "BKj9Hfm4WU9ZUfCJuvLiAYgyVaTT64WTITLGp30yjYGvqXNd1LaZNeXqzaV7D34eGaR2Fiz9cJQTmfUy2nLHZP0"

-- compare: less, equal or greater.
pub data Comparison : Type 0 where
  less equal greater : Comparison

unfoldable pub compare_bytes : Text → Text → Comparison
compare_bytes [] [] = equal
compare_bytes [] (b ∷ t) = less
compare_bytes (a ∷ s) [] = greater
compare_bytes (a ∷ s) (b ∷ t) =
    let rest = compare_bytes s t in if eqb a b then rest else if ltb a b then less else greater

-- What is left of a decoding whose error is dropped. Both keys are encodings, on which the decoder
-- without padding and the one behind the padding helper agree.
abbrev pub decoded : Text → Text
decoded s = elim (decode_b64url s) [ none ↦ [] | some bytes ↦ bytes ]

abbrev pub in_order : Comparison → Text → Text → Text
in_order less a b = a ++ b
in_order equal a b = b ++ a
in_order greater a b = b ++ a

-- derivePathID
unfoldable pub derive_path_id : Platform → Text → Text → Text
derive_path_id p a b =
    codes "nxc_"
    ++ encode_raw
        (p.sha256 (in_order (compare_bytes (decoded a) (decoded b)) (decoded a) (decoded b)))

module _ (signer : Signer) where
  -- mustEdKey, its first result
  abbrev pub public_b64u : Text → Text
  public_b64u seed = encode_raw (signer.public seed)

  -- buildPreimageV1
  unfoldable pub build_preimage_v1 : Text
  build_preimage_v1 = join_with newline (
      codes "v1"
      ∷ example_nexus_id
      ∷ codes "ed25519"
      ∷ public_b64u alice_seed
      ∷ example_endpoint
      ∷ example_nonce
      ∷ example_ts
      ∷ [])

  -- buildPreimageV2
  unfoldable pub build_preimage_v2 : Text
  build_preimage_v2 = join_with newline (
      codes "v2"
      ∷ example_nexus_id
      ∷ codes "ed25519"
      ∷ public_b64u alice_seed
      ∷ example_dh_alg
      ∷ example_dh_pubkey
      ∷ example_endpoint
      ∷ example_nonce
      ∷ example_ts
      ∷ [])

  -- signPreimage
  unfoldable pub sign_preimage : Text → Text → Text
  sign_preimage seed preimage = encode_raw (signer.sign seed preimage)

  -- The wire members of the version 2 half; pubkey_raw is not among them.
  unfoldable pub example_half_v2 : Half
  example_half_v2 = record {
    nexus_id = example_nexus_id;
    sig_alg = codes "ed25519";
    pubkey = public_b64u alice_seed;
    dh_alg = example_dh_alg;
    dh_pubkey = example_dh_pubkey;
    endpoint = example_endpoint;
    nonce = example_nonce;
    ts = example_ts;
    self_sig = sign_preimage alice_seed build_preimage_v2;
    pubkey_raw = [];
  }

  -- The wire members of the version 1 half.
  unfoldable pub example_half_v1 : Half
  example_half_v1 = record {
    nexus_id = example_nexus_id;
    sig_alg = codes "ed25519";
    pubkey = public_b64u alice_seed;
    dh_alg = [];
    dh_pubkey = [];
    endpoint = example_endpoint;
    nonce = example_nonce;
    ts = example_ts;
    self_sig = sign_preimage alice_seed build_preimage_v1;
    pubkey_raw = [];
  }

  -- examplePathID
  unfoldable pub example_path_id : Platform → Text
  example_path_id p = derive_path_id p (public_b64u alice_seed) (public_b64u bob_seed)

-- The constants of buildExampleOuter. base64.StdEncoding decodes the ciphertext, which has no byte in
-- which the two alphabets differ and its own padding, like the decoder behind the padding helper.
abbrev pub example_ciphertext : Text
example_ciphertext =
    codes
      "AAECAwQFBgcICQoLDQAAAAAAAAAAAAAAAAAAAAAAAAAAAAAAAAAAAAAAAAAAAAAAAAAAAAAAAAAAAAAAAAAAAAAAAAAAAAAAAAAAAAAAAAAAAAAAAAAAAAA="

abbrev pub example_msg_id : Text
example_msg_id = codes "01979b0a-c0de-7eef-a000-000000000001"

-- computeCiphertextSHA256
unfoldable pub compute_ciphertext_sha256 : Platform → Text
compute_ciphertext_sha256 p = to_hex (p.sha256 (decoded example_ciphertext))

-- buildExampleOuter
unfoldable pub build_example_outer : Platform → Signer → Text
build_example_outer p signer =
    codes "{\"ciphertext\":\""
    ++ (example_ciphertext
        ++ (codes "\",\"ciphertext_sha256\":\""
            ++ (compute_ciphertext_sha256 p
                ++ (codes "\",\"msg_id\":\""
                    ++ (example_msg_id
                        ++ (codes "\",\"path_id\":\""
                            ++ (example_path_id signer p
                                ++ (codes "\",\"ts\":\""
                                    ++ (example_ts ++ codes "\",\"version\":\"1\"}")))))))))
