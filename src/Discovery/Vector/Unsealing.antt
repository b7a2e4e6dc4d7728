-- ===== src/Discovery/Vector/Unsealing.antt =====
-- The published vector against a receiver that follows the description in the document.
use interchange.Base.{◌≡◌, refl, arith, true, some, ◌++◌, Text, length, take, drop, codes}
use interchange.Platform.{Platform}
use interchange.Base64.{encode_raw, decode_b64url}
use interchange.Base64.RoundTrip.{AreBytes, decode_b64url-encode_raw}
use interchange.Formats.{path_id_regex, uuidv7_regex}
use interchange.Formats.PathIds.{path_id_regex-encode_raw}
use interchange.Envelopes.{to_hex}
use interchange.Discovery.{Signer, example_path_id, derive_path_id}
use interchange.Discovery.Vector.{
  Suite, AeadExample, compute_aead_example, must_ecdh_from_hex, salt, example_aead_info,
  example_aead_plaintext, example_aead_msg_id, example_aead_nonce_hex, example_alice_priv_hex,
  example_bob_priv_hex,
}
use interchange.Discovery.Vector.Receiver.{
  decode_hex-to_hex, IsSuite, receive, verify, wire_nonce, salt_decodes, nonce_decodes,
  encode_raw-AreBytes, AreBytes-append, plaintext_bytes, Agreed, agree,
}

module _ (p : Platform) (signer : Signer) (suite : Suite) (sound : IsSuite suite)
    (bytes : (s : Text) → AreBytes (p.sha256 s)) (k : Agreed suite) where
  open k use {a, b, secret, key, alice, bob, to_bob, derived, size, key_bytes}

  abbrev vector_aad : Text
  vector_aad = example_path_id signer p ++ example_aead_msg_id

  abbrev vector_sealed : Text
  vector_sealed = suite.seal key wire_nonce example_aead_plaintext vector_aad

  abbrev vector : AeadExample
  vector = record {
    alice_priv_hex = example_alice_priv_hex;
    alice_pub_b64u = encode_raw (suite.public_key a);
    bob_priv_hex = example_bob_priv_hex;
    bob_pub_b64u = encode_raw (suite.public_key b);
    shared_secret_hex = to_hex secret;
    sym_key_hex = to_hex key;
    hkdf_info = example_aead_info;
    hkdf_salt_hex = to_hex salt;
    path_id = example_path_id signer p;
    msg_id = example_aead_msg_id;
    aad_hex = to_hex vector_aad;
    nonce_hex = example_aead_nonce_hex;
    plaintext = example_aead_plaintext;
    ciphertext_with_tag_hex = to_hex vector_sealed;
    wire_ciphertext_hex = to_hex (wire_nonce ++ vector_sealed);
    wire_ciphertext_b64 = encode_raw (wire_nonce ++ vector_sealed);
    ciphertext_sha256_hex = to_hex (p.sha256 (wire_nonce ++ vector_sealed));
  }

  vector_built : compute_aead_example p signer suite ≡ some vector
  unfolding compute_aead_example
  vector_built =
      rw (alice, compute_aead_example, bob, to_bob, derived, nonce_decodes, sound.keyed key size)
        refl

  wire_decodes :
      decode_b64url (encode_raw (wire_nonce ++ vector_sealed)) ≡ some (wire_nonce ++ vector_sealed)
  wire_decodes = decode_b64url-encode_raw _ (
      AreBytes-append wire_nonce vector_sealed (omega arith)
        (sound.sealed_bytes _ _ _ _ plaintext_bytes))

  received :
      (own_hex own peer : Text)
      → must_ecdh_from_hex suite own_hex ≡ some own
      → suite.ecdh own (suite.public_key peer) ≡ some secret
      → receive suite own_hex
          (encode_raw (suite.public_key peer))
          vector.hkdf_salt_hex
          vector.hkdf_info
          vector.path_id
          vector.msg_id
          vector.wire_ciphertext_b64
        ≡ some example_aead_plaintext
  unfolding receive take drop
  received own_hex own peer mine agree =
      rw
        (
          mine,
          receive,
          decode_b64url-encode_raw _ (sound.public_bytes peer),
          agree,
          salt_decodes,
          derived,
          wire_decodes,
        )
        (sound.opens key wire_nonce example_aead_plaintext vector_aad size refl)

  verified : verify suite vector ≡ some example_aead_plaintext
  unfolding verify example_path_id derive_path_id
  verified =
      let aad_bytes : AreBytes vector_aad =
        AreBytes-append (example_path_id signer p) example_aead_msg_id
          (AreBytes-append (codes "nxc_") _ (omega arith) (encode_raw-AreBytes _ (bytes _)))
          (omega arith) in
      rw
        (
          decode_hex-to_hex key key_bytes,
          verify,
          nonce_decodes,
          decode_hex-to_hex vector_aad aad_bytes,
          decode_hex-to_hex vector_sealed (sound.sealed_bytes _ _ _ _ plaintext_bytes),
        )
        (sound.opens key wire_nonce example_aead_plaintext vector_aad size refl)

-- What the published vector promises.
pub record Opens (p : Platform) (suite : Suite) (v : AeadExample) : Type 0 where
  pub bob_reads :
      receive suite v.bob_priv_hex v.alice_pub_b64u v.hkdf_salt_hex v.hkdf_info v.path_id v.msg_id
        v.wire_ciphertext_b64
      ≡ some v.plaintext
  pub alice_reads :
      receive suite v.alice_priv_hex v.bob_pub_b64u v.hkdf_salt_hex v.hkdf_info v.path_id v.msg_id
        v.wire_ciphertext_b64
      ≡ some v.plaintext
  pub hint_holds : verify suite v ≡ some v.plaintext
  pub wire : Text
  pub carried : decode_b64url v.wire_ciphertext_b64 ≡ some wire
  pub digested : to_hex (p.sha256 wire) ≡ v.ciphertext_sha256_hex
  pub addressed : path_id_regex v.path_id ≡ true
  pub identified : uuidv7_regex v.msg_id ≡ true

-- Where the cryptography does what it documents, the example is built without a panic, and from its
-- published texts alone either side, by its own scalar and the public key of the other, recovers the
-- published plaintext, as does the recipe of the verify hint. The published ciphertext decodes, its
-- digest is the published one, and both ids have the format that the mailbox requires.
pub compute_aead_example-Opens :
    (p : Platform) (signer : Signer) (suite : Suite)
    → IsSuite suite
    → ((s : Text) → AreBytes (p.sha256 s))
    → ((s : Text) → length (p.sha256 s) ≡ 32)
    → (v : AeadExample) × (compute_aead_example p signer suite ≡ some v) × Opens p suite v
unfolding example_path_id derive_path_id uuidv7_regex
compute_aead_example-Opens p signer suite sound bytes len =
    let k = agree suite sound in
    (
      vector p signer suite sound bytes k,
      vector_built p signer suite sound bytes k,
      record {
        bob_reads =
            received p signer suite sound bytes k example_bob_priv_hex k.b k.a k.bob k.to_alice;
        alice_reads =
            received p signer suite sound bytes k example_alice_priv_hex k.a k.b k.alice k.to_bob;
        hint_holds = verified p signer suite sound bytes k;
        wire = _;
        carried = wire_decodes p signer suite sound bytes k;
        digested = refl;
        addressed = path_id_regex-encode_raw _ (bytes _) (len _);
        identified = refl;
      },
    )
