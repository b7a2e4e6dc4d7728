-- ===== src/Discovery/Vector.antt =====
-- internal/discovery/example_aead.go: the encryption example that the discovery document publishes. The
-- ECDH curve, HKDF and AES-256-GCM are parameters; a panic is none.
pub mod Unsealing
pub mod Receiver
use interchange.Base.{
  ℕ, ◌+◌, ◌-◌, ◌*◌, Bool, ◌&&◌, Option, none, some, [], ◌∷◌, ◌++◌, Text, codes, leb, eqb, length,
  replicate, if◌then◌else◌,
}
use interchange.Platform.{Platform}
use interchange.Base64.{encode_raw}
use interchange.Envelopes.{to_hex}
use interchange.Discovery.{Signer, example_path_id}

-- crypto/ecdh on P-256, golang.org/x/crypto/hkdf with SHA-256, crypto/aes and crypto/cipher.
pub record Suite : Type 0 where
  -- NewPrivateKey at a scalar
  pub new_private_key : Text → Option Text
  -- PublicKey().Bytes() of a private key
  pub public_key : Text → Text
  -- ECDH of a private key with the bytes of a public one
  pub ecdh : Text → Text → Option Text
  -- so many bytes of the reader for a secret, a salt and an info
  pub hkdf : Text → Text → Text → ℕ → Option Text
  -- NewGCM on the cipher of a key: whether it succeeds
  pub new_gcm : Text → Bool
  -- Seal and Open under a key, at a nonce, a text and the additional data
  pub seal : Text → Text → Text → Text → Text
  pub unseal : Text → Text → Text → Text → Option Text

-- The constants.
abbrev pub example_aead_info : Text
example_aead_info = codes "nexus-casket-channel-v1"

abbrev pub example_nonce_size : ℕ
example_nonce_size = 12

abbrev pub example_aead_plaintext : Text
example_aead_plaintext =
    codes
      "{\"origin_nexus\":\"alice-nexus\",\"dest_nexus\":\"bob-nexus\",\"kind\":\"proposal\",\"content_type\":\"text/markdown\",\"body\":\"Hello, Bob. This is a test message.\",\"attachments\":[]}"

abbrev pub example_aead_msg_id : Text
example_aead_msg_id = codes "01979b0a-c0de-7eef-a000-000000000001"

abbrev pub example_aead_nonce_hex : Text
example_aead_nonce_hex = codes "000102030405060708090a0b"

abbrev pub example_alice_priv_hex : Text
example_alice_priv_hex = codes "0000000000000000000000000000000000000000000000000000000000000001"

abbrev pub example_bob_priv_hex : Text
example_bob_priv_hex = codes "0000000000000000000000000000000000000000000000000000000000000002"

-- The value of a hexadecimal digit.
abbrev pub hex_value : ℕ → Option ℕ
hex_value c =
    if leb 48 c && leb c 57
    then some (c - 48)
    else if leb 97 c && leb c 102
    then some (c - 87)
    else if leb 65 c && leb c 70
    then some (c - 55)
    else none

abbrev pub hex_byte : Option ℕ → Option ℕ → Option Text → Option Text
hex_byte (some x) (some y) (some rest) = some ((16 * x + y) ∷ rest)
hex_byte (some x) (some y) none = none
hex_byte (some x) none rest = none
hex_byte none y rest = none

-- hex.DecodeString
unfoldable pub decode_hex : Text → Option Text
decode_hex [] = some []
decode_hex (a ∷ []) = none
decode_hex (a ∷ b ∷ s) = hex_byte (hex_value a) (hex_value b) (decode_hex s)

-- A text of the given length, or a panic.
abbrev pub must_have : ℕ → Text → Option Text
must_have n s = if eqb (length s) n then some s else none

infixl 5 ◌>>=◌
abbrev pub ◌>>=◌ {ℓ κ} : {A : Type ℓ} {B : Type κ} → Option A → (A → Option B) → Option B
none >>= f = none
some a >>= f = f a

-- mustECDHFromHex
unfoldable pub must_ecdh_from_hex : Suite → Text → Option Text
must_ecdh_from_hex suite hex = do
  bytes ← decode_hex hex
  scalar ← must_have 32 bytes
  suite.new_private_key scalar

-- AEADExample but for its two notes.
pub record AeadExample : Type 0 where
  pub alice_priv_hex : Text
  pub alice_pub_b64u : Text
  pub bob_priv_hex : Text
  pub bob_pub_b64u : Text
  pub shared_secret_hex : Text
  pub sym_key_hex : Text
  pub hkdf_info : Text
  pub hkdf_salt_hex : Text
  pub path_id : Text
  pub msg_id : Text
  pub aad_hex : Text
  pub nonce_hex : Text
  pub plaintext : Text
  pub ciphertext_with_tag_hex : Text
  pub wire_ciphertext_hex : Text
  pub wire_ciphertext_b64 : Text
  pub ciphertext_sha256_hex : Text

abbrev pub salt : Text
salt = replicate 32 0

-- computeAEADExample
unfoldable pub compute_aead_example : Platform → Signer → Suite → Option AeadExample
compute_aead_example p signer suite = do
  alice_priv ← must_ecdh_from_hex suite example_alice_priv_hex
  bob_priv ← must_ecdh_from_hex suite example_bob_priv_hex
  shared ← suite.ecdh alice_priv (suite.public_key bob_priv)
  sym_key ← suite.hkdf shared salt example_aead_info 32
  let path_id = example_path_id signer p
  let aad = path_id ++ example_aead_msg_id
  bytes ← decode_hex example_aead_nonce_hex
  nonce ← must_have example_nonce_size bytes
  gcm ← (if suite.new_gcm sym_key then some sym_key else none)
  let ct_with_tag = suite.seal gcm nonce example_aead_plaintext aad
  let wire = nonce ++ ct_with_tag
  some (record {
    alice_priv_hex = example_alice_priv_hex;
    alice_pub_b64u = encode_raw (suite.public_key alice_priv);
    bob_priv_hex = example_bob_priv_hex;
    bob_pub_b64u = encode_raw (suite.public_key bob_priv);
    shared_secret_hex = to_hex shared;
    sym_key_hex = to_hex sym_key;
    hkdf_info = example_aead_info;
    hkdf_salt_hex = to_hex salt;
    path_id = path_id;
    msg_id = example_aead_msg_id;
    aad_hex = to_hex aad;
    nonce_hex = example_aead_nonce_hex;
    plaintext = example_aead_plaintext;
    ciphertext_with_tag_hex = to_hex ct_with_tag;
    wire_ciphertext_hex = to_hex wire;
    wire_ciphertext_b64 = encode_raw wire;
    ciphertext_sha256_hex = to_hex (p.sha256 wire);
  })
