-- ===== src/Discovery/Vector/Receiver.antt =====
-- The receiver that the document describes, what it relies on, and the hexadecimal texts it reads.
use interchange.Base.{
  ℕ, ◌/◌, ◌%◌, ◌<◌, ◌≡◌, refl, ap, arith, true, Option, some, [], ◌∷◌, ◌++◌, Text, length, take,
  drop, replicate, All-append, All-map, ltb,
}
use interchange.Base64.{encode_raw, decode_b64url}
use interchange.Base64.RoundTrip.{AreBytes, encode_raw-All}
use interchange.Envelopes.{to_hex, hex_digit}
use interchange.Discovery.Vector.{
  Suite, AeadExample, must_ecdh_from_hex, decode_hex, hex_value, salt, example_aead_info,
  example_aead_plaintext, ◌>>=◌, example_aead_nonce_hex, example_alice_priv_hex,
  example_bob_priv_hex,
}

hex_value-hex_digit : (d : ℕ) → d < 16 → hex_value (hex_digit d) ≡ some d
hex_value-hex_digit d h = ground arith

-- What EncodeToString writes DecodeString reads back.
pub decode_hex-to_hex : (s : Text) → AreBytes s → decode_hex (to_hex s) ≡ some s
unfolding decode_hex to_hex
decode_hex-to_hex [] h = refl
decode_hex-to_hex (c ∷ s) h =
    rw
      (
        hex_value-hex_digit (c / 16) (let k = h.0 in omega arith),
        hex_value-hex_digit (c % 16) (omega arith),
        decode_hex-to_hex s h.1,
      )
      (ap (λ n. some (n ∷ s)) (omega arith))

-- What the packages document: small scalars are keys, the two sides agree on a secret, HKDF gives as
-- many bytes as are asked for, keys of 32 bytes make a cipher, and Open undoes Seal.
pub record IsSuite (suite : Suite) : Type 0 where
  pub accepts :
      (k : ℕ)
      → 0 < k
      → k < 256
      → (key : Text) × (suite.new_private_key (replicate 31 0 ++ (k ∷ [])) ≡ some key)
  pub agrees :
      (x y a b : Text)
      → suite.new_private_key x ≡ some a
      → suite.new_private_key y ≡ some b
      → (secret : Text) × (suite.ecdh a (suite.public_key b) ≡ some secret)
        × (suite.ecdh b (suite.public_key a) ≡ some secret)
  pub derives :
      (secret info : Text)
      → (key : Text) × (suite.hkdf secret salt info 32 ≡ some key)
        × (length key ≡ 32)
        × AreBytes key
  pub keyed : (key : Text) → length key ≡ 32 → suite.new_gcm key ≡ true
  pub opens :
      (key nonce text aad : Text)
      → length key ≡ 32
      → length nonce ≡ 12
      → suite.unseal key nonce (suite.seal key nonce text aad) aad ≡ some text
  pub sealed_bytes :
      (key nonce text aad : Text) → AreBytes text → AreBytes (suite.seal key nonce text aad)
  pub public_bytes : (key : Text) → AreBytes (suite.public_key key)

-- The receiver of the document, from published texts alone: its own scalar and the other side's public
-- key, the salt and the info, the two ids, and the ciphertext of the outer envelope.
unfoldable pub receive :
    Suite → (own_hex peer_b64u salt_hex info path_id msg_id wire_b64 : Text) → Option Text
receive suite own_hex peer_b64u salt_hex info path_id msg_id wire_b64 = do
  own ← must_ecdh_from_hex suite own_hex
  peer ← decode_b64url peer_b64u
  shared ← suite.ecdh own peer
  salt_bytes ← decode_hex salt_hex
  key ← suite.hkdf shared salt_bytes info 32
  wire ← decode_b64url wire_b64
  suite.unseal key (take 12 wire) (drop 12 wire) (path_id ++ msg_id)

-- The recipe of the verify hint, on the published hexadecimal texts.
unfoldable pub verify : Suite → AeadExample → Option Text
verify suite v = do
  key ← decode_hex v.sym_key_hex
  nonce ← decode_hex v.nonce_hex
  aad ← decode_hex v.aad_hex
  sealed ← decode_hex v.ciphertext_with_tag_hex
  suite.unseal key nonce sealed aad

abbrev pub wire_nonce : Text
wire_nonce = 0 ∷ 1 ∷ 2 ∷ 3 ∷ 4 ∷ 5 ∷ 6 ∷ 7 ∷ 8 ∷ 9 ∷ 10 ∷ 11 ∷ []

pub salt_decodes : decode_hex (to_hex salt) ≡ some salt
unfolding replicate
salt_decodes = decode_hex-to_hex salt (omega arith)

pub nonce_decodes : decode_hex example_aead_nonce_hex ≡ some wire_nonce
unfolding decode_hex
nonce_decodes = refl

must_ecdh-scalar :
    (suite : Suite) (k : ℕ) (hex key : Text)
    → decode_hex hex ≡ some (replicate 31 0 ++ (k ∷ []))
    → suite.new_private_key (replicate 31 0 ++ (k ∷ [])) ≡ some key
    → must_ecdh_from_hex suite hex ≡ some key
unfolding must_ecdh_from_hex replicate
must_ecdh-scalar suite k hex key h e = rw (h, must_ecdh_from_hex, e) refl

pub encode_raw-AreBytes : (s : Text) → AreBytes s → AreBytes (encode_raw s)
encode_raw-AreBytes s h =
    All-map {Q = λ c. c < 256} (λ c (k : ltb c 256 ≡ true). ground arith) (encode_raw s)
      (encode_raw-All (λ c. ltb c 256) s (λ d k. ground arith) h)

pub AreBytes-append : (s t : Text) → AreBytes s → AreBytes t → AreBytes (s ++ t)
AreBytes-append s t h k = All-append (λ c. c < 256) s t h k

pub plaintext_bytes : AreBytes example_aead_plaintext
plaintext_bytes = omega arith

-- The two key pairs, their secret, and the key that comes from it.
pub record Agreed (suite : Suite) : Type 0 where
  pub a : Text
  pub b : Text
  pub secret : Text
  pub key : Text
  pub alice : must_ecdh_from_hex suite example_alice_priv_hex ≡ some a
  pub bob : must_ecdh_from_hex suite example_bob_priv_hex ≡ some b
  pub to_bob : suite.ecdh a (suite.public_key b) ≡ some secret
  pub to_alice : suite.ecdh b (suite.public_key a) ≡ some secret
  pub derived : suite.hkdf secret salt example_aead_info 32 ≡ some key
  pub size : length key ≡ 32
  pub key_bytes : AreBytes key

pub agree : (suite : Suite) → IsSuite suite → Agreed suite
unfolding decode_hex replicate
agree suite sound =
    let (a, ea) = sound.accepts 1 (omega arith) (omega arith) in
    let (b, eb) = sound.accepts 2 (omega arith) (omega arith) in
    let (secret, agree_a, agree_b) = sound.agrees _ _ a b ea eb in
    let (key, derived, size, key_bytes) = sound.derives secret example_aead_info in
    record {
      a = a;
      b = b;
      secret = secret;
      key = key;
      alice = must_ecdh-scalar suite 1 example_alice_priv_hex a refl ea;
      bob = must_ecdh-scalar suite 2 example_bob_priv_hex b refl eb;
      to_bob = agree_a;
      to_alice = agree_b;
      derived = derived;
      size = size;
      key_bytes = key_bytes;
    }
