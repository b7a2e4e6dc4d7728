-- ===== src/Tests/Vectors.antt =====
-- The published vector under a suite whose cipher keeps the text behind a tag of zeros.
use interchange.Base.{◌≡◌, refl, true, some, ◌++◌, Text, drop, replicate, arith, All-append, ◌<◌}
use interchange.Base64.RoundTrip.{AreBytes}
use interchange.Discovery.Vector.{Suite, AeadExample, compute_aead_example}
use interchange.Discovery.Vector.Receiver.{IsSuite}
use interchange.Discovery.Vector.Unsealing.{Opens, compute_aead_example-Opens}
use interchange.Tests.{platform, digest, digest-AreBytes}
use interchange.Tests.Published.{signer}

abbrev tag : Text
tag = replicate 16 0

abbrev suite : Suite
suite = record {
  new_private_key = λ scalar. some scalar;
  public_key = λ key. digest;
  ecdh = λ key peer. some digest;
  hkdf = λ secret salt info n. some digest;
  new_gcm = λ key. true;
  seal = λ key nonce text aad. tag ++ text;
  unseal = λ key nonce sealed aad. some (drop 16 sealed);
}

tagged : (text : Text) → AreBytes text → AreBytes (tag ++ text)
unfolding replicate
tagged text h = All-append (λ c. c < 256) tag text (omega arith) h

untagged : (text : Text) → drop 16 (tag ++ text) ≡ text
unfolding replicate drop
untagged text = refl

suite-IsSuite : IsSuite suite
suite-IsSuite = record {
  accepts = λ k low high. (_, refl);
  agrees = λ x y a b ea eb. (digest, refl, refl);
  derives = λ secret info. (digest, refl, refl, digest-AreBytes);
  keyed = λ key size. refl;
  opens = λ key nonce text aad size size'. rw (untagged text) refl;
  sealed_bytes = λ key nonce text aad h. tagged text h;
  public_bytes = λ key. digest-AreBytes;
}

compute_aead_example-Opens_example :
    (v : AeadExample) × (compute_aead_example platform signer suite ≡ some v)
    × Opens platform suite v
compute_aead_example-Opens_example =
    compute_aead_example-Opens platform signer suite suite-IsSuite (λ s. digest-AreBytes)
      (λ s. refl)
