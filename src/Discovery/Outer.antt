-- ===== src/Discovery/Outer.antt =====
-- The published outer envelope against the checks of the mailbox.
use interchange.Base.{
  if◌then◌else◌, ltb, ℕ, ◌+◌, ◌/◌, ◌%◌, ◌<◌, ◌≡◌, refl, ap, arith, Bool, true, false, not, ◌&&◌,
  some, [], ◌∷◌, ◌++◌, Text, codes, text_eq, is_empty, leb, eqb, length, contains,
  contains-eq-false, append_assoc, All-map,
}
use interchange.Platform.{Platform}
use interchange.Base64.{encode_raw, decode_b64url, digit}
use interchange.Base64.RoundTrip.{AreBytes, encode_raw-All}
use interchange.Formats.{path_id_regex, uuidv7_regex}
use interchange.Formats.PathIds.{path_id_regex-encode_raw}
use interchange.Envelopes.{OuterEnvelope, canonical_json, valid_envelope_schema, to_hex}
use interchange.Discovery.Examples.{IsSound, HalvesAccepted, halves_accepted}
use interchange.Discovery.{
  Signer, example_ciphertext, example_msg_id, example_ts, example_path_id,
  compute_ciphertext_sha256, build_example_outer, decoded, derive_path_id,
}

-- A byte that JSON writes as itself: printable ASCII but for the quote and the backslash.
abbrev pub is_plain : ℕ → Bool
is_plain c = leb 32 c && (leb c 126 && (not (eqb c 34) && not (eqb c 92)))

abbrev pub IsPlain : Text → Type 0
IsPlain s = contains (λ c. not (is_plain c)) s ≡ false

abbrev pub quoted : Text → Text
quoted s = b'"' ∷ (s ++ (b'"' ∷ []))

-- The envelope whose members the example has.
abbrev pub example_envelope : Platform → Signer → OuterEnvelope
example_envelope p signer = record {
  version = codes "1";
  msg_id = example_msg_id;
  ts = example_ts;
  path_id = example_path_id signer p;
  ciphertext_sha256 = compute_ciphertext_sha256 p;
  ciphertext = example_ciphertext;
}

nonempty_hex : (s : Text) → length s ≡ 32 → (not (is_empty (to_hex s)) && true) ≡ true
unfolding to_hex
nonempty_hex [] h = absurd (omega arith)
nonempty_hex (c ∷ s) h = refl

plain_hex : (d : ℕ) → d < 16 → is_plain (if ltb d 10 then 48 + d else 87 + d) ≡ true
plain_hex d h = ground arith

to_hex-IsPlain : (s : Text) → AreBytes s → IsPlain (to_hex s)
unfolding to_hex contains
to_hex-IsPlain [] h = refl
to_hex-IsPlain (c ∷ s) h =
    let high = plain_hex (c / 16) (let k = h.0 in omega arith) in
    let low = plain_hex (c % 16) (let k = h.0 in omega arith) in
    rw (high, low) (to_hex-IsPlain s h.1)

plain_digit : (d : ℕ) → d < 64 → is_plain (digit d) ≡ true
plain_digit d h = ground arith

encode_raw-IsPlain : (s : Text) → AreBytes s → IsPlain (encode_raw s)
encode_raw-IsPlain s h =
    contains-eq-false (λ c. not (is_plain c)) (encode_raw s)
      (All-map {Q = λ c. not (is_plain c) ≡ false} (λ c (k : is_plain c ≡ true). ap not k)
        (encode_raw s) (encode_raw-All is_plain s plain_digit h))

dec : decode_b64url example_ciphertext ≡ some (decoded example_ciphertext)
unfolding decode_b64url
dec = refl

-- The checks of PUT that depend on the envelope alone.
abbrev pub OuterAccepted : Platform → Signer → Type 0
OuterAccepted p signer =
    (valid_envelope_schema (example_envelope p signer) ≡ true)
    × (uuidv7_regex example_msg_id ≡ true)
    × (path_id_regex (example_path_id signer p) ≡ true)
    × ((raw : Text) × (decode_b64url example_ciphertext ≡ some raw)
        × (to_hex (p.sha256 raw) ≡ (example_envelope p signer).ciphertext_sha256))
    × (canonical_json p (example_envelope p signer) ≡ build_example_outer p signer)

module _ (p : Platform) (signer : Signer) (bytes : (s : Text) → AreBytes (p.sha256 s)) where
  path_id-IsPlain : IsPlain (example_path_id signer p)
  unfolding example_path_id derive_path_id contains
  path_id-IsPlain = encode_raw-IsPlain _ (bytes _)

  digest-IsPlain : IsPlain (compute_ciphertext_sha256 p)
  unfolding compute_ciphertext_sha256
  digest-IsPlain = to_hex-IsPlain _ (bytes _)

  canonical_lem :
      ((s : Text) → IsPlain s → p.json_string s ≡ quoted s)
      → canonical_json p (example_envelope p signer) ≡ build_example_outer p signer
  unfolding canonical_json build_example_outer contains
  canonical_lem quotes =
      rw
        (
          quotes (codes "ciphertext") refl,
          quotes example_ciphertext refl,
          quotes (codes "ciphertext_sha256") refl,
          quotes (compute_ciphertext_sha256 p) digest-IsPlain,
          quotes (codes "msg_id") refl,
          quotes example_msg_id refl,
          quotes (codes "path_id") refl,
          quotes (example_path_id signer p) path_id-IsPlain,
          quotes (codes "ts") refl,
          quotes example_ts refl,
          quotes (codes "version") refl,
          quotes (codes "1") refl,
          append_assoc (compute_ciphertext_sha256 p) (b'"' ∷ []) _,
          append_assoc (example_path_id signer p) (b'"' ∷ []) _,
        )
        refl

  pub outer_accepted :
      ((s : Text) → length (p.sha256 s) ≡ 32)
      → ((s : Text) → IsPlain s → p.json_string s ≡ quoted s)
      → OuterAccepted p signer
  unfolding valid_envelope_schema uuidv7_regex text_eq example_path_id derive_path_id
      compute_ciphertext_sha256
  outer_accepted len quotes = (
    nonempty_hex _ (len _),
    refl,
    path_id_regex-encode_raw _ (bytes _) (len _),
    (decoded example_ciphertext, dec, refl),
    canonical_lem quotes,
  )

-- The pair halves that the discovery document publishes are halves that the pair flow takes, the version
-- 2 and the version 1 one: they parse, with the key of the seed, and their signatures hold over bytes
-- that are the published preimage; the published path id is the one that the pair flow computes from
-- the two keys. The published outer envelope is the canonical JSON that PUT verifies of an envelope that
-- passes its schema, id and digest checks. Keys have 32 bytes, signatures 64 and digests 32, a signature
-- verifies under the key of its seed, and JSON quotes plain text as it is.
published_accepted :
    (p : Platform) (signer : Signer)
    → IsSound p signer
    → ((s : Text) → AreBytes (p.sha256 s))
    → ((s : Text) → length (p.sha256 s) ≡ 32)
    → ((s : Text) → IsPlain s → p.json_string s ≡ quoted s)
    → HalvesAccepted p signer × OuterAccepted p signer
published_accepted p signer sound bytes len quotes =
    (halves_accepted p signer sound, outer_accepted p signer bytes len quotes)
