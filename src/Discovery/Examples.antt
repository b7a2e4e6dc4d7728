-- ===== src/Discovery/Examples.antt =====
-- The published examples against the code that they are examples of.
use interchange.Base.{
  ℕ, ◌+◌, ◌⊎◌, if_rule, eqb_iff, ◌≡◌, refl, arith, true, false, some, [], ◌∷◌, ◌++◌, Text, is_empty,
  length, Bool-cases, inl, inr, if◌then◌else◌, eqb, text_eq,
}
use interchange.Platform.{Platform}
use interchange.Base64.{encode_raw, decode_b64url}
use interchange.Base64.RoundTrip.{AreBytes, decode_b64url-encode_raw}
use interchange.Halves.{
  Half, parsed, parse_half, parse_dh, verify_self_sig, canonical_bytes_v1, canonical_bytes_v2,
  compute_path_id, bytes_less,
}
use interchange.Halves.Signing.{verify_self_sig_iff}
use interchange.Discovery.{
  example_dh_pubkey, Signer, alice_seed, bob_seed, compare_bytes, less, equal, greater, in_order,
  decoded, derive_path_id, public_b64u, build_preimage_v1, build_preimage_v2, sign_preimage,
  example_half_v1, example_half_v2, example_path_id,
}

-- crypto/ed25519: keys of 32 bytes, signatures of 64 bytes, and a signature verifies under its key.
pub record IsSound (p : Platform) (signer : Signer) : Type 0 where
  pub public_bytes : (seed : Text) → AreBytes (signer.public seed)
  pub public_length : (seed : Text) → length (signer.public seed) ≡ 32
  pub sign_bytes : (seed m : Text) → AreBytes (signer.sign seed m)
  pub sign_length : (seed m : Text) → length (signer.sign seed m) ≡ 64
  pub verifies :
      (seed m : Text) → p.ed25519_verify (signer.public seed) m (signer.sign seed m) ≡ true

-- The outcome of the comparison, and the order the other way round.
compare_bytes_lem :
    (a b : Text)
    → ((compare_bytes a b ≡ less) × (bytes_less b a ≡ false))
      ⊎ ((compare_bytes a b ≡ equal) × (a ≡ b))
      ⊎ ((compare_bytes a b ≡ greater) × (bytes_less b a ≡ true))
unfolding compare_bytes bytes_less
compare_bytes_lem [] [] = inr (inl (refl, refl))
compare_bytes_lem [] (y ∷ t) = inl (refl, refl)
compare_bytes_lem (x ∷ s) [] = inr (inr (refl, refl))
compare_bytes_lem (x ∷ s) (y ∷ t) = elim (Bool-cases (eqb x y)) [
  | inr n ↦ ground arith
  | inl e ↦
      let same : x ≡ y = (eqb_iff x y).0 e in
      elim (compare_bytes_lem s t) [
        | inl (c, l) ↦ inl (ground (arith, c), ground (arith, l))
        | inr (inl (c, q)) ↦ inr (inl (ground (arith, c), cc (same, q)))
        | inr (inr (c, l)) ↦ inr (inr (ground (arith, c), ground (arith, l)))
      ]
]

in_order-bytes_less :
    (a b : Text) → in_order (compare_bytes a b) a b ≡ (if bytes_less b a then b ++ a else a ++ b)
in_order-bytes_less a b = elim (compare_bytes_lem a b) [
  | inl (c, l) ↦ rw (c, l) refl
  | inr (inl (c, same)) ↦ rw (c, same) (if_rule (λ z. b ++ b ≡ z) (bytes_less b b) _ _ refl refl)
  | inr (inr (c, l)) ↦ rw (c, l) refl
]

pub nonempty_encoding : (s : Text) (n : ℕ) → length s ≡ n + 1 → is_empty (encode_raw s) ≡ false
unfolding encode_raw
nonempty_encoding [] n h = absurd (omega arith)
nonempty_encoding (a ∷ []) n h = refl
nonempty_encoding (a ∷ b ∷ []) n h = refl
nonempty_encoding (a ∷ b ∷ c ∷ s) n h = refl

dh_decodes : decode_b64url example_dh_pubkey ≡ some (decoded example_dh_pubkey)
unfolding decode_b64url
dh_decodes = refl

-- A half with the key that parsing adds.
abbrev pub with_key : Half → Text → Half
with_key h key = record h { pubkey_raw = key }

-- The two published halves with their preimages, and the published path id.
abbrev pub HalvesAccepted : Platform → Signer → Type 0
HalvesAccepted p signer =
    ((parse_half (example_half_v2 signer)
        ≡ parsed (with_key (example_half_v2 signer) (signer.public alice_seed)))
      × (verify_self_sig p (with_key (example_half_v2 signer) (signer.public alice_seed)) ≡ true)
      × (canonical_bytes_v2 (example_half_v2 signer) ≡ build_preimage_v2 signer))
    × ((parse_half (example_half_v1 signer)
          ≡ parsed (with_key (example_half_v1 signer) (signer.public alice_seed)))
        × (verify_self_sig p (with_key (example_half_v1 signer) (signer.public alice_seed)) ≡ true)
        × (canonical_bytes_v1 (example_half_v1 signer) ≡ build_preimage_v1 signer))
    × (example_path_id signer p
        ≡ compute_path_id p (signer.public alice_seed) (signer.public bob_seed))

module _ (p : Platform) (signer : Signer) (sound : IsSound p signer) where
  abbrev alice : Text
  alice = signer.public alice_seed

  parsed_v2 : parse_half (example_half_v2 signer) ≡ parsed (with_key (example_half_v2 signer) alice)
  unfolding parse_half parse_dh example_half_v2 sign_preimage text_eq
  parsed_v2 =
      rw
        (
          nonempty_encoding alice 31 (sound.public_length alice_seed),
          nonempty_encoding _ 63 (sound.sign_length alice_seed (build_preimage_v2 signer)),
          decode_b64url-encode_raw alice (sound.public_bytes alice_seed),
          sound.public_length alice_seed,
          dh_decodes,
        )
        refl

  parsed_v1 : parse_half (example_half_v1 signer) ≡ parsed (with_key (example_half_v1 signer) alice)
  unfolding parse_half parse_dh example_half_v1 sign_preimage text_eq
  parsed_v1 =
      rw
        (
          nonempty_encoding alice 31 (sound.public_length alice_seed),
          nonempty_encoding _ 63 (sound.sign_length alice_seed (build_preimage_v1 signer)),
          decode_b64url-encode_raw alice (sound.public_bytes alice_seed),
          sound.public_length alice_seed,
        )
        refl

  signed_v2 : verify_self_sig p (with_key (example_half_v2 signer) alice) ≡ true
  unfolding example_half_v2 sign_preimage build_preimage_v2 canonical_bytes_v2
  signed_v2 = (verify_self_sig_iff p (with_key (example_half_v2 signer) alice)).1 (
    signer.sign alice_seed (build_preimage_v2 signer),
    decode_b64url-encode_raw _ (sound.sign_bytes alice_seed (build_preimage_v2 signer)),
    sound.sign_length alice_seed (build_preimage_v2 signer),
    sound.verifies alice_seed (build_preimage_v2 signer),
  )

  signed_v1 : verify_self_sig p (with_key (example_half_v1 signer) alice) ≡ true
  unfolding example_half_v1 sign_preimage build_preimage_v1 canonical_bytes_v1
  signed_v1 = (verify_self_sig_iff p (with_key (example_half_v1 signer) alice)).1 (
    signer.sign alice_seed (build_preimage_v1 signer),
    decode_b64url-encode_raw _ (sound.sign_bytes alice_seed (build_preimage_v1 signer)),
    sound.sign_length alice_seed (build_preimage_v1 signer),
    sound.verifies alice_seed (build_preimage_v1 signer),
  )

  decoded-public : (seed : Text) → decoded (public_b64u signer seed) ≡ signer.public seed
  decoded-public seed =
      rw (decode_b64url-encode_raw (signer.public seed) (sound.public_bytes seed), decoded) refl

  path_id_lem : example_path_id signer p ≡ compute_path_id p alice (signer.public bob_seed)
  unfolding example_path_id derive_path_id compute_path_id
  path_id_lem =
      rw
        (
          decoded-public alice_seed,
          decoded-public bob_seed,
          in_order-bytes_less alice (signer.public bob_seed),
        )
        refl

  pub halves_accepted : HalvesAccepted p signer
  unfolding example_half_v2 build_preimage_v2 canonical_bytes_v2 example_half_v1 build_preimage_v1
      canonical_bytes_v1
  halves_accepted = ((parsed_v2, signed_v2, refl), (parsed_v1, signed_v1, refl), path_id_lem)
