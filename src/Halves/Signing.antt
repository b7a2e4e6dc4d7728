-- ===== src/Halves/Signing.antt =====
-- The bytes under a self-signature, and what parseHalf lets through.
use interchange.Base.{
  ◌∙◌, sym, ℕ, ◌≡◌, ◌≢◌, ◌≤◌, ◌↔◌, inl, inr, refl, ap, arith, true, false, some, List, [], ◌∷◌,
  ◌++◌, Text, codes, is_empty, eqb, length, join_with, contains, Option-cases, text_eq_iff, All,
  if◌then◌else◌,
}
use interchange.Platform.{Platform}
use interchange.Base64.{decode_b64url}
use interchange.Crypto.{signature_size, public_key_size}
use interchange.Halves.{
  Half, parsed, is_missing_fields, parse_dh, parse_half, newline, fields_v2, canonical_bytes_v1,
  canonical_bytes_v2, verify_self_sig,
}

abbrev pub HasNoNewline : Text → Type 0
HasNoNewline s = contains (λ c. eqb c newline) s ≡ false

-- A text without the separator ends where the first separator stands.
append_sep_injective :
    (a b s t : Text)
    → HasNoNewline a
    → HasNoNewline b
    → a ++ (newline ∷ s) ≡ b ++ (newline ∷ t)
    → (a ≡ b) × (s ≡ t)
unfolding contains
append_sep_injective [] [] s t h k e = (refl, cc e)
append_sep_injective [] (y ∷ b) s t h k e = absurd (ground arith)
append_sep_injective (x ∷ a) [] s t h k e = absurd (ground arith)
append_sep_injective (x ∷ a) (y ∷ b) s t h k e =
    let (p, q) = append_sep_injective a b s t (ground arith) (ground arith) (cc e) in (cc (e, p), q)

join_with_injective :
    (xs ys : List Text)
    → length xs ≡ length ys
    → All HasNoNewline xs
    → All HasNoNewline ys
    → join_with newline xs ≡ join_with newline ys
    → xs ≡ ys
unfolding join_with
join_with_injective [] [] n h k e = refl
join_with_injective [] (y ∷ ys) n h k e = absurd (ground arith)
join_with_injective (x ∷ xs) [] n h k e = absurd (ground arith)
join_with_injective (x ∷ []) (y ∷ []) n h k e = cc e
join_with_injective (x ∷ []) (y ∷ z ∷ ys) n h k e = absurd (ground arith)
join_with_injective (x ∷ z ∷ xs) (y ∷ []) n h k e = absurd (ground arith)
join_with_injective (x ∷ u ∷ xs) (y ∷ v ∷ ys) n h k e =
    let (p, q) = append_sep_injective x y _ _ h.0 k.0 e in
    cc (p, join_with_injective (u ∷ xs) (v ∷ ys) (ground arith) h.1 k.1 q)

second_injective : (a b c d : ℕ) (s t : Text) → a ∷ b ∷ s ≡ c ∷ d ∷ t → b ≡ d
second_injective a b c d s t e = cc e

-- No text is signed under both versions.
versions_apart : (h k : Half) → canonical_bytes_v1 h ≢ canonical_bytes_v2 k
unfolding canonical_bytes_v1 canonical_bytes_v2 join_with
versions_apart h k e =
    let digits : b'1' ≡ b'2' = second_injective b'v' b'1' b'v' b'2' _ _ e in absurd (ground arith)

-- Two halves without newlines in their signed members that sign the same version 2 bytes agree in each
-- of these members, and no version 1 bytes are the version 2 bytes of a half.
pub canonical_bytes_v2_lem :
    (h k : Half)
    → All HasNoNewline (fields_v2 h)
    → All HasNoNewline (fields_v2 k)
    → canonical_bytes_v2 h ≡ canonical_bytes_v2 k
    → (fields_v2 h ≡ fields_v2 k) × (canonical_bytes_v1 h ≢ canonical_bytes_v2 k)
unfolding canonical_bytes_v2
canonical_bytes_v2_lem h k m n e =
    (join_with_injective (fields_v2 h) (fields_v2 k) refl m n e, versions_apart h k)

-- What parseHalf requires of a submission, and what it returns.
pub record Acceptable (sent half : Half) : Type 0 where
  pub filled : is_missing_fields sent ≡ false
  pub name_fits : length sent.nexus_id ≤ 256
  pub endpoint_fits : length sent.endpoint ≤ 1024
  pub algorithm : sent.sig_alg ≡ codes "ed25519"
  pub key : decode_b64url sent.pubkey ≡ some half.pubkey_raw
  pub key_fits : length half.pubkey_raw ≡ public_key_size
  pub ecdh : is_empty sent.dh_alg ≡ is_empty sent.dh_pubkey
  pub ecdh_fits : (length sent.dh_alg ≤ 32) × (length sent.dh_pubkey ≤ 256)
  pub returned : half ≡ record sent { pubkey_raw = half.pubkey_raw }

is_empty-length : (s : Text) → is_empty s ≡ true → length s ≡ 0
is_empty-length [] h = refl
is_empty-length (c ∷ s) h = cc

parse_dh_sound :
    (h half : Half)
    → parse_dh h ≡ parsed half
    → (half ≡ h)
      × (is_empty h.dh_alg ≡ is_empty h.dh_pubkey)
      × (length h.dh_alg ≤ 32)
      × (length h.dh_pubkey ≤ 256)
unfolding parse_dh
parse_dh_sound h half e = elim (Option-cases (decode_b64url h.dh_pubkey)) [
  | inl d ↦ ground (arith, is_empty-length h.dh_alg, is_empty-length h.dh_pubkey)
  | inr (bytes, d) ↦ ground (arith, is_empty-length h.dh_alg, is_empty-length h.dh_pubkey)
]

-- A half that parseHalf lets through has every required member, within its limits, the one algorithm,
-- a key of 32 bytes, both members of the ECDH key or neither, and it is returned as it was sent beside
-- the decoded key.
pub parse_half_sound : (sent half : Half) → parse_half sent ≡ parsed half → Acceptable sent half
unfolding parse_half
parse_half_sound sent half e = elim (Option-cases (decode_b64url sent.pubkey)) [
  | inl d ↦ absurd (ground arith)
  | inr (bytes, d) ↦
      let dh : parse_dh (record sent { pubkey_raw = bytes }) ≡ parsed half = ground arith in
      let (same, both, alg, key) = parse_dh_sound _ half dh in
      let raw : half.pubkey_raw ≡ bytes = ap (λ h. h.pubkey_raw) same in
      record {
        filled = ground arith;
        name_fits = ground arith;
        endpoint_fits = ground arith;
        algorithm = (text_eq_iff _ _).0 (ground arith);
        key = rw raw d;
        key_fits = ground arith;
        ecdh = both;
        ecdh_fits = (alg, key);
        returned = same ∙ ap (λ b. record sent { pubkey_raw = b }) (sym raw);
      }
]

-- The signature of a half, at the bytes of version 2 if it names an ECDH key, of version 1 if not.
abbrev pub SelfSigned : Platform → Half → Type 0
SelfSigned p h =
    (sig : Text) × (decode_b64url h.self_sig ≡ some sig)
    × (length sig ≡ signature_size)
    × (p.ed25519_verify h.pubkey_raw
          (if is_empty h.dh_pubkey then canonical_bytes_v1 h else canonical_bytes_v2 h) sig
        ≡ true)

-- A self-signature passes exactly if it decodes to 64 bytes and holds under the half's own key, for the
-- version 2 bytes when the half names an ECDH key and for the version 1 bytes otherwise.
pub verify_self_sig_iff : (p : Platform) (h : Half) → (verify_self_sig p h ≡ true) ↔ SelfSigned p h
unfolding verify_self_sig
verify_self_sig_iff p h = (
  λ e. elim (Option-cases (decode_b64url h.self_sig)) [
    | inl d ↦ absurd (ground arith)
    | inr (sig, d) ↦ (sig, d, ground arith, ground arith)
  ],
  λ (sig, d, len, v). ground arith,
)
