-- ===== src/Halves.antt =====
-- internal/pairflow/pairflow.go: the half of a pair that one side submits, its checks, the bytes that
-- its owner signs, and the path id of two keys.
pub mod Signing
pub mod PathId
use interchange.Base.{
  ℕ, Bool, true, false, not, ◌&&◌, ◌||◌, none, some, List, [], ◌∷◌, ◌++◌, String, Text, codes,
  is_empty, ltb, eqb, ◌==◌, length, join_with, if◌then◌else◌,
}
use interchange.Platform.{Platform}
use interchange.Base64.{encode_raw, decode_b64url}
use interchange.Crypto.{signature_size, public_key_size}

-- The pubkey_raw of a half that a parser returns is empty.
pub record Half : Type 0 where
  pub nexus_id : Text
  pub sig_alg : Text
  pub pubkey : Text
  pub dh_alg : Text
  pub dh_pubkey : Text
  pub endpoint : Text
  pub nonce : Text
  pub ts : Text
  pub self_sig : Text
  pub pubkey_raw : Text

-- A half that passed, or an error code.
pub data Parsed : Type 0 where
  parsed : Half → Parsed
  bad : String → Parsed

abbrev pub is_missing_fields : Half → Bool
is_missing_fields h =
    is_empty h.nexus_id
    || (is_empty h.sig_alg
        || (is_empty h.pubkey || (is_empty h.nonce || (is_empty h.ts || is_empty h.self_sig))))

-- The shape of the ECDH key, where there is one.
unfoldable pub parse_dh : Half → Parsed
parse_dh h =
    if is_empty h.dh_alg && is_empty h.dh_pubkey
    then parsed h
    else if is_empty h.dh_alg || is_empty h.dh_pubkey
    then bad "dh_alg_or_dh_pubkey_missing"
    else if ltb 32 (length h.dh_alg)
    then bad "dh_alg_too_long"
    else if ltb 256 (length h.dh_pubkey)
    then bad "dh_pubkey_too_long"
    else elim (decode_b64url h.dh_pubkey) [
      | none ↦ bad "dh_pubkey_not_base64url"
      | some bytes ↦ parsed h
    ]

-- parseHalf
unfoldable pub parse_half : Half → Parsed
parse_half h =
    if is_missing_fields h
    then bad "missing_fields"
    else if ltb 256 (length h.nexus_id)
    then bad "nexus_id_too_long"
    else if ltb 1024 (length h.endpoint)
    then bad "endpoint_too_long"
    else if not (h.sig_alg == codes "ed25519")
    then bad "unsupported_sig_alg"
    else elim (decode_b64url h.pubkey) [
      | none ↦ bad "pubkey_not_base64url"
      | some bytes ↦
          if eqb (length bytes) public_key_size
          then parse_dh (record h { pubkey_raw = bytes })
          else bad "pubkey_length"
    ]

abbrev pub newline : ℕ
newline = 10

abbrev pub fields_v1 : Half → List Text
fields_v1 h = codes "v1" ∷ h.nexus_id ∷ h.sig_alg ∷ h.pubkey ∷ h.endpoint ∷ h.nonce ∷ h.ts ∷ []

abbrev pub fields_v2 : Half → List Text
fields_v2 h =
    codes "v2"
    ∷ h.nexus_id
    ∷ h.sig_alg
    ∷ h.pubkey
    ∷ h.dh_alg
    ∷ h.dh_pubkey
    ∷ h.endpoint
    ∷ h.nonce
    ∷ h.ts
    ∷ []

-- canonicalBytesV1
unfoldable pub canonical_bytes_v1 : Half → Text
canonical_bytes_v1 h = join_with newline (fields_v1 h)

-- canonicalBytesV2
unfoldable pub canonical_bytes_v2 : Half → Text
canonical_bytes_v2 h = join_with newline (fields_v2 h)

-- verifySelfSig
unfoldable pub verify_self_sig : Platform → Half → Bool
verify_self_sig p h = elim (decode_b64url h.self_sig) [
  | none ↦ false
  | some sig ↦
      if not (eqb (length sig) signature_size)
      then false
      else if not (is_empty h.dh_pubkey)
      then p.ed25519_verify h.pubkey_raw (canonical_bytes_v2 h) sig
      else p.ed25519_verify h.pubkey_raw (canonical_bytes_v1 h) sig
]

-- bytesLess: the loop to the shorter length, then the lengths.
unfoldable pub bytes_less : Text → Text → Bool
bytes_less [] [] = false
bytes_less [] (b ∷ t) = true
bytes_less (a ∷ s) [] = false
bytes_less (a ∷ s) (b ∷ t) = let rest = bytes_less s t in if eqb a b then rest else ltb a b

-- computePathID
unfoldable pub compute_path_id : Platform → Text → Text → Text
compute_path_id p a b =
    codes "nxc_" ++ encode_raw (p.sha256 (if bytes_less b a then b ++ a else a ++ b))

-- A member that is left out when it is empty.
abbrev pub optional_member : String → Text → List (String × Text)
optional_member key value = if is_empty value then [] else (key, value) ∷ []

-- halfToWire
unfoldable pub half_to_wire : Half → List (String × Text)
half_to_wire h =
    ("nexus_id", h.nexus_id)
    ∷ ("sig_alg", h.sig_alg)
    ∷ ("pubkey", h.pubkey)
    ∷ ("endpoint", h.endpoint)
    ∷ ("nonce", h.nonce)
    ∷ ("ts", h.ts)
    ∷ ("self_sig", h.self_sig)
    ∷ (optional_member "dh_alg" h.dh_alg ++ optional_member "dh_pubkey" h.dh_pubkey)

-- What a stored half keeps: every member but pubkey_raw.
unfoldable pub wire_form : Half → Half
wire_form h = record h { pubkey_raw = [] }
