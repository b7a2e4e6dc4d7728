-- ===== src/Crypto.antt =====
-- internal/crypto/crypto.go: EdVerifier, the verifier that the relay installs.
pub mod Identity
use interchange.Base.{
  ℕ, none, some, List, [], ◌∷◌, Text, codes, is_empty, eqb, ◌==◌, length, if◌then◌else◌,
}
use interchange.Platform.{Platform}
use interchange.Storage.{Pair}
use interchange.Base64.{decode_b64url}

-- The result of Identify: an error, or a public key, which is empty when nobody signed.
pub data Identified : Type 0 where
  fault : Identified
  caller : Text → Identified

-- mailbox.Verifier, at a pair, the signature header and the signed message.
abbrev pub Verifier : Type 0
Verifier = Pair → Text → Text → Identified

-- mailbox.StubVerifier
unfoldable pub stub_verifier : Verifier
stub_verifier pair signature message = caller []

-- ed25519.SignatureSize and ed25519.PublicKeySize
abbrev pub signature_size : ℕ
signature_size = 64

abbrev pub public_key_size : ℕ
public_key_size = 32

module _ (p : Platform) (message sig : Text) where
  -- The loop over the halves of the pair.
  unfoldable pub try_halves : List Text → Identified
  try_halves [] = caller []
  try_halves (pubkey ∷ rest) =
      let next = try_halves rest in
      elim (decode_b64url pubkey) [
        | none ↦ fault
        | some bytes ↦
            if eqb (length bytes) public_key_size
            then (if p.ed25519_verify bytes message sig then caller pubkey else next)
            else fault
      ]

-- EdVerifier.Identify
unfoldable pub identify : Platform → Verifier
identify p pair signature message =
    if pair.sig_alg == codes "ed25519"
    then (if is_empty signature then caller [] else elim (decode_b64url signature) [
      | none ↦ caller []
      | some sig ↦
          if eqb (length sig) signature_size
          then try_halves p message sig (pair.requester_pubkey ∷ pair.owner_pubkey ∷ [])
          else caller []
    ])
    else fault
