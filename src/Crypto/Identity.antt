-- ===== src/Crypto/Identity.antt =====
-- What EdVerifier.Identify promises to the handlers.
use interchange.Base.{
  sym, subst, ◌≡◌, ◌≢◌, ◌⊎◌, inl, inr, arith, true, some, List, [], ◌∷◌, Text, codes, length,
  if◌then◌else◌, Bool-cases, Option-cases, text_eq_iff,
}
use interchange.Platform.{Platform}
use interchange.Storage.{Pair}
use interchange.Base64.{decode_b64url}
use interchange.Crypto.{caller, try_halves, identify, signature_size, public_key_size}

-- The key decodes to 32 bytes, and under it the signature holds for the message.
abbrev pub Signs : Platform → Text → Text → Text → Type 0
Signs p key message sig =
    (bytes : Text) × (decode_b64url key ≡ some bytes)
    × (length bytes ≡ public_key_size)
    × (p.ed25519_verify bytes message sig ≡ true)

module _ (p : Platform) (message sig : Text) where
  try_halves-cons :
      (key : Text) (rest : List Text) {found : Text}
      → try_halves p message sig (key ∷ rest) ≡ caller found
      → ((found ≡ key) × Signs p key message sig) ⊎ (try_halves p message sig rest ≡ caller found)
  unfolding try_halves
  try_halves-cons key rest {found} h = elim (Option-cases (decode_b64url key)) [
    | inl e ↦ ground arith
    | inr (bytes, e) ↦ elim (Bool-cases (p.ed25519_verify bytes message sig)) [
      | inl v ↦ inl (ground arith, (bytes, e, ground arith, v))
      | inr v ↦ inr (ground arith)
    ]
  ]

  try_halves_sound :
      (key other : Text) {found : Text}
      → try_halves p message sig (key ∷ other ∷ []) ≡ caller found
      → found ≢ []
      → ((found ≡ key) ⊎ (found ≡ other)) × Signs p found message sig
  try_halves_sound key other {found} h ne = elim (try_halves-cons key (other ∷ []) h) [
    | inl (e, s) ↦ (inl e, subst (λ k. Signs p k message sig) (sym e) s)
    | inr h' ↦ elim (try_halves-cons other [] h') [
      | inl (e, s) ↦ (inr e, subst (λ k. Signs p k message sig) (sym e) s)
      | inr h'' ↦ absurd (unfold try_halves in ground arith)
    ]
  ]

-- A caller that the verifier names is one half of an ed25519 pair, and its key signed the message.
pub identify_sound :
    (p : Platform) (pair : Pair) (signature message : Text) {key : Text}
    → identify p pair signature message ≡ caller key
    → key ≢ []
    → (pair.sig_alg ≡ codes "ed25519")
      × ((key ≡ pair.requester_pubkey) ⊎ (key ≡ pair.owner_pubkey))
      × ((sig : Text) × (decode_b64url signature ≡ some sig)
          × (length sig ≡ signature_size)
          × Signs p key message sig)
unfolding identify
identify_sound p pair signature message {key} h ne = elim (Option-cases (decode_b64url signature)) [
  | inl e ↦ ground (arith, text_eq_iff pair.sig_alg (codes "ed25519"))
  | inr (sig, e) ↦
      let run : try_halves p message sig (pair.requester_pubkey ∷ pair.owner_pubkey ∷ [])
          ≡ caller key =
        ground arith in
      let (side, s) =
        try_halves_sound p message sig pair.requester_pubkey pair.owner_pubkey run ne in
      (ground (arith, text_eq_iff pair.sig_alg (codes "ed25519")), side, (sig, e, ground arith, s))
]

-- On a well-formed ed25519 pair a decodable signature of 64 bytes names the requester if it fits the
-- requester's key, otherwise the owner if it fits the owner's, and otherwise nobody; never a fault.
pub identify_complete :
    (p : Platform) (pair : Pair) (signature message sig requester owner : Text)
    → pair.sig_alg ≡ codes "ed25519"
    → signature ≢ []
    → decode_b64url signature ≡ some sig
    → length sig ≡ signature_size
    → decode_b64url pair.requester_pubkey ≡ some requester
    → length requester ≡ public_key_size
    → decode_b64url pair.owner_pubkey ≡ some owner
    → length owner ≡ public_key_size
    → identify p pair signature message ≡ (
        if p.ed25519_verify requester message sig
        then caller pair.requester_pubkey
        else if p.ed25519_verify owner message sig
        then caller pair.owner_pubkey
        else caller [])
unfolding identify try_halves
identify_complete p pair signature message sig requester owner alg ne d l rd rl od ol =
    ground (arith, text_eq_iff pair.sig_alg (codes "ed25519"))
