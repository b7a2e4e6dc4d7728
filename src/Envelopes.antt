-- ===== src/Envelopes.antt =====
-- internal/mailbox/mailbox.go: the outer envelope, who writes and reads in which direction, and the
-- bytes that a sender signs.
use interchange.Base.{
  ℕ, ◌+◌, ◌/◌, ◌%◌, Bool, not, ◌&&◌, Option, none, some, [], ◌∷◌, ◌++◌, String, Text, codes,
  is_empty, ltb, ◌==◌, if◌then◌else◌,
}
use interchange.Platform.{Platform}
use interchange.Storage.{Direction, a_to_b, b_to_a, Pair}

pub record OuterEnvelope : Type 0 where
  pub version : Text
  pub msg_id : Text
  pub ts : Text
  pub path_id : Text
  pub ciphertext_sha256 : Text
  pub ciphertext : Text

-- validEnvelopeSchema
unfoldable pub valid_envelope_schema : OuterEnvelope → Bool
valid_envelope_schema e =
    e.version == codes "1"
    && (not (is_empty e.msg_id)
        && (not (is_empty e.ts)
            && (not (is_empty e.path_id)
                && (not (is_empty e.ciphertext_sha256) && not (is_empty e.ciphertext)))))

-- directionFrom
unfoldable pub direction_from : Pair → Text → Option Direction
direction_from pair sender =
    if sender == pair.requester_pubkey
    then some a_to_b
    else if sender == pair.owner_pubkey
    then some b_to_a
    else none

-- readDirectionFor
unfoldable pub read_direction_for : Pair → Text → Option Direction
read_direction_for pair caller =
    if caller == pair.requester_pubkey
    then some b_to_a
    else if caller == pair.owner_pubkey
    then some a_to_b
    else none

abbrev pub hex_digit : ℕ → ℕ
hex_digit d = if ltb d 10 then 48 + d else 87 + d

-- hex.EncodeToString
unfoldable pub to_hex : Text → Text
to_hex [] = []
to_hex (c ∷ s) = hex_digit (c / 16) ∷ hex_digit (c % 16) ∷ to_hex s

-- One member of the object, with the comma or brace before it.
abbrev pub member : Platform → String → String → Text → Text → Text
member p before key value rest =
    codes before ++ (p.json_string (codes key) ++ (codes ":" ++ (p.json_string value ++ rest)))

-- canonicalJSON: the keys in alphabetical order, and no newline at the end.
unfoldable pub canonical_json : Platform → OuterEnvelope → Text
canonical_json p e = member p "{" "ciphertext" e.ciphertext (
    member p "," "ciphertext_sha256" e.ciphertext_sha256 (
      member p "," "msg_id" e.msg_id (
        member p "," "path_id" e.path_id
          (member p "," "ts" e.ts (member p "," "version" e.version (codes "}"))))))
