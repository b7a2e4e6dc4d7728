-- ===== src/Base64.antt =====
-- encoding/base64 as the program uses it: RawURLEncoding to write path ids, and URLEncoding behind
-- the padding helper that mailbox, crypto and pairflow each declare.
pub mod RoundTrip
use interchange.Base.{
  ℕ, ◌+◌, ◌-◌, ◌*◌, ◌/◌, ◌%◌, Bool, true, false, not, ◌&&◌, Option, none, some, [], ◌∷◌, ◌++◌, Text,
  leb, ltb, eqb, length, filter, replicate, if◌then◌else◌,
}

-- The byte of a 6-bit digit.
abbrev pub digit : ℕ → ℕ
digit d =
    if ltb d 26
    then 65 + d
    else if ltb d 52
    then 71 + d
    else if ltb d 62
    then d - 4
    else if eqb d 62
    then b'-'
    else b'_'

-- The digit of a byte of the alphabet.
abbrev pub digit_value : ℕ → Option ℕ
digit_value c =
    if leb 65 c && leb c 90
    then some (c - 65)
    else if leb 97 c && leb c 122
    then some (c - 71)
    else if leb 48 c && leb c 57
    then some (c + 4)
    else if eqb c b'-'
    then some 62
    else if eqb c b'_'
    then some 63
    else none

-- base64.RawURLEncoding.EncodeToString
unfoldable pub encode_raw : Text → Text
encode_raw [] = []
encode_raw (a ∷ []) = digit (a / 4) ∷ digit (a % 4 * 16) ∷ []
encode_raw (a ∷ b ∷ []) = digit (a / 4) ∷ digit (a % 4 * 16 + b / 16) ∷ digit (b % 16 * 4) ∷ []
encode_raw (a ∷ b ∷ c ∷ rest) =
    digit (a / 4)
    ∷ digit (a % 4 * 16 + b / 16)
    ∷ digit (b % 16 * 4 + c / 64)
    ∷ digit (c % 64)
    ∷ encode_raw rest

abbrev pub is_last : Text → Bool
is_last [] = true
is_last (c ∷ s) = false

-- One group of four bytes, with the decoding of what follows it.
abbrev pub quantum :
    Option ℕ → Option ℕ → Option ℕ → Option ℕ → ℕ → ℕ → Text → Option Text → Option Text
quantum (some x) (some y) (some z) (some w) c d rest none = none
quantum (some x) (some y) (some z) (some w) c d rest (some tail) =
    some ((x * 4 + y / 16) ∷ (y % 16 * 16 + z / 4) ∷ (z % 4 * 64 + w) ∷ tail)
quantum (some x) (some y) (some z) none c d rest tail =
    if eqb d b'=' && is_last rest
    then some ((x * 4 + y / 16) ∷ (y % 16 * 16 + z / 4) ∷ [])
    else none
quantum (some x) (some y) none w c d rest tail =
    if eqb c b'=' && (eqb d b'=' && is_last rest) then some ((x * 4 + y / 16) ∷ []) else none
quantum (some x) none z w c d rest tail = none
quantum none y z w c d rest tail = none

unfoldable pub decode_groups : Text → Option Text
decode_groups [] = some []
decode_groups (a ∷ []) = none
decode_groups (a ∷ b ∷ []) = none
decode_groups (a ∷ b ∷ c ∷ []) = none
decode_groups (a ∷ b ∷ c ∷ d ∷ rest) =
    quantum (digit_value a) (digit_value b) (digit_value c) (digit_value d) c d rest
      (decode_groups rest)

abbrev pub is_no_newline : ℕ → Bool
is_no_newline c = not (eqb c 10) && not (eqb c 13)

-- base64.URLEncoding.DecodeString, which skips line ends wherever they stand.
unfoldable pub decode_url : Text → Option Text
decode_url s = decode_groups (filter is_no_newline s)

-- s + strings.Repeat("=", 4 - pad), where pad = len(s) % 4 is not 0
abbrev pub pad_url : Text → Text
pad_url s = if eqb (length s % 4) 0 then s else s ++ replicate (4 - length s % 4) b'='

unfoldable pub decode_b64url : Text → Option Text
unfolding decode_groups decode_url replicate filter
decode_b64url s = decode_url (pad_url s)
