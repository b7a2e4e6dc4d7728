-- ===== src/Discovery/Limits.antt =====
-- The numbers of the discovery document against the limits of the mailbox and of the pair flow.
use interchange.Base.{
  ℕ, ◌+◌, ◌*◌, ◌≤◌, ◌≡◌, refl, some, ◌++◌, Text, String, codes, length, length-append, take_of_le,
  arith,
}
use interchange.Platform.{Platform, second, minute, replay_window}
use interchange.Base64.{encode_raw}
use interchange.Formats.PathIds.{length-encode_raw}
use interchange.Handlers.{read_body, pass}
use interchange.Envelopes.{OuterEnvelope, member, canonical_json}
use interchange.Mailbox.{put_limit}
use interchange.Submissions.{request_ttl}
use interchange.Discovery.{replay_window_seconds, body_max_bytes, request_ttl_hours}

-- encoding/json writes at most six bytes for a byte, between quotes.
abbrev pub IsShort : Platform → Type 0
IsShort p = (s : Text) → length (p.json_string s) ≤ 2 + 6 * length s

-- It writes each byte of the alphabet of base64url as itself.
abbrev pub IsVerbatim : Platform → Type 0
IsVerbatim p = (s : Text) → length (p.json_string (encode_raw s)) ≡ 2 + length (encode_raw s)

length-member :
    (p : Platform) (before key : String) (value rest : Text)
    → length (member p before key value rest)
      ≡ length (codes before)
        + (length (p.json_string (codes key)) + (1 + (length (p.json_string value) + length rest)))
length-member p before key value rest =
    rw
      (
        length-append (codes before)
            (p.json_string (codes key) ++ (codes ":" ++ (p.json_string value ++ rest))),
        length-append (p.json_string (codes key)) (codes ":" ++ (p.json_string value ++ rest)),
        length-append (p.json_string value) rest,
      )
      (omega arith)

member-short :
    (p : Platform)
    → IsShort p
    → (before key : String) (value rest : Text)
    → length (member p before key value rest)
      ≤ length (codes before) + (6 * length (codes key) + (6 * length value + (length rest + 5)))
member-short p short before key value rest =
    omega (arith, length-member p before key value rest, short (codes key), short value)

-- The bytes of an envelope besides its ciphertext.
abbrev pub overhead : OuterEnvelope → ℕ
overhead e =
    length e.ciphertext_sha256
    + (length e.msg_id + (length e.path_id + (length e.ts + length e.version)))

length-canonical_json :
    (p : Platform)
    → IsShort p
    → (e : OuterEnvelope)
    → length (canonical_json p e) ≤ length (p.json_string e.ciphertext) + (6 * overhead e + 400)
unfolding canonical_json
length-canonical_json p short e =
    let end : Text = codes "}" in
    let from_version : Text = member p "," "version" e.version end in
    let from_ts : Text = member p "," "ts" e.ts from_version in
    let from_path_id : Text = member p "," "path_id" e.path_id from_ts in
    let from_msg_id : Text = member p "," "msg_id" e.msg_id from_path_id in
    omega (
      arith,
      short (codes "ciphertext"),
      length-member p "{" "ciphertext" e.ciphertext
          (member p "," "ciphertext_sha256" e.ciphertext_sha256 from_msg_id),
      member-short p short "," "ciphertext_sha256" e.ciphertext_sha256 from_msg_id,
      member-short p short "," "msg_id" e.msg_id from_path_id,
      member-short p short "," "path_id" e.path_id from_ts,
      member-short p short "," "ts" e.ts from_version,
      member-short p short "," "version" e.version end,
    )

-- Where JSON writes at most six bytes for a byte and base64url as it is, the numbers of the document
-- are those of the code: the window of timestamps and the life of a request are the advertised ones,
-- and PUT reads an envelope to its end if its sealed text has at most 256 KiB more than the advertised
-- body and its other members have at most 8 KiB in all.
pub limits_kept :
    (p : Platform)
    → IsShort p
    → IsVerbatim p
    → (e : OuterEnvelope) (sealed : Text) → e.ciphertext ≡ encode_raw sealed
    → length sealed ≤ body_max_bytes + 262144
    → overhead e ≤ 8192
    → (read_body put_limit (some (canonical_json p e)) ≡ pass (canonical_json p e))
      × (replay_window ≡ replay_window_seconds * second)
      × (request_ttl ≡ request_ttl_hours * (60 * minute))
limits_kept p short verbatim e sealed is_sealed fits small =
    let a = length-canonical_json p short e in
    let b = length-encode_raw sealed in
    let c : length (p.json_string e.ciphertext) ≡ 2 + length (encode_raw sealed) =
      rw is_sealed (verbatim sealed) in
    (rw (take_of_le put_limit (canonical_json p e) (omega (arith, a, b, c))) refl, refl, refl)
