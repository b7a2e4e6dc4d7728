-- ===== src/Tests/Published.antt =====
-- The published examples under a signer of constant keys and signatures, and the published limits.
use interchange.Base.{
  ◌+◌, ◌*◌, ◌≡◌, refl, Text, [], ◌∷◌, some, arith, ◌++◌, length, length-append, codes,
}
use interchange.Base64.RoundTrip.{AreBytes}
use interchange.Discovery.{Signer, replay_window_seconds, request_ttl_hours}
use interchange.Discovery.Limits.{limits_kept}
use interchange.Platform.{replay_window, second, minute}
use interchange.Handlers.{read_body, pass}
use interchange.Base64.{encode_raw}
use interchange.Mailbox.{put_limit}
use interchange.Submissions.{request_ttl}
use interchange.Envelopes.{OuterEnvelope, to_hex, canonical_json}
use interchange.Discovery.Examples.{IsSound}
use interchange.Discovery.Block.{build_examples}
use interchange.Discovery.Block.Taken.{BlockTaken, build_examples_accepted}
use interchange.Tests.{path_id, first_id, platform, digest, digest-AreBytes}

abbrev pub signer : Signer
signer = record { public = λ seed. digest; sign = λ seed m. digest ++ digest }

twice-AreBytes : AreBytes (digest ++ digest)
twice-AreBytes = ground arith

digests : (s : Text) → AreBytes (platform.sha256 s)
digests s = digest-AreBytes

signer-IsSound : IsSound platform signer
signer-IsSound = record {
  public_bytes = λ seed. digest-AreBytes;
  public_length = λ seed. refl;
  sign_bytes = λ seed m. twice-AreBytes;
  sign_length = λ seed m. refl;
  verifies = λ seed m. refl;
}

build_examples_accepted_example : BlockTaken platform (build_examples signer platform)
build_examples_accepted_example =
    build_examples_accepted platform signer signer-IsSound digests (λ s. refl) (λ s h. refl)

abbrev sealed_envelope : OuterEnvelope
unfolding to_hex
sealed_envelope = record {
  version = codes "1";
  msg_id = first_id;
  ts = codes "2026-04-30T00:00:00Z";
  path_id = path_id;
  ciphertext_sha256 = to_hex digest;
  ciphertext = encode_raw digest;
}

length-quoted : (s : Text) → length (platform.json_string s) ≡ 2 + length s
length-quoted s = omega (arith, length-append s (b'"' ∷ []))

limits_kept_example :
    (read_body put_limit (some (canonical_json platform sealed_envelope))
      ≡ pass (canonical_json platform sealed_envelope))
    × (replay_window ≡ replay_window_seconds * second)
    × (request_ttl ≡ request_ttl_hours * (60 * minute))
unfolding to_hex
limits_kept_example =
    limits_kept platform (λ s. omega (arith, length-quoted s)) (λ s. length-quoted (encode_raw s))
      sealed_envelope digest refl (omega arith) (omega arith)
