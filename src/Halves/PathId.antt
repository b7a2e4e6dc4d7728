-- ===== src/Halves/PathId.antt =====
-- computePathID: the order of the two keys.
use interchange.Base.{
  inl, inr, ◌≡◌, refl, arith, true, Text, [], ◌∷◌, length, text_lt, text_lt_asymm, text_lt_total,
  Bool-cases,
}
use interchange.Platform.{Platform}
use interchange.Formats.{path_id_regex}
use interchange.Formats.PathIds.{path_id_regex-encode_raw}
use interchange.Base64.RoundTrip.{AreBytes}
use interchange.Halves.{bytes_less, compute_path_id}

-- bytesLess is the order of texts that the tables use.
bytes_less-text_lt : (a b : Text) → bytes_less a b ≡ text_lt a b
unfolding bytes_less text_lt
bytes_less-text_lt [] [] = refl
bytes_less-text_lt [] (y ∷ t) = refl
bytes_less-text_lt (x ∷ s) [] = refl
bytes_less-text_lt (x ∷ s) (y ∷ t) = ground (arith, bytes_less-text_lt s t)

-- The two keys give one path id whichever side is the requester, and under a digest of 32 bytes that id
-- has the format that the mailbox routes require.
pub compute_path_id_lem :
    (p : Platform)
    → ((s : Text) → AreBytes (p.sha256 s))
    → ((s : Text) → length (p.sha256 s) ≡ 32)
    → (a b : Text)
    → (compute_path_id p a b ≡ compute_path_id p b a)
      × (path_id_regex (compute_path_id p a b) ≡ true)
unfolding compute_path_id
compute_path_id_lem p bytes len a b = (
  elim (Bool-cases (text_lt a b)) [
    | inl e ↦ rw (bytes_less-text_lt a b, bytes_less-text_lt b a, e, text_lt_asymm a b e) refl
    | inr e ↦ elim (Bool-cases (text_lt b a)) [
      | inl f ↦ rw (bytes_less-text_lt a b, bytes_less-text_lt b a, e, f) refl
      | inr f ↦ rw (text_lt_total a b e f) refl
    ]
  ],
  path_id_regex-encode_raw _ (bytes _) (len _),
)
