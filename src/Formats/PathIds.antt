-- ===== src/Formats/PathIds.antt =====
-- The path ids that pairing mints have the form that the mailbox accepts.
use interchange.Base.{
  ℕ, zero, suc, ◌+◌, ◌*◌, ◌/◌, ◌<◌, ◌≡◌, refl, true, [], ◌∷◌, ◌++◌, Text, codes, length, replicate,
  All, arith, List, false, contains, Lacks,
}
use interchange.Base64.{digit, encode_raw}
use interchange.Base64.RoundTrip.{AreBytes, encode_raw-All}
use interchange.Formats.{Class, is_b64url, matches, path_id_regex, uuid_regex, uuid_classes}

matches-replicate :
    (p : Class) (n : ℕ) (s : Text)
    → length s ≡ n
    → All (λ c. p c ≡ true) s
    → matches (replicate n p) s ≡ true
unfolding matches replicate
matches-replicate p zero [] e h = refl
matches-replicate p zero (c ∷ s) e h = absurd (omega arith)
matches-replicate p (suc n) [] e h = absurd (omega arith)
matches-replicate p (suc n) (c ∷ s) e h = ground (arith, matches-replicate p n s (omega arith) h.1)

is_b64url-digit : (d : ℕ) → d < 64 → is_b64url (digit d) ≡ true
is_b64url-digit d h = ground arith

-- Three bytes make four characters; what is left over makes one more than it has bytes.
pub length-encode_raw : (s : Text) → length (encode_raw s) ≡ (length s * 4 + 2) / 3
unfolding encode_raw
length-encode_raw [] = omega arith
length-encode_raw (a ∷ []) = omega arith
length-encode_raw (a ∷ b ∷ []) = omega arith
length-encode_raw (a ∷ b ∷ c ∷ rest) = omega (arith, length-encode_raw rest)

-- Any 32-byte digest gives a path id that the path-id pattern accepts.
pub path_id_regex-encode_raw :
    (digest : Text)
    → AreBytes digest
    → length digest ≡ 32
    → path_id_regex (codes "nxc_" ++ encode_raw digest) ≡ true
unfolding path_id_regex matches
path_id_regex-encode_raw digest h e =
    matches-replicate is_b64url 43 (encode_raw digest) (omega (arith, length-encode_raw digest))
      (encode_raw-All is_b64url digest is_b64url-digit h)

-- A text that matches classes of which none has a byte does not have it either.
pub matches-Lacks :
    (sep : ℕ) (ps : List Class) (s : Text)
    → contains (λ p. p sep) ps ≡ false
    → matches ps s ≡ true
    → Lacks sep s
unfolding matches contains
matches-Lacks sep [] [] none_has h = tt
matches-Lacks sep [] (c ∷ s) none_has h = absurd (cc h)
matches-Lacks sep (p ∷ ps) [] none_has h = tt
matches-Lacks sep (p ∷ ps) (c ∷ s) none_has h =
    let rest : contains (λ p. p sep) ps ≡ false = ground arith in
    let here : p sep ≡ false = ground arith in
    let holds : p c ≡ true = ground arith in
    (λ e. absurd (cc (here, rw e at holds)), matches-Lacks sep ps s rest (ground arith))

-- The identifiers in a path have no slash.
pub path_id-Lacks : (s : Text) → path_id_regex s ≡ true → Lacks b'/' s
unfolding path_id_regex replicate contains
path_id-Lacks s h = matches-Lacks b'/' _ s refl h

pub uuid-Lacks : (s : Text) → uuid_regex s ≡ true → Lacks b'/' s
unfolding uuid_regex replicate contains
uuid-Lacks s h = matches-Lacks b'/' uuid_classes s refl h
