-- ===== src/Base64/RoundTrip.antt =====
-- What RawURLEncoding writes the padding decoder reads back.
use interchange.Base.{
  ℕ, suc, ◌+◌, ◌*◌, ◌/◌, ◌%◌, ◌<◌, ◌≡◌, refl, Bool, true, some, [], ◌∷◌, Text, eqb, length,
  replicate, arith, All, filter-All, All-append, All-replicate, Bool-cases, inl, inr,
}
use interchange.Base64.{
  digit, digit_value, encode_raw, decode_groups, decode_url, pad_url, decode_b64url, is_no_newline,
}

digit_value-digit : (d : ℕ) → d < 64 → digit_value (digit d) ≡ some d
digit_value-digit d h = ground arith

abbrev pub AreBytes : Text → Type 0
AreBytes s = All (λ c. c < 256) s

group3 :
    (a b c : ℕ) (rest : Text) (tail : Text)
    → a < 256
    → b < 256
    → c < 256
    → decode_groups rest ≡ some tail
    → decode_groups (
        digit (a / 4)
        ∷ digit (a % 4 * 16 + b / 16)
        ∷ digit (b % 16 * 4 + c / 64)
        ∷ digit (c % 64)
        ∷ rest)
      ≡ some (a ∷ b ∷ c ∷ tail)
unfolding decode_groups
group3 a b c rest tail ha hb hc h =
    rw
      (
        digit_value-digit (a / 4) (omega arith),
        digit_value-digit (a % 4 * 16 + b / 16) (omega arith),
        digit_value-digit (b % 16 * 4 + c / 64) (omega arith),
        digit_value-digit (c % 64) (omega arith),
        h,
      )
      (ground arith)

group2 :
    (a b : ℕ)
    → a < 256
    → b < 256
    → decode_groups (digit (a / 4) ∷ digit (a % 4 * 16 + b / 16) ∷ digit (b % 16 * 4) ∷ b'=' ∷ [])
      ≡ some (a ∷ b ∷ [])
unfolding decode_groups
group2 a b ha hb =
    rw
      (
        digit_value-digit (a / 4) (omega arith),
        digit_value-digit (a % 4 * 16 + b / 16) (omega arith),
        digit_value-digit (b % 16 * 4) (omega arith),
      )
      (ground arith)

group1 :
    (a : ℕ)
    → a < 256
    → decode_groups (digit (a / 4) ∷ digit (a % 4 * 16) ∷ b'=' ∷ b'=' ∷ []) ≡ some (a ∷ [])
unfolding decode_groups
group1 a ha =
    rw (digit_value-digit (a / 4) (omega arith), digit_value-digit (a % 4 * 16) (omega arith))
      (ground arith)

-- A whole group in front leaves the padding as it is.
pad_url-group : (w x y z : ℕ) (s : Text) → pad_url (w ∷ x ∷ y ∷ z ∷ s) ≡ w ∷ x ∷ y ∷ z ∷ pad_url s
pad_url-group w x y z s =
    let e : suc (suc (suc (suc (length s)))) % 4 ≡ length s % 4 = omega arith in ground (arith, e)

decode_groups-pad_url : (s : Text) → AreBytes s → decode_groups (pad_url (encode_raw s)) ≡ some s
unfolding encode_raw replicate
decode_groups-pad_url [] h = unfold decode_groups in refl
decode_groups-pad_url (a ∷ []) h = group1 a h.0
decode_groups-pad_url (a ∷ b ∷ []) h = group2 a b h.0 h.1.0
decode_groups-pad_url (a ∷ b ∷ c ∷ rest) h =
    rw pad_url-group (group3 a b c _ rest h.0 h.1.0 h.1.1.0 (decode_groups-pad_url rest h.1.1.1))

is_no_newline-digit : (d : ℕ) → d < 64 → is_no_newline (digit d) ≡ true
is_no_newline-digit d h = ground arith

-- What holds of every digit of the alphabet holds of all that is written.
pub encode_raw-All :
    (q : ℕ → Bool) (s : Text)
    → ((d : ℕ) → d < 64 → q (digit d) ≡ true)
    → AreBytes s
    → All (λ c. q c ≡ true) (encode_raw s)
unfolding encode_raw
encode_raw-All q [] h k = tt
encode_raw-All q (a ∷ []) h k =
    let ka = k.0 in (h (a / 4) (omega arith), (h (a % 4 * 16) (omega arith), tt))
encode_raw-All q (a ∷ b ∷ []) h k =
    let ka = k.0 in
    let kb = k.1.0 in
    (
      h (a / 4) (omega arith),
      (h (a % 4 * 16 + b / 16) (omega arith), (h (b % 16 * 4) (omega arith), tt)),
    )
encode_raw-All q (a ∷ b ∷ c ∷ rest) h k =
    let ka = k.0 in
    let kb = k.1.0 in
    let kc = k.1.1.0 in
    (
      h (a / 4) (omega arith),
      (
        h (a % 4 * 16 + b / 16) (omega arith),
        (
          h (b % 16 * 4 + c / 64) (omega arith),
          (h (c % 64) (omega arith), encode_raw-All q rest h k.1.1.1),
        ),
      ),
    )

pad_url-no_newline :
    (s : Text) → All (λ c. is_no_newline c ≡ true) s → All (λ c. is_no_newline c ≡ true) (pad_url s)
pad_url-no_newline s h = elim (Bool-cases (eqb (length s % 4) 0)) [
  | inl e ↦ rw e h
  | inr e ↦ rw e (All-append _ s _ h (All-replicate _ _ b'=' refl))
]

-- Whatever bytes are encoded, behind the padding helper the decoder returns them.
pub decode_b64url-encode_raw : (s : Text) → AreBytes s → decode_b64url (encode_raw s) ≡ some s
unfolding decode_b64url decode_url
decode_b64url-encode_raw s h =
    rw
      (filter-All is_no_newline (pad_url (encode_raw s))
        (pad_url-no_newline _ (encode_raw-All is_no_newline s is_no_newline-digit h)))
      (decode_groups-pad_url s h)
