-- ===== src/Formats.antt =====
-- The fixed-width identifiers: the three regular expressions of mailbox.go and pairflow.go. Each is
-- anchored and matches one byte class after another.
pub mod PathIds
use interchange.Base.{
  ℕ, Bool, true, false, ◌&&◌, ◌||◌, List, [], ◌∷◌, ◌++◌, map, Text, codes, leb, eqb, replicate,
}

abbrev pub Class : Type 0
Class = ℕ → Bool

abbrev pub between : ℕ → ℕ → Class
between lo hi c = leb lo c && leb c hi

-- [A-Za-z0-9_-]
abbrev pub is_b64url : Class
is_b64url c =
    between b'A' b'Z' c
    || (between b'a' b'z' c || (between b'0' b'9' c || (eqb c b'_' || eqb c b'-')))

-- [0-9a-f]
abbrev pub is_hex : Class
is_hex c = between b'0' b'9' c || between b'a' b'f' c

-- [89ab]
abbrev pub is_variant : Class
is_variant c = eqb c b'8' || (eqb c b'9' || (eqb c b'a' || eqb c b'b'))

abbrev pub literal : Text → List Class
literal s = map (λ c d. eqb d c) s

unfoldable pub matches : List Class → Text → Bool
matches [] [] = true
matches [] (c ∷ s) = false
matches (p ∷ ps) [] = false
matches (p ∷ ps) (c ∷ s) = p c && matches ps s

-- ^nxc_[A-Za-z0-9_-]{43}$
unfoldable pub path_id_regex : Text → Bool
path_id_regex s = matches (literal (codes "nxc_") ++ replicate 43 is_b64url) s

abbrev dash : List Class
dash = literal (codes "-")

-- ^[0-9a-f]{8}-[0-9a-f]{4}-7[0-9a-f]{3}-[89ab][0-9a-f]{3}-[0-9a-f]{12}$
unfoldable pub uuidv7_regex : Text → Bool
unfolding matches replicate
uuidv7_regex s =
    matches
      (replicate 8 is_hex
        ++ (dash
            ++ (replicate 4 is_hex
                ++ (dash
                    ++ (literal (codes "7")
                        ++ (replicate 3 is_hex
                            ++ (dash
                                ++ (is_variant
                                    ∷ (replicate 3 is_hex ++ (dash ++ replicate 12 is_hex))))))))))
      s

abbrev pub uuid_classes : List Class
uuid_classes =
    replicate 8 is_hex
    ++ (dash
        ++ (replicate 4 is_hex
            ++ (dash
                ++ (replicate 4 is_hex
                    ++ (dash ++ (replicate 4 is_hex ++ (dash ++ replicate 12 is_hex)))))))

-- ^[0-9a-f]{8}-[0-9a-f]{4}-[0-9a-f]{4}-[0-9a-f]{4}-[0-9a-f]{12}$
unfoldable pub uuid_regex : Text → Bool
unfolding matches replicate
uuid_regex s = matches uuid_classes s
