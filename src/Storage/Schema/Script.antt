-- ===== src/Storage/Schema/Script.antt =====
-- The statements of a script are what stands between the semicolons outside its comments.
use interchange.Base.{
  ◌≡◌, refl, arith, Bool, false, not, ◌&&◌, ◌||◌, Option, none, some, List, [], ◌∷◌, ◌++◌, Text,
  eqb, is_empty, filter, map, All, Lacks, join_with, split_on-join_with,
}
use interchange.Storage.Schema.{cut_comment, cleaned, split_statements}

-- A line: its code, and the comment behind it.
abbrev pub Line : Type 0
Line = Text × Option Text

abbrev pub written : Line → Text
written (code, none) = code
written (code, some comment) = code ++ (b'-' ∷ b'-' ∷ comment)

-- Whether two dashes stand side by side.
abbrev pub has_dashes : Text → Bool
has_dashes [] = false
has_dashes (a ∷ []) = false
has_dashes (a ∷ b ∷ s) = (eqb a b'-' && eqb b b'-') || has_dashes (b ∷ s)

-- The code of a line has no comment in it and does not end in a dash, and the line is one line.
abbrev pub IsLine : Line → Type 0
IsLine (code, comment) =
    (has_dashes (code ++ (b'-' ∷ [])) ≡ false) × Lacks b'\n' (written (code, comment))

unfoldable pub unlines : List Text → Text
unlines [] = []
unlines (line ∷ lines) = line ++ (b'\n' ∷ unlines lines)

cut_comment_of_code :
    (code : Text) → has_dashes (code ++ (b'-' ∷ [])) ≡ false → cut_comment code ≡ code
unfolding cut_comment
cut_comment_of_code [] h = refl
cut_comment_of_code (a ∷ []) h = refl
cut_comment_of_code (a ∷ b ∷ s) h = ground (arith, cut_comment_of_code (b ∷ s))

cut_comment_of_line :
    (code comment : Text)
    → has_dashes (code ++ (b'-' ∷ [])) ≡ false
    → cut_comment (code ++ (b'-' ∷ b'-' ∷ comment)) ≡ code
unfolding cut_comment
cut_comment_of_line [] comment h = refl
cut_comment_of_line (a ∷ []) comment h = ground arith
cut_comment_of_line (a ∷ b ∷ s) comment h = ground (arith, cut_comment_of_line (b ∷ s) comment)

cut_comment-written : (l : Line) → IsLine l → cut_comment (written l) ≡ l.0
cut_comment-written (code, none) h = cut_comment_of_code code h.0
cut_comment-written (code, some comment) h = cut_comment_of_line code comment h.0

cleaned-written :
    (lines : List Line)
    → All IsLine lines
    → cleaned (map written lines) ≡ unlines (map (λ l. l.0) lines)
unfolding cleaned unlines
cleaned-written [] h = refl
cleaned-written (l ∷ lines) h = rw (cut_comment-written l h.0, cleaned-written lines h.1) refl

written-Lacks : (lines : List Line) → All IsLine lines → All (Lacks b'\n') (map written lines)
written-Lacks [] h = tt
written-Lacks ((code, comment) ∷ lines) h = (h.0.1, written-Lacks lines h.1)

-- If what is left of the lines of a script without their comments is some pieces with semicolons
-- between them, then the statements are these pieces, trimmed, but for the empty ones: a semicolon in a
-- comment ends nothing.
pub split_statements-written :
    (trim : Text → Text) (line : Line) (lines : List Line) (piece : Text) (pieces : List Text)
    → All IsLine (line ∷ lines)
    → All (Lacks b';') (piece ∷ pieces)
    → unlines (map (λ l. l.0) (line ∷ lines)) ≡ join_with b';' (piece ∷ pieces)
    → split_statements trim (join_with b'\n' (map written (line ∷ lines)))
      ≡ filter (λ s. not (is_empty s)) (map trim (piece ∷ pieces))
unfolding split_statements
split_statements-written trim line lines piece pieces h k e =
    rw
      (
        split_on-join_with b'\n' (written line) (map written lines)
            (written-Lacks (line ∷ lines) h),
        cleaned-written (line ∷ lines) h,
        e,
        split_on-join_with b';' piece pieces k,
      )
      refl
