-- ===== src/Base/Split.antt =====
-- Texts that are joined at a separator and split there again.
use Prim.Native.Nat.{ℕ}
use mathlib.Core.Path.{◌≡◌, refl, sym, ap, ◌∙◌}
use mathlib.Core.Logic.{◌≢◌}
use mathlib.Core.List.{List, [], ◌∷◌, ◌++◌}
use native.Mathlib.Omega.{arith}
use interchange.Base.Lists.{All, append_nil}
use interchange.Base.Strings.{Text, split_from, split_on, join_with}

-- A text without a byte.
abbrev pub Lacks : ℕ → Text → Type 0
Lacks sep s = All (λ c. c ≢ sep) s

pub append_assoc : (a b c : Text) → (a ++ b) ++ c ≡ a ++ (b ++ c)
append_assoc [] b c = refl
append_assoc (x ∷ a) b c = cc (append_assoc a b c)

module _ (sep : ℕ) where
  split_from-Lacks : (cur s : Text) → Lacks sep s → split_from sep cur s ≡ (cur ++ s) ∷ []
  unfolding split_from
  split_from-Lacks cur [] h = ap (λ t. t ∷ []) (sym (append_nil cur))
  split_from-Lacks cur (c ∷ s) h =
      ground (arith, split_from-Lacks (cur ++ c ∷ []) s h.1, append_assoc cur (c ∷ []) s)

  split_from-append :
      (cur s t : Text)
      → Lacks sep s
      → split_from sep cur (s ++ (sep ∷ t)) ≡ (cur ++ s) ∷ split_from sep [] t
  unfolding split_from
  split_from-append cur [] t h = ground (arith, append_nil cur)
  split_from-append cur (c ∷ s) t h =
      ground (arith, split_from-append (cur ++ c ∷ []) s t h.1, append_assoc cur (c ∷ []) s)

  -- What was joined splits into its parts.
  pub split_on-join_with :
      (x : Text) (xs : List Text)
      → All (Lacks sep) (x ∷ xs)
      → split_on sep (join_with sep (x ∷ xs)) ≡ x ∷ xs
  unfolding split_on join_with
  split_on-join_with x [] h = split_from-Lacks [] x h.0
  split_on-join_with x (y ∷ xs) h =
      split_from-append [] x (join_with sep (y ∷ xs)) h.0
      ∙ ap (λ t. x ∷ t) (split_on-join_with y xs h.1)
