-- ===== src/Entry/Metadata.antt =====
-- The annotator of newGRPCMux: the identity of the request's context as metadata of the call.
use interchange.Base.{
  ◌≡◌, All, false, not, Option, none, some, List, [], ◌∷◌, Text, codes, text_eq, is_empty, ◌==◌,
  contains, contains-false, join_with, if◌then◌else◌, Bool-cases, inl, inr,
}
use interchange.Edge.{Identity, Metadata, IsLawful, cwb_meta_keys, set_if}
use interchange.Entry.{is_none}
use interchange.Edge.Carried.{Carries, values-set_if}

-- The function that newGRPCMux gives to WithMetadata; no identity is no metadata.
unfoldable pub annotate : (S : Metadata) → Option Identity → S.Md
annotate S none = S.empty
annotate S (some id) =
    set_if S (not (is_empty id.responsible_human))
      (set_if S (not (is_none id.products))
        (set_if S (not (is_none id.scopes))
          (S.set (S.set (S.set S.empty (codes "cwb-org") id.org) (codes "cwb-subject") id.subject)
            (codes "cwb-kind") id.kind)
          (codes "cwb-scopes") (join_with b' ' id.scopes))
        (codes "cwb-products") (join_with b' ' id.products))
      (codes "cwb-responsible-human") id.responsible_human

-- One value with all of them, none where there are none.
abbrev pub joined_some : List Text → List Text
joined_some xs = if not (is_none xs) then join_with b' ' xs ∷ [] else []

module _ (S : Metadata) (law : IsLawful S) where
  open law use {values-empty, values-set}

  annotate_other :
      (id : Identity) (k : Text)
      → All (λ j. (j == k) ≡ false) cwb_meta_keys
      → S.values (annotate S (some id)) k ≡ []
  unfolding annotate
  annotate_other id k (org, (subject, (kind, (scopes, (products, (human, done)))))) =
      simp
        (values-set_if S law, values-set, values-empty, org, subject, kind, scopes, products, human)

  -- The metadata that a pillar's mux adds to its calls carries the identity of the context and nothing
  -- else: the key of scopes and that of products have a value only where the identity has some.
  pub annotate-Carries :
      (id : Identity) → Carries joined_some id (λ k. S.values (annotate S (some id)) k)
  unfolding annotate text_eq
  annotate-Carries id = (
    simp (values-set_if S law, values-set),
    simp (values-set_if S law, values-set),
    simp (values-set_if S law, values-set),
    simp (values-set_if S law, values-set, values-empty),
    simp (values-set_if S law, values-set, values-empty),
    simp (values-set_if S law, values-set, values-empty),
    λ k. elim (Bool-cases (contains (λ j. j == k) cwb_meta_keys)) [
      | inl e ↦ inl e
      | inr e ↦ inr (annotate_other id k (contains-false (λ j. j == k) cwb_meta_keys e))
    ],
  )
