-- ===== src/Edge/Carried.antt =====
-- What the metadata of the edge says about a caller, key by key.
use interchange.Base.{
  ◌≡◌, refl, arith, Bool, true, false, List, [], ◌∷◌, Text, codes, text_eq, is_empty, ◌==◌,
  contains, join_with, if◌then◌else◌, Bool-cases, inl, inr, ◌⊎◌, not, All, contains-false,
}
use interchange.Edge.{
  Identity, Metadata, IsLawful, cwb_meta_keys, strip_client_metadata, outgoing_context, delete_all,
  set_if,
}

-- A text that is left out where it is empty.
abbrev pub unless_empty : Text → List Text
unless_empty s = if not (is_empty s) then s ∷ [] else []

-- The identity under its six keys, each with one value and the responsible human only where there is
-- one, with what scopes and products become; nothing under any other key.
abbrev pub Carries : (List Text → List Text) → Identity → (Text → List Text) → Type 0
Carries listed id values =
    (values (codes "cwb-org") ≡ id.org ∷ [])
    × (values (codes "cwb-subject") ≡ id.subject ∷ [])
    × (values (codes "cwb-kind") ≡ id.kind ∷ [])
    × (values (codes "cwb-scopes") ≡ listed id.scopes)
    × (values (codes "cwb-products") ≡ listed id.products)
    × (values (codes "cwb-responsible-human") ≡ unless_empty id.responsible_human)
    × ((k : Text) → (contains (λ j. j == k) cwb_meta_keys ≡ true) ⊎ (values k ≡ []))

-- One value with all of them, separated by spaces.
abbrev pub joined : List Text → List Text
joined xs = join_with b' ' xs ∷ []

module _ (S : Metadata) (law : IsLawful S) where
  open law use {values-empty, values-set, values-delete}

  delete_all_lem :
      (ks : List Text) (md : S.Md) (k : Text)
      → S.values (delete_all S ks md) k ≡ (if contains (λ j. j == k) ks then [] else S.values md k)
  unfolding delete_all contains
  delete_all_lem [] md k = refl
  delete_all_lem (j ∷ ks) md k =
      ground (arith, delete_all_lem ks (S.delete md j) k, values-delete md j k)

  -- After the strip a client's metadata has no value under the six identity keys, and under every other
  -- key the values that the client sent.
  pub strip_client_metadata_lem :
      (md : S.Md) (k : Text)
      → S.values (strip_client_metadata S md) k
        ≡ (if contains (λ j. j == k) cwb_meta_keys then [] else S.values md k)
  unfolding strip_client_metadata
  strip_client_metadata_lem md k = delete_all_lem cwb_meta_keys md k

  pub values-set_if :
      (b : Bool) (m : S.Md) (j v k : Text)
      → S.values (set_if S b m j v) k
        ≡ (if j == k then (if b then v ∷ [] else S.values m k) else S.values m k)
  unfolding set_if
  values-set_if true m j v k = values-set m j v k
  values-set_if false m j v k = ground arith

  outgoing_context_other :
      (id : Identity) (k : Text)
      → All (λ j. (j == k) ≡ false) cwb_meta_keys
      → S.values (outgoing_context S id) k ≡ []
  unfolding outgoing_context
  outgoing_context_other id k (org, (subject, (kind, (scopes, (products, (human, done)))))) =
      simp (values-set_if, values-set, values-empty, org, subject, kind, scopes, products, human)

  -- The metadata of an outgoing call carries the identity and nothing else: the six keys have one value
  -- each, scopes and products joined by spaces (also where there are none), and the responsible human's
  -- key none where the identity names none.
  pub outgoing_context-Carries :
      (id : Identity) → Carries joined id (λ k. S.values (outgoing_context S id) k)
  unfolding outgoing_context text_eq
  outgoing_context-Carries id = (
    simp (values-set_if, values-set),
    simp (values-set_if, values-set),
    simp (values-set_if, values-set),
    simp (values-set_if, values-set),
    simp (values-set_if, values-set),
    simp (values-set_if, values-set, values-empty),
    λ k. elim (Bool-cases (contains (λ j. j == k) cwb_meta_keys)) [
      | inl e ↦ inl e
      | inr e ↦ inr (outgoing_context_other id k (contains-false (λ j. j == k) cwb_meta_keys e))
    ],
  )
