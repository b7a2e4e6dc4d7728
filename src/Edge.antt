-- ===== src/Edge.antt =====
-- internal/edge/edge.go: identities as gRPC metadata. The metadata of google.golang.org/grpc is a
-- parameter with the documented laws of its keys; DialPillar is in Entry.Startup.
pub mod Carried
use interchange.Base.{
  ◌≡◌, Bool, not, List, [], ◌∷◌, Text, codes, is_empty, ◌==◌, contains, join_with, if◌then◌else◌,
}

pub record Identity : Type 0 where
  pub subject : Text
  pub kind : Text
  pub org : Text
  pub responsible_human : Text
  pub scopes : List Text
  pub products : List Text

-- metadata.MD with Set, Delete and Get.
pub record Metadata : Type 1 where
  pub Md : Type 0
  pub empty : Md
  pub set : Md → Text → Text → Md
  pub delete : Md → Text → Md
  pub values : Md → Text → List Text

pub record IsLawful (S : Metadata) : Type 0 where
  pub values-empty : (k : Text) → S.values S.empty k ≡ []
  pub values-set :
      (m : S.Md) (j v k : Text)
      → S.values (S.set m j v) k ≡ (if j == k then v ∷ [] else S.values m k)
  pub values-delete :
      (m : S.Md) (j k : Text) → S.values (S.delete m j) k ≡ (if j == k then [] else S.values m k)

abbrev pub cwb_meta_keys : List Text
cwb_meta_keys =
    codes "cwb-org"
    ∷ codes "cwb-subject"
    ∷ codes "cwb-kind"
    ∷ codes "cwb-scopes"
    ∷ codes "cwb-products"
    ∷ codes "cwb-responsible-human"
    ∷ []

-- HasProduct
unfoldable pub has_product : Identity → Text → Bool
has_product id product = contains (λ p. p == product) id.products

module _ (S : Metadata) where
  delete_all : List Text → S.Md → S.Md
  delete_all [] md = md
  delete_all (k ∷ ks) md = delete_all ks (S.delete md k)

  -- StripClientMetadata
  unfoldable pub strip_client_metadata : S.Md → S.Md
  unfolding delete_all
  strip_client_metadata md = delete_all cwb_meta_keys md

  -- Set under a condition.
  unfoldable pub set_if : Bool → S.Md → Text → Text → S.Md
  set_if b md k v = if b then S.set md k v else md

  -- OutgoingContext, up to the context that the metadata is put in.
  unfoldable pub outgoing_context : Identity → S.Md
  outgoing_context id =
      set_if (not (is_empty id.responsible_human))
        (S.set
          (S.set
            (S.set (S.set (S.set S.empty (codes "cwb-org") id.org) (codes "cwb-subject") id.subject)
              (codes "cwb-kind") id.kind)
            (codes "cwb-scopes") (join_with b' ' id.scopes))
          (codes "cwb-products") (join_with b' ' id.products))
        (codes "cwb-responsible-human") id.responsible_human
