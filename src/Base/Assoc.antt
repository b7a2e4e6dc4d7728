-- ===== src/Base/Assoc.antt =====
-- Go maps with texts as keys: lists of entries, each key once.
use Prim.Native.Nat.{◌≤◌, ◌+◌}
use mathlib.Core.Path.{◌≡◌, sym, subst}
use mathlib.Core.Logic.{◌≢◌, inl, inr}
use mathlib.Core.Bool.{Bool, true}
use mathlib.Core.Option.{Option, none, some, some-injective}
use mathlib.Core.List.{List, [], ◌∷◌, map}
use native.Mathlib.Omega.{arith}
use interchange.Base.Tests.{if◌then◌else◌, Bool-cases}
use interchange.Base.Strings.{Text, ◌==◌}
use interchange.Base.Order.{text_eq_iff, text_eq_refl}
use interchange.Base.Lists.{All, length, filter, All-map}
use interchange.Base.Sorted.{Distinct}

module _ {A : Type 0} where
  -- m[k], where it is there.
  unfoldable pub lookup_key : Text → List (Text × A) → Option A
  lookup_key k [] = none
  lookup_key k (q ∷ m) = let rest = lookup_key k m in if q.0 == k then some q.1 else rest

  -- m[k] = a
  unfoldable pub assign : Text → A → List (Text × A) → List (Text × A)
  assign k a [] = (k, a) ∷ []
  assign k a (q ∷ m) = let rest = assign k a m in if q.0 == k then (k, a) ∷ m else q ∷ rest

  pub lookup_key-assign_same :
      (k : Text) (a : A) (m : List (Text × A)) → lookup_key k (assign k a m) ≡ some a
  unfolding lookup_key assign
  lookup_key-assign_same k a [] = ground (arith, text_eq_refl k)
  lookup_key-assign_same k a (q ∷ m) = ground (arith, text_eq_refl k, lookup_key-assign_same k a m)

  pub lookup_key-assign :
      (k j : Text) (a : A) (m : List (Text × A))
      → k ≢ j
      → lookup_key j (assign k a m) ≡ lookup_key j m
  unfolding lookup_key assign
  lookup_key-assign k j a [] n = ground (arith, text_eq_iff k j, n)
  lookup_key-assign k j a (q ∷ m) n =
      ground (
        arith,
        text_eq_iff k j,
        text_eq_iff q.0 k,
        text_eq_iff q.0 j,
        n,
        lookup_key-assign k j a m n,
      )

  pub length-assign_old :
      (k : Text) (a b : A) (m : List (Text × A))
      → lookup_key k m ≡ some b
      → length (assign k a m) ≡ length m
  unfolding lookup_key assign
  length-assign_old k a b [] h = absurd (cc h)
  length-assign_old k a b (q ∷ m) h = ground (arith, length-assign_old k a b m, h)

  pub length-assign :
      (k : Text) (a : A) (m : List (Text × A)) → length (assign k a m) ≤ length m + 1
  unfolding assign
  length-assign k a [] = ground arith
  length-assign k a (q ∷ m) = ground (arith, length-assign k a m)

  pub All-assign :
      (P : Text × A → Type 0) (k : Text) (a : A) (m : List (Text × A))
      → P (k, a)
      → All P m
      → All P (assign k a m)
  unfolding assign
  All-assign P k a [] h l = (h, tt)
  All-assign P k a (q ∷ m) h l = ground (arith, All-assign P k a m h l.1)

  pub All-lookup_key :
      (P : Text × A → Type 0) (k : Text) (a : A) (m : List (Text × A))
      → lookup_key k m ≡ some a
      → All P m
      → P (k, a)
  unfolding lookup_key
  All-lookup_key P k a [] h l = absurd (cc h)
  All-lookup_key P k a (q ∷ m) h l = elim (Bool-cases (q.0 == k)) [
    | inl e ↦
        let same : k ≡ q.0 = sym ((text_eq_iff q.0 k).0 e) in
        let value : q.1 ≡ a = some-injective _ _ (rw e at h) in
        subst (λ x. P (x, a)) (sym same) (subst (λ x. P (q.0, x)) value l.0)
    | inr e ↦ All-lookup_key P k a m (rw e at h) l.1
  ]

  pub Distinct-assign :
      (k : Text) (a : A) (m : List (Text × A))
      → Distinct (λ q. q.0) m
      → Distinct (λ q. q.0) (assign k a m)
  unfolding assign
  Distinct-assign k a [] d = (tt, tt)
  Distinct-assign k a (q ∷ m) (n, d) = elim (Bool-cases (q.0 == k)) [
    | inl e ↦ rw e (
      All-map {Q = λ y. k ≢ y.0}
          (λ y (h : q.0 ≢ y.0). subst (λ x. x ≢ y.0) ((text_eq_iff q.0 k).0 e) h) m n,
      d,
    )
    | inr e ↦ rw e (
      All-assign (λ y. q.0 ≢ y.0) k a m (ground (arith, e, text_eq_iff q.0 k)) n,
      Distinct-assign k a m d,
    )
  ]

  pub lookup_key-filter :
      (p : A → Bool) (k : Text) (a : A) (m : List (Text × A))
      → lookup_key k m ≡ some a
      → p a ≡ true
      → lookup_key k (filter (λ q. p q.1) m) ≡ some a
  unfolding lookup_key filter
  lookup_key-filter p k a [] h t = absurd (cc h)
  lookup_key-filter p k a (q ∷ m) h t = elim (Bool-cases (q.0 == k)) [
    | inl e ↦ let value : q.1 ≡ a = some-injective _ _ (rw e at h) in ground (arith, e, value, t)
    | inr e ↦ let rest = lookup_key-filter p k a m (rw e at h) t in ground (arith, e, rest)
  ]

pub lookup_key-map :
    {A B : Type 0} (g : A → B) (k : Text) (a : A) (m : List (Text × A))
    → lookup_key k m ≡ some a
    → lookup_key k (map (λ q. (q.0, g q.1)) m) ≡ some (g a)
unfolding lookup_key
lookup_key-map g k a [] h = absurd (cc h)
lookup_key-map g k a (q ∷ m) h = elim (Bool-cases (q.0 == k)) [
  | inl e ↦ let value : q.1 ≡ a = some-injective _ _ (rw e at h) in ground (arith, e, value)
  | inr e ↦ let rest = lookup_key-map g k a m (rw e at h) in ground (arith, e, rest)
]
