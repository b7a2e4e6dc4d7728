-- ===== src/Base/Members.antt =====
-- Membership, and the search `contains` through maps, filters, sorting and prefixes.
use Prim.Native.Nat.{ℕ, zero, suc}
use mathlib.Core.Path.{◌≡◌, refl, subst, sym, ap, ◌∙◌}
use mathlib.Core.Logic.{◌≢◌, ◌⊎◌, inl, inr}
use mathlib.Core.Bool.{Bool, true, false, ◌&&◌, ◌||◌}
use mathlib.Core.List.{List, [], ◌∷◌, ◌++◌, map}
use native.Mathlib.Omega.{arith}
use interchange.Base.Tests.{Bool-cases}
use interchange.Base.Strings.{Text, text_eq}
use interchange.Base.Order.{text_eq_iff}
use interchange.Base.Lists.{
  All, filter, take, contains, insert_by, sort_by, contains-eq-false, All-map,
}
use interchange.Base.Sorted.{Distinct}

module _ {A : Type 0} where
  abbrev pub Has : A → List A → Type 0
  Has a [] = ⊥
  Has a (x ∷ xs) = (a ≡ x) ⊎ Has a xs

  pub All-of_Has : (P : A → Type 0) (xs : List A) → ((a : A) → Has a xs → P a) → All P xs
  All-of_Has P [] h = tt
  All-of_Has P (x ∷ xs) h = (h x (inl refl), All-of_Has P xs (λ a m. h a (inr m)))

  pub filter-ext_of_All :
      (p q : A → Bool) (xs : List A) → All (λ x. p x ≡ q x) xs → filter p xs ≡ filter q xs
  unfolding filter
  filter-ext_of_All p q [] h = refl
  filter-ext_of_All p q (x ∷ xs) h = ground (arith, filter-ext_of_All p q xs h.1)

  pub contains-append :
      (p : A → Bool) (xs ys : List A) → contains p (xs ++ ys) ≡ (contains p xs || contains p ys)
  unfolding contains
  contains-append p [] ys = refl
  contains-append p (x ∷ xs) ys = ground (arith, contains-append p xs ys)

  pub contains-ext :
      (p q : A → Bool) (xs : List A) → ((x : A) → p x ≡ q x) → contains p xs ≡ contains q xs
  unfolding contains
  contains-ext p q [] h = refl
  contains-ext p q (x ∷ xs) h = ground (arith, h x, contains-ext p q xs h)

  pub contains-and :
      (p : A → Bool) (c : Bool) (xs : List A) → contains (λ x. p x && c) xs ≡ (contains p xs && c)
  unfolding contains
  contains-and p c [] = refl
  contains-and p c (x ∷ xs) = ground (arith, contains-and p c xs)

  pub contains-filter :
      (p q : A → Bool) (xs : List A) → contains q (filter p xs) ≡ contains (λ x. p x && q x) xs
  unfolding contains filter
  contains-filter p q [] = refl
  contains-filter p q (x ∷ xs) = ground (arith, contains-filter p q xs)

  contains-insert_by :
      (q : A → Bool) (below : A → A → Bool) (x : A) (xs : List A)
      → contains q (insert_by below x xs) ≡ (q x || contains q xs)
  unfolding contains insert_by
  contains-insert_by q below x [] = refl
  contains-insert_by q below x (y ∷ ys) = ground (arith, contains-insert_by q below x ys)

  pub contains-sort_by :
      (q : A → Bool) (below : A → A → Bool) (xs : List A)
      → contains q (sort_by below xs) ≡ contains q xs
  unfolding contains sort_by
  contains-sort_by q below [] = refl
  contains-sort_by q below (x ∷ xs) =
      contains-insert_by q below x (sort_by below xs)
      ∙ ap (λ b. q x || b) (contains-sort_by q below xs)

  pub contains_of_take :
      (q : A → Bool) (n : ℕ) (xs : List A) → contains q (take n xs) ≡ true → contains q xs ≡ true
  unfolding contains take
  contains_of_take q zero xs h = absurd (cc h)
  contains_of_take q (suc n) [] h = h
  contains_of_take q (suc n) (x ∷ xs) h = ground (arith, contains_of_take q n xs)

  pub contains-of_Has :
      (q : A → Bool) (a : A) (xs : List A) → Has a xs → q a ≡ true → contains q xs ≡ true
  unfolding contains
  contains-of_Has q a [] m h = absurd m
  contains-of_Has q a (x ∷ xs) (inl e) h = rw (← e, h) refl
  contains-of_Has q a (x ∷ xs) (inr m) h = ground (arith, contains-of_Has q a xs m h)

  pub Has-filter :
      (p : A → Bool) (a : A) (xs : List A) → p a ≡ true → Has a xs → Has a (filter p xs)
  unfolding filter
  Has-filter p a [] h m = m
  Has-filter p a (x ∷ xs) h (inl e) = rw (sym (ap p e) ∙ h) (inl e)
  Has-filter p a (x ∷ xs) h (inr m) = elim (Bool-cases (p x)) [
    | inl kept ↦ rw kept (inr (Has-filter p a xs h m))
    | inr left ↦ rw left (Has-filter p a xs h m)
  ]

  -- What a function leaves as it is stays in a list that is mapped by it.
  pub Has-map_fixed : (f : A → A) (a : A) (xs : List A) → f a ≡ a → Has a xs → Has a (map f xs)
  Has-map_fixed f a [] h m = m
  Has-map_fixed f a (x ∷ xs) h (inl e) = inl (sym h ∙ ap f e)
  Has-map_fixed f a (x ∷ xs) h (inr m) = inr (Has-map_fixed f a xs h m)

  pub Has-All : (P : A → Type 0) (a : A) (xs : List A) → Has a xs → All P xs → P a
  Has-All P a [] m h = absurd m
  Has-All P a (x ∷ xs) (inl e) h = subst P (sym e) h.0
  Has-All P a (x ∷ xs) (inr m) h = Has-All P a xs m h.1

  other_key :
      (key : A → Text) (q : A → Bool) (a x : A)
      → key a ≢ key x
      → (q x && text_eq (key a) (key x)) ≡ false
  other_key key q a x n = ground (arith, text_eq_iff (key a) (key x))

  -- With distinct keys, what holds of some row with the key of a row holds of that row.
  pub contains-of_key :
      (key : A → Text) (q : A → Bool) (a : A) (xs : List A)
      → Distinct key xs
      → Has a xs
      → contains (λ x. q x && text_eq (key a) (key x)) xs ≡ true
      → q a ≡ true
  unfolding contains
  contains-of_key key q a [] d m h = absurd m
  contains-of_key key q a (x ∷ xs) d (inl e) h =
      let none_else : contains (λ y. q y && text_eq (key a) (key y)) xs ≡ false =
        contains-eq-false _ xs (
          All-map {Q = λ y. (q y && text_eq (key a) (key y)) ≡ false}
            (λ y (n : key x ≢ key y). other_key key q a y (subst (λ z. key z ≢ key y) (sym e) n)) xs
            d.0) in
      ground (arith, none_else)
  contains-of_key key q a (x ∷ xs) d (inr m) h =
      let n = other_key key q a x (λ e. Has-All (λ y. key x ≢ key y) a xs m d.0 (sym e)) in
      contains-of_key key q a xs d.1 m (ground arith)

pub contains-map :
    {A B : Type 0} (p : B → Bool) (f : A → B) (xs : List A)
    → contains p (map f xs) ≡ contains (λ x. p (f x)) xs
unfolding contains
contains-map p f [] = refl
contains-map p f (x ∷ xs) = ground (arith, contains-map p f xs)
