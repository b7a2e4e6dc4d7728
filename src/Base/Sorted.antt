-- ===== src/Base/Sorted.antt =====
-- Insertion sort by a text key: the result is strictly ascending where the keys are distinct, holds
-- the same elements, and commutes with filters.
use mathlib.Core.Path.{◌≡◌, refl, sym, ◌∙◌}
use mathlib.Core.Logic.{◌≢◌, ◌⊎◌, inl, inr}
use mathlib.Core.Bool.{Bool, true, false}
use mathlib.Core.List.{List, [], ◌∷◌, ◌++◌, map}
use Prim.Native.Nat.{ℕ, zero, suc}
use native.Mathlib.Omega.{arith}
use interchange.Base.Tests.{Bool-cases, if◌then◌else◌}
use interchange.Base.Strings.{Text, text_lt}
use interchange.Base.Order.{text_lt_irrefl, text_lt_trans, text_lt_asymm, text_lt_total}
use interchange.Base.Lists.{
  All, filter, take, drop, insert_by, sort_by, All-map, All-filter, All-take, All-append,
  filter-All,
}

module _ {A : Type 0} (key : A → Text) where
  abbrev pub key_below : A → A → Bool
  key_below a b = text_lt (key a) (key b)

  -- No two elements have one key.
  abbrev pub Distinct : List A → Type 0
  Distinct [] = Unit
  Distinct (x ∷ xs) = All (λ y. key x ≢ key y) xs × Distinct xs

  abbrev pub Ascending : List A → Type 0
  Ascending [] = Unit
  Ascending (x ∷ xs) = All (λ y. text_lt (key x) (key y) ≡ true) xs × Ascending xs

  pub Distinct-filter : (p : A → Bool) (xs : List A) → Distinct xs → Distinct (filter p xs)
  unfolding filter
  Distinct-filter p [] h = tt
  Distinct-filter p (x ∷ xs) h =
      ground (arith, Distinct-filter p xs h.1, All-filter (λ y. key x ≢ key y) p xs h.0)

  pub All-insert_by :
      (P : A → Type 0) (x : A) (ys : List A) → P x → All P ys → All P (insert_by key_below x ys)
  unfolding insert_by
  All-insert_by P x [] h k = (h, tt)
  All-insert_by P x (y ∷ ys) h k = ground (arith, All-insert_by P x ys h k.1)

  pub All-sort_by : (P : A → Type 0) (xs : List A) → All P xs → All P (sort_by key_below xs)
  unfolding sort_by
  All-sort_by P [] h = tt
  All-sort_by P (x ∷ xs) h = All-insert_by P x (sort_by key_below xs) h.0 (All-sort_by P xs h.1)

  insert_by-Ascending :
      (x : A) (ys : List A)
      → All (λ y. key x ≢ key y) ys
      → Ascending ys
      → Ascending (insert_by key_below x ys)
  unfolding insert_by
  insert_by-Ascending x [] d a = (tt, tt)
  insert_by-Ascending x (y ∷ ys) d a = elim (Bool-cases (text_lt (key y) (key x))) [
    | inl lt ↦ rw lt (
      All-insert_by (λ z. text_lt (key y) (key z) ≡ true) x ys lt a.0,
      insert_by-Ascending x ys d.1 a.1,
    )
    | inr ge ↦
        let lt : text_lt (key x) (key y) ≡ true =
          ground (arith, text_lt_total (key x) (key y), d.0) in
        rw ge ((lt, All-map (λ z. text_lt_trans (key x) (key y) (key z) lt) ys a.0), a)
  ]

  pub sort_by-Ascending : (xs : List A) → Distinct xs → Ascending (sort_by key_below xs)
  unfolding sort_by
  sort_by-Ascending [] d = tt
  sort_by-Ascending (x ∷ xs) d =
      insert_by-Ascending x (sort_by key_below xs) (All-sort_by (λ y. key x ≢ key y) xs d.0)
        (sort_by-Ascending xs d.1)

  insert_by_front :
      (x : A) (ys : List A)
      → All (λ y. text_lt (key x) (key y) ≡ true) ys
      → insert_by key_below x ys ≡ x ∷ ys
  unfolding insert_by
  insert_by_front x [] h = refl
  insert_by_front x (y ∷ ys) h = rw (text_lt_asymm (key x) (key y) h.0)

  filter-insert_by :
      (q : A → Bool) (x : A) (ys : List A)
      → All (λ y. key x ≢ key y) ys
      → Ascending ys
      → filter q (insert_by key_below x ys)
        ≡ (if q x then insert_by key_below x (filter q ys) else filter q ys)
  unfolding insert_by filter
  filter-insert_by q x [] d a = ground arith
  filter-insert_by q x (y ∷ ys) d a = elim (Bool-cases (text_lt (key y) (key x))) [
    | inl lt ↦ ground (arith, filter-insert_by q x ys d.1 a.1)
    | inr ge ↦
        let lt : text_lt (key x) (key y) ≡ true =
          ground (arith, text_lt_total (key x) (key y), d.0) in
        let front = insert_by_front x (filter q ys) (
          All-filter (λ z. text_lt (key x) (key z) ≡ true) q ys
            (All-map (λ z. text_lt_trans (key x) (key y) (key z) lt) ys a.0)) in
        ground (arith, front)
  ]

  -- Sorting what a filter keeps is filtering what was sorted.
  pub filter-sort_by :
      (q : A → Bool) (xs : List A)
      → Distinct xs
      → filter q (sort_by key_below xs) ≡ sort_by key_below (filter q xs)
  unfolding sort_by filter
  filter-sort_by q [] d = refl
  filter-sort_by q (x ∷ xs) d =
      filter-insert_by q x (sort_by key_below xs) (All-sort_by (λ y. key x ≢ key y) xs d.0)
        (sort_by-Ascending xs d.1)
      ∙ ground (arith, filter-sort_by q xs d.1)

  -- The key of the last element, or what was there before.
  abbrev pub last_key : Text → List A → Text
  last_key s [] = s
  last_key s (x ∷ xs) = last_key (key x) xs

  last_key-ge :
      (s : Text) (ys : List A)
      → Ascending ys
      → All (λ y. text_lt s (key y) ≡ true) ys
      → text_lt (last_key s ys) s ≡ false
  last_key-ge s [] a h = text_lt_irrefl s
  last_key-ge s (y ∷ ys) a h =
      ground (arith, text_lt_trans (last_key (key y) ys) s (key y), last_key-ge (key y) ys a.1 a.0)

  pub Ascending-take : (n : ℕ) (xs : List A) → Ascending xs → Ascending (take n xs)
  unfolding take
  Ascending-take zero xs a = tt
  Ascending-take (suc n) [] a = tt
  Ascending-take (suc n) (x ∷ xs) a = (All-take _ n xs a.0, Ascending-take n xs a.1)

  -- Above the last key of the first n stands exactly what the first n leave.
  pub filter-last_key :
      (n : ℕ) (s : Text) (xs : List A)
      → Ascending xs
      → All (λ x. text_lt s (key x) ≡ true) xs
      → filter (λ x. text_lt (last_key s (take n xs)) (key x)) xs ≡ drop n xs
  unfolding take drop filter
  filter-last_key zero s xs a h = filter-All _ xs h
  filter-last_key (suc n) s [] a h = refl
  filter-last_key (suc n) s (x ∷ xs) a h =
      rw (last_key-ge (key x) (take n xs) (Ascending-take n xs a.1) (All-take _ n xs a.0))
        (filter-last_key n (key x) xs a.1 a.0)

  -- The last key is above the start, unless there is no element.
  pub last_key-above :
      (s : Text) (ys : List A)
      → Ascending ys
      → All (λ y. text_lt s (key y) ≡ true) ys
      → (ys ≡ []) ⊎ (text_lt s (last_key s ys) ≡ true)
  last_key-above s [] a h = inl refl
  last_key-above s (y ∷ ys) a h = inr (elim (last_key-above (key y) ys a.1 a.0) [
    | inl e ↦ rw e h.0
    | inr lt ↦ text_lt_trans s (key y) (last_key (key y) ys) h.0 lt
  ])

  pub Distinct-append :
      (xs : List A) (a : A) → All (λ x. key x ≢ key a) xs → Distinct xs → Distinct (xs ++ (a ∷ []))
  Distinct-append [] a n d = (tt, tt)
  Distinct-append (x ∷ xs) a n d =
      (All-append _ xs (a ∷ []) d.0 (n.0, tt), Distinct-append xs a n.1 d.1)

  module _ (f : A → A) (same : (x : A) → key (f x) ≡ key x) where
    All-ne_map :
        (x : A) (xs : List A)
        → All (λ y. key x ≢ key y) xs
        → All (λ y. key (f x) ≢ key y) (map f xs)
    All-ne_map x [] h = tt
    All-ne_map x (y ∷ ys) h = (λ e. h.0 (sym (same x) ∙ e ∙ same y), All-ne_map x ys h.1)

    pub Distinct-map : (xs : List A) → Distinct xs → Distinct (map f xs)
    Distinct-map [] d = tt
    Distinct-map (x ∷ xs) d = (All-ne_map x xs d.0, Distinct-map xs d.1)
