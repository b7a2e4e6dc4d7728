-- ===== src/Base/Shuffled.antt =====
-- What a rearrangement of a list leaves as it is: which elements there are, what a filter counts, and
-- the list sorted by distinct keys.
use mathlib.Core.Path.{◌≡◌, refl, sym, ap, ◌∙◌, subst}
use mathlib.Core.Logic.{◌≢◌, inl, inr}
use mathlib.Core.Bool.{Bool}
use mathlib.Core.List.{List, [], ◌∷◌, Permᴰ}
use mathlib.Core.List.Permᴰ
use Prim.Native.Nat.{suc}
use native.Mathlib.Omega.{arith}
use interchange.Base.Tests.{Bool-cases}
use interchange.Base.Strings.{Text}
use interchange.Base.Order.{text_lt_trans, text_lt_asymm, text_lt_total}
use interchange.Base.Lists.{All, length, filter, contains, insert_by, sort_by}
use interchange.Base.Sorted.{key_below, Distinct}

module _ {A : Type 0} where
  pub All-perm : (P : A → Type 0) {xs ys : List A} → Permᴰ xs ys → All P xs → All P ys
  All-perm P Permᴰ.nil h = h
  All-perm P (Permᴰ.cons e π) h = (subst P e h.0, All-perm P π h.1)
  All-perm P (Permᴰ.swap e e') h = (subst P e' h.1.0, (subst P e h.0, h.1.1))
  All-perm P (Permᴰ.trans π ρ) h = All-perm P ρ (All-perm P π h)

  pub length-perm : {xs ys : List A} → Permᴰ xs ys → length xs ≡ length ys
  length-perm Permᴰ.nil = refl
  length-perm (Permᴰ.cons e π) = ap suc (length-perm π)
  length-perm (Permᴰ.swap e e') = refl
  length-perm (Permᴰ.trans π ρ) = length-perm π ∙ length-perm ρ

  module _ (p : A → Bool) where
    pub contains-perm : {xs ys : List A} → Permᴰ xs ys → contains p xs ≡ contains p ys
    unfolding contains
    contains-perm Permᴰ.nil = refl
    contains-perm (Permᴰ.cons e π) = ground (arith, ap p e, contains-perm π)
    contains-perm (Permᴰ.swap e e') = ground (arith, ap p e, ap p e')
    contains-perm (Permᴰ.trans π ρ) = contains-perm π ∙ contains-perm ρ

    filter-cons_perm :
        {a b : A} (xs ys : List A)
        → a ≡ b
        → Permᴰ (filter p xs) (filter p ys)
        → Permᴰ (filter p (a ∷ xs)) (filter p (b ∷ ys))
    unfolding filter
    filter-cons_perm {a} xs ys e π = elim (Bool-cases (p a)) [
      | inl kept ↦ rw (kept, sym (ap p e) ∙ kept) (Permᴰ.cons e π)
      | inr left ↦ rw (left, sym (ap p e) ∙ left) π
    ]

    filter-swap_perm :
        (a b : A) (xs : List A) → Permᴰ (filter p (a ∷ b ∷ xs)) (filter p (b ∷ a ∷ xs))
    unfolding filter
    filter-swap_perm a b xs = elim (Bool-cases (p a)) [
      | inl kept ↦ elim (Bool-cases (p b)) [
        | inl too ↦ rw (kept, too) (Permᴰ.swap refl refl)
        | inr not_b ↦ rw (kept, not_b) (Permᴰ.refl _)
      ]
      | inr not_a ↦ rw not_a (Permᴰ.refl _)
    ]

    pub filter-perm : {xs ys : List A} → Permᴰ xs ys → Permᴰ (filter p xs) (filter p ys)
    unfolding filter
    filter-perm Permᴰ.nil = Permᴰ.nil
    filter-perm (Permᴰ.cons e π) = filter-cons_perm _ _ e (filter-perm π)
    filter-perm (Permᴰ.swap {a} {b} {b' = b'} {l = l} e e') =
        Permᴰ.trans (filter-swap_perm a b l)
          (filter-cons_perm (a ∷ l) (b' ∷ l) e' (filter-cons_perm l l e (Permᴰ.refl _)))
    filter-perm (Permᴰ.trans π ρ) = Permᴰ.trans (filter-perm π) (filter-perm ρ)

module _ {A : Type 0} (key : A → Text) where
  pub Distinct-perm : {xs ys : List A} → Permᴰ xs ys → Distinct key xs → Distinct key ys
  Distinct-perm Permᴰ.nil d = d
  Distinct-perm (Permᴰ.cons {l₂ = ys} e π) d = (
    subst (λ a. All (λ y. key a ≢ key y) ys) e (All-perm (λ y. key _ ≢ key y) π d.0),
    Distinct-perm π d.1,
  )
  Distinct-perm (Permᴰ.swap {l = l} e e') d = (
    (
      λ k. d.0.0 (ap key e ∙ sym k ∙ sym (ap key e')),
      subst (λ a. All (λ y. key a ≢ key y) l) e' d.1.0,
    ),
    (subst (λ a. All (λ y. key a ≢ key y) l) e d.0.1, d.1.1),
  )
  Distinct-perm (Permᴰ.trans π ρ) d = Distinct-perm ρ (Distinct-perm π d)

  -- Two elements with different keys may be inserted in either order.
  insert_by_comm :
      (a b : A) (xs : List A)
      → key a ≢ key b
      → insert_by (key_below key) a (insert_by (key_below key) b xs)
        ≡ insert_by (key_below key) b (insert_by (key_below key) a xs)
  unfolding insert_by
  insert_by_comm a b [] n =
      ground (arith, text_lt_asymm (key a) (key b), text_lt_total (key a) (key b))
  insert_by_comm a b (x ∷ xs) n = ground (
    arith,
    insert_by_comm a b xs n,
    text_lt_asymm (key a) (key b),
    text_lt_total (key a) (key b),
    text_lt_trans (key x) (key a) (key b),
    text_lt_trans (key x) (key b) (key a),
  )

  pub sort_by-perm :
      {xs ys : List A}
      → Permᴰ xs ys
      → Distinct key xs
      → sort_by (key_below key) xs ≡ sort_by (key_below key) ys
  unfolding sort_by
  sort_by-perm Permᴰ.nil d = refl
  sort_by-perm (Permᴰ.cons e π) d = rw (e, sort_by-perm π d.1) refl
  sort_by-perm (Permᴰ.swap {a} {b} {l = l} e e') d =
      insert_by_comm a b (sort_by (key_below key) l) d.0.0 ∙ rw (e, e') refl
  sort_by-perm (Permᴰ.trans π ρ) d = sort_by-perm π d ∙ sort_by-perm ρ (Distinct-perm π d)
