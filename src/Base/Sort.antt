-- ===== src/Base/Sort.antt =====
-- `sorted(xs, key=...)`: the stable sort, by insertion, over a comparison of keys.
use Prim.Native.Nat.{suc, Ordering}
use Prim.Native.String.{String}
use mathlib.Core.Path.{◌≡◌, refl, ap, ◌∙◌}
use mathlib.Core.Logic.{◌⊎◌, inl, inr}
use mathlib.Core.Bool.{Bool, true, false}
use mathlib.Core.List.{List, [], ◌∷◌}
use native.Mathlib.Omega.{arith}
use tcs_cosheaf.Base.Tests.{if◌then◌else◌, Bool-cases}
use tcs_cosheaf.Base.Lists.{In, length}
use tcs_cosheaf.Base.Text.{text_order}

abbrev pub not_gt : Ordering → Bool
not_gt Ordering.gt = false
not_gt _ = true

-- Tuples compare by their first parts that differ.
abbrev pub then_order : Ordering → Ordering → Ordering
then_order Ordering.eq o = o
then_order o _ = o

-- Keys that are tuples of texts, written as lists of one length.
unfoldable pub key_order : List String → List String → Ordering
key_order [] [] = Ordering.eq
key_order [] (t ∷ ts) = Ordering.lt
key_order (s ∷ ss) [] = Ordering.gt
key_order (s ∷ ss) (t ∷ ts) = then_order (text_order s t) (key_order ss ts)

module _ {A : Type 0} (le : A → A → Bool) where
  unfoldable pub insert : A → List A → List A
  insert x [] = x ∷ []
  insert x (y ∷ ys) = if le x y then x ∷ y ∷ ys else y ∷ insert x ys

  unfoldable pub sort : List A → List A
  unfolding insert
  sort [] = []
  sort (x ∷ xs) = insert x (sort xs)

  pub In-insert : (x a : A) (ys : List A) → In a (insert x ys) → (x ≡ a) ⊎ In a ys
  unfolding insert
  In-insert x a [] m = m
  In-insert x a (y ∷ ys) m = elim (Bool-cases (le x y)) [
    | inl t ↦ rw t at m
    | inr f ↦ elim (rw (f, if◌then◌else◌) at m) [
      | inl e ↦ inr (inl e)
      | inr r ↦ elim (In-insert x a ys r) [ inl e ↦ inl e | inr q ↦ inr (inr q) ]
    ]
  ]

  pub In-insert_of : (x a : A) (ys : List A) → (x ≡ a) ⊎ In a ys → In a (insert x ys)
  unfolding insert
  In-insert_of x a [] m = m
  In-insert_of x a (y ∷ ys) m = elim (Bool-cases (le x y)) [
    | inl t ↦ rw t m
    | inr f ↦ rw f (elim m [
      | inl e ↦ inr (In-insert_of x a ys (inl e))
      | inr (inl e) ↦ inl e
      | inr (inr r) ↦ inr (In-insert_of x a ys (inr r))
    ])
  ]

  -- Sorting keeps the members.
  pub In-sort : (a : A) (xs : List A) → In a (sort xs) → In a xs
  unfolding sort
  In-sort a [] m = m
  In-sort a (x ∷ xs) m = elim (In-insert x a (sort xs) m) [
    | inl e ↦ inl e
    | inr r ↦ inr (In-sort a xs r)
  ]

  pub In-sort_of : (a : A) (xs : List A) → In a xs → In a (sort xs)
  unfolding sort
  In-sort_of a [] m = m
  In-sort_of a (x ∷ xs) (inl e) = In-insert_of x a (sort xs) (inl e)
  In-sort_of a (x ∷ xs) (inr m) = In-insert_of x a (sort xs) (inr (In-sort_of a xs m))

  insert-ne-nil : (x : A) (ys : List A) → insert x ys ≡ [] → ⊥
  unfolding insert
  insert-ne-nil x [] h = cc
  insert-ne-nil x (y ∷ ys) h = ground arith

  pub sort-eq-nil : (xs : List A) → sort xs ≡ [] → xs ≡ []
  unfolding sort
  sort-eq-nil [] h = refl
  sort-eq-nil (x ∷ xs) h = absurd (insert-ne-nil x (sort xs) h)

  length-insert : (x : A) (ys : List A) → length (insert x ys) ≡ suc (length ys)
  unfolding insert
  length-insert x [] = refl
  length-insert x (y ∷ ys) = ground (arith, length-insert x ys)

  pub length-sort : (xs : List A) → length (sort xs) ≡ length xs
  unfolding sort
  length-sort [] = refl
  length-sort (x ∷ xs) = length-insert x (sort xs) ∙ ap suc (length-sort xs)
