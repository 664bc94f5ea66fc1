-- ===== src/Base/Lists.antt =====
-- Lists: the comprehensions of the source, membership and universal statements by recursion.
use Prim.Native.Nat.{ℕ, suc, ◌≤◌}
use mathlib.Core.Path.{◌≡◌, refl, sym, ap, ◌∙◌}
use mathlib.Core.Logic.{◌↔◌, ◌⊎◌, inl, inr}
use mathlib.Core.Bool.{Bool, true, false, ◌&&◌, ◌||◌}
use mathlib.Core.List.{List, [], ◌∷◌, ◌++◌, map}
use native.Mathlib.Omega.{arith}
use tcs_cosheaf.Base.Tests.{if◌then◌else◌, Bool-cases}

module _ {ℓ} {A : Type ℓ} where
  abbrev pub length : List A → ℕ
  length [] = 0
  length (x ∷ xs) = suc (length xs)

  -- `[x for x in xs if test(x)]`
  unfoldable pub keep : (A → Bool) → List A → List A
  keep test [] = []
  keep test (x ∷ xs) = if test x then x ∷ keep test xs else keep test xs

  unfoldable pub any : (A → Bool) → List A → Bool
  any test [] = false
  any test (x ∷ xs) = test x || any test xs

  unfoldable pub all : (A → Bool) → List A → Bool
  all test [] = true
  all test (x ∷ xs) = test x && all test xs

  abbrev pub is_empty : List A → Bool
  is_empty [] = true
  is_empty (x ∷ xs) = false

  -- A statement about all members, by recursion.
  abbrev pub All {κ} : (A → Type κ) → List A → Type κ
  All P [] = Unit
  All P (x ∷ xs) = P x × All P xs

-- Membership, by recursion.
abbrev pub In : {A : Type 0} → A → List A → Type 0
In a [] = ⊥
In a (x ∷ xs) = (x ≡ a) ⊎ In a xs

module _ {ℓ κ} {A : Type ℓ} {B : Type κ} where
  -- A loop that extends its result by `f(x)` on each round.
  unfoldable pub collect : (A → List B) → List A → List B
  collect f [] = []
  collect f (x ∷ xs) = f x ++ collect f xs

module _ {A : Type 0} where
  pub append-eq-nil : (xs ys : List A) → xs ++ ys ≡ [] → (xs ≡ []) × (ys ≡ [])
  append-eq-nil [] ys h = (refl, h)
  append-eq-nil (x ∷ xs) ys h = ground arith

  pub In-append_left : (a : A) (xs ys : List A) → In a xs → In a (xs ++ ys)
  In-append_left a [] ys m = elim m [ ]
  In-append_left a (x ∷ xs) ys (inl e) = inl e
  In-append_left a (x ∷ xs) ys (inr m) = inr (In-append_left a xs ys m)

  pub In-append_right : (a : A) (xs ys : List A) → In a ys → In a (xs ++ ys)
  In-append_right a [] ys m = m
  In-append_right a (x ∷ xs) ys m = inr (In-append_right a xs ys m)

  pub In-append_cases : (a : A) (xs ys : List A) → In a (xs ++ ys) → In a xs ⊎ In a ys
  In-append_cases a [] ys m = inr m
  In-append_cases a (x ∷ xs) ys (inl e) = inl (inl e)
  In-append_cases a (x ∷ xs) ys (inr m) = elim (In-append_cases a xs ys m) [
    | inl l ↦ inl (inr l)
    | inr r ↦ inr r
  ]

module _ {κ} {A : Type 0} (P : A → Type κ) where
  pub All-append : (xs ys : List A) → All P xs → All P ys → All P (xs ++ ys)
  All-append [] ys h k = k
  All-append (x ∷ xs) ys h k = (h.0, All-append xs ys h.1 k)

  pub All-split : (xs ys : List A) → All P (xs ++ ys) → All P xs × All P ys
  All-split [] ys h = (tt, h)
  All-split (x ∷ xs) ys h = let (l, r) = All-split xs ys h.1 in ((h.0, l), r)

  pub All-at : (xs : List A) → All P xs → (a : A) → In a xs → P a
  All-at [] h a m = elim m [ ]
  All-at (x ∷ xs) h a (inl e) = rw (← e) h.0
  All-at (x ∷ xs) h a (inr m) = All-at xs h.1 a m

  pub All-of_In : (xs : List A) → ((a : A) → In a xs → P a) → All P xs
  All-of_In [] h = tt
  All-of_In (x ∷ xs) h = (h x (inl refl), All-of_In xs (λ a m. h a (inr m)))

module _ {A B : Type 0} where
  -- A loop collects nothing exactly when every round collects nothing.
  pub collect-eq-nil : (f : A → List B) (xs : List A) → collect f xs ≡ [] → All (λ x. f x ≡ []) xs
  unfolding collect
  collect-eq-nil f [] h = tt
  collect-eq-nil f (x ∷ xs) h =
      let (l, r) = append-eq-nil (f x) (collect f xs) h in (l, collect-eq-nil f xs r)

  pub collect-nil : (f : A → List B) (xs : List A) → All (λ x. f x ≡ []) xs → collect f xs ≡ []
  unfolding collect
  collect-nil f [] h = refl
  collect-nil f (x ∷ xs) h = rw h.0 (collect-nil f xs h.1)

  pub In-collect :
      (f : A → List B) (xs : List A) (b : B) → In b (collect f xs) → (a : A) × In a xs × In b (f a)
  unfolding collect
  In-collect f [] b m = elim m [ ]
  In-collect f (x ∷ xs) b m = elim (In-append_cases b (f x) (collect f xs) m) [
    | inl l ↦ (x, inl refl, l)
    | inr r ↦ let (a, p, q) = In-collect f xs b r in (a, inr p, q)
  ]

  pub In-collect_of :
      (f : A → List B) (xs : List A) (a : A) (b : B) → In a xs → In b (f a) → In b (collect f xs)
  unfolding collect
  In-collect_of f [] a b m k = elim m [ ]
  In-collect_of f (x ∷ xs) a b (inl e) k = In-append_left b (f x) _ (rw e k)
  In-collect_of f (x ∷ xs) a b (inr m) k = In-append_right b (f x) _ (In-collect_of f xs a b m k)

module _ {A : Type 0} (test : A → Bool) where
  pub In-keep : (xs : List A) (a : A) → In a (keep test xs) → In a xs × (test a ≡ true)
  unfolding keep
  In-keep [] a m = elim m [ ]
  In-keep (x ∷ xs) a m = elim (Bool-cases (test x)) [
    | inl yes_x ↦ elim (rw (yes_x, if◌then◌else◌) at m) [
      | inl e ↦ (inl e, rw (← e) yes_x)
      | inr r ↦ let (p, q) = In-keep xs a r in (inr p, q)
    ]
    | inr no_x ↦ let (p, q) = In-keep xs a (rw no_x at m) in (inr p, q)
  ]

  pub In-keep_of : (xs : List A) (a : A) → In a xs → test a ≡ true → In a (keep test xs)
  unfolding keep
  In-keep_of [] a m h = elim m [ ]
  In-keep_of (x ∷ xs) a (inl e) h = rw (ap test e ∙ h) (inl e)
  In-keep_of (x ∷ xs) a (inr m) h = elim (Bool-cases (test x)) [
    | inl yes_x ↦ rw yes_x (inr (In-keep_of xs a m h))
    | inr no_x ↦ rw no_x (In-keep_of xs a m h)
  ]

  pub any-false : (xs : List A) → any test xs ≡ false → All (λ x. test x ≡ false) xs
  unfolding any
  any-false [] h = tt
  any-false (x ∷ xs) h = (ground arith, any-false xs (ground arith))

  pub any-true : (xs : List A) → any test xs ≡ true → (a : A) × In a xs × (test a ≡ true)
  unfolding any
  any-true [] h = cc
  any-true (x ∷ xs) h = elim (Bool-cases (test x)) [
    | inl yes_x ↦ (x, inl refl, yes_x)
    | inr no_x ↦ let (a, p, q) = any-true xs (rw no_x at h) in (a, inr p, q)
  ]

  pub any_of_In : (xs : List A) (a : A) → In a xs → test a ≡ true → any test xs ≡ true
  unfolding any
  any_of_In [] a m h = elim m [ ]
  any_of_In (x ∷ xs) a (inl e) h = rw (ap test e ∙ h)
  any_of_In (x ∷ xs) a (inr m) h = let rest = any_of_In xs a m h in ground arith

  pub all-true : (xs : List A) → all test xs ≡ true → All (λ x. test x ≡ true) xs
  unfolding all
  all-true [] h = tt
  all-true (x ∷ xs) h = (ground arith, all-true xs (ground arith))

  pub all_of_All : (xs : List A) → All (λ x. test x ≡ true) xs → all test xs ≡ true
  unfolding all
  all_of_All [] h = refl
  all_of_All (x ∷ xs) h = rw h.0 (all_of_All xs h.1)

module _ {A B : Type 0} where
  pub In-map : (f : A → B) (xs : List A) (a : A) → In a xs → In (f a) (map f xs)
  In-map f [] a m = elim m [ ]
  In-map f (x ∷ xs) a (inl e) = inl (ap f e)
  In-map f (x ∷ xs) a (inr m) = inr (In-map f xs a m)

  pub In-map_of :
      (f : A → B) (xs : List A) (b : B) → In b (map f xs) → (a : A) × In a xs × (f a ≡ b)
  In-map_of f [] b m = elim m [ ]
  In-map_of f (x ∷ xs) b (inl e) = (x, inl refl, e)
  In-map_of f (x ∷ xs) b (inr m) = let (a, p, q) = In-map_of f xs b m in (a, inr p, q)

  pub length-map : (f : A → B) (xs : List A) → length (map f xs) ≡ length xs
  length-map f [] = refl
  length-map f (x ∷ xs) = ap suc (length-map f xs)

-- Two members of a list with at most one element are equal.
pub In-one : {A : Type 0} (xs : List A) (a b : A) → length xs ≤ 1 → In a xs → In b xs → a ≡ b
In-one [] a b h m n = elim m [ ]
In-one (x ∷ []) a b h (inl e) (inl f) = sym e ∙ f
In-one (x ∷ []) a b h (inr m) n = elim m [ ]
In-one (x ∷ []) a b h (inl e) (inr n) = elim n [ ]
In-one (x ∷ y ∷ xs) a b h m n = absurd (omega arith)

module _ {A B : Type 0} (P : B → Type 0) (f : A → List B) where
  -- A statement about all that a loop collects is one about all its rounds.
  pub All-collect_iff : (xs : List A) → All P (collect f xs) ↔ ((a : A) → In a xs → All P (f a))
  unfolding collect
  All-collect_iff xs = (there xs, back xs)
    where
      there : (xs : List A) → All P (collect f xs) → (a : A) → In a xs → All P (f a)
      there [] h a m = elim m [ ]
      there (x ∷ xs) h a (inl e) = rw (← e) (All-split P (f x) (collect f xs) h).0
      there (x ∷ xs) h a (inr m) = there xs (All-split P (f x) (collect f xs) h).1 a m

      back : (xs : List A) → ((a : A) → In a xs → All P (f a)) → All P (collect f xs)
      back [] h = tt
      back (x ∷ xs) h =
          All-append P (f x) (collect f xs) (h x (inl refl)) (back xs (λ a m. h a (inr m)))

pub map-eq-nil : {A B : Type 0} (f : A → B) (xs : List A) → map f xs ≡ [] → xs ≡ []
map-eq-nil f [] h = refl
map-eq-nil f (x ∷ xs) h = cc

pub List-cases :
    {A : Type 0} (xs : List A) → (xs ≡ []) ⊎ ((x : A) × (rest : List A) × (xs ≡ x ∷ rest))
List-cases [] = inl refl
List-cases (x ∷ xs) = inr (x, xs, refl)
