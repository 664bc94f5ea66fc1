-- ===== src/Gates/Distinct.antt =====
-- Lists of texts without repetitions, as cosheaf/gates/dependency_gate.py and the models build them.
use tcs_cosheaf.Base.{
  String, Bool, true, false, not, List, [], ◌∷◌, ◌≡◌, refl, sym, ap, ◌∙◌, inl, inr, Bool-cases, All,
  keep, blank, strip, strip-strip, str_eq, eq_iff, All-of_In, All-at,
}
use tcs_cosheaf.Core.Validate.{strip_nonempty}
use tcs_cosheaf.Gates.Dependency.{distinct}
use tcs_cosheaf.Gates.DependencyLaws.{In-distinct}

-- A text that is trimmed and not empty.
abbrev pub IsTrimmed : String → Type 0
IsTrimmed s = (strip s ≡ s) × (blank s ≡ false)

module _ {A : Type 0} (p q : A → Bool) where
  keep-keep : (xs : List A) → keep p (keep q xs) ≡ keep q (keep p xs)
  unfolding keep
  keep-keep [] = refl
  keep-keep (x ∷ xs) =
      let rest = keep-keep xs in
      elim (Bool-cases (p x)) [
        | inl e ↦ elim (Bool-cases (q x)) [
          | inl f ↦ rw (f, e, f) (ap (λ zs. x ∷ zs) rest)
          | inr f ↦ rw (f, e, f) rest
        ]
        | inr e ↦ elim (Bool-cases (q x)) [ inl f ↦ rw (f, e) rest | inr f ↦ rw (f, e) rest ]
      ]

  -- A test that the other implies changes nothing after it.
  keep-implied :
      ((x : A) → p x ≡ true → q x ≡ true) → (xs : List A) → keep p (keep q xs) ≡ keep p xs
  unfolding keep
  keep-implied more [] = refl
  keep-implied more (x ∷ xs) =
      let rest = keep-implied more xs in
      elim (Bool-cases (q x)) [
        | inl f ↦ elim (Bool-cases (p x)) [
          | inl e ↦ rw (f, e) (ap (λ zs. x ∷ zs) rest)
          | inr e ↦ rw (f, e) rest
        ]
        | inr f ↦ elim (Bool-cases (p x)) [
          | inl e ↦ absurd (let k = more x e in cc)
          | inr e ↦ rw (f, e) rest
        ]
      ]

distinct-keep : (p : String → Bool) (xs : List String) → distinct (keep p xs) ≡ keep p (distinct xs)
unfolding distinct keep
distinct-keep p [] = refl
distinct-keep p (x ∷ xs) = elim (Bool-cases (p x)) [
  | inl e ↦
      rw (e, distinct-keep p xs)
        (ap (λ zs. x ∷ zs) (keep-keep (λ t. not (str_eq x t)) p (distinct xs)))
  | inr e ↦
      rw e (
        distinct-keep p xs ∙ sym (keep-implied p (λ t. not (str_eq x t)) (other x e) (distinct xs)))
]
  where
    other : (x : String) → p x ≡ false → (t : String) → p t ≡ true → not (str_eq x t) ≡ true
    other x e t h = elim (Bool-cases (str_eq x t)) [
      | inl f ↦ absurd (let k : p x ≡ true = ap p ((eq_iff x t).0 f) ∙ h in cc)
      | inr f ↦ rw f refl
    ]

pub distinct-distinct : (xs : List String) → distinct (distinct xs) ≡ distinct xs
unfolding distinct
distinct-distinct [] = refl
distinct-distinct (x ∷ xs) =
    ap (λ zs. x ∷ zs)
      (ap (keep (λ t. not (str_eq x t))) (
          distinct-keep (λ t. not (str_eq x t)) (distinct xs)
          ∙ ap (keep (λ t. not (str_eq x t))) (distinct-distinct xs))
        ∙ keep-implied (λ t. not (str_eq x t)) (λ t. not (str_eq x t)) (λ t h. h) (distinct xs))

pub strip_nonempty-trimmed : (ys : List String) → All IsTrimmed ys → strip_nonempty ys ≡ ys
unfolding strip_nonempty keep
strip_nonempty-trimmed [] h = refl
strip_nonempty-trimmed (y ∷ ys) ((e, f), h) =
    rw (e, f) (ap (λ zs. y ∷ zs) (strip_nonempty-trimmed ys h))

strip_nonempty-IsTrimmed : (xs : List String) → All IsTrimmed (strip_nonempty xs)
unfolding strip_nonempty keep
strip_nonempty-IsTrimmed [] = tt
strip_nonempty-IsTrimmed (x ∷ xs) = elim (Bool-cases (blank (strip x))) [
  | inl e ↦ rw e (strip_nonempty-IsTrimmed xs)
  | inr e ↦ rw e ((strip-strip x, e), strip_nonempty-IsTrimmed xs)
]

-- Trimmed texts without repetitions stay as they are.
pub distinct-strip_nonempty :
    (xs : List String)
    → distinct (strip_nonempty (distinct (strip_nonempty xs))) ≡ distinct (strip_nonempty xs)
distinct-strip_nonempty xs =
    let trimmed = All-of_In IsTrimmed (distinct (strip_nonempty xs)) (λ y m.
      All-at IsTrimmed (strip_nonempty xs) (strip_nonempty-IsTrimmed xs) y
        (In-distinct (strip_nonempty xs) y m)) in
    ap distinct (strip_nonempty-trimmed _ trimmed) ∙ distinct-distinct (strip_nonempty xs)
