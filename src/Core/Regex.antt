-- ===== src/Core/Regex.antt =====
-- Regular expressions, and `Pattern.fullmatch` of Python's `re` by derivatives.
use tcs_cosheaf.Base.{
  ℕ, Bool, true, false, ◌&&◌, ◌||◌, List, [], ◌∷◌, ◌++◌, ◌≡◌, refl, sym, ◌∙◌, ap, ◌⊎◌, inl, inr,
  ◌↔◌, arith, if◌then◌else◌, Bool-cases, All, All-append,
}

pub data Regex : Type 0 where
  nothing empty : Regex
  cls : (ℕ → Bool) → Regex
  seq alt : Regex → Regex → Regex
  star : Regex → Regex

-- `r+`
abbrev pub plus : Regex → Regex
plus r = seq r (star r)

unfoldable pub nullable : Regex → Bool
nullable nothing = false
nullable empty = true
nullable (cls p) = false
nullable (seq r q) = nullable r && nullable q
nullable (alt r q) = nullable r || nullable q
nullable (star r) = true

-- What may follow once `c` is read.
unfoldable pub deriv : ℕ → Regex → Regex
unfolding nullable
deriv c nothing = nothing
deriv c empty = nothing
deriv c (cls p) = if p c then empty else nothing
deriv c (seq r q) =
    let here = seq (deriv c r) q in
    let past = alt here (deriv c q) in if nullable r then past else here
deriv c (alt r q) = alt (deriv c r) (deriv c q)
deriv c (star r) = seq (deriv c r) (star r)

unfoldable pub fullmatch : Regex → List ℕ → Bool
unfolding deriv nullable
fullmatch r [] = nullable r
fullmatch r (c ∷ s) = fullmatch (deriv c r) s

-- The language of an expression.
pub data Repeated (P : List ℕ → Type 0) : List ℕ → Type 0 where
  done : {s : List ℕ} → s ≡ [] → Repeated P s
  more : {s : List ℕ} (u v : List ℕ) → s ≡ u ++ v → P u → Repeated P v → Repeated P s

abbrev pub Matches : Regex → List ℕ → Type 0
Matches nothing s = ⊥
Matches empty s = s ≡ []
Matches (cls p) s = (c : ℕ) × (s ≡ c ∷ []) × (p c ≡ true)
Matches (seq r q) s = (u : List ℕ) × (v : List ℕ) × (s ≡ u ++ v) × Matches r u × Matches q v
Matches (alt r q) s = Matches r s ⊎ Matches q s
Matches (star r) s = Repeated (Matches r) s

nullable_sound : (r : Regex) → nullable r ≡ true → Matches r []
unfolding nullable
nullable_sound nothing h = cc
nullable_sound empty h = refl
nullable_sound (cls p) h = cc
nullable_sound (seq r q) h =
    ([], [], refl, nullable_sound r (ground arith), nullable_sound q (ground arith))
nullable_sound (alt r q) h = elim (Bool-cases (nullable r)) [
  | inl e ↦ inl (nullable_sound r e)
  | inr e ↦ inr (nullable_sound q (ground arith))
]
nullable_sound (star r) h = done refl

nullable_complete : (r : Regex) → Matches r [] → nullable r ≡ true
unfolding nullable
nullable_complete nothing m = elim m [ ]
nullable_complete empty m = refl
nullable_complete (cls p) (c, e, h) = cc
nullable_complete (seq r q) ([], v, e, m, n) =
    rw (nullable_complete r m) (nullable_complete q (rw (← e) at n))
nullable_complete (seq r q) (c ∷ u, v, e, m, n) = cc
nullable_complete (alt r q) (inl m) = rw (nullable_complete r m)
nullable_complete (alt r q) (inr m) = let h = nullable_complete q m in ground arith
nullable_complete (star r) m = refl

deriv_sound : (r : Regex) (c : ℕ) (s : List ℕ) → Matches (deriv c r) s → Matches r (c ∷ s)
unfolding deriv
deriv_sound nothing c s m = elim m [ ]
deriv_sound empty c s m = elim m [ ]
deriv_sound (cls p) c s m = elim (Bool-cases (p c)) [
  | inl e ↦ (c, ap (λ (t : List ℕ). c ∷ t) (rw e at m), e)
  | inr e ↦ absurd (rw e at m)
]
deriv_sound (seq r q) c s m = elim (Bool-cases (nullable r)) [
  | inl e ↦ elim (rw (e, if◌then◌else◌) at m) [
    | inl (u, v, f, m', n) ↦ (c ∷ u, v, ap (λ (t : List ℕ). c ∷ t) f, deriv_sound r c u m', n)
    | inr n ↦ ([], c ∷ s, refl, nullable_sound r e, deriv_sound q c s n)
  ]
  | inr e ↦
      let (u, v, f, m', n) = rw e at m in
      (c ∷ u, v, ap (λ (t : List ℕ). c ∷ t) f, deriv_sound r c u m', n)
]
deriv_sound (alt r q) c s (inl m) = inl (deriv_sound r c s m)
deriv_sound (alt r q) c s (inr m) = inr (deriv_sound q c s m)
deriv_sound (star r) c s (u, v, f, m, n) =
    more (c ∷ u) v (ap (λ (t : List ℕ). c ∷ t) f) (deriv_sound r c u m) n

fullmatch_sound : (r : Regex) (s : List ℕ) → fullmatch r s ≡ true → Matches r s
unfolding fullmatch
fullmatch_sound r [] h = nullable_sound r h
fullmatch_sound r (c ∷ s) h = deriv_sound r c s (fullmatch_sound (deriv c r) s h)

cons_tail : {c d : ℕ} {s t : List ℕ} → ◌≡◌ {A = List ℕ} (c ∷ s) (d ∷ t) → (d ≡ c) × (s ≡ t)
cons_tail e = (cc, cc)

-- The first round of a repetition that reads something.
first_round :
    (P : List ℕ → Type 0) {w : List ℕ} (c : ℕ) (s : List ℕ)
    → w ≡ c ∷ s
    → Repeated P w
    → (u : List ℕ) × (v : List ℕ) × (s ≡ u ++ v) × P (c ∷ u) × Repeated P v
first_round P c s h (done e) = cc
first_round P c s h (more [] v e p n) = first_round P c s (sym e ∙ h) n
first_round P c s h (more (d ∷ u) v e p n) =
    let (same, rest) = cons_tail (sym h ∙ e) in (u, v, rest, rw same at p, n)

deriv_complete : (r : Regex) (c : ℕ) (s : List ℕ) → Matches r (c ∷ s) → Matches (deriv c r) s
unfolding deriv
deriv_complete nothing c s m = m
deriv_complete empty c s m = cc
deriv_complete (cls p) c s (d, e, h) = let (same, rest) = cons_tail e in rw (rw same at h) rest
deriv_complete (seq r q) c s ([], v, e, m, n) =
    rw (nullable_complete r m) (inr (deriv_complete q c s (rw (← e) at n)))
deriv_complete (seq r q) c s (d ∷ u, v, e, m, n) =
    let (same, rest) = cons_tail e in
    let here : Matches (seq (deriv c r) q) s =
      (u, v, rest, deriv_complete r c u (rw same at m), n) in
    elim (Bool-cases (nullable r)) [ inl e ↦ rw e (inl here) | inr e ↦ rw e here ]
deriv_complete (alt r q) c s (inl m) = inl (deriv_complete r c s m)
deriv_complete (alt r q) c s (inr m) = inr (deriv_complete q c s m)
deriv_complete (star r) c s m =
    let (u, v, rest, p, n) = first_round (Matches r) c s refl m in
    (u, v, rest, deriv_complete r c u p, n)

fullmatch_complete : (r : Regex) (s : List ℕ) → Matches r s → fullmatch r s ≡ true
unfolding fullmatch
fullmatch_complete r [] m = nullable_complete r m
fullmatch_complete r (c ∷ s) m = fullmatch_complete (deriv c r) s (deriv_complete r c s m)

-- The matcher accepts exactly the language.
pub fullmatch_iff : (r : Regex) (s : List ℕ) → (fullmatch r s ≡ true) ↔ Matches r s
fullmatch_iff r s = (fullmatch_sound r s, fullmatch_complete r s)

-- Every class of the expression lies within `p`.
abbrev pub Over : (ℕ → Bool) → Regex → Type 0
Over p nothing = Unit
Over p empty = Unit
Over p (cls q) = (c : ℕ) → q c ≡ true → p c ≡ true
Over p (seq r q) = Over p r × Over p q
Over p (alt r q) = Over p r × Over p q
Over p (star r) = Over p r

Repeated-All :
    (p : ℕ → Bool) (P : List ℕ → Type 0)
    → ((u : List ℕ) → P u → All (λ c. p c ≡ true) u)
    → (s : List ℕ) → Repeated P s
    → All (λ c. p c ≡ true) s
Repeated-All p P h s (done e) = rw e tt
Repeated-All p P h s (more u v e m n) =
    rw e (All-append (λ c. p c ≡ true) u v (h u m) (Repeated-All p P h v n))

-- A text of the language has only characters of its classes.
pub Matches-All :
    (p : ℕ → Bool) (r : Regex) → Over p r → (s : List ℕ) → Matches r s → All (λ c. p c ≡ true) s
Matches-All p nothing o s m = elim m [ ]
Matches-All p empty o s m = rw m tt
Matches-All p (cls q) o s (c, e, h) = rw e (o c h, tt)
Matches-All p (seq r q) o s (u, v, e, m, n) =
    rw e (All-append (λ c. p c ≡ true) u v (Matches-All p r o.0 u m) (Matches-All p q o.1 v n))
Matches-All p (alt r q) o s (inl m) = Matches-All p r o.0 s m
Matches-All p (alt r q) o s (inr m) = Matches-All p q o.1 s m
Matches-All p (star r) o s m = Repeated-All p (Matches r) (Matches-All p r o) s m
