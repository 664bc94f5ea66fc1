-- ===== src/Base/Errors.antt =====
-- Exceptions: a call either returns a value or raises, and what it raises is its message.
use Prim.Native.String.{String}
use mathlib.Core.Path.{◌≡◌, refl}
use mathlib.Core.Bool.{Bool, true, false}
use mathlib.Core.List.{List, [], ◌∷◌}
use tcs_cosheaf.Base.Lists.{All}

pub data Result {ℓ} (A : Type ℓ) : Type ℓ where
  err : (message : String) → Result A
  ok : (value : A) → Result A

-- The rest of a body runs on what the call returned; an exception leaves the body.
infixl 5 ◌>>=◌
abbrev pub ◌>>=◌ {ℓ κ} :
    {A : Type ℓ} {B : Type κ} (call : Result A) (rest : A → Result B) → Result B
err message >>= rest = err message
ok value >>= rest = rest value

infixl 5 ◌>>◌
abbrev pub ◌>>◌ {ℓ κ} : {A : Type ℓ} {B : Type κ} (call : Result A) (rest : Result B) → Result B
call >> rest = call >>= λ done. rest

-- A body that returned went through its first call, and then through the rest.
pub after {ℓ κ μ} :
    {A : Type ℓ} {B : Type κ} {C : Type μ} (call : Result A) (rest : A → Result B) {b : B}
    → (call >>= rest) ≡ ok b
    → ((a : A) → call ≡ ok a → rest a ≡ ok b → C)
    → C
after (err message) rest returned goal = cc
after (ok value) rest returned goal = goal value refl returned

-- `if not test: raise ValueError(message)`
abbrev pub require : Bool → String → Result (Unit {0})
require false message = err message
require true message = ok tt

-- `[f(x) for x in xs]` where `f` may raise.
unfoldable pub map_result : {A B : Type 0} → (A → Result B) → List A → Result (List B)
map_result f [] = ok []
map_result f (x ∷ xs) = do y ← f x; ys ← map_result f xs; ok (y ∷ ys)

pub ok_inj {ℓ} : {A : Type ℓ} {a b : A} → ok a ≡ ok b → a ≡ b
ok_inj same = cc

-- What holds of each result holds of all results.
pub map_result-All {κ} :
    {A B : Type 0} (P : B → Type κ) (f : A → Result B)
    → ((a : A) (b : B) → f a ≡ ok b → P b)
    → (xs : List A) {ys : List B} → map_result f xs ≡ ok ys
    → All P ys
unfolding map_result
map_result-All P f each [] h = rw (← ok_inj h) tt
map_result-All P f each (x ∷ xs) h = after (f x) _ h λ y at_x more.
    after (map_result f xs) _ more
      λ zs at_xs whole. rw (← ok_inj whole) (each x y at_x, map_result-All P f each xs at_xs)
