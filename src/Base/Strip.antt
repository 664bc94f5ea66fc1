-- ===== src/Base/Strip.antt =====
-- A trimmed text stays as it is when it is trimmed again.
use Prim.Native.Char.{Char, code}
use Prim.Native.String.{String}
use mathlib.Core.Path.{◌≡◌, refl, ap, ◌∙◌}
use mathlib.Core.Logic.{inl, inr}
use mathlib.Core.Bool.{false, ◌&&◌}
use tcs_cosheaf.Base.Tests.{Bool-cases}
use tcs_cosheaf.Base.Text.{is_space, blank, lstrip, rstrip, strip}

rstrip-rstrip : (s : String) → rstrip (rstrip s) ≡ rstrip s
unfolding rstrip
rstrip-rstrip String.[] = refl
rstrip-rstrip (String.◌∷◌ c s) = elim (Bool-cases (blank (rstrip s) && is_space (code c))) [
  | inl e ↦ rw e refl
  | inr e ↦ rw (e, rstrip-rstrip s, e) refl
]

lstrip-inked :
    (c : Char) (s : String) → is_space (code c) ≡ false → lstrip (String.◌∷◌ c s) ≡ String.◌∷◌ c s
unfolding lstrip
lstrip-inked c s e = rw e refl

lstrip-rstrip : (s : String) → lstrip (rstrip (lstrip s)) ≡ rstrip (lstrip s)
unfolding lstrip rstrip
lstrip-rstrip String.[] = refl
lstrip-rstrip (String.◌∷◌ c s) = elim (Bool-cases (is_space (code c))) [
  | inl e ↦ rw e (lstrip-rstrip s)
  | inr e ↦ elim (Bool-cases (blank (rstrip s))) [
    | inl f ↦ rw (e, f, e) (lstrip-inked c (rstrip s) e)
    | inr f ↦ rw (e, f) (lstrip-inked c (rstrip s) e)
  ]
]

pub strip-strip : (s : String) → strip (strip s) ≡ strip s
unfolding strip
strip-strip s = ap rstrip (lstrip-rstrip s) ∙ rstrip-rstrip (lstrip s)
