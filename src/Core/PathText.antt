-- ===== src/Core/PathText.antt =====
-- The text of a path gives its parts again (`PurePosixPath.as_posix`, `PurePosixPath.parts`).
use Prim.Native.Char.{Char, code}
use tcs_cosheaf.Base.{
  String, true, false, not, ◌&&◌, ◌≡◌, ◌≢◌, refl, ap, List, [], ◌∷◌, arith, ◌==◌, Bool-cases, inl,
  inr, All, keep, join,
}
use tcs_cosheaf.Core.PurePath.{split_slash, path_parts, is_rooted, is_segment, push_char}
use tcs_cosheaf.Core.PathLaws.{slash_free, split_slash-append, is_rooted-append}
use tcs_cosheaf.Core.Validate.{posix_text}

abbrev pub IsSegment : String → Type 0
IsSegment s = (slash_free s ≡ true) × (is_segment s ≡ true)

push_char-free :
    (c : Char) (ss : List String)
    → (code c == 47) ≡ false
    → All (λ s. slash_free s ≡ true) ss
    → All (λ s. slash_free s ≡ true) (push_char c ss)
unfolding slash_free
push_char-free c [] e h = (rw e refl, tt)
push_char-free c (s ∷ ss) e h = (rw (e, h.0) refl, h.1)

split_slash-free : (s : String) → All (λ s. slash_free s ≡ true) (split_slash s)
unfolding split_slash
split_slash-free String.[] = (unfold slash_free in refl, tt)
split_slash-free (String.◌∷◌ c s) = elim (Bool-cases (code c == 47)) [
  | inl e ↦ rw e (unfold slash_free in refl, split_slash-free s)
  | inr e ↦ rw e (push_char-free c (split_slash s) e (split_slash-free s))
]

keep-IsSegment :
    (ss : List String) → All (λ s. slash_free s ≡ true) ss → All IsSegment (keep is_segment ss)
unfolding keep
keep-IsSegment [] h = tt
keep-IsSegment (s ∷ ss) h = elim (Bool-cases (is_segment s)) [
  | inl e ↦ rw e ((h.0, e), keep-IsSegment ss h.1)
  | inr e ↦ rw e (keep-IsSegment ss h.1)
]

-- The parts of a path with no root are segments.
pub path_parts-IsSegment : (s : String) → is_rooted s ≡ false → All IsSegment (path_parts s)
unfolding path_parts
path_parts-IsSegment s h = rw h (keep-IsSegment (split_slash s) (split_slash-free s))

split_slash_one : (s : String) → slash_free s ≡ true → split_slash s ≡ s ∷ []
unfolding split_slash slash_free
split_slash_one String.[] h = refl
split_slash_one (String.◌∷◌ c s) h = elim (Bool-cases (code c == 47)) [
  | inl e ↦ cc (rw (e, not, ◌&&◌) at h)
  | inr e ↦ rw e (rw (split_slash_one s (ground arith)) refl)
]

split_slash-join :
    (p : String) (ps : List String)
    → All IsSegment (p ∷ ps)
    → split_slash (join "/" (p ∷ ps)) ≡ p ∷ ps
unfolding join
split_slash-join p [] h = split_slash_one p h.0.0
split_slash-join p (q ∷ ps) h =
    rw (split_slash-append p (join "/" (q ∷ ps)) h.0.0)
      (ap (λ (l : List String). p ∷ l) (split_slash-join q ps h.1))

keep-All : (ss : List String) → All IsSegment ss → keep is_segment ss ≡ ss
unfolding keep
keep-All [] h = refl
keep-All (s ∷ ss) h = rw h.0.1 (ap (λ (l : List String). s ∷ l) (keep-All ss h.1))

segment-nonblank : (s : String) → is_segment s ≡ true → s ≢ ""
unfolding is_segment
segment-nonblank String.[] h e = cc
segment-nonblank (String.◌∷◌ c s) h e = cc

free-is_rooted : (s : String) → slash_free s ≡ true → is_rooted s ≡ false
unfolding slash_free is_rooted
free-is_rooted String.[] h = refl
free-is_rooted (String.◌∷◌ c s) h = ground arith

join-is_rooted :
    (p : String) (ps : List String) → All IsSegment (p ∷ ps) → is_rooted (join "/" (p ∷ ps)) ≡ false
unfolding join
join-is_rooted p [] h = free-is_rooted p h.0.0
join-is_rooted p (q ∷ ps) h =
    rw (is_rooted-append p _ (segment-nonblank p h.0.1)) (free-is_rooted p h.0.0)

-- The text of segments has no root, and has these segments for its parts.
pub path_parts-posix_text :
    (ps : List String)
    → All IsSegment ps
    → (is_rooted (posix_text ps) ≡ false) × (path_parts (posix_text ps) ≡ ps)
path_parts-posix_text [] h = (unfold is_rooted in refl, unfold path_parts in refl)
path_parts-posix_text (p ∷ ps) h = (
  join-is_rooted p ps h,
  unfold path_parts in rw (join-is_rooted p ps h, split_slash-join p ps h) (keep-All (p ∷ ps) h),
)
