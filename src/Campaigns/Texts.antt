-- ===== src/Campaigns/Texts.antt =====
-- cosheaf/campaigns/models.py: the texts, references and timestamps that its validators accept.
-- Whether a Windows path is absolute is pathlib's to say, and a parameter.
use Prim.Native.Char.{code}
use Prim.Native.Nat.{◌/◌}
use Prim.Native.String
use tcs_cosheaf.Base.{
  String, ℕ, ◌*◌, Bool, true, not, ◌&&◌, ◌||◌, List, [], ◌∷◌, Option, none, some, if◌then◌else◌,
  any, blank, strip, codes, lower, starts_with, has_part, str_eq, ◌==◌, join, Result, ok, err,
  ◌>>=◌, ◌>>◌, require, map_result, keep,
}
use tcs_cosheaf.Core.PurePath.{windows_as_posix, split_slash, is_segment, is_rooted, path_parts}
use tcs_cosheaf.Core.Artifact.{Timestamp}
use tcs_cosheaf.Core.Validate.{strip_nonempty, posix_text, targets_accepted}
use tcs_cosheaf.Gates.Dependency.{distinct}

abbrev pub empty_text : String
empty_text = "text field must be non-empty"

-- `_safe_text`
unfoldable pub safe_text : String → Result String
unfolding strip
safe_text value =
    let normalized = strip value in if blank normalized then err empty_text else ok normalized

-- `_safe_optional_text`
unfoldable pub safe_optional_text : Option String → Result (Option String)
unfolding safe_text
safe_optional_text none = ok none
safe_optional_text (some value) =
    let normalized = strip value in
    let checked = safe_text normalized in
    if blank normalized then ok none else (do text ← checked; ok (some text))

-- A sequence of texts, each checked, without repetitions.
unfoldable pub text_sequence : (String → Result String) → List String → Result (List String)
unfolding map_result strip_nonempty
text_sequence check values = do
  items ← map_result check (strip_nonempty values)
  ok (distinct items)

abbrev pub has_character : ℕ → String → Bool
has_character c s = any (λ d. d == c) (codes s)

-- `_looks_like_path`: a slash, a backslash, or a dot in front.
unfoldable pub looks_like_path : String → Bool
unfolding any
looks_like_path value =
    has_character 47 value || (has_character 92 value || starts_with (codes value) (46 ∷ []))

-- The root of a POSIX path: two slashes stay, three or more are one.
abbrev pub root_text : String → String
root_text String.[] = ""
root_text (String.◌∷◌ c String.[]) = if code c == 47 then "/" else ""
root_text (String.◌∷◌ c (String.◌∷◌ d s)) =
    if code c == 47
    then (if code d == 47 && not (starts_with (codes s) (47 ∷ [])) then "//" else "/")
    else ""

-- `normalize_repo_path`
unfoldable pub normalize_repo_path : String → String
unfolding keep split_slash is_segment
normalize_repo_path path =
    let posix = windows_as_posix path in
    let segments = keep is_segment (split_slash posix) in
    if is_rooted posix
    then String.◌++◌ (root_text posix) (join "/" segments)
    else posix_text segments

abbrev pub not_local : String
not_local = "campaign references must be repository-local"

abbrev pub accepted_reference : String
accepted_reference = "campaign records cannot reference accepted KB paths"

module _ (windows_absolute : String → Bool) where
  unfoldable pub leaves_repository : String → Bool
  unfolding any
  leaves_repository normalized =
      let repo_path = normalize_repo_path normalized in
      (is_rooted normalized || windows_absolute normalized)
      || (is_rooted normalized
          || (str_eq repo_path ".."
              || (starts_with (codes repo_path) (codes "../")
                  || any (λ s. str_eq s "..") (path_parts repo_path))))

  -- `_validate_safe_reference`
  unfoldable pub validate_safe_reference : String → Result String
  unfolding safe_text
  validate_safe_reference value = do
    normalized ← safe_text value
    if looks_like_path normalized
        then (do
          require (not (leaves_repository normalized)) not_local
          require (not (targets_accepted (path_parts (normalize_repo_path normalized))))
              accepted_reference
          ok (normalize_repo_path normalized))
        else (do
          require
              (not (
                has_part (codes "kb.accepted") (lower normalized)
                || starts_with (lower normalized) (codes "accepted.")))
              accepted_reference
          ok normalized)

-- `_normalize_timestamp`: the fraction of the second is dropped.
unfoldable pub normalize_timestamp : Timestamp → Result Timestamp
normalize_timestamp value = do
  require value.aware "timestamp must include timezone information"
  ok (record { instant = (value.instant / 1000000) * 1000000; aware = true })

unfoldable pub normalize_optional : Option Timestamp → Result (Option Timestamp)
normalize_optional none = ok none
normalize_optional (some value) = do t ← normalize_timestamp value; ok (some t)
