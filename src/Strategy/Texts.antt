-- ===== src/Strategy/Texts.antt =====
-- cosheaf/strategy/models.py: the texts and paths that its validators accept, and the pattern of
-- cosheaf/agent/run_logging.py for secrets. Whether a Windows path is absolute is pathlib's to say,
-- and a parameter.
use tcs_cosheaf.Base.{
  String, ℕ, ◌+◌, Bool, true, false, not, ◌&&◌, ◌||◌, List, [], ◌∷◌, if◌then◌else◌, any, blank,
  strip, codes, starts_with, str_eq, leb, ◌==◌, Result, ok, err, ◌>>◌, require,
}
use tcs_cosheaf.Core.PurePath.{is_rooted, path_parts}
use tcs_cosheaf.Core.Regex.{Regex, nothing, cls, seq, alt, plus, nullable, deriv}
use tcs_cosheaf.Core.Validate.{targets_accepted}
use tcs_cosheaf.Campaigns.Texts.{normalize_repo_path, text_sequence}

abbrev in_range : ℕ → ℕ → ℕ → Bool
in_range first last c = leb first c && leb c last

-- `[A-Za-z0-9]` where the case is ignored: the four other letters whose case folds to ASCII count.
abbrev is_secret_code : ℕ → Bool
is_secret_code c =
    in_range b'A' b'Z' c
    || (in_range b'a' b'z' c
        || (in_range b'0' b'9' c || (c == 0x130 || (c == 0x131 || (c == 0x17f || c == 0x212a)))))

-- One letter, its case ignored; `s` also stands for the long s, and `k` for the Kelvin sign.
abbrev is_letter_of : ℕ → ℕ → Bool
is_letter_of l c =
    c == l || (c + 32 == l || ((l == b's' && c == 0x17f) || (l == b'k' && c == 0x212a)))

abbrev letter : ℕ → Regex
letter l = cls (is_letter_of l)

abbrev one_of : List ℕ → Regex
one_of letters = cls (λ c. any (λ l. is_letter_of l c) letters)

abbrev dash : Regex
dash = cls (λ c. c == b'-')

-- `SECRET_VALUE_PATTERN`
abbrev pub secret_value_pattern : Regex
secret_value_pattern =
    alt
      (seq (letter b's') (
        seq (letter b'k')
          (seq dash (plus (cls (λ c. is_secret_code c || (c == b'_' || c == b'-')))))))
      (alt
        (seq (letter b'g') (
          seq (letter b'h') (
            seq (one_of (b'p' ∷ b'o' ∷ b'u' ∷ b's' ∷ b'r' ∷ []))
              (seq (cls (λ c. c == b'_')) (plus (cls (λ c. is_secret_code c || c == b'_')))))))
        (seq (letter b'x') (
          seq (letter b'o') (
            seq (letter b'x') (
              seq (one_of (b'b' ∷ b'a' ∷ b'p' ∷ b'r' ∷ b's' ∷ []))
                (seq dash (plus (cls (λ c. is_secret_code c || c == b'-')))))))))

-- No text matches.
abbrev is_void : Regex → Bool
is_void nothing = true
is_void (seq r q) = is_void r || is_void q
is_void (alt r q) = is_void r && is_void q
is_void _ = false

-- Whether some start of the text matches. The search ends where no longer start can match.
unfoldable pub matches_start : Regex → List ℕ → Bool
unfolding nullable deriv
matches_start r [] = nullable r
matches_start r (c ∷ cs) =
    let next = deriv c r in
    elim (nullable r) [
      | true ↦ true
      | false ↦ elim (is_void next) [ true ↦ false | false ↦ matches_start next cs ]
    ]

-- `Pattern.search`: whether the expression matches from some place on.
unfoldable pub search : Regex → List ℕ → Bool
unfolding matches_start
search r [] = nullable r
search r (c ∷ cs) = elim (matches_start r (c ∷ cs)) [ true ↦ true | false ↦ search r cs ]

-- `SECRET_VALUE_PATTERN.search(value)`
unfoldable pub has_secret : String → Bool
unfolding search
has_secret value = search secret_value_pattern (codes value)

-- `_safe_text`
unfoldable pub safe_text : String → Result String
unfolding strip has_secret
safe_text value =
    let normalized = strip value in
    if blank normalized
    then err "text field must be non-empty"
    else if has_secret normalized
    then err "text field contains secret-looking value"
    else ok normalized

-- `_dedupe(_safe_text(item) for item in _text_items(value))`
unfoldable pub safe_texts : List String → Result (List String)
unfolding safe_text
safe_texts values = text_sequence safe_text values

module _ (windows_absolute : String → Bool) where
  -- The condition of `_validate_repo_local_path`, of the trimmed and the normalised text.
  unfoldable pub leaves_workspace : String → String → Bool
  unfolding any
  leaves_workspace raw normalized =
      blank normalized
      || (str_eq normalized "."
          || (str_eq normalized ".."
              || (starts_with (codes normalized) (codes "../")
                  || (is_rooted normalized
                      || ((is_rooted raw || windows_absolute raw)
                          || any (λ s. str_eq s "..") (path_parts normalized))))))

  -- `_validate_repo_local_path`
  unfoldable pub validate_repo_local_path : Bool → String → Result String
  unfolding strip normalize_repo_path targets_accepted
  validate_repo_local_path forbid_accepted value = do
    let raw = strip value
    let normalized = normalize_repo_path raw
    require (not (leaves_workspace raw normalized)) "path must be repository-local"
    require (not (forbid_accepted && targets_accepted (path_parts normalized)))
        "strategy plans cannot authorize writes to accepted KB paths"
    ok normalized
