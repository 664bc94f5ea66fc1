-- ===== src/Core/Ids.antt =====
-- cosheaf/core/ids.py: artifact identifiers.
use tcs_cosheaf.Base.{
  String, ℕ, Bool, true, ◌&&◌, ◌||◌, List, ◌∷◌, ◌++◌, ◌≡◌, refl, inl, inr, arith, if◌then◌else◌,
  Bool-cases, All, In, leb, ◌==◌, codes, Result, ok, err, ◌↔◌, In-append_right,
}
use tcs_cosheaf.Core.Regex.{
  Regex, cls, seq, alt, star, plus, fullmatch, Matches, fullmatch_iff, Over, Matches-All,
}

abbrev pub is_letter : ℕ → Bool
is_letter c = leb b'a' c && leb c b'z'

abbrev pub is_digit : ℕ → Bool
is_digit c = leb b'0' c && leb c b'9'

-- `[a-z][a-z0-9]*(?:-[a-z0-9]+)*`
abbrev pub slug_segment : Regex
slug_segment =
    let letter_or_digit = cls (λ c. is_letter c || is_digit c) in
    seq (cls is_letter)
      (seq (star letter_or_digit) (star (seq (cls (λ c. c == b'-')) (plus letter_or_digit))))

-- `[0-9]+`
abbrev pub number_segment : Regex
number_segment = plus (cls is_digit)

-- `SLUG(?:\.(?:SLUG|NUMBER))+`
abbrev pub artifact_id_pattern : Regex
artifact_id_pattern =
    seq slug_segment (plus (seq (cls (λ c. c == b'.')) (alt slug_segment number_segment)))

abbrev pub id_message : String
id_message =
    "artifact ID must be dot-separated lowercase slugs, with optional numeric version segments, for example 'claim.example.complete-graph-edge-count' or 'issue.topic.0001'"

unfoldable pub is_artifact_id : String → Bool
unfolding fullmatch
is_artifact_id value = fullmatch artifact_id_pattern (codes value)

unfoldable pub validate_artifact_id : String → Result String
unfolding is_artifact_id
validate_artifact_id value = if is_artifact_id value then ok value else err id_message

-- An identifier is accepted, and returned as it is, exactly if the pattern describes it.
pub validate_artifact_id_iff :
    (value result : String)
    → (validate_artifact_id value ≡ ok result)
      ↔ ((result ≡ value) × Matches artifact_id_pattern (codes value))
unfolding validate_artifact_id
validate_artifact_id_iff value result = (there, back)
  where
    there :
        validate_artifact_id value ≡ ok result
        → (result ≡ value) × Matches artifact_id_pattern (codes value)
    there h = elim (Bool-cases (is_artifact_id value)) [
      | inl e ↦ (ground arith, (fullmatch_iff artifact_id_pattern (codes value)).0 e)
      | inr e ↦ ground arith
    ]

    back :
        (result ≡ value) × Matches artifact_id_pattern (codes value)
        → validate_artifact_id value ≡ ok result
    back (e, m) = rw e (rw ((fullmatch_iff artifact_id_pattern (codes value)).1 m))

-- The characters that an identifier may have.
abbrev pub is_id_char : ℕ → Bool
is_id_char c = is_letter c || is_digit c || c == b'-' || c == b'.'

slug_first :
    (s : List ℕ)
    → Matches slug_segment s
    → (c : ℕ) × (rest : List ℕ) × (s ≡ c ∷ rest) × (is_letter c ≡ true)
slug_first s (u, v, e, (c, f, h), n) = (c, v, rw e (rw f refl), h)

slug-Over : Over is_id_char slug_segment
slug-Over = (
  λ c h. ground arith,
  (λ c h. ground arith, (λ c h. ground arith, (λ c h. ground arith, λ c h. ground arith))),
)

dotted-Over : Over is_id_char (seq (cls (λ c. c == b'.')) (alt slug_segment number_segment))
dotted-Over = (λ c h. ground arith, (slug-Over, (λ c h. ground arith, λ c h. ground arith)))

-- A dot stands in front of each later segment.
later_dot :
    (s : List ℕ)
    → Matches (plus (seq (cls (λ c. c == b'.')) (alt slug_segment number_segment))) s
    → In b'.' s
later_dot s (u, v, e, (x, y, f, (d, g, h), n), m) = rw (e, f, g) (inl (ground arith))

-- An accepted identifier has only lower-case letters, digits, dashes and dots, begins with a
-- letter, and has a dot.
pub validate_artifact_id_chars :
    (value : String)
    → validate_artifact_id value ≡ ok value
    → All (λ c. is_id_char c ≡ true) (codes value)
      × ((c : ℕ) × (rest : List ℕ) × (codes value ≡ c ∷ rest) × (is_letter c ≡ true))
      × In b'.' (codes value)
validate_artifact_id_chars value h =
    let matched = ((validate_artifact_id_iff value value).0 h).1 in
    let (u, v, e, m, n) = matched in
    let (c, rest, f, g) = slug_first u m in
    (
      Matches-All is_id_char artifact_id_pattern (slug-Over, (dotted-Over, dotted-Over))
          (codes value) matched,
      (c, rest ++ v, rw e (rw f refl), g),
      rw e (In-append_right b'.' u v (later_dot v n)),
    )
