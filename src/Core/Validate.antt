-- ===== src/Core/Validate.antt =====
-- The validators of cosheaf/core/artifact.py. A field's validators run in the order in which the
-- class declares them. Where the record's library collects the errors of all the fields, the
-- model stops at the first: in both no record is built.
use tcs_cosheaf.Base.{
  String, ℕ, Bool, true, false, not, ◌&&◌, ◌||◌, List, [], ◌∷◌, Option, none, some, if◌then◌else◌,
  leb, ltb, any, keep, map, blank, strip, lower, codes, starts_with, str_eq, is_space, Result, ok,
  err, ◌>>=◌, ◌>>◌, require, map_result, join, ◌==◌,
}
use Prim.Native.Char.{code}
use tcs_cosheaf.Core.PurePath.{windows_as_posix, path_parts, is_rooted}
use tcs_cosheaf.Core.Regex.{Regex, seq, star, fullmatch, cls}
use tcs_cosheaf.Core.Ids.{validate_artifact_id, slug_segment, is_letter}
use tcs_cosheaf.Core.Artifact.{
  Timestamp, SourceMetadata, FormalizationRef, AlignmentStatus, AlignmentReview, PolicyLevel,
  VerificationPolicy, FailureLogEntry, BaseArtifact, source_reviewed_with_formal_link,
  lean_required,
}

-- `[value.strip() for value in values if value.strip()]`
unfoldable pub strip_nonempty : List String → List String
unfolding keep strip
strip_nonempty values = keep (λ v. not (blank v)) (map strip values)

-- A text that must not be empty once trimmed.
unfoldable pub required_text : String → String → Result String
unfolding strip
required_text message value =
    let stripped = strip value in if blank stripped then err message else ok stripped

unfoldable pub validate_timestamp : String → Timestamp → Result Timestamp
validate_timestamp message value = if value.aware then ok value else err message

abbrev pub is_year : Option ℕ → Bool
is_year none = true
is_year (some year) = ltb 0 year

unfoldable pub validate_source : SourceMetadata → Result SourceMetadata
unfolding strip_nonempty strip
validate_source s = do
  require (is_year s.year) "year must be positive"
  ok (record s {
    title = strip s.title;
    authors = strip_nonempty s.authors;
    doi = strip s.doi;
    arxiv = strip s.arxiv;
    url = strip s.url;
    theorem_number = strip s.theorem_number;
    page = strip s.page;
    notes = strip s.notes;
  })

-- `value.strip().lower()` after the prefix `external:`.
abbrev external_prefix : List ℕ
external_prefix = codes "external:"

unfoldable pub drop_codes : List ℕ → List ℕ → List ℕ
drop_codes [] s = s
drop_codes (p ∷ ps) [] = []
drop_codes (p ∷ ps) (c ∷ cs) = drop_codes ps cs

unfoldable pub is_external_dependency_ref : String → Bool
unfolding strip lower starts_with drop_codes any is_space
is_external_dependency_ref value =
    let normalized = lower (strip value) in
    starts_with normalized external_prefix
    && any (λ c. not (is_space c)) (drop_codes external_prefix normalized)

unfoldable pub validate_dependency_ref : String → Result String
unfolding is_external_dependency_ref strip validate_artifact_id
validate_dependency_ref value =
    let stripped = strip value in
    if is_external_dependency_ref stripped then ok stripped else validate_artifact_id stripped

-- `re.match(r"^[A-Za-z]:", path)`
unfoldable pub has_drive : String → Bool
has_drive (String.◌∷◌ c (String.◌∷◌ d s)) =
    (is_letter (code c) || (leb b'A' (code c) && leb (code c) b'Z')) && code d == b':'
has_drive _ = false

abbrev pub posix_text : List String → String
posix_text [] = "."
posix_text (p ∷ ps) = join "/" (p ∷ ps)

-- `parts and parts[0] == "kb" and "accepted" in parts[1:]`
unfoldable pub targets_accepted : List String → Bool
unfolding any
targets_accepted [] = false
targets_accepted (p ∷ ps) = str_eq p "kb" && any (λ s. str_eq s "accepted") ps

unfoldable pub validate_failure_log_path : String → Result String
validate_failure_log_path value = do
  let normalized = windows_as_posix (strip value)
  require (not (blank normalized)) "failure_log evidence path must not be empty"
  require (not (is_rooted normalized || has_drive normalized))
      "failure_log evidence path must be repository-local"
  let parts = path_parts normalized
  require (not (any (λ s. str_eq s "..") parts))
      "failure_log evidence path must not traverse parents"
  require (not (targets_accepted parts))
      "failure_log evidence path must not target accepted KB paths"
  ok (posix_text parts)

-- cosheaf/core/formal_library.py: `LIBRARY_REF_PATTERN`.
abbrev pub library_ref_pattern : Regex
library_ref_pattern = seq slug_segment (star (seq (cls (λ c. c == b'.')) slug_segment))

unfoldable pub validate_library_ref : String → Result String
unfolding strip fullmatch
validate_library_ref value =
    let stripped = strip value in
    if fullmatch library_ref_pattern (codes stripped)
    then ok stripped
    else err
        "library_ref must be a manifest library id using lowercase slug segments such as 'cslib-main' or 'lean.mathlib-main'"

abbrev empty_reference : String
empty_reference = "formalization reference field must not be empty"

unfoldable pub validate_formalization : FormalizationRef → Result FormalizationRef
validate_formalization f = do
  named ← required_text empty_reference f.id
  id ← validate_artifact_id named
  library ← required_text empty_reference f.library
  wanted ← required_text empty_reference f.library_ref
  library_ref ← validate_library_ref wanted
  import_path ← required_text empty_reference f.import_path
  symbol ← required_text empty_reference f.symbol
  ok (record f {
    id = id;
    library = library;
    library_ref = library_ref;
    import_path = import_path;
    symbol = symbol;
    expected_type = strip f.expected_type;
    notes = strip f.notes;
  })

unfoldable pub is_completed : AlignmentStatus → Bool
is_completed AlignmentStatus.human_reviewed = true
is_completed AlignmentStatus.rejected = true
is_completed _ = false

abbrev pub is_aware : Option Timestamp → Bool
is_aware none = true
is_aware (some t) = t.aware

unfoldable pub validate_alignment : AlignmentReview → Result AlignmentReview
unfolding strip strip_nonempty is_completed
validate_alignment a = do
  require (is_aware a.reviewed_at) "reviewed_at must include timezone information"
  let reviewer = strip a.reviewer
  require (not (is_completed a.status && blank reviewer))
      "reviewer must be non-empty when alignment status is human_reviewed or rejected"
  ok (record a {
    reviewer = reviewer;
    convention_notes = strip_nonempty a.convention_notes;
    limitations = strip a.limitations;
  })

unfoldable pub needs_link : PolicyLevel → Bool
needs_link source_reviewed_with_formal_link = true
needs_link _ = false

unfoldable pub needs_lean : PolicyLevel → Bool
needs_lean lean_required = true
needs_lean _ = false

unfoldable pub validate_policy : VerificationPolicy → Result VerificationPolicy
unfolding needs_link needs_lean
validate_policy p = do
  require (not (needs_link p.level && not p.require_formal_link))
      "source_reviewed_with_formal_link policy must require a formal link"
  require (not (needs_lean p.level && not p.require_formal_link))
      "lean_required policy must require a formal link"
  require (not (needs_lean p.level && not p.require_lean_check))
      "lean_required policy must require a Lean check"
  ok p

unfoldable pub validate_target : String → Result String
unfolding strip validate_dependency_ref
validate_target value =
    let stripped = strip value in if blank stripped then ok "" else validate_dependency_ref stripped

abbrev empty_failure_text : String
empty_failure_text = "failure_log text fields must not be empty"

abbrev empty_failure_entry : String
empty_failure_entry = "failure_log list entries must not be empty"

unfoldable pub validate_failure_entry : FailureLogEntry → Result FailureLogEntry
validate_failure_entry f = do
  failure_id ← validate_artifact_id (strip f.failure_id)
  attempted_at ← validate_timestamp "attempted_at must include timezone information" f.attempted_at
  recorded_by ← required_text empty_failure_text f.recorded_by
  target ← validate_target f.target
  direction ← required_text empty_failure_text f.direction
  summary ← required_text empty_failure_text f.summary
  failed_because ← required_text empty_failure_text f.failed_because
  evidence_paths ← map_result validate_failure_log_path f.evidence_paths
  results ← map_result (required_text empty_failure_entry) f.related_verifier_results
  candidates ← map_result (required_text empty_failure_entry) f.related_counterexample_candidates
  directions ← map_result (required_text empty_failure_entry) f.next_possible_directions
  limitations ← required_text empty_failure_text f.limitations
  ok (record f {
    failure_id = failure_id;
    attempted_at = attempted_at;
    recorded_by = recorded_by;
    target = target;
    direction = direction;
    summary = summary;
    failed_because = failed_because;
    evidence_paths = evidence_paths;
    related_verifier_results = results;
    related_counterexample_candidates = candidates;
    next_possible_directions = directions;
    limitations = limitations;
  })

abbrev naive_timestamp : String
naive_timestamp = "timestamp must include timezone information"

unfoldable pub validate_artifact : BaseArtifact → Result BaseArtifact
validate_artifact a = do
  id ← validate_artifact_id a.id
  created_at ← validate_timestamp naive_timestamp a.created_at
  updated_at ← validate_timestamp naive_timestamp a.updated_at
  require (not (ltb updated_at.instant created_at.instant))
      "updated_at must be greater than or equal to created_at"
  depends_on ← map_result validate_dependency_ref a.depends_on
  supersedes ← map_result validate_artifact_id a.supersedes
  sources ← map_result validate_source a.sources
  formalizations ← map_result validate_formalization a.formalizations
  alignment ← validate_alignment a.alignment
  verification_policy ← validate_policy a.verification_policy
  failure_log ← map_result validate_failure_entry a.failure_log
  ok (record a {
    id = id;
    created_at = created_at;
    updated_at = updated_at;
    depends_on = depends_on;
    supersedes = supersedes;
    sources = sources;
    formalizations = formalizations;
    alignment = alignment;
    verification_policy = verification_policy;
    failure_log = failure_log;
  })
