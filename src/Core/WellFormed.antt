-- ===== src/Core/WellFormed.antt =====
-- What the validators of cosheaf/core/artifact.py establish.
use tcs_cosheaf.Base.{
  String, ℕ, true, false, not, ◌||◌, Bool, codes, ◌&&◌, ◌≡◌, refl, ap, subst, ◌⊎◌, inl, inr, arith,
  Option, none, some, if◌then◌else◌, Bool-cases, All, blank, strip, ok, map_result, map_result-All,
  ok_inj, after, require, ltb, ◌<◌, ◌≤◌, any, str_eq,
}
use tcs_cosheaf.Core.Ids.{is_artifact_id, validate_artifact_id}
use tcs_cosheaf.Core.Regex.{Matches, fullmatch, fullmatch_iff}
use tcs_cosheaf.Core.PurePath.{path_parts, is_rooted, windows_as_posix}
use tcs_cosheaf.Core.PathText.{path_parts-IsSegment, path_parts-posix_text}
use tcs_cosheaf.Core.Artifact.{
  Timestamp, SourceMetadata, FormalizationRef, AlignmentReview, VerificationPolicy, FailureLogEntry,
  BaseArtifact,
}
use tcs_cosheaf.Core.Validate.{
  required_text, is_year, validate_timestamp, validate_source, is_external_dependency_ref,
  validate_dependency_ref, validate_failure_log_path, validate_formalization, validate_alignment,
  is_completed, validate_policy, needs_link, needs_lean, validate_target, validate_failure_entry,
  validate_artifact, targets_accepted, has_drive, is_aware, validate_library_ref,
  library_ref_pattern,
}

abbrev pub IsId : String → Type 0
IsId s = is_artifact_id s ≡ true

abbrev pub IsReference : String → Type 0
IsReference s = (is_external_dependency_ref s ≡ true) ⊎ IsId s

abbrev pub IsYear : Option ℕ → Type 0
IsYear none = Unit
IsYear (some year) = 0 < year

abbrev pub IsPolicy : VerificationPolicy → Type 0
IsPolicy p =
    (needs_link p.level ≡ true → p.require_formal_link ≡ true)
    × (needs_lean p.level ≡ true → (p.require_formal_link ≡ true) × (p.require_lean_check ≡ true))

-- A path inside the repository that neither climbs nor reaches an accepted folder of `kb`.
abbrev pub IsSafePath : String → Type 0
IsSafePath s =
    (is_rooted s ≡ false)
    × (any (λ p. str_eq p "..") (path_parts s) ≡ false)
    × (targets_accepted (path_parts s) ≡ false)

pub record IsFailureEntry (f : FailureLogEntry) : Type 0 where
  pub id : IsId f.failure_id
  pub timed : f.attempted_at.aware ≡ true
  pub recorded : blank f.recorded_by ≡ false
  pub targeted : (blank f.target ≡ true) ⊎ IsReference f.target
  pub directed : blank f.direction ≡ false
  pub summarized : blank f.summary ≡ false
  pub because : blank f.failed_because ≡ false
  pub limited : blank f.limitations ≡ false
  pub results : All (λ s. blank s ≡ false) f.related_verifier_results
  pub candidates : All (λ s. blank s ≡ false) f.related_counterexample_candidates
  pub directions : All (λ s. blank s ≡ false) f.next_possible_directions
  pub paths : All IsSafePath f.evidence_paths

-- A formalization names its library, with a manifest identifier, its import path and its symbol.
pub record IsFormalization (f : FormalizationRef) : Type 0 where
  pub id : IsId f.id
  pub library : blank f.library ≡ false
  pub library_ref : Matches library_ref_pattern (codes f.library_ref)
  pub import_path : blank f.import_path ≡ false
  pub symbol : blank f.symbol ≡ false

abbrev pub IsTimed : Option Timestamp → Type 0
IsTimed none = Unit
IsTimed (some t) = t.aware ≡ true

pub record IsWellFormed (a : BaseArtifact) : Type 0 where
  pub id : IsId a.id
  pub created : a.created_at.aware ≡ true
  pub updated : a.updated_at.aware ≡ true
  pub ordered : a.created_at.instant ≤ a.updated_at.instant
  pub depends_on : All IsReference a.depends_on
  pub supersedes : All IsId a.supersedes
  pub sources : All (λ s. IsYear s.year) a.sources
  pub formalizations : All IsFormalization a.formalizations
  pub review_timed : IsTimed a.alignment.reviewed_at
  pub reviewed : is_completed a.alignment.status ≡ true → blank a.alignment.reviewer ≡ false
  pub policy : IsPolicy a.verification_policy
  pub failure_log : All IsFailureEntry a.failure_log

validate_artifact_id-IsId : (v w : String) → validate_artifact_id v ≡ ok w → IsId w
unfolding validate_artifact_id
validate_artifact_id-IsId v w h = ground arith

validate_dependency_ref-IsReference :
    (v w : String) → validate_dependency_ref v ≡ ok w → IsReference w
unfolding validate_dependency_ref
validate_dependency_ref-IsReference v w h =
    elim (Bool-cases (is_external_dependency_ref (strip v))) [
      | inl e ↦ inl (rw (← ok_inj (rw (e, if◌then◌else◌) at h)) e)
      | inr e ↦ inr (validate_artifact_id-IsId (strip v) w (rw e at h))
    ]

required_text-nonblank : (m v w : String) → required_text m v ≡ ok w → blank w ≡ false
unfolding required_text
required_text-nonblank m v w h = elim (Bool-cases (blank (strip v))) [
  | inl e ↦ absurd (ground arith)
  | inr e ↦ rw (← ok_inj (rw (e, if◌then◌else◌) at h)) e
]

timestamp_aware : (m : String) (t u : Timestamp) → validate_timestamp m t ≡ ok u → u.aware ≡ true
unfolding validate_timestamp
timestamp_aware m t u h = ground arith

validate_source-IsYear :
    (m : String) (y : Option ℕ) {u : Unit {0}} → require (is_year y) m ≡ ok u → IsYear y
validate_source-IsYear m none h = tt
validate_source-IsYear m (some y) h = ground arith

source_year : (s t : SourceMetadata) → validate_source s ≡ ok t → IsYear t.year
unfolding validate_source
source_year s t h = after (require (is_year s.year) _) _ h λ u tested built.
    subst IsYear (ap (λ (r : SourceMetadata). r.year) (ok_inj built))
      (validate_source-IsYear _ s.year tested)

validate_policy-IsPolicy : (p q : VerificationPolicy) → validate_policy p ≡ ok q → IsPolicy q
unfolding validate_policy
validate_policy-IsPolicy p q h = (ground arith, ground arith)

is_aware-IsTimed : (t : Option Timestamp) → is_aware t ≡ true → IsTimed t
is_aware-IsTimed none h = tt
is_aware-IsTimed (some t) h = h

require_holds : (b : Bool) (m : String) {u : Unit {0}} → require b m ≡ ok u → b ≡ true
require_holds true m h = refl
require_holds false m h = cc

alignment_reviewer :
    (a b : AlignmentReview)
    → validate_alignment a ≡ ok b
    → (is_completed b.status ≡ true → blank b.reviewer ≡ false) × IsTimed b.reviewed_at
unfolding validate_alignment
alignment_reviewer a b h = after (require (is_aware a.reviewed_at) _) _ h λ u timed h.
    after (require (not (is_completed a.status && blank (strip a.reviewer))) _) _ h λ v named built.
      let k = require_holds _ _ named in
      let same_status = ap (λ (x : AlignmentReview). is_completed x.status) (ok_inj built) in
      let same_name = ap (λ (x : AlignmentReview). blank x.reviewer) (ok_inj built) in
      (
        λ c. ground arith,
        subst IsTimed (ap (λ (x : AlignmentReview). x.reviewed_at) (ok_inj built))
            (is_aware-IsTimed a.reviewed_at (require_holds _ _ timed)),
      )

library_ref-Matches :
    (v w : String) → validate_library_ref v ≡ ok w → Matches library_ref_pattern (codes w)
unfolding validate_library_ref
library_ref-Matches v w h = elim (Bool-cases (fullmatch library_ref_pattern (codes (strip v)))) [
  | inl e ↦
      subst (λ s. Matches library_ref_pattern (codes s)) (ok_inj (rw (e, if◌then◌else◌) at h))
        ((fullmatch_iff library_ref_pattern (codes (strip v))).0 e)
  | inr e ↦ absurd (let k = (rw e at h) in cc)
]

target-IsReference : (v w : String) → validate_target v ≡ ok w → (blank w ≡ true) ⊎ IsReference w
unfolding validate_target
target-IsReference v w h = elim (Bool-cases (blank (strip v))) [
  | inl e ↦ inl (rw (← ok_inj (rw (e, if◌then◌else◌) at h)) refl)
  | inr e ↦ inr (validate_dependency_ref-IsReference (strip v) w (rw (e, if◌then◌else◌) at h))
]

validate_formalization-IsFormalization :
    (f g : FormalizationRef) → validate_formalization f ≡ ok g → IsFormalization g
unfolding validate_formalization
validate_formalization-IsFormalization f g h = after (required_text _ f.id) _ h λ named hn h.
    after (validate_artifact_id named) _ h λ id hi h.
      after (required_text _ f.library) _ h λ library hl h.
        after (required_text _ f.library_ref) _ h λ wanted hw h.
          after (validate_library_ref wanted) _ h λ library_ref hr h.
            after (required_text _ f.import_path) _ h λ import_path hp h.
              after (required_text _ f.symbol) _ h λ symbol hs built.
                subst IsFormalization (ok_inj built) (record {
                  id = validate_artifact_id-IsId _ id hi;
                  library = required_text-nonblank _ _ library hl;
                  library_ref = library_ref-Matches _ library_ref hr;
                  import_path = required_text-nonblank _ _ import_path hp;
                  symbol = required_text-nonblank _ _ symbol hs;
                })

in_order : (a b : ℕ) (m : String) {u : Unit {0}} → require (not (ltb b a)) m ≡ ok u → a ≤ b
in_order a b m h = ground arith

-- An evidence path that is accepted is normalised to a relative one that neither climbs nor reaches an
-- accepted folder of the knowledge base.
pub failure_log_path_safe : (v w : String) → validate_failure_log_path v ≡ ok w → IsSafePath w
unfolding validate_failure_log_path
failure_log_path_safe v w h =
    let n = windows_as_posix (strip v) in
    after (require (not (blank n)) _) _ h λ _ _ h1.
      after (require (not (is_rooted n || has_drive n)) _) _ h1 λ _ local h2.
        after (require (not (any (λ s. str_eq s "..") (path_parts n))) _) _ h2 λ _ stays h3.
          after (require (not (targets_accepted (path_parts n))) _) _ h3 λ _ draft built.
            let (free, same) =
              path_parts-posix_text (path_parts n) (path_parts-IsSegment n (ground arith)) in
            subst IsSafePath (ok_inj built) (free, rw same (ground arith), rw same (ground arith))

failure_entry_lem : (f g : FailureLogEntry) → validate_failure_entry f ≡ ok g → IsFailureEntry g
unfolding validate_failure_entry
failure_entry_lem f g h = after (validate_artifact_id (strip f.failure_id)) _ h λ a ha h1.
    after (validate_timestamp _ f.attempted_at) _ h1 λ b hb h2.
      after (required_text _ f.recorded_by) _ h2 λ c hc h3.
        after (validate_target f.target) _ h3 λ d hd h4.
          after (required_text _ f.direction) _ h4 λ e he h5.
            after (required_text _ f.summary) _ h5 λ s hs h6.
              after (required_text _ f.failed_because) _ h6 λ k hk h7.
                after (map_result validate_failure_log_path f.evidence_paths) _ h7 λ l hl h8.
                  after (map_result (required_text _) f.related_verifier_results) _ h8 λ m hm h9.
                    after (map_result (required_text _) f.related_counterexample_candidates) _ h9
                      λ n hn h10.
                        after (map_result (required_text _) f.next_possible_directions) _ h10
                          λ o ho h11. after (required_text _ f.limitations) _ h11 λ p hp built.
                            subst IsFailureEntry (ok_inj built) (record {
                              id = validate_artifact_id-IsId _ a ha;
                              timed = timestamp_aware _ _ b hb;
                              recorded = required_text-nonblank _ _ c hc;
                              targeted = target-IsReference _ d hd;
                              summarized = required_text-nonblank _ _ s hs;
                              results =
                                  map_result-All (λ t. blank t ≡ false) _ (required_text-nonblank _)
                                    _ hm;
                              candidates =
                                  map_result-All (λ t. blank t ≡ false) _ (required_text-nonblank _)
                                    _ hn;
                              directed = required_text-nonblank _ _ e he;
                              because = required_text-nonblank _ _ k hk;
                              limited = required_text-nonblank _ _ p hp;
                              directions =
                                  map_result-All (λ t. blank t ≡ false) _ (required_text-nonblank _)
                                    _ ho;
                              paths = map_result-All IsSafePath _ failure_log_path_safe _ hl;
                            })

-- An artifact that `validate_artifact` returns has an identifier, references and superseded
-- identifiers of the right form, times with a zone and in order, and sources with positive years;
-- its formalizations name a library with a manifest identifier, an import path and a symbol; a
-- completed alignment review names its reviewer, and its time has a zone; the policy asks for what
-- its level needs; and each failure entry has an identifier, a time with a zone, its texts, a target
-- that is empty or a reference, no empty list entries, and safe evidence paths.
pub validate_artifact-IsWellFormed :
    (raw a : BaseArtifact) → validate_artifact raw ≡ ok a → IsWellFormed a
unfolding validate_artifact
validate_artifact-IsWellFormed raw z h = after (validate_artifact_id raw.id) _ h λ a ha h1.
    after (validate_timestamp _ raw.created_at) _ h1 λ b hb h2.
      after (validate_timestamp _ raw.updated_at) _ h2 λ c hc h3.
        after (require (not (ltb c.instant b.instant)) _) _ h3 λ d hd h4.
          after (map_result validate_dependency_ref raw.depends_on) _ h4 λ e he h5.
            after (map_result validate_artifact_id raw.supersedes) _ h5 λ f hf h6.
              after (map_result validate_source raw.sources) _ h6 λ g hg h7.
                after (map_result validate_formalization raw.formalizations) _ h7 λ k hk h8.
                  after (validate_alignment raw.alignment) _ h8 λ l hl h9.
                    after (validate_policy raw.verification_policy) _ h9 λ m hm h10.
                      after (map_result validate_failure_entry raw.failure_log) _ h10 λ n hn built.
                        subst IsWellFormed (ok_inj built) (record {
                          id = validate_artifact_id-IsId _ a ha;
                          created = timestamp_aware _ _ b hb;
                          updated = timestamp_aware _ _ c hc;
                          ordered = in_order b.instant c.instant _ hd;
                          depends_on =
                              map_result-All IsReference _ validate_dependency_ref-IsReference _ he;
                          supersedes = map_result-All IsId _ validate_artifact_id-IsId _ hf;
                          sources = map_result-All (λ s. IsYear s.year) _ source_year _ hg;
                          formalizations =
                              map_result-All IsFormalization _
                                validate_formalization-IsFormalization _ hk;
                          review_timed = (alignment_reviewer _ l hl).1;
                          reviewed = (alignment_reviewer _ l hl).0;
                          policy = validate_policy-IsPolicy _ m hm;
                          failure_log = map_result-All IsFailureEntry _ failure_entry_lem _ hn;
                        })
