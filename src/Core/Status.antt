-- ===== src/Core/Status.antt =====
-- cosheaf/core/status.py: artifact types, statuses, and the statuses that a path allows.
-- A `StrEnum` member is a constructor, and is compared by its text, as in Python.
use tcs_cosheaf.Base.{
  String, Bool, true, false, not, ◌&&◌, List, [], ◌∷◌, str_eq, any, keep, if◌then◌else◌,
}
use tcs_cosheaf.Core.PurePath.{path_parts, windows_as_posix}

pub data ArtifactType : Type 0 where
  definition claim theorem conjecture proof proof_attempt construction : ArtifactType
  algorithm reduction counterexample experiment review verifier issue : ArtifactType

unfoldable pub type_value : ArtifactType → String
type_value definition = "definition"
type_value claim = "claim"
type_value theorem = "theorem"
type_value conjecture = "conjecture"
type_value proof = "proof"
type_value proof_attempt = "proof_attempt"
type_value construction = "construction"
type_value algorithm = "algorithm"
type_value reduction = "reduction"
type_value counterexample = "counterexample"
type_value experiment = "experiment"
type_value review = "review"
type_value verifier = "verifier"
type_value issue = "issue"

pub data ArtifactStatus : Type 0 where
  raw draft locally_tested adversarially_tested machine_checked human_reviewed : ArtifactStatus
  accepted refuted obsolete superseded : ArtifactStatus

unfoldable pub status_value : ArtifactStatus → String
status_value raw = "raw"
status_value draft = "draft"
status_value locally_tested = "locally_tested"
status_value adversarially_tested = "adversarially_tested"
status_value machine_checked = "machine_checked"
status_value human_reviewed = "human_reviewed"
status_value accepted = "accepted"
status_value refuted = "refuted"
status_value obsolete = "obsolete"
status_value superseded = "superseded"

-- `for status in ArtifactStatus`, in the order of declaration.
abbrev pub all_statuses : List ArtifactStatus
all_statuses =
    raw ∷ draft ∷ locally_tested ∷ adversarially_tested ∷ machine_checked ∷ human_reviewed
    ∷ accepted ∷ refuted ∷ obsolete ∷ superseded ∷ []

unfoldable pub same_status : ArtifactStatus → ArtifactStatus → Bool
unfolding status_value
same_status a b = str_eq (status_value a) (status_value b)

-- `status in statuses`
unfoldable pub status_in : ArtifactStatus → List ArtifactStatus → Bool
unfolding same_status any
status_in status statuses = any (λ s. same_status status s) statuses

abbrev pub terminal_statuses : List ArtifactStatus
terminal_statuses = accepted ∷ refuted ∷ obsolete ∷ superseded ∷ []

abbrev pub preaccepted_statuses : List ArtifactStatus
preaccepted_statuses =
    raw ∷ draft ∷ locally_tested ∷ adversarially_tested ∷ machine_checked ∷ human_reviewed ∷ []

unfoldable pub is_terminal_status : ArtifactStatus → Bool
unfolding status_in
is_terminal_status status = status_in status terminal_statuses

unfoldable pub is_preaccepted_status : ArtifactStatus → Bool
unfolding status_in
is_preaccepted_status status = status_in status preaccepted_statuses

unfoldable pub is_accepted_status : ArtifactStatus → Bool
is_accepted_status accepted = true
is_accepted_status _ = false

-- `parts[:2] == ("kb", folder)`, with `len(parts) >= 2`.
unfoldable pub under_kb : String → List String → Bool
under_kb folder (top ∷ second ∷ rest) = str_eq top "kb" && str_eq second folder
under_kb folder _ = false

-- The four tests in turn, on the parts of the normalised path.
unfoldable pub allowed_for_parts : List String → List ArtifactStatus
unfolding under_kb keep is_accepted_status
allowed_for_parts parts =
    if under_kb "accepted" parts
    then accepted ∷ []
    else if under_kb "draft" parts
    then keep (λ s. not (is_accepted_status s)) all_statuses
    else if under_kb "refuted" parts
    then refuted ∷ []
    else if under_kb "obsolete" parts
    then obsolete ∷ superseded ∷ []
    else all_statuses

unfoldable pub expected_status_for_path : String → List ArtifactStatus
unfolding allowed_for_parts path_parts windows_as_posix
expected_status_for_path path = allowed_for_parts (path_parts (windows_as_posix path))
