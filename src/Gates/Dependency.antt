-- ===== src/Gates/Dependency.antt =====
-- cosheaf/gates/dependency_gate.py: identifiers are unique, and dependencies exist and respect
-- the public and accepted layers.
use tcs_cosheaf.Base.{
  String, Bool, false, not, ◌&&◌, List, [], ◌∷◌, ◌++◌, Option, none, some, if◌then◌else◌, keep,
  collect, concat, join, sort, str_eq, text_order, not_gt, leb, length, map,
}
use tcs_cosheaf.Core.Status.{is_accepted_status, is_preaccepted_status}
use tcs_cosheaf.Core.Artifact.{BaseArtifact}
use tcs_cosheaf.Core.Validate.{is_external_dependency_ref}
use tcs_cosheaf.Storage.{LoadedRecord, record_id, as_artifact, is_artifact, record_le}
use tcs_cosheaf.Gates.Failure.{ValidationFailure}

-- `d.get(key)` for `d = {r.id: r for r in records}`: the last record of that identifier.
unfoldable pub get_by_id : String → List LoadedRecord → Option LoadedRecord
get_by_id key [] = none
get_by_id key (r ∷ rs) =
    let later = get_by_id key rs in
    elim later [
      | some found ↦ some found
      | none ↦ if str_eq (record_id r) key then some r else none
    ]

-- The source paths of an identifier, in the order of the records.
unfoldable pub paths_of : String → List LoadedRecord → List String
unfolding keep record_id
paths_of key records = map (λ r. r.source_path) (keep (λ r. str_eq (record_id r) key) records)

-- The keys of a dictionary that is filled in the order of a list.
unfoldable pub distinct : List String → List String
unfolding keep
distinct [] = []
distinct (s ∷ ss) = s ∷ keep (λ t. not (str_eq s t)) (distinct ss)

abbrev pub text_le : String → String → Bool
text_le s t = not_gt (text_order s t)

-- The round of one identifier, on its sorted paths.
unfoldable pub path_failures : String → List String → List ValidationFailure
path_failures artifact_id [] = []
path_failures artifact_id (first ∷ rest) =
    if leb (length (first ∷ rest)) 1
    then []
    else record {
      gate = "id uniqueness";
      source_path = first;
      artifact_id = artifact_id;
      message = concat ("duplicate id " ∷ artifact_id ∷ ": " ∷ join ", " (first ∷ rest) ∷ []);
    }
      ∷ []

unfoldable pub duplicate_failures : List LoadedRecord → String → List ValidationFailure
duplicate_failures records artifact_id =
    path_failures artifact_id (sort text_le (paths_of artifact_id records))

unfoldable pub validate_id_uniqueness : List LoadedRecord → List ValidationFailure
unfolding collect distinct
validate_id_uniqueness records =
    collect (duplicate_failures records) (sort text_le (distinct (map record_id records)))

abbrev pub root_is : String → Option String → Bool
root_is name none = false
root_is name (some root) = str_eq root name

unfoldable pub public_depends_on_private : LoadedRecord → LoadedRecord → Bool
public_depends_on_private source dependency =
    root_is "public" source.kb_root_name && root_is "private" dependency.kb_root_name

abbrev dependency_failure : LoadedRecord → BaseArtifact → List String → ValidationFailure
dependency_failure loaded artifact message = record {
  gate = "dependency";
  source_path = loaded.source_path;
  artifact_id = artifact.id;
  message = concat message;
}

-- The two checks of a dependency that was found.
unfoldable pub layer_failures :
    LoadedRecord → BaseArtifact → String → LoadedRecord → BaseArtifact → List ValidationFailure
layer_failures loaded artifact dependency_id dependency dependency_record =
    (if public_depends_on_private loaded dependency
      then dependency_failure loaded artifact (
          "public artifact depends on private artifact: " ∷ dependency_id ∷ " at "
          ∷ dependency.source_path ∷ [])
        ∷ []
      else [])
    ++ (if is_accepted_status artifact.status && is_preaccepted_status dependency_record.status
        then dependency_failure loaded artifact (
            "accepted artifact depends on draft artifact: " ∷ dependency_id ∷ " at "
            ∷ dependency.source_path ∷ [])
          ∷ []
        else [])

-- One round of the loop over `artifact.depends_on`.
unfoldable pub dependency_failures :
    List LoadedRecord → LoadedRecord → BaseArtifact → String → List ValidationFailure
dependency_failures artifacts loaded artifact dependency_id =
    if is_external_dependency_ref dependency_id
    then []
    else elim (get_by_id dependency_id artifacts) [
      | none ↦ dependency_failure loaded artifact ("missing dependency: " ∷ dependency_id ∷ []) ∷ []
      | some dependency ↦ elim (as_artifact dependency) [
        | none ↦ []
        | some dependency_record ↦
            layer_failures loaded artifact dependency_id dependency dependency_record
      ]
    ]

unfoldable pub record_failures : List LoadedRecord → LoadedRecord → List ValidationFailure
record_failures artifacts loaded = elim (as_artifact loaded) [
  | none ↦ []
  | some artifact ↦ collect (dependency_failures artifacts loaded artifact) artifact.depends_on
]

abbrev pub sorted_artifacts : List LoadedRecord → List LoadedRecord
sorted_artifacts records = sort record_le (keep is_artifact records)

unfoldable pub validate_dependencies : List LoadedRecord → List ValidationFailure
validate_dependencies records =
    collect (record_failures (sorted_artifacts records)) (sorted_artifacts records)
