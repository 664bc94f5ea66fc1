-- ===== src/Issues/Service.antt =====
-- cosheaf/issues/service.py, and the validators of `IssueRecord` in cosheaf/storage/loader.py. The
-- store lists the files that hold records; a YAML file is the data that it was written with.
use tcs_cosheaf.Base.{
  String, Bool, true, false, not, ◌&&◌, List, [], ◌∷◌, ◌++◌, Option, none, some, if◌then◌else◌, any,
  keep, str_eq, concat, sort, Result, ok, err, ◌>>=◌, ◌>>◌, require, map_result,
}
use tcs_cosheaf.Core.Ids.{validate_artifact_id}
use tcs_cosheaf.Core.PurePath.{path_parts}
use tcs_cosheaf.Core.Artifact.{RiskLevel, medium, Timestamp}
use tcs_cosheaf.Core.Validate.{strip_nonempty, required_text}
use tcs_cosheaf.Storage.{
  IssueStatus, open_issue, blocked, closed, IssueScope, IssueRecord, LoadedModel, issue, model_id,
}
use tcs_cosheaf.Gates.Dependency.{distinct, text_le}

-- `_validate_close_reason`
unfoldable pub validate_close_reason : Option String → Result (Option String)
unfolding required_text
validate_close_reason none = ok none
validate_close_reason (some value) = do
  reason ← required_text "close_reason must be non-empty when set" value
  ok (some reason)

unfoldable pub validate_parent_issue : Option String → Result (Option String)
validate_parent_issue none = ok none
validate_parent_issue (some value) = do parent ← validate_artifact_id value; ok (some parent)

-- `IssueRecord._normalize_text_list`
unfoldable pub normalize_text_list : List String → List String
unfolding strip_nonempty distinct
normalize_text_list values = distinct (strip_nonempty values)

-- `IssueRecord.model_validate`
unfoldable pub validate_issue : IssueRecord → Result IssueRecord
unfolding validate_artifact_id required_text normalize_text_list map_result validate_parent_issue
    validate_close_reason
validate_issue i = do
  id ← validate_artifact_id i.id
  title ← required_text "text field must be non-empty" i.title
  summary ← required_text "text field must be non-empty" i.summary
  related_artifacts ← map_result validate_artifact_id i.related_artifacts
  related_sources ← map_result validate_artifact_id i.related_sources
  parent_issue ← validate_parent_issue i.parent_issue
  close_reason ← validate_close_reason i.close_reason
  ok (record {
    id = id;
    title = title;
    status = i.status;
    summary = summary;
    created_at = i.created_at;
    updated_at = i.updated_at;
    authors = normalize_text_list i.authors;
    severity = i.severity;
    labels = normalize_text_list i.labels;
    related_artifacts = related_artifacts;
    related_sources = related_sources;
    parent_issue = parent_issue;
    external_links = normalize_text_list i.external_links;
    scope = i.scope;
    close_reason = close_reason;
  })

-- The data of an issue's file: its severity may be missing.
pub record IssueYaml : Type 0 where
  pub severity : Option RiskLevel
  pub rest : IssueRecord

-- `_issue_yaml_data`: the severity is left out, and so are the other fields that have their defaults.
unfoldable pub issue_yaml_data : IssueRecord → IssueYaml
issue_yaml_data i = record { severity = none; rest = record i { severity = medium } }

abbrev severity_of : Option RiskLevel → RiskLevel
severity_of none = medium
severity_of (some s) = s

pub data FileContent : Type 0 where
  issue_file : IssueYaml → FileContent
  other_file : LoadedModel → FileContent

abbrev pub Store : Type 0
Store = List (String × FileContent)

unfoldable pub load_content : FileContent → Result LoadedModel
unfolding validate_issue
load_content (issue_file y) = do
  i ← validate_issue (record y.rest { severity = severity_of y.severity })
  ok (issue i)
load_content (other_file m) = ok m

unfoldable pub load_file : String × FileContent → Result (String × LoadedModel)
unfolding load_content
load_file file = do m ← load_content file.1; ok (file.0, m)

-- `load_artifacts`: every file is loaded, or the call raises.
unfoldable pub load_artifacts : Store → Result (List (String × LoadedModel))
unfolding load_file map_result
load_artifacts store = map_result load_file store

abbrev status_text : IssueStatus → String
status_text open_issue = "open"
status_text blocked = "blocked"
status_text closed = "closed"

-- `_issue_path`
unfoldable pub issue_path : IssueStatus → String → String
issue_path status issue_id = concat ("issues/" ∷ status_text status ∷ "/" ∷ issue_id ∷ ".yaml" ∷ [])

-- A path of at least three parts, under one of the folders of `issues`.
abbrev in_folders : List String → List String → Bool
unfolding any
in_folders folders (a ∷ b ∷ c ∷ rest) = str_eq a "issues" && any (λ f. str_eq b f) folders
in_folders folders _ = false

-- `_is_mutable_issue_path`
unfoldable pub is_mutable_issue_path : String → Bool
unfolding in_folders
is_mutable_issue_path path = in_folders ("open" ∷ "blocked" ∷ []) (path_parts path)

-- `_is_issue_file_path`
unfoldable pub is_issue_file_path : String → Bool
unfolding in_folders
is_issue_file_path path = in_folders ("open" ∷ "blocked" ∷ "closed" ∷ []) (path_parts path)

abbrev pub issue_at : String × LoadedModel → List (String × IssueRecord)
issue_at (path, issue i) = (path, i) ∷ []
issue_at (path, m) = []

-- `_loaded_issues`
unfoldable pub loaded_issues : List (String × LoadedModel) → List (String × IssueRecord)
loaded_issues [] = []
loaded_issues (r ∷ rs) = issue_at r ++ loaded_issues rs

abbrev first_of : String → List (String × IssueRecord) → Result (String × IssueRecord)
first_of id [] = err (concat ("issue not found: " ∷ id ∷ []))
first_of id (m ∷ ms) = ok m

-- `_find_issue`
unfoldable pub find_issue : String → Store → Result (String × IssueRecord)
unfolding load_artifacts loaded_issues keep sort first_of
find_issue issue_id store = do
  normalized_id ← validate_artifact_id issue_id
  records ← load_artifacts store
  first_of normalized_id (
      sort (λ a b. text_le a.0 b.0)
        (keep (λ r. str_eq r.1.id normalized_id) (loaded_issues records)))

-- `_ensure_unique_id`
unfoldable pub ensure_unique_id : String → Store → Result (Unit {0})
unfolding load_artifacts any model_id
ensure_unique_id issue_id store = do
  records ← load_artifacts store
  require (not (any (λ r. str_eq (model_id r.1) issue_id) records))
      (concat ("issue already exists: " ∷ issue_id ∷ []))

unfoldable pub exists : String → Store → Bool
unfolding any
exists path store = any (λ f. str_eq f.0 path) store

unfoldable pub unlink : String → Store → Store
unfolding keep
unlink path store = keep (λ f. not (str_eq f.0 path)) store

-- `write_yaml_deterministic`
unfoldable pub write : String → FileContent → Store → Store
unfolding exists
write path content [] = (path, content) ∷ []
write path content (f ∷ fs) =
    let rest = write path content fs in if str_eq f.0 path then (path, content) ∷ fs else f ∷ rest

pub record IssueResult : Type 0 where
  pub of_issue : IssueRecord
  pub relative_path : String
  pub writes_performed : Bool

-- The fields that a caller gives.
pub record IssueFields : Type 0 where
  pub title : String
  pub summary : Option String
  pub authors : List String
  pub labels : List String
  pub related_artifacts : List String
  pub related_sources : List String
  pub scope : IssueScope

abbrev or_else : Option String → String → String
or_else none default_text = default_text
or_else (some text) default_text = text

abbrev pub new_issue : String → IssueFields → Timestamp → IssueRecord
new_issue id fields now = record {
  id = id;
  title = fields.title;
  status = open_issue;
  summary = or_else fields.summary fields.title;
  created_at = now;
  updated_at = now;
  authors = fields.authors;
  severity = medium;
  labels = fields.labels;
  related_artifacts = fields.related_artifacts;
  related_sources = fields.related_sources;
  parent_issue = none;
  external_links = [];
  scope = fields.scope;
  close_reason = none;
}

abbrev written : Bool → String → IssueRecord → Store → Store
unfolding write issue_yaml_data
written dry_run path i store =
    if dry_run then store else write path (issue_file (issue_yaml_data i)) store

unfoldable pub create :
    Timestamp → String → IssueFields → Bool → Store → Result (IssueResult × Store)
unfolding ensure_unique_id validate_issue issue_path exists written
create now issue_id fields dry_run store = do
  normalized_id ← validate_artifact_id issue_id
  ensure_unique_id normalized_id store
  i ← validate_issue (new_issue normalized_id fields now)
  let path = issue_path i.status i.id
  require (not (exists path store)) (concat ("issue path already exists: " ∷ path ∷ []))
  ok (
    record { of_issue = i; relative_path = path; writes_performed = not dry_run },
    written dry_run path i store,
  )

unfoldable pub show : String → Store → Result IssueResult
unfolding find_issue
show issue_id store = do
  found ← find_issue issue_id store
  ok (record { of_issue = found.1; relative_path = found.0; writes_performed = false })

abbrev pub updated_issue : IssueRecord → IssueFields → Timestamp → IssueRecord
updated_issue i fields now = record i {
  title = fields.title;
  summary = or_else fields.summary i.summary;
  updated_at = now;
  authors = fields.authors;
  labels = fields.labels;
  related_artifacts = fields.related_artifacts;
  related_sources = fields.related_sources;
  scope = fields.scope;
}

unfoldable pub update :
    Timestamp → String → IssueFields → Bool → Store → Result (IssueResult × Store)
unfolding find_issue is_issue_file_path validate_issue written
update now issue_id fields dry_run store = do
  found ← find_issue issue_id store
  require (is_issue_file_path found.0)
      "local issue update only writes repository YAML under issues/"
  i ← validate_issue (updated_issue found.1 fields now)
  ok (
    record { of_issue = i; relative_path = found.0; writes_performed = not dry_run },
    written dry_run found.0 i store,
  )

abbrev pub is_closed : IssueStatus → Bool
is_closed closed = true
is_closed _ = false

abbrev pub closed_issue : IssueRecord → String → Timestamp → IssueRecord
closed_issue i reason now = record i {
  status = closed;
  updated_at = now;
  close_reason = some reason;
}

-- The file is written under its new path, and the old one is removed where it is another.
unfoldable pub moved : String → String → IssueRecord → Store → Store
unfolding write issue_yaml_data unlink
moved source target i store =
    let after_it = write target (issue_file (issue_yaml_data i)) store in
    if str_eq source target then after_it else unlink source after_it

unfoldable pub close : Timestamp → String → String → Bool → Store → Result (IssueResult × Store)
unfolding find_issue is_mutable_issue_path validate_issue issue_path exists moved
close now issue_id reason dry_run store = do
  found ← find_issue issue_id store
  require (not (is_closed found.1.status)) (concat ("issue already closed: " ∷ found.1.id ∷ []))
  require (is_mutable_issue_path found.0)
      "local issue close only writes repository YAML under issues/open or issues/blocked"
  i ← validate_issue (closed_issue found.1 reason now)
  let path = issue_path closed i.id
  require (not (exists path store && not (str_eq path found.0)))
      (concat ("issue path already exists: " ∷ path ∷ []))
  ok (
    record { of_issue = i; relative_path = path; writes_performed = not dry_run },
    if dry_run then store else moved found.0 path i store,
  )

abbrev id_path_le : String × IssueRecord → String × IssueRecord → Bool
id_path_le a b = if str_eq a.1.id b.1.id then text_le a.0 b.0 else text_le a.1.id b.1.id

-- `list`
unfoldable pub list_issues : Store → Result (List (String × IssueRecord))
unfolding load_artifacts loaded_issues sort
list_issues store = do records ← load_artifacts store; ok (sort id_path_le (loaded_issues records))
