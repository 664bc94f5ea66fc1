-- ===== src/Examples/IssueRuns.antt =====
-- Runs of the issue service of cosheaf/issues/service.py.
use tcs_cosheaf.Core.PurePath.{path_parts}
use tcs_cosheaf.Base.{String, true, false, [], ◌∷◌, ◌≡◌, ◌≢◌, refl, none, ok, In, concat}
use tcs_cosheaf.Core.Artifact.{high, medium, Timestamp}
use tcs_cosheaf.Storage.{IssueRecord, private_scope, closed, issue}
use tcs_cosheaf.Issues.Service.{
  validate_issue, issue_yaml_data, issue_file, load_content, Store, IssueResult, IssueFields,
  new_issue, closed_issue, create, show, find_issue, close, exists, is_mutable_issue_path,
  issue_path,
}
use tcs_cosheaf.Issues.Files.{load_content-issue_yaml_data, create-show, IsUntouched, close-frame}

abbrev dawn : Timestamp
dawn = record { instant = 4000000; aware = true }

abbrev fields : IssueFields
fields = record {
  title = "Prove it";
  summary = none;
  authors = "A. Author" ∷ [];
  labels = [];
  related_artifacts = [];
  related_sources = [];
  scope = private_scope;
}

abbrev opened : IssueRecord
opened = new_issue "issue.example.0002" fields dawn

abbrev made : IssueResult
made = record {
  of_issue = opened;
  relative_path = "issues/open/issue.example.0002.yaml";
  writes_performed = true;
}

abbrev stored : Store
stored = ("issues/open/issue.example.0002.yaml", issue_file (issue_yaml_data opened)) ∷ []

create_run : create dawn "issue.example.0002" fields false [] ≡ ok (made, stored)
unfolding create concat
create_run = refl

create-show_example :
    show "issue.example.0002" stored ≡ ok (record made { writes_performed = false })
create-show_example = create-show dawn "issue.example.0002" fields [] stored made create_run

severe_valid :
    validate_issue (record opened { severity = high }) ≡ ok (record opened { severity = high })
unfolding validate_issue
severe_valid = refl

-- A high severity is lost with the first write.
load_content-issue_yaml_data_example :
    load_content (issue_file (issue_yaml_data (record opened { severity = high })))
    ≡ ok (issue (record opened { severity = medium }))
load_content-issue_yaml_data_example =
    load_content-issue_yaml_data (record opened { severity = high })
      (record opened { severity = high }) severe_valid

abbrev done : IssueResult
done = record {
  of_issue = closed_issue opened "solved" dawn;
  relative_path = "issues/closed/issue.example.0002.yaml";
  writes_performed = true;
}

abbrev after_close : Store
after_close =
    (
      "issues/closed/issue.example.0002.yaml",
      issue_file (issue_yaml_data (closed_issue opened "solved" dawn)),
    )
    ∷ []

close_run : close dawn "issue.example.0002" "solved" false stored ≡ ok (done, after_close)
unfolding close path_parts concat
close_run = refl

close-frame_example :
    (source : String) × (i : IssueRecord) × (find_issue "issue.example.0002" stored
      ≡ ok (source, i))
    × (i.status ≢ closed)
    × (is_mutable_issue_path source ≡ true)
    × (done.of_issue.status ≡ closed)
    × (done.relative_path ≡ issue_path closed done.of_issue.id)
    × In (done.relative_path, issue_file (issue_yaml_data done.of_issue)) after_close
    × (source ≢ done.relative_path → exists source after_close ≡ false)
    × IsUntouched source done.relative_path stored after_close
close-frame_example =
    close-frame dawn "issue.example.0002" "solved" stored after_close done close_run
