-- ===== src/Issues/Files.antt =====
-- What the issue service of cosheaf/issues/service.py leaves in the files.
use tcs_cosheaf.Base.{
  String, Bool, true, false, not, ◌&&◌, ◌||◌, List, [], ◌∷◌, ◌++◌, ◌≡◌, ◌≢◌, ◌↔◌, refl, sym, ap,
  ◌∙◌, subst, ◌⊎◌, inl, inr, arith, Option, none, some, if◌then◌else◌, Bool-cases, In, In-keep,
  In-keep_of, any, any-true, keep, blank, strip, strip-strip, str_eq, eq_iff, eq_refl, ok, ok_inj,
  after, require, map_result,
}
use tcs_cosheaf.Core.Ids.{validate_artifact_id, validate_artifact_id_iff}
use tcs_cosheaf.Core.Artifact.{RiskLevel, medium, Timestamp}
use tcs_cosheaf.Core.Validate.{required_text}
use tcs_cosheaf.Storage.{IssueRecord, IssueStatus, closed, LoadedModel, issue, model_id}
use tcs_cosheaf.Gates.Distinct.{distinct-strip_nonempty}
use tcs_cosheaf.Campaigns.Stored.{require-true}
use tcs_cosheaf.Issues.Service.{
  validate_close_reason, validate_parent_issue, normalize_text_list, validate_issue,
  issue_yaml_data, FileContent, issue_file, Store, load_content, load_file, load_artifacts,
  issue_path, loaded_issues, find_issue, ensure_unique_id, exists, unlink, write, IssueResult,
  IssueFields, new_issue, create, show, close, moved, closed_issue, is_mutable_issue_path,
  is_closed,
}

required_text-stable : (m x y : String) → required_text m x ≡ ok y → required_text m y ≡ ok y
unfolding required_text
required_text-stable m x y h = elim (Bool-cases (blank (strip x))) [
  | inl e ↦ absurd (let k = (rw e at h) in cc)
  | inr e ↦
      let same = ok_inj (rw (e, if◌then◌else◌) at h) in
      let still : strip y ≡ y = ap strip (sym same) ∙ (strip-strip x ∙ same) in
      rw (still, ap blank (sym same) ∙ e) refl
]

validate_artifact_id-stable :
    (x y : String) → validate_artifact_id x ≡ ok y → (y ≡ x) × (validate_artifact_id y ≡ ok y)
validate_artifact_id-stable x y h =
    let (same, matches) = (validate_artifact_id_iff x y).0 h in (same, rw same (rw same at h))

map_result-stable :
    (xs ys : List String)
    → map_result validate_artifact_id xs ≡ ok ys
    → map_result validate_artifact_id ys ≡ ok ys
unfolding map_result
map_result-stable [] ys h = rw (← ok_inj h) refl
map_result-stable (x ∷ xs) ys h = after (validate_artifact_id x) _ h λ y at_x h.
    after (map_result validate_artifact_id xs) _ h λ zs at_xs h.
      rw (← ok_inj h, (validate_artifact_id-stable x y at_x).1, map_result-stable xs zs at_xs) refl

validate_parent_issue-stable :
    (x y : Option String) → validate_parent_issue x ≡ ok y → validate_parent_issue y ≡ ok y
unfolding validate_parent_issue
validate_parent_issue-stable none y h = rw (← ok_inj h) refl
validate_parent_issue-stable (some x) y h =
    after (validate_artifact_id x) _ h
      λ z at_x h. rw (← ok_inj h, (validate_artifact_id-stable x z at_x).1) refl

validate_close_reason-stable :
    (x y : Option String) → validate_close_reason x ≡ ok y → validate_close_reason y ≡ ok y
unfolding validate_close_reason
validate_close_reason-stable none y h = rw (← ok_inj h) refl
validate_close_reason-stable (some x) y h =
    after (required_text "close_reason must be non-empty when set" x) _ h
      λ z at_x h. rw (← ok_inj h, required_text-stable _ x z at_x) refl

status_kept : (x i : IssueRecord) → validate_issue x ≡ ok i → i.status ≡ x.status
unfolding validate_issue
status_kept x i h = after (validate_artifact_id x.id) _ h λ id h0 h.
    after (required_text "text field must be non-empty" x.title) _ h λ title h1 h.
      after (required_text "text field must be non-empty" x.summary) _ h λ summary h2 h.
        after (map_result validate_artifact_id x.related_artifacts) _ h λ artifacts h3 h.
          after (map_result validate_artifact_id x.related_sources) _ h λ sources h4 h.
            after (validate_parent_issue x.parent_issue) _ h λ parent h5 h.
              after (validate_close_reason x.close_reason) _ h
                λ reason h6 h. sym (ap (λ i. i.status) (ok_inj h))

-- An issue that its validators returned is what they return of it, with any severity.
pub validate_issue-stable :
    (x i : IssueRecord) (s : RiskLevel)
    → validate_issue x ≡ ok i
    → validate_issue (record i { severity = s }) ≡ ok (record i { severity = s })
unfolding validate_issue normalize_text_list
validate_issue-stable x i s h = after (validate_artifact_id x.id) _ h λ id h0 h.
    after (required_text "text field must be non-empty" x.title) _ h λ title h1 h.
      after (required_text "text field must be non-empty" x.summary) _ h λ summary h2 h.
        after (map_result validate_artifact_id x.related_artifacts) _ h λ artifacts h3 h.
          after (map_result validate_artifact_id x.related_sources) _ h λ sources h4 h.
            after (validate_parent_issue x.parent_issue) _ h λ parent h5 h.
              after (validate_close_reason x.close_reason) _ h λ reason h6 h.
                rw
                  (
                    ← ok_inj h,
                    (validate_artifact_id-stable x.id id h0).1,
                    required_text-stable _ x.title title h1,
                    required_text-stable _ x.summary summary h2,
                    map_result-stable x.related_artifacts artifacts h3,
                    map_result-stable x.related_sources sources h4,
                    validate_parent_issue-stable x.parent_issue parent h5,
                    validate_close_reason-stable x.close_reason reason h6,
                    distinct-strip_nonempty x.authors,
                    distinct-strip_nonempty x.labels,
                    distinct-strip_nonempty x.external_links,
                  )
                  refl

-- A validated issue that is written is loaded as it was, but with the severity that is the default.
pub load_content-issue_yaml_data :
    (x i : IssueRecord)
    → validate_issue x ≡ ok i
    → load_content (issue_file (issue_yaml_data i)) ≡ ok (issue (record i { severity = medium }))
unfolding load_content issue_yaml_data
load_content-issue_yaml_data x i h = rw (validate_issue-stable x i medium h) refl

write-new :
    (path : String) (content : FileContent) (store : Store)
    → exists path store ≡ false
    → write path content store ≡ store ++ ((path, content) ∷ [])
unfolding write exists any
write-new path content [] h = refl
write-new path content (f ∷ fs) h = elim (Bool-cases (str_eq f.0 path)) [
  | inl e ↦ absurd (let k = (rw e at h) in cc)
  | inr e ↦ rw e (ap (λ fs. f ∷ fs) (write-new path content fs (rw e at h)))
]

load_artifacts-snoc :
    (store : Store) (f : String × FileContent) (records : List (String × LoadedModel))
    (r : String × LoadedModel)
    → load_artifacts store ≡ ok records
    → load_file f ≡ ok r
    → load_artifacts (store ++ (f ∷ [])) ≡ ok (records ++ (r ∷ []))
unfolding load_artifacts map_result
load_artifacts-snoc [] f records r h k = rw (← ok_inj h, k) refl
load_artifacts-snoc (g ∷ store) f records r h k = after (load_file g) _ h λ y at_g h.
    after (map_result load_file store) _ h
      λ ys at_rest h. rw (← ok_inj h, at_g, load_artifacts-snoc store f ys r at_rest k) refl

-- Where no record has the identifier, the issue that is added last is the one that is found.
only_new :
    (id path : String) (i : IssueRecord) (records : List (String × LoadedModel))
    → i.id ≡ id
    → any (λ r. str_eq (model_id r.1) id) records ≡ false
    → keep (λ r. str_eq r.1.id id) (loaded_issues (records ++ ((path, issue i) ∷ [])))
      ≡ (path, i) ∷ []
unfolding any keep loaded_issues model_id
only_new id path i [] e h = rw ((eq_iff i.id id).1 e) refl
only_new id path i ((p, issue j) ∷ records) e h = elim (Bool-cases (str_eq j.id id)) [
  | inl f ↦ absurd (let k = (rw f at h) in cc)
  | inr f ↦ rw f (only_new id path i records e (rw f at h))
]
only_new id path i ((p, m) ∷ records) e h =
    elim (Bool-cases (any (λ r. str_eq (model_id r.1) id) records)) [
      | inl f ↦ absurd (tail (str_eq (model_id m) id) _ h f)
      | inr f ↦ only_new id path i records e f
    ]
  where
    tail : (b c : Bool) → (b || c) ≡ false → c ≡ true → ⊥
    tail b c p q = ground arith

-- What a creation went through.
record Created (now : Timestamp) (issue_id : String) (fields : IssueFields) (store after_it : Store)
    (r : IssueResult) : Type 0 where
  id : validate_artifact_id issue_id ≡ ok issue_id
  records : List (String × LoadedModel)
  loaded : load_artifacts store ≡ ok records
  unique : any (λ r. str_eq (model_id r.1) issue_id) records ≡ false
  valid : validate_issue (new_issue issue_id fields now) ≡ ok r.of_issue
  placed : r.relative_path ≡ issue_path r.of_issue.status r.of_issue.id
  fresh : exists r.relative_path store ≡ false
  told : r.writes_performed ≡ true
  result : after_it ≡ write r.relative_path (issue_file (issue_yaml_data r.of_issue)) store

create-Created :
    (now : Timestamp) (issue_id : String) (fields : IssueFields) (store after_it : Store)
    (r : IssueResult)
    → create now issue_id fields false store ≡ ok (r, after_it)
    → Created now issue_id fields store after_it r
unfolding create ensure_unique_id
create-Created now issue_id fields store after_it r h =
    after (validate_artifact_id issue_id) _ h λ id h0 h.
      let (same, stable) = validate_artifact_id-stable issue_id id h0 in
      after (ensure_unique_id id store) _ h λ u h1 h.
        after (load_artifacts store) _ h1 λ records h2 h1.
          after (validate_issue (new_issue id fields now)) _ h λ i h3 h.
            after (require (not (exists (issue_path i.status i.id) store)) _) _ h λ v h4 h.
              let unique = require-true _ _ u h1 in
              let fresh = require-true _ _ v h4 in
              let made = ap (λ p. p.0) (ok_inj h) in
              let stored = ap (λ p. p.1) (ok_inj h) in
              record {
                id = h0 ∙ ap ok same;
                records = records;
                loaded = h2;
                unique =
                    subst (λ x. any (λ r. str_eq (model_id r.1) x) records ≡ false) same
                      (ground arith);
                valid =
                    ap (λ x. validate_issue (new_issue x fields now)) (sym same)
                    ∙ (h3 ∙ ap ok (ap (λ r. r.of_issue) made));
                placed = rw (← made) refl;
                fresh = rw (← made) (ground arith);
                told = rw (← made) refl;
                result = rw (← made) (sym stored);
              }

-- A new issue keeps its identifier, and has the default severity.
create_kept :
    (now : Timestamp) (id : String) (fields : IssueFields) (i : IssueRecord)
    → validate_issue (new_issue id fields now) ≡ ok i
    → (i.id ≡ id) × (i.severity ≡ medium)
unfolding validate_issue
create_kept now id fields i h =
    let x = new_issue id fields now in
    after (validate_artifact_id id) _ h λ id' h0 h.
      after (required_text "text field must be non-empty" x.title) _ h λ title h1 h.
        after (required_text "text field must be non-empty" x.summary) _ h λ summary h2 h.
          after (map_result validate_artifact_id x.related_artifacts) _ h λ artifacts h3 h.
            after (map_result validate_artifact_id x.related_sources) _ h λ sources h4 h. (
              sym (ap (λ i. i.id) (ok_inj h)) ∙ (validate_artifact_id-stable id id' h0).0,
              sym (ap (λ i. i.severity) (ok_inj h)),
            )

load_file-written :
    (path : String) (x i : IssueRecord)
    → validate_issue x ≡ ok i
    → i.severity ≡ medium
    → load_file (path, issue_file (issue_yaml_data i)) ≡ ok (path, issue i)
unfolding load_file
load_file-written path x i h e =
    rw (load_content-issue_yaml_data x i h)
      (ap (λ s. ok (path, issue (record i { severity = s }))) (sym e))

-- An issue that was created can be shown, and is what was created.
pub create-show :
    (now : Timestamp) (issue_id : String) (fields : IssueFields) (store after_it : Store)
    (r : IssueResult)
    → create now issue_id fields false store ≡ ok (r, after_it)
    → show issue_id after_it ≡ ok (record r { writes_performed = false })
unfolding show find_issue
create-show now issue_id fields store after_it r h =
    let c = create-Created now issue_id fields store after_it r h in
    let kept = create_kept now issue_id fields r.of_issue c.valid in
    let whole =
      load_file-written r.relative_path (new_issue issue_id fields now) r.of_issue c.valid kept.1 in
    let loads : load_artifacts after_it
        ≡ ok (c.records ++ ((r.relative_path, issue r.of_issue) ∷ [])) =
      ap load_artifacts (
        c.result
        ∙ write-new r.relative_path (issue_file (issue_yaml_data r.of_issue)) store c.fresh)
      ∙ load_artifacts-snoc store _ c.records _ c.loaded whole in
    rw (c.id, loads, only_new issue_id r.relative_path r.of_issue c.records kept.0 c.unique) refl

In-write :
    (path : String) (content : FileContent) (store : Store) (f : String × FileContent)
    → In f (write path content store)
    → (f.0 ≡ path) ⊎ In f store
unfolding write
In-write path content [] f (inl e) = inl (sym (ap (λ x. x.0) e))
In-write path content [] f (inr m) = elim m [ ]
In-write path content (g ∷ store) f m = elim (Bool-cases (str_eq g.0 path)) [
  | inl e ↦ elim (rw (e, if◌then◌else◌) at m) [
    | inl same ↦ inl (sym (ap (λ x. x.0) same))
    | inr k ↦ inr (inr k)
  ]
  | inr e ↦ elim (rw (e, if◌then◌else◌) at m) [
    | inl same ↦ inr (inl same)
    | inr k ↦ elim (In-write path content store f k) [ inl x ↦ inl x | inr x ↦ inr (inr x) ]
  ]
]

write-In :
    (path : String) (content : FileContent) (store : Store) (f : String × FileContent)
    → In f store
    → f.0 ≢ path
    → In f (write path content store)
unfolding write
write-In path content [] f m apart = elim m [ ]
write-In path content (g ∷ store) f m apart = elim (Bool-cases (str_eq g.0 path)) [
  | inl e ↦ rw e (elim m [
    | inl same ↦ absurd (apart (sym (ap (λ x. x.0) same) ∙ (eq_iff g.0 path).0 e))
    | inr k ↦ inr k
  ])
  | inr e ↦
      rw e (elim m [ inl same ↦ inl same | inr k ↦ inr (write-In path content store f k apart) ])
]

new-In :
    (path : String) (content : FileContent) (store : Store)
    → In (path, content) (write path content store)
unfolding write
new-In path content [] = inl refl
new-In path content (g ∷ store) = elim (Bool-cases (str_eq g.0 path)) [
  | inl e ↦ rw e (inl refl)
  | inr e ↦ rw e (inr (new-In path content store))
]

apart-test : (s t : String) → s ≢ t → not (str_eq s t) ≡ true
apart-test s t apart = elim (Bool-cases (str_eq s t)) [
  | inl e ↦ absurd (apart ((eq_iff s t).0 e))
  | inr e ↦ rw e refl
]

unlink-gone : (path : String) (store : Store) → exists path (unlink path store) ≡ false
unfolding exists unlink
unlink-gone path store = elim (Bool-cases (exists path (unlink path store))) [
  | inr e ↦ e
  | inl e ↦
      let (f, m, same) =
        any-true (λ f. str_eq f.0 path) (keep (λ f. not (str_eq f.0 path)) store) e in
      let other = (In-keep (λ f. not (str_eq f.0 path)) store f m).1 in
      absurd (let k = (rw same at other) in cc)
]

-- What moving an issue does to the files: the closed issue has its file, the file that it was read
-- from is gone unless it is the same, and all others are as they were.
moved-frame :
    (source target : String) (i : IssueRecord) (store : Store)
    → In (target, issue_file (issue_yaml_data i)) (moved source target i store)
      × (source ≢ target → exists source (moved source target i store) ≡ false)
      × ((f : String × FileContent)
          → f.0 ≢ source
          → f.0 ≢ target
          → In f (moved source target i store) ↔ In f store)
unfolding moved unlink
moved-frame source target i store = elim (Bool-cases (str_eq source target)) [
  | inl e ↦ rw e (
    new-In target _ store,
    λ apart. absurd (apart ((eq_iff source target).0 e)),
    λ f p q. (
      λ m. elim (In-write target _ store f m) [ inl x ↦ absurd (q x) | inr x ↦ x ],
      λ m. write-In target _ store f m q,
    ),
  )
  | inr e ↦ rw e (
    In-keep_of (λ f. not (str_eq f.0 source)) after_it (target, content)
        (new-In target content store)
        (apart-test target source (λ same. cc (rw (same, eq_refl source) at e))),
    λ apart. unlink-gone source after_it,
    λ f p q. (
      λ m.
          elim (In-write target content store f
            (In-keep (λ f. not (str_eq f.0 source)) after_it f m).0) [
              | inl x ↦ absurd (q x)
              | inr x ↦ x
            ],
      λ m.
          In-keep_of (λ f. not (str_eq f.0 source)) after_it f (write-In target content store f m q)
            (apart-test f.0 source p),
    ),
  )
]
  where
    content : FileContent
    content = issue_file (issue_yaml_data i)

    after_it : Store
    after_it = write target content store

-- A file is neither read from nor written to.
abbrev pub IsUntouched : String → String → Store → Store → Type 0
IsUntouched source target store after_it =
    (f : String × FileContent) → f.0 ≢ source → f.0 ≢ target → In f after_it ↔ In f store

-- An issue that is closed was found open or blocked, in a file under `issues/open` or
-- `issues/blocked`. Its new file is written, the old one is gone unless it is the same, and every
-- other file is as it was.
pub close-frame :
    (now : Timestamp) (issue_id reason : String) (store after_it : Store) (r : IssueResult)
    → close now issue_id reason false store ≡ ok (r, after_it)
    → (source : String) × (i : IssueRecord) × (find_issue issue_id store ≡ ok (source, i))
      × (i.status ≢ closed)
      × (is_mutable_issue_path source ≡ true)
      × (r.of_issue.status ≡ closed)
      × (r.relative_path ≡ issue_path closed r.of_issue.id)
      × In (r.relative_path, issue_file (issue_yaml_data r.of_issue)) after_it
      × (source ≢ r.relative_path → exists source after_it ≡ false)
      × IsUntouched source r.relative_path store after_it
unfolding close
close-frame now issue_id reason store after_it r h =
    after (find_issue issue_id store) _ h λ found h0 h.
      after (require (not (is_closed found.1.status)) _) _ h λ u h1 h.
        after (require (is_mutable_issue_path found.0) _) _ h λ v h2 h.
          after (validate_issue (closed_issue found.1 reason now)) _ h λ i h3 h.
            after
              (require
                (not (
                  exists (issue_path closed i.id) store
                  && not (str_eq (issue_path closed i.id) found.0)))
                _)
              _ h
              λ w h4 h.
                let made = ap (λ p. p.0) (ok_inj h) in
                let stored = ap (λ p. p.1) (ok_inj h) in
                let (new, gone, frame) = moved-frame found.0 (issue_path closed i.id) i store in
                rw (← made, ← stored)
                  (
                    found.0,
                    found.1,
                    h0,
                    open_before found.1.status (require-true _ _ u h1),
                    require-true _ _ v h2,
                    status_kept (closed_issue found.1 reason now) i h3,
                    refl,
                    new,
                    gone,
                    frame,
                  )
  where
    open_before : (s : IssueStatus) → not (is_closed s) ≡ true → s ≢ closed
    open_before s p same = cc (rw same at p)
