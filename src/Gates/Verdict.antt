-- ===== src/Gates/Verdict.antt =====
-- When the gatekeeper passes (cosheaf/gates/gatekeeper.py).
use tcs_cosheaf.Base.{
  if◌then◌else◌, ◌∙◌, ap, suc, String, ℕ, ◌+◌, true, false, List, [], ◌∷◌, ◌≡◌, ◌≢◌, ◌↔◌, refl,
  arith, Bool-cases, ◌⊎◌, inl, inr, some, length, collect, collect-eq-nil, collect-nil, All, In,
}
use tcs_cosheaf.Core.Status.{accepted, status_in, expected_status_for_path}
use tcs_cosheaf.Core.Artifact.{BaseArtifact, Evidence}
use tcs_cosheaf.Storage.{LoadedRecord, as_artifact}
use tcs_cosheaf.Gates.DependencyLaws.{IsUnique, validate_id_uniqueness_iff}
use tcs_cosheaf.Gates.DependencyRules.{IsAllowed, validate_dependencies_iff}
use tcs_cosheaf.Gates.RecordRules.{
  validate_status_paths_iff, IsPresent, validate_evidence_paths_iff, IsSourced,
  validate_source_metadata_policy_iff,
}
use tcs_cosheaf.Gates.StatusPath.{status_path}
use tcs_cosheaf.Gates.SourceMetadata.{WorkspacePolicy, validate_source_metadata_policy}
use tcs_cosheaf.Gates.Gatekeeper.{GateStatus, GateVerdict, GateIssue, GateResult}
use tcs_cosheaf.Gates.Report.{
  GateInputs, run_gates, count_status, same_gate_status, build_report, run_gatekeeper,
}
use tcs_cosheaf.Gates.Judges.{
  NoneBlocks, IsComplete, IsSound, failures-Judges, verifier-Judges, reproducibility-Judges,
  checklist-Judges, source_metadata-Judges, formal_link-Judges,
}

-- The repository is clean: what each of the ten gates asks for.
pub record IsClean (i : GateInputs) : Type 0 where
  pub schema : i.schema_failures ≡ []
  pub unique : IsUnique i.records
  pub statuses :
      (loaded : LoadedRecord) (a : BaseArtifact)
      → In loaded i.records
      → as_artifact loaded ≡ some a
      → status_in a.status (expected_status_for_path (status_path loaded)) ≡ true
  pub dependencies :
      (loaded : LoadedRecord) (a : BaseArtifact) (d : String)
      → In loaded i.records
      → as_artifact loaded ≡ some a
      → In d a.depends_on
      → IsAllowed i.records loaded a d
  pub evidence :
      (loaded : LoadedRecord) (a : BaseArtifact) (e : Evidence)
      → In loaded i.records
      → as_artifact loaded ≡ some a
      → In e a.evidence
      → IsPresent i.files e
  pub verifiers : NoneBlocks i.verification_results
  pub reproducible : i.reproducibility.failures ≡ []
  pub checklist : IsComplete i.checklist
  pub sources :
      i.policy.configured ≡ true
      → i.policy.accepted_requires_source ≡ true
      → (loaded : LoadedRecord) (a : BaseArtifact) → In loaded i.records
      → as_artifact loaded ≡ some a
      → loaded.kb_root_name ≡ some "public"
      → a.status ≡ accepted
      → IsSourced a
  pub formal_links : i.formal_links.failures ≡ []

verdict_pass_iff :
    (n : ℕ) (gates : List GateResult)
    → ((build_report n gates).verdict ≡ GateVerdict.pass) ↔ All (λ g. g.blocking_issues ≡ []) gates
unfolding build_report
verdict_pass_iff n gates = go (collect (λ (g : GateResult). g.blocking_issues) gates) refl
  where
    go :
        (found : List GateIssue)
        → collect (λ (g : GateResult). g.blocking_issues) gates ≡ found
        → ((build_report n gates).verdict ≡ GateVerdict.pass)
          ↔ All (λ g. g.blocking_issues ≡ []) gates
    go [] e = rw e (λ h. collect-eq-nil _ gates e, λ h. refl)
    go (x ∷ xs) e =
        rw e (λ h. cc, λ h. cc (collect-nil (λ (g : GateResult). g.blocking_issues) gates h))

sources_iff :
    (policy : WorkspacePolicy) (records : List LoadedRecord)
    → ((validate_source_metadata_policy policy records).failures ≡ []) ↔ (
        policy.configured ≡ true
        → policy.accepted_requires_source ≡ true
        → (loaded : LoadedRecord) (a : BaseArtifact) → In loaded records
        → as_artifact loaded ≡ some a
        → loaded.kb_root_name ≡ some "public"
        → a.status ≡ accepted
        → IsSourced a)
sources_iff policy records = (
  λ h set asked. (validate_source_metadata_policy_iff policy records set asked).0 h,
  λ h. elim (Bool-cases policy.configured) [
    | inr e ↦ unfold validate_source_metadata_policy in rw e refl
    | inl e ↦ elim (Bool-cases policy.accepted_requires_source) [
      | inr f ↦ unfold validate_source_metadata_policy in rw (e, f) refl
      | inl f ↦ (validate_source_metadata_policy_iff policy records e f).1 (h e f)
    ]
  ],
)

-- The verdict of a run is `pass` exactly if the repository is clean: a skipped verifier, an absent
-- checklist path and a gate that does not apply let it pass, and any other finding does not.
pub run_gatekeeper-pass_iff :
    (i : GateInputs) → ((run_gatekeeper i).verdict ≡ GateVerdict.pass) ↔ IsClean i
unfolding run_gatekeeper run_gates
run_gatekeeper-pass_iff i = (
  λ h.
      let all = (verdict_pass_iff (length i.records) (run_gates i)).0 h in
      let (g1, r1) = all in
      let (g2, r2) = r1 in
      let (g3, r3) = r2 in
      let (g4, r4) = r3 in
      let (g5, r5) = r4 in
      let (g6, r6) = r5 in
      let (g7, r7) = r6 in
      let (g8, r8) = r7 in
      let (g9, r9) = r8 in
      let (g10, r10) = r9 in
      let unique = (validate_id_uniqueness_iff i.records).0 ((failures-Judges "G2" _ _ _).0.0 g2) in
      record {
        schema = (failures-Judges "G1" _ _ _).0.0 g1;
        unique = unique;
        statuses = (validate_status_paths_iff i.records).0 ((failures-Judges "G3" _ _ _).0.0 g3);
        dependencies =
            (validate_dependencies_iff i.records unique).0 ((failures-Judges "G4" _ _ _).0.0 g4);
        evidence =
            (validate_evidence_paths_iff i.files i.records).0 ((failures-Judges "G5" _ _ _).0.0 g5);
        verifiers = (verifier-Judges i.verification_results).0.0 g6;
        reproducible = (reproducibility-Judges i.reproducibility).0.0 g7;
        checklist = (checklist-Judges i.checklist).0.0 g8;
        sources = (sources_iff i.policy i.records).0 ((source_metadata-Judges _).0.0 g9);
        formal_links = (formal_link-Judges i.formal_links).0.0 g10;
      },
  λ c. (verdict_pass_iff (length i.records) (run_gates i)).1 (
    (failures-Judges "G1" _ _ _).0.1 c.schema,
    (
      (failures-Judges "G2" _ _ _).0.1 ((validate_id_uniqueness_iff i.records).1 c.unique),
      (
        (failures-Judges "G3" _ _ _).0.1 ((validate_status_paths_iff i.records).1 c.statuses),
        (
          (failures-Judges "G4" _ _ _).0.1
              ((validate_dependencies_iff i.records c.unique).1 c.dependencies),
          (
            (failures-Judges "G5" _ _ _).0.1
                ((validate_evidence_paths_iff i.files i.records).1 c.evidence),
            (
              (verifier-Judges i.verification_results).0.1 c.verifiers,
              (
                (reproducibility-Judges i.reproducibility).0.1 c.reproducible,
                (
                  (checklist-Judges i.checklist).0.1 c.checklist,
                  (
                    (source_metadata-Judges _).0.1 ((sources_iff i.policy i.records).1 c.sources),
                    ((formal_link-Judges i.formal_links).0.1 c.formal_links, tt),
                  ),
                ),
              ),
            ),
          ),
        ),
      ),
    ),
  ),
)

abbrev counted : List GateResult → ℕ
counted gates =
    count_status GateStatus.pass gates
    + count_status GateStatus.fail gates
    + count_status GateStatus.skipped gates
    + count_status GateStatus.not_applicable gates

count_total : (gates : List GateResult) → counted gates ≡ length gates
unfolding count_status
count_total [] = omega arith
count_total (g ∷ gs) = ground (arith, count_total gs)

same_fail :
    (s : GateStatus) → (s ≡ GateStatus.fail → ⊥) → same_gate_status s GateStatus.fail ≡ false
unfolding same_gate_status
same_fail GateStatus.fail h = absurd (h refl)
same_fail _ h = refl

-- The status of a sound gate tells whether it has blocking issues.
fail_cases :
    (g : GateResult)
    → IsSound g
    → (g.blocking_issues ≡ []) × (same_gate_status g.status GateStatus.fail ≡ false)
      ⊎ (g.blocking_issues ≢ []) × (same_gate_status g.status GateStatus.fail ≡ true)
fail_cases g sound = go g.blocking_issues refl
  where
    go :
        (b : List GateIssue)
        → g.blocking_issues ≡ b
        → (g.blocking_issues ≡ []) × (same_gate_status g.status GateStatus.fail ≡ false)
          ⊎ (g.blocking_issues ≢ []) × (same_gate_status g.status GateStatus.fail ≡ true)
    go [] e = inl (e, same_fail g.status (λ f. sound.0 f e))
    go (x ∷ xs) e =
        let some_issue : g.blocking_issues ≢ [] = λ f. cc in
        inr (some_issue, rw (sound.1 some_issue) (unfold same_gate_status in refl))

none_failed :
    (gates : List GateResult)
    → All IsSound gates
    → (count_status GateStatus.fail gates ≡ 0) ↔ All (λ g. g.blocking_issues ≡ []) gates
unfolding count_status
none_failed [] h = (λ e. tt, λ e. refl)
none_failed (g ∷ gs) h = elim (fail_cases g h.0) [
  | inl (clear, e) ↦ rw e (λ z. (clear, (none_failed gs h.1).0 z), λ z. (none_failed gs h.1).1 z.1)
  | inr (stops, e) ↦ rw e (λ z. absurd (omega arith), λ z. absurd (stops z.0))
]

run_gates-IsSound : (i : GateInputs) → All IsSound (run_gates i)
unfolding run_gates
run_gates-IsSound i = (
  (failures-Judges "G1" _ _ _).1,
  (
    (failures-Judges "G2" _ _ _).1,
    (
      (failures-Judges "G3" _ _ _).1,
      (
        (failures-Judges "G4" _ _ _).1,
        (
          (failures-Judges "G5" _ _ _).1,
          (
            (verifier-Judges i.verification_results).1,
            (
              (reproducibility-Judges i.reproducibility).1,
              (
                (checklist-Judges i.checklist).1,
                (
                  (source_metadata-Judges (validate_source_metadata_policy i.policy i.records)).1,
                  ((formal_link-Judges i.formal_links).1, tt),
                ),
              ),
            ),
          ),
        ),
      ),
    ),
  ),
)

-- One where a gate has the status, and zero otherwise.
abbrev pub one_for : (status given : GateStatus) → ℕ
one_for GateStatus.pass GateStatus.pass = 1
one_for GateStatus.fail GateStatus.fail = 1
one_for GateStatus.skipped GateStatus.skipped = 1
one_for GateStatus.not_applicable GateStatus.not_applicable = 1
one_for _ _ = 0

abbrev pub tally : GateStatus → List GateResult → ℕ
tally status [] = 0
tally status (g ∷ gs) = one_for status g.status + tally status gs

counts_one :
    (status given : GateStatus) (n : ℕ)
    → (if same_gate_status given status then suc n else n) ≡ one_for status given + n
unfolding same_gate_status
counts_one GateStatus.pass GateStatus.pass n = omega arith
counts_one GateStatus.pass GateStatus.fail n = omega arith
counts_one GateStatus.pass GateStatus.skipped n = omega arith
counts_one GateStatus.pass GateStatus.not_applicable n = omega arith
counts_one GateStatus.fail GateStatus.pass n = omega arith
counts_one GateStatus.fail GateStatus.fail n = omega arith
counts_one GateStatus.fail GateStatus.skipped n = omega arith
counts_one GateStatus.fail GateStatus.not_applicable n = omega arith
counts_one GateStatus.skipped GateStatus.pass n = omega arith
counts_one GateStatus.skipped GateStatus.fail n = omega arith
counts_one GateStatus.skipped GateStatus.skipped n = omega arith
counts_one GateStatus.skipped GateStatus.not_applicable n = omega arith
counts_one GateStatus.not_applicable GateStatus.pass n = omega arith
counts_one GateStatus.not_applicable GateStatus.fail n = omega arith
counts_one GateStatus.not_applicable GateStatus.skipped n = omega arith
counts_one GateStatus.not_applicable GateStatus.not_applicable n = omega arith

count_status-tally :
    (status : GateStatus) (gates : List GateResult) → count_status status gates ≡ tally status gates
unfolding count_status
count_status-tally status [] = refl
count_status-tally status (g ∷ gs) =
    counts_one status g.status (count_status status gs)
    ∙ ap (λ n. one_for status g.status + n) (count_status-tally status gs)

ten : (i : GateInputs) → length (run_gates i) ≡ 10
unfolding run_gates
ten i = refl

-- A run has ten gates; the report counts each under its own status and no other, the four counts
-- add up to the total, and no gate is counted as failed exactly if the verdict is `pass`.
pub run_gatekeeper-counts :
    (i : GateInputs)
    → let r = run_gatekeeper i in
      (r.gates_total ≡ 10)
      × (length r.gates ≡ 10)
      × (r.gates_passed ≡ tally GateStatus.pass r.gates)
      × (r.gates_failed ≡ tally GateStatus.fail r.gates)
      × (r.gates_skipped ≡ tally GateStatus.skipped r.gates)
      × (r.gates_not_applicable ≡ tally GateStatus.not_applicable r.gates)
      × (r.gates_passed + r.gates_failed + r.gates_skipped + r.gates_not_applicable ≡ r.gates_total)
      × ((r.gates_failed ≡ 0) ↔ (r.verdict ≡ GateVerdict.pass))
unfolding run_gatekeeper
run_gatekeeper-counts i =
    let clear = none_failed (run_gates i) (run_gates-IsSound i) in
    let passes = verdict_pass_iff (length i.records) (run_gates i) in
    (
      ten i,
      ten i,
      count_status-tally GateStatus.pass (run_gates i),
      count_status-tally GateStatus.fail (run_gates i),
      count_status-tally GateStatus.skipped (run_gates i),
      count_status-tally GateStatus.not_applicable (run_gates i),
      count_total (run_gates i),
      (λ h. passes.1 (clear.0 h), λ h. clear.1 (passes.0 h)),
    )
