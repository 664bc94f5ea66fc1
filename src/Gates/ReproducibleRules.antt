-- ===== src/Gates/ReproducibleRules.antt =====
-- What no failure of cosheaf/gates/reproducibility_gate.py says of the evidence.
use tcs_cosheaf.Base.{
  List-cases, map-eq-nil, String, Bool, true, false, not, ◌&&◌, List, [], ◌∷◌, ◌≡◌, ◌↔◌, refl, sym,
  ap, subst, inl, inr, some, if◌then◌else◌, Bool-cases, In, In-keep_of, In-map, In-map_of, keep,
  map, append-eq-nil, sort, sort-eq-nil,
}
use tcs_cosheaf.Core.Artifact.{BaseArtifact, Evidence}
use tcs_cosheaf.Storage.{LoadedRecord, as_artifact, In-per_artifact, In-per_artifact_of}
use tcs_cosheaf.Gates.Failure.{sort_failures, failure_le}
use tcs_cosheaf.Gates.Gatekeeper.{VerificationResult}
use tcs_cosheaf.Gates.Reproducible.{
  Field, exit_code, field_name, is_executable, lacks, has_finished, missing_metadata,
  required_metadata, is_randomized, seed_recorded, results_of_artifact, matching_results,
  ReproducibilityCheck, missing_of, check_evidence_result, failure_from_check, evidence_check,
  artifact_checks, is_failed, all_checks, reproducibility_failures,
}

-- A result that has all the metadata that its status asks for, and a seed where chance plays a part.
pub record IsComplete (a : BaseArtifact) (evidence : Evidence) (r : VerificationResult)
    : Type 0 where
  pub fields : (f : Field) → In f (required_metadata r) → lacks r f ≡ false
  pub finished : has_finished r.status ≡ true → r.has_exit_code ≡ true
  pub seeded : is_randomized a evidence ≡ true → seed_recorded r.seed ≡ true

-- The first result that matches executable evidence is complete.
abbrev pub IsReproducible : List VerificationResult → BaseArtifact → Evidence → Type 0
IsReproducible results a evidence =
    (r : VerificationResult) × (rest : List VerificationResult) × (matching_results
        (results_of_artifact results a.id) evidence
      ≡ r ∷ rest)
    × IsComplete a evidence r

module _ {A : Type 0} (test : A → Bool) where
  keep-eq-nil : (xs : List A) → keep test xs ≡ [] → (x : A) → In x xs → test x ≡ false
  keep-eq-nil xs h x m = elim (Bool-cases (test x)) [
    | inr e ↦ e
    | inl e ↦ absurd (subst (λ ys. In x ys) h (In-keep_of test xs x m e))
  ]

  keep-nil : (xs : List A) → ((x : A) → In x xs → test x ≡ false) → keep test xs ≡ []
  unfolding keep
  keep-nil [] h = refl
  keep-nil (x ∷ xs) h = rw (h x (inl refl)) (keep-nil xs (λ y m. h y (inr m)))

module _ (a : BaseArtifact) (evidence : Evidence) (r : VerificationResult) where
  missing_of-IsComplete : missing_of a evidence r ≡ [] → IsComplete a evidence r
  unfolding missing_of missing_metadata lacks keep
  missing_of-IsComplete h =
      let (named, seed) = append-eq-nil (missing_metadata r (required_metadata r)) _ h in
      let (fields, exit) =
        append-eq-nil (keep (lacks r) (required_metadata r)) _ (map-eq-nil field_name _ named) in
      record {
        fields = keep-eq-nil (lacks r) (required_metadata r) fields;
        finished = λ p. has_exit r.has_exit_code (rw p at exit);
        seeded = λ p. has_seed (seed_recorded r.seed) (rw p at seed);
      }
    where
      has_exit : (b : Bool) → (if not b then exit_code ∷ [] else []) ≡ [] → b ≡ true
      has_exit true h = refl
      has_exit false h = cc

      has_seed :
          (b : Bool) → if◌then◌else◌ {A = List String} (not b) ("seed" ∷ []) [] ≡ [] → b ≡ true
      has_seed true h = refl
      has_seed false h = cc

  IsComplete-missing_of : IsComplete a evidence r → missing_of a evidence r ≡ []
  unfolding missing_of missing_metadata lacks keep
  IsComplete-missing_of k =
      rw (keep-nil (lacks r) (required_metadata r) k.fields)
        (elim (Bool-cases (has_finished r.status)) [
          | inl e ↦ rw (e, k.finished e) seed
          | inr e ↦ rw e seed
        ])
    where
      seed :
          if◌then◌else◌ {A = List String}
            (is_randomized a evidence && not (seed_recorded r.seed))
            ("seed" ∷ [])
            []
          ≡ []
      seed = elim (Bool-cases (is_randomized a evidence)) [
        | inl e ↦ rw (e, k.seeded e) refl
        | inr e ↦ rw e refl
      ]

module _ (results : List VerificationResult) (loaded : LoadedRecord) (a : BaseArtifact) where
  evidence_check_iff :
      (evidence : Evidence)
      → (is_failed (evidence_check results loaded a evidence).status ≡ false)
        ↔ (is_executable evidence ≡ true → IsReproducible results a evidence)
  unfolding evidence_check check_evidence_result
  evidence_check_iff evidence = (
    λ h p. elim (List-cases (matching_results (results_of_artifact results a.id) evidence)) [
      | inl e ↦ absurd (let k = (rw (p, e, evidence_check) at h) in cc)
      | inr (r, rest, e) ↦ (
        r,
        rest,
        e,
        missing_of-IsComplete a evidence r (passed r (rw (p, e, evidence_check) at h)),
      )
    ],
    λ k. elim (Bool-cases (is_executable evidence)) [
      | inr p ↦ rw (p, evidence_check) refl
      | inl p ↦
          let (r, rest, e, complete) = k p in
          rw (p, e, evidence_check, IsComplete-missing_of a evidence r complete) refl
    ],
  )
    where
      passed :
          (r : VerificationResult)
          → is_failed (check_evidence_result loaded a evidence r).status ≡ false
          → missing_of a evidence r ≡ []
      passed r h = elim (List-cases (missing_of a evidence r)) [
        | inl e ↦ e
        | inr (x, xs, e) ↦ absurd (let k = (rw (e, check_evidence_result) at h) in cc)
      ]

  artifact_checks_iff :
      ((c : ReproducibilityCheck)
        → In c (artifact_checks results loaded a)
        → is_failed c.status ≡ false)
      ↔ ((evidence : Evidence)
          → In evidence a.evidence
          → is_executable evidence ≡ true
          → IsReproducible results a evidence)
  unfolding artifact_checks
  artifact_checks_iff = elim (List-cases a.evidence) [
    | inl e ↦ (
      λ h evidence m. absurd (subst (λ xs. In evidence xs) e m),
      λ k c m. elim (rw (e, artifact_checks) at m) [
        | inl same ↦ rw (← same) refl
        | inr none_left ↦ absurd none_left
      ],
    )
    | inr (x, xs, e) ↦ (
      λ h evidence m. (evidence_check_iff evidence).0 (
          h (evidence_check results loaded a evidence) (
            rw (e, artifact_checks)
              (In-map (evidence_check results loaded a) (x ∷ xs) evidence
                (subst (λ ys. In evidence ys) e m)))),
      λ k c m.
          let (evidence, here, same) =
            In-map_of (evidence_check results loaded a) (x ∷ xs) c (rw (e, artifact_checks) at m) in
          rw (← same) (
            (evidence_check_iff evidence).1
              (k evidence (subst (λ ys. In evidence ys) (sym e) here))),
    )
  ]

-- The reproducibility gate reports no failure exactly if for all executable evidence of every
-- loaded artifact the first verifier result that matches it has all the metadata that its status
-- asks for, its exit code, and a seed where chance plays a part.
pub reproducibility_failures_iff :
    (results : List VerificationResult) (records : List LoadedRecord)
    → (reproducibility_failures results records ≡ []) ↔ (
        (loaded : LoadedRecord) (a : BaseArtifact) (evidence : Evidence)
        → In loaded records
        → as_artifact loaded ≡ some a
        → In evidence a.evidence
        → is_executable evidence ≡ true
        → IsReproducible results a evidence)
unfolding reproducibility_failures all_checks sort_failures sort
reproducibility_failures_iff results records = (
  λ h loaded a evidence m e.
      let quiet =
        keep-eq-nil (λ c. is_failed c.status) (all_checks results records)
          (map-eq-nil failure_from_check _ (sort-eq-nil failure_le _ h)) in
      (artifact_checks_iff results loaded a).0
        (λ c n. quiet c (In-per_artifact_of (artifact_checks results) records loaded a c m e n))
        evidence,
  λ k.
      ap (λ cs. sort_failures (map failure_from_check cs))
        (keep-nil (λ c. is_failed c.status) (all_checks results records)
          (λ c m.
            let (loaded, a, here, e, n) = In-per_artifact (artifact_checks results) records c m in
            (artifact_checks_iff results loaded a).1 (λ evidence p. k loaded a evidence here e p) c
              n)),
)
