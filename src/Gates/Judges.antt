-- ===== src/Gates/Judges.antt =====
-- Each gate of cosheaf/gates/gatekeeper.py: when it has a blocking issue, and when it fails.
use tcs_cosheaf.Base.{
  String, false, List, [], ◌∷◌, ◌≡◌, ◌≢◌, ◌↔◌, refl, arith, Bool-cases, inl, inr, keep, All,
}
use tcs_cosheaf.Gates.Failure.{ValidationFailure}
use tcs_cosheaf.Gates.SourceMetadata.{SourceMetadataResult}
use tcs_cosheaf.Gates.Gatekeeper.{
  GateStatus, VerificationResult, GateResult, gate_from_failures, Checklist, not_provided, absent,
  given, missing_sections, pr_checklist_gate, source_metadata_gate,
}
use tcs_cosheaf.Gates.Report.{
  is_blocking_status, judged_verifier_gate, verifier_gate, Findings, reproducibility_metadata_gate,
  formal_link_gate,
}

-- A gate fails exactly if it has a blocking issue.
abbrev pub IsSound : GateResult → Type 0
IsSound g = (g.status ≡ GateStatus.fail) ↔ (g.blocking_issues ≢ [])

-- The gate has no blocking issue exactly if `P`, and then alone it does not fail.
abbrev pub Judges : GateResult → Type 0 → Type 0
Judges g P = ((g.blocking_issues ≡ []) ↔ P) × IsSound g

pub failures-Judges :
    (gate_id name : String) (summary : List String) (failures : List ValidationFailure)
    → Judges (gate_from_failures gate_id name summary failures) (failures ≡ [])
unfolding gate_from_failures
failures-Judges gate_id name summary [] = ((λ h. refl, λ h. refl), (λ h. cc, λ h. absurd (h refl)))
failures-Judges gate_id name summary (f ∷ fs) = ((λ h. cc, λ h. cc), (λ h e. cc, λ h. refl))

pub reproducibility-Judges :
    (f : Findings) → Judges (reproducibility_metadata_gate f) (f.failures ≡ [])
unfolding reproducibility_metadata_gate
reproducibility-Judges f = go f.failures refl
  where
    go :
        (fs : List ValidationFailure)
        → f.failures ≡ fs
        → Judges (reproducibility_metadata_gate f) (f.failures ≡ [])
    go [] e = rw e ((λ h. refl, λ h. ground arith), (λ h. ground arith, λ h. ground arith))
    go (x ∷ xs) e = rw e ((λ h. ground arith, λ h. cc), (λ h. ground arith, λ h. refl))

pub formal_link-Judges : (f : Findings) → Judges (formal_link_gate f) (f.failures ≡ [])
unfolding formal_link_gate
formal_link-Judges f = go f.failures refl
  where
    go :
        (fs : List ValidationFailure)
        → f.failures ≡ fs
        → Judges (formal_link_gate f) (f.failures ≡ [])
    go [] e = rw e ((λ h. refl, λ h. ground arith), (λ h. ground arith, λ h. ground arith))
    go (x ∷ xs) e = rw e ((λ h. ground arith, λ h. cc), (λ h. ground arith, λ h. refl))

pub source_metadata-Judges :
    (r : SourceMetadataResult) → Judges (source_metadata_gate r) (r.failures ≡ [])
unfolding source_metadata_gate
source_metadata-Judges r = go r.failures refl
  where
    go :
        (fs : List ValidationFailure)
        → r.failures ≡ fs
        → Judges (source_metadata_gate r) (r.failures ≡ [])
    go [] e = rw e ((λ h. refl, λ h. ground arith), (λ h. ground arith, λ h. ground arith))
    go (x ∷ xs) e = rw e ((λ h. ground arith, λ h. cc), (λ h. ground arith, λ h. refl))

-- No checklist was asked for, or it has every required section.
abbrev pub IsComplete : Checklist → Type 0
IsComplete not_provided = Unit
IsComplete (absent label) = ⊥
IsComplete (given label headings) = missing_sections headings ≡ []

pub checklist-Judges : (c : Checklist) → Judges (pr_checklist_gate c) (IsComplete c)
unfolding pr_checklist_gate
checklist-Judges not_provided = ((λ h. tt, λ h. refl), (λ h. cc, λ h. absurd (h refl)))
checklist-Judges (absent label) = ((λ h. cc, λ h. absurd h), (λ h e. cc, λ h. refl))
checklist-Judges (given label headings) = go (missing_sections headings) refl
  where
    go :
        (ss : List String)
        → missing_sections headings ≡ ss
        → Judges (pr_checklist_gate (given label headings)) (missing_sections headings ≡ [])
    go [] e = rw e ((λ h. refl, λ h. refl), (λ h. ground arith, λ h. absurd (h refl)))
    go (x ∷ xs) e = rw e ((λ h. ground arith, λ h. cc), (λ h. ground arith, λ h. refl))

-- No verifier failed or broke down.
abbrev pub NoneBlocks : List VerificationResult → Type 0
NoneBlocks results = All (λ r. is_blocking_status r.status ≡ false) results

keep-eq-nil :
    (results : List VerificationResult)
    → (keep (λ r. is_blocking_status r.status) results ≡ []) ↔ NoneBlocks results
unfolding keep
keep-eq-nil [] = (λ h. tt, λ h. refl)
keep-eq-nil (r ∷ rs) = elim (Bool-cases (is_blocking_status r.status)) [
  | inl e ↦ rw e (λ h. cc, λ h. cc h.0)
  | inr e ↦ rw e (λ h. (refl, (keep-eq-nil rs).0 h), λ h. (keep-eq-nil rs).1 h.1)
]

pub judged-Judges :
    (results : List VerificationResult) → Judges (judged_verifier_gate results) (NoneBlocks results)
unfolding judged_verifier_gate
judged-Judges results = go (keep (λ r. is_blocking_status r.status) results) refl
  where
    go :
        (rs : List VerificationResult)
        → keep (λ r. is_blocking_status r.status) results ≡ rs
        → Judges (judged_verifier_gate results) (NoneBlocks results)
    go [] e = rw e (
      (λ h. (keep-eq-nil results).0 e, λ h. ground arith),
      (λ h. ground arith, λ h. ground arith),
    )
    go (x ∷ xs) e =
        rw e
          ((λ h. ground arith, λ h. cc ((keep-eq-nil results).1 h)), (λ h. ground arith, λ h. refl))

pub verifier-Judges :
    (results : List VerificationResult) → Judges (verifier_gate results) (NoneBlocks results)
unfolding verifier_gate
verifier-Judges [] = ((λ h. tt, λ h. refl), (λ h. cc, λ h. absurd (h refl)))
verifier-Judges (r ∷ rs) = judged-Judges (r ∷ rs)
