-- ===== src/Promotion/Dedupe.antt =====
-- Dropping repeated reasons (cosheaf/gates/promotion_readiness.py).
use tcs_cosheaf.Base.{
  true, false, List, [], ◌∷◌, ◌≡◌, ◌↔◌, refl, ◌∙◌, inl, inr, Bool-cases, any, any-true, any-false,
  All, All-at, All-of_In, In, In-sort, In-sort_of, sort, arith, if◌then◌else◌,
}
use tcs_cosheaf.Promotion.Reasons.{Reason, ReasonSeverity, blocking, warning, is_blocking}
use tcs_cosheaf.Promotion.Report.{
  same_severity, same_reason, first_reasons, reason_le, dedupe_reasons,
}

-- No reason of the list blocks.
abbrev pub NoneBlocking : List Reason → Type 0
NoneBlocking = All (λ r. is_blocking r ≡ false)

severity_blocks :
    (a b : Reason) → same_severity a.severity b.severity ≡ true → is_blocking a ≡ is_blocking b
unfolding is_blocking
severity_blocks a b = go a.severity b.severity
  where
    go :
        (s t : ReasonSeverity)
        → same_severity s t ≡ true
        → elim s [ blocking ↦ true | warning ↦ false ]
          ≡ elim t [ blocking ↦ true | warning ↦ false ]
    go blocking blocking h = refl
    go blocking warning h = cc
    go warning blocking h = cc
    go warning warning h = refl

same_blocks : (a b : Reason) → same_reason a b ≡ true → is_blocking a ≡ is_blocking b
unfolding same_reason
same_blocks a b h = severity_blocks a b (ground arith)

first-blocks :
    (seen rs : List Reason)
    → NoneBlocking seen
    → NoneBlocking (first_reasons seen rs)
    → NoneBlocking rs
unfolding first_reasons
first-blocks seen [] k h = tt
first-blocks seen (r ∷ rs) k h = elim (Bool-cases (any (same_reason r) seen)) [
  | inl e ↦
      let (s, m, same) = any-true (same_reason r) seen e in
      (
        same_blocks r s same ∙ All-at (λ r. is_blocking r ≡ false) seen k s m,
        first-blocks seen rs k (rw e at h),
      )
  | inr e ↦
      let kept : NoneBlocking (r ∷ first_reasons (r ∷ seen) rs) = rw (e, if◌then◌else◌) at h in
      (kept.0, first-blocks (r ∷ seen) rs (kept.0, k) kept.1)
]

first-In : (seen rs : List Reason) (a : Reason) → In a (first_reasons seen rs) → In a rs
unfolding first_reasons
first-In seen [] a m = m
first-In seen (r ∷ rs) a m = elim (Bool-cases (any (same_reason r) seen)) [
  | inl e ↦ inr (first-In seen rs a (rw e at m))
  | inr e ↦ elim (rw (e, if◌then◌else◌) at m) [
    | inl same ↦ inl same
    | inr rest ↦ inr (first-In (r ∷ seen) rs a rest)
  ]
]

-- Deduplication keeps whether any reason blocks.
pub dedupe-blocks_iff :
    (rs : List Reason) → (any is_blocking (dedupe_reasons rs) ≡ false) ↔ NoneBlocking rs
unfolding dedupe_reasons
dedupe-blocks_iff rs = (
  λ h.
      let quiet = any-false is_blocking (sort reason_le (first_reasons [] rs)) h in
      first-blocks [] rs tt (
        All-of_In (λ r. is_blocking r ≡ false) (first_reasons [] rs)
          (λ a m.
            All-at (λ r. is_blocking r ≡ false) _ quiet a
              (In-sort_of reason_le a (first_reasons [] rs) m))),
  λ h. elim (Bool-cases (any is_blocking (sort reason_le (first_reasons [] rs)))) [
    | inr e ↦ e
    | inl e ↦
        let (a, m, b) = any-true is_blocking (sort reason_le (first_reasons [] rs)) e in
        let quiet =
          All-at (λ r. is_blocking r ≡ false) rs h a
            (first-In [] rs a (In-sort reason_le a (first_reasons [] rs) m)) in
        absurd (ground arith)
  ],
)
