-- ===== src/Gates/Failure.antt =====
-- cosheaf/gates/schema_gate.py: failure rows and their order.
use tcs_cosheaf.Base.{String, Bool, List, [], ◌∷◌, key_order, not_gt, sort}

pub record ValidationFailure : Type 0 where
  pub gate : String
  pub source_path : String
  pub artifact_id : String
  pub message : String

unfoldable pub failure_le : ValidationFailure → ValidationFailure → Bool
unfolding key_order
failure_le a b = not_gt (
    key_order (a.source_path ∷ a.artifact_id ∷ a.gate ∷ a.message ∷ [])
      (b.source_path ∷ b.artifact_id ∷ b.gate ∷ b.message ∷ []))

unfoldable pub sort_failures : List ValidationFailure → List ValidationFailure
unfolding sort failure_le
sort_failures = sort failure_le
