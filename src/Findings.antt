-- ===== src/Findings.antt =====
-- A floor's verdict, and the gate predicate over verdicts: `Finding` and `AnyRejected` of
-- internal/floors/floors.go. The detail is a type of the floor's own.
use semdev.Base.{Bool, not, ◌&&◌, List, any, Text}

pub record Finding (Detail : Type 0) : Type 0 where
  pub floor : Text
  pub passed : Bool
  pub detail : Detail
  pub advisory : Bool

unfoldable pub any_rejected : {Detail : Type 0} → List (Finding Detail) → Bool
any_rejected = any (λ f. not f.passed && not f.advisory)
