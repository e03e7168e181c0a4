-- ===== src/Conversation/Commands.antt =====
-- The exact commands of internal/conversationchannel/approval.go.
use semdev.Base.{ℕ, Bool, false, ◌&&◌, ◌||◌, List, [], ◌∷◌, if◌then◌else◌, Text, is_empty, fields}
use semdev.Admission.{equal_fold}

module _ (folded lower : ℕ → ℕ) where
  -- The command and the verb stand next to each other among the tokens.
  unfoldable pub adjacent : Text → Text → List Text → Bool
  adjacent command verb [] = false
  adjacent command verb (t ∷ []) = false
  adjacent command verb (t ∷ u ∷ rest) =
      (equal_fold folded lower t command && equal_fold folded lower u verb)
      || adjacent command verb (u ∷ rest)

  unfoldable pub has_command_verb : Text → Text → Text → Bool
  unfolding adjacent
  has_command_verb command verb text =
      if is_empty command then false else adjacent command verb (fields text)
