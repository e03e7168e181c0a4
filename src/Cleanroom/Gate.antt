-- ===== src/Cleanroom/Gate.antt =====
-- What the clean-room verdicts of internal/verify and internal/coldproof mean.
use semdev.Base.{◌≡◌, ◌↔◌, ◌⊎◌, true, false, [], is_empty, arith}
use semdev.Cleanroom.Verify.{Outcome, pass, fail, retry, Input, decide, failed_checks}

-- The proof can be trusted: it ran to its end and was isolated.
abbrev pub Trusted : Input → Type 0
Trusted i = (i.completed ≡ true) × (is_empty i.transport_error ≡ true) × (i.fresh_cache_home ≡ true)

abbrev pub Untrusted : Input → Type 0
Untrusted i =
    (i.completed ≡ false) ⊎ ((is_empty i.transport_error ≡ false) ⊎ (i.fresh_cache_home ≡ false))

-- When each outcome is due.
abbrev pub Due : Input → Outcome → Type 0
Due i pass = Trusted i × (i.resolved ≡ true) × (i.tests_passed ≡ true)
Due i fail = Trusted i × ((i.resolved ≡ false) ⊎ (i.tests_passed ≡ false))
Due i retry = Untrusted i

decide-Due : (i : Input) (o : Outcome) → (decide i).outcome ≡ o → Due i o
unfolding decide
decide-Due i pass h = ground arith
decide-Due i fail h = ground arith
decide-Due i retry h = ground arith

Due-decide : (i : Input) (o : Outcome) → Due i o → (decide i).outcome ≡ o
unfolding decide
Due-decide i pass h = ground arith
Due-decide i fail h = ground arith
Due-decide i retry h = ground arith

-- The verdict is a retry exactly when the proof did not complete, was not isolated or resolved for
-- a transport reason; otherwise it passes exactly when the artifact resolved and its tests passed,
-- and fails exactly when one of the two did not.
pub decide_iff : (i : Input) (o : Outcome) → ((decide i).outcome ≡ o) ↔ Due i o
decide_iff i o = (decide-Due i o, Due-decide i o)

-- The operator's list of failed checks is empty exactly when the verdict passes.
pub failed_checks-pass : (i : Input) → (failed_checks (decide i) ≡ []) ↔ ((decide i).outcome ≡ pass)
unfolding failed_checks decide
failed_checks-pass i = (λ h. ground (arith, h), λ h. ground (arith, h))
