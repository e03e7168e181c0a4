-- ===== src/Standards/LaneJudged.antt =====
-- What each finding of the checks lane of internal/standards/checks.go comes of: the runs of its check, in
-- the order of the loop.
use semdev.Base.{
  ◌≡◌, refl, Bool, true, false, not, List, [], ◌∷◌, Option, none, ap, inl, inr, Text, is_empty,
  is_nat, Result, ok, err, Bool-cases, Option-cases, ok-injective,
}
use semdev.Runner.{Sandbox, Output, Runner}
use semdev.Findings.{Finding}
use semdev.Standards.Decl.{Check}
use semdev.Standards.Lane.{
  Status, unproven, proven, Detail, LaneError, shell, finding, command_finding, run_command,
  after_control, control_of, run_one, keep_finding, and_then, run_checks,
}
use semdev.Standards.LaneGate.{floor_name}

-- The finding is the check's, and says that it passed or that it did not.
pub record IsFinding (c : Check) (passed : Bool) (f : Finding Detail) : Type 0 where
  pub floor : f.floor ≡ floor_name c
  pub advisory : f.advisory ≡ not c.required
  pub verdict : f.passed ≡ passed

-- A command that could not be run did not.
abbrev pub exits_zero : Result Text Output → Bool
exits_zero (err e) = false
exits_zero (ok o) = is_nat o.exit_code 0

module _ {World : Type 0} (runner : Runner World) (sb : Sandbox) where
  -- The finding of a check whose runs lead from the one world to the other: without a control its
  -- command ran; with one, the control ran first, and the command only if the control exited nonzero.
  pub data Judged (c : Check) (w : World) : Finding Detail → World → Type 0 where
    by_command :
        {f : Finding Detail} {after : World} (r : Result Text Output)
        → is_empty c.proof ≡ true
        → runner.exec w sb (shell c.command) ≡ (r, after)
        → IsFinding c (exits_zero r) f
        → Judged c w f after
    by_control :
        {f : Finding Detail} {after : World} (e : Text)
        → is_empty c.proof ≡ false
        → runner.exec w sb (shell c.proof) ≡ (err e, after)
        → IsFinding c false f
        → Judged c w f after
    by_both :
        {f : Finding Detail} {mid after : World} (o : Output) (r : Result Text Output)
        → is_empty c.proof ≡ false
        → runner.exec w sb (shell c.proof) ≡ (ok o, mid)
        → is_nat o.exit_code 0 ≡ false
        → runner.exec mid sb (shell c.command) ≡ (r, after)
        → IsFinding c (exits_zero r) f
        → Judged c w f after

  -- One finding for each check, one check after the other, none once the context is done.
  pub data AllJudged (ctx_err : World → Option Text)
      : World → List Check → List (Finding Detail) → Type 0 where
    none_left : {w : World} → AllJudged ctx_err w [] []
    judged :
        {w after : World} {c : Check} {cs : List Check} {f : Finding Detail}
        {fs : List (Finding Detail)}
        → ctx_err w ≡ none
        → Judged c w f after
        → AllJudged ctx_err after cs fs
        → AllJudged ctx_err w (c ∷ cs) (f ∷ fs)

  command_finding-IsFinding :
      (c : Check) (s : Status) (r : Result Text Output)
      → IsFinding c (exits_zero r) (command_finding c s r)
  unfolding command_finding finding
  command_finding-IsFinding c s (err e) = record { floor = refl; advisory = refl; verdict = refl }
  command_finding-IsFinding c s (ok o) = elim (Bool-cases (is_nat o.exit_code 0)) [
    | inl e ↦ rw e (record { floor = refl; advisory = refl; verdict = refl })
    | inr e ↦ rw e (record { floor = refl; advisory = refl; verdict = refl })
  ]

  -- What a check's run gives when it gives a finding.
  abbrev Gives : Check → World → Result LaneError (Finding Detail) × World → Type 0
  Gives c w (err e, after) = Unit
  Gives c w (ok f, after) = Judged c w f after

  controlled-Gives :
      (c : Check) (w : World) (r : Result Text Output × World)
      → is_empty c.proof ≡ false
      → runner.exec w sb (shell c.proof) ≡ r
      → Gives c w (after_control runner sb c (control_of r.0) r.1)
  unfolding run_command finding
  controlled-Gives c w (err e, after) declared is =
      by_control e declared is (record { floor = refl; advisory = refl; verdict = refl })
  controlled-Gives c w (ok o, mid) declared is = elim (Bool-cases (is_nat o.exit_code 0)) [
    | inl zero ↦ rw zero tt
    | inr nonzero ↦ rw nonzero (
        by_both o (runner.exec mid sb (shell c.command)).0 declared is nonzero refl
          (command_finding-IsFinding c proven (runner.exec mid sb (shell c.command)).0))
  ]

  run_one-Gives : (c : Check) (w : World) → Gives c w (run_one runner sb c w)
  unfolding run_one run_command
  run_one-Gives c w = elim (Bool-cases (is_empty c.proof)) [
    | inl none_declared ↦ rw none_declared (
        by_command (runner.exec w sb (shell c.command)).0 none_declared refl
          (command_finding-IsFinding c unproven (runner.exec w sb (shell c.command)).0))
    | inr declared ↦
        rw declared (controlled-Gives c w (runner.exec w sb (shell c.proof)) declared refl)
  ]

  -- The loop after a check, where the rest of it is judged.
  module _ (ctx_err : World → Option Text) (c : Check) (cs : List Check) (w : World)
      (later : (v : World) (fs : List (Finding Detail))
        → (run_checks runner sb ctx_err cs v).0 ≡ ok fs
        → AllJudged ctx_err v cs fs)
      (running : ctx_err w ≡ none) where
    kept-AllJudged :
        {f : Finding Detail} {after : World} {fs : List (Finding Detail)}
        → Judged c w f after
        → (r : Result LaneError (List (Finding Detail)) × World)
        → run_checks runner sb ctx_err cs after ≡ r
        → (keep_finding f r).0 ≡ ok fs
        → AllJudged ctx_err w (c ∷ cs) fs
    kept-AllJudged j (err e, v) is k = cc
    kept-AllJudged {f} {after} j (ok rest, v) is k =
        rw (← ok-injective k) (judged running j (later after rest (ap (λ r. r.0) is)))

    and_then-AllJudged :
        {fs : List (Finding Detail)} (one : Result LaneError (Finding Detail) × World)
        → Gives c w one
        → (and_then one (run_checks runner sb ctx_err cs)).0 ≡ ok fs
        → AllJudged ctx_err w (c ∷ cs) fs
    and_then-AllJudged (err e, v) g k = cc
    and_then-AllJudged (ok f, v) g k = kept-AllJudged g (run_checks runner sb ctx_err cs v) refl k

  pub run_checks-AllJudged :
      (ctx_err : World → Option Text) (cs : List Check) (w : World) {fs : List (Finding Detail)}
      → (run_checks runner sb ctx_err cs w).0 ≡ ok fs
      → AllJudged ctx_err w cs fs
  unfolding run_checks
  run_checks-AllJudged ctx_err [] w h = rw (← ok-injective h) none_left
  run_checks-AllJudged ctx_err (c ∷ cs) w h = elim (Option-cases (ctx_err w)) [
    | inr (t, e) ↦ cc (rw (e, run_checks) at h)
    | inl running ↦
        and_then-AllJudged ctx_err c cs w (λ v fs k. run_checks-AllJudged ctx_err cs v k) running
          (run_one runner sb c w) (run_one-Gives c w) (rw (running, run_checks) at h)
  ]
