-- ===== src/Standards/LaneGate.antt =====
-- What the checks lane of internal/standards/checks.go guarantees when it does not reject.
use semdev.Base.{
  ◌≡◌, refl, Bool, true, false, not, ◌&&◌, List, [], ◌∷◌, ◌++◌, Option, ◌⊎◌, inl, inr, All, Text,
  codes, is_empty, is_nat, Result, ok, err, arith, Bool-cases, or-false, map, ap, sym, Option-cases,
  ok-injective,
}
use semdev.Runner.{Sandbox, Output, Runner}
use semdev.Findings.{Finding, any_rejected}
use semdev.Standards.Decl.{Check}
use semdev.Standards.Lane.{
  Status, unproven, proven, Detail, LaneError, Control, not_run, passes, fails, control_of, shell,
  finding, command_finding, run_command, after_control, run_one, keep_finding, and_then, run_checks,
}

abbrev pub floor_name : Check → Text
floor_name c = codes "repo-check:" ++ c.name

abbrev pub floor_names : List Check → List Text
floor_names = map floor_name

abbrev pub floors_of : List (Finding Detail) → List Text
floors_of = map (λ f. f.floor)

module _ {World : Type 0} (runner : Runner World) (sb : Sandbox) where
  -- The command ran in the sandbox in some state of the world, and exited zero or not.
  pub record Exited (command : Text) (zero : Bool) : Type 0 where
    pub at : World
    pub output : Output
    pub ran : (runner.exec at sb (shell command)).0 ≡ ok output
    pub status : is_nat output.exit_code 0 ≡ zero

  -- The check's command exited zero, and its negative control, if it has one, did not.
  pub record Proved (c : Check) : Type 0 where
    pub gate : Exited c.command true
    pub control : (is_empty c.proof ≡ true) ⊎ Exited c.proof false

  command_finding-passed :
      (c : Check) (s : Status) (r : Result Text Output)
      → (command_finding c s r).passed ≡ true
      → (o : Output) × (r ≡ ok o) × (is_nat o.exit_code 0 ≡ true)
  unfolding command_finding
  command_finding-passed c s (err e) p = cc
  command_finding-passed c s (ok o) p = (o, refl, ground arith)

  run_command-passed :
      (c : Check) (s : Status) (w : World) {f : Finding Detail}
      → (run_command runner sb c s w).0 ≡ ok f
      → f.passed ≡ true
      → Exited c.command true
  unfolding run_command
  run_command-passed c s w h p =
      let r = (runner.exec w sb (shell c.command)).0 in
      let (o, ran, zero) = command_finding-passed c s r (ground (arith, h, p)) in
      record { at = w; output = o; ran = ran; status = zero }

  control_of-fails :
      (r : Result Text Output)
      → control_of r ≡ fails
      → (o : Output) × (r ≡ ok o) × (is_nat o.exit_code 0 ≡ false)
  control_of-fails (err e) h = cc
  control_of-fails (ok o) h = (o, refl, ground arith)

  abbrev result_passed : Result LaneError (Finding Detail) → Bool
  result_passed (ok f) = f.passed
  result_passed (err e) = false

  after_control-passed :
      (c : Check) (k : Control) (w : World) {f : Finding Detail}
      → (after_control runner sb c k w).0 ≡ ok f
      → f.passed ≡ true
      → (k ≡ fails) × Exited c.command true
  unfolding finding
  after_control-passed c (not_run e) w h p = cc (ap (λ r. result_passed r) h, p)
  after_control-passed c passes w h p = cc
  after_control-passed c fails w h p = (refl, run_command-passed c proven w h p)

  run_one-undeclared :
      (c : Check) (w : World)
      → is_empty c.proof ≡ true
      → run_one runner sb c w ≡ run_command runner sb c unproven w
  unfolding run_one
  run_one-undeclared c w e = rw e

  run_one-declared :
      (c : Check) (w : World)
      → is_empty c.proof ≡ false
      → run_one runner sb c w
        ≡ after_control runner sb c
            (control_of (runner.exec w sb (shell c.proof)).0)
            (runner.exec w sb (shell c.proof)).1
  unfolding run_one
  run_one-declared c w e = rw e

  -- A passing finding of a check means that its command exited zero, and that its negative
  -- control, where one is declared, exited nonzero.
  pub run_one-passed :
      (c : Check) (w : World) {f : Finding Detail}
      → (run_one runner sb c w).0 ≡ ok f
      → f.passed ≡ true
      → Proved c
  run_one-passed c w h p = elim (Bool-cases (is_empty c.proof)) [
    | inl undeclared ↦ record {
      gate = run_command-passed c unproven w (rw (run_one-undeclared c w undeclared) at h) p;
      control = inl undeclared;
    }
    | inr declared ↦
        let r = (runner.exec w sb (shell c.proof)).0 in
        let w' = (runner.exec w sb (shell c.proof)).1 in
        let (failed_first, gate) =
          after_control-passed c (control_of r) w' (rw (run_one-declared c w declared) at h) p in
        let (o, ran, status) = control_of-fails r failed_first in
        record {
          gate = gate;
          control = inr (record { at = w; output = o; ran = ran; status = status });
        }
  ]

  pub run_one-finding :
      (c : Check) (w : World) {f : Finding Detail}
      → (run_one runner sb c w).0 ≡ ok f
      → (f.floor ≡ floor_name c) × (f.advisory ≡ not c.required)
  unfolding run_one
  run_one-finding c w h = ground arith

  keep_finding-ok :
      (f : Finding Detail) (r : Result LaneError (List (Finding Detail)) × World)
      {fs : List (Finding Detail)}
      → (keep_finding f r).0 ≡ ok fs
      → (rest : List (Finding Detail)) × (r.0 ≡ ok rest) × (fs ≡ f ∷ rest)
  keep_finding-ok f (ok rest, w) h = (rest, refl, sym (ok-injective h))
  keep_finding-ok f (err e, w) h = cc

  and_then-ok :
      (r : Result LaneError (Finding Detail) × World)
      (others : World → Result LaneError (List (Finding Detail)) × World)
      {fs : List (Finding Detail)}
      → (and_then r others).0 ≡ ok fs
      → (f : Finding Detail) × (rest : List (Finding Detail)) × (w' : World) × (r.0 ≡ ok f)
        × ((others w').0 ≡ ok rest)
        × (fs ≡ f ∷ rest)
  and_then-ok (err e, w) others h = cc
  and_then-ok (ok f, w) others h =
      let (rest, later, e) = keep_finding-ok f (others w) h in (f, rest, w, refl, later, e)

  run_checks-cons :
      (ctx_err : World → Option Text) (c : Check) (cs : List Check) (w : World)
      {fs : List (Finding Detail)}
      → (run_checks runner sb ctx_err (c ∷ cs) w).0 ≡ ok fs
      → (and_then (run_one runner sb c w) (run_checks runner sb ctx_err cs)).0 ≡ ok fs
  unfolding run_checks
  run_checks-cons ctx_err c cs w h = elim (Option-cases (ctx_err w)) [
    | inl e ↦ rw (e, run_checks) at h
    | inr (t, e) ↦ cc (rw (e, run_checks) at h)
  ]

  gate_of :
      (c : Check) (w : World) {f : Finding Detail}
      → (run_one runner sb c w).0 ≡ ok f
      → (not f.passed && not f.advisory) ≡ false
      → (c.required ≡ false) ⊎ Proved c
  gate_of c w h keep = elim (Bool-cases c.required) [
    | inl required ↦ inr (run_one-passed c w h (ground (arith, required, run_one-finding c w h)))
    | inr advisory ↦ inl advisory
  ]

  -- When the checks run to the end there is one finding for each, in order, and with no rejecting
  -- finding every required check is proved: its command exited zero, and its declared negative
  -- control exited nonzero.
  pub run_checks-ok :
      (ctx_err : World → Option Text) (cs : List Check) (w : World) {fs : List (Finding Detail)}
      → (run_checks runner sb ctx_err cs w).0 ≡ ok fs
      → (floors_of fs ≡ floor_names cs)
        × (any_rejected fs ≡ false → All (λ c. (c.required ≡ false) ⊎ Proved c) cs)
  unfolding any_rejected run_checks
  run_checks-ok ctx_err [] w h = rw (← ok-injective h) (refl, λ _. tt)
  run_checks-ok ctx_err (c ∷ cs) w h =
      let (f, rest, w', one, later, e) =
        and_then-ok (run_one runner sb c w) (run_checks runner sb ctx_err cs)
          (run_checks-cons ctx_err c cs w h) in
      let (named, proved) = run_checks-ok ctx_err cs w' later in
      let floor : f.floor ≡ floor_name c = (run_one-finding c w one).0 in
      rw e (
        cc (floor, named),
        λ none_rejected.
            let (this, others) = or-false (not f.passed && not f.advisory) _ none_rejected in
            (gate_of c w one this, proved others),
      )
