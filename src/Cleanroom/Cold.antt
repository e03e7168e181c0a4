-- ===== src/Cleanroom/Cold.antt =====
-- What the evidence of internal/coldproof/coldproof.go stands for.
use semdev.Base.{
  ℕ, ◌≡◌, ◌⊎◌, inl, inr, refl, ap, sym, ◌∙◌, not-true, true, false, not, List, [], ◌∷◌, Text,
  is_empty, is_nat, Result, none, some, Option, ok, err, arith, Bool-cases,
}
use semdev.Runner.{Sandbox, Output, Runner}
use semdev.Cleanroom.Verify.{Outcome, pass, fail, decide}
use semdev.Cleanroom.Classify.{
  ResolveClass, resolve_ok, resolve_failed, resolve_transport, classify_resolve, class_of_match,
  first_match, haystack_of, transport_signatures,
}
use semdev.Cleanroom.Coldproof.{
  Evidence, Plan, exec_step, prove_result, after_resolve, resolve_result, run_steps, gather_raw,
  gather, fresh_evidence, to_verify_input, provisioned,
}
use semdev.Cleanroom.Gate.{decide_iff}

module _ {World : Type 0} (runner : Runner World) (shown : ℕ → Text) (lower : ℕ → ℕ) where
  -- The step ran in the sandbox from the one world to the other, and left this output.
  abbrev pub Ran : Sandbox → List Text → World → Output → World → Type 0
  Ran sb argv before o after = runner.exec before sb argv ≡ (ok o, after)

  -- The definitive conclusions: the resolve step failed with no sign of a transport fault, or it
  -- exited zero and the prove step ran next.
  pub data Conclusion (plan : Plan) (sb : Sandbox) (started : World) (ev : Evidence) : Type 0 where
    unresolved :
        (o : Output) {after : World}
        → Ran sb plan.resolve_cmd started o after
        → is_nat o.exit_code 0 ≡ false
        → first_match (haystack_of lower o) transport_signatures ≡ none
        → ev.resolved ≡ false
        → Conclusion plan sb started ev
    proved :
        (o p : Output) {mid after : World}
        → Ran sb plan.resolve_cmd started o mid
        → is_nat o.exit_code 0 ≡ true
        → Ran sb plan.prove_cmd mid p after
        → ev.resolved ≡ true
        → ev.prove_passed ≡ is_nat p.exit_code 0
        → Conclusion plan sb started ev

  -- Evidence that is complete: it reports no transport fault, and its cache homes are the sandbox's.
  pub record Concluded (plan : Plan) (sb : Sandbox) (started : World) (ev : Evidence) : Type 0 where
    pub no_fault : ev.transport ≡ []
    pub homes : ev.fresh_cache_homes ≡ sb.cache_homes
    pub conclusion : Conclusion plan sb started ev

  exec_step-ok :
      (w : World) (sb : Sandbox) (argv : List Text) {o : Output} {after : World}
      → exec_step runner shown lower w sb argv ≡ (ok o, after)
      → Ran sb argv w o after
  unfolding exec_step
  exec_step-ok w sb [] h = cc (ap (λ r. r.0) h)
  exec_step-ok w sb (a ∷ argv) h = h

  classify-ok :
      (r : Output) (detail : Text)
      → classify_resolve lower r ≡ (resolve_ok, detail)
      → is_nat r.exit_code 0 ≡ true
  unfolding classify_resolve
  classify-ok r detail h = ground (arith, h)

  class_of_match-failed :
      (m : Option Text) (detail : Text) → class_of_match m ≡ (resolve_failed, detail) → m ≡ none
  class_of_match-failed none detail h = refl
  class_of_match-failed (some sig) detail h = cc

  classify-failed :
      (r : Output) (detail : Text)
      → classify_resolve lower r ≡ (resolve_failed, detail)
      → (is_nat r.exit_code 0 ≡ false)
        × (first_match (haystack_of lower r) transport_signatures ≡ none)
  unfolding classify_resolve
  classify-failed r detail h = elim (Bool-cases (is_nat r.exit_code 0)) [
    | inl e ↦ cc (rw e at h)
    | inr e ↦ (
      e,
      class_of_match-failed (first_match (haystack_of lower r) transport_signatures) detail
          (rw e at h),
    )
  ]

  prove_result-Concluded :
      (plan : Plan) (sb : Sandbox) (started mid : World) (ev : Evidence) (o : Output)
      (r : Result Text Output × World)
      → Ran sb plan.resolve_cmd started o mid
      → is_nat o.exit_code 0 ≡ true
      → ev.resolved ≡ true
      → ev.transport ≡ []
      → ev.fresh_cache_homes ≡ sb.cache_homes
      → exec_step runner shown lower mid sb plan.prove_cmd ≡ r
      → (prove_result runner shown lower ev r.0).completed ≡ true
      → Concluded plan sb started (prove_result runner shown lower ev r.0)
  unfolding prove_result
  prove_result-Concluded plan sb started mid ev o (err e, w) ran zero yes_resolved t homes is c = cc
  prove_result-Concluded plan sb started mid ev o (ok p, w) ran zero yes_resolved t homes is c =
      record {
        no_fault = t;
        homes = homes;
        conclusion = proved o p ran zero (exec_step-ok mid sb plan.prove_cmd is) yes_resolved refl;
      }

  after_resolve-Concluded :
      (plan : Plan) (ev : Evidence) (sb : Sandbox) (r : Output) (c : ResolveClass × Text)
      (started w : World)
      → classify_resolve lower r ≡ c
      → ev.transport ≡ []
      → ev.fresh_cache_homes ≡ sb.cache_homes
      → Ran sb plan.resolve_cmd started r w
      → (after_resolve runner shown lower plan ev sb r c w).0.completed ≡ true
      → Concluded plan sb started (after_resolve runner shown lower plan ev sb r c w).0
  unfolding after_resolve
  after_resolve-Concluded plan ev sb r (resolve_transport, detail) started w is t homes ran h = cc
  after_resolve-Concluded plan ev sb r (resolve_failed, detail) started w is t homes ran h =
      let (nonzero, no_signature) = classify-failed r detail is in
      record {
        no_fault = t;
        homes = homes;
        conclusion = unresolved r ran nonzero no_signature refl;
      }
  after_resolve-Concluded plan ev sb r (resolve_ok, detail) started w is t homes ran h =
      prove_result-Concluded plan sb started w
        (record ev { resolved = true; resolve_detail = detail }) r
        (exec_step runner shown lower w sb plan.prove_cmd) ran (classify-ok r detail is) refl t
        homes refl h

  run_steps-Concluded :
      (plan : Plan) (sb : Sandbox) (w : World)
      → (run_steps runner shown lower plan sb w).0.completed ≡ true
      → Concluded plan sb w (run_steps runner shown lower plan sb w).0
  unfolding run_steps
  run_steps-Concluded plan sb w h =
      resolved (exec_step runner shown lower w sb plan.resolve_cmd) refl h
    where
      start : Evidence
      start = fresh_evidence runner shown lower plan sb

      resolved :
          (r : Result Text Output × World)
          → exec_step runner shown lower w sb plan.resolve_cmd ≡ r
          → (resolve_result runner shown lower plan start sb r.0 r.1).0.completed ≡ true
          → Concluded plan sb w (resolve_result runner shown lower plan start sb r.0 r.1).0
      resolved (err e, w') is k = cc
      resolved (ok o, w') is k =
          after_resolve-Concluded plan start sb o (classify_resolve lower o) w w' refl refl refl
            (exec_step-ok w sb plan.resolve_cmd is) k

  -- Complete evidence comes from a sandbox that came up, and from one of the two conclusions there.
  pub gather_raw-Concluded :
      (plan : Plan) (w : World)
      → (gather_raw runner shown lower plan w).0.completed ≡ true
      → (sb : Sandbox) × (started : World) × (runner.up w plan.root plan.cache_envs
          ≡ (ok sb, started))
        × Concluded plan sb started (gather_raw runner shown lower plan w).0
  unfolding gather_raw
  gather_raw-Concluded plan w h = up (runner.up w plan.root plan.cache_envs) h
    where
      up :
          (r : Result Text Sandbox × World)
          → (provisioned runner shown lower plan r).0.completed ≡ true
          → (sb : Sandbox) × (started : World) × (r ≡ (ok sb, started))
            × Concluded plan sb started (provisioned runner shown lower plan r).0
      up (err e, w') k = cc
      up (ok sb, w') k = (sb, w', refl, run_steps-Concluded plan sb w' k)

  -- The isolation came up with at least one cache home that it reports as fresh; there the resolve
  -- step ran first and the prove step next, and both exited zero.
  pub record ProvedCold (plan : Plan) (w : World) : Type 0 where
    pub sb : Sandbox
    pub started : World
    pub up : runner.up w plan.root plan.cache_envs ≡ (ok sb, started)
    pub isolated : is_empty sb.cache_homes ≡ false
    pub resolve_output : Output
    pub resolved : World
    pub resolve_ran : Ran sb plan.resolve_cmd started resolve_output resolved
    pub resolve_zero : is_nat resolve_output.exit_code 0 ≡ true
    pub prove_output : Output
    pub proved_in : World
    pub prove_ran : Ran sb plan.prove_cmd resolved prove_output proved_in
    pub prove_zero : is_nat prove_output.exit_code 0 ≡ true

  -- The isolation came up so, and there the resolve step ran first and exited nonzero with no sign of
  -- a transport fault, or it exited zero, and the prove step ran next and exited nonzero.
  pub record GenuineFailure (plan : Plan) (w : World) : Type 0 where
    pub sb : Sandbox
    pub started : World
    pub up : runner.up w plan.root plan.cache_envs ≡ (ok sb, started)
    pub isolated : is_empty sb.cache_homes ≡ false
    pub resolve_output : Output
    pub resolved : World
    pub resolve_ran : Ran sb plan.resolve_cmd started resolve_output resolved
    pub cause :
        ((is_nat resolve_output.exit_code 0 ≡ false)
          × (first_match (haystack_of lower resolve_output) transport_signatures ≡ none))
        ⊎ ((is_nat resolve_output.exit_code 0 ≡ true)
            × (p : Output) × (after : World) × Ran sb plan.prove_cmd resolved p after
            × (is_nat p.exit_code 0 ≡ false))

  abbrev outcome_at : Plan → World → Outcome
  outcome_at plan w = (decide (to_verify_input (gather runner shown lower plan w).0)).outcome

  isolated_of :
      (sb : Sandbox) (homes : List Text)
      → homes ≡ sb.cache_homes
      → not (is_empty homes) ≡ true
      → is_empty sb.cache_homes ≡ false
  isolated_of sb homes e h = rw (← e) (not-true _ h)

  pass-ProvedCold :
      (plan : Plan) (w : World) (sb : Sandbox) (started : World) (ev : Evidence)
      → runner.up w plan.root plan.cache_envs ≡ (ok sb, started)
      → Concluded plan sb started ev
      → ev.resolved ≡ true
      → ev.prove_passed ≡ true
      → not (is_empty ev.fresh_cache_homes) ≡ true
      → ProvedCold plan w
  pass-ProvedCold plan w sb started ev up c r p fresh = cold c.conclusion
    where
      cold : Conclusion plan sb started ev → ProvedCold plan w
      cold (unresolved o ran nonzero sign e) = cc (e, r)
      cold (proved o q {mid} {after} ran zero ran' yes_resolved e) = record {
        sb = sb;
        started = started;
        up = up;
        isolated = isolated_of sb ev.fresh_cache_homes c.homes fresh;
        resolve_output = o;
        resolved = mid;
        resolve_ran = ran;
        resolve_zero = zero;
        prove_output = q;
        proved_in = after;
        prove_ran = ran';
        prove_zero = sym e ∙ p;
      }

  fail-GenuineFailure :
      (plan : Plan) (w : World) (sb : Sandbox) (started : World) (ev : Evidence)
      → runner.up w plan.root plan.cache_envs ≡ (ok sb, started)
      → Concluded plan sb started ev
      → (ev.resolved ≡ false) ⊎ (ev.prove_passed ≡ false)
      → not (is_empty ev.fresh_cache_homes) ≡ true
      → GenuineFailure plan w
  fail-GenuineFailure plan w sb started ev up c bad fresh = genuine c.conclusion bad
    where
      isolated : is_empty sb.cache_homes ≡ false
      isolated = isolated_of sb ev.fresh_cache_homes c.homes fresh

      genuine :
          Conclusion plan sb started ev
          → (ev.resolved ≡ false) ⊎ (ev.prove_passed ≡ false)
          → GenuineFailure plan w
      genuine (unresolved o {after} ran nonzero sign e) b = record {
        sb = sb;
        started = started;
        up = up;
        isolated = isolated;
        resolve_output = o;
        resolved = after;
        resolve_ran = ran;
        cause = inl (nonzero, sign);
      }
      genuine (proved o q ran zero ran' yes_resolved e) (inl b) = cc (yes_resolved, b)
      genuine (proved o q {mid} {after} ran zero ran' yes_resolved e) (inr b) = record {
        sb = sb;
        started = started;
        up = up;
        isolated = isolated;
        resolve_output = o;
        resolved = mid;
        resolve_ran = ran;
        cause = inr (zero, q, after, ran', sym e ∙ b);
      }

  -- No false green: when the verdict on what Gather found passes, a sandbox came up with at least
  -- one cache home that it reports as fresh; in it the resolve command ran first, the prove
  -- command ran next, and both exited zero.
  pub gather-pass : (plan : Plan) (w : World) → outcome_at plan w ≡ pass → ProvedCold plan w
  gather-pass plan w h =
      let ((done, _, fresh), r, p) = (decide_iff _ pass).0 h in
      let (sb, started, up, c) =
        gather_raw-Concluded plan w (unfold gather to_verify_input in done) in
      unfold gather to_verify_input in pass-ProvedCold plan w sb started _ up c r p fresh

  -- No false red: when the verdict on what Gather found fails, a sandbox came up with at least one
  -- cache home that it reports as fresh, and in it the resolve command ran first and either exited
  -- nonzero with no signature of a transport fault in its output, or exited zero, and the prove
  -- command ran next and exited nonzero.
  pub gather-fail : (plan : Plan) (w : World) → outcome_at plan w ≡ fail → GenuineFailure plan w
  gather-fail plan w h =
      let ((done, _, fresh), bad) = (decide_iff _ fail).0 h in
      let (sb, started, up, c) =
        gather_raw-Concluded plan w (unfold gather to_verify_input in done) in
      unfold gather to_verify_input in fail-GenuineFailure plan w sb started _ up c bad fresh
