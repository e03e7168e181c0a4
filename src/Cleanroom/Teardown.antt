-- ===== src/Cleanroom/Teardown.antt =====
-- Every sandbox that a cold proof of internal/coldproof brings up it also takes down: the deferred
-- `Down` of `gatherRaw`.
use semdev.Base.{ℕ, ◌+◌, ◌-◌, ◌≡◌, refl, ap, sym, ◌∙◌, List, [], ◌∷◌, Text, Result, ok, err, arith}
use semdev.Runner.{Sandbox, Output, Runner}
use semdev.Cleanroom.Classify.{
  ResolveClass, resolve_ok, resolve_failed, resolve_transport, classify_resolve,
}
use semdev.Cleanroom.Coldproof.{
  Evidence, Plan, exec_step, after_resolve, resolve_result, run_steps, provisioned, gather,
  fresh_evidence,
}

-- `opened` counts the sandboxes that are up in a world. What a runner promises of it: `Up` opens one
-- if it succeeds and none if it fails, `Exec` opens and closes none, and `Down` closes one.
pub record Counts {World : Type 0} (runner : Runner World) (opened : World → ℕ) : Type 0 where
  pub up_ok :
      (w : World) (root : Text) (envs : List Text) (sb : Sandbox)
      → (runner.up w root envs).0 ≡ ok sb
      → opened (runner.up w root envs).1 ≡ opened w + 1
  pub up_err :
      (w : World) (root : Text) (envs : List Text) (e : Text)
      → (runner.up w root envs).0 ≡ err e
      → opened (runner.up w root envs).1 ≡ opened w
  pub exec :
      (w : World) (sb : Sandbox) (argv : List Text) → opened (runner.exec w sb argv).1 ≡ opened w
  pub down : (w : World) (sb : Sandbox) → opened (runner.down w sb).1 ≡ opened w - 1

module _ {World : Type 0} (runner : Runner World) (shown : ℕ → Text) (lower : ℕ → ℕ)
    (opened : World → ℕ) (counts : Counts runner opened) where
  opened-exec_step :
      (w : World) (sb : Sandbox) (argv : List Text)
      → opened (exec_step runner shown lower w sb argv).1 ≡ opened w
  unfolding exec_step
  opened-exec_step w sb [] = refl
  opened-exec_step w sb (a ∷ argv) = counts.exec w sb (a ∷ argv)

  opened-after_resolve :
      (plan : Plan) (ev : Evidence) (sb : Sandbox) (r : Output) (c : ResolveClass × Text)
      (w : World)
      → opened (after_resolve runner shown lower plan ev sb r c w).1 ≡ opened w
  unfolding after_resolve
  opened-after_resolve plan ev sb r (resolve_transport, detail) w = refl
  opened-after_resolve plan ev sb r (resolve_failed, detail) w = refl
  opened-after_resolve plan ev sb r (resolve_ok, detail) w = opened-exec_step w sb plan.prove_cmd

  opened-resolve_result :
      (plan : Plan) (ev : Evidence) (sb : Sandbox) (r : Result Text Output) (w : World)
      → opened (resolve_result runner shown lower plan ev sb r w).1 ≡ opened w
  unfolding resolve_result
  opened-resolve_result plan ev sb (err e) w = refl
  opened-resolve_result plan ev sb (ok r) w =
      opened-after_resolve plan ev sb r (classify_resolve lower r) w

  opened-run_steps :
      (plan : Plan) (sb : Sandbox) (w : World)
      → opened (run_steps runner shown lower plan sb w).1 ≡ opened w
  unfolding run_steps
  opened-run_steps plan sb w =
      let step = exec_step runner shown lower w sb plan.resolve_cmd in
      opened-resolve_result plan (fresh_evidence runner shown lower plan sb) sb step.0 step.1
      ∙ opened-exec_step w sb plan.resolve_cmd

  -- With a runner whose up adds one open sandbox when it succeeds and none when it fails, whose
  -- exec keeps the number and whose down takes one away, Gather leaves as many sandboxes open as
  -- it found, on every path.
  pub opened-gather :
      (plan : Plan) (w : World) → opened (gather runner shown lower plan w).1 ≡ opened w
  unfolding gather
  opened-gather plan w = up (runner.up w plan.root plan.cache_envs) refl
    where
      up :
          (r : Result Text Sandbox × World)
          → runner.up w plan.root plan.cache_envs ≡ r
          → opened (provisioned runner shown lower plan r).1 ≡ opened w
      up (err e, w') is =
          ap (λ r. opened r.1) (sym is)
          ∙ counts.up_err w plan.root plan.cache_envs e (ap (λ r. r.0) is)
      up (ok sb, w') is =
          let up_one = counts.up_ok w plan.root plan.cache_envs sb (ap (λ r. r.0) is) in
          let there : opened (runner.up w plan.root plan.cache_envs).1 ≡ opened w' =
            ap (λ r. opened r.1) is in
          let steps = run_steps runner shown lower plan sb w' in
          omega (arith, counts.down steps.1 sb, opened-run_steps plan sb w')
