-- ===== src/Cleanroom/Baseline.antt =====
-- The two cold proofs: internal/coldproof/baseline.go. Building the image, resolving the governed secrets
-- and scanning the build files touch docker, the store and the disk; they are the fields of
-- `Provisioner`, each a function of the world. An error is a constructor with what it wraps.
use semdev.Base.{
  ℕ, Bool, List, [], ◌∷◌, if◌then◌else◌, Text, codes, is_empty, same, Result, ok, err, map,
}
use semdev.Runner.{Runner}
use semdev.Harness.{ImageDecl, Manifest, missing_run_fields}
use semdev.Secrets.Scrub.{new_scrubber}
use semdev.Cleanroom.Verify.{
  Outcome, pass, CheckResult, Verdict, decide, forbidden_verdict, check_tests,
}
use semdev.Cleanroom.Coldproof.{Evidence, Plan, gather, to_verify_input}

pub record BuiltImage : Type 0 where
  pub ref : Text
  pub digest : Text

pub record Baseline : Type 0 where
  pub image : BuiltImage
  pub outcome : Outcome
  pub verdict : Verdict

abbrev is_pass : Outcome → Bool
is_pass pass = Bool.true
is_pass _ = Bool.false

unfoldable pub ready : Baseline → Bool
ready b = is_pass b.outcome

abbrev pub baseline_prove_check_name : Text
baseline_prove_check_name = codes "build"

unfoldable pub relabel : CheckResult → CheckResult
relabel c = if same c.name check_tests then record c { name = baseline_prove_check_name } else c

unfoldable pub relabel_prove_check : List CheckResult → List CheckResult
unfolding relabel
relabel_prove_check = map relabel

unfoldable pub baseline_from_evidence : BuiltImage → Evidence → Baseline
unfolding relabel_prove_check
baseline_from_evidence img ev =
    let verdict = decide (to_verify_input ev) in
    record {
      image = img;
      outcome = verdict.outcome;
      verdict = record verdict { checks = relabel_prove_check verdict.checks };
    }

pub data ProofError : Type 0 where
  missing_fields : Text → List Text → ProofError
  secrets_failed build_failed scan_failed : Text → ProofError

-- `secrets` is `secrets.ResolveAll` over the store, `build` is `cleanroom.BuildImage`, `scan` is
-- `forbidden.Scan` with its findings rendered by `Detail` ("" if there are none), and `container`
-- is `NewContainerRunnerWithSecrets`.
pub record Provisioner (World : Type 0) : Type 0 where
  pub secrets : World → List Text → Result Text (List (Text × Text)) × World
  pub build : World → Text → ImageDecl → Result Text BuiltImage × World
  pub scan : World → Text → Result Text Text × World
  pub container : Text → List (Text × Text) → Runner World

module _ {World : Type 0} (env : Provisioner World) (shown : ℕ → Text) (lower : ℕ → ℕ) where
  abbrev pub plan_of : Text → Manifest → List Text → List (Text × Text) → Plan
  plan_of root m prove_cmd secret_env = record {
    root = root;
    cache_envs = m.cache_home_envs;
    resolve_cmd = m.resolve_cmd;
    prove_cmd = prove_cmd;
    scrubbed = new_scrubber secret_env;
  }

  abbrev pub gathered :
      Text
      → Manifest
      → List Text
      → List (Text × Text)
      → Result Text BuiltImage × World
      → Result ProofError (BuiltImage × Evidence) × World
  gathered root m prove_cmd secret_env (err e, w) = (err (build_failed e), w)
  gathered root m prove_cmd secret_env (ok img, w) =
      let (ev, w') =
        gather (env.container img.ref secret_env) shown lower (plan_of root m prove_cmd secret_env)
          w in
      (ok (img, ev), w')

  abbrev pub with_secrets :
      Text
      → Manifest
      → List Text
      → Result Text (List (Text × Text)) × World
      → Result ProofError (BuiltImage × Evidence) × World
  with_secrets root m prove_cmd (err e, w) = (err (secrets_failed e), w)
  with_secrets root m prove_cmd (ok secret_env, w) =
      gathered root m prove_cmd secret_env (env.build w root m.image)

  unfoldable pub prove_cold :
      Text → Manifest → List Text → World → Result ProofError (BuiltImage × Evidence) × World
  prove_cold root m prove_cmd w = with_secrets root m prove_cmd (env.secrets w m.secret_refs)

  abbrev pub baseline_of :
      Result ProofError (BuiltImage × Evidence) × World → Result ProofError Baseline × World
  baseline_of (err e, w) = (err e, w)
  baseline_of (ok (img, ev), w) = (ok (baseline_from_evidence img ev), w)

  unfoldable pub prove_baseline : Text → Manifest → World → Result ProofError Baseline × World
  unfolding prove_cold
  prove_baseline root m w =
      let missing = missing_run_fields m in
      if is_empty missing
      then baseline_of (prove_cold root m m.build_cmd w)
      else (err (missing_fields m.profile missing), w)

  abbrev pub verdict_of :
      Result ProofError (BuiltImage × Evidence) × World → Result ProofError Verdict × World
  verdict_of (err e, w) = (err e, w)
  verdict_of (ok (img, ev), w) = (ok (decide (to_verify_input ev)), w)

  abbrev pub scanned :
      Text → Manifest → Result Text Text × World → Result ProofError Verdict × World
  scanned root m (err e, w) = (err (scan_failed e), w)
  scanned root m (ok [], w) = verdict_of (prove_cold root m m.test_cmd w)
  scanned root m (ok (c ∷ found), w) = (ok (forbidden_verdict (c ∷ found)), w)

  unfoldable pub prove_artifact : Text → Manifest → World → Result ProofError Verdict × World
  unfolding prove_cold
  prove_artifact root m w =
      let missing = missing_run_fields m in
      if is_empty missing
      then scanned root m (env.scan w root)
      else (err (missing_fields m.profile missing), w)
