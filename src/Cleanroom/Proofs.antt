-- ===== src/Cleanroom/Proofs.antt =====
-- The two proofs of internal/coldproof/baseline.go against one another and against the gate.
use semdev.Base.{
  ℕ, ◌≡◌, refl, ap, true, List, [], ◌∷◌, Text, codes, is_empty, Result, ok, err, arith, map,
  Bool-cases, inl, inr, ok-injective, sym, ◌∙◌, same, if◌then◌else◌,
}
use semdev.Harness.{Manifest, missing_run_fields}
use semdev.Cleanroom.Verify.{
  Input, Outcome, pass, completion_check, isolation_check, resolution_check, tests_check,
  check_completion, check_isolation, check_resolution, check_tests, fail, CheckResult, Verdict,
  decide, forbidden_verdict,
}
use semdev.Cleanroom.Coldproof.{Evidence, gather, to_verify_input}
use semdev.Cleanroom.Cold.{ProvedCold, gather-pass}
use semdev.Cleanroom.Baseline.{
  relabel, baseline_prove_check_name, BuiltImage, Baseline, ready, baseline_from_evidence,
  Provisioner, ProofError, plan_of, prove_cold, prove_baseline, prove_artifact, gathered,
  with_secrets, baseline_of, verdict_of, scanned,
}

abbrev names : List CheckResult → List Text
names = map (λ c. c.name)

relabel-name :
    (c : CheckResult) (n : Text)
    → c.name ≡ n
    → (relabel c).name ≡ (if same n check_tests then baseline_prove_check_name else n)
unfolding relabel
relabel-name c n e = elim (Bool-cases (same n check_tests)) [
  | inl h ↦ rw (e, h)
  | inr h ↦ rw (e, h)
]

decide-names :
    (i : Input)
    → ((completion_check i).name ≡ check_completion)
      × ((isolation_check i).name ≡ check_isolation)
      × ((resolution_check i).name ≡ check_resolution)
      × ((tests_check i).name ≡ check_tests)
unfolding completion_check isolation_check resolution_check tests_check
decide-names i = ground arith

-- Whatever the evidence, a baseline has the verdict's outcome, and its four checks are those of
-- the verdict with the last one named for the build.
pub baseline_from_evidence-checks :
    (img : BuiltImage) (ev : Evidence)
    → (names (baseline_from_evidence img ev).verdict.checks
        ≡ codes "completion" ∷ codes "isolation" ∷ codes "resolution" ∷ codes "build" ∷ [])
      × ((baseline_from_evidence img ev).outcome ≡ (decide (to_verify_input ev)).outcome)
unfolding baseline_from_evidence decide same
baseline_from_evidence-checks img ev =
    let (c, i, r, t) = decide-names (to_verify_input ev) in
    (
      cc (
        relabel-name (completion_check (to_verify_input ev)) check_completion c,
        relabel-name (isolation_check (to_verify_input ev)) check_isolation i,
        relabel-name (resolution_check (to_verify_input ev)) check_resolution r,
        relabel-name (tests_check (to_verify_input ev)) check_tests t,
      ),
      refl,
    )

ready-pass : (b : Baseline) → ready b ≡ true → b.outcome ≡ pass
unfolding ready
ready-pass b h = ground arith

forbidden_outcome : (detail : Text) → (forbidden_verdict detail).outcome ≡ fail
unfolding forbidden_verdict
forbidden_outcome detail = refl

abbrev pub outcome_of_verdict : Result ProofError Verdict → Result ProofError Outcome
outcome_of_verdict (ok v) = ok v.outcome
outcome_of_verdict (err e) = err e

abbrev pub outcome_of_baseline : Result ProofError Baseline → Result ProofError Outcome
outcome_of_baseline (ok b) = ok b.outcome
outcome_of_baseline (err e) = err e

module _ {World : Type 0} (env : Provisioner World) (shown : ℕ → Text) (lower : ℕ → ℕ) (root : Text)
    (m : Manifest) where
  -- From this world the secrets were resolved, then the declared image was built, and then the prove
  -- command succeeded cold in a container of that image with those secrets.
  pub record BuiltAndProved (prove_cmd : List Text) (w : World) : Type 0 where
    pub secret_env : List (Text × Text)
    pub with_secrets_at : World
    pub secrets_read : env.secrets w m.secret_refs ≡ (ok secret_env, with_secrets_at)
    pub image : BuiltImage
    pub at : World
    pub built : env.build with_secrets_at root m.image ≡ (ok image, at)
    pub cold :
        ProvedCold
          (env.container image.ref secret_env)
          shown
          lower
          (plan_of env shown lower root m prove_cmd secret_env)
          at

  -- What `proveCold` returns is gathered in a container of the image that it built.
  record Gathered (prove_cmd : List Text) (w : World) (img : BuiltImage) (ev : Evidence)
      : Type 0 where
    secret_env : List (Text × Text)
    with_secrets_at : World
    secrets_read : env.secrets w m.secret_refs ≡ (ok secret_env, with_secrets_at)
    at : World
    built : env.build with_secrets_at root m.image ≡ (ok img, at)
    is_gathered :
        ev
        ≡ (gather
            (env.container img.ref secret_env)
            shown
            lower
            (plan_of env shown lower root m prove_cmd secret_env)
            at).0

  prove_cold-ok :
      (prove_cmd : List Text) (w : World) (img : BuiltImage) (ev : Evidence)
      → (prove_cold env shown lower root m prove_cmd w).0 ≡ ok (img, ev)
      → Gathered prove_cmd w img ev
  unfolding prove_cold
  prove_cold-ok prove_cmd w img ev h = secrets (env.secrets w m.secret_refs) refl h
    where
      image_built :
          (secret_env : List (Text × Text)) (v : World)
          → env.secrets w m.secret_refs ≡ (ok secret_env, v)
          → (r : Result Text BuiltImage × World) → env.build v root m.image ≡ r
          → (gathered env shown lower root m prove_cmd secret_env r).0 ≡ ok (img, ev)
          → Gathered prove_cmd w img ev
      image_built secret_env v read (err e, w') is k = cc
      image_built secret_env v read (ok img', w') is k =
          let pair = ok-injective k in
          let image : img' ≡ img = ap (λ p. p.0) pair in
          let evidence = ap (λ p. p.1) pair in
          record {
            secret_env = secret_env;
            with_secrets_at = v;
            secrets_read = read;
            at = w';
            built = is ∙ ap (λ x. (ok x, w')) image;
            is_gathered = sym evidence ∙ rw image;
          }

      secrets :
          (r : Result Text (List (Text × Text)) × World)
          → env.secrets w m.secret_refs ≡ r
          → (with_secrets env shown lower root m prove_cmd r).0 ≡ ok (img, ev)
          → Gathered prove_cmd w img ev
      secrets (err e, w') is k = cc
      secrets (ok secret_env, w') is k =
          image_built secret_env w' is (env.build w' root m.image) refl k

  proved-cold :
      (prove_cmd : List Text) (w : World) (img : BuiltImage) (ev : Evidence)
      → (prove_cold env shown lower root m prove_cmd w).0 ≡ ok (img, ev)
      → (decide (to_verify_input ev)).outcome ≡ pass
      → BuiltAndProved prove_cmd w
  proved-cold prove_cmd w img ev h passed =
      let g = prove_cold-ok prove_cmd w img ev h in
      record {
        secret_env = g.secret_env;
        with_secrets_at = g.with_secrets_at;
        secrets_read = g.secrets_read;
        image = img;
        at = g.at;
        built = g.built;
        cold =
            gather-pass (env.container img.ref g.secret_env) shown lower
              (plan_of env shown lower root m prove_cmd g.secret_env) g.at
              (ap (λ x. (decide (to_verify_input x)).outcome) (sym g.is_gathered) ∙ passed);
      }

  -- When ProveBaseline returns a baseline and it is ready, the manifest's secrets were resolved,
  -- then the declared image was built, and then, in a container of that image with those secrets,
  -- the repository resolved and its build command passed cold.
  pub prove_baseline-ready :
      (w : World) {b : Baseline}
      → (prove_baseline env shown lower root m w).0 ≡ ok b
      → ready b ≡ true
      → BuiltAndProved m.build_cmd w
  unfolding prove_baseline
  prove_baseline-ready w {b} h r = elim (Bool-cases (is_empty (missing_run_fields m))) [
    | inl complete ↦
        proved (prove_cold env shown lower root m m.build_cmd w) refl (rw complete at h)
    | inr missing ↦ cc (rw missing at h)
  ]
    where
      proved :
          (p : Result ProofError (BuiltImage × Evidence) × World)
          → prove_cold env shown lower root m m.build_cmd w ≡ p
          → (baseline_of env shown lower p).0 ≡ ok b
          → BuiltAndProved m.build_cmd w
      proved (err e, w') is k = cc
      proved (ok (img, ev), w') is k =
          let same_outcome = (baseline_from_evidence-checks img ev).1 in
          let it = ok-injective k in
          proved-cold m.build_cmd w img ev (ap (λ p. p.0) is)
            (sym same_outcome ∙ ap (λ c. c.outcome) it ∙ ready-pass b r)

  -- When ProveArtifact returns a verdict and it passes, the scan of the artifact's build files
  -- found nothing; from there the manifest's secrets were resolved, then the declared image was
  -- built, and then, in a container of that image with those secrets, the artifact resolved and
  -- its test command passed cold.
  pub prove_artifact-pass :
      (w : World) {v : Verdict}
      → (prove_artifact env shown lower root m w).0 ≡ ok v
      → v.outcome ≡ pass
      → (scanned_at : World) × (env.scan w root ≡ (ok [], scanned_at))
        × BuiltAndProved m.test_cmd scanned_at
  unfolding prove_artifact
  prove_artifact-pass w {v} h passed = elim (Bool-cases (is_empty (missing_run_fields m))) [
    | inl complete ↦ clean (env.scan w root) (rw complete at h)
    | inr missing ↦ cc (rw missing at h)
  ]
    where
      proved :
          (w' : World) (p : Result ProofError (BuiltImage × Evidence) × World)
          → prove_cold env shown lower root m m.test_cmd w' ≡ p
          → (verdict_of env shown lower p).0 ≡ ok v
          → BuiltAndProved m.test_cmd w'
      proved w' (err e, w'') is k = cc
      proved w' (ok (img, ev), w'') is k =
          proved-cold m.test_cmd w' img ev (ap (λ p. p.0) is)
            (ap (λ c. c.outcome) (ok-injective k) ∙ passed)

      clean :
          (s : Result Text Text × World)
          → (scanned env shown lower root m s).0 ≡ ok v
          → (scanned_at : World) × (s ≡ (ok [], scanned_at)) × BuiltAndProved m.test_cmd scanned_at
      clean (err e, w') k = cc
      clean (ok [], w') k =
          (w', refl, proved w' (prove_cold env shown lower root m m.test_cmd w') refl k)
      clean (ok (c ∷ found), w') k = cc (forbidden_outcome (c ∷ found), k, passed)

  -- Where the build and the test command are the same and the scan of the build files finds
  -- nothing, ProveBaseline, started where the scan ended, and ProveArtifact come to the same
  -- outcome or to the same error.
  pub prove_baseline-artifact :
      (w w' : World)
      → m.test_cmd ≡ m.build_cmd
      → env.scan w root ≡ (ok [], w')
      → (outcome_of_baseline (prove_baseline env shown lower root m w').0
          ≡ outcome_of_verdict (prove_artifact env shown lower root m w).0)
  unfolding prove_baseline prove_artifact
  prove_baseline-artifact w w' same_cmd clean =
      elim (Bool-cases (is_empty (missing_run_fields m))) [
        | inl complete ↦ rw complete (
            rw clean (
              agree (prove_cold env shown lower root m m.build_cmd w')
              ∙ ap
                  (λ cmd.
                    outcome_of_verdict
                      (verdict_of env shown lower (prove_cold env shown lower root m cmd w')).0)
                  (sym same_cmd)))
        | inr missing ↦ rw missing
      ]
    where
      agree :
          (p : Result ProofError (BuiltImage × Evidence) × World)
          → outcome_of_baseline (baseline_of env shown lower p).0
            ≡ outcome_of_verdict (verdict_of env shown lower p).0
      agree (err e, w'') = refl
      agree (ok (img, ev), w'') = ap ok (baseline_from_evidence-checks img ev).1
