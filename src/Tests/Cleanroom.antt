-- ===== src/Tests/Cleanroom.antt =====
-- The clean-room proofs of internal/coldproof over a runner whose world counts the sandboxes that are up.
use semdev.Base.{
  none, contains, trim_space, byte_len, drop_bytes, ℕ, ◌+◌, ◌-◌, ◌≡◌, refl, List, [], ◌∷◌, Text,
  codes, pos, ok, true, false,
}
use semdev.Runner.{Runner}
use semdev.Harness.{Manifest, missing_run_fields}
use semdev.Cleanroom.Verify.{Input, Verdict, decide}
use semdev.Cleanroom.Classify.{classify_resolve}
use semdev.Cleanroom.Coldproof.{Plan, gather, to_verify_input}
use semdev.Cleanroom.Baseline.{
  Provisioner, Baseline, prove_baseline, prove_artifact, baseline_from_evidence, ready,
}
use semdev.Secrets.Scrub.{scrub, new_scrubber}
use semdev.Cleanroom.Cold.{ProvedCold, GenuineFailure, gather-pass, gather-fail}
use semdev.Cleanroom.Teardown.{Counts, opened-gather}
use semdev.Cleanroom.Proofs.{
  outcome_of_baseline, outcome_of_verdict, BuiltAndProved, prove_baseline-ready,
  prove_artifact-pass, prove_baseline-artifact,
}

abbrev shown : ℕ → Text
shown n = codes "1"

abbrev lower : ℕ → ℕ
lower c = c

-- A runner in which every step exits with this status.
abbrev exits : ℕ → Runner ℕ
exits status = record {
  up = λ w root envs.
      (ok (record { work_dir = root; env = []; cache_homes = envs; handle = codes "c1" }), w + 1);
  exec = λ w sb argv.
      (ok (record { exit_code = pos status; stdout = []; stderr = codes "missing" }), w);
  down = λ w sb. (none, w - 1);
}

abbrev plan : Plan
plan = record {
  root = codes "/repo";
  cache_envs = codes "GOMODCACHE" ∷ [];
  resolve_cmd = codes "resolve" ∷ [];
  prove_cmd = codes "test" ∷ [];
  scrubbed = [];
}

gather-pass_example : ProvedCold (exits 0) shown lower plan 0
unfolding gather to_verify_input decide classify_resolve scrub contains trim_space byte_len
    drop_bytes
gather-pass_example = gather-pass (exits 0) shown lower plan 0 refl

gather-fail_example : GenuineFailure (exits 1) shown lower plan 0
unfolding gather to_verify_input decide classify_resolve scrub contains trim_space byte_len
    drop_bytes
gather-fail_example = gather-fail (exits 1) shown lower plan 0 refl

counts : Counts (exits 0) (λ w. w)
counts = record {
  up_ok = λ w root envs sb h. refl;
  up_err = λ w root envs e h. cc;
  exec = λ w sb argv. refl;
  down = λ w sb. refl;
}

opened-gather_example : (gather (exits 0) shown lower plan 3).1 ≡ 3
opened-gather_example = opened-gather (exits 0) shown lower (λ w. w) counts plan 3

abbrev evidence : Input
evidence = record {
  completed = true;
  transport_error = [];
  fresh_cache_home = true;
  cache_home_detail = [];
  resolved = false;
  resolve_detail = codes "missing";
  tests_passed = false;
  tests_detail = [];
}

abbrev manifest : Manifest
manifest = record {
  profile = codes "go";
  image = record { dockerfile = codes "Dockerfile"; devcontainer = []; context = [] };
  cache_home_envs = codes "GOMODCACHE" ∷ [];
  resolve_cmd = codes "go" ∷ codes "mod" ∷ codes "download" ∷ [];
  build_cmd = codes "make" ∷ [];
  test_cmd = codes "make" ∷ [];
  tiers = [];
  secret_refs = [];
}

abbrev env : Provisioner ℕ
env = record {
  secrets = λ w refs. (ok [], w);
  build = λ w root image. (ok (record { ref = codes "img"; digest = codes "sha" }), w);
  scan = λ w root. (ok [], w);
  container = λ ref secrets. exits 0;
}

abbrev plan_with : List Text → Plan
plan_with prove_cmd = record {
  root = codes "/repo";
  cache_envs = manifest.cache_home_envs;
  resolve_cmd = manifest.resolve_cmd;
  prove_cmd = prove_cmd;
  scrubbed = [];
}

abbrev verdict : Verdict
verdict = decide (to_verify_input (gather (exits 0) shown lower (plan_with manifest.test_cmd) 0).0)

prove_artifact-pass_example :
    (scanned_at : ℕ) × (env.scan 0 (codes "/repo") ≡ (ok [], scanned_at))
    × BuiltAndProved env shown lower (codes "/repo") manifest manifest.test_cmd scanned_at
unfolding prove_artifact missing_run_fields gather to_verify_input decide classify_resolve scrub
    new_scrubber
prove_artifact-pass_example =
    prove_artifact-pass env shown lower (codes "/repo") manifest 0 {v = verdict} refl refl

abbrev baseline : Baseline
baseline =
    baseline_from_evidence (record { ref = codes "img"; digest = codes "sha" })
      (gather (exits 0) shown lower (plan_with manifest.build_cmd) 0).0

prove_baseline-ready_example :
    BuiltAndProved env shown lower (codes "/repo") manifest manifest.build_cmd 0
unfolding prove_baseline missing_run_fields gather to_verify_input decide classify_resolve scrub
    new_scrubber baseline_from_evidence ready
prove_baseline-ready_example =
    prove_baseline-ready env shown lower (codes "/repo") manifest 0 {b = baseline} refl refl

prove_baseline-artifact_example :
    outcome_of_baseline (prove_baseline env shown lower (codes "/repo") manifest 0).0
    ≡ outcome_of_verdict (prove_artifact env shown lower (codes "/repo") manifest 0).0
prove_baseline-artifact_example =
    prove_baseline-artifact env shown lower (codes "/repo") manifest 0 0 refl refl
