-- ===== src/Tests/Lane.antt =====
-- The checks lane of internal/standards over a sandbox in which one command, the negative control, fails.
use semdev.Base.{
  ◌≡◌, ◌⊎◌, refl, List, [], ◌∷◌, ◌++◌, Text, codes, pos, ok, true, false, none, some, same, has,
  All, if◌then◌else◌, trim_space, split, contains, fields, is_blank,
}
use semdev.Runner.{Sandbox, Output, Runner}
use semdev.Findings.{Finding, any_rejected}
use semdev.Standards.Decl.{Check, validate_check, kebab_token}
use semdev.Standards.Gates.{
  check_defect, proof_defect, effective_lines, first_word_base, exits_zero, exits_non_zero,
}
use semdev.Standards.Scan.{top_level_separator, strip_comment}
use semdev.Standards.Parse.{
  Yaml, YamlFile, decoded, parse, parse_raw, parse_checks, parse_standards, reject_null_entries,
}
use semdev.Standards.Snapshots.{Snapshots, lookup}
use semdev.Standards.Lane.{
  Lane, Detail, proven, exited_zero, finding, run_one, run_checks, run_lane,
}
use semdev.Standards.LaneGate.{floors_of, floor_names, Proved, run_one-passed, run_checks-ok}
use semdev.Standards.LaneSettled.{Settled, run_lane-Settled}

abbrev sandbox : Sandbox
sandbox = record { work_dir = codes "/work"; env = []; cache_homes = []; handle = codes "c1" }

abbrev command_of : List Text → Text
command_of (sh ∷ c ∷ command ∷ []) = command
command_of _ = []

abbrev output : List Text → Output
output argv = record {
  exit_code = pos (if same (command_of argv) (codes "make bad") then 1 else 0);
  stdout = [];
  stderr = [];
}

-- The world is the list of the commands that ran.
abbrev runner : Runner (List Text)
runner = record {
  up = λ w root envs. (ok sandbox, w);
  exec = λ w sb argv. (ok (output argv), w ++ command_of argv ∷ []);
  down = λ w sb. (none, w);
}

abbrev check : Check
check = record {
  name = codes "lint";
  command = codes "make lint";
  required = true;
  proof = codes "make bad";
  warnings = [];
}

abbrev lint_finding : Finding Detail
lint_finding = record {
  floor = codes "repo-check:lint";
  passed = true;
  detail = exited_zero proven (codes "make lint");
  advisory = false;
}

-- The control runs first.
run_one_order : (run_one runner sandbox check []).1 ≡ codes "make bad" ∷ codes "make lint" ∷ []
unfolding run_one same
run_one_order = refl

run_one-passed_example : Proved runner sandbox check
unfolding run_one same finding
run_one-passed_example = run_one-passed runner sandbox check [] {f = lint_finding} refl refl

run_checks-ok_example :
    (floors_of (lint_finding ∷ []) ≡ floor_names (check ∷ []))
    × (any_rejected (lint_finding ∷ []) ≡ false
        → All (λ c. (c.required ≡ false) ⊎ Proved runner sandbox c) (check ∷ []))
unfolding run_checks run_one same finding
run_checks-ok_example =
    run_checks-ok runner sandbox (λ w. none) (check ∷ []) [] {fs = lint_finding ∷ []} refl

abbrev yaml_file : YamlFile
yaml_file = record {
  version = pos 1;
  standards = [];
  checks =
      record {
        name = codes "lint";
        command = codes "make lint";
        required = true;
        proof = codes "make bad";
      }
      ∷ [];
}

abbrev yaml : Yaml
yaml = record { decode = λ bytes. decoded yaml_file; at_end = λ bytes. true; root = λ bytes. none }

parse_checked : parse yaml (codes "file") ≡ ok (record { standards = []; checks = check ∷ [] })
unfolding parse reject_null_entries parse_raw parse_checks parse_standards validate_check is_blank
    has trim_space split contains fields check_defect proof_defect effective_lines first_word_base
    exits_zero exits_non_zero top_level_separator strip_comment kebab_token
parse_checked = refl

abbrev snapshots : Snapshots
snapshots = some ((codes "run-1", record { raw = codes "file"; declared = true }) ∷ [])

abbrev lane : Lane (List Text)
lane = record {
  provisioned = some snapshots;
  resolve = some (λ w run. (ok sandbox, w));
  runner = runner;
  ctx_err = λ w. none;
}

run_lane-Settled_example : Settled yaml lane (codes "run-1") [] (lint_finding ∷ [])
unfolding run_lane lookup same run_one finding
run_lane-Settled_example =
    run_lane-Settled yaml lane (codes "run-1") [] {fs = lint_finding ∷ []} (rw parse_checked)
