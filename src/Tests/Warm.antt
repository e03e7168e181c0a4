-- ===== src/Tests/Warm.antt =====
-- The registry of internal/runspace/sandboxes.go over runners that count their sandboxes.
use semdev.Base.{
  ℕ, ◌+◌, ◌-◌, ◌≡◌, refl, [], ◌∷◌, none, some, Text, codes, length, ok, err, pos, same,
}
use semdev.Runner.{Runner, Sandbox}
use semdev.Cleanroom.Teardown.{Counts}
use semdev.Runspace.{Warm, not_warm, provision, resolve, close_all, find, drop}
use semdev.Runspace.Registry.{Distinct}
use semdev.Runspace.Table.{table, resolve-table}
use semdev.Runspace.Leaks.{Steps, here, next, provisions, opened-Steps}

abbrev sandbox : Sandbox
sandbox = record { work_dir = codes "/work"; env = []; cache_homes = []; handle = codes "c1" }

abbrev counting : Runner ℕ
counting = record {
  up = λ w root envs. (ok sandbox, w + 1);
  exec = λ w sb argv. (ok (record { exit_code = pos 0; stdout = []; stderr = [] }), w);
  down = λ w sb. (none, w - 1);
}

abbrev runner_of : Text → Runner ℕ
runner_of image = counting

abbrev opened : ℕ → ℕ
opened w = w

counts : (image : Text) → Counts (runner_of image) opened
counts image = record {
  up_ok = λ w root envs sb h. refl;
  up_err = λ w root envs e h. cc;
  exec = λ w sb argv. refl;
  down = λ w sb. refl;
}

abbrev entry : Text × Warm ℕ
entry = (codes "run-1", record { runner = counting; sandbox = sandbox })

-- A second provision of a run takes the place of the first, whose sandbox is torn down.
provision_again :
    provision runner_of (codes "run-1") (codes "img") (codes "/src") [] (entry ∷ []) 1
    ≡ ((ok sandbox, entry ∷ []), 1)
unfolding provision find drop same
provision_again = refl

once_provisioned : Steps runner_of opened ([], 0) (entry ∷ [], 1)
once_provisioned =
    unfold provision find drop in
    next here (provisions (codes "run-1") (codes "img") (codes "/src") [] [] 0)

opened-Steps_example :
    (1 ≡ 0 + length (entry ∷ [])) × Distinct (entry ∷ []) × ((close_all (entry ∷ []) 1).1 ≡ 0)
opened-Steps_example = opened-Steps runner_of opened counts 0 (entry ∷ []) 1 once_provisioned

resolve-table_example :
    resolve (codes "run-1") (entry ∷ [])
    ≡ (elim (table runner_of opened once_provisioned (codes "run-1")) [
      | none ↦ err (not_warm (codes "run-1"))
      | some warm ↦ ok warm
    ])
resolve-table_example = resolve-table runner_of opened once_provisioned (codes "run-1")
