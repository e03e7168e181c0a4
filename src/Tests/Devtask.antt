-- ===== src/Tests/Devtask.antt =====
-- The projection of internal/devtask/project.go at concrete tasks.
use semdev.Base.{◌≡◌, ◌↔◌, refl, [], ◌∷◌, List, some, codes, is_blank, ℤ, pos, negsuc, ok, err}
use semdev.Devtask.{
  RawTask, TaskSpec, duplicate_index, check_indices, schema_gaps, gaps_of, specs_of, sort_by,
  spec_with, project,
}
use semdev.Devtask.Projected.{Projectable, Projected, project-Projected, project_iff}

abbrev task : ℤ → ℤ → RawTask
task i budget = record {
  index = i;
  goal = codes " add a flag ";
  assumptions = some [];
  non_goals = some [];
  target_files = codes "main.go" ∷ [];
  test_command = codes "go test";
  budget = some budget;
}

abbrev two_tasks : List RawTask
two_tasks = task (pos 1) (pos 9) ∷ task (pos 0) (negsuc 2) ∷ []

abbrev two_specs : List TaskSpec
two_specs =
    spec_with (task (pos 0) (negsuc 2)) (negsuc 2) ∷ spec_with (task (pos 1) (pos 9)) (pos 9) ∷ []

project_two : project two_tasks ≡ ok two_specs
unfolding project check_indices gaps_of schema_gaps is_blank specs_of sort_by
project_two = refl

project_twice :
    project (task (pos 0) (pos 1) ∷ task (pos 0) (pos 1) ∷ []) ≡ err (duplicate_index (pos 0))
unfolding project check_indices
project_twice = refl

project-Projected_example : Projected two_tasks two_specs
project-Projected_example = project-Projected two_tasks project_two

project_iff_example : ((ss : List TaskSpec) × (project two_tasks ≡ ok ss)) ↔ Projectable two_tasks
project_iff_example = project_iff two_tasks
