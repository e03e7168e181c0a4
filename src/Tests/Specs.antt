-- ===== src/Tests/Specs.antt =====
-- The capability specs of internal/openspec at small documents.
use semdev.Base.{all, true, false, ◌≡◌, refl, [], ◌∷◌, ◌++◌, Text, codes, trim_space, split, join}
use semdev.Openspec.Margin.{at_margin}
use semdev.Openspec.Canonical.{IsSpec}
use semdev.Openspec.SpecRoundTrip.{parse_spec-render_spec}
use semdev.Openspec.Stable.{parse_spec_stable, parse_spec-IsSpec}
use semdev.Openspec.TasksStable.{is_named, parse_tasks_stable}
use semdev.Openspec.Tasks.{read_line as read_task_line, parse_tasks, render_tasks}
use semdev.Openspec.Model.{Tasks, Spec, scenario_before_any}
use semdev.Openspec.Lines.{read_line}
use semdev.Openspec.Spec.{newline, parse_spec, render_spec, prose_text}

abbrev lines : Text
lines = join newline (
    codes "# Auth Specification  "
    ∷ codes ""
    ∷ codes "## purpose"
    ∷ codes "  Sessions."
    ∷ codes "#### Scenario: lost"
    ∷ codes "## Requirements"
    ∷ codes "### Requirement: Login"
    ∷ codes "The system SHALL log in."
    ∷ codes "- and out"
    ∷ codes "#### Scenario: ok "
    ∷ codes "* when  a user logs in"
    ∷ codes "prose"
    ∷ codes "+ gone"
    ∷ [])

abbrev auth : Spec
auth = record {
  capability = [];
  title = codes "Auth Specification";
  purpose = codes "Sessions.";
  requirements =
      record {
        name = codes "Login";
        statement = codes "The system SHALL log in." ++ (10 ∷ codes "- and out");
        scenarios =
            record {
              name = codes "ok";
              steps =
                  record { keyword = codes "WHEN"; text = codes "a user logs in" }
                  ∷ record { keyword = []; text = codes "gone" }
                  ∷ [];
            }
            ∷ [];
      }
      ∷ [];
  warnings = scenario_before_any (codes "lost") ∷ [];
}

parse_auth : parse_spec lines ≡ auth
unfolding parse_spec prose_text
parse_auth = refl

parse_render : parse_spec (render_spec auth) ≡ record auth { warnings = [] }
unfolding parse_spec render_spec
parse_render = refl

margin : all at_margin (split 10 lines) ≡ true
unfolding split join read_line trim_space
margin = refl

auth-IsSpec : IsSpec auth
unfolding parse_spec prose_text
auth-IsSpec = parse_spec-IsSpec lines margin

parse_spec-render_spec_example : parse_spec (render_spec auth) ≡ record auth { warnings = [] }
parse_spec-render_spec_example = parse_spec-render_spec auth auth-IsSpec

parse_spec_stable_example :
    parse_spec (render_spec (parse_spec lines)) ≡ record (parse_spec lines) { warnings = [] }
parse_spec_stable_example = parse_spec_stable lines margin

-- An indented heading is a statement at first, and a title the second time.
abbrev indented : Text
indented = join newline (codes "### Requirement: R" ∷ codes "  # T" ∷ [])

indented_first : (parse_spec indented).title ≡ []
unfolding parse_spec join prose_text
indented_first = refl

indented_again : (parse_spec (render_spec (parse_spec indented))).title ≡ codes "T"
unfolding parse_spec render_spec join prose_text
indented_again = refl

abbrev task_lines : Text
task_lines = join newline (
    codes "# Tasks"
    ∷ codes "* 1.1 first"
    ∷ codes "## Build"
    ∷ codes "- [X] 2. second"
    ∷ codes "- [ ] third"
    ∷ codes "- [ ]"
    ∷ [])

abbrev build : Tasks
build = record {
  title = codes "Tasks";
  sections =
      record {
        name = [];
        tasks = record { number = codes "1.1"; text = codes "first"; done = false } ∷ [];
      }
      ∷ record {
        name = codes "Build";
        tasks =
            record { number = codes "2."; text = codes "second"; done = true }
            ∷ record { number = []; text = codes "third"; done = false }
            ∷ record { number = []; text = []; done = false }
            ∷ [];
      }
      ∷ [];
}

parse_build : parse_tasks task_lines ≡ build
unfolding parse_tasks join trim_space
parse_build = refl

render_build : parse_tasks (render_tasks build) ≡ build
unfolding parse_tasks render_tasks trim_space
render_build = refl

every_name : all is_named (split 10 task_lines) ≡ true
unfolding split join read_task_line trim_space
every_name = refl

parse_tasks_stable_example :
    parse_tasks (render_tasks (parse_tasks task_lines)) ≡ parse_tasks task_lines
parse_tasks_stable_example = parse_tasks_stable task_lines every_name
