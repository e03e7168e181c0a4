-- ===== src/Openspec/Spec.antt =====
-- `ParseSpec` of internal/openspec/parse.go and `RenderSpec` of internal/openspec/render.go.
use semdev.Base.{
  List, [], ◌∷◌, ◌++◌, Option, none, some, if◌then◌else◌, Text, codes, same, is_empty, trim_space,
  split, join,
}
use semdev.Openspec.Model.{Step, Scenario, Requirement, Spec, Warning, scenario_before_any}
use semdev.Openspec.Lines.{
  Line, scenario, requirement, section, title, blank, prose, bullet_body, parse_step, read_line,
  to_lower,
}

pub data Section : Type 0 where
  purpose : Section
  requirements : Section
  other : Section

-- The variables of the loop over the lines.
pub record Reading : Type 0 where
  pub title : Text
  pub done : List Requirement
  pub warnings : List Warning
  pub section : Section
  pub purpose_lines : List Text
  pub stmt_lines : List Text
  pub cur_req : Option Requirement
  pub cur_scen : Option Scenario

abbrev pub newline : Text
newline = 10 ∷ []

-- `strings.TrimSpace(strings.Join(lines, "\n"))`
unfoldable pub prose_text : List Text → Text
unfolding trim_space join
prose_text lines = trim_space (join newline lines)

-- `flushScenario`, on the requirement that is open.
abbrev pub with_scenario : Option Requirement → Option Scenario → Option Requirement
with_scenario none sc = none
with_scenario (some r) none = some r
with_scenario (some r) (some sc) = some (record r { scenarios = r.scenarios ++ sc ∷ [] })

abbrev pub with_statement : Requirement → List Text → Requirement
with_statement r [] = r
with_statement r (l ∷ ls) = record r { statement = prose_text (l ∷ ls) }

abbrev pub add_req : List Requirement → Option Requirement → List Text → List Requirement
add_req rs none stmt = rs
add_req rs (some r) stmt = rs ++ with_statement r stmt ∷ []

unfoldable pub flush_scenario : Reading → Reading
flush_scenario s = record s { cur_req = with_scenario s.cur_req s.cur_scen; cur_scen = none }

unfoldable pub flush_requirement : Reading → Reading
unfolding prose_text
flush_requirement s = record s {
  done = add_req s.done (with_scenario s.cur_req s.cur_scen) s.stmt_lines;
  cur_req = none;
  cur_scen = none;
  stmt_lines = [];
}

abbrev pub section_of : Text → Section
section_of h =
    if same h (codes "purpose")
    then purpose
    else if same h (codes "requirements")
    then requirements
    else other

abbrev pub new_requirement : Text → Requirement
new_requirement name = record { name = name; statement = []; scenarios = [] }

-- A scenario's heading, with the scenario before it flushed.
abbrev pub open_scenario : Text → Option Requirement → Reading → Reading
open_scenario name none s = record s { warnings = s.warnings ++ scenario_before_any name ∷ [] }
open_scenario name (some r) s = record s { cur_scen = some (record { name = name; steps = [] }) }

abbrev pub take_prose : Text → Section → Option Requirement → Option Scenario → Reading → Reading
take_prose t purpose r sc s = record s { purpose_lines = s.purpose_lines ++ t ∷ [] }
take_prose t requirements (some r) none s = record s { stmt_lines = s.stmt_lines ++ t ∷ [] }
take_prose t other (some r) none s = record s { stmt_lines = s.stmt_lines ++ t ∷ [] }
take_prose t requirements none sc s = s
take_prose t requirements (some r) (some sc) s = s
take_prose t other none sc s = s
take_prose t other (some r) (some sc) s = s

-- A line of text: a bullet of the scenario that is open, or prose.
abbrev pub take_text : Text → Option Text → Option Scenario → Reading → Reading
take_text t (some body) (some sc) s = record s {
  cur_scen = some (record sc { steps = sc.steps ++ parse_step body ∷ [] });
}
take_text t (some body) none s = take_prose t s.section s.cur_req s.cur_scen s
take_text t none sc s = take_prose t s.section s.cur_req s.cur_scen s

unfoldable pub step : Reading → Line → Reading
unfolding flush_scenario flush_requirement same bullet_body parse_step
step s (scenario name) = open_scenario name s.cur_req (flush_scenario s)
step s (requirement name) = record (flush_requirement s) { cur_req = some (new_requirement name) }
step s (section h) = record (flush_requirement s) { section = section_of (to_lower h) }
step s (title t) = record s { title = t }
step s blank = s
step s (prose t) = take_text t (bullet_body t) s.cur_scen s

abbrev pub start : Reading
start = record {
  title = [];
  done = [];
  warnings = [];
  section = other;
  purpose_lines = [];
  stmt_lines = [];
  cur_req = none;
  cur_scen = none;
}

unfoldable pub read_lines : Reading → List Text → Reading
unfolding step read_line
read_lines s [] = s
read_lines s (raw ∷ raws) = read_lines (step s (read_line raw)) raws

abbrev pub spec_of : Reading → Spec
spec_of s = record {
  capability = [];
  title = s.title;
  purpose = prose_text s.purpose_lines;
  requirements = s.done;
  warnings = s.warnings;
}

-- `ParseSpec`
unfoldable pub parse_spec : Text → Spec
unfolding read_lines split flush_requirement
parse_spec md = spec_of (flush_requirement (read_lines start (split 10 md)))

-- A line and its newline in front of the rest.
abbrev pub put_line : Text → Text → Text
put_line l rest = l ++ (10 ∷ rest)

abbrev pub put_body : Text → Text → Text
put_body t rest = if is_empty t then rest else put_line t rest

unfoldable pub step_text : Step → Text
step_text st =
    if is_empty st.keyword
    then st.text
    else if is_empty st.text
    then st.keyword
    else st.keyword ++ (32 ∷ st.text)

-- The renderers put what they write in front of the rest.
unfoldable pub render_steps : List Step → Text → Text
unfolding step_text
render_steps [] rest = rest
render_steps (st ∷ sts) rest = put_line (codes "- " ++ step_text st) (render_steps sts rest)

-- `renderScenario`
unfoldable pub render_scenario : Scenario → Text → Text
unfolding render_steps
render_scenario sc rest =
    put_line [] (put_line (codes "#### Scenario: " ++ sc.name) (render_steps sc.steps rest))

unfoldable pub render_scenarios : List Scenario → Text → Text
unfolding render_scenario
render_scenarios [] rest = rest
render_scenarios (sc ∷ scs) rest = render_scenario sc (render_scenarios scs rest)

abbrev pub annotation : Text → Text → Text → Text
annotation label value rest =
    if is_empty value then rest else put_line (label ++ (value ++ codes ")")) rest

-- `renderRequirement` of a requirement with its annotations, which a capability spec has none of.
unfoldable pub render_requirement : Requirement → Text → Text → Text → Text
unfolding render_scenarios
render_requirement r previously rationale rest = put_line [] (
    put_line (codes "### Requirement: " ++ r.name) (
      put_body r.statement (
        annotation (codes "(Previously: ") previously
          (annotation (codes "(Rationale: ") rationale (render_scenarios r.scenarios rest)))))

unfoldable pub render_requirements : List Requirement → Text → Text
unfolding render_requirement
render_requirements [] rest = rest
render_requirements (r ∷ rs) rest = render_requirement r [] [] (render_requirements rs rest)

abbrev pub purpose_section : Text → Text → Text
purpose_section text rest =
    if is_empty text then rest else put_line [] (put_line (codes "## Purpose") (put_line text rest))

-- `RenderSpec`
unfoldable pub render_spec : Spec → Text
unfolding render_requirements
render_spec s = put_line (codes "# " ++ s.title) (
    purpose_section s.purpose
      (put_line [] (put_line (codes "## Requirements") (render_requirements s.requirements []))))
